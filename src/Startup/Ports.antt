-- ===== src/Startup/Ports.antt =====
-- Where and how the servers come to listen.
use architecture_course.Prelude.{
  ℕ, suc, ◌+◌, ◌*◌, ◌^◌, ◌/◌, ◌<◌, Option, none, some, String, Option-cases, sym, ◌∙◌, Bool, true,
  false, ◌≡◌, refl, arith, ap, ◌≢◌, if◌then◌else◌, subst, Bool-cases, inl, inr, ◌⊎◌,
}
use architecture_course.Prelude.Int.{ℤ, pos, negsuc, ltb_ℤ}
use architecture_course.Logger.Factory.{Quill}
use architecture_course.Startup.{
  terminates, is_least_int, overflowing, ConfigFile, missing, malformed, parsed, Toml, Network,
  Serving, Outcome, exits, undefined, serves, Program, grpc, auction, json_rpc, soap, rest, chat,
  port_of, others_of, host_of, text_or, configured_port, threads_of, asio_start, start, refused,
  main,
}

-- The integer and the port differ by a multiple of 2^16.
abbrev pub IsCongruent : ℤ → ℕ → Type 0
IsCongruent (pos n) port = (k : ℕ) × (n ≡ port + k * 2 ^ 16)
IsCongruent (negsuc n) port = (k : ℕ) × (port + suc n ≡ k * 2 ^ 16)

port_of_lem : (n : ℤ) → (port_of n < 2 ^ 16) × IsCongruent n (port_of n)
unfolding port_of
port_of_lem (pos n) = (omega arith, (n / 2 ^ 16, omega arith))
port_of_lem (negsuc n) = (omega arith, (n / 2 ^ 16 + 1, omega arith))

module _ {ℓ} {T : Type ℓ} (toml : Toml T) where
  -- The threads that `main` starts beside its own: in the auction server and the JSON-RPC server one less
  -- than the configuration says, where the auction server takes a number below 1 for 1, and none in the
  -- others.
  abbrev pub IsManned : Program → T → ℕ → Type 0
  IsManned auction cfg started =
      let threads = threads_of toml (pos 2) cfg in
      (threads ≡ pos (suc started)) ⊎ ((started ≡ 0) × (ltb_ℤ threads (pos 1) ≡ true))
  IsManned json_rpc cfg started = threads_of toml (pos 1) cfg ≡ pos (suc started)
  IsManned program cfg started = started ≡ 0

  -- The host of the configuration, or 0.0.0.0 where it has none.
  abbrev pub IsHost : T → String → Type 0
  IsHost cfg host =
      (toml.text_at "server_parameters" "host" cfg ≡ some host)
      ⊎ ((toml.text_at "server_parameters" "host" cfg ≡ none) × (host ≡ "0.0.0.0"))

  host_of_lem : (cfg : T) → IsHost cfg (host_of toml cfg)
  host_of_lem cfg = elim (Option-cases (toml.text_at "server_parameters" "host" cfg)) [
    | inl e ↦ inr (e, ap (text_or "0.0.0.0") e)
    | inr (s, e) ↦ inl (e ∙ sym (ap (λ o. some (text_or "0.0.0.0" o)) e))
  ]

module _ {κ} {Q : Type κ} (network : Network) where
  asio_lem :
      (server s : Serving Q)
      → asio_start network server ≡ serves s
      → (server ≡ s) × (network.opens server.host server.asked_port ≡ true)
  asio_lem server s e = elim (Bool-cases (network.is_address server.host)) [
    | inr a ↦ absurd (ground (arith, a, e))
    | inl a ↦ elim (Bool-cases (network.opens server.host server.asked_port)) [
      | inr o ↦ absurd (ground (arith, a, o, e))
      | inl o ↦ let same : server ≡ s = ground (arith, a, o, e) in (same, o)
    ]
  ]

  overflowing-true : (o : Outcome Q) (s : Serving Q) → overflowing true o ≢ serves s
  overflowing-true (serves server) s e = cc
  overflowing-true (exits n) s e = cc
  overflowing-true terminates s e = cc
  overflowing-true undefined s e = cc

  -- The JSON-RPC server serves with enough threads only.
  enough_lem :
      (least few : Bool) (o : Outcome Q) (s : Serving Q)
      → (if least then overflowing true o else (if few then exits 1 else o)) ≡ serves s
      → (few ≡ false) × (o ≡ serves s)
  enough_lem true few o s e = absurd (overflowing-true o s e)
  enough_lem false true o s e = absurd cc
  enough_lem false false o s e = (refl, e)

  overflowing_lem :
      (b : Bool) (o : Outcome Q) (s : Serving Q) → overflowing b o ≡ serves s → o ≡ serves s
  overflowing_lem true o s e = absurd (overflowing-true o s e)
  overflowing_lem false o s e = e

  -- A server that opens its port serves.
  opened_lem :
      (server s : Serving Q) (otherwise : Outcome Q)
      → ((t : Serving Q) → otherwise ≢ serves t)
      → (if network.opens server.host server.asked_port then serves server else otherwise)
        ≡ serves s
      → (server ≡ s) × (network.opens server.host server.asked_port ≡ true)
  opened_lem server s otherwise never e =
      elim (Bool-cases (network.opens server.host server.asked_port)) [
        | inl o ↦ let same : server ≡ s = ground (arith, o, e) in (same, o)
        | inr o ↦ absurd (never s (rw o at e))
      ]

module _ {ℓ κ} {T : Type ℓ} {Q : Type κ} (toml : Toml T) (network : Network) where
  pub record IsServing (program : Program) (cfg : T) (server : Serving Q) : Type 0 where
    pub host : IsHost toml cfg server.host
    pub bound : server.asked_port < 2 ^ 16
    pub congruent : IsCongruent (configured_port toml program cfg) server.asked_port
    pub manned : IsManned toml program cfg server.started_threads
    pub listens : network.opens server.host server.asked_port ≡ true

  -- A server as `serving` makes it, with a logger or without, serves.
  made-IsServing :
      (program : Program) (cfg : T) (logger : Option Q) (started : ℕ) (s : Serving Q)
      → IsManned toml program cfg started
      → ◌≡◌ {A = Serving Q}
          (record {
            logger = logger;
            host = host_of toml cfg;
            asked_port = port_of (configured_port toml program cfg);
            started_threads = started;
          })
          s
        × (network.opens (host_of toml cfg) (port_of (configured_port toml program cfg)) ≡ true)
      → IsServing program cfg s
  made-IsServing program cfg logger started s m (e, o) =
      let (bound, congruent) = port_of_lem (configured_port toml program cfg) in
      subst (IsServing program cfg) e (record {
        host = host_of_lem toml cfg;
        bound = bound;
        congruent = congruent;
        manned = m;
        listens = o;
      })

others_of_lem :
    (n : ℤ) → (n ≡ pos (suc (others_of n))) ⊎ ((others_of n ≡ 0) × (ltb_ℤ n (pos 1) ≡ true))
others_of_lem (pos n) = elim (Bool-cases (ltb_ℤ (pos n) (pos 1))) [
  | inl b ↦ inr (ground (arith, b), b)
  | inr b ↦ inl (ap pos (ground (arith, b)))
]
others_of_lem (negsuc n) = inr (refl, ground arith)

module _ {ℓ κ} {T : Type ℓ} {B Q S : Type κ} (toml : Toml T) (network : Network)
    (quill : Quill B Q S) (ndebug : Bool) (backend : B) where
  refused_lem :
      (program : Program) (s : Serving Q)
      → refused toml network quill ndebug backend program ≢ serves s
  refused_lem grpc s e = cc
  refused_lem auction s e = cc
  refused_lem json_rpc s e = cc
  refused_lem soap s e = cc
  refused_lem rest s e = cc
  refused_lem chat s e = cc

  start-IsServing :
      (program : Program) (cfg : T) (s : Serving Q)
      → start toml network quill ndebug backend program cfg ≡ serves s
      → IsServing toml network program cfg s
  start-IsServing grpc cfg s e =
      made-IsServing toml network grpc cfg _ 0 s refl
        (opened_lem network _ s undefined (λ t f. cc) e)
  start-IsServing rest cfg s e =
      made-IsServing toml network rest cfg none 0 s refl
        (opened_lem network _ s (exits 0) (λ t f. cc) e)
  start-IsServing chat cfg s e =
      made-IsServing toml network chat cfg _ 0 s refl
        (opened_lem network _ s (exits 0) (λ t f. cc) e)
  start-IsServing soap cfg s e =
      made-IsServing toml network soap cfg _ 0 s refl (asio_lem network _ s e)
  start-IsServing auction cfg s e =
      made-IsServing toml network auction cfg _ _ s (others_of_lem (threads_of toml (pos 2) cfg))
        (asio_lem network _ s (overflowing_lem network _ _ s e))
  start-IsServing json_rpc cfg s e =
      let threads = threads_of toml (pos 1) cfg in
      let (enough, started) =
        enough_lem network (is_least_int threads) (ltb_ℤ threads (pos 1)) _ s e in
      elim (others_of_lem threads) [
        | inr (none_left, few) ↦ absurd (ground (arith, few, enough))
        | inl many ↦
            made-IsServing toml network json_rpc cfg _ _ s many (asio_lem network _ s started)
      ]

  -- If one of the six servers comes to serve, then there is a configuration, and the server asks to listen
  -- on its host, or on 0.0.0.0 where it names none, and on a port below 2^16, which differs from the
  -- configured one, or from the server's default, by a multiple of 2^16. In the auction server
  -- and the JSON-RPC server, `main` starts one thread less than the number of threads of the
  -- configuration, or of the default, which is at least 1 in the JSON-RPC server, and none for a number
  -- below 1 in the auction server. In the four others `main` itself starts none.
  pub main-IsServing :
      (program : Program) (file : ConfigFile T) (s : Serving Q)
      → main toml network quill ndebug backend program file ≡ serves s
      → (cfg : T) × (file ≡ parsed cfg) × IsServing toml network program cfg s
  unfolding main
  main-IsServing program (parsed cfg) s e = (cfg, refl, start-IsServing program cfg s e)
  main-IsServing program missing s e = absurd (refused_lem program s e)
  main-IsServing program malformed s e = absurd (refused_lem program s e)
