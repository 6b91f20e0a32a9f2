-- ===== src/Startup.antt =====
-- The start of the servers: `main` of src/grpc_server, src/websocket_auction_server,
-- src/json_rpc_server, src/soap_server, src/rest_server and src/long_polling_chat_server (main.cpp of
-- each). The file cfg.toml, the network and quill are parameters.
use architecture_course.Prelude.{
  ℕ, ◌-◌, ◌^◌, ◌%◌, String, Option, none, some, Bool, if◌then◌else◌, false, true, ◌==◌, nat_eq,
}
use architecture_course.Prelude.Int.{ℤ, pos, negsuc, ltb_ℤ}
use architecture_course.Logger.Factory.{Config, Quill, LoggerFactory, new_factory, init, get_logger}
pub mod Ports
mod Tests

-- cfg.toml: it is not there, it is no TOML, or it is read.
pub data ConfigFile {ℓ} (T : Type ℓ) : Type ℓ where
  missing : ConfigFile T
  malformed : ConfigFile T
  parsed : T → ConfigFile T

-- `cfg[section][key]`, where it is there and of the wanted kind. An integer is one that an `int` holds.
pub record Toml {ℓ} (T : Type ℓ) : Type ℓ where
  pub text_at : String → String → T → Option String
  pub int_at : String → String → T → Option ℤ

-- `make_address` of a text, and whether the address and port can be listened on.
pub record Network : Type 0 where
  pub is_address : String → Bool
  pub opens : String → ℕ → Bool

-- A server that listens. `asked_port` is the port that it asks for: for 0 the system chooses one.
-- `started_threads` are the threads that `main` itself starts beside its own; those of gRPC, of
-- httplib and of the connections of the SOAP server are not counted.
pub record Serving {ℓ} (Q : Type ℓ) : Type ℓ where
  pub logger : Option Q
  pub host : String
  pub asked_port : ℕ
  pub started_threads : ℕ

-- The status of `main`, an exception that nothing catches, undefined behaviour (a call on a
-- null pointer, a signed overflow), or a server.
pub data Outcome {ℓ} (Q : Type ℓ) : Type ℓ where
  exits : ℕ → Outcome Q
  terminates : Outcome Q
  undefined : Outcome Q
  serves : Serving Q → Outcome Q

pub data Program : Type 0 where
  grpc auction json_rpc soap rest chat : Program

abbrev pub text_or : String → Option String → String
text_or default none = default
text_or default (some s) = s

abbrev pub int_or : ℤ → Option ℤ → ℤ
int_or default none = default
int_or default (some n) = n

-- `static_cast<unsigned short>`
unfoldable pub port_of : ℤ → ℕ
port_of (pos n) = n % 2 ^ 16
port_of (negsuc n) = 2 ^ 16 - 1 - n % 2 ^ 16

abbrev pub default_port : Program → ℤ
default_port grpc = pos 15000
default_port auction = pos 18080
default_port json_rpc = pos 8080
default_port soap = pos 8080
default_port rest = pos 15000
default_port chat = pos 17000

abbrev pub default_log : Program → String
default_log grpc = "grpc_server.log"
default_log auction = "websocket_auction_server.log"
default_log json_rpc = "json_rpc_server.log"
default_log soap = "soap_server.log"
default_log rest = ""
default_log chat = "long_polling_chat_server.log"

-- `threads - 1` of an `int` above 0, and 0 for the others
abbrev pub others_of : ℤ → ℕ
others_of (pos n) = n - 1
others_of (negsuc n) = 0

-- The `int` from which 1 cannot be subtracted.
abbrev pub is_least_int : ℤ → Bool
is_least_int (pos n) = false
is_least_int (negsuc n) = n == 2 ^ 31 - 1

-- A server that would serve after an overflow.
abbrev pub overflowing {ℓ} : {Q : Type ℓ} → Bool → Outcome Q → Outcome Q
overflowing true (serves server) = undefined
overflowing b outcome = outcome

module _ {ℓ} {T : Type ℓ} (toml : Toml T) where
  abbrev pub logging_of : T → Config
  logging_of cfg = record {
    log_level = toml.int_at "logging" "log_level" cfg;
    log_dir = toml.text_at "logging" "log_dir" cfg;
  }

  abbrev pub host_of : T → String
  host_of cfg = text_or "0.0.0.0" (toml.text_at "server_parameters" "host" cfg)

  abbrev pub configured_port : Program → T → ℤ
  configured_port program cfg =
      int_or (default_port program) (toml.int_at "server_parameters" "port" cfg)

  abbrev pub threads_of : ℤ → T → ℤ
  threads_of default cfg = int_or default (toml.int_at "server_parameters" "threads" cfg)

module _ {κ} {Q : Type κ} (network : Network) where
  -- A server of Boost.Asio: an address that is none, or one that cannot be listened on, is an exception.
  abbrev pub asio_start : Serving Q → Outcome Q
  asio_start server =
      if network.is_address server.host
      then (if network.opens server.host server.asked_port then serves server else exits 1)
      else exits 1

module _ {ℓ κ} {T : Type ℓ} {B Q S : Type κ} (toml : Toml T) (network : Network)
    (quill : Quill B Q S) (ndebug : Bool) (backend : B) where
  -- `Init`, and `GetLogger` for the name of the configuration.
  abbrev pub logger_of : Program → T → Q
  logger_of program cfg =
      let (factory, started) = init quill (logging_of toml cfg) (new_factory quill) backend in
      (get_logger quill ndebug
        (text_or (default_log program) (toml.text_at "logging" "filename" cfg)) factory started).0

  abbrev pub serving : Program → T → ℕ → Serving Q
  serving program cfg started_threads = record {
    logger = some (logger_of program cfg);
    host = host_of toml cfg;
    asked_port = port_of (configured_port toml program cfg);
    started_threads = started_threads;
  }

  -- `main` of each server, with what it does with the configuration that it has read.
  abbrev pub grpc_start : T → Outcome Q
  grpc_start cfg =
      let server = serving grpc cfg 0 in
      if network.opens server.host server.asked_port then serves server else undefined

  abbrev pub auction_start : T → Outcome Q
  auction_start cfg =
      let threads = threads_of toml (pos 2) cfg in
      overflowing (is_least_int threads)
        (asio_start network (serving auction cfg (others_of threads)))

  -- `v.reserve(threads - 1)` throws for a number of threads below 1.
  abbrev pub json_rpc_start : T → Outcome Q
  json_rpc_start cfg =
      let threads = threads_of toml (pos 1) cfg in
      let started = asio_start network (serving json_rpc cfg (others_of threads)) in
      let few = if ltb_ℤ threads (pos 1) then exits 1 else started in
      if is_least_int threads then overflowing true started else few

  abbrev pub soap_start : T → Outcome Q
  soap_start cfg = asio_start network (serving soap cfg 0)

  abbrev pub rest_start : T → Outcome Q
  rest_start cfg =
      let server = record (serving rest cfg 0) { logger = none } in
      if network.opens server.host server.asked_port then serves server else exits 0

  abbrev pub chat_start : T → Outcome Q
  chat_start cfg =
      let server = serving chat cfg 0 in
      if network.opens server.host server.asked_port then serves server else exits 0

  abbrev pub start : Program → T → Outcome Q
  start grpc = grpc_start
  start auction = auction_start
  start json_rpc = json_rpc_start
  start soap = soap_start
  start rest = rest_start
  start chat = chat_start

  -- Without a configuration, an exception that `main` catches; the REST server catches none.
  abbrev pub refused : Program → Outcome Q
  refused rest = terminates
  refused program = exits 1

  unfoldable pub main : Program → ConfigFile T → Outcome Q
  main program missing = refused program
  main program malformed = refused program
  main program (parsed cfg) = start program cfg
