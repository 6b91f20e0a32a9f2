-- ===== src/Rpc/Messages.antt =====
-- The messages of `MethodRegistry` as a table of codes and languages, whatever texts its keys are.
use architecture_course.Prelude.{
  string_eq, String, Option, none, some, List, [], ◌∷◌, Bool, true, ◌&&◌, ◌≡◌, refl, arith,
  Bool-cases, inl, inr, ◌==◌, if◌then◌else◌, eq_iff, ◌∙◌, ap, sym,
}
use mathlib.Core.Path.{ap₂}
use architecture_course.Prelude.Int.{ℤ, int_eq, int_beq_iff}
use architecture_course.Prelude.Decimal.Signed.{signed_to_string_ends}
use architecture_course.Prelude.Map.{Map, lookup}
use architecture_course.Prelude.Map.Laws.{lookup-insert}
use architecture_course.Rpc.Registry.{
  MethodInfo, MethodRegistry, message_key, set_error_message, set_error_messages, get_error_message,
}

-- The latest of a run of calls for a code and a language, after `old`.
abbrev pub latest : List (ℤ × String × String) → ℤ → String → Option String → Option String
latest [] code language old = old
latest ((c, l, message) ∷ rest) code language old =
    latest rest code language (if c == code && l == language then some message else old)

-- The message in the language asked for, else in the default language, else a fixed text.
abbrev pub spoken : Option String → Option String → String
spoken (some message) other = message
spoken none (some message) = message
spoken none none = "Unknown error"

message_key_injective :
    (c code : ℤ) (l language : String)
    → message_key c l ≡ message_key code language
    → (c ≡ code) × (l ≡ language)
unfolding message_key
message_key_injective c code l language e = signed_to_string_ends c code l language e

message_key_test :
    (c code : ℤ) (l language : String)
    → (message_key c l == message_key code language) ≡ (c == code && l == language)
message_key_test c code l language =
    elim (Bool-cases (message_key c l == message_key code language)) [
      | inl same ↦
          let (codes, languages) = message_key_injective c code l language ((eq_iff _ _).0 same) in
          same ∙ sym (ap₂ ◌&&◌ ((int_beq_iff c code).1 codes) ((eq_iff l language).1 languages))
      | inr differ ↦ elim (Bool-cases (c == code && l == language)) [
        | inr also ↦ differ ∙ sym also
        | inl found ↦
            let (codes, languages) = and_true (c == code) (l == language) found in
            let equal : message_key c l ≡ message_key code language =
              ap₂ message_key ((int_beq_iff c code).0 codes) ((eq_iff l language).0 languages) in
            (eq_iff _ _).1 equal ∙ sym found
      ]
    ]
  where
    and_true : (a b : Bool) → (a && b) ≡ true → (a ≡ true) × (b ≡ true)
    and_true a b h = ground arith

module _ {ℓ} {H : Type ℓ} where
  stored_lem :
      (calls : List (ℤ × String × String)) (r : MethodRegistry H) (code : ℤ) (language : String)
      → lookup (message_key code language) (set_error_messages calls r).error_messages
        ≡ latest calls code language (lookup (message_key code language) r.error_messages)
  unfolding set_error_messages set_error_message
  stored_lem [] r code language = refl
  stored_lem ((c, l, message) ∷ rest) r code language =
      stored_lem rest (set_error_message c l message r) code language
      ∙ ap (latest rest code language) (
          lookup-insert (message_key c l) (message_key code language) message r.error_messages
          ∙ ap
              (λ (b : Bool).
                if b then some message else lookup (message_key code language) r.error_messages)
              (message_key_test c code l language))

  kept_language :
      (calls : List (ℤ × String × String)) (r : MethodRegistry H)
      → (set_error_messages calls r).default_language ≡ r.default_language
  unfolding set_error_messages set_error_message
  kept_language [] r = refl
  kept_language ((c, l, message) ∷ rest) r = kept_language rest (set_error_message c l message r)

  spoken_lem :
      (code : ℤ) (language : String) (r : MethodRegistry H)
      → get_error_message code language r
        ≡ spoken
            (lookup (message_key code language) r.error_messages)
            (lookup (message_key code r.default_language) r.error_messages)
  unfolding get_error_message
  spoken_lem code language r = ground arith

  -- The messages are a table of codes and languages: after any calls of `SetErrorMessage` the message
  -- for a code and a language is that of the latest call for both, else that of the latest call for the
  -- code and the default language, else the text "Unknown error". The composed texts that serve as keys
  -- never mix up two codes or two languages.
  pub get_error_message-set_error_messages :
      (calls : List (ℤ × String × String)) (methods : Map String (MethodInfo H))
      (default_language : String) (code : ℤ) (language : String)
      → let r = set_error_messages calls (record {
        methods = methods;
        error_messages = [];
        default_language = default_language;
      }) in
        get_error_message code language r
        ≡ spoken (latest calls code language none) (latest calls code default_language none)
  unfolding lookup
  get_error_message-set_error_messages calls methods default_language code language =
      let start : MethodRegistry H = record {
        methods = methods;
        error_messages = [];
        default_language = default_language;
      } in
      spoken_lem code language (set_error_messages calls start)
      ∙ ap
          (λ (l : String).
            spoken
              (lookup (message_key code language) (set_error_messages calls start).error_messages)
              (lookup (message_key code l) (set_error_messages calls start).error_messages))
          (kept_language calls start)
      ∙ ap₂ spoken (stored_lem calls start code language)
          (stored_lem calls start code default_language)
