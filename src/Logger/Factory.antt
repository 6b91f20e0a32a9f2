-- ===== src/Logger/Factory.antt =====
-- `LoggerFactory`, whose static members are a state. quill and the file system are a parameter, a state
-- `B` of their own with the calls that the source makes; a configuration is what is read of it.
use architecture_course.Prelude.{
  true, string_eq, ℕ, String, Option, none, some, List, [], ◌∷◌, Bool, ◌==◌, if◌then◌else◌,
}
use architecture_course.Prelude.Int.{ℤ, pos, int_eq}
use architecture_course.Prelude.Map.{Map, lookup, insert}

-- The levels of `quill::LogLevel` that are used.
pub data LogLevel : Type 0 where
  critical level_error warning info debug trace_l3 : LogLevel

pub record PatternFormatterOptions : Type 0 where
  pub format_pattern : String
  pub timestamp_pattern : String
  pub gmt_time : Bool

-- `config["logging"]`: `log_level` and `log_dir`, where they are there and of the wanted kind.
pub record Config : Type 0 where
  pub log_level : Option ℤ
  pub log_dir : Option String

-- `Q` is a `quill::Logger *`, `S` a sink. `default_options` is a `PatternFormatterOptions` as declared.
pub record Quill {ℓ} (B Q S : Type ℓ) : Type ℓ where
  pub default_options : PatternFormatterOptions
  pub start : B → B
  pub create_directories : String → B → B
  pub join_path : String → String → String
  pub create_or_get_sink : String → B → S × B
  pub create_or_get_logger : String → S → PatternFormatterOptions → B → Q × B
  pub set_log_level : Q → LogLevel → B → B
  pub set_immediate_flush : Q → ℕ → B → B

pub record LoggerFactory {ℓ} (Q : Type ℓ) : Type ℓ where
  pub logs_path : String
  pub level : LogLevel
  pub pfo : PatternFormatterOptions
  pub loggers : Map String Q

-- `value_or(5)`, and the cases of the switch.
unfoldable pub level_of : Option ℤ → LogLevel
level_of none = trace_l3
level_of (some n) =
    if n == pos 0
    then critical
    else if n == pos 1
    then level_error
    else if n == pos 2
    then warning
    else if n == pos 3
    then info
    else if n == pos 4
    then debug
    else trace_l3

abbrev pub dir_of : Option String → String
dir_of none = "./Logs"
dir_of (some dir) = dir

module _ {ℓ} {B Q S : Type ℓ} (quill : Quill B Q S) where
  -- The static members before any call; a `quill::LogLevel` of zero is `TraceL3`.
  unfoldable pub new_factory : LoggerFactory Q
  new_factory = record {
    logs_path = "";
    level = trace_l3;
    pfo = quill.default_options;
    loggers = [];
  }

  -- `Init`. The pattern is set in a local variable, `pfo`, and not in the member `pfo_`.
  -- Making the directories and the sinks succeeds here; where it fails, the source throws.
  unfoldable pub init : Config → LoggerFactory Q → B → LoggerFactory Q × B
  init config factory backend =
      let pfo : PatternFormatterOptions = record {
        format_pattern =
            "%(time) [%(thread_id)] %(source_location:<28) LOG_%(log_level:<9) %(message)";
        timestamp_pattern = "%H:%M:%S.%Qns";
        gmt_time = true;
      } in
      let logs_path = dir_of config.log_dir in
      (
        record factory { logs_path = logs_path; level = level_of config.log_level },
        quill.create_directories logs_path (quill.start backend),
      )

  module _ (ndebug : Bool) where
    -- `createLogger`; the flush is only in a build without NDEBUG.
    unfoldable pub create_logger : String → LoggerFactory Q → B → Q × B
    create_logger logger_file factory backend =
        let full_path = quill.join_path factory.logs_path logger_file in
        let (file_sink, with_sink) = quill.create_or_get_sink full_path backend in
        let (logger, created) =
          quill.create_or_get_logger logger_file file_sink factory.pfo with_sink in
        let levelled = quill.set_log_level logger factory.level created in
        (logger, if ndebug then levelled else quill.set_immediate_flush logger 1 levelled)

    unfoldable pub get_logger : String → LoggerFactory Q → B → Q × (LoggerFactory Q × B)
    get_logger logger_file factory backend = elim (lookup logger_file factory.loggers) [
      | some logger ↦ (logger, (factory, backend))
      | none ↦
          let (logger, after) = create_logger logger_file factory backend in
          (logger, (record factory { loggers = insert logger_file logger factory.loggers }, after))
    ]

    -- `GetLogger` for one name after the other.
    unfoldable pub get_loggers : List String → LoggerFactory Q → B → LoggerFactory Q × B
    get_loggers [] factory backend = (factory, backend)
    get_loggers (name ∷ names) factory backend =
        let (logger, (after, backend')) = get_logger name factory backend in
        get_loggers names after backend'
