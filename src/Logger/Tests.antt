-- ===== src/Logger/Tests.antt =====
-- A quill that numbers its loggers, and the theorem at a factory that uses it.
use architecture_course.Prelude.{
  string_eq, ℕ, String, none, some, List, [], ◌∷◌, ◌+◌, true, ◌≡◌, refl,
}
use Prim.Native.String.{◌++◌ as str_append}
use architecture_course.Prelude.Int.{pos}
use architecture_course.Prelude.Map.{lookup, insert}
use architecture_course.Logger.Factory.{
  PatternFormatterOptions, Config, Quill, level_of, dir_of, new_factory, init, create_logger,
  get_logger, get_loggers,
}
use architecture_course.Logger.Steady.{get_logger_steady}

abbrev plain : PatternFormatterOptions
plain = record { format_pattern = "%(message)"; timestamp_pattern = "%H"; gmt_time = true }

-- The state is the number of the next logger.
abbrev numbering : Quill ℕ ℕ String
numbering = record {
  default_options = plain;
  start = λ b. b;
  create_directories = λ path b. b;
  join_path = λ dir file. str_append dir (str_append "/" file);
  create_or_get_sink = λ path b. (path, b);
  create_or_get_logger = λ name sink options b. (b, b + 1);
  set_log_level = λ logger level b. b;
  set_immediate_flush = λ logger n b. b;
}

abbrev config : Config
config = record { log_level = some (pos 2); log_dir = none }

abbrev others : List String
others = "b.log" ∷ "a.log" ∷ "c.log" ∷ []

-- Three loggers for four calls.
three_loggers :
    let (f1, b1) = init numbering config (new_factory numbering) 0 in
    (get_loggers numbering true ("a.log" ∷ others) f1 b1).1 ≡ 3
unfolding init new_factory get_loggers get_logger create_logger lookup insert
three_loggers = refl

get_logger_steady_example :
    let (f1, b1) = init numbering config (new_factory numbering) 0 in
    let (logger, (f2, b2)) = get_logger numbering true "a.log" f1 b1 in
    let (f3, b3) = get_loggers numbering true others f2 b2 in
    (get_logger numbering true "a.log" f3 b3 ≡ (logger, (f3, b3)))
    × (f3.level ≡ level_of (some (pos 2)))
    × (f3.logs_path ≡ dir_of none)
    × (f3.pfo ≡ plain)
get_logger_steady_example = get_logger_steady numbering true config "a.log" others 0
