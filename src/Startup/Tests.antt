-- ===== src/Startup/Tests.antt =====
-- The JSON-RPC server with four threads and a port that no `unsigned short` holds.
use architecture_course.Prelude.{
  string_eq, ◌==◌, if◌then◌else◌, ◌+◌, ℕ, String, none, some, true, false, ◌≡◌, refl,
}
use architecture_course.Prelude.Int.{ℤ, pos}
use architecture_course.Logger.Factory.{Quill, new_factory, init, get_logger, create_logger}
use architecture_course.Prelude.Map.{lookup, insert}
use architecture_course.Startup.{
  ConfigFile, parsed, missing, Toml, Network, Serving, exits, terminates, serves, json_rpc, rest,
  grpc, undefined, port_of, main,
}
use architecture_course.Startup.Ports.{IsServing, main-IsServing}

-- A configuration is its port and its number of threads.
abbrev tables : Toml (ℤ × ℤ)
tables = record {
  text_at = λ section key cfg. none;
  int_at = λ section key cfg.
      if key == "port" then some cfg.0 else if key == "threads" then some cfg.1 else none;
}

abbrev open_network : Network
open_network = record { is_address = λ host. true; opens = λ host port. true }

abbrev taken : Network
taken = record { is_address = λ host. true; opens = λ host port. false }

-- The loggers are numbered.
abbrev numbering : Quill ℕ ℕ String
numbering = record {
  default_options = record { format_pattern = ""; timestamp_pattern = ""; gmt_time = false };
  start = λ b. b;
  create_directories = λ path b. b;
  join_path = λ dir file. file;
  create_or_get_sink = λ path b. (path, b);
  create_or_get_logger = λ name sink options b. (b, b + 1);
  set_log_level = λ logger level b. b;
  set_immediate_flush = λ logger n b. b;
}

abbrev wrapped : Serving ℕ
wrapped = record { logger = some 0; host = "0.0.0.0"; asked_port = 4464; started_threads = 3 }

-- The port 70000 is taken for 4464.
wraps :
    main tables open_network numbering true 0 json_rpc (parsed (pos 70000, pos 4)) ≡ serves wrapped
unfolding main port_of init new_factory get_logger create_logger lookup insert
wraps = refl

main-IsServing_example :
    (cfg : ℤ × ℤ) × (◌≡◌ {A = ConfigFile (ℤ × ℤ)} (parsed (pos 70000, pos 4)) (parsed cfg))
    × IsServing tables open_network json_rpc cfg wrapped
main-IsServing_example =
    main-IsServing tables open_network numbering true 0 json_rpc (parsed (pos 70000, pos 4)) wrapped
      wraps

-- No threads, no configuration, and a port that is taken.
stops :
    (main tables open_network numbering true 0 json_rpc (parsed (pos 8080, pos 0)) ≡ exits 1)
    × (main tables open_network numbering true 0 rest missing ≡ terminates)
    × (main tables taken numbering true 0 rest (parsed (pos 8080, pos 1)) ≡ exits 0)
    × (main tables taken numbering true 0 grpc (parsed (pos 8080, pos 1)) ≡ undefined)
unfolding main
stops = (refl, refl, refl, refl)
