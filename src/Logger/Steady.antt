-- ===== src/Logger/Steady.antt =====
-- A factory gives out one logger for each name.
use architecture_course.Prelude.{
  string_eq, String, some, List, [], ◌∷◌, Bool, ◌≡◌, refl, ◌∙◌, Option-cases, inl, inr,
}
use architecture_course.Prelude.Map.{lookup}
use architecture_course.Prelude.Map.Laws.{lookup-insert_new, lookup-insert_self}
use architecture_course.Logger.Factory.{
  new_factory, Config, Quill, LoggerFactory, level_of, dir_of, init, get_logger, get_loggers,
}

-- What calls of `GetLogger` leave as it was.
record IsKept {ℓ} {Q : Type ℓ} (before after : LoggerFactory Q) : Type ℓ where
  path : after.logs_path ≡ before.logs_path
  level : after.level ≡ before.level
  pfo : after.pfo ≡ before.pfo
  loggers :
      (name : String) (logger : Q)
      → lookup name before.loggers ≡ some logger
      → lookup name after.loggers ≡ some logger

module _ {ℓ} {B Q S : Type ℓ} (quill : Quill B Q S) (ndebug : Bool) where
  get_logger-IsKept :
      (name : String) (f : LoggerFactory Q) (b : B)
      → IsKept f (get_logger quill ndebug name f b).1.0
  unfolding get_logger
  get_logger-IsKept name f b = elim (Option-cases (lookup name f.loggers)) [
    | inr (logger, e) ↦
        rw (get_logger, e) (record { path = refl; level = refl; pfo = refl; loggers = λ n l h. h })
    | inl e ↦
        rw (get_logger, e)
          (record {
            path = refl;
            level = refl;
            pfo = refl;
            loggers = λ n l h. lookup-insert_new name n _ l f.loggers e h;
          })
  ]

  get_loggers-IsKept :
      (names : List String) (f : LoggerFactory Q) (b : B)
      → IsKept f (get_loggers quill ndebug names f b).0
  unfolding get_loggers
  get_loggers-IsKept [] f b = record { path = refl; level = refl; pfo = refl; loggers = λ n l h. h }
  get_loggers-IsKept (name ∷ names) f b =
      let (logger, (after, backend)) = get_logger quill ndebug name f b in
      let first = get_logger-IsKept name f b in
      let others = get_loggers-IsKept names after backend in
      record {
        path = others.path ∙ first.path;
        level = others.level ∙ first.level;
        pfo = others.pfo ∙ first.pfo;
        loggers = λ n l h. others.loggers n l (first.loggers n l h);
      }

  -- The logger that a call gave out is the one stored under its name.
  get_logger-stored :
      (name : String) (f : LoggerFactory Q) (b : B)
      → let (logger, (after, backend)) = get_logger quill ndebug name f b in
        lookup name after.loggers ≡ some logger
  unfolding get_logger
  get_logger-stored name f b = elim (Option-cases (lookup name f.loggers)) [
    | inr (logger, e) ↦ rw (get_logger, e) e
    | inl e ↦ rw (get_logger, e) (lookup-insert_self name _ f.loggers)
  ]

  stored-get_logger :
      (name : String) (logger : Q) (f : LoggerFactory Q) (b : B)
      → lookup name f.loggers ≡ some logger
      → get_logger quill ndebug name f b ≡ (logger, (f, b))
  unfolding get_logger
  stored-get_logger name logger f b e = rw (get_logger, e) refl

  -- After `Init`, a name for which a logger was asked is given the same logger ever after, and neither
  -- the factory nor quill changes, whatever loggers were asked for in between. The level and the path
  -- are those of the configuration all the while; the pattern is quill's default, not the one of `Init`.
  pub get_logger_steady :
      (config : Config) (name : String) (names : List String) (backend : B)
      → let (f1, b1) = init quill config (new_factory quill) backend in
        let (logger, (f2, b2)) = get_logger quill ndebug name f1 b1 in
        let (f3, b3) = get_loggers quill ndebug names f2 b2 in
        (get_logger quill ndebug name f3 b3 ≡ (logger, (f3, b3)))
        × (f3.level ≡ level_of config.log_level)
        × (f3.logs_path ≡ dir_of config.log_dir)
        × (f3.pfo ≡ quill.default_options)
  unfolding init new_factory
  get_logger_steady config name names backend =
      let (f1, b1) = init quill config (new_factory quill) backend in
      let (logger, (f2, b2)) = get_logger quill ndebug name f1 b1 in
      let first = get_logger-IsKept name f1 b1 in
      let others = get_loggers-IsKept names f2 b2 in
      (
        stored-get_logger name logger _ _
            (others.loggers name logger (get_logger-stored name f1 b1)),
        others.level ∙ first.level,
        others.path ∙ first.path,
        others.pfo ∙ first.pfo,
      )
