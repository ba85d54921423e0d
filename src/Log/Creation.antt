-- ===== src/Log/Creation.antt =====
-- src/log.cpp: the loggers that are made of the settings, and the default logger.
use conference_go_client.Common.{
  if_lem, ℕ, ◌≡◌, sym, ap, ◌∙◌, Bool, false, not, Option, none, some, List, [], ◌∷◌, if◌then◌else◌,
}
use conference_go_client.Log.{
  Category, default, client, cfgosrc, track, Spdlog, Log, is_empty, own, or_else, logger_name,
  get_logger_factory, get_level, get_pattern, get_time_type, is_backtrace, get_backtrace_size,
  create_logger, no_categories, initial, set_logger_factory, set_level, set_pattern,
  enable_backtrace, disable_backtrace,
}
use conference_go_client.Log.Settings.{
  Setting, sets_factory, sets_level, sets_pattern, enables, disables, apply, applied,
}
use conference_go_client.Log.Fields.{level-Follows, backtrace-Follows, size-Follows}

-- What spdlog documents of a logger: its level is the last one set, and its backtrace is off or holds
-- as many messages as it was last enabled for; patterns concern neither.
pub record Observed {Level Time Factory Logger : Type 0} (spdlog : Spdlog Level Time Factory Logger)
    : Type 0 where
  pub level : Logger → Level
  pub traced : Logger → Option ℕ
  pub level_leveled : (v : Level) (x : Logger) → level (spdlog.logger_set_level v x) ≡ v
  pub level_patterned :
      (p : List ℕ) (t : Time) (x : Logger) → level (spdlog.logger_set_pattern p t x) ≡ level x
  pub level_enabled : (n : ℕ) (x : Logger) → level (spdlog.logger_enable_backtrace n x) ≡ level x
  pub level_disabled : (x : Logger) → level (spdlog.logger_disable_backtrace x) ≡ level x
  pub traced_leveled : (v : Level) (x : Logger) → traced (spdlog.logger_set_level v x) ≡ traced x
  pub traced_patterned :
      (p : List ℕ) (t : Time) (x : Logger) → traced (spdlog.logger_set_pattern p t x) ≡ traced x
  pub traced_enabled : (n : ℕ) (x : Logger) → traced (spdlog.logger_enable_backtrace n x) ≡ some n
  pub traced_disabled : (x : Logger) → traced (spdlog.logger_disable_backtrace x) ≡ none

module _ {Level Time Factory Logger : Type 0} (spdlog : Spdlog Level Time Factory Logger)
    (observed : Observed spdlog) where
  -- The backtrace that the settings ask for.
  abbrev pub asked : Bool → ℕ → Option ℕ
  asked b n = if b then some n else none

  -- A logger is as the settings of the category ask.
  abbrev pub Configured : Category → Log Level Time Factory Logger → Logger → Type 0
  Configured c l x =
      (observed.level x ≡ get_level spdlog c l)
      × (observed.traced x ≡ asked (is_backtrace spdlog c l) (get_backtrace_size spdlog c l))

  create_logger-Configured :
      (c : Category) (name : List ℕ) (l : Log Level Time Factory Logger)
      → Configured c l (create_logger spdlog c name l)
  unfolding create_logger
  create_logger-Configured c name l =
      let made = spdlog.create (get_logger_factory spdlog c l) (logger_name c name) in
      let leveled = spdlog.logger_set_level (get_level spdlog c l) made in
      let pattern = get_pattern spdlog c l in
      let set = spdlog.logger_set_pattern pattern (get_time_type spdlog c l) leveled in
      let patterned = if not (is_empty pattern) then set else leveled in
      let n = get_backtrace_size spdlog c l in
      let done : observed.level patterned ≡ get_level spdlog c l =
        if_lem (λ x. observed.level x ≡ get_level spdlog c l) (not (is_empty pattern)) set leveled
          (λ _.
            observed.level_patterned pattern (get_time_type spdlog c l) leveled
            ∙ observed.level_leveled (get_level spdlog c l) made)
          (λ _. observed.level_leveled (get_level spdlog c l) made) in
      if_lem (Configured c l) (is_backtrace spdlog c l) (spdlog.logger_enable_backtrace n patterned)
        (spdlog.logger_disable_backtrace patterned)
        (λ e. (
          observed.level_enabled n patterned ∙ done,
          observed.traced_enabled n patterned ∙ ap (λ b. asked b n) (sym e),
        ))
        (λ e. (
          observed.level_disabled patterned ∙ done,
          observed.traced_disabled patterned ∙ ap (λ b. asked b n) (sym e),
        ))

  -- The getters of the default category, where its fields stay as they were.
  level-kept :
      (l m : Log Level Time Factory Logger)
      → own (λ i. i.level_set) (λ i. i.level) default m
        ≡ own (λ i. i.level_set) (λ i. i.level) default l
      → get_level spdlog default m ≡ get_level spdlog default l
  unfolding get_level
  level-kept l m e = ap (λ o. or_else o spdlog.info) e

  backtrace-kept :
      (l m : Log Level Time Factory Logger)
      → own (λ i. i.backtrack_set) (λ i. i.backtrace) default m
        ≡ own (λ i. i.backtrack_set) (λ i. i.backtrace) default l
      → own (λ i. i.backtrace_size_set) (λ i. i.backtrace_size) default m
        ≡ own (λ i. i.backtrace_size_set) (λ i. i.backtrace_size) default l
      → asked (is_backtrace spdlog default m) (get_backtrace_size spdlog default m)
        ≡ asked (is_backtrace spdlog default l) (get_backtrace_size spdlog default l)
  unfolding is_backtrace get_backtrace_size
  backtrace-kept l m e f =
      ap (λ o. asked (or_else o false) (get_backtrace_size spdlog default m)) e
      ∙ ap (λ o. asked (is_backtrace spdlog default l) (or_else o 4096)) f

  abbrev Synced : Log Level Time Factory Logger → Type 0
  Synced l = Configured default l l.default_logger

  apply-Synced :
      (s : Setting Level Time Factory) (l : Log Level Time Factory Logger)
      → Synced l
      → Synced (apply spdlog s l)
  unfolding set_logger_factory set_level set_pattern enable_backtrace disable_backtrace get_level
      is_backtrace get_backtrace_size create_logger
  apply-Synced (sets_level client v) l i = i
  apply-Synced (sets_level cfgosrc v) l i = i
  apply-Synced (sets_level track v) l i = i
  apply-Synced (sets_pattern client p t) l i = i
  apply-Synced (sets_pattern cfgosrc p t) l i = i
  apply-Synced (sets_pattern track p t) l i = i
  apply-Synced (enables client n) l i = i
  apply-Synced (enables cfgosrc n) l i = i
  apply-Synced (enables track n) l i = i
  apply-Synced (disables client) l i = i
  apply-Synced (disables cfgosrc) l i = i
  apply-Synced (disables track) l i = i
  apply-Synced (sets_factory client f) l i = i
  apply-Synced (sets_factory cfgosrc f) l i = i
  apply-Synced (sets_factory track f) l i = i
  apply-Synced (sets_factory default f) l i = create_logger-Configured default [] l
  apply-Synced (sets_level default v) l i =
      let m = set_level spdlog default v l in
      (
        observed.level_leveled v l.default_logger,
        observed.traced_leveled v l.default_logger
            ∙ i.1
            ∙ sym (
                backtrace-kept l m (backtrace-Follows spdlog (sets_level default v) default l)
                  (size-Follows spdlog (sets_level default v) default l)),
      )
  apply-Synced (sets_pattern default p t) l i =
      let m = set_pattern spdlog default p t l in
      (
        observed.level_patterned p t l.default_logger
            ∙ i.0
            ∙ sym (level-kept l m (level-Follows spdlog (sets_pattern default p t) default l)),
        observed.traced_patterned p t l.default_logger
            ∙ i.1
            ∙ sym (
                backtrace-kept l m (backtrace-Follows spdlog (sets_pattern default p t) default l)
                  (size-Follows spdlog (sets_pattern default p t) default l)),
      )
  apply-Synced (enables default n) l i =
      let m = enable_backtrace spdlog default n l in
      (
        observed.level_enabled n l.default_logger
            ∙ i.0
            ∙ sym (level-kept l m (level-Follows spdlog (enables default n) default l)),
        observed.traced_enabled n l.default_logger,
      )
  apply-Synced (disables default) l i =
      let m = disable_backtrace spdlog default l in
      (
        observed.level_disabled l.default_logger
            ∙ i.0
            ∙ sym (level-kept l m (level-Follows spdlog (disables default) default l)),
        observed.traced_disabled l.default_logger,
      )

  applied-Synced :
      (ss : List (Setting Level Time Factory)) (unset : Logger)
      → Synced (applied spdlog ss (initial spdlog unset))
  unfolding initial create_logger get_level is_backtrace get_backtrace_size
  applied-Synced [] unset = create_logger-Configured default [] (no_categories unset)
  applied-Synced (s ∷ ss) unset =
      apply-Synced s (applied spdlog ss (initial spdlog unset)) (applied-Synced ss unset)

  -- A spdlog whose loggers have the level and the backtrace that was last set: after any settings, the
  -- default logger, which changes in place, and the logger that `create_logger` makes for any category,
  -- have the level and the backtrace that the getters tell for their category.
  loggers-Configured :
      (ss : List (Setting Level Time Factory)) (c : Category) (name : List ℕ) (unset : Logger)
      → (let l = applied spdlog ss (initial spdlog unset) in
          Configured default l l.default_logger × Configured c l (create_logger spdlog c name l))
  loggers-Configured ss c name unset =
      let l = applied spdlog ss (initial spdlog unset) in
      (applied-Synced ss unset, create_logger-Configured c name l)
