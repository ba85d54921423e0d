-- ===== src/Log/Fields.antt =====
-- src/log.cpp: every setting changes the fields that it is about, of its category, and no other.
use conference_go_client.Common.{
  if_lem, ◌≡◌, refl, sym, ap, ◌∙◌, Bool, false, Option, some, List, [], ◌∷◌, if◌then◌else◌,
}
use conference_go_client.Log.{
  Category, default, same, Spdlog, CategoryInfo, Log, is_default, fresh, entry, put, own, or_else,
  inherited, with_factory, with_level, with_pattern, with_backtrace, without_backtrace,
  get_logger_factory, get_level, get_pattern, get_time_type, is_backtrace, get_backtrace_size,
  create_logger, initial, set_logger_factory, set_level, set_pattern, enable_backtrace,
  disable_backtrace,
}
use conference_go_client.Log.Settings.{
  Setting, sets_factory, sets_level, sets_pattern, enables, disables, level_of, pattern_of, time_of,
  backtrace_of, size_of, factory_of, latest, settled, apply, applied, changed, kept, own-put,
  own-put_other,
}

module _ {Level Time Factory Logger : Type 0} (spdlog : Spdlog Level Time Factory Logger) where
  -- A field of the entries changes as the settings say.
  abbrev pub Follows :
      {A : Type 0}
      → (CategoryInfo Level Time Factory → Bool)
      → (CategoryInfo Level Time Factory → A)
      → (Category → Setting Level Time Factory → Option A → Option A)
      → Type 0
  Follows is_set field effect =
      (s : Setting Level Time Factory) (d : Category) (l : Log Level Time Factory Logger)
      → own is_set field d (apply spdlog s l) ≡ effect d s (own is_set field d l)

  -- A factory changes the factory of the entry alone.
  factory-kept :
      {A : Type 0} (is_set : CategoryInfo Level Time Factory → Bool)
      (field : CategoryInfo Level Time Factory → A) (unset : is_set (fresh spdlog) ≡ false)
      (c d : Category) (f : Factory) (l : Log Level Time Factory Logger)
      → (let i = with_factory f (entry spdlog c l) in
          own is_set field d (put c i l) ≡ own is_set field d l
          → own is_set field d (set_logger_factory spdlog c f l) ≡ own is_set field d l)
  unfolding set_logger_factory
  factory-kept is_set field unset c d f l e =
      let i = with_factory f (entry spdlog c l) in
      if_lem (λ m. own is_set field d m ≡ own is_set field d l) (is_default c)
        (record l { default_logger = create_logger spdlog default [] l }) (put c i l) (λ _. refl)
        (λ _. e)

  pub level-Follows : Follows (λ i. i.level_set) (λ i. i.level) level_of
  unfolding set_level set_pattern enable_backtrace disable_backtrace
  level-Follows (sets_level c v) d l =
      changed spdlog (λ i. i.level_set) (λ i. i.level) refl (is_default c) c d
        (with_level v (entry spdlog c l)) l (spdlog.logger_set_level v l.default_logger)
  level-Follows (sets_pattern c p t) d l =
      kept spdlog (λ i. i.level_set) (λ i. i.level) refl (is_default c) c d
        (with_pattern p t (entry spdlog c l)) l (spdlog.logger_set_pattern p t l.default_logger)
        refl
  level-Follows (enables c n) d l =
      kept spdlog (λ i. i.level_set) (λ i. i.level) refl (is_default c) c d
        (with_backtrace n (entry spdlog c l)) l (spdlog.logger_enable_backtrace n l.default_logger)
        refl
  level-Follows (disables c) d l =
      kept spdlog (λ i. i.level_set) (λ i. i.level) refl (is_default c) c d
        (without_backtrace (entry spdlog c l)) l (spdlog.logger_disable_backtrace l.default_logger)
        refl
  level-Follows (sets_factory c f) d l =
      factory-kept (λ i. i.level_set) (λ i. i.level) refl c d f l
        (own-put_other spdlog (λ i. i.level_set) (λ i. i.level) refl c d
          (with_factory f (entry spdlog c l)) l refl)

  pub pattern-Follows : Follows (λ i. i.pattern_set) (λ i. i.pattern) pattern_of
  unfolding set_level set_pattern enable_backtrace disable_backtrace
  pattern-Follows (sets_level c v) d l =
      kept spdlog (λ i. i.pattern_set) (λ i. i.pattern) refl (is_default c) c d
        (with_level v (entry spdlog c l)) l (spdlog.logger_set_level v l.default_logger) refl
  pattern-Follows (sets_pattern c p t) d l =
      changed spdlog (λ i. i.pattern_set) (λ i. i.pattern) refl (is_default c) c d
        (with_pattern p t (entry spdlog c l)) l (spdlog.logger_set_pattern p t l.default_logger)
  pattern-Follows (enables c n) d l =
      kept spdlog (λ i. i.pattern_set) (λ i. i.pattern) refl (is_default c) c d
        (with_backtrace n (entry spdlog c l)) l (spdlog.logger_enable_backtrace n l.default_logger)
        refl
  pattern-Follows (disables c) d l =
      kept spdlog (λ i. i.pattern_set) (λ i. i.pattern) refl (is_default c) c d
        (without_backtrace (entry spdlog c l)) l (spdlog.logger_disable_backtrace l.default_logger)
        refl
  pattern-Follows (sets_factory c f) d l =
      factory-kept (λ i. i.pattern_set) (λ i. i.pattern) refl c d f l
        (own-put_other spdlog (λ i. i.pattern_set) (λ i. i.pattern) refl c d
          (with_factory f (entry spdlog c l)) l refl)

  pub time-Follows : Follows (λ i. i.time_type_set) (λ i. i.time_type) time_of
  unfolding set_level set_pattern enable_backtrace disable_backtrace
  time-Follows (sets_level c v) d l =
      kept spdlog (λ i. i.time_type_set) (λ i. i.time_type) refl (is_default c) c d
        (with_level v (entry spdlog c l)) l (spdlog.logger_set_level v l.default_logger) refl
  time-Follows (sets_pattern c p t) d l =
      changed spdlog (λ i. i.time_type_set) (λ i. i.time_type) refl (is_default c) c d
        (with_pattern p t (entry spdlog c l)) l (spdlog.logger_set_pattern p t l.default_logger)
  time-Follows (enables c n) d l =
      kept spdlog (λ i. i.time_type_set) (λ i. i.time_type) refl (is_default c) c d
        (with_backtrace n (entry spdlog c l)) l (spdlog.logger_enable_backtrace n l.default_logger)
        refl
  time-Follows (disables c) d l =
      kept spdlog (λ i. i.time_type_set) (λ i. i.time_type) refl (is_default c) c d
        (without_backtrace (entry spdlog c l)) l (spdlog.logger_disable_backtrace l.default_logger)
        refl
  time-Follows (sets_factory c f) d l =
      factory-kept (λ i. i.time_type_set) (λ i. i.time_type) refl c d f l
        (own-put_other spdlog (λ i. i.time_type_set) (λ i. i.time_type) refl c d
          (with_factory f (entry spdlog c l)) l refl)

  pub backtrace-Follows : Follows (λ i. i.backtrack_set) (λ i. i.backtrace) backtrace_of
  unfolding set_level set_pattern enable_backtrace disable_backtrace
  backtrace-Follows (sets_level c v) d l =
      kept spdlog (λ i. i.backtrack_set) (λ i. i.backtrace) refl (is_default c) c d
        (with_level v (entry spdlog c l)) l (spdlog.logger_set_level v l.default_logger) refl
  backtrace-Follows (sets_pattern c p t) d l =
      kept spdlog (λ i. i.backtrack_set) (λ i. i.backtrace) refl (is_default c) c d
        (with_pattern p t (entry spdlog c l)) l (spdlog.logger_set_pattern p t l.default_logger)
        refl
  backtrace-Follows (enables c n) d l =
      changed spdlog (λ i. i.backtrack_set) (λ i. i.backtrace) refl (is_default c) c d
        (with_backtrace n (entry spdlog c l)) l (spdlog.logger_enable_backtrace n l.default_logger)
  backtrace-Follows (disables c) d l =
      changed spdlog (λ i. i.backtrack_set) (λ i. i.backtrace) refl (is_default c) c d
        (without_backtrace (entry spdlog c l)) l (spdlog.logger_disable_backtrace l.default_logger)
  backtrace-Follows (sets_factory c f) d l =
      factory-kept (λ i. i.backtrack_set) (λ i. i.backtrace) refl c d f l
        (own-put_other spdlog (λ i. i.backtrack_set) (λ i. i.backtrace) refl c d
          (with_factory f (entry spdlog c l)) l refl)

  pub size-Follows : Follows (λ i. i.backtrace_size_set) (λ i. i.backtrace_size) size_of
  unfolding set_level set_pattern enable_backtrace disable_backtrace
  size-Follows (sets_level c v) d l =
      kept spdlog (λ i. i.backtrace_size_set) (λ i. i.backtrace_size) refl (is_default c) c d
        (with_level v (entry spdlog c l)) l (spdlog.logger_set_level v l.default_logger) refl
  size-Follows (sets_pattern c p t) d l =
      kept spdlog (λ i. i.backtrace_size_set) (λ i. i.backtrace_size) refl (is_default c) c d
        (with_pattern p t (entry spdlog c l)) l (spdlog.logger_set_pattern p t l.default_logger)
        refl
  size-Follows (enables c n) d l =
      changed spdlog (λ i. i.backtrace_size_set) (λ i. i.backtrace_size) refl (is_default c) c d
        (with_backtrace n (entry spdlog c l)) l (spdlog.logger_enable_backtrace n l.default_logger)
  size-Follows (disables c) d l =
      changed spdlog (λ i. i.backtrace_size_set) (λ i. i.backtrace_size) refl (is_default c) c d
        (without_backtrace (entry spdlog c l)) l (spdlog.logger_disable_backtrace l.default_logger)
  size-Follows (sets_factory c f) d l =
      factory-kept (λ i. i.backtrace_size_set) (λ i. i.backtrace_size) refl c d f l
        (own-put_other spdlog (λ i. i.backtrace_size_set) (λ i. i.backtrace_size) refl c d
          (with_factory f (entry spdlog c l)) l refl)

  pub factory-Follows : Follows (λ i. i.factory_set) (λ i. i.factory) factory_of
  unfolding set_level set_pattern enable_backtrace disable_backtrace set_logger_factory
  factory-Follows (sets_level c v) d l =
      kept spdlog (λ i. i.factory_set) (λ i. i.factory) refl (is_default c) c d
        (with_level v (entry spdlog c l)) l (spdlog.logger_set_level v l.default_logger) refl
  factory-Follows (sets_pattern c p t) d l =
      kept spdlog (λ i. i.factory_set) (λ i. i.factory) refl (is_default c) c d
        (with_pattern p t (entry spdlog c l)) l (spdlog.logger_set_pattern p t l.default_logger)
        refl
  factory-Follows (enables c n) d l =
      kept spdlog (λ i. i.factory_set) (λ i. i.factory) refl (is_default c) c d
        (with_backtrace n (entry spdlog c l)) l (spdlog.logger_enable_backtrace n l.default_logger)
        refl
  factory-Follows (disables c) d l =
      kept spdlog (λ i. i.factory_set) (λ i. i.factory) refl (is_default c) c d
        (without_backtrace (entry spdlog c l)) l (spdlog.logger_disable_backtrace l.default_logger)
        refl
  factory-Follows (sets_factory c f) d l =
      let o = own (λ i. i.factory_set) (λ i. i.factory) d l in
      let r = if same c d then some f else o in
      if_lem (λ m. own (λ i. i.factory_set) (λ i. i.factory) d m ≡ (if is_default c then o else r))
        (is_default c) (record l { default_logger = create_logger spdlog default [] l })
        (put c (with_factory f (entry spdlog c l)) l) (λ e. ap (λ b. if b then o else r) (sym e))
        (λ e.
          own-put spdlog (λ i. i.factory_set) (λ i. i.factory) refl c d
            (with_factory f (entry spdlog c l)) l
          ∙ ap (λ b. if b then o else r) (sym e))

  module _ {A : Type 0} (is_set : CategoryInfo Level Time Factory → Bool)
      (field : CategoryInfo Level Time Factory → A)
      (effect : Category → Setting Level Time Factory → Option A → Option A)
      (follows : Follows is_set field effect) where
    own-latest :
        (ss : List (Setting Level Time Factory)) (d : Category) (unset : Logger)
        → own is_set field d (applied spdlog ss (initial spdlog unset)) ≡ latest effect d ss
    unfolding initial
    own-latest [] d unset = refl
    own-latest (s ∷ ss) d unset =
        follows s d (applied spdlog ss (initial spdlog unset))
        ∙ ap (effect d s) (own-latest ss d unset)

    -- The latest setting of the category, or of the default category, or the built-in value.
    pub inherited-latest :
        (built_in : A) (ss : List (Setting Level Time Factory)) (d : Category) (unset : Logger)
        → inherited is_set field built_in d (applied spdlog ss (initial spdlog unset))
          ≡ or_else
              (latest effect d ss)
              (if is_default d then built_in else or_else (latest effect default ss) built_in)
    inherited-latest built_in ss d unset =
        ap
          (λ o. or_else o (
            if is_default d
            then built_in
            else or_else (own is_set field default (applied spdlog ss (initial spdlog unset)))
                built_in))
          (own-latest ss d unset)
        ∙ ap
            (λ o.
              or_else (latest effect d ss) (if is_default d then built_in else or_else o built_in))
            (own-latest ss default unset)

  -- After any settings (the newest first), each getter gives what the latest setting of its field for
  -- the category says, or the latest for the default category, or the built-in value, where taking the
  -- backtrace off also forgets its size, and a factory for the default category is never kept.
  getters-latest :
      (ss : List (Setting Level Time Factory)) (c : Category) (unset : Logger)
      → (let l = applied spdlog ss (initial spdlog unset) in
          (get_level spdlog c l ≡ settled level_of spdlog.info ss c)
          × (get_pattern spdlog c l ≡ settled pattern_of [] ss c)
          × (get_time_type spdlog c l ≡ settled time_of spdlog.local_time ss c)
          × (is_backtrace spdlog c l ≡ settled backtrace_of false ss c)
          × (get_backtrace_size spdlog c l ≡ settled size_of 4096 ss c)
          × (get_logger_factory spdlog c l ≡ settled factory_of spdlog.create_default_logger ss c))
  unfolding get_level get_pattern get_time_type is_backtrace get_backtrace_size get_logger_factory
  getters-latest ss c unset = (
    inherited-latest (λ i. i.level_set) (λ i. i.level) level_of level-Follows spdlog.info ss c
        unset,
    inherited-latest (λ i. i.pattern_set) (λ i. i.pattern) pattern_of pattern-Follows [] ss c unset,
    inherited-latest (λ i. i.time_type_set) (λ i. i.time_type) time_of time-Follows
        spdlog.local_time ss c unset,
    inherited-latest (λ i. i.backtrack_set) (λ i. i.backtrace) backtrace_of backtrace-Follows false
        ss c unset,
    inherited-latest (λ i. i.backtrace_size_set) (λ i. i.backtrace_size) size_of size-Follows 4096
        ss c unset,
    inherited-latest (λ i. i.factory_set) (λ i. i.factory) factory_of factory-Follows
        spdlog.create_default_logger ss c unset,
  )
