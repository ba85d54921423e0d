-- ===== src/Log/Settings.antt =====
-- src/log.cpp: what the getters find after any settings.
use conference_go_client.Common.{
  if_lem, ℕ, suc, zero, ◌≡◌, refl, sym, ap, ◌∙◌, Bool, true, false, Option, none, some, List, [],
  ◌∷◌, if◌then◌else◌, arith, Option-cases, inl, inr,
}
use conference_go_client.Log.{
  or_else, Category, default, client, cfgosrc, track, number, same, Spdlog, CategoryInfo, Log,
  is_default, fresh, entry, put, own, set_logger_factory, set_level, set_pattern, enable_backtrace,
  disable_backtrace,
}

pub data Setting (Level Time Factory : Type 0) : Type 0 where
  sets_factory : Category → Factory → Setting Level Time Factory
  sets_level : Category → Level → Setting Level Time Factory
  sets_pattern : Category → List ℕ → Time → Setting Level Time Factory
  enables : Category → ℕ → Setting Level Time Factory
  disables : Category → Setting Level Time Factory

category_at : ℕ → Category
category_at zero = default
category_at (suc zero) = client
category_at (suc (suc zero)) = cfgosrc
category_at (suc (suc (suc n))) = track

category_at-number : (c : Category) → category_at (number c) ≡ c
unfolding category_at
category_at-number default = refl
category_at-number client = refl
category_at-number cfgosrc = refl
category_at-number track = refl

same_eq : (c d : Category) → same c d ≡ true → c ≡ d
same_eq c d e =
    sym (category_at-number c) ∙ ap category_at (ground (arith, e)) ∙ category_at-number d

-- What a setting does to one field of one category, and what a list of settings, the newest first,
-- leaves there.
module _ {Level Time Factory : Type 0} where
  abbrev pub level_of : Category → Setting Level Time Factory → Option Level → Option Level
  level_of d (sets_level c v) o = if same c d then some v else o
  level_of d (sets_factory c f) o = o
  level_of d (sets_pattern c p t) o = o
  level_of d (enables c n) o = o
  level_of d (disables c) o = o

  abbrev pub pattern_of : Category → Setting Level Time Factory → Option (List ℕ) → Option (List ℕ)
  pattern_of d (sets_pattern c p t) o = if same c d then some p else o
  pattern_of d (sets_level c v) o = o
  pattern_of d (sets_factory c f) o = o
  pattern_of d (enables c n) o = o
  pattern_of d (disables c) o = o

  abbrev pub time_of : Category → Setting Level Time Factory → Option Time → Option Time
  time_of d (sets_pattern c p t) o = if same c d then some t else o
  time_of d (sets_level c v) o = o
  time_of d (sets_factory c f) o = o
  time_of d (enables c n) o = o
  time_of d (disables c) o = o

  abbrev pub backtrace_of : Category → Setting Level Time Factory → Option Bool → Option Bool
  backtrace_of d (enables c n) o = if same c d then some true else o
  backtrace_of d (disables c) o = if same c d then some false else o
  backtrace_of d (sets_level c v) o = o
  backtrace_of d (sets_factory c f) o = o
  backtrace_of d (sets_pattern c p t) o = o

  abbrev pub size_of : Category → Setting Level Time Factory → Option ℕ → Option ℕ
  size_of d (enables c n) o = if same c d then some n else o
  size_of d (disables c) o = if same c d then none else o
  size_of d (sets_level c v) o = o
  size_of d (sets_factory c f) o = o
  size_of d (sets_pattern c p t) o = o

  -- A factory for the default category is not kept.
  abbrev pub factory_of : Category → Setting Level Time Factory → Option Factory → Option Factory
  factory_of d (sets_factory c f) o = if is_default c then o else if same c d then some f else o
  factory_of d (sets_level c v) o = o
  factory_of d (sets_pattern c p t) o = o
  factory_of d (enables c n) o = o
  factory_of d (disables c) o = o

  abbrev pub latest :
      {A : Type 0}
      → (Category → Setting Level Time Factory → Option A → Option A)
      → Category
      → List (Setting Level Time Factory)
      → Option A
  latest effect d [] = none
  latest effect d (s ∷ ss) = effect d s (latest effect d ss)

  -- The latest of the category, or of the default category, or the built-in value.
  abbrev pub settled :
      {A : Type 0}
      → (Category → Setting Level Time Factory → Option A → Option A)
      → A
      → List (Setting Level Time Factory)
      → Category
      → A
  settled effect built_in ss c =
      or_else (latest effect c ss)
        (if is_default c then built_in else or_else (latest effect default ss) built_in)

module _ {Level Time Factory Logger : Type 0} (spdlog : Spdlog Level Time Factory Logger) where
  abbrev pub apply :
      Setting Level Time Factory → Log Level Time Factory Logger → Log Level Time Factory Logger
  apply (sets_factory c f) = set_logger_factory spdlog c f
  apply (sets_level c v) = set_level spdlog c v
  apply (sets_pattern c p t) = set_pattern spdlog c p t
  apply (enables c n) = enable_backtrace spdlog c n
  apply (disables c) = disable_backtrace spdlog c

  abbrev pub applied :
      List (Setting Level Time Factory)
      → Log Level Time Factory Logger
      → Log Level Time Factory Logger
  applied [] l = l
  applied (s ∷ ss) l = apply s (applied ss l)

  module _ {A : Type 0} (is_set : CategoryInfo Level Time Factory → Bool)
      (field : CategoryInfo Level Time Factory → A) (unset : is_set (fresh spdlog) ≡ false) where
    abbrev pub found : CategoryInfo Level Time Factory → Option A
    found i = if is_set i then some (field i) else none

    -- The logger beside the categories is no part of what a getter finds.
    own_either :
        (b : Bool) (d : Category) (l : Log Level Time Factory Logger) (x : Logger)
        → own is_set field d (if b then record l { default_logger = x } else l)
          ≡ own is_set field d l
    own_either true d l x = refl
    own_either false d l x = refl

    found-entry :
        (c : Category) (l : Log Level Time Factory Logger)
        → found (entry spdlog c l) ≡ own is_set field c l
    found-entry c l =
        let from : Option (CategoryInfo Level Time Factory) → CategoryInfo Level Time Factory =
          λ o. elim o [ none ↦ fresh spdlog | some i ↦ i ] in
        let seen : Option (CategoryInfo Level Time Factory) → Option A =
          λ o. elim o [ none ↦ none | some i ↦ found i ] in
        elim (Option-cases (l.categories c)) [
          | inl e ↦
              ap (λ o. found (from o)) e
              ∙ ap (λ b. if b then some (field (fresh spdlog)) else none) unset
              ∙ ap seen (sym e)
          | inr (i, e) ↦ ap (λ o. found (from o)) e ∙ ap seen (sym e)
        ]

    pub own-put :
        (c d : Category) (i : CategoryInfo Level Time Factory) (l : Log Level Time Factory Logger)
        → own is_set field d (put c i l) ≡ (if same c d then found i else own is_set field d l)
    own-put c d i l =
        let seen : Option (CategoryInfo Level Time Factory) → Option A =
          λ o. elim o [ none ↦ none | some i ↦ found i ] in
        if_lem (λ o. seen o ≡ (if same c d then found i else own is_set field d l)) (same c d)
          (some i) (l.categories d)
          (λ e. ap (λ b. if b then found i else own is_set field d l) (sym e))
          (λ e. ap (λ b. if b then found i else own is_set field d l) (sym e))

    -- An entry that leaves the field as it was.
    pub own-put_other :
        (c d : Category) (i : CategoryInfo Level Time Factory) (l : Log Level Time Factory Logger)
        → found i ≡ found (entry spdlog c l)
        → own is_set field d (put c i l) ≡ own is_set field d l
    own-put_other c d i l e =
        own-put c d i l
        ∙ if_lem (λ o. o ≡ own is_set field d l) (same c d) (found i) (own is_set field d l)
            (λ s. e ∙ found-entry c l ∙ ap (λ c. own is_set field c l) (same_eq c d s)) (λ _. refl)

    -- Either of them, whether or not the default logger changes too.
    pub changed :
        (b : Bool) (c d : Category) (i : CategoryInfo Level Time Factory)
        (l : Log Level Time Factory Logger) (x : Logger)
        → own is_set field d (if b then record (put c i l) { default_logger = x } else put c i l)
          ≡ (if same c d then found i else own is_set field d l)
    changed b c d i l x = own_either b d (put c i l) x ∙ own-put c d i l

    pub kept :
        (b : Bool) (c d : Category) (i : CategoryInfo Level Time Factory)
        (l : Log Level Time Factory Logger) (x : Logger)
        → found i ≡ found (entry spdlog c l)
        → own is_set field d (if b then record (put c i l) { default_logger = x } else put c i l)
          ≡ own is_set field d l
    kept b c d i l x e = own_either b d (put c i l) x ∙ own-put_other c d i l e
