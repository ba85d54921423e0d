-- ===== src/Log.antt =====
-- src/log.cpp: what is set for each category of log messages, and the loggers made of it. A string is
-- the list of its bytes. spdlog, which is code of another project, is a parameter.
pub mod Settings
pub mod Fields
pub mod Creation
mod Tests
use conference_go_client.Common.{
  ℕ, ◌==◌, Bool, true, false, not, Option, none, some, List, [], ◌∷◌, ◌++◌, if◌then◌else◌,
}

pub data Category : Type 0 where
  default client cfgosrc track : Category

abbrev pub number : Category → ℕ
number default = 0
number client = 1
number cfgosrc = 2
number track = 3

abbrev pub same : Category → Category → Bool
same c d = number c == number d

-- The levels, kinds of time and loggers of spdlog, what the code calls of them, and the factories of
-- loggers (`create_default_logger` among them), which are run on a name.
pub record Spdlog (Level Time Factory Logger : Type 0) : Type 0 where
  pub info : Level
  pub local_time : Time
  pub create_default_logger : Factory
  pub create : Factory → List ℕ → Logger
  pub logger_set_level : Level → Logger → Logger
  pub logger_set_pattern : List ℕ → Time → Logger → Logger
  pub logger_enable_backtrace : ℕ → Logger → Logger
  pub logger_disable_backtrace : Logger → Logger

pub record CategoryInfo (Level Time Factory : Type 0) : Type 0 where
  pub level : Level
  pub level_set : Bool
  pub backtrace : Bool
  pub backtrack_set : Bool
  pub backtrace_size : ℕ
  pub backtrace_size_set : Bool
  pub pattern : List ℕ
  pub pattern_set : Bool
  pub time_type : Time
  pub time_type_set : Bool
  pub factory : Factory
  pub factory_set : Bool

-- `m_categories` gives the entry of a category that has one.
pub record Log (Level Time Factory Logger : Type 0) : Type 0 where
  pub categories : Category → Option (CategoryInfo Level Time Factory)
  pub default_logger : Logger

abbrev pub get_category_name : Category → List ℕ
get_category_name default = b'd' ∷ b'e' ∷ b'f' ∷ b'a' ∷ b'u' ∷ b'l' ∷ b't' ∷ []
get_category_name client = b'c' ∷ b'l' ∷ b'i' ∷ b'e' ∷ b'n' ∷ b't' ∷ []
get_category_name cfgosrc = b'g' ∷ b's' ∷ b't' ∷ b':' ∷ b':' ∷ b's' ∷ b'r' ∷ b'c' ∷ []
get_category_name track = b't' ∷ b'r' ∷ b'a' ∷ b'c' ∷ b'k' ∷ []

abbrev pub cfgo : List ℕ
cfgo = b'c' ∷ b'f' ∷ b'g' ∷ b'o' ∷ []

abbrev pub is_default : Category → Bool
is_default default = true
is_default client = false
is_default cfgosrc = false
is_default track = false

-- The name of a logger, given the one that is asked for.
abbrev pub logger_name : Category → List ℕ → List ℕ
logger_name c [] = cfgo ++ b':' ∷ b':' ∷ get_category_name c
logger_name c (b ∷ bs) = if is_default c then cfgo else b ∷ bs

abbrev pub is_empty : List ℕ → Bool
is_empty [] = true
is_empty (b ∷ bs) = false

abbrev pub or_else : {A : Type 0} → Option A → A → A
or_else none a = a
or_else (some b) a = b

-- What the setters write into an entry.
module _ {Level Time Factory : Type 0} where
  abbrev pub with_factory :
      Factory → CategoryInfo Level Time Factory → CategoryInfo Level Time Factory
  with_factory f i = record i { factory = f; factory_set = true }

  abbrev pub with_level : Level → CategoryInfo Level Time Factory → CategoryInfo Level Time Factory
  with_level v i = record i { level = v; level_set = true }

  abbrev pub with_pattern :
      List ℕ → Time → CategoryInfo Level Time Factory → CategoryInfo Level Time Factory
  with_pattern p t i = record i {
    pattern = p;
    pattern_set = true;
    time_type = t;
    time_type_set = true;
  }

  abbrev pub with_backtrace : ℕ → CategoryInfo Level Time Factory → CategoryInfo Level Time Factory
  with_backtrace n i = record i {
    backtrace = true;
    backtrack_set = true;
    backtrace_size = n;
    backtrace_size_set = true;
  }

  abbrev pub without_backtrace : CategoryInfo Level Time Factory → CategoryInfo Level Time Factory
  without_backtrace i = record i {
    backtrace = false;
    backtrack_set = true;
    backtrace_size = 0;
    backtrace_size_set = false;
  }

module _ {Level Time Factory Logger : Type 0} where
  abbrev pub no_categories : Logger → Log Level Time Factory Logger
  no_categories logger = record { categories = λ c. none; default_logger = logger }

  abbrev pub put :
      Category
      → CategoryInfo Level Time Factory
      → Log Level Time Factory Logger
      → Log Level Time Factory Logger
  put c i l = record l { categories = λ d. if same c d then some i else l.categories d }

  -- What a getter finds in the entry of one category, where the field is set there.
  abbrev pub own :
      {A : Type 0}
      → (CategoryInfo Level Time Factory → Bool)
      → (CategoryInfo Level Time Factory → A)
      → Category
      → Log Level Time Factory Logger
      → Option A
  own is_set field c l = elim (l.categories c) [
    | none ↦ none
    | some i ↦ if is_set i then some (field i) else none
  ]

  -- The body that the getters share: the field of the category, or of the default category, or the
  -- built-in value.
  abbrev pub inherited :
      {A : Type 0}
      → (CategoryInfo Level Time Factory → Bool)
      → (CategoryInfo Level Time Factory → A)
      → A
      → Category
      → Log Level Time Factory Logger
      → A
  inherited is_set field built_in c l =
      let from_default = or_else (own is_set field default l) built_in in
      or_else (own is_set field c l) (if is_default c then built_in else from_default)

module _ {Level Time Factory Logger : Type 0} (spdlog : Spdlog Level Time Factory Logger) where
  -- The initial values of `CategoryInfo`.
  abbrev pub fresh : CategoryInfo Level Time Factory
  fresh = record {
    level = spdlog.info;
    level_set = false;
    backtrace = false;
    backtrack_set = false;
    backtrace_size = 4096;
    backtrace_size_set = false;
    pattern = [];
    pattern_set = false;
    time_type = spdlog.local_time;
    time_type_set = false;
    factory = spdlog.create_default_logger;
    factory_set = false;
  }

  -- `try_emplace`
  abbrev pub entry : Category → Log Level Time Factory Logger → CategoryInfo Level Time Factory
  entry c l = elim (l.categories c) [ none ↦ fresh | some i ↦ i ]

  unfoldable pub get_logger_factory : Category → Log Level Time Factory Logger → Factory
  get_logger_factory = inherited (λ i. i.factory_set) (λ i. i.factory) spdlog.create_default_logger

  unfoldable pub get_level : Category → Log Level Time Factory Logger → Level
  get_level = inherited (λ i. i.level_set) (λ i. i.level) spdlog.info

  unfoldable pub get_pattern : Category → Log Level Time Factory Logger → List ℕ
  get_pattern = inherited (λ i. i.pattern_set) (λ i. i.pattern) []

  unfoldable pub get_time_type : Category → Log Level Time Factory Logger → Time
  get_time_type = inherited (λ i. i.time_type_set) (λ i. i.time_type) spdlog.local_time

  unfoldable pub is_backtrace : Category → Log Level Time Factory Logger → Bool
  is_backtrace = inherited (λ i. i.backtrack_set) (λ i. i.backtrace) false

  unfoldable pub get_backtrace_size : Category → Log Level Time Factory Logger → ℕ
  get_backtrace_size = inherited (λ i. i.backtrace_size_set) (λ i. i.backtrace_size) 4096

  unfoldable pub create_logger : Category → List ℕ → Log Level Time Factory Logger → Logger
  unfolding get_logger_factory get_level get_pattern get_time_type is_backtrace get_backtrace_size
  create_logger c name l =
      let made = spdlog.create (get_logger_factory c l) (logger_name c name) in
      let leveled = spdlog.logger_set_level (get_level c l) made in
      let pattern = get_pattern c l in
      let patterned =
        if not (is_empty pattern)
        then spdlog.logger_set_pattern pattern (get_time_type c l) leveled
        else leveled in
      if is_backtrace c l
      then spdlog.logger_enable_backtrace (get_backtrace_size c l) patterned
      else spdlog.logger_disable_backtrace patterned

  -- Any logger stands where the constructor has none yet: `create_logger` reads the categories only.
  unfoldable pub initial : Logger → Log Level Time Factory Logger
  unfolding create_logger
  initial unset = record (no_categories unset) {
    default_logger = create_logger default [] (no_categories unset);
  }

  unfoldable pub set_logger_factory :
      Category → Factory → Log Level Time Factory Logger → Log Level Time Factory Logger
  unfolding create_logger
  set_logger_factory c f l =
      if is_default c
      then record l { default_logger = create_logger default [] l }
      else put c (with_factory f (entry c l)) l

  unfoldable pub set_level :
      Category → Level → Log Level Time Factory Logger → Log Level Time Factory Logger
  set_level c level l =
      let m = put c (with_level level (entry c l)) l in
      if is_default c
      then record m { default_logger = spdlog.logger_set_level level l.default_logger }
      else m

  unfoldable pub set_pattern :
      Category → List ℕ → Time → Log Level Time Factory Logger → Log Level Time Factory Logger
  set_pattern c pattern time l =
      let m = put c (with_pattern pattern time (entry c l)) l in
      if is_default c
      then record m { default_logger = spdlog.logger_set_pattern pattern time l.default_logger }
      else m

  unfoldable pub enable_backtrace :
      Category → ℕ → Log Level Time Factory Logger → Log Level Time Factory Logger
  enable_backtrace c size l =
      let m = put c (with_backtrace size (entry c l)) l in
      if is_default c
      then record m { default_logger = spdlog.logger_enable_backtrace size l.default_logger }
      else m

  unfoldable pub disable_backtrace :
      Category → Log Level Time Factory Logger → Log Level Time Factory Logger
  disable_backtrace c l =
      let m = put c (without_backtrace (entry c l)) l in
      if is_default c
      then record m { default_logger = spdlog.logger_disable_backtrace l.default_logger }
      else m
