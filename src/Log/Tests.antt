-- ===== src/Log/Tests.antt =====
-- A spdlog whose loggers are a level and a backtrace, and the theorems at it.
use conference_go_client.Common.{ℕ, ◌≡◌, refl, Bool, true, false, Option, none, some, List, [], ◌∷◌}
use conference_go_client.Log.{default, client, track, Spdlog, Log, initial}
use conference_go_client.Log.Settings.{
  settled, Setting, sets_level, sets_pattern, enables, disables, level_of, size_of, applied,
}
use conference_go_client.Log.Creation.{Observed}

abbrev Logger : Type 0
Logger = ℕ × Option ℕ

abbrev spdlog : Spdlog ℕ Bool ℕ Logger
spdlog = record {
  info = 2;
  local_time = true;
  create_default_logger = 0;
  create = λ f name. (f, none);
  logger_set_level = λ v x. (v, x.1);
  logger_set_pattern = λ p t x. x;
  logger_enable_backtrace = λ n x. (x.0, some n);
  logger_disable_backtrace = λ x. (x.0, none);
}

abbrev observed : Observed spdlog
observed = record {
  level = λ x. x.0;
  traced = λ x. x.1;
  level_leveled = λ v x. refl;
  level_patterned = λ p t x. refl;
  level_enabled = λ n x. refl;
  level_disabled = λ x. refl;
  traced_leveled = λ v x. refl;
  traced_patterned = λ p t x. refl;
  traced_enabled = λ n x. refl;
  traced_disabled = λ x. refl;
}

-- The newest first.
abbrev settings : List (Setting ℕ Bool ℕ)
settings =
    sets_level default 5
    ∷ disables track
    ∷ enables default 64
    ∷ sets_level track 1
    ∷ sets_pattern client (b'v' ∷ []) false
    ∷ []

abbrev log : Log ℕ Bool ℕ Logger
log = applied spdlog settings (initial spdlog (0, none))

inherits : settled level_of 2 settings client ≡ 5
inherits = refl

forgets : settled size_of 4096 settings track ≡ 64
forgets = refl
