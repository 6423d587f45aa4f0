-- ===== src/Settings.antt =====
-- src/config.py: the settings that the modelled components read.
pub mod Overrides
pub mod Providers
mod Tests
use free_lunch.Prelude.{ℕ, String, Bool, true, false, if◌then◌else◌, or_else, str_eq, [], ◌∷◌}
use free_lunch.Prelude.Int.{ℤ, pos}
use free_lunch.Dict.{Dict, lookup}

pub record Settings : Type 0 where
  pub provider_enabled : Dict Bool
  pub provider_active_probe_enabled : Dict Bool
  pub openrouter_active_probe_enabled : Bool
  pub discovery_interval_minutes : ℕ
  pub ranking_interval_minutes : ℕ
  pub ranking_fallback_model : String
  pub routing_max_attempts : ℤ
  pub routing_enable_request_preference_headers : Bool
  pub health_probe_interval_minutes : ℤ
  pub health_probe_timeout_seconds : ℤ
  pub health_probe_concurrency : ℕ
  pub health_max_probes_per_run : ℕ
  pub health_stale_after_minutes : ℕ
  pub health_top_n_stale_probe : ℕ
  pub health_startup_probe_limit : ℤ
  pub health_consecutive_failures_threshold : ℕ
  pub health_cooldown_minutes : ℕ
  pub health_max_backoff_exponent : ℕ
  pub health_probe_max_tokens : ℕ
  pub health_daily_request_budget_by_provider : Dict ℕ
  pub logging_request_log_retention_days : ℕ
  pub logging_runtime_enabled : Bool
  pub logging_runtime_verbosity : String

-- `is_provider_active_probe_enabled`, for an id with no white space around it.
unfoldable pub is_provider_active_probe_enabled : Settings → String → Bool
is_provider_active_probe_enabled s id =
    if str_eq id ""
    then false
    else or_else (lookup id s.provider_active_probe_enabled)
        (if str_eq id "openrouter" then s.openrouter_active_probe_enabled else true)

-- The defaults of the class, after `__post_init__`.
abbrev pub defaults : Settings
defaults = record {
  provider_enabled = ("openrouter", true) ∷ [];
  provider_active_probe_enabled = ("openrouter", true) ∷ [];
  openrouter_active_probe_enabled = true;
  discovery_interval_minutes = 30;
  ranking_interval_minutes = 15;
  ranking_fallback_model = "openrouter/openrouter/free";
  routing_max_attempts = pos 3;
  routing_enable_request_preference_headers = true;
  health_probe_interval_minutes = pos 180;
  health_probe_timeout_seconds = pos 15;
  health_probe_concurrency = 1;
  health_max_probes_per_run = 1;
  health_stale_after_minutes = 360;
  health_top_n_stale_probe = 3;
  health_startup_probe_limit = pos 2;
  health_consecutive_failures_threshold = 3;
  health_cooldown_minutes = 30;
  health_max_backoff_exponent = 4;
  health_probe_max_tokens = 1;
  health_daily_request_budget_by_provider = ("openrouter", 5) ∷ [];
  logging_request_log_retention_days = 30;
  logging_runtime_enabled = true;
  logging_runtime_verbosity = "concise";
}
