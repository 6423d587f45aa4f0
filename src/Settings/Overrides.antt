-- ===== src/Settings/Overrides.antt =====
-- `Settings.apply_overrides` of src/config.py, without the ranking weights, which are not among the
-- modelled settings. A stored value is any JSON value. `int` of a text and of a float, which may raise, and
-- `str` are parameters, and `str.strip` is `strip`.
-- An exception leaves the settings as far as they were set.
pub mod Bounds
use Prim.Native.String
use package.text.Mathlib.Text.{starts_with}
use free_lunch.Routing.Candidates.{ends_with}
use free_lunch.Proxy.Events.{drop_chars}
use free_lunch.Prelude.{
  zero, suc, ◌-◌, ◌||◌, ℕ, String, Bool, true, false, not, Option, none, some, List, [], ◌∷◌,
  str_eq, if◌then◌else◌, ◌==◌, max,
}
use free_lunch.Prelude.Int.{ℤ, pos, negsuc, max_ℤ}
use free_lunch.Json.{Json, null, flag, whole, fraction, text, list, object, truth}
use free_lunch.Dict.{Dict, lookup, insert}
use free_lunch.Settings.{Settings}

-- `int` of a text and of a float by its spelling, where `none` is an exception, and `str`.
pub record Conversions : Type 0 where
  pub int_of_text : String → Option ℤ
  pub int_of_float : String → Option ℤ
  pub str : Json → String

-- `int(raw)`
unfoldable pub int_of : Conversions → Json → Option ℤ
int_of conv v = elim v [
  | flag b ↦ some (if b then pos 1 else pos 0)
  | whole z ↦ some z
  | fraction b s ↦ conv.int_of_float s
  | text s ↦ conv.int_of_text s
  | _ ↦ none
]

-- What an override does to the settings: a conversion that may raise, and an assignment.
pub data Setter : Type 0 where
  sets_int : (ℤ → Settings → Settings) → Setter
  sets_bool : (Bool → Settings → Settings) → Setter
  sets_text : (String → Settings → Settings) → Setter

-- The tests of `apply_overrides` in their order.
abbrev pub setters : List (String × Setter)
setters =
    (
      "discovery.interval_minutes",
      sets_int (λ z s. record s { discovery_interval_minutes = max_ℤ z 1 }),
    )
    ∷ (
      "ranking.interval_minutes",
      sets_int (λ z s. record s { ranking_interval_minutes = max_ℤ z 1 }),
    )
    ∷ ("routing.max_attempts", sets_int (λ z s. record s { routing_max_attempts = z }))
    ∷ (
      "routing.enable_request_preference_headers",
      sets_bool (λ b s. record s { routing_enable_request_preference_headers = b }),
    )
    ∷ (
      "health.probe_interval_minutes",
      sets_int (λ z s. record s { health_probe_interval_minutes = pos (max_ℤ z 1) }),
    )
    ∷ (
      "health.probe_timeout_seconds",
      sets_int (λ z s. record s { health_probe_timeout_seconds = pos (max_ℤ z 1) }),
    )
    ∷ (
      "health.probe_concurrency",
      sets_int (λ z s. record s { health_probe_concurrency = max_ℤ z 1 }),
    )
    ∷ ("health.startup_probe_limit", sets_int (λ z s. record s { health_startup_probe_limit = z }))
    ∷ (
      "health.max_probes_per_run",
      sets_int (λ z s. record s { health_max_probes_per_run = max_ℤ z 0 }),
    )
    ∷ (
      "health.stale_after_minutes",
      sets_int (λ z s. record s { health_stale_after_minutes = max_ℤ z 1 }),
    )
    ∷ (
      "health.top_n_stale_probe",
      sets_int (λ z s. record s { health_top_n_stale_probe = max_ℤ z 0 }),
    )
    ∷ (
      "health.consecutive_failures_threshold",
      sets_int (λ z s. record s { health_consecutive_failures_threshold = max_ℤ z 1 }),
    )
    ∷ (
      "health.cooldown_minutes",
      sets_int (λ z s. record s { health_cooldown_minutes = max_ℤ z 1 }),
    )
    ∷ (
      "health.max_backoff_exponent",
      sets_int (λ z s. record s { health_max_backoff_exponent = max_ℤ z 0 }),
    )
    ∷ (
      "health.probe_max_tokens",
      sets_int (λ z s. record s { health_probe_max_tokens = max_ℤ z 1 }),
    )
    ∷ ("ranking.fallback_model", sets_text (λ t s. record s { ranking_fallback_model = t }))
    ∷ (
      "logging.request_log_retention_days",
      sets_int (λ z s. record s { logging_request_log_retention_days = max_ℤ z 1 }),
    )
    ∷ ("logging.runtime_enabled", sets_bool (λ b s. record s { logging_runtime_enabled = b }))
    ∷ ("logging.runtime_verbosity", sets_text (λ t s. record s { logging_runtime_verbosity = t }))
    ∷ []

-- `text[:n]`
unfoldable pub take_chars : ℕ → String → String
take_chars zero s = String.[]
take_chars (suc n) String.[] = String.[]
take_chars (suc n) (String.◌∷◌ c s) = String.◌∷◌ c (take_chars n s)

-- `_provider_from_active_probe_key` and `_provider_from_probe_budget_key`, by prefix and suffix.
unfoldable pub provider_between : (String → String) → String → String → String → Option String
unfolding take_chars
provider_between strip prefix suffix key =
    let inside =
      take_chars (String.count key - String.count suffix - String.count prefix)
        (drop_chars (String.count prefix) key) in
    let id = strip inside in
    if not (starts_with key prefix) || (not (ends_with key suffix) || str_eq id "")
    then none
    else some id

abbrev pub set_probe_enabled : String → Bool → Settings → Settings
set_probe_enabled id b s =
    let t = record s {
      provider_active_probe_enabled = insert id b s.provider_active_probe_enabled;
    } in
    if str_eq id "openrouter" then record t { openrouter_active_probe_enabled = b } else t

module _ (conv : Conversions) where
  unfoldable pub set_value : Setter → Json → Settings → Option Settings
  unfolding int_of
  set_value (sets_int f) v s = elim (int_of conv v) [ none ↦ none | some z ↦ some (f z s) ]
  set_value (sets_bool f) v s = some (f (truth v) s)
  set_value (sets_text f) v s = some (f (conv.str v) s)

  -- The settings, and whether an exception was raised.
  unfoldable pub run_setters : List (String × Setter) → Dict Json → Settings → Settings × Bool
  unfolding set_value
  run_setters [] overrides s = (s, false)
  run_setters ((k, f) ∷ fs) overrides s = elim (lookup k overrides) [
    | none ↦ run_setters fs overrides s
    | some v ↦ elim (set_value f v s) [ none ↦ (s, true) | some u ↦ run_setters fs overrides u ]
  ]

  module _ (strip : String → String) where
    -- The loop over all overrides for the keys that hold a provider.
    unfoldable pub run_provider_keys : Dict Json → Settings → Settings × Bool
    unfolding int_of
    run_provider_keys [] s = (s, false)
    run_provider_keys ((k, v) ∷ rest) s =
        elim (provider_between strip "providers." ".active_probe_enabled" k) [
          | some id ↦ run_provider_keys rest (set_probe_enabled id (truth v) s)
          | none ↦ elim (provider_between strip "health.daily_request_budget_by_provider." "" k) [
            | none ↦ run_provider_keys rest s
            | some id ↦ elim (int_of conv v) [
              | none ↦ (s, true)
              | some z ↦ run_provider_keys rest (record s {
                health_daily_request_budget_by_provider =
                    insert id (max_ℤ z 0) s.health_daily_request_budget_by_provider;
              })
            ]
          ]
        ]

    unfoldable pub apply_overrides : Dict Json → Settings → Settings × Bool
    unfolding run_setters run_provider_keys
    apply_overrides overrides s =
        let (t, raised) = run_setters setters overrides s in
        if raised then (t, true) else run_provider_keys overrides t
