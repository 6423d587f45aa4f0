-- ===== src/Ranking/Telemetry.antt =====
-- The telemetry that src/ranking.py reads from the request log.
use package.text.Mathlib.Text.{find?}
use free_lunch.Floats.{Floats, zero_f, float}
use free_lunch.Prelude.{
  ℕ, String, Bool, ◌&&◌, ◌||◌, Option, none, some, List, [], ◌∷◌, map, leb, if◌then◌else◌, length,
  select, str_eq, or_else, is_some,
}

-- The columns of `request_log` that the telemetry reads; a time is in seconds.
pub record LogRow (F : Type 0) : Type 0 where
  pub model_id : String
  pub source : String
  pub time : ℕ
  pub success : Bool
  pub latency_ms : Option F
  pub ttfb_ms : Option F
  pub error_code : Option String
  pub error_message : Option String

pub record TelemetrySnapshot (F : Type 0) : Type 0 where
  pub total_requests : ℕ
  pub success_rate : F
  pub avg_latency_ms : F
  pub avg_ttfb_ms : F
  pub rate_limit_ratio : F

-- The values that are there.
abbrev pub present {ℓ} : {A : Type ℓ} → List (Option A) → List A
present [] = []
present (x ∷ xs) = elim x [ none ↦ present xs | some a ↦ a ∷ present xs ]

module _ {F : Type 0} ⦃fl : Floats F⦄ where
  abbrev pub one_f : F
  one_f = fl.decimal 1 0

  -- `sum(xs, start)`
  abbrev pub sum_f : F → List F → F
  sum_f start [] = start
  sum_f start (x ∷ xs) = sum_f (fl.add start x) xs

  -- `AVG`, with 0.0 for no value
  abbrev pub average : List F → F
  average [] = zero_f
  average (x ∷ xs) = fl.div (sum_f zero_f (x ∷ xs)) (float (length (x ∷ xs)))

  abbrev as_float : Bool → F
  as_float b = if b then one_f else zero_f

  abbrev pub is_rate_limited : LogRow F → Bool
  is_rate_limited r =
      str_eq (or_else r.error_code "") "429" || is_some (find? (or_else r.error_message "") "429")

  abbrev no_telemetry : TelemetrySnapshot F
  no_telemetry = record {
    total_requests = 0;
    success_rate = zero_f;
    avg_latency_ms = zero_f;
    avg_ttfb_ms = zero_f;
    rate_limit_ratio = zero_f;
  }

  -- The group of a model; a model without rows has no group.
  abbrev snapshot : List (LogRow F) → TelemetrySnapshot F
  snapshot rows = record {
    total_requests = length rows;
    success_rate = average (map (λ r. as_float r.success) rows);
    avg_latency_ms = average (present (map (λ r. r.latency_ms) rows));
    avg_ttfb_ms = average (present (map (λ r. r.ttfb_ms) rows));
    rate_limit_ratio = average (map (λ r. as_float (is_rate_limited r)) rows);
  }

  -- `telemetry_by_model.get(model_id, TelemetrySnapshot())`, of the requests since `start`
  unfoldable pub telemetry : List (LogRow F) → ℕ → String → TelemetrySnapshot F
  telemetry log start k =
      let rows =
        select (λ r. str_eq r.model_id k && (str_eq r.source "client" && leb start r.time)) log in
      elim rows [ [] ↦ no_telemetry | r ∷ rs ↦ snapshot (r ∷ rs) ]
