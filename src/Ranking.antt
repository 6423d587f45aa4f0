-- ===== src/Ranking.antt =====
-- src/ranking.py: the factors of a model's score, and the statements
-- that write the scores. Rounding and the weights are parameters.
pub mod Telemetry
pub mod Written
mod Tests
use Telemetry.{TelemetrySnapshot, present, one_f, sum_f, average}
use free_lunch.Floats.{Floats, zero_f, float, max_f, min_f, or_f}
use free_lunch.Dict.{Dict, lookup}
use free_lunch.Database.Models.{Model, Table}
use free_lunch.Database.Writes.{Write, set_score}
use free_lunch.Settings.{Settings}
use free_lunch.Prelude.{
  ℕ, ◌+◌, String, Bool, true, false, not, ◌&&◌, ◌||◌, Option, none, some, List, [], ◌∷◌, map, leb,
  ltb, max, min, if◌then◌else◌, length, select, total, str_eq, or_else, is_some,
}

-- The smallest and greatest values of the active rows.
pub record Ranges (F : Type 0) : Type 0 where
  pub min_elo : F
  pub max_elo : F
  pub min_llm : F
  pub max_llm : F
  pub min_context : ℕ
  pub max_context : ℕ
  pub min_latency : F
  pub max_latency : F
  pub max_rank : ℕ

-- `int(rank)` of the first rank that is positive
abbrev pub effective_provider_rank : Option ℕ → Option ℕ → Option ℕ
effective_provider_rank provider openrouter =
    let second : Option ℕ = elim openrouter [
      | none ↦ none
      | some n ↦ if ltb 0 n then some n else none
    ] in
    elim provider [ none ↦ second | some n ↦ if ltb 0 n then some n else second ]

abbrev greatest : List ℕ → ℕ
greatest [] = 0
greatest (n ∷ ns) = max n (greatest ns)

abbrev least : List ℕ → ℕ
least [] = 0
least (n ∷ ns) = elim ns [ [] ↦ n | m ∷ ms ↦ min n (least ns) ]

abbrev pub count_true : List Bool → ℕ
count_true bs = total (λ b. if b then 1 else 0) bs

module _ {F : Type 0} ⦃fl : Floats F⦄ where
  -- `max(0.0, min(1.0, x))`
  abbrev pub clamp : F → F
  clamp x = max_f zero_f (min_f one_f x)

  unfoldable pub normalize : F → F → F → F
  normalize x lo hi = if fl.lt lo hi then clamp (fl.div (fl.sub x lo) (fl.sub hi lo)) else one_f

  abbrev pub normalize_inverse : F → F → F → F
  normalize_inverse x lo hi = fl.sub one_f (normalize x lo hi)

  abbrev pub cold_start_usage_score : Option ℕ → ℕ → F
  cold_start_usage_score none max_rank = fl.decimal 5 1
  cold_start_usage_score (some rank) max_rank =
      normalize_inverse (float rank) one_f (float (max max_rank 1))

  abbrev least_f : List F → F
  least_f [] = zero_f
  least_f (x ∷ xs) = elim xs [ [] ↦ x | y ∷ ys ↦ min_f x (least_f xs) ]

  abbrev greatest_f : List F → F
  greatest_f [] = zero_f
  greatest_f (x ∷ xs) = elim xs [ [] ↦ x | y ∷ ys ↦ max_f x (greatest_f xs) ]

  abbrev pub latency_reference : TelemetrySnapshot F → Model F → F
  latency_reference t m = or_f t.avg_ttfb_ms (
      or_f t.avg_latency_ms (or_f (or_else m.avg_ttfb_ms zero_f) (or_else m.avg_latency_ms zero_f)))

  abbrev rank_of : Model F → Option ℕ
  rank_of m = effective_provider_rank m.provider_rank m.openrouter_rank

  unfoldable pub ranges : (String → TelemetrySnapshot F) → List (Model F) → Ranges F
  ranges by_model rows =
      let elos = present (map (λ m. m.chatbot_arena_elo) rows) in
      let llms = present (map (λ m. m.open_llm_score) rows) in
      let contexts = map (λ m. or_else m.context_window 0) rows in
      let latencies =
        select (λ x. fl.lt zero_f x) (map (λ m. latency_reference (by_model m.id) m) rows) in
      let ranks = present (map rank_of rows) in
      record {
        min_elo = least_f elos;
        max_elo = greatest_f elos;
        min_llm = least_f llms;
        max_llm = greatest_f llms;
        min_context = least contexts;
        max_context = greatest contexts;
        min_latency = least_f latencies;
        max_latency = greatest_f latencies;
        max_rank = elim ranks [ [] ↦ 1 | n ∷ ns ↦ greatest (n ∷ ns) ];
      }

  -- The benchmarks that a model has, each between the smallest and the greatest.
  abbrev pub benchmark_score : Ranges F → Model F → Option F
  benchmark_score g m =
      let parts : List F = present (
        elim m.chatbot_arena_elo [ none ↦ none | some x ↦ some (normalize x g.min_elo g.max_elo) ]
        ∷ elim m.open_llm_score [ none ↦ none | some x ↦ some (normalize x g.min_llm g.max_llm) ]
        ∷ []) in
      elim parts [ [] ↦ none | x ∷ xs ↦ some (average (x ∷ xs)) ]

  unfoldable pub usage_score : Ranges F → TelemetrySnapshot F → Model F → F
  usage_score g t m =
      if leb 5 t.total_requests
      then clamp (
          fl.add
            (fl.add (fl.mul t.success_rate (fl.decimal 6 1))
              (fl.mul (fl.div (float (min t.total_requests 50)) (float 50)) (fl.decimal 25 2)))
            (fl.mul (fl.sub one_f t.rate_limit_ratio) (fl.decimal 15 2)))
      else cold_start_usage_score (rank_of m) g.max_rank

  abbrev pub latency_score : Ranges F → TelemetrySnapshot F → Model F → Option F
  latency_score g t m =
      let reference = latency_reference t m in
      if fl.lt zero_f reference
      then some (normalize_inverse reference g.min_latency g.max_latency)
      else none

  -- `penalty += x`, if the test holds
  abbrev add_if : Bool → F → F → F
  add_if b x penalty = if b then fl.add penalty x else penalty

  abbrev is_cooling : ℕ → Model F → Bool
  is_cooling now m = elim m.cooldown_until [ none ↦ false | some until ↦ ltb now until ]

  abbrev pub availability_penalty : Settings → ℕ → Model F → F
  availability_penalty s now m =
      let health = add_if (not m.is_healthy) (fl.decimal 45 2) zero_f in
      let cooling = add_if (is_cooling now m) (fl.decimal 30 2) health in
      fl.add
        (fl.add cooling (
          fl.mul (float (min m.consecutive_failures s.health_consecutive_failures_threshold))
            (fl.decimal 8 2)))
        (fl.mul (float (min m.backoff_level s.health_max_backoff_exponent)) (fl.decimal 5 2))

  unfoldable pub availability_score : Settings → ℕ → TelemetrySnapshot F → Model F → F
  availability_score s now t m =
      let bonus =
        if ltb 0 t.total_requests
        then fl.mul t.success_rate (fl.decimal 20 2)
        else fl.decimal 10 2 in
      clamp (fl.add (fl.sub one_f (availability_penalty s now m)) bonus)

  abbrev pub feature_count : Model F → ℕ
  feature_count m = count_true (
      m.supports_tools ∷ m.supports_streaming ∷ m.supports_vision ∷ m.supports_structured_output
      ∷ [])

  -- The factors by their names in the weights; one that is not known is left out.
  unfoldable pub factor_values :
      Settings → ℕ → Ranges F → TelemetrySnapshot F → Model F → List (String × Option F)
  unfolding normalize usage_score availability_score
  factor_values s now g t m =
      ("benchmark_score", benchmark_score g m)
      ∷ ("real_world_usage", some (usage_score g t m))
      ∷ ("latency", latency_score g t m)
      ∷ ("availability", some (availability_score s now t m))
      ∷ (
        "context_window",
        some (
            normalize (float (or_else m.context_window 0)) (float g.min_context)
              (float g.max_context)),
      )
      ∷ ("feature_support", some (fl.div (float (feature_count m)) (float 4)))
      ∷ []

  abbrev weight_of : Dict F → String → F
  weight_of weights name = or_else (lookup name weights) zero_f

  abbrev pub available_weight : Dict F → List (String × Option F) → F
  available_weight weights factors =
      sum_f zero_f (map (λ f. weight_of weights f.0) (select (λ f. is_some f.1) factors))

  abbrev pub weighted_sum : Dict F → F → F → List (String × Option F) → F
  weighted_sum weights available score [] = score
  weighted_sum weights available score ((name, value) ∷ factors) = elim value [
    | none ↦ weighted_sum weights available score factors
    | some x ↦
        weighted_sum weights available
          (fl.add score (fl.mul (fl.div (weight_of weights name) available) x)) factors
  ]

  unfoldable pub final_score : Dict F → List (String × Option F) → F
  final_score weights factors =
      let available = available_weight weights factors in
      if fl.lt zero_f available then weighted_sum weights available zero_f factors else zero_f

  -- A row's new score. `round4` is `round(x, 4)`, and `weights` are the settings' or the default ones.
  unfoldable pub row_score :
      (F → F) → Settings → Dict F → ℕ → (String → TelemetrySnapshot F) → Ranges F → Model F → F
  unfolding factor_values final_score
  row_score round4 s weights now by_model g m =
      round4 (fl.mul (final_score weights (factor_values s now g (by_model m.id) m)) (float 100))

  -- The statements, and their number.
  unfoldable pub recompute_ranking :
      (F → F)
      → Settings
      → Dict F
      → ℕ
      → (String → TelemetrySnapshot F)
      → Table F
      → List (Write F) × ℕ
  unfolding ranges row_score
  recompute_ranking round4 s weights now by_model table =
      let rows = select (λ m. m.is_active) table in
      let g = ranges by_model rows in
      (
        map (λ m. set_score m.id (row_score round4 s weights now by_model g m) now) rows,
        length rows,
      )
