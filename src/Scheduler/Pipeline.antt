-- ===== src/Scheduler/Pipeline.antt =====
-- `run_discovery_pipeline` of src/scheduler.py and the bodies of its jobs: each part hands statements to
-- the writer, and `flush` runs them before the next part reads the table.
pub mod Current
use free_lunch.Dict.{Dict}
use free_lunch.Floats.{Floats}
use free_lunch.Settings.{Settings}
use free_lunch.Database.Models.{Table}
use free_lunch.Database.Writes.{flush}
use free_lunch.Benchmarks.Cache.{Scored}
use free_lunch.Discovery.{Found, Readings, run_discovery}
use free_lunch.Ranking.{recompute_ranking}
use free_lunch.Ranking.Telemetry.{TelemetrySnapshot}
use free_lunch.Health.Probes.{ProbeCandidate}
use free_lunch.Health.Batch.{Batch}
use free_lunch.Health.Checks.{run_health_checks, bootstrap_health_check}
use free_lunch.Application.{recompute_readiness}
use free_lunch.Prelude.{ℕ, String, Bool, Option, none, some, List}

pub record Outcome (F : Type 0) : Type 0 where
  pub discovered : ℕ
  pub ranking_updates : ℕ
  pub probed_models : ℕ
  pub ready : Bool
  pub table : Table F

-- What the parts read beside the table: the times at which they ask the clock, rounding, the weights, the
-- log's telemetry, the cached scores, what the event loop makes of a batch, and the registry.
pub record Surroundings (F : Type 0) : Type 0 where
  pub settings : Settings
  pub now : ℕ
  pub later : ℕ
  pub round4 : F → F
  pub weights : Dict F
  pub by_model : String → TelemetrySnapshot F
  pub read : Readings F
  pub cached : String → Option (Scored F)
  pub batch : List ProbeCandidate → Batch F
  pub strip : String → String
  pub runtime : Dict Bool
  pub configured : List String

module _ {F : Type 0} ⦃fl : Floats F⦄ (w : Surroundings F) where
  -- From the discovered table on.
  unfoldable pub rank_and_probe : ℕ → Table F → Outcome F
  unfolding flush recompute_ranking bootstrap_health_check recompute_readiness
  rank_and_probe discovered found =
      let scores = recompute_ranking w.round4 w.settings w.weights w.now w.by_model found in
      let ranked = flush scores.0 found in
      let probes = bootstrap_health_check w.settings w.now w.later w.batch ranked in
      let after = recompute_readiness w.strip w.runtime w.configured (flush probes.1 ranked) in
      record {
        discovered = discovered;
        ranking_updates = scores.1;
        probed_models = probes.0;
        ready = after.1;
        table = after.0;
      }

  -- A provider comes with its answer; `none` is the exception of one of them.
  unfoldable pub run_discovery_pipeline :
      List (String × Option (List (Found F))) → Table F → Option (Outcome F)
  unfolding run_discovery rank_and_probe
  run_discovery_pipeline providers table =
      let answers = run_discovery w.read w.now w.cached providers in
      elim answers.1 [ none ↦ none | some n ↦ some (rank_and_probe n (flush answers.0 table)) ]

  -- `health_job`: the checks, and then the readiness.
  unfoldable pub health_job : Table F → Table F × Bool
  unfolding flush run_health_checks recompute_readiness
  health_job table =
      recompute_readiness w.strip w.runtime w.configured
        (flush (run_health_checks w.settings w.now w.later w.batch table).1 table)
