-- ===== src/Health/Checks.antt =====
-- `run_health_checks` and `bootstrap_health_check` of src/health.py: the candidates, and the statements
-- that the effects of a batch of probes hand to the writer. Log rows are left out. No other request marks a
-- model meanwhile, so that each mark reads the row that the batch has found.
use free_lunch.Floats.{Floats}
use free_lunch.Settings.{Settings}
use free_lunch.Database.Models.{Table}
use free_lunch.Database.Writes.{Write}
use free_lunch.Database.Activation.{set_model_active}
use free_lunch.Health.Marks.{mark_failure, mark_success}
use free_lunch.Health.Probes.{ProbeCandidate, select_bootstrap_candidates, select_probe_candidates}
use free_lunch.Health.Batch.{ProbeEffect, deactivates, succeeded, failed, Batch}
use free_lunch.Prelude.{ℕ, false, some, List, [], ◌∷◌, ◌++◌}

module _ {F : Type 0} ⦃fl : Floats F⦄ (s : Settings) (now later : ℕ) where
  unfoldable pub effect_writes : Table F → ProbeEffect F → List (Write F)
  unfolding set_model_active mark_failure mark_success
  effect_writes table (deactivates id) = set_model_active id false
  effect_writes table (succeeded id provider serial latency ttfb) =
      mark_success now id latency ttfb (some now)
  effect_writes table (failed id provider serial error) = mark_failure s now later table id error

  unfoldable pub batch_writes : Table F → List (ProbeEffect F) → List (Write F)
  unfolding effect_writes
  batch_writes table [] = []
  batch_writes table (e ∷ es) = effect_writes table e ++ batch_writes table es

  module _ (batch : List ProbeCandidate → Batch F) where
    -- The number of probes and the statements, where `batch` is what the event loop makes of candidates.
    unfoldable pub run_health_checks : Table F → ℕ × List (Write F)
    unfolding select_probe_candidates batch_writes
    run_health_checks table =
        let b = batch (select_probe_candidates table s now) in
        (b.probed, batch_writes table b.effects)

    unfoldable pub bootstrap_health_check : Table F → ℕ × List (Write F)
    unfolding select_bootstrap_candidates batch_writes
    bootstrap_health_check table =
        let b = batch (
          select_bootstrap_candidates table s.ranking_fallback_model
            s.health_startup_probe_limit) in
        (b.probed, batch_writes table b.effects)
