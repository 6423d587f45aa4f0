-- ===== src/Scheduler/Pipeline/Current.antt =====
-- The table that the discovery pipeline of src/scheduler.py leaves.
use mathlib.Core.Path.{subst}
use free_lunch.Dict.{Dict}
use free_lunch.Floats.{Floats}
use free_lunch.Database.Models.{Model, Table, find_model, update_where, HasUniqueIds, has_id}
use free_lunch.Database.Unique.{flush-HasUniqueIds}
use free_lunch.Database.Writes.{
  Write, record_failure, record_success, set_active, deactivate_unseen, deactivate_provider,
  upsert_model, set_score, failed_row, succeeded_row, activated, scored_row, apply_write, flush,
}
use free_lunch.Database.Activation.{
  set_model_active, disabled_providers, apply_provider_runtime_state,
}
use free_lunch.Health.Marks.{mark_failure, mark_success}
use free_lunch.Health.Batch.{ProbeEffect, deactivates, succeeded, failed}
use free_lunch.Health.Checks.{effect_writes, batch_writes, bootstrap_health_check}
use free_lunch.Ranking.{ranges, row_score, recompute_ranking}
use free_lunch.Ranking.Written.{flush-recompute_ranking}
use free_lunch.Discovery.{Found, run_discovery}
use free_lunch.Application.{recompute_readiness}
use free_lunch.Application.Readiness.{IsReadiness, recompute_readiness-IsReadiness}
use free_lunch.Settings.{Settings}
use free_lunch.Prelude.Members.{map-All}
use free_lunch.Scheduler.Pipeline.{Outcome, Surroundings, rank_and_probe, run_discovery_pipeline}
use free_lunch.Prelude.{
  ℕ, String, ◌≡◌, refl, Bool, true, false, Option, some, List, [], ◌∷◌, map, arith, select, str_eq,
  not, any, ◌&&◌, if◌then◌else◌, All, if_keeps, All-append, Bool-cases, Option-cases, inl, inr, sym,
}

module _ {F : Type 0} where
  -- A row has a score of this time, if it is active.
  abbrev pub IsScoredAt : ℕ → Model F → Type 0
  IsScoredAt now m = m.is_active ≡ true → m.score_updated_at ≡ some now

  -- The statements that change no score and activate no row.
  abbrev KeepsScores : Write F → Type 0
  KeepsScores (record_failure id now error backoff cooldown threshold) = Unit
  KeepsScores (record_success id now probed latency ttfb) = Unit
  KeepsScores (set_active id b) = b ≡ false
  KeepsScores (deactivate_unseen provider seen) = Unit
  KeepsScores (deactivate_provider provider) = Unit
  KeepsScores (upsert_model new) = ⊥
  KeepsScores (set_score id score now) = ⊥

  update_where-All :
      (P : Model F → Type 0) (p : Model F → Bool) (f : Model F → Model F) (t : Table F)
      → ((m : Model F) → P m → P (f m))
      → All P t
      → All P (update_where p f t)
  update_where-All P p f [] k h = tt
  update_where-All P p f (m ∷ ms) k h =
      (if_keeps P (p m) (f m) m (k m h.0) h.0, update_where-All P p f ms k h.1)

deactivations-KeepsScores :
    (F : Type 0) (ps : List String) → All (KeepsScores {F = F}) (map deactivate_provider ps)
deactivations-KeepsScores F [] = tt
deactivations-KeepsScores F (p ∷ ps) = (tt, deactivations-KeepsScores F ps)

module _ {F : Type 0} ⦃fl : Floats F⦄ where
  inactive-IsScoredAt :
      (now : ℕ) (b : Bool) (m : Model F) → b ≡ false → IsScoredAt now (activated b m)
  inactive-IsScoredAt now b m k a = absurd (ground (arith, k, a))

  apply_write-IsScoredAt :
      (now : ℕ) (w : Write F) (t : Table F)
      → KeepsScores w
      → All (IsScoredAt now) t
      → All (IsScoredAt now) (apply_write w t)
  unfolding apply_write failed_row succeeded_row
  apply_write-IsScoredAt now (record_failure id at error backoff cooldown threshold) t k h =
      update_where-All (IsScoredAt now) (has_id id) (failed_row at error backoff cooldown threshold)
        t (λ m s. s) h
  apply_write-IsScoredAt now (record_success id at probed latency ttfb) t k h =
      update_where-All (IsScoredAt now) (has_id id) (succeeded_row at probed latency ttfb) t
        (λ m s. s) h
  apply_write-IsScoredAt now (set_active id b) t k h =
      update_where-All (IsScoredAt now) (has_id id) (activated b) t
        (λ m s. inactive-IsScoredAt now b m k) h
  apply_write-IsScoredAt now (deactivate_unseen provider seen) t k h =
      update_where-All (IsScoredAt now)
        (λ m. str_eq m.provider_id provider && not (any (str_eq m.id) seen)) (activated false) t
        (λ m s. inactive-IsScoredAt now false m refl) h
  apply_write-IsScoredAt now (deactivate_provider provider) t k h =
      update_where-All (IsScoredAt now) (λ m. str_eq m.provider_id provider && m.is_active)
        (activated false) t (λ m s. inactive-IsScoredAt now false m refl) h
  apply_write-IsScoredAt now (upsert_model new) t k h = absurd k
  apply_write-IsScoredAt now (set_score id score at) t k h = absurd k

  flush-IsScoredAt :
      (now : ℕ) (ws : List (Write F)) (t : Table F)
      → All KeepsScores ws
      → All (IsScoredAt now) t
      → All (IsScoredAt now) (flush ws t)
  unfolding flush
  flush-IsScoredAt now [] t k h = h
  flush-IsScoredAt now (w ∷ ws) t k h =
      flush-IsScoredAt now ws (apply_write w t) k.1 (apply_write-IsScoredAt now w t k.0 h)

  effect_writes-KeepsScores :
      (s : Settings) (now later : ℕ) (t : Table F) (e : ProbeEffect F)
      → All KeepsScores (effect_writes s now later t e)
  unfolding effect_writes set_model_active mark_failure mark_success
  effect_writes-KeepsScores s now later t (deactivates id) = (refl, tt)
  effect_writes-KeepsScores s now later t (succeeded id provider serial latency ttfb) = (tt, tt)
  effect_writes-KeepsScores s now later t (failed id provider serial error) =
      elim (Option-cases (find_model id t)) [
        | inl e ↦ rw (e, mark_failure) tt
        | inr (m, e) ↦ rw (e, mark_failure) (tt, tt)
      ]

  batch_writes-KeepsScores :
      (s : Settings) (now later : ℕ) (t : Table F) (es : List (ProbeEffect F))
      → All KeepsScores (batch_writes s now later t es)
  unfolding batch_writes
  batch_writes-KeepsScores s now later t [] = tt
  batch_writes-KeepsScores s now later t (e ∷ es) =
      All-append KeepsScores (effect_writes s now later t e) _
        (effect_writes-KeepsScores s now later t e) (batch_writes-KeepsScores s now later t es)

  rescored-IsScoredAt :
      (now : ℕ) (score : Model F → F) (m : Model F)
      → IsScoredAt now (if m.is_active then scored_row (score m) now m else m)
  rescored-IsScoredAt now score m = elim (Bool-cases m.is_active) [
    | inl e ↦ rw (e) (λ a. refl)
    | inr e ↦ rw (e) (λ a. absurd (ground (arith, e, a)))
  ]

  rescored-All :
      (now : ℕ) (score : Model F → F) (rows : Table F)
      → All (λ m. IsScoredAt now (if m.is_active then scored_row (score m) now m else m)) rows
  rescored-All now score [] = tt
  rescored-All now score (m ∷ ms) = (rescored-IsScoredAt now score m, rescored-All now score ms)

  ranked-IsScoredAt :
      (w : Surroundings F) (found : Table F)
      → HasUniqueIds found
      → All
          (IsScoredAt w.now)
          (flush (recompute_ranking w.round4 w.settings w.weights w.now w.by_model found).0 found)
  ranked-IsScoredAt w found u =
      subst (All (IsScoredAt w.now))
        (sym (flush-recompute_ranking w.round4 w.settings w.weights w.now w.by_model found u))
        (map-All _ (IsScoredAt w.now) found (
          rescored-All w.now
            (row_score w.round4 w.settings w.weights w.now w.by_model
              (ranges w.by_model (select (λ n. n.is_active) found)))
            found))

  readiness-IsScoredAt :
      (now : ℕ) (strip : String → String) (runtime : Dict Bool) (configured : List String)
      (table : Table F)
      → All (IsScoredAt now) table
      → All (IsScoredAt now) (recompute_readiness strip runtime configured table).0
  unfolding recompute_readiness apply_provider_runtime_state
  readiness-IsScoredAt now strip runtime configured table h =
      flush-IsScoredAt now (apply_provider_runtime_state strip runtime configured table) table
        (deactivations-KeepsScores F (disabled_providers strip runtime configured table)) h

  readiness-HasUniqueIds :
      (strip : String → String) (runtime : Dict Bool) (configured : List String) (table : Table F)
      → HasUniqueIds table
      → HasUniqueIds (recompute_readiness strip runtime configured table).0
  unfolding recompute_readiness
  readiness-HasUniqueIds strip runtime configured table u =
      flush-HasUniqueIds (apply_provider_runtime_state strip runtime configured table) table u

module _ {F Msgs : Type 0} ⦃fl : Floats F⦄ (estimate : Msgs → String → String → ℕ)
    (w : Surroundings F) where
  -- What a pipeline that comes to its end leaves.
  pub record IsCurrent (o : Outcome F) : Type 0 where
    pub unique : HasUniqueIds o.table
    pub scored : All (IsScoredAt w.now) o.table
    pub readiness : IsReadiness estimate w.strip w.runtime w.configured (o.table, o.ready)

  rank_and_probe-IsCurrent :
      (n : ℕ) (found : Table F) → HasUniqueIds found → IsCurrent (rank_and_probe w n found)
  unfolding rank_and_probe bootstrap_health_check
  rank_and_probe-IsCurrent n found u =
      let scores = (recompute_ranking w.round4 w.settings w.weights w.now w.by_model found).0 in
      let ranked = flush scores found in
      let probes = (bootstrap_health_check w.settings w.now w.later w.batch ranked).1 in
      let probed = flush probes ranked in
      record {
        unique =
            readiness-HasUniqueIds w.strip w.runtime w.configured probed
              (flush-HasUniqueIds probes ranked (flush-HasUniqueIds scores found u));
        scored = readiness-IsScoredAt w.now w.strip w.runtime w.configured probed (
            flush-IsScoredAt w.now probes ranked
              (batch_writes-KeepsScores w.settings w.now w.later ranked _)
              (ranked-IsScoredAt w found u));
        readiness = recompute_readiness-IsReadiness estimate w.strip w.runtime w.configured probed;
      }

  -- When the discovery pipeline has come to its end, no id is listed twice, each active row has a score of
  -- its time, each has an enabled provider or one with a blank name, and the readiness that it reports is
  -- right: some row is healthy and active, or every request is refused; where no id was listed twice before.
  pub run_discovery_pipeline-IsCurrent :
      (providers : List (String × Option (List (Found F)))) (table : Table F) (o : Outcome F)
      → HasUniqueIds table
      → run_discovery_pipeline w providers table ≡ some o
      → IsCurrent o
  unfolding run_discovery_pipeline
  run_discovery_pipeline-IsCurrent providers table o u h =
      elim (Option-cases (run_discovery w.read w.now w.cached providers).1) [
        | inl e ↦ absurd (ground (arith, h, e))
        | inr (n, e) ↦
            let found = flush (run_discovery w.read w.now w.cached providers).0 table in
            let same : rank_and_probe w n found ≡ o = ground (arith, h, e) in
            subst IsCurrent same (
              rank_and_probe-IsCurrent n found
                (flush-HasUniqueIds (run_discovery w.read w.now w.cached providers).0 table u))
      ]
