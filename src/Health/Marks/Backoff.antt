-- ===== src/Health/Marks/Backoff.antt =====
-- How failures and successes move a model's health in src/health.py, and what routing makes of it.
use mathlib.Core.Path.{subst}
use free_lunch.Prelude.{
  ℕ, suc, ◌+◌, ◌*◌, ◌^◌, min, String, ◌≡◌, refl, ◌∙◌, true, ◌&&◌, Option, none, some, List, [], ◌∷◌,
  ◌++◌, arith, str_eq, eq_iff, eq_refl, ltb, if◌then◌else◌, length,
}
use free_lunch.Settings.{Settings}
use free_lunch.Floats.{Floats}
use free_lunch.Database.Models.{Model, Table, find_model, has_id, update_where, find_model-update}
use free_lunch.Database.Writes.{apply_write, flush, failed_row, succeeded_row}
use free_lunch.Health.Marks.{
  mark_failure, mark_success, next_backoff, cooldown_minutes, after_minutes, clip,
}

module _ {F : Type 0} ⦃fl : Floats F⦄ (s : Settings) where
  -- A failure that is marked and written before the next mark reads the table.
  unfoldable pub fail_once : ℕ → String → String → Table F → Table F
  fail_once now id error t = flush (mark_failure s now now t id error) t

  -- The row that such a failure leaves.
  abbrev pub after_failure : ℕ → String → Model F → Model F
  after_failure now error m =
      failed_row now (clip 500 error) (next_backoff s m.backoff_level)
        (after_minutes now (cooldown_minutes s (next_backoff s m.backoff_level)))
        s.health_consecutive_failures_threshold m

  -- A failure changes the row of its model as stated, and no other row.
  pub find_model-fail_once :
      (now : ℕ) (id other error : String) (m : Model F) (t : Table F)
      → find_model id t ≡ some m
      → find_model other (fail_once now id error t)
        ≡ (if str_eq id other then some (after_failure now error m) else find_model other t)
  unfolding fail_once mark_failure flush apply_write
  find_model-fail_once now id other error m t e = ground (
    arith,
    eq_iff id other,
    find_model-update id other
        (failed_row now (clip 500 error) (next_backoff s m.backoff_level)
          (after_minutes now (cooldown_minutes s (next_backoff s m.backoff_level)))
          s.health_consecutive_failures_threshold)
        t (λ r. refl),
  )

  -- Failures of one model, one after the other, at the given times.
  unfoldable pub fail_all : List ℕ → String → String → Table F → Table F
  fail_all [] id error t = t
  fail_all (now ∷ times) id error t = fail_all times id error (fail_once now id error t)

  -- What a row shows after `n` more failures, the last at `now`.
  pub record HasFailed (n now : ℕ) (old new : Model F) : Type 0 where
    pub failures : new.consecutive_failures ≡ old.consecutive_failures + n
    pub level : new.backoff_level ≡ min (old.backoff_level + n) s.health_max_backoff_exponent
    pub cooldown :
        new.cooldown_until
        ≡ some (
            now
            + s.health_cooldown_minutes
              * 2 ^ (min (old.backoff_level + n) s.health_max_backoff_exponent)
              * 60)
    pub health : new.is_healthy ≡ (
        old.is_healthy
        && ltb (old.consecutive_failures + n) s.health_consecutive_failures_threshold)

  after_failure-HasFailed :
      (now : ℕ) (error : String) (m : Model F) → HasFailed 1 now m (after_failure now error m)
  unfolding failed_row
  after_failure-HasFailed now error m = record {
    failures = refl;
    level = refl;
    cooldown = refl;
    health = ground arith;
  }

  HasFailed-step :
      (n now last : ℕ) (error : String) (m m' : Model F)
      → HasFailed n last (after_failure now error m) m'
      → HasFailed (suc n) last m m'
  unfolding failed_row
  HasFailed-step n now last error m m' h =
      let level : min (min (m.backoff_level + 1) s.health_max_backoff_exponent + n)
            s.health_max_backoff_exponent
          ≡ min (m.backoff_level + suc n) s.health_max_backoff_exponent =
        omega arith in
      record {
        failures = omega (arith, h.failures);
        level = h.level ∙ level;
        cooldown = rw (← level) h.cooldown;
        health = ground (arith, h.health);
      }

  -- After n + 1 failures of a model in the table, each written before the next one is marked, its failures
  -- have risen by n + 1, the backoff level by as much up to its bound, the cooldown doubles with each level,
  -- and the model is healthy only if it was and the failures are still below the threshold.
  pub fail_all-HasFailed :
      (times : List ℕ) (last : ℕ) (id error : String) (m : Model F) (t : Table F)
      → find_model id t ≡ some m
      → (m' : Model F) × (find_model id (fail_all (times ++ last ∷ []) id error t) ≡ some m')
        × HasFailed (length times + 1) last m m'
  unfolding fail_all
  fail_all-HasFailed [] last id error m t e = (
    after_failure last error m,
    ground (arith, find_model-fail_once last id id error m t e, eq_refl id),
    after_failure-HasFailed last error m,
  )
  fail_all-HasFailed (now ∷ times) last id error m t e =
      let found : find_model id (fail_once now id error t) ≡ some (after_failure now error m) =
        ground (arith, find_model-fail_once now id id error m t e, eq_refl id) in
      let (m', e', h) =
        fail_all-HasFailed times last id error (after_failure now error m)
          (fail_once now id error t) found in
      let n : suc (length times + 1) ≡ suc (length times) + 1 = omega arith in
      (
        m',
        e',
        subst (λ k. HasFailed k last m m') n
            (HasFailed-step (length times + 1) now last error m m' h),
      )

  -- A success of a model in the table ends the cooldown and clears what failures left, in the row of
  -- that model alone, and does not activate it.
  pub find_model-mark_success :
      (now : ℕ) (id other : String) (latency ttfb : Option F) (probed : Option ℕ) (m : Model F)
      (t : Table F)
      → find_model id t ≡ some m
      → (m' : Model F) × (find_model other (flush (mark_success now id latency ttfb probed) t)
          ≡ (if str_eq id other then some m' else find_model other t))
        × (m'.is_healthy ≡ true)
        × (m'.consecutive_failures ≡ 0)
        × (m'.backoff_level ≡ 0)
        × (m'.cooldown_until ≡ none)
        × (m'.last_error ≡ none)
        × (m'.is_active ≡ m.is_active)
  unfolding mark_success flush apply_write
  find_model-mark_success now id other latency ttfb probed m t e = (
    succeeded_row now probed latency ttfb m,
    ground (
      arith,
      eq_iff id other,
      find_model-update id other (succeeded_row now probed latency ttfb) t (λ r. refl),
    ),
    refl,
    refl,
    refl,
    refl,
    refl,
    refl,
  )

  -- Two failures of a model in the table that are marked before the writer runs the first both count, but raise the
  -- backoff level only once: each computes it from the row as it was.
  pub unflushed_failures :
      (now later : ℕ) (id error : String) (m : Model F) (t : Table F)
      → find_model id t ≡ some m
      → (m' : Model F) × (find_model id
            (flush (mark_failure s now now t id error ++ mark_failure s later later t id error) t)
          ≡ some m')
        × (m'.consecutive_failures ≡ m.consecutive_failures + 2)
        × (m'.backoff_level ≡ next_backoff s m.backoff_level)
  unfolding mark_failure flush apply_write failed_row
  unflushed_failures now later id error m t e =
      let again =
        failed_row later (clip 500 error) (next_backoff s m.backoff_level)
          (after_minutes later (cooldown_minutes s (next_backoff s m.backoff_level)))
          s.health_consecutive_failures_threshold in
      let once =
        failed_row now (clip 500 error) (next_backoff s m.backoff_level)
          (after_minutes now (cooldown_minutes s (next_backoff s m.backoff_level)))
          s.health_consecutive_failures_threshold in
      (
        again (once m),
        ground (
          arith,
          eq_refl id,
          find_model-update id id again (update_where (has_id id) once t) (λ r. refl),
          find_model-update id id once t (λ r. refl),
        ),
        omega arith,
        refl,
      )
