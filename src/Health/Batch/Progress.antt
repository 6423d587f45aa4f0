-- ===== src/Health/Batch/Progress.antt =====
-- A batch of probes in src/health.py ends: it never gets stuck, and every step brings it closer.
use mathlib.Core.Path.{subst}
use free_lunch.Prelude.{
  ℕ, suc, ◌+◌, ◌*◌, ◌≤◌, ◌<◌, ◌≡◌, String, Bool, Option, some, List, [], ◌∷◌, ◌++◌, arith, length,
  length-append, Option-cases, List-cases, inl, inr, ◌⊎◌,
}
use free_lunch.Settings.{Settings}
use free_lunch.Health.Probes.{ProbeCandidate}
use free_lunch.Health.Batch.{
  LoggedProbe, ProbeOutcome, answered, raised, Batch, start_batch, pull, BatchAction, begin, enter,
  finish, reserve_budget, begin_probe, end_probe, act_batch, BatchReached, start, step, IsDone,
}
use free_lunch.Health.Batch.Counts.{length-pull}

module _ {F : Type 0} (s : Settings) (registry : String → Option Bool) (log : List LoggedProbe)
    (day : ℕ) where
  -- What the coroutines have still to do.
  abbrev pub remaining : Batch F → ℕ
  remaining b = 3 * length b.waiting + 2 * length b.queued + length b.probing

  remaining-begin :
      (c : ProbeCandidate) (cs : List ProbeCandidate) (b : Batch F)
      → b.waiting ≡ c ∷ cs
      → remaining (begin_probe s registry log day c (record b { waiting = cs })) < remaining b
  unfolding begin_probe reserve_budget
  remaining-begin c cs b w = ground (arith, w, length-append b.queued (c ∷ []))

  remaining-end :
      (p : ProbeCandidate × ℕ) (ps : List (ProbeCandidate × ℕ)) (o : ProbeOutcome F) (b : Batch F)
      → length b.probing ≡ length ps + 1
      → remaining (end_probe p o (record b { probing = ps })) < remaining b
  unfolding end_probe
  remaining-end p ps (answered latency ttfb) b w = omega (arith, w)
  remaining-end p ps (raised error) b w = omega (arith, w)

  -- Every step leaves less to do.
  pub remaining-act :
      (a : BatchAction F) (b d : Batch F)
      → act_batch s registry log day a b ≡ some d
      → remaining d < remaining b
  unfolding act_batch
  remaining-act begin b d e = elim (List-cases b.waiting) [
    | inl w ↦ ground (arith, w, e)
    | inr (c, cs, w) ↦
        let same : begin_probe s registry log day c (record b { waiting = cs }) ≡ d =
          ground (arith, w, e) in
        subst (λ x. remaining x < remaining b) same (remaining-begin c cs b w)
  ]
  remaining-act enter b d e = elim (List-cases b.queued) [
    | inl q ↦ ground (arith, q, e)
    | inr (c, cs, q) ↦ ground (arith, q, e, length-append b.probing ((c, b.probed + 1) ∷ []))
  ]
  remaining-act (finish k o) b d e = elim (Option-cases (pull k b.probing)) [
    | inl q ↦ ground (arith, q, e)
    | inr (p, q) ↦
        let same : end_probe p.0 o (record b { probing = p.1 }) ≡ d = ground (arith, q, e) in
        subst (λ x. remaining x < remaining b) same
          (remaining-end p.0 p.1 o b (length-pull k b.probing p.1 p.0 q))
  ]

  -- What can go on from a state.
  pub GoesOn : Batch F → Type 0
  GoesOn b = (a : BatchAction F) × (d : Batch F) × (act_batch s registry log day a b ≡ some d)

  IsDone-or_GoesOn : 1 ≤ s.health_probe_concurrency → (b : Batch F) → IsDone b ⊎ GoesOn b
  unfolding GoesOn act_batch pull
  IsDone-or_GoesOn positive b = elim (List-cases b.waiting) [
    | inr (c, cs, w) ↦
        inr (begin, begin_probe s registry log day c (record b { waiting = cs }), ground (arith, w))
    | inl w ↦ elim (List-cases b.probing) [
      | inr (p, ps, r) ↦ inr (
        finish 0 (raised ""),
        end_probe p (raised "") (record b { probing = ps }),
        ground (arith, r),
      )
      | inl r ↦ elim (List-cases b.queued) [
        | inl q ↦ inl (w, q, r)
        | inr (c, cs, q) ↦ inr (
          enter,
          record b {
            queued = cs;
            probed = b.probed + 1;
            probing = b.probing ++ (c, b.probed + 1) ∷ [];
          },
          ground (arith, q, r),
        )
      ]
    ]
  ]

  -- How many steps a run has taken.
  pub steps : {b d : Batch F} → BatchReached s registry log day b d → ℕ
  steps start = 0
  steps (step a r e) = suc (steps r)

  steps-remaining :
      (b d : Batch F) (r : BatchReached s registry log day b d)
      → steps r + remaining d ≤ remaining b
  unfolding steps
  steps-remaining b _ start = omega arith
  steps-remaining b d (step {c = c} a r e) =
      omega (arith, steps-remaining b c r, remaining-act a c d e)

  -- With a positive concurrency a batch takes at most three steps for each candidate, and as long as
  -- a coroutine has not returned another step is possible.
  pub batch_ends :
      (candidates : List ProbeCandidate) (b : Batch F)
      (r : BatchReached s registry log day (start_batch candidates) b)
      → 1 ≤ s.health_probe_concurrency
      → (steps r ≤ 3 * length candidates) × (IsDone b ⊎ GoesOn b)
  unfolding start_batch
  batch_ends candidates b r positive =
      (omega (arith, steps-remaining (start_batch candidates) b r), IsDone-or_GoesOn positive b)
