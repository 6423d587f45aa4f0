-- ===== src/Health/Batch/Counts.antt =====
-- The counts that a batch of probes in src/health.py returns.
use mathlib.Core.Path.{subst}
use free_lunch.Prelude.{
  ℕ, zero, suc, ◌+◌, ◌≤◌, ◌≡◌, refl, Bool, Option, some, List, [], ◌∷◌, arith, length,
  length-append, Option-cases, List-cases, inl, inr, String,
}
use free_lunch.Settings.{Settings}
use free_lunch.Health.Probes.{ProbeCandidate}
use free_lunch.Health.Batch.{
  LoggedProbe, ProbeOutcome, answered, raised, Batch, start_batch, pull, BatchAction, begin, enter,
  finish, reserve_budget, begin_probe, end_probe, act_batch, BatchReached, start, step, IsDone,
}

pub length-pull {ℓ} :
    {A : Type ℓ} (n : ℕ) (xs ys : List A) (x : A)
    → pull n xs ≡ some (x, ys)
    → length xs ≡ length ys + 1
unfolding pull
length-pull n [] ys x h = ground arith
length-pull zero (y ∷ xs) ys x h = ground arith
length-pull (suc n) (y ∷ xs) ys x h = elim (Option-cases (pull n xs)) [
  | inl e ↦ ground (arith, e, h)
  | inr (p, e) ↦ ground (arith, e, h, length-pull n xs p.1 p.0 e)
]

module _ {F : Type 0} (s : Settings) (registry : String → Option Bool) (log : List LoggedProbe)
    (day : ℕ) where
  -- Each candidate is counted once, wherever it is, and the probes are within the concurrency.
  abbrev pub AddUp : ℕ → Batch F → Type 0
  AddUp n b =
      (b.considered ≡ n)
      × (n ≡ length b.waiting + b.skipped + length b.queued + b.probed)
      × (b.probed ≡ length b.probing + b.recovered + b.failures)
      × (length b.probing ≤ s.health_probe_concurrency)

  begin_probe-AddUp :
      (n : ℕ) (c : ProbeCandidate) (cs : List ProbeCandidate) (b : Batch F)
      → b.waiting ≡ c ∷ cs
      → AddUp n b
      → AddUp n (begin_probe s registry log day c (record b { waiting = cs }))
  unfolding begin_probe reserve_budget
  begin_probe-AddUp n c cs b w h = ground (arith, w, length-append b.queued (c ∷ []))

  end_probe-AddUp :
      (n : ℕ) (p : ProbeCandidate × ℕ) (ps : List (ProbeCandidate × ℕ)) (o : ProbeOutcome F)
      (b : Batch F)
      → length b.probing ≡ length ps + 1
      → AddUp n b
      → AddUp n (end_probe p o (record b { probing = ps }))
  unfolding end_probe
  end_probe-AddUp n p ps (answered latency ttfb) b w h = ground arith
  end_probe-AddUp n p ps (raised error) b w h = ground arith

  act_batch-AddUp :
      (n : ℕ) (a : BatchAction F) (b d : Batch F)
      → AddUp n b
      → act_batch s registry log day a b ≡ some d
      → AddUp n d
  unfolding act_batch
  act_batch-AddUp n begin b d h e = elim (List-cases b.waiting) [
    | inl w ↦ ground (arith, w, e)
    | inr (c, cs, w) ↦
        let same : begin_probe s registry log day c (record b { waiting = cs }) ≡ d =
          ground (arith, w, e) in
        subst (AddUp n) same (begin_probe-AddUp n c cs b w h)
  ]
  act_batch-AddUp n enter b d h e = elim (List-cases b.queued) [
    | inl q ↦ ground (arith, q, e)
    | inr (c, cs, q) ↦ ground (arith, q, e, length-append b.probing ((c, b.probed + 1) ∷ []))
  ]
  act_batch-AddUp n (finish k o) b d h e = elim (Option-cases (pull k b.probing)) [
    | inl q ↦ ground (arith, q, e)
    | inr (p, q) ↦
        let same : end_probe p.0 o (record b { probing = p.1 }) ≡ d = ground (arith, q, e) in
        subst (AddUp n) same (end_probe-AddUp n p.0 p.1 o b (length-pull k b.probing p.1 p.0 q) h)
  ]

  reached-AddUp :
      (n : ℕ) (b d : Batch F) → AddUp n b → BatchReached s registry log day b d → AddUp n d
  reached-AddUp n b _ h start = h
  reached-AddUp n b d h (step {c = c} a r e) = act_batch-AddUp n a c d (reached-AddUp n b c h r) e

  -- In whatever order the coroutines are resumed, no more probes run at once than the concurrency
  -- allows, and when all have returned the candidates are the skipped, the recovered and the failed.
  pub batch_counts :
      (candidates : List ProbeCandidate) (b : Batch F)
      → BatchReached s registry log day (start_batch candidates) b
      → (length b.probing ≤ s.health_probe_concurrency)
        × (IsDone b → b.considered ≡ b.skipped + b.recovered + b.failures)
  unfolding start_batch
  batch_counts candidates b r =
      let h =
        reached-AddUp (length candidates) (start_batch candidates) b
          (refl, omega arith, omega arith, omega arith) r in
      (ground (arith, h), λ done. ground (arith, h, done))
