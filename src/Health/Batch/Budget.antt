-- ===== src/Health/Batch/Budget.antt =====
-- The daily budget of a provider holds during a batch of probes in src/health.py.
use mathlib.Core.Path.{subst}
use free_lunch.Prelude.{
  ℕ, zero, suc, ◌+◌, ◌≤◌, max, ◌≡◌, String, Bool, Option, some, List, [], ◌∷◌, arith, str_eq,
  eq_iff, if◌then◌else◌, total, total-append, Option-cases, List-cases, inl, inr,
}
use free_lunch.Dict.{lookup-insert}
use free_lunch.Settings.{Settings}
use free_lunch.Health.Probes.{ProbeCandidate}
use free_lunch.Health.Batch.{
  LoggedProbe, get_provider_probe_usage, ProbeEffect, deactivates, succeeded, failed, ProbeOutcome,
  answered, raised, Batch, start_batch, pull, BatchAction, begin, enter, finish, budget_limit,
  used_so_far, reserve_budget, begin_probe, end_probe, act_batch, BatchReached, start, step,
}

module _ (provider : String) where
  abbrev pub is_of : ProbeCandidate → ℕ
  is_of c = if str_eq c.provider_id provider then 1 else 0

  abbrev pub is_probing : ProbeCandidate × ℕ → ℕ
  is_probing p = is_of p.0

  abbrev pub is_ended : {F : Type 0} → ProbeEffect F → ℕ
  is_ended (deactivates id) = 0
  is_ended (succeeded id p serial latency ttfb) = if str_eq p provider then 1 else 0
  is_ended (failed id p serial error) = if str_eq p provider then 1 else 0

  total-pull :
      (n : ℕ) (xs ys : List (ProbeCandidate × ℕ)) (x : ProbeCandidate × ℕ)
      → pull n xs ≡ some (x, ys)
      → total is_probing xs ≡ is_probing x + total is_probing ys
  unfolding pull
  total-pull n [] ys x h = ground arith
  total-pull zero (y ∷ xs) ys x h = ground arith
  total-pull (suc n) (y ∷ xs) ys x h = elim (Option-cases (pull n xs)) [
    | inl e ↦ ground (arith, e, h)
    | inr (p, e) ↦ ground (arith, e, h, total-pull n xs p.1 p.0 e)
  ]

module _ {F : Type 0} (s : Settings) (registry : String → Option Bool) (log : List LoggedProbe)
    (day : ℕ) (provider : String) where
  -- The probes of the provider that wait, run or have ended.
  abbrev pub probes_of : Batch F → ℕ
  probes_of b =
      total (is_of provider) b.queued
      + total (is_probing provider) b.probing
      + total (is_ended provider) b.effects

  -- The usage of the provider counts those probes on top of the logged ones, within the budget.
  abbrev pub WithinBudget : Batch F → Type 0
  WithinBudget b =
      (used_so_far log day b.budget_usage provider
        ≡ get_provider_probe_usage log provider day + probes_of b)
      × (used_so_far log day b.budget_usage provider
          ≤ max (budget_limit s provider) (get_provider_probe_usage log provider day))

  begin_probe-WithinBudget :
      (c : ProbeCandidate) (cs : List ProbeCandidate) (b : Batch F)
      → WithinBudget b
      → WithinBudget (begin_probe s registry log day c (record b { waiting = cs }))
  unfolding begin_probe reserve_budget
  begin_probe-WithinBudget c cs b h = ground (
    arith,
    total-append (is_of provider) b.queued (c ∷ []),
    total-append (is_ended provider) b.effects (deactivates c.id ∷ []),
    eq_iff c.provider_id provider,
    lookup-insert c.provider_id provider (used_so_far log day b.budget_usage c.provider_id)
        b.budget_usage,
    lookup-insert c.provider_id provider (used_so_far log day b.budget_usage c.provider_id + 1)
        b.budget_usage,
  )

  end_probe-WithinBudget :
      (p : ProbeCandidate × ℕ) (ps : List (ProbeCandidate × ℕ)) (o : ProbeOutcome F) (b : Batch F)
      → total (is_probing provider) b.probing
        ≡ is_probing provider p + total (is_probing provider) ps
      → WithinBudget b
      → WithinBudget (end_probe p o (record b { probing = ps }))
  unfolding end_probe
  end_probe-WithinBudget p ps (answered latency ttfb) b w h = ground (
    arith,
    total-append (is_ended provider) b.effects
        (succeeded p.0.id p.0.provider_id p.1 latency ttfb ∷ []),
  )
  end_probe-WithinBudget p ps (raised error) b w h = ground (
    arith,
    total-append (is_ended provider) b.effects (failed p.0.id p.0.provider_id p.1 error ∷ []),
  )

  act_batch-WithinBudget :
      (a : BatchAction F) (b d : Batch F)
      → WithinBudget b
      → act_batch s registry log day a b ≡ some d
      → WithinBudget d
  unfolding act_batch
  act_batch-WithinBudget begin b d h e = elim (List-cases b.waiting) [
    | inl w ↦ ground (arith, w, e)
    | inr (c, cs, w) ↦
        let same : begin_probe s registry log day c (record b { waiting = cs }) ≡ d =
          ground (arith, w, e) in
        subst WithinBudget same (begin_probe-WithinBudget c cs b h)
  ]
  act_batch-WithinBudget enter b d h e = elim (List-cases b.queued) [
    | inl q ↦ ground (arith, q, e)
    | inr (c, cs, q) ↦
        ground (arith, q, e, total-append (is_probing provider) b.probing ((c, b.probed + 1) ∷ []))
  ]
  act_batch-WithinBudget (finish k o) b d h e = elim (Option-cases (pull k b.probing)) [
    | inl q ↦ ground (arith, q, e)
    | inr (p, q) ↦
        let same : end_probe p.0 o (record b { probing = p.1 }) ≡ d = ground (arith, q, e) in
        subst WithinBudget same
          (end_probe-WithinBudget p.0 p.1 o b (total-pull provider k b.probing p.1 p.0 q) h)
  ]

  reached-WithinBudget :
      (b d : Batch F) → WithinBudget b → BatchReached s registry log day b d → WithinBudget d
  reached-WithinBudget b _ h start = h
  reached-WithinBudget b d h (step {c = c} a r e) =
      act_batch-WithinBudget a c d (reached-WithinBudget b c h r) e

  -- In whatever order the coroutines are resumed, the probes of a provider, together with those that
  -- were logged on the day before the batch, never exceed its daily budget, unless the logged ones
  -- did so alone and then there are none.
  pub budget_holds :
      (candidates : List ProbeCandidate) (b : Batch F)
      → BatchReached s registry log day (start_batch candidates) b
      → get_provider_probe_usage log provider day + probes_of b
        ≤ max (budget_limit s provider) (get_provider_probe_usage log provider day)
  unfolding start_batch
  budget_holds candidates b r =
      let h = reached-WithinBudget (start_batch candidates) b (omega arith, omega arith) r in
      omega (arith, h)
