-- ===== src/Health/Batch.antt =====
-- `_run_probe_batch` of src/health.py. `asyncio.gather` starts one coroutine for each candidate; what
-- a coroutine does between two points at which it may wait is one action, so a run is any order in
-- which the event loop may resume them. `registry` is `none` for a KeyError, and else whether the
-- adapter has a method `probe`; what a probe answers comes with its action. Days are numbers.
pub mod Counts
pub mod Budget
pub mod Progress
mod Tests
use free_lunch.Prelude.{
  ℕ, zero, suc, ◌+◌, ◌-◌, ◌≡◌, String, Bool, true, false, not, ◌&&◌, ◌||◌, Option, none, some, List,
  [], ◌∷◌, ◌++◌, str_eq, ltb, leb, ◌==◌, if◌then◌else◌, length, select, or_else,
}
use free_lunch.Dict.{Dict, lookup, insert}
use free_lunch.Settings.{Settings, is_provider_active_probe_enabled}
use free_lunch.Health.Probes.{ProbeCandidate}

-- The columns of a row of `request_log` that count towards a budget.
pub record LoggedProbe : Type 0 where
  pub provider_id : String
  pub request_source : String
  pub day : ℕ

-- `get_provider_probe_usage`
unfoldable pub get_provider_probe_usage : List LoggedProbe → String → ℕ → ℕ
get_provider_probe_usage log provider day = length (
    select
      (λ r.
        str_eq r.provider_id provider
        && ((str_eq r.request_source "probe" || str_eq r.request_source "bootstrap")
            && r.day == day))
      log)

-- What a batch writes: the row of a candidate without provider is deactivated, a probe is marked and
-- logged. The request id of a log row is made of the source, the model and the serial number.
pub data ProbeEffect (F : Type 0) : Type 0 where
  deactivates : String → ProbeEffect F
  -- model, provider, serial number, latency and time to the first byte
  succeeded : String → String → ℕ → Option F → Option F → ProbeEffect F
  -- model, provider, serial number and error
  failed : String → String → ℕ → String → ProbeEffect F

pub data ProbeOutcome (F : Type 0) : Type 0 where
  answered : Option F → Option F → ProbeOutcome F
  raised : String → ProbeOutcome F

pub record Batch (F : Type 0) : Type 0 where
  pub considered : ℕ
  pub probed : ℕ
  pub recovered : ℕ
  pub failures : ℕ
  pub skipped : ℕ
  pub budget_usage : Dict ℕ
  -- the coroutines: not yet started, waiting for the semaphore, probing
  pub waiting : List ProbeCandidate
  pub queued : List ProbeCandidate
  pub probing : List (ProbeCandidate × ℕ)
  pub effects : List (ProbeEffect F)

unfoldable pub start_batch : {F : Type 0} → List ProbeCandidate → Batch F
start_batch candidates = record {
  considered = length candidates;
  probed = 0;
  recovered = 0;
  failures = 0;
  skipped = 0;
  budget_usage = [];
  waiting = candidates;
  queued = [];
  probing = [];
  effects = [];
}

-- The element at a position, and the others.
unfoldable pub pull {ℓ} : {A : Type ℓ} → ℕ → List A → Option (A × List A)
pull n [] = none
pull zero (x ∷ xs) = some (x, xs)
pull (suc n) (x ∷ xs) = elim (pull n xs) [ none ↦ none | some p ↦ some (p.0, x ∷ p.1) ]

pub data BatchAction (F : Type 0) : Type 0 where
  -- the next coroutine runs up to the semaphore
  begin : BatchAction F
  -- the first one that waits enters the semaphore and calls the provider
  enter : BatchAction F
  -- the probe at a position ends
  finish : ℕ → ProbeOutcome F → BatchAction F

abbrev pub budget_limit : Settings → String → ℕ
budget_limit s provider = or_else (lookup provider s.health_daily_request_budget_by_provider) 0

-- `budget_usage.setdefault(…)`
abbrev pub used_so_far : List LoggedProbe → ℕ → Dict ℕ → String → ℕ
used_so_far log day usage provider =
    or_else (lookup provider usage) (get_provider_probe_usage log provider day)

module _ {F : Type 0} where
  abbrev pub skip : Batch F → Batch F
  skip b = record b { skipped = b.skipped + 1 }

  unfoldable pub end_probe : ProbeCandidate × ℕ → ProbeOutcome F → Batch F → Batch F
  end_probe (c, serial) (answered latency ttfb) b = record b {
    recovered = b.recovered + 1;
    effects = b.effects ++ succeeded c.id c.provider_id serial latency ttfb ∷ [];
  }
  end_probe (c, serial) (raised error) b = record b {
    failures = b.failures + 1;
    effects = b.effects ++ failed c.id c.provider_id serial error ∷ [];
  }

  -- All coroutines have returned.
  abbrev pub IsDone : Batch F → Type 0
  IsDone b = (b.waiting ≡ []) × (b.queued ≡ []) × (b.probing ≡ [])

module _ {F : Type 0} (s : Settings) (registry : String → Option Bool) (log : List LoggedProbe)
    (day : ℕ) where
  -- The part under the budget's lock.
  unfoldable pub reserve_budget : ProbeCandidate → Batch F → Batch F
  unfolding get_provider_probe_usage
  reserve_budget c b =
      let used = used_so_far log day b.budget_usage c.provider_id in
      if leb (budget_limit s c.provider_id) used
      then skip (record b { budget_usage = insert c.provider_id used b.budget_usage })
      else record b {
        budget_usage = insert c.provider_id (used + 1) b.budget_usage;
        queued = b.queued ++ c ∷ [];
      }

  unfoldable pub begin_probe : ProbeCandidate → Batch F → Batch F
  unfolding reserve_budget is_provider_active_probe_enabled
  begin_probe c b =
      if is_provider_active_probe_enabled s c.provider_id
      then elim (registry c.provider_id) [
        | none ↦ skip (record b { effects = b.effects ++ deactivates c.id ∷ [] })
        | some has_probe ↦ if has_probe then reserve_budget c b else skip b
      ]
      else skip b

  -- `none` is an action that is not possible in the state.
  unfoldable pub act_batch : BatchAction F → Batch F → Option (Batch F)
  unfolding begin_probe end_probe pull
  act_batch begin b = elim b.waiting [
    | [] ↦ none
    | c ∷ cs ↦ some (begin_probe c (record b { waiting = cs }))
  ]
  act_batch enter b = elim b.queued [
    | [] ↦ none
    | c ∷ cs ↦
        if ltb (length b.probing) s.health_probe_concurrency
        then some (record b {
          queued = cs;
          probed = b.probed + 1;
          probing = b.probing ++ (c, b.probed + 1) ∷ [];
        })
        else none
  ]
  act_batch (finish k outcome) b = elim (pull k b.probing) [
    | none ↦ none
    | some p ↦ some (end_probe p.0 outcome (record b { probing = p.1 }))
  ]

  -- `BatchReached b c`: some order of resumptions leads from `b` to `c`.
  pub data BatchReached (b : Batch F) : Batch F → Type 0 where
    start : BatchReached b b
    step :
        {c d : Batch F} (a : BatchAction F)
        → BatchReached b c
        → act_batch a c ≡ some d
        → BatchReached b d
