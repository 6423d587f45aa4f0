-- ===== src/Health/Batch/Tests.antt =====
-- A batch with three candidates of a provider that has one probe left, and the theorems at it.
use free_lunch.Prelude.{
  ℕ, ◌+◌, ◌≤◌, max, ◌≡◌, refl, String, Bool, true, Option, none, some, List, [], ◌∷◌, length, arith,
  ◌⊎◌,
}
use free_lunch.Settings.{defaults, is_provider_active_probe_enabled}
use free_lunch.Health.Probes.{ProbeCandidate}
use free_lunch.Health.Batch.{
  LoggedProbe, get_provider_probe_usage, succeeded, answered, Batch, start_batch, begin, enter,
  finish, budget_limit, begin_probe, reserve_budget, end_probe, pull, act_batch, BatchReached,
  start, step, IsDone,
}
use free_lunch.Health.Batch.Counts.{batch_counts}
use free_lunch.Health.Batch.Progress.{batch_ends, steps, GoesOn}
use free_lunch.Health.Batch.Budget.{budget_holds, probes_of}

abbrev candidate : String → ProbeCandidate
candidate id = record {
  id = id;
  provider_id = "openrouter";
  provider_model_id = id;
  probe_reason = "stale";
}

abbrev three : List ProbeCandidate
three = candidate "a" ∷ candidate "b" ∷ candidate "c" ∷ []

abbrev registry : String → Option Bool
registry p = some true

-- Four of the five probes of the day were logged, one more on another day.
abbrev today : LoggedProbe
today = record { provider_id = "openrouter"; request_source = "probe"; day = 7 }

abbrev log : List LoggedProbe
log =
    today
    ∷ today
    ∷ today
    ∷ today
    ∷ record { provider_id = "openrouter"; request_source = "probe"; day = 6 }
    ∷ []

abbrev begun : Batch ℕ
begun = record {
  considered = 3;
  probed = 0;
  recovered = 0;
  failures = 0;
  skipped = 0;
  budget_usage = ("openrouter", 5) ∷ [];
  waiting = candidate "b" ∷ candidate "c" ∷ [];
  queued = candidate "a" ∷ [];
  probing = [];
  effects = [];
}

-- The second candidate is skipped while the first one waits.
abbrev skipping : Batch ℕ
skipping = record begun { skipped = 1; waiting = candidate "c" ∷ [] }

abbrev entered : Batch ℕ
entered = record skipping { queued = []; probed = 1; probing = (candidate "a", 1) ∷ [] }

abbrev ended : Batch ℕ
ended = record entered {
  probing = [];
  recovered = 1;
  effects = succeeded "a" "openrouter" 1 (some 5) none ∷ [];
}

run : BatchReached defaults registry log 7 (start_batch three) ended
unfolding act_batch begin_probe reserve_budget end_probe pull start_batch get_provider_probe_usage
    is_provider_active_probe_enabled
run =
    let one : BatchReached defaults registry log 7 (start_batch three) begun =
      step begin start refl in
    let two : BatchReached defaults registry log 7 (start_batch three) skipping =
      step begin one refl in
    let three : BatchReached defaults registry log 7 (start_batch three) entered =
      step enter two refl in
    step (finish 0 (answered (some 5) none)) three refl

batch_counts_example :
    (length ended.probing ≤ 1)
    × (IsDone ended → ended.considered ≡ ended.skipped + ended.recovered + ended.failures)
batch_counts_example = batch_counts defaults registry log 7 three ended run

batch_ends_example :
    (steps defaults registry log 7 run ≤ 9) × (IsDone ended ⊎ GoesOn defaults registry log 7 ended)
batch_ends_example = batch_ends defaults registry log 7 three ended run (omega arith)

budget_holds_example :
    get_provider_probe_usage log "openrouter" 7
      + probes_of defaults registry log 7 "openrouter" ended
    ≤ max (budget_limit defaults "openrouter") (get_provider_probe_usage log "openrouter" 7)
budget_holds_example = budget_holds defaults registry log 7 "openrouter" three ended run
