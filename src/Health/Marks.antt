-- ===== src/Health/Marks.antt =====
-- `mark_failure` and `mark_success` of src/health.py. Each reads what it needs at once and hands one
-- statement to the writer, so that a mark is a list of at most one write.
pub mod Backoff
pub mod Cooling
mod Tests
use Prim.Native.String
use free_lunch.Prelude.{ℕ, zero, suc, ◌+◌, ◌*◌, ◌^◌, min, String, Option, none, some, List, [], ◌∷◌}
use free_lunch.Settings.{Settings}
use free_lunch.Floats.{Floats}
use free_lunch.Database.Models.{Model, Table, find_model}
use free_lunch.Database.Writes.{Write, record_failure, record_success, flush}

-- `text[:n]`
unfoldable pub clip : ℕ → String → String
clip zero s = String.[]
clip (suc n) String.[] = String.[]
clip (suc n) (String.◌∷◌ c s) = String.◌∷◌ c (clip n s)

-- `_iso_after_minutes`, in seconds
abbrev pub after_minutes : ℕ → ℕ → ℕ
after_minutes now minutes = now + minutes * 60

-- The backoff level of the failure that follows one at `level`.
abbrev pub next_backoff : Settings → ℕ → ℕ
next_backoff s level = min (level + 1) s.health_max_backoff_exponent

abbrev pub cooldown_minutes : Settings → ℕ → ℕ
cooldown_minutes s backoff = s.health_cooldown_minutes * 2 ^ backoff

module _ {F : Type 0} where
  -- `later` is the second reading of the clock.
  unfoldable pub mark_failure : Settings → ℕ → ℕ → Table F → String → String → List (Write F)
  unfolding clip
  mark_failure s now later table id error = elim (find_model id table) [
    | none ↦ []
    | some row ↦
        let backoff = next_backoff s row.backoff_level in
        record_failure id now (clip 500 error) backoff
          (after_minutes later (cooldown_minutes s backoff)) s.health_consecutive_failures_threshold
        ∷ []
  ]

  unfoldable pub mark_success : ℕ → String → Option F → Option F → Option ℕ → List (Write F)
  mark_success now id latency ttfb probed = record_success id now probed latency ttfb ∷ []
