-- ===== src/Throttle.antt =====
-- src/security_throttle.py: `FailureThrottle`, the failure windows of one credential category.
-- The clock is `time.monotonic`, here in nanoseconds. The keyed digest is not under src/, so it is
-- a parameter. Every method holds the lock throughout, so a call is one step.
pub mod Bounds
pub mod Lockout
mod Tests
use free_lunch.Prelude.{
  ℕ, suc, ◌+◌, ◌-◌, ◌*◌, ◌/◌, max, String, Option, none, some, List, [], ◌∷◌, ltb, leb, ◌==◌,
  if◌then◌else◌, length,
}
use free_lunch.Dict.{Dict, lookup, insert, erase, move_to_end}

-- `(count, started)`
pub record Entry : Type 0 where
  pub count : ℕ
  pub started : ℕ

pub record FailureThrottle : Type 0 where
  pub limit : ℕ
  pub window_seconds : ℕ
  pub max_entries : ℕ
  pub entries : Dict Entry

abbrev pub second : ℕ
second = 1_000_000_000

-- 0.999 s
abbrev pub rounding : ℕ
rounding = 999_000_000

-- `__init__`; a negative argument is raised to 1, as 0 is.
unfoldable pub init : ℕ → ℕ → ℕ → FailureThrottle
init limit window_seconds max_entries = record {
  limit = max limit 1;
  window_seconds = max window_seconds 1;
  max_entries = max max_entries 1;
  entries = [];
}

-- `while len(self._entries) > self.max_entries: self._entries.popitem(last=False)`
unfoldable pub pop_oldest {ℓ} : {V : Type ℓ} → ℕ → Dict V → Dict V
pop_oldest m [] = []
pop_oldest m (e ∷ d) = if ltb m (length (e ∷ d)) then pop_oldest m d else e ∷ d

-- The end of an entry's window.
abbrev pub ends : FailureThrottle → Entry → ℕ
ends t e = e.started + t.window_seconds * second

module _ (digest : String → String) where
  unfoldable pub retry_after : FailureThrottle → ℕ → String → ℕ × FailureThrottle
  retry_after t now key = elim (lookup (digest key) t.entries) [
    | none ↦ (0, t)
    | some e ↦
        let remaining = ends t e - now in
        if remaining == 0 then (0, record t { entries = erase (digest key) t.entries }) else (
          if leb t.limit e.count then max 1 ((remaining + rounding) / second) else 0,
          record t { entries = move_to_end (digest key) t.entries },
        )
  ]

  -- The entry that a failure writes.
  unfoldable pub failed_entry : FailureThrottle → ℕ → Option Entry → Entry
  failed_entry t now none = record { count = 1; started = now }
  failed_entry t now (some e) =
      if leb (t.window_seconds * second) (now - e.started)
      then record { count = 1; started = now }
      else record { count = e.count + 1; started = e.started }

  unfoldable pub fail : FailureThrottle → ℕ → String → FailureThrottle
  unfolding failed_entry pop_oldest
  fail t now key =
      let d = digest key in
      let entry = failed_entry t now (lookup d t.entries) in
      record t { entries = pop_oldest t.max_entries (move_to_end d (insert d entry t.entries)) }

  unfoldable pub reset : FailureThrottle → String → FailureThrottle
  reset t key = record t { entries = erase (digest key) t.entries }
