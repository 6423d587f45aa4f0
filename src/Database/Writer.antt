-- ===== src/Database/Writer.antt =====
-- `DBWriter` of src/db.py: threads enqueue statements, one thread runs them. Each action is what
-- happens under the lock or in one call of the queue, so a run is any interleaving of the threads.
-- `act` is `none` where the thread has to wait. `accepted` and `executed` are not fields of the
-- class: they list what was put on the queue and what the thread has run.
pub mod Accounting
mod Tests
use free_lunch.Prelude.{
  ℕ, suc, ◌+◌, ◌-◌, max, String, Bool, true, false, not, ◌&&◌, Option, none, some, List, [], ◌∷◌,
  ◌++◌, ltb, leb, if◌then◌else◌, length, ◌≡◌,
}

-- `WriteTask`: the statement with its parameters, and whether it is a row of the request log.
pub record WriteTask (A : Type 0) : Type 0 where
  pub statement : A
  pub is_low_priority_log : Bool

pub record Writer (A : Type 0) : Type 0 where
  pub enabled : Bool
  pub log_queue_size : ℕ
  pub pending : ℕ
  pub dropped : ℕ
  pub maxsize : ℕ
  pub queue : List (WriteTask A)
  -- log rows that are counted but not yet put on the queue
  pub reserved : ℕ
  -- the task that the thread has taken, and whether the thread is alive
  pub running : Option (WriteTask A)
  pub alive : Bool
  pub accepted : List (WriteTask A)
  pub executed : List (WriteTask A)

-- HIGH_PRIORITY_QUEUE_RESERVE
abbrev pub reserve : ℕ
reserve = 256

-- `__init__`, started.
unfoldable pub start_writer : {A : Type 0} → Bool → ℕ → Writer A
start_writer enabled size = record {
  enabled = enabled;
  log_queue_size = max size 1;
  pending = 0;
  dropped = 0;
  maxsize = max size 1 + reserve;
  queue = [];
  reserved = 0;
  running = none;
  alive = true;
  accepted = [];
  executed = [];
}

pub data Action (A : Type 0) : Type 0 where
  set_policy : Bool → ℕ → Action A
  -- `enqueue` of a log row: the count under the lock, and then the queue
  admit_log : Action A
  put_log : A → Action A
  -- `enqueue` of any other statement
  put_write : A → Action A
  -- the thread takes a task, and runs it with or without an error
  take_task : Action A
  run_task : Bool → Action A

module _ {A : Type 0} where
  abbrev pub push : WriteTask A → Writer A → Writer A
  push t w = record w { queue = w.queue ++ t ∷ []; accepted = w.accepted ++ t ∷ [] }

  unfoldable pub set_low_priority_log_policy : Bool → ℕ → Writer A → Writer A
  set_low_priority_log_policy enabled size w = record w {
    enabled = enabled;
    log_queue_size = max size 1;
  }

  -- The answer is whether `enqueue` goes on.
  unfoldable pub admit : Writer A → Writer A × Bool
  admit w =
      if not w.enabled
      then (record w { dropped = w.dropped + 1 }, false)
      else if leb w.log_queue_size w.pending
      then (record w { dropped = w.dropped + 1 }, false)
      else (record w { pending = w.pending + 1; reserved = w.reserved + 1 }, true)

  -- `put_nowait`, and what follows when the queue is full.
  unfoldable pub put_nowait : A → Writer A → Writer A
  put_nowait a w =
      if ltb (length w.queue) w.maxsize
      then push (record { statement = a; is_low_priority_log = true })
          (record w { reserved = w.reserved - 1 })
      else record w { pending = w.pending - 1; dropped = w.dropped + 1; reserved = w.reserved - 1 }

  -- The `finally` of the loop; an error of the statement ends the thread.
  unfoldable pub finish_task : Bool → WriteTask A → Writer A → Writer A
  finish_task fails t w = record w {
    pending = if t.is_low_priority_log then w.pending - 1 else w.pending;
    running = none;
    alive = not fails;
    executed = w.executed ++ t ∷ [];
  }

  unfoldable pub act : Action A → Writer A → Option (Writer A)
  unfolding set_low_priority_log_policy admit put_nowait finish_task
  act (set_policy enabled size) w = some (set_low_priority_log_policy enabled size w)
  act admit_log w = some (admit w).0
  act (put_log a) w = if ltb 0 w.reserved then some (put_nowait a w) else none
  act (put_write a) w =
      if ltb (length w.queue) w.maxsize
      then some (push (record { statement = a; is_low_priority_log = false }) w)
      else none
  act take_task w = elim w.running [
    | some t ↦ none
    | none ↦ elim w.queue [
      | [] ↦ none
      | t ∷ ts ↦ if w.alive then some (record w { running = some t; queue = ts }) else none
    ]
  ]
  act (run_task fails) w = elim w.running [ none ↦ none | some t ↦ some (finish_task fails t w) ]

  -- `Reached w v`: some interleaving leads from `w` to `v`.
  pub data Reached (w : Writer A) : Writer A → Type 0 where
    start : Reached w w
    step : {v u : Writer A} (a : Action A) → Reached w v → act a v ≡ some u → Reached w u
