-- ===== src/Database/Writer/Accounting.antt =====
-- The counts of `DBWriter` of src/db.py, and what becomes of each task.
use mathlib.Core.Path.{subst}
use mathlib.Core.Option.{some-injective}
use mathlib.Core.List.{append_assoc, append-nil}
use free_lunch.Prelude.{
  ℕ, ◌+◌, ◌-◌, ◌≤◌, ◌<◌, max, ◌≡◌, refl, sym, ap, ◌∙◌, Bool, true, false, Option, none, some, List,
  [], ◌∷◌, ◌++◌, arith, ltb, if◌then◌else◌, length, length-append, inl, inr, Bool-cases,
  Option-cases, ltb→lt, lt→ltb, ◌⊎◌,
}
use free_lunch.Database.Writer.{
  WriteTask, Writer, reserve, start_writer, Action, set_policy, admit_log, put_log, put_write,
  take_task, run_task, push, set_low_priority_log_policy, admit, put_nowait, finish_task, act,
  Reached, start, step,
}

module _ {A : Type 0} where
  -- How many of the tasks are log rows, and how many are not.
  abbrev pub is_log : WriteTask A → ℕ
  is_log t = if t.is_low_priority_log then 1 else 0

  abbrev pub logs : List (WriteTask A) → ℕ
  logs [] = 0
  logs (t ∷ ts) = is_log t + logs ts

  abbrev pub writes : List (WriteTask A) → ℕ
  writes [] = 0
  writes (t ∷ ts) = (1 - is_log t) + writes ts

  abbrev pub current : Option (WriteTask A) → List (WriteTask A)
  current none = []
  current (some t) = t ∷ []

  logs-append : (xs ys : List (WriteTask A)) → logs (xs ++ ys) ≡ logs xs + logs ys
  logs-append [] ys = omega arith
  logs-append (x ∷ xs) ys = omega (arith, logs-append xs ys)

  logs-writes : (xs : List (WriteTask A)) → logs xs + writes xs ≡ length xs
  logs-writes [] = omega arith
  logs-writes (x ∷ xs) = ground (arith, logs-writes xs)

  -- `pending` counts the log rows that are admitted and not yet run, the queue is within its bound,
  -- and what was put on the queue has been run, is being run or waits, in that order.
  pub record IsConsistent (w : Writer A) : Type 0 where
    pub counted : w.pending ≡ logs w.queue + w.reserved + logs (current w.running)
    pub bounded : length w.queue ≤ w.maxsize
    pub in_order : w.executed ++ current w.running ++ w.queue ≡ w.accepted

  pub start_writer-IsConsistent :
      (enabled : Bool) (size : ℕ) → IsConsistent (start_writer enabled size)
  unfolding start_writer
  start_writer-IsConsistent enabled size = record {
    counted = omega arith;
    bounded = omega arith;
    in_order = refl;
  }

  push-IsConsistent :
      (t : WriteTask A) (w : Writer A)
      → w.pending ≡ logs w.queue + is_log t + w.reserved + logs (current w.running)
      → length w.queue < w.maxsize
      → w.executed ++ current w.running ++ w.queue ≡ w.accepted
      → IsConsistent (push t w)
  push-IsConsistent t w c b o = record {
    counted = omega (arith, logs-append w.queue (t ∷ []));
    bounded = omega (arith, length-append w.queue (t ∷ []));
    in_order =
        sym (append_assoc (w.executed ++ current w.running) w.queue (t ∷ []))
        ∙ ap (λ ts. ts ++ t ∷ []) o;
  }

  policy-IsConsistent :
      (enabled : Bool) (size : ℕ) (w : Writer A)
      → IsConsistent w
      → IsConsistent (set_low_priority_log_policy enabled size w)
  unfolding set_low_priority_log_policy
  policy-IsConsistent enabled size w h = record {
    counted = h.counted;
    bounded = h.bounded;
    in_order = h.in_order;
  }

  admit-IsConsistent : (w : Writer A) → IsConsistent w → IsConsistent (admit w).0
  unfolding admit
  admit-IsConsistent w h = record {
    counted = ground (arith, h.counted);
    bounded = ground (arith, h.bounded);
    in_order = ground (arith, h.in_order);
  }

  put_nowait-IsConsistent :
      (a : A) (w : Writer A) → 0 < w.reserved → IsConsistent w → IsConsistent (put_nowait a w)
  unfolding put_nowait
  put_nowait-IsConsistent a w r h = elim (Bool-cases (ltb (length w.queue) w.maxsize)) [
    | inl e ↦
        rw (e, put_nowait)
          (push-IsConsistent (record { statement = a; is_low_priority_log = true })
            (record w { reserved = w.reserved - 1 }) (omega (arith, h.counted))
            (ltb→lt (length w.queue) w.maxsize e) h.in_order)
    | inr e ↦
        rw (e, put_nowait)
          (record {
            counted = omega (arith, h.counted);
            bounded = h.bounded;
            in_order = h.in_order;
          })
  ]

  finish_task-IsConsistent :
      (fails : Bool) (t : WriteTask A) (w : Writer A)
      → w.running ≡ some t
      → IsConsistent w
      → IsConsistent (finish_task fails t w)
  unfolding finish_task
  finish_task-IsConsistent fails t w e h = record {
    counted = ground (arith, h.counted, e);
    bounded = h.bounded;
    in_order =
        ap (λ ts. ts ++ w.queue) (append-nil (w.executed ++ t ∷ []))
        ∙ subst (λ r. w.executed ++ current r ++ w.queue ≡ w.accepted) e h.in_order;
  }

  take-IsConsistent :
      (t : WriteTask A) (ts : List (WriteTask A)) (w : Writer A)
      → w.running ≡ none
      → w.queue ≡ t ∷ ts
      → IsConsistent w
      → IsConsistent (record w { running = some t; queue = ts })
  take-IsConsistent t ts w e q h = record {
    counted = ground (arith, h.counted, e, q);
    bounded = ground (arith, h.bounded, q);
    in_order =
        append_assoc w.executed (t ∷ []) ts
        ∙ ap (λ xs. xs ++ (t ∷ ts)) (sym (append-nil w.executed))
        ∙ subst (λ r. w.executed ++ current r ++ (t ∷ ts) ≡ w.accepted) e
            (subst (λ qs. w.executed ++ current w.running ++ qs ≡ w.accepted) q h.in_order);
  }

  List-cases :
      (xs : List (WriteTask A))
      → (xs ≡ []) ⊎ ((y : WriteTask A) × (ys : List (WriteTask A)) × (xs ≡ y ∷ ys))
  List-cases [] = inl refl
  List-cases (y ∷ ys) = inr (y, ys, refl)

  guarded :
      (b : Bool) (x u : Writer A) → (if b then some x else none) ≡ some u → (b ≡ true) × (x ≡ u)
  guarded true x u e = (refl, some-injective x u e)
  guarded false x u e = ground arith

  take_task-IsConsistent :
      (w u : Writer A) → IsConsistent w → act take_task w ≡ some u → IsConsistent u
  unfolding act
  take_task-IsConsistent w u h e = elim (Option-cases w.running) [
    | inl r ↦ elim (List-cases w.queue) [
      | inl q ↦ ground (arith, r, q, e)
      | inr (t, ts, q) ↦
          let same : record w { running = some t; queue = ts } ≡ u = ground (arith, r, q, e) in
          subst IsConsistent same (take-IsConsistent t ts w r q h)
    ]
    | inr (t, r) ↦ ground (arith, r, e)
  ]

  act-IsConsistent :
      (a : Action A) (w u : Writer A) → IsConsistent w → act a w ≡ some u → IsConsistent u
  unfolding act
  act-IsConsistent (set_policy enabled size) w u h e =
      subst IsConsistent (some-injective _ u e) (policy-IsConsistent enabled size w h)
  act-IsConsistent admit_log w u h e =
      subst IsConsistent (some-injective _ u e) (admit-IsConsistent w h)
  act-IsConsistent (put_log a) w u h e =
      let (b, same) = guarded (ltb 0 w.reserved) (put_nowait a w) u e in
      subst IsConsistent same (put_nowait-IsConsistent a w (ltb→lt 0 w.reserved b) h)
  act-IsConsistent (put_write a) w u h e =
      let t : WriteTask A = record { statement = a; is_low_priority_log = false } in
      let (b, same) = guarded (ltb (length w.queue) w.maxsize) (push t w) u e in
      subst IsConsistent same (
        push-IsConsistent t w (omega (arith, h.counted)) (ltb→lt (length w.queue) w.maxsize b)
          h.in_order)
  act-IsConsistent take_task w u h e = take_task-IsConsistent w u h e
  act-IsConsistent (run_task fails) w u h e = elim (Option-cases w.running) [
    | inl r ↦ ground (arith, r, e)
    | inr (t, r) ↦
        let same : finish_task fails t w ≡ u = ground (arith, r, e) in
        subst IsConsistent same (finish_task-IsConsistent fails t w r h)
  ]

  -- From a consistent writer, as a new one is, whatever the threads do, the count of pending log rows is exact, the queue is within its bound,
  -- and the tasks that were put on the queue have been run, are being run or wait, in that order.
  pub Reached-IsConsistent : (w v : Writer A) → IsConsistent w → Reached w v → IsConsistent v
  Reached-IsConsistent w _ h start = h
  Reached-IsConsistent w v h (step {v = u} a r e) =
      act-IsConsistent a u v (Reached-IsConsistent w u h r) e

  -- In a consistent writer a statement that is no log row does not wait for the queue while no more log rows are pending
  -- than the writer was made for and fewer than 256 such statements wait.
  pub writes_do_not_wait :
      (w : Writer A) (size : ℕ) (a : A)
      → IsConsistent w
      → w.maxsize ≡ max size 1 + reserve
      → w.pending ≤ max size 1
      → writes w.queue < reserve
      → act (put_write a) w ≡ some (push (record { statement = a; is_low_priority_log = false }) w)
  unfolding act
  writes_do_not_wait w size a h m p q =
      let room : ltb (length w.queue) w.maxsize ≡ true =
        lt→ltb (length w.queue) w.maxsize (omega (arith, h.counted, logs-writes w.queue)) in
      rw (room) refl
