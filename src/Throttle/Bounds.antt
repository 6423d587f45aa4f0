-- ===== src/Throttle/Bounds.antt =====
-- The throttle of src/security_throttle.py stays bounded, whatever the calls.
use free_lunch.Prelude.{
  ℕ, ◌≤◌, String, ◌≡◌, refl, none, some, List, [], ◌∷◌, ◌++◌, arith, length, length-append, eq_refl,
  Option-cases, inl, inr,
}
use free_lunch.Dict.{
  Dict, lookup, insert, erase, move_to_end, IsDict, lookup-insert, lookup-erase, length-erase,
  length-erase_of_some, insert-IsDict, erase-IsDict, snoc-IsDict,
}
use free_lunch.Throttle.{FailureThrottle, init, pop_oldest, failed_entry, retry_after, fail, reset}

module _ {ℓ} {V : Type ℓ} where
  pub length-pop_oldest : (m : ℕ) (d : Dict V) → length (pop_oldest m d) ≤ m
  unfolding pop_oldest
  length-pop_oldest m [] = omega arith
  length-pop_oldest m (e ∷ d) = ground (arith, length-pop_oldest m d)

  pub pop_oldest_small : (m : ℕ) (d : Dict V) → length d ≤ m → pop_oldest m d ≡ d
  unfolding pop_oldest
  pop_oldest_small m [] h = refl
  pop_oldest_small m (e ∷ d) h = ground arith

  pub lookup-pop_oldest_last :
      (m : ℕ) (k : String) (v : V) (d : Dict V)
      → 1 ≤ m
      → lookup k d ≡ none
      → lookup k (pop_oldest m (d ++ (k, v) ∷ [])) ≡ some v
  unfolding pop_oldest
  lookup-pop_oldest_last m k v [] h e = ground (arith, eq_refl k)
  lookup-pop_oldest_last m k v ((i, w) ∷ d) h e = ground (
    arith,
    lookup-pop_oldest_last m k v d h,
    length-append d ((k, v) ∷ []),
    free_lunch.Dict.lookup-append k d ((k, v) ∷ []),
    eq_refl k,
  )

  pub pop_oldest-IsDict : (m : ℕ) (d : Dict V) → IsDict d → IsDict (pop_oldest m d)
  unfolding pop_oldest
  pop_oldest-IsDict m [] h = tt
  pop_oldest-IsDict m (e ∷ d) h = ground (arith, pop_oldest-IsDict m d h.1)

  pub lookup-erase_self : (k : String) (d : Dict V) → lookup k (erase k d) ≡ none
  lookup-erase_self k d = rw (lookup-erase, eq_refl)

  pub lookup-insert_self : (k : String) (v : V) (d : Dict V) → lookup k (insert k v d) ≡ some v
  lookup-insert_self k v d = rw (lookup-insert, eq_refl)

  pub move_to_end-insert :
      (k : String) (v : V) (d : Dict V)
      → move_to_end k (insert k v d) ≡ erase k (insert k v d) ++ (k, v) ∷ []
  move_to_end-insert k v d = ground (arith, lookup-insert_self k v d)

  pub move_to_end-IsDict : (k : String) (d : Dict V) → IsDict d → IsDict (move_to_end k d)
  move_to_end-IsDict k d h = elim (Option-cases (lookup k d)) [
    | inl e ↦ ground arith
    | inr (v, e) ↦
        ground (arith, snoc-IsDict k v (erase k d) (erase-IsDict k d h) (lookup-erase_self k d))
  ]

  pub length-move_to_end : (k : String) (d : Dict V) → length (move_to_end k d) ≤ length d
  length-move_to_end k d = elim (Option-cases (lookup k d)) [
    | inl e ↦ ground arith
    | inr (v, e) ↦
        ground (arith, length-append (erase k d) ((k, v) ∷ []), length-erase_of_some k v d)
  ]

-- What every throttle keeps: positive settings, no key twice, and no more entries than the bound.
pub record IsValid (t : FailureThrottle) : Type 0 where
  pub limit_pos : 1 ≤ t.limit
  pub window_pos : 1 ≤ t.window_seconds
  pub bound_pos : 1 ≤ t.max_entries
  pub bounded : length t.entries ≤ t.max_entries
  pub unique : IsDict t.entries

pub init-IsValid : (limit window bound : ℕ) → IsValid (init limit window bound)
unfolding init
init-IsValid limit window bound = record {
  limit_pos = omega arith;
  window_pos = omega arith;
  bound_pos = omega arith;
  bounded = omega arith;
  unique = tt;
}

module _ (digest : String → String) where
  pub fail-IsValid :
      (t : FailureThrottle) (now : ℕ) (key : String) → IsValid t → IsValid (fail digest t now key)
  unfolding fail
  fail-IsValid t now key v =
      let d = digest key in
      let e = failed_entry digest t now (lookup d t.entries) in
      record {
        limit_pos = v.limit_pos;
        window_pos = v.window_pos;
        bound_pos = v.bound_pos;
        bounded = length-pop_oldest t.max_entries (move_to_end d (insert d e t.entries));
        unique =
            pop_oldest-IsDict t.max_entries (move_to_end d (insert d e t.entries))
              (move_to_end-IsDict d (insert d e t.entries) (insert-IsDict d e t.entries v.unique));
      }

  pub retry_after-IsValid :
      (t : FailureThrottle) (now : ℕ) (key : String)
      → IsValid t
      → IsValid (retry_after digest t now key).1
  unfolding retry_after
  retry_after-IsValid t now key v = ground (
    arith,
    move_to_end-IsDict (digest key) t.entries v.unique,
    length-move_to_end (digest key) t.entries,
    erase-IsDict (digest key) t.entries v.unique,
    length-erase (digest key) t.entries,
  )

  pub reset-IsValid :
      (t : FailureThrottle) (key : String) → IsValid t → IsValid (reset digest t key)
  unfolding reset
  reset-IsValid t key v =
      ground
        (arith, erase-IsDict (digest key) t.entries v.unique, length-erase (digest key) t.entries)

-- One call of a method, with the clock that it reads.
pub data Call : Type 0 where
  check failure : ℕ → String → Call
  success : String → Call

module _ (digest : String → String) where
  unfoldable pub step : FailureThrottle → Call → FailureThrottle
  step t (check now key) = (retry_after digest t now key).1
  step t (failure now key) = fail digest t now key
  step t (success key) = reset digest t key

  unfoldable pub run : FailureThrottle → List Call → FailureThrottle
  unfolding step
  run t [] = t
  run t (c ∷ cs) = run (step t c) cs

  step-IsValid : (t : FailureThrottle) (c : Call) → IsValid t → IsValid (step t c)
  unfolding step
  step-IsValid t (check now key) v = retry_after-IsValid digest t now key v
  step-IsValid t (failure now key) v = fail-IsValid digest t now key v
  step-IsValid t (success key) v = reset-IsValid digest t key v

  -- From any valid throttle, and so from a new one, every sequence of calls leaves positive
  -- settings, no key twice, and no more entries than the bound.
  pub run-IsValid : (t : FailureThrottle) (cs : List Call) → IsValid t → IsValid (run t cs)
  unfolding run
  run-IsValid t [] v = v
  run-IsValid t (c ∷ cs) v = run-IsValid (step t c) cs (step-IsValid t c v)
