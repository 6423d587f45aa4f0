-- ===== src/Routing/Fallback.antt =====
-- The fallback model of src/routing.py takes the last attempt, if it can serve the request.
use free_lunch.Prelude.{
  ℕ, zero, suc, ◌-◌, ◌≤◌, String, ◌≡◌, ◌≢◌, refl, ap, Bool, true, false, none, some, List, [], ◌∷◌,
  ◌++◌, arith, length, take, drop, any, str_eq, eq_iff, Option-cases, inl, inr,
}
use free_lunch.Prelude.Int.{pos}
use free_lunch.Routing.{place_fallback}
use free_lunch.Routing.Candidates.{Candidate, has_id, find, slice_to}

module _ {F : Type 0} where
  any-take-insert :
      (p : Candidate F → Bool) (n : ℕ) (x : Candidate F) (xs : List (Candidate F))
      → p x ≡ true
      → any p (take (suc n) (take n xs ++ (x ∷ drop n xs))) ≡ true
  any-take-insert p zero x xs h = ground arith
  any-take-insert p (suc n) x [] h = ground arith
  any-take-insert p (suc n) x (y ∷ xs) h = ground (arith, any-take-insert p n x xs h)

  take-take-insert :
      (n : ℕ) (x : Candidate F) (xs : List (Candidate F))
      → n ≤ length xs
      → take n (take n xs ++ (x ∷ drop n xs)) ≡ take n xs
  take-take-insert zero x xs h = refl
  take-take-insert (suc n) x [] h = absurd (omega arith)
  take-take-insert (suc n) x (y ∷ xs) h = ap (◌∷◌ y) (take-take-insert n x xs (omega arith))

  has_id-find :
      (k : String) (c : Candidate F) (cs : List (Candidate F))
      → find k cs ≡ some c
      → has_id k c ≡ true
  has_id-find k c [] h = absurd (ground arith)
  has_id-find k c (d ∷ cs) h = ground (arith, has_id-find k c cs)

  -- A fallback model that can serve the request is among the `limit` attempts, if there is at
  -- least one; and if `limit` candidates were there without it, all attempts but the last are as
  -- they were.
  pub fallback_tried :
      (k : String) (n : ℕ) (cs ordered : List (Candidate F))
      → k ≢ ""
      → find k cs ≢ none
      → (any (has_id k) (slice_to (pos (suc n)) (place_fallback (some k) (pos (suc n)) cs ordered))
          ≡ true)
        × (n ≤ length ordered
            → take n (place_fallback (some k) (pos (suc n)) cs ordered) ≡ take n ordered)
  unfolding place_fallback slice_to
  fallback_tried k n cs ordered named able = elim (Option-cases (find k cs)) [
    | inl e ↦ absurd (able e)
    | inr (c, e) ↦
        let before : suc n - 1 ≡ n = omega arith in
        let name : str_eq k "" ≡ false = ground (arith, eq_iff k "") in
        rw (e, place_fallback, name, before)
          (
            ground (arith, any-take-insert (has_id k) n c ordered (has_id-find k c cs e)),
            λ long. ground (arith, take-take-insert n c ordered long),
          )
  ]
