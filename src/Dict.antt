-- ===== src/Dict.antt =====
-- Python's `dict` and `OrderedDict` with string keys, as an association list in insertion order.
use mathlib.Core.Path.{subst}
use free_lunch.Prelude.{
  All, Bool-cases, inl, inr, sym, suc, ◌+◌, ◌≤◌, String, ◌≡◌, refl, Bool, Option, none, some, List,
  [], ◌∷◌, ◌++◌, arith, str_eq, eq_iff, if◌then◌else◌, length, is_some,
}

abbrev pub Dict {ℓ} : Type ℓ → Type ℓ
Dict V = List (String × V)

module _ {ℓ} {V : Type ℓ} where
  -- `d.get(k)`
  abbrev pub lookup : String → Dict V → Option V
  lookup k [] = none
  lookup k ((j, v) ∷ d) = if str_eq j k then some v else lookup k d

  -- `k in d`
  abbrev pub contains : String → Dict V → Bool
  contains k d = is_some (lookup k d)

  -- `d[k] = v`: an old key keeps its place, a new one goes to the end.
  abbrev pub insert : String → V → Dict V → Dict V
  insert k v [] = (k, v) ∷ []
  insert k v ((j, w) ∷ d) = if str_eq j k then (j, v) ∷ d else (j, w) ∷ insert k v d

  -- `d.pop(k, None)`
  abbrev pub erase : String → Dict V → Dict V
  erase k [] = []
  erase k ((j, v) ∷ d) = let rest = erase k d in if str_eq j k then rest else (j, v) ∷ rest

  -- `d.move_to_end(k)`
  abbrev pub move_to_end : String → Dict V → Dict V
  move_to_end k d = elim (lookup k d) [ none ↦ d | some v ↦ erase k d ++ (k, v) ∷ [] ]

  -- No key is listed twice.
  abbrev pub IsDict : Dict V → Type ℓ
  IsDict [] = Unit
  IsDict ((k, v) ∷ d) = (lookup k d ≡ none) × IsDict d

  pub lookup-insert :
      (k j : String) (v : V) (d : Dict V)
      → lookup j (insert k v d) ≡ (if str_eq k j then some v else lookup j d)
  lookup-insert k j v [] = refl
  lookup-insert k j v ((i, w) ∷ d) =
      ground (arith, eq_iff k j, eq_iff i k, eq_iff i j, lookup-insert k j v d)

  pub lookup-erase :
      (k j : String) (d : Dict V) → lookup j (erase k d) ≡ (if str_eq k j then none else lookup j d)
  lookup-erase k j [] = ground arith
  lookup-erase k j ((i, w) ∷ d) =
      ground (arith, eq_iff k j, eq_iff i k, eq_iff i j, lookup-erase k j d)

  pub length-erase : (k : String) (d : Dict V) → length (erase k d) ≤ length d
  length-erase k [] = omega arith
  length-erase k ((i, w) ∷ d) = ground (arith, length-erase k d)

  pub length-erase_of_some :
      (k : String) (v : V) (d : Dict V) → lookup k d ≡ some v → suc (length (erase k d)) ≤ length d
  length-erase_of_some k v [] h = ground arith
  length-erase_of_some k v ((i, w) ∷ d) h =
      ground (arith, length-erase k d, length-erase_of_some k v d)

  pub length-insert : (k : String) (v : V) (d : Dict V) → length (insert k v d) ≤ length d + 1
  length-insert k v [] = omega arith
  length-insert k v ((i, w) ∷ d) = ground (arith, length-insert k v d)

  pub lookup-append :
      (k : String) (d e : Dict V)
      → lookup k (d ++ e) ≡ elim (lookup k d) [ none ↦ lookup k e | some v ↦ some v ]
  lookup-append k [] e = refl
  lookup-append k ((i, w) ∷ d) e = ground (arith, lookup-append k d e)

  pub insert-IsDict : (k : String) (v : V) (d : Dict V) → IsDict d → IsDict (insert k v d)
  insert-IsDict k v [] h = (refl, tt)
  insert-IsDict k v ((i, w) ∷ d) h =
      ground (arith, eq_iff k i, eq_iff i k, insert-IsDict k v d h.1, lookup-insert k i v d)

  pub erase-IsDict : (k : String) (d : Dict V) → IsDict d → IsDict (erase k d)
  erase-IsDict k [] h = tt
  erase-IsDict k ((i, w) ∷ d) h = ground (arith, erase-IsDict k d h.1, lookup-erase k i d)

  pub snoc-IsDict :
      (k : String) (v : V) (d : Dict V) → IsDict d → lookup k d ≡ none → IsDict (d ++ (k, v) ∷ [])
  snoc-IsDict k v [] h e = (refl, tt)
  snoc-IsDict k v ((i, w) ∷ d) h e =
      ground (arith, eq_iff k i, eq_iff i k, snoc-IsDict k v d h.1, lookup-append i d ((k, v) ∷ []))

  -- What holds of all entries holds of the one that is found, and of all after an insertion.
  pub lookup-All {κ} :
      (P : String → V → Type κ) (k : String) (v : V) (d : Dict V)
      → All (λ e. P e.0 e.1) d
      → lookup k d ≡ some v
      → P k v
  lookup-All P k v [] h e = ground (arith, e)
  lookup-All P k v ((j, w) ∷ d) h e = elim (Bool-cases (str_eq j k)) [
    | inl c ↦
        let key : j ≡ k = ground (arith, c, eq_iff j k) in
        let same : w ≡ v = ground (arith, e, c) in rw (← key, ← same) h.0
    | inr c ↦ lookup-All P k v d h.1 (ground (arith, e, c))
  ]

  pub insert-All {κ} :
      (P : String → V → Type κ) (k : String) (v : V) (d : Dict V)
      → All (λ e. P e.0 e.1) d
      → P k v
      → All (λ e. P e.0 e.1) (insert k v d)
  insert-All P k v [] h p = (p, tt)
  insert-All P k v ((j, w) ∷ d) h p = elim (Bool-cases (str_eq j k)) [
    | inl c ↦
        let key : j ≡ k = ground (arith, c, eq_iff j k) in
        rw (c) (subst (λ i. P i v) (sym key) p, h.1)
    | inr c ↦ rw (c) (h.0, insert-All P k v d h.1 p)
  ]
