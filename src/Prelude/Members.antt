-- ===== src/Prelude/Members.antt =====
-- Membership by recursion, which the tactics take apart, and what keeps members.
use mathlib.Core.Path.{◌≡◌, refl, ap}
use mathlib.Core.Logic.{◌⊎◌, inl, inr}
use mathlib.Core.Bool.{Bool, true, not}
use mathlib.Core.List.{List, [], ◌∷◌, ◌++◌, map, Perm, perm_middle}
use mathlib.Core.List.Perm
use free_lunch.Prelude.Tests.{Bool-cases}
use free_lunch.Prelude.Lists.{All, All-map, select}
use free_lunch.Prelude.Sort.{insert_desc, sort_desc}

module _ {A : Type 0} where
  abbrev pub In : A → List A → Type 0
  In a [] = ⊥
  In a (x ∷ xs) = (a ≡ x) ⊎ In a xs

  pub All-In : (xs : List A) → All (λ x. In x xs) xs
  All-In [] = tt
  All-In (x ∷ xs) = (inl refl, All-map _ _ xs (λ y h. inr h) (All-In xs))

  pub In-append : (a : A) (xs ys : List A) → In a xs → In a (xs ++ ys)
  In-append a [] ys m = absurd m
  In-append a (x ∷ xs) ys (inl e) = inl e
  In-append a (x ∷ xs) ys (inr m) = inr (In-append a xs ys m)

  pub In-last : (a : A) (xs : List A) → In a (xs ++ a ∷ [])
  In-last a [] = inl refl
  In-last a (x ∷ xs) = inr (In-last a xs)

  -- What holds of all members holds of each.
  pub All-elim {κ} : (P : A → Type κ) (a : A) (xs : List A) → All P xs → In a xs → P a
  All-elim P a [] h m = absurd m
  All-elim P a (x ∷ xs) h (inl e) = rw e h.0
  All-elim P a (x ∷ xs) h (inr m) = All-elim P a xs h.1 m

  -- The selected elements are those that pass the test, and keep what held of all.
  pub select-All {κ} :
      (p : A → Bool) (P : A → Type κ) (xs : List A)
      → All P xs
      → All (λ x. (p x ≡ true) × P x) (select p xs)
  select-All p P [] h = tt
  select-All p P (x ∷ xs) h = elim (Bool-cases (p x)) [
    | inl e ↦ rw e ((e, h.0), select-All p P xs h.1)
    | inr e ↦ rw e (select-All p P xs h.1)
  ]

  pub In-select : (p : A → Bool) (a : A) (xs : List A) → In a xs → p a ≡ true → In a (select p xs)
  In-select p a [] m e = m
  In-select p a (x ∷ xs) (inl q) e = rw (← q, e) (inl refl)
  In-select p a (x ∷ xs) (inr m) e = elim (Bool-cases (p x)) [
    | inl f ↦ rw f (inr (In-select p a xs m e))
    | inr f ↦ rw f (In-select p a xs m e)
  ]

  In-insert_desc :
      (lt : A → A → Bool) (a x : A) (ys : List A) → (a ≡ x) ⊎ In a ys → In a (insert_desc lt x ys)
  In-insert_desc lt a x [] m = m
  In-insert_desc lt a x (y ∷ ys) m = elim (Bool-cases (lt x y)) [
    | inl e ↦ rw e (behind m (In-insert_desc lt a x ys))
    | inr e ↦ rw e m
  ]
    where
      behind :
          (a ≡ x) ⊎ In a (y ∷ ys)
          → ((a ≡ x) ⊎ In a ys → In a (insert_desc lt x ys))
          → In a (y ∷ insert_desc lt x ys)
      behind (inl q) ih = inr (ih (inl q))
      behind (inr (inl q)) ih = inl q
      behind (inr (inr n)) ih = inr (ih (inr n))

  pub In-sort_desc : (lt : A → A → Bool) (a : A) (xs : List A) → In a xs → In a (sort_desc lt xs)
  unfolding sort_desc
  In-sort_desc lt a [] m = m
  In-sort_desc lt a (x ∷ xs) (inl e) = In-insert_desc lt a x (sort_desc lt xs) (inl e)
  In-sort_desc lt a (x ∷ xs) (inr m) =
      In-insert_desc lt a x (sort_desc lt xs) (inr (In-sort_desc lt a xs m))

  -- A test splits a list into two parts, which together hold its elements.
  pub select_split-perm :
      (p : A → Bool) (xs : List A) → Perm (select p xs ++ select (λ x. not (p x)) xs) xs
  select_split-perm p [] = Perm.refl []
  select_split-perm p (x ∷ xs) = elim (Bool-cases (p x)) [
    | inl e ↦ rw e (Perm.cons x (select_split-perm p xs))
    | inr e ↦ rw e (
        Perm.trans (perm_middle (select p xs) (select (λ y. not (p y)) xs))
          (Perm.cons x (select_split-perm p xs)))
  ]

pub In-map : {A B : Type 0} (f : A → B) (a : A) (xs : List A) → In a xs → In (f a) (map f xs)
In-map f a [] m = absurd m
In-map f a (x ∷ xs) (inl e) = inl (ap f e)
In-map f a (x ∷ xs) (inr m) = inr (In-map f a xs m)

pub map-All {ℓ κ μ} :
    {A : Type ℓ} {B : Type κ} (f : A → B) (P : B → Type μ) (xs : List A)
    → All (λ x. P (f x)) xs
    → All P (map f xs)
map-All f P [] h = tt
map-All f P (x ∷ xs) h = (h.0, map-All f P xs h.1)
