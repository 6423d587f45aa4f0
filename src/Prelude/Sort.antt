-- ===== src/Prelude/Sort.antt =====
-- `sorted(xs, key=…, reverse=True)`: a stable descending sort by a strict comparison of keys.
use mathlib.Core.Path.{◌≡◌}
use mathlib.Core.Bool.{Bool, true, false}
use mathlib.Core.List.{List, [], ◌∷◌, Perm}
use mathlib.Core.List.Perm
use free_lunch.Prelude.Tests.{if◌then◌else◌, Bool-cases}
use mathlib.Core.Logic.{inl, inr}
use free_lunch.Prelude.Lists.{All, All-map}

module _ {ℓ} {A : Type ℓ} (lt : A → A → Bool) where
  -- Puts `x`, which stood before all of the list, behind the greater ones only.
  abbrev pub insert_desc : A → List A → List A
  insert_desc x [] = x ∷ []
  insert_desc x (y ∷ ys) = if lt x y then y ∷ insert_desc x ys else x ∷ y ∷ ys

  unfoldable pub sort_desc : List A → List A
  sort_desc [] = []
  sort_desc (x ∷ xs) = insert_desc x (sort_desc xs)

  -- No element is below a later one.
  abbrev pub IsDescending : List A → Type ℓ
  IsDescending [] = Unit
  IsDescending (x ∷ xs) = All (λ y. lt x y ≡ false) xs × IsDescending xs

  insert_desc-perm : (x : A) (ys : List A) → Perm (insert_desc x ys) (x ∷ ys)
  insert_desc-perm x [] = Perm.refl (x ∷ [])
  insert_desc-perm x (y ∷ ys) = elim (Bool-cases (lt x y)) [
    | inl e ↦ rw e (Perm.trans (Perm.cons y (insert_desc-perm x ys)) (Perm.swap x y ys))
    | inr e ↦ rw e (Perm.refl (x ∷ y ∷ ys))
  ]

  pub sort_desc-perm : (xs : List A) → Perm (sort_desc xs) xs
  unfolding sort_desc
  sort_desc-perm [] = Perm.refl []
  sort_desc-perm (x ∷ xs) =
      Perm.trans (insert_desc-perm x (sort_desc xs)) (Perm.cons x (sort_desc-perm xs))

  module _ {κ} (P : A → Type κ) where
    insert_desc-All : (x : A) (ys : List A) → P x → All P ys → All P (insert_desc x ys)
    insert_desc-All x [] p h = (p, tt)
    insert_desc-All x (y ∷ ys) p h = elim (Bool-cases (lt x y)) [
      | inl e ↦ rw e (h.0, insert_desc-All x ys p h.1)
      | inr e ↦ rw e (p, h)
    ]

    pub sort_desc-All : (xs : List A) → All P xs → All P (sort_desc xs)
    unfolding sort_desc
    sort_desc-All [] h = tt
    sort_desc-All (x ∷ xs) h = insert_desc-All x (sort_desc xs) h.0 (sort_desc-All xs h.1)

  module _ (asym : (x y : A) → lt x y ≡ true → lt y x ≡ false)
      (trans : (x y z : A) → lt x y ≡ false → lt y z ≡ false → lt x z ≡ false) where
    insert_desc-IsDescending :
        (x : A) (ys : List A) → IsDescending ys → IsDescending (insert_desc x ys)
    insert_desc-IsDescending x [] h = (tt, tt)
    insert_desc-IsDescending x (y ∷ ys) h = elim (Bool-cases (lt x y)) [
      | inl e ↦ rw e (
        insert_desc-All (λ z. lt y z ≡ false) x ys (asym x y e) h.0,
        insert_desc-IsDescending x ys h.1,
      )
      | inr e ↦ rw e ((e, All-map _ _ ys (λ z. trans x y z e) h.0), h)
    ]

    pub sort_desc-IsDescending : (xs : List A) → IsDescending (sort_desc xs)
    unfolding sort_desc
    sort_desc-IsDescending [] = tt
    sort_desc-IsDescending (x ∷ xs) =
        insert_desc-IsDescending x (sort_desc xs) (sort_desc-IsDescending xs)
