-- ===== src/Floats.antt =====
-- Python's `float`: the operations that the code uses, and the order of the finite values.
-- Rounding is not modelled; arithmetic is whatever the instance says. `decimal m k` is the literal
-- m / 10 ^ k, and `lt` is `<`. On finite values `x == y` is that neither is below the other, `x > y`
-- is `lt y x`, and `x >= y` is that `lt x y` fails.
pub mod Fixed
use Fixed
use free_lunch.Prelude.Int.{ℤ, ltb_ℤ}
use free_lunch.Prelude.{
  ℕ, ◌≡◌, refl, Bool, true, false, not, ◌&&◌, List, [], ◌∷◌, arith, if◌then◌else◌, Bool-cases, inl,
  inr,
}

pub record Floats (F : Type 0) : Type 0 where
  pub decimal : ℕ → ℕ → F
  pub add : F → F → F
  pub sub : F → F → F
  pub mul : F → F → F
  pub div : F → F → F
  pub neg : F → F
  pub lt : F → F → Bool

-- A strict comparison that orders finite values, up to those that compare equal.
pub record IsWeakOrder {A : Type 0} (lt : A → A → Bool) : Type 0 where
  pub asym : (x y : A) → lt x y ≡ true → lt y x ≡ false
  pub trans : (x y z : A) → lt x y ≡ false → lt y z ≡ false → lt x z ≡ false

-- Thousandths, for runs and for the theorems at concrete inputs.
instance abbrev pub thousandths : Floats ℤ
thousandths = record {
  decimal = Fixed.decimal;
  add = Fixed.add;
  sub = λ a b. Fixed.add a (Fixed.neg b);
  mul = Fixed.mul;
  div = Fixed.div;
  neg = Fixed.neg;
  lt = ltb_ℤ;
}

pub thousandths-IsWeakOrder : IsWeakOrder ltb_ℤ
thousandths-IsWeakOrder = record { asym = λ x y h. ground arith; trans = λ x y z h k. ground arith }

module _ {F : Type 0} ⦃fl : Floats F⦄ where
  abbrev pub zero_f : F
  zero_f = fl.decimal 0 0

  abbrev pub float : ℕ → F
  float n = fl.decimal n 0

  abbrev pub eq_f : F → F → Bool
  eq_f x y = not (fl.lt x y) && not (fl.lt y x)

  -- `max(x, y)` returns its first argument unless the second is greater.
  abbrev pub max_f : F → F → F
  max_f x y = if fl.lt x y then y else x

  -- `min(x, y)` returns its first argument unless the second is smaller.
  abbrev pub min_f : F → F → F
  min_f x y = if fl.lt y x then y else x

  -- `x or y`: zero is false.
  abbrev pub or_f : F → F → F
  or_f x y = if eq_f x zero_f then y else x

module _ {A : Type 0} (lt : A → A → Bool) where
  -- `<` on tuples: the first position at which they differ decides.
  unfoldable pub tuple_lt : List A → List A → Bool
  tuple_lt [] [] = false
  tuple_lt [] (y ∷ ys) = true
  tuple_lt (x ∷ xs) [] = false
  tuple_lt (x ∷ xs) (y ∷ ys) = if not (lt x y) && not (lt y x) then tuple_lt xs ys else lt x y

  module _ (o : IsWeakOrder lt) where
    tuple_lt_asym : (xs ys : List A) → tuple_lt xs ys ≡ true → tuple_lt ys xs ≡ false
    unfolding tuple_lt
    tuple_lt_asym [] [] h = refl
    tuple_lt_asym [] (y ∷ ys) h = refl
    tuple_lt_asym (x ∷ xs) [] h = ground arith
    tuple_lt_asym (x ∷ xs) (y ∷ ys) h = ground (arith, tuple_lt_asym xs ys, o.asym x y)

    tuple_lt_trans :
        (xs ys zs : List A)
        → tuple_lt xs ys ≡ false
        → tuple_lt ys zs ≡ false
        → tuple_lt xs zs ≡ false
    unfolding tuple_lt
    tuple_lt_trans [] [] zs h k = k
    tuple_lt_trans [] (y ∷ ys) zs h k = ground arith
    tuple_lt_trans (x ∷ xs) ys [] h k = refl
    tuple_lt_trans (x ∷ xs) [] (z ∷ zs) h k = ground arith
    tuple_lt_trans (x ∷ xs) (y ∷ ys) (z ∷ zs) h k = ground (
      arith,
      tuple_lt_trans xs ys zs,
      o.asym x y,
      o.asym y z,
      o.asym x z,
      o.asym z x,
      o.trans x y z,
      o.trans z x y,
      o.trans y z x,
      o.trans z y x,
      o.trans y x z,
      o.trans x z y,
    )

    pub tuple_lt-IsWeakOrder : IsWeakOrder tuple_lt
    tuple_lt-IsWeakOrder = record { asym = tuple_lt_asym; trans = tuple_lt_trans }
