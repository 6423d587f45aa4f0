-- ===== src/Floats/Fixed.antt =====
-- The laws of the order can be met: whole numbers of thousandths, with truncating division.
use free_lunch.Prelude.{ℕ, ◌+◌, ◌*◌, ◌/◌, ◌^◌}
use free_lunch.Prelude.Int.{ℤ, pos, pos_part, neg_part, sub_ℕ}

abbrev pub decimal : ℕ → ℕ → ℤ
decimal m k = pos (m * 1000 / 10 ^ k)

abbrev pub add : ℤ → ℤ → ℤ
add a b = sub_ℕ (pos_part a + pos_part b) (neg_part a + neg_part b)

abbrev pub neg : ℤ → ℤ
neg a = sub_ℕ (neg_part a) (pos_part a)

abbrev pub mul : ℤ → ℤ → ℤ
mul a b =
    sub_ℕ ((pos_part a * pos_part b + neg_part a * neg_part b) / 1000)
      ((pos_part a * neg_part b + neg_part a * pos_part b) / 1000)

abbrev pub div : ℤ → ℤ → ℤ
div a b =
    sub_ℕ (pos_part a * 1000 / pos_part b + neg_part a * 1000 / neg_part b)
      (pos_part a * 1000 / neg_part b + neg_part a * 1000 / pos_part b)
