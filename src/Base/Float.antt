-- ===== src/Base/Float.antt =====
-- Go's float64 by its 64 bits. Comparisons follow IEEE 754 on the bits: a NaN is below and above
-- nothing, the two zeros are equal, and other values are ordered by sign and magnitude.
use notai_api.Base.{ℕ, ◌^◌, ◌%◌, ◌≡◌, Bool, true, false, ◌&&◌, not, arith, ltb, if◌then◌else◌}
use notai_api.Base.Int.{ℤ, pos, sub_ℕ, ltb_ℤ, leb_ℤ}

abbrev pub Float64 : Type 0
Float64 = ℕ

abbrev pub magnitude : Float64 → ℕ
magnitude x = x % 2 ^ 63

abbrev pub is_nan : Float64 → Bool
is_nan x = ltb 0x7ff0000000000000 (magnitude x)

-- A number that is ordered as the values are.
abbrev pub rank : Float64 → ℤ
rank x = if ltb x (2 ^ 63) then pos (magnitude x) else sub_ℕ 0 (magnitude x)

unfoldable pub gt : Float64 → Float64 → Bool
gt x y = not (is_nan x) && not (is_nan y) && ltb_ℤ (rank y) (rank x)

unfoldable pub ge : Float64 → Float64 → Bool
ge x y = not (is_nan x) && not (is_nan y) && leb_ℤ (rank y) (rank x)

-- 0, 0.3, 0.5, 0.7 and 1.
abbrev pub f_zero : Float64
f_zero = 0

abbrev pub f_0_3 : Float64
f_0_3 = 0x3fd3333333333333

abbrev pub f_0_5 : Float64
f_0_5 = 0x3fe0000000000000

abbrev pub f_0_7 : Float64
f_0_7 = 0x3fe6666666666666

abbrev pub f_one : Float64
f_one = 0x3ff0000000000000

-- The arithmetic of the processor, which the models take as a parameter.
pub record FloatArith : Type 0 where
  pub add : Float64 → Float64 → Float64
  pub sub : Float64 → Float64 → Float64

-- A value that is over a bound lies over all that is below the bound.
pub gt-ge_trans : (x y c : Float64) → gt x y ≡ true → ge y c ≡ true → ge x c ≡ true
unfolding gt ge
gt-ge_trans x y c h k = ground arith

-- What is not over a number lies below all that the number lies below.
pub ge_of_not_gt :
    (w y c : Float64) → is_nan y ≡ false → gt w y ≡ false → ge w c ≡ true → ge y c ≡ true
unfolding gt ge
ge_of_not_gt w y c n h k = ground arith
