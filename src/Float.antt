-- ===== src/Float.antt =====
-- Go's float64, as its 64 bits: a sign, and a magnitude whose order is that of the numbers.
use media_forge.Prelude.{ℕ, ◌%◌, ◌^◌, Bool, true, not, ◌&&◌, leb, ltb, eqb, if◌then◌else◌}

abbrev pub Float64 : Type 0
Float64 = ℕ

abbrev pub magnitude_bits : Float64 → ℕ
magnitude_bits b = b % 2 ^ 63

abbrev pub is_negative : Float64 → Bool
is_negative b = leb (2 ^ 63) b

-- The magnitudes above that of infinity are those of NaN.
unfoldable pub is_nan : Float64 → Bool
is_nan b = ltb 0x7ff0_0000_0000_0000 (magnitude_bits b)

-- The order of two numbers that are no NaN; -0 equals 0.
abbrev numbers_le : Float64 → Float64 → Bool
numbers_le a b =
    if is_negative a
    then (if is_negative b then leb (magnitude_bits b) (magnitude_bits a) else true)
    else if is_negative b
    then eqb (magnitude_bits a) 0 && eqb (magnitude_bits b) 0
    else leb (magnitude_bits a) (magnitude_bits b)

-- The test `a <= b`.
unfoldable pub float_le : Float64 → Float64 → Bool
unfolding is_nan
float_le a b = not (is_nan a) && not (is_nan b) && numbers_le a b

abbrev pub float_zero : Float64
float_zero = 0

abbrev pub float_half : Float64
float_half = 0x3fe0_0000_0000_0000

abbrev pub float_three : Float64
float_three = 0x4008_0000_0000_0000

abbrev pub float_twenty : Float64
float_twenty = 0x4034_0000_0000_0000

abbrev pub float_one : Float64
float_one = 0x3ff0_0000_0000_0000
