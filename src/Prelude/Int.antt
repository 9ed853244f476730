-- ===== src/Prelude/Int.antt =====
-- Go's signed integers: `negsuc n` is -(n + 1). An `int` has 64 bits.
use Prim.Native.Nat.{ℕ, zero, suc, ◌+◌, ◌-◌, ◌^◌}
use mathlib.Core.Bool.{Bool, true, false}
use media_forge.Prelude.Tests.{leb, eqb, if◌then◌else◌}

pub data ℤ : Type 0 where
  pos : ℕ → ℤ
  negsuc : ℕ → ℤ

-- The test `a <= b`.
abbrev pub leℤ : ℤ → ℤ → Bool
leℤ (pos a) (pos b) = leb a b
leℤ (pos a) (negsuc b) = false
leℤ (negsuc a) (pos b) = true
leℤ (negsuc a) (negsuc b) = leb b a

abbrev pub max_int : ℕ
max_int = 2 ^ 63 - 1

-- `n + 1` on an `int`, which wraps.
unfoldable pub suc_int : ℤ → ℤ
suc_int (pos n) = if eqb n max_int then negsuc max_int else pos (n + 1)
suc_int (negsuc zero) = pos 0
suc_int (negsuc (suc n)) = negsuc n
