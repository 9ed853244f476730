-- ===== src/Gateway/Form/Numbers.antt =====
-- The numbers that services/api-gateway/internal/httpapi/handlers.go reads: `strconv.Atoi` and the
-- paging of `handleList`.
use media_forge.Prelude.{
  ℕ, zero, suc, ◌≡◌, refl, true, Option, none, some, [], ◌∷◌, ℤ, pos, negsuc, leℤ, max_int, arith,
}
use media_forge.Text.{Text}
use media_forge.Strconv.{as_positive, as_negative, unsigned, atoi}
use media_forge.Gateway.Form.{limit_of, offset_of}

abbrev pub IsInt : ℤ → Type 0
IsInt n = (leℤ (negsuc max_int) n ≡ true) × (leℤ n (pos max_int) ≡ true)

as_positive-IsInt : (o : Option ℕ) (n : ℤ) → as_positive o ≡ some n → IsInt n
as_positive-IsInt none n e = cc
as_positive-IsInt (some m) n e = ground arith

as_negative-IsInt : (o : Option ℕ) (n : ℤ) → as_negative o ≡ some n → IsInt n
as_negative-IsInt none n e = cc
as_negative-IsInt (some zero) n e = ground arith
as_negative-IsInt (some (suc m)) n e = ground arith

-- A number that Atoi gives fits an int of 64 bits.
atoi-IsInt : (s : Text) (n : ℤ) → atoi s ≡ some n → IsInt n
unfolding atoi
atoi-IsInt [] n e = cc
atoi-IsInt (c ∷ s) n e = ground (
  arith,
  as_positive-IsInt (unsigned (c ∷ s)) n,
  as_positive-IsInt (unsigned s) n,
  as_negative-IsInt (unsigned s) n,
)

pub limit_of-bounds :
    (o : Option ℤ) → (leℤ (pos 1) (limit_of o) ≡ true) × (leℤ (limit_of o) (pos 100) ≡ true)
limit_of-bounds none = (refl, refl)
limit_of-bounds (some (pos n)) = ground arith
limit_of-bounds (some (negsuc n)) = (refl, refl)

pub offset_of-bounds : (o : Option ℤ) → leℤ (pos 0) (offset_of o) ≡ true
offset_of-bounds none = refl
offset_of-bounds (some (pos n)) = ground arith
offset_of-bounds (some (negsuc n)) = refl
