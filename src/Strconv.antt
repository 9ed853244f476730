-- ===== src/Strconv.antt =====
-- What the services use of the package `strconv`: `Atoi`, which reads the same texts as `ParseInt` with
-- base 10 and 64 bits, `ParseBool`, and the decimal form of an integer.
pub mod Decimal
use media_forge.Prelude.{
  ℕ, zero, suc, ◌+◌, ◌-◌, ◌*◌, ◌/◌, ◌%◌, Bool, true, false, ◌&&◌, ◌||◌, Option, none, some, [], ◌∷◌,
  ℤ, pos, negsuc, leb, ltb, eqb, max_int, if◌then◌else◌,
}
use media_forge.Text.{Text, codes, ◌==◌}

abbrev pub is_digit : ℕ → Bool
is_digit c = leb b'0' c && leb c b'9'

-- The number that follows `n` in front of it; `none` where a character is no digit.
unfoldable pub digits : Text → ℕ → Option ℕ
digits [] n = some n
digits (c ∷ s) n = let rest = digits s (n * 10 + (c - b'0')) in if is_digit c then rest else none

abbrev pub unsigned : Text → Option ℕ
unsigned [] = none
unsigned (c ∷ s) = digits (c ∷ s) 0

abbrev pub as_positive : Option ℕ → Option ℤ
as_positive none = none
as_positive (some n) = if leb n max_int then some (pos n) else none

abbrev pub as_negative : Option ℕ → Option ℤ
as_negative none = none
as_negative (some zero) = some (pos 0)
as_negative (some (suc n)) = if leb n max_int then some (negsuc n) else none

-- `strconv.Atoi`
unfoldable pub atoi : Text → Option ℤ
atoi [] = none
atoi (c ∷ s) =
    if eqb c b'-'
    then as_negative (unsigned s)
    else if eqb c b'+'
    then as_positive (unsigned s)
    else as_positive (unsigned (c ∷ s))

-- `strconv.ParseBool`
unfoldable pub parse_bool : Text → Option Bool
parse_bool s =
    if s == codes "1"
      || s == codes "t"
      || s == codes "T"
      || s == codes "TRUE"
      || s == codes "true"
      || s == codes "True"
    then some true
    else if s == codes "0"
        || s == codes "f"
        || s == codes "F"
        || s == codes "FALSE"
        || s == codes "false"
        || s == codes "False"
    then some false
    else none

-- The decimal form, on fuel; a number has no more digits than its size.
unfoldable pub decimal_on : ℕ → ℕ → Text → Text
decimal_on zero n acc = acc
decimal_on (suc fuel) n acc =
    let rest = decimal_on fuel (n / 10) ((b'0' + n % 10) ∷ acc) in
    if ltb n 10 then (b'0' + n % 10) ∷ acc else rest

unfoldable pub decimal : ℕ → Text
decimal n = decimal_on (suc n) n []

-- `strconv.FormatInt` with base 10, and the format %d
unfoldable pub format_int : ℤ → Text
format_int (pos n) = decimal n
format_int (negsuc n) = b'-' ∷ decimal (suc n)
