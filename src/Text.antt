-- ===== src/Text.antt =====
-- Go's strings, and what the services use of the packages `strings` and `unicode`.
-- A text is the list of its code points. The case mapping of the code points above ASCII is a
-- table of the package `unicode`: `to_lower` takes it as the argument `fold`.
pub mod Equality
use Prim.Native.Char.{code}
use Prim.Native.String
use media_forge.Prelude.{
  ℕ, ◌+◌, String, Bool, true, false, ◌&&◌, ◌||◌, Option, none, some, List, [], ◌∷◌, map, ltb, leb,
  eqb, if◌then◌else◌,
}

abbrev pub Text : Type 0
Text = List ℕ

-- A literal.
unfoldable pub codes : String → Text
codes String.[] = []
codes (String.◌∷◌ c s) = code c ∷ codes s

infix 50 ◌==◌
unfoldable pub ◌==◌ : Text → Text → Bool
[] == [] = true
[] == (d ∷ t) = false
(c ∷ s) == [] = false
(c ∷ s) == (d ∷ t) = eqb c d && s == t

abbrev pub is_empty : Text → Bool
is_empty [] = true
is_empty (c ∷ s) = false

-- `unicode.IsSpace`
unfoldable pub is_space : ℕ → Bool
is_space c =
    (leb 0x09 c && leb c 0x0d)
    || eqb c 0x20
    || eqb c 0x85
    || eqb c 0xa0
    || eqb c 0x1680
    || (leb 0x2000 c && leb c 0x200a)
    || (leb 0x2028 c && leb c 0x2029)
    || eqb c 0x202f
    || eqb c 0x205f
    || eqb c 0x3000

unfoldable pub trim_left : Text → Text
unfolding is_space
trim_left [] = []
trim_left (c ∷ s) = let rest = trim_left s in if is_space c then rest else c ∷ s

abbrev pub keep_right : Bool → ℕ → Text → Text
keep_right true c [] = []
keep_right b c s = c ∷ s

unfoldable pub trim_right : Text → Text
unfolding is_space
trim_right [] = []
trim_right (c ∷ s) = keep_right (is_space c) c (trim_right s)

-- `strings.TrimSpace`
unfoldable pub trim_space : Text → Text
unfolding trim_left trim_right
trim_space s = trim_right (trim_left s)

-- `unicode.ToLower`, and `strings.ToLower`
unfoldable pub lower : (ℕ → ℕ) → ℕ → ℕ
lower fold c = if ltb c 0x80 then (if leb b'A' c && leb c b'Z' then c + 32 else c) else fold c

unfoldable pub to_lower : (ℕ → ℕ) → Text → Text
unfolding lower
to_lower fold s = map (lower fold) s

-- `strings.HasPrefix s p`
unfoldable pub has_prefix : Text → Text → Bool
has_prefix s [] = true
has_prefix [] (d ∷ p) = false
has_prefix (c ∷ s) (d ∷ p) = eqb c d && has_prefix s p

abbrev skip : Text → Text → Text
skip s [] = s
skip [] (d ∷ p) = []
skip (c ∷ s) (d ∷ p) = skip s p

-- `strings.TrimPrefix s p`
unfoldable pub trim_prefix : Text → Text → Text
unfolding has_prefix
trim_prefix s p = if has_prefix s p then skip s p else s

abbrev pub open_piece : ℕ → List Text → List Text
open_piece c [] = (c ∷ []) ∷ []
open_piece c (p ∷ ps) = (c ∷ p) ∷ ps

-- `strings.Split` at a separator of one code point
unfoldable pub split : Text → ℕ → List Text
split [] sep = [] ∷ []
split (c ∷ s) sep = let rest = split s sep in if eqb c sep then [] ∷ rest else open_piece c rest

-- `s[strings.LastIndex(s, c):]`, and `none` where the index is -1
unfoldable pub from_last : Text → ℕ → Option Text
from_last [] c = none
from_last (d ∷ s) c = elim (from_last s c) [
  | some t ↦ some t
  | none ↦ if eqb d c then some (d ∷ s) else none
]

-- `strings.ReplaceAll` of one code point by another
unfoldable pub replace_all : Text → ℕ → ℕ → Text
replace_all s old new = map (λ c. if eqb c old then new else c) s
