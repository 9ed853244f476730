-- ===== src/Json.antt =====
-- JSON values, as the package `encoding/json` writes them from structs and reads them into structs.
-- A number is the text of its literal. `fold` is the table by which `foldName` maps the code points
-- above ASCII.
use media_forge.Prelude.{
  ℕ, ◌-◌, Bool, true, false, ◌&&◌, Option, none, some, List, [], ◌∷◌, ℤ, map, ltb, leb,
  if◌then◌else◌,
}
use media_forge.Text.{Text, ◌==◌}
use media_forge.Strconv.{atoi, format_int}

mutual
  pub data Value : Type 0 where
    null : Value
    boolean : Bool → Value
    number : Text → Value
    string : Text → Value
    array : Values → Value
    object : Members → Value

  pub data Values : Type 0 where
    no_values : Values
    value : Value → Values → Values

  pub data Members : Type 0 where
    no_members : Members
    member : Text → Value → Members → Members

-- An integer, and a list of texts, as they are written.
abbrev pub integer : ℤ → Value
integer n = number (format_int n)

abbrev pub strings : List Text → Values
strings [] = no_values
strings (s ∷ rest) = value (string s) (strings rest)

-- A member that is left out if its value is empty.
abbrev pub unless_empty : Bool → Text → Value → Members → Members
unless_empty true key v rest = rest
unless_empty false key v rest = member key v rest

-- What a value makes of a field of a struct that holds `old`: null changes nothing, and a value of
-- another type is an error.
abbrev pub into_text : Text → Value → Option Text
into_text old null = some old
into_text old (string s) = some s
into_text old (boolean b) = none
into_text old (number n) = none
into_text old (array vs) = none
into_text old (object ms) = none

-- A field of type int or int64
abbrev pub into_int : ℤ → Value → Option ℤ
into_int old null = some old
into_int old (number n) = atoi n
into_int old (boolean b) = none
into_int old (string s) = none
into_int old (array vs) = none
into_int old (object ms) = none

abbrev pub cons_text : Option Text → Option (List Text) → Option (List Text)
cons_text none rest = none
cons_text (some s) none = none
cons_text (some s) (some rest) = some (s ∷ rest)

unfoldable pub texts : Values → Option (List Text)
texts no_values = some []
texts (value v rest) = cons_text (into_text [] v) (texts rest)

-- A field of type []string; null makes it nil.
abbrev pub into_texts : Value → Option (List Text)
into_texts null = some []
into_texts (array vs) = texts vs
into_texts (boolean b) = none
into_texts (number n) = none
into_texts (string s) = none
into_texts (object ms) = none

-- `foldName` of a key
unfoldable pub fold_name : (ℕ → ℕ) → Text → Text
fold_name fold =
    map λ c. if ltb c 0x80 then (if leb b'a' c && leb c b'z' then c - 32 else c) else fold c

-- The field of a struct that a key names: the one of that name, or else one whose name differs in
-- its case only.
unfoldable pub exact_field {ℓ} : {A : Type ℓ} → List (Text × A) → Text → Option A
exact_field [] key = none
exact_field ((name, f) ∷ rest) key =
    let other = exact_field rest key in if name == key then some f else other

abbrev pub or_else {ℓ} : {A : Type ℓ} → Option A → Option A → Option A
or_else none o = o
or_else (some a) o = some a

unfoldable pub field_of {ℓ} : {A : Type ℓ} → (ℕ → ℕ) → List (Text × A) → Text → Option A
unfolding exact_field fold_name
field_of fold fields key =
    or_else (exact_field fields key)
      (exact_field (map (λ f. (fold_name fold f.0, f.1)) fields) (fold_name fold key))

-- Members go into a struct one by one; one that names no field is skipped.
module _ {ℓ} {S : Type ℓ} (set : Text → Value → S → Option S) where
  abbrev pub and_then : Option S → (S → Option S) → Option S
  and_then none f = none
  and_then (some s) f = f s

  unfoldable pub into_struct : Members → S → Option S
  into_struct no_members s = some s
  into_struct (member key v rest) s = and_then (set key v s) (into_struct rest)
