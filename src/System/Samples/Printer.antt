-- ===== src/System/Samples/Printer.antt =====
-- A way to write JSON values and to read them back, for the samples: each part of a value comes before
-- what is made of it, and a reader keeps the parts on a stack.
use media_forge.Prelude.{
  ℕ, zero, suc, ◌≡◌, refl, ap, ◌∙◌, true, false, Option, none, some, List, [], ◌∷◌, ◌++◌,
}
use media_forge.Text.{Text}
use media_forge.Json.{
  Value, Values, Members, null, boolean, number, string, array, object, no_values, value,
  no_members, member,
}

data Part : Type 0 where
  a_text : Text → Part
  a_value : Value → Part
  some_values : Values → Part
  some_members : Members → Part

data Token : Type 0 where
  text_end : Token
  letter : ℕ → Token
  is_null : Token
  is_true : Token
  is_false : Token
  as_number : Token
  as_string : Token
  values_end : Token
  as_values : Token
  as_array : Token
  members_end : Token
  as_members : Token
  as_object : Token

abbrev pick : ℕ → List Token → Token
pick n [] = letter n
pick zero (t ∷ ts) = t
pick (suc n) (t ∷ ts) = pick n ts

abbrev token : ℕ → Token
token n = pick n (
    text_end ∷ is_null ∷ is_true ∷ is_false ∷ as_number ∷ as_string ∷ values_end ∷ as_values
    ∷ as_array ∷ members_end ∷ as_members ∷ as_object ∷ [])

abbrev push : Token → List Part → List Part
push text_end st = a_text [] ∷ st
push (letter c) (a_text s ∷ st) = a_text (c ∷ s) ∷ st
push is_null st = a_value null ∷ st
push is_true st = a_value (boolean true) ∷ st
push is_false st = a_value (boolean false) ∷ st
push as_number (a_text s ∷ st) = a_value (number s) ∷ st
push as_string (a_text s ∷ st) = a_value (string s) ∷ st
push values_end st = some_values no_values ∷ st
push as_values (some_values vs ∷ a_value v ∷ st) = some_values (value v vs) ∷ st
push as_array (some_values vs ∷ st) = a_value (array vs) ∷ st
push members_end st = some_members no_members ∷ st
push as_members (some_members ms ∷ a_value v ∷ a_text k ∷ st) = some_members (member k v ms) ∷ st
push as_object (some_members ms ∷ st) = a_value (object ms) ∷ st
push t st = st

abbrev parts : Text → List Part → List Part
parts [] st = st
parts (c ∷ s) st = parts s (push (token c) st)

abbrev top : List Part → Option Value
top (a_value v ∷ []) = some v
top st = none

pub parse : Text → Option Value
parse s = top (parts s [])

abbrev code : ℕ → ℕ
code c = suc (suc (suc (suc (suc (suc (suc (suc (suc (suc (suc (suc c)))))))))))

abbrev print_text : Text → Text
print_text [] = 0 ∷ []
print_text (c ∷ s) = print_text s ++ code c ∷ []

mutual
  pub print : Value → Text
  print null = 1 ∷ []
  print (boolean true) = 2 ∷ []
  print (boolean false) = 3 ∷ []
  print (number s) = print_text s ++ 4 ∷ []
  print (string s) = print_text s ++ 5 ∷ []
  print (array vs) = print_values vs ++ 8 ∷ []
  print (object ms) = print_members ms ++ 11 ∷ []

  print_values : Values → Text
  print_values no_values = 6 ∷ []
  print_values (value v vs) = print v ++ print_values vs ++ 7 ∷ []

  print_members : Members → Text
  print_members no_members = 9 ∷ []
  print_members (member k v ms) = print_text k ++ print v ++ print_members ms ++ 10 ∷ []

parts-append : (s t : Text) (st : List Part) → parts (s ++ t) st ≡ parts t (parts s st)
parts-append [] t st = refl
parts-append (c ∷ s) t st = parts-append s t (push (token c) st)

parts_text : (s : Text) (st : List Part) → parts (print_text s) st ≡ a_text s ∷ st
parts_text [] st = refl
parts_text (c ∷ s) st =
    parts-append (print_text s) _ st ∙ ap (λ x. parts (code c ∷ []) x) (parts_text s st)

mutual
  unfolding print print_values print_members

  parts_value : (v : Value) (st : List Part) → parts (print v) st ≡ a_value v ∷ st
  parts_value null st = refl
  parts_value (boolean true) st = refl
  parts_value (boolean false) st = refl
  parts_value (number s) st = rw (parts-append, parts_text s st) refl
  parts_value (string s) st = rw (parts-append, parts_text s st) refl
  parts_value (array vs) st = rw (parts-append, parts_values vs st) refl
  parts_value (object ms) st = rw (parts-append, parts_members ms st) refl

  parts_values : (vs : Values) (st : List Part) → parts (print_values vs) st ≡ some_values vs ∷ st
  parts_values no_values st = refl
  parts_values (value v vs) st =
      rw (parts-append, parts-append, parts_value v st, parts_values vs (a_value v ∷ st)) refl

  parts_members :
      (ms : Members) (st : List Part) → parts (print_members ms) st ≡ some_members ms ∷ st
  parts_members no_members st = refl
  parts_members (member k v ms) st =
      rw
        (
          parts-append,
          parts-append,
          parts-append,
          parts_text k st,
          parts_value v (a_text k ∷ st),
          parts_members ms (a_value v ∷ a_text k ∷ st),
        )
        refl

pub parse-print : (v : Value) → parse (print v) ≡ some v
unfolding parse
parse-print v = rw (parts_value v []) refl
