-- ===== src/Wire/Steps.antt =====
-- One member of an object: written by the gateway if it is not empty, and read into a field that holds
-- the empty value (services/api-gateway/internal/media/contract.go,
-- services/worker-image/internal/broker/broker.go).
use media_forge.Prelude.{
  ◌≡◌, refl, sym, ap, ◌∙◌, Bool, true, false, Option, some, List, [], ◌∷◌, ℤ, pos, negsuc, arith,
}
use media_forge.Text.{Text, is_empty}
use media_forge.Float.{Float64}
use media_forge.Strconv.{atoi, format_int}
use media_forge.Json.{
  Value, string, number, array, Members, integer, strings, unless_empty, into_text, into_int,
  into_texts, texts, into_struct,
}
use media_forge.Gateway.Encode.{is_zero, is_nil}
use media_forge.Worker.Decode.{updated}

pub texts-strings : (l : List Text) → texts (strings l) ≡ some l
unfolding texts
texts-strings [] = refl
texts-strings (s ∷ l) = rw (texts-strings l) refl

is_zero-eq : (n : ℤ) → is_zero n ≡ true → n ≡ pos 0
is_zero-eq (pos n) h = ap pos (ground (arith, h))
is_zero-eq (negsuc n) h = absurd cc

is_empty-eq : (t : Text) → is_empty t ≡ true → t ≡ []
is_empty-eq [] h = refl
is_empty-eq (c ∷ t) h = absurd cc

is_nil-eq : (l : List Text) → is_nil l ≡ true → l ≡ []
is_nil-eq [] h = refl
is_nil-eq (op ∷ l) h = absurd cc

module _ {ℓ} {S : Type ℓ} (set : Text → Value → S → Option S) (key : Text) (s : S)
    (rest : Members) where
  -- A value that is left out has the effect of one that is written, if the field held it already.
  omit-step :
      {A : Type 0} (empty : Bool) (v : Value) (put : A → S) (a : A)
      → (empty ≡ true → put a ≡ s)
      → (empty ≡ false → set key v s ≡ some (put a))
      → into_struct set (unless_empty empty key v rest) s ≡ into_struct set rest (put a)
  unfolding into_struct
  omit-step true v put a same e = ap (into_struct set rest) (sym (same refl))
  omit-step false v put a same e = rw (e refl) refl

  pub int-step :
      (put : ℤ → S) (n : ℤ)
      → ((v : Value) → set key v s ≡ updated put (into_int (pos 0) v))
      → put (pos 0) ≡ s
      → atoi (format_int n) ≡ some n
      → into_struct set (unless_empty (is_zero n) key (integer n) rest) s
        ≡ into_struct set rest (put n)
  int-step put n h z read =
      omit-step (is_zero n) (integer n) put n (λ e. ap put (is_zero-eq n e) ∙ z)
        (λ e. h (integer n) ∙ ap (updated put) read)

  pub text-step :
      (put : Text → S) (t : Text)
      → ((v : Value) → set key v s ≡ updated put (into_text [] v))
      → put [] ≡ s
      → into_struct set (unless_empty (is_empty t) key (string t) rest) s
        ≡ into_struct set rest (put t)
  text-step put t h z =
      omit-step (is_empty t) (string t) put t (λ e. ap put (is_empty-eq t e) ∙ z)
        (λ e. h (string t))

  pub texts-step :
      (put : List Text → S) (l : List Text)
      → ((v : Value) → set key v s ≡ updated put (into_texts v))
      → put [] ≡ s
      → into_struct set (unless_empty (is_nil l) key (array (strings l)) rest) s
        ≡ into_struct set rest (put l)
  texts-step put l h z =
      omit-step (is_nil l) (array (strings l)) put l (λ e. ap put (is_nil-eq l e) ∙ z)
        (λ e. h (array (strings l)) ∙ ap (updated put) (texts-strings l))

  pub number-step :
      (put : Float64 → S) (f : Float64) (empty : Bool) (literal : Text)
      → (empty ≡ true → put f ≡ s)
      → (empty ≡ false → set key (number literal) s ≡ some (put f))
      → into_struct set (unless_empty empty key (number literal) rest) s
        ≡ into_struct set rest (put f)
  number-step put f empty literal same e = omit-step empty (number literal) put f same e
