-- ===== src/Gateway/Form/Operations.antt =====
-- `parseOperations` of services/api-gateway/internal/httpapi/handlers.go.
use media_forge.Prelude.{
  ℕ, ◌≡◌, ◌≢◌, refl, Bool, true, false, List, [], ◌∷◌, All, eqb, eqb_iff, arith, if◌then◌else◌,
}
use media_forge.Text.{
  Text, codes, is_empty, is_space, trim_left, trim_right, trim_space, split, keep_right, open_piece,
}
use media_forge.Gateway.Form.{parse_operations, nonempty_pieces}
use media_forge.Gateway.Form.Names.{Without, lacks-Without}

abbrev IsOperation : Text → Type 0
IsOperation op = (op ≢ []) × Without b',' op

if-Without :
    (b : Bool) (c : ℕ) (s t : Text) → Without c s → Without c t → Without c (if b then s else t)
if-Without true c s t h k = h
if-Without false c s t h k = k

trim_left-Without : (c : ℕ) (s : Text) → Without c s → Without c (trim_left s)
unfolding trim_left
trim_left-Without c [] h = tt
trim_left-Without c (d ∷ s) h =
    if-Without (is_space d) c (trim_left s) (d ∷ s) (trim_left-Without c s h.1) h

keep_right-Without :
    (b : Bool) (c d : ℕ) (s : Text) → d ≢ c → Without c s → Without c (keep_right b d s)
keep_right-Without true c d [] h k = tt
keep_right-Without true c d (x ∷ s) h k = (h, k)
keep_right-Without false c d [] h k = (h, k)
keep_right-Without false c d (x ∷ s) h k = (h, k)

trim_right-Without : (c : ℕ) (s : Text) → Without c s → Without c (trim_right s)
unfolding trim_right
trim_right-Without c [] h = tt
trim_right-Without c (d ∷ s) h =
    keep_right-Without (is_space d) c d (trim_right s) h.0 (trim_right-Without c s h.1)

trim_space-Without : (c : ℕ) (s : Text) → Without c s → Without c (trim_space s)
unfolding trim_space
trim_space-Without c s h = trim_right-Without c (trim_left s) (trim_left-Without c s h)

open_piece-Without :
    (sep c : ℕ) (ps : List Text)
    → c ≢ sep
    → All (Without sep) ps
    → All (Without sep) (open_piece c ps)
open_piece-Without sep c [] h k = ((h, tt), tt)
open_piece-Without sep c (p ∷ ps) h k = ((h, k.0), k.1)

split_step-Without :
    (b : Bool) (sep c : ℕ) (ps : List Text)
    → (b ≡ false → c ≢ sep)
    → All (Without sep) ps
    → All (Without sep) (if b then [] ∷ ps else open_piece c ps)
split_step-Without true sep c ps h k = (tt, k)
split_step-Without false sep c ps h k = open_piece-Without sep c ps (h refl) k

split-Without : (s : Text) (sep : ℕ) → All (Without sep) (split s sep)
unfolding split
split-Without [] sep = (tt, tt)
split-Without (c ∷ s) sep =
    split_step-Without (eqb c sep) sep c (split s sep) (λ h e. ground (arith, h, e, eqb_iff c sep))
      (split-Without s sep)

nonempty_step :
    (op : Text) (ops : List Text)
    → Without b',' op
    → All IsOperation ops
    → All IsOperation (if is_empty op then ops else op ∷ ops)
nonempty_step [] ops h k = k
nonempty_step (c ∷ s) ops h k = ((λ e. cc, h), k)

nonempty_pieces-IsOperation :
    (ps : List Text) → All (Without b',') ps → All IsOperation (nonempty_pieces ps)
nonempty_pieces-IsOperation [] h = tt
nonempty_pieces-IsOperation (p ∷ ps) h =
    nonempty_step (trim_space p) (nonempty_pieces ps) (trim_space-Without b',' p h.0)
      (nonempty_pieces-IsOperation ps h.1)

operations_if :
    (b : Bool) (ops : List Text)
    → All IsOperation ops
    → All IsOperation (if b then codes "resize" ∷ codes "thumbnail" ∷ codes "webp" ∷ [] else ops)
unfolding codes
operations_if true ops h = (
  (λ e. cc, lacks-Without b',' (codes "resize") refl),
  (
    (λ e. cc, lacks-Without b',' (codes "thumbnail") refl),
    ((λ e. cc, lacks-Without b',' (codes "webp") refl), tt),
  ),
)
operations_if false ops h = h

-- Every operation of a form is a text that is not empty and has no comma.
parse_operations-IsOperation : (raw : Text) → All IsOperation (parse_operations raw)
unfolding parse_operations
parse_operations-IsOperation raw =
    operations_if (is_empty (trim_space raw)) (nonempty_pieces (split raw b','))
      (nonempty_pieces-IsOperation (split raw b',') (split-Without raw b','))
