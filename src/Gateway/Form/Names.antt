-- ===== src/Gateway/Form/Names.antt =====
-- `sanitize` and the object key of an upload, in
-- services/api-gateway/internal/httpapi/handlers.go.
use media_forge.Prelude.{
  ℕ, ◌≡◌, ◌≢◌, refl, Bool, not, ◌&&◌, true, [], ◌∷◌, ◌++◌, All, eqb, eqb_iff, arith, if◌then◌else◌,
}
use media_forge.Text.{Text, codes, is_empty, replace_all}
use media_forge.Gateway.Form.{sanitize, upload_key}

-- A text without a character.
abbrev pub Without : ℕ → Text → Type 0
Without c s = All (λ d. d ≢ c) s

replace_all-Without : (c new : ℕ) → new ≢ c → (s : Text) → Without c (replace_all s c new)
unfolding replace_all
replace_all-Without c new h [] = tt
replace_all-Without c new h (d ∷ s) =
    (λ e. ground (arith, h, e, eqb_iff d c), replace_all-Without c new h s)

replace_all-keeps :
    (c old new : ℕ) → new ≢ c → (s : Text) → Without c s → Without c (replace_all s old new)
unfolding replace_all
replace_all-keeps c old new h [] w = tt
replace_all-keeps c old new h (d ∷ s) w =
    (λ e. ground (arith, h, e, w.0, eqb_iff d old), replace_all-keeps c old new h s w.1)

abbrev pub IsPlain : Text → Type 0
IsPlain s = Without b'/' s × Without b'\\' s × (s ≢ [])

abbrev lacks : ℕ → Text → Bool
lacks c [] = true
lacks c (d ∷ s) = not (eqb d c) && lacks c s

pub lacks-Without : (c : ℕ) (s : Text) → lacks c s ≡ true → Without c s
lacks-Without c [] h = tt
lacks-Without c (d ∷ s) h =
    (λ e. ground (arith, h, e, eqb_iff d c), lacks-Without c s (ground arith))

IsPlain-if :
    (s : Text)
    → Without b'/' s
    → Without b'\\' s
    → IsPlain (if is_empty s then codes "upload.bin" else s)
unfolding codes
IsPlain-if [] h k = (
  lacks-Without b'/' (codes "upload.bin") refl,
  lacks-Without b'\\' (codes "upload.bin") refl,
  λ e. cc,
)
IsPlain-if (c ∷ s) h k = (h, k, λ e. cc)

-- A name that `sanitize` gives is not empty, and has no slash and no backslash.
sanitize-IsPlain : (name : Text) → IsPlain (sanitize name)
unfolding sanitize
sanitize-IsPlain name =
    IsPlain-if _
      (replace_all-keeps b'/' b'\\' b'_' (λ e. omega (arith, e)) _
        (replace_all-Without b'/' b'_' (λ e. omega (arith, e)) name))
      (replace_all-Without b'\\' b'_' (λ e. omega (arith, e)) _)

split_at_slash :
    (s s' t t' : Text)
    → Without b'/' s
    → Without b'/' s'
    → s ++ (b'/' ∷ t) ≡ s' ++ (b'/' ∷ t')
    → (s ≡ s') × (t ≡ t')
split_at_slash [] [] t t' h h' e = (refl, cc)
split_at_slash [] (c ∷ s') t t' h h' e = absurd (h'.0 cc)
split_at_slash (c ∷ s) [] t t' h h' e = absurd (h.0 cc)
split_at_slash (c ∷ s) (d ∷ s') t t' h h' e =
    let (p, q) = split_at_slash s s' t t' h.1 h'.1 cc in (cc, q)

-- Two uploads whose ids have no slash have different keys, unless both the ids and the sanitized
-- names are the same.
pub upload_key-injective :
    (id id' name name' : Text)
    → Without b'/' id
    → Without b'/' id'
    → upload_key id name ≡ upload_key id' name'
    → (id ≡ id') × (sanitize name ≡ sanitize name')
unfolding upload_key codes
upload_key-injective id id' name name' h h' e =
    split_at_slash id id' (sanitize name) (sanitize name') h h' cc
