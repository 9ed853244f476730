-- ===== src/Gateway/Form/Params.antt =====
-- `parseParams` of services/api-gateway/internal/httpapi/handlers.go, against the ranges of the
-- object params in specs/schemas/job.schema.json.
use media_forge.Prelude.{
  ℕ, ◌≡◌, ◌⊎◌, inl, inr, refl, Bool, true, false, ◌&&◌, Option, none, some, [], ℤ, pos, leℤ, arith,
  if◌then◌else◌,
}
use media_forge.Text.{Text, codes}
use media_forge.Text.Equality.{eq_iff}
use media_forge.Float.{Float64, float_le, float_zero, float_half, float_twenty}
use media_forge.Gateway.Contract.{JobParams}
use media_forge.Gateway.Form.{
  in_range, in_float_range, known_format, given, params_given, parse_params, form_int,
}

abbrev pub Within : ℕ → ℕ → ℤ → Type 0
Within low high n = (leℤ (pos low) n ≡ true) × (leℤ n (pos high) ≡ true)

-- What the schema asks of each parameter; a zero is left out of the message.
pub record InSchema (p : JobParams) : Type 0 where
  pub resize_max_dim : (p.resize_max_dim ≡ pos 0) ⊎ Within 16 8000 p.resize_max_dim
  pub thumbnail_size : (p.thumbnail_size ≡ pos 0) ⊎ Within 16 2000 p.thumbnail_size
  pub resize_format :
      (p.resize_format ≡ [])
      ⊎ ((p.resize_format ≡ codes "jpeg")
          ⊎ ((p.resize_format ≡ codes "png") ⊎ (p.resize_format ≡ codes "webp")))
  pub quality : (p.quality ≡ pos 0) ⊎ Within 1 100 p.quality
  pub blur_sigma :
      (p.blur_sigma ≡ float_zero)
      ⊎ ((float_le float_half p.blur_sigma ≡ true) × (float_le p.blur_sigma float_twenty ≡ true))

given_if {ℓ κ} :
    {A : Type ℓ} (P : A → Type κ) (default a : A) (b : Bool)
    → (b ≡ true → P a)
    → (given default (if b then some a else none) ≡ default)
      ⊎ P (given default (if b then some a else none))
given_if P default a true h = inr (h refl)
given_if P default a false h = inl refl

both : (a b : Bool) → a && b ≡ true → (a ≡ true) × (b ≡ true)
both a b h = ground arith

given-in_range :
    (low high : ℕ) (o : Option ℤ)
    → (given (pos 0) (in_range low high o) ≡ pos 0)
      ⊎ Within low high (given (pos 0) (in_range low high o))
given-in_range low high none = inl refl
given-in_range low high (some n) = given_if (Within low high) (pos 0) n _ (both _ _)

given-in_float_range :
    (o : Option Float64)
    → (given float_zero (in_float_range o) ≡ float_zero)
      ⊎ ((float_le float_half (given float_zero (in_float_range o)) ≡ true)
          × (float_le (given float_zero (in_float_range o)) float_twenty ≡ true))
given-in_float_range none = inl refl
given-in_float_range (some f) =
    given_if (λ x. (float_le float_half x ≡ true) × (float_le x float_twenty ≡ true)) float_zero f _
      (both _ _)

abbrev IsFormat : Text → Type 0
IsFormat x = (x ≡ codes "jpeg") ⊎ ((x ≡ codes "png") ⊎ (x ≡ codes "webp"))

given-known_format :
    (x : Text) → (given [] (known_format x) ≡ []) ⊎ IsFormat (given [] (known_format x))
given-known_format x = given_if IsFormat [] x _ (λ h.
    ground (arith, h, eq_iff x (codes "jpeg"), eq_iff x (codes "png"), eq_iff x (codes "webp")))

params_given-eq :
    (dim size : Option ℤ) (format : Option Text) (quality : Option ℤ) (sigma : Option Float64)
    (p : JobParams)
    → params_given dim size format quality sigma ≡ some p
    → p ≡ record {
      resize_max_dim = given (pos 0) dim;
      thumbnail_size = given (pos 0) size;
      resize_format = given [] format;
      quality = given (pos 0) quality;
      blur_sigma = given float_zero sigma;
    }
unfolding params_given
params_given-eq dim size format quality sigma p e = ground arith

-- The parameters of a job, where it has some, are in the ranges of the schema, or zero.
pub parse_params-InSchema :
    (fold : ℕ → ℕ) (parse_float : Text → Option Float64) (value : Text → Text) (p : JobParams)
    → parse_params fold parse_float value ≡ some p
    → InSchema p
unfolding parse_params
parse_params-InSchema fold parse_float value p e = rw (params_given-eq _ _ _ _ _ p e) (record {
  resize_max_dim = given-in_range 16 8000 (form_int (value (codes "resize_max_dim")));
  thumbnail_size = given-in_range 16 2000 (form_int (value (codes "thumbnail_size")));
  resize_format = given-known_format _;
  quality = given-in_range 1 100 (form_int (value (codes "quality")));
  blur_sigma = given-in_float_range _;
})
