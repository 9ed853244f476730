-- ===== src/Gateway/Form.antt =====
-- The helpers of services/api-gateway/internal/httpapi/handlers.go that read the form of an upload
-- and the query of a listing. `fold` is the table of lower-case letters above
-- ASCII, and `parse_float` is `strconv.ParseFloat` with 64 bits, with no value for an error.
pub mod Numbers
pub mod Names
pub mod Operations
pub mod Params
mod Samples
use media_forge.Prelude.{
  ℕ, ◌+◌, ◌-◌, ◌*◌, String, Bool, true, false, not, ◌&&◌, ◌||◌, Option, none, some, List, [], ◌∷◌,
  ◌++◌, ℤ, pos, negsuc, leb, eqb, leℤ, max_int, zero, suc, if◌then◌else◌,
}
use media_forge.Text.{
  Text, codes, ◌==◌, is_empty, trim_space, to_lower, has_prefix, split, from_last, replace_all,
}
use media_forge.Float.{Float64, float_le, float_zero, float_half, float_twenty}
use media_forge.Strconv.{atoi}
use media_forge.Gateway.Contract.{JobParams}

-- `formInt` and `formFloat`, of the value of a field
unfoldable pub form_int : Text → Option ℤ
form_int value = let v = trim_space value in if is_empty v then none else atoi v

unfoldable pub form_float : (Text → Option Float64) → Text → Option Float64
form_float parse_float value =
    let v = trim_space value in if is_empty v then none else parse_float v

-- `ext`
unfoldable pub ext : Text → Text
ext name = elim (from_last name b'.') [ some e ↦ e | none ↦ [] ]

unfoldable pub sanitize : Text → Text
sanitize name =
    let plain = replace_all (replace_all name b'/' b'_') b'\\' b'_' in
    if is_empty plain then codes "upload.bin" else plain

-- The key under which `handleSubmit` stores an upload.
unfoldable pub upload_key : Text → Text → Text
upload_key id filename = codes "uploads/" ++ (id ++ (codes "/" ++ sanitize filename))

-- `decodableImage`
unfoldable pub decodable_image : Text → Bool
decodable_image content_type =
    has_prefix content_type (codes "image/") || content_type == codes "application/octet-stream"

abbrev pub nonempty_pieces : List Text → List Text
nonempty_pieces [] = []
nonempty_pieces (p ∷ ps) =
    let rest = nonempty_pieces ps in
    let op = trim_space p in if is_empty op then rest else op ∷ rest

-- `parseOperations`
unfoldable pub parse_operations : Text → List Text
parse_operations raw =
    if is_empty (trim_space raw)
    then codes "resize" ∷ codes "thumbnail" ∷ codes "webp" ∷ []
    else nonempty_pieces (split raw b',')

abbrev pub in_range : ℕ → ℕ → Option ℤ → Option ℤ
in_range low high none = none
in_range low high (some n) = if leℤ (pos low) n && leℤ n (pos high) then some n else none

abbrev pub in_float_range : Option Float64 → Option Float64
in_float_range none = none
in_float_range (some f) = if float_le float_half f && float_le f float_twenty then some f else none

abbrev pub known_format : Text → Option Text
known_format format =
    if format == codes "jpeg" || format == codes "png" || format == codes "webp"
    then some format
    else none

abbrev pub given {ℓ} : {A : Type ℓ} → A → Option A → A
given default none = default
given default (some a) = a

abbrev pub is_given {ℓ} : {A : Type ℓ} → Option A → Bool
is_given none = false
is_given (some a) = true

-- The end of `parseParams`, of the values that passed its tests.
unfoldable pub params_given :
    Option ℤ → Option ℤ → Option Text → Option ℤ → Option Float64 → Option JobParams
params_given dim size format quality sigma =
    if is_given dim || is_given size || is_given format || is_given quality || is_given sigma
    then some (record {
      resize_max_dim = given (pos 0) dim;
      thumbnail_size = given (pos 0) size;
      resize_format = given [] format;
      quality = given (pos 0) quality;
      blur_sigma = given float_zero sigma;
    })
    else none

module _ (fold : ℕ → ℕ) where
  -- `resolveKind`
  unfoldable pub resolve_kind : Text → Text → Text
  resolve_kind explicit filename =
      if not (is_empty explicit)
      then to_lower fold explicit
      else let e = to_lower fold (ext filename) in
        if e == codes ".pdf" || e == codes ".tif" || e == codes ".tiff"
        then codes "ocr"
        else codes "image"

  -- `detectContentType`
  unfoldable pub detect_content_type : Text → Text → Text
  detect_content_type header filename =
      if not (is_empty header) && not (header == codes "application/octet-stream")
      then header
      else let e = to_lower fold (ext filename) in
        if e == codes ".png"
        then codes "image/png"
        else if e == codes ".jpg" || e == codes ".jpeg"
        then codes "image/jpeg"
        else if e == codes ".webp"
        then codes "image/webp"
        else if e == codes ".pdf"
        then codes "application/pdf"
        else codes "application/octet-stream"

  -- `parseParams`; `value` is `r.FormValue`.
  unfoldable pub parse_params : (Text → Option Float64) → (Text → Text) → Option JobParams
  parse_params parse_float value =
      params_given (in_range 16 8000 (form_int (value (codes "resize_max_dim"))))
        (in_range 16 2000 (form_int (value (codes "thumbnail_size"))))
        (known_format (to_lower fold (trim_space (value (codes "resize_format")))))
        (in_range 1 100 (form_int (value (codes "quality"))))
        (in_float_range (form_float parse_float (value (codes "blur_sigma"))))

-- The paging of `handleList`.
abbrev pub limit_of : Option ℤ → ℤ
limit_of none = pos 24
limit_of (some n) = if leℤ (pos 1) n then (if leℤ n (pos 100) then n else pos 100) else pos 24

abbrev pub offset_of : Option ℤ → ℤ
offset_of none = pos 0
offset_of (some n) = if leℤ (pos 0) n then n else pos 0
