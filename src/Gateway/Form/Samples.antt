-- ===== src/Gateway/Form/Samples.antt =====
-- The form's helpers at concrete texts.
use media_forge.Prelude.{ℕ, ◌≡◌, refl, Option, none, some, [], ◌∷◌, pos, negsuc}
use media_forge.Text.{
  Text, codes, ◌==◌, is_space, trim_left, trim_right, trim_space, to_lower, lower, has_prefix,
  split, from_last, replace_all,
}
use media_forge.Float.{Float64, float_le, is_nan}
use media_forge.Gateway.Contract.{JobParams}
use media_forge.Strconv.{atoi, digits}
use media_forge.Gateway.Form.{
  form_int, form_float, ext, sanitize, decodable_image, parse_operations, params_given,
  resolve_kind, detect_content_type, parse_params, upload_key, limit_of,
}
use media_forge.Gateway.Form.Names.{upload_key-injective}
use media_forge.Gateway.Form.Params.{InSchema, parse_params-InSchema}

form : Unit {0}
unfolding codes ◌==◌ is_space trim_left trim_right trim_space to_lower lower has_prefix split
    from_last replace_all float_le is_nan atoi digits form_int form_float ext sanitize
    decodable_image parse_operations params_given resolve_kind detect_content_type parse_params
    upload_key
form = tt

abbrev same : ℕ → ℕ
same c = c

abbrev no_float : Text → Option Float64
no_float s = none

atoi_tests :
    (atoi (codes "+42") ≡ some (pos 42))
    × (atoi (codes "-7") ≡ some (negsuc 6))
    × (atoi (codes "4x") ≡ none)
    × (atoi (codes "-") ≡ none)
    × (atoi (codes "9223372036854775807") ≡ some (pos 9223372036854775807))
    × (atoi (codes "9223372036854775808") ≡ none)
    × (atoi (codes "-9223372036854775808") ≡ some (negsuc 9223372036854775807))
unfolding form
atoi_tests = (refl, refl, refl, refl, refl, refl, refl)

name_tests :
    (sanitize (codes "a/b\\c.png") ≡ codes "a_b_c.png")
    × (sanitize [] ≡ codes "upload.bin")
    × (ext (codes "a.tar.gz") ≡ codes ".gz")
    × (ext (codes "a") ≡ [])
    × (resolve_kind same [] (codes "scan.TIF") ≡ codes "ocr")
    × (resolve_kind same [] (codes "cat.png") ≡ codes "image")
    × (resolve_kind same (codes "OCR") (codes "cat.png") ≡ codes "ocr")
    × (detect_content_type same (codes "application/octet-stream") (codes "x.JPG")
        ≡ codes "image/jpeg")
unfolding form
name_tests = (refl, refl, refl, refl, refl, refl, refl, refl)

operation_tests :
    (parse_operations (codes " resize ,,blur") ≡ codes "resize" ∷ codes "blur" ∷ [])
    × (parse_operations (codes " ") ≡ codes "resize" ∷ codes "thumbnail" ∷ codes "webp" ∷ [])
unfolding form
operation_tests = (refl, refl)

limit_tests :
    (limit_of (form_int (codes "500")) ≡ pos 100)
    × (limit_of (form_int (codes "0")) ≡ pos 24)
    × (limit_of (form_int (codes " 7 ")) ≡ pos 7)
unfolding form
limit_tests = (refl, refl, refl)

upload_key-injective_example :
    (codes "j1" ≡ codes "j1") × (sanitize (codes "a/b") ≡ sanitize (codes "a\\b"))
unfolding form
upload_key-injective_example =
    upload_key-injective (codes "j1") (codes "j1") (codes "a/b") (codes "a\\b")
      ((λ e. cc), ((λ e. cc), tt)) ((λ e. cc), ((λ e. cc), tt)) refl

abbrev ninety : JobParams
ninety = record {
  resize_max_dim = pos 90;
  thumbnail_size = pos 90;
  resize_format = [];
  quality = pos 90;
  blur_sigma = 0;
}

parse_params-InSchema_example : InSchema ninety
unfolding form
parse_params-InSchema_example = parse_params-InSchema same no_float (λ key. codes "90") ninety refl
