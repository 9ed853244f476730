-- ===== src/Worker/Processor.antt =====
-- services/worker-image/internal/processor/processor.go. The image libraries are not part of the
-- repository: `Imaging` is what the processor calls of them.
pub mod Variants
use media_forge.Prelude.{
  ℕ, String, ◌⊎◌, inl, inr, Option, none, some, List, [], ◌∷◌, ◌++◌, ℤ, pos, leℤ, if◌then◌else◌,
}
use media_forge.Text.{Text, codes, ◌==◌}
use media_forge.Float.{Float64, float_le, float_zero, float_three}
use media_forge.Database.{Metadata}
use media_forge.Errors.{Error, wrapped, Result, ok, err, ◌>>=◌}

abbrev pub Bytes : Type 0
Bytes = List ℕ

pub record Imaging : Type 1 where
  pub Image : Type 0
  -- `image.Decode`: the image, or the name of the format and the error
  pub decode : Bytes → Image ⊎ (Text × Error)
  -- `imaging.Fit` and `imaging.Thumbnail` with a width, a height and the Lanczos filter
  pub fit : Image → ℤ → ℤ → Image
  pub thumbnail : Image → ℤ → ℤ → Image
  pub grayscale : Image → Image
  -- `imaging.Blur` with the bits of a float64
  pub blur : Image → ℕ → Image
  pub encode_png : Image → Result Bytes
  pub encode_jpeg : Image → ℤ → Result Bytes
  pub encode_webp : Image → Result Bytes
  -- `Bounds().Dx()` and `Bounds().Dy()`
  pub width : Image → ℤ
  pub height : Image → ℤ

-- `Result` of the processor: one variant of the image.
pub record Variant : Type 0 where
  pub name : Text
  pub content_type : Text
  pub bytes : Bytes
  pub metadata : Metadata

pub record Options : Type 0 where
  pub thumbnail_size : ℤ
  pub resize_max_dim : ℤ

pub record Params : Type 0 where
  pub resize_max_dim : ℤ
  pub thumbnail_size : ℤ
  pub resize_format : Text
  pub quality : ℤ
  pub blur_sigma : Float64

-- `New`: options that are not positive get their defaults.
unfoldable pub new : Options → Options
new o = record {
  thumbnail_size = if leℤ o.thumbnail_size (pos 0) then pos 256 else o.thumbnail_size;
  resize_max_dim = if leℤ o.resize_max_dim (pos 0) then pos 1600 else o.resize_max_dim;
}

-- A parameter of the job, if it is positive, and the option otherwise.
abbrev pub override : ℤ → ℤ → ℤ
override option param = if leℤ param (pos 0) then option else param

module _ (I : Imaging) where
  open I use {Image}

  unfoldable pub dims : Image → Metadata
  unfolding codes
  dims img = (codes "width", I.width img) ∷ (codes "height", I.height img) ∷ []

  -- What every operation does with its encoded image.
  unfoldable pub variant : String → String → String → Image → Result Bytes → Result Variant
  unfolding codes dims
  variant name content_type context dst (ok bytes) = ok (record {
    name = codes name;
    content_type = codes content_type;
    bytes = bytes;
    metadata = dims dst;
  })
  variant name content_type context dst (err e) = err (wrapped (codes context) e)

  unfoldable pub resize : Image → ℤ → Text → ℤ → Result Variant
  resize img max_dim format quality =
      let dst = I.fit img max_dim max_dim in
      if format == codes "png"
      then variant "resized" "image/png" "encode resized (png)" dst (I.encode_png dst)
      else if format == codes "webp"
      then variant "resized" "image/webp" "encode resized (webp)" dst (I.encode_webp dst)
      else variant "resized" "image/jpeg" "encode resized (jpeg)" dst
          (I.encode_jpeg dst (if leℤ quality (pos 0) then pos 85 else quality))

  unfoldable pub thumbnail : Image → ℤ → Result Variant
  thumbnail img size =
      let dst = I.thumbnail img size size in
      variant "thumbnail" "image/png" "encode thumbnail" dst (I.encode_png dst)

  unfoldable pub webp : Image → ℤ → Result Variant
  webp img max_dim =
      let dst = I.fit img max_dim max_dim in
      variant "webp" "image/webp" "encode webp" dst (I.encode_webp dst)

  unfoldable pub grayscale : Image → Result Variant
  grayscale img =
      let dst = I.grayscale img in
      variant "grayscale" "image/png" "encode grayscale" dst (I.encode_png dst)

  unfoldable pub blur : Image → Float64 → Result Variant
  blur img sigma =
      let dst = I.blur img (if float_le sigma float_zero then float_three else sigma) in
      variant "blur" "image/png" "encode blur" dst (I.encode_png dst)

  -- The `switch` of `Process`: an operation that is not known has no result.
  unfoldable pub apply : Options → Params → Image → Text → Option (Result Variant)
  apply o p img op =
      let max_dim = override o.resize_max_dim p.resize_max_dim in
      let size = override o.thumbnail_size p.thumbnail_size in
      if op == codes "resize"
      then some (resize img max_dim p.resize_format p.quality)
      else if op == codes "thumbnail"
      then some (thumbnail img size)
      else if op == codes "webp"
      then some (webp img max_dim)
      else if op == codes "grayscale"
      then some (grayscale img)
      else if op == codes "blur"
      then some (blur img p.blur_sigma)
      else none

  abbrev pub collect : Option (Result Variant) → Result (List Variant) → Result (List Variant)
  collect none rest = rest
  collect (some (ok v)) rest = rest >>= λ vs. ok (v ∷ vs)
  collect (some (err e)) rest = err e

  -- The loop of `Process`; the first error ends it.
  unfoldable pub apply_all : Options → Params → Image → List Text → Result (List Variant)
  apply_all o p img [] = ok []
  apply_all o p img (op ∷ ops) = collect (apply o p img op) (apply_all o p img ops)

  abbrev pub process_decoded :
      Options → List Text → Params → Image ⊎ (Text × Error) → Result (List Variant)
  process_decoded o ops p (inl img) = apply_all o p img ops
  process_decoded o ops p (inr (format, e)) =
      err (wrapped (codes "decode image (format=" ++ format ++ codes ")") e)

  unfoldable pub process : Options → Bytes → List Text → Params → Result (List Variant)
  process o src ops p = process_decoded o ops p (I.decode src)
