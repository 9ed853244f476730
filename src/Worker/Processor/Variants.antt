-- ===== src/Worker/Processor/Variants.antt =====
-- Which variants `Process` of services/worker-image/internal/processor/processor.go makes.
use media_forge.Prelude.{
  String, ◌||◌, ◌≡◌, refl, sym, ap, ◌∙◌, ◌⊎◌, inl, inr, false, Option, none, some, List, [], ◌∷◌,
  map, ℤ, arith, All, Bool-cases, if◌then◌else◌,
}
use media_forge.Text.{Text, codes, ◌==◌}
use media_forge.Text.Equality.{eq_iff}
use media_forge.Float.{Float64}
use media_forge.Errors.{Error, Result, ok, err}
use media_forge.Worker.Processor.{
  Bytes, Imaging, Variant, Options, Params, apply, apply_all, collect, process, process_decoded,
  resize, thumbnail, webp, grayscale, blur, variant,
}

-- The name of the variant that an operation asks for.
abbrev pub variant_name : Text → Option Text
variant_name op =
    if op == codes "resize"
    then some (codes "resized")
    else if op == codes "thumbnail"
        || op == codes "webp"
        || op == codes "grayscale"
        || op == codes "blur"
    then some op
    else none

-- The operation of a variant's name.
abbrev operation : Text → Text
operation name = if name == codes "resized" then codes "resize" else name

resized_apart :
    (codes "thumbnail" == codes "resized" ≡ false)
    × (codes "webp" == codes "resized" ≡ false)
    × (codes "grayscale" == codes "resized" ≡ false)
    × (codes "blur" == codes "resized" ≡ false)
unfolding codes ◌==◌
resized_apart = (refl, refl, refl, refl)

operation-variant_name : (op name : Text) → variant_name op ≡ some name → operation name ≡ op
operation-variant_name op name h = ground (
  arith,
  h,
  resized_apart,
  eq_iff op (codes "resize"),
  eq_iff op (codes "thumbnail"),
  eq_iff op (codes "webp"),
  eq_iff op (codes "grayscale"),
  eq_iff op (codes "blur"),
  eq_iff (codes "resized") (codes "resized"),
)

abbrev then_names : Option Text → List Text → List Text
then_names none names = names
then_names (some name) names = name ∷ names

-- The names of the variants that a list of operations asks for.
abbrev pub variant_names : List Text → List Text
variant_names [] = []
variant_names (op ∷ ops) = then_names (variant_name op) (variant_names ops)

abbrev HasName : Text → Result Variant → Type 0
HasName name (ok v) = v.name ≡ name
HasName name (err e) = Unit

module _ (I : Imaging) where
  open I use {Image}

  variant-HasName :
      (name content_type context : String) (dst : Image) (r : Result Bytes)
      → HasName (codes name) (variant I name content_type context dst r)
  unfolding variant
  variant-HasName name content_type context dst (ok bytes) = refl
  variant-HasName name content_type context dst (err e) = tt

  resize-HasName :
      (img : Image) (max_dim : ℤ) (format : Text) (quality : ℤ)
      → HasName (codes "resized") (resize I img max_dim format quality)
  unfolding resize
  resize-HasName img max_dim format quality = elim (Bool-cases (format == codes "png")) [
    | inl png ↦ rw (png, HasName) (variant-HasName "resized" _ _ _ _)
    | inr other ↦ elim (Bool-cases (format == codes "webp")) [
      | inl webp ↦ rw (other, webp, HasName) (variant-HasName "resized" _ _ _ _)
      | inr jpeg ↦ rw (other, jpeg, HasName) (variant-HasName "resized" _ _ _ _)
    ]
  ]

  thumbnail-HasName : (img : Image) (size : ℤ) → HasName (codes "thumbnail") (thumbnail I img size)
  unfolding thumbnail
  thumbnail-HasName img size = variant-HasName "thumbnail" _ _ _ _

  webp-HasName : (img : Image) (max_dim : ℤ) → HasName (codes "webp") (webp I img max_dim)
  unfolding webp
  webp-HasName img max_dim = variant-HasName "webp" _ _ _ _

  grayscale-HasName : (img : Image) → HasName (codes "grayscale") (grayscale I img)
  unfolding grayscale
  grayscale-HasName img = variant-HasName "grayscale" _ _ _ _

  blur-HasName : (img : Image) (sigma : Float64) → HasName (codes "blur") (blur I img sigma)
  unfolding blur
  blur-HasName img sigma = variant-HasName "blur" _ _ _ _

  -- What `apply` gives for an operation, against `variant_name`.
  abbrev Applied : Text → Option (Result Variant) → Type 0
  Applied op none = variant_name op ≡ none
  Applied op (some (ok v)) = variant_name op ≡ some v.name
  Applied op (some (err e)) = Unit

  some-Applied :
      (op name : Text) (r : Result Variant)
      → HasName name r
      → variant_name op ≡ some name
      → Applied op (some r)
  some-Applied op name (ok v) h e = e ∙ ap some (sym h)
  some-Applied op name (err x) h e = tt

  module _ (o : Options) (p : Params) (img : Image) where
    apply-Applied : (op : Text) → Applied op (apply I o p img op)
    unfolding apply
    apply-Applied op = elim (Bool-cases (op == codes "resize")) [
      | inl e ↦
          rw (e, Applied) (some-Applied op (codes "resized") _ (resize-HasName _ _ _ _) (rw e))
      | inr n₁ ↦ elim (Bool-cases (op == codes "thumbnail")) [
        | inl e ↦
            rw (n₁, e, Applied)
              (some-Applied op (codes "thumbnail") _ (thumbnail-HasName _ _)
                (ground (arith, eq_iff op (codes "thumbnail"))))
        | inr n₂ ↦ elim (Bool-cases (op == codes "webp")) [
          | inl e ↦
              rw (n₁, n₂, e, Applied)
                (some-Applied op (codes "webp") _ (webp-HasName _ _)
                  (ground (arith, eq_iff op (codes "webp"))))
          | inr n₃ ↦ elim (Bool-cases (op == codes "grayscale")) [
            | inl e ↦
                rw (n₁, n₂, n₃, e, Applied)
                  (some-Applied op (codes "grayscale") _ (grayscale-HasName _)
                    (ground (arith, eq_iff op (codes "grayscale"))))
            | inr n₄ ↦ elim (Bool-cases (op == codes "blur")) [
              | inl e ↦
                  rw (n₁, n₂, n₃, n₄, e, Applied)
                    (some-Applied op (codes "blur") _ (blur-HasName _ _)
                      (ground (arith, eq_iff op (codes "blur"))))
              | inr n₅ ↦ rw (n₁, n₂, n₃, n₄, n₅, Applied) (ground arith)
            ]
          ]
        ]
      ]
    ]

    -- Variants of one name are equal, whatever the operations.
    apply-Variant_of_name :
        (op op' : Text) (v v' : Variant)
        → apply I o p img op ≡ some (ok v)
        → apply I o p img op' ≡ some (ok v')
        → v.name ≡ v'.name
        → v ≡ v'
    apply-Variant_of_name op op' v v' h h' e =
        let n : variant_name op ≡ some v.name = rw h at (apply-Applied op) in
        let n' : variant_name op' ≡ some v'.name = rw h' at (apply-Applied op') in
        let same : op ≡ op' =
          sym (operation-variant_name op v.name n)
          ∙ ap operation e
          ∙ operation-variant_name op' v'.name n' in
        cc (ap (apply I o p img) same)

    -- A variant that some operation made of the image.
    abbrev pub Made : Variant → Type 0
    Made v = (op : Text) × (apply I o p img op ≡ some (ok v))

    pub Made-unique : (v v' : Variant) → Made v → Made v' → v.name ≡ v'.name → v ≡ v'
    Made-unique v v' (op, h) (op', h') e = apply-Variant_of_name op op' v v' h h' e

    -- What is said of a list of variants, and of an error nothing.
    abbrev Agrees : List Text → Result (List Variant) → Type 0
    Agrees names (ok vs) = (map (λ v. v.name) vs ≡ names) × All Made vs
    Agrees names (err e) = Unit

    collect-Agrees :
        (op : Text) (names : List Text) (r : Option (Result Variant)) (rest : Result (List Variant))
        → apply I o p img op ≡ r
        → Applied op r
        → Agrees names rest
        → Agrees (then_names (variant_name op) names) (collect I r rest)
    collect-Agrees op names none rest e a h = rw a h
    collect-Agrees op names (some (ok v)) (ok vs) e a h =
        rw a (ap (λ l. v.name ∷ l) h.0, ((op, e), h.1))
    collect-Agrees op names (some (ok v)) (err x) e a h = tt
    collect-Agrees op names (some (err x)) rest e a h = tt

    apply_all-Agrees : (ops : List Text) → Agrees (variant_names ops) (apply_all I o p img ops)
    unfolding apply_all
    apply_all-Agrees [] = (refl, tt)
    apply_all-Agrees (op ∷ ops) =
        collect-Agrees op (variant_names ops) (apply I o p img op) (apply_all I o p img ops) refl
          (apply-Applied op) (apply_all-Agrees ops)

  module _ (o : Options) (src : Bytes) (ops : List Text) (p : Params) (vs : List Variant) where
    decoded-Agrees :
        (d : Image ⊎ (Text × Error))
        → process_decoded I o ops p d ≡ ok vs
        → (map (λ v. v.name) vs ≡ variant_names ops) × ((img : Image) × All (Made o p img) vs)
    decoded-Agrees (inl img) e =
        let agrees : Agrees o p img (variant_names ops) (ok vs) =
          rw e at (apply_all-Agrees o p img ops) in
        (agrees.0, (img, agrees.1))
    decoded-Agrees (inr (format, x)) e = cc

    -- `Process`, if it succeeds, makes one variant for each operation that it knows, in the order of
    -- the operations, and named for it.
    pub process-names : process I o src ops p ≡ ok vs → map (λ v. v.name) vs ≡ variant_names ops
    unfolding process
    process-names e = (decoded-Agrees (I.decode src) e).0

    pub process-Made : process I o src ops p ≡ ok vs → (img : Image) × All (Made o p img) vs
    unfolding process
    process-Made e = (decoded-Agrees (I.decode src) e).1
