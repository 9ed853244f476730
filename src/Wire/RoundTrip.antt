-- ===== src/Wire/RoundTrip.antt =====
-- What the image worker reads from a message is the job that the gateway has written
-- (services/api-gateway/internal/media/contract.go, services/worker-image/internal/broker/broker.go).
use media_forge.Prelude.{
  ℕ, ◌≡◌, ◌⊎◌, inl, inr, refl, ap, ◌∙◌, true, false, Option, none, some, [], ℤ, pos, negsuc, leℤ,
  max_int,
}
use media_forge.Text.{Text, codes, ◌==◌}
use media_forge.Float.{Float64, float_zero}
use media_forge.Strconv.{atoi, format_int}
use media_forge.Strconv.Decimal.{atoi-format_int}
use media_forge.Json.{
  Value, object, Members, no_members, fold_name, exact_field, field_of, into_struct,
}
use media_forge.Gateway.Contract as Gateway
use media_forge.Gateway.Encode.{is_zero_float, params_value, with_params, job_value}
use media_forge.Worker.Consume as Worker
use media_forge.Worker.Decode.{updated, no_params, set_param, set_member, job_from}
use media_forge.Wire.{params_on_worker, params_if_any, on_worker}
use media_forge.Wire.Steps.{int-step, text-step, texts-step, number-step}

abbrev pub FitsInt : ℤ → Type 0
FitsInt n = (leℤ (negsuc max_int) n ≡ true) × (leℤ n (pos max_int) ≡ true)

module _ (fold : ℕ → ℕ) (format_float : Float64 → Text) (parse_float : Text → Option Float64) where
  -- A float64 is +0, or it is not 0 and is read back from how it is written.
  abbrev pub IsReadBack : Float64 → Type 0
  IsReadBack f =
      (f ≡ float_zero) ⊎ ((is_zero_float f ≡ false) × (parse_float (format_float f) ≡ some f))

  pub record FitsParams (p : Gateway.JobParams) : Type 0 where
    pub resize_max_dim : FitsInt p.resize_max_dim
    pub thumbnail_size : FitsInt p.thumbnail_size
    pub quality : FitsInt p.quality
    pub blur_sigma : IsReadBack p.blur_sigma

  read_int : (n : ℤ) → FitsInt n → atoi (format_int n) ≡ some n
  read_int n h = atoi-format_int n h.0 h.1

  omitted-put : (f : Float64) → IsReadBack f → is_zero_float f ≡ true → f ≡ float_zero
  omitted-put f (inl z) h = z
  omitted-put f (inr r) h = absurd cc

  read_float :
      (f : Float64) → IsReadBack f → is_zero_float f ≡ false → parse_float (format_float f) ≡ some f
  read_float f (inl z) h = absurd cc
  read_float f (inr r) h = r.1

  into_params_value :
      (p : Gateway.JobParams)
      → FitsParams p
      → into_struct (set_param fold parse_float) (params_value format_float p) no_params
        ≡ some (params_on_worker p)
  unfolding params_value codes ◌==◌ fold_name exact_field field_of into_struct
  into_params_value p h =
      int-step set (codes "resize_max_dim") no_params _
        (λ n. record no_params { resize_max_dim = n }) p.resize_max_dim (λ v. refl) refl
        (read_int p.resize_max_dim h.resize_max_dim)
      ∙ int-step set (codes "thumbnail_size") first _ (λ n. record first { thumbnail_size = n })
          p.thumbnail_size (λ v. refl) refl (read_int p.thumbnail_size h.thumbnail_size)
      ∙ text-step set (codes "resize_format") second _ (λ t. record second { resize_format = t })
          p.resize_format (λ v. refl) refl
      ∙ int-step set (codes "quality") third _ (λ n. record third { quality = n }) p.quality
          (λ v. refl) refl (read_int p.quality h.quality)
      ∙ number-step set (codes "blur_sigma") fourth no_members
          (λ f. record fourth { blur_sigma = f }) p.blur_sigma (is_zero_float p.blur_sigma)
          (format_float p.blur_sigma)
          (λ e.
            ap (λ f. record fourth { blur_sigma = f }) (omitted-put p.blur_sigma h.blur_sigma e))
          (λ e.
            ap (updated λ f. record fourth { blur_sigma = f })
              (read_float p.blur_sigma h.blur_sigma e))
    where
      set : Text → Value → Worker.JobParams → Option Worker.JobParams
      set = set_param fold parse_float

      first : Worker.JobParams
      first = record no_params { resize_max_dim = p.resize_max_dim }

      second : Worker.JobParams
      second = record first { thumbnail_size = p.thumbnail_size }

      third : Worker.JobParams
      third = record second { resize_format = p.resize_format }

      fourth : Worker.JobParams
      fourth = record third { quality = p.quality }

  params-step :
      (q : Option Gateway.JobParams) (s : Worker.Job) (rest : Members)
      → ((p : Gateway.JobParams) → q ≡ some p → FitsParams p)
      → into_struct
          (set_member fold parse_float)
          (with_params format_float q rest)
          (record s { params = none })
        ≡ into_struct (set_member fold parse_float) rest (record s { params = params_if_any q })
  unfolding codes ◌==◌ fold_name exact_field field_of into_struct
  params-step none s rest h = refl
  params-step (some p) s rest h = rw (into_params_value p (h p refl)) refl

  pub job_from-job_value :
      (j : Gateway.Job)
      → FitsInt j.size_bytes
      → ((p : Gateway.JobParams) → j.params ≡ some p → FitsParams p)
      → job_from fold parse_float (object (job_value format_float j)) ≡ some (on_worker j)
  unfolding job_from job_value codes ◌==◌ fold_name exact_field field_of into_struct
  job_from-job_value j size h = rw (read_int j.size_bytes size) (
      texts-step set (codes "operations") plain _ (λ l. record plain { operations = l })
        j.operations (λ v. refl) refl
      ∙ params-step j.params (record plain { operations = j.operations }) _ h)
    where
      set : Text → Value → Worker.Job → Option Worker.Job
      set = set_member fold parse_float

      plain : Worker.Job
      plain = record {
        id = j.id;
        kind = j.kind;
        status = j.status;
        source_key = j.source_key;
        source_mime = j.source_mime;
        size_bytes = j.size_bytes;
        operations = [];
        params = none;
      }
