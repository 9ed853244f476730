-- ===== src/Worker/Decode.antt =====
-- What `json.Unmarshal` makes of a value in `handle` of
-- services/worker-image/internal/broker/broker.go, by the tags of its `Job` and `JobParams`.
-- `parse_float` is `strconv.ParseFloat` with 64 bits.
use media_forge.Prelude.{ℕ, Option, none, some, List, [], ◌∷◌, pos}
use media_forge.Text.{Text, codes}
use media_forge.Float.{Float64, float_zero}
use media_forge.Json.{
  Value, null, boolean, number, string, array, object, into_text, into_int, into_texts, field_of,
  into_struct,
}
use media_forge.Worker.Consume.{Job, JobParams}

pub data ParamsField : Type 0 where
  resize_max_dim : ParamsField
  thumbnail_size : ParamsField
  resize_format : ParamsField
  quality : ParamsField
  blur_sigma : ParamsField

abbrev pub params_fields : List (Text × ParamsField)
params_fields =
    (codes "resize_max_dim", resize_max_dim)
    ∷ (codes "thumbnail_size", thumbnail_size)
    ∷ (codes "resize_format", resize_format)
    ∷ (codes "quality", quality)
    ∷ (codes "blur_sigma", blur_sigma)
    ∷ []

pub data JobField : Type 0 where
  id : JobField
  kind : JobField
  status : JobField
  source_key : JobField
  source_mime : JobField
  size_bytes : JobField
  operations : JobField
  params : JobField

abbrev pub job_fields : List (Text × JobField)
job_fields =
    (codes "job_id", id)
    ∷ (codes "kind", kind)
    ∷ (codes "status", status)
    ∷ (codes "source_key", source_key)
    ∷ (codes "source_mime", source_mime)
    ∷ (codes "size_bytes", size_bytes)
    ∷ (codes "operations", operations)
    ∷ (codes "params", params)
    ∷ []

abbrev pub no_params : JobParams
no_params = record {
  resize_max_dim = pos 0;
  thumbnail_size = pos 0;
  resize_format = [];
  quality = pos 0;
  blur_sigma = float_zero;
}

abbrev pub no_job : Job
no_job = record {
  id = [];
  kind = [];
  status = [];
  source_key = [];
  source_mime = [];
  size_bytes = pos 0;
  operations = [];
  params = none;
}

abbrev pub updated {ℓ κ} : {A : Type ℓ} {S : Type κ} → (A → S) → Option A → Option S
updated f none = none
updated f (some a) = some (f a)

module _ (fold : ℕ → ℕ) (parse_float : Text → Option Float64) where
  abbrev pub into_float : Float64 → Value → Option Float64
  into_float old null = some old
  into_float old (number n) = parse_float n
  into_float old (boolean b) = none
  into_float old (string s) = none
  into_float old (array vs) = none
  into_float old (object ms) = none

  abbrev pub set_params_field : Option ParamsField → Value → JobParams → Option JobParams
  set_params_field none v p = some p
  set_params_field (some resize_max_dim) v p =
      updated (λ n. record p { resize_max_dim = n }) (into_int p.resize_max_dim v)
  set_params_field (some thumbnail_size) v p =
      updated (λ n. record p { thumbnail_size = n }) (into_int p.thumbnail_size v)
  set_params_field (some resize_format) v p =
      updated (λ s. record p { resize_format = s }) (into_text p.resize_format v)
  set_params_field (some quality) v p =
      updated (λ n. record p { quality = n }) (into_int p.quality v)
  set_params_field (some blur_sigma) v p =
      updated (λ f. record p { blur_sigma = f }) (into_float p.blur_sigma v)

  abbrev pub set_param : Text → Value → JobParams → Option JobParams
  set_param key v p = set_params_field (field_of fold params_fields key) v p

  abbrev pub params_or_new : Option JobParams → JobParams
  params_or_new none = no_params
  params_or_new (some p) = p

  -- A pointer to a struct: null makes it nil, and an object fills what it points to.
  abbrev pub into_params : Option JobParams → Value → Option (Option JobParams)
  into_params old null = some none
  into_params old (object ms) = updated some (into_struct set_param ms (params_or_new old))
  into_params old (boolean b) = none
  into_params old (number n) = none
  into_params old (string s) = none
  into_params old (array vs) = none

  abbrev pub set_job_field : Option JobField → Value → Job → Option Job
  set_job_field none v j = some j
  set_job_field (some id) v j = updated (λ s. record j { id = s }) (into_text j.id v)
  set_job_field (some kind) v j = updated (λ s. record j { kind = s }) (into_text j.kind v)
  set_job_field (some status) v j = updated (λ s. record j { status = s }) (into_text j.status v)
  set_job_field (some source_key) v j =
      updated (λ s. record j { source_key = s }) (into_text j.source_key v)
  set_job_field (some source_mime) v j =
      updated (λ s. record j { source_mime = s }) (into_text j.source_mime v)
  set_job_field (some size_bytes) v j =
      updated (λ n. record j { size_bytes = n }) (into_int j.size_bytes v)
  set_job_field (some operations) v j =
      updated (λ ops. record j { operations = ops }) (into_texts v)
  set_job_field (some params) v j = updated (λ p. record j { params = p }) (into_params j.params v)

  abbrev pub set_member : Text → Value → Job → Option Job
  set_member key v j = set_job_field (field_of fold job_fields key) v j

  -- The value of a message's body, into a new job
  unfoldable pub job_from : Value → Option Job
  job_from null = some no_job
  job_from (object ms) = into_struct set_member ms no_job
  job_from (boolean b) = none
  job_from (number n) = none
  job_from (string s) = none
  job_from (array vs) = none
