-- ===== src/Worker/Handler.antt =====
-- The job handler of services/worker-image/cmd/worker/main.go. Logging and the histogram of
-- durations are left out.
pub mod Keeps
pub mod Statements
pub mod Frame
pub mod Events
pub mod Recorded
pub mod Stored
pub mod Success
pub mod Outcome
pub mod Uploads
mod Samples
use media_forge.Prelude.{
  ℕ, Bool, true, false, ◌||◌, Option, none, some, List, [], ◌∷◌, ◌++◌, ℤ, pos, leℤ, if◌then◌else◌,
}
use media_forge.Text.{Text, codes, ◌==◌}
use media_forge.Float.{float_zero}
use media_forge.Database.{NewArtifact}
use media_forge.Errors.{Error, wrapped, permanent, message, is_permanent, Result, ok, err}
use media_forge.Worker.Consume.{Job, JobParams}
use media_forge.Worker.Processor.{Bytes, Imaging, Options, Params, Variant, process}
use media_forge.Worker.Services.{
  Event, Services, World, Io, status_of, set_job_status, record_artifact, get, put, publish_event,
}

abbrev pub params_of : Option JobParams → Params
params_of none = record {
  resize_max_dim = pos 0;
  thumbnail_size = pos 0;
  resize_format = [];
  quality = pos 0;
  blur_sigma = float_zero;
}
params_of (some p) = record {
  resize_max_dim = p.resize_max_dim;
  thumbnail_size = p.thumbnail_size;
  resize_format = p.resize_format;
  quality = p.quality;
  blur_sigma = p.blur_sigma;
}

-- `processorParams`
abbrev pub processor_params : Job → Params
processor_params job = params_of job.params

unfoldable pub artifact_filename : Variant → Text
artifact_filename v =
    if v.content_type == codes "image/png"
    then v.name ++ codes ".png"
    else if v.content_type == codes "image/webp"
    then v.name ++ codes ".webp"
    else v.name ++ codes ".jpg"

abbrev pub artifact_key : Job → Variant → Text
artifact_key job v = codes "artifacts/" ++ (job.id ++ (codes "/" ++ artifact_filename v))

abbrev pub new_artifact : Job → Variant → ℤ → NewArtifact
new_artifact job v size = record {
  name = v.name;
  object_key = artifact_key job v;
  content_type = v.content_type;
  size_bytes = size;
  metadata = v.metadata;
}

-- An event of a job; the fields that the code leaves out are empty.
abbrev pub event : Job → Text → ℕ → Text → Text → Event
event job status progress text artifact = record {
  job_id = job.id;
  kind = job.kind;
  status = status;
  message = text;
  progress = progress;
  artifact = artifact;
  timestamp = 0;
}

-- The label that the deferred function of `handle` counts.
unfoldable pub outcome : Option Error → ℤ → Text
outcome none attempt = codes "success"
outcome (some e) attempt =
    if is_permanent e || leℤ (pos 5) attempt then codes "parked" else codes "retry"

module _ (S : Services) (I : Imaging) (options : Options) (job : Job) where
  open S use {Outside}

  -- `h.fail`; the handler returns the cause.
  unfoldable pub fail : Error → Io S (Option Error)
  fail cause w =
      let (stored, w₁) = set_job_status S job.id (codes "failed") (message cause) w in
      let (sent, w₂) = publish_event S (event job (codes "failed") 0 (message cause) []) w₁ in
      (some cause, w₂)

  abbrev pub finished : Result (Unit {0}) → Io S (Option Error)
  finished (err e) w = fail (wrapped (codes "finalize") e) w
  finished (ok done) w =
      let (sent, w₁) = publish_event S (event job (codes "completed") 100 (codes "done") []) w in
      (none, w₁)

  -- What follows the loop over the results.
  unfoldable pub finish : Io S (Option Error)
  finish w = let (r, w₁) = set_job_status S job.id (codes "completed") [] w in finished r w₁

  abbrev pub count_produced : Variant → World Outside → World Outside
  count_produced v w = record w { produced = w.produced ++ v.name ∷ [] }

  abbrev pub recorded : Variant → Io S (Option Error) → Result (Unit {0}) → Io S (Option Error)
  recorded v rest (err e) w = fail (wrapped (codes "record " ++ v.name) e) w
  recorded v rest (ok done) w =
      let (sent, w₁) =
        publish_event S (event job (codes "processing") 80 [] v.name) (count_produced v w) in
      rest w₁

  abbrev pub uploaded : Variant → Io S (Option Error) → Result ℤ → Io S (Option Error)
  uploaded v rest (err e) w = fail (wrapped (codes "upload " ++ v.name) e) w
  uploaded v rest (ok size) w =
      let (r, w₁) = record_artifact S job.id (new_artifact job v size) w in recorded v rest r w₁

  -- One round of the loop over the results, and what follows it.
  unfoldable pub store_variant : Variant → Io S (Option Error) → Io S (Option Error)
  store_variant v rest w =
      let (r, w₁) = put S (artifact_key job v) v.content_type v.bytes w in uploaded v rest r w₁

  unfoldable pub store_all : List Variant → Io S (Option Error)
  store_all [] w = finish w
  store_all (v ∷ vs) w = store_variant v (store_all vs) w

  abbrev pub processed : Result (List Variant) → Io S (Option Error)
  processed (err e) w = fail (permanent (wrapped (codes "process") e)) w
  processed (ok vs) w = store_all vs w

  abbrev pub transform : Result Bytes → Io S (Option Error)
  transform (err e) w = fail (wrapped (codes "download source") e) w
  transform (ok src) w =
      let (sent, w₁) =
        publish_event S (event job (codes "processing") 40 (codes "transforming") []) w in
      processed (process I options src job.operations (processor_params job)) w₁

  -- What `handle` does with a job that is not completed yet.
  unfoldable pub work : Io S (Option Error)
  work w =
      let (stored, w₁) = set_job_status S job.id (codes "processing") [] w in
      let (sent, w₂) =
        publish_event S (event job (codes "processing") 10 (codes "downloading source") []) w₁ in
      let (src, w₃) = get S job.source_key w₂ in transform src w₃

  abbrev pub is_completed : Result Text → Bool
  is_completed (ok status) = status == codes "completed"
  is_completed (err e) = false

  abbrev pub unless : Bool → Io S (Option Error) → Io S (Option Error)
  unless true rest w = (none, w)
  unless false rest w = rest w

  unfoldable pub handle_job : Io S (Option Error)
  handle_job w = let (status, w₁) = status_of S job.id w in unless (is_completed status) work w₁

  -- `handle`, with the deferred count of its outcome.
  unfoldable pub handle : ℤ → Io S (Option Error)
  handle attempt w =
      let (r, w₁) = handle_job w in
      (r, record w₁ { outcomes = w₁.outcomes ++ outcome r attempt ∷ [] })
