-- ===== src/Worker/Handler/Samples.antt =====
-- The handler over small services.
use media_forge.Prelude.{
  All, arith, ℕ, suc, ◌≡◌, ◌≢◌, refl, false, true, none, some, List, [], ◌∷◌, ◌++◌, ℤ, pos, map,
  ◌⊎◌, inl, if◌then◌else◌, length,
}
use media_forge.Text.{Text, codes, ◌==◌}
use media_forge.Float.{float_le}
use media_forge.Database.{
  JobRow, find_job, find_artifact, upsert, update_status, execute, read_status, insert_artifact,
}
use media_forge.Database.Integrity.{IsWellFormed}
use media_forge.Worker.Amqp.{empty}
use media_forge.Errors.{Error, plain, message, is_permanent, ok}
use media_forge.Worker.Consume.{Job, Delivery, ack, nack, park, settle}
use media_forge.Worker.Processor.{
  Imaging, Options, Variant, process, apply, apply_all, resize, thumbnail, webp, grayscale, blur,
  variant, dims,
}
use media_forge.Worker.Processor.Variants.{variant_names, process-names}
use media_forge.Worker.Services.{
  Event, Services, World, runs, exec, status_of, set_job_status, record_artifact, get, put,
  publish_event,
}
use media_forge.Worker.Handler.{
  artifact_filename, outcome, fail, finish, store_variant, store_all, work, handle_job, handle,
  processor_params,
}
use media_forge.Worker.Handler.Frame.{handle-Rows}
use media_forge.Worker.Handler.Success.{Stored, handle-IsCompleted}
use media_forge.Worker.Handler.Recorded.{IsCompleted}
use media_forge.Worker.Handler.Events.{Run, ready}
use media_forge.Worker.Handler.Events.Published.{handle-Run}
use media_forge.Worker.Handler.Events.Schema.{handle-Conforms}
use media_forge.Worker.Handler.Statements.{Follows, handle-Follows}
use media_forge.Worker.Encode.{event_value, event_schema, conforms}
use media_forge.Gateway.Contract.{valid}
use media_forge.Wire.Shown.{IsShown, handle-IsShown}
use media_forge.Gateway.Status.{handle_status}
use media_forge.Worker.Handler.Outcome.{outcome-settle}

worker : Unit {0}
unfolding codes ◌==◌ float_le find_job find_artifact upsert update_status execute read_status
    insert_artifact message is_permanent settle process apply apply_all resize thumbnail webp
    grayscale blur variant dims exec status_of set_job_status record_artifact get put publish_event
    artifact_filename outcome fail finish store_variant store_all work handle_job handle
worker = tt

-- An image is a width and a height.
abbrev imaging : Imaging
imaging = record {
  Image = ℤ × ℤ;
  decode = λ src. inl (pos (length src), pos 1);
  fit = λ img w h. (w, h);
  thumbnail = λ img w h. (w, h);
  grayscale = λ img. img;
  blur = λ img sigma. img;
  encode_png = λ img. ok (1 ∷ []);
  encode_jpeg = λ img q. ok (2 ∷ []);
  encode_webp = λ img. ok (3 ∷ []);
  width = λ img. img.0;
  height = λ img. img.1;
}

-- Services that never fail; the state outside is a clock.
abbrev services : Services
services = record {
  Outside = ℕ;
  link = λ t. (runs, suc t);
  refusal = λ s. plain (codes "refused");
  no_status = plain (codes "no rows");
  uuid = λ id. some id;
  now = λ t. t;
  unix_milli = λ t. t;
  get_object = λ key t. (ok tt, suc t);
  read_all = λ key t. (ok (7 ∷ []), suc t);
  put_object = λ key content_type bytes t. (ok (pos (length bytes)), suc t);
  publish = λ key e t. (none, suc t);
  quote = λ s. s;
}

abbrev options : Options
options = record { thumbnail_size = pos 256; resize_max_dim = pos 1600 }

abbrev job : Job
job = record {
  id = codes "j1";
  kind = codes "image";
  status = codes "pending";
  source_key = codes "uploads/j1/a.png";
  source_mime = codes "image/png";
  size_bytes = pos 9;
  operations = codes "resize" ∷ codes "rotate" ∷ codes "resize" ∷ [];
  params = none;
}

abbrev row : Text → JobRow
row status = record {
  id = codes "j1";
  kind = codes "image";
  status = status;
  source_key = codes "uploads/j1/a.png";
  source_mime = codes "image/png";
  size_bytes = pos 9;
  operations = [];
  error = none;
  created_at = 0;
  updated_at = 0;
}

abbrev world : Text → World ℕ
world status = record {
  tables = record { jobs = row status ∷ []; artifacts = [] };
  outside = 10;
  sent = [];
  outcomes = [];
  produced = [];
}

-- A run from a pending job: five events, and the two results are one artifact.
run_events :
    map
      (λ e. e.progress)
      (handle services imaging options job (pos 1) (world (codes "pending"))).1.sent
    ≡ 10 ∷ 40 ∷ 80 ∷ 80 ∷ 100 ∷ []
unfolding worker
run_events = refl

run_artifacts :
    map
      (λ a. a.object_key)
      (handle services imaging options job (pos 1) (world (codes "pending"))).1.tables.artifacts
    ≡ codes "artifacts/j1/resized.jpg" ∷ []
unfolding worker
run_artifacts = refl

world-IsWellFormed : IsWellFormed (world (codes "pending")).tables
unfolding worker
world-IsWellFormed = record { unique_ids = (refl, tt); unique_names = tt; referenced = tt }

other_job : some (codes "j1") ≢ some (codes "j2")
unfolding codes
other_job e = ground arith

handle-Rows_example :
    (find_job
        (codes "j2")
        (handle services imaging options job (pos 1) (world (codes "pending"))).1.tables.jobs
      ≡ none)
    × (find_artifact
          (codes "j2")
          (codes "text")
          (handle services imaging options job (pos 1) (world (codes "pending"))).1.tables.artifacts
        ≡ none)
unfolding worker
handle-Rows_example =
    handle-Rows services imaging options job (pos 1) (codes "j2") (codes "text")
      (world (codes "pending")) other_job

row_found : find_job (codes "j1") (world (codes "pending")).tables.jobs ≢ none
unfolding worker
row_found e = cc

no_error : (handle services imaging options job (pos 1) (world (codes "pending"))).0 ≡ none
unfolding worker
no_error = refl

handle-IsCompleted_example :
    IsCompleted
      (codes "j1")
      (handle services imaging options job (pos 1) (world (codes "pending"))).1.tables
    × (IsCompleted (codes "j1") (world (codes "pending")).tables
        ⊎ Stored services imaging options job
            (codes "j1")
            refl
            (handle services imaging options job (pos 1) (world (codes "pending"))).1.tables)
handle-IsCompleted_example =
    handle-IsCompleted services imaging options job (codes "j1") refl (pos 1)
      (world (codes "pending")) row_found no_error

completed_found :
    find_job (codes "j1") (world (codes "completed")).tables.jobs ≡ some (row (codes "completed"))
unfolding worker
completed_found = refl

abbrev delivery : Delivery
delivery = record { headers = empty; routing_key = codes "image.process"; body = [] }

abbrev timeout : Error
timeout = plain (codes "timeout")

timeout_transient : is_permanent timeout ≡ false
unfolding worker
timeout_transient = refl

outcome-settle_example : settle (pos 5) delivery (pos 4) (some timeout) ≡ (
    if outcome (some timeout) (pos 4) == codes "parked"
    then park (codes "image.process") (message timeout) [] ∷ ack ∷ []
    else nack ∷ [])
outcome-settle_example = outcome-settle delivery (pos 4) timeout

abbrev resized : Variant
resized = record {
  name = codes "resized";
  content_type = codes "image/jpeg";
  bytes = 2 ∷ [];
  metadata = (codes "width", pos 1600) ∷ (codes "height", pos 1600) ∷ [];
}

one_variant :
    process imaging options (7 ∷ []) (codes "resize" ∷ codes "rotate" ∷ []) (processor_params job)
    ≡ ok (resized ∷ [])
unfolding worker
one_variant = refl

process-names_example : codes "resized" ∷ [] ≡ variant_names (codes "resize" ∷ codes "rotate" ∷ [])
process-names_example =
    process-names imaging options (7 ∷ []) (codes "resize" ∷ codes "rotate" ∷ [])
      (processor_params job) (resized ∷ []) one_variant

-- The page of the job after the run, with a link for every key
handle-IsShown_example :
    IsShown services imaging options job
      (codes "j1")
      refl
      (λ id. true)
      (λ key. some key)
      (world (codes "pending")).tables
      (handle_status
        (λ id. true)
        (λ id. some id)
        (λ key. some key)
        (codes "j1")
        (some (handle services imaging options job (pos 1) (world (codes "pending"))).1.tables)
        (some (handle services imaging options job (pos 1) (world (codes "pending"))).1.tables))
handle-IsShown_example =
    handle-IsShown services imaging options job (codes "j1") refl (λ id. true) (λ key. some key)
      (pos 1) (world (codes "pending")) refl row_found no_error

handle-Run_example :
    (es : List Event) × ((handle services imaging options job
        (pos 1)
        (world (codes "pending"))).1.sent
      ≡ [] ++ es)
    × Run imaging options job ready es
        (handle services imaging options job (pos 1) (world (codes "pending"))).0
handle-Run_example = handle-Run services imaging options job (pos 1) (world (codes "pending"))

kind_known : valid job.kind ≡ true
unfolding worker valid
kind_known = refl

handle-Conforms_example :
    (es : List Event) × ((handle services imaging options job
        (pos 1)
        (world (codes "pending"))).1.sent
      ≡ [] ++ es)
    × All (λ e. conforms event_schema (event_value e) ≡ true) es
handle-Conforms_example =
    handle-Conforms services imaging options job (pos 1) (world (codes "pending")) kind_known

handle-Follows_example :
    Follows services job
      (world (codes "pending")).tables
      (handle services imaging options job (pos 1) (world (codes "pending"))).1.tables
handle-Follows_example =
    handle-Follows services job imaging options (pos 1) (world (codes "pending"))
