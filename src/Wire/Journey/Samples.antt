-- ===== src/Wire/Journey/Samples.antt =====
-- One job on its way.
use media_forge.Prelude.{
  ℕ, suc, ◌≡◌, refl, Bool, true, false, ◌||◌, Option, none, some, [], ◌∷◌, ℤ, pos, inl, length,
}
use media_forge.Text.{Text, codes, ◌==◌}
use media_forge.Float.{Float64, float_le}
use media_forge.Errors.{plain, ok}
use media_forge.Strconv.{decimal, decimal_on, atoi, digits, format_int}
use media_forge.Json.{texts, fold_name, exact_field, field_of, into_struct}
use media_forge.Database.{
  find_job, find_artifact, upsert, update_status, execute, read_status, insert_artifact, job_row,
}
use media_forge.Broker.Routing.{has_wildcard, topology-Routes}
use media_forge.Gateway.Contract.{Job, columns, routing_key, valid}
use media_forge.Gateway.Encode.{params_value, job_value}
use media_forge.Gateway.Submit.{Backends, message_of}
use media_forge.Gateway.Submit as Submit
use media_forge.Gateway.Status.{handle_status}
use media_forge.Worker.Decode.{job_from}
use media_forge.Worker.Processor.{
  Imaging, Options, process, apply, apply_all, resize, thumbnail, webp, grayscale, blur, variant,
  dims,
}
use media_forge.Worker.Services.{
  Services, exec, status_of, set_job_status, record_artifact, get, put, publish_event,
}
use media_forge.Worker.Services as Worker
use media_forge.Worker.Handler.{
  artifact_filename, outcome, fail, finish, store_variant, store_all, work, handle_job, handle,
}
use media_forge.Errors.{message, is_permanent}
use media_forge.Wire.{on_worker}
use media_forge.Wire.Delivery.{IsDelivered}
use media_forge.Wire.Journey.{IsFinished, delivered-IsFinished}

way : Unit {0}
unfolding codes ◌==◌ float_le valid decimal decimal_on atoi digits format_int texts fold_name
    exact_field field_of into_struct find_job find_artifact upsert update_status execute read_status
    insert_artifact routing_key params_value job_value job_from process apply apply_all resize
    thumbnail webp grayscale blur variant dims exec status_of set_job_status record_artifact get put
    publish_event artifact_filename outcome fail finish store_variant store_all work handle_job
    handle message is_permanent
way = tt

abbrev job : Job
job = record {
  id = codes "j1";
  kind = codes "image";
  status = codes "pending";
  source_key = codes "uploads/j1/a.png";
  source_mime = codes "image/png";
  size_bytes = pos 2;
  operations = codes "resize" ∷ codes "webp" ∷ [];
  params = none;
  attempt = pos 0;
}

abbrev backends : Backends
backends = record {
  Outside = ℕ;
  limiter = none;
  new_id = λ o. (codes "j1", o);
  put = λ key content_type content size o. (some size, o);
  link = λ o. (Submit.runs, o);
  uuid = λ id. some id;
  now = λ o. o;
  publish = λ exchange key job o. (true, o);
  stored_anyway = λ o. false;
  queued_anyway = λ o. false;
}

abbrev before : Submit.World ℕ
before = record {
  tables = record { jobs = []; artifacts = [] };
  outside = 5;
  stored = [];
  published = [];
}

abbrev after : Submit.World ℕ
after = record {
  tables = record { jobs = job_row (codes "j1") (columns job) 5 ∷ []; artifacts = [] };
  outside = 5;
  stored = record { key = job.source_key; content = 1 ∷ 2 ∷ [] } ∷ [];
  published = message_of backends job ∷ [];
}

abbrev same : ℕ → ℕ
same c = c

abbrev literal : Float64 → Text
literal f = f ∷ []

abbrev no_float : Text → Option Float64
no_float s = none

abbrev matches : Text → Text → Bool
matches pattern key = has_wildcard pattern || pattern == key

-- The record is not opaque, so that a run computes.
abbrev delivered : IsDelivered backends same literal no_float matches before after
unfolding way
delivered = record {
  message = message_of backends job;
  received = on_worker job;
  row_id = codes "j1";
  row = job_row (codes "j1") (columns job) 5;
  content = 1 ∷ 2 ∷ [];
  published = refl;
  exchange = refl;
  known_kind = refl;
  routed = λ swapped ttl.
      (topology-Routes matches (λ key. refl) (λ pattern key h. rw h refl) swapped ttl
        (codes "image") refl).work;
  read = refl;
  known_id = refl;
  unused = refl;
  found = refl;
  pending = refl;
  kind = refl;
  source_key = refl;
  stored = refl;
}

abbrev imaging : Imaging
imaging = record {
  Image = ℤ × ℤ;
  decode = λ src. inl (pos (length src), pos 1);
  fit = λ img w h. (w, h);
  thumbnail = λ img w h. (w, h);
  grayscale = λ img. img;
  blur = λ img sigma. img;
  encode_png = λ img. ok (1 ∷ []);
  encode_jpeg = λ img q. ok (2 ∷ []);
  encode_webp = λ img. ok (3 ∷ []);
  width = λ img. img.0;
  height = λ img. img.1;
}

abbrev services : Services
services = record {
  Outside = ℕ;
  link = λ t. (Worker.runs, suc t);
  refusal = λ s. plain (codes "refused");
  no_status = plain (codes "no rows");
  uuid = λ id. some id;
  now = λ t. t;
  unix_milli = λ t. t;
  get_object = λ key t. (ok tt, suc t);
  read_all = λ key t. (ok (1 ∷ 2 ∷ []), suc t);
  put_object = λ key content_type bytes t. (ok (pos (length bytes)), suc t);
  publish = λ key e t. (none, suc t);
  quote = λ s. s;
}

abbrev options : Options
options = record { thumbnail_size = pos 256; resize_max_dim = pos 1600 }

abbrev world : Worker.World ℕ
world = record { tables = after.tables; outside = 10; sent = []; outcomes = []; produced = [] }

no_error : (handle services imaging options delivered.received (pos 1) world).0 ≡ none
unfolding way
no_error = refl

same_id : services.uuid delivered.received.id ≡ some delivered.row_id
unfolding way
same_id = refl

delivered-IsFinished_example :
    IsFinished backends same literal no_float matches before after delivered services imaging
      options same_id
      (λ id. true)
      (λ key. some key)
      (handle_status
        (λ id. true)
        (λ id. some id)
        (λ key. some key)
        delivered.received.id
        (some (handle services imaging options delivered.received (pos 1) world).1.tables)
        (some (handle services imaging options delivered.received (pos 1) world).1.tables))
delivered-IsFinished_example =
    delivered-IsFinished backends same literal no_float matches before after delivered services
      imaging options same_id (λ id. true) (λ key. some key) (pos 1) world refl refl no_error
