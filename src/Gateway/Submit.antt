-- ===== src/Gateway/Submit.antt =====
-- `handleSubmit` of services/api-gateway/internal/httpapi/handlers.go behind `bearerAuth` of
-- services/api-gateway/internal/httpapi/middleware.go. Postgres, Redis, the object store and RabbitMQ
-- are not part of the repository: `Backends` is what the handler reaches of them. Logging, metrics
-- and the trace id in the answer are left out.
pub mod Answers
pub mod Outcome
pub mod Accepted
mod Samples
use media_forge.Prelude.{
  ℕ, String, Bool, true, false, not, ◌&&◌, ◌||◌, Option, none, some, List, [], ◌∷◌, ◌++◌, ℤ, pos,
  if◌then◌else◌,
}
use media_forge.Text.{Text, codes, ◌==◌, is_empty, trim_prefix}
use media_forge.Float.{Float64}
use media_forge.Database.{Tables, create_job, execute}
use media_forge.Gateway.Contract.{Job, columns, valid, routing_key}
use media_forge.Gateway.Form.{
  resolve_kind, detect_content_type, decodable_image, parse_operations, parse_params, upload_key,
}

-- The file of a multipart form, with its Content-Type; the header's size is that of the content.
pub record Upload : Type 0 where
  pub filename : Text
  pub content_type : Text
  pub content : List ℕ
  pub size : ℤ

pub record Form : Type 0 where
  -- `FormFile "file"`, with no value for an error
  pub file : Option Upload
  -- `FormValue`
  pub value : Text → Text

pub record Request : Type 0 where
  pub authorization : Text
  pub real_ip : Text
  pub remote_addr : Text
  -- `ParseMultipartForm` of the body limited to a number of bytes, with no value for an error
  pub form : ℤ → Option Form

-- A statement runs and its outcome comes back, or it is lost, or its outcome is.
pub data Link : Type 0 where
  runs : Link
  lost : Link
  unanswered : Link

pub record Backends : Type 1 where
  pub Outside : Type 0
  -- `Allow`, if there is a limiter: no value is an error.
  pub limiter : Option (Text → Outside → Option Bool × Outside)
  -- `uuid.NewString()`
  pub new_id : Outside → Text × Outside
  -- `Put` of the object store: the stored size, or no value for an error
  pub put : Text → Text → List ℕ → ℤ → Outside → Option ℤ × Outside
  pub link : Outside → Link × Outside
  pub uuid : Text → Option Text
  pub now : Outside → ℕ
  -- `PublishJSON`: whether it returns no error
  pub publish : Text → Text → Job → Outside → Bool × Outside
  -- After an error of `Put` or of `PublishJSON`, whether the object is stored, or the message queued,
  -- all the same: its answer may be lost.
  pub stored_anyway : Outside → Bool
  pub queued_anyway : Outside → Bool

pub record Object : Type 0 where
  pub key : Text
  pub content : List ℕ

pub record Message : Type 0 where
  pub exchange : Text
  pub routing_key : Text
  pub job : Job

-- The state that a request changes. `stored` and `published` list what the object store and RabbitMQ
-- have taken, confirmed or not.
pub record World (Outside : Type 0) : Type 0 where
  pub tables : Tables
  pub outside : Outside
  pub stored : List Object
  pub published : List Message

pub data Body : Type 0 where
  refusal : Text → Body
  accepted : Text → Text → Text → Body

pub record Response : Type 0 where
  pub status : ℕ
  pub body : Body

abbrev pub error : ℕ → String → Response
error status message = record { status = status; body = refusal (codes message) }

-- `clientKey`
unfoldable pub client_key : Request → Text
client_key r = if is_empty r.real_ip then r.remote_addr else r.real_ip

module _ (B : Backends) where
  open B use {Outside}

  abbrev pub Io : Type 0 → Type 0
  Io A = World Outside → A × World Outside

  abbrev pub tables_or : Tables → Option Tables → Tables
  tables_or t none = t
  tables_or t (some t') = t'

  abbrev pub is_done : Option Tables → Bool
  is_done none = false
  is_done (some t) = true

  abbrev pub over_link : Job → Link → World Outside → Bool × World Outside
  over_link job runs w =
      let done = execute B.uuid (create_job (columns job)) (B.now w.outside) w.tables in
      (is_done done, record w { tables = tables_or w.tables done })
  over_link job lost w = (false, w)
  over_link job unanswered w =
      let done = execute B.uuid (create_job (columns job)) (B.now w.outside) w.tables in
      (false, record w { tables = tables_or w.tables done })

  -- `CreateJob`: whether it returns no error
  unfoldable pub insert : Job → Io Bool
  insert job w =
      let (l, outside) = B.link w.outside in over_link job l (record w { outside = outside })

  abbrev pub queued : Message → Bool → World Outside → World Outside
  queued m true w = record w { published = w.published ++ m ∷ [] }
  queued m false w = w

  abbrev pub confirmed : Message → Bool → World Outside → World Outside
  confirmed m true w = queued m true w
  confirmed m false w = queued m (B.queued_anyway w.outside) w

  unfoldable pub send : Message → Io Bool
  send m w =
      let (ok, outside) = B.publish m.exchange m.routing_key m.job w.outside in
      (ok, confirmed m ok (record w { outside = outside }))

  abbrev pub held : Object → Bool → World Outside → World Outside
  held o true w = record w { stored = w.stored ++ o ∷ [] }
  held o false w = w

  abbrev pub kept : Object → Option ℤ → World Outside → World Outside
  kept o none w = held o (B.stored_anyway w.outside) w
  kept o (some size) w = held o true w

  unfoldable pub store : Object → Text → ℤ → Io (Option ℤ)
  store o content_type size w =
      let (r, outside) = B.put o.key content_type o.content size w.outside in
      (r, kept o r (record w { outside = outside }))

  abbrev pub answer : Job → Bool → Response
  answer job false = error 502 "failed to enqueue job"
  answer job true = record { status = 202; body = accepted job.id job.kind (codes "pending") }

  abbrev pub message_of : Job → Message
  message_of job = record {
    exchange = codes "media.jobs";
    routing_key = routing_key job.kind;
    job = job;
  }

  abbrev pub persisted : Job → Bool → Io Response
  persisted job false w = (error 500 "failed to persist job", w)
  persisted job true w = let (ok, w₁) = send (message_of job) w in (answer job ok, w₁)

  abbrev pub uploaded : (ℤ → Job) → Option ℤ → Io Response
  uploaded job none w = (error 502 "failed to store upload", w)
  uploaded job (some size) w = let (ok, w₁) = insert (job size) w in persisted (job size) ok w₁

  -- `max_upload` is `MaxUploadBytes`; `fold` and `parse_float` are those of the form's helpers.
  module _ (max_upload : ℤ) (fold : ℕ → ℕ) (parse_float : Text → Option Float64) where
    abbrev pub job_of : Form → Upload → Text → ℤ → Job
    job_of form file id size = record {
      id = id;
      kind = resolve_kind fold (form.value (codes "kind")) file.filename;
      status = codes "pending";
      source_key = upload_key id file.filename;
      source_mime = detect_content_type fold file.content_type file.filename;
      size_bytes = size;
      operations = parse_operations (form.value (codes "operations"));
      params = parse_params fold parse_float form.value;
      attempt = pos 0;
    }

    abbrev pub object_of : Upload → Text → Object
    object_of file id = record { key = upload_key id file.filename; content = file.content }

    abbrev pub upload : Form → Upload → Text → Io Response
    upload form file id w =
        let mime = detect_content_type fold file.content_type file.filename in
        let (r, w₁) = store (object_of file id) mime file.size w in
        uploaded (job_of form file id) r w₁

    -- The checks of the kind and of the content type; `bad_kind` and `bad_type` say that they fail.
    abbrev pub checked : Form → Upload → Bool → Bool → Io Response
    checked form file true bad_type w = (error 400 "unsupported media kind", w)
    checked form file false true w = (
      record {
        status = 400;
        body = refusal (
            detect_content_type fold file.content_type file.filename
            ++ codes " cannot go through the image pipeline — submit it with kind=ocr");
      },
      record w { outside = (B.new_id w.outside).1 },
    )
    checked form file false false w =
        let (id, outside) = B.new_id w.outside in
        upload form file id (record w { outside = outside })

    abbrev pub with_file : Form → Option Upload → Io Response
    with_file form none w = (error 400 "missing 'file' field", w)
    with_file form (some file) w =
        let kind = resolve_kind fold (form.value (codes "kind")) file.filename in
        let mime = detect_content_type fold file.content_type file.filename in
        checked form file (not (valid kind)) (kind == codes "image" && not (decodable_image mime)) w

    abbrev pub with_form : Option Form → Io Response
    with_form none w = (error 400 "invalid multipart upload or file too large", w)
    with_form (some form) w = with_file form form.file w

    -- A limiter that fails lets the request through.
    abbrev pub limited : Request → Option Bool → Io Response
    limited r none w = with_form (r.form max_upload) w
    limited r (some true) w = with_form (r.form max_upload) w
    limited r (some false) w = (error 429 "rate limit exceeded", w)

    abbrev pub with_limiter :
        Request → Option (Text → Outside → Option Bool × Outside) → Io Response
    with_limiter r none w = with_form (r.form max_upload) w
    with_limiter r (some allow) w =
        let (ok, outside) = allow (client_key r) w.outside in
        limited r ok (record w { outside = outside })

    unfoldable pub handle_submit : Request → Io Response
    handle_submit r w = with_limiter r B.limiter w

    -- `bearerAuth` before the handler; no token is configured if `token` is empty.
    unfoldable pub submit : Text → Request → Io Response
    submit token r w =
        if is_empty token || trim_prefix r.authorization (codes "Bearer ") == token
        then handle_submit r w
        else (error 401 "invalid or missing bearer token", w)
