-- ===== src/Database.antt =====
-- The Postgres tables that the services share (`schema` of
-- services/api-gateway/internal/store/postgres.go) and the statements that write them, in
-- services/api-gateway/internal/store/postgres.go and
-- services/worker-image/internal/store/postgres.go. A statement gives the new tables, or `none`
-- where Postgres refuses it. `uuid` is what Postgres makes of a text at a column of type UUID, and
-- `now` the value of now(). The serial number of an artifact is left out: no statement reads it.
pub mod Rows
pub mod Integrity
pub mod Abstract
pub mod Effects
mod Samples
use media_forge.Prelude.{
  ℕ, Bool, true, false, ◌&&◌, Option, none, some, List, [], ◌∷◌, ◌++◌, map, ℤ, if◌then◌else◌,
}
use media_forge.Text.{Text, codes, ◌==◌}

-- `map[string]any` as the image worker fills it.
abbrev pub Metadata : Type 0
Metadata = List (Text × ℤ)

pub record JobRow : Type 0 where
  pub id : Text
  pub kind : Text
  pub status : Text
  pub source_key : Text
  pub source_mime : Text
  pub size_bytes : ℤ
  pub operations : List Text
  pub error : Option Text
  pub created_at : ℕ
  pub updated_at : ℕ

pub record ArtifactRow : Type 0 where
  pub job_id : Text
  pub name : Text
  pub object_key : Text
  pub content_type : Text
  pub size_bytes : ℤ
  pub metadata : Metadata
  pub created_at : ℕ

pub record Tables : Type 0 where
  pub jobs : List JobRow
  pub artifacts : List ArtifactRow

-- The row of a job, by its primary key.
unfoldable pub find_job : Text → List JobRow → Option JobRow
find_job u [] = none
find_job u (j ∷ js) = if j.id == u then some j else find_job u js

-- The row of an artifact, by its unique key.
unfoldable pub find_artifact : Text → Text → List ArtifactRow → Option ArtifactRow
find_artifact u name [] = none
find_artifact u name (a ∷ rest) =
    if a.job_id == u && a.name == name then some a else find_artifact u name rest

-- The columns that an INSERT into jobs gives.
pub record NewJob : Type 0 where
  pub id : Text
  pub kind : Text
  pub status : Text
  pub source_key : Text
  pub source_mime : Text
  pub size_bytes : ℤ
  pub operations : List Text

abbrev pub job_row : Text → NewJob → ℕ → JobRow
job_row u j now = record {
  id = u;
  kind = j.kind;
  status = j.status;
  source_key = j.source_key;
  source_mime = j.source_mime;
  size_bytes = j.size_bytes;
  operations = j.operations;
  error = none;
  created_at = now;
  updated_at = now;
}

-- `NULLIF(text, '')`
abbrev pub null_if_empty : Text → Option Text
null_if_empty [] = none
null_if_empty (c ∷ s) = some (c ∷ s)

unfoldable pub update_status : Text → Text → Text → ℕ → List JobRow → List JobRow
update_status u status message now = map λ j.
    if j.id == u
    then record j { status = status; error = null_if_empty message; updated_at = now }
    else j

pub record NewArtifact : Type 0 where
  pub name : Text
  pub object_key : Text
  pub content_type : Text
  pub size_bytes : ℤ
  pub metadata : Metadata

abbrev pub artifact_row : Text → NewArtifact → ℕ → ArtifactRow
artifact_row u a now = record {
  job_id = u;
  name = a.name;
  object_key = a.object_key;
  content_type = a.content_type;
  size_bytes = a.size_bytes;
  metadata = a.metadata;
  created_at = now;
}

-- `INSERT … ON CONFLICT (job_id, name) DO UPDATE`: a row that is there keeps `created_at`.
unfoldable pub upsert : Text → NewArtifact → ℕ → List ArtifactRow → List ArtifactRow
upsert u a now [] = artifact_row u a now ∷ []
upsert u a now (r ∷ rest) =
    if r.job_id == u && r.name == a.name
    then artifact_row u a r.created_at ∷ rest
    else r ∷ upsert u a now rest

-- What each statement does once its job id is a UUID.
abbrev pub if_new : Text → NewJob → ℕ → Tables → Option JobRow → Option Tables
if_new u j now t (some old) = none
if_new u j now t none = some (record t { jobs = t.jobs ++ job_row u j now ∷ [] })

unfoldable pub insert_job : Text → NewJob → ℕ → Tables → Option Tables
insert_job u j now t = if_new u j now t (find_job u t.jobs)

abbrev pub if_there : Text → NewArtifact → ℕ → Tables → Option JobRow → Option Tables
if_there u a now t none = none
if_there u a now t (some job) = some (record t { artifacts = upsert u a now t.artifacts })

unfoldable pub insert_artifact : Text → NewArtifact → ℕ → Tables → Option Tables
insert_artifact u a now t = if_there u a now t (find_job u t.jobs)

pub data Statement : Type 0 where
  -- `CreateJob` of the gateway
  create_job : NewJob → Statement
  -- `SetStatus` of the worker: the job's id, its status and the error text
  set_status : Text → Text → Text → Statement
  -- `AddArtifact` of the worker
  add_artifact : Text → NewArtifact → Statement

abbrev pub with_uuid : Option Text → (Text → Option Tables) → Option Tables
with_uuid none k = none
with_uuid (some u) k = k u

abbrev pub row_status : Option JobRow → Option Text
row_status none = none
row_status (some j) = some j.status

abbrev pub status_at : Tables → Option Text → Option Text
status_at t none = none
status_at t (some u) = row_status (find_job u t.jobs)

module _ (uuid : Text → Option Text) where
  unfoldable pub execute : Statement → ℕ → Tables → Option Tables
  unfolding insert_job update_status insert_artifact
  execute (create_job j) now t = with_uuid (uuid j.id) (λ u. insert_job u j now t)
  execute (set_status id status message) now t =
      with_uuid (uuid id)
        (λ u. some (record t { jobs = update_status u status message now t.jobs }))
  execute (add_artifact id a) now t = with_uuid (uuid id) (λ u. insert_artifact u a now t)

  -- `Status` of the worker; `none` is an error: the id is no UUID, or there is no such row.
  unfoldable pub read_status : Text → Tables → Option Text
  read_status id t = status_at t (uuid id)
