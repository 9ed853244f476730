-- ===== src/Gateway/Status.antt =====
-- `GetJob` of services/api-gateway/internal/store/postgres.go and `handleStatus` of
-- services/api-gateway/internal/httpapi/handlers.go. A query sees the tables, or fails: `none` stands
-- for a query that fails, and for one of `PresignedGet`.
pub mod Answer
pub mod Page
mod Samples
use media_forge.Prelude.{
  ℕ, Bool, true, false, Option, none, some, List, [], ◌∷◌, map, leb, if◌then◌else◌,
}
use media_forge.Text.{Text, ◌==◌}
use media_forge.Database.{JobRow, ArtifactRow, Tables, find_job}

unfoldable pub artifacts_of : Text → List ArtifactRow → List ArtifactRow
artifacts_of u [] = []
artifacts_of u (a ∷ rest) =
    let others = artifacts_of u rest in if a.job_id == u then a ∷ others else others

-- `ORDER BY created_at`
unfoldable pub insert_artifact_row : ArtifactRow → List ArtifactRow → List ArtifactRow
insert_artifact_row a [] = a ∷ []
insert_artifact_row a (b ∷ rest) =
    let later = insert_artifact_row a rest in
    if leb a.created_at b.created_at then a ∷ (b ∷ rest) else b ∷ later

unfoldable pub by_time : List ArtifactRow → List ArtifactRow
by_time [] = []
by_time (a ∷ rest) = insert_artifact_row a (by_time rest)

pub data Loaded : Type 0 where
  not_found : Loaded
  load_failed : Loaded
  loaded : JobRow → List ArtifactRow → Loaded

-- What the first SELECT reads of a job: its columns are all but the error.
abbrev pub without_error : JobRow → JobRow
without_error j = record j { error = none }

abbrev pub with_artifacts : Text → JobRow → Option Tables → Loaded
with_artifacts u j none = load_failed
with_artifacts u j (some t) = loaded (without_error j) (by_time (artifacts_of u t.artifacts))

abbrev pub with_job : Text → Option JobRow → Option Tables → Loaded
with_job u none later = not_found
with_job u (some j) later = with_artifacts u j later

abbrev pub get_in : Option Text → Tables → Option Tables → Loaded
get_in none t later = load_failed
get_in (some u) t later = with_job u (find_job u t.jobs) later

-- `GetJob`: `now` and `later` are what its two queries see. Postgres refuses an id that is no UUID.
unfoldable pub get_job : (Text → Option Text) → Text → Option Tables → Option Tables → Loaded
get_job uuid id none later = load_failed
get_job uuid id (some t) later = get_in (uuid id) t later

pub record OutArtifact : Type 0 where
  pub artifact : ArtifactRow
  pub url : Text

pub data StatusResponse : Type 0 where
  -- 400, 404 and 500
  invalid_id : StatusResponse
  missing : StatusResponse
  failed : StatusResponse
  -- 200
  found : JobRow → List OutArtifact → StatusResponse

-- `is_uuid` says whether `uuid.Parse` returns no error.
module _ (is_uuid : Text → Bool) (uuid : Text → Option Text) (presign : Text → Option Text) where
  abbrev pub url_of : Option Text → Text
  url_of none = []
  url_of (some url) = url

  abbrev pub out_artifact : ArtifactRow → OutArtifact
  out_artifact a = record { artifact = a; url = url_of (presign a.object_key) }

  abbrev pub status_response : Loaded → StatusResponse
  status_response not_found = missing
  status_response load_failed = failed
  status_response (loaded j artifacts) = found j (map out_artifact artifacts)

  unfoldable pub handle_status : Text → Option Tables → Option Tables → StatusResponse
  handle_status id now later =
      if is_uuid id then status_response (get_job uuid id now later) else invalid_id
