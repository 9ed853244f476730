-- ===== src/Gateway/Status/Samples.antt =====
-- A status at concrete tables.
use media_forge.Prelude.{ℕ, ◌≡◌, refl, Bool, true, false, Option, some, [], ◌∷◌, ◌++◌, pos}
use media_forge.Text.{Text, codes, ◌==◌}
use media_forge.Database.{ArtifactRow, Tables, job_row, find_job}
use media_forge.Gateway.Status.{
  artifacts_of, insert_artifact_row, by_time, get_job, missing, invalid_id, handle_status,
}
use media_forge.Gateway.Status.Page.{Answers, handle_status-Answers}

status : Unit {0}
unfolding codes ◌==◌ find_job artifacts_of insert_artifact_row by_time get_job handle_status
status = tt

abbrev artifact_at : Text → ℕ → ArtifactRow
artifact_at id now = record {
  job_id = id;
  name = codes "webp";
  object_key = codes "k";
  content_type = codes "image/webp";
  size_bytes = pos 1;
  metadata = [];
  created_at = now;
}

abbrev tables : Tables
tables = record {
  jobs =
      job_row (codes "a")
        (record {
          id = codes "a";
          kind = codes "image";
          status = codes "completed";
          source_key = [];
          source_mime = [];
          size_bytes = pos 0;
          operations = [];
        })
        1
      ∷ [];
  artifacts =
      artifact_at (codes "a") 7 ∷ artifact_at (codes "b") 5 ∷ artifact_at (codes "a") 6 ∷ [];
}

abbrev short : Text → Bool
short [] = false
short (c ∷ s) = true

abbrev same : Text → Option Text
same id = some id

abbrev presign : Text → Option Text
presign key = some (codes "http:" ++ key)

answers :
    (handle_status short same presign [] (some tables) (some tables) ≡ invalid_id)
    × (handle_status short same presign (codes "z") (some tables) (some tables) ≡ missing)
    × (by_time (artifacts_of (codes "a") tables.artifacts)
        ≡ artifact_at (codes "a") 6 ∷ artifact_at (codes "a") 7 ∷ [])
unfolding status
answers = (refl, refl, refl)

handle_status-Answers_example :
    Answers short same presign
      (codes "a")
      (some tables)
      (some tables)
      (handle_status short same presign (codes "a") (some tables) (some tables))
handle_status-Answers_example =
    handle_status-Answers short same presign (codes "a") (some tables) (some tables)
