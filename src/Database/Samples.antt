-- ===== src/Database/Samples.antt =====
-- The statements at concrete tables.
use media_forge.Prelude.{◌≡◌, refl, ℕ, List, Option, some, none, [], ◌∷◌, pos}
use media_forge.Text.{Text, codes, ◌==◌}
use media_forge.Database.{
  Tables, NewJob, NewArtifact, Statement, create_job, set_status, add_artifact, find_job,
  find_artifact, execute, insert_job, insert_artifact, update_status, upsert, job_row, artifact_row,
}
use media_forge.Database.Abstract.{view, run_statements, replay, run_statements_refines}
use media_forge.Database.Integrity.{IsWellFormed}

database : Unit {0}
unfolding codes ◌==◌ find_job find_artifact execute insert_job insert_artifact update_status upsert
database = tt

abbrev same : Text → Option Text
same id = some id

abbrev new_job : NewJob
new_job = record {
  id = codes "j1";
  kind = codes "ocr";
  status = codes "pending";
  source_key = codes "uploads/j1/a.pdf";
  source_mime = codes "application/pdf";
  size_bytes = pos 9;
  operations = [];
}

abbrev text_artifact : NewArtifact
text_artifact = record {
  name = codes "text";
  object_key = codes "artifacts/j1/text.txt";
  content_type = codes "text/plain";
  size_bytes = pos 4;
  metadata = [];
}

abbrev before : Tables
before = record { jobs = job_row (codes "j1") new_job 1 ∷ []; artifacts = [] }

abbrev after : Tables
after = record before { artifacts = artifact_row (codes "j1") text_artifact 2 ∷ [] }

-- A second job of the same id is refused, and so is an artifact with no job.
refusals :
    (execute same (create_job new_job) 3 before ≡ none)
    × (execute same (add_artifact (codes "j2") text_artifact) 3 before ≡ none)
unfolding database
refusals = (refl, refl)

-- Recording an artifact again keeps one row, with the time of the first.
recorded_again : execute same (add_artifact (codes "j1") text_artifact) 3 after ≡ some after
unfolding database
recorded_again = refl

before-IsWellFormed : IsWellFormed before
unfolding database
before-IsWellFormed = record { unique_ids = (refl, tt); unique_names = tt; referenced = tt }

recorded : execute same (add_artifact (codes "j1") text_artifact) 2 before ≡ some after
unfolding database
recorded = refl

-- The second statement is refused.
abbrev statements : List (Statement × ℕ)
statements =
    (create_job new_job, 1)
    ∷ (create_job new_job, 2)
    ∷ (set_status (codes "j1") (codes "failed") (codes "x"), 3)
    ∷ (add_artifact (codes "j1") text_artifact, 4)
    ∷ []

run_statements_refines_example :
    view (run_statements same statements before) ≡ replay same statements (view before)
run_statements_refines_example = run_statements_refines same statements before
