-- ===== src/Database/Integrity.antt =====
-- The constraints of the schema in services/api-gateway/internal/store/postgres.go: the primary key
-- of jobs, UNIQUE (job_id, name) and the foreign key of artifacts.
use media_forge.Prelude.{
  ℕ, ◌≡◌, ◌≢◌, refl, Option, none, some, List, [], ◌∷◌, ◌++◌, arith, All, Option-cases, inl, inr,
}
use media_forge.Text.{Text}
use media_forge.Text.Equality.{eq_iff}
use media_forge.Database.{
  JobRow, ArtifactRow, NewJob, NewArtifact, Tables, find_job, find_artifact, update_status, upsert,
  insert_job, insert_artifact, job_row, Statement, create_job, set_status, add_artifact, execute,
  with_uuid,
}
use media_forge.Database.Rows.{find_job-append, find_job-update_status, find_artifact-upsert}

abbrev pub UniqueIds : List JobRow → Type 0
UniqueIds [] = Unit
UniqueIds (j ∷ js) = (find_job j.id js ≡ none) × UniqueIds js

abbrev pub UniqueNames : List ArtifactRow → Type 0
UniqueNames [] = Unit
UniqueNames (a ∷ rest) = (find_artifact a.job_id a.name rest ≡ none) × UniqueNames rest

abbrev pub HasJob : List JobRow → ArtifactRow → Type 0
HasJob js a = find_job a.job_id js ≢ none

pub record IsWellFormed (t : Tables) : Type 0 where
  pub unique_ids : UniqueIds t.jobs
  pub unique_names : UniqueNames t.artifacts
  pub referenced : All (HasJob t.jobs) t.artifacts

append-UniqueIds :
    (js : List JobRow) (row : JobRow)
    → find_job row.id js ≡ none
    → UniqueIds js
    → UniqueIds (js ++ row ∷ [])
unfolding find_job
append-UniqueIds [] row fresh h = (refl, tt)
append-UniqueIds (j ∷ js) row fresh h = ground (
  arith,
  find_job-append j.id js (row ∷ []),
  eq_iff row.id j.id,
  eq_iff j.id row.id,
  append-UniqueIds js row (ground arith) h.1,
)

update_status-UniqueIds :
    (u status message : Text) (now : ℕ) (js : List JobRow)
    → UniqueIds js
    → UniqueIds (update_status u status message now js)
unfolding update_status
update_status-UniqueIds u status message now [] h = tt
update_status-UniqueIds u status message now (j ∷ js) h = ground (
  arith,
  find_job-update_status u j.id status message now js,
  update_status-UniqueIds u status message now js h.1,
)

upsert-UniqueNames :
    (u : Text) (a : NewArtifact) (now : ℕ) (rows : List ArtifactRow)
    → UniqueNames rows
    → UniqueNames (upsert u a now rows)
unfolding upsert find_artifact
upsert-UniqueNames u a now [] h = (refl, tt)
upsert-UniqueNames u a now (r ∷ rest) h = ground (
  arith,
  eq_iff r.job_id u,
  eq_iff u r.job_id,
  eq_iff r.name a.name,
  eq_iff a.name r.name,
  find_artifact-upsert u r.job_id r.name a now rest,
  upsert-UniqueNames u a now rest h.1,
)

All-HasJob :
    (js ks : List JobRow) (rows : List ArtifactRow)
    → ((u : Text) → find_job u js ≢ none → find_job u ks ≢ none)
    → All (HasJob js) rows
    → All (HasJob ks) rows
All-HasJob js ks [] keep h = tt
All-HasJob js ks (r ∷ rest) keep h = (keep r.job_id h.0, All-HasJob js ks rest keep h.1)

upsert-HasJob :
    (js : List JobRow) (u : Text) (a : NewArtifact) (now : ℕ) (rows : List ArtifactRow)
    → find_job u js ≢ none
    → All (HasJob js) rows
    → All (HasJob js) (upsert u a now rows)
unfolding upsert
upsert-HasJob js u a now [] here h = (here, tt)
upsert-HasJob js u a now (r ∷ rest) here h = ground (arith, upsert-HasJob js u a now rest here h.1)

-- What a statement leaves, if it is not refused.
abbrev IfDone : Option Tables → Type 0
IfDone none = Unit
IfDone (some t) = IsWellFormed t

insert_job-IsWellFormed :
    (u : Text) (j : NewJob) (now : ℕ) (t : Tables) → IsWellFormed t → IfDone (insert_job u j now t)
unfolding insert_job
insert_job-IsWellFormed u j now t w = elim (Option-cases (find_job u t.jobs)) [
  | inl fresh ↦
      rw (fresh, IfDone)
        (record {
          unique_ids = append-UniqueIds t.jobs (job_row u j now) fresh w.unique_ids;
          unique_names = w.unique_names;
          referenced =
              All-HasJob t.jobs (t.jobs ++ job_row u j now ∷ []) t.artifacts
                (λ v here. ground (arith, here, find_job-append v t.jobs (job_row u j now ∷ [])))
                w.referenced;
        })
  | inr (old, there) ↦ rw (there, IfDone) tt
]

update_status-IsWellFormed :
    (u status message : Text) (now : ℕ) (t : Tables)
    → IsWellFormed t
    → IsWellFormed (record t { jobs = update_status u status message now t.jobs })
update_status-IsWellFormed u status message now t w = record {
  unique_ids = update_status-UniqueIds u status message now t.jobs w.unique_ids;
  unique_names = w.unique_names;
  referenced =
      All-HasJob t.jobs (update_status u status message now t.jobs) t.artifacts
        (λ v here. ground (arith, here, find_job-update_status u v status message now t.jobs))
        w.referenced;
}

insert_artifact-IsWellFormed :
    (u : Text) (a : NewArtifact) (now : ℕ) (t : Tables)
    → IsWellFormed t
    → IfDone (insert_artifact u a now t)
unfolding insert_artifact
insert_artifact-IsWellFormed u a now t w = elim (Option-cases (find_job u t.jobs)) [
  | inl missing ↦ rw (missing, IfDone) tt
  | inr (job, there) ↦
      rw (there, IfDone)
        (record {
          unique_ids = w.unique_ids;
          unique_names = upsert-UniqueNames u a now t.artifacts w.unique_names;
          referenced = upsert-HasJob t.jobs u a now t.artifacts (λ gone. cc) w.referenced;
        })
]

with_uuid-IfDone :
    (o : Option Text) (k : Text → Option Tables)
    → ((u : Text) → IfDone (k u))
    → IfDone (with_uuid o k)
with_uuid-IfDone none k h = tt
with_uuid-IfDone (some u) k h = h u

module _ (uuid : Text → Option Text) where
  execute-IfDone :
      (s : Statement) (now : ℕ) (t : Tables) → IsWellFormed t → IfDone (execute uuid s now t)
  unfolding execute
  execute-IfDone (create_job j) now t w =
      with_uuid-IfDone (uuid j.id) _ (λ u. insert_job-IsWellFormed u j now t w)
  execute-IfDone (set_status id status message) now t w =
      with_uuid-IfDone (uuid id) _ (λ u. update_status-IsWellFormed u status message now t w)
  execute-IfDone (add_artifact id a) now t w =
      with_uuid-IfDone (uuid id) _ (λ u. insert_artifact-IsWellFormed u a now t w)

  -- Every statement of the two stores that Postgres accepts keeps the tables well-formed: ids of jobs
  -- are distinct, a job has at most one artifact of a name, and every artifact has its job.
  execute-IsWellFormed :
      (s : Statement) (now : ℕ) (t t' : Tables)
      → IsWellFormed t
      → execute uuid s now t ≡ some t'
      → IsWellFormed t'
  execute-IsWellFormed s now t t' w e = rw e at (execute-IfDone s now t w)
