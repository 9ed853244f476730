-- ===== src/Database/Rows.antt =====
-- What the statements of the stores do to the rows that a key finds.
use media_forge.Prelude.{
  ℕ, ◌≡◌, refl, ◌&&◌, Option, none, some, List, [], ◌∷◌, ◌++◌, arith, if◌then◌else◌,
}
use media_forge.Text.{Text, ◌==◌}
use media_forge.Text.Equality.{eq_iff}
use media_forge.Database.{
  JobRow, ArtifactRow, NewArtifact, find_job, find_artifact, update_status, upsert, artifact_row,
  null_if_empty,
}

abbrev pub updated : Text → Text → ℕ → Option JobRow → Option JobRow
updated status message now none = none
updated status message now (some j) =
    some (record j { status = status; error = null_if_empty message; updated_at = now })

pub find_job-append :
    (u : Text) (js ks : List JobRow)
    → find_job u (js ++ ks) ≡ elim (find_job u js) [ none ↦ find_job u ks | some j ↦ some j ]
unfolding find_job
find_job-append u [] ks = refl
find_job-append u (j ∷ js) ks = ground (arith, find_job-append u js ks)

pub find_job-update_status :
    (u v status message : Text) (now : ℕ) (js : List JobRow)
    → find_job v (update_status u status message now js)
      ≡ (if u == v then updated status message now (find_job v js) else find_job v js)
unfolding find_job update_status
find_job-update_status u v status message now [] = ground arith
find_job-update_status u v status message now (j ∷ js) = ground (
  arith,
  eq_iff j.id u,
  eq_iff j.id v,
  eq_iff u v,
  find_job-update_status u v status message now js,
)

abbrev pub first_created : ℕ → Option ArtifactRow → ℕ
first_created now none = now
first_created now (some r) = r.created_at

pub find_artifact-upsert :
    (u v name : Text) (a : NewArtifact) (now : ℕ) (rows : List ArtifactRow)
    → find_artifact v name (upsert u a now rows) ≡ (
        if u == v && a.name == name
        then some (artifact_row u a (first_created now (find_artifact v name rows)))
        else find_artifact v name rows)
unfolding find_artifact upsert
find_artifact-upsert u v name a now [] = ground arith
find_artifact-upsert u v name a now (r ∷ rest) = ground (
  arith,
  eq_iff r.job_id u,
  eq_iff r.job_id v,
  eq_iff u v,
  eq_iff r.name a.name,
  eq_iff r.name name,
  eq_iff a.name name,
  find_artifact-upsert u v name a now rest,
)
