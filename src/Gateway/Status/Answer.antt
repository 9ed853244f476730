-- ===== src/Gateway/Status/Answer.antt =====
-- What `handleStatus` of services/api-gateway/internal/httpapi/handlers.go shows of a job.
use mathlib.Core.List.{Perm}
use mathlib.Core.List.Perm
use media_forge.Prelude.{
  ◌≡◌, inl, inr, refl, Bool, true, Option, none, some, List, [], ◌∷◌, map, leb, Bool-cases,
}
use media_forge.Text.{Text}
use media_forge.Database.{JobRow, ArtifactRow, Tables, find_job}
use media_forge.Gateway.Status.{
  artifacts_of, insert_artifact_row, by_time, without_error, get_job, with_job, out_artifact,
  status_response, StatusResponse, found, missing, invalid_id, failed, handle_status,
}

insert_artifact_row-Perm :
    (a : ArtifactRow) (l : List ArtifactRow) → Perm (insert_artifact_row a l) (a ∷ l)
unfolding insert_artifact_row
insert_artifact_row-Perm a [] = Perm.refl (a ∷ [])
insert_artifact_row-Perm a (b ∷ l) = elim (Bool-cases (leb a.created_at b.created_at)) [
  | inl e ↦ rw e (Perm.refl (a ∷ b ∷ l))
  | inr e ↦ rw e (Perm.trans (Perm.cons b (insert_artifact_row-Perm a l)) (Perm.swap a b l))
]

pub by_time-Perm : (l : List ArtifactRow) → Perm (by_time l) l
unfolding by_time
by_time-Perm [] = Perm.refl []
by_time-Perm (a ∷ l) =
    Perm.trans (insert_artifact_row-Perm a (by_time l)) (Perm.cons a (by_time-Perm l))

module _ (is_uuid : Text → Bool) (uuid : Text → Option Text) (presign : Text → Option Text) where
  -- How an answer relates to the tables and the id.
  abbrev pub Shows : Text → Tables → StatusResponse → Type 0
  Shows u t missing = find_job u t.jobs ≡ none
  Shows u t (found j artifacts) =
      ((row : JobRow) × (find_job u t.jobs ≡ some row) × (j ≡ without_error row))
      × Perm artifacts (map (out_artifact is_uuid uuid presign) (artifacts_of u t.artifacts))
  Shows u t invalid_id = ⊥
  Shows u t failed = ⊥

  with_job-Shows :
      (u : Text) (t : Tables) (o : Option JobRow)
      → find_job u t.jobs ≡ o
      → Shows u t (status_response is_uuid uuid presign (with_job u o (some t)))
  with_job-Shows u t none e = e
  with_job-Shows u t (some j) e = (
    (j, e, refl),
    Perm.map (out_artifact is_uuid uuid presign) (by_time-Perm (artifacts_of u t.artifacts)),
  )

  -- For a valid id, and where both queries see the same tables: 404 if the job has no row, and
  -- otherwise 200 with its row, but for its error, and with each of its artifacts once.
  pub handle_status-Shows :
      (id u : Text) (t : Tables)
      → is_uuid id ≡ true
      → uuid id ≡ some u
      → Shows u t (handle_status is_uuid uuid presign id (some t) (some t))
  unfolding handle_status get_job
  handle_status-Shows id u t valid known =
      rw (valid, known) (with_job-Shows u t (find_job u t.jobs) refl)
