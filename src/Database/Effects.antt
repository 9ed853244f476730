-- ===== src/Database/Effects.antt =====
-- What each statement of services/worker-image/internal/store/postgres.go and of
-- services/api-gateway/internal/store/postgres.go does to the tables when it is accepted.
use media_forge.Prelude.{ℕ, ◌≡◌, refl, Option, none, some, [], ◌∷◌, ◌++◌, arith}
use media_forge.Text.{Text}
use media_forge.Database.{
  NewJob, NewArtifact, Tables, find_job, job_row, insert_job, create_job, update_status, upsert,
  insert_artifact, set_status, add_artifact, execute, with_uuid,
}

insert_artifact-eq :
    (u : Text) (a : NewArtifact) (now : ℕ) (t t' : Tables)
    → insert_artifact u a now t ≡ some t'
    → t' ≡ record t { artifacts = upsert u a now t.artifacts }
unfolding insert_artifact
insert_artifact-eq u a now t t' h = ground arith

insert_job-eq :
    (u : Text) (j : NewJob) (now : ℕ) (t t' : Tables)
    → insert_job u j now t ≡ some t'
    → (find_job u t.jobs ≡ none) × (t' ≡ record t { jobs = t.jobs ++ job_row u j now ∷ [] })
unfolding insert_job
insert_job-eq u j now t t' h = (ground arith, ground arith)

module _ (uuid : Text → Option Text) where
  -- The tables after an accepted `SetStatus`.
  pub execute-set_status :
      (id status text : Text) (now : ℕ) (t t' : Tables)
      → execute uuid (set_status id status text) now t ≡ some t'
      → (u : Text) × (uuid id ≡ some u)
        × (t' ≡ record t { jobs = update_status u status text now t.jobs })
  execute-set_status id status text now t t' e = go (uuid id) refl (unfold execute in e)
    where
      go :
          (o : Option Text)
          → uuid id ≡ o
          → with_uuid o (λ u. some (record t { jobs = update_status u status text now t.jobs }))
            ≡ some t'
          → (u : Text) × (uuid id ≡ some u)
            × (t' ≡ record t { jobs = update_status u status text now t.jobs })
      go none p h = cc
      go (some u) p h = (u, p, cc)

  -- The tables after an accepted `AddArtifact`.
  pub execute-add_artifact :
      (id : Text) (a : NewArtifact) (now : ℕ) (t t' : Tables)
      → execute uuid (add_artifact id a) now t ≡ some t'
      → (u : Text) × (uuid id ≡ some u) × (t' ≡ record t { artifacts = upsert u a now t.artifacts })
  execute-add_artifact id a now t t' e = go (uuid id) refl (unfold execute in e)
    where
      go :
          (o : Option Text)
          → uuid id ≡ o
          → with_uuid o (λ u. insert_artifact u a now t) ≡ some t'
          → (u : Text) × (uuid id ≡ some u)
            × (t' ≡ record t { artifacts = upsert u a now t.artifacts })
      go none p h = cc
      go (some u) p h = (u, p, insert_artifact-eq u a now t t' h)

  -- The tables after an accepted `CreateJob`, whose id had no row.
  pub execute-create_job :
      (j : NewJob) (now : ℕ) (t t' : Tables)
      → execute uuid (create_job j) now t ≡ some t'
      → (u : Text) × (uuid j.id ≡ some u)
        × (find_job u t.jobs ≡ none)
        × (t' ≡ record t { jobs = t.jobs ++ job_row u j now ∷ [] })
  execute-create_job j now t t' e = go (uuid j.id) refl (unfold execute in e)
    where
      go :
          (o : Option Text)
          → uuid j.id ≡ o
          → with_uuid o (λ u. insert_job u j now t) ≡ some t'
          → (u : Text) × (uuid j.id ≡ some u)
            × (find_job u t.jobs ≡ none)
            × (t' ≡ record t { jobs = t.jobs ++ job_row u j now ∷ [] })
      go none p h = cc
      go (some u) p h = let (new, same) = insert_job-eq u j now t t' h in (u, p, new, same)
