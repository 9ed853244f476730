-- ===== src/Worker/Handler/Recorded.antt =====
-- What the statements that the handler of services/worker-image/cmd/worker/main.go sends leave in the
-- tables, where they are accepted.
use media_forge.Prelude.{
  ℕ, ◌≡◌, ◌≢◌, refl, ap, ◌∙◌, false, none, some, [], ℤ, arith, Option-cases, Bool-cases, inl, inr,
}
use media_forge.Text.{Text, codes, ◌==◌}
use media_forge.Text.Equality.{eq_iff, eq_refl}
use media_forge.Database.{
  Tables, JobRow, ArtifactRow, NewArtifact, Statement, create_job, set_status, add_artifact,
  find_job, find_artifact, execute, artifact_row,
}
use media_forge.Database.Rows.{find_job-update_status, first_created, find_artifact-upsert}
use media_forge.Database.Effects.{execute-set_status, execute-add_artifact}
use media_forge.Errors.{Result, ok, err}
use media_forge.Worker.Consume.{Job}
use media_forge.Worker.Processor.{Imaging, Options, Variant}
use media_forge.Worker.Processor.Variants.{Made, Made-unique}
use media_forge.Worker.Services.{
  Services, World, Link, runs, lost, unanswered, answer, over_link, exec, wrap, set_job_status,
  record_artifact,
}
use media_forge.Worker.Handler.{artifact_key, new_artifact, processor_params}
use media_forge.Worker.Handler.Keeps.{About}

module _ (S : Services) where
  open S use {Outside}

  over_link-ok :
      (s : Statement) (l : Link) (w : World Outside)
      → (over_link S s l w).0 ≡ ok tt
      → (now : ℕ) × (execute S.uuid s now w.tables ≡ some (over_link S s l w).1.tables)
  over_link-ok s runs w e = elim (Option-cases (execute S.uuid s (S.now w.outside) w.tables)) [
    | inl refused ↦ absurd (cc (ap (answer S s) refused))
    | inr (t, done) ↦ (S.now w.outside, rw done)
  ]
  over_link-ok s (lost x) w e = cc
  over_link-ok s (unanswered x) w e = cc

  wrap-ok {ℓ} :
      {A : Type ℓ} (context : Text) (r : Result A) (a : A) → wrap S context r ≡ ok a → r ≡ ok a
  wrap-ok context (ok b) a e = e
  wrap-ok context (err x) a e = cc

  -- An accepted statement has run on the tables.
  pub set_job_status-ok :
      (id status text : Text) (w : World Outside)
      → (set_job_status S id status text w).0 ≡ ok tt
      → (now : ℕ) × (execute S.uuid (set_status id status text) now w.tables
          ≡ some (set_job_status S id status text w).1.tables)
  unfolding set_job_status exec
  set_job_status-ok id status text w e =
      over_link-ok (set_status id status text) _ _ (wrap-ok _ _ tt e)

  pub record_artifact-ok :
      (id : Text) (a : NewArtifact) (w : World Outside)
      → (record_artifact S id a w).0 ≡ ok tt
      → (now : ℕ) × (execute S.uuid (add_artifact id a) now w.tables
          ≡ some (record_artifact S id a w).1.tables)
  unfolding record_artifact exec
  record_artifact-ok id a w e = over_link-ok (add_artifact id a) _ _ (wrap-ok _ _ tt e)

-- The row of the job with this UUID has the status `completed`.
abbrev pub IsCompleted : Text → Tables → Type 0
IsCompleted u t = (row : JobRow) × (find_job u t.jobs ≡ some row) × (row.status ≡ codes "completed")

-- The tables have the artifact row of a variant: its key in the object store, its content type and
-- its metadata.
pub record IsRecorded (job : Job) (u : Text) (t : Tables) (v : Variant) : Type 0 where
  pub row : ArtifactRow
  pub found : find_artifact u v.name t.artifacts ≡ some row
  pub object_key : row.object_key ≡ artifact_key job v
  pub content_type : row.content_type ≡ v.content_type
  pub metadata : row.metadata ≡ v.metadata

-- The tables have the job with this UUID.
unfoldable pub HasRow : Text → Tables → Type 0
HasRow u t = find_job u t.jobs ≢ none

module _ (S : Services) (job : Job) (u : Text) (known : S.uuid job.id ≡ some u) where
  same_uuid : (id v : Text) → id ≡ job.id → S.uuid id ≡ some v → v ≡ u
  same_uuid id v e p = cc (ap S.uuid e)

  pub completes :
      (now : ℕ) (t t' : Tables)
      → HasRow u t
      → execute S.uuid (set_status job.id (codes "completed") []) now t ≡ some t'
      → IsCompleted u t'
  unfolding HasRow
  completes now t t' here e =
      let (v, p, same) = execute-set_status S.uuid job.id (codes "completed") [] now t t' e in
      elim (Option-cases (find_job u t.jobs)) [
        | inl gone ↦ absurd (here gone)
        | inr (row, there) ↦ (
          record row { status = codes "completed"; error = none; updated_at = now },
          rw (
            same,
            same_uuid job.id v refl p,
            find_job-update_status u u (codes "completed") [] now t.jobs,
            eq_refl u,
            there,
          ),
          refl,
        )
      ]

  -- What recording a variant leaves.
  pub records :
      (v : Variant) (size : ℤ) (now : ℕ) (t t' : Tables)
      → execute S.uuid (add_artifact job.id (new_artifact job v size)) now t ≡ some t'
      → IsRecorded job u t' v
  records v size now t t' e =
      let (x, p, same) = execute-add_artifact S.uuid job.id (new_artifact job v size) now t t' e in
      record {
        row =
            artifact_row u (new_artifact job v size)
              (first_created now (find_artifact u v.name t.artifacts));
        found = rw (
          same,
          same_uuid job.id x refl p,
          find_artifact-upsert u u v.name (new_artifact job v size) now t.artifacts,
          eq_refl u,
          eq_refl v.name,
        );
        object_key = refl;
        content_type = refl;
        metadata = refl;
      }

  pub HasRow-keep :
      (V : Variant → Type 0) (s : Statement) (now : ℕ) (t t' : Tables)
      → About job V s
      → execute S.uuid s now t ≡ some t'
      → HasRow u t
      → HasRow u t'
  unfolding HasRow
  HasRow-keep V (create_job j) now t t' a e h = absurd a
  HasRow-keep V (set_status i status text) now t t' a e h =
      let (x, p, same) = execute-set_status S.uuid i status text now t t' e in
      rw same (rw find_job-update_status (ground (arith, h)))
  HasRow-keep V (add_artifact i new) now t t' a e h =
      let (x, p, same) = execute-add_artifact S.uuid i new now t t' e in rw same h

  module _ (I : Imaging) (options : Options) (img : I.Image) where
    abbrev pub V : Variant → Type 0
    V = Made I options (processor_params job) img

    -- A later variant of the same name is the same variant.
    pub IsRecorded-keep :
        (v : Variant)
        → V v
        → (s : Statement) (now : ℕ) (t t' : Tables) → About job V s
        → execute S.uuid s now t ≡ some t'
        → IsRecorded job u t v
        → IsRecorded job u t' v
    IsRecorded-keep v made (create_job j) now t t' a e h = absurd a
    IsRecorded-keep v made (set_status i status text) now t t' a e h =
        let (x, p, same) = execute-set_status S.uuid i status text now t t' e in
        rw same (record {
          row = h.row;
          found = h.found;
          object_key = h.object_key;
          content_type = h.content_type;
          metadata = h.metadata;
        })
    IsRecorded-keep v made (add_artifact i new) now t t' (about, of) e h =
        elim (Bool-cases (of.source.name == v.name)) [
          | inl again ↦
              let twin : of.source ≡ v =
                Made-unique I options (processor_params job) img of.source v of.made made
                  ((eq_iff _ _).0 again) in
              let new_v : new ≡ new_artifact job v of.size =
                of.same ∙ ap (λ x. new_artifact job x of.size) twin in
              records v of.size now t t' (rw (← new_v, ← about) e)
          | inr other ↦
              let (x, p, same) = execute-add_artifact S.uuid i new now t t' e in
              let named : new.name == v.name ≡ false =
                ap (λ (a : NewArtifact). a.name == v.name) of.same ∙ other in
              rw same (record {
                row = h.row;
                found = rw find_artifact-upsert (ground (arith, named, h.found));
                object_key = h.object_key;
                content_type = h.content_type;
                metadata = h.metadata;
              })
        ]
