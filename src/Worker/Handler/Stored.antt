-- ===== src/Worker/Handler/Stored.antt =====
-- What the loop of the handler of services/worker-image/cmd/worker/main.go over the variants, and what
-- follows it, have done when they return no error.
use media_forge.Prelude.{◌≡◌, ◌≢◌, refl, Option, none, some, List, [], ◌∷◌, ℤ, All}
use media_forge.Text.{Text, codes}
use media_forge.Errors.{Error, Result, ok, err}
use media_forge.Worker.Consume.{Job}
use media_forge.Worker.Processor.{Imaging, Options, Variant}
use media_forge.Worker.Services.{Services, World, Io, put, publish_event}
use media_forge.Worker.Handler.{
  new_artifact, fail, finished, finish, recorded, uploaded, store_variant, store_all,
}
use media_forge.Worker.Handler.Keeps.{record_artifact-Keeps, store_all-Keeps}
use media_forge.Worker.Handler.Recorded.{
  IsCompleted, IsRecorded, HasRow, set_job_status-ok, record_artifact-ok, completes, records,
  HasRow-keep, V, IsRecorded-keep,
}

module _ (S : Services) (I : Imaging) (options : Options) (job : Job) where
  open S use {Outside}

  pub fail-not_none : (cause : Error) (w : World Outside) → (fail S I options job cause w).0 ≢ none
  unfolding fail
  fail-not_none cause w e = cc

module _ (S : Services) (I : Imaging) (options : Options) (job : Job) (u : Text)
    (known : S.uuid job.id ≡ some u) where
  open S use {Outside}
  open I use {Image}

  module _ (img : Image) where
    abbrev W : Variant → Type 0
    W = V S job u known I options img

    -- What a run of the loop and of what follows it has done when it returns no error.
    abbrev Done : List Variant → Io S (Option Error) → Type 0
    Done vs m =
        (w : World Outside)
        → HasRow u w.tables
        → (m w).0 ≡ none
        → IsCompleted u (m w).1.tables × All (IsRecorded job u (m w).1.tables) vs

    finished-Done :
        (r : Result (Unit {0})) (w : World Outside)
        → (r ≡ ok tt → IsCompleted u w.tables)
        → (finished S I options job r w).0 ≡ none
        → IsCompleted u (finished S I options job r w).1.tables
    unfolding publish_event
    finished-Done (ok done) w c e = c refl
    finished-Done (err x) w c e = absurd (fail-not_none S I options job _ w e)

    finish-Done : Done [] (finish S I options job)
    unfolding finish
    finish-Done w here e = (
      finished-Done _ _
          (λ p.
            let (now, run) = set_job_status-ok S job.id (codes "completed") [] w p in
            completes S job u known now w.tables _ here run)
          e,
      tt,
    )

    module _ (v : Variant) (made : W v) (vs : List Variant) (all_made : All W vs)
        (rest_done : Done vs (store_all S I options job vs)) where
      recorded-Done :
          (r : Result (Unit {0})) (w : World Outside)
          → (r ≡ ok tt → IsRecorded job u w.tables v)
          → HasRow u w.tables
          → (recorded S I options job v (store_all S I options job vs) r w).0 ≡ none
          → IsCompleted u (recorded S I options job v (store_all S I options job vs) r w).1.tables
            × All
                (IsRecorded job u
                  (recorded S I options job v (store_all S I options job vs) r w).1.tables)
                (v ∷ vs)
      unfolding publish_event
      recorded-Done (ok done) w stored here e =
          let (complete, others) = rest_done _ here e in
          (
            complete,
            (
              store_all-Keeps S I options job W (λ t. IsRecorded job u t v)
                  (IsRecorded-keep S job u known I options img v made) vs all_made _ (stored refl),
              others,
            ),
          )
      recorded-Done (err x) w stored here e = absurd (fail-not_none S I options job _ w e)

      uploaded-Done :
          (r : Result ℤ) (w : World Outside)
          → HasRow u w.tables
          → (uploaded S I options job v (store_all S I options job vs) r w).0 ≡ none
          → IsCompleted u (uploaded S I options job v (store_all S I options job vs) r w).1.tables
            × All
                (IsRecorded job u
                  (uploaded S I options job v (store_all S I options job vs) r w).1.tables)
                (v ∷ vs)
      uploaded-Done (ok size) w here e =
          recorded-Done _ _
            (λ p.
              let (now, run) = record_artifact-ok S job.id (new_artifact job v size) w p in
              records S job u known v size now w.tables _ run)
            (record_artifact-Keeps S job W (HasRow u) (HasRow-keep S job u known W) v size w made
              here)
            e
      uploaded-Done (err x) w here e = absurd (fail-not_none S I options job _ w e)

      store_variant-Done :
          Done (v ∷ vs) (store_variant S I options job v (store_all S I options job vs))
      unfolding store_variant put
      store_variant-Done w here e = uploaded-Done _ _ here e

    pub store_all-Done : (vs : List Variant) → All W vs → Done vs (store_all S I options job vs)
    unfolding store_all
    store_all-Done [] made = finish-Done
    store_all-Done (v ∷ vs) made = store_variant-Done v made.0 vs made.1 (store_all-Done vs made.1)
