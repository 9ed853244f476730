-- ===== src/Worker/Handler/Success.antt =====
-- What holds when the handler of services/worker-image/cmd/worker/main.go returns no error.
use media_forge.Prelude.{
  ◌≡◌, ◌≢◌, refl, ap, ◌∙◌, Bool, true, false, Option, none, some, List, [], ℤ, pos, All,
  Option-cases, inl, inr, ◌⊎◌,
}
use media_forge.Text.{Text, codes}
use media_forge.Text.Equality.{eq_iff}
use media_forge.Float.{float_zero}
use media_forge.Database.{Tables, find_job, read_status, row_status, status_at}
use media_forge.Errors.{Result, ok, err}
use media_forge.Worker.Consume.{Job, JobParams}
use media_forge.Worker.Processor.{Bytes, Imaging, Options, Params, Variant, process}
use media_forge.Worker.Processor.Variants.{process-Made}
use media_forge.Worker.Services.{
  Services, World, Link, runs, lost, unanswered, get, publish_event, status_of, found_status,
  status_over,
}
use media_forge.Worker.Handler.{
  params_of, processor_params, recorded, processed, transform, work, unless, is_completed,
  handle_job, handle,
}
use media_forge.Worker.Handler.Keeps.{get-tables, set_job_status-Keeps}
use media_forge.Worker.Handler.Recorded.{IsCompleted, IsRecorded, HasRow, HasRow-keep}
use media_forge.Worker.Handler.Stored.{fail-not_none, store_all-Done}

-- The parameters that a job asks for, one by one, or Go's zero of each where it has none.
pub record Asks (p : JobParams) (q : Params) : Type 0 where
  pub resize_max_dim : q.resize_max_dim ≡ p.resize_max_dim
  pub thumbnail_size : q.thumbnail_size ≡ p.thumbnail_size
  pub resize_format : q.resize_format ≡ p.resize_format
  pub quality : q.quality ≡ p.quality
  pub blur_sigma : q.blur_sigma ≡ p.blur_sigma

abbrev pub AsksFor : Option JobParams → Params → Type 0
AsksFor none q =
    (q.resize_max_dim ≡ pos 0)
    × (q.thumbnail_size ≡ pos 0)
    × (q.resize_format ≡ [])
    × (q.quality ≡ pos 0)
    × (q.blur_sigma ≡ float_zero)
AsksFor (some p) q = Asks p q

params_of-AsksFor : (o : Option JobParams) → AsksFor o (params_of o)
params_of-AsksFor none = (refl, refl, refl, refl, refl)
params_of-AsksFor (some p) = record {
  resize_max_dim = refl;
  thumbnail_size = refl;
  resize_format = refl;
  quality = refl;
  blur_sigma = refl;
}

module _ (S : Services) (I : Imaging) (options : Options) (job : Job) (u : Text)
    (known : S.uuid job.id ≡ some u) where
  open S use {Outside}

  -- The object that a read of the source gave, and the variants made of it, all of them recorded.
  pub record Stored (t : Tables) : Type 0 where
    pub source : Bytes
    pub before : World Outside
    pub read : (get S job.source_key before).0 ≡ ok source
    pub variants : List Variant
    pub asked : AsksFor job.params (processor_params job)
    pub made : process I options source job.operations (processor_params job) ≡ ok variants
    pub recorded : All (IsRecorded job u t) variants

  processed-Stored :
      (src : Bytes) (r : Result (List Variant)) (before w : World Outside)
      → (get S job.source_key before).0 ≡ ok src
      → process I options src job.operations (processor_params job) ≡ r
      → HasRow u w.tables
      → (processed S I options job r w).0 ≡ none
      → IsCompleted u (processed S I options job r w).1.tables
        × Stored (processed S I options job r w).1.tables
  processed-Stored src (ok vs) before w g p here e =
      let (img, made) = process-Made I options src job.operations (processor_params job) vs p in
      let (complete, recorded) = store_all-Done S I options job u known img vs made w here e in
      (
        complete,
        record {
          source = src;
          before = before;
          read = g;
          variants = vs;
          asked = params_of-AsksFor job.params;
          made = p;
          recorded = recorded;
        },
      )
  processed-Stored src (err x) before w g p here e = absurd (fail-not_none S I options job _ w e)

  transform-Stored :
      (r : Result Bytes) (before w : World Outside)
      → (get S job.source_key before).0 ≡ r
      → HasRow u w.tables
      → (transform S I options job r w).0 ≡ none
      → IsCompleted u (transform S I options job r w).1.tables
        × Stored (transform S I options job r w).1.tables
  unfolding publish_event
  transform-Stored (ok src) before w g here e = processed-Stored src _ before _ g refl here e
  transform-Stored (err x) before w g here e = absurd (fail-not_none S I options job _ w e)

  work-Stored :
      (w : World Outside)
      → HasRow u w.tables
      → (work S I options job w).0 ≡ none
      → IsCompleted u (work S I options job w).1.tables × Stored (work S I options job w).1.tables
  unfolding work publish_event
  work-Stored w here e =
      transform-Stored _ _ _ refl
        (rw get-tables (
          set_job_status-Keeps S job (λ v. Unit {0}) (HasRow u)
            (HasRow-keep S job u known (λ v. Unit {0})) _ _ w here))
        e

  read-IsCompleted :
      (t : Tables) → read_status S.uuid job.id t ≡ some (codes "completed") → IsCompleted u t
  unfolding read_status
  read-IsCompleted t e = elim (Option-cases (find_job u t.jobs)) [
    | inl gone ↦ absurd (cc (ap row_status gone, ap (status_at t) known))
    | inr (row, there) ↦ (row, there, cc (ap row_status there, ap (status_at t) known))
  ]

  unless-IsCompleted :
      (b : Bool) (before w : World Outside)
      → (b ≡ true → IsCompleted u w.tables)
      → HasRow u w.tables
      → (unless S I options job b (work S I options job) w).0 ≡ none
      → IsCompleted u (unless S I options job b (work S I options job) w).1.tables
        × (IsCompleted u w.tables
            ⊎ Stored (unless S I options job b (work S I options job) w).1.tables)
  unless-IsCompleted true before w c here e = (c refl, inl (c refl))
  unless-IsCompleted false before w c here e =
      let (complete, stored) = work-Stored w here e in (complete, inr stored)

  status-IsCompleted :
      (w : World Outside)
      → is_completed S I options job (status_of S job.id w).0 ≡ true
      → IsCompleted u w.tables
  unfolding status_of
  status-IsCompleted w e = over (S.link w.outside).0 e
    where
      found :
          (o : Option Text)
          → read_status S.uuid job.id w.tables ≡ o
          → is_completed S I options job (found_status S o) ≡ true
          → IsCompleted u w.tables
      found none p h = cc
      found (some status) p h =
          read-IsCompleted w.tables (p ∙ ap some ((eq_iff status (codes "completed")).0 h))

      over :
          (l : Link)
          → is_completed S I options job (status_over S job.id l w) ≡ true
          → IsCompleted u w.tables
      over runs h = found _ refl h
      over (lost x) h = cc
      over (unanswered x) h = cc

  -- Where the tables have the job, a handler that returns no error has left its status `completed`.
  -- The job was completed before, or an object was read under its source key, it was processed with
  -- the job's operations and with its parameters, each as the job has it, or zero where it has none,
  -- and for every variant that came of it the job's artifact of that name has its key, its content
  -- type and its metadata.
  pub handle-IsCompleted :
      (attempt : ℤ) (w : World Outside)
      → find_job u w.tables.jobs ≢ none
      → (handle S I options job attempt w).0 ≡ none
      → IsCompleted u (handle S I options job attempt w).1.tables
        × (IsCompleted u w.tables ⊎ Stored (handle S I options job attempt w).1.tables)
  unfolding handle handle_job HasRow status_of
  handle-IsCompleted attempt w here e =
      unless-IsCompleted _ w (status_of S job.id w).1 (λ p. status-IsCompleted w p) here e
