-- ===== src/Worker/Handler/Events/Published.antt =====
-- The handler of services/worker-image/cmd/worker/main.go publishes words of the grammar of events.
use mathlib.Core.List.{append_assoc, append-nil}
use media_forge.Prelude.{◌≡◌, refl, sym, ap, ◌∙◌, Bool, true, false, Option, List, [], ◌∷◌, ◌++◌, ℤ}
use media_forge.Text.{codes}
use media_forge.Errors.{Error, message, Result, ok, err}
use media_forge.Worker.Consume.{Job}
use media_forge.Worker.Processor.{Bytes, Imaging, Options, Variant, process}
use media_forge.Worker.Services.{
  Event, Services, World, Io, status_of, set_job_status, record_artifact, get, put, publish_event,
}
use media_forge.Worker.Handler.{
  event, artifact_key, new_artifact, processor_params, fail, finished, finish, recorded, uploaded,
  store_variant, store_all, processed, transform, work, unless, is_completed, handle_job, handle,
}
use media_forge.Worker.Handler.Events.{
  Phase, ready, downloading, transforming, storing, has_begun, Run, skips, starts, transforms,
  makes, stores, completes, fails, set_job_status-sent, record_artifact-sent, get-sent, put-sent,
  status_of-sent,
}

module _ (S : Services) (I : Imaging) (options : Options) (job : Job) where
  open S use {Outside}

  -- From `w` on, the part of the handler has published the events of a run from the phase.
  abbrev Ran : Phase → World Outside → Option Error × World Outside → Type 0
  Ran p w (r, w') = (es : List Event) × (w'.sent ≡ w.sent ++ es) × Run I options job p es r

  abbrev Runs : Phase → Io S (Option Error) → Type 0
  Runs p m = (w : World Outside) → Ran p w (m w)

  -- Before the part, nothing was published.
  quiet :
      (p : Phase) (m : Io S (Option Error)) (w w₁ : World Outside)
      → Runs p m
      → w₁.sent ≡ w.sent
      → Ran p w (m w₁)
  quiet p m w w₁ h same = let (es, sent, run) = h w₁ in (es, sent ∙ ap (λ l. l ++ es) same, run)

  -- Before the part, one event was.
  said :
      (p p' : Phase) (m : Io S (Option Error)) (w w₁ : World Outside) (e : Event)
      → ((es : List Event) (r : Option Error)
          → Run I options job p es r
          → Run I options job p' (e ∷ es) r)
      → Runs p m
      → w₁.sent ≡ w.sent ++ e ∷ []
      → Ran p' w (m w₁)
  said p p' m w w₁ e step h one =
      let (es, sent, run) = h w₁ in
      (e ∷ es, sent ∙ ap (λ l. l ++ es) one ∙ append_assoc w.sent (e ∷ []) es, step es _ run)

  -- An event as it is published.
  abbrev stamped : Event → World Outside → Event
  stamped e w = record e { timestamp = S.unix_milli w.outside }

  fail-Runs : (p : Phase) (cause : Error) → has_begun p ≡ true → Runs p (fail S I options job cause)
  unfolding fail publish_event
  fail-Runs p cause h w =
      let (r, w₁) = set_job_status S job.id (codes "failed") (message cause) w in
      (
        stamped (event job (codes "failed") 0 (message cause) []) w₁ ∷ [],
        ap (λ l. l ++ stamped (event job (codes "failed") 0 (message cause) []) w₁ ∷ [])
            (set_job_status-sent S job.id (codes "failed") (message cause) w),
        fails p _ cause h (S.unix_milli w₁.outside, refl),
      )

  finished-Runs : (r : Result (Unit {0})) → Runs (storing []) (finished S I options job r)
  unfolding publish_event
  finished-Runs (ok done) w = (_, refl, completes _ (S.unix_milli w.outside, refl))
  finished-Runs (err e) w = fail-Runs (storing []) _ refl w

  finish-Runs : Runs (storing []) (finish S I options job)
  unfolding finish
  finish-Runs w =
      let (r, w₁) = set_job_status S job.id (codes "completed") [] w in
      quiet (storing []) (finished S I options job r) w w₁ (finished-Runs r)
        (set_job_status-sent S job.id (codes "completed") [] w)

  module _ (v : Variant) (vs : List Variant) (rest : Io S (Option Error))
      (later : Runs (storing vs) rest) where
    recorded-Runs :
        (r : Result (Unit {0})) → Runs (storing (v ∷ vs)) (recorded S I options job v rest r)
    unfolding publish_event
    recorded-Runs (ok done) w =
        said (storing vs) (storing (v ∷ vs)) rest w _
          (stamped (event job (codes "processing") 80 [] v.name) w)
          (λ es r run. stores v vs _ es r (S.unix_milli w.outside, refl) run) later refl
    recorded-Runs (err e) w = fail-Runs (storing (v ∷ vs)) _ refl w

    uploaded-Runs : (r : Result ℤ) → Runs (storing (v ∷ vs)) (uploaded S I options job v rest r)
    uploaded-Runs (ok size) w =
        let (r, w₁) = record_artifact S job.id (new_artifact job v size) w in
        quiet (storing (v ∷ vs)) (recorded S I options job v rest r) w w₁ (recorded-Runs r)
          (record_artifact-sent S job.id (new_artifact job v size) w)
    uploaded-Runs (err e) w = fail-Runs (storing (v ∷ vs)) _ refl w

    store_variant-Runs : Runs (storing (v ∷ vs)) (store_variant S I options job v rest)
    unfolding store_variant
    store_variant-Runs w =
        let (r, w₁) = put S (artifact_key job v) v.content_type v.bytes w in
        quiet (storing (v ∷ vs)) (uploaded S I options job v rest r) w w₁ (uploaded-Runs r)
          (put-sent S (artifact_key job v) v.content_type v.bytes w)

  store_all-Runs : (vs : List Variant) → Runs (storing vs) (store_all S I options job vs)
  unfolding store_all
  store_all-Runs [] w = finish-Runs w
  store_all-Runs (v ∷ vs) w =
      store_variant-Runs v vs (store_all S I options job vs) (store_all-Runs vs) w

  processed-Runs :
      (source : Bytes) (r : Result (List Variant))
      → process I options source job.operations (processor_params job) ≡ r
      → Runs transforming (processed S I options job r)
  processed-Runs source (ok vs) e w =
      let (es, sent, run) = store_all-Runs vs w in (es, sent, makes source vs es _ e run)
  processed-Runs source (err x) e w = fail-Runs transforming _ refl w

  transform-Runs : (r : Result Bytes) → Runs downloading (transform S I options job r)
  unfolding publish_event
  transform-Runs (ok source) w =
      let r = process I options source job.operations (processor_params job) in
      said transforming downloading (processed S I options job r) w _
        (stamped (event job (codes "processing") 40 (codes "transforming") []) w)
        (λ es r run. transforms _ es r (S.unix_milli w.outside, refl) run)
        (processed-Runs source r refl) refl
  transform-Runs (err e) w = fail-Runs downloading _ refl w

  -- The source is read, and what follows.
  abbrev download : Io S (Option Error)
  download w = let (r, w₁) = get S job.source_key w in transform S I options job r w₁

  download-Runs : Runs downloading download
  download-Runs w =
      let (r, w₁) = get S job.source_key w in
      quiet downloading (transform S I options job r) w w₁ (transform-Runs r)
        (get-sent S job.source_key w)

  work-Runs : Runs ready (work S I options job)
  unfolding work publish_event
  work-Runs w =
      let (r, w₁) = set_job_status S job.id (codes "processing") [] w in
      said downloading ready download w _
        (stamped (event job (codes "processing") 10 (codes "downloading source") []) w₁)
        (λ es r run. starts _ es r (S.unix_milli w₁.outside, refl) run) download-Runs
        (ap
          (λ l.
            l
            ++ stamped (event job (codes "processing") 10 (codes "downloading source") []) w₁ ∷ [])
          (set_job_status-sent S job.id (codes "processing") [] w))

  unless-Runs : (b : Bool) → Runs ready (unless S I options job b (work S I options job))
  unless-Runs true w = ([], sym (append-nil w.sent), skips)
  unless-Runs false w = work-Runs w

  -- Whatever fails on the way, the handler publishes a run of events: none if it skips the job, and
  -- otherwise `processing` at 10, at 40, at 80 for every variant that the processor has made of the
  -- source, in order and with its name, and `completed` at 100 if it returns no error; or such events
  -- up to a place after the first, then `failed` with the text of the error that it returns.
  pub handle-Run :
      (attempt : ℤ) (w : World Outside)
      → (es : List Event) × ((handle S I options job attempt w).1.sent ≡ w.sent ++ es)
        × Run I options job ready es (handle S I options job attempt w).0
  unfolding handle handle_job
  handle-Run attempt w =
      let (r, w₁) = status_of S job.id w in
      quiet ready (unless S I options job (is_completed S I options job r) (work S I options job)) w
        w₁ (unless-Runs (is_completed S I options job r)) (status_of-sent S job.id w)
