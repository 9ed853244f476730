-- ===== src/Worker/Handler/Keeps.antt =====
-- The handler of services/worker-image/cmd/worker/main.go changes the tables only by statements
-- about its own job: what such statements keep, it keeps.
use media_forge.Prelude.{
  ℕ, ◌≡◌, refl, Bool, true, false, Option, some, List, [], ◌∷◌, ℤ, All, Option-cases, inl, inr,
}
use media_forge.Text.{Text, codes}
use media_forge.Database.{
  Tables, NewArtifact, Statement, create_job, set_status, add_artifact, execute,
}
use media_forge.Errors.{Error, Result, ok, err}
use media_forge.Worker.Consume.{Job}
use media_forge.Worker.Processor.{Bytes, Imaging, Options, Variant, process}
use media_forge.Worker.Services.{
  Event, Link, runs, lost, unanswered, Services, World, Io, over_link, changed, exec, read_object,
  status_of, set_job_status, record_artifact, get, put, publish_event,
}
use media_forge.Worker.Handler.{
  new_artifact, processor_params, fail, finished, finish, recorded, uploaded, store_variant,
  store_all, processed, transform, work, unless, handle_job, handle,
}

-- The artifact is that of a variant with the property `V`.
pub record IsOf (job : Job) (V : Variant → Type 0) (a : NewArtifact) : Type 0 where
  pub source : Variant
  pub size : ℤ
  pub made : V source
  pub same : a ≡ new_artifact job source size

-- The statement sets the status of the job, or records an artifact of a variant of the job.
abbrev pub About : Job → (Variant → Type 0) → Statement → Type 0
About job V (create_job j) = ⊥
About job V (set_status i status text) = i ≡ job.id
About job V (add_artifact i a) = (i ≡ job.id) × IsOf job V a

module _ (S : Services) where
  open S use {Outside}

  pub get-tables : (key : Text) (w : World Outside) → (get S key w).1.tables ≡ w.tables
  unfolding get
  get-tables key w = go (S.get_object key w.outside).0 _
    where
      go :
          (r : Result (Unit {0})) (w' : World Outside)
          → (read_object S key r w').1.tables ≡ w'.tables
      go (ok opened) w' = refl
      go (err e) w' = refl

  module _ (job : Job) (V : Variant → Type 0) (P : Tables → Type 0)
      (keep : (s : Statement) (now : ℕ) (t t' : Tables)
        → About job V s
        → execute S.uuid s now t ≡ some t'
        → P t
        → P t') where
    changed-Keeps :
        (s : Statement) (now : ℕ) (t : Tables)
        → About job V s
        → P t
        → P (changed S t (execute S.uuid s now t))
    changed-Keeps s now t a p = elim (Option-cases (execute S.uuid s now t)) [
      | inl refused ↦ rw refused p
      | inr (t', done) ↦ rw done (keep s now t t' a done p)
    ]

    over_link-Keeps :
        (s : Statement) (l : Link) (w : World Outside)
        → About job V s
        → P w.tables
        → P (over_link S s l w).1.tables
    over_link-Keeps s runs w a p = changed-Keeps s _ _ a p
    over_link-Keeps s (lost e) w a p = p
    over_link-Keeps s (unanswered e) w a p = changed-Keeps s _ _ a p

    pub set_job_status-Keeps :
        (status text : Text) (w : World Outside)
        → P w.tables
        → P (set_job_status S job.id status text w).1.tables
    unfolding set_job_status exec
    set_job_status-Keeps status text w p =
        over_link-Keeps (set_status job.id status text) _ _ refl p

    pub record_artifact-Keeps :
        (v : Variant) (size : ℤ) (w : World Outside)
        → V v
        → P w.tables
        → P (record_artifact S job.id (new_artifact job v size) w).1.tables
    unfolding record_artifact exec
    record_artifact-Keeps v size w made p =
        over_link-Keeps (add_artifact job.id (new_artifact job v size)) _ _
          (refl, record { source = v; size = size; made = made; same = refl }) p

    publish_event-Keeps :
        (e : Event) (w : World Outside) → P w.tables → P (publish_event S e w).1.tables
    unfolding publish_event
    publish_event-Keeps e w p = p

module _ (S : Services) (I : Imaging) (options : Options) (job : Job) (V : Variant → Type 0)
    (P : Tables → Type 0)
    (keep : (s : Statement) (now : ℕ) (t t' : Tables)
      → About job V s
      → execute S.uuid s now t ≡ some t'
      → P t
      → P t') where
  open S use {Outside}

  -- An action that keeps `P` of the tables.
  abbrev Keeping : Io S (Option Error) → Type 0
  Keeping m = (w : World Outside) → P w.tables → P (m w).1.tables

  fail-Keeps : (cause : Error) → Keeping (fail S I options job cause)
  unfolding fail
  fail-Keeps cause w p =
      publish_event-Keeps S job V P keep _ _ (set_job_status-Keeps S job V P keep _ _ w p)

  finish-Keeps : Keeping (finish S I options job)
  unfolding finish
  finish-Keeps w p = go _ _ (set_job_status-Keeps S job V P keep (codes "completed") [] w p)
    where
      go : (r : Result (Unit {0})) → Keeping (finished S I options job r)
      go (ok done) w' p' = publish_event-Keeps S job V P keep _ _ p'
      go (err e) w' p' = fail-Keeps _ w' p'

  module _ (v : Variant) (rest : Io S (Option Error)) (rest-Keeps : Keeping rest) (made : V v) where
    recorded-Keeps : (r : Result (Unit {0})) → Keeping (recorded S I options job v rest r)
    recorded-Keeps (ok done) w p = rest-Keeps _ (publish_event-Keeps S job V P keep _ _ p)
    recorded-Keeps (err e) w p = fail-Keeps _ w p

    uploaded-Keeps : (r : Result ℤ) → Keeping (uploaded S I options job v rest r)
    uploaded-Keeps (ok size) w p =
        recorded-Keeps _ _ (record_artifact-Keeps S job V P keep v size w made p)
    uploaded-Keeps (err e) w p = fail-Keeps _ w p

    store_variant-Keeps : Keeping (store_variant S I options job v rest)
    unfolding store_variant put
    store_variant-Keeps w p = uploaded-Keeps _ _ p

  pub store_all-Keeps : (vs : List Variant) → All V vs → Keeping (store_all S I options job vs)
  unfolding store_all
  store_all-Keeps [] made w p = finish-Keeps w p
  store_all-Keeps (v ∷ vs) made w p =
      store_variant-Keeps v (store_all S I options job vs) (store_all-Keeps vs made.1) made.0 w p

  module _
      (made : (src : Bytes) (vs : List Variant)
        → process I options src job.operations (processor_params job) ≡ ok vs
        → All V vs) where
    processed-Keeps :
        (src : Bytes) (r : Result (List Variant))
        → process I options src job.operations (processor_params job) ≡ r
        → Keeping (processed S I options job r)
    processed-Keeps src (ok vs) e w p = store_all-Keeps vs (made src vs e) w p
    processed-Keeps src (err x) e w p = fail-Keeps _ w p

    transform-Keeps : (r : Result Bytes) → Keeping (transform S I options job r)
    transform-Keeps (ok src) w p =
        processed-Keeps src (process I options src job.operations (processor_params job)) refl _
          (publish_event-Keeps S job V P keep _ _ p)
    transform-Keeps (err e) w p = fail-Keeps _ w p

    work-Keeps : Keeping (work S I options job)
    unfolding work
    work-Keeps w p = transform-Keeps _ _ (
        rw get-tables
          (publish_event-Keeps S job V P keep _ _ (set_job_status-Keeps S job V P keep _ _ w p)))

    unless-Keeps : (b : Bool) → Keeping (unless S I options job b (work S I options job))
    unless-Keeps true w p = p
    unless-Keeps false w p = work-Keeps w p

    -- What the statements about the job keep, the handler keeps, whatever fails on the way.
    pub handle-Keeps : (attempt : ℤ) → Keeping (handle S I options job attempt)
    unfolding handle handle_job status_of
    handle-Keeps attempt w p = unless-Keeps _ _ p
