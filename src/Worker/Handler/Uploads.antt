-- ===== src/Worker/Handler/Uploads.antt =====
-- The handler of services/worker-image/cmd/worker/main.go leaves alone in the object store what
-- services/api-gateway/internal/httpapi/handlers.go has stored there.
mod Samples
use media_forge.Prelude.{
  ℕ, ◌≡◌, ◌≢◌, refl, ap, Bool, true, false, Option, some, none, List, [], ◌∷◌, ◌++◌, ℤ, arith,
}
use media_forge.Text.{Text, codes}
use media_forge.Errors.{Error, Result, ok, err}
use media_forge.Database.{Statement, NewArtifact, execute}
use media_forge.Gateway.Form.{upload_key}
use media_forge.Worker.Consume.{Job}
use media_forge.Worker.Processor.{Bytes, Imaging, Options, Variant, process}
use media_forge.Worker.Services.{
  Event, Link, runs, lost, unanswered, Services, World, Io, over_link, exec, read_object, status_of,
  set_job_status, record_artifact, get, put, publish_event,
}
use media_forge.Worker.Handler.{
  artifact_key, new_artifact, processor_params, fail, finished, finish, recorded, uploaded,
  store_variant, store_all, processed, transform, work, unless, is_completed, handle_job, handle,
}

abbrev first : Text → ℕ
first [] = 0
first (c ∷ s) = c

-- The worker's keys and the gateway's are apart.
pub artifact_key-upload_key :
    (job : Job) (v : Variant) (id filename : Text) → artifact_key job v ≢ upload_key id filename
unfolding upload_key codes
artifact_key-upload_key job v id filename e =
    let same : b'a' ≡ b'u' = ap first e in absurd (omega (arith, same))

-- What is assumed of the object store and the others: a property `Holds` of the outside, as that some
-- key has some content, is lost only by storing under that key.
pub record IsStore (S : Services) (Holds : Text → S.Outside → Type 0) : Type 0 where
  pub link : (key : Text) (o : S.Outside) → Holds key o → Holds key (S.link o).1
  pub get_object :
      (key other : Text) (o : S.Outside) → Holds key o → Holds key (S.get_object other o).1
  pub read_all : (key other : Text) (o : S.Outside) → Holds key o → Holds key (S.read_all other o).1
  pub publish :
      (key to : Text) (e : Event) (o : S.Outside) → Holds key o → Holds key (S.publish to e o).1
  pub put_object :
      (key other content_type : Text) (bytes : Bytes) (o : S.Outside)
      → other ≢ key
      → Holds key o
      → Holds key (S.put_object other content_type bytes o).1

module _ (S : Services) (Holds : Text → S.Outside → Type 0) (laws : IsStore S Holds)
    (key : Text) where
  open S use {Outside}

  abbrev Keeping {ℓ} : {A : Type ℓ} → Io S A → Type 0
  Keeping m = (w : World Outside) → Holds key w.outside → Holds key (m w).1.outside

  over_link-Holds : (s : Statement) (l : Link) → Keeping (over_link S s l)
  over_link-Holds s runs w h = h
  over_link-Holds s (lost e) w h = h
  over_link-Holds s (unanswered e) w h = h

  exec-Holds : (s : Statement) → Keeping (exec S s)
  unfolding exec
  exec-Holds s w h = over_link-Holds s _ _ (laws.link key w.outside h)

  set_job_status-Holds : (id status text : Text) → Keeping (set_job_status S id status text)
  unfolding set_job_status
  set_job_status-Holds id status text w h = exec-Holds _ w h

  record_artifact-Holds : (id : Text) (a : NewArtifact) → Keeping (record_artifact S id a)
  unfolding record_artifact
  record_artifact-Holds id a w h = exec-Holds _ w h

  publish_event-Holds : (e : Event) → Keeping (publish_event S e)
  unfolding publish_event
  publish_event-Holds e w h = laws.publish key _ _ w.outside h

  read_object-Holds : (other : Text) (r : Result (Unit {0})) → Keeping (read_object S other r)
  read_object-Holds other (ok opened) w h = laws.read_all key other w.outside h
  read_object-Holds other (err e) w h = h

  get-Holds : (other : Text) → Keeping (get S other)
  unfolding get
  get-Holds other w h = read_object-Holds other _ _ (laws.get_object key other w.outside h)

  put-Holds :
      (other content_type : Text) (bytes : Bytes)
      → other ≢ key
      → Keeping (put S other content_type bytes)
  unfolding put
  put-Holds other content_type bytes apart w h =
      laws.put_object key other content_type bytes w.outside apart h

  module _ (I : Imaging) (options : Options) (job : Job)
      (apart : (v : Variant) → artifact_key job v ≢ key) where
    fail-Holds : (cause : Error) → Keeping (fail S I options job cause)
    unfolding fail
    fail-Holds cause w h = publish_event-Holds _ _ (set_job_status-Holds _ _ _ w h)

    finished-Holds : (r : Result (Unit {0})) → Keeping (finished S I options job r)
    finished-Holds (ok stored) w h = publish_event-Holds _ w h
    finished-Holds (err e) w h = fail-Holds _ w h

    finish-Holds : Keeping (finish S I options job)
    unfolding finish
    finish-Holds w h = finished-Holds _ _ (set_job_status-Holds _ _ _ w h)

    module _ (v : Variant) (rest : Io S (Option Error)) (rest-Holds : Keeping rest) where
      recorded-Holds : (r : Result (Unit {0})) → Keeping (recorded S I options job v rest r)
      recorded-Holds (ok stored) w h = rest-Holds _ (publish_event-Holds _ _ h)
      recorded-Holds (err e) w h = fail-Holds _ w h

      uploaded-Holds : (r : Result ℤ) → Keeping (uploaded S I options job v rest r)
      uploaded-Holds (ok size) w h = recorded-Holds _ _ (record_artifact-Holds _ _ w h)
      uploaded-Holds (err e) w h = fail-Holds _ w h

      store_variant-Holds : Keeping (store_variant S I options job v rest)
      unfolding store_variant
      store_variant-Holds w h = uploaded-Holds _ _ (put-Holds _ _ _ (apart v) w h)

    store_all-Holds : (vs : List Variant) → Keeping (store_all S I options job vs)
    unfolding store_all
    store_all-Holds [] w h = finish-Holds w h
    store_all-Holds (v ∷ vs) w h =
        store_variant-Holds v (store_all S I options job vs) (store_all-Holds vs) w h

    processed-Holds : (r : Result (List Variant)) → Keeping (processed S I options job r)
    processed-Holds (ok vs) w h = store_all-Holds vs w h
    processed-Holds (err e) w h = fail-Holds _ w h

    transform-Holds : (r : Result Bytes) → Keeping (transform S I options job r)
    transform-Holds (ok src) w h = processed-Holds _ _ (publish_event-Holds _ w h)
    transform-Holds (err e) w h = fail-Holds _ w h

    work-Holds : Keeping (work S I options job)
    unfolding work
    work-Holds w h =
        transform-Holds _ _
          (get-Holds _ _ (publish_event-Holds _ _ (set_job_status-Holds _ _ _ w h)))

    unless-Holds : (b : Bool) → Keeping (unless S I options job b (work S I options job))
    unless-Holds true w h = h
    unless-Holds false w h = work-Holds w h

    handle-Holds : (attempt : ℤ) → Keeping (handle S I options job attempt)
    unfolding handle handle_job status_of
    handle-Holds attempt w h = unless-Holds _ _ (laws.link key w.outside h)

module _ (S : Services) (Holds : Text → S.Outside → Type 0) (laws : IsStore S Holds) where
  open S use {Outside}

  -- Whatever the job, and whatever fails on the way, the handler leaves what is stored under a key
  -- that the gateway gives an upload as it was. Of the services, IsStore is assumed.
  pub handle-uploads :
      (I : Imaging) (options : Options) (job : Job) (attempt : ℤ) (id filename : Text)
      (w : World Outside)
      → Holds (upload_key id filename) w.outside
      → Holds (upload_key id filename) (handle S I options job attempt w).1.outside
  handle-uploads I options job attempt id filename w h =
      handle-Holds S Holds laws (upload_key id filename) I options job
        (λ v. artifact_key-upload_key job v id filename) attempt w h
