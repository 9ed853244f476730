-- ===== src/Worker/Handler/Events.antt =====
-- The events that the handler of services/worker-image/cmd/worker/main.go publishes, as words of a
-- grammar.
pub mod Published
pub mod Schema
use mathlib.Core.List.{append_assoc, append-nil}
use media_forge.Prelude.{
  ℕ, ◌≡◌, refl, sym, ap, ◌∙◌, Bool, true, false, Option, none, some, List, [], ◌∷◌, ◌++◌, ℤ,
}
use media_forge.Text.{Text, codes}
use media_forge.Database.{NewArtifact, Statement}
use media_forge.Errors.{Error, wrapped, permanent, message, Result, ok, err}
use media_forge.Worker.Consume.{Job}
use media_forge.Worker.Processor.{Bytes, Imaging, Options, Variant, process}
use media_forge.Worker.Services.{
  Event, Link, runs, lost, unanswered, Services, World, Io, over_link, exec, read_object, status_of,
  set_job_status, record_artifact, get, put, publish_event,
}
use media_forge.Worker.Handler.{
  event, artifact_key, new_artifact, processor_params, fail, finished, finish, recorded, uploaded,
  store_variant, store_all, processed, transform, work, unless, is_completed, handle_job, handle,
}

-- Where a run is: `storing` holds the variants that are still to be stored.
pub data Phase : Type 0 where
  ready : Phase
  downloading : Phase
  transforming : Phase
  storing : List Variant → Phase

abbrev pub has_begun : Phase → Bool
has_begun ready = false
has_begun downloading = true
has_begun transforming = true
has_begun (storing vs) = true

-- The event is this one, at some time.
abbrev pub Says : Event → Event → Type 0
Says said e = (t : ℕ) × (e ≡ record said { timestamp = t })

module _ (I : Imaging) (options : Options) (job : Job) where
  -- The events from a phase on, and the error with which the run ends. A completed job is skipped. A
  -- run that has begun may fail in any phase.
  pub data Run : Phase → List Event → Option Error → Type 0 where
    skips : Run ready [] none
    starts :
        (e : Event) (es : List Event) (r : Option Error)
        → Says (event job (codes "processing") 10 (codes "downloading source") []) e
        → Run downloading es r
        → Run ready (e ∷ es) r
    transforms :
        (e : Event) (es : List Event) (r : Option Error)
        → Says (event job (codes "processing") 40 (codes "transforming") []) e
        → Run transforming es r
        → Run downloading (e ∷ es) r
    makes :
        (source : Bytes) (vs : List Variant) (es : List Event) (r : Option Error)
        → process I options source job.operations (processor_params job) ≡ ok vs
        → Run (storing vs) es r
        → Run transforming es r
    stores :
        (v : Variant) (vs : List Variant) (e : Event) (es : List Event) (r : Option Error)
        → Says (event job (codes "processing") 80 [] v.name) e
        → Run (storing vs) es r
        → Run (storing (v ∷ vs)) (e ∷ es) r
    completes :
        (e : Event)
        → Says (event job (codes "completed") 100 (codes "done") []) e
        → Run (storing []) (e ∷ []) none
    fails :
        (p : Phase) (e : Event) (cause : Error)
        → has_begun p ≡ true
        → Says (event job (codes "failed") 0 (message cause) []) e
        → Run p (e ∷ []) (some cause)

module _ (S : Services) where
  open S use {Outside}

  over_link-sent :
      (s : Statement) (l : Link) (w : World Outside) → (over_link S s l w).1.sent ≡ w.sent
  over_link-sent s runs w = refl
  over_link-sent s (lost e) w = refl
  over_link-sent s (unanswered e) w = refl

  pub set_job_status-sent :
      (id status text : Text) (w : World Outside)
      → (set_job_status S id status text w).1.sent ≡ w.sent
  unfolding set_job_status exec
  set_job_status-sent id status text w = over_link-sent _ (S.link w.outside).0 _

  pub record_artifact-sent :
      (id : Text) (a : NewArtifact) (w : World Outside) → (record_artifact S id a w).1.sent ≡ w.sent
  unfolding record_artifact exec
  record_artifact-sent id a w = over_link-sent _ (S.link w.outside).0 _

  pub get-sent : (key : Text) (w : World Outside) → (get S key w).1.sent ≡ w.sent
  unfolding get
  get-sent key w = go (S.get_object key w.outside).0 _
    where
      go : (r : Result (Unit {0})) (w' : World Outside) → (read_object S key r w').1.sent ≡ w'.sent
      go (ok opened) w' = refl
      go (err e) w' = refl

  pub put-sent :
      (key content_type : Text) (bytes : Bytes) (w : World Outside)
      → (put S key content_type bytes w).1.sent ≡ w.sent
  unfolding put
  put-sent key content_type bytes w = refl

  pub status_of-sent : (id : Text) (w : World Outside) → (status_of S id w).1.sent ≡ w.sent
  unfolding status_of
  status_of-sent id w = refl
