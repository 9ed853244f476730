-- ===== src/Worker/Services.antt =====
-- What the image worker reaches over the network, and the methods of its stores:
-- services/worker-image/internal/store/postgres.go, services/worker-image/internal/storage/s3.go and
-- `PublishEvent` of services/worker-image/internal/broker/broker.go. Postgres, the object store and
-- RabbitMQ are not part of the repository: `Services` is what the worker calls of them, over a state
-- of their own.
use media_forge.Prelude.{ℕ, String, Option, none, some, List, [], ◌∷◌, ◌++◌, ℤ}
use media_forge.Text.{Text, codes}
use media_forge.Database.{
  Tables, NewArtifact, Statement, set_status, add_artifact, execute, read_status,
}
use media_forge.Errors.{Error, wrapped, Result, ok, err}
use media_forge.Worker.Processor.{Bytes}

-- `Event` of the broker.
pub record Event : Type 0 where
  pub job_id : Text
  pub kind : Text
  pub status : Text
  pub message : Text
  pub progress : ℕ
  pub artifact : Text
  pub timestamp : ℕ

-- What becomes of a statement that is sent to Postgres: it runs and its outcome comes back, or it is
-- lost, or it runs and its outcome is lost.
pub data Link : Type 0 where
  runs : Link
  lost : Error → Link
  unanswered : Error → Link

pub record Services : Type 1 where
  pub Outside : Type 0
  pub link : Outside → Link × Outside
  -- the error of a statement that Postgres refuses
  pub refusal : Statement → Error
  pub no_status : Error
  pub uuid : Text → Option Text
  -- now(), and `time.Now().UnixMilli()`
  pub now : Outside → ℕ
  pub unix_milli : Outside → ℕ
  -- `GetObject` and `io.ReadAll` of the object store; `PutObject` gives the stored size
  pub get_object : Text → Outside → Result (Unit {0}) × Outside
  pub read_all : Text → Outside → Result Bytes × Outside
  pub put_object : Text → Text → Bytes → Outside → Result ℤ × Outside
  -- `PublishWithContext` to media.events under a routing key
  pub publish : Text → Event → Outside → Option Error × Outside
  -- `strconv.Quote`
  pub quote : Text → Text

-- The state that a worker changes. `sent` lists the events that it has tried to publish, and
-- `outcomes` and `produced` the labels that it has counted in JobsProcessed and ArtifactsProduced.
pub record World (Outside : Type 0) : Type 0 where
  pub tables : Tables
  pub outside : Outside
  pub sent : List Event
  pub outcomes : List Text
  pub produced : List Text

module _ (S : Services) where
  open S use {Outside}

  abbrev pub Io {ℓ} : Type ℓ → Type ℓ
  Io A = World Outside → A × World Outside

  abbrev pub answer : Statement → Option Tables → Result (Unit {0})
  answer s none = err (S.refusal s)
  answer s (some t) = ok tt

  abbrev pub changed : Tables → Option Tables → Tables
  changed t none = t
  changed t (some t') = t'

  abbrev pub over_link : Statement → Link → World Outside → Result (Unit {0}) × World Outside
  over_link s runs w =
      let done = execute S.uuid s (S.now w.outside) w.tables in
      (answer s done, record w { tables = changed w.tables done })
  over_link s (lost e) w = (err e, w)
  over_link s (unanswered e) w =
      (err e, record w { tables = changed w.tables (execute S.uuid s (S.now w.outside) w.tables) })

  -- `pool.Exec` of a statement
  unfoldable pub exec : Statement → Io (Result (Unit {0}))
  exec s w = let (l, outside) = S.link w.outside in over_link s l (record w { outside = outside })

  abbrev pub wrap {ℓ} : {A : Type ℓ} → Text → Result A → Result A
  wrap context (ok a) = ok a
  wrap context (err e) = err (wrapped context e)

  abbrev pub found_status : Option Text → Result Text
  found_status none = err (wrapped (codes "read status") S.no_status)
  found_status (some status) = ok status

  abbrev pub status_over : Text → Link → World Outside → Result Text
  status_over id runs w = found_status (read_status S.uuid id w.tables)
  status_over id (lost e) w = err (wrapped (codes "read status") e)
  status_over id (unanswered e) w = err (wrapped (codes "read status") e)

  unfoldable pub status_of : Text → Io (Result Text)
  unfolding read_status
  status_of id w =
      let (l, outside) = S.link w.outside in (status_over id l w, record w { outside = outside })

  unfoldable pub set_job_status : Text → Text → Text → Io (Result (Unit {0}))
  set_job_status id status text w =
      let (r, w') = exec (set_status id status text) w in (wrap (codes "set status") r, w')

  unfoldable pub record_artifact : Text → NewArtifact → Io (Result (Unit {0}))
  record_artifact id a w =
      let (r, w') = exec (add_artifact id a) w in (wrap (codes "add artifact") r, w')

  abbrev pub outside_only {ℓ} : {A : Type ℓ} → (Outside → A × Outside) → Io A
  outside_only f w = let (a, outside) = f w.outside in (a, record w { outside = outside })

  abbrev pub quoted : String → Text → Text
  quoted context key = codes context ++ S.quote key

  abbrev pub read_object : Text → Result (Unit {0}) → Io (Result Bytes)
  read_object key (ok opened) w =
      let (r, w') = outside_only (S.read_all key) w in (wrap (quoted "read " key) r, w')
  read_object key (err e) w = (err (wrapped (quoted "get " key) e), w)

  -- `Get` of the object store; the object that `GetObject` opens is read to its end.
  unfoldable pub get : Text → Io (Result Bytes)
  get key w = let (r, w') = outside_only (S.get_object key) w in read_object key r w'

  unfoldable pub put : Text → Text → Bytes → Io (Result ℤ)
  put key content_type bytes w =
      let (r, w') = outside_only (S.put_object key content_type bytes) w in
      (wrap (quoted "put " key) r, w')

  unfoldable pub publish_event : Event → Io (Option Error)
  publish_event e w =
      let stamped : Event = record e { timestamp = S.unix_milli w.outside } in
      let (r, w') = outside_only (S.publish (codes "event." ++ e.kind) stamped) w in
      (r, record w' { sent = w'.sent ++ stamped ∷ [] })
