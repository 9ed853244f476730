-- ===== src/System/Account.antt =====
-- Where the job of a message is, in the queues of services/worker-image/internal/broker/broker.go
-- and in the tables.
use media_forge.Prelude.{
  ◌≡◌, ◌≢◌, inl, inr, sym, ap, ◌∙◌, some, List, [], ◌∷◌, ◌++◌, Any, Any-append_left,
  Any-append_last, Any-without,
}
use media_forge.Text.{Text}
use media_forge.Database.{Tables}
use media_forge.Worker.Consume.{Job, Delivery, decoded}
use media_forge.Worker.Consume.Queues.{Queues, Parked}
use media_forge.Worker.Services as Worker
use media_forge.Worker.Handler.Recorded.{IsCompleted, HasRow}
use media_forge.System.{Deployment, unmarshal}
use media_forge.System.Rows.{SameRow, IsCompleted-SameRow}

module _ (D : Deployment) (u : Text) where
  abbrev pub Outside : Type 0
  Outside = D.services.Outside

  -- A body whose job has this UUID.
  abbrev pub Carries : Text → Type 0
  Carries body = (job : Job) × (unmarshal D body ≡ decoded job) × (D.services.uuid job.id ≡ some u)

  -- The job is in the work queue, in the retry queue or in the parking queue, or its row is
  -- completed.
  pub data Held (ready waiting : List Delivery) (parked : List Parked) (t : Tables) : Type 0 where
    queued : Any (λ (d : Delivery). Carries d.body) ready → Held ready waiting parked t
    delayed : Any (λ (d : Delivery). Carries d.body) waiting → Held ready waiting parked t
    set_aside : Any (λ (p : Parked). Carries p.body) parked → Held ready waiting parked t
    done : IsCompleted u t → Held ready waiting parked t

  abbrev pub Account : Queues (Worker.World Outside) → Type 0
  Account q = Held q.ready q.waiting q.parked q.world.tables

  pub differs :
      (body : Text) (job : Job)
      → unmarshal D body ≡ decoded job
      → D.services.uuid job.id ≢ some u
      → Carries body
      → ⊥
  differs body job p other c =
      let same : decoded job ≡ decoded c.0 = sym p ∙ c.1 in
      let eq : job ≡ c.0 = cc in other (ap (λ (j : Job). D.services.uuid j.id) eq ∙ c.2)

  -- Rows that stay leave a job where it is.
  pub Held-rows :
      (ready waiting : List Delivery) (parked : List Parked) (t t' : Tables)
      → SameRow u t t'
      → Held ready waiting parked t
      → Held ready waiting parked t'
  Held-rows ready waiting parked t t' same (queued h) = queued h
  Held-rows ready waiting parked t t' same (delayed h) = delayed h
  Held-rows ready waiting parked t t' same (set_aside h) = set_aside h
  Held-rows ready waiting parked t t' same (done h) = done (IsCompleted-SameRow u t t' same h)

  -- So do deliveries that come to the work queue.
  pub Held-more :
      (ready more waiting : List Delivery) (parked : List Parked) (t : Tables)
      → Held ready waiting parked t
      → Held (ready ++ more) waiting parked t
  Held-more ready more waiting parked t (queued h) = queued (Any-append_left _ ready more h)
  Held-more ready more waiting parked t (delayed h) = delayed h
  Held-more ready more waiting parked t (set_aside h) = set_aside h
  Held-more ready more waiting parked t (done h) = done h

  -- A delivery of another job leaves the work queue.
  pub Held-next :
      (d : Delivery) (ds waiting : List Delivery) (parked : List Parked) (t t' : Tables)
      → (Carries d.body → ⊥)
      → SameRow u t t'
      → Held (d ∷ ds) waiting parked t
      → Held ds waiting parked t'
  Held-next d ds waiting parked t t' other same (queued (inl h)) = absurd (other h)
  Held-next d ds waiting parked t t' other same (queued (inr h)) = queued h
  Held-next d ds waiting parked t t' other same (delayed h) = delayed h
  Held-next d ds waiting parked t t' other same (set_aside h) = set_aside h
  Held-next d ds waiting parked t t' other same (done h) = done (IsCompleted-SameRow u t t' same h)

  pub Held-without :
      (ds : List Delivery) (d : Delivery) (es waiting : List Delivery) (parked : List Parked)
      (t t' : Tables)
      → (Carries d.body → ⊥)
      → SameRow u t t'
      → Held (ds ++ d ∷ es) waiting parked t
      → Held (ds ++ es) waiting parked t'
  Held-without ds d es waiting parked t t' other same (queued h) =
      queued (Any-without _ ds d es other h)
  Held-without ds d es waiting parked t t' other same (delayed h) = delayed h
  Held-without ds d es waiting parked t t' other same (set_aside h) = set_aside h
  Held-without ds d es waiting parked t t' other same (done h) =
      done (IsCompleted-SameRow u t t' same h)

  pub Held-nack :
      (d : Delivery) (ready waiting : List Delivery) (parked : List Parked) (t : Tables)
      → Held ready waiting parked t
      → Held ready (waiting ++ d ∷ []) parked t
  Held-nack d ready waiting parked t (queued h) = queued h
  Held-nack d ready waiting parked t (delayed h) = delayed (Any-append_left _ waiting (d ∷ []) h)
  Held-nack d ready waiting parked t (set_aside h) = set_aside h
  Held-nack d ready waiting parked t (done h) = done h

  pub Held-park :
      (ps : List Parked) (ready waiting : List Delivery) (parked : List Parked) (t : Tables)
      → Held ready waiting parked t
      → Held ready waiting (parked ++ ps) t
  Held-park ps ready waiting parked t (queued h) = queued h
  Held-park ps ready waiting parked t (delayed h) = delayed h
  Held-park ps ready waiting parked t (set_aside h) = set_aside (Any-append_left _ parked ps h)
  Held-park ps ready waiting parked t (done h) = done h

  pub Held-expired :
      (d : Delivery) (ds ready : List Delivery) (parked : List Parked) (t : Tables) (d' : Delivery)
      → (Carries d.body → Carries d'.body)
      → Held ready (d ∷ ds) parked t
      → Held (ready ++ d' ∷ []) ds parked t
  Held-expired d ds ready parked t d' same (queued h) = queued (Any-append_left _ ready (d' ∷ []) h)
  Held-expired d ds ready parked t d' same (delayed (inl h)) =
      queued (Any-append_last _ ready d' (same h))
  Held-expired d ds ready parked t d' same (delayed (inr h)) = delayed h
  Held-expired d ds ready parked t d' same (set_aside h) = set_aside h
  Held-expired d ds ready parked t d' same (done h) = done h

  -- The job has its row, and is in a queue or completed.
  pub record Kept (q : Queues (Worker.World Outside)) : Type 0 where
    pub here : HasRow u q.world.tables
    pub account : Account q
