-- ===== src/System/Round.antt =====
-- A round of the consumer of services/worker-image/internal/broker/broker.go, and the end of a wait in
-- the retry queue, keep every job.
use mathlib.Core.Path.{subst}
use media_forge.Prelude.{
  ◌≡◌, ◌≢◌, ◌⊎◌, inl, inr, refl, sym, ◌∙◌, Bool, true, false, ◌||◌, Option, none, some, List, [],
  ◌∷◌, ◌++◌, ℤ, leℤ, Any-append_last, if◌then◌else◌,
}
use media_forge.Text.{Text, codes}
use media_forge.Errors.{Error, message, is_permanent}
use media_forge.Worker.Consume.{
  Job, Delivery, Action, park, ack, nack, Unmarshalled, decoded, refused, settle, attempt, process,
  handle,
}
use media_forge.Worker.Consume.Queues.{Queues, perform, deliver, deliver_from, expire, expire_from}
use media_forge.Worker.Services as Worker
use media_forge.Worker.Handler.Recorded.{IsCompleted, HasRow}
use media_forge.Worker.Handler.Success.{handle-IsCompleted}
use media_forge.System.{Deployment, unmarshal, handler}
use media_forge.System.Rows.{is_id, handle-SameRow, handle-HasRow}
use media_forge.System.Account.{
  Carries, differs, Held, delayed, set_aside, done, Held-next, Held-nack, Held-park, Held-expired,
  Kept,
}

module _ (D : Deployment) (u : Text) where
  pub perform-Kept :
      (actions : List Action) (d : Delivery) (q : Queues (Worker.World D.services.Outside))
      → Kept D u q
      → Kept D u (perform actions true d q)
  unfolding perform
  perform-Kept [] d q k = k
  perform-Kept (park key reason body ∷ rest) d q k = perform-Kept rest d _ (record {
    here = k.here;
    account = Held-park D u _ q.ready q.waiting q.parked q.world.tables k.account;
  })
  perform-Kept (ack ∷ rest) d q k =
      perform-Kept rest d _ (record { here = k.here; account = k.account })
  perform-Kept (nack ∷ rest) d q k = perform-Kept rest d _ (record {
    here = k.here;
    account = Held-nack D u d q.ready q.waiting q.parked q.world.tables k.account;
  })

  -- The delivery of the job itself: it is completed, or parked, or it waits.
  pub settled-Kept :
      (n : ℤ) (d : Delivery) (r : Option Error) (q : Queues (Worker.World D.services.Outside))
      → Carries D u d.body
      → HasRow u q.world.tables
      → (r ≡ none → IsCompleted u q.world.tables)
      → Kept D u (perform (settle D.max_retries d n r) true d q)
  unfolding perform settle
  settled-Kept n d none q c here complete = record { here = here; account = done (complete refl) }
  settled-Kept n d (some e) q c here complete =
      elim (is_permanent e || leℤ D.max_retries n)
        as (λ (b : Bool). Kept D u (
          perform (if b then park d.routing_key (message e) d.body ∷ ack ∷ [] else nack ∷ []) true d
            q)) [
              | true ↦ record { here = here; account = set_aside (Any-append_last _ q.parked _ c) }
              | false ↦ record { here = here; account = delayed (Any-append_last _ q.waiting d c) }
            ]

  abbrev round :
      Delivery
      → List Delivery
      → List Action × Worker.World D.services.Outside
      → Queues (Worker.World D.services.Outside)
      → Queues (Worker.World D.services.Outside)
  round d ds (actions, w) q = perform actions true d (record q { ready = ds; world = w })

  module _ (d : Delivery) (ds : List Delivery) (q : Queues (Worker.World D.services.Outside))
      (here : HasRow u q.world.tables)
      (a : Held D u (d ∷ ds) q.waiting q.parked q.world.tables) where
    handled-Kept :
        (job : Job)
        → unmarshal D d.body ≡ decoded job
        → (D.services.uuid job.id ≡ some u) ⊎ (D.services.uuid job.id ≢ some u)
        → Kept D u
            (round d ds (process (unmarshal D) D.max_retries (handler D) d (decoded job) q.world) q)
    handled-Kept job e (inl known) =
        settled-Kept (attempt d) d (handler D job (attempt d) q.world).0 _ (job, e, known)
          (handle-HasRow D.services u D.imaging D.options job (attempt d) q.world here)
          (λ fine.
            (handle-IsCompleted D.services D.imaging D.options job u known (attempt d) q.world
              (unfold HasRow in here) fine).0)
    handled-Kept job e (inr other) =
        perform-Kept (settle D.max_retries d (attempt d) (handler D job (attempt d) q.world).0) d _
          (record {
            here = handle-HasRow D.services u D.imaging D.options job (attempt d) q.world here;
            account =
                Held-next D u d ds q.waiting q.parked q.world.tables _
                  (differs D u d.body job e other)
                  (handle-SameRow D.services u D.imaging D.options job (attempt d) q.world other) a;
          })

    processed-Kept :
        (m : Unmarshalled)
        → unmarshal D d.body ≡ m
        → Kept D u (round d ds (process (unmarshal D) D.max_retries (handler D) d m q.world) q)
    processed-Kept (refused e) p =
        perform-Kept (park d.routing_key (codes "unmarshal: " ++ e) d.body ∷ ack ∷ []) d _ (record {
          here = here;
          account =
              Held-next D u d ds q.waiting q.parked q.world.tables _ (λ c. cc (sym p ∙ c.1)) refl a;
        })
    processed-Kept (decoded job) p = handled-Kept job p (is_id u (D.services.uuid job.id))

  -- A round of the consumer keeps the job.
  pub deliver-Kept :
      (q : Queues (Worker.World D.services.Outside))
      → Kept D u q
      → Kept D u (deliver (unmarshal D) D.max_retries (handler D) D.cycle true q)
  unfolding deliver handle
  deliver-Kept q k = go q.ready refl
    where
      go :
          (ready : List Delivery)
          → q.ready ≡ ready
          → Kept D u (deliver_from (unmarshal D) D.max_retries (handler D) D.cycle ready true q)
      go [] e = k
      go (d ∷ ds) e =
          processed-Kept d ds q k.here
            (subst (λ ready. Held D u ready q.waiting q.parked q.world.tables) e k.account)
            (unmarshal D d.body) refl

  -- The end of a wait keeps the job.
  pub expire-Kept :
      (q : Queues (Worker.World D.services.Outside))
      → Kept D u q
      → Kept D u (expire (unmarshal D) D.max_retries (handler D) D.cycle q)
  unfolding expire
  expire-Kept q k = go q.waiting refl
    where
      go :
          (waiting : List Delivery)
          → q.waiting ≡ waiting
          → Kept D u (expire_from (unmarshal D) D.max_retries (handler D) D.cycle waiting q)
      go [] e = k
      go (d ∷ ds) e = record {
        here = k.here;
        account =
            Held-expired D u d ds q.ready q.parked q.world.tables
              (record d { headers = D.cycle d.headers }) (λ c. c)
              (subst (λ waiting. Held D u q.ready waiting q.parked q.world.tables) e k.account);
      }
