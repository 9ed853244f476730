-- ===== src/Worker/Consume/Queues.antt =====
-- The queues around one consumer: its work queue, the retry queue and the parking queue of
-- services/worker-image/internal/broker/broker.go (`Consume`, `handle` and the topology's
-- dead-letter arguments), as a machine that an environment drives by ticks. RabbitMQ is not part of
-- the repository: `cycle` is what it makes of the headers of a delivery that is dead-lettered to the
-- retry queue and comes back when its time there is over.
use media_forge.Prelude.{ℕ, zero, suc, Bool, true, Option, List, [], ◌∷◌, ◌++◌, ℤ, if◌then◌else◌}
use media_forge.Text.{Text}
use media_forge.Worker.Amqp.{Table}
use media_forge.Errors.{Error}
use media_forge.Worker.Consume.{Job, Delivery, Action, park, ack, nack, Unmarshalled, handle}

pub record Parked : Type 0 where
  pub routing_key : Text
  pub reason : Text
  pub body : Text

pub record Queues (W : Type 0) : Type 0 where
  pub ready : List Delivery  -- the work queue, the next delivery first
  pub waiting : List Delivery  -- q.retry
  pub parked : List Parked  -- q.parking
  pub acked : List Delivery  -- what left the work queue for good
  pub world : W

-- The actions for one delivery, in their order. `ok` says whether the publication to the parking
-- exchange succeeds: `handle` drops the error of `park`.
unfoldable pub perform : {W : Type 0} → List Action → Bool → Delivery → Queues W → Queues W
perform [] ok d q = q
perform (park key reason body ∷ rest) ok d q = perform rest ok d (
    if ok
    then record q {
      parked = q.parked ++ record { routing_key = key; reason = reason; body = body } ∷ [];
    }
    else q)
perform (ack ∷ rest) ok d q = perform rest ok d (record q { acked = q.acked ++ d ∷ [] })
perform (nack ∷ rest) ok d q = perform rest ok d (record q { waiting = q.waiting ++ d ∷ [] })

pub data Tick (W : Type 0) : Type 0 where
  delivers : Bool → Tick W
  expires : Tick W
  -- The worker dies over a delivery: it stays queued, and the state is what the handler left.
  crashes : W → Tick W

module _ (unmarshal : Text → Unmarshalled) (max_retries : ℤ) {W : Type 0}
    (handler : Job → ℤ → W → Option Error × W) (cycle : Table → Table) where
  abbrev pub deliver_from : List Delivery → Bool → Queues W → Queues W
  deliver_from [] ok q = q
  deliver_from (d ∷ ds) ok q =
      let (actions, w) = handle unmarshal max_retries handler d q.world in
      perform actions ok d (record q { ready = ds; world = w })

  -- One round of `Consume`: the next delivery is handled.
  unfoldable pub deliver : Bool → Queues W → Queues W
  unfolding handle perform
  deliver ok q = deliver_from q.ready ok q

  abbrev pub expire_from : List Delivery → Queues W → Queues W
  expire_from [] q = q
  expire_from (d ∷ ds) q = record q {
    waiting = ds;
    ready = q.ready ++ record d { headers = cycle d.headers } ∷ [];
  }

  -- A step of RabbitMQ: the time of the first delivery in the retry queue is over.
  unfoldable pub expire : Queues W → Queues W
  expire q = expire_from q.waiting q

  unfoldable pub tick : Tick W → Queues W → Queues W
  unfolding deliver expire
  tick (delivers ok) q = deliver ok q
  tick expires q = expire q
  tick (crashes w) q = record q { world = w }

  unfoldable pub run : List (Tick W) → Queues W → Queues W
  unfolding tick
  run [] q = q
  run (t ∷ ts) q = run ts (tick t q)

  abbrev pub drain_next :
      List Delivery → List Delivery → Queues W → (Queues W → Queues W) → Queues W
  drain_next [] [] q rest = q
  drain_next [] (d ∷ ds) q rest = rest (expire q)
  drain_next (d ∷ ds) ws q rest = rest (deliver true q)

  -- The environment that lets every delivery and every expiry happen, on fuel.
  unfoldable pub drain : ℕ → Queues W → Queues W
  drain zero q = q
  drain (suc fuel) q = drain_next q.ready q.waiting q (drain fuel)
