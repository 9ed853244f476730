-- ===== src/Broker/Routing.antt =====
-- Where messages go in the topology that services/api-gateway/internal/broker/broker.go and
-- services/worker-image/internal/broker/broker.go declare.
use media_forge.Prelude.{
  ◌≡◌, ◌⊎◌, inl, inr, refl, ℕ, Bool, true, false, ◌&&◌, ◌||◌, Option, none, some, List, [], ◌∷◌,
  eqb, if◌then◌else◌,
}
use media_forge.Text.{Text, codes, ◌==◌}
use media_forge.Broker.{
  Argument, text, number, Arguments, exchange_declare, queue_declare, queue_bind, Step,
  jobs_exchange, retry_exchange, parking_exchange, image_queue, ocr_queue, retry_queue,
  parking_queue, work_queues, work_steps, topology,
}
use media_forge.Gateway.Contract.{routing_key, valid, valid-cases}

-- The dead-letter exchange that the arguments of a queue name.
abbrev pub text_of : Argument → Option Text
text_of (text t) = some t
text_of (number n) = none

unfoldable pub dead_letter_in : Arguments → Option Text
dead_letter_in [] = none
dead_letter_in ((key, a) ∷ rest) =
    let other = dead_letter_in rest in
    if key == codes "x-dead-letter-exchange" then text_of a else other

unfoldable pub dead_letter_of : List Step → Text → Option Text
dead_letter_of [] queue = none
dead_letter_of ((what, exchange_declare name kind durable) ∷ rest) queue = dead_letter_of rest queue
dead_letter_of ((what, queue_bind name key exchange) ∷ rest) queue = dead_letter_of rest queue
dead_letter_of ((what, queue_declare name durable arguments) ∷ rest) queue =
    let other = dead_letter_of rest queue in
    if name == queue then dead_letter_in arguments else other

abbrev pub has_wildcard : Text → Bool
has_wildcard [] = false
has_wildcard (c ∷ s) = eqb c b'*' || eqb c b'#' || has_wildcard s

-- The order in which the runtime visits the map of the two work queues.
abbrev pub visited : Bool → List (Text × Text)
visited false = work_queues
visited true = (ocr_queue, codes "ocr.extract") ∷ (image_queue, codes "image.process") ∷ []

abbrev pub queue_of : Text → Text
queue_of kind = if kind == codes "ocr" then ocr_queue else image_queue

-- `matches` is how RabbitMQ compares the key of a binding of a topic exchange with a routing key.
module _ (matches : Text → Text → Bool) where
  -- The queues to which an exchange sends a message under a routing key.
  unfoldable pub queues_of : List Step → Text → Text → List Text
  queues_of [] exchange key = []
  queues_of ((what, exchange_declare name kind durable) ∷ rest) exchange key =
      queues_of rest exchange key
  queues_of ((what, queue_declare name durable arguments) ∷ rest) exchange key =
      queues_of rest exchange key
  queues_of ((what, queue_bind queue pattern from) ∷ rest) exchange key =
      let others = queues_of rest exchange key in
      if from == exchange && matches pattern key then queue ∷ others else others

  -- The way of a job of a kind: it is published to its work queue, from there a rejected message is
  -- dead-lettered to the retry queue, and from the retry queue back to the work queue; a message that
  -- is parked goes to the parking queue. No message goes to two queues.
  pub record Routes (steps : List Step) (kind : Text) : Type 0 where
    pub work : queues_of steps jobs_exchange (routing_key kind) ≡ queue_of kind ∷ []
    pub rejected : dead_letter_of steps (queue_of kind) ≡ some retry_exchange
    pub retried : queues_of steps retry_exchange (routing_key kind) ≡ retry_queue ∷ []
    pub expired : dead_letter_of steps retry_queue ≡ some jobs_exchange
    pub parked : queues_of steps parking_exchange (routing_key kind) ≡ parking_queue ∷ []
    pub lost : dead_letter_of steps parking_queue ≡ none

  module _ (hash : (key : Text) → matches (codes "#") key ≡ true)
      (literal : (pattern key : Text)
        → has_wildcard pattern ≡ false
        → matches pattern key ≡ (pattern == key)) where
    image_bound :
        (key : Text) → matches (codes "image.process") key ≡ (codes "image.process" == key)
    unfolding codes
    image_bound key = literal (codes "image.process") key refl

    ocr_bound : (key : Text) → matches (codes "ocr.extract") key ≡ (codes "ocr.extract" == key)
    unfolding codes
    ocr_bound key = literal (codes "ocr.extract") key refl

    Routes-of :
        (swapped : Bool) (ttl : ℕ) (kind : Text)
        → (kind ≡ codes "image") ⊎ (kind ≡ codes "ocr")
        → Routes (topology (visited swapped) ttl) kind
    unfolding codes ◌==◌ dead_letter_in dead_letter_of queues_of work_steps topology routing_key
    Routes-of false ttl kind (inl e) = rw e (record {
      work = rw (image_bound (codes "image.process"), ocr_bound (codes "image.process")) refl;
      rejected = refl;
      retried = rw hash refl;
      expired = refl;
      parked = rw hash refl;
      lost = refl;
    })
    Routes-of false ttl kind (inr e) = rw e (record {
      work = rw (image_bound (codes "ocr.extract"), ocr_bound (codes "ocr.extract")) refl;
      rejected = refl;
      retried = rw hash refl;
      expired = refl;
      parked = rw hash refl;
      lost = refl;
    })
    Routes-of true ttl kind (inl e) = rw e (record {
      work = rw (image_bound (codes "image.process"), ocr_bound (codes "image.process")) refl;
      rejected = refl;
      retried = rw hash refl;
      expired = refl;
      parked = rw hash refl;
      lost = refl;
    })
    Routes-of true ttl kind (inr e) = rw e (record {
      work = rw (image_bound (codes "ocr.extract"), ocr_bound (codes "ocr.extract")) refl;
      rejected = refl;
      retried = rw hash refl;
      expired = refl;
      parked = rw hash refl;
      lost = refl;
    })

    -- Both services declare a topology in which every job of a kind that the gateway accepts has these
    -- routes, in whatever order the runtime visits the map of work queues.
    pub topology-Routes :
        (swapped : Bool) (ttl : ℕ) (kind : Text)
        → valid kind ≡ true
        → Routes (topology (visited swapped) ttl) kind
    topology-Routes swapped ttl kind h = Routes-of swapped ttl kind (valid-cases kind h)
