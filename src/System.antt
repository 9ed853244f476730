-- ===== src/System.antt =====
-- The gateway and the image worker at work on one database and one broker. The server that answers
-- submissions (services/api-gateway/internal/httpapi/handlers.go) and the consumer
-- (services/worker-image/internal/broker/broker.go) take turns in any order: a round with all of its
-- handler at once, or several workers at their deliveries, a statement at a time. A worker may die at
-- any of them, and RabbitMQ may repeat a message.
pub mod Rows
pub mod Account
pub mod Round
pub mod Workers
pub mod Submission
pub mod Tracked
pub mod Settled
mod Samples
use media_forge.Prelude.{
  ℕ, ◌≡◌, Bool, true, false, ◌||◌, Option, none, some, List, [], ◌∷◌, ◌++◌, ℤ, drop, length, All,
  if◌then◌else◌,
}
use media_forge.Text.{Text, codes, ◌==◌}
use media_forge.Float.{Float64, float_le, float_half, float_twenty}
use media_forge.Json.{Value, object, Members}
use media_forge.Errors.{Error}
use media_forge.Database.{Tables, Statement, set_status, execute, read_status}
use media_forge.Database.Abstract.{run_statements}
use media_forge.Broker.{image_queue, topology}
use media_forge.Broker.Routing.{has_wildcard, visited, queues_of}
use media_forge.Gateway.Encode.{job_value}
use media_forge.Gateway.Submit.{Request, Backends, Object, Message, submit}
use media_forge.Gateway.Submit as Gateway
use media_forge.Worker.Amqp.{Table, empty}
use media_forge.Worker.Consume.{Job, Delivery, Unmarshalled, decoded, refused, settle, attempt}
use media_forge.Worker.Consume.Queues.{Queues, Parked, perform, deliver, expire}
use media_forge.Worker.Processor.{Imaging, Options, Variant}
use media_forge.Worker.Services.{Services}
use media_forge.Worker.Services as Worker
use media_forge.Worker.Handler.{handle}
use media_forge.Worker.Handler.Keeps.{About}
use media_forge.Worker.Decode.{job_from}
use media_forge.Wire.RoundTrip.{FitsInt}

-- What the two services are configured with and what they call.
pub record Deployment : Type 1 where
  pub backends : Backends
  pub services : Services
  pub imaging : Imaging
  pub options : Options
  pub token : Text
  pub max_upload : ℤ
  pub max_retries : ℤ
  -- The case mappings of the forms and of JSON keys above ASCII
  pub fold : ℕ → ℕ
  pub json_fold : ℕ → ℕ
  pub format_float : Float64 → Text
  pub parse_float : Text → Option Float64
  -- The bytes of a JSON value, and the value of bytes, with no value for an error
  pub print : Value → Text
  pub parse : Text → Option Value
  pub json_error : Text
  -- The trace headers of a message
  pub headers : Message → Table
  -- RabbitMQ: the match of a binding's key, the headers after a time in the retry queue
  pub matches : Text → Text → Bool
  pub cycle : Table → Table
  -- The order in which the runtime visits the map of queues, and the time in the retry queue
  pub swapped : Bool
  pub ttl : ℕ

-- What is assumed of the outside: Postgres reads the ids of both services in one way, RabbitMQ
-- matches # with every key and a key without wildcards with itself only, what is printed is parsed
-- back, and the object store's sizes have 64 bits.
pub record IsFaithful (D : Deployment) : Type 0 where
  pub same_uuid : (id : Text) → D.services.uuid id ≡ D.backends.uuid id
  pub hash : (key : Text) → D.matches (codes "#") key ≡ true
  pub literal :
      (pattern key : Text) → has_wildcard pattern ≡ false → D.matches pattern key ≡ (pattern == key)
  pub printed : (ms : Members) → D.parse (D.print (object ms)) ≡ some (object ms)
  pub read_back :
      (f : Float64)
      → float_le float_half f ≡ true
      → float_le f float_twenty ≡ true
      → D.parse_float (D.format_float f) ≡ some f
  pub sizes :
      (key content_type : Text) (content : List ℕ) (size : ℤ) (o : D.backends.Outside) (n : ℤ)
      → (D.backends.put key content_type content size o).0 ≡ some n
      → FitsInt n

abbrev pub has_text : Text → List Text → Bool
has_text t [] = false
has_text t (x ∷ xs) = x == t || has_text t xs

module _ (D : Deployment) where
  abbrev pub decoded_or : Option Job → Unmarshalled
  decoded_or none = refused D.json_error
  decoded_or (some job) = decoded job

  abbrev pub unmarshalled : Option Value → Unmarshalled
  unmarshalled none = refused D.json_error
  unmarshalled (some v) = decoded_or (job_from D.json_fold D.parse_float v)

  -- `json.Unmarshal` of a message's body
  abbrev pub unmarshal : Text → Unmarshalled
  unmarshal body = unmarshalled (D.parse body)

  -- The message, as the consumer gets it.
  abbrev pub delivery_of : Message → Delivery
  delivery_of m = record {
    headers = D.headers m;
    routing_key = m.routing_key;
    body = D.print (object (job_value D.format_float m.job));
  }

  -- Whether RabbitMQ sends a message to q.image
  abbrev pub for_image : Message → Bool
  for_image m =
      has_text image_queue
        (queues_of D.matches (topology (visited D.swapped) D.ttl) m.exchange m.routing_key)

  unfoldable pub arrivals : List Message → List Delivery
  arrivals [] = []
  arrivals (m ∷ ms) = let rest = arrivals ms in if for_image m then delivery_of m ∷ rest else rest

  -- The database is that of the worker's world.
  pub record State : Type 0 where
    pub outside : D.backends.Outside
    pub stored : List Object
    pub published : List Message
    pub queues : Queues (Worker.World D.services.Outside)

  abbrev pub tables_of : State → Tables
  tables_of s = s.queues.world.tables

  abbrev pub gateway_of : State → Gateway.World D.backends.Outside
  gateway_of s = record {
    tables = tables_of s;
    outside = s.outside;
    stored = s.stored;
    published = s.published;
  }

  abbrev pub with_tables : Tables → State → State
  with_tables t s = record s {
    queues = record s.queues { world = record s.queues.world { tables = t } };
  }

  abbrev pub enqueue : List Delivery → State → State
  enqueue ds s = record s { queues = record s.queues { ready = s.queues.ready ++ ds } }

  -- The gateway has changed its world; RabbitMQ routes what was published.
  abbrev pub after_gateway : State → Gateway.World D.backends.Outside → State
  after_gateway s w = enqueue (arrivals (drop (length s.published) w.published)) (
      with_tables w.tables
        (record s { outside = w.outside; stored = w.stored; published = w.published }))

  abbrev pub submitted : Request → State → State
  submitted r s =
      after_gateway s
        (submit D.backends D.max_upload D.fold D.parse_float D.token r (gateway_of s)).1

  abbrev pub handler :
      Job → ℤ → Worker.World D.services.Outside → Option Error × Worker.World D.services.Outside
  handler job n w = handle D.services D.imaging D.options job n w

  -- A round of the consumer, in which what it parks reaches the parking queue.
  abbrev pub after_round : State → State
  after_round s = record s {
    queues = deliver unmarshal D.max_retries handler D.cycle true s.queues;
  }

  abbrev pub expired : State → State
  expired s = record s { queues = expire unmarshal D.max_retries handler D.cycle s.queues }

  -- A statement about the job of a delivery, whatever the variant.
  abbrev pub IsOn : Delivery → Statement × ℕ → Type 0
  IsOn d (s, now) =
      (job : Job) × (unmarshal d.body ≡ decoded job) × About job (λ (v : Variant). Unit {0}) s

  abbrev pub parked_by : Option Text → Delivery → List Parked
  parked_by none d = []
  parked_by (some reason) d =
      record { routing_key = d.routing_key; reason = reason; body = d.body } ∷ []

  -- A worker that holds the delivery `d` has run these statements, and may have parked it; it may die
  -- or go on. The delivery is RabbitMQ's until it is acknowledged or rejected.
  abbrev pub worked :
      Delivery → List (Statement × ℕ) → D.services.Outside → Option Text → State → State
  worked d ops outside reason s = record s {
    queues = record s.queues {
      parked = s.queues.parked ++ parked_by reason d;
      world = record s.queues.world {
        tables = run_statements D.services.uuid ops (tables_of s);
        outside = outside;
      };
    };
  }

  -- The last statement of a handler, what it returns, and the tables after it: it sets the status
  -- completed, or it has read that status, or it fails.
  pub data Ended (s : State) (job : Job) : Option Error → Tables → Type 0 where
    completes :
        (now : ℕ) (t : Tables)
        → execute D.services.uuid (set_status job.id (codes "completed") []) now (tables_of s)
          ≡ some t
        → Ended s job none t
    skips :
        read_status D.services.uuid job.id (tables_of s) ≡ some (codes "completed")
        → Ended s job none (tables_of s)
    fails : (e : Error) → Ended s job (some e) (tables_of s)

  -- A worker's handler has returned, and `handle` settles the delivery; `rest` is what stays queued.
  abbrev pub settled : List Delivery → Delivery → Option Error → Tables → State → State
  settled rest d r t s = record s {
    queues =
        perform (settle D.max_retries d (attempt d) r) true d
          (record s.queues { ready = rest; world = record s.queues.world { tables = t } });
  }

  pub data Turn (s : State) : State → Type 0 where
    submits : (r : Request) → Turn s (submitted r s)
    consumes : Turn s (after_round s)
    expires : Turn s (expired s)
    works :
        (ds : List Delivery) (d : Delivery) (es : List Delivery) (ops : List (Statement × ℕ))
        (outside : D.services.Outside) (reason : Option Text)
        → s.queues.ready ≡ ds ++ d ∷ es
        → All (IsOn d) ops
        → Turn s (worked d ops outside reason s)
    settles :
        (ds : List Delivery) (d : Delivery) (es : List Delivery) (job : Job) (r : Option Error)
        (t : Tables)
        → s.queues.ready ≡ ds ++ d ∷ es
        → unmarshal d.body ≡ decoded job
        → Ended s job r t
        → Turn s (settled (ds ++ es) d r t s)
    -- RabbitMQ repeats a message, or anyone publishes one.
    repeats : (d : Delivery) → Turn s (enqueue (d ∷ []) s)

  pub data Reach (s : State) : State → Type 0 where
    here : Reach s s
    later : {t u : State} → Reach s t → Turn t u → Reach s u
