-- ===== src/Broker.antt =====
-- What the broker packages of both services ask of RabbitMQ, which is not part of the repository:
-- services/api-gateway/internal/broker/broker.go and services/worker-image/internal/broker/broker.go
-- declare the exchanges, queues and bindings one by one on a channel, and stop at the first error.
pub mod Routing
pub mod Connection
mod Samples
use media_forge.Prelude.{
  ℕ, ◌-◌, ◌/◌, ◌%◌, ◌^◌, String, Bool, true, false, Option, none, some, List, [], ◌∷◌, ◌++◌, ℤ, pos,
  negsuc, map, ltb, if◌then◌else◌,
}
use media_forge.Text.{Text, codes}
use media_forge.Errors.{Error, wrapped}

pub data Argument : Type 0 where
  text : Text → Argument
  number : ℤ → Argument

abbrev pub Arguments : Type 0
Arguments = List (Text × Argument)

-- The calls of a channel. An exchange is declared with its kind, and both with whether they are
-- durable; their other flags are off.
pub data Command : Type 0 where
  exchange_declare : Text → Text → Bool → Command
  queue_declare : Text → Bool → Arguments → Command
  queue_bind : Text → Text → Text → Command

-- A command, and what the code says of its error.
abbrev pub Step : Type 0
Step = Text × Command

abbrev pub jobs_exchange : Text
jobs_exchange = codes "media.jobs"

abbrev pub events_exchange : Text
events_exchange = codes "media.events"

abbrev pub retry_exchange : Text
retry_exchange = codes "media.jobs.dlx"

abbrev pub parking_exchange : Text
parking_exchange = codes "media.jobs.parking"

abbrev pub image_queue : Text
image_queue = codes "q.image"

abbrev pub ocr_queue : Text
ocr_queue = codes "q.ocr"

abbrev pub retry_queue : Text
retry_queue = codes "q.retry"

abbrev pub parking_queue : Text
parking_queue = codes "q.parking"

-- A number of nanoseconds, of which `int32(d.Milliseconds())` keeps the low 32 bits.
unfoldable pub int32_milliseconds : ℕ → ℤ
int32_milliseconds d =
    let low = d / 1_000_000 % 2 ^ 32 in
    if ltb low (2 ^ 31) then pos low else negsuc (2 ^ 32 - low - 1)

abbrev pub declare_exchange : Text → Step
declare_exchange name =
    (codes "declare exchange " ++ name, exchange_declare name (codes "topic") true)

abbrev pub declare_queue : Text → Text → Arguments → Step
declare_queue what name arguments = (what, queue_declare name true arguments)

abbrev pub bind_queue : Text → Text → Text → Text → Step
bind_queue what name key exchange = (what, queue_bind name key exchange)

abbrev pub work_arguments : Arguments
work_arguments =
    (codes "x-queue-type", text (codes "quorum"))
    ∷ (codes "x-dead-letter-exchange", text retry_exchange)
    ∷ []

abbrev pub retry_arguments : ℕ → Arguments
retry_arguments ttl =
    (codes "x-dead-letter-exchange", text jobs_exchange)
    ∷ (codes "x-message-ttl", number (int32_milliseconds ttl))
    ∷ []

-- The body of the loop over the work queues and their keys.
unfoldable pub work_steps : List (Text × Text) → List Step
work_steps [] = []
work_steps ((queue, key) ∷ rest) =
    declare_queue (codes "declare queue " ++ queue) queue work_arguments
    ∷ (bind_queue (codes "bind queue " ++ queue) queue key jobs_exchange ∷ work_steps rest)

-- The map of work queues to keys, as it is written.
abbrev pub work_queues : List (Text × Text)
work_queues = (image_queue, codes "image.process") ∷ (ocr_queue, codes "ocr.extract") ∷ []

-- `declareTopology`, with the time to live in nanoseconds; `visited` is the order in which the runtime
-- visits the map of work queues.
unfoldable pub topology : List (Text × Text) → ℕ → List Step
topology visited ttl =
    map declare_exchange (jobs_exchange ∷ events_exchange ∷ retry_exchange ∷ parking_exchange ∷ [])
    ++ (work_steps visited
        ++ (declare_queue (codes "declare retry queue") retry_queue (retry_arguments ttl)
            ∷ bind_queue (codes "bind retry queue") retry_queue (codes "#") retry_exchange
            ∷ declare_queue (codes "declare parking queue") parking_queue []
            ∷ bind_queue (codes "bind parking queue") parking_queue (codes "#") parking_exchange
            ∷ []))

-- `call` is what the channel does with a command: its error, if any.
module _ {State : Type 0} (call : Command → State → Option Error × State) where
  abbrev pub next :
      Text → Option Error → (State → Option Error × State) → State → Option Error × State
  next what none rest s = rest s
  next what (some e) rest s = (some (wrapped what e), s)

  unfoldable pub declare : List Step → State → Option Error × State
  declare [] s = (none, s)
  declare ((what, command) ∷ steps) s =
      let (e, s') = call command s in next what e (declare steps) s'
