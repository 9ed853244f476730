-- ===== src/Worker/Consume.antt =====
-- The consumer of services/worker-image/internal/broker/broker.go: what `handle` and `park` send
-- to the broker for one delivery. Spans are left out; the trace headers are in Trace.
pub mod Queues
pub mod Shape
pub mod Bounds
pub mod Attempts
pub mod Conservation
pub mod Failures
pub mod Recovery
mod Samples
use media_forge.Prelude.{
  ℕ, Bool, true, false, ◌||◌, Option, none, some, List, [], ◌∷◌, ◌++◌, ℤ, leℤ, suc_int,
  if◌then◌else◌,
}
use media_forge.Text.{Text, codes}
use media_forge.Errors.{Error, message, is_permanent}
use media_forge.Worker.Amqp.{Table, death_count}

pub record JobParams : Type 0 where
  pub resize_max_dim : ℤ
  pub thumbnail_size : ℤ
  pub resize_format : Text
  pub quality : ℤ
  pub blur_sigma : ℕ  -- the bits of a float64

pub record Job : Type 0 where
  pub id : Text
  pub kind : Text
  pub status : Text
  pub source_key : Text
  pub source_mime : Text
  pub size_bytes : ℤ
  pub operations : List Text
  pub params : Option JobParams

pub record Delivery : Type 0 where
  pub headers : Table
  pub routing_key : Text
  pub body : Text

-- What the consumer asks of the broker: `park` publishes to media.jobs.parking under the routing
-- key, with the reason as a header; `nack` is `d.Nack(false, false)`.
pub data Action : Type 0 where
  park : Text → Text → Text → Action
  ack : Action
  nack : Action

pub data Unmarshalled : Type 0 where
  decoded : Job → Unmarshalled
  refused : Text → Unmarshalled

unfoldable pub attempt : Delivery → ℤ
attempt d = suc_int (death_count d.headers)

-- The end of `handle`, once the handler has returned; `max_retries` is `b.maxRetries`.
unfoldable pub settle : ℤ → Delivery → ℤ → Option Error → List Action
unfolding is_permanent
settle max_retries d n none = ack ∷ []
settle max_retries d n (some err) =
    if is_permanent err || leℤ max_retries n
    then park d.routing_key (message err) d.body ∷ ack ∷ []
    else nack ∷ []

-- `unmarshal` is `json.Unmarshal` into a `Job`, and `W` the state that the handler works on.
module _ (unmarshal : Text → Unmarshalled) (max_retries : ℤ) {W : Type 0}
    (handler : Job → ℤ → W → Option Error × W) where
  abbrev pub process : Delivery → Unmarshalled → W → List Action × W
  process d (refused err) w = (park d.routing_key (codes "unmarshal: " ++ err) d.body ∷ ack ∷ [], w)
  process d (decoded job) w =
      let (result, w') = handler job (attempt d) w in (settle max_retries d (attempt d) result, w')

  unfoldable pub handle : Delivery → W → List Action × W
  unfolding settle attempt
  handle d w = process d (unmarshal d.body) w
