-- ===== src/Trace.antt =====
-- The trace context in the headers of a message: `amqpHeaderCarrier` of
-- services/api-gateway/internal/broker/broker.go and of
-- services/worker-image/internal/broker/broker.go, and the calls of the propagator around it.
-- OpenTelemetry is not part of the repository: `Propagator` is what it makes of a context.
pub mod Carried
mod Samples
use media_forge.Prelude.{Option, none, some, List, [], ◌∷◌, if◌then◌else◌}
use media_forge.Text.{Text, ◌==◌}
use media_forge.Worker.Amqp.{Field, text, int64, other, array, table, Table, empty, entry, get}
use media_forge.Worker.Consume.{Delivery}

abbrev pub text_or_empty : Option Field → Text
text_or_empty none = []
text_or_empty (some (text s)) = s
text_or_empty (some (int64 n)) = []
text_or_empty (some other) = []
text_or_empty (some (array fs)) = []
text_or_empty (some (table t)) = []

-- `Get`, `Set` and `Keys` of the carrier.
unfoldable pub carrier_get : Table → Text → Text
unfolding get
carrier_get h key = text_or_empty (get h key)

unfoldable pub carrier_set : Table → Text → Text → Table
carrier_set empty key value = entry key (text value) empty
carrier_set (entry k v h) key value =
    let rest = carrier_set h key value in
    if k == key then entry k (text value) h else entry k v rest

unfoldable pub carrier_keys : Table → List Text
carrier_keys empty = []
carrier_keys (entry k v h) = k ∷ carrier_keys h

-- `fields` are the keys and values that `Inject` sets, one after the other; `extract` gets `Get` of a
-- carrier.
pub record Propagator : Type 1 where
  pub Context : Type 0
  pub fields : Context → List (Text × Text)
  pub extract : (Text → Text) → Context → Context

module _ (P : Propagator) where
  open P use {Context}

  unfoldable pub set_all : List (Text × Text) → Table → Table
  unfolding carrier_set
  set_all [] h = h
  set_all ((key, value) ∷ rest) h = set_all rest (carrier_set h key value)

  -- The headers with which `PublishJSON` and `PublishEvent` publish.
  unfoldable pub headers_of : Context → Table
  unfolding set_all
  headers_of context = set_all (P.fields context) empty

  -- The context of the span that `handle` opens for a delivery.
  unfoldable pub parent : Context → Delivery → Context
  unfolding carrier_get
  parent context d = P.extract (carrier_get d.headers) context
