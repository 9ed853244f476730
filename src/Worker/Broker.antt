-- ===== src/Worker/Broker.antt =====
-- `Connect` and `declareTopology` of services/worker-image/internal/broker/broker.go. The quality of
-- service that it asks for, the number of unacknowledged deliveries, is in `prepare`.
use media_forge.Prelude.{ℕ, ◌+◌, ◌≡◌, List, [], ◌∷◌, arith}
use media_forge.Text.{Text, codes}
use media_forge.Errors.{wrapped, Result, ok, err}
use media_forge.Broker.{topology, declare}
use media_forge.Broker.Connection.{
  Client, Session, Setup, named, setup, Ran, IsSetUp, setup-IsSetUp,
}

module _ (C : Client) where
  open C use {State}

  -- `visited` and the time to live are those of `topology`.
  unfoldable pub declare_topology : List (Text × Text) → ℕ → Setup C
  declare_topology visited ttl = declare C.call (topology visited ttl)

  -- The steps once RabbitMQ is dialled, the whole topology last.
  abbrev pub steps : List (Text × Text) → ℕ → List (Setup C)
  steps visited ttl =
      named C (codes "open channel") C.channel
      ∷ (named C (codes "set qos") C.prepare ∷ (declare_topology visited ttl ∷ []))

  abbrev pub dialled :
      List (Text × Text) → ℕ → Result (Unit {0}) → Session State → Result (Unit {0}) × Session State
  dialled visited ttl (err e) w = (err (wrapped (codes "dial rabbitmq") e), w)
  dialled visited ttl (ok conn) w = setup C (steps visited ttl) (record w { opened = w.opened + 1 })

  unfoldable pub connect :
      List (Text × Text) → ℕ → Session State → Result (Unit {0}) × Session State
  connect visited ttl w =
      let (r, s) = C.dial w.client in dialled visited ttl r (record w { client = s })

  dialled-IsSetUp :
      (visited : List (Text × Text)) (ttl n : ℕ) (r : Result (Unit {0})) (w : Session State)
      → w.opened ≡ w.closed + n
      → IsSetUp C n (Ran C (steps visited ttl) w.client) (dialled visited ttl r w)
  dialled-IsSetUp visited ttl n (err e) w b = b
  dialled-IsSetUp visited ttl n (ok conn) w b =
      setup-IsSetUp C n (steps visited ttl) (record w { opened = w.opened + 1 }) (omega (arith, b))

  -- Where `n` connections are open, `Connect` of the worker returns an error with `n` open, or it
  -- returns a connection, one of `n + 1` open ones, on which the quality of service is set and the
  -- whole topology is declared.
  pub connect_once-IsSetUp :
      (visited : List (Text × Text)) (ttl n : ℕ) (w : Session State)
      → w.opened ≡ w.closed + n
      → IsSetUp C n (Ran C (steps visited ttl) (C.dial w.client).1) (connect visited ttl w)
  unfolding connect
  connect_once-IsSetUp visited ttl n w b =
      let (r, s) = C.dial w.client in dialled-IsSetUp visited ttl n r (record w { client = s }) b
