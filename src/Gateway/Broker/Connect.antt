-- ===== src/Gateway/Broker/Connect.antt =====
-- `Connect` of services/api-gateway/internal/broker/broker.go.
use media_forge.Prelude.{ℕ, ◌+◌, ◌≡◌, List, [], ◌∷◌, none, map, arith}
use media_forge.Text.{Text, codes}
use media_forge.Errors.{Result, ok, err}
use media_forge.Broker.{Step, topology}
use media_forge.Broker.Connection.{
  Client, Session, Setup, named, Ran, IsSetUp, IsSetUp-map, setup-IsSetUp, Accepted, context-none,
  declare-Accepted,
}
use media_forge.Gateway.Dial.{dial_with_retry}
use media_forge.Gateway.Broker.{declare_topology, dialled, connect}

module _ (C : Client) (visited : List (Text × Text)) (ttl : ℕ) where
  open C use {State}

  -- The steps once RabbitMQ is dialled, the whole topology last.
  abbrev pub steps : List (Setup C)
  steps =
      named C (codes "open channel") C.channel
      ∷ (named C (codes "enable confirms") C.prepare ∷ (declare_topology C visited ttl ∷ []))

  -- From the state after the dial: the channel was opened, confirms were enabled on it, and every
  -- command of the topology was accepted.
  abbrev pub Ready : State → Type 0
  Ready s =
      let opened = C.channel s in
      let prepared = C.prepare opened.1 in
      (opened.0 ≡ none)
      × (prepared.0 ≡ none)
      × Accepted C (map (λ (x : Step). x.1) (topology visited ttl)) prepared.1

  Ran-Ready : (s : State) → Ran C steps s → Ready s
  unfolding declare_topology
  Ran-Ready s (channel, (prepare, (declared, rest))) = (
    context-none C (codes "open channel") _ channel,
    context-none C (codes "enable confirms") _ prepare,
    declare-Accepted C (topology visited ttl) _ declared,
  )

  dialled-IsSetUp :
      (n : ℕ) (r : Result (Unit {0})) (w : Session State)
      → w.opened ≡ w.closed + n
      → IsSetUp C n (Ready w.client) (dialled C visited ttl r w)
  dialled-IsSetUp n (err e) w b = b
  dialled-IsSetUp n (ok conn) w b =
      IsSetUp-map C n (Ran C steps w.client) (Ready w.client) _ (Ran-Ready w.client)
        (setup-IsSetUp C n steps (record w { opened = w.opened + 1 }) (omega (arith, b)))

  -- Where `n` connections are open, `Connect` of the gateway returns an error with `n` open, or it
  -- returns a connection, one of `n + 1` open ones, on which a channel was opened, confirms were
  -- enabled, and RabbitMQ has accepted every command of the topology, in its order.
  pub connect-IsSetUp :
      (n : ℕ) (w : Session State)
      → w.opened ≡ w.closed + n
      → IsSetUp C n (Ready (dial_with_retry C.dial w.client).state) (connect C visited ttl w)
  unfolding connect
  connect-IsSetUp n w b =
      let d = dial_with_retry C.dial w.client in
      dialled-IsSetUp n d.connection (record w { client = d.state }) b
