-- ===== src/Gateway/Broker.antt =====
-- `Connect`, `declareTopology` and `PublishJSON` of
-- services/api-gateway/internal/broker/broker.go. Spans are left out; the trace headers are in Trace.
pub mod Connect
pub mod Publish
use media_forge.Prelude.{ℕ, ◌+◌, Bool, true, false, Option, none, some, List, [], ◌∷◌, ◌++◌}
use media_forge.Text.{Text, codes}
use media_forge.Errors.{Error, plain, wrapped, Result, ok, err}
use media_forge.Broker.{topology, declare}
use media_forge.Broker.Connection.{Client, Session, Setup, named, setup}
use media_forge.Gateway.Dial.{dial_with_retry}

module _ (C : Client) where
  open C use {State}

  -- `visited` and the time to live are those of `topology`.
  unfoldable pub declare_topology : List (Text × Text) → ℕ → Setup C
  declare_topology visited ttl = declare C.call (topology visited ttl)

  abbrev pub dialled :
      List (Text × Text) → ℕ → Result (Unit {0}) → Session State → Result (Unit {0}) × Session State
  dialled visited ttl (err e) w = (err (wrapped (codes "dial rabbitmq") e), w)
  dialled visited ttl (ok conn) w =
      setup C
        (named C (codes "open channel") C.channel
          ∷ (named C (codes "enable confirms") C.prepare ∷ (declare_topology visited ttl ∷ [])))
        (record w { opened = w.opened + 1 })

  unfoldable pub connect :
      List (Text × Text) → ℕ → Session State → Result (Unit {0}) × Session State
  connect visited ttl w =
      let d = dial_with_retry C.dial w.client in
      dialled visited ttl d.connection (record w { client = d.state })

-- `json.Marshal`, `PublishWithDeferredConfirmWithContext` and `Wait`.
pub record Channel (Value : Type 0) : Type 1 where
  pub State : Type 0
  pub Confirmation : Type 0
  pub marshal : Value → Result Text
  pub publish : Text → Text → Text → State → Result Confirmation × State
  pub wait : Confirmation → State → Bool × State

module _ {Value : Type 0} (C : Channel Value) (exchange : Text) (key : Text) where
  open C use {State, Confirmation}

  abbrev pub place : Text
  place = codes "publish to " ++ (exchange ++ (codes "/" ++ key))

  abbrev pub confirmed : Bool × State → Option Error × State
  confirmed (true, s) = (none, s)
  confirmed (false, s) = (some (plain (place ++ codes " not confirmed (nacked)")), s)

  abbrev pub published : Result Confirmation × State → Option Error × State
  published (err e, s) = (some (wrapped place e), s)
  published (ok conf, s) = confirmed (C.wait conf s)

  abbrev pub marshalled : Result Text → State → Option Error × State
  marshalled (err e) s = (some (wrapped (codes "marshal message") e), s)
  marshalled (ok body) s = published (C.publish exchange key body s)

  unfoldable pub publish_json : Value → State → Option Error × State
  publish_json v s = marshalled (C.marshal v) s
