-- ===== src/Broker/Connection.antt =====
-- How `Connect` of services/api-gateway/internal/broker/broker.go and of
-- services/worker-image/internal/broker/broker.go sets up a connection, and closes it where a step
-- fails.
use media_forge.Prelude.{ℕ, ◌+◌, ◌≡◌, refl, Option, none, some, List, [], ◌∷◌, map, arith}
use media_forge.Text.{Text}
use media_forge.Errors.{Error, wrapped, Result, ok, err}
use media_forge.Broker.{Command, Step, next, declare}

-- What a service calls of the client library, over a state of its own. The error of `Close` is
-- dropped.
pub record Client : Type 1 where
  pub State : Type 0
  -- `amqp.Dial` of the service's URL
  pub dial : State → Result (Unit {0}) × State
  -- `Channel`, and `Confirm` or `Qos` of the channel
  pub channel : State → Option Error × State
  pub prepare : State → Option Error × State
  pub call : Command → State → Option Error × State
  pub close : State → State

-- The state, with the numbers of connections opened and closed so far.
pub record Session (State : Type 0) : Type 0 where
  pub client : State
  pub opened : ℕ
  pub closed : ℕ

module _ (C : Client) where
  open C use {State}

  abbrev pub Setup : Type 0
  Setup = State → Option Error × State

  abbrev pub context : Text → Option Error → Option Error
  context what none = none
  context what (some e) = some (wrapped what e)

  -- A step whose error is wrapped.
  abbrev pub named : Text → Setup → Setup
  named what step s = let (e, s') = step s in (context what e, s')

  abbrev pub or_close :
      Option Error
      → (Session State → Result (Unit {0}) × Session State)
      → Session State
      → Result (Unit {0}) × Session State
  or_close none rest w = rest w
  or_close (some e) rest w = (err e, record w { client = C.close w.client; closed = w.closed + 1 })

  -- The steps after the connection is made.
  unfoldable pub setup : List Setup → Session State → Result (Unit {0}) × Session State
  setup [] w = (ok tt, w)
  setup (step ∷ steps) w =
      let (e, s) = step w.client in or_close e (setup steps) (record w { client = s })

  -- Every step has run with no error, each on the state that the one before it left.
  abbrev pub Ran : List Setup → State → Type 0
  Ran [] s = Unit
  Ran (step ∷ steps) s = ((step s).0 ≡ none) × Ran steps (step s).1

  -- RabbitMQ has accepted every command, each on the state that the one before it left.
  abbrev pub Accepted : List Command → State → Type 0
  Accepted [] s = Unit
  Accepted (command ∷ commands) s =
      ((C.call command s).0 ≡ none) × Accepted commands (C.call command s).1

  pub context-none : (what : Text) (o : Option Error) → context what o ≡ none → o ≡ none
  context-none what none h = refl
  context-none what (some e) h = absurd cc

  next-Accepted :
      (what : Text) (o : Option Error) (rest : Setup) (s : State)
      → (next C.call what o rest s).0 ≡ none
      → (o ≡ none) × ((rest s).0 ≡ none)
  next-Accepted what none rest s h = (refl, h)
  next-Accepted what (some e) rest s h = absurd cc

  pub declare-Accepted :
      (steps : List Step) (s : State)
      → (declare C.call steps s).0 ≡ none
      → Accepted (map (λ (x : Step). x.1) steps) s
  unfolding declare
  declare-Accepted [] s h = tt
  declare-Accepted ((what, command) ∷ steps) s h =
      let (e, s') = C.call command s in
      let (accepted, rest) = next-Accepted what e (declare C.call steps) s' h in
      (accepted, declare-Accepted steps s' rest)

  -- After a success one more connection is open, and all the steps are done; after an error, none is
  -- left open.
  abbrev pub IsSetUp : ℕ → Type 0 → Result (Unit {0}) × Session State → Type 0
  IsSetUp n Done (ok done, w) = (w.opened ≡ w.closed + n + 1) × Done
  IsSetUp n Done (err e, w) = w.opened ≡ w.closed + n

  pub IsSetUp-map :
      (n : ℕ) (P Q : Type 0) (r : Result (Unit {0}) × Session State)
      → (P → Q)
      → IsSetUp n P r
      → IsSetUp n Q r
  IsSetUp-map n P Q (ok done, w) f h = (h.0, f h.1)
  IsSetUp-map n P Q (err e, w) f h = h

  or_close-IsSetUp :
      (n : ℕ) (Done : Type 0) (e : Option Error)
      (rest : Session State → Result (Unit {0}) × Session State) (w : Session State)
      → (w.opened ≡ w.closed + n + 1 → IsSetUp n Done (rest w))
      → w.opened ≡ w.closed + n + 1
      → IsSetUp n ((e ≡ none) × Done) (or_close e rest w)
  or_close-IsSetUp n Done none rest w h b =
      IsSetUp-map n Done (◌≡◌ {A = Option Error} none none × Done) (rest w) (λ d. (refl, d)) (h b)
  or_close-IsSetUp n Done (some e) rest w h b = omega (arith, b)

  pub setup-IsSetUp :
      (n : ℕ) (steps : List Setup) (w : Session State)
      → w.opened ≡ w.closed + n + 1
      → IsSetUp n (Ran steps w.client) (setup steps w)
  unfolding setup
  setup-IsSetUp n [] w b = (b, tt)
  setup-IsSetUp n (step ∷ steps) w b =
      or_close-IsSetUp n (Ran steps (step w.client).1) (step w.client).0 (setup steps)
        (record w { client = (step w.client).1 })
        (setup-IsSetUp n steps (record w { client = (step w.client).1 })) b
