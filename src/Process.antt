-- ===== src/Process.antt =====
-- How `main` of services/api-gateway/cmd/api/main.go and of services/worker-image/cmd/worker/main.go
-- take up what they need and give it back: `os.Exit` ends a program at once, and a deferred call
-- is made only when `main` returns.
pub mod Tracing
pub mod Held
mod Samples
use media_forge.Prelude.{ℕ, ◌≡◌, refl, Option, none, some, List, [], ◌∷◌, ◌++◌}
use media_forge.Text.{Text}
use media_forge.Errors.{Error, wrapped, Result, ok, err}
use media_forge.Broker.Connection.{Session}

-- What is released by a deferred call: the flush of the spans, the pool of Postgres, and the
-- connection to RabbitMQ.
pub data Resource : Type 0 where
  tracing : Resource
  pool : Resource
  bus : Resource

-- `started` lists what the program has begun to run once all was ready.
pub record Process (State Service : Type 0) : Type 0 where
  pub session : Session State
  pub started : List Service
  pub released : List Resource

pub data Ending : Type 0 where
  exits : ℕ → Ending
  returns : Ending

abbrev pub Run : Type 0 → Type 0 → Type 0
Run State Service = Process State Service → Ending × Process State Service

-- A call whose error is wrapped, and what follows it.
abbrev pub or_fail :
    {State A : Type 0} → Text → Option Error × State → (State → Result A × State) → Result A × State
or_fail what (none, s) rest = rest s
or_fail what (some e, s) rest = (err (wrapped what e), s)

module _ {State Service : Type 0} where
  -- `os.Exit(1)` where a call gives an error
  abbrev pub or_exit : {A : Type 0} → Result A → (A → Run State Service) → Run State Service
  or_exit (ok a) rest p = rest a p
  or_exit (err e) rest p = (exits 1, p)

  -- A call of a library, over the state of the libraries.
  abbrev pub acquire :
      {A : Type 0} → (State → Result A × State) → (A → Run State Service) → Run State Service
  acquire f rest p =
      let (r, s) = f p.session.client in
      or_exit r rest (record p { session = record p.session { client = s } })

  abbrev pub after :
      Resource
      → (Session State → Session State)
      → Ending × Process State Service
      → Ending × Process State Service
  after r release (exits code, p) = (exits code, p)
  after r release (returns, p) =
      (returns, record p { session = release p.session; released = p.released ++ r ∷ [] })

  -- A deferred release, and what follows it.
  abbrev pub defer :
      Resource → (Session State → Session State) → Run State Service → Run State Service
  defer r release rest p = after r release (rest p)

  -- A program ends with the exit code 1, or it returns.
  abbrev pub Ends :
      (Process State Service → Type 0)
      → (Process State Service → Type 0)
      → Ending × Process State Service
      → Type 0
  Ends Exit Return (exits code, p) = (code ≡ 1) × Exit p
  Ends Exit Return (returns, p) = Return p

  pub or_exit-Ends :
      {A : Type 0} (Exit Return : Process State Service → Type 0) (r : Result A)
      (rest : A → Run State Service) (p : Process State Service)
      → ((a : A) → r ≡ ok a → Ends Exit Return (rest a p))
      → Exit p
      → Ends Exit Return (or_exit r rest p)
  or_exit-Ends Exit Return (ok a) rest p h x = h a refl
  or_exit-Ends Exit Return (err e) rest p h x = (refl, x)

  pub after-Ends :
      (Exit Inner Return : Process State Service → Type 0) (r : Resource)
      (release : Session State → Session State) (o : Ending × Process State Service)
      → ((p : Process State Service)
          → Inner p
          → Return (record p { session = release p.session; released = p.released ++ r ∷ [] }))
      → Ends Exit Inner o
      → Ends Exit Return (after r release o)
  after-Ends Exit Inner Return r release (exits code, p) f h = h
  after-Ends Exit Inner Return r release (returns, p) f h = f p h
