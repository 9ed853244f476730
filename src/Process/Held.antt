-- ===== src/Process/Held.antt =====
-- What `main` of services/api-gateway/cmd/api/main.go and of services/worker-image/cmd/worker/main.go
-- holds on its way, from a state of the process with `n` open connections to RabbitMQ.
use mathlib.Core.List.{append_assoc}
use media_forge.Prelude.{ℕ, ◌+◌, ◌≡◌, ap, ◌∙◌, List, [], ◌∷◌, ◌++◌}
use media_forge.Errors.{Result}
use media_forge.Process.{Process, Ending, exits, returns, Resource, Ends, acquire, or_exit-Ends}

module _ {State Service : Type 0} (before : Process State Service) (n : ℕ) where
  -- Nothing was started, nothing was released by a deferred call, and as many connections to RabbitMQ
  -- are open as before.
  pub record IsRefused (p : Process State Service) : Type 0 where
    pub started : p.started ≡ before.started
    pub released : p.released ≡ before.released
    pub open_as_before : p.session.opened ≡ p.session.closed + n

  -- One service was started, these resources were released, and `m` connections are open.
  pub record HasServed (service : Service) (rs : List Resource) (m : ℕ) (p : Process State Service)
      : Type 0 where
    pub started : p.started ≡ before.started ++ service ∷ []
    pub released : p.released ≡ before.released ++ rs
    pub still_open : p.session.opened ≡ p.session.closed + m

  -- A call of a library, where nothing is started or released yet.
  pub acquire-Ends :
      {A : Type 0} (Exit Return : Process State Service → Type 0) (f : State → Result A × State)
      (rest : A → Process State Service → Ending × Process State Service)
      (p : Process State Service)
      → ((p' : Process State Service) → IsRefused p' → Exit p')
      → IsRefused p
      → ((a : A) (p' : Process State Service) → IsRefused p' → Ends Exit Return (rest a p'))
      → Ends Exit Return (acquire f rest p)
  acquire-Ends Exit Return f rest p refused h later =
      let (r, s) = f p.session.client in
      let p' : Process State Service = record p { session = record p.session { client = s } } in
      let h' : IsRefused p' = record {
        started = h.started;
        released = h.released;
        open_as_before = h.open_as_before;
      } in
      or_exit-Ends Exit Return r rest p' (λ a e. later a p' h') (refused p' h')

  -- One more resource is released, other than the connection.
  pub release_more :
      (service : Service) (rs : List Resource) (m : ℕ) (r : Resource) (s : State)
      (p : Process State Service)
      → HasServed service rs m p
      → HasServed service
          (rs ++ r ∷ [])
          m
          (record p { session = record p.session { client = s }; released = p.released ++ r ∷ [] })
  release_more service rs m r s p h = record {
    started = h.started;
    released = ap (λ l. l ++ r ∷ []) h.released ∙ append_assoc before.released rs (r ∷ []);
    still_open = h.still_open;
  }

  pub Ends-map :
      (Exit Exit' Return Return' : Process State Service → Type 0)
      (o : Ending × Process State Service)
      → ((p : Process State Service) → Exit p → Exit' p)
      → ((p : Process State Service) → Return p → Return' p)
      → Ends Exit Return o
      → Ends Exit' Return' o
  Ends-map Exit Exit' Return Return' (exits code, p) f g h = (h.0, f p h.1)
  Ends-map Exit Exit' Return Return' (returns, p) f g h = g p h
