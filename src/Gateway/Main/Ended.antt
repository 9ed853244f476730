-- ===== src/Gateway/Main/Ended.antt =====
-- How `main` of services/api-gateway/cmd/api/main.go ends.
use media_forge.Prelude.{ℕ, ◌+◌, ◌*◌, ◌^◌, ◌≡◌, refl, ap, Bool, List, [], ◌∷◌, ◌++◌, arith}
use media_forge.Text.{Text}
use media_forge.Errors.{Result, ok, err}
use media_forge.Broker.Connection.{Client, Session, IsSetUp}
use media_forge.Process.{Process, Resource, tracing, pool, bus, Ends, defer, after-Ends}
use media_forge.Process.Held.{IsRefused, HasServed, acquire-Ends, release_more, Ends-map}
use media_forge.Process.Tracing.{init_tracing}
use media_forge.Gateway.Config.{Config}
use media_forge.Gateway.Broker.{connect}
use media_forge.Gateway.Broker.Connect.{connect-IsSetUp}
use media_forge.Gateway.Main.{
  Libraries, Server, new_store, new_objects, tracing_of, is_up, server_of, close_pool, flush,
  connected, with_objects, with_store, traced, configured, main,
}

module _ (C : Client) (L : Libraries C.State) (visited : List (Text × Text))
    (serve : Server → C.State → C.State) (before : Process C.State Server) (n : ℕ) where
  open C use {State}

  -- The server of a configuration, with a limiter or without one
  abbrev pub Served : Config → List Resource → Process State Server → Type 0
  Served c rs p = (has : Bool) × HasServed before n (server_of C L visited serve c has) rs n p

  abbrev Refused : Process State Server → Type 0
  Refused = IsRefused before n

  Served-more :
      (c : Config) (rs : List Resource) (r : Resource) (s : State) (p : Process State Server)
      → Served c rs p
      → Served c
          (rs ++ r ∷ [])
          (record p { session = record p.session { client = s }; released = p.released ++ r ∷ [] })
  Served-more c rs r s p (has, h) = (has, release_more before n _ rs n r s p h)

  connected-Ends :
      (c : Config) (p : Process State Server) (Done : Type 0)
      (o : Result (Unit {0}) × Session State)
      → p.started ≡ before.started
      → p.released ≡ before.released
      → IsSetUp C n Done o
      → Ends Refused (Served c (bus ∷ [])) (connected C L visited serve c o p)
  connected-Ends c p Done (ok u, w) s r h =
      let has = is_up L (L.ping_redis c.redis_addr w.client).0 in
      (
        has,
        record {
          started = ap (λ l. l ++ server_of C L visited serve c has ∷ []) s;
          released = ap (λ l. l ++ bus ∷ []) r;
          still_open = omega (arith, h.0);
        },
      )
  connected-Ends c p Done (err e, w) s r h =
      (refl, record { started = s; released = r; open_as_before = h })

  with_objects-Ends :
      (c : Config) (p : Process State Server)
      → Refused p
      → Ends Refused (Served c (bus ∷ [])) (with_objects C L visited serve c p)
  with_objects-Ends c p h =
      connected-Ends c p _ (connect C visited (10 * 10 ^ 9) p.session) h.started h.released
        (connect-IsSetUp C visited (10 * 10 ^ 9) n p.session h.open_as_before)

  traced-Ends :
      (c : Config) (p : Process State Server)
      → Refused p
      → Ends Refused (Served c (bus ∷ pool ∷ [])) (traced C L visited serve c p)
  traced-Ends c p h =
      acquire-Ends before n Refused (Served c (bus ∷ pool ∷ [])) (new_store L c.postgres_dsn)
        (λ u. defer pool (close_pool C L visited serve) (with_store C L visited serve c)) p
        (λ p' x. x) h
        λ u p' h'.
          after-Ends Refused (Served c (bus ∷ [])) (Served c (bus ∷ pool ∷ [])) pool
            (close_pool C L visited serve) (with_store C L visited serve c p')
            (λ p'' k. Served-more c (bus ∷ []) pool (L.close_pool p''.session.client) p'' k)
            (acquire-Ends before n Refused (Served c (bus ∷ [])) (new_objects L c)
              (λ v. with_objects C L visited serve c) p' (λ p'' x. x) h'
              λ v p'' h''. with_objects-Ends c p'' h'')

  configured-Ends :
      (c : Config) (p : Process State Server)
      → Refused p
      → Ends Refused (Served c (bus ∷ pool ∷ tracing ∷ [])) (configured C L visited serve c p)
  configured-Ends c p h =
      acquire-Ends before n Refused (Served c (bus ∷ pool ∷ tracing ∷ []))
        (init_tracing L.telemetry (tracing_of C L visited serve c))
        (λ ratio. defer tracing (flush C L visited serve ratio) (traced C L visited serve c)) p
        (λ p' x. x) h
        λ ratio p' h'.
          after-Ends Refused (Served c (bus ∷ pool ∷ [])) (Served c (bus ∷ pool ∷ tracing ∷ []))
            tracing (flush C L visited serve ratio) (traced C L visited serve c p')
            (λ p'' k. Served-more c (bus ∷ pool ∷ []) tracing _ p'' k) (traced-Ends c p' h')

  -- `main` of the gateway ends in one of two ways. It exits with 1, no server was started, and no
  -- deferred call was made; or it returns, the server of the loaded configuration was started, and then
  -- the connection to RabbitMQ, the pool and the tracing were released, in this order. In both cases
  -- as many connections to RabbitMQ are open as before.
  pub main-Ended :
      (loaded : Result Config)
      → before.session.opened ≡ before.session.closed + n
      → Ends
          (IsRefused before n)
          (λ p. (c : Config) × (loaded ≡ ok c) × Served c (bus ∷ pool ∷ tracing ∷ []) p)
          (main C L visited serve loaded before)
  unfolding main
  main-Ended (err e) o = (refl, record { started = refl; released = refl; open_as_before = o })
  main-Ended (ok c) o =
      Ends-map before n Refused Refused _ _ (configured C L visited serve c before) (λ p x. x)
        (λ p h. (c, refl, h))
        (configured-Ends c before (record { started = refl; released = refl; open_as_before = o }))
