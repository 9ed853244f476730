-- ===== src/Worker/Main/Ended.antt =====
-- How `main` of services/worker-image/cmd/worker/main.go ends.
use media_forge.Prelude.{
  ℕ, ◌+◌, suc, ◌*◌, ◌^◌, ◌≡◌, refl, sym, ap, ◌∙◌, ◌⊎◌, inl, inr, Bool, true, false, Option, List,
  [], ◌∷◌, ◌++◌, ℤ, arith,
}
use mathlib.Core.List.{append-nil}
use media_forge.Text.{Text}
use media_forge.Errors.{Error, Result, ok, err}
use media_forge.Broker.Connection.{Client, Session, IsSetUp}
use media_forge.Process.{Process, Resource, tracing, pool, bus, Ends, defer, after, after-Ends}
use media_forge.Process.Held.{IsRefused, HasServed, acquire-Ends, release_more, Ends-map}
use media_forge.Process.Tracing.{init_tracing}
use media_forge.Worker.Config.{Config}
use media_forge.Worker.Consume.{Job, Delivery, Action, Unmarshalled}
use media_forge.Worker.Processor.{Options}
use media_forge.Worker.Broker.{connect, connect_once-IsSetUp}
use media_forge.Worker.Main.{
  Libraries, Feed, is_done, Consumer, new_store, new_objects, tracing_of, consumer_of, close_bus,
  close_pool, flush, stopped, connected, with_objects, with_store, traced, configured, main,
}

module _ (C : Client) (L : Libraries C.State) (visited : List (Text × Text))
    (unmarshal : Text → Unmarshalled) (perform : Delivery → Action → C.State → C.State)
    (handler : Options → Job → ℤ → C.State → Option Error × C.State) (feed : Feed)
    (before : Process C.State Consumer) (n : ℕ) where
  open C use {State}

  abbrev pub of_config : Config → Consumer
  of_config c = consumer_of C L visited unmarshal perform handler feed c

  -- The consumer stopped though it was not told to: nothing was released, and one more connection is
  -- open.
  abbrev pub HasBroken : Config → Process State Consumer → Type 0
  HasBroken c p = (is_done feed ≡ false) × HasServed before n (of_config c) [] (suc n) p

  abbrev Exited : Config → Process State Consumer → Type 0
  Exited c p = IsRefused before n p ⊎ HasBroken c p

  -- The consumer was told to stop.
  abbrev pub Served : Config → List Resource → Process State Consumer → Type 0
  Served c rs p = (is_done feed ≡ true) × HasServed before n (of_config c) rs n p

  Served-more :
      (c : Config) (rs : List Resource) (r : Resource) (s : State) (p : Process State Consumer)
      → Served c rs p
      → Served c
          (rs ++ r ∷ [])
          (record p { session = record p.session { client = s }; released = p.released ++ r ∷ [] })
  Served-more c rs r s p (done, h) = (done, release_more before n _ rs n r s p h)

  stopped-Ends :
      (c : Config) (p : Process State Consumer) (b : Bool)
      → is_done feed ≡ b
      → HasServed before n (of_config c) [] (suc n) p
      → Ends (Exited c) (Served c (bus ∷ [])) (
          after bus
            (close_bus C L visited unmarshal perform handler feed)
            (stopped C L visited unmarshal perform handler feed b p))
  stopped-Ends c p true e h = (
    e,
    record {
      started = h.started;
      released = ap (λ l. l ++ bus ∷ []) (h.released ∙ append-nil before.released);
      still_open = omega (arith, h.still_open);
    },
  )
  stopped-Ends c p false e h = (refl, inr (e, h))

  connected-Ends :
      (c : Config) (p : Process State Consumer) (Done : Type 0)
      (o : Result (Unit {0}) × Session State)
      → p.started ≡ before.started
      → p.released ≡ before.released
      → IsSetUp C n Done o
      → Ends
          (Exited c)
          (Served c (bus ∷ []))
          (connected C L visited unmarshal perform handler feed c o p)
  connected-Ends c p Done (ok u, w) s r h = stopped-Ends c _ (is_done feed) refl (record {
    started = ap (λ l. l ++ of_config c ∷ []) s;
    released = r ∙ sym (append-nil before.released);
    still_open = omega (arith, h.0);
  })
  connected-Ends c p Done (err e, w) s r h =
      (refl, inl (record { started = s; released = r; open_as_before = h }))

  with_objects-Ends :
      (c : Config) (p : Process State Consumer)
      → IsRefused before n p
      → Ends
          (Exited c)
          (Served c (bus ∷ []))
          (with_objects C L visited unmarshal perform handler feed c p)
  with_objects-Ends c p h =
      connected-Ends c p _ (connect C visited (10 * 10 ^ 9) p.session) h.started h.released
        (connect_once-IsSetUp C visited (10 * 10 ^ 9) n p.session h.open_as_before)

  traced-Ends :
      (c : Config) (p : Process State Consumer)
      → IsRefused before n p
      → Ends
          (Exited c)
          (Served c (bus ∷ pool ∷ []))
          (traced C L visited unmarshal perform handler feed c p)
  traced-Ends c p h =
      acquire-Ends before n (Exited c) (Served c (bus ∷ pool ∷ [])) (new_store L c.postgres_dsn)
        (λ u.
          defer pool (close_pool C L visited unmarshal perform handler feed)
            (with_store C L visited unmarshal perform handler feed c))
        p (λ p' x. inl x) h
        λ u p' h'.
          after-Ends (Exited c) (Served c (bus ∷ [])) (Served c (bus ∷ pool ∷ [])) pool
            (close_pool C L visited unmarshal perform handler feed)
            (with_store C L visited unmarshal perform handler feed c p')
            (λ p'' k. Served-more c (bus ∷ []) pool (L.close_pool p''.session.client) p'' k)
            (acquire-Ends before n (Exited c) (Served c (bus ∷ [])) (new_objects L c)
              (λ v. with_objects C L visited unmarshal perform handler feed c) p' (λ p'' x. inl x)
              h' λ v p'' h''. with_objects-Ends c p'' h'')

  configured-Ends :
      (c : Config) (p : Process State Consumer)
      → IsRefused before n p
      → Ends
          (Exited c)
          (Served c (bus ∷ pool ∷ tracing ∷ []))
          (configured C L visited unmarshal perform handler feed c p)
  configured-Ends c p h =
      acquire-Ends before n (Exited c) (Served c (bus ∷ pool ∷ tracing ∷ []))
        (init_tracing L.telemetry (tracing_of C L visited unmarshal perform handler feed c))
        (λ ratio.
          defer tracing (flush C L visited unmarshal perform handler feed ratio)
            (traced C L visited unmarshal perform handler feed c))
        p (λ p' x. inl x) h
        λ ratio p' h'.
          after-Ends (Exited c) (Served c (bus ∷ pool ∷ [])) (Served c (bus ∷ pool ∷ tracing ∷ []))
            tracing (flush C L visited unmarshal perform handler feed ratio)
            (traced C L visited unmarshal perform handler feed c p')
            (λ p'' k. Served-more c (bus ∷ pool ∷ []) tracing _ p'' k) (traced-Ends c p' h')

  -- `main` of the worker ends in one of three ways. It exits with 1 before the consumer is started, with
  -- as many connections to RabbitMQ open as before; or it exits with 1 after the consumer has stopped
  -- though the context is not done, with one more connection open; no deferred call is made in either
  -- case, so that neither the pool nor the tracing is released. Or it returns, the consumer of the
  -- loaded configuration has stopped with the context done, and then the connection to RabbitMQ, the
  -- pool and the tracing were released, in this order.
  pub worker-Ended :
      (loaded : Result Config)
      → before.session.opened ≡ before.session.closed + n
      → Ends
          (λ p. IsRefused before n p ⊎ ((c : Config) × (loaded ≡ ok c) × HasBroken c p))
          (λ p. (c : Config) × (loaded ≡ ok c) × Served c (bus ∷ pool ∷ tracing ∷ []) p)
          (main C L visited unmarshal perform handler feed loaded before)
  unfolding main
  worker-Ended (err e) o =
      (refl, inl (record { started = refl; released = refl; open_as_before = o }))
  worker-Ended (ok c) o =
      Ends-map before n (Exited c) _ _ _
        (configured C L visited unmarshal perform handler feed c before)
        (λ p x. elim x [ inl r ↦ inl r | inr b ↦ inr (c, refl, b) ]) (λ p h. (c, refl, h))
        (configured-Ends c before (record { started = refl; released = refl; open_as_before = o }))
