-- ===== src/Worker/Consume/Conservation.antt =====
-- No delivery is lost or made twice by the retry loop of
-- services/worker-image/internal/broker/broker.go.
use mathlib.Core.List.{Perm, perm_middle, perm_append_singleton, map-append, append_assoc}
use mathlib.Core.List.Perm
use media_forge.Prelude.{◌≡◌, refl, Bool, true, false, Option, List, [], ◌∷◌, ◌++◌, ℤ, map}
use media_forge.Text.{Text}
use media_forge.Worker.Amqp.{Table}
use media_forge.Errors.{Error}
use media_forge.Worker.Consume.{Job, Delivery, Action, Unmarshalled, handle}
use media_forge.Worker.Consume.Shape.{Shape, finishes, parks, retries, handle-Shape}
use media_forge.Worker.Consume.Queues.{
  Queues, perform, deliver, expire, Tick, delivers, expires, crashes, run,
}

-- What of a delivery never changes: its routing key and its body.
abbrev pub letter : Delivery → Text × Text
letter d = (d.routing_key, d.body)

abbrev pub letters : {W : Type 0} → Queues W → List (Text × Text)
letters q = map letter q.ready ++ (map letter q.waiting ++ map letter q.acked)

module _ {ℓ} {A : Type ℓ} (x : A) (a b c : List A) where
  last_first : Perm (a ++ (b ++ (c ++ x ∷ []))) (x ∷ (a ++ (b ++ c)))
  last_first = simp (← append_assoc) (perm_append_singleton x ((a ++ b) ++ c))

  middle_first : Perm (a ++ ((b ++ x ∷ []) ++ c)) (x ∷ (a ++ (b ++ c)))
  middle_first =
      rw (append_assoc b (x ∷ []) c, ← append_assoc a b (x ∷ c), ← append_assoc a b c)
        (perm_middle (a ++ b) c)

perform-letters :
    (max_retries : ℤ) {W : Type 0} (ok : Bool) (d : Delivery) (q : Queues W) {actions : List Action}
    → Shape max_retries d actions
    → Perm (letters (perform actions ok d q)) (letter d ∷ letters q)
unfolding perform
perform-letters m ok d q finishes =
    simp map-append
      (last_first (letter d) (map letter q.ready) (map letter q.waiting) (map letter q.acked))
perform-letters m true d q (parks reason) =
    simp map-append
      (last_first (letter d) (map letter q.ready) (map letter q.waiting) (map letter q.acked))
perform-letters m false d q (parks reason) =
    simp map-append
      (last_first (letter d) (map letter q.ready) (map letter q.waiting) (map letter q.acked))
perform-letters m ok d q (retries h) =
    simp map-append
      (middle_first (letter d) (map letter q.ready) (map letter q.waiting) (map letter q.acked))

module _ (unmarshal : Text → Unmarshalled) (max_retries : ℤ) {W : Type 0}
    (handler : Job → ℤ → W → Option Error × W) (cycle : Table → Table) where
  deliver-letters :
      (ok : Bool) (q : Queues W) (r : List Delivery)
      → q.ready ≡ r
      → Perm (letters (deliver unmarshal max_retries handler cycle ok q)) (letters q)
  unfolding deliver
  deliver-letters ok q [] e = simp e (Perm.refl _)
  deliver-letters ok q (d ∷ ds) e = simp e (
      perform-letters max_retries ok d
        (record q { ready = ds; world = (handle unmarshal max_retries handler d q.world).1 })
        (handle-Shape unmarshal max_retries handler d q.world))

  expire-letters :
      (q : Queues W) (r : List Delivery)
      → q.waiting ≡ r
      → Perm (letters (expire unmarshal max_retries handler cycle q)) (letters q)
  unfolding expire
  expire-letters q [] e = simp e (Perm.refl _)
  expire-letters q (d ∷ ds) e = simp (e, map-append, append_assoc) (Perm.refl _)

  -- Whatever the deliveries, the expiries and the crashes of the worker, and whether or not parking
  -- succeeds, the work queue, the retry queue and the acknowledged deliveries together hold the
  -- routing keys and bodies that they held at the start, each as often.
  pub run-letters :
      (ts : List (Tick W)) (q : Queues W)
      → Perm (letters (run unmarshal max_retries handler cycle ts q)) (letters q)
  unfolding run
  run-letters [] q = Perm.refl _
  run-letters (delivers ok ∷ ts) q =
      Perm.trans (run-letters ts _) (deliver-letters ok q q.ready refl)
  run-letters (expires ∷ ts) q = Perm.trans (run-letters ts _) (expire-letters q q.waiting refl)
  run-letters (crashes w ∷ ts) q = run-letters ts (record q { world = w })
