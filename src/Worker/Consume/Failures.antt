-- ===== src/Worker/Consume/Failures.antt =====
-- What becomes of a delivery whose handler fails, in `handle` of
-- services/worker-image/internal/broker/broker.go.
use media_forge.Prelude.{
  ℕ, zero, suc, ◌+◌, ◌-◌, ◌≤◌, ◌<◌, ◌≡◌, refl, ◌∙◌, Bool, true, false, ◌||◌, Option, some, List, [],
  ◌∷◌, ◌++◌, ℤ, pos, negsuc, leℤ, suc_int, max_int, arith, if◌then◌else◌,
}
use media_forge.Text.{Text}
use media_forge.Worker.Amqp.{Table, death_count}
use media_forge.Errors.{Error, message, is_permanent}
use media_forge.Worker.Consume.{
  Job, Delivery, park, ack, nack, Unmarshalled, decoded, attempt, settle, handle,
}
use media_forge.Worker.Consume.Queues.{Queues, Parked, perform, deliver, expire, drain}
use media_forge.Worker.Consume.Bounds.{limit}

-- The delivery as it is parked.
abbrev pub parking : Delivery → Error → Parked
parking d err = record { routing_key = d.routing_key; reason = message err; body = d.body }

perform-verdict :
    {W : Type 0} (ok : Bool) (d : Delivery) (err : Error) (terminal : Bool) (q : Queues W)
    → perform
        (if terminal then park d.routing_key (message err) d.body ∷ ack ∷ [] else nack ∷ [])
        ok
        d
        q
      ≡ (if terminal
          then record q {
            parked = if ok then q.parked ++ parking d err ∷ [] else q.parked;
            acked = q.acked ++ d ∷ [];
          }
          else record q { waiting = q.waiting ++ d ∷ [] })
unfolding perform
perform-verdict true d err true q = refl
perform-verdict false d err true q = refl
perform-verdict ok d err false q = refl

module _ (unmarshal : Text → Unmarshalled) (max_retries : ℤ) {W : Type 0}
    (handler : Job → ℤ → W → Option Error × W) (cycle : Table → Table) where
  -- Where the handler fails, the delivery goes to the retry queue if the error is not permanent and
  -- the attempt is below the limit. Otherwise it is acknowledged, and it is parked if the
  -- publication to the parking exchange succeeds: if that fails, no queue holds it any more.
  pub deliver_failure :
      (ok : Bool) (q : Queues W) (d : Delivery) (ds : List Delivery) (job : Job) (err : Error)
      (w : W)
      → q.ready ≡ d ∷ ds
      → unmarshal d.body ≡ decoded job
      → handler job (attempt d) q.world ≡ (some err, w)
      → deliver unmarshal max_retries handler cycle ok q ≡ (
          if is_permanent err || leℤ max_retries (attempt d)
          then record q {
            ready = ds;
            parked = if ok then q.parked ++ parking d err ∷ [] else q.parked;
            acked = q.acked ++ d ∷ [];
            world = w;
          }
          else record q { ready = ds; waiting = q.waiting ++ d ∷ []; world = w })
  unfolding deliver handle settle perform
  deliver_failure ok q d ds job err w e u h =
      simp (e, u, h)
        (perform-verdict ok d err (is_permanent err || leℤ max_retries (attempt d))
          (record q { ready = ds; world = w }))

-- A handler that always fails, and counts its calls.
abbrev pub fails_always : Error → Job → ℤ → ℕ → Option Error × ℕ
fails_always err job n calls = (some err, suc calls)

-- Queues with one delivery.
abbrev pub alone : Delivery → List Parked → List Delivery → ℕ → Queues ℕ
alone d parked acked calls = record {
  ready = d ∷ [];
  waiting = [];
  parked = parked;
  acked = acked;
  world = calls;
}

limit-pos : (m : ℤ) → 0 < limit m
limit-pos (pos zero) = omega arith
limit-pos (pos (suc m)) = omega arith
limit-pos (negsuc m) = omega arith

-- The rounds that one delivery takes: a delivery, and before each later one an expiry.
abbrev pub rounds_for : ℕ → ℕ
rounds_for zero = 1
rounds_for (suc k) = suc (suc (rounds_for k))

-- The queues are empty but for the parked messages, and the handler has been called so often.
pub record Exhausted (q : Queues ℕ) (n : ℕ) (ps : List Parked) : Type 0 where
  pub calls : q.world ≡ n
  pub parked : q.parked ≡ ps
  pub ready : q.ready ≡ []
  pub waiting : q.waiting ≡ []

module _ (unmarshal : Text → Unmarshalled) (max_retries : ℤ) (bound : limit max_retries ≤ max_int)
    (cycle : Table → Table)
    (cycle_counts : (h : Table) (n : ℕ)
      → death_count h ≡ pos n
      → death_count (cycle h) ≡ pos (suc n))
    (err : Error) (transient : is_permanent err ≡ false) (job : Job) where
  -- The last attempt is one for which the limit is reached, and no earlier one is.
  last_terminal :
      (m : ℤ) (n : ℕ) → limit m ≤ max_int → n + 1 ≡ limit m → leℤ m (suc_int (pos n)) ≡ true
  unfolding suc_int
  last_terminal (pos zero) n b e = ground arith
  last_terminal (pos (suc m)) n b e = ground arith
  last_terminal (negsuc m) n b e = ground arith

  earlier_retried :
      (m : ℤ) (n k : ℕ)
      → limit m ≤ max_int
      → n + suc (suc k) ≡ limit m
      → leℤ m (suc_int (pos n)) ≡ false
  unfolding suc_int
  earlier_retried (pos zero) n k b e = absurd (omega arith)
  earlier_retried (pos (suc m)) n k b e = ground arith
  earlier_retried (negsuc m) n k b e = absurd (omega arith)

  verdict :
      (d : Delivery) (n : ℕ) (b : Bool)
      → death_count d.headers ≡ pos n
      → leℤ max_retries (suc_int (pos n)) ≡ b
      → is_permanent err || leℤ max_retries (attempt d) ≡ b
  unfolding attempt
  verdict d n b c e = rw (transient, c) e

  drain_failures :
      (k n : ℕ) (d : Delivery) (parked : List Parked) (acked : List Delivery) (calls : ℕ)
      → unmarshal d.body ≡ decoded job
      → death_count d.headers ≡ pos n
      → n + suc k ≡ limit max_retries
      → Exhausted
          (drain unmarshal max_retries
            (fails_always err)
            cycle
            (rounds_for k)
            (alone d parked acked calls))
          (suc k + calls)
          (parked ++ parking d err ∷ [])
  unfolding drain expire
  drain_failures zero n d parked acked calls u c e =
      rw
        (
          deliver_failure unmarshal max_retries (fails_always err) cycle true
              (alone d parked acked calls) d [] job err (suc calls) refl u refl,
          verdict d n true c (last_terminal max_retries n bound e),
        )
        (record { calls = omega arith; parked = refl; ready = refl; waiting = refl })
  drain_failures (suc k) n d parked acked calls u c e =
      rw
        (
          deliver_failure unmarshal max_retries (fails_always err) cycle true
              (alone d parked acked calls) d [] job err (suc calls) refl u refl,
          verdict d n false c (earlier_retried max_retries n k bound e),
        )
        (let rest =
            drain_failures k (suc n) (record d { headers = cycle d.headers }) parked acked
              (suc calls) u (cycle_counts d.headers n c) (omega arith) in
          record {
            calls = rest.calls ∙ omega arith;
            parked = rest.parked;
            ready = rest.ready;
            waiting = rest.waiting;
          })

  -- A delivery that was never dead-lettered, whose handler fails with an error that is not permanent
  -- on every attempt, alone in the queues: the handler is called exactly `limit max_retries` times,
  -- then the message is parked once, with the error's text, and the queues are empty. It is assumed
  -- that each wait in the retry queue adds one to the count in x-death, and that max_retries fits an
  -- int.
  pub drain-fails_always :
      (d : Delivery) (parked : List Parked) (acked : List Delivery) (calls : ℕ)
      → unmarshal d.body ≡ decoded job
      → death_count d.headers ≡ pos 0
      → Exhausted
          (drain unmarshal max_retries
            (fails_always err)
            cycle
            (rounds_for (limit max_retries - 1))
            (alone d parked acked calls))
          (limit max_retries + calls)
          (parked ++ parking d err ∷ [])
  drain-fails_always d parked acked calls u c =
      let positive : 0 < limit max_retries = limit-pos max_retries in
      let whole : suc (limit max_retries - 1) ≡ limit max_retries = omega arith in
      let all_tries =
        drain_failures (limit max_retries - 1) 0 d parked acked calls u c (omega arith) in
      record {
        calls = all_tries.calls ∙ omega (arith, whole);
        parked = all_tries.parked;
        ready = all_tries.ready;
        waiting = all_tries.waiting;
      }
