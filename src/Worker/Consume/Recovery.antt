-- ===== src/Worker/Consume/Recovery.antt =====
-- A delivery whose handler succeeds in the end, under `handle` of
-- services/worker-image/internal/broker/broker.go.
use media_forge.Prelude.{
  ℕ, zero, suc, ◌+◌, ◌≤◌, ◌<◌, ◌≡◌, refl, true, false, ◌||◌, Option, none, some, List, [], ◌∷◌,
  ◌++◌, ℤ, pos, negsuc, leℤ, suc_int, max_int, length, All, arith,
}
use media_forge.Text.{Text}
use media_forge.Worker.Amqp.{Table, death_count}
use media_forge.Errors.{Error, is_permanent}
use media_forge.Worker.Consume.{Job, Delivery, Unmarshalled, decoded, attempt, settle, handle}
use media_forge.Worker.Consume.Queues.{Queues, Parked, perform, deliver, expire, drain}
use media_forge.Worker.Consume.Bounds.{limit}
use media_forge.Worker.Consume.Failures.{rounds_for, deliver_failure}

-- A handler that returns these errors, one on each call, and after the last of them none.
abbrev pub fails_with : Job → ℤ → List Error → Option Error × List Error
fails_with job n [] = (none, [])
fails_with job n (err ∷ errs) = (some err, errs)

abbrev pub IsTransient : Error → Type 0
IsTransient err = is_permanent err ≡ false

abbrev pub one : Delivery → List Parked → List Delivery → List Error → Queues (List Error)
one d parked acked errs = record {
  ready = d ∷ [];
  waiting = [];
  parked = parked;
  acked = acked;
  world = errs;
}

-- The delivery is acknowledged, with the message that it had; no queue holds it, and it is not parked.
pub record IsDone (d : Delivery) (parked : List Parked) (acked : List Delivery)
    (q : Queues (List Error)) : Type 0 where
  pub last : Delivery
  pub body : last.body ≡ d.body
  pub routing_key : last.routing_key ≡ d.routing_key
  pub ended :
      q
      ≡ record { ready = []; waiting = []; parked = parked; acked = acked ++ last ∷ []; world = [] }

below_limit :
    (m : ℤ) (n : ℕ) → limit m ≤ max_int → suc n < limit m → leℤ m (suc_int (pos n)) ≡ false
unfolding suc_int
below_limit (pos zero) n b h = absurd (omega (arith, h))
below_limit (pos (suc m)) n b h = ground (arith, b, h)
below_limit (negsuc m) n b h = absurd (omega (arith, h))

module _ (unmarshal : Text → Unmarshalled) (max_retries : ℤ) (bound : limit max_retries ≤ max_int)
    (cycle : Table → Table)
    (cycle_counts : (h : Table) (n : ℕ)
      → death_count h ≡ pos n
      → death_count (cycle h) ≡ pos (suc n))
    (job : Job) where
  deliver_success :
      (d : Delivery) (parked : List Parked) (acked : List Delivery)
      → unmarshal d.body ≡ decoded job
      → deliver unmarshal max_retries fails_with cycle true (one d parked acked [])
        ≡ record { ready = []; waiting = []; parked = parked; acked = acked ++ d ∷ []; world = [] }
  unfolding deliver handle settle perform
  deliver_success d parked acked u = rw u refl

  verdict :
      (d : Delivery) (n : ℕ) (err : Error)
      → IsTransient err
      → death_count d.headers ≡ pos n
      → suc n < limit max_retries
      → is_permanent err || leℤ max_retries (attempt d) ≡ false
  unfolding attempt
  verdict d n err t c h = rw (t, c) (below_limit max_retries n bound h)

  drain_recovers :
      (errs : List Error) (n : ℕ) (d : Delivery) (parked : List Parked) (acked : List Delivery)
      → All IsTransient errs
      → unmarshal d.body ≡ decoded job
      → death_count d.headers ≡ pos n
      → n + length errs < limit max_retries
      → IsDone d parked acked (
          drain unmarshal max_retries fails_with cycle
            (rounds_for (length errs))
            (one d parked acked errs))
  unfolding drain expire
  drain_recovers [] n d parked acked t u c h = record {
    last = d;
    body = refl;
    routing_key = refl;
    ended = deliver_success d parked acked u;
  }
  drain_recovers (err ∷ errs) n d parked acked t u c h =
      rw
        (
          deliver_failure unmarshal max_retries fails_with cycle true
              (one d parked acked (err ∷ errs)) d [] job err errs refl u refl,
          verdict d n err t.0 c (omega (arith, h)),
        )
        (let rest =
            drain_recovers errs (suc n) (record d { headers = cycle d.headers }) parked acked t.1 u
              (cycle_counts d.headers n c) (omega (arith, h)) in
          record {
            last = rest.last;
            body = rest.body;
            routing_key = rest.routing_key;
            ended = rest.ended;
          })

  -- A delivery that was never dead-lettered, alone in the queues, whose handler fails with fewer errors
  -- than the limit, none of them permanent, and then returns none: so many rounds of deliveries and
  -- expiries end with the delivery acknowledged, and neither queued nor parked. It is assumed that
  -- each wait in the retry queue adds one to the count in x-death, and that max_retries fits an int.
  pub drain-IsDone :
      (errs : List Error) (d : Delivery) (parked : List Parked) (acked : List Delivery)
      → All IsTransient errs
      → unmarshal d.body ≡ decoded job
      → death_count d.headers ≡ pos 0
      → length errs < limit max_retries
      → IsDone d parked acked (
          drain unmarshal max_retries fails_with cycle
            (rounds_for (length errs))
            (one d parked acked errs))
  drain-IsDone errs d parked acked t u c h =
      drain_recovers errs 0 d parked acked t u c (omega (arith, h))
