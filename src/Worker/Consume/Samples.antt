-- ===== src/Worker/Consume/Samples.antt =====
-- The consumer at concrete deliveries.
use mathlib.Core.List.{Perm}
use media_forge.Prelude.{
  ℕ, suc, ◌≡◌, refl, true, false, Option, none, [], ◌∷◌, ℤ, pos, negsuc, suc_int, arith, All,
}
use media_forge.Text.{Text, codes, ◌==◌}
use media_forge.Worker.Amqp.{Table, empty, entry, array, cons, nil, table, int64, get, death_count}
use media_forge.Errors.{Error, plain, is_permanent, message}
use media_forge.Worker.Consume.{Job, Delivery, Unmarshalled, decoded, refused, attempt}
use media_forge.Worker.Consume.Queues.{Queues, drain, run, delivers, expires, crashes}
use media_forge.Worker.Consume.Bounds.{IsPending, IsTracked}
use media_forge.Worker.Consume.Attempts.{IsWithin, IsDrained, run_attempts, drain-empties}
use media_forge.Worker.Consume.Conservation.{letters, run-letters}
use media_forge.Worker.Consume.Recovery as Recovery
use media_forge.Worker.Consume.Failures.{
  parking, fails_always, Exhausted, drain-fails_always, alone,
}

consumer : Unit {0}
unfolding codes ◌==◌ suc_int get death_count is_permanent message attempt
consumer = tt

abbrev successor : ℤ → ℤ
successor (pos n) = pos (suc n)
successor (negsuc n) = pos 0

-- Headers that RabbitMQ might write: the count in `x-death`, one higher.
abbrev cycle : Table → Table
cycle h =
    entry (codes "x-death")
      (array (cons (table (entry (codes "count") (int64 (successor (death_count h))) empty)) nil))
      empty

cycle_counts : (h : Table) (n : ℕ) → death_count h ≡ pos n → death_count (cycle h) ≡ pos (suc n)
unfolding consumer
cycle_counts h n e = rw e

abbrev job : Job
job = record {
  id = codes "j1";
  kind = codes "image";
  status = codes "pending";
  source_key = codes "uploads/j1/a.png";
  source_mime = codes "image/png";
  size_bytes = pos 9;
  operations = codes "resize" ∷ [];
  params = none;
}

-- Bodies that are empty do not parse.
abbrev unmarshal : Text → Unmarshalled
unmarshal [] = refused (codes "unexpected end of JSON input")
unmarshal (c ∷ s) = decoded job

abbrev fresh : Delivery
fresh = record { headers = empty; routing_key = codes "image.process"; body = codes "{}" }

abbrev timeout : Error
timeout = plain (codes "timeout")

abbrev start : Queues ℕ
start = record { ready = fresh ∷ fresh ∷ []; waiting = []; parked = []; acked = []; world = 0 }

fresh-IsPending : IsPending (pos 3) fresh
unfolding consumer
fresh-IsPending = record { counted = refl; below = omega arith }

start-IsTracked : IsTracked (pos 3) start
start-IsTracked = record { ready = (fresh-IsPending, (fresh-IsPending, tt)); waiting = tt }

abbrev fail : Job → ℤ → ℕ → Option Error × ℕ
fail = fails_always timeout

run_attempts_example :
    All
      (IsWithin (pos 3))
      (run unmarshal (pos 3) fail cycle (delivers true ∷ crashes 7 ∷ expires ∷ []) start).ready
run_attempts_example =
    run_attempts (pos 3) (omega arith) unmarshal fail cycle cycle_counts
      (delivers true ∷ crashes 7 ∷ expires ∷ []) start start-IsTracked

drain-empties_example : IsDrained (drain unmarshal (pos 3) fail cycle 10 start)
unfolding consumer
drain-empties_example =
    drain-empties (pos 3) (omega arith) unmarshal fail cycle cycle_counts 10 start start-IsTracked
      (omega arith)

run-letters_example :
    Perm
      (letters (run unmarshal (pos 3) fail cycle (delivers true ∷ expires ∷ []) start))
      (letters start)
run-letters_example = run-letters unmarshal (pos 3) fail cycle (delivers true ∷ expires ∷ []) start

abbrev last_attempt : Delivery
last_attempt = record fresh { headers = cycle (cycle empty) }

abbrev one : Queues ℕ
one = record start { ready = last_attempt ∷ [] }

timeout-transient : is_permanent timeout ≡ false
unfolding consumer
timeout-transient = refl

drain-fails_always_example :
    Exhausted
      (drain unmarshal (pos 3) fail cycle 5 (alone fresh [] [] 0))
      3
      (parking fresh timeout ∷ [])
unfolding consumer
drain-fails_always_example =
    drain-fails_always unmarshal (pos 3) (omega arith) cycle cycle_counts timeout timeout-transient
      job fresh [] [] 0 refl refl

-- The third attempt succeeds.
drain-IsDone_example : Recovery.IsDone fresh [] [] (
    drain unmarshal
      (pos 3)
      Recovery.fails_with
      cycle
      5
      (Recovery.one fresh [] [] (timeout ∷ timeout ∷ [])))
unfolding consumer
drain-IsDone_example =
    Recovery.drain-IsDone unmarshal (pos 3) (omega arith) cycle cycle_counts job
      (timeout ∷ timeout ∷ []) fresh [] [] (timeout-transient, (timeout-transient, tt)) refl refl
      (omega arith)
