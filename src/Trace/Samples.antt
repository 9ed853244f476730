-- ===== src/Trace/Samples.antt =====
-- A trace on its way.
use media_forge.Prelude.{ℕ, suc, ◌≡◌, refl, [], ◌∷◌, ℤ, pos, negsuc, Any, inl, inr, arith}
use media_forge.Text.{Text, codes, ◌==◌}
use media_forge.Worker.Amqp.{Table, empty, entry, table, array, cons, nil, int64, get, death_count}
use media_forge.Worker.Consume.{attempt}
use media_forge.Trace.{Propagator, carrier_set, carrier_keys, parent}
use media_forge.Trace.Carried.{IsPropagator, returned, parent-joined}

trace : Unit {0}
unfolding codes ◌==◌ get death_count carrier_set carrier_keys
trace = tt

-- A context is its traceparent.
abbrev propagator : Propagator
propagator = record {
  Context = Text;
  fields = λ c. (codes "traceparent", c) ∷ [];
  extract = λ f base. f (codes "traceparent");
}

propagator-IsPropagator : IsPropagator propagator (λ c base. c)
unfolding trace
propagator-IsPropagator = record {
  names = codes "traceparent" ∷ [];
  no_deaths = (refl, tt);
  sets = λ c. (inl refl, tt);
  reads = λ f g base same. same (codes "traceparent") (inl refl);
  joins = λ c base. refl;
}

abbrev successor : ℤ → ℤ
successor (pos n) = pos (suc n)
successor (negsuc n) = pos 0

abbrev cycle : Table → Table
cycle h =
    entry (codes "x-death")
      (array (cons (table (entry (codes "count") (int64 (successor (death_count h))) empty)) nil)) h

cycle_keeps :
    (h : Table) (n : Text)
    → Any (λ (m : Text). m ≡ n) (codes "traceparent" ∷ [])
    → get (cycle h) n ≡ get h n
unfolding trace
cycle_keeps h n (inl e) = rw (← e) refl
cycle_keeps h n (inr e) = absurd e

cycle_counts : (h : Table) (n : ℕ) → death_count h ≡ pos n → death_count (cycle h) ≡ pos (suc n)
unfolding trace
cycle_counts h n e = rw e refl

parent-joined_example :
    (parent propagator []
        (returned propagator cycle (codes "00-1-2-01") 2 (codes "image.process") (codes "{}"))
      ≡ codes "00-1-2-01")
    × (attempt
          (returned propagator cycle (codes "00-1-2-01") 2 (codes "image.process") (codes "{}"))
        ≡ pos 3)
unfolding trace propagator-IsPropagator
parent-joined_example =
    parent-joined propagator (λ c base. c) propagator-IsPropagator cycle cycle_keeps cycle_counts
      (codes "00-1-2-01") [] 2 (codes "image.process") (codes "{}") (omega arith)

-- A key that is set again is listed once.
keys :
    carrier_keys
      (carrier_set (carrier_set (carrier_set empty (codes "a") []) (codes "b") []) (codes "a") [])
    ≡ codes "a" ∷ codes "b" ∷ []
unfolding trace
keys = refl
