-- ===== src/Worker/Consume/Bounds.antt =====
-- How often the consumer of services/worker-image/internal/broker/broker.go handles a delivery, and
-- that its queues become empty.
use media_forge.Prelude.{
  ℕ, zero, suc, ◌+◌, ◌-◌, ◌*◌, ◌≤◌, ◌<◌, ◌≡◌, Bool, true, false, Option, List, [], ◌∷◌, ◌++◌, ℤ,
  pos, negsuc, leℤ, suc_int, max_int, sym, ap, ◌∙◌, arith, All, All-append,
}
use media_forge.Text.{Text}
use media_forge.Worker.Amqp.{Table, death_count}
use media_forge.Errors.{Error}
use media_forge.Worker.Consume.{Job, Delivery, Action, Unmarshalled, attempt, handle}
use media_forge.Worker.Consume.Shape.{Shape, finishes, parks, retries, handle-Shape}
use media_forge.Worker.Consume.Queues.{Queues, perform, deliver_from, expire_from}

-- How often a delivery may be handled: `max_retries`, and once where that is not positive.
abbrev pub limit : ℤ → ℕ
limit (pos zero) = 1
limit (pos (suc n)) = suc n
limit (negsuc n) = 1

abbrev pub magnitude : ℤ → ℕ
magnitude (pos n) = n
magnitude (negsuc n) = 0

abbrev pub deaths : Delivery → ℕ
deaths d = magnitude (death_count d.headers)

again :
    (m : ℤ) (n : ℕ)
    → limit m ≤ max_int
    → n < limit m
    → leℤ m (suc_int (pos n)) ≡ false
    → suc n < limit m
unfolding suc_int
again (pos zero) n bound below h = ground arith
again (pos (suc m)) n bound below h = ground arith
again (negsuc m) n bound below h = ground arith

module _ (max_retries : ℤ) where
  pub record IsPending (d : Delivery) : Type 0 where
    pub counted : death_count d.headers ≡ pos (deaths d)
    pub below : deaths d < limit max_retries

  pub record IsWaiting (d : Delivery) : Type 0 where
    pub counted : death_count d.headers ≡ pos (deaths d)
    pub below : suc (deaths d) < limit max_retries

  pub record IsTracked {W : Type 0} (q : Queues W) : Type 0 where
    pub ready : All IsPending q.ready
    pub waiting : All IsWaiting q.waiting

  -- The rounds that are left to a delivery, one less where it waits.
  abbrev pub rounds : List Delivery → ℕ
  rounds [] = 0
  rounds (d ∷ ds) = (2 * (limit max_retries - deaths d) - 1) + rounds ds

  abbrev pub waiting_rounds : List Delivery → ℕ
  waiting_rounds [] = 0
  waiting_rounds (d ∷ ds) = (2 * (limit max_retries - deaths d) - 2) + waiting_rounds ds

  abbrev pub potential : {W : Type 0} → Queues W → ℕ
  potential q = rounds q.ready + waiting_rounds q.waiting

  rounds-append : (ds es : List Delivery) → rounds (ds ++ es) ≡ rounds ds + rounds es
  rounds-append [] es = omega arith
  rounds-append (d ∷ ds) es = omega (arith, rounds-append ds es)

  waiting_rounds-append :
      (ds es : List Delivery) → waiting_rounds (ds ++ es) ≡ waiting_rounds ds + waiting_rounds es
  waiting_rounds-append [] es = omega arith
  waiting_rounds-append (d ∷ ds) es = omega (arith, waiting_rounds-append ds es)

  module _ (bound : limit max_retries ≤ max_int) where
    nack-IsWaiting :
        (d : Delivery) → IsPending d → leℤ max_retries (attempt d) ≡ false → IsWaiting d
    unfolding attempt
    nack-IsWaiting d p h = record {
      counted = p.counted;
      below = again max_retries (deaths d) bound p.below (rw p.counted at h);
    }

    perform-IsTracked :
        {W : Type 0} (ok : Bool) (d : Delivery) (q : Queues W) {actions : List Action}
        → Shape max_retries d actions
        → IsPending d
        → IsTracked q
        → IsTracked (perform actions ok d q)
          × (suc (potential (perform actions ok d q)) ≤ potential q + rounds (d ∷ []))
    unfolding perform
    perform-IsTracked ok d q finishes p t =
        (record { ready = t.ready; waiting = t.waiting }, omega arith)
    perform-IsTracked true d q (parks reason) p t =
        (record { ready = t.ready; waiting = t.waiting }, omega arith)
    perform-IsTracked false d q (parks reason) p t =
        (record { ready = t.ready; waiting = t.waiting }, omega arith)
    perform-IsTracked ok d q (retries h) p t = (
      record {
        ready = t.ready;
        waiting = All-append IsWaiting q.waiting (d ∷ []) t.waiting (nack-IsWaiting d p h, tt);
      },
      omega (arith, waiting_rounds-append q.waiting (d ∷ [])),
    )

    module _ (unmarshal : Text → Unmarshalled) {W : Type 0}
        (handler : Job → ℤ → W → Option Error × W) (cycle : Table → Table)
        (cycle_counts : (h : Table) (n : ℕ)
          → death_count h ≡ pos n
          → death_count (cycle h) ≡ pos (suc n)) where
      pub deliver_from-IsTracked :
          (ok : Bool) (q : Queues W) (d : Delivery) (ds : List Delivery)
          → IsPending d
          → All IsPending ds
          → All IsWaiting q.waiting
          → IsTracked (deliver_from unmarshal max_retries handler cycle (d ∷ ds) ok q)
            × (suc (potential (deliver_from unmarshal max_retries handler cycle (d ∷ ds) ok q))
                ≤ rounds (d ∷ ds) + waiting_rounds q.waiting)
      deliver_from-IsTracked ok q d ds p ps ws =
          let (tracked, less) =
            perform-IsTracked ok d
              (record q { ready = ds; world = (handle unmarshal max_retries handler d q.world).1 })
              (handle-Shape unmarshal max_retries handler d q.world) p
              (record { ready = ps; waiting = ws }) in
          (tracked, omega (arith, less))

      pub expire_from-IsTracked :
          (q : Queues W) (d : Delivery) (ds : List Delivery)
          → All IsPending q.ready
          → IsWaiting d
          → All IsWaiting ds
          → IsTracked (expire_from unmarshal max_retries handler cycle (d ∷ ds) q)
            × (suc (potential (expire_from unmarshal max_retries handler cycle (d ∷ ds) q))
                ≤ rounds q.ready + waiting_rounds (d ∷ ds))
      expire_from-IsTracked q d ds ps w ws =
          let back : Delivery = record d { headers = cycle d.headers } in
          let counted : death_count (cycle d.headers) ≡ pos (suc (deaths d)) =
            cycle_counts d.headers (deaths d) w.counted in
          let more : deaths back ≡ suc (deaths d) = rw counted in
          (
            record {
              ready =
                  All-append IsPending q.ready (back ∷ []) ps
                    (record { counted = counted ∙ ap pos (sym more); below = rw more w.below }, tt);
              waiting = ws;
            },
            omega (arith, more, w.below, rounds-append q.ready (back ∷ [])),
          )
