-- ===== src/Worker/Consume/Attempts.antt =====
-- The retry loop of services/worker-image/internal/broker/broker.go as a whole: attempts are bounded,
-- and every delivery is settled in the end.
use media_forge.Prelude.{
  ℕ, zero, suc, ◌+◌, ◌≤◌, ◌⊎◌, inl, inr, ◌≡◌, refl, Bool, true, Option, List, [], ◌∷◌, ℤ, pos,
  suc_int, max_int, arith, All,
}
use media_forge.Text.{Text}
use media_forge.Worker.Amqp.{Table, death_count}
use media_forge.Errors.{Error}
use media_forge.Worker.Consume.{Job, Delivery, Unmarshalled, attempt}
use media_forge.Worker.Consume.Queues.{
  Queues, deliver, expire, Tick, delivers, expires, crashes, run, drain_next, drain,
}
use media_forge.Worker.Consume.Bounds.{
  limit, deaths, IsPending, IsWaiting, IsTracked, potential, rounds, waiting_rounds,
  deliver_from-IsTracked, expire_from-IsTracked,
}

-- The number of a delivery's attempt is in range.
abbrev pub IsWithin : ℤ → Delivery → Type 0
IsWithin max_retries d = (k : ℕ) × (attempt d ≡ pos (suc k)) × (suc k ≤ limit max_retries)

-- No delivery is left to handle.
abbrev pub IsDrained : {W : Type 0} → Queues W → Type 0
IsDrained q = (q.ready ≡ []) × (q.waiting ≡ [])

module _ (max_retries : ℤ) (bound : limit max_retries ≤ max_int) where
  IsPending-IsWithin : (d : Delivery) → IsPending max_retries d → IsWithin max_retries d
  unfolding attempt suc_int
  IsPending-IsWithin d p = (deaths d, rw p.counted (ground (arith, p.below)), p.below)

  All-IsWithin :
      (ds : List Delivery) → All (IsPending max_retries) ds → All (IsWithin max_retries) ds
  All-IsWithin [] h = tt
  All-IsWithin (d ∷ ds) h = (IsPending-IsWithin d h.0, All-IsWithin ds h.1)

  module _ (unmarshal : Text → Unmarshalled) {W : Type 0} (handler : Job → ℤ → W → Option Error × W)
      (cycle : Table → Table)
      (cycle_counts : (h : Table) (n : ℕ)
        → death_count h ≡ pos n
        → death_count (cycle h) ≡ pos (suc n)) where
    deliver_round :
        (ok : Bool) (q : Queues W) (r : List Delivery)
        → q.ready ≡ r
        → IsTracked max_retries q
        → IsTracked max_retries (deliver unmarshal max_retries handler cycle ok q)
          × ((r ≡ [])
              ⊎ (suc (potential max_retries (deliver unmarshal max_retries handler cycle ok q))
                  ≤ potential max_retries q))
    unfolding deliver
    deliver_round ok q [] e t = simp e (t, inl refl)
    deliver_round ok q (d ∷ ds) e t =
        let ps : All (IsPending max_retries) (d ∷ ds) = rw e at t.ready in
        let (tracked, less) =
          deliver_from-IsTracked max_retries bound unmarshal handler cycle cycle_counts ok q d ds
            ps.0 ps.1 t.waiting in
        simp e (tracked, inr less)

    expire_round :
        (q : Queues W) (r : List Delivery)
        → q.waiting ≡ r
        → IsTracked max_retries q
        → IsTracked max_retries (expire unmarshal max_retries handler cycle q)
          × ((r ≡ [])
              ⊎ (suc (potential max_retries (expire unmarshal max_retries handler cycle q))
                  ≤ potential max_retries q))
    unfolding expire
    expire_round q [] e t = simp e (t, inl refl)
    expire_round q (d ∷ ds) e t =
        let ws : All (IsWaiting max_retries) (d ∷ ds) = rw e at t.waiting in
        let (tracked, less) =
          expire_from-IsTracked max_retries bound unmarshal handler cycle cycle_counts q d ds
            t.ready ws.0 ws.1 in
        simp e (tracked, inr less)

    run-IsTracked :
        (ts : List (Tick W)) (q : Queues W)
        → IsTracked max_retries q
        → IsTracked max_retries (run unmarshal max_retries handler cycle ts q)
    unfolding run
    run-IsTracked [] q t = t
    run-IsTracked (delivers ok ∷ ts) q t = run-IsTracked ts _ (deliver_round ok q q.ready refl t).0
    run-IsTracked (expires ∷ ts) q t = run-IsTracked ts _ (expire_round q q.waiting refl t).0
    run-IsTracked (crashes w ∷ ts) q t =
        run-IsTracked ts (record q { world = w }) (record { ready = t.ready; waiting = t.waiting })

    -- However deliveries, expiries and crashes of the worker follow one another, and whether or not
    -- parking succeeds, every delivery in the work queue has an attempt number between 1 and the
    -- limit, if the deliveries at the start have a count of deaths that leaves them an attempt. It is
    -- assumed that each wait in the retry queue adds one to the count in x-death, and that
    -- max_retries fits an int.
    pub run_attempts :
        (ts : List (Tick W)) (q : Queues W)
        → IsTracked max_retries q
        → All (IsWithin max_retries) (run unmarshal max_retries handler cycle ts q).ready
    run_attempts ts q t = All-IsWithin _ (run-IsTracked ts q t).ready

    empty_of_spent :
        (r w : List Delivery)
        → All (IsPending max_retries) r
        → All (IsWaiting max_retries) w
        → rounds max_retries r + waiting_rounds max_retries w ≤ 0
        → (r ≡ []) × (w ≡ [])
    empty_of_spent [] [] p v h = (refl, refl)
    empty_of_spent (d ∷ r) w p v h = absurd (omega (arith, p.0.below))
    empty_of_spent [] (d ∷ w) p v h = absurd (omega (arith, v.0.below))

    drain_from :
        (fuel : ℕ) (q : Queues W) (r w : List Delivery)
        → q.ready ≡ r
        → q.waiting ≡ w
        → IsTracked max_retries q
        → potential max_retries q ≤ suc fuel
        → ((q' : Queues W)
            → IsTracked max_retries q'
            → potential max_retries q' ≤ fuel
            → IsDrained (drain unmarshal max_retries handler cycle fuel q'))
        → IsDrained (
            drain_next unmarshal max_retries handler cycle r w q
              (drain unmarshal max_retries handler cycle fuel))
    drain_from fuel q [] [] e f t h ih = (e, f)
    drain_from fuel q [] (d ∷ w) e f t h ih =
        let (tracked, ended) = expire_round q (d ∷ w) f t in
        elim ended [ inl none_left ↦ cc | inr less ↦ ih _ tracked (omega arith) ]
    drain_from fuel q (d ∷ r) w e f t h ih =
        let (tracked, ended) = deliver_round true q (d ∷ r) e t in
        elim ended [ inl none_left ↦ cc | inr less ↦ ih _ tracked (omega arith) ]

    -- The retry loop ends: after at most `potential q` rounds, two for each attempt that is left to a
    -- delivery, no delivery is in the work queue or the retry queue, whatever the handler returns, if
    -- the deliveries at the start have a count of deaths that leaves them an attempt. It is assumed
    -- that each wait in the retry queue adds one to the count in x-death, and that max_retries fits
    -- an int.
    pub drain-empties :
        (fuel : ℕ) (q : Queues W)
        → IsTracked max_retries q
        → potential max_retries q ≤ fuel
        → IsDrained (drain unmarshal max_retries handler cycle fuel q)
    unfolding drain
    drain-empties zero q t h = empty_of_spent q.ready q.waiting t.ready t.waiting h
    drain-empties (suc fuel) q t h =
        drain_from fuel q q.ready q.waiting refl refl t h (drain-empties fuel)
