-- ===== src/System/Settled.antt =====
-- The image worker of services/worker-image, once it is left to work until nothing is queued.
use media_forge.Prelude.{
  ℕ, zero, suc, ◌≡◌, ◌⊎◌, inl, inr, ◌≤◌, List, [], ◌∷◌, pos, max_int, All, All-map, Any, some,
}
use media_forge.Text.{Text, codes}
use media_forge.Database.{Tables}
use media_forge.Json.{object}
use media_forge.Gateway.Encode.{job_value}
use media_forge.Gateway.Submit.{Message}
use media_forge.Worker.Amqp.{Table, death_count}
use media_forge.Worker.Consume.{Job, Delivery}
use media_forge.Worker.Consume.Queues.{Queues, Parked, drain, drain_next}
use media_forge.Worker.Consume.Bounds.{limit, potential}
use media_forge.Worker.Consume.Bounds as Bounds
use media_forge.Worker.Consume.Attempts.{IsDrained, drain-empties}
use media_forge.Worker.Decode.{job_from}
use media_forge.Worker.Services as Worker
use media_forge.Worker.Handler.Recorded.{IsCompleted, HasRow}
use media_forge.System.{Deployment, IsFaithful, State, Reach, unmarshal, handler}
use media_forge.System.Account.{Carries, Held, queued, delayed, set_aside, done, Kept}
use media_forge.System.Round.{deliver-Kept, expire-Kept}
use media_forge.System.Submission.{HasObject}
use media_forge.System.Tracked.{IsTracked, Reach-AllTracked}

module _ (D : Deployment) where
  -- The queues after so many rounds of deliveries and of ends of a wait, or fewer if they are empty.
  abbrev pub drained :
      ℕ → Queues (Worker.World D.services.Outside) → Queues (Worker.World D.services.Outside)
  drained fuel q = drain (unmarshal D) D.max_retries (handler D) D.cycle fuel q

  abbrev pub at_rest : ℕ → State D → State D
  at_rest fuel s = record s { queues = drained fuel s.queues }

  module _ (u : Text) where
    next-Kept :
        (ready waiting : List Delivery) (q : Queues (Worker.World D.services.Outside))
        (rest : Queues (Worker.World D.services.Outside) → Queues (Worker.World D.services.Outside))
        → ((q' : Queues (Worker.World D.services.Outside)) → Kept D u q' → Kept D u (rest q'))
        → Kept D u q
        → Kept D u (drain_next (unmarshal D) D.max_retries (handler D) D.cycle ready waiting q rest)
    next-Kept [] [] q rest ih k = k
    next-Kept [] (d ∷ ds) q rest ih k = ih _ (expire-Kept D u q k)
    next-Kept (d ∷ ds) ws q rest ih k = ih _ (deliver-Kept D u q k)

    drained-Kept :
        (fuel : ℕ) (q : Queues (Worker.World D.services.Outside))
        → Kept D u q
        → Kept D u (drained fuel q)
    unfolding drain
    drained-Kept zero q k = k
    drained-Kept (suc fuel) q k = next-Kept q.ready q.waiting q _ (λ q'. drained-Kept fuel q') k

    -- What is held where nothing is queued is parked, or completed.
    Held-at_rest :
        (ready waiting : List Delivery) (parked : List Parked) (t : Tables)
        → ready ≡ []
        → waiting ≡ []
        → Held D u ready waiting parked t
        → Any (λ (p : Parked). Carries D u p.body) parked ⊎ IsCompleted u t
    Held-at_rest ready waiting parked t e f (queued h) = absurd (rw e at h)
    Held-at_rest ready waiting parked t e f (delayed h) = absurd (rw f at h)
    Held-at_rest ready waiting parked t e f (set_aside h) = inl h
    Held-at_rest ready waiting parked t e f (done h) = inr h

  -- What the worker reads from a message is a job whose upload is stored. If it is no job of the OCR
  -- worker, its row is there, and it is parked or completed.
  pub record IsSettled (s : State D) (m : Message) : Type 0 where
    pub job : Job
    pub read :
        job_from D.json_fold D.parse_float (object (job_value D.format_float m.job)) ≡ some job
    pub has_upload : HasObject D job.source_key s.stored
    pub ended :
        (job.kind ≡ codes "ocr")
        ⊎ ((u : Text) × (D.services.uuid job.id ≡ some u)
            × HasRow u s.queues.world.tables
            × (Any (λ (p : Parked). Carries D u p.body) s.queues.parked
                ⊎ IsCompleted u s.queues.world.tables))

  module _ (F : IsFaithful D) (bound : limit D.max_retries ≤ max_int)
      (cycle_counts : (h : Table) (n : ℕ)
        → death_count h ≡ pos n
        → death_count (D.cycle h) ≡ pos (suc n)) where
    at_rest-IsSettled :
        (fuel : ℕ) (s : State D)
        → IsDrained (drained fuel s.queues)
        → (m : Message) → IsTracked D F s m
        → IsSettled (at_rest fuel s) m
    at_rest-IsSettled fuel s (no_ready, no_waiting) m k = record {
      job = k.job;
      read = k.read;
      has_upload = k.has_upload;
      ended = elim k.followed [
        | inl ocr ↦ inl ocr
        | inr (u, known, kept) ↦
            let after = drained-Kept u fuel s.queues kept in
            inr (
              u,
              known,
              after.here,
              Held-at_rest u (drained fuel s.queues).ready (drained fuel s.queues).waiting
                  (drained fuel s.queues).parked (drained fuel s.queues).world.tables no_ready
                  no_waiting after.account,
            )
      ];
    }

    -- After any turns from a state in which nothing was published, where every queued delivery has an
    -- attempt left, as many rounds as the attempts allow for leave every published job parked or
    -- completed, its row there and its upload stored, unless it is for the OCR worker. The handler
    -- may fail as it likes. Of the outside, IsFaithful is assumed, that the retry queue counts in
    -- x-death, and that publications to the parking exchange succeed.
    pub at_rest-AllSettled :
        (s t : State D) (fuel : ℕ)
        → s.published ≡ []
        → Reach D s t
        → Bounds.IsTracked D.max_retries t.queues
        → potential D.max_retries t.queues ≤ fuel
        → All (IsSettled (at_rest fuel t)) t.published
    at_rest-AllSettled s t fuel e reach tracked enough =
        All-map _ _ t.published
          (at_rest-IsSettled fuel t (
            drain-empties D.max_retries bound (unmarshal D) (handler D) D.cycle cycle_counts fuel
              t.queues tracked enough))
          (Reach-AllTracked D F s t e reach)
