-- ===== src/System/Tracked.antt =====
-- Where the job of every published message is, as services/api-gateway and services/worker-image
-- take their steps.
use mathlib.Core.Path.{subst}
use media_forge.Prelude.{
  ◌≡◌, ◌⊎◌, inl, inr, refl, sym, ap, ◌∙◌, true, some, [], ◌∷◌, drop, length, drop-append, All,
  All-map, All-append, Any, Any-append_right, Any-append_last,
}
use media_forge.Text.{Text, codes, ◌==◌}
use media_forge.Json.{object}
use media_forge.Gateway.Contract.{valid-cases}
use media_forge.Gateway.Encode.{job_value}
use media_forge.Gateway.Submit.{Request, Message}
use media_forge.Worker.Consume.{Job, Delivery}
use media_forge.Worker.Decode.{job_from}
use media_forge.Worker.Handler.Recorded.{HasRow}
use media_forge.Wire.Delivery.{IsDelivered, submit-published}
use media_forge.System.{
  Deployment, IsFaithful, State, gateway_of, submitted, arrivals, for_image, delivery_of,
  unmarshalled, decoded_or, Turn, submits, consumes, expires, works, settles, repeats, Reach, here,
  later,
}
use media_forge.System.Account.{Carries, queued, Kept, Held-more}
use media_forge.System.Round.{deliver-Kept, expire-Kept}
use media_forge.System.Workers.{worked-Kept, turn_settled-Kept}
use media_forge.System.Submission.{HasObject, submitted-Kept, submitted-HasObject}

module _ (D : Deployment) (F : IsFaithful D) where
  abbrev Delivered : State D → State D → Type 0
  Delivered s t =
      IsDelivered D.backends D.json_fold D.format_float D.parse_float D.matches (gateway_of D s)
        (gateway_of D t)

  submitted-published :
      (r : Request) (s : State D)
      → ((submitted D r s).published ≡ s.published) ⊎ Delivered s (submitted D r s)
  submitted-published r s =
      submit-published D.backends D.json_fold D.format_float D.parse_float D.matches F.hash
        F.literal F.read_back F.sizes D.max_upload D.fold D.token r (gateway_of D s)

  module _ (m : Message) (j : Job) (u : Text)
      (read : job_from D.json_fold D.parse_float (object (job_value D.format_float m.job)) ≡ some j)
      (known : D.services.uuid j.id ≡ some u) where
    message-Carries : Carries D u (delivery_of D m).body
    message-Carries = (j, ap (unmarshalled D) (F.printed _) ∙ ap (decoded_or D) read, known)

    arrivals-Any :
        for_image D m ≡ true → Any (λ (d : Delivery). Carries D u d.body) (arrivals D (m ∷ []))
    unfolding arrivals
    arrivals-Any e = rw e (inl message-Carries)

  -- What the worker reads from a message is a job whose upload is stored. If it is no job of the OCR
  -- worker, its row is there, and it is in the work queue, the retry queue or the parking queue, or
  -- completed.
  pub record IsTracked (s : State D) (m : Message) : Type 0 where
    pub job : Job
    pub read :
        job_from D.json_fold D.parse_float (object (job_value D.format_float m.job)) ≡ some job
    pub has_upload : HasObject D job.source_key s.stored
    pub followed :
        (job.kind ≡ codes "ocr")
        ⊎ ((u : Text) × (D.services.uuid job.id ≡ some u) × Kept D u s.queues)

  module _ (s t : State D) (d : Delivered s t) where
    image-for_image : d.received.kind ≡ codes "image" → for_image D d.message ≡ true
    unfolding codes ◌==◌
    image-for_image e = rw (d.exchange, d.routed D.swapped D.ttl, e) refl

    image-Any :
        d.received.kind ≡ codes "image"
        → Any
            (λ (x : Delivery). Carries D d.row_id x.body)
            (arrivals D (drop (length s.published) t.published))
    image-Any e =
        rw (d.published, drop-append s.published (d.message ∷ []))
          (arrivals-Any d.message d.received d.row_id d.read (F.same_uuid _ ∙ d.known_id)
            (image-for_image e))

  module _ (r : Request) (s : State D) (d : Delivered s (submitted D r s)) where
    new-HasRow : HasRow d.row_id (submitted D r s).queues.world.tables
    unfolding HasRow
    new-HasRow gone = cc (sym d.found ∙ gone)

    new-IsTracked : IsTracked (submitted D r s) d.message
    new-IsTracked = record {
      job = d.received;
      read = d.read;
      has_upload = rw d.stored (Any-append_last _ s.stored _ refl);
      followed = elim (valid-cases d.received.kind d.known_kind) [
        | inr ocr ↦ inl ocr
        | inl image ↦ inr (
          d.row_id,
          F.same_uuid _ ∙ d.known_id,
          record {
            here = new-HasRow;
            account =
                queued
                  (Any-append_right _ s.queues.ready _ (image-Any s (submitted D r s) d image));
          },
        )
      ];
    }

  -- What keeps jobs and objects keeps what is tracked.
  IsTracked-later :
      (s t : State D)
      → ((u : Text) → Kept D u s.queues → Kept D u t.queues)
      → ((key : Text) → HasObject D key s.stored → HasObject D key t.stored)
      → (m : Message) → IsTracked s m
      → IsTracked t m
  IsTracked-later s t keeps stores m k = record {
    job = k.job;
    read = k.read;
    has_upload = stores _ k.has_upload;
    followed = elim k.followed [
      | inl ocr ↦ inl ocr
      | inr (u, known, kept) ↦ inr (u, known, keeps u kept)
    ];
  }

  abbrev AllTracked : State D → Type 0
  AllTracked s = All (IsTracked s) s.published

  submitted-AllTracked : (r : Request) (s : State D) → AllTracked s → AllTracked (submitted D r s)
  submitted-AllTracked r s h =
      let old =
        All-map _ _ s.published
          (IsTracked-later s (submitted D r s) (submitted-Kept D r s) (submitted-HasObject D r s))
          h in
      elim (submitted-published r s) [
        | inl same ↦ subst (All (IsTracked (submitted D r s))) (sym same) old
        | inr d ↦
            subst (All (IsTracked (submitted D r s))) (sym d.published)
              (All-append _ s.published _ old (new-IsTracked r s d, tt))
      ]

  Turn-AllTracked : (s t : State D) → Turn D s t → AllTracked s → AllTracked t
  Turn-AllTracked s t (submits r) h = submitted-AllTracked r s h
  Turn-AllTracked s t consumes h =
      All-map _ _ s.published (IsTracked-later s _ (λ u. deliver-Kept D u s.queues) (λ key o. o)) h
  Turn-AllTracked s t expires h =
      All-map _ _ s.published (IsTracked-later s _ (λ u. expire-Kept D u s.queues) (λ key o. o)) h
  Turn-AllTracked s t (works ds d es ops outside reason e on) h =
      All-map _ _ s.published
        (IsTracked-later s _ (λ u. worked-Kept D u ds d es ops outside reason s e on) (λ key o. o))
        h
  Turn-AllTracked s t (settles ds d es job r t' e p ended) h =
      All-map _ _ s.published
        (IsTracked-later s _ (λ u. turn_settled-Kept D u ds d es job r t' s e p ended) (λ key o. o))
        h
  Turn-AllTracked s t (repeats d) h =
      All-map _ _ s.published
        (IsTracked-later s _
          (λ u k. record {
            here = k.here;
            account =
                Held-more D u s.queues.ready _ s.queues.waiting s.queues.parked
                  s.queues.world.tables k.account;
          })
          (λ key o. o))
        h

  -- Whatever submissions, rounds of the consumer, statements of several workers on their deliveries,
  -- ends of their handlers, ends of a wait, crashes and repeated messages come after a state in which
  -- nothing was published, what the worker reads from a published message is a job whose upload is
  -- stored; and unless it is for the OCR worker, the job's row is there, and the job is in the work
  -- queue, the retry queue or the parking queue, or its row is completed. Of the outside, IsFaithful
  -- is assumed, and that publications to the parking exchange succeed.
  pub Reach-AllTracked :
      (s t : State D) → s.published ≡ [] → Reach D s t → All (IsTracked t) t.published
  Reach-AllTracked s t e here = rw e tt
  Reach-AllTracked s t e (later {t = m} before step) =
      Turn-AllTracked m t step (Reach-AllTracked s m e before)
