-- ===== src/Wire/Delivery.antt =====
-- The way of a submission from services/api-gateway/internal/httpapi/handlers.go over the topology of
-- services/api-gateway/internal/broker/broker.go to services/worker-image/internal/broker/broker.go.
use media_forge.Prelude.{
  ℕ, ◌≡◌, ◌⊎◌, inl, inr, refl, Bool, true, false, Option, none, some, List, [], ◌∷◌, ◌++◌, ℤ, pos,
  negsuc, max_int, leb, arith,
}
use media_forge.Text.{Text, codes, ◌==◌}
use media_forge.Float.{Float64, is_nan, float_le, float_half, float_twenty}
use media_forge.Json.{object}
use media_forge.Database.{JobRow, find_job}
use media_forge.Broker.{jobs_exchange, topology}
use media_forge.Broker.Routing.{has_wildcard, visited, queue_of, queues_of, topology-Routes}
use media_forge.Gateway.Contract as Gateway
use media_forge.Gateway.Contract.{valid}
use media_forge.Gateway.Form.Params.{Within, InSchema, parse_params-InSchema}
use media_forge.Gateway.Encode.{is_zero_float, job_value}
use media_forge.Gateway.Submit.{Request, Backends, World, Message, submit}
use media_forge.Gateway.Submit.Answers.{job}
use media_forge.Gateway.Submit.Accepted.{IsAccepted, submit-IsAccepted}
use media_forge.Gateway.Submit.Accepted as Accepted
use media_forge.Worker.Consume as Worker
use media_forge.Worker.Decode.{job_from}
use media_forge.Wire.{on_worker}
use media_forge.Wire.RoundTrip.{FitsInt, FitsParams, job_from-job_value}

Within-FitsInt :
    (low high : ℕ) (n : ℤ) → leb high max_int ≡ true → (n ≡ pos 0) ⊎ Within low high n → FitsInt n
Within-FitsInt low high n h (inl z) = rw z (refl, refl)
Within-FitsInt low high (pos n) h (inr w) = (refl, ground (arith, h, w.1))
Within-FitsInt low high (negsuc n) h (inr w) = absurd cc (w.0)

float_half-positive : (f : Float64) → float_le float_half f ≡ true → is_zero_float f ≡ false
unfolding float_le is_nan
float_half-positive f h = ground (arith, h)

module _ (format_float : Float64 → Text) (parse_float : Text → Option Float64)
    (read_back : (f : Float64)
      → float_le float_half f ≡ true
      → float_le f float_twenty ≡ true
      → parse_float (format_float f) ≡ some f) where
  InSchema-FitsParams :
      (json_fold : ℕ → ℕ) (p : Gateway.JobParams)
      → InSchema p
      → FitsParams json_fold format_float parse_float p
  InSchema-FitsParams json_fold p h = record {
    resize_max_dim = Within-FitsInt 16 8000 p.resize_max_dim refl h.resize_max_dim;
    thumbnail_size = Within-FitsInt 16 2000 p.thumbnail_size refl h.thumbnail_size;
    quality = Within-FitsInt 1 100 p.quality refl h.quality;
    blur_sigma = elim h.blur_sigma [
      | inl z ↦ inl z
      | inr r ↦ inr (float_half-positive p.blur_sigma r.0, read_back p.blur_sigma r.0 r.1)
    ];
  }

module _ (B : Backends) (json_fold : ℕ → ℕ) (format_float : Float64 → Text)
    (parse_float : Text → Option Float64) (matches : Text → Text → Bool) where
  open B use {Outside}

  -- The message goes to one queue, that of its job's kind, where `received` is read from it; the
  -- tables have a new row of that job, which is pending, and the object store has the upload under its
  -- source key.
  pub record IsDelivered (w w' : World Outside) : Type 0 where
    pub message : Message
    pub received : Worker.Job
    pub row_id : Text
    pub row : JobRow
    pub content : List ℕ
    pub published : w'.published ≡ w.published ++ message ∷ []
    pub exchange : message.exchange ≡ jobs_exchange
    pub known_kind : valid received.kind ≡ true
    pub routed :
        (swapped : Bool) (ttl : ℕ)
        → queues_of matches (topology (visited swapped) ttl) jobs_exchange message.routing_key
          ≡ queue_of received.kind ∷ []
    pub read :
        job_from json_fold parse_float (object (job_value format_float message.job)) ≡ some received
    pub known_id : B.uuid received.id ≡ some row_id
    pub unused : find_job row_id w.tables.jobs ≡ none
    pub found : find_job row_id w'.tables.jobs ≡ some row
    pub pending : row.status ≡ codes "pending"
    pub kind : row.kind ≡ received.kind
    pub source_key : row.source_key ≡ received.source_key
    pub stored :
        w'.stored ≡ w.stored ++ record { key = received.source_key; content = content } ∷ []

  module _ (hash : (key : Text) → matches (codes "#") key ≡ true)
      (literal : (pattern key : Text)
        → has_wildcard pattern ≡ false
        → matches pattern key ≡ (pattern == key))
      (read_back : (f : Float64)
        → float_le float_half f ≡ true
        → float_le f float_twenty ≡ true
        → parse_float (format_float f) ≡ some f)
      (sizes : (key content_type : Text) (content : List ℕ) (size : ℤ) (o : Outside) (n : ℤ)
        → (B.put key content_type content size o).0 ≡ some n
        → FitsInt n)
      (max_upload : ℤ) (fold : ℕ → ℕ) (token : Text) (r : Request) (w : World Outside) where
    IsAccepted-IsDelivered :
        (w' : World Outside) → IsAccepted B max_upload fold parse_float r w w' → IsDelivered w w'
    IsAccepted-IsDelivered w' a =
        let t = a.taken in
        let j = job B max_upload fold parse_float t in
        record {
          message = _;
          received = on_worker j;
          row_id = a.row_id;
          row = _;
          content = t.file.content;
          published = a.published;
          exchange = refl;
          known_kind = t.kind;
          routed =
              λ swapped ttl. (topology-Routes matches hash literal swapped ttl j.kind t.kind).work;
          read =
              job_from-job_value json_fold format_float parse_float j
                (sizes _ _ _ _ _ t.size t.measured.1)
                (λ p h.
                  InSchema-FitsParams format_float parse_float read_back json_fold p
                    (parse_params-InSchema fold parse_float t.form.value p h));
          known_id = a.known_id;
          unused = a.unused;
          found = a.row;
          pending = refl;
          kind = refl;
          source_key = refl;
          stored = a.stored;
        }

    -- A submission that is answered with status 202 is delivered so.
    pub submit-IsDelivered :
        (submit B max_upload fold parse_float token r w).0.status ≡ 202
        → IsDelivered w (submit B max_upload fold parse_float token r w).1
    submit-IsDelivered e =
        IsAccepted-IsDelivered _ (submit-IsAccepted B max_upload fold parse_float token r w e)

    -- Whatever the answer is, nothing is published, or a submission is delivered so.
    pub submit-published :
        ((submit B max_upload fold parse_float token r w).1.published ≡ w.published)
        ⊎ IsDelivered w (submit B max_upload fold parse_float token r w).1
    submit-published = elim (Accepted.submit-published B max_upload fold parse_float token r w) [
      | inl same ↦ inl same
      | inr a ↦ inr (IsAccepted-IsDelivered _ a)
    ]
