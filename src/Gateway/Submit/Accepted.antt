-- ===== src/Gateway/Submit/Accepted.antt =====
-- What a client may rely on after an answer of `handleSubmit`, in
-- services/api-gateway/internal/httpapi/handlers.go.
use media_forge.Prelude.{
  ℕ, ◌≡◌, ◌⊎◌, inl, inr, refl, ap, ◌∙◌, Option, none, some, List, [], ◌∷◌, ◌++◌, ℤ, arith,
}
use media_forge.Text.{Text, codes, ◌==◌}
use media_forge.Text.Equality.{eq_refl}
use media_forge.Float.{Float64}
use media_forge.Database.{Tables, NewJob, JobRow, find_job, job_row}
use media_forge.Database.Rows.{find_job-append}
use media_forge.Database.Effects.{execute-create_job}
use media_forge.Gateway.Contract.{Job, columns, routing_key}
use media_forge.Gateway.Submit.{Request, Backends, World, Response, Message, message_of, submit}
use media_forge.Gateway.Submit.Outcome.{submit-Outcome}
use media_forge.Gateway.Submit.Answers.{
  Outcome, refused, not_stored, not_persisted, not_enqueued, enqueued, Taken, job, object, KeyOf,
  image_key, ocr_key, IsMessage, Sent, Inserted,
}

find_job-new :
    (u : Text) (j : NewJob) (now : ℕ) (js : List JobRow)
    → find_job u js ≡ none
    → find_job u (js ++ job_row u j now ∷ []) ≡ some (job_row u j now)
find_job-new u j now js h =
    find_job-append u js (job_row u j now ∷ []) ∙ rw h (unfold find_job in rw (eq_refl u) refl)

KeyOf-routing_key : (kind key : Text) → KeyOf kind key → key ≡ routing_key kind
unfolding routing_key codes ◌==◌
KeyOf-routing_key kind key image_key = refl
KeyOf-routing_key kind key ocr_key = refl

module _ (B : Backends) (max_upload : ℤ) (fold : ℕ → ℕ) (parse_float : Text → Option Float64) where
  open B use {Outside}

  abbrev made : {r : Request} → Taken B max_upload fold parse_float r → Job
  made t = job B max_upload fold parse_float t

  -- A job of the request whose kind is known, its upload under the job's source key, its row in the
  -- tables, which had none before, and its message.
  pub record IsAccepted (r : Request) (w w' : World Outside) : Type 0 where
    pub taken : Taken B max_upload fold parse_float r
    pub row_id : Text
    pub now : ℕ
    pub known_id : B.uuid taken.id ≡ some row_id
    pub unused : find_job row_id w.tables.jobs ≡ none
    pub row : find_job row_id w'.tables.jobs ≡ some (job_row row_id (columns (made taken)) now)
    pub stored : w'.stored ≡ w.stored ++ object B max_upload fold parse_float taken ∷ []
    pub key : (object B max_upload fold parse_float taken).key ≡ (made taken).source_key
    pub published : w'.published ≡ w.published ++ message_of B (made taken) ∷ []

  message_of-only :
      (j : Job) (m : Message) → IsMessage B max_upload fold parse_float j m → m ≡ message_of B j
  message_of-only j m h =
      let key = KeyOf-routing_key j.kind m.routing_key h.routing_key in cc (h.exchange, key, h.job)

  Sent-IsAccepted :
      (r : Request) (w w' : World Outside) (t : Taken B max_upload fold parse_float r)
      → w'.stored ≡ w.stored ++ object B max_upload fold parse_float t ∷ []
      → Inserted B max_upload fold parse_float (made t) w.tables w'.tables
      → Sent B max_upload fold parse_float (made t) w w'
      → IsAccepted r w w'
  Sent-IsAccepted r w w' t s (now, i) sent =
      let (u, known, unused, same) =
        execute-create_job B.uuid (columns (made t)) now w.tables w'.tables i in
      record {
        taken = t;
        row_id = u;
        now = now;
        known_id = known;
        unused = unused;
        row =
            ap (λ (t : Tables). find_job u t.jobs) same
            ∙ find_job-new u (columns (made t)) now w.tables.jobs unused;
        stored = s;
        key = refl;
        published =
            sent.published
            ∙ ap (λ m. w.published ++ m ∷ [])
                (message_of-only (made t) sent.message sent.is_message);
      }

  Outcome-IsAccepted :
      (r : Request) (a : Response) (w w' : World Outside)
      → Outcome B max_upload fold parse_float r a w w'
      → a.status ≡ 202
      → IsAccepted r w w'
  Outcome-IsAccepted r a w w' (refused (inl c) u) e = absurd (ground (arith, c, e))
  Outcome-IsAccepted r a w w' (refused (inr (inl c)) u) e = absurd (ground (arith, c, e))
  Outcome-IsAccepted r a w w' (refused (inr (inr c)) u) e = absurd (ground (arith, c, e))
  Outcome-IsAccepted r a w w' (not_stored c u) e = absurd (ground (arith, c, e))
  Outcome-IsAccepted r a w w' (not_persisted t c s i p) e = absurd (ground (arith, c, e))
  Outcome-IsAccepted r a w w' (not_enqueued t c s i p) e = absurd (ground (arith, c, e))
  Outcome-IsAccepted r a w w' (enqueued t c s i p) e = Sent-IsAccepted r w w' t s i p

  Outcome-published :
      (r : Request) (a : Response) (w w' : World Outside)
      → Outcome B max_upload fold parse_float r a w w'
      → (w'.published ≡ w.published) ⊎ IsAccepted r w w'
  Outcome-published r a w w' (refused c u) = inl u.published
  Outcome-published r a w w' (not_stored c o) = inl o.published
  Outcome-published r a w w' (not_persisted t c s i p) = inl p
  Outcome-published r a w w' (not_enqueued t c s i (inl p)) = inl p
  Outcome-published r a w w' (not_enqueued t c s i (inr p)) = inr (Sent-IsAccepted r w w' t s i p)
  Outcome-published r a w w' (enqueued t c s i p) = inr (Sent-IsAccepted r w w' t s i p)

  -- Whatever the answer is, nothing is published, or the job of an upload that is stored and of a row
  -- that is written.
  pub submit-published :
      (token : Text) (r : Request) (w : World Outside)
      → ((submit B max_upload fold parse_float token r w).1.published ≡ w.published)
        ⊎ IsAccepted r w (submit B max_upload fold parse_float token r w).1
  submit-published token r w =
      Outcome-published r _ w _ (submit-Outcome B max_upload fold parse_float r token w)

  -- An answer with status 202: the upload is stored under the job's source key, the job has a row,
  -- which it had not before, and the job is published to media.jobs under the routing key of its
  -- kind, which is a known one.
  pub submit-IsAccepted :
      (token : Text) (r : Request) (w : World Outside)
      → (submit B max_upload fold parse_float token r w).0.status ≡ 202
      → IsAccepted r w (submit B max_upload fold parse_float token r w).1
  submit-IsAccepted token r w e =
      Outcome-IsAccepted r _ w _ (submit-Outcome B max_upload fold parse_float r token w) e
