-- ===== src/Gateway/Submit/Outcome.antt =====
-- What each answer of `handleSubmit`, in services/api-gateway/internal/httpapi/handlers.go, says of
-- the tables, the object store and the bus.
use media_forge.Prelude.{
  ℕ, ◌≡◌, ◌⊎◌, inl, inr, refl, ap, ◌∙◌, Bool, true, false, not, ◌&&◌, ◌||◌, Option, none, some, [],
  ◌∷◌, ◌++◌, ℤ, arith, if◌then◌else◌,
}
use media_forge.Text.{Text, codes, ◌==◌, is_empty, trim_prefix}
use media_forge.Float.{Float64}
use media_forge.Gateway.Contract.{Job, valid, valid-cases, routing_key}
use media_forge.Gateway.Form.{resolve_kind, detect_content_type, decodable_image, upload_key}
use media_forge.Gateway.Submit.{
  Upload, Form, Request, Backends, World, Message, message_of, answer, queued, confirmed, held,
  kept, error, job_of, object_of, insert, send, store, persisted, uploaded, upload, checked,
  with_file, with_form, limited, with_limiter, handle_submit, submit,
}
use media_forge.Gateway.Submit.Answers.{
  Untouched, Taken, job, object, Inserted, Outcome, refused, not_stored, not_persisted,
  not_enqueued, enqueued, insert-Wrote, KeyOf, image_key, ocr_key, Sent, OnlyStored,
}

routing_key-KeyOf : (kind : Text) → valid kind ≡ true → KeyOf kind (routing_key kind)
unfolding routing_key codes ◌==◌
routing_key-KeyOf kind known = elim (valid-cases kind known) [
  | inl image ↦ rw image image_key
  | inr ocr ↦ rw ocr ocr_key
]

module _ (B : Backends) (max_upload : ℤ) (fold : ℕ → ℕ) (parse_float : Text → Option Float64) where
  open B use {Outside}

  module _ (r : Request) where
    message_of-Sent :
        (j : Job) (before w : World Outside)
        → valid j.kind ≡ true
        → w.published ≡ before.published ++ message_of B j ∷ []
        → Sent B max_upload fold parse_float j before w
    message_of-Sent j before w known p = record {
      message = message_of B j;
      is_message = record {
        exchange = refl;
        routing_key = routing_key-KeyOf j.kind known;
        job = refl;
      };
      published = p;
    }

    -- A publication without a confirm
    unconfirmed :
        (j : Job) (taken : Bool) (before w : World Outside)
        → valid j.kind ≡ true
        → w.published ≡ before.published
        → ((queued B (message_of B j) taken w).published ≡ before.published)
          ⊎ Sent B max_upload fold parse_float j before (queued B (message_of B j) taken w)
    unconfirmed j true before w known p =
        inr (message_of-Sent j before _ known (ap (λ ms. ms ++ message_of B j ∷ []) p))
    unconfirmed j false before w known p = inl p

    queued-stored :
        (m : Message) (taken : Bool) (w : World Outside)
        → ((queued B m taken w).stored ≡ w.stored) × ((queued B m taken w).tables ≡ w.tables)
    queued-stored m true w = (refl, refl)
    queued-stored m false w = (refl, refl)

    answered-Outcome :
        (t : Taken B max_upload fold parse_float r) (ok : Bool) (before w : World Outside)
        → w.stored ≡ before.stored ++ object B max_upload fold parse_float t ∷ []
        → w.published ≡ before.published
        → Inserted B max_upload fold parse_float
            (job B max_upload fold parse_float t)
            before.tables
            w.tables
        → Outcome B max_upload fold parse_float r
            (answer B (job B max_upload fold parse_float t) ok)
            before
            (confirmed B (message_of B (job B max_upload fold parse_float t)) ok w)
    answered-Outcome t false before w s p i =
        let j = job B max_upload fold parse_float t in
        let (stored, tables) = queued-stored (message_of B j) (B.queued_anyway w.outside) w in
        not_enqueued t refl (stored ∙ s) (rw tables i)
          (unconfirmed j (B.queued_anyway w.outside) before w t.kind p)
    answered-Outcome t true before w s p i =
        let j = job B max_upload fold parse_float t in
        enqueued t refl s i
          (message_of-Sent j before _ t.kind (ap (λ ms. ms ++ message_of B j ∷ []) p))

    persisted-Outcome :
        (t : Taken B max_upload fold parse_float r) (ok : Bool) (before w : World Outside)
        → w.stored ≡ before.stored ++ object B max_upload fold parse_float t ∷ []
        → w.published ≡ before.published
        → (ok ≡ true
            × Inserted B max_upload fold parse_float
                (job B max_upload fold parse_float t)
                before.tables
                w.tables)
          ⊎ (ok ≡ false
              × ((w.tables ≡ before.tables)
                  ⊎ Inserted B max_upload fold parse_float
                      (job B max_upload fold parse_float t)
                      before.tables
                      w.tables))
        → Outcome B max_upload fold parse_float r
            (persisted B (job B max_upload fold parse_float t) ok w).0
            before
            (persisted B (job B max_upload fold parse_float t) ok w).1
    unfolding send
    persisted-Outcome t false before w s p (inl x) = absurd cc
    persisted-Outcome t false before w s p (inr x) = not_persisted t refl s x.1 p
    persisted-Outcome t true before w s p (inl x) = answered-Outcome t _ before _ s p x.1
    persisted-Outcome t true before w s p (inr x) = absurd cc

    module _ (form : Form) (file : Upload) (read : r.form max_upload ≡ some form)
        (has : form.file ≡ some file) where
      abbrev kind : Text
      kind = resolve_kind fold (form.value (codes "kind")) file.filename

      abbrev mime : Text
      mime = detect_content_type fold file.content_type file.filename

      module _ (known : valid kind ≡ true)
          (decodes : kind == codes "image" && not (decodable_image mime) ≡ false) where
        -- The outcome of a `Put`
        abbrev Stored : Text → Option ℤ → Type 0
        Stored id o =
            (outside : Outside) × ((B.put (upload_key id file.filename) mime file.content file.size
                outside).0
              ≡ o)

        abbrev taken :
            (id : Text) (size : ℤ) → Stored id (some size) → Taken B max_upload fold parse_float r
        taken id size measured = record {
          form = form;
          file = file;
          id = id;
          size = size;
          measured = measured;
          read = read;
          has = has;
          kind = known;
          decodes = decodes;
        }

        -- A `Put` without an answer
        held-OnlyStored :
            (id : Text) (there : Bool) (before w : World Outside)
            → Untouched B max_upload fold parse_float before w
            → OnlyStored B max_upload fold parse_float r before
                (held B (object_of B max_upload fold parse_float file id) there w)
        held-OnlyStored id true before w u = record {
          form = form;
          file = file;
          id = id;
          read = read;
          has = has;
          tables = u.tables;
          published = u.published;
          stored =
              inr (ap (λ os. os ++ object_of B max_upload fold parse_float file id ∷ []) u.stored);
        }
        held-OnlyStored id false before w u = record {
          form = form;
          file = file;
          id = id;
          read = read;
          has = has;
          tables = u.tables;
          published = u.published;
          stored = inl u.stored;
        }

        uploaded-Outcome :
            (id : Text) (o : Option ℤ) (before w : World Outside)
            → Stored id o
            → Untouched B max_upload fold parse_float before w
            → Outcome B max_upload fold parse_float r
                (uploaded B
                  (job_of B max_upload fold parse_float form file id)
                  o
                  (kept B (object_of B max_upload fold parse_float file id) o w)).0
                before
                (uploaded B
                  (job_of B max_upload fold parse_float form file id)
                  o
                  (kept B (object_of B max_upload fold parse_float file id) o w)).1
        uploaded-Outcome id none before w m u =
            not_stored refl (held-OnlyStored id (B.stored_anyway w.outside) before w u)
        uploaded-Outcome id (some size) before w m u =
            let t = taken id size m in
            let full = kept B (object B max_upload fold parse_float t) (some size) w in
            let (s, p, wrote) =
              insert-Wrote B max_upload fold parse_float (job B max_upload fold parse_float t)
                full in
            persisted-Outcome t (insert B (job B max_upload fold parse_float t) full).0 before
              (insert B (job B max_upload fold parse_float t) full).1
              (s ∙ ap (λ os. os ++ object B max_upload fold parse_float t ∷ []) u.stored)
              (p ∙ u.published) (rw (← u.tables) wrote)

        upload-Outcome :
            (id : Text) (before w : World Outside)
            → Untouched B max_upload fold parse_float before w
            → Outcome B max_upload fold parse_float r
                (upload B max_upload fold parse_float form file id w).0
                before
                (upload B max_upload fold parse_float form file id w).1
        unfolding store
        upload-Outcome id before w u =
            uploaded-Outcome id _ before _ (w.outside, refl)
              (record { tables = u.tables; stored = u.stored; published = u.published })

      checked-Outcome :
          (bad_kind bad_type : Bool) (before w : World Outside)
          → not (valid kind) ≡ bad_kind
          → kind == codes "image" && not (decodable_image mime) ≡ bad_type
          → Untouched B max_upload fold parse_float before w
          → Outcome B max_upload fold parse_float r
              (checked B max_upload fold parse_float form file bad_kind bad_type w).0
              before
              (checked B max_upload fold parse_float form file bad_kind bad_type w).1
      checked-Outcome true b before w k d u = refused (inl refl) u
      checked-Outcome false true before w k d u =
          refused (inl refl)
            (record { tables = u.tables; stored = u.stored; published = u.published })
      checked-Outcome false false before w k d u =
          upload-Outcome (ground arith) d (B.new_id w.outside).0 before _
            (record { tables = u.tables; stored = u.stored; published = u.published })

    with_file-Outcome :
        (form : Form) (o : Option Upload) (before w : World Outside)
        → r.form max_upload ≡ some form
        → form.file ≡ o
        → Untouched B max_upload fold parse_float before w
        → Outcome B max_upload fold parse_float r
            (with_file B max_upload fold parse_float form o w).0
            before
            (with_file B max_upload fold parse_float form o w).1
    with_file-Outcome form none before w e h u = refused (inl refl) u
    with_file-Outcome form (some file) before w e h u =
        checked-Outcome form file e h _ _ before w refl refl u

    with_form-Outcome :
        (o : Option Form) (before w : World Outside)
        → r.form max_upload ≡ o
        → Untouched B max_upload fold parse_float before w
        → Outcome B max_upload fold parse_float r
            (with_form B max_upload fold parse_float o w).0
            before
            (with_form B max_upload fold parse_float o w).1
    with_form-Outcome none before w e u = refused (inl refl) u
    with_form-Outcome (some form) before w e u = with_file-Outcome form _ before w e refl u

    limited-Outcome :
        (o : Option Bool) (before w : World Outside)
        → Untouched B max_upload fold parse_float before w
        → Outcome B max_upload fold parse_float r
            (limited B max_upload fold parse_float r o w).0
            before
            (limited B max_upload fold parse_float r o w).1
    limited-Outcome none before w u = with_form-Outcome _ before w refl u
    limited-Outcome (some true) before w u = with_form-Outcome _ before w refl u
    limited-Outcome (some false) before w u = refused (inr (inr refl)) u

    with_limiter-Outcome :
        (l : Option (Text → Outside → Option Bool × Outside)) (w : World Outside)
        → Outcome B max_upload fold parse_float r
            (with_limiter B max_upload fold parse_float r l w).0
            w
            (with_limiter B max_upload fold parse_float r l w).1
    with_limiter-Outcome none w =
        with_form-Outcome _ w w refl (record { tables = refl; stored = refl; published = refl })
    with_limiter-Outcome (some allow) w =
        limited-Outcome _ w _ (record { tables = refl; stored = refl; published = refl })

    guarded-Outcome :
        (allowed : Bool) (w : World Outside)
        → Outcome B max_upload fold parse_float r
            (if allowed
              then handle_submit B max_upload fold parse_float r w
              else (error 401 "invalid or missing bearer token", w)).0
            w
            (if allowed
              then handle_submit B max_upload fold parse_float r w
              else (error 401 "invalid or missing bearer token", w)).1
    unfolding handle_submit
    guarded-Outcome true w = with_limiter-Outcome B.limiter w
    guarded-Outcome false w =
        refused (inr (inl refl)) (record { tables = refl; stored = refl; published = refl })

    -- What an answer says. One with status 400, 401 or 429 has stored nothing, written no row and
    -- published nothing. With 500 the object is stored, nothing is published, and the job's row is
    -- written at most. With 502 either no row is written, nothing is published, and the object is
    -- stored at most; or the object is stored, the row is written, and the job's message is published
    -- at most. With 202 the object is stored, the row is written and the job's message is published.
    -- That message is to media.jobs, under image.process for an image and ocr.extract for OCR, and
    -- no other is published.
    pub submit-Outcome :
        (token : Text) (w : World Outside)
        → Outcome B max_upload fold parse_float r
            (submit B max_upload fold parse_float token r w).0
            w
            (submit B max_upload fold parse_float token r w).1
    unfolding submit
    submit-Outcome token w =
        guarded-Outcome (is_empty token || trim_prefix r.authorization (codes "Bearer ") == token) w
