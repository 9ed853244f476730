-- ===== src/Gateway/Submit/Answers.antt =====
-- The ways in which `handleSubmit`, in services/api-gateway/internal/httpapi/handlers.go, may end.
use media_forge.Prelude.{
  ℕ, ◌≡◌, ◌⊎◌, inl, inr, refl, Bool, true, false, not, ◌&&◌, Option, none, some, [], ◌∷◌, ◌++◌, ℤ,
}
use media_forge.Text.{Text, codes, ◌==◌}
use media_forge.Float.{Float64}
use media_forge.Database.{Tables, create_job, execute}
use media_forge.Gateway.Contract.{Job, columns, valid}
use media_forge.Gateway.Form.{resolve_kind, detect_content_type, decodable_image, upload_key}
use media_forge.Gateway.Submit.{
  Upload, Form, Request, Backends, World, Response, accepted, Link, runs, lost, unanswered, Message,
  Object, job_of, tables_or, is_done, over_link, insert,
}

-- The routing key of each kind of job
pub data KeyOf : Text → Text → Type 0 where
  image_key : KeyOf (codes "image") (codes "image.process")
  ocr_key : KeyOf (codes "ocr") (codes "ocr.extract")

module _ (B : Backends) (max_upload : ℤ) (fold : ℕ → ℕ) (parse_float : Text → Option Float64) where
  open B use {Outside}

  pub record Untouched (w w' : World Outside) : Type 0 where
    pub tables : w'.tables ≡ w.tables
    pub stored : w'.stored ≡ w.stored
    pub published : w'.published ≡ w.published

  -- The job that is made of a request, and that it passed the checks.
  pub record Taken (r : Request) : Type 0 where
    pub form : Form
    pub file : Upload
    pub id : Text
    pub size : ℤ
    -- The size is what the object store has answered.
    pub measured :
        (o : Outside) × ((B.put
            (upload_key id file.filename)
            (detect_content_type fold file.content_type file.filename)
            file.content
            file.size
            o).0
          ≡ some size)
    pub read : r.form max_upload ≡ some form
    pub has : form.file ≡ some file
    pub kind : valid (resolve_kind fold (form.value (codes "kind")) file.filename) ≡ true
    pub decodes :
        resolve_kind fold (form.value (codes "kind")) file.filename == codes "image"
          && not (decodable_image (detect_content_type fold file.content_type file.filename))
        ≡ false

  abbrev pub job : {r : Request} → Taken r → Job
  job t = job_of B max_upload fold parse_float t.form t.file t.id t.size

  abbrev pub object : {r : Request} → Taken r → Object
  object t = record { key = upload_key t.id t.file.filename; content = t.file.content }

  abbrev pub Inserted : Job → Tables → Tables → Type 0
  Inserted j t t' = (now : ℕ) × (execute B.uuid (create_job (columns j)) now t ≡ some t')

  -- The message of a job
  pub record IsMessage (j : Job) (m : Message) : Type 0 where
    pub exchange : m.exchange ≡ codes "media.jobs"
    pub routing_key : KeyOf j.kind m.routing_key
    pub job : m.job ≡ j

  -- The message of the job, and nothing else, is published.
  pub record Sent (j : Job) (w w' : World Outside) : Type 0 where
    pub message : Message
    pub is_message : IsMessage j message
    pub published : w'.published ≡ w.published ++ message ∷ []

  -- The tables and the bus are as they were, and of the upload, under a key of its name, at most the
  -- object is there.
  pub record OnlyStored (r : Request) (w w' : World Outside) : Type 0 where
    pub form : Form
    pub file : Upload
    pub id : Text
    pub read : r.form max_upload ≡ some form
    pub has : form.file ≡ some file
    pub tables : w'.tables ≡ w.tables
    pub published : w'.published ≡ w.published
    pub stored :
        (w'.stored ≡ w.stored)
        ⊎ (w'.stored
            ≡ w.stored ++ record { key = upload_key id file.filename; content = file.content } ∷ [])

  pub data Outcome (r : Request) (a : Response) (w w' : World Outside) : Type 0 where
    refused :
        (a.status ≡ 400) ⊎ ((a.status ≡ 401) ⊎ (a.status ≡ 429)) → Untouched w w' → Outcome r a w w'
    not_stored : a.status ≡ 502 → OnlyStored r w w' → Outcome r a w w'
    not_persisted :
        (t : Taken r)
        → a.status ≡ 500
        → w'.stored ≡ w.stored ++ object t ∷ []
        → (w'.tables ≡ w.tables) ⊎ Inserted (job t) w.tables w'.tables
        → w'.published ≡ w.published
        → Outcome r a w w'
    not_enqueued :
        (t : Taken r)
        → a.status ≡ 502
        → w'.stored ≡ w.stored ++ object t ∷ []
        → Inserted (job t) w.tables w'.tables
        → (w'.published ≡ w.published) ⊎ Sent (job t) w w'
        → Outcome r a w w'
    enqueued :
        (t : Taken r)
        → a ≡ record { status = 202; body = accepted (job t).id (job t).kind (codes "pending") }
        → w'.stored ≡ w.stored ++ object t ∷ []
        → Inserted (job t) w.tables w'.tables
        → Sent (job t) w w'
        → Outcome r a w w'

  -- `CreateJob` changes the tables by its statement, if at all.
  abbrev pub Wrote : Job → World Outside → Bool × World Outside → Type 0
  Wrote j w (ok, w') =
      (w'.stored ≡ w.stored)
      × (w'.published ≡ w.published)
      × ((ok ≡ true × Inserted j w.tables w'.tables)
          ⊎ (ok ≡ false × ((w'.tables ≡ w.tables) ⊎ Inserted j w.tables w'.tables)))

  ran :
      (j : Job) (now : ℕ) (t : Tables) (o : Option Tables)
      → execute B.uuid (create_job (columns j)) now t ≡ o
      → (is_done B o ≡ true × Inserted j t (tables_or B t o))
        ⊎ (is_done B o ≡ false × (tables_or B t o ≡ t))
  ran j now t none e = inr (refl, refl)
  ran j now t (some t') e = inl (refl, (now, e))

  over_link-Wrote : (j : Job) (l : Link) (w : World Outside) → Wrote j w (over_link B j l w)
  over_link-Wrote j runs w = (
    refl,
    refl,
    elim (ran j (B.now w.outside) w.tables _ refl) [ inl x ↦ inl x | inr x ↦ inr (x.0, inl x.1) ],
  )
  over_link-Wrote j lost w = (refl, refl, inr (refl, inl refl))
  over_link-Wrote j unanswered w = (
    refl,
    refl,
    elim (ran j (B.now w.outside) w.tables _ refl) [
      | inl x ↦ inr (refl, inr x.1)
      | inr x ↦ inr (refl, inl x.1)
    ],
  )

  pub insert-Wrote : (j : Job) (w : World Outside) → Wrote j w (insert B j w)
  unfolding insert
  insert-Wrote j w =
      over_link-Wrote j (B.link w.outside).0 (record w { outside = (B.link w.outside).1 })
