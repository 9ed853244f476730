-- ===== src/Worker/Handler/Events/Schema.antt =====
-- The events of the handler of services/worker-image/cmd/worker/main.go against
-- specs/schemas/event.schema.json.
use media_forge.Prelude.{
  ℕ, ◌&&◌, ◌||◌, ◌≡◌, ◌⊎◌, inl, inr, refl, ap, ◌∙◌, true, false, Option, none, some, List, [], ◌∷◌,
  ◌++◌, ℤ, leb, All,
}
use media_forge.Text.{Text, codes, ◌==◌}
use media_forge.Strconv.{format_int, unsigned, decimal}
use media_forge.Strconv.Decimal.{unsigned-decimal}
use media_forge.Errors.{Error}
use media_forge.Gateway.Contract.{valid, valid-cases}
use media_forge.Worker.Consume.{Job}
use media_forge.Worker.Processor.{Imaging, Options}
use media_forge.Worker.Services.{Event, Services, World}
use media_forge.Worker.Handler.{event, handle}
use media_forge.Worker.Handler.Events.{
  Phase, ready, Says, Run, skips, starts, transforms, makes, stores, completes, fails,
}
use media_forge.Worker.Handler.Events.Published.{handle-Run}
use media_forge.Worker.Encode.{
  event_value, event_schema, is_among, is_at_most, fits_in, all_fit, has_member, has_required,
  conforms,
}

-- What an event's fields are to be.
pub record IsFit (e : Event) : Type 0 where
  pub kind : (e.kind ≡ codes "image") ⊎ (e.kind ≡ codes "ocr")
  pub status :
      (e.status ≡ codes "processing")
      ⊎ ((e.status ≡ codes "completed") ⊎ (e.status ≡ codes "failed"))
  pub progress : leb e.progress 100 ≡ true

schema : Unit {0}
unfolding codes ◌==◌ format_int event_value event_schema fits_in all_fit has_member has_required
schema = tt

natural_fits :
    (max : Option ℕ) (n : ℕ)
    → is_at_most max (some n) ≡ true
    → is_at_most max (unsigned (decimal n)) ≡ true
natural_fits max n h = ap (is_at_most max) (unsigned-decimal n) ∙ h

kind_fits :
    (kind : Text)
    → (kind ≡ codes "image") ⊎ (kind ≡ codes "ocr")
    → is_among kind (codes "image" ∷ codes "ocr" ∷ []) ≡ true
unfolding schema
kind_fits kind (inl e) = rw e refl
kind_fits kind (inr e) = rw e refl

status_fits :
    (status : Text)
    → (status ≡ codes "processing") ⊎ ((status ≡ codes "completed") ⊎ (status ≡ codes "failed"))
    → is_among status
        (codes "pending" ∷ codes "processing" ∷ codes "completed" ∷ codes "failed" ∷ [])
      ≡ true
unfolding schema
status_fits status (inl e) = rw e refl
status_fits status (inr (inl e)) = rw e refl
status_fits status (inr (inr e)) = rw e refl

abbrev kinds : List Text
kinds = codes "image" ∷ codes "ocr" ∷ []

abbrev statuses : List Text
statuses = codes "pending" ∷ codes "processing" ∷ codes "completed" ∷ codes "failed" ∷ []

parts_fit :
    (kind status : Text) (progress now : ℕ)
    → (kind ≡ codes "image") ⊎ (kind ≡ codes "ocr")
    → (status ≡ codes "processing") ⊎ ((status ≡ codes "completed") ⊎ (status ≡ codes "failed"))
    → leb progress 100 ≡ true
    → ((is_among kind kinds || false)
        && ((is_among status statuses || false)
            && ((is_at_most (some 100) (unsigned (decimal progress)) || false)
                && ((is_at_most none (unsigned (decimal now)) || false) && true)))
        && true)
      ≡ true
parts_fit kind status progress now k s p =
    rw
      (
        kind_fits kind k,
        status_fits status s,
        natural_fits (some 100) progress p,
        natural_fits none now refl,
      )
      refl

event_value-conforms :
    (id kind status text artifact : Text) (progress now : ℕ)
    → IsFit (record {
      job_id = id;
      kind = kind;
      status = status;
      message = text;
      progress = progress;
      artifact = artifact;
      timestamp = now;
    })
    → conforms event_schema (
        event_value (record {
          job_id = id;
          kind = kind;
          status = status;
          message = text;
          progress = progress;
          artifact = artifact;
          timestamp = now;
        }))
      ≡ true
unfolding schema
event_value-conforms id kind status [] [] progress now f =
    parts_fit kind status progress now f.kind f.status f.progress
event_value-conforms id kind status [] (c ∷ s) progress now f =
    parts_fit kind status progress now f.kind f.status f.progress
event_value-conforms id kind status (c ∷ s) [] progress now f =
    parts_fit kind status progress now f.kind f.status f.progress
event_value-conforms id kind status (c ∷ s) (d ∷ t) progress now f =
    parts_fit kind status progress now f.kind f.status f.progress

abbrev Conforms : Event → Type 0
Conforms e = conforms event_schema (event_value e) ≡ true

module _ (I : Imaging) (options : Options) (job : Job)
    (kind : (job.kind ≡ codes "image") ⊎ (job.kind ≡ codes "ocr")) where
  Says-Conforms :
      (e : Event) (status text artifact : Text) (progress : ℕ)
      → (status ≡ codes "processing") ⊎ ((status ≡ codes "completed") ⊎ (status ≡ codes "failed"))
      → leb progress 100 ≡ true
      → Says (event job status progress text artifact) e
      → Conforms e
  Says-Conforms e status text artifact progress s p (now, same) = rw same (
      event_value-conforms job.id job.kind status text artifact progress now
        (record { kind = kind; status = s; progress = p }))

  Run-Conforms :
      (p : Phase) (es : List Event) (r : Option Error) → Run I options job p es r → All Conforms es
  Run-Conforms p es r skips = tt
  Run-Conforms p es r (starts e rest r' says run) =
      (Says-Conforms e _ _ _ _ (inl refl) refl says, Run-Conforms _ rest r' run)
  Run-Conforms p es r (transforms e rest r' says run) =
      (Says-Conforms e _ _ _ _ (inl refl) refl says, Run-Conforms _ rest r' run)
  Run-Conforms p es r (makes source vs rest r' made run) = Run-Conforms _ rest r' run
  Run-Conforms p es r (stores v vs e rest r' says run) =
      (Says-Conforms e _ _ _ _ (inl refl) refl says, Run-Conforms _ rest r' run)
  Run-Conforms p es r (completes e says) = (Says-Conforms e _ _ _ _ (inr (inl refl)) refl says, tt)
  Run-Conforms p es r (fails q e cause begun says) =
      (Says-Conforms e _ _ _ _ (inr (inr refl)) refl says, tt)

module _ (S : Services) (I : Imaging) (options : Options) (job : Job) where
  open S use {Outside}

  -- For a job of a kind that the gateway accepts, whatever fails on the way, the handler only adds
  -- events that, once marshalled, conform to specs/schemas/event.schema.json: no other members, all
  -- required ones, each of its type, a known kind and status, and a progress of 100 at most.
  pub handle-Conforms :
      (attempt : ℤ) (w : World Outside)
      → valid job.kind ≡ true
      → (es : List Event) × ((handle S I options job attempt w).1.sent ≡ w.sent ++ es)
        × All (λ e. conforms event_schema (event_value e) ≡ true) es
  handle-Conforms attempt w v =
      let (es, sent, run) = handle-Run S I options job attempt w in
      (es, sent, Run-Conforms I options job (valid-cases job.kind v) ready es _ run)
