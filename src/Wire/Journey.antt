-- ===== src/Wire/Journey.antt =====
-- A submission to services/api-gateway/internal/httpapi/handlers.go, from its answer over the handler of
-- services/worker-image/cmd/worker/main.go to the job's status page.
mod Samples
use media_forge.Prelude.{
  ℕ, ◌≡◌, ◌≢◌, inl, inr, refl, sym, ap, ◌∙◌, Bool, true, Option, none, some, List, ℤ, arith,
}
use media_forge.Text.{Text, codes}
use media_forge.Float.{Float64}
use media_forge.Database.{JobRow, find_job}
use media_forge.Gateway.Status.{OutArtifact, StatusResponse, found, handle_status}
use media_forge.Gateway.Submit.{Backends}
use media_forge.Gateway.Submit as Submit
use media_forge.Worker.Processor.{Imaging, Options}
use media_forge.Worker.Services.{Services}
use media_forge.Worker.Services as Worker
use media_forge.Worker.Handler.{handle}
use media_forge.Wire.Delivery.{IsDelivered}
use media_forge.Wire.Shown.{HasVariants, IsShown, handle-IsShown}

pending-not_completed : codes "pending" ≢ codes "completed"
unfolding codes
pending-not_completed e = ground arith

module _ (B : Backends) (json_fold : ℕ → ℕ) (format_float : Float64 → Text)
    (parse_float : Text → Option Float64) (matches : Text → Text → Bool)
    (w w' : Submit.World B.Outside)
    (d : IsDelivered B json_fold format_float parse_float matches w w') (S : Services) (I : Imaging)
    (options : Options) (known : S.uuid d.received.id ≡ some d.row_id) (is_uuid : Text → Bool)
    (presign : Text → Option Text) where
  -- The page has a completed row, and what the processor has made of the upload.
  pub record IsFinished (page : StatusResponse) : Type 0 where
    pub row : JobRow
    pub artifacts : List OutArtifact
    pub is_found : page ≡ found row artifacts
    pub completed : row.status ≡ codes "completed"
    pub variants : HasVariants S I options d.received d.row_id known is_uuid presign artifacts

  -- The row of a job that was just delivered is not completed, so that its page has the variants.
  IsShown-IsFinished :
      (v : Worker.World S.Outside) (page : StatusResponse)
      → v.tables ≡ w'.tables
      → IsShown S I options d.received d.row_id known is_uuid presign v.tables page
      → IsFinished page
  IsShown-IsFinished v page same s = record {
    row = s.row;
    artifacts = s.artifacts;
    is_found = s.is_found;
    completed = s.completed;
    variants = elim s.worked [
      | inl (row, here, done) ↦
          let new : some d.row ≡ some row =
            sym d.found ∙ ap (λ t. find_job d.row_id t.jobs) (sym same) ∙ here in
          let eq : d.row ≡ row = cc in
          absurd (pending-not_completed (sym d.pending ∙ ap (λ (r : JobRow). r.status) eq ∙ done))
      | inr made ↦ made
    ];
  }

  HasRow-of :
      (v : Worker.World S.Outside) → v.tables ≡ w'.tables → find_job d.row_id v.tables.jobs ≢ none
  HasRow-of v same gone = cc (sym d.found ∙ ap (λ t. find_job d.row_id t.jobs) (sym same) ∙ gone)

  -- Where a submission was delivered, and the worker handles what it has read from the message, on the
  -- tables as they were then, with no error, the status page of the job, where both queries of it see
  -- the tables that the handler has left, has status 200 and a completed row, and an object was read
  -- under the job's source key, and the page has, for every variant that came of it, an artifact with
  -- its name, its key, its content type and a link to it.
  pub delivered-IsFinished :
      (attempt : ℤ) (v : Worker.World S.Outside)
      → v.tables ≡ w'.tables
      → is_uuid d.received.id ≡ true
      → (handle S I options d.received attempt v).0 ≡ none
      → IsFinished (
          handle_status is_uuid S.uuid presign d.received.id
            (some (handle S I options d.received attempt v).1.tables)
            (some (handle S I options d.received attempt v).1.tables))
  delivered-IsFinished attempt v same valid e = IsShown-IsFinished v _ same (
      handle-IsShown S I options d.received d.row_id known is_uuid presign attempt v valid
        (HasRow-of v same) e)
