-- ===== src/Worker/Consume/Shape.antt =====
-- What `handle` of services/worker-image/internal/broker/broker.go sends for one delivery.
use media_forge.Prelude.{
  ◌≡◌, false, Option, none, some, List, [], ◌∷◌, ℤ, leℤ, Bool-cases, inl, inr, ◌||◌, arith,
}
use media_forge.Text.{Text}
use media_forge.Errors.{Error, is_permanent, message}
use media_forge.Worker.Consume.{
  Job, Delivery, Action, park, ack, nack, Unmarshalled, decoded, refused, attempt, settle, process,
  handle,
}

-- A delivery is acknowledged, or parked and acknowledged, or it goes to the retry queue while its
-- attempt is below the limit.
pub data Shape (max_retries : ℤ) (d : Delivery) : List Action → Type 0 where
  finishes : Shape max_retries d (ack ∷ [])
  parks : (reason : Text) → Shape max_retries d (park d.routing_key reason d.body ∷ ack ∷ [])
  retries : leℤ max_retries (attempt d) ≡ false → Shape max_retries d (nack ∷ [])

settle-Shape :
    (max_retries : ℤ) (d : Delivery) (r : Option Error)
    → Shape max_retries d (settle max_retries d (attempt d) r)
unfolding settle
settle-Shape max_retries d none = finishes
settle-Shape max_retries d (some err) =
    elim (Bool-cases (is_permanent err || leℤ max_retries (attempt d))) [
      | inl over ↦ rw over (parks (message err))
      | inr again ↦ rw again (retries (ground arith))
    ]

module _ (unmarshal : Text → Unmarshalled) (max_retries : ℤ) {W : Type 0}
    (handler : Job → ℤ → W → Option Error × W) where
  process-Shape :
      (d : Delivery) (u : Unmarshalled) (w : W)
      → Shape max_retries d (process unmarshal max_retries handler d u w).0
  process-Shape d (refused err) w = parks _
  process-Shape d (decoded job) w = settle-Shape max_retries d (handler job (attempt d) w).0

  pub handle-Shape :
      (d : Delivery) (w : W) → Shape max_retries d (handle unmarshal max_retries handler d w).0
  unfolding handle
  handle-Shape d w = process-Shape d (unmarshal d.body) w
