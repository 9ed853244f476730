-- ===== src/Gateway/Broker/Publish.antt =====
-- `PublishJSON` of services/api-gateway/internal/broker/broker.go.
use media_forge.Prelude.{◌≡◌, ◌↔◌, refl, Bool, true, false, none}
use media_forge.Text.{Text}
use media_forge.Errors.{Result, ok, err}
use media_forge.Gateway.Broker.{Channel, confirmed, published, marshalled, publish_json}

module _ {Value : Type 0} (C : Channel Value) (exchange : Text) (key : Text) where
  open C use {State, Confirmation}

  -- The message was encoded and sent, and RabbitMQ has confirmed it.
  abbrev IsConfirmed : Value → State → Type 0
  IsConfirmed v s =
      (body : Text) × (conf : Confirmation) × (C.marshal v ≡ ok body)
      × ((C.publish exchange key body s).0 ≡ ok conf)
      × ((C.wait conf (C.publish exchange key body s).1).0 ≡ true)

  wait_iff : (r : Bool × State) → ((confirmed C exchange key r).0 ≡ none) ↔ (r.0 ≡ true)
  wait_iff (true, s) = (λ e. refl, λ e. refl)
  wait_iff (false, s) = (λ e. absurd cc, λ e. absurd cc)

  published_iff :
      (r : Result Confirmation × State)
      → ((published C exchange key r).0 ≡ none)
        ↔ ((conf : Confirmation) × (r.0 ≡ ok conf) × ((C.wait conf r.1).0 ≡ true))
  published_iff (err e, s) = (λ h. absurd cc, λ (c, p, h). absurd cc)
  published_iff (ok conf, s) = (
    λ h. (conf, refl, (wait_iff (C.wait conf s)).0 h),
    λ (c, p, h). let same : c ≡ conf = cc in (wait_iff (C.wait conf s)).1 (rw same at h),
  )

  marshalled_iff :
      (m : Result Text) (s : State)
      → ((marshalled C exchange key m s).0 ≡ none) ↔ (
          (body : Text) × (conf : Confirmation) × (m ≡ ok body)
          × ((C.publish exchange key body s).0 ≡ ok conf)
          × ((C.wait conf (C.publish exchange key body s).1).0 ≡ true))
  marshalled_iff (err e) s = (λ h. absurd cc, λ (b, c, p, q, h). absurd cc)
  marshalled_iff (ok body) s = (
    λ h.
        let (conf, p, q) = (published_iff (C.publish exchange key body s)).0 h in
        (body, conf, refl, p, q),
    λ (b, c, p, q, h).
        let same : b ≡ body = cc in
        (published_iff (C.publish exchange key body s)).1 (c, rw same at q, rw same at h),
  )

  -- `PublishJSON` returns no error exactly where the message can be encoded, is sent, and is confirmed
  -- by RabbitMQ.
  publish_json_iff :
      (v : Value) (s : State) → ((publish_json C exchange key v s).0 ≡ none) ↔ IsConfirmed v s
  unfolding publish_json
  publish_json_iff v s = marshalled_iff (C.marshal v) s
