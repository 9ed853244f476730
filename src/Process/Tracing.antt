-- ===== src/Process/Tracing.antt =====
-- `InitTracing` of services/api-gateway/internal/observability/tracing.go, which is that of
-- services/worker-image/internal/observability/tracing.go as well. What the propagator does is in Trace.
use media_forge.Prelude.{Bool, not, ◌||◌, Option, none, some, if◌then◌else◌}
use media_forge.Text.{Text, codes, is_empty}
use media_forge.Float.{Float64, float_le, float_zero, float_one}
use media_forge.Errors.{Error, Result, ok}
use media_forge.Process.{or_fail}

pub record TracingConfig : Type 0 where
  pub enabled : Bool
  pub endpoint : Text
  pub service_name : Text
  pub service_version : Text
  pub sample_ratio : Float64

-- What is called of OpenTelemetry: `otlptracegrpc.New`, `resource.New` and `Shutdown`.
pub record Telemetry (State : Type 0) : Type 0 where
  pub exporter : Text → State → Option Error × State
  pub resource : Text → Text → State → Option Error × State
  pub shutdown : State → State

abbrev pub ratio_of : Float64 → Float64
ratio_of ratio = if float_le ratio float_zero then float_one else ratio

module _ {State : Type 0} (T : Telemetry State) where
  -- The ratio at which traces are sampled, or none if they are not exported.
  unfoldable pub init_tracing : TracingConfig → State → Result (Option Float64) × State
  init_tracing c s =
      if not c.enabled || is_empty c.endpoint
      then (ok none, s)
      else or_fail (codes "otlp trace exporter") (T.exporter c.endpoint s) λ s₁.
        or_fail (codes "otel resource") (T.resource c.service_name c.service_version s₁)
          λ s₂. (ok (some (ratio_of c.sample_ratio)), s₂)

  -- The function that `InitTracing` returns.
  abbrev pub shutdown_of : Option Float64 → State → State
  shutdown_of none s = s
  shutdown_of (some ratio) s = T.shutdown s
