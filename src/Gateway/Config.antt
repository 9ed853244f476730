-- ===== src/Gateway/Config.antt =====
-- services/api-gateway/internal/config/config.go.
use media_forge.Prelude.{◌*◌, ◌^◌, Bool, false, Option, List, [], ◌∷◌, ℤ, pos}
use media_forge.Text.{Text, codes}
use media_forge.Float.{Float64, float_one}
use media_forge.Errors.{Result}
use media_forge.Config.{Environment, env, env_int, env_bool, env_float, missing, validated}

pub record Config : Type 0 where
  pub http_addr : Text
  pub max_upload_bytes : ℤ
  pub auth_token : Text
  pub postgres_dsn : Text
  pub redis_addr : Text
  pub rabbit_url : Text
  pub rabbit_prefetch : ℤ
  pub s3_endpoint : Text
  pub s3_access_key : Text
  pub s3_secret_key : Text
  pub s3_bucket : Text
  pub s3_use_ssl : Bool
  pub s3_region : Text
  pub otel_enabled : Bool
  pub otel_endpoint : Text
  pub otel_sample_ratio : Float64
  pub service_name : Text
  pub service_version : Text

abbrev pub required : Config → List (Text × Text)
required c =
    (codes "POSTGRES_DSN", c.postgres_dsn)
    ∷ (codes "RABBITMQ_URL", c.rabbit_url)
    ∷ (codes "S3_ACCESS_KEY", c.s3_access_key)
    ∷ (codes "S3_SECRET_KEY", c.s3_secret_key)
    ∷ []

module _ (parse_float : Text → Option Float64)
    (shuffle : List (Text × Text) → List (Text × Text)) where
  -- The configuration that `Load` checks.
  abbrev pub settings : Environment → Config
  settings e = record {
    http_addr = env e (codes "API_HTTP_ADDR") (codes ":8080");
    max_upload_bytes = env_int e (codes "API_MAX_UPLOAD_BYTES") (pos (25 * 2 ^ 20));
    auth_token = env e (codes "API_AUTH_TOKEN") [];
    postgres_dsn = env e (codes "POSTGRES_DSN") [];
    redis_addr = env e (codes "REDIS_ADDR") (codes "redis:6379");
    rabbit_url = env e (codes "RABBITMQ_URL") [];
    rabbit_prefetch = env_int e (codes "RABBITMQ_PREFETCH") (pos 16);
    s3_endpoint = env e (codes "S3_ENDPOINT") (codes "minio:9000");
    s3_access_key = env e (codes "S3_ACCESS_KEY") [];
    s3_secret_key = env e (codes "S3_SECRET_KEY") [];
    s3_bucket = env e (codes "S3_BUCKET") (codes "mediaforge");
    s3_use_ssl = env_bool e (codes "S3_USE_SSL") false;
    s3_region = env e (codes "S3_REGION") (codes "us-east-1");
    otel_enabled = env_bool e (codes "OTEL_TRACES_ENABLED") false;
    otel_endpoint = env e (codes "OTEL_EXPORTER_OTLP_ENDPOINT") (codes "otel-collector:4317");
    otel_sample_ratio = env_float parse_float e (codes "OTEL_TRACES_SAMPLE_RATIO") float_one;
    service_name = env e (codes "OTEL_SERVICE_NAME") (codes "api-gateway");
    service_version = env e (codes "SERVICE_VERSION") (codes "dev");
  }

  unfoldable pub load : Environment → Result Config
  load e = validated (settings e) (missing (shuffle (required (settings e))))
