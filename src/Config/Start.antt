-- ===== src/Config/Start.antt =====
-- When `Load` of services/api-gateway/internal/config/config.go and of
-- services/worker-image/internal/config/config.go gives a configuration.
use mathlib.Core.List.{Perm}
use media_forge.Prelude.{◌≡◌, ◌↔◌, Option, List, [], false}
use media_forge.Text.{Text, codes}
use media_forge.Float.{Float64}
use media_forge.Errors.{ok}
use media_forge.Config.{Environment, env, is_blank}
use media_forge.Config.Required.{IsSetIn, env-IsSet, validated-missing}
use media_forge.Gateway.Config as Gateway
use media_forge.Worker.Config as Worker

-- What both services cannot start without.
pub record HasRequired (e : Environment) : Type 0 where
  pub postgres_dsn : IsSetIn e (codes "POSTGRES_DSN")
  pub rabbitmq_url : IsSetIn e (codes "RABBITMQ_URL")
  pub s3_access_key : IsSetIn e (codes "S3_ACCESS_KEY")
  pub s3_secret_key : IsSetIn e (codes "S3_SECRET_KEY")

module _ (parse_float : Text → Option Float64) (shuffle : List (Text × Text) → List (Text × Text))
    (shuffles : (l : List (Text × Text)) → Perm (shuffle l) l) (e : Environment) where
  filled : (key : Text) → (is_blank (env e key []) ≡ false) → IsSetIn e key
  filled key h = (env-IsSet e key).0 h

  set : (key : Text) → IsSetIn e key → is_blank (env e key []) ≡ false
  set key h = (env-IsSet e key).1 h

  -- The gateway gets a configuration exactly if POSTGRES_DSN, RABBITMQ_URL, S3_ACCESS_KEY and
  -- S3_SECRET_KEY are set to values that are not blank, whatever the order in which it checks them.
  gateway-load :
      ((c : Gateway.Config) × (Gateway.load parse_float shuffle e ≡ ok c)) ↔ HasRequired e
  unfolding Gateway.load
  gateway-load =
      let (to, from) =
        validated-missing (Gateway.settings parse_float shuffle e)
          (Gateway.required (Gateway.settings parse_float shuffle e))
          (shuffle (Gateway.required (Gateway.settings parse_float shuffle e))) (shuffles _) in
      (
        λ h.
            let (a, (b, (c, (d, rest)))) = to h in
            record {
              postgres_dsn = filled (codes "POSTGRES_DSN") a;
              rabbitmq_url = filled (codes "RABBITMQ_URL") b;
              s3_access_key = filled (codes "S3_ACCESS_KEY") c;
              s3_secret_key = filled (codes "S3_SECRET_KEY") d;
            },
        λ h. from (
          set (codes "POSTGRES_DSN") h.postgres_dsn,
          (
            set (codes "RABBITMQ_URL") h.rabbitmq_url,
            (
              set (codes "S3_ACCESS_KEY") h.s3_access_key,
              (set (codes "S3_SECRET_KEY") h.s3_secret_key, tt),
            ),
          ),
        ),
      )

  -- The image worker gets a configuration exactly if the same four variables are set to values that
  -- are not blank, whatever the order in which it checks them.
  worker-load : ((c : Worker.Config) × (Worker.load parse_float shuffle e ≡ ok c)) ↔ HasRequired e
  unfolding Worker.load
  worker-load =
      let (to, from) =
        validated-missing (Worker.settings parse_float shuffle e)
          (Worker.required (Worker.settings parse_float shuffle e))
          (shuffle (Worker.required (Worker.settings parse_float shuffle e))) (shuffles _) in
      (
        λ h.
            let (a, (b, (c, (d, rest)))) = to h in
            record {
              postgres_dsn = filled (codes "POSTGRES_DSN") b;
              rabbitmq_url = filled (codes "RABBITMQ_URL") a;
              s3_access_key = filled (codes "S3_ACCESS_KEY") c;
              s3_secret_key = filled (codes "S3_SECRET_KEY") d;
            },
        λ h. from (
          set (codes "RABBITMQ_URL") h.rabbitmq_url,
          (
            set (codes "POSTGRES_DSN") h.postgres_dsn,
            (
              set (codes "S3_ACCESS_KEY") h.s3_access_key,
              (set (codes "S3_SECRET_KEY") h.s3_secret_key, tt),
            ),
          ),
        ),
      )

  -- Either service gets a configuration exactly if POSTGRES_DSN, RABBITMQ_URL, S3_ACCESS_KEY and
  -- S3_SECRET_KEY are set to values that are not blank, whatever the order in which it checks them.
  pub load-HasRequired :
      (((c : Gateway.Config) × (Gateway.load parse_float shuffle e ≡ ok c)) ↔ HasRequired e)
      × (((c : Worker.Config) × (Worker.load parse_float shuffle e ≡ ok c)) ↔ HasRequired e)
  load-HasRequired = (gateway-load, worker-load)
