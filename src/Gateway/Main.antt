-- ===== src/Gateway/Main.antt =====
-- `main` of services/api-gateway/cmd/api/main.go, with the functions `New` of
-- services/api-gateway/internal/store/postgres.go and services/api-gateway/internal/storage/s3.go and
-- `NewRateLimiter` of services/api-gateway/internal/store/redis.go. The limits of time and the options
-- of the pool are left out.
pub mod Ended
use media_forge.Prelude.{
  ℕ, ◌+◌, ◌*◌, ◌^◌, Bool, true, false, Option, none, some, List, [], ◌∷◌, ◌++◌, ℤ,
}
use media_forge.Text.{Text, codes}
use media_forge.Float.{Float64}
use media_forge.Errors.{Error, wrapped, Result, ok, err}
use media_forge.Broker.Connection.{Client, Session}
use media_forge.Process.{
  Process, Ending, returns, Run, or_fail, or_exit, acquire, defer, tracing, pool, bus,
}
use media_forge.Process.Tracing.{TracingConfig, Telemetry, init_tracing, shutdown_of}
use media_forge.Gateway.Config.{Config}
use media_forge.Gateway.Broker.{connect}

-- What is called of pgxpool, of the object store's client, of Redis's and of OpenTelemetry.
pub record Libraries (State : Type 0) : Type 0 where
  pub parse_dsn : Text → Option Error
  pub open_pool : Text → State → Option Error × State
  pub ping_pool : State → Option Error × State
  pub apply_schema : State → Option Error × State
  pub close_pool : State → State
  pub new_minio : Text → Text → Text → Bool → Text → State → Option Error × State
  pub bucket_exists : Text → State → Result Bool × State
  pub make_bucket : Text → Text → State → Option Error × State
  pub ping_redis : Text → State → Option Error × State
  pub telemetry : Telemetry State

-- The server that is started; `limited` says whether it has a rate limiter.
pub record Server : Type 0 where
  pub address : Text
  pub max_upload_bytes : ℤ
  pub auth_token : Text
  pub limited : Bool

module _ {State : Type 0} (L : Libraries State) where
  abbrev pub or_close_pool : Option Error × State → Result (Unit {0}) × State
  or_close_pool (none, s) = (ok tt, s)
  or_close_pool (some e, s) = (err (wrapped (codes "apply schema") e), L.close_pool s)

  -- `New` of the store, with `migrate`
  unfoldable pub new_store : Text → State → Result (Unit {0}) × State
  new_store dsn s =
      or_fail (codes "parse dsn") (L.parse_dsn dsn, s)
        λ s.
          or_fail (codes "connect postgres") (L.open_pool dsn s) λ s.
            or_fail (codes "ping postgres") (L.ping_pool s) λ s. or_close_pool (L.apply_schema s)

  abbrev pub or_make : Text → Text → Result Bool × State → Result (Unit {0}) × State
  or_make bucket region (err e, s) = (err (wrapped (codes "check bucket") e), s)
  or_make bucket region (ok true, s) = (ok tt, s)
  or_make bucket region (ok false, s) =
      or_fail (codes "create bucket") (L.make_bucket bucket region s) λ s. (ok tt, s)

  -- `New` of the object storage
  unfoldable pub new_objects : Config → State → Result (Unit {0}) × State
  new_objects c s =
      or_fail (codes "connect minio")
        (L.new_minio c.s3_endpoint c.s3_access_key c.s3_secret_key c.s3_use_ssl c.s3_region s)
        λ s. or_make c.s3_bucket c.s3_region (L.bucket_exists c.s3_bucket s)

  -- Whether `NewRateLimiter` gives a limiter
  abbrev pub is_up : Option Error → Bool
  is_up none = true
  is_up (some e) = false

-- `serve` is what the server does until it is shut down; `visited` is the order in which the runtime
-- visits the map of work queues.
module _ (C : Client) (L : Libraries C.State) (visited : List (Text × Text))
    (serve : Server → C.State → C.State) where
  open C use {State}

  abbrev pub close_bus : Session State → Session State
  close_bus w = record w { client = C.close w.client; closed = w.closed + 1 }

  abbrev pub close_pool : Session State → Session State
  close_pool w = record w { client = L.close_pool w.client }

  abbrev pub flush : Option Float64 → Session State → Session State
  flush ratio w = record w { client = shutdown_of L.telemetry ratio w.client }

  abbrev pub server_of : Config → Bool → Server
  server_of c limited = record {
    address = c.http_addr;
    max_upload_bytes = c.max_upload_bytes;
    auth_token = c.auth_token;
    limited = limited;
  }

  abbrev pub served : Config → Option Error × State → Run State Server
  served c (e, s) p =
      let server = server_of c (is_up L e) in
      (
        returns,
        record p {
          session = record p.session { client = serve server s };
          started = p.started ++ server ∷ [];
        },
      )

  abbrev pub limited : Config → Run State Server
  limited c p = served c (L.ping_redis c.redis_addr p.session.client) p

  abbrev pub connected : Config → Result (Unit {0}) × Session State → Run State Server
  connected c (r, w) p = or_exit r (λ u. defer bus close_bus (limited c)) (record p { session = w })

  abbrev pub with_objects : Config → Run State Server
  with_objects c p = connected c (connect C visited (10 * 10 ^ 9) p.session) p

  abbrev pub with_store : Config → Run State Server
  with_store c = acquire (new_objects L c) (λ u. with_objects c)

  abbrev pub traced : Config → Run State Server
  traced c = acquire (new_store L c.postgres_dsn) (λ u. defer pool close_pool (with_store c))

  abbrev pub tracing_of : Config → TracingConfig
  tracing_of c = record {
    enabled = c.otel_enabled;
    endpoint = c.otel_endpoint;
    service_name = c.service_name;
    service_version = c.service_version;
    sample_ratio = c.otel_sample_ratio;
  }

  abbrev pub configured : Config → Run State Server
  configured c =
      acquire (init_tracing L.telemetry (tracing_of c))
        (λ ratio. defer tracing (flush ratio) (traced c))

  -- `loaded` is what `Load` of the configuration gives.
  unfoldable pub main : Result Config → Run State Server
  main loaded = or_exit loaded configured
