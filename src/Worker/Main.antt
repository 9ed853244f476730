-- ===== src/Worker/Main.antt =====
-- `main` of services/worker-image/cmd/worker/main.go, with `Consume` of
-- services/worker-image/internal/broker/broker.go and the functions `New` of
-- services/worker-image/internal/store/postgres.go and services/worker-image/internal/storage/s3.go.
-- The server of the metrics, the limits of time and the options of the pool are left out.
pub mod Ended
use media_forge.Prelude.{
  ℕ, ◌+◌, ◌*◌, ◌^◌, Bool, true, Option, none, some, List, [], ◌∷◌, ◌++◌, ℤ, if◌then◌else◌,
}
use media_forge.Text.{Text, codes}
use media_forge.Float.{Float64}
use media_forge.Errors.{Error, plain, wrapped, Result, ok, err}
use media_forge.Broker.{image_queue}
use media_forge.Broker.Connection.{Client, Session}
use media_forge.Process.{
  Process, Ending, exits, returns, Run, or_fail, or_exit, acquire, defer, tracing, pool, bus,
}
use media_forge.Process.Tracing.{TracingConfig, Telemetry, init_tracing, shutdown_of}
use media_forge.Worker.Config.{Config}
use media_forge.Worker.Consume.{Job, Delivery, Action, Unmarshalled, handle}
use media_forge.Worker.Processor.{Options, new}
use media_forge.Worker.Broker.{connect}

-- What is called of pgxpool, of the object store's client and of OpenTelemetry.
pub record Libraries (State : Type 0) : Type 0 where
  pub parse_dsn : Text → Option Error
  pub open_pool : Text → State → Option Error × State
  pub ping_pool : State → Option Error × State
  pub close_pool : State → State
  pub new_minio : Text → Text → Text → Bool → Text → State → Option Error × State
  pub telemetry : Telemetry State

module _ {State : Type 0} (L : Libraries State) where
  -- `New` of the store
  unfoldable pub new_store : Text → State → Result (Unit {0}) × State
  new_store dsn s =
      or_fail (codes "parse dsn") (L.parse_dsn dsn, s)
        λ s.
          or_fail (codes "connect postgres") (L.open_pool dsn s)
            λ s. or_fail (codes "ping postgres") (L.ping_pool s) λ s. (ok tt, s)

  -- `New` of the object storage
  unfoldable pub new_objects : Config → State → Result (Unit {0}) × State
  new_objects c s =
      or_fail (codes "connect minio")
        (L.new_minio c.s3_endpoint c.s3_access_key c.s3_secret_key c.s3_use_ssl c.s3_region s)
        λ s. (ok tt, s)

-- What the loop of `Consume` meets in a run: the error of the channel's `Consume`, if any, and else
-- the deliveries that it takes, and why it takes no more.
pub data Stop : Type 0 where
  -- `ctx.Err()`
  cancelled : Error → Stop
  -- The channel of deliveries is closed; the flag says whether the context is done by then.
  closed : Bool → Stop

pub data Feed : Type 0 where
  not_consuming : Error → Bool → Feed
  consuming : List Delivery → Stop → Feed

abbrev pub is_done : Feed → Bool
is_done (not_consuming e done) = done
is_done (consuming ds (cancelled e)) = true
is_done (consuming ds (closed done)) = done

module _ {State : Type 0} (handled : Delivery → State → State) where
  unfoldable pub handle_each : List Delivery → State → State
  handle_each [] s = s
  handle_each (d ∷ ds) s = handle_each ds (handled d s)

  abbrev pub stop_error : Stop → Error
  stop_error (cancelled e) = e
  stop_error (closed done) = plain (codes "delivery channel closed")

  -- `Consume`, which never returns without an error.
  unfoldable pub consume : Text → Feed → State → Error × State
  consume queue (not_consuming e done) s = (wrapped (codes "consume " ++ queue) e, s)
  consume queue (consuming ds stop) s = (stop_error stop, handle_each ds s)

-- What the worker runs.
pub record Consumer : Type 0 where
  pub queue : Text
  pub max_retries : ℤ
  pub options : Options

-- `perform` is what the broker does with an action, the errors of which are dropped, and `handler` is
-- the handler of jobs with its processor's options.
module _ (C : Client) (L : Libraries C.State) (visited : List (Text × Text))
    (unmarshal : Text → Unmarshalled) (perform : Delivery → Action → C.State → C.State)
    (handler : Options → Job → ℤ → C.State → Option Error × C.State) (feed : Feed) where
  open C use {State}

  abbrev pub close_bus : Session State → Session State
  close_bus w = record w { client = C.close w.client; closed = w.closed + 1 }

  abbrev pub close_pool : Session State → Session State
  close_pool w = record w { client = L.close_pool w.client }

  abbrev pub flush : Option Float64 → Session State → Session State
  flush ratio w = record w { client = shutdown_of L.telemetry ratio w.client }

  abbrev pub consumer_of : Config → Consumer
  consumer_of c = record {
    queue = image_queue;
    max_retries = c.max_retries;
    options = new (record { thumbnail_size = c.thumbnail_size; resize_max_dim = c.resize_max_dim });
  }

  unfoldable pub performed : Delivery → List Action → State → State
  performed d [] s = s
  performed d (a ∷ actions) s = performed d actions (perform d a s)

  abbrev pub handled : Consumer → Delivery → State → State
  handled k d s =
      let (actions, s₁) = handle unmarshal k.max_retries (handler k.options) d s in
      performed d actions s₁

  abbrev pub stopped : Bool → Run State Consumer
  stopped done p = (if done then returns else exits 1, p)

  abbrev pub consumed : Consumer → Run State Consumer
  consumed k p =
      let (e, s) = consume (handled k) k.queue feed p.session.client in
      stopped (is_done feed)
        (record p { session = record p.session { client = s }; started = p.started ++ k ∷ [] })

  abbrev pub connected : Config → Result (Unit {0}) × Session State → Run State Consumer
  connected c (r, w) p =
      or_exit r (λ u. defer bus close_bus (consumed (consumer_of c))) (record p { session = w })

  abbrev pub with_objects : Config → Run State Consumer
  with_objects c p = connected c (connect C visited (10 * 10 ^ 9) p.session) p

  abbrev pub with_store : Config → Run State Consumer
  with_store c = acquire (new_objects L c) (λ u. with_objects c)

  abbrev pub traced : Config → Run State Consumer
  traced c = acquire (new_store L c.postgres_dsn) (λ u. defer pool close_pool (with_store c))

  abbrev pub tracing_of : Config → TracingConfig
  tracing_of c = record {
    enabled = c.otel_enabled;
    endpoint = c.otel_endpoint;
    service_name = c.service_name;
    service_version = c.service_version;
    sample_ratio = c.otel_sample_ratio;
  }

  abbrev pub configured : Config → Run State Consumer
  configured c =
      acquire (init_tracing L.telemetry (tracing_of c))
        (λ ratio. defer tracing (flush ratio) (traced c))

  -- `loaded` is what `Load` of the configuration gives.
  unfoldable pub main : Result Config → Run State Consumer
  main loaded = or_exit loaded configured
