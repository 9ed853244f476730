-- ===== src/Process/Samples.antt =====
-- The two programs over small libraries.
use media_forge.Prelude.{ℕ, ◌+◌, ◌≡◌, ◌⊎◌, refl, false, Option, none, some, List, [], ◌∷◌, ℤ}
use media_forge.Text.{Text, codes, ◌==◌, trim_space, trim_left, trim_right, is_space}
use media_forge.Float.{Float64, is_nan, float_le}
use media_forge.Strconv.{atoi, digits, parse_bool}
use media_forge.Errors.{Error, plain, Result, ok, err}
use media_forge.Config.{Environment, env, env_int, env_bool, env_float, missing}
use media_forge.Broker.{topology, work_steps, declare, work_queues}
use media_forge.Broker.Connection.{Client, setup}
use media_forge.Process.{Process, Ending, exits, returns, tracing, pool, bus, Ends}
use media_forge.Process.Held.{IsRefused}
use media_forge.Process.Tracing.{Telemetry, init_tracing}
use media_forge.Gateway.Config as GatewayConfig
use media_forge.Gateway.Dial.{dial_from, dial_with_retry}
use media_forge.Gateway.Broker as GatewayBroker
use media_forge.Gateway.Main as Gateway
use media_forge.Gateway.Main.Ended as GatewayEnded
use media_forge.Worker.Config as WorkerConfig
use media_forge.Worker.Broker as WorkerBroker
use media_forge.Worker.Amqp.{empty}
use media_forge.Worker.Consume.{Job, Delivery, Action, Unmarshalled, refused, handle}
use media_forge.Worker.Processor.{Options}
use media_forge.Worker.Main as Worker
use media_forge.Worker.Main.Ended as WorkerEnded

programs : Unit {0}
unfolding codes ◌==◌ trim_space trim_left trim_right is_space is_nan float_le atoi digits parse_bool
    env env_int env_bool env_float missing topology work_steps declare setup init_tracing dial_from
    dial_with_retry GatewayConfig.load GatewayBroker.connect GatewayBroker.declare_topology
    Gateway.new_store Gateway.new_objects Gateway.main WorkerConfig.load WorkerBroker.connect
    WorkerBroker.declare_topology handle Worker.new_store Worker.new_objects Worker.handle_each
    Worker.consume Worker.performed Worker.main
programs = tt

-- The state counts the calls, all of which succeed.
abbrev done : ℕ → Option Error × ℕ
done n = (none, n + 1)

abbrev client : Client
client = record {
  State = ℕ;
  dial = λ n. (ok tt, n + 1);
  channel = done;
  prepare = done;
  call = λ command. done;
  close = λ n. n + 1;
}

abbrev telemetry : Telemetry ℕ
telemetry = record {
  exporter = λ endpoint. done;
  resource = λ name version. done;
  shutdown = λ n. n + 1;
}

-- Redis does not answer.
abbrev gateway_libraries : Gateway.Libraries ℕ
gateway_libraries = record {
  parse_dsn = λ dsn. none;
  open_pool = λ dsn. done;
  ping_pool = done;
  apply_schema = done;
  close_pool = λ n. n + 1;
  new_minio = λ endpoint access secret ssl region. done;
  bucket_exists = λ bucket n. (ok false, n + 1);
  make_bucket = λ bucket region. done;
  ping_redis = λ address n. (some (plain (codes "refused")), n + 1);
  telemetry = telemetry;
}

abbrev worker_libraries : Worker.Libraries ℕ
worker_libraries = record {
  parse_dsn = λ dsn. none;
  open_pool = λ dsn. done;
  ping_pool = done;
  close_pool = λ n. n + 1;
  new_minio = λ endpoint access secret ssl region. done;
  telemetry = telemetry;
}

abbrev full : Environment
full key = some (codes "1")

abbrev no_float : Text → Option Float64
no_float s = none

abbrev in_order : List (Text × Text) → List (Text × Text)
in_order l = l

abbrev gateway_config : Result GatewayConfig.Config
gateway_config = GatewayConfig.load no_float in_order full

abbrev worker_config : Result WorkerConfig.Config
worker_config = WorkerConfig.load no_float in_order full

abbrev serve : Gateway.Server → ℕ → ℕ
serve server n = n + 100

abbrev idle_gateway : Process ℕ Gateway.Server
idle_gateway = record {
  session = record { client = 0; opened = 0; closed = 0 };
  started = [];
  released = [];
}

abbrev idle_worker : Process ℕ Worker.Consumer
idle_worker = record {
  session = record { client = 0; opened = 0; closed = 0 };
  started = [];
  released = [];
}

abbrev delivery : Delivery
delivery = record { headers = empty; routing_key = codes "image.process"; body = [] }

abbrev unmarshal : Text → Unmarshalled
unmarshal body = refused (codes "no JSON")

abbrev perform : Delivery → Action → ℕ → ℕ
perform d action n = n + 1

abbrev handler : Options → Job → ℤ → ℕ → Option Error × ℕ
handler options job attempt n = (none, n)

abbrev run_worker : Worker.Feed → Ending × Process ℕ Worker.Consumer
run_worker feed =
    Worker.main client worker_libraries work_queues unmarshal perform handler feed worker_config
      idle_worker

abbrev dropped : Worker.Feed
dropped = Worker.consuming (delivery ∷ []) (Worker.closed false)

abbrev told : Worker.Feed
told = Worker.consuming (delivery ∷ []) (Worker.cancelled (plain (codes "context canceled")))

ends :
    ((Gateway.main client gateway_libraries work_queues serve gateway_config idle_gateway).0
      ≡ returns)
    × ((Gateway.main client gateway_libraries work_queues serve
          (err (plain (codes "missing")))
          idle_gateway).0
        ≡ exits 1)
    × ((run_worker dropped).0 ≡ exits 1)
    × ((run_worker dropped).1.released ≡ [])
    × ((run_worker told).1.released ≡ bus ∷ pool ∷ tracing ∷ [])
unfolding programs
ends = (refl, refl, refl, refl, refl)

main-Ended_example :
    Ends
      (IsRefused idle_gateway 0)
      (λ p.
        (c : GatewayConfig.Config) × (gateway_config ≡ ok c)
        × GatewayEnded.Served client gateway_libraries work_queues serve idle_gateway 0 c
            (bus ∷ pool ∷ tracing ∷ [])
            p)
      (Gateway.main client gateway_libraries work_queues serve gateway_config idle_gateway)
main-Ended_example =
    GatewayEnded.main-Ended client gateway_libraries work_queues serve idle_gateway 0 gateway_config
      refl

worker-Ended_example :
    Ends
      (λ p.
        IsRefused idle_worker 0 p
        ⊎ ((c : WorkerConfig.Config) × (worker_config ≡ ok c)
            × WorkerEnded.HasBroken client worker_libraries work_queues unmarshal perform handler
                dropped idle_worker 0 c p))
      (λ p.
        (c : WorkerConfig.Config) × (worker_config ≡ ok c)
        × WorkerEnded.Served client worker_libraries work_queues unmarshal perform handler dropped
            idle_worker 0 c
            (bus ∷ pool ∷ tracing ∷ [])
            p)
      (run_worker dropped)
worker-Ended_example =
    WorkerEnded.worker-Ended client worker_libraries work_queues unmarshal perform handler dropped
      idle_worker 0 worker_config refl
