-- ===== src/Lib.antt =====
-- MediaForge: the ingestion gateway and the image worker.
--
-- A client uploads a file to the gateway (services/api-gateway), which stores it, writes a row into
-- Postgres and publishes a job to RabbitMQ. The image worker (services/worker-image) consumes the
-- job, makes the variants that it asks for, uploads them, records them as artifacts and publishes
-- events on the way. A job that fails goes through a retry queue until its attempts are used up, and
-- is then parked.
--
-- Text: Go's strings, as lists of code points, and what the services use of `strings`. Float: a
--   float64 as its bits, with its order. Prelude.Int: Go's 64-bit `int`.
-- Strconv: Atoi, ParseBool and the decimal form of a number. The fuel of `decimal` is one more than the
--   number, which has no more digits (Strconv.Decimal).
-- Json: values, and what encoding/json makes of them for a field of a struct; texts are taken to be
--   valid UTF-8, and numbers are the texts of their literals. Gateway.Encode writes the gateway's job,
--   Worker.Decode reads the worker's, and Wire sets the two side by side: Wire.Delivery follows a
--   submission to the worker, and Wire.Journey to the job's status page. How a float64 is written and
--   read, and the case mapping of keys above ASCII, are parameters. The step from a value to the bytes
--   of a message and back is left out there.
-- Config: what `Load` of services/api-gateway/internal/config/config.go and of
--   services/worker-image/internal/config/config.go share; Gateway.Config and Worker.Config hold their
--   own settings. ParseFloat and the order in which a map is visited are parameters.
-- Broker: the topology that both broker packages declare. Broker.Routing reads from its commands where
--   RabbitMQ sends a message, with the match of a binding's key as a parameter. Broker.Connection is
--   what both `Connect` do after dialling; Gateway.Broker and Worker.Broker are theirs, and
--   Gateway.Broker has `PublishJSON`. The client library is the parameter `Client`, or `Channel`.
-- Database: the tables of the schema in services/api-gateway/internal/store/postgres.go, and the
--   statements of both stores that write them (`CreateJob`, `SetStatus`, `AddArtifact`) or read a
--   status. Database.Rows and Database.Effects say what they do to the rows of a key,
--   Database.Integrity that they keep the schema's constraints, and
--   Database.Abstract what they are as updates of functions from keys. Postgres's reading of a UUID is a
--   parameter, and now() an argument.
-- Worker.Amqp and Worker.Consume: `deathCount`, `handle` and `park` of
--   services/worker-image/internal/broker/broker.go. `handle` gives the list of actions that the
--   consumer asks of RabbitMQ for a delivery (Worker.Consume.Shape). Worker.Consume.Queues sets it
--   between the work queue, the retry queue and the parking queue, driven by ticks: a delivery, an
--   expiry in the retry queue, or a crash of the worker, which leaves the delivery queued. `expire` is
--   RabbitMQ's own step, not code of the repository: a message whose wait is over goes back to the
--   work queue. What RabbitMQ makes of its headers there is a parameter, of which the theorems assume
--   that the count in x-death grows by one. `drain` runs on fuel:
--   Worker.Consume.Attempts shows how much is enough.
-- Errors: Go's errors, with wrapping and `Permanent`.
-- Worker.Processor: services/worker-image/internal/processor/processor.go over the parameter
--   `Imaging`, what it calls of the image libraries.
-- Worker.Services: the worker's stores, its object storage and `PublishEvent`, over the parameter
--   `Services`, what they call of Postgres, the object store and RabbitMQ. A statement may run, may be
--   lost, or may run without its outcome coming back.
-- Worker.Handler: `handle`, `fail`, `processorParams` and `artifactFilename` of
--   services/worker-image/cmd/worker/main.go. Worker.Handler.Keeps is the rule by which its
--   invariants are proved, and Worker.Handler.Events the grammar of its events.
--   Worker.Handler.Uploads sets its keys in the object store beside those of the gateway.
-- Worker.Encode: the JSON of `Event` of the worker's broker package, and the part of JSON Schema that
--   specs/schemas/event.schema.json uses.
--
-- Gateway.Contract: the job of services/api-gateway/internal/media/contract.go, its routing key and
--   its row.
-- Gateway.Form: what services/api-gateway/internal/httpapi/handlers.go makes of the fields of a form:
--   `formInt` with strconv.Atoi, `parseParams`, `parseOperations`, `resolveKind`,
--   `detectContentType`, `sanitize`. strconv.ParseFloat is a parameter, as is the case mapping above
--   ASCII.
-- Gateway.Submit: `bearerAuth` of services/api-gateway/internal/httpapi/middleware.go before
--   `handleSubmit`, with `CreateJob` as a statement on the tables, over the parameter `Backends`, what
--   the gateway calls of Redis, the object store, Postgres and RabbitMQ. Multipart parsing is a field
--   of the request. A statement may be lost, or run without its outcome coming back. A Put or a
--   publication that returns an error may have been taken all the same.
-- Gateway.Listing: `ListJobs` of services/api-gateway/internal/store/postgres.go, its join, order,
--   paging and total as functions on the tables, and `handleList`. The tables that its two queries
--   see are arguments, as is a failure of either.
-- Gateway.Status: `GetJob` of the same store and `handleStatus`, with the same arguments. uuid.Parse is
--   a parameter.
-- Gateway.Limiter: `Allow` of services/api-gateway/internal/store/redis.go over the commands INCR and
--   EXPIRE, of which the theorem assumes that they count. Its windows are whole seconds.
-- Gateway.Router: `Router` with its routes, `bearerAuth` on the one that submits, `instrument` with
--   `statusClass` and `chiRoutePattern`, and `handleHealth`. Chi's middlewares, its choice of a route and
--   the pattern it reports are the parameter `Chi`, of which IsChi assumes that RequestID, RealIP and
--   Recoverer call the next handler, RealIP with another remote address at most, and that a chosen route
--   is registered for the method.
-- Gateway.Dial: `dialWithRetry` of services/api-gateway/internal/broker/broker.go.
--
-- Process: exits, deferred calls and what a program holds, for both functions `main`; Process.Tracing is
--   `InitTracing` of services/api-gateway/internal/observability/tracing.go and of the worker's.
-- Gateway.Main: services/api-gateway/cmd/api/main.go with the functions `New` that it calls; what the
--   server does until it is shut down is the parameter `serve`.
-- Worker.Main: services/worker-image/cmd/worker/main.go with `Consume` and the functions `New`. What
--   `Consume` meets is a `Feed`: the deliveries that it takes, and why it takes no more. The handler
--   of jobs is a parameter there.
--
-- Trace: `amqpHeaderCarrier` of both broker packages, the headers of a publication and the parent of the
--   consumer's span. OpenTelemetry's propagator is the parameter `Propagator`.
-- System: the gateway and the image worker on one database and one broker. A turn is a submission with
--   all of its calls, a round of the consumer with all of its handler, some statements of a worker about
--   the job of a delivery that it holds, after which it may die, the end of such a handler, by its last
--   statement, its reading of the status or an error, the end of a wait in the retry queue, or a message
--   that comes once more. Deliveries that are held stay in `ready`. Worker.Handler.Statements says that
--   a handler is such statements. System.Settled lets the consumer work on, on fuel, which is enough if
--   it is the potential of the queues. What RabbitMQ routes to q.image is read from the declared
--   topology. Bytes of JSON are written and read by parameters, of which IsFaithful assumes that what is
--   written is read back. A handler's last statement and its acknowledgement are one turn, submissions
--   do not interleave, q.ocr has no consumer, and a publication to the parking exchange that fails is
--   left to Worker.Consume.
--
-- Samples modules hold tests and the theorems at concrete inputs.
--
-- Not modelled: logging, spans and the other metrics, which do not change what the handlers do; limits
-- of time; panics; and the services in Python and TypeScript.
mod Prelude
pub mod Text
pub mod Errors
pub mod Float
pub mod Strconv
pub mod Json
pub mod Wire
pub mod Process
pub mod Trace
pub mod System
pub mod Config
pub mod Broker
pub mod Gateway
pub mod Database
pub mod Worker
