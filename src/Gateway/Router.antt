-- ===== src/Gateway/Router.antt =====
-- `Router` of services/api-gateway/internal/httpapi/handlers.go and `instrument` of
-- services/api-gateway/internal/httpapi/middleware.go, around the handlers of the gateway. The router's
-- library is not part of the repository: `Chi` is what is called of it. Spans are left out.
pub mod Served
mod Samples
use media_forge.Prelude.{
  ℕ, ◌≡◌, Bool, true, false, ◌||◌, Option, none, some, List, [], ◌∷◌, ◌++◌, ℤ, Any, leb,
  if◌then◌else◌,
}
use media_forge.Text.{Text, codes, ◌==◌, is_empty}
use media_forge.Float.{Float64}
use media_forge.Database.{Tables}
use media_forge.Gateway.Submit.{Request, Response, Backends, World, submit}
use media_forge.Gateway.Listing.{ListResponse, failed, listed, handle_list}
use media_forge.Gateway.Status.{StatusResponse, invalid_id, missing, failed, found, handle_status}

pub data Endpoint : Type 0 where
  health : Endpoint
  metrics : Endpoint
  submits : Endpoint
  lists : Endpoint
  shows : Endpoint

-- A registration: no method stands for any, and `prefix` is that of a group of routes.
pub record Route : Type 0 where
  pub method : Option Text
  pub prefix : Text
  pub pattern : Text
  pub endpoint : Endpoint

abbrev pub route : Option Text → Text → Text → Endpoint → Route
route method prefix pattern endpoint = record {
  method = method;
  prefix = prefix;
  pattern = pattern;
  endpoint = endpoint;
}

abbrev pub routes : List Route
routes =
    route (some (codes "GET")) [] (codes "/healthz") health
    ∷ route (some (codes "GET")) [] (codes "/readyz") health
    ∷ route none [] (codes "/metrics") metrics
    ∷ route (some (codes "POST")) (codes "/v1/media") (codes "/") submits
    ∷ route (some (codes "GET")) (codes "/v1/media") (codes "/") lists
    ∷ route (some (codes "GET")) (codes "/v1/media") (codes "/{id}") shows
    ∷ []

pub record HttpRequest : Type 0 where
  pub method : Text
  pub path : Text
  -- What `handleSubmit` reads
  pub upload : Request
  -- `FormValue` of the query
  pub query : Text → Text

-- What is written to the client, by each handler and by the router's library.
pub data Answer : Type 0 where
  healthy : Answer
  exposition : Answer
  submission : Response → Answer
  listing : ListResponse → Answer
  status : StatusResponse → Answer
  unrouted : ℕ → Answer

abbrev pub code_of_list : ListResponse → ℕ
code_of_list failed = 500
code_of_list (listed jobs total limit offset) = 200

abbrev pub code_of_status : StatusResponse → ℕ
code_of_status invalid_id = 400
code_of_status missing = 404
code_of_status failed = 500
code_of_status (found job artifacts) = 200

abbrev pub code : Answer → ℕ
code healthy = 200
code exposition = 200
code (submission a) = a.status
code (listing a) = code_of_list a
code (status a) = code_of_status a
code (unrouted n) = n

-- `statusClass`
unfoldable pub status_class : ℕ → Text
status_class n =
    if leb 500 n
    then codes "5xx"
    else if leb 400 n
    then codes "4xx"
    else if leb 300 n
    then codes "3xx"
    else codes "2xx"

-- `routePatternFromCtx`; no value stands for a context without a route context.
abbrev pub route_pattern : Option Text → Text
route_pattern none = []
route_pattern (some p) = p

-- `chiRoutePattern`
unfoldable pub chi_route_pattern : Option Text → Text
chi_route_pattern context =
    let p = route_pattern context in if is_empty p then codes "unknown" else p

-- The labels of a request that was counted
pub record Sample : Type 0 where
  pub route : Text
  pub method : Text
  pub class : Text

-- `durations` has the label of every duration that was observed.
pub record State (Outside : Type 0) : Type 0 where
  pub world : World Outside
  pub durations : List Text
  pub requests : List Sample

abbrev pub Handler : Type 0 → Type 0
Handler Outside = HttpRequest → State Outside → Answer × State Outside

-- The middleware and the choice of a route, with the value of the parameter `id`
pub record Chi (Outside : Type 0) : Type 0 where
  pub request_id : Handler Outside → Handler Outside
  pub real_ip : Handler Outside → Handler Outside
  pub recoverer : Handler Outside → Handler Outside
  pub choose : List Route → Text → Text → Option (Route × Text)
  -- The status of a request without a route
  pub refuse : Text → Text → ℕ
  -- `RoutePattern` of the context, once the request was served
  pub context : HttpRequest → Option Text

-- `sees` is what the two queries of a reading handler see.
module _ (B : Backends) (chi : Chi B.Outside) (max_upload : ℤ) (fold : ℕ → ℕ)
    (parse_float : Text → Option Float64) (token : Text)
    (sees : State B.Outside → Option Tables × Option Tables) (is_uuid : Text → Bool)
    (presign : Text → Option Text) where
  open B use {Outside}

  abbrev pub submitting : Response × World Outside → State Outside → Answer × State Outside
  submitting (a, w) s = (submission a, record s { world = w })

  -- `submit` is `handleSubmit` behind `bearerAuth`.
  abbrev pub endpoint_handler : Endpoint → Text → Handler Outside
  endpoint_handler health id r s = (healthy, s)
  endpoint_handler metrics id r s = (exposition, s)
  endpoint_handler submits id r s =
      submitting (submit B max_upload fold parse_float token r.upload s.world) s
  endpoint_handler lists id r s = (listing (handle_list presign r.query (sees s).0 (sees s).1), s)
  endpoint_handler shows id r s =
      (status (handle_status is_uuid B.uuid presign id (sees s).0 (sees s).1), s)

  abbrev pub chosen : Option (Route × Text) → Handler Outside
  chosen none r s = (unrouted (chi.refuse r.method r.path), s)
  chosen (some (x, id)) r s = endpoint_handler x.endpoint id r s

  abbrev pub dispatch : Handler Outside
  dispatch r s = chosen (chi.choose routes r.method r.path) r s

  abbrev pub measured : HttpRequest → Answer × State Outside → Answer × State Outside
  measured r (a, s) =
      let label = chi_route_pattern (chi.context r) in
      (
        a,
        record s {
          durations = s.durations ++ label ∷ [];
          requests =
              s.requests
              ++ record { route = label; method = r.method; class = status_class (code a) } ∷ [];
        },
      )

  -- `instrument`
  unfoldable pub instrument : Handler Outside → Handler Outside
  unfolding chi_route_pattern status_class
  instrument next r s = measured r (next r s)

  -- `Router`
  unfoldable pub router : Handler Outside
  unfolding instrument submit handle_list handle_status
  router = chi.request_id (chi.real_ip (chi.recoverer (instrument dispatch)))
