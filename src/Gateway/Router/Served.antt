-- ===== src/Gateway/Router/Served.antt =====
-- What a request does to the gateway behind the router of
-- services/api-gateway/internal/httpapi/handlers.go, and how it is counted.
use mathlib.Core.Path.{subst}
use media_forge.Prelude.{
  ℕ, ◌≡◌, ◌≢◌, refl, sym, ap, ◌∙◌, Bool, true, false, ◌||◌, Option, none, some, List, [], ◌∷◌, ◌++◌,
  ℤ, Any, inl, inr, leb, ◌≤◌, ◌<◌, Bool-cases, arith, if◌then◌else◌,
}
use media_forge.Text.{Text, codes, ◌==◌, is_empty, trim_prefix}
use media_forge.Text.Equality.{eq_iff}
use media_forge.Float.{Float64}
use media_forge.Database.{Tables}
use media_forge.Gateway.Submit.{Backends, World, error, handle_submit, submit}
use media_forge.Gateway.Router.{
  Endpoint, health, metrics, submits, lists, shows, Route, routes, HttpRequest, Answer, submission,
  code, status_class, chi_route_pattern, State, Handler, Chi, endpoint_handler, chosen, dispatch,
  measured, instrument, router,
}

abbrev pub allows : Option Text → Text → Bool
allows none m = true
allows (some k) m = k == m

-- The request with another remote address
abbrev pub from_address : Text → HttpRequest → HttpRequest
from_address address r = record r { upload = record r.upload { remote_addr = address } }

-- What is assumed of the library: two of its middlewares pass a request on, RealIP changes its remote
-- address at most, and a route that is chosen is a registered one, for the request's method.
pub record IsChi (Outside : Type 0) (chi : Chi Outside) : Type 0 where
  pub request_id :
      (next : Handler Outside) (r : HttpRequest) (s : State Outside)
      → chi.request_id next r s ≡ next r s
  pub real_ip :
      (next : Handler Outside) (r : HttpRequest) (s : State Outside)
      → (address : Text) × (chi.real_ip next r s ≡ next (from_address address r) s)
  pub recoverer :
      (next : Handler Outside) (r : HttpRequest) (s : State Outside)
      → chi.recoverer next r s ≡ next r s
  pub chosen :
      (rs : List Route) (method path : Text) (x : Route) (id : Text)
      → chi.choose rs method path ≡ some (x, id)
      → Any (λ (y : Route). y ≡ x) rs × (allows x.method method ≡ true)

-- Only POST has the handler of submissions.
submits_posts :
    (m : Text) (x : Route)
    → Any (λ (y : Route). y ≡ x) routes
    → allows x.method m ≡ true
    → x.endpoint ≡ submits
    → codes "POST" ≡ m
submits_posts m x (inl e) h p = absurd (cc (ap (λ (y : Route). y.endpoint) e ∙ p))
submits_posts m x (inr (inl e)) h p = absurd (cc (ap (λ (y : Route). y.endpoint) e ∙ p))
submits_posts m x (inr (inr (inl e))) h p = absurd (cc (ap (λ (y : Route). y.endpoint) e ∙ p))
submits_posts m x (inr (inr (inr (inl e)))) h p =
    (eq_iff (codes "POST") m).0 (ap (λ (y : Route). allows y.method m) e ∙ h)
submits_posts m x (inr (inr (inr (inr (inl e))))) h p =
    absurd (cc (ap (λ (y : Route). y.endpoint) e ∙ p))
submits_posts m x (inr (inr (inr (inr (inr (inl e)))))) h p =
    absurd (cc (ap (λ (y : Route). y.endpoint) e ∙ p))
submits_posts m x (inr (inr (inr (inr (inr (inr e)))))) h p = absurd e

-- The label of a request: the pattern of its route, or "unknown" where there is none.
pub data IsLabel : Option Text → Text → Type 0 where
  of_route : (p : Text) → p ≢ [] → IsLabel (some p) p
  without_pattern : IsLabel (some []) (codes "unknown")
  without_context : IsLabel none (codes "unknown")

-- The class of a status, by its hundreds.
pub data IsClass (n : ℕ) : Text → Type 0 where
  of_server : 500 ≤ n → IsClass n (codes "5xx")
  of_client : 400 ≤ n → n < 500 → IsClass n (codes "4xx")
  of_redirect : 300 ≤ n → n < 400 → IsClass n (codes "3xx")
  of_success : n < 300 → IsClass n (codes "2xx")

chi_route_pattern-IsLabel : (context : Option Text) → IsLabel context (chi_route_pattern context)
unfolding chi_route_pattern
chi_route_pattern-IsLabel none = without_context
chi_route_pattern-IsLabel (some []) = without_pattern
chi_route_pattern-IsLabel (some (c ∷ p)) = of_route (c ∷ p) (λ e. cc)

status_class-IsClass : (n : ℕ) → IsClass n (status_class n)
unfolding status_class
status_class-IsClass n = elim (Bool-cases (leb 500 n)) [
  | inl e ↦ rw e (of_server (ground (arith, e)))
  | inr e ↦ elim (Bool-cases (leb 400 n)) [
    | inl c ↦ rw (e, c) (of_client (ground (arith, c)) (ground (arith, e)))
    | inr c ↦ elim (Bool-cases (leb 300 n)) [
      | inl d ↦ rw (e, c, d) (of_redirect (ground (arith, d)) (ground (arith, c)))
      | inr d ↦ rw (e, c, d) (of_success (ground (arith, d)))
    ]
  ]
]

module _ (B : Backends) (chi : Chi B.Outside) (max_upload : ℤ) (fold : ℕ → ℕ)
    (parse_float : Text → Option Float64) (token : Text)
    (sees : State B.Outside → Option Tables × Option Tables) (is_uuid : Text → Bool)
    (presign : Text → Option Text) where
  open B use {Outside}

  -- The gateway is left as it was, or the request is an authorised submission.
  pub data Effect (r : HttpRequest) (before : World Outside) (a : Answer) (w : World Outside)
      : Type 0 where
    untouched : w ≡ before → Effect r before a w
    accepts :
        (codes "POST" ≡ r.method)
        → (is_empty token || trim_prefix r.upload.authorization (codes "Bearer ") == token) ≡ true
        → a ≡ submission (handle_submit B max_upload fold parse_float r.upload before).0
        → w ≡ (handle_submit B max_upload fold parse_float r.upload before).1
        → Effect r before a w

  abbrev Done : HttpRequest → State Outside → Answer × State Outside → Type 0
  Done r s (a, s') =
      Effect r s.world a s'.world × (s'.durations ≡ s.durations) × (s'.requests ≡ s.requests)

  guarded-Effect :
      (r : HttpRequest) (w : World Outside) (b : Bool)
      → codes "POST" ≡ r.method
      → (is_empty token || trim_prefix r.upload.authorization (codes "Bearer ") == token) ≡ b
      → Effect r w
          (submission
            (if b
              then handle_submit B max_upload fold parse_float r.upload w
              else (error 401 "invalid or missing bearer token", w)).0)
          (if b
            then handle_submit B max_upload fold parse_float r.upload w
            else (error 401 "invalid or missing bearer token", w)).1
  guarded-Effect r w true post e = accepts post e refl refl
  guarded-Effect r w false post e = untouched refl

  endpoint_handler-Done :
      (e : Endpoint) (id : Text) (r : HttpRequest) (s : State Outside)
      → (e ≡ submits → codes "POST" ≡ r.method)
      → Done r s
          (endpoint_handler B chi max_upload fold parse_float token sees is_uuid presign e id r s)
  unfolding submit
  endpoint_handler-Done health id r s post = (untouched refl, refl, refl)
  endpoint_handler-Done metrics id r s post = (untouched refl, refl, refl)
  endpoint_handler-Done submits id r s post =
      (guarded-Effect r s.world _ (post refl) refl, refl, refl)
  endpoint_handler-Done lists id r s post = (untouched refl, refl, refl)
  endpoint_handler-Done shows id r s post = (untouched refl, refl, refl)

  module _ (laws : IsChi B.Outside chi) where
    chosen-Done :
        (r : HttpRequest) (s : State Outside) (o : Option (Route × Text))
        → chi.choose routes r.method r.path ≡ o
        → Done r s (chosen B chi max_upload fold parse_float token sees is_uuid presign o r s)
    chosen-Done r s none e = (untouched refl, refl, refl)
    chosen-Done r s (some (x, id)) e =
        let (listed, allowed) = laws.chosen routes r.method r.path x id e in
        endpoint_handler-Done x.endpoint id r s (submits_posts r.method x listed allowed)

    -- The answer to a request and the state after it: the effect is that of the request, from an
    -- address, and the request was counted once, with the label of its route and the class of its
    -- status.
    pub record IsServed (r : HttpRequest) (s : State Outside) (x : Answer × State Outside)
        : Type 0 where
      pub address : Text
      pub label : Text
      pub class : Text
      pub effect : Effect (from_address address r) s.world x.0 x.1.world
      pub named : IsLabel (chi.context (from_address address r)) label
      pub classed : IsClass (code x.0) class
      pub observed : x.1.durations ≡ s.durations ++ label ∷ []
      pub counted :
          x.1.requests
          ≡ s.requests ++ record { route = label; method = r.method; class = class } ∷ []

    measured-IsServed :
        (address : Text) (r : HttpRequest) (s : State Outside) (x : Answer × State Outside)
        → Done (from_address address r) s x
        → IsServed r s (
            measured B chi max_upload fold parse_float token sees is_uuid presign
              (from_address address r)
              x)
    measured-IsServed address r s (a, s') (effect, durations, requests) = record {
      address = address;
      label = chi_route_pattern (chi.context (from_address address r));
      effect = effect;
      class = status_class (code a);
      named = chi_route_pattern-IsLabel (chi.context (from_address address r));
      classed = status_class-IsClass (code a);
      observed = rw durations refl;
      counted = rw requests refl;
    }

    -- Any request: it leaves the gateway as it was, or it is a POST with the token, where one is
    -- configured, and is answered by the handler of submissions. It is counted once, with its method,
    -- the pattern of its route, or "unknown" where it has none, and the class of its status by its
    -- hundreds, and its duration is observed under that label. Of the router's library, IsChi is
    -- assumed.
    pub router-IsServed :
        (r : HttpRequest) (s : State Outside)
        → IsServed r s (router B chi max_upload fold parse_float token sees is_uuid presign r s)
    unfolding router instrument
    router-IsServed r s =
        let run =
          instrument B chi max_upload fold parse_float token sees is_uuid presign
            (dispatch B chi max_upload fold parse_float token sees is_uuid presign) in
        let (address, moved) = laws.real_ip (chi.recoverer run) r s in
        let r' = from_address address r in
        subst (IsServed r s) (sym (laws.request_id _ r s ∙ moved ∙ laws.recoverer run r' s)) (
          measured-IsServed address r s _
            (chosen-Done r' s (chi.choose routes r'.method r'.path) refl))
