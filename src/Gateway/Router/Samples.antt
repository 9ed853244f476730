-- ===== src/Gateway/Router/Samples.antt =====
-- A submission behind the router.
use media_forge.Prelude.{
  ℕ, suc, ◌≡◌, refl, sym, ap, ◌∙◌, Bool, true, false, ◌&&◌, Option, none, some, List, [], ◌∷◌, pos,
  Any, inl, inr, if◌then◌else◌,
}
use media_forge.Text.{
  Text, codes, ◌==◌, is_space, trim_left, trim_right, trim_space, to_lower, lower, has_prefix,
  trim_prefix, split, from_last, replace_all,
}
use media_forge.Float.{float_le, is_nan}
use media_forge.Database.{find_job, execute, insert_job}
use media_forge.Gateway.Contract.{routing_key, valid}
use media_forge.Strconv.{atoi, digits}
use media_forge.Gateway.Form.{
  form_int, form_float, ext, sanitize, decodable_image, parse_operations, params_given,
  resolve_kind, detect_content_type, parse_params, upload_key,
}
use media_forge.Gateway.Submit.{
  Backends, runs, client_key, insert, send, store, handle_submit, submit,
}
use media_forge.Gateway.Router.{
  Route, HttpRequest, Answer, code, State, Chi, status_class, chi_route_pattern, instrument, router,
}
use media_forge.Gateway.Router.Served.{allows, IsChi, IsServed, router-IsServed}

-- A library that knows no parameters in patterns
abbrev fits : Route → Text → Text → Bool
fits x method path = allows x.method method && x.prefix == path

abbrev first : List Route → Text → Text → Option (Route × Text)
first [] method path = none
first (x ∷ xs) method path =
    let rest = first xs method path in if fits x method path then some (x, codes "j1") else rest

abbrev chi : Chi ℕ
chi = record {
  request_id = λ next r s. next r s;
  real_ip = λ next r s. next r s;
  recoverer = λ next r s. next r s;
  choose = first;
  refuse = λ method path. 404;
  context = λ r. some r.path;
}

and_left : (a b : Bool) → (a && b) ≡ true → a ≡ true
and_left true b e = refl
and_left false b e = e

first_step :
    (b : Bool) (y x : Route) (method path id : Text) (rs : List Route)
    (later : Option (Route × Text))
    → fits y method path ≡ b
    → (if b then some (y, codes "j1") else later) ≡ some (x, id)
    → (later ≡ some (x, id) → Any (λ (z : Route). z ≡ x) rs × (allows x.method method ≡ true))
    → Any (λ (z : Route). z ≡ x) (y ∷ rs) × (allows x.method method ≡ true)
first_step true y x method path id rs later fit e rest =
    let same : y ≡ x = cc in
    (
      inl same,
      ap (λ (z : Route). allows z.method method) (sym same)
          ∙ and_left (allows y.method method) (y.prefix == path) fit,
    )
first_step false y x method path id rs later fit e rest =
    let (listed, allowed) = rest e in (inr listed, allowed)

first-chosen :
    (rs : List Route) (method path : Text) (x : Route) (id : Text)
    → first rs method path ≡ some (x, id)
    → Any (λ (y : Route). y ≡ x) rs × (allows x.method method ≡ true)
first-chosen [] method path x id e = cc
first-chosen (y ∷ rs) method path x id e =
    first_step (fits y method path) y x method path id rs (first rs method path) refl e
      (first-chosen rs method path x id)

chi-IsChi : IsChi ℕ chi
chi-IsChi = record {
  request_id = λ next r s. refl;
  real_ip = λ next r s. (r.upload.remote_addr, refl);
  recoverer = λ next r s. refl;
  chosen = first-chosen;
}

abbrev backends : Backends
backends = record {
  Outside = ℕ;
  limiter = none;
  new_id = λ o. (codes "j1", suc o);
  put = λ key content_type content size o. (some size, o);
  link = λ o. (runs, o);
  uuid = λ id. some id;
  now = λ o. o;
  publish = λ exchange key job o. (true, o);
  stored_anyway = λ o. false;
  queued_anyway = λ o. false;
}

abbrev post : Text → HttpRequest
post authorization = record {
  method = codes "POST";
  path = codes "/v1/media";
  upload = record {
    authorization = authorization;
    real_ip = [];
    remote_addr = codes "10.0.0.1:9";
    form = λ limit. some (record {
      file = some (record {
        filename = codes "cat.png";
        content_type = codes "image/png";
        content = 1 ∷ 2 ∷ [];
        size = pos 2;
      });
      value = λ key. [];
    });
  };
  query = λ key. [];
}

abbrev before : State ℕ
before = record {
  world = record {
    tables = record { jobs = []; artifacts = [] };
    outside = 5;
    stored = [];
    published = [];
  };
  durations = [];
  requests = [];
}

abbrev serve : HttpRequest → State ℕ → Answer × State ℕ
serve =
    router backends chi (pos 99) (λ c. c) (λ s. none) (codes "t")
      (λ s. (some s.world.tables, some s.world.tables)) (λ id. true) (λ key. some key)

router-IsServed_example :
    IsServed backends chi
      (pos 99)
      (λ c. c)
      (λ s. none)
      (codes "t")
      (λ s. (some s.world.tables, some s.world.tables))
      (λ id. true)
      (λ key. some key)
      chi-IsChi
      (post (codes "Bearer t"))
      before
      (serve (post (codes "Bearer t")) before)
router-IsServed_example =
    router-IsServed backends chi (pos 99) (λ c. c) (λ s. none) (codes "t")
      (λ s. (some s.world.tables, some s.world.tables)) (λ id. true) (λ key. some key) chi-IsChi
      (post (codes "Bearer t")) before

gate : Unit {0}
unfolding codes ◌==◌ is_space trim_left trim_right trim_space to_lower lower has_prefix trim_prefix
    split from_last replace_all float_le is_nan find_job execute insert_job routing_key valid atoi
    digits form_int form_float ext sanitize decodable_image parse_operations params_given
    resolve_kind detect_content_type parse_params upload_key client_key insert send store
    handle_submit submit chi_route_pattern status_class instrument router
gate = tt

-- With the token a submission is accepted, without it is refused, and there is no DELETE.
answers :
    (code (serve (post (codes "Bearer t")) before).0 ≡ 202)
    × (code (serve (post (codes "Bearer u")) before).0 ≡ 401)
    × (code (serve (record (post []) { method = codes "DELETE" }) before).0 ≡ 404)
unfolding gate
answers = (refl, refl, refl)
