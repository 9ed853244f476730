-- ===== src/Gateway/Submit/Samples.antt =====
-- A submission at concrete inputs.
use media_forge.Prelude.{
  ℕ, ◌+◌, ◌≡◌, refl, Bool, true, false, ◌||◌, Option, none, some, [], ◌∷◌, ℤ, pos,
}
use media_forge.Text.{
  Text, codes, ◌==◌, is_space, trim_left, trim_right, trim_space, to_lower, lower, has_prefix,
  trim_prefix, split, from_last, replace_all,
}
use media_forge.Float.{Float64, float_le, is_nan}
use media_forge.Database.{find_job, execute, insert_job}
use media_forge.Gateway.Contract.{routing_key, valid}
use media_forge.Strconv.{atoi, digits}
use media_forge.Gateway.Form.{
  form_int, form_float, ext, sanitize, decodable_image, parse_operations, params_given,
  resolve_kind, detect_content_type, parse_params, upload_key,
}
use media_forge.Gateway.Submit.{
  Upload, Request, Link, runs, unanswered, Backends, World, client_key, insert, send, store,
  handle_submit, submit,
}
use media_forge.Broker.Routing.{has_wildcard}
use media_forge.Wire.RoundTrip.{FitsInt}
use media_forge.Wire.Delivery.{IsDelivered, submit-IsDelivered}
use media_forge.Gateway.Submit.Outcome.{submit-Outcome}
use media_forge.Gateway.Submit.Answers.{Outcome}

submission : Unit {0}
unfolding codes ◌==◌ is_space trim_left trim_right trim_space to_lower lower has_prefix trim_prefix
    split from_last replace_all float_le is_nan find_job execute insert_job routing_key valid atoi
    digits form_int form_float ext sanitize decodable_image parse_operations params_given
    resolve_kind detect_content_type parse_params upload_key client_key insert send store
    handle_submit submit
submission = tt

abbrev same : ℕ → ℕ
same c = c

abbrev no_float : Text → Option Float64
no_float s = none

abbrev photo : Upload
photo = record {
  filename = codes "cat.png";
  content_type = codes "image/png";
  content = 1 ∷ 2 ∷ [];
  size = pos 2;
}

abbrev request_of : Option Upload → Request
request_of file = record {
  authorization = codes "Bearer t";
  real_ip = [];
  remote_addr = codes "10.0.0.1:9";
  form = λ limit. some (record { file = file; value = λ key. [] });
}

abbrev backends_of : Link → Bool → Backends
backends_of link bus = record {
  Outside = ℕ;
  limiter = some λ key o. (some true, o);
  new_id = λ o. (codes "j1", o + 1);
  put = λ key content_type content size o. (some size, o);
  link = λ o. (link, o);
  uuid = λ id. some id;
  now = λ o. o;
  publish = λ exchange key job o. (bus, o);
  stored_anyway = λ o. false;
  queued_anyway = λ o. false;
}

abbrev before : World ℕ
before = record {
  tables = record { jobs = []; artifacts = [] };
  outside = 5;
  stored = [];
  published = [];
}

abbrev B : Backends
B = backends_of runs true

answers :
    ((submit B (pos 99) same no_float (codes "t") (request_of (some photo)) before).0.status ≡ 202)
    × ((submit B (pos 99) same no_float (codes "u") (request_of (some photo)) before).0.status
        ≡ 401)
    × ((submit B (pos 99) same no_float (codes "t") (request_of none) before).0.status ≡ 400)
    × ((submit
          (backends_of unanswered true)
          (pos 99)
          same
          no_float
          []
          (request_of (some photo))
          before).0.status
        ≡ 500)
    × ((submit
          (backends_of runs false)
          (pos 99)
          same
          no_float
          []
          (request_of (some photo))
          before).0.status
        ≡ 502)
unfolding submission
answers = (refl, refl, refl, refl, refl)

submit-Outcome_example :
    Outcome B
      (pos 99)
      same
      no_float
      (request_of (some photo))
      (submit B (pos 99) same no_float (codes "t") (request_of (some photo)) before).0
      before
      (submit B (pos 99) same no_float (codes "t") (request_of (some photo)) before).1
submit-Outcome_example =
    submit-Outcome B (pos 99) same no_float (request_of (some photo)) (codes "t") before

-- RabbitMQ's keys with a wildcard match all others here, and a float64 is one character.
abbrev matches : Text → Text → Bool
matches pattern key = has_wildcard pattern || pattern == key

abbrev literal : Float64 → Text
literal f = f ∷ []

abbrev read_literal : Text → Option Float64
read_literal [] = none
read_literal (f ∷ rest) = some f

-- The object store answers with two bytes, the length of the photo.
abbrev two_bytes : Backends
two_bytes = record B { put = λ key content_type content size o. (some (pos 2), o) }

two_fits : (n : ℤ) → some (pos 2) ≡ some n → FitsInt n
two_fits n e = let eq : pos 2 ≡ n = cc in rw (← eq) (refl, refl)

delivered_status :
    (submit two_bytes
      (pos 99)
      same
      read_literal
      (codes "t")
      (request_of (some photo))
      before).0.status
    ≡ 202
unfolding submission
delivered_status = refl

submit-IsDelivered_example :
    IsDelivered two_bytes same literal read_literal matches before
      (submit two_bytes (pos 99) same read_literal (codes "t") (request_of (some photo)) before).1
unfolding codes ◌==◌
submit-IsDelivered_example =
    submit-IsDelivered two_bytes same literal read_literal matches (λ key. refl)
      (λ pattern key h. rw h refl) (λ f low high. refl)
      (λ key content_type content size o n e. two_fits n e) (pos 99) same (codes "t")
      (request_of (some photo)) before delivered_status
