-- ===== src/System/Samples.antt =====
-- The two services at work on one upload.
mod Printer
use media_forge.Prelude.{
  ℕ, suc, ◌≡◌, refl, Bool, true, false, ◌||◌, Option, none, some, List, [], ◌∷◌, ◌++◌, ℤ, pos,
  negsuc, ◌≤◌, arith, inl, length, All,
}
use media_forge.Text.{
  Text, codes, ◌==◌, is_space, trim_left, trim_right, trim_space, to_lower, lower, has_prefix,
  trim_prefix, split, from_last, replace_all,
}
use media_forge.Float.{Float64, float_le, is_nan}
use media_forge.Errors.{plain, ok}
use media_forge.Database.{find_job, execute, insert_job}
use media_forge.Broker.{work_steps, topology}
use media_forge.Broker.Routing.{has_wildcard, queues_of}
use media_forge.Gateway.Contract.{routing_key, valid}
use media_forge.Strconv.{atoi, digits}
use media_forge.Gateway.Form.{
  form_int, form_float, ext, sanitize, decodable_image, parse_operations, params_given,
  resolve_kind, detect_content_type, parse_params, upload_key,
}
use media_forge.Gateway.Submit.{
  Request, Backends, client_key, insert, send, store, handle_submit, submit,
}
use media_forge.Gateway.Submit as Submit
use media_forge.Worker.Amqp.{Table, empty, entry, table, array, cons, nil, int64, get, death_count}
use media_forge.Worker.Consume.Bounds as Bounds
use media_forge.Worker.Consume.{Delivery}
use media_forge.Worker.Processor.{Imaging, Options}
use media_forge.Worker.Services.{Services}
use media_forge.Worker.Services as Worker
use media_forge.Wire.RoundTrip.{FitsInt}
use media_forge.System.{
  Deployment, IsFaithful, State, Reach, here, later, submits, consumes, repeats, expires, submitted,
  after_round, expired, enqueue, arrivals,
}
use media_forge.System.Tracked.{IsTracked, Reach-AllTracked}
use media_forge.System.Settled.{IsSettled, at_rest, at_rest-AllSettled}
use media_forge.System.Samples.Printer.{print, parse, parse-print}

abbrev photo : Request
photo = record {
  authorization = codes "Bearer t";
  real_ip = [];
  remote_addr = codes "10.0.0.1:9";
  form = λ limit. some (record {
    file = some (record {
      filename = codes "cat.png";
      content_type = codes "image/png";
      content = 1 ∷ 2 ∷ [];
      size = pos 2;
    });
    value = λ key. [];
  });
}

abbrev backends : Backends
backends = record {
  Outside = ℕ;
  limiter = none;
  new_id = λ o. (codes "j1", suc o);
  put = λ key content_type content size o. (some (pos 2), o);
  link = λ o. (Submit.runs, o);
  uuid = λ id. some id;
  now = λ o. o;
  publish = λ exchange key job o. (true, o);
  stored_anyway = λ o. false;
  queued_anyway = λ o. false;
}

abbrev services : Services
services = record {
  Outside = ℕ;
  link = λ t. (Worker.runs, suc t);
  refusal = λ s. plain (codes "refused");
  no_status = plain (codes "no rows");
  uuid = λ id. some id;
  now = λ t. t;
  unix_milli = λ t. t;
  get_object = λ key t. (ok tt, suc t);
  read_all = λ key t. (ok (1 ∷ 2 ∷ []), suc t);
  put_object = λ key content_type bytes t. (ok (pos (length bytes)), suc t);
  publish = λ key e t. (none, suc t);
  quote = λ s. s;
}

abbrev imaging : Imaging
imaging = record {
  Image = ℤ × ℤ;
  decode = λ src. inl (pos (length src), pos 1);
  fit = λ img w h. (w, h);
  thumbnail = λ img w h. (w, h);
  grayscale = λ img. img;
  blur = λ img sigma. img;
  encode_png = λ img. ok (1 ∷ []);
  encode_jpeg = λ img q. ok (2 ∷ []);
  encode_webp = λ img. ok (3 ∷ []);
  width = λ img. img.0;
  height = λ img. img.1;
}

abbrev read_literal : Text → Option Float64
read_literal [] = none
read_literal (f ∷ rest) = some f

abbrev successor : ℤ → ℤ
successor (pos n) = pos (suc n)
successor (negsuc n) = pos 0

-- What RabbitMQ makes of the headers in the retry queue
abbrev cycle : Table → Table
cycle h =
    entry (codes "x-death")
      (array (cons (table (entry (codes "count") (int64 (successor (death_count h))) empty)) nil))
      empty

abbrev deployment : Deployment
deployment = record {
  backends = backends;
  services = services;
  imaging = imaging;
  options = record { thumbnail_size = pos 256; resize_max_dim = pos 1600 };
  token = codes "t";
  max_upload = pos 99;
  max_retries = pos 3;
  fold = λ c. c;
  json_fold = λ c. c;
  format_float = λ f. f ∷ [];
  parse_float = read_literal;
  print = print;
  parse = parse;
  json_error = codes "no JSON";
  matches = λ pattern key. has_wildcard pattern || pattern == key;
  headers = λ m. empty;
  cycle = cycle;
  swapped = true;
  ttl = 5000;
}

two_fits : (n : ℤ) → some (pos 2) ≡ some n → FitsInt n
two_fits n e = let eq : pos 2 ≡ n = cc in rw (← eq) (refl, refl)

faithful : IsFaithful deployment
unfolding codes
faithful = record {
  same_uuid = λ id. refl;
  hash = λ key. refl;
  literal = λ pattern key e. rw e refl;
  printed = λ ms. parse-print _;
  read_back = λ f low high. refl;
  sizes = λ key content_type content size o n e. two_fits n e;
}

abbrev start : State deployment
start = record {
  outside = 5;
  stored = [];
  published = [];
  queues = record {
    ready = [];
    waiting = [];
    parked = [];
    acked = [];
    world = record {
      tables = record { jobs = []; artifacts = [] };
      outside = 10;
      sent = [];
      outcomes = [];
      produced = [];
    };
  };
}

abbrev with_photo : State deployment
with_photo = submitted deployment photo start

abbrev stray : Delivery
stray = record { headers = empty; routing_key = codes "image.process"; body = codes "x" }

abbrev in_the_end : State deployment
in_the_end =
    after_round deployment
      (expired deployment (after_round deployment (enqueue deployment (stray ∷ []) with_photo)))

Reach-AllTracked_example : All (IsTracked deployment faithful in_the_end) in_the_end.published
Reach-AllTracked_example = Reach-AllTracked deployment faithful start in_the_end refl (
    later (later (later (later (later here (submits photo)) (repeats stray)) consumes) expires)
      consumes)

whole_run : Unit {0}
unfolding codes ◌==◌ is_space trim_left trim_right trim_space to_lower lower has_prefix trim_prefix
    split from_last replace_all float_le is_nan find_job execute insert_job routing_key valid atoi
    digits form_int form_float ext sanitize decodable_image parse_operations params_given
    resolve_kind detect_content_type parse_params upload_key client_key insert send store
    handle_submit submit get death_count arrivals queues_of work_steps topology
whole_run = tt

-- The upload is accepted, and its job is queued once.
submitted_once : (length with_photo.published ≡ 1) × (length with_photo.queues.ready ≡ 1)
unfolding whole_run
submitted_once = (refl, refl)

cycle_counts : (h : Table) (n : ℕ) → death_count h ≡ pos n → death_count (cycle h) ≡ pos (suc n)
unfolding whole_run
cycle_counts h n e = rw e

photo-IsTracked : Bounds.IsTracked (pos 3) with_photo.queues
unfolding whole_run
photo-IsTracked = record {
  ready = (record { counted = refl; below = omega arith }, tt);
  waiting = tt;
}

photo_rounds : Bounds.potential (pos 3) with_photo.queues ≤ 5
unfolding whole_run
photo_rounds = omega arith

at_rest-AllSettled_example :
    All (IsSettled deployment (at_rest deployment 5 with_photo)) with_photo.published
at_rest-AllSettled_example =
    at_rest-AllSettled deployment faithful (omega arith) cycle_counts start with_photo 5 refl
      (later here (submits photo)) photo-IsTracked photo_rounds
