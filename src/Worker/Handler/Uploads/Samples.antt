-- ===== src/Worker/Handler/Uploads/Samples.antt =====
-- An upload next to the artifacts of its job.
use media_forge.Prelude.{
  ◌≡◌, ◌≢◌, refl, false, Option, none, some, [], ◌∷◌, ℤ, pos, inl, inr, length, Bool-cases,
  if◌then◌else◌,
}
use media_forge.Text.{Text, codes, ◌==◌}
use media_forge.Text.Equality.{eq_iff, eq_refl}
use media_forge.Errors.{Result, plain, ok, err}
use media_forge.Gateway.Form.{upload_key}
use media_forge.Worker.Consume.{Job}
use media_forge.Worker.Processor.{Bytes, Imaging, Options}
use media_forge.Worker.Services.{Services, World, runs}
use media_forge.Worker.Handler.{handle}
use media_forge.Worker.Handler.Uploads.{IsStore, handle-uploads}

abbrev Store : Type 0
Store = Text → Option Bytes

abbrev read_of : Option Bytes → Result Bytes
read_of none = err (plain (codes "no such key"))
read_of (some bytes) = ok bytes

abbrev services : Services
services = record {
  Outside = Store;
  link = λ o. (runs, o);
  refusal = λ s. plain (codes "refused");
  no_status = plain (codes "no rows");
  uuid = λ id. some id;
  now = λ o. 0;
  unix_milli = λ o. 0;
  get_object = λ key o. (ok tt, o);
  read_all = λ key o. (read_of (o key), o);
  put_object = λ key content_type bytes o.
      (ok (pos (length bytes)), λ k. if key == k then some bytes else o k);
  publish = λ key e o. (none, o);
  quote = λ s. s;
}

abbrev Holds : Text → Store → Type 0
Holds key o = o key ≡ some (1 ∷ 2 ∷ [])

apart_iff : (s t : Text) → s ≢ t → s == t ≡ false
apart_iff s t apart = elim (Bool-cases (s == t)) [
  | inl same ↦ absurd (apart ((eq_iff s t).0 same))
  | inr other ↦ other
]

services-IsStore : IsStore services Holds
services-IsStore = record {
  link = λ key o h. h;
  get_object = λ key other o h. h;
  read_all = λ key other o h. h;
  publish = λ key to e o h. h;
  put_object = λ key other content_type bytes o apart h. rw (apart_iff other key apart) h;
}

abbrev imaging : Imaging
imaging = record {
  Image = ℤ × ℤ;
  decode = λ src. inl (pos (length src), pos 1);
  fit = λ img w h. (w, h);
  thumbnail = λ img w h. (w, h);
  grayscale = λ img. img;
  blur = λ img sigma. img;
  encode_png = λ img. ok (1 ∷ []);
  encode_jpeg = λ img q. ok (2 ∷ []);
  encode_webp = λ img. ok (3 ∷ []);
  width = λ img. img.0;
  height = λ img. img.1;
}

abbrev options : Options
options = record { thumbnail_size = pos 256; resize_max_dim = pos 1600 }

abbrev photo : Text
photo = upload_key (codes "j1") (codes "a.png")

abbrev job : Job
job = record {
  id = codes "j1";
  kind = codes "image";
  status = codes "pending";
  source_key = photo;
  source_mime = codes "image/png";
  size_bytes = pos 2;
  operations = codes "resize" ∷ codes "webp" ∷ [];
  params = none;
}

abbrev world : World Store
world = record {
  tables = record { jobs = []; artifacts = [] };
  outside = λ key. if photo == key then some (1 ∷ 2 ∷ []) else none;
  sent = [];
  outcomes = [];
  produced = [];
}

photo_held : Holds photo world.outside
photo_held = rw (eq_refl photo) refl

handle-uploads_example : Holds photo (handle services imaging options job (pos 1) world).1.outside
handle-uploads_example =
    handle-uploads services Holds services-IsStore imaging options job (pos 1) (codes "j1")
      (codes "a.png") world photo_held
