-- ===== src/Gateway/Contract.antt =====
-- services/api-gateway/internal/media/contract.go: the job that goes to Postgres and to the bus.
use media_forge.Prelude.{◌≡◌, ◌⊎◌, Bool, true, ◌||◌, arith, Option, List, ℤ, if◌then◌else◌}
use media_forge.Text.{Text, codes, ◌==◌}
use media_forge.Text.Equality.{eq_iff}
use media_forge.Float.{Float64}
use media_forge.Database.{NewJob}

-- `RoutingKey` and `Valid` of a kind.
unfoldable pub routing_key : Text → Text
routing_key kind = if kind == codes "ocr" then codes "ocr.extract" else codes "image.process"

unfoldable pub valid : Text → Bool
valid kind = kind == codes "image" || kind == codes "ocr"

pub valid-cases : (kind : Text) → valid kind ≡ true → (kind ≡ codes "image") ⊎ (kind ≡ codes "ocr")
unfolding valid
valid-cases kind h = ground (arith, h, eq_iff kind (codes "image"), eq_iff kind (codes "ocr"))

pub record JobParams : Type 0 where
  pub resize_max_dim : ℤ
  pub thumbnail_size : ℤ
  pub resize_format : Text
  pub quality : ℤ
  pub blur_sigma : Float64

-- The times are left out: the gateway publishes a job with both of them zero.
pub record Job : Type 0 where
  pub id : Text
  pub kind : Text
  pub status : Text
  pub source_key : Text
  pub source_mime : Text
  pub size_bytes : ℤ
  pub operations : List Text
  pub params : Option JobParams
  pub attempt : ℤ

-- The columns that `CreateJob` writes.
abbrev pub columns : Job → NewJob
columns j = record {
  id = j.id;
  kind = j.kind;
  status = j.status;
  source_key = j.source_key;
  source_mime = j.source_mime;
  size_bytes = j.size_bytes;
  operations = j.operations;
}
