-- ===== src/Wire.antt =====
-- The message between the gateway and the image worker: what `Job` and `JobParams` of
-- services/api-gateway/internal/media/contract.go become on their way to those of
-- services/worker-image/internal/broker/broker.go.
pub mod Steps
pub mod RoundTrip
pub mod Delivery
pub mod Shown
pub mod Journey
mod Samples
use media_forge.Prelude.{Option, none, some}
use media_forge.Gateway.Contract as Gateway
use media_forge.Worker.Consume as Worker

abbrev pub params_on_worker : Gateway.JobParams → Worker.JobParams
params_on_worker p = record {
  resize_max_dim = p.resize_max_dim;
  thumbnail_size = p.thumbnail_size;
  resize_format = p.resize_format;
  quality = p.quality;
  blur_sigma = p.blur_sigma;
}

abbrev pub params_if_any : Option Gateway.JobParams → Option Worker.JobParams
params_if_any none = none
params_if_any (some p) = some (params_on_worker p)

abbrev pub on_worker : Gateway.Job → Worker.Job
on_worker j = record {
  id = j.id;
  kind = j.kind;
  status = j.status;
  source_key = j.source_key;
  source_mime = j.source_mime;
  size_bytes = j.size_bytes;
  operations = j.operations;
  params = params_if_any j.params;
}
