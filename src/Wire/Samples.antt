-- ===== src/Wire/Samples.antt =====
-- Messages at concrete inputs.
use media_forge.Prelude.{ℕ, ◌≡◌, refl, Option, none, some, [], ◌∷◌, pos, inr}
use media_forge.Text.{Text, codes, ◌==◌}
use media_forge.Float.{Float64, float_half}
use media_forge.Strconv.{atoi, digits, format_int}
use media_forge.Json.{
  Value, null, string, number, array, no_values, object, member, no_members, texts, fold_name,
  exact_field, field_of, into_struct,
}
use media_forge.Gateway.Contract.{Job, JobParams}
use media_forge.Gateway.Encode.{params_value, job_value}
use media_forge.Worker.Consume as Worker
use media_forge.Worker.Decode.{no_job, job_from}
use media_forge.Wire.{on_worker}
use media_forge.Wire.RoundTrip.{FitsParams, job_from-job_value}

messages : Unit {0}
unfolding codes ◌==◌ atoi digits format_int texts fold_name exact_field field_of into_struct
    params_value job_value job_from
messages = tt

abbrev same : ℕ → ℕ
same c = c

-- A float64 is written as one character here, of the number of its bits.
abbrev literal : Float64 → Text
literal f = f ∷ []

abbrev read_literal : Text → Option Float64
read_literal [] = none
read_literal (f ∷ rest) = some f

abbrev sharp : JobParams
sharp = record {
  resize_max_dim = pos 640;
  thumbnail_size = pos 0;
  resize_format = codes "png";
  quality = pos 0;
  blur_sigma = float_half;
}

abbrev job : Job
job = record {
  id = codes "j1";
  kind = codes "image";
  status = codes "pending";
  source_key = codes "uploads/j1/a.png";
  source_mime = codes "image/png";
  size_bytes = pos 120;
  operations = codes "resize" ∷ codes "blur" ∷ [];
  params = some sharp;
  attempt = pos 0;
}

abbrev read : Value → Option Worker.Job
read = job_from same read_literal

abbrev only : Text → Value → Value
only key v = object (member key v no_members)

-- Keys that name no field are skipped, and the case of a name does not matter, unless another field
-- has it exactly; a value of a wrong type is refused.
readings :
    (read null ≡ some no_job)
    × (read (only (codes "colour") (number (codes "7"))) ≡ some no_job)
    × (read (only (codes "JOB_ID") (string (codes "j2")))
        ≡ some (record no_job { id = codes "j2" }))
    × (read (only (codes "size_bytes") (string (codes "7"))) ≡ none)
    × (read (only (codes "size_bytes") (number (codes "1.5"))) ≡ none)
    × (read (only (codes "operations") (array no_values)) ≡ some no_job)
    × (read (string (codes "j1")) ≡ none)
unfolding messages
readings = (refl, refl, refl, refl, refl, refl, refl)

sharp_fits : FitsParams same literal read_literal sharp
sharp_fits = record {
  resize_max_dim = (refl, refl);
  thumbnail_size = (refl, refl);
  quality = (refl, refl);
  blur_sigma = inr (refl, refl);
}

params_fit : (p : JobParams) → some sharp ≡ some p → FitsParams same literal read_literal p
params_fit p e = let eq : sharp ≡ p = cc in rw (← eq) sharp_fits

job_from-job_value_example :
    job_from same read_literal (object (job_value literal job)) ≡ some (on_worker job)
unfolding messages
job_from-job_value_example =
    job_from-job_value same literal read_literal job (refl, refl) params_fit
