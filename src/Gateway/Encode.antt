-- ===== src/Gateway/Encode.antt =====
-- What `json.Marshal` makes of the job of services/api-gateway/internal/media/contract.go, by its tags.
-- `format_float` is how a float64 is written. The times of a job that the gateway publishes are zero.
use media_forge.Prelude.{Bool, true, false, Option, none, some, List, [], ◌∷◌, ℤ, pos, negsuc, eqb}
use media_forge.Text.{Text, codes, is_empty}
use media_forge.Float.{Float64, magnitude_bits}
use media_forge.Json.{
  string, number, array, object, Members, no_members, member, integer, strings, unless_empty,
}
use media_forge.Gateway.Contract.{Job, JobParams}

abbrev pub is_zero : ℤ → Bool
is_zero (pos n) = eqb n 0
is_zero (negsuc n) = false

abbrev pub is_nil : List Text → Bool
is_nil [] = true
is_nil (op ∷ ops) = false

-- `f == 0` of a float64
abbrev pub is_zero_float : Float64 → Bool
is_zero_float f = eqb (magnitude_bits f) 0

module _ (format_float : Float64 → Text) where
  unfoldable pub params_value : JobParams → Members
  params_value p =
      unless_empty (is_zero p.resize_max_dim) (codes "resize_max_dim") (integer p.resize_max_dim) (
        unless_empty (is_zero p.thumbnail_size) (codes "thumbnail_size") (integer p.thumbnail_size)
          (unless_empty (is_empty p.resize_format) (codes "resize_format") (string p.resize_format)
            (unless_empty (is_zero p.quality) (codes "quality") (integer p.quality) (
              unless_empty (is_zero_float p.blur_sigma) (codes "blur_sigma")
                (number (format_float p.blur_sigma)) no_members))))

  abbrev pub with_params : Option JobParams → Members → Members
  with_params none rest = rest
  with_params (some p) rest = member (codes "params") (object (params_value p)) rest

  unfoldable pub job_value : Job → Members
  job_value j = member (codes "job_id") (string j.id) (
      member (codes "kind") (string j.kind) (
        member (codes "status") (string j.status) (
          member (codes "source_key") (string j.source_key) (
            member (codes "source_mime") (string j.source_mime) (
              member (codes "size_bytes") (integer j.size_bytes) (
                unless_empty (is_nil j.operations) (codes "operations")
                  (array (strings j.operations))
                  (with_params j.params (
                    member (codes "attempt") (integer j.attempt) (
                      member (codes "created_at") (string (codes "0001-01-01T00:00:00Z")) (
                        member (codes "updated_at") (string (codes "0001-01-01T00:00:00Z"))
                          no_members))))))))))
