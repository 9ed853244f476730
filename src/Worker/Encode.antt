-- ===== src/Worker/Encode.antt =====
-- What `json.Marshal` makes of an event of services/worker-image/internal/broker/broker.go, by its
-- tags, and what specs/schemas/event.schema.json asks of it.
use media_forge.Prelude.{
  ℕ, Bool, true, false, not, ◌&&◌, ◌||◌, Option, none, some, List, [], ◌∷◌, pos, leb,
}
use media_forge.Text.{Text, codes, ◌==◌, is_empty}
use media_forge.Strconv.{unsigned}
use media_forge.Json.{Value, number, string, Members, no_members, member, integer, unless_empty}
use media_forge.Worker.Services.{Event}

unfoldable pub event_value : Event → Members
event_value e = member (codes "job_id") (string e.job_id) (
    member (codes "kind") (string e.kind) (
      member (codes "status") (string e.status) (
        unless_empty (is_empty e.message) (codes "message") (string e.message) (
          member (codes "progress") (integer (pos e.progress)) (
            unless_empty (is_empty e.artifact) (codes "artifact") (string e.artifact)
              (member (codes "ts") (integer (pos e.timestamp)) no_members))))))

-- The type of a property: a text, one of some texts, or an integer from 0 on, with its maximum.
pub data Rule : Type 0 where
  any_text : Rule
  one_of : List Text → Rule
  natural : Option ℕ → Rule

pub record Property : Type 0 where
  pub key : Text
  pub rule : Rule
  pub required : Bool

abbrev pub property : Text → Rule → Bool → Property
property key rule required = record { key = key; rule = rule; required = required }

unfoldable pub event_schema : List Property
event_schema =
    property (codes "job_id") any_text true
    ∷ property (codes "kind") (one_of (codes "image" ∷ codes "ocr" ∷ [])) true
    ∷ property (codes "status")
        (one_of (codes "pending" ∷ codes "processing" ∷ codes "completed" ∷ codes "failed" ∷ []))
        true
    ∷ property (codes "message") any_text false
    ∷ property (codes "progress") (natural (some 100)) true
    ∷ property (codes "artifact") any_text false
    ∷ property (codes "ts") (natural none) true
    ∷ []

abbrev pub is_among : Text → List Text → Bool
is_among s [] = false
is_among s (t ∷ rest) = t == s || is_among s rest

abbrev pub is_at_most : Option ℕ → Option ℕ → Bool
is_at_most max none = false
is_at_most none (some n) = true
is_at_most (some max) (some n) = leb n max

-- Whether a value has the type of a property.
abbrev pub fits : Rule → Value → Bool
fits any_text (string s) = true
fits (one_of texts) (string s) = is_among s texts
fits (natural max) (number s) = is_at_most max (unsigned s)
fits rule value = false

-- A value under a key that is no property does not fit.
unfoldable pub fits_in : List Property → Text → Value → Bool
fits_in [] key value = false
fits_in (p ∷ rest) key value = (p.key == key && fits p.rule value) || fits_in rest key value

unfoldable pub all_fit : List Property → Members → Bool
unfolding fits_in
all_fit schema no_members = true
all_fit schema (member key value rest) = fits_in schema key value && all_fit schema rest

unfoldable pub has_member : Text → Members → Bool
has_member key no_members = false
has_member key (member k value rest) = k == key || has_member key rest

unfoldable pub has_required : List Property → Members → Bool
unfolding has_member
has_required [] ms = true
has_required (p ∷ rest) ms = (not p.required || has_member p.key ms) && has_required rest ms

-- The object has every required member, and each of its members is a property and has its type.
abbrev pub conforms : List Property → Members → Bool
conforms schema ms = all_fit schema ms && has_required schema ms
