-- ===== src/Config.antt =====
-- What both services read from their environment:
-- services/api-gateway/internal/config/config.go and services/worker-image/internal/config/config.go
-- have the same helpers, and the same check of required variables at the end of `Load`. An environment
-- is `os.LookupEnv`. `parse_float` is `strconv.ParseFloat` with 64 bits, and `shuffle` the order in
-- which the runtime visits a map.
pub mod Required
pub mod Start
mod Samples
use media_forge.Prelude.{
  ℕ, String, Bool, true, false, not, ◌&&◌, Option, none, some, List, [], ◌∷◌, ◌++◌, ℤ,
  if◌then◌else◌,
}
use media_forge.Text.{Text, codes, is_empty, trim_space}
use media_forge.Float.{Float64}
use media_forge.Strconv.{atoi, parse_bool}
use media_forge.Errors.{Error, plain, Result, ok, err}

abbrev pub Environment : Type 0
Environment = Text → Option Text

abbrev pub or_default {ℓ} : {A : Type ℓ} → A → Option A → A
or_default default none = default
or_default default (some a) = a

abbrev pub parsed {ℓ} : {A : Type ℓ} → (Text → Option A) → A → Option Text → A
parsed parse default none = default
parsed parse default (some v) = or_default default (parse v)

abbrev pub nonempty : Text → Option Text → Text
nonempty default none = default
nonempty default (some v) = if is_empty v then default else v

-- `env`, `envInt64` (which the worker calls `envInt`), `envBool` and `envFloat`
unfoldable pub env : Environment → Text → Text → Text
env e key default = nonempty default (e key)

unfoldable pub env_int : Environment → Text → ℤ → ℤ
env_int e key default = parsed atoi default (e key)

unfoldable pub env_bool : Environment → Text → Bool → Bool
env_bool e key default = parsed parse_bool default (e key)

unfoldable pub env_float : (Text → Option Float64) → Environment → Text → Float64 → Float64
env_float parse_float e key default = parsed parse_float default (e key)

abbrev pub is_blank : Text → Bool
is_blank v = is_empty (trim_space v)

unfoldable pub missing : List (Text × Text) → List Text
missing [] = []
missing ((key, v) ∷ rest) = let others = missing rest in if is_blank v then key ∷ others else others

-- `strings.Join` with ", "
abbrev pub join_more : List Text → Text
join_more [] = []
join_more (s ∷ rest) = codes ", " ++ (s ++ join_more rest)

abbrev pub join_keys : List Text → Text
join_keys [] = []
join_keys (s ∷ rest) = s ++ join_more rest

-- The end of `Load`, of the required variables with their values.
abbrev pub validated {ℓ} : {A : Type ℓ} → A → List Text → Result A
validated c [] = ok c
validated c (key ∷ keys) = err (plain (codes "missing required env: " ++ join_keys (key ∷ keys)))
