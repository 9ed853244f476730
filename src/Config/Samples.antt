-- ===== src/Config/Samples.antt =====
-- Environments at which the services get a configuration or not.
use mathlib.Core.List.Perm
use media_forge.Prelude.{◌≡◌, ◌↔◌, refl, true, Option, none, some, List, pos, if◌then◌else◌}
use media_forge.Text.{Text, codes, ◌==◌, trim_space, trim_left, trim_right, is_space}
use media_forge.Float.{Float64}
use media_forge.Strconv.{atoi, digits, parse_bool}
use media_forge.Errors.{ok, err, plain}
use media_forge.Config.{Environment, env, env_int, env_bool, env_float, missing}
use media_forge.Config.Start.{HasRequired, load-HasRequired}
use media_forge.Gateway.Config as Gateway
use media_forge.Worker.Config as Worker

environment : Unit {0}
unfolding codes ◌==◌ trim_space trim_left trim_right is_space atoi digits parse_bool env env_int
    env_bool env_float missing Gateway.load Worker.load
environment = tt

abbrev no_float : Text → Option Float64
no_float s = none

abbrev in_order : List (Text × Text) → List (Text × Text)
in_order l = l

-- Every required variable set, and two that the worker reads as numbers, of which one is malformed.
abbrev full : Environment
full key =
    if key == codes "RABBITMQ_MAX_RETRIES"
    then some (codes "7")
    else if key == codes "RABBITMQ_PREFETCH"
    then some (codes "many")
    else some (codes "1")

abbrev blank : Environment
blank key = if key == codes "POSTGRES_DSN" then some (codes " ") else full key

loads :
    ((Worker.settings no_float in_order full).max_retries ≡ pos 7)
    × ((Worker.settings no_float in_order full).prefetch ≡ pos 16)
    × ((Worker.settings no_float in_order full).s3_use_ssl ≡ true)
    × (Worker.load no_float in_order full ≡ ok (Worker.settings no_float in_order full))
    × (Gateway.load no_float in_order blank
        ≡ err (plain (codes "missing required env: POSTGRES_DSN")))
unfolding environment
loads = (refl, refl, refl, refl, refl)

load-HasRequired_example :
    (((c : Gateway.Config) × (Gateway.load no_float in_order full ≡ ok c)) ↔ HasRequired full)
    × (((c : Worker.Config) × (Worker.load no_float in_order full ≡ ok c)) ↔ HasRequired full)
load-HasRequired_example = load-HasRequired no_float in_order (λ l. Perm.refl l) full
