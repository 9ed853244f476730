-- ===== src/Worker/Amqp.antt =====
-- The headers of a delivery, and `deathCount` of services/worker-image/internal/broker/broker.go.
-- `other` stands for a header value of any type that the code does not look into.
use media_forge.Prelude.{Option, none, some, ℤ, pos, if◌then◌else◌}
use media_forge.Text.{Text, codes, ◌==◌}

mutual
  pub data Field : Type 0 where
    int64 : ℤ → Field
    text : Text → Field
    other : Field
    array : Fields → Field
    table : Table → Field

  pub data Fields : Type 0 where
    nil : Fields
    cons : Field → Fields → Fields

  pub data Table : Type 0 where
    empty : Table
    entry : Text → Field → Table → Table

-- `h[key]`
unfoldable pub get : Table → Text → Option Field
unfolding ◌==◌
get empty key = none
get (entry k v h) key = if k == key then some v else get h key

abbrev count_of : Option Field → ℤ
count_of (some (int64 c)) = c
count_of _ = pos 0

pub first_death : Option Field → ℤ
unfolding get codes
first_death (some (array (cons (table first) rest))) = count_of (get first (codes "count"))
first_death _ = pos 0

-- The number of earlier dead-letterings, 0 where the header is missing or has another shape.
unfoldable pub death_count : Table → ℤ
unfolding get codes first_death
death_count h = first_death (get h (codes "x-death"))
