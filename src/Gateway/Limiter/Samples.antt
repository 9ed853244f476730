-- ===== src/Gateway/Limiter/Samples.antt =====
-- The limiter over a Redis that is a function from buckets to counts.
use media_forge.Prelude.{ℕ, suc, ◌≡◌, refl, Option, some, [], ◌∷◌, if◌then◌else◌}
use media_forge.Text.{Text, codes, ◌==◌}
use media_forge.Text.Equality.{eq_refl}
use media_forge.Strconv.{decimal_on, decimal}
use media_forge.Gateway.Limiter.{bucket, allow, passed, passed-count}

limiter : Unit {0}
unfolding codes ◌==◌ decimal_on decimal bucket allow passed
limiter = tt

abbrev Counts : Type 0
Counts = Text → ℕ

abbrev incr : Text → Counts → Option ℕ × Counts
incr name s = (some (suc (s name)), λ other. if other == name then suc (s name) else s other)

abbrev expire : Text → ℕ → Counts → Counts
expire name window s = s

abbrev fresh : Counts
fresh name = 0

bucket_test : bucket (codes "10.0.0.1") 42 ≡ codes "rl:10.0.0.1:42"
unfolding limiter
bucket_test = refl

-- Five calls in one minute with a limit of three.
three : passed incr expire 3 60 (codes "a") (120 ∷ 121 ∷ 130 ∷ 131 ∷ 179 ∷ []) fresh ≡ 3
unfolding limiter
three = refl

passed-count_example :
    passed incr expire 3 60 (codes "a") (120 ∷ 121 ∷ 130 ∷ 131 ∷ 179 ∷ []) fresh ≡ 3
passed-count_example =
    passed-count incr expire 3 60 (codes "a") (λ name s. s name)
      (λ name s. (refl, rw (eq_refl name) refl)) (λ name s. refl) 2
      (120 ∷ 121 ∷ 130 ∷ 131 ∷ 179 ∷ []) fresh (refl, (refl, (refl, (refl, (refl, tt)))))

abbrev index : ℕ
index = 12
