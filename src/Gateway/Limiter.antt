-- ===== src/Gateway/Limiter.antt =====
-- The rate limiter of services/api-gateway/internal/store/redis.go. Redis is not part of the
-- repository: `incr` and `expire` are its commands, with no value for an error of INCR; an error of
-- EXPIRE is dropped. Times are in seconds.
pub mod Bucket
mod Samples
use media_forge.Prelude.{
  ℕ, zero, suc, ◌+◌, ◌-◌, ◌/◌, ◌%◌, ◌≡◌, ◌∙◌, ap, inl, inr, refl, Bool, true, false, Option, none,
  some, List, [], ◌∷◌, ◌++◌, All, length, min, ltb, leb, eqb, arith, if◌then◌else◌, Bool-cases,
}
use media_forge.Text.{Text, codes}
use media_forge.Strconv.{decimal}

unfoldable pub bucket : Text → ℕ → Text
bucket key window_index = codes "rl:" ++ (key ++ (codes ":" ++ decimal window_index))

module _ {State : Type 0} (incr : Text → State → Option ℕ × State)
    (expire : Text → ℕ → State → State) (limit window : ℕ) (key : Text) where
  abbrev pub answer_of : Text → Option ℕ → State → Option Bool × State
  answer_of name none s = (none, s)
  answer_of name (some n) s = (some (leb n limit), if eqb n 1 then expire name window s else s)

  -- `Allow` at a time, with no value where it returns true and an error.
  unfoldable pub allow : ℕ → State → Option Bool × State
  allow unix s =
      let name = bucket key (unix / window) in let (n, s') = incr name s in answer_of name n s'

  -- How many of the calls at the given times get through; an error lets its call through.
  abbrev pub passes : Option Bool → ℕ
  passes none = 1
  passes (some true) = 1
  passes (some false) = 0

  unfoldable pub passed : List ℕ → State → ℕ
  passed [] s = 0
  passed (unix ∷ rest) s = let (ok, s') = allow unix s in passes ok + passed rest s'

  module _ (count : Text → State → ℕ)
      (incr_adds : (name : Text) (s : State)
        → ((incr name s).0 ≡ some (suc (count name s)))
          × (count name (incr name s).1 ≡ suc (count name s)))
      (expire_keeps : (name : Text) (s : State)
        → count name (expire name window s) ≡ count name s) where
    answer_of-count :
        (name : Text) (n : ℕ) (o : Option ℕ) (s : State)
        → o ≡ some (suc n)
        → count name s ≡ suc n
        → ((answer_of name o s).0 ≡ some (leb (suc n) limit))
          × (count name (answer_of name o s).1 ≡ suc n)
    answer_of-count name n none s e c = absurd cc
    answer_of-count name n (some m) s e c =
        let same : m ≡ suc n = cc in
        elim (Bool-cases (eqb m 1)) [
          | inl one ↦ (ap (λ k. some (leb k limit)) same, rw one (expire_keeps name s ∙ c))
          | inr more ↦ (ap (λ k. some (leb k limit)) same, rw more c)
        ]

    abbrev name_at : ℕ → Text
    name_at index = bucket key index

    allow-count :
        (index unix : ℕ) (s : State)
        → unix / window ≡ index
        → ((allow unix s).0 ≡ some (leb (suc (count (name_at index) s)) limit))
          × (count (name_at index) (allow unix s).1 ≡ suc (count (name_at index) s))
    unfolding allow
    allow-count index unix s e = rw e (
        answer_of-count (name_at index) (count (name_at index) s) (incr (name_at index) s).0
          (incr (name_at index) s).1 (incr_adds (name_at index) s).0
          (incr_adds (name_at index) s).1)

    passes-leb :
        (n k rest : ℕ)
        → rest ≡ min k (limit - suc n)
        → passes (some (leb (suc n) limit)) + rest ≡ min (suc k) (limit - n)
    passes-leb n k rest e = ground arith

    -- Where INCR does not fail and counts the calls of a bucket, and EXPIRE drops no bucket within its
    -- window, the calls of one client in one window that get through are as many as the limit has
    -- left, and no more.
    pub passed-count :
        (index : ℕ) (times : List ℕ) (s : State)
        → All (λ unix. unix / window ≡ index) times
        → passed times s ≡ min (length times) (limit - count (name_at index) s)
    unfolding passed
    passed-count index [] s h = omega arith
    passed-count index (unix ∷ times) s h =
        let (answer, counted) = allow-count index unix s h.0 in
        let rest = passed-count index times (allow unix s).1 h.1 in
        rw answer (
          passes-leb (count (name_at index) s) (length times) (passed times (allow unix s).1)
            (rw counted at rest))
