-- ===== src/Gateway/Dial.antt =====
-- `dialWithRetry` of services/api-gateway/internal/broker/broker.go. `dial` is `amqp.Dial` of the URL,
-- over a state of its own; times are in milliseconds.
use media_forge.Prelude.{
  ℕ, zero, suc, ◌+◌, ◌*◌, ◌≤◌, ◌≡◌, ◌⊎◌, inl, inr, refl, ltb, arith, if◌then◌else◌,
}
use media_forge.Errors.{Error, Result, ok, err}

-- What a run did: the connection or the last error, the state that it left, the number of dials and
-- the time that it slept.
pub record Dialled (Connection : Type 0) (State : Type 0) : Type 0 where
  pub connection : Result Connection
  pub state : State
  pub dials : ℕ
  pub slept : ℕ

module _ {Connection State : Type 0} (dial : State → Result Connection × State) where
  abbrev pub after_sleep : ℕ → Dialled Connection State → Dialled Connection State
  after_sleep backoff d = record d { dials = suc d.dials; slept = backoff + d.slept }

  abbrev pub dialled_once : Result Connection × State → Dialled Connection State
  dialled_once (c, s) = record { connection = c; state = s; dials = 1; slept = 0 }

  abbrev pub doubled : ℕ → ℕ
  doubled backoff = if ltb backoff 5000 then backoff * 2 else backoff

  abbrev pub dial_next :
      ℕ → Result Connection × State → (State → Dialled Connection State) → Dialled Connection State
  dial_next backoff (ok c, s) rest = dialled_once (ok c, s)
  dial_next backoff (err e, s) rest = after_sleep backoff (rest s)

  -- One round of the loop and those after it; the number is that of the attempts after this one.
  unfoldable pub dial_from : ℕ → ℕ → State → Dialled Connection State
  dial_from zero backoff s = dialled_once (dial s)
  dial_from (suc left) backoff s = dial_next backoff (dial s) (dial_from left (doubled backoff))

  unfoldable pub dial_with_retry : State → Dialled Connection State
  dial_with_retry s = dial_from 11 250 s

  -- The time that a number of failures sleep, from a backoff on.
  abbrev worst : ℕ → ℕ → ℕ
  worst zero backoff = 0
  worst (suc left) backoff = backoff + worst left (doubled backoff)

  abbrev Connected : ℕ → ℕ → Dialled Connection State → Type 0
  Connected dials time d =
      (c : Connection) × (d.connection ≡ ok c) × (d.dials ≤ dials) × (d.slept ≤ time)

  abbrev GaveUp : ℕ → ℕ → Dialled Connection State → Type 0
  GaveUp dials time d = (e : Error) × (d.connection ≡ err e) × (d.dials ≡ dials) × (d.slept ≡ time)

  dialled_once-bounds :
      (r : Result Connection × State) → Connected 1 0 (dialled_once r) ⊎ GaveUp 1 0 (dialled_once r)
  dialled_once-bounds (ok c, s) = inl (c, refl, omega arith, omega arith)
  dialled_once-bounds (err e, s) = inr (e, refl, refl, refl)

  dial_next-bounds :
      (dials time backoff : ℕ) (r : Result Connection × State)
      (rest : State → Dialled Connection State)
      → ((s : State) → Connected dials time (rest s) ⊎ GaveUp dials time (rest s))
      → Connected (suc dials) (backoff + time) (dial_next backoff r rest)
        ⊎ GaveUp (suc dials) (backoff + time) (dial_next backoff r rest)
  dial_next-bounds dials time backoff (ok c, s) rest h = inl (c, refl, omega arith, omega arith)
  dial_next-bounds dials time backoff (err e, s) rest h = elim (h s) [
    | inl (c, p, q, r) ↦ inl (c, p, omega (arith, q), omega (arith, r))
    | inr (x, p, q, r) ↦ inr (x, p, omega (arith, q), omega (arith, r))
  ]

  dial_from-bounds :
      (left backoff : ℕ) (s : State)
      → Connected (suc left) (worst left backoff) (dial_from left backoff s)
        ⊎ GaveUp (suc left) (worst left backoff) (dial_from left backoff s)
  unfolding dial_from
  dial_from-bounds zero backoff s = dialled_once-bounds (dial s)
  dial_from-bounds (suc left) backoff s =
      dial_next-bounds (suc left) (worst left (doubled backoff)) backoff (dial s)
        (dial_from left (doubled backoff)) (dial_from-bounds left (doubled backoff))

  -- Dialling ends with a connection after 12 dials and 55.75 seconds of sleep at most, or with an error
  -- after just as many.
  pub dial_with_retry-bounds :
      (s : State)
      → ((c : Connection) × ((dial_with_retry s).connection ≡ ok c)
          × ((dial_with_retry s).dials ≤ 12)
          × ((dial_with_retry s).slept ≤ 55750))
        ⊎ ((e : Error) × ((dial_with_retry s).connection ≡ err e)
            × ((dial_with_retry s).dials ≡ 12)
            × ((dial_with_retry s).slept ≡ 55750))
  unfolding dial_with_retry
  dial_with_retry-bounds s = dial_from-bounds 11 250 s
