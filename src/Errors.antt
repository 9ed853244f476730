-- ===== src/Errors.antt =====
-- Errors of Go, as the services use them: messages, `fmt.Errorf("…: %w", err)`, and
-- `Permanent` of services/worker-image/internal/broker/broker.go.
use media_forge.Prelude.{Bool, true, false, ◌++◌}
use media_forge.Text.{Text, codes}

pub data Error : Type 0 where
  plain : Text → Error
  wrapped : Text → Error → Error
  permanent : Error → Error

-- `err.Error()`
unfoldable pub message : Error → Text
unfolding codes
message (plain text) = text
message (wrapped context err) = context ++ codes ": " ++ message err
message (permanent err) = message err

-- `errors.As(err, &perm)`, which looks through what wraps.
unfoldable pub is_permanent : Error → Bool
is_permanent (plain text) = false
is_permanent (wrapped context err) = is_permanent err
is_permanent (permanent err) = true

-- A value, or an error that is not nil.
pub data Result {ℓ} (A : Type ℓ) : Type ℓ where
  ok : A → Result A
  err : Error → Result A

infixl 5 ◌>>=◌
abbrev pub ◌>>=◌ {ℓ κ} : {A : Type ℓ} {B : Type κ} → Result A → (A → Result B) → Result B
ok a >>= f = f a
err e >>= f = err e
