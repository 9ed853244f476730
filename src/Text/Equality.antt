-- ===== src/Text/Equality.antt =====
-- The test `==` on texts decides equality.
use media_forge.Prelude.{◌≡◌, ◌≢◌, ◌↔◌, refl, true, false, [], ◌∷◌, arith, eqb_iff}
use media_forge.Text.{Text, ◌==◌}

pub eq_iff : (s t : Text) → (s == t ≡ true) ↔ (s ≡ t)
unfolding ◌==◌
eq_iff [] [] = (λ h. refl, λ h. refl)
eq_iff [] (d ∷ t) = ground arith
eq_iff (c ∷ s) [] = ground arith
eq_iff (c ∷ s) (d ∷ t) = ground (arith, eq_iff s t, eqb_iff c d)

pub eq_refl : (s : Text) → s == s ≡ true
eq_refl s = (eq_iff s s).1 refl

pub eq_false_of_ne : (s t : Text) → s ≢ t → s == t ≡ false
eq_false_of_ne s t h = ground (arith, eq_iff s t)
