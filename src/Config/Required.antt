-- ===== src/Config/Required.antt =====
-- The check of required variables in services/api-gateway/internal/config/config.go and
-- services/worker-image/internal/config/config.go, whatever order the map is visited in.
use mathlib.Core.Logic.Or
use mathlib.Core.List.{Perm, Mem, mem-cons, not-mem-nil, mem-cons_self, mem-cons_of_mem}
use mathlib.Core.List.Perm
use media_forge.Prelude.{
  ◌≡◌, ◌↔◌, refl, sym, ap, ◌∙◌, false, Option, none, some, List, [], ◌∷◌, All, arith,
}
use media_forge.Text.{Text, trim_space, trim_left, trim_right}
use media_forge.Errors.{ok}
use media_forge.Config.{Environment, nonempty, env, is_blank, missing, validated}

abbrev pub IsFilled : Text × Text → Type 0
IsFilled v = is_blank v.1 ≡ false

IsFilled-of_mem : (v : Text × Text) (l : List (Text × Text)) → All IsFilled l → Mem v l → IsFilled v
IsFilled-of_mem v [] h m = absurd (not-mem-nil m)
IsFilled-of_mem v (x ∷ l) h m =
    Or.elim (hlevel) (mem-cons.0 m) (λ e. rw e h.0) (IsFilled-of_mem v l h.1)

All-of_mem : (l : List (Text × Text)) → ((v : Text × Text) → Mem v l → IsFilled v) → All IsFilled l
All-of_mem [] h = tt
All-of_mem (x ∷ l) h = (h x mem-cons_self, All-of_mem l (λ v m. h v (mem-cons_of_mem x m)))

IsFilled-Perm : (l l' : List (Text × Text)) → Perm l l' → All IsFilled l → All IsFilled l'
IsFilled-Perm l l' p h = All-of_mem l' (λ v m. IsFilled-of_mem v l h ((Perm.mem_iff p).1 m))

missing_none : (l : List (Text × Text)) → (missing l ≡ []) ↔ All IsFilled l
unfolding missing
missing_none [] = (λ e. tt, λ h. refl)
missing_none ((key, v) ∷ l) = ground (arith, missing_none l)

validated_iff {ℓ} :
    {A : Type ℓ} (c : A) (keys : List Text) → ((a : A) × (validated c keys ≡ ok a)) ↔ (keys ≡ [])
validated_iff c [] = (λ h. refl, λ e. (c, refl))
validated_iff c (key ∷ keys) = (λ h. absurd cc, λ e. absurd cc)

-- `Load` gives a configuration exactly if no required value is blank, in whatever order it looks at
-- them.
pub validated-missing {ℓ} :
    {A : Type ℓ} (c : A) (l l' : List (Text × Text))
    → Perm l' l
    → ((a : A) × (validated c (missing l') ≡ ok a)) ↔ All IsFilled l
validated-missing c l l' p = (
  λ h. IsFilled-Perm l' l p ((missing_none l').0 ((validated_iff c (missing l')).0 h)),
  λ h. (validated_iff c (missing l')).1 ((missing_none l').1 (IsFilled-Perm l l' (Perm.symm p) h)),
)

-- The environment has a value for the key that is not blank.
abbrev pub IsSetIn : Environment → Text → Type 0
IsSetIn e key = (v : Text) × (e key ≡ some v) × (is_blank v ≡ false)

is_blank-nonempty : (s : Text) → is_blank (nonempty [] (some s)) ≡ is_blank s
is_blank-nonempty [] = refl
is_blank-nonempty (c ∷ s) = refl

nonempty-IsSet :
    (o : Option Text)
    → (is_blank (nonempty [] o) ≡ false) ↔ ((v : Text) × (o ≡ some v) × (is_blank v ≡ false))
unfolding trim_space trim_left trim_right
nonempty-IsSet none = (λ h. absurd cc, λ (v, e, h). absurd cc)
nonempty-IsSet (some s) = (
  λ h. (s, refl, sym (is_blank-nonempty s) ∙ h),
  λ (v, e, h). let same : s ≡ v = cc in is_blank-nonempty s ∙ (ap is_blank same ∙ h),
)

pub env-IsSet : (e : Environment) (key : Text) → (is_blank (env e key []) ≡ false) ↔ IsSetIn e key
unfolding env
env-IsSet e key = nonempty-IsSet (e key)
