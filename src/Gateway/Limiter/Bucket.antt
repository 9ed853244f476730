-- ===== src/Gateway/Limiter/Bucket.antt =====
-- The names of the limiter's buckets, in services/api-gateway/internal/store/redis.go.
use media_forge.Prelude.{ℕ, ◌≡◌, refl, [], ◌∷◌, ◌++◌, arith}
use media_forge.Text.{Text, codes}
use media_forge.Strconv.{decimal}
use media_forge.Strconv.Decimal.{AllDigits, decimal-AllDigits, decimal-injective}
use media_forge.Gateway.Form.Names.{Without}
use media_forge.Gateway.Limiter.{bucket}

AllDigits-Without : (s : Text) → AllDigits s → Without b':' s
AllDigits-Without [] h = tt
AllDigits-Without (c ∷ s) h = (λ e. ground (arith, h.0, e), AllDigits-Without s h.1)

Without-not : (c : ℕ) (s t : Text) → Without c (s ++ (c ∷ t)) → ⊥
Without-not c [] t h = h.0 refl
Without-not c (d ∷ s) t h = Without-not c s t h.1

split_at_last :
    (c : ℕ) (s s' t t' : Text)
    → Without c t
    → Without c t'
    → s ++ (c ∷ t) ≡ s' ++ (c ∷ t')
    → (s ≡ s') × (t ≡ t')
split_at_last c [] [] t t' h h' e = (refl, cc)
split_at_last c [] (d ∷ s') t t' h h' e =
    let rest : t ≡ s' ++ (c ∷ t') = cc in absurd (Without-not c s' t' (rw rest at h))
split_at_last c (d ∷ s) [] t t' h h' e =
    let rest : t' ≡ s ++ (c ∷ t) = cc in absurd (Without-not c s t (rw rest at h'))
split_at_last c (d ∷ s) (d' ∷ s') t t' h h' e =
    let (p, q) = split_at_last c s s' t t' h h' cc in (cc, q)

-- Two clients, or two windows of a client, never share a bucket.
bucket-injective :
    (key key' : Text) (index index' : ℕ)
    → bucket key index ≡ bucket key' index'
    → (key ≡ key') × (index ≡ index')
unfolding bucket codes
bucket-injective key key' index index' e =
    let (p, q) =
      split_at_last b':' key key' (decimal index) (decimal index')
        (AllDigits-Without (decimal index) (decimal-AllDigits index))
        (AllDigits-Without (decimal index') (decimal-AllDigits index')) cc in
    (p, decimal-injective index index' q)
