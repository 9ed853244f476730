-- ===== src/Strconv/Decimal.antt =====
-- The decimal form of an integer is read back by `Atoi` of the package `strconv`.
use media_forge.Prelude.{
  ℕ, zero, suc, ◌+◌, ◌-◌, ◌*◌, ◌/◌, ◌%◌, ◌<◌, ◌≡◌, ◌≢◌, inl, inr, refl, sym, ap, ◌∙◌, true, Option,
  some, [], ◌∷◌, All, ℤ, pos, negsuc, leℤ, max_int, ltb, arith, Bool-cases,
}
use media_forge.Text.{Text}
use media_forge.Strconv.{
  is_digit, digits, unsigned, as_positive, atoi, decimal_on, decimal, format_int,
}

digits-step :
    (n k : ℕ) (acc : Text) → digits ((b'0' + n % 10) ∷ acc) k ≡ digits acc (k * 10 + n % 10)
unfolding digits
digits-step n k acc =
    let is : is_digit (b'0' + n % 10) ≡ true = ground arith in
    let same : k * 10 + (b'0' + n % 10 - b'0') ≡ k * 10 + n % 10 = omega arith in
    rw is (ap (digits acc) same)

digits-decimal_on :
    (fuel n : ℕ) (acc : Text) → n < fuel → digits (decimal_on fuel n acc) 0 ≡ digits acc n
unfolding decimal_on
digits-decimal_on zero n acc h = absurd (omega (arith, h))
digits-decimal_on (suc fuel) n acc h = elim (Bool-cases (ltb n 10)) [
  | inl small ↦
      let same : 0 * 10 + n % 10 ≡ n = ground (arith, small) in
      rw small (digits-step n 0 acc ∙ ap (digits acc) same)
  | inr large ↦
      let same : n / 10 * 10 + n % 10 ≡ n = omega arith in
      rw large (
        digits-decimal_on fuel (n / 10) ((b'0' + n % 10) ∷ acc) (ground (arith, large, h))
        ∙ (digits-step n (n / 10) acc ∙ ap (digits acc) same))
]

digits-decimal : (n : ℕ) → digits (decimal n) 0 ≡ some n
unfolding decimal
digits-decimal n = digits-decimal_on (suc n) n [] (omega arith) ∙ (unfold digits in refl)

abbrev pub AllDigits : Text → Type 0
AllDigits s = All (λ c. is_digit c ≡ true) s

decimal_on-AllDigits : (fuel n : ℕ) (acc : Text) → AllDigits acc → AllDigits (decimal_on fuel n acc)
unfolding decimal_on
decimal_on-AllDigits zero n acc h = h
decimal_on-AllDigits (suc fuel) n acc h =
    let digit : is_digit (b'0' + n % 10) ≡ true = ground arith in
    elim (Bool-cases (ltb n 10)) [
      | inl small ↦ rw small (digit, h)
      | inr large ↦ rw large (decimal_on-AllDigits fuel (n / 10) ((b'0' + n % 10) ∷ acc) (digit, h))
    ]

pub decimal-AllDigits : (n : ℕ) → AllDigits (decimal n)
unfolding decimal
decimal-AllDigits n = decimal_on-AllDigits (suc n) n [] tt

decimal_on_nonempty : (fuel n c : ℕ) (acc : Text) → decimal_on fuel n (c ∷ acc) ≢ []
unfolding decimal_on
decimal_on_nonempty zero n c acc e = cc
decimal_on_nonempty (suc fuel) n c acc e = elim (Bool-cases (ltb n 10)) [
  | inl small ↦ let bad : (b'0' + n % 10) ∷ (c ∷ acc) ≡ [] = rw small at e in absurd cc
  | inr large ↦ decimal_on_nonempty fuel (n / 10) (b'0' + n % 10) (c ∷ acc) (rw large at e)
]

decimal_nonempty : (n : ℕ) → decimal n ≢ []
unfolding decimal decimal_on
decimal_nonempty n e = elim (Bool-cases (ltb n 10)) [
  | inl small ↦ let bad : (b'0' + n % 10) ∷ [] ≡ [] = rw small at e in absurd cc
  | inr large ↦ decimal_on_nonempty n (n / 10) (b'0' + n % 10) [] (rw large at e)
]

pub decimal-injective : (m n : ℕ) → decimal m ≡ decimal n → m ≡ n
decimal-injective m n e =
    let same : some m ≡ some n =
      sym (digits-decimal m) ∙ (ap (λ s. digits s 0) e ∙ digits-decimal n) in
    cc

unsigned-digits : (s : Text) (o : Option ℕ) → s ≢ [] → digits s 0 ≡ o → unsigned s ≡ o
unsigned-digits [] o ne h = absurd (ne refl)
unsigned-digits (c ∷ s) o ne h = h

pub unsigned-decimal : (n : ℕ) → unsigned (decimal n) ≡ some n
unsigned-decimal n = unsigned-digits (decimal n) (some n) (decimal_nonempty n) (digits-decimal n)

atoi-AllDigits : (s : Text) → AllDigits s → s ≢ [] → atoi s ≡ as_positive (unsigned s)
unfolding atoi
atoi-AllDigits [] h ne = absurd (ne refl)
atoi-AllDigits (c ∷ s) h ne = ground (arith, h.0)

-- An int of 64 bits is read back from its decimal form.
pub atoi-format_int :
    (n : ℤ)
    → leℤ (negsuc max_int) n ≡ true
    → leℤ n (pos max_int) ≡ true
    → atoi (format_int n) ≡ some n
unfolding format_int
atoi-format_int (pos n) low high =
    atoi-AllDigits (decimal n) (decimal-AllDigits n) (decimal_nonempty n)
    ∙ rw (unsigned-decimal n, high) refl
atoi-format_int (negsuc n) low high = (unfold atoi in rw (unsigned-decimal (suc n)) (rw low refl))
