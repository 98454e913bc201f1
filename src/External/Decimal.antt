-- ===== src/External/Decimal.antt =====
-- `str` of a number, and what its digits determine.
use pqc_grade_a.Base.{
  ℕ, zero, suc, ◌+◌, ◌-◌, ◌*◌, ◌/◌, ◌%◌, ◌≤◌, ◌<◌, ◌≡◌, refl, sym, ap, ◌∙◌, List, [], ◌∷◌, ◌++◌,
  Text, ltb, if◌then◌else◌, length, length-append, All, arith, inl, inr, Bool-cases,
}

pub All-append : (P : ℕ → Type 0) (xs ys : List ℕ) → All P xs → All P ys → All P (xs ++ ys)
All-append P [] ys h k = k
All-append P (x ∷ xs) ys h k = (h.0, All-append P xs ys h.1 k)

-- A round for each digit; one more than the number is enough.
unfoldable pub digits : ℕ → ℕ → Text
digits zero n = []
digits (suc f) n =
    let higher = digits f (n / 10) in
    if ltb n 10 then (b'0' + n) ∷ [] else higher ++ (b'0' + n % 10) ∷ []

unfoldable pub decimal : ℕ → Text
unfolding digits
decimal n = digits (suc n) n

-- The number that digits spell.
value : ℕ → Text → ℕ
value n [] = n
value n (c ∷ s) = value (n * 10 + (c - b'0')) s

value-append : (n : ℕ) (s : Text) (c : ℕ) → value n (s ++ c ∷ []) ≡ value n s * 10 + (c - b'0')
unfolding value
value-append n [] c = refl
value-append n (d ∷ s) c = value-append (n * 10 + (d - b'0')) s c

value-digits : (f n : ℕ) → n < f → value 0 (digits f n) ≡ n
unfolding digits value
value-digits zero n h = absurd (omega arith)
value-digits (suc f) n h = elim (Bool-cases (ltb n 10)) [
  | inl e ↦ rw e (omega arith)
  | inr e ↦
      rw
        (
          e,
          value-append 0 (digits f (n / 10)) (b'0' + n % 10),
          value-digits f (n / 10) (ground arith),
        )
        (ground arith)
]

-- Different numbers have different digits.
pub decimal-injective : (m n : ℕ) → decimal m ≡ decimal n → m ≡ n
unfolding decimal
decimal-injective m n h =
    sym (value-digits (suc m) m (omega arith))
    ∙ ap (value 0) h
    ∙ value-digits (suc n) n (omega arith)

digits_one : (f n : ℕ) → n < 10 → length (digits f n) ≤ 1
unfolding digits
digits_one zero n h = omega arith
digits_one (suc f) n h = ground arith

-- One digit more for a number ten times as large.
digits_more :
    (b k : ℕ)
    → ((f n : ℕ) → n < b → length (digits f n) ≤ k)
    → (f n : ℕ) → n < 10 * b
    → length (digits f n) ≤ k + 1
unfolding digits
digits_more b k below zero n h = omega arith
digits_more b k below (suc f) n h = elim (Bool-cases (ltb n 10)) [
  | inl e ↦ rw e (omega arith)
  | inr e ↦
      rw (e, length-append (digits f (n / 10)) ((b'0' + n % 10) ∷ []))
        (omega (arith, below f (n / 10) (omega arith)))
]

-- Numbers below 10000 have four digits at most.
pub length-decimal : (n : ℕ) → n < 10000 → length (decimal n) ≤ 4
unfolding decimal
length-decimal n h =
    digits_more 1000 3 (digits_more 100 2 (digits_more 10 1 digits_one)) (suc n) n h

module _ (P : ℕ → Type 0) (digit : (d : ℕ) → d < 10 → P (b'0' + d)) where
  digits-All : (f n : ℕ) → All P (digits f n)
  unfolding digits
  digits-All zero n = tt
  digits-All (suc f) n = elim (Bool-cases (ltb n 10)) [
    | inl e ↦ rw e (digit n (ground arith), tt)
    | inr e ↦ rw e (
        All-append P (digits f (n / 10)) ((b'0' + n % 10) ∷ []) (digits-All f (n / 10))
          (digit (n % 10) (omega arith), tt))
  ]

  -- Every character is a digit.
  pub decimal-All : (n : ℕ) → All P (decimal n)
  unfolding decimal
  decimal-All n = digits-All (suc n) n

-- There is a digit.
pub decimal_filled : (n : ℕ) → 0 < length (decimal n)
unfolding decimal digits
decimal_filled n = elim (Bool-cases (ltb n 10)) [
  | inl e ↦ rw e (omega arith)
  | inr e ↦ rw (e, length-append (digits n (n / 10)) ((b'0' + n % 10) ∷ [])) (omega arith)
]
