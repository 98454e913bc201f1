-- ===== src/Base64/RoundTrip.antt =====
-- Decoding gives back the bytes that were encoded, in either alphabet and either mode.
use mathlib.Core.Path.{ap₂}
use pqc_grade_a.Base.{
  ap, ℕ, ◌+◌, ◌*◌, ◌/◌, ◌%◌, ◌<◌, ◌≡◌, refl, ◌≢◌, Bool, true, false, some, [], ◌∷◌, arith, Bytes,
  Text, All, map, leb, exists,
}
use pqc_grade_a.Base64.{
  Alphabet, standard, url_safe, digit, value, b64encode, Quad, start, digit_step, step, a2b, push,
  b64decode, urlsafe_b64decode, is_empty, pad_step, translate, not_ascii,
}

abbrev pub IsByte : ℕ → Type 0
IsByte b = b < 256

pub value-digit : (a : Alphabet) (v : ℕ) → v < 64 → value a (digit a v) ≡ some v
unfolding value digit
value-digit standard v h = ground arith
value-digit url_safe v h = ground arith

pub digit-ne-pad : (a : Alphabet) (v : ℕ) → v < 64 → digit a v ≢ b'='
unfolding digit
digit-ne-pad standard v h = ground arith
digit-ne-pad url_safe v h = ground arith

module _ (a : Alphabet) (strict : Bool) where
  -- One digit outside the padding is one turn of the loop.
  step-digit :
      (last : Bool) (v : ℕ) (q : Quad)
      → v < 64
      → q.padding_started ≡ false
      → step a strict last (digit a v) q ≡ digit_step v q
  unfolding step
  step-digit last v q h e = ground (arith, value-digit a v h, digit-ne-pad a v h)

  abbrev quad : ℕ → ℕ → Quad
  quad pos left = record { quad_pos = pos; leftchar = left; pads = 0; padding_started = false }

  -- What the loop does with a digit at each of the four positions.
  a2b-first :
      (v l : ℕ) (cs : Text)
      → v < 64
      → a2b a strict (digit a v ∷ cs) (quad 0 l) ≡ a2b a strict cs (quad 1 v)
  unfolding a2b digit_step
  a2b-first v l cs h = rw (step-digit (is_empty cs) v (quad 0 l) h refl, a2b)

  a2b-second :
      (v l : ℕ) (cs : Text)
      → v < 64
      → a2b a strict (digit a v ∷ cs) (quad 1 l)
        ≡ push (l * 4 + v / 16) (a2b a strict cs (quad 2 (v % 16)))
  unfolding a2b digit_step
  a2b-second v l cs h = rw (step-digit (is_empty cs) v (quad 1 l) h refl, a2b)

  a2b-third :
      (v l : ℕ) (cs : Text)
      → v < 64
      → a2b a strict (digit a v ∷ cs) (quad 2 l)
        ≡ push (l * 16 + v / 4) (a2b a strict cs (quad 3 (v % 4)))
  unfolding a2b digit_step
  a2b-third v l cs h = rw (step-digit (is_empty cs) v (quad 2 l) h refl, a2b)

  a2b-fourth :
      (v l : ℕ) (cs : Text)
      → v < 64
      → a2b a strict (digit a v ∷ cs) (quad 3 l) ≡ push (l * 64 + v) (a2b a strict cs (quad 0 0))
  unfolding a2b digit_step
  a2b-fourth v l cs h = rw (step-digit (is_empty cs) v (quad 3 l) h refl, a2b)

  pads_after_one : (l : ℕ) → a2b a strict (b'=' ∷ b'=' ∷ []) (quad 2 l) ≡ some []
  unfolding a2b step pad_step
  pads_after_one l = ground arith

  pad_after_two : (l : ℕ) → a2b a strict (b'=' ∷ []) (quad 3 l) ≡ some []
  unfolding a2b step pad_step
  pad_after_two l = ground arith

  pub a2b-b64encode : (bs : Bytes) → All IsByte bs → a2b a strict (b64encode a bs) start ≡ some bs
  unfolding b64encode
  a2b-b64encode [] h = unfold a2b in refl
  a2b-b64encode (x ∷ []) h = rw (a2b-first (x / 4) 0 _ (omega arith)) (
      rw (a2b-second (x % 4 * 16) (x / 4) _ (omega arith))
        (rw (pads_after_one _) (ap (λ b. some (b ∷ [])) (omega arith))))
  a2b-b64encode (x ∷ y ∷ []) h = rw (a2b-first (x / 4) 0 _ (omega arith)) (
      rw (a2b-second (x % 4 * 16 + y / 16) (x / 4) _ (omega arith)) (
        rw (a2b-third (y % 16 * 4) _ _ (omega arith))
          (rw (pad_after_two _) (ap₂ (λ b c. some (b ∷ c ∷ [])) (omega arith) (omega arith)))))
  a2b-b64encode (x ∷ y ∷ z ∷ rest) h = rw (a2b-first (x / 4) 0 _ (omega arith)) (
      rw (a2b-second (x % 4 * 16 + y / 16) (x / 4) _ (omega arith)) (
        rw (a2b-third (y % 16 * 4 + z / 64) _ _ (omega arith)) (
          rw (a2b-fourth (z % 64) _ _ (omega arith)) (
            rw (a2b-b64encode rest h.1.1.1) (
              ap (λ bs. some bs)
                (three _ _ _ _ _ _ rest (omega arith) (omega arith) (omega arith)))))))
    where
      three :
          (b b' c c' d d' : ℕ) (ds : Bytes)
          → b ≡ b'
          → c ≡ c'
          → d ≡ d'
          → b ∷ c ∷ d ∷ ds ≡ b' ∷ c' ∷ d' ∷ ds
      three b b' c c' d d' ds p q r = cc

-- What the standard encoding writes, the strict decoder reads back.
pub b64decode-b64encode : (bs : Bytes) → All IsByte bs → b64decode (b64encode standard bs) ≡ some bs
unfolding b64decode
b64decode-b64encode bs h = a2b-b64encode standard true bs h

translate-digit : (v : ℕ) → v < 64 → translate (digit url_safe v) ≡ digit standard v
unfolding digit
translate-digit v h = ground arith

digit_ascii : (v : ℕ) → v < 64 → leb 128 (digit url_safe v) ≡ false
unfolding digit
digit_ascii v h = ground arith

-- The decoder's translation gives the standard encoding.
translate-b64encode :
    (bs : Bytes) → All IsByte bs → map translate (b64encode url_safe bs) ≡ b64encode standard bs
unfolding b64encode
translate-b64encode [] h = refl
translate-b64encode (x ∷ []) h =
    rw (translate-digit (x / 4) (omega arith), translate-digit (x % 4 * 16) (omega arith)) refl
translate-b64encode (x ∷ y ∷ []) h =
    rw
      (
        translate-digit (x / 4) (omega arith),
        translate-digit (x % 4 * 16 + y / 16) (omega arith),
        translate-digit (y % 16 * 4) (omega arith),
      )
      refl
translate-b64encode (x ∷ y ∷ z ∷ rest) h =
    rw
      (
        translate-digit (x / 4) (omega arith),
        translate-digit (x % 4 * 16 + y / 16) (omega arith),
        translate-digit (y % 16 * 4 + z / 64) (omega arith),
        translate-digit (z % 64) (omega arith),
        translate-b64encode rest h.1.1.1,
      )
      refl

pub b64encode_ascii : (bs : Bytes) → All IsByte bs → not_ascii (b64encode url_safe bs) ≡ false
unfolding b64encode exists
b64encode_ascii [] h = refl
b64encode_ascii (x ∷ []) h =
    rw (digit_ascii (x / 4) (omega arith), digit_ascii (x % 4 * 16) (omega arith)) refl
b64encode_ascii (x ∷ y ∷ []) h =
    rw
      (
        digit_ascii (x / 4) (omega arith),
        digit_ascii (x % 4 * 16 + y / 16) (omega arith),
        digit_ascii (y % 16 * 4) (omega arith),
      )
      refl
b64encode_ascii (x ∷ y ∷ z ∷ rest) h =
    rw
      (
        digit_ascii (x / 4) (omega arith),
        digit_ascii (x % 4 * 16 + y / 16) (omega arith),
        digit_ascii (y % 16 * 4 + z / 64) (omega arith),
        digit_ascii (z % 64) (omega arith),
      )
      (b64encode_ascii rest h.1.1.1)

pub urlsafe_b64decode-b64encode :
    (bs : Bytes) → All IsByte bs → urlsafe_b64decode (b64encode url_safe bs) ≡ some bs
unfolding urlsafe_b64decode
urlsafe_b64decode-b64encode bs h =
    rw (b64encode_ascii bs h, translate-b64encode bs h) (a2b-b64encode standard false bs h)
