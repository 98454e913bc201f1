-- ===== src/Base64.antt =====
-- The `base64` module of Python as the services use it: `b64encode`, `b64decode(validate=True)`
-- and their `urlsafe` versions. Decoding is the loop of `binascii.a2b_base64`.
pub mod RoundTrip
use pqc_grade_a.Base.{
  ℕ, suc, ◌+◌, ◌-◌, ◌*◌, ◌/◌, ◌%◌, Bool, true, false, ◌&&◌, Option, none, some, List, [], ◌∷◌, ltb,
  leb, ◌==◌, if◌then◌else◌, Bytes, Text, map, exists,
}

-- The two alphabets differ in their last two digits.
pub data Alphabet : Type 0 where
  standard url_safe : Alphabet

unfoldable pub digit62 : Alphabet → ℕ
digit62 standard = b'+'
digit62 url_safe = b'-'

unfoldable pub digit63 : Alphabet → ℕ
digit63 standard = b'/'
digit63 url_safe = b'_'

unfoldable pub digit : Alphabet → ℕ → ℕ
unfolding digit62 digit63
digit a v =
    if ltb v 26
    then v + 65
    else if ltb v 52
    then v + 71
    else if ltb v 62
    then v - 4
    else if v == 62
    then digit62 a
    else digit63 a

unfoldable pub value : Alphabet → ℕ → Option ℕ
unfolding digit62 digit63
value a c =
    if leb b'A' c && leb c b'Z'
    then some (c - 65)
    else if leb b'a' c && leb c b'z'
    then some (c - 71)
    else if leb b'0' c && leb c b'9'
    then some (c + 4)
    else if c == digit62 a
    then some 62
    else if c == digit63 a
    then some 63
    else none

unfoldable pub b64encode : Alphabet → Bytes → Text
unfolding digit
b64encode a [] = []
b64encode a (x ∷ []) = digit a (x / 4) ∷ digit a (x % 4 * 16) ∷ b'=' ∷ b'=' ∷ []
b64encode a (x ∷ y ∷ []) =
    digit a (x / 4) ∷ digit a (x % 4 * 16 + y / 16) ∷ digit a (y % 16 * 4) ∷ b'=' ∷ []
b64encode a (x ∷ y ∷ z ∷ rest) =
    digit a (x / 4)
    ∷ digit a (x % 4 * 16 + y / 16)
    ∷ digit a (y % 16 * 4 + z / 64)
    ∷ digit a (z % 64)
    ∷ b64encode a rest

-- The variables of the decoding loop.
pub record Quad : Type 0 where
  pub quad_pos : ℕ
  pub leftchar : ℕ
  pub pads : ℕ
  pub padding_started : Bool

abbrev pub start : Quad
start = record { quad_pos = 0; leftchar = 0; pads = 0; padding_started = false }

pub data Step : Type 0 where
  fail stop : Step
  go : Quad → Step
  emit : ℕ → Quad → Step

unfoldable pub pad_step : Bool → Bool → Quad → Step
pad_step strict last q =
    if strict && q.quad_pos == 0
    then fail
    else if leb 2 q.quad_pos && leb 4 (q.quad_pos + (q.pads + 1))
    then (if strict && (if last then false else true) then fail else stop)
    else go (record q {
      pads = if leb 2 q.quad_pos then q.pads + 1 else q.pads;
      padding_started = true;
    })

unfoldable pub digit_step : ℕ → Quad → Step
digit_step v q =
    if q.quad_pos == 0
    then go (record q { quad_pos = 1; leftchar = v; pads = 0 })
    else if q.quad_pos == 1
    then emit (q.leftchar * 4 + v / 16) (record q { quad_pos = 2; leftchar = v % 16; pads = 0 })
    else if q.quad_pos == 2
    then emit (q.leftchar * 16 + v / 4) (record q { quad_pos = 3; leftchar = v % 4; pads = 0 })
    else emit (q.leftchar * 64 + v) (record q { quad_pos = 0; leftchar = 0; pads = 0 })

unfoldable pub step : Alphabet → Bool → Bool → ℕ → Quad → Step
unfolding value pad_step digit_step
step a strict last c q = if c == b'=' then pad_step strict last q else elim (value a c) [
  | none ↦ if strict then fail else go q
  | some v ↦ if strict && q.padding_started then fail else digit_step v q
]

abbrev pub is_empty : Text → Bool
is_empty [] = true
is_empty (c ∷ cs) = false

abbrev pub push : ℕ → Option Bytes → Option Bytes
push b none = none
push b (some bs) = some (b ∷ bs)

-- `none` is `binascii.Error`.
unfoldable pub a2b : Alphabet → Bool → Text → Quad → Option Bytes
unfolding step
a2b a strict [] q = if q.quad_pos == 0 then some [] else none
a2b a strict (c ∷ cs) q = elim (step a strict (is_empty cs) c q) [
  | fail ↦ none
  | stop ↦ some []
  | go q' ↦ a2b a strict cs q'
  | emit b q' ↦ push b (a2b a strict cs q')
]

-- `b64decode(s, validate=True)`
unfoldable pub b64decode : Text → Option Bytes
unfolding a2b
b64decode s = a2b standard true s start

-- `s.translate(_urlsafe_decode_translation)`: `+` and `/` stay digits.
abbrev pub translate : ℕ → ℕ
translate c = if c == b'-' then b'+' else if c == b'_' then b'/' else c

abbrev pub not_ascii : Text → Bool
not_ascii s = exists (λ c. leb 128 c) s

-- `urlsafe_b64decode(s)` skips what is no digit, and takes ASCII only.
unfoldable pub urlsafe_b64decode : Text → Option Bytes
unfolding a2b
urlsafe_b64decode s = if not_ascii s then none else a2b standard false (map translate s) start
