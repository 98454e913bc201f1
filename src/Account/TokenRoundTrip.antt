-- ===== src/Account/TokenRoundTrip.antt =====
-- An access token that was minted, and how it decodes.
use pqc_grade_a.Base.{
  ℕ, suc, ◌+◌, ◌*◌, ◌/◌, ◌%◌, ◌<◌, ◌≡◌, ◌≢◌, refl, true, false, some, [], ◌∷◌, ◌++◌, Text, Bytes,
  ◌==◌, leb, All, arith, length, exists, exists-append,
}
use mathlib.Core.List.{append_assoc}
use pqc_grade_a.Base64.{b64encode, url_safe, digit, digit62, digit63}
use pqc_grade_a.Base64.RoundTrip.{IsByte, digit-ne-pad, urlsafe_b64decode-b64encode}
use pqc_grade_a.Exec.{ok}
use pqc_grade_a.Account.AccessTokens.{
  TokenSigner, ClaimsJson, or_drop, rstrip, repeat, b64url, missing_pads, b64url_decode, split,
  signing_input, mint, current, claims_of, decode,
}

-- What is relied on of the signer and of the JSON of claims.
pub record TokenLaws (signer : TokenSigner) (json : ClaimsJson) : Type 0 where
  pub verifies : (m : Bytes) → signer.verify m (signer.sign m) ≡ true
  pub signature_bytes : (m : Bytes) → All IsByte (signer.sign m)
  pub header_bytes : All IsByte json.header
  pub payload_bytes :
      (user session issued expires : ℕ) → All IsByte (json.dumps user session issued expires)
  pub loads_back :
      (user session issued expires : ℕ)
      → json.loads (json.dumps user session issued expires)
        ≡ some (record { user_id = user; session_id = session; expires_at = expires })

or_drop_kept : (pad c : ℕ) (s : Text) → (c == pad) ≡ false → or_drop pad c s ≡ c ∷ s
or_drop_kept pad c [] h = rw h refl
or_drop_kept pad c (d ∷ s) h = refl

rstrip-cons : (pad c : ℕ) (s : Text) → (c == pad) ≡ false → rstrip pad (c ∷ s) ≡ c ∷ rstrip pad s
unfolding rstrip
rstrip-cons pad c s h = or_drop_kept pad c (rstrip pad s) h

rstrip-digit :
    (v : ℕ) (s : Text)
    → v < 64
    → rstrip b'=' (digit url_safe v ∷ s) ≡ digit url_safe v ∷ rstrip b'=' s
rstrip-digit v s h =
    rstrip-cons b'=' (digit url_safe v) s (ground (arith, digit-ne-pad url_safe v h))

rstrip_pads :
    (rstrip b'=' [] ≡ []) × (rstrip b'=' (b'=' ∷ []) ≡ []) × (rstrip b'=' (b'=' ∷ b'=' ∷ []) ≡ [])
unfolding rstrip
rstrip_pads = (refl, refl, refl)

-- The encoding without its padding.
bare : Bytes → Text
bare [] = []
bare (x ∷ []) = digit url_safe (x / 4) ∷ digit url_safe (x % 4 * 16) ∷ []
bare (x ∷ y ∷ []) =
    digit url_safe (x / 4) ∷ digit url_safe (x % 4 * 16 + y / 16) ∷ digit url_safe (y % 16 * 4) ∷ []
bare (x ∷ y ∷ z ∷ rest) =
    digit url_safe (x / 4)
    ∷ digit url_safe (x % 4 * 16 + y / 16)
    ∷ digit url_safe (y % 16 * 4 + z / 64)
    ∷ digit url_safe (z % 64)
    ∷ bare rest

rstrip-b64encode : (bs : Bytes) → All IsByte bs → rstrip b'=' (b64encode url_safe bs) ≡ bare bs
unfolding b64encode bare
rstrip-b64encode [] h = rstrip_pads.0
rstrip-b64encode (x ∷ []) h =
    rw
      (
        rstrip-digit (x / 4) _ (omega (arith, h.0)),
        rstrip-digit (x % 4 * 16) _ (omega arith),
        rstrip_pads.2,
      )
      refl
rstrip-b64encode (x ∷ y ∷ []) h =
    rw
      (
        rstrip-digit (x / 4) _ (omega (arith, h.0)),
        rstrip-digit (x % 4 * 16 + y / 16) _ (omega (arith, h.1.0)),
        rstrip-digit (y % 16 * 4) _ (omega arith),
        rstrip_pads.1,
      )
      refl
rstrip-b64encode (x ∷ y ∷ z ∷ rest) h =
    rw
      (
        rstrip-digit (x / 4) _ (omega (arith, h.0)),
        rstrip-digit (x % 4 * 16 + y / 16) _ (omega (arith, h.1.0)),
        rstrip-digit (y % 16 * 4 + z / 64) _ (omega (arith, h.1.1.0)),
        rstrip-digit (z % 64) _ (omega arith),
        rstrip-b64encode rest h.1.1.1,
      )
      refl

pads_again : (n : ℕ) → missing_pads (suc (suc (suc (suc n)))) ≡ missing_pads n
pads_again n = omega arith

-- The decoder puts the padding back.
bare-padded :
    (bs : Bytes) → bare bs ++ repeat b'=' (missing_pads (length (bare bs))) ≡ b64encode url_safe bs
unfolding b64encode bare repeat
bare-padded [] = refl
bare-padded (x ∷ []) = refl
bare-padded (x ∷ y ∷ []) = refl
bare-padded (x ∷ y ∷ z ∷ rest) = rw (pads_again (length (bare rest)), bare-padded rest) refl

b64url_decode-b64url : (bs : Bytes) → All IsByte bs → b64url_decode (b64url bs) ≡ some bs
unfolding b64url_decode b64url
b64url_decode-b64url bs h =
    rw (rstrip-b64encode bs h, bare-padded bs) (urlsafe_b64decode-b64encode bs h)

-- A character that is no dot, no space and ASCII.
pub record IsPlain (c : ℕ) : Type 0 where
  pub no_dot : c ≢ b'.'
  pub visible : 32 < c
  pub ascii : c < 128

digit-IsPlain : (v : ℕ) → v < 64 → IsPlain (digit url_safe v)
unfolding digit digit62 digit63
digit-IsPlain v h = record { no_dot = ground arith; visible = ground arith; ascii = ground arith }

bare-All : (bs : Bytes) → All IsByte bs → All IsPlain (bare bs)
unfolding bare
bare-All [] h = tt
bare-All (x ∷ []) h =
    (digit-IsPlain (x / 4) (omega (arith, h.0)), (digit-IsPlain (x % 4 * 16) (omega arith), tt))
bare-All (x ∷ y ∷ []) h = (
  digit-IsPlain (x / 4) (omega (arith, h.0)),
  (
    digit-IsPlain (x % 4 * 16 + y / 16) (omega (arith, h.1.0)),
    (digit-IsPlain (y % 16 * 4) (omega arith), tt),
  ),
)
bare-All (x ∷ y ∷ z ∷ rest) h = (
  digit-IsPlain (x / 4) (omega (arith, h.0)),
  (
    digit-IsPlain (x % 4 * 16 + y / 16) (omega (arith, h.1.0)),
    (
      digit-IsPlain (y % 16 * 4 + z / 64) (omega (arith, h.1.1.0)),
      (digit-IsPlain (z % 64) (omega arith), bare-All rest h.1.1.1),
    ),
  ),
)

pub b64url-All : (bs : Bytes) → All IsByte bs → All IsPlain (b64url bs)
unfolding b64url
b64url-All bs h = rw (rstrip-b64encode bs h) (bare-All bs h)

split_plain : (s : Text) → All IsPlain s → split b'.' s ≡ s ∷ []
unfolding split
split_plain [] h = refl
split_plain (c ∷ s) h = rw (split_plain s h.1) (ground (arith, h.0.no_dot))

split-append : (s t : Text) → All IsPlain s → split b'.' (s ++ b'.' ∷ t) ≡ s ∷ split b'.' t
unfolding split
split-append [] t h = refl
split-append (c ∷ s) t h = rw (split-append s t h.1) (ground (arith, h.0.no_dot))

plain_ascii : (s : Text) → All IsPlain s → exists (λ c. leb 128 c) s ≡ false
unfolding exists
plain_ascii [] h = refl
plain_ascii (c ∷ s) h = ground (arith, h.0.ascii, plain_ascii s h.1)

-- The three parts of a token.
split_token :
    (a b c : Text)
    → All IsPlain a
    → All IsPlain b
    → All IsPlain c
    → split b'.' (signing_input a b ++ b'.' ∷ c) ≡ a ∷ b ∷ c ∷ []
split_token a b c ha hb hc =
    rw (append_assoc, split-append a (b ++ b'.' ∷ c) ha, split-append b c hb, split_plain c hc) refl

signing_input_ascii :
    (a b : Text)
    → All IsPlain a
    → All IsPlain b
    → exists (λ c. leb 128 c) (signing_input a b) ≡ false
unfolding exists
signing_input_ascii a b ha hb =
    rw (exists-append (λ c. leb 128 c) a (b'.' ∷ b), plain_ascii a ha) (plain_ascii b hb)

module _ (signer : TokenSigner) (json : ClaimsJson) (laws : TokenLaws signer json) where
  -- A minted token decodes to its user and its session until it expires, and to none after. The
  -- signer accepts its own signatures, and the JSON of claims reads back.
  pub decode-mint :
      (now later user session ttl : ℕ)
      → decode signer json later (mint signer json now user session ttl)
        ≡ ok (
            current later (record { user_id = user; session_id = session; expires_at = now + ttl }))
  unfolding mint decode
  decode-mint now later user session ttl =
      let header = b64url json.header in
      let claims = json.dumps user session now (now + ttl) in
      let payload = b64url claims in
      let input = signing_input header payload in
      let plain_header = b64url-All json.header laws.header_bytes in
      let plain_payload = b64url-All claims (laws.payload_bytes user session now (now + ttl)) in
      let plain_signature = b64url-All (signer.sign input) (laws.signature_bytes input) in
      rw
        (
          decode,
          split_token header payload (b64url (signer.sign input)) plain_header plain_payload
              plain_signature,
          signing_input_ascii header payload plain_header plain_payload,
          b64url_decode-b64url (signer.sign input) (laws.signature_bytes input),
          laws.verifies input,
          b64url_decode-b64url claims (laws.payload_bytes user session now (now + ttl)),
          claims_of,
          laws.loads_back user session now (now + ttl),
        )
        refl
