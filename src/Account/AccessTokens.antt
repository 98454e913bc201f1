-- ===== src/Account/AccessTokens.antt =====
-- backend/src/services/access_tokens.py: a compact JWS over an abstract signer. The JSON of the header
-- and of the claims, with the texts of UUIDs in it, is a parameter.
use pqc_grade_a.Base.{
  ℕ, zero, suc, ◌+◌, ◌-◌, ◌%◌, Bool, Option, none, some, List, [], ◌∷◌, ◌++◌, Text, Bytes, leb,
  ◌==◌, if◌then◌else◌, length, exists,
}
use pqc_grade_a.Base64.{b64encode, urlsafe_b64decode, url_safe}
use pqc_grade_a.Errors.{value_error}
use pqc_grade_a.Exec.{Result, ok, err}

pub record AccessTokenClaims : Type 0 where
  pub user_id : ℕ
  pub session_id : ℕ
  pub expires_at : ℕ

pub record TokenSigner : Type 0 where
  pub sign : Bytes → Bytes
  pub verify : Bytes → Bytes → Bool

pub record ClaimsJson : Type 0 where
  pub header : Bytes
  -- `{"exp": ..., "iat": ..., "sid": ..., "sub": ...}` from the user, the session and the two times
  pub dumps : ℕ → ℕ → ℕ → ℕ → Bytes
  -- The claims of a payload; `none` if it is no JSON, or a claim is missing or of another form.
  pub loads : Bytes → Option AccessTokenClaims

-- `bytes.rstrip(b"=")`
abbrev pub or_drop : ℕ → ℕ → Text → Text
or_drop pad c [] = if c == pad then [] else c ∷ []
or_drop pad c (d ∷ s) = c ∷ d ∷ s

unfoldable pub rstrip : ℕ → Text → Text
rstrip pad [] = []
rstrip pad (c ∷ s) = or_drop pad c (rstrip pad s)

unfoldable pub repeat : ℕ → ℕ → Text
repeat c zero = []
repeat c (suc n) = c ∷ repeat c n

unfoldable pub b64url : Bytes → Text
unfolding rstrip
b64url bytes = rstrip b'=' (b64encode url_safe bytes)

-- `-len(segment) % 4`
abbrev pub missing_pads : ℕ → ℕ
missing_pads n = (4 - n % 4) % 4

unfoldable pub b64url_decode : Text → Option Bytes
unfolding repeat
b64url_decode segment = urlsafe_b64decode (segment ++ repeat b'=' (missing_pads (length segment)))

-- `str.split`
abbrev pub onto_first : ℕ → List Text → List Text
onto_first c [] = (c ∷ []) ∷ []
onto_first c (w ∷ ws) = (c ∷ w) ∷ ws

unfoldable pub split : ℕ → Text → List Text
split sep [] = [] ∷ []
split sep (c ∷ s) = let rest = split sep s in if c == sep then [] ∷ rest else onto_first c rest

abbrev pub signing_input : Text → Text → Text
signing_input header_b64 payload_b64 = header_b64 ++ b'.' ∷ payload_b64

unfoldable pub mint : TokenSigner → ClaimsJson → ℕ → ℕ → ℕ → ℕ → Text
mint signer json now user_id session_id ttl_seconds =
    let input : Text =
      signing_input (b64url json.header)
        (b64url (json.dumps user_id session_id now (now + ttl_seconds))) in
    input ++ b'.' ∷ b64url (signer.sign input)

abbrev pub current : ℕ → AccessTokenClaims → Option AccessTokenClaims
current now claims = if leb claims.expires_at now then none else some claims

abbrev pub claims_of : ClaimsJson → ℕ → Option Bytes → Option AccessTokenClaims
claims_of json now none = none
claims_of json now (some payload) = elim (json.loads payload) [
  | none ↦ none
  | some claims ↦ current now claims
]

abbrev pub checked :
    TokenSigner → ClaimsJson → ℕ → Text → Text → Option Bytes → Option AccessTokenClaims
checked signer json now input payload_b64 none = none
checked signer json now input payload_b64 (some signature) =
    if signer.verify input signature then claims_of json now (b64url_decode payload_b64) else none

abbrev pub three_parts : List Text → Option (Text × Text × Text)
three_parts [] = none
three_parts (a ∷ []) = none
three_parts (a ∷ b ∷ []) = none
three_parts (a ∷ b ∷ c ∷ []) = some (a, b, c)
three_parts (a ∷ b ∷ c ∷ d ∷ rest) = none

-- `none` is `InvalidAccessTokenError`. The signing input is encoded outside every `try`, so there a
-- character that is not ASCII raises a `ValueError`.
unfoldable pub decode : TokenSigner → ClaimsJson → ℕ → Text → Result (Option AccessTokenClaims)
decode signer json now token = elim (three_parts (split b'.' token)) [
  | none ↦ ok none
  | some (header_b64, payload_b64, sig_b64) ↦
      if exists (λ c. leb 128 c) (signing_input header_b64 payload_b64)
      then err value_error
      else ok (
          checked signer json now (signing_input header_b64 payload_b64) payload_b64
            (b64url_decode sig_b64))
]
