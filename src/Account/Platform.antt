-- ===== src/Account/Platform.antt =====
-- What the account services take from the crypto providers, from pyotp, from Unicode and from the
-- settings.
use pqc_grade_a.Base.{ℕ, Bool, Option, Text, Bytes}

pub record Platform : Type 0 where
  -- `str.lower`, and the classes of characters
  pub lower : Text → Text
  pub is_lower : ℕ → Bool
  pub is_upper : ℕ → Bool
  pub is_digit : ℕ → Bool
  -- the hexadecimal digest of a token
  pub digest : Text → Text
  pub hash_password : Text → Text
  pub verify_password : Text → Text → Bool
  -- an access token for a user and a session at a time
  pub mint : ℕ → ℕ → ℕ → Text
  -- `pyotp.TOTP(secret).verify` at a time, within the window
  pub totp_verify : ℕ → Text → Text → Bool
  -- the cipher under the server's key, with the user's id as associated data
  pub encrypt : ℕ → Text → Bytes × Bytes
  pub decrypt : ℕ → Bytes × Bytes → Option Text
  pub access_ttl : ℕ
  pub refresh_ttl : ℕ
  pub verification_ttl : ℕ
