-- ===== src/Account/Mfa.antt =====
-- backend/src/repositories/mfa_factor_repository.py and backend/src/services/mfa_service.py.
use pqc_grade_a.Base.{
  ℕ, Bool, ◌&&◌, not, Option, none, some, [], ◌∷◌, ◌++◌, Text, Bytes, ◌==◌, is_none, is_some,
  select, update_where, delete_where,
}
use pqc_grade_a.Errors.{
  auth, invalid_credentials, invalid_mfa_code, mfa_already_enabled, mfa_enrollment_not_found,
  mfa_not_enabled, mfa_required, decryption_error,
}
use pqc_grade_a.Db.{Db, User, MfaFactor, totp}
use pqc_grade_a.Exec.{
  Action, pure, gets, lift, ◌>>=◌, ◌>>◌, raise_if, or_raise, modify, fresh_id, scalar_one_or_none,
}
use pqc_grade_a.Account.Platform.{Platform}

abbrev pub is_active : ℕ → MfaFactor → Bool
is_active u f = f.user_id == u && (is_some f.enabled_at && is_none f.disabled_at)

abbrev pub is_pending : ℕ → MfaFactor → Bool
is_pending u f = f.user_id == u && (is_none f.enabled_at && is_none f.disabled_at)

abbrev pub is_factor : ℕ → MfaFactor → Bool
is_factor i f = f.id == i

unfoldable pub get_active_for_user : ℕ → Action (Option MfaFactor)
get_active_for_user u = do
  rows ← gets (λ db. select (is_active u) db.factors)
  lift (scalar_one_or_none rows)

unfoldable pub get_pending_for_user : ℕ → Action (Option MfaFactor)
get_pending_for_user u = do
  rows ← gets (λ db. select (is_pending u) db.factors)
  lift (scalar_one_or_none rows)

abbrev pub without : ℕ → Db → Db
without i db = record db { factors = delete_where (is_factor i) db.factors }

abbrev pub set_enabled : ℕ → MfaFactor → MfaFactor
set_enabled now f = record f { enabled_at = some now }

abbrev pub set_disabled : ℕ → MfaFactor → MfaFactor
set_disabled now f = record f { disabled_at = some now }

abbrev pub write_factor : ℕ → (MfaFactor → MfaFactor) → Db → Db
write_factor i f db = record db { factors = update_where (is_factor i) f db.factors }

abbrev pub new_factor : ℕ → ℕ → Bytes × Bytes → ℕ → MfaFactor
new_factor now u sealed i = record {
  id = i;
  user_id = u;
  type = totp;
  secret_ciphertext = sealed.0;
  secret_nonce = sealed.1;
  created_at = now;
  enabled_at = none;
  disabled_at = none;
}

abbrev pub add_factor : (ℕ → MfaFactor) → Action (Unit {0})
add_factor row = do i ← fresh_id; modify (λ db. record db { factors = db.factors ++ row i ∷ [] })

-- The provisioning URI is a function of the secret and the email.
unfoldable pub enroll : Platform → ℕ → User → Text → Action Text
enroll k now u secret = do
  active ← get_active_for_user u.id
  raise_if (is_some active) (auth mfa_already_enabled)
  pending ← get_pending_for_user u.id
  elim pending [ none ↦ pure tt | some f ↦ modify (without f.id) ]
  add_factor (new_factor now u.id (k.encrypt u.id secret))
  pure secret

unfoldable pub decrypt_secret : Platform → MfaFactor → Action Text
decrypt_secret k f =
    or_raise (k.decrypt f.user_id (f.secret_ciphertext, f.secret_nonce)) decryption_error

-- The secret of the factor, decrypted, accepts the code.
unfoldable pub check_code : Platform → ℕ → MfaFactor → Text → Action (Unit {0})
check_code k now f code = do
  secret ← decrypt_secret k f
  raise_if (not (k.totp_verify now secret code)) (auth invalid_mfa_code)

unfoldable pub confirm : Platform → ℕ → User → Text → Action (Unit {0})
confirm k now u code = do
  found ← get_pending_for_user u.id
  f ← or_raise found (auth mfa_enrollment_not_found)
  check_code k now f code
  modify (write_factor f.id (set_enabled now))

-- The proof of the owner: the password, or else a code.
pub data Proof : Type 0 where
  password : Text → Proof
  code : Text → Proof

unfoldable pub check_proof : Platform → ℕ → User → MfaFactor → Proof → Action (Unit {0})
check_proof k now u f (password p) =
    raise_if (not (k.verify_password p u.password_hash)) (auth invalid_credentials)
check_proof k now u f (code c) = check_code k now f c

unfoldable pub disable : Platform → ℕ → User → Proof → Action (Unit {0})
disable k now u proof = do
  found ← get_active_for_user u.id
  f ← or_raise found (auth mfa_not_enabled)
  check_proof k now u f proof
  modify (write_factor f.id (set_disabled now))

-- `not totp_code`: absent or empty.
abbrev pub given : Option Text → Option Text
given none = none
given (some []) = none
given (some (c ∷ cs)) = some (c ∷ cs)

unfoldable pub verify_login_code : Platform → ℕ → User → Option Text → Action (Unit {0})
verify_login_code k now u totp_code = do
  active ← get_active_for_user u.id
  elim active [
    | none ↦ pure tt
    | some f ↦ do c ← or_raise (given totp_code) (auth mfa_required); check_code k now f c
  ]
