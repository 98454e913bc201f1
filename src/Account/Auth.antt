-- ===== src/Account/Auth.antt =====
-- backend/src/services/auth_service.py. The audit logger does nothing and the email queue is output
-- only, so neither is a part of the state.
use pqc_grade_a.Base.{
  ℕ, ◌+◌, Bool, true, false, not, Option, none, some, List, Text, ◌==◌, if◌then◌else◌,
}
use pqc_grade_a.Errors.{
  auth, email_already_registered, username_already_registered, invalid_verification_token,
  invalid_credentials, account_disabled, email_not_verified, session_not_found,
}
use pqc_grade_a.Db.{User, active, disabled, Session, EmailVerificationToken, token_is_valid}
use pqc_grade_a.Exec.{Action, pure, raise, lift, ◌>>=◌, ◌>>◌, raise_if, or_raise, modify}
use pqc_grade_a.Account.Platform.{Platform}
use pqc_grade_a.Account.PasswordPolicy.{validate}
use pqc_grade_a.Account.Users
use pqc_grade_a.Account.Users.{
  get_by_email, email_exists, username_exists, add_user, write_verified, get_by_token_hash,
  add_token, write_used,
}
use pqc_grade_a.Account.Sessions
use pqc_grade_a.Account.Sessions.{create_session, refresh_session, revoke, live}
use pqc_grade_a.Account.Mfa.{verify_login_code}

abbrev pub new_user : ℕ → Text → Text → Text → ℕ → User
new_user now email username hash i = record {
  id = i;
  email = email;
  username = username;
  password_hash = hash;
  display_name = username;
  avatar_url = none;
  email_verified = false;
  status = active;
  last_seen_at = none;
  created_at = now;
  updated_at = now;
}

abbrev pub new_token : Platform → ℕ → ℕ → Text → ℕ → EmailVerificationToken
new_token k now user raw i = record {
  id = i;
  user_id = user;
  token_hash = k.digest raw;
  created_at = now;
  expires_at = now + k.verification_ttl;
  used_at = none;
}

-- `raw` is the verification token that goes out by email.
unfoldable pub register : Platform → ℕ → Text → Text → Text → Text → Action User
register k now email password username raw = do
  taken ← email_exists k (k.lower email)
  raise_if taken (auth email_already_registered)
  named ← username_exists k (k.lower username)
  raise_if named (auth username_already_registered)
  lift (validate k password)
  u ← add_user (new_user now (k.lower email) (k.lower username) (k.hash_password password))
  add_token (new_token k now u.id raw)
  pure u

abbrev pub valid_token : ℕ → Option EmailVerificationToken → Option EmailVerificationToken
valid_token now none = none
valid_token now (some t) = if token_is_valid now t then some t else none

unfoldable pub verify_email : Platform → ℕ → Text → Action Bool
verify_email k now raw = do
  found ← get_by_token_hash (k.digest raw)
  t ← or_raise (valid_token now found) (auth invalid_verification_token)
  owner ← Users.get_by_id t.user_id
  u ← or_raise owner (auth invalid_verification_token)
  modify (write_verified u.id)
  modify (write_used now t.id)
  pure true

-- `_verify_or_equalize`, whose dummy check has no result: the user, if the password is right.
abbrev pub authenticated : Platform → Text → Option User → Option User
authenticated k password none = none
authenticated k password (some u) =
    if k.verify_password password u.password_hash then some u else none

abbrev pub is_disabled : User → Bool
is_disabled u = elim u.status [ active ↦ false | disabled ↦ true ]

unfoldable pub login :
    Platform → ℕ → Text → Text → Option Text → Option Text → Text → Action (Text × Text)
login k now email password device totp_code raw = do
  found ← get_by_email k (k.lower email)
  u ← or_raise (authenticated k password found) (auth invalid_credentials)
  raise_if (is_disabled u) (auth account_disabled)
  raise_if (not u.email_verified) (auth email_not_verified)
  verify_login_code k now u totp_code
  s ← create_session k now u.id device raw
  pure (k.mint u.id s.0.id now, s.1)

-- A user that is there and not disabled.
abbrev pub enabled : Option User → Option User
enabled none = none
enabled (some u) = if is_disabled u then none else some u

unfoldable pub refresh : Platform → ℕ → Text → Text → Action (Text × Text)
refresh k now raw new_raw = do
  s ← refresh_session k now raw new_raw
  owner ← Users.get_by_id s.0.user_id
  elim (enabled owner) [
    | none ↦ (revoke now s.0 >> raise (auth account_disabled))
    | some u ↦ pure (k.mint u.id s.0.id now, s.1)
  ]

unfoldable pub logout : ℕ → Session → Action (Unit {0})
logout now s = revoke now s

unfoldable pub list_sessions : ℕ → Action (List Session)
list_sessions u = Sessions.list_active_for_user u

abbrev pub owned : ℕ → Option Session → Option Session
owned u none = none
owned u (some s) = if s.user_id == u then some s else none

unfoldable pub revoke_session : ℕ → ℕ → ℕ → Action (Unit {0})
revoke_session now user i = do
  found ← Sessions.get_by_id i
  s ← or_raise (live now (owned user found)) (auth session_not_found)
  revoke now s
