-- ===== src/Tests/Accounts.antt =====
-- Tests of accounts: sessions, verification of emails, logins and the second factor.
use pqc_grade_a.Base.{
  ◌≡◌, ◌↔◌, ◌≤◌, ◌⊎◌, refl, none, some, [], ◌∷◌, Text, arith, codes, true, exists, count, select,
  first_where, update_where,
}
use pqc_grade_a.Base.Tests.{text_eq}
use pqc_grade_a.Errors.{Error, auth, invalid_refresh_token, invalid_verification_token}
use pqc_grade_a.Db.{
  Db, User, disabled, Session, session_is_active, EmailVerificationToken, token_is_valid, MfaFactor,
  totp,
}
use pqc_grade_a.Exec.{ok, err, request, scalar_one_or_none}
use pqc_grade_a.Conversation.Repository.{is_user}
use pqc_grade_a.Messaging.Envelope.{between}
use pqc_grade_a.Account.Platform.{Platform}
use pqc_grade_a.Account.Users
use pqc_grade_a.Account.Users.{has_email, has_hash, get_by_token_hash}
use pqc_grade_a.Account.Sessions
use pqc_grade_a.Account.Sessions.{
  is_session, has_refresh_hash, refresh_session, rotate_refresh_token, get_by_refresh_token_hash,
  revoke,
}
use pqc_grade_a.Account.SessionLaws.{UniqueSessions, refresh_rotates}
use pqc_grade_a.Account.Revocation.{revoke_session_ends}
use pqc_grade_a.Account.RefreshOutcome
use pqc_grade_a.Account.TokenLaws.{verify_email_once}
use pqc_grade_a.Account.Mfa.{is_active, verify_login_code}
use pqc_grade_a.Account.MfaLaws.{OneFactor}
use pqc_grade_a.Account.MfaRuns.{
  enroll_with, confirm_with, serve_mfa, serve_mfa-OneFactor, Accepts, verify_login_code_iff,
}
use pqc_grade_a.Account.Auth.{login, refresh, revoke_session, verify_email}
use pqc_grade_a.Account.LoginLaws.{signed_in}
use pqc_grade_a.Account.Login.{MayLogin, login_iff, login-Outcome}
use pqc_grade_a.Tests.World.{user, world}

abbrev pub platform : Platform
platform = record {
  lower = λ t. t;
  is_lower = between 97 122;
  is_upper = between 65 90;
  is_digit = between 48 57;
  digest = λ t. t;
  hash_password = λ t. t;
  verify_password = text_eq;
  mint = λ u s now. u ∷ s ∷ now ∷ [];
  totp_verify = λ now secret code. text_eq secret code;
  encrypt = λ u secret. (secret, []);
  decrypt = λ u sealed. some sealed.0;
  access_ttl = 10;
  refresh_ttl = 100;
  verification_ttl = 50;
}

abbrev pub session : Session
session = record {
  id = 20;
  user_id = 1;
  refresh_token_hash = codes "R";
  device_context = none;
  created_at = 0;
  expires_at = 90;
  revoked_at = none;
}

abbrev factor : MfaFactor
factor = record {
  id = 30;
  user_id = 1;
  type = totp;
  secret_ciphertext = codes "123456";
  secret_nonce = [];
  created_at = 0;
  enabled_at = some 1;
  disabled_at = none;
}

abbrev token : EmailVerificationToken
token = record {
  id = 40;
  user_id = 2;
  token_hash = codes "T";
  created_at = 0;
  expires_at = 50;
  used_at = none;
}

abbrev pub bank : Db
bank = record world {
  sessions = session ∷ [];
  factors = factor ∷ [];
  tokens = token ∷ [];
  next_id = 50;
}

bank-UniqueSessions : UniqueSessions bank
unfolding count
bank-UniqueSessions = record { hash_unique = λ h. ground arith; session_unique = λ i. ground arith }

pub bank-OneFactor : OneFactor bank
unfolding count
bank-OneFactor = record { open_unique = λ u. ground arith }

one_token : (h : Text) → count (has_hash h) bank.tokens ≤ 1
unfolding count
one_token h = ground arith

abbrev renewed : Session
renewed = record session { refresh_token_hash = codes "S"; expires_at = 105 }

refreshes :
    refresh_session platform 5 (codes "R") (codes "S") bank
    ≡ (ok (renewed, codes "S"), record bank { sessions = renewed ∷ [] })
unfolding refresh_session get_by_refresh_token_hash rotate_refresh_token scalar_one_or_none select
    exists update_where text_eq session_is_active
refreshes = refl

refresh_rotates_example :
    (refresh_session platform 6 (codes "R") (codes "X") (record bank { sessions = renewed ∷ [] })
      ≡ (err (auth invalid_refresh_token), record bank { sessions = renewed ∷ [] }))
    × (first_where (has_refresh_hash (codes "S")) (renewed ∷ []) ≡ some renewed)
unfolding text_eq
refresh_rotates_example =
    refresh_rotates platform 5 6 (codes "R") (codes "S") (codes "X") bank
      (record bank { sessions = renewed ∷ [] }) renewed bank-UniqueSessions refl refreshes

-- The owner of the session is disabled.
abbrev closed : Db
closed = record bank { users = record (user 1) { status = disabled } ∷ [] }

refresh-Outcome_example :
    RefreshOutcome.Outcome platform 5
      (codes "R")
      (codes "S")
      closed
      (refresh platform 5 (codes "R") (codes "S") closed)
      (request (refresh platform 5 (codes "R") (codes "S")) closed)
refresh-Outcome_example =
    RefreshOutcome.refresh-Outcome platform 5 (codes "R") (codes "S") closed
      (bank-UniqueSessions.hash_unique (platform.digest (codes "R")))

abbrev ended : Db
ended = record bank { sessions = record session { revoked_at = some 5 } ∷ [] }

revokes : revoke_session 5 1 20 bank ≡ (ok tt, ended)
unfolding revoke_session Sessions.get_by_id revoke first_where update_where session_is_active
revokes = refl

revoke_session_ends_example :
    (session.user_id ≡ 1)
    × (session_is_active 5 session ≡ true)
    × (refresh_session platform 6 (codes "R") (codes "S") ended
        ≡ (err (auth invalid_refresh_token), ended))
unfolding first_where text_eq
revoke_session_ends_example =
    revoke_session_ends platform 5 6 1 20 (codes "R") (codes "S") bank ended session
      bank-UniqueSessions refl refl revokes

abbrev verified_bank : Db
verified_bank = (verify_email platform 5 (codes "T") bank).1

verifies : verify_email platform 5 (codes "T") bank ≡ (ok true, verified_bank)
unfolding verify_email get_by_token_hash Users.get_by_id first_where select scalar_one_or_none
    text_eq token_is_valid
verifies = refl

verify_email_once_example :
    ((t : EmailVerificationToken) × (u : User) × (first_where (has_hash (codes "T")) bank.tokens
        ≡ some t)
      × (token_is_valid 5 t ≡ true)
      × (first_where (is_user t.user_id) verified_bank.users
          ≡ some (record u { email_verified = true })))
    × (verify_email platform 6 (codes "T") verified_bank
        ≡ (err (auth invalid_verification_token), verified_bank))
verify_email_once_example =
    verify_email_once platform 5 6 (codes "T") bank verified_bank true one_token verifies

serve_mfa-OneFactor_example : OneFactor (
    serve_mfa platform
      ((5, user 2, enroll_with (codes "9")) ∷ (6, user 2, confirm_with (codes "9")) ∷ [])
      bank)
serve_mfa-OneFactor_example =
    serve_mfa-OneFactor platform
      ((5, user 2, enroll_with (codes "9")) ∷ (6, user 2, confirm_with (codes "9")) ∷ []) bank
      bank-OneFactor

verify_login_code_iff_example :
    (verify_login_code platform 5 (user 1) (some (codes "123456")) bank ≡ (ok tt, bank)) ↔ (
      (first_where (is_active 1) bank.factors ≡ none)
      ⊎ ((f : MfaFactor) × (first_where (is_active 1) bank.factors ≡ some f)
          × Accepts platform 5 f (some (codes "123456"))))
verify_login_code_iff_example =
    verify_login_code_iff platform 5 (user 1) (some (codes "123456")) bank bank-OneFactor

-- The emails of the users of the world are their ids.
pub one_email : (e : Text) → count (has_email e) bank.users ≤ 1
unfolding count text_eq
one_email [] = ground arith
one_email (x ∷ []) = ground arith
one_email (x ∷ y ∷ e) = ground arith

login_iff_example :
    ((r : Text × Text) × (db' : Db) × (login platform 5
          (1 ∷ [])
          []
          none
          (some (codes "123456"))
          (codes "N")
          bank
        ≡ (ok r, db')))
    ↔ MayLogin platform 5 (1 ∷ []) [] (some (codes "123456")) (codes "N") bank
login_iff_example =
    login_iff platform 5 (1 ∷ []) [] none (some (codes "123456")) (codes "N") bank one_email
      bank-OneFactor

login-Outcome_example :
    ((x : Error) × (login platform 5 (1 ∷ []) [] none none (codes "N") bank ≡ (err x, bank)))
    ⊎ ((m : MayLogin platform 5 (1 ∷ []) [] none (codes "N") bank) × (login platform 5
            (1 ∷ [])
            []
            none
            none
            (codes "N")
            bank
          ≡ (
            ok (platform.mint m.user.id 50 5, codes "N"),
            signed_in platform 5 m.user none (codes "N") bank,
          )))
login-Outcome_example =
    login-Outcome platform 5 (1 ∷ []) [] none none (codes "N") bank one_email bank-OneFactor
