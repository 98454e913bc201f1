-- ===== src/Api/Accounts.antt =====
-- The handlers of backend/src/api/v1/auth.py and mfa.py, with the bodies of
-- backend/src/schemas/auth.py and mfa.py. A body that is refused is an error 422.
use pqc_grade_a.Base.{
  ℕ, Bool, true, false, ◌&&◌, ◌||◌, not, Option, none, some, List, [], ◌∷◌, map, Text, ◌==◌, leb,
  length, if◌then◌else◌, exists,
}
use pqc_grade_a.Errors.{auth, unauthenticated, http_exception}
use pqc_grade_a.Db.{Session}
use pqc_grade_a.Exec.{Action, pure, ◌>>=◌, ◌>>◌, raise_if, or_raise}
use pqc_grade_a.Messaging.Envelope.{between}
use pqc_grade_a.Account.Platform.{Platform}
use pqc_grade_a.Account.Mfa.{Proof, password, code, given, enroll, confirm, disable}
use pqc_grade_a.Account.Auth as Auth
use pqc_grade_a.Account.Guard.{AuthContext}
use pqc_grade_a.External.Routes.{CookieChange, set_cookie, delete_cookie, refresh_token}

-- `str.strip`, how pydantic strips a field, and the characters that `\d` and `\s` of a pattern match.
pub record Patterns : Type 0 where
  pub strip : Text → Text
  pub trim : Text → Text
  pub is_digit : ℕ → Bool
  pub is_space : ℕ → Bool

pub record Response (A : Type 0) : Type 0 where
  pub body : A
  pub cookies : List CookieChange

-- `[^@\s]`
abbrev pub email_char : Patterns → ℕ → Bool
email_char p c = not (c == b'@' || p.is_space c)

-- `\.[^@\s]+$`, where the characters have been checked.
abbrev pub nonempty : Text → Bool
nonempty [] = false
nonempty (c ∷ s) = true

unfoldable pub has_dot_inside : Text → Bool
has_dot_inside [] = false
has_dot_inside (c ∷ s) = (c == b'.' && nonempty s) || has_dot_inside s

-- `[^@\s]+\.[^@\s]+$`
unfoldable pub is_domain : Patterns → Text → Bool
is_domain p [] = false
is_domain p (c ∷ s) = not (exists (λ d. not (email_char p d)) (c ∷ s)) && has_dot_inside s

-- `_EMAIL_PATTERN`; the flag says whether the local part has begun.
unfoldable pub email_from : Patterns → Bool → Text → Bool
email_from p begun [] = false
email_from p begun (c ∷ s) =
    let rest = email_from p true s in
    if c == b'@' then begun && is_domain p s else email_char p c && rest

abbrev pub valid_email : Patterns → Text → Bool
valid_email p email = email_from p false email && leb (length email) 320

abbrev pub username_char : ℕ → Bool
username_char c = between b'a' b'z' c || (between b'A' b'Z' c || (between b'0' b'9' c || c == b'_'))

unfoldable pub valid_username : Text → Bool
valid_username s = between 3 32 (length s) && not (exists (λ c. not (username_char c)) s)

abbrev pub valid_password : Text → Bool
valid_password s = between 1 1024 (length s)

-- `^\d{6}$`
unfoldable pub valid_code : Patterns → Text → Bool
valid_code p s = (length s == 6) && not (exists (λ c. not (p.is_digit c)) s)

-- A field that may be `None`.
abbrev pub if_given : (Text → Bool) → Option Text → Bool
if_given valid none = true
if_given valid (some s) = valid s

-- `_normalize_email` and `_normalize_username`
abbrev pub normalize : Platform → Patterns → Text → Text
normalize k p s = k.lower (p.strip s)

pub record RegisterResponse : Type 0 where
  pub user_id : ℕ
  pub username : Text

unfoldable pub register :
    Platform → Patterns → ℕ → Text → Text → Text → Text → Action (Response RegisterResponse)
register k p now email secret username raw = do
  raise_if (not (valid_email p email && (valid_password secret && valid_username username)))
      (http_exception 422)
  u ← Auth.register k now (normalize k p email) secret (normalize k p username) raw
  pure (record { body = record { user_id = u.id; username = u.username }; cookies = [] })

unfoldable pub verify_email : Platform → ℕ → Text → Action (Response Bool)
verify_email k now token = do
  raise_if (not (between 1 256 (length token))) (http_exception 422)
  verified ← Auth.verify_email k now token
  pure (record { body = verified; cookies = [] })

-- The body is the access token; the refresh token is in the cookie.
abbrev pub with_tokens : Text × Text → Response Text
with_tokens t = record { body = t.0; cookies = set_cookie refresh_token t.1 ∷ [] }

abbrev pub short : Text → Bool
short s = leb (length s) 255

unfoldable pub login :
    Platform
    → Patterns
    → ℕ
    → Text
    → Text
    → Option Text
    → Option Text
    → Text
    → Action (Response Text)
login k p now email secret device totp_code raw = do
  raise_if
      (not (
        valid_email p email
        && (valid_password secret && (if_given short device && if_given (valid_code p) totp_code))))
      (http_exception 422)
  tokens ← Auth.login k now (normalize k p email) secret device totp_code raw
  pure (with_tokens tokens)

unfoldable pub refresh : Platform → ℕ → Option Text → Text → Action (Response Text)
refresh k now cookie new_raw = do
  raw ← or_raise (given cookie) (auth unauthenticated)
  tokens ← Auth.refresh k now raw new_raw
  pure (with_tokens tokens)

abbrev pub signed_off : Response (Unit {0})
signed_off = record { body = tt; cookies = delete_cookie refresh_token ∷ [] }

abbrev pub no_content : Response (Unit {0})
no_content = record { body = tt; cookies = [] }

unfoldable pub logout : ℕ → AuthContext → Action (Response (Unit {0}))
logout now ctx = do Auth.logout now ctx.session; pure signed_off

pub record SessionResponse : Type 0 where
  pub session_id : ℕ
  pub device_context : Option Text
  pub created_at : ℕ
  pub current : Bool

abbrev pub session_response : ℕ → Session → SessionResponse
session_response mine s = record {
  session_id = s.id;
  device_context = s.device_context;
  created_at = s.created_at;
  current = s.id == mine;
}

unfoldable pub list_sessions : AuthContext → Action (Response (List SessionResponse))
list_sessions ctx = do
  sessions ← Auth.list_sessions ctx.user.id
  pure (record { body = map (session_response ctx.session.id) sessions; cookies = [] })

-- Who revokes the session of the request loses the cookie too.
unfoldable pub revoke_session : ℕ → AuthContext → ℕ → Action (Response (Unit {0}))
revoke_session now ctx i = do
  Auth.revoke_session now ctx.user.id i
  pure (if i == ctx.session.id then signed_off else no_content)

-- The secret is random; the URI for the authenticator is made of it and the email.
unfoldable pub enroll_totp : Platform → ℕ → AuthContext → Text → Action (Response Text)
enroll_totp k now ctx secret = do
  shown ← enroll k now ctx.user secret
  pure (record { body = shown; cookies = [] })

unfoldable pub confirm_totp : Platform → Patterns → ℕ → AuthContext → Text → Action (Response Bool)
confirm_totp k p now ctx totp_code = do
  raise_if (not (valid_code p (p.trim totp_code))) (http_exception 422)
  confirm k now ctx.user (p.trim totp_code)
  pure (record { body = true; cookies = [] })

-- `_exactly_one_proof`, with the bounds of the two fields.
abbrev pub proof_of : Patterns → Option Text → Option Text → Option Proof
proof_of p none none = none
proof_of p (some s) none = if valid_password s then some (password s) else none
proof_of p none (some c) = if valid_code p c then some (code c) else none
proof_of p (some s) (some c) = none

unfoldable pub disable_totp :
    Platform → Patterns → ℕ → AuthContext → Option Text → Option Text → Action (Response (Unit {0}))
disable_totp k p now ctx secret totp_code = do
  proof ← or_raise (proof_of p secret totp_code) (http_exception 422)
  disable k now ctx.user proof
  pure no_content
