-- ===== src/Account/Guard.antt =====
-- `get_current_session` of backend/src/core/dependencies.py, which every authenticated route depends
-- on, and `_authenticate` of backend/src/api/ws/realtime.py.
use pqc_grade_a.Base.{
  ℕ, Bool, true, false, ◌&&◌, Option, none, some, [], ◌∷◌, Text, codes, ◌==◌, if◌then◌else◌, drop,
}
use pqc_grade_a.Errors.{auth, unauthenticated}
use pqc_grade_a.Db.{User, Session}
use pqc_grade_a.Exec.{Action, pure, lift, ◌>>=◌, or_raise}
use pqc_grade_a.Account.Users
use pqc_grade_a.Account.Sessions
use pqc_grade_a.Account.Sessions.{is_session, live}
use pqc_grade_a.Account.AccessTokens.{AccessTokenClaims, TokenSigner, ClaimsJson, decode}

-- `str.startswith`
unfoldable pub begins : Text → Text → Bool
begins [] s = true
begins (c ∷ p) [] = false
begins (c ∷ p) (d ∷ s) = c == d && begins p s

abbrev pub or_missing : Text → Option Text
or_missing [] = none
or_missing (c ∷ s) = some (c ∷ s)

abbrev pub header_text : Option Text → Text
header_text none = []
header_text (some s) = s

-- `_extract_bearer_token`; `none` raises. `strip` is `str.strip`.
unfoldable pub bearer_token : (Text → Text) → Option Text → Option Text
unfolding begins
bearer_token strip header =
    if begins (codes "Bearer ") (header_text header)
    then or_missing (strip (drop 7 (header_text header)))
    else none

pub record AuthContext : Type 0 where
  pub user : User
  pub session : Session

unfoldable pub get_current_session :
    TokenSigner → ClaimsJson → (Text → Text) → ℕ → Option Text → Action AuthContext
get_current_session signer json strip now header = do
  token ← or_raise (bearer_token strip header) (auth unauthenticated)
  decoded ← lift (decode signer json now token)
  claims ← or_raise decoded (auth unauthenticated)
  found ← Sessions.get_by_id claims.session_id
  session ← or_raise (live now found) (auth unauthenticated)
  owner ← Users.get_by_id claims.user_id
  user ← or_raise owner (auth unauthenticated)
  pure (record { user = user; session = session })

-- `token` is the query parameter; `none` closes the socket.
abbrev pub given : Option Text → Option Text
given none = none
given (some t) = or_missing t

unfoldable pub active_user : ℕ → Option AccessTokenClaims → Action (Option ℕ)
active_user now none = pure none
active_user now (some claims) = do
  found ← Sessions.get_by_id claims.session_id
  owner ← Users.get_by_id claims.user_id
  pure (elim (live now found) [
    | none ↦ none
    | some s ↦ elim owner [ none ↦ none | some u ↦ some u.id ]
  ])

unfoldable pub authenticate : TokenSigner → ClaimsJson → ℕ → Option Text → Action (Option ℕ)
authenticate signer json now token = elim (given token) [
  | none ↦ pure none
  | some t ↦ (lift (decode signer json now t) >>= active_user now)
]
