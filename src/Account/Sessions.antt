-- ===== src/Account/Sessions.antt =====
-- backend/src/repositories/session_repository.py and backend/src/services/session_service.py. A new
-- refresh token is random, and an argument of the method that draws it.
use pqc_grade_a.Base.{
  ℕ, ◌+◌, Bool, ◌&&◌, not, Option, none, some, List, [], ◌∷◌, ◌++◌, Text, ◌==◌, text_eq, is_none,
  if◌then◌else◌, select, first_where, exists, update_where,
}
use pqc_grade_a.Errors.{auth, invalid_refresh_token, integrity_error}
use pqc_grade_a.Db.{Db, Session, session_is_active}
use pqc_grade_a.Exec.{
  Action, pure, gets, lift, ◌>>=◌, ◌>>◌, raise_if, or_raise, modify, fresh_id, scalar_one_or_none,
  for_each,
}
use pqc_grade_a.Conversation.Repository.{is_user}
use pqc_grade_a.Account.Platform.{Platform}

abbrev pub is_session : ℕ → Session → Bool
is_session i s = s.id == i

abbrev pub has_refresh_hash : Text → Session → Bool
has_refresh_hash h s = text_eq s.refresh_token_hash h

unfoldable pub get_by_id : ℕ → Action (Option Session)
get_by_id i = gets (λ db. first_where (is_session i) db.sessions)

unfoldable pub get_by_refresh_token_hash : Text → Action (Option Session)
get_by_refresh_token_hash h = do
  rows ← gets (λ db. select (has_refresh_hash h) db.sessions)
  lift (scalar_one_or_none rows)

-- Not revoked; the expiry is not looked at.
unfoldable pub list_active_for_user : ℕ → Action (List Session)
list_active_for_user u =
    gets (λ db. select (λ s. s.user_id == u && is_none s.revoked_at) db.sessions)

abbrev pub set_revoked : ℕ → Session → Session
set_revoked now s = record s { revoked_at = some now }

abbrev pub write_revoked : ℕ → ℕ → Db → Db
write_revoked now i db = record db {
  sessions = update_where (is_session i) (set_revoked now) db.sessions;
}

unfoldable pub revoke : ℕ → Session → Action (Unit {0})
revoke now s = if is_none s.revoked_at then modify (write_revoked now s.id) else pure tt

unfoldable pub revoke_all_for_user : ℕ → ℕ → Action (Unit {0})
revoke_all_for_user now u = do
  sessions ← list_active_for_user u
  for_each sessions (λ s. modify (write_revoked now s.id))

abbrev pub set_refresh : Text → ℕ → Session → Session
set_refresh h expires s = record s { refresh_token_hash = h; expires_at = expires }

abbrev pub write_refresh : ℕ → Text → ℕ → Db → Db
write_refresh i h expires db = record db {
  sessions = update_where (is_session i) (set_refresh h expires) db.sessions;
}

-- The hash is a unique column.
unfoldable pub rotate_refresh_token : Session → Text → ℕ → Action (Unit {0})
rotate_refresh_token s h expires = do
  raise_if
      (← gets (λ db. exists (λ t. has_refresh_hash h t && not (is_session s.id t)) db.sessions))
      integrity_error
  modify (write_refresh s.id h expires)

-- `BaseRepository.add` of a session: the user is known and the hash unique.
unfoldable pub add : (ℕ → Session) → Action Session
add row = do
  raise_if (not (← gets (λ db. exists (is_user (row 0).user_id) db.users))) integrity_error
  raise_if (← gets (λ db. exists (has_refresh_hash (row 0).refresh_token_hash) db.sessions))
      integrity_error
  i ← fresh_id
  modify (λ db. record db { sessions = db.sessions ++ row i ∷ [] })
  pure (row i)

abbrev pub new_session : Platform → ℕ → ℕ → Option Text → Text → ℕ → Session
new_session k now user device raw i = record {
  id = i;
  user_id = user;
  refresh_token_hash = k.digest raw;
  device_context = device;
  created_at = now;
  expires_at = now + k.refresh_ttl;
  revoked_at = none;
}

unfoldable pub create_session : Platform → ℕ → ℕ → Option Text → Text → Action (Session × Text)
create_session k now user device raw = do s ← add (new_session k now user device raw); pure (s, raw)

-- `session is None or not session.is_active`, of `revoke_session` with the owner too.
abbrev pub live : ℕ → Option Session → Option Session
live now none = none
live now (some s) = if session_is_active now s then some s else none

unfoldable pub refresh_session : Platform → ℕ → Text → Text → Action (Session × Text)
refresh_session k now raw new_raw = do
  found ← get_by_refresh_token_hash (k.digest raw)
  s ← or_raise (live now found) (auth invalid_refresh_token)
  rotate_refresh_token s (k.digest new_raw) (now + k.refresh_ttl)
  pure (set_refresh (k.digest new_raw) (now + k.refresh_ttl) s, new_raw)
