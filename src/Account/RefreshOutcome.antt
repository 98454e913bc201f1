-- ===== src/Account/RefreshOutcome.antt =====
-- All that `refresh` of backend/src/services/auth_service.py comes to, as a call and as a request.
use pqc_grade_a.Base.{
  ℕ, ◌+◌, ◌≤◌, ◌≡◌, refl, Bool, true, false, Option, none, some, List, [], ◌∷◌, Text, arith,
  is_none, first_where, count, update_where, inl, inr, Option-cases, Bool-cases,
}
use pqc_grade_a.Errors.{auth, invalid_refresh_token, account_disabled, integrity_error}
use pqc_grade_a.Db.{Db, User, Session}
use pqc_grade_a.Exec.{Result, ok, err, request}
use pqc_grade_a.Exec.Keeps.{request_failed}
use pqc_grade_a.Conversation.Repository.{is_user}
use pqc_grade_a.Account.Platform.{Platform}
use pqc_grade_a.Account.Users
use pqc_grade_a.Account.Sessions.{
  is_session, has_refresh_hash, set_refresh, write_refresh, live, set_revoked, revoke,
}
use pqc_grade_a.Account.Auth.{refresh, enabled}
use pqc_grade_a.Account.SessionLaws.{others_with, refresh_dead, refresh_clash, refresh_done}
use pqc_grade_a.Account.Revocation.{live_active}

-- Two writes to one row are one.
update_where_twice :
    (i : ℕ) (f g : Session → Session) (xs : List Session)
    → ((x : Session) → (f x).id ≡ x.id)
    → update_where (is_session i) g (update_where (is_session i) f xs)
      ≡ update_where (is_session i) (λ x. g (f x)) xs
unfolding update_where
update_where_twice i f g [] h = refl
update_where_twice i f g (x ∷ xs) h = ground (arith, h x, update_where_twice i f g xs h)

request_returned :
    {A : Type 0} (m : Db → Result A × Db) (a : A) (db db' : Db)
    → m db ≡ (ok a, db')
    → request m db ≡ (ok a, db')
unfolding request
request_returned m a db db' h = ground arith

module _ (k : Platform) (now : ℕ) (raw new_raw : Text) (db : Db) where
  -- The session that the token names and that is active.
  abbrev pub redeemed : Option Session
  redeemed = live now (first_where (has_refresh_hash (k.digest raw)) db.sessions)

  -- Another session has the hash of the new token.
  abbrev pub taken : Session → Bool
  taken s = others_with db s (k.digest new_raw)

  -- The owner of a session, if there and not disabled.
  abbrev pub owner : Session → Option User
  owner s = enabled (first_where (is_user s.user_id) db.users)

  abbrev pub spent : Session → Session
  spent t = record t {
    refresh_token_hash = k.digest new_raw;
    expires_at = now + k.refresh_ttl;
    revoked_at = some now;
  }

  -- The session with its new token, and revoked.
  abbrev pub revoked_db : ℕ → Db
  revoked_db i = record db { sessions = update_where (is_session i) spent db.sessions }

  -- What may come of a refresh, the call (`r`) and the request with its commit (`q`).
  pub data Outcome (r q : Result (Text × Text) × Db) : Type 0 where
    -- no active session has the token: nothing changes
    refused :
        redeemed ≡ none
        → r ≡ (err (auth invalid_refresh_token), db)
        → q ≡ (err (auth invalid_refresh_token), db)
        → Outcome r q
    -- the new token is taken: nothing changes
    clash :
        (s : Session)
        → redeemed ≡ some s
        → taken s ≡ true
        → r ≡ (err integrity_error, db)
        → q ≡ (err integrity_error, db)
        → Outcome r q
    -- the owner is disabled or gone: the call rotates the token and revokes the session, and the
    -- request undoes both
    undone :
        (s : Session)
        → redeemed ≡ some s
        → taken s ≡ false
        → owner s ≡ none
        → r ≡ (err (auth account_disabled), revoked_db s.id)
        → q ≡ (err (auth account_disabled), db)
        → Outcome r q
    -- the token is rotated, and an access token minted
    renewed :
        (s : Session) (u : User)
        → redeemed ≡ some s
        → taken s ≡ false
        → owner s ≡ some u
        → r ≡ (
          ok (k.mint u.id s.id now, new_raw),
          write_refresh s.id (k.digest new_raw) (now + k.refresh_ttl) db,
        )
        → q ≡ (
          ok (k.mint u.id s.id now, new_raw),
          write_refresh s.id (k.digest new_raw) (now + k.refresh_ttl) db,
        )
        → Outcome r q

  abbrev rotated : Session → Db
  rotated s = write_refresh s.id (k.digest new_raw) (now + k.refresh_ttl) db

  revoke-rotated :
      (s : Session)
      → is_none s.revoked_at ≡ true
      → revoke now (set_refresh (k.digest new_raw) (now + k.refresh_ttl) s) (rotated s)
        ≡ (ok tt, revoked_db s.id)
  unfolding revoke
  revoke-rotated s e = ground (
    arith,
    update_where_twice s.id (set_refresh (k.digest new_raw) (now + k.refresh_ttl)) (set_revoked now)
        db.sessions (λ x. refl),
  )

  module _ (u : count (has_refresh_hash (k.digest raw)) db.sessions ≤ 1) where
    call_refused :
        redeemed ≡ none → refresh k now raw new_raw db ≡ (err (auth invalid_refresh_token), db)
    unfolding refresh
    call_refused e = ground (arith, refresh_dead k now raw new_raw db u e)

    call_clash :
        (s : Session)
        → redeemed ≡ some s
        → taken s ≡ true
        → refresh k now raw new_raw db ≡ (err integrity_error, db)
    unfolding refresh
    call_clash s e c = ground (arith, refresh_clash k now raw new_raw db u s e c)

    call_undone :
        (s : Session)
        → redeemed ≡ some s
        → taken s ≡ false
        → owner s ≡ none
        → refresh k now raw new_raw db ≡ (err (auth account_disabled), revoked_db s.id)
    unfolding refresh Users.get_by_id
    call_undone s e c gone = ground (
      arith,
      refresh_done k now raw new_raw db u s e c,
      revoke-rotated s
          (live_active now (first_where (has_refresh_hash (k.digest raw)) db.sessions) s e),
    )

    call_renewed :
        (s : Session) (w : User)
        → redeemed ≡ some s
        → taken s ≡ false
        → owner s ≡ some w
        → refresh k now raw new_raw db ≡ (ok (k.mint w.id s.id now, new_raw), rotated s)
    unfolding refresh Users.get_by_id
    call_renewed s w e c there = ground (arith, refresh_done k now raw new_raw db u s e c)

    -- A refresh ends in one of four ways, and its request commits or undoes what the call wrote:
    -- no active session has the token, or another has the new one, and nothing changes; the owner
    -- is disabled or gone, so the call rotates the token, revokes the session and raises, and the
    -- request undoes both; or the token is rotated, and an access token of the owner is returned.
    -- One session at most has the hash of the token.
    pub refresh-Outcome :
        Outcome (refresh k now raw new_raw db) (request (refresh k now raw new_raw) db)
    refresh-Outcome = elim (Option-cases redeemed) [
      | inl e ↦
          let same = call_refused e in
          refused e same (request_failed (refresh k now raw new_raw) _ db _ same)
      | inr (s, e) ↦ elim (Bool-cases (taken s)) [
        | inl c ↦
            let same = call_clash s e c in
            clash s e c same (request_failed (refresh k now raw new_raw) _ db _ same)
        | inr c ↦ elim (Option-cases (owner s)) [
          | inl gone ↦
              let same = call_undone s e c gone in
              undone s e c gone same (request_failed (refresh k now raw new_raw) _ db _ same)
          | inr (w, there) ↦
              let same = call_renewed s w e c there in
              renewed s w e c there same (request_returned (refresh k now raw new_raw) _ db _ same)
        ]
      ]
    ]
