-- ===== src/Account/Revocation.antt =====
-- The revocation of a session by its owner.
use mathlib.Core.Option
use pqc_grade_a.Base.{
  ℕ, ◌≡◌, refl, sym, ◌∙◌, ap, true, Option, none, some, Text, ==_refl, arith, is_none,
  if◌then◌else◌, first_where, inl, inr, Option-cases, count-update_where, first_where-update_where,
  touched,
}
use pqc_grade_a.Errors.{auth, invalid_refresh_token, session_not_found}
use pqc_grade_a.Db.{Db, Session, session_is_active}
use pqc_grade_a.Exec.{ok, err}
use pqc_grade_a.Exec.Keeps.{returns_once}
use pqc_grade_a.Account.Platform.{Platform}
use pqc_grade_a.Account.Sessions
use pqc_grade_a.Account.Sessions.{
  is_session, has_refresh_hash, get_by_refresh_token_hash, rotate_refresh_token, set_refresh,
  write_refresh, live, refresh_session, set_revoked, write_revoked, revoke,
}
use pqc_grade_a.Account.Auth.{owned, revoke_session}
use pqc_grade_a.Account.SessionLaws.{UniqueSessions, refresh_dead, live_found}

revoke_lem :
    (now : ℕ) (s : Session) (db : Db)
    → revoke now s db ≡ (ok tt, if is_none s.revoked_at then write_revoked now s.id db else db)
unfolding revoke
revoke_lem now s db = ground arith

pub live_active :
    (now : ℕ) (o : Option Session) (s : Session) → live now o ≡ some s → is_none s.revoked_at ≡ true
unfolding session_is_active
live_active now o s h = ground (arith, live_found now o s h)

module _ (now user i : ℕ) (db : Db) where
  revoke_session_refused :
      live now (owned user (first_where (is_session i) db.sessions)) ≡ none
      → revoke_session now user i db ≡ (err (auth session_not_found), db)
  unfolding revoke_session Sessions.get_by_id
  revoke_session_refused e = ground arith

  revoke_session_done :
      (s : Session)
      → live now (owned user (first_where (is_session i) db.sessions)) ≡ some s
      → revoke_session now user i db ≡ (ok tt, write_revoked now s.id db)
  unfolding revoke_session Sessions.get_by_id
  revoke_session_done s e = ground (
    arith,
    revoke_lem now s db,
    live_active now (owned user (first_where (is_session i) db.sessions)) s e,
  )

owned_found :
    (u : ℕ) (o : Option Session) (s : Session) → owned u o ≡ some s → (o ≡ some s) × (s.user_id ≡ u)
owned_found u none s h = cc
owned_found u (some t) s h = ground arith

-- A user revokes a session by its id only if it is theirs and active, and from then on its refresh
-- token is refused. Refresh token hashes are unique.
pub revoke_session_ends :
    (k : Platform) (now later user i : ℕ) (raw new_raw : Text) (db db' : Db) (s : Session)
    → UniqueSessions db
    → first_where (is_session i) db.sessions ≡ some s
    → first_where (has_refresh_hash (k.digest raw)) db.sessions ≡ some s
    → revoke_session now user i db ≡ (ok tt, db')
    → (s.user_id ≡ user)
      × (session_is_active now s ≡ true)
      × (refresh_session k later raw new_raw db' ≡ (err (auth invalid_refresh_token), db'))
unfolding session_is_active
revoke_session_ends k now later user i raw new_raw db db' s v mine hashed h =
    elim (Option-cases (live now (owned user (first_where (is_session i) db.sessions)))) [
      | inl e ↦ cc (revoke_session_refused now user i db e)
      | inr (t, e) ↦
          let (o, act) = live_found now (owned user (first_where (is_session i) db.sessions)) t e in
          let (f, own) = owned_found user (first_where (is_session i) db.sessions) t o in
          let same : t ≡ s = ground arith in
          let ed : db' ≡ write_revoked now s.id db =
            (returns_once (revoke_session now user i db) tt tt (write_revoked now t.id db) db'
              (revoke_session_done now user i db t e) h).1
            ∙ ap (λ x. write_revoked now x.id db) same in
          let kept =
            first_where-update_where (has_refresh_hash (k.digest raw)) (is_session s.id)
              (set_revoked now) db.sessions (λ x. refl) in
          (
            sym (ap (λ x. x.user_id) same) ∙ own,
            sym (ap (session_is_active now) same) ∙ act,
            rw ed (
                refresh_dead k later raw new_raw (write_revoked now s.id db)
                  (rw
                    (count-update_where (has_refresh_hash (k.digest raw)) (is_session s.id)
                      (set_revoked now) db.sessions (λ x. refl))
                    (v.hash_unique (k.digest raw)))
                  (ap (live later)
                      (kept ∙ ap (Option.map (touched (is_session s.id) (set_revoked now))) hashed)
                    ∙ ground (arith, ==_refl s.id))),
          )
    ]
