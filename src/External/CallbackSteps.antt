-- ===== src/External/CallbackSteps.antt =====
-- The steps of the callback of the OIDC flow.
use pqc_grade_a.Base.{
  ℕ, ◌+◌, ◌≡◌, refl, ap, ◌∙◌, true, false, Option, some, List, [], ◌∷◌, ◌++◌, Text, codes, arith,
  exists, first_where, count_of_not_exists, none_of_count, text_eq_refl,
}
use pqc_grade_a.Base.AppendLaws.{first_where_last}
use pqc_grade_a.Errors.{auth, account_disabled}
use pqc_grade_a.Db.{Db, User, Session, oidc}
use pqc_grade_a.Exec.{Action, Result, ok, pure, ◌>>=◌, ◌>>◌, raise_if, fresh_id}
use pqc_grade_a.Exec.Keeps.{returns_once, >>=-eq-ok, raise_if-eq-ok}
use pqc_grade_a.Conversation.Repository.{is_user}
use pqc_grade_a.Account.Platform.{Platform}
use pqc_grade_a.Account.Sessions.{has_refresh_hash, new_session, add, create_session}
use pqc_grade_a.Account.Auth.{is_disabled}
use pqc_grade_a.External.Clients.{ExternalProfile}
use pqc_grade_a.External.Linker.{find_or_create_user}
use pqc_grade_a.External.Service.{
  OidcClient, TokenResponse, client_of, get_client, device_of, sign_in, handle_callback,
}
use pqc_grade_a.External.Routes.{
  oauth_state, or_redirect, or_blank, incomplete, compare_digest, signed_in_response, oidc_callback,
}

module _ (k : Platform) (now : ℕ) (secret raw : Text) (clients : List (Text × OidcClient))
    (name : Text) (error code state cookie_state : Option Text) (db db' : Db) where
  -- The provider reported no error, the state is there and is that of the cookie, the provider is
  -- configured and answers for the code, the account is enabled, and it gets a session.
  pub record SignsIn : Type 0 where
    pub complete : incomplete error code state cookie_state ≡ false
    pub bound : compare_digest (or_blank state) (or_blank cookie_state) db ≡ (ok true, db)
    pub client : OidcClient
    pub configured : client_of clients name ≡ some client
    pub profile : ExternalProfile
    pub answered : client.exchange_code (or_blank code) ≡ some profile
    pub user : User
    pub linked_db : Db
    pub account : find_or_create_user k now secret oidc profile db ≡ (ok user, linked_db)
    pub enabled : is_disabled user ≡ false
    pub session : Session
    pub opened :
        create_session k now user.id (some (device_of (codes "OAuth") name)) raw linked_db
        ≡ (ok (session, raw), db')

  pub callback_done :
      SignsIn
      → oidc_callback k now secret raw clients name error code state cookie_state db
        ≡ (ok (signed_in_response oauth_state raw), db')
  unfolding oidc_callback handle_callback get_client sign_in or_redirect
  callback_done s =
      ground (arith, s.complete, s.bound, s.configured, s.answered, s.account, s.enabled, s.opened)

create_session_raw :
    (k : Platform) (now user : ℕ) (device : Option Text) (raw : Text) (db db' : Db)
    (s : Session × Text)
    → create_session k now user device raw db ≡ (ok s, db')
    → s.1 ≡ raw
unfolding create_session
create_session_raw k now user device raw db db' s h =
    let (row, db1, _, same) =
      >>=-eq-ok (add (new_session k now user device raw)) (λ row. pure (row, raw)) db h in
    let e : s ≡ (row, raw) = cc same in rw e refl

-- A session that was opened is stored, and its refresh token finds it.
module _ (k : Platform) (now user : ℕ) (device : Option Text) (raw : Text) (db : Db) where
  create_session_done :
      exists (is_user user) db.users ≡ true
      → exists (has_refresh_hash (k.digest raw)) db.sessions ≡ false
      → create_session k now user device raw db ≡ (
        ok (new_session k now user device raw db.next_id, raw),
        record db {
          sessions = db.sessions ++ new_session k now user device raw db.next_id ∷ [];
          next_id = db.next_id + 1;
        },
      )
  unfolding create_session add fresh_id
  create_session_done known fresh = ground arith

  create_session_checks :
      (s : Session) (db' : Db)
      → create_session k now user device raw db ≡ (ok (s, raw), db')
      → (exists (is_user user) db.users ≡ true)
        × (exists (has_refresh_hash (k.digest raw)) db.sessions ≡ false)
  unfolding create_session add
  create_session_checks s db' h = (ground arith, ground arith)

  pub create_session_stored :
      (s : Session) (db' : Db)
      → create_session k now user device raw db ≡ (ok (s, raw), db')
      → (first_where (has_refresh_hash (k.digest raw)) db'.sessions ≡ some s) × (s.user_id ≡ user)
  create_session_stored s db' h =
      let (known, fresh) = create_session_checks s db' h in
      let (es, ed) =
        returns_once (create_session k now user device raw db) _ (s, raw) _ db'
          (create_session_done known fresh) h in
      let row : s ≡ new_session k now user device raw db.next_id = ap (λ r. r.0) es in
      rw (ed, row)
        (
          first_where_last (has_refresh_hash (k.digest raw)) db.sessions
              (new_session k now user device raw db.next_id)
              (none_of_count (has_refresh_hash (k.digest raw)) db.sessions
                (count_of_not_exists (has_refresh_hash (k.digest raw)) db.sessions fresh))
              (text_eq_refl (k.digest raw)),
          refl,
        )

-- What a sign-in that returned has done.
pub sign_in-eq-ok :
    (k : Platform) (now : ℕ) (secret raw device : Text) (profile : ExternalProfile)
    (r : TokenResponse × Text) (db db' : Db)
    → sign_in k now secret raw oidc device profile db ≡ (ok r, db')
    → (u : User) × (db1 : Db) × (s : Session) × (find_or_create_user k now secret oidc profile db
        ≡ (ok u, db1))
      × (is_disabled u ≡ false)
      × (create_session k now u.id (some device) raw db1 ≡ (ok (s, raw), db'))
      × (r.1 ≡ raw)
unfolding sign_in
sign_in-eq-ok k now secret raw device profile r db db' h =
    let tokens : User → Session × Text → Action (TokenResponse × Text) = λ u s.
      pure
        (record { access_token = k.mint u.id s.0.id now; expires_at = now + k.access_ttl }, s.1) in
    let open_session : User → Action (TokenResponse × Text) =
      λ u. create_session k now u.id (some device) raw >>= tokens u in
    let (u, db1, found, rest) =
      >>=-eq-ok (find_or_create_user k now secret oidc profile)
        (λ u. raise_if (is_disabled u) (auth account_disabled) >> open_session u) db h in
    let (_, db2, passed, opened) =
      >>=-eq-ok (raise_if (is_disabled u) (auth account_disabled)) (λ _. open_session u) db1 rest in
    let (enabled, e2) = raise_if-eq-ok (is_disabled u) (auth account_disabled) db1 passed in
    let (s, db3, made, last) =
      >>=-eq-ok (create_session k now u.id (some device) raw) (tokens u) db2 opened in
    let e3 : db3 ≡ db' = ap (λ x. x.1) last in
    let er : s.1 ≡ raw = create_session_raw k now u.id (some device) raw db2 db3 s made in
    (
      u,
      db1,
      s.0,
      found,
      enabled,
      ap (create_session k now u.id (some device) raw) e2
          ∙ made
          ∙ ap {B = Result (Session × Text) × Db} (λ (d : Db). (ok s, d)) e3
          ∙ ap {B = Result (Session × Text) × Db} (λ (t : Text). (ok (s.0, t), db')) er,
      cc last ∙ er,
    )
