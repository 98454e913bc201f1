-- ===== src/Account/LoginLaws.antt =====
-- When a login succeeds and what it writes.
use pqc_grade_a.Base.{
  ℕ, ◌+◌, ◌≤◌, ◌≡◌, refl, true, false, Option, none, some, [], ◌∷◌, ◌++◌, Text, arith, first_where,
  exists, count,
}
use pqc_grade_a.Errors.{
  Error, auth, invalid_credentials, account_disabled, email_not_verified, integrity_error,
}
use pqc_grade_a.Db.{Db, User}
use pqc_grade_a.Exec.{ok, err, fresh_id}
use pqc_grade_a.Exec.Rows.{scalar_select}
use pqc_grade_a.Conversation.Repository.{is_user}
use pqc_grade_a.Account.Platform.{Platform}
use pqc_grade_a.Account.Users.{has_email, get_by_email}
use pqc_grade_a.Account.Sessions
use pqc_grade_a.Account.Sessions.{has_refresh_hash, new_session, create_session}
use pqc_grade_a.Account.Mfa.{verify_login_code}
use pqc_grade_a.Account.Auth.{login, authenticated, is_disabled}

abbrev pub account : Platform → Text → Db → Option User
account k email db = first_where (has_email (k.lower (k.lower email))) db.users

get_by_email_lem :
    (k : Platform) (email : Text) (db : Db)
    → ((e : Text) → count (has_email e) db.users ≤ 1)
    → get_by_email k (k.lower email) db ≡ (ok (account k email db), db)
unfolding get_by_email
get_by_email_lem k email db u =
    rw (scalar_select (has_email (k.lower (k.lower email))) db.users (u (k.lower (k.lower email))))
      refl

abbrev pub signed_in : Platform → ℕ → User → Option Text → Text → Db → Db
signed_in k now u device raw db = record db {
  sessions = db.sessions ++ new_session k now u.id device raw db.next_id ∷ [];
  next_id = db.next_id + 1;
}

module _ (k : Platform) (now : ℕ) (email password : Text) (device totp_code : Option Text)
    (raw : Text) (db : Db) (unique : (e : Text) → count (has_email e) db.users ≤ 1) where
  pub login_stranger :
      authenticated k password (account k email db) ≡ none
      → login k now email password device totp_code raw db ≡ (err (auth invalid_credentials), db)
  unfolding login
  login_stranger e = ground (arith, get_by_email_lem k email db unique)

  pub login_disabled :
      (u : User)
      → authenticated k password (account k email db) ≡ some u
      → is_disabled u ≡ true
      → login k now email password device totp_code raw db ≡ (err (auth account_disabled), db)
  unfolding login
  login_disabled u e d = ground (arith, get_by_email_lem k email db unique)

  pub login_unverified :
      (u : User)
      → authenticated k password (account k email db) ≡ some u
      → is_disabled u ≡ false
      → u.email_verified ≡ false
      → login k now email password device totp_code raw db ≡ (err (auth email_not_verified), db)
  unfolding login
  login_unverified u e d w = ground (arith, get_by_email_lem k email db unique)

  pub login_stopped :
      (u : User) (x : Error)
      → authenticated k password (account k email db) ≡ some u
      → is_disabled u ≡ false
      → u.email_verified ≡ true
      → verify_login_code k now u totp_code db ≡ (err x, db)
      → login k now email password device totp_code raw db ≡ (err x, db)
  unfolding login
  login_stopped u x e d w m = ground (arith, get_by_email_lem k email db unique)

  pub login_clash :
      (u : User)
      → authenticated k password (account k email db) ≡ some u
      → is_disabled u ≡ false
      → u.email_verified ≡ true
      → verify_login_code k now u totp_code db ≡ (ok tt, db)
      → exists (is_user u.id) db.users ≡ true
      → exists (has_refresh_hash (k.digest raw)) db.sessions ≡ true
      → login k now email password device totp_code raw db ≡ (err integrity_error, db)
  unfolding login create_session Sessions.add
  login_clash u e d w m known c = ground (arith, get_by_email_lem k email db unique)

  pub login_done :
      (u : User)
      → authenticated k password (account k email db) ≡ some u
      → is_disabled u ≡ false
      → u.email_verified ≡ true
      → verify_login_code k now u totp_code db ≡ (ok tt, db)
      → exists (is_user u.id) db.users ≡ true
      → exists (has_refresh_hash (k.digest raw)) db.sessions ≡ false
      → login k now email password device totp_code raw db
        ≡ (ok (k.mint u.id db.next_id now, raw), signed_in k now u device raw db)
  unfolding login create_session Sessions.add fresh_id
  login_done u e d w m known c = ground (arith, get_by_email_lem k email db unique)
