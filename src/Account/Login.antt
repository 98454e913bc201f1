-- ===== src/Account/Login.antt =====
-- Who may log in.
use pqc_grade_a.Base.{
  ℕ, ◌≤◌, ◌≡◌, ◌↔◌, ◌⊎◌, refl, ◌∙◌, true, false, Option, none, some, Text, ==_refl, arith,
  first_where, exists, count, inl, inr, Option-cases, Bool-cases, count_of_found,
  count_of_not_exists,
}
use pqc_grade_a.Errors.{Error, auth, invalid_mfa_code, mfa_required, decryption_error}
use pqc_grade_a.Db.{Db, User, MfaFactor}
use pqc_grade_a.Exec.{Result, ok, err}
use pqc_grade_a.Conversation.Repository.{is_user}
use pqc_grade_a.Account.Platform.{Platform}
use pqc_grade_a.Account.Users.{has_email}
use pqc_grade_a.Account.Sessions.{has_refresh_hash}
use pqc_grade_a.Account.Mfa.{is_active, check_code, decrypt_secret, given, verify_login_code}
use pqc_grade_a.Account.MfaLaws.{OneFactor}
use pqc_grade_a.Account.MfaRuns.{login_plain, login_untyped, login_typed}
use pqc_grade_a.Account.Auth.{login, authenticated, is_disabled}
use pqc_grade_a.Account.LoginLaws.{
  account, signed_in, login_stranger, login_disabled, login_unverified, login_stopped, login_clash,
  login_done,
}

-- A check returns or raises, and changes nothing.
abbrev Checks : Result (Unit {0}) × Db → Db → Type 0
Checks r db = (r ≡ (ok tt, db)) ⊎ ((x : Error) × (r ≡ (err x, db)))

check_code_cases :
    (k : Platform) (now : ℕ) (f : MfaFactor) (c : Text) (db : Db)
    → Checks (check_code k now f c db) db
unfolding check_code decrypt_secret
check_code_cases k now f c db =
    elim (Option-cases (k.decrypt f.user_id (f.secret_ciphertext, f.secret_nonce))) [
      | inl e ↦ inr (decryption_error, (rw e refl))
      | inr (s, e) ↦ elim (Bool-cases (k.totp_verify now s c)) [
        | inl m ↦ inl (rw (e, m) refl)
        | inr m ↦ inr (auth invalid_mfa_code, (rw (e, m) refl))
      ]
    ]

step_up_cases :
    (k : Platform) (now : ℕ) (u : User) (totp_code : Option Text) (db : Db)
    → OneFactor db
    → Checks (verify_login_code k now u totp_code db) db
step_up_cases k now u totp_code db v =
    elim (Option-cases (first_where (is_active u.id) db.factors)) [
      | inl e ↦ inl (login_plain k now u totp_code db v e)
      | inr (f, e) ↦ elim (Option-cases (given totp_code)) [
        | inl g ↦ inr (auth mfa_required, login_untyped k now u totp_code db v f e g)
        | inr (c, g) ↦ elim (check_code_cases k now f c db) [
          | inl h ↦ inl (login_typed k now u totp_code db v f c e g ∙ h)
          | inr (x, h) ↦ inr (x, login_typed k now u totp_code db v f c e g ∙ h)
        ]
      ]
    ]

-- The email is of an account, the password is right, the account is enabled and its email verified,
-- the second factor passes, and the refresh token that is drawn is new.
pub record MayLogin (k : Platform) (now : ℕ) (email password : Text) (totp_code : Option Text)
    (raw : Text) (db : Db) : Type 0 where
  pub user : User
  pub knows : authenticated k password (account k email db) ≡ some user
  pub enabled : is_disabled user ≡ false
  pub verified : user.email_verified ≡ true
  pub second_factor : verify_login_code k now user totp_code db ≡ (ok tt, db)
  pub fresh : exists (has_refresh_hash (k.digest raw)) db.sessions ≡ false

pub authenticated_found :
    (k : Platform) (password : Text) (o : Option User) (u : User)
    → authenticated k password o ≡ some u
    → o ≡ some u
authenticated_found k password none u h = cc
authenticated_found k password (some x) u h = ground arith

module _ (k : Platform) (now : ℕ) (email password : Text) (device totp_code : Option Text)
    (raw : Text) (db : Db) (unique : (e : Text) → count (has_email e) db.users ≤ 1)
    (v : OneFactor db) where
  known :
      (u : User)
      → authenticated k password (account k email db) ≡ some u
      → exists (is_user u.id) db.users ≡ true
  known u e = elim (Bool-cases (exists (is_user u.id) db.users)) [
    | inl h ↦ h
    | inr h ↦ absurd (
        omega (
          arith,
          count_of_not_exists (is_user u.id) db.users h,
          count_of_found (has_email (k.lower (k.lower email))) (is_user u.id) db.users u
              (authenticated_found k password (account k email db) u e) (==_refl u.id),
        ))
  ]

  -- What comes out: an error with nothing changed, or a session more for a user who may log in.
  abbrev Outcome : Result (Text × Text) × Db → Type 0
  Outcome r =
      ((x : Error) × (r ≡ (err x, db)))
      ⊎ ((m : MayLogin k now email password totp_code raw db) × (r
            ≡ (ok (k.mint m.user.id db.next_id now, raw), signed_in k now m.user device raw db)))

  -- A login fails and leaves the database as it was, or the user may log in, and what changes is
  -- one session more, of that user. Emails are unique, and one factor of a user at most is not
  -- disabled.
  pub login-Outcome : Outcome (login k now email password device totp_code raw db)
  login-Outcome = elim (Option-cases (authenticated k password (account k email db))) [
    | inl e ↦ inl (_, login_stranger k now email password device totp_code raw db unique e)
    | inr (u, e) ↦ elim (Bool-cases (is_disabled u)) [
      | inl d ↦ inl (_, login_disabled k now email password device totp_code raw db unique u e d)
      | inr d ↦ elim (Bool-cases u.email_verified) [
        | inr w ↦
            inl (_, login_unverified k now email password device totp_code raw db unique u e d w)
        | inl w ↦ elim (step_up_cases k now u totp_code db v) [
          | inr (x, m) ↦
              inl (x, login_stopped k now email password device totp_code raw db unique u x e d w m)
          | inl m ↦ elim (Bool-cases (exists (has_refresh_hash (k.digest raw)) db.sessions)) [
            | inl c ↦ inl (
              _,
              login_clash k now email password device totp_code raw db unique u e d w m (known u e)
                  c,
            )
            | inr c ↦ inr (
              record {
                user = u;
                knows = e;
                enabled = d;
                verified = w;
                second_factor = m;
                fresh = c;
              },
              login_done k now email password device totp_code raw db unique u e d w m (known u e)
                  c,
            )
          ]
        ]
      ]
    ]
  ]

  -- A login succeeds exactly if the email is of an account, the password is right, the account is
  -- enabled and its email verified, the second factor passes and the refresh token that is drawn
  -- is new. Emails are unique, and one factor of a user at most is not disabled.
  pub login_iff :
      ((r : Text × Text) × (db' : Db) × (login k now email password device totp_code raw db
          ≡ (ok r, db')))
      ↔ MayLogin k now email password totp_code raw db
  login_iff = (
    (λ (r, db', h). elim login-Outcome [ inl (x, e) ↦ cc | inr (m, e) ↦ m ]),
    (λ m. (
      _,
      _,
      login_done k now email password device totp_code raw db unique m.user m.knows m.enabled
          m.verified m.second_factor (known m.user m.knows) m.fresh,
    )),
  )
