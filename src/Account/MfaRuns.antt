-- ===== src/Account/MfaRuns.antt =====
-- Sequences of operations on the second factor, and what it asks of a login.
use pqc_grade_a.Base.{
  ℕ, ◌≡◌, ◌↔◌, ◌⊎◌, refl, sym, ◌∙◌, true, Option, none, some, List, [], ◌∷◌, Text, arith,
  first_where, inl, inr, Option-cases, Bool-cases,
}
use pqc_grade_a.Errors.{auth, mfa_enrollment_not_found, mfa_not_enabled, mfa_required}
use pqc_grade_a.Db.{Db, User, MfaFactor}
use pqc_grade_a.Exec.{Action, ok, err, or_raise, modify, request, ◌>>=◌, ◌>>◌}
use pqc_grade_a.Exec.Keeps.{Keeps, Keeps-read, Keeps-bind, Keeps-or_raise, Keeps-request}
use pqc_grade_a.Account.Platform.{Platform}
use pqc_grade_a.Account.Mfa.{
  is_active, is_factor, get_active_for_user, get_pending_for_user, set_enabled, set_disabled,
  write_factor, enroll, decrypt_secret, check_code, confirm, Proof, password, code, check_proof,
  disable, given, verify_login_code,
}
use pqc_grade_a.Account.MfaLaws.{
  OneFactor, is_open, count-update_where_le, enroll-Keeps, get_active_lem,
}

-- A check of a code reads only.
check_code_lem :
    (k : Platform) (now : ℕ) (f : MfaFactor) (c : Text) (db : Db) → (check_code k now f c db).1 ≡ db
unfolding check_code decrypt_secret
check_code_lem k now f c db =
    elim (Option-cases (k.decrypt f.user_id (f.secret_ciphertext, f.secret_nonce))) [
      | inl e ↦ rw e refl
      | inr (s, e) ↦ rw e refl
    ]

get_pending-Keeps : (u : ℕ) → Keeps OneFactor (get_pending_for_user u)
unfolding get_pending_for_user
get_pending-Keeps u = Keeps-read (get_pending_for_user u) (λ db. refl)

get_active-Keeps : (u : ℕ) → Keeps OneFactor (get_active_for_user u)
unfolding get_active_for_user
get_active-Keeps u = Keeps-read (get_active_for_user u) (λ db. refl)

write_factor-OneFactor :
    (i : ℕ) (f : MfaFactor → MfaFactor) (db : Db)
    → ((u : ℕ) (x : MfaFactor) → is_open u (f x) ≡ true → is_open u x ≡ true)
    → OneFactor db
    → OneFactor (write_factor i f db)
write_factor-OneFactor i f db h v = record {
  open_unique = λ u.
      omega (
        arith,
        v.open_unique u,
        count-update_where_le (is_open u) (is_factor i) f db.factors (h u),
      );
}

confirm-Keeps : (k : Platform) (now : ℕ) (u : User) (c : Text) → Keeps OneFactor (confirm k now u c)
unfolding confirm
confirm-Keeps k now u c =
    let write : MfaFactor → Action (Unit {0}) = λ f. modify (write_factor f.id (set_enabled now)) in
    Keeps-bind (get_pending_for_user u.id)
      (λ found.
        or_raise found (auth mfa_enrollment_not_found) >>= λ f. check_code k now f c >> write f)
      (get_pending-Keeps u.id)
      (λ found.
        Keeps-bind (or_raise found (auth mfa_enrollment_not_found))
          (λ f. check_code k now f c >> write f)
          (Keeps-or_raise found (auth mfa_enrollment_not_found))
          (λ f.
            Keeps-bind (check_code k now f c) (λ _. write f)
              (Keeps-read (check_code k now f c) (check_code_lem k now f c))
              (λ _. record {
                after = λ db v. write_factor-OneFactor f.id (set_enabled now) db (λ u x h. h) v;
              })))

check_proof_lem :
    (k : Platform) (now : ℕ) (u : User) (f : MfaFactor) (p : Proof) (db : Db)
    → (check_proof k now u f p db).1 ≡ db
unfolding check_proof
check_proof_lem k now u f (password p) db = refl
check_proof_lem k now u f (code c) db = check_code_lem k now f c db

disable-Keeps :
    (k : Platform) (now : ℕ) (u : User) (p : Proof) → Keeps OneFactor (disable k now u p)
unfolding disable
disable-Keeps k now u p =
    let write : MfaFactor → Action (Unit {0}) =
      λ f. modify (write_factor f.id (set_disabled now)) in
    Keeps-bind (get_active_for_user u.id)
      (λ found. or_raise found (auth mfa_not_enabled) >>= λ f. check_proof k now u f p >> write f)
      (get_active-Keeps u.id)
      (λ found.
        Keeps-bind (or_raise found (auth mfa_not_enabled)) (λ f. check_proof k now u f p >> write f)
          (Keeps-or_raise found (auth mfa_not_enabled))
          (λ f.
            Keeps-bind (check_proof k now u f p) (λ _. write f)
              (Keeps-read (check_proof k now u f p) (check_proof_lem k now u f p))
              (λ _. record {
                after = λ db v.
                    write_factor-OneFactor f.id (set_disabled now) db (λ u x h. ground arith) v;
              })))

-- The requests of the users about their second factors, with the secret that an enrollment draws.
pub data MfaRequest : Type 0 where
  enroll_with : Text → MfaRequest
  confirm_with : Text → MfaRequest
  disable_with : Proof → MfaRequest

abbrev pub mfa_request : Platform → ℕ → User → MfaRequest → Db → Db
mfa_request k now u (enroll_with secret) db = (request (enroll k now u secret) db).1
mfa_request k now u (confirm_with c) db = (request (confirm k now u c) db).1
mfa_request k now u (disable_with p) db = (request (disable k now u p) db).1

unfoldable pub serve_mfa : Platform → List (ℕ × User × MfaRequest) → Db → Db
serve_mfa k [] db = db
serve_mfa k ((now, u, r) ∷ rs) db = serve_mfa k rs (mfa_request k now u r db)

mfa_request-OneFactor :
    (k : Platform) (now : ℕ) (u : User) (r : MfaRequest) (db : Db)
    → OneFactor db
    → OneFactor (mfa_request k now u r db)
mfa_request-OneFactor k now u (enroll_with secret) db v =
    (Keeps-request (enroll k now u secret) (enroll-Keeps k now u secret)).after db v
mfa_request-OneFactor k now u (confirm_with c) db v =
    (Keeps-request (confirm k now u c) (confirm-Keeps k now u c)).after db v
mfa_request-OneFactor k now u (disable_with p) db v =
    (Keeps-request (disable k now u p) (disable-Keeps k now u p)).after db v

-- Whatever users do about their second factors, each has one at most that is not disabled, if this
-- held before.
pub serve_mfa-OneFactor :
    (k : Platform) (rs : List (ℕ × User × MfaRequest)) (db : Db)
    → OneFactor db
    → OneFactor (serve_mfa k rs db)
unfolding serve_mfa
serve_mfa-OneFactor k [] db v = v
serve_mfa-OneFactor k ((now, u, r) ∷ rs) db v =
    serve_mfa-OneFactor k rs (mfa_request k now u r db) (mfa_request-OneFactor k now u r db v)

-- The factor of the user accepts the code.
pub record Accepts (k : Platform) (now : ℕ) (f : MfaFactor) (totp_code : Option Text) : Type 0 where
  pub typed : Text
  pub present : given totp_code ≡ some typed
  pub secret : Text
  pub opened : k.decrypt f.user_id (f.secret_ciphertext, f.secret_nonce) ≡ some secret
  pub matches : k.totp_verify now secret typed ≡ true

module _ (k : Platform) (now : ℕ) (u : User) (totp_code : Option Text) (db : Db)
    (v : OneFactor db) where
  pub login_plain :
      first_where (is_active u.id) db.factors ≡ none
      → verify_login_code k now u totp_code db ≡ (ok tt, db)
  unfolding verify_login_code
  login_plain e = ground (arith, get_active_lem db v u.id)

  pub login_untyped :
      (f : MfaFactor)
      → first_where (is_active u.id) db.factors ≡ some f
      → given totp_code ≡ none
      → verify_login_code k now u totp_code db ≡ (err (auth mfa_required), db)
  unfolding verify_login_code
  login_untyped f e g = ground (arith, get_active_lem db v u.id)

  pub login_typed :
      (f : MfaFactor) (c : Text)
      → first_where (is_active u.id) db.factors ≡ some f
      → given totp_code ≡ some c
      → verify_login_code k now u totp_code db ≡ check_code k now f c db
  unfolding verify_login_code
  login_typed f c e g = ground (arith, get_active_lem db v u.id)

  accepted :
      (f : MfaFactor) (c : Text)
      → given totp_code ≡ some c
      → check_code k now f c db ≡ (ok tt, db)
      → Accepts k now f totp_code
  unfolding check_code decrypt_secret
  accepted f c g h =
      elim (Option-cases (k.decrypt f.user_id (f.secret_ciphertext, f.secret_nonce))) [
        | inl e ↦ absurd (ground arith)
        | inr (s, e) ↦ elim (Bool-cases (k.totp_verify now s c)) [
          | inl m ↦ record { typed = c; present = g; secret = s; opened = e; matches = m }
          | inr m ↦ absurd (ground arith)
        ]
      ]

  accepting :
      (f : MfaFactor) (a : Accepts k now f totp_code) → check_code k now f a.typed db ≡ (ok tt, db)
  unfolding check_code decrypt_secret
  accepting f a = ground (arith, a.opened, a.matches)

  -- The step-up of a login passes exactly if the user has no active factor, or has one whose
  -- decrypted secret accepts the code that was typed. One factor of a user at most is not
  -- disabled.
  pub verify_login_code_iff : (verify_login_code k now u totp_code db ≡ (ok tt, db)) ↔ (
      (first_where (is_active u.id) db.factors ≡ none)
      ⊎ ((f : MfaFactor) × (first_where (is_active u.id) db.factors ≡ some f)
          × Accepts k now f totp_code))
  verify_login_code_iff = (
    (λ h. elim (Option-cases (first_where (is_active u.id) db.factors)) [
      | inl e ↦ inl e
      | inr (f, e) ↦ elim (Option-cases (given totp_code)) [
        | inl g ↦ cc (login_untyped f e g)
        | inr (c, g) ↦ inr (f, e, accepted f c g (sym (login_typed f c e g) ∙ h))
      ]
    ]),
    (λ o. elim o [
      | inl e ↦ login_plain e
      | inr (f, e, a) ↦ login_typed f a.typed e a.present ∙ accepting f a
    ]),
  )
