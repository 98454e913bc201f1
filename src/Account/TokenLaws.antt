-- ===== src/Account/TokenLaws.antt =====
-- Email verification: a token is good once.
use mathlib.Core.Option
use pqc_grade_a.Base.{
  ℕ, ◌≤◌, ◌≡◌, refl, ◌∙◌, ap, Bool, true, Option, none, some, Text, ◌==◌, ==_refl, arith,
  first_where, count, inl, inr, Option-cases, first_where-update_where, count-update_where, touched,
}
use pqc_grade_a.Errors.{auth, invalid_verification_token}
use pqc_grade_a.Db.{Db, User, EmailVerificationToken, token_is_valid}
use pqc_grade_a.Exec.{ok, err}
use pqc_grade_a.Exec.Keeps.{returns_once}
use pqc_grade_a.Exec.Rows.{scalar_select}
use pqc_grade_a.Conversation.Repository.{is_user}
use pqc_grade_a.Account.Platform.{Platform}
use pqc_grade_a.Account.Users
use pqc_grade_a.Account.Users.{has_hash, get_by_token_hash, write_verified, write_used}
use pqc_grade_a.Account.Auth.{verify_email, valid_token}

get_by_token_hash_lem :
    (db : Db) (h : Text)
    → count (has_hash h) db.tokens ≤ 1
    → get_by_token_hash h db ≡ (ok (first_where (has_hash h) db.tokens), db)
unfolding get_by_token_hash
get_by_token_hash_lem db h u = rw (scalar_select (has_hash h) db.tokens u) refl

abbrev pub verified : ℕ → User → EmailVerificationToken → Db → Db
verified now u t db = write_used now t.id (write_verified u.id db)

module _ (k : Platform) (now : ℕ) (raw : Text) (db : Db)
    (u : count (has_hash (k.digest raw)) db.tokens ≤ 1) where
  verify_refused :
      valid_token now (first_where (has_hash (k.digest raw)) db.tokens) ≡ none
      → verify_email k now raw db ≡ (err (auth invalid_verification_token), db)
  unfolding verify_email
  verify_refused e = ground (arith, get_by_token_hash_lem db (k.digest raw) u)

  verify_orphan :
      (t : EmailVerificationToken)
      → valid_token now (first_where (has_hash (k.digest raw)) db.tokens) ≡ some t
      → first_where (is_user t.user_id) db.users ≡ none
      → verify_email k now raw db ≡ (err (auth invalid_verification_token), db)
  unfolding verify_email Users.get_by_id
  verify_orphan t e n = ground (arith, get_by_token_hash_lem db (k.digest raw) u)

  verify_done :
      (t : EmailVerificationToken) (x : User)
      → valid_token now (first_where (has_hash (k.digest raw)) db.tokens) ≡ some t
      → first_where (is_user t.user_id) db.users ≡ some x
      → verify_email k now raw db ≡ (ok true, verified now x t db)
  unfolding verify_email Users.get_by_id
  verify_done t x e n = ground (arith, get_by_token_hash_lem db (k.digest raw) u)

valid_token_found :
    (now : ℕ) (o : Option EmailVerificationToken) (t : EmailVerificationToken)
    → valid_token now o ≡ some t
    → (o ≡ some t) × (token_is_valid now t ≡ true)
valid_token_found now none t h = cc
valid_token_found now (some s) t h = ground arith

-- When a verification token has verified an email, the owner's row says so, and the same token is
-- refused at any later time. Token hashes are unique.
pub verify_email_once :
    (k : Platform) (now later : ℕ) (raw : Text) (db db' : Db) (b : Bool)
    → ((h : Text) → count (has_hash h) db.tokens ≤ 1)
    → verify_email k now raw db ≡ (ok b, db')
    → ((t : EmailVerificationToken) × (u : User) × (first_where (has_hash (k.digest raw)) db.tokens
          ≡ some t)
        × (token_is_valid now t ≡ true)
        × (first_where (is_user t.user_id) db'.users ≡ some (record u { email_verified = true })))
      × (verify_email k later raw db' ≡ (err (auth invalid_verification_token), db'))
unfolding token_is_valid
verify_email_once k now later raw db db' b unique h =
    let hash : Text = k.digest raw in
    elim (Option-cases (valid_token now (first_where (has_hash hash) db.tokens))) [
      | inl e ↦ cc (verify_refused k now raw db (unique hash) e)
      | inr (t, e) ↦ elim (Option-cases (first_where (is_user t.user_id) db.users)) [
        | inl n ↦ cc (verify_orphan k now raw db (unique hash) t e n)
        | inr (x, n) ↦
            let (found, good) = valid_token_found now (first_where (has_hash hash) db.tokens) t e in
            let ed : db' ≡ verified now x t db =
              (returns_once (verify_email k now raw db) true b (verified now x t db) db'
                (verify_done k now raw db (unique hash) t x e n) h).1 in
            let used : EmailVerificationToken → EmailVerificationToken =
              λ y. record y { used_at = some now } in
            let verify : User → User = λ y. record y { email_verified = true } in
            let kept =
              first_where-update_where (has_hash hash) (λ y. y.id == t.id) used db.tokens
                (λ y. refl) in
            (
              (
                t,
                x,
                found,
                good,
                rw ed (
                    first_where-update_where (is_user t.user_id) (is_user x.id) verify db.users
                      (λ y. refl)
                    ∙ ap (Option.map (touched (is_user x.id) verify)) n
                    ∙ ground (arith, ==_refl x.id)),
              ),
              rw ed (
                  verify_refused k later raw (verified now x t db)
                    (rw
                      (count-update_where (has_hash hash) (λ y. y.id == t.id) used db.tokens
                        (λ y. refl))
                      (unique hash))
                    (ap (valid_token later)
                        (kept ∙ ap (Option.map (touched (λ y. y.id == t.id) used)) found)
                      ∙ ground (arith, ==_refl t.id))),
            )
      ]
    ]
