-- ===== src/Account/Users.antt =====
-- backend/src/repositories/user_repository.py and token_repository.py.
use pqc_grade_a.Base.{
  ℕ, Bool, true, ◌&&◌, ◌||◌, not, leb, length, Option, some, [], ◌∷◌, ◌++◌, Text, ◌==◌, text_eq,
  is_some, select, first_where, exists, update_where,
}
use pqc_grade_a.Errors.{integrity_error, data_error}
use pqc_grade_a.Db.{Db, User, EmailVerificationToken}
use pqc_grade_a.Exec.{
  Action, pure, gets, lift, ◌>>=◌, ◌>>◌, raise_if, modify, fresh_id, scalar_one_or_none,
}
use pqc_grade_a.Conversation.Repository.{is_user}
use pqc_grade_a.Account.Platform.{Platform}

abbrev pub has_email : Text → User → Bool
has_email email u = text_eq u.email email

abbrev pub has_username : Text → User → Bool
has_username username u = text_eq u.username username

abbrev pub has_hash : Text → EmailVerificationToken → Bool
has_hash h t = text_eq t.token_hash h

unfoldable pub get_by_id : ℕ → Action (Option User)
get_by_id i = gets (λ db. first_where (is_user i) db.users)

unfoldable pub get_by_email : Platform → Text → Action (Option User)
get_by_email k email = do
  rows ← gets (λ db. select (has_email (k.lower email)) db.users)
  lift (scalar_one_or_none rows)

unfoldable pub email_exists : Platform → Text → Action Bool
email_exists k email = do found ← get_by_email k email; pure (is_some found)

unfoldable pub get_by_username : Platform → Text → Action (Option User)
get_by_username k username = do
  rows ← gets (λ db. select (has_username (k.lower username)) db.users)
  lift (scalar_one_or_none rows)

unfoldable pub username_exists : Platform → Text → Action Bool
username_exists k username = do found ← get_by_username k username; pure (is_some found)

-- The columns of a text are `String(320)`, `String(32)` and `String(100)`. The hash of a password
-- has a fixed length, which fits its `String(255)`, and nothing sets the avatar of a new user.
unfoldable pub user_fits : User → Bool
user_fits u =
    leb (length u.email) 320 && (leb (length u.username) 32 && leb (length u.display_name) 100)

-- `BaseRepository.add` of a user, whose email and username are unique columns.
unfoldable pub add_user : (ℕ → User) → Action User
add_user row = do
  raise_if (not (user_fits (row 0))) data_error
  raise_if
      (← gets
        (λ db. exists (λ u. has_email (row 0).email u || has_username (row 0).username u) db.users))
      integrity_error
  i ← fresh_id
  modify (λ db. record db { users = db.users ++ row i ∷ [] })
  pure (row i)

-- `user.email_verified = True`, flushed with the commit.
abbrev pub write_verified : ℕ → Db → Db
write_verified i db = record db {
  users = update_where (is_user i) (λ u. record u { email_verified = true }) db.users;
}

unfoldable pub get_by_token_hash : Text → Action (Option EmailVerificationToken)
get_by_token_hash h = do
  rows ← gets (λ db. select (has_hash h) db.tokens)
  lift (scalar_one_or_none rows)

unfoldable pub add_token : (ℕ → EmailVerificationToken) → Action EmailVerificationToken
add_token row = do
  raise_if (← gets (λ db. exists (has_hash (row 0).token_hash) db.tokens)) integrity_error
  i ← fresh_id
  modify (λ db. record db { tokens = db.tokens ++ row i ∷ [] })
  pure (row i)

-- `record.used_at = datetime.now(UTC)`
abbrev pub write_used : ℕ → ℕ → Db → Db
write_used now i db = record db {
  tokens = update_where (λ t. t.id == i) (λ t. record t { used_at = some now }) db.tokens;
}
