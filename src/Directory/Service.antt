-- ===== src/Directory/Service.antt =====
-- `search_by_username_prefix` of backend/src/repositories/user_repository.py,
-- backend/src/services/user_service.py, and its routes in backend/src/api/v1/users.py.
use pqc_grade_a.Base.{
  ℕ, Bool, false, not, List, [], ◌∷◌, ◌++◌, map, Text, is_some, length, take, select,
}
use pqc_grade_a.Base.Sort.{order_by}
use pqc_grade_a.Errors.{user, user_not_found, data_error, http_exception}
use pqc_grade_a.Db.{User}
use pqc_grade_a.Exec.{Action, pure, gets, ◌>>=◌, ◌>>◌, or_raise, raise_if}
use pqc_grade_a.Messaging.Envelope.{between}
use pqc_grade_a.Account.Users.{get_by_id}
use pqc_grade_a.Account.Mfa.{get_active_for_user}
use pqc_grade_a.Directory.Like.{tokens, matches, escape}

-- What the directory takes from elsewhere: `str.strip` and `str.lower`, and from the database, which
-- characters are the same letter and which username comes first.
pub record Texts : Type 0 where
  pub strip : Text → Text
  pub lower : Text → Text
  pub fold : ℕ → ℕ
  pub collates : Text → Text → Bool

abbrev pub by_username : Texts → User → User → Bool
by_username k u w = k.collates u.username w.username

unfoldable pub search_by_username_prefix : Texts → Text → Action (List User)
search_by_username_prefix k query = do
  pattern_tokens ← or_raise (tokens false (escape query ++ b'%' ∷ [])) data_error
  gets (λ db.
      take 8 (
        order_by (by_username k) (select (λ u. matches k.fold pattern_tokens u.username) db.users)))

unfoldable pub get_profile : ℕ → Action User
get_profile i = do found ← get_by_id i; or_raise found (user user_not_found)

unfoldable pub get_summary : ℕ → Action User
get_summary i = do found ← get_by_id i; or_raise found (user user_not_found)

unfoldable pub search_by_username : Texts → Text → Action (List User)
search_by_username k query = search_by_username_prefix k (k.lower (k.strip query))

pub record UserSummaryResponse : Type 0 where
  pub id : ℕ
  pub username : Text
  pub display_name : Text

unfoldable pub to_summary : User → UserSummaryResponse
to_summary u = record { id = u.id; username = u.username; display_name = u.display_name }

pub record UserProfileResponse : Type 0 where
  pub id : ℕ
  pub username : Text
  pub display_name : Text
  pub email : Text
  pub email_verified : Bool
  pub created_at : ℕ
  pub mfa_enabled : Bool

unfoldable pub get_my_profile : ℕ → Action UserProfileResponse
get_my_profile i = do
  u ← get_profile i
  active_factor ← get_active_for_user u.id
  pure (record {
    id = u.id;
    username = u.username;
    display_name = u.display_name;
    email = u.email;
    email_verified = u.email_verified;
    created_at = u.created_at;
    mfa_enabled = is_some active_factor;
  })

-- The bounds of the query parameter `q` are checked first.
unfoldable pub search_users : Texts → Text → Action (List UserSummaryResponse)
search_users k q = do
  raise_if (not (between 2 32 (length q))) (http_exception 422)
  users ← search_by_username k q
  pure (map to_summary users)

unfoldable pub get_user_summary : ℕ → Action UserSummaryResponse
get_user_summary i = do u ← get_summary i; pure (to_summary u)
