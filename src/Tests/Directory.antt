-- ===== src/Tests/Directory.antt =====
-- Tests of the search for users, and of the guard of requests.
use pqc_grade_a.Base.{
  ◌≡◌, ◌↔◌, ◌≤◌, refl, exists, first_where, some, List, [], codes, true, length, take, select, leb,
}
use pqc_grade_a.Base.Sort.{order_by}
use pqc_grade_a.Db.{User, session_is_active}
use pqc_grade_a.Exec.{ok, err}
use pqc_grade_a.Directory.Service.{Texts, by_username, search_by_username}
use pqc_grade_a.Directory.Search.{starts_with, search_by_username_lem}
use pqc_grade_a.Account.AccessTokens.{TokenSigner, ClaimsJson, decode, split, b64url_decode, repeat}
use pqc_grade_a.Errors.{auth, unauthenticated}
use pqc_grade_a.Base64.{urlsafe_b64decode}
use pqc_grade_a.Account.Users as Users
use pqc_grade_a.Account.Sessions as Sessions
use pqc_grade_a.Account.Sessions.{write_revoked}
use pqc_grade_a.Api.Accounts.{signed_off, logout}
use pqc_grade_a.Api.SignOut.{logout_ends}
use pqc_grade_a.Account.Guard.{AuthContext, get_current_session, bearer_token, begins}
use pqc_grade_a.Account.GuardLaws.{IsAuthenticated, get_current_session_iff}
use pqc_grade_a.Tests.World.{user, world}
use pqc_grade_a.Tests.Accounts.{bank, session}

abbrev texts : Texts
texts = record {
  strip = λ s. s;
  lower = λ s. s;
  fold = λ c. c;
  collates = λ s t. leb (length s) (length t);
}

search_by_username_lem_example :
    (search_by_username texts (codes "a_") world ≡ (
      ok (
          take 8 (
            order_by
              (by_username texts)
              (select (λ u. starts_with texts.fold (codes "a_") u.username) world.users))),
      world,
    ))
    × ((us : List User)
        → search_by_username texts (codes "a_") world ≡ (ok us, world)
        → length us ≤ 8)
search_by_username_lem_example = search_by_username_lem texts (codes "a_") world

abbrev pub signer : TokenSigner
signer = record { sign = λ m. []; verify = λ m s. true }

abbrev pub json : ClaimsJson
json = record {
  header = [];
  dumps = λ u s issued expires. [];
  loads = λ payload. some (record { user_id = 1; session_id = 20; expires_at = 60 });
}

get_current_session_iff_example :
    (get_current_session signer json (λ s. s) 30 (some (codes "Bearer ..")) bank
      ≡ (ok (record { user = user 1; session = session }), bank))
    ↔ (IsAuthenticated signer json
          (λ s. s)
          30
          (some (codes "Bearer .."))
          bank
          (record { user = user 1; session = session })
        × (bank ≡ bank))
get_current_session_iff_example =
    get_current_session_iff signer json (λ s. s) 30 (some (codes "Bearer ..")) bank
      (record { user = user 1; session = session }) bank

abbrev one_ctx : AuthContext
one_ctx = record { user = user 1; session = session }

authenticated_before :
    get_current_session signer json (λ s. s) 30 (some (codes "Bearer ..")) bank ≡ (ok one_ctx, bank)
unfolding get_current_session bearer_token begins decode split b64url_decode repeat exists
    urlsafe_b64decode Sessions.get_by_id Users.get_by_id first_where session_is_active
authenticated_before = refl

logout_ends_example :
    (logout 31 one_ctx bank ≡ (ok signed_off, write_revoked 31 20 bank))
    × (get_current_session signer json
          (λ s. s)
          32
          (some (codes "Bearer .."))
          (write_revoked 31 20 bank)
        ≡ (err (auth unauthenticated), write_revoked 31 20 bank))
logout_ends_example =
    logout_ends signer json (λ s. s) 30 (some (codes "Bearer ..")) bank one_ctx 31 32
      authenticated_before
