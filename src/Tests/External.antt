-- ===== src/Tests/External.antt =====
-- Tests of sign-ins with an external identity.
use pqc_grade_a.Base.{
  ◌≡◌, ◌↔◌, ◌<◌, refl, none, some, List, [], ◌∷◌, Text, arith, codes, true, false, length, exists,
  count, select, first_where,
}
use pqc_grade_a.Base.Tests.{text_eq}
use pqc_grade_a.Db.{Db, empty_db, User, oidc}
use pqc_grade_a.Exec.{ok, fresh_id, scalar_one_or_none}
use pqc_grade_a.Account.Users.{
  has_username, get_by_id, get_by_email, get_by_username, username_exists,
}
use pqc_grade_a.Account.Sessions.{has_refresh_hash, new_session, add, create_session}
use pqc_grade_a.External.Decimal.{digits, decimal}
use pqc_grade_a.External.Usernames.{
  unique_username_from_email, first_free, base_of, candidate, local_part, is_handle_char, ljust,
}
use pqc_grade_a.External.Handles.{IsHandle, LowerLaws}
use pqc_grade_a.External.FreeName.{unique_username_total, unique_username-IsHandle}
use pqc_grade_a.External.Clients.{ExternalProfile}
use pqc_grade_a.External.Linker.{
  find_or_create_user, link_account, get_by_subject, linked_user, account_for, add_link, link_fits,
}
use pqc_grade_a.External.Linking.{AccountsValid, with_link}
use pqc_grade_a.External.SignIn.{Outcome, find_or_create_user-Outcome}
use pqc_grade_a.External.Accounts.{sign_in_again}
use pqc_grade_a.External.Service.{
  OidcClient, client_of, get_client, device_of, sign_in, handle_callback,
}
use pqc_grade_a.External.Routes.{
  RedirectResponse, app, delete_cookie, set_cookie, refresh_token, oauth_state, oidc_callback,
  compare_digest, or_redirect,
}
use pqc_grade_a.External.CallbackSteps.{SignsIn}
use pqc_grade_a.External.Callback.{oidc_callback_iff}
use pqc_grade_a.Tests.World.{user}
use pqc_grade_a.Tests.Accounts.{platform}

abbrev ann : User
ann = record (user 1) { email = codes "ann@x"; username = codes "ann" }

abbrev lone : Db
lone = record empty_db { users = ann ∷ []; next_id = 10 }

lone-AccountsValid : AccountsValid lone
unfolding count first_where
lone-AccountsValid = record {
  email_unique = λ s. ground arith;
  username_unique = λ s. ground arith;
  subject_unique = λ p provider subject. omega arith;
  user_unique = λ i. ground arith;
  user_bound = λ i h. ground arith;
}

laws : LowerLaws platform
laws = record { idempotent = λ s. refl; fixed = λ s h. refl }

few : length lone.users < 10000
few = omega arith

unique_username_total_example :
    (name : Text) × (unique_username_from_email platform (codes "ann@y") lone ≡ (ok name, lone))
    × (exists (has_username name) lone.users ≡ false)
unique_username_total_example =
    unique_username_total platform laws lone lone-AccountsValid.username_unique (codes "ann@y") few

next_name : unique_username_from_email platform (codes "ann@y") lone ≡ (ok (codes "ann1"), lone)
unfolding unique_username_from_email first_free base_of candidate local_part is_handle_char ljust
    decimal digits username_exists get_by_username scalar_one_or_none select text_eq
next_name = refl

unique_username-IsHandle_example : IsHandle (codes "ann1")
unique_username-IsHandle_example =
    unique_username-IsHandle platform (codes "ann@y") lone lone (codes "ann1") next_name

abbrev profile : ExternalProfile
profile = record {
  issuer = codes "G";
  subject = codes "S";
  email = codes "ann@x";
  email_verified = true;
  name = none;
}

find_or_create_user-Outcome_example :
    Outcome platform 7 [] oidc profile lone (find_or_create_user platform 7 [] oidc profile lone)
find_or_create_user-Outcome_example =
    find_or_create_user-Outcome platform 7 [] oidc profile lone lone-AccountsValid laws few

adopts :
    find_or_create_user platform 7 [] oidc profile lone ≡ (ok ann, with_link 7 oidc profile 1 lone)
unfolding find_or_create_user link_account get_by_subject linked_user account_for add_link link_fits
    get_by_email get_by_id scalar_one_or_none select exists fresh_id text_eq
adopts = refl

abbrev moved : ExternalProfile
moved = record profile { email = codes "ann@z"; email_verified = false }

sign_in_again_example :
    find_or_create_user platform 8 [] oidc moved (with_link 7 oidc profile 1 lone)
    ≡ (ok ann, with_link 7 oidc profile 1 lone)
sign_in_again_example =
    sign_in_again platform 7 [] oidc profile lone lone-AccountsValid laws few ann
      (with_link 7 oidc profile 1 lone) adopts 8 [] moved refl refl

abbrev clients : List (Text × OidcClient)
clients =
    (
      codes "google",
      record { authorization_url = λ state. state; exchange_code = λ code. some profile },
    )
    ∷ []

abbrev home : RedirectResponse
home = record {
  target = app;
  cookies = delete_cookie oauth_state ∷ set_cookie refresh_token (codes "R") ∷ [];
}

-- Ann has no link yet: she gets one, and a session.
abbrev inside : Db
inside = record (with_link 7 oidc profile 1 lone) {
  sessions =
      new_session platform 7 1 (some (device_of (codes "OAuth") (codes "google"))) (codes "R") 11
      ∷ [];
  next_id = 12;
}

oidc_callback_iff_example :
    ((home.target ≡ app)
      × (oidc_callback platform 7 []
            (codes "R")
            clients
            (codes "google")
            none
            (some (codes "C"))
            (some (codes "X"))
            (some (codes "X"))
            lone
          ≡ (ok home, inside)))
    ↔ ((s : SignsIn platform 7 []
          (codes "R")
          clients
          (codes "google")
          none
          (some (codes "C"))
          (some (codes "X"))
          (some (codes "X"))
          lone
          inside)
        × (home ≡ record {
          target = app;
          cookies = delete_cookie oauth_state ∷ set_cookie refresh_token (codes "R") ∷ [];
        })
        × (first_where (has_refresh_hash (platform.digest (codes "R"))) inside.sessions
            ≡ some s.session)
        × (s.session.user_id ≡ s.user.id))
oidc_callback_iff_example =
    oidc_callback_iff platform 7 [] (codes "R") clients (codes "google") none (some (codes "C"))
      (some (codes "X")) (some (codes "X")) lone inside home

comes_home :
    oidc_callback platform 7 []
      (codes "R")
      clients
      (codes "google")
      none
      (some (codes "C"))
      (some (codes "X"))
      (some (codes "X"))
      lone
    ≡ (ok home, inside)
unfolding oidc_callback compare_digest or_redirect handle_callback get_client client_of sign_in
    create_session add find_or_create_user link_account get_by_subject linked_user account_for
    add_link link_fits get_by_email get_by_id scalar_one_or_none select exists fresh_id text_eq
comes_home = refl
