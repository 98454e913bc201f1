-- ===== src/External/SignIn.antt =====
-- What a sign-in with an external identity returns and writes, and that the next one finds the same
-- account.
use pqc_grade_a.Base.{
  ℕ, ◌<◌, ◌≡◌, refl, ap, ◌∙◌, Bool, true, false, ◌&&◌, ◌||◌, ◌≤◌, none, some, List, [], ◌∷◌, Text,
  length, arith, inl, inr, Bool-cases, Option-cases, ==_refl, exists, count_of_none,
  count_of_not_exists, not_exists_of_count, count_of_found,
}
use pqc_grade_a.Base.AppendLaws.{exists_last}
use pqc_grade_a.Errors.{auth, external_identity_conflict, integrity_error, data_error}
use pqc_grade_a.Db.{Db, User, ExternalIdentityProtocol}
use pqc_grade_a.Exec.{Result, ok, err}
use pqc_grade_a.Conversation.Repository.{is_user}
use pqc_grade_a.Account.Platform.{Platform}
use pqc_grade_a.Account.Users.{has_email, has_username}
use pqc_grade_a.External.Clients.{ExternalProfile}
use pqc_grade_a.External.Handles.{LowerLaws}
use pqc_grade_a.External.FreeName.{unique_username_total, unique_username-IsHandle}
use pqc_grade_a.External.Linker.{is_subject, create_user_from_profile, find_or_create_user}
use pqc_grade_a.External.Linking.{
  AccountsValid, linked, account_of_email, with_link, sign_in_linked, sign_in_unlinked,
  link_conflict, adopt, adopt_orphan, adopt_unfit, create_unfit, create_unlinkable, profile_fits,
  identity_fits, new_account, with_account, create_lem, create, create_orphan,
}

exists_or :
    (p q : User → Bool) (xs : List User)
    → exists p xs ≡ false
    → exists q xs ≡ false
    → exists (λ u. p u || q u) xs ≡ false
unfolding exists
exists_or p q [] h k = refl
exists_or p q (x ∷ xs) h k = ground (arith, exists_or p q xs)

module _ (k : Platform) (now : ℕ) (secret : Text) (protocol : ExternalIdentityProtocol)
    (profile : ExternalProfile) (db : Db) where
  abbrev pub has_link : Bool
  has_link = exists (is_subject protocol profile.issuer profile.subject) db.links

  -- What may come out of a sign-in.
  pub data Outcome (r : Result User × Db) : Type 0 where
    -- an identity that is linked signs into its account, and nothing changes
    known : (u : User) → linked protocol profile db ≡ some u → r ≡ (ok u, db) → Outcome r
    -- an account has the email, and the provider has not verified it: nothing changes
    refused :
        (u : User)
        → linked protocol profile db ≡ none
        → account_of_email k profile db ≡ some u
        → profile.email_verified ≡ false
        → r ≡ (err (auth external_identity_conflict), db)
        → Outcome r
    -- an account has the verified email: it is linked
    adopted :
        (u : User)
        → linked protocol profile db ≡ none
        → account_of_email k profile db ≡ some u
        → profile.email_verified ≡ true
        → identity_fits profile ≡ true
        → has_link ≡ false
        → r ≡ (ok u, with_link now protocol profile u.id db)
        → Outcome r
    -- no account has the email: one is made, under a free username, and linked
    created :
        (name : Text)
        → linked protocol profile db ≡ none
        → account_of_email k profile db ≡ none
        → profile_fits k profile ≡ true
        → identity_fits profile ≡ true
        → has_link ≡ false
        → exists (has_username name) db.users ≡ false
        → r ≡ (
          ok (new_account k now secret profile db name),
          with_link now protocol profile db.next_id (with_account k now secret profile db name),
        )
        → Outcome r
    -- an account has the verified email, and the identity is too long to be stored: nothing changes
    unlinkable :
        (u : User)
        → linked protocol profile db ≡ none
        → account_of_email k profile db ≡ some u
        → profile.email_verified ≡ true
        → identity_fits profile ≡ false
        → r ≡ (err data_error, db)
        → Outcome r
    -- no account has the email, and the profile or the identity is too long to be stored
    overlong :
        linked protocol profile db ≡ none
        → account_of_email k profile db ≡ none
        → profile_fits k profile && identity_fits profile ≡ false
        → r.0 ≡ err data_error
        → Outcome r
    -- a link is there and its user is not: the second link of the identity is refused
    orphaned :
        linked protocol profile db ≡ none → has_link ≡ true → r.0 ≡ err integrity_error → Outcome r

  module _ (v : AccountsValid db) (laws : LowerLaws k) (few : length db.users < 10000) where
    adopt-Outcome :
        (u : User)
        → linked protocol profile db ≡ none
        → account_of_email k profile db ≡ some u
        → Outcome (find_or_create_user k now secret protocol profile db)
    adopt-Outcome u unlinked e =
        let same = sign_in_unlinked k now secret protocol profile db v unlinked in
        let there : exists (is_user u.id) db.users ≡ true =
          elim (Bool-cases (exists (is_user u.id) db.users)) [
            | inl h ↦ h
            | inr h ↦ absurd (
                omega (
                  arith,
                  count_of_not_exists (is_user u.id) db.users h,
                  count_of_found (has_email (k.lower (k.lower profile.email))) (is_user u.id)
                      db.users u e (==_refl u.id),
                ))
          ] in
        elim (Bool-cases profile.email_verified) [
          | inr w ↦
              refused u unlinked e w (same ∙ link_conflict k now secret protocol profile db v u e w)
          | inl w ↦ elim (Bool-cases (identity_fits profile)) [
            | inr long ↦
                unlinkable u unlinked e w long
                  (same ∙ adopt_unfit k now secret protocol profile db v u e w long)
            | inl fits ↦ elim (Bool-cases has_link) [
              | inr free ↦
                  adopted u unlinked e w fits free
                    (same ∙ adopt k now secret protocol profile db v u e w fits there free)
              | inl twice ↦ orphaned unlinked twice (
                  ap (λ r. r.0)
                    (same ∙ adopt_orphan k now secret protocol profile db v u e w fits there twice))
            ]
          ]
        ]

    -- The new account is made. It is linked if the identity fits and has no link.
    made-Outcome :
        (name : Text)
        → linked protocol profile db ≡ none
        → account_of_email k profile db ≡ none
        → profile_fits k profile ≡ true
        → exists (has_username name) db.users ≡ false
        → create_user_from_profile k now secret profile db ≡ (
          ok (new_account k now secret profile db name),
          with_account k now secret profile db name,
        )
        → Outcome (find_or_create_user k now secret protocol profile db)
    made-Outcome name unlinked e wide free made =
        let same = sign_in_unlinked k now secret protocol profile db v unlinked in
        let there : exists (is_user db.next_id) (with_account k now secret profile db name).users
            ≡ true =
          exists_last (is_user db.next_id) db.users (new_account k now secret profile db name)
            (==_refl db.next_id) in
        elim (Bool-cases (identity_fits profile)) [
          | inr long ↦ overlong unlinked e (ground arith) (
              ap (λ r. r.0)
                (same ∙ create_unlinkable k now secret protocol profile db v name long e made))
          | inl fits ↦ elim (Bool-cases has_link) [
            | inr unused ↦
                created name unlinked e wide fits unused free
                  (same ∙ create k now secret protocol profile db v name fits e made there unused)
            | inl twice ↦ orphaned unlinked twice (
                ap (λ r. r.0)
                  (same
                    ∙ create_orphan k now secret protocol profile db v name fits e made there
                        twice))
          ]
        ]

    create-Outcome :
        linked protocol profile db ≡ none
        → account_of_email k profile db ≡ none
        → Outcome (find_or_create_user k now secret protocol profile db)
    create-Outcome unlinked e =
        let same = sign_in_unlinked k now secret protocol profile db v unlinked in
        let (name, run, free) =
          unique_username_total k laws db v.username_unique (k.lower profile.email) few in
        let short : length name ≤ 32 =
          (unique_username-IsHandle k (k.lower profile.email) db db name run).short in
        let strangers : exists (has_email (k.lower profile.email)) db.users ≡ false =
          not_exists_of_count (has_email (k.lower profile.email)) db.users (
            rw (← laws.idempotent profile.email)
              (count_of_none (has_email (k.lower (k.lower profile.email))) db.users e)) in
        elim (Bool-cases (profile_fits k profile)) [
          | inr long ↦ overlong unlinked e (ground arith) (
              ap (λ r. r.0)
                (same ∙ create_unfit k now secret protocol profile db v name short long e run))
          | inl wide ↦ made-Outcome name unlinked e wide free (
              create_lem k now secret protocol profile db v name short wide run (
                exists_or (has_email (k.lower profile.email)) (has_username name) db.users strangers
                  free))
        ]

    -- A sign-in with an external identity returns the linked account and changes nothing, refuses
    -- an email that is taken and not verified, links the account that has the verified email,
    -- makes an account under a free username and links it, or fails: on a link whose user is gone,
    -- or if the identity, or the profile of a new account, is too long for its columns. Accounts
    -- and links meet their constraints, there are fewer than 10000 users, and `str.lower` keeps
    -- texts in lower case.
    pub find_or_create_user-Outcome : Outcome (find_or_create_user k now secret protocol profile db)
    find_or_create_user-Outcome = elim (Option-cases (linked protocol profile db)) [
      | inr (u, e) ↦ known u e (sign_in_linked k now secret protocol profile db v u e)
      | inl unlinked ↦ elim (Option-cases (account_of_email k profile db)) [
        | inr (u, e) ↦ adopt-Outcome u unlinked e
        | inl e ↦ create-Outcome unlinked e
      ]
    ]
