-- ===== src/External/Linking.antt =====
-- Whose account an external identity signs into.
use pqc_grade_a.Base.{
  ℕ, ◌+◌, ◌≤◌, ◌≡◌, refl, Bool, true, false, ◌&&◌, ◌||◌, leb, length, Option, none, some, [], ◌∷◌,
  ◌++◌, Text, arith, exists, first_where, count,
}
use pqc_grade_a.Errors.{auth, external_identity_conflict, integrity_error, data_error}
use pqc_grade_a.Db.{Db, User, ExternalIdentityProtocol, ExternalIdentityLink}
use pqc_grade_a.Exec.{ok, err, fresh_id}
use pqc_grade_a.Exec.Rows.{scalar_select}
use pqc_grade_a.Conversation.Repository.{is_user}
use pqc_grade_a.Account.Platform.{Platform}
use pqc_grade_a.Account.Users.{
  has_email, has_username, get_by_id, get_by_email, user_fits, add_user,
}
use pqc_grade_a.External.Clients.{ExternalProfile}
use pqc_grade_a.External.Usernames.{unique_username_from_email}
use pqc_grade_a.External.Linker.{
  is_subject, get_by_subject, link_fits, add_link, user_of_profile, create_user_from_profile,
  new_link, or_username, linked_user, account_for, link_account, find_or_create_user,
}

-- The constraints of the tables of accounts and links, and keys below the counter.
pub record AccountsValid (db : Db) : Type 0 where
  pub email_unique : (s : Text) → count (has_email s) db.users ≤ 1
  pub username_unique : (s : Text) → count (has_username s) db.users ≤ 1
  pub subject_unique :
      (protocol : ExternalIdentityProtocol) (provider subject : Text)
      → count (is_subject protocol provider subject) db.links ≤ 1
  pub user_unique : (i : ℕ) → count (is_user i) db.users ≤ 1
  pub user_bound : (i : ℕ) → db.next_id ≤ i → first_where (is_user i) db.users ≡ none

-- The name of a profile fits its column. A blank one gives way to the username, which is short.
abbrev pub name_fits : Option Text → Bool
name_fits none = true
name_fits (some s) = leb (length s) 100

-- A profile makes a row of `users`.
abbrev pub profile_fits : Platform → ExternalProfile → Bool
profile_fits k profile = leb (length (k.lower profile.email)) 320 && name_fits profile.name

-- An identity makes a row of `external_identity_links`.
abbrev pub identity_fits : ExternalProfile → Bool
identity_fits profile = leb (length profile.issuer) 512 && leb (length profile.subject) 255

-- The account that an identity is linked to.
abbrev pub owner_of : Option ExternalIdentityLink → Db → Option User
owner_of none db = none
owner_of (some l) db = first_where (is_user l.user_id) db.users

abbrev pub linked : ExternalIdentityProtocol → ExternalProfile → Db → Option User
linked protocol profile db =
    owner_of (first_where (is_subject protocol profile.issuer profile.subject) db.links) db

abbrev pub account_of_email : Platform → ExternalProfile → Db → Option User
account_of_email k profile db = first_where (has_email (k.lower (k.lower profile.email))) db.users

abbrev pub with_link : ℕ → ExternalIdentityProtocol → ExternalProfile → ℕ → Db → Db
with_link now protocol profile user db = record db {
  links = db.links ++ new_link now protocol profile user db.next_id ∷ [];
  next_id = db.next_id + 1;
}

module _ (k : Platform) (now : ℕ) (secret : Text) (profile : ExternalProfile) (db : Db) where
  abbrev pub new_account : Text → User
  new_account name =
      user_of_profile now (k.lower profile.email) name (k.hash_password secret) profile.name
        db.next_id

  abbrev pub with_account : Text → Db
  with_account name = record db {
    users = db.users ++ new_account name ∷ [];
    next_id = db.next_id + 1;
  }

username_fits :
    (name : Option Text) (username : Text)
    → length username ≤ 32
    → leb (length (or_username name username)) 100 ≡ name_fits name
username_fits none username h = ground arith
username_fits (some []) username h = ground arith
username_fits (some (c ∷ s)) username h = refl

-- With a username of at most 32 characters a new account fits exactly if its profile does.
user_fits_lem :
    (k : Platform) (now : ℕ) (secret : Text) (profile : ExternalProfile) (name : Text) (i : ℕ)
    → length name ≤ 32
    → user_fits
        (user_of_profile now (k.lower profile.email) name (k.hash_password secret) profile.name i)
      ≡ profile_fits k profile
unfolding user_fits
user_fits_lem k now secret profile name i h = ground (arith, username_fits profile.name name h)

module _ (k : Platform) (now : ℕ) (secret : Text) (protocol : ExternalIdentityProtocol)
    (profile : ExternalProfile) (db : Db) (v : AccountsValid db) where
  get_by_subject_lem :
      get_by_subject protocol profile.issuer profile.subject db
      ≡ (ok (first_where (is_subject protocol profile.issuer profile.subject) db.links), db)
  unfolding get_by_subject
  get_by_subject_lem =
      rw
        (scalar_select (is_subject protocol profile.issuer profile.subject) db.links
          (v.subject_unique protocol profile.issuer profile.subject))
        refl

  linked_user_lem : (l : Option ExternalIdentityLink) → linked_user l db ≡ (ok (owner_of l db), db)
  unfolding linked_user get_by_id
  linked_user_lem none = refl
  linked_user_lem (some l) = refl

  get_by_email_lem :
      get_by_email k (k.lower profile.email) db ≡ (ok (account_of_email k profile db), db)
  unfolding get_by_email
  get_by_email_lem =
      rw
        (scalar_select (has_email (k.lower (k.lower profile.email))) db.users
          (v.email_unique (k.lower (k.lower profile.email))))
        refl

  -- An identity that is linked signs into its account, and nothing changes.
  pub sign_in_linked :
      (u : User)
      → linked protocol profile db ≡ some u
      → find_or_create_user k now secret protocol profile db ≡ (ok u, db)
  unfolding find_or_create_user
  sign_in_linked u e = ground (
    arith,
    get_by_subject_lem,
    linked_user_lem (first_where (is_subject protocol profile.issuer profile.subject) db.links),
  )

  pub sign_in_unlinked :
      linked protocol profile db ≡ none
      → find_or_create_user k now secret protocol profile db
        ≡ link_account k now secret protocol profile db
  unfolding find_or_create_user
  sign_in_unlinked e = ground (
    arith,
    get_by_subject_lem,
    linked_user_lem (first_where (is_subject protocol profile.issuer profile.subject) db.links),
  )

  pub link_conflict :
      (u : User)
      → account_of_email k profile db ≡ some u
      → profile.email_verified ≡ false
      → link_account k now secret protocol profile db ≡ (err (auth external_identity_conflict), db)
  unfolding link_account account_for
  link_conflict u e w = ground (arith, get_by_email_lem)

  pub adopt :
      (u : User)
      → account_of_email k profile db ≡ some u
      → profile.email_verified ≡ true
      → identity_fits profile ≡ true
      → exists (is_user u.id) db.users ≡ true
      → exists (is_subject protocol profile.issuer profile.subject) db.links ≡ false
      → link_account k now secret protocol profile db
        ≡ (ok u, with_link now protocol profile u.id db)
  unfolding link_account account_for add_link link_fits fresh_id
  adopt u e w fits known free = ground (arith, get_by_email_lem)

  pub adopt_orphan :
      (u : User)
      → account_of_email k profile db ≡ some u
      → profile.email_verified ≡ true
      → identity_fits profile ≡ true
      → exists (is_user u.id) db.users ≡ true
      → exists (is_subject protocol profile.issuer profile.subject) db.links ≡ true
      → link_account k now secret protocol profile db ≡ (err integrity_error, db)
  unfolding link_account account_for add_link link_fits
  adopt_orphan u e w fits known free = ground (arith, get_by_email_lem)

  pub create_lem :
      (name : Text)
      → length name ≤ 32
      → profile_fits k profile ≡ true
      → unique_username_from_email k (k.lower profile.email) db ≡ (ok name, db)
      → exists (λ u. has_email (k.lower profile.email) u || has_username name u) db.users ≡ false
      → create_user_from_profile k now secret profile db
        ≡ (ok (new_account k now secret profile db name), with_account k now secret profile db name)
  unfolding create_user_from_profile add_user fresh_id
  create_lem name short fits e free =
      ground (arith, user_fits_lem k now secret profile name 0 short)

  pub create :
      (name : Text)
      → identity_fits profile ≡ true
      → account_of_email k profile db ≡ none
      → create_user_from_profile k now secret profile db
        ≡ (ok (new_account k now secret profile db name), with_account k now secret profile db name)
      → exists (is_user db.next_id) (with_account k now secret profile db name).users ≡ true
      → exists (is_subject protocol profile.issuer profile.subject) db.links ≡ false
      → link_account k now secret protocol profile db ≡ (
        ok (new_account k now secret profile db name),
        with_link now protocol profile db.next_id (with_account k now secret profile db name),
      )
  unfolding link_account account_for add_link link_fits fresh_id
  create name fits e made known free = ground (arith, get_by_email_lem)

  pub create_orphan :
      (name : Text)
      → identity_fits profile ≡ true
      → account_of_email k profile db ≡ none
      → create_user_from_profile k now secret profile db
        ≡ (ok (new_account k now secret profile db name), with_account k now secret profile db name)
      → exists (is_user db.next_id) (with_account k now secret profile db name).users ≡ true
      → exists (is_subject protocol profile.issuer profile.subject) db.links ≡ true
      → link_account k now secret protocol profile db
        ≡ (err integrity_error, with_account k now secret profile db name)
  unfolding link_account account_for add_link link_fits
  create_orphan name fits e made known free = ground (arith, get_by_email_lem)

  -- A row that does not fit its columns is refused.
  pub adopt_unfit :
      (u : User)
      → account_of_email k profile db ≡ some u
      → profile.email_verified ≡ true
      → identity_fits profile ≡ false
      → link_account k now secret protocol profile db ≡ (err data_error, db)
  unfolding link_account account_for add_link link_fits
  adopt_unfit u e w long = ground (arith, get_by_email_lem)

  pub create_unfit :
      (name : Text)
      → length name ≤ 32
      → profile_fits k profile ≡ false
      → account_of_email k profile db ≡ none
      → unique_username_from_email k (k.lower profile.email) db ≡ (ok name, db)
      → link_account k now secret protocol profile db ≡ (err data_error, db)
  unfolding link_account account_for create_user_from_profile add_user
  create_unfit name short long e found =
      ground (arith, get_by_email_lem, user_fits_lem k now secret profile name 0 short)

  pub create_unlinkable :
      (name : Text)
      → identity_fits profile ≡ false
      → account_of_email k profile db ≡ none
      → create_user_from_profile k now secret profile db
        ≡ (ok (new_account k now secret profile db name), with_account k now secret profile db name)
      → link_account k now secret protocol profile db
        ≡ (err data_error, with_account k now secret profile db name)
  unfolding link_account account_for add_link link_fits
  create_unlinkable name long e made = ground (arith, get_by_email_lem)
