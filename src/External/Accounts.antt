-- ===== src/External/Accounts.antt =====
-- Sign-ins keep the constraints of accounts and links, and an identity keeps its account.
use pqc_grade_a.Base.{
  ℕ, ◌+◌, ◌<◌, ◌≡◌, refl, ap, true, false, none, some, Text, length, arith, text_eq, text_eq→eq,
  ==_refl, text_eq_refl, exists, first_where, count_of_none, none_of_count, count_of_not_exists,
  first_where_of_key,
}
use pqc_grade_a.Base.AppendLaws.{count_append_one, first_where_last, first_where_before}
use pqc_grade_a.Db.{Db, User, ExternalIdentityProtocol, oidc, saml}
use pqc_grade_a.Exec.{Result, ok}
use pqc_grade_a.Exec.Keeps.{returns_once}
use pqc_grade_a.Conversation.Repository.{is_user}
use pqc_grade_a.Account.Platform.{Platform}
use pqc_grade_a.Account.Users.{has_email, has_username}
use pqc_grade_a.External.Clients.{ExternalProfile}
use pqc_grade_a.External.Handles.{LowerLaws}
use pqc_grade_a.External.Linker.{same_protocol, is_subject, new_link, find_or_create_user}
use pqc_grade_a.External.Linking.{
  AccountsValid, linked, account_of_email, with_link, sign_in_linked, new_account, with_account,
}
use pqc_grade_a.External.SignIn.{
  Outcome, known, refused, adopted, created, orphaned, unlinkable, overlong,
  find_or_create_user-Outcome,
}

same_protocol→eq : (p q : ExternalIdentityProtocol) → same_protocol p q ≡ true → p ≡ q
unfolding same_protocol
same_protocol→eq oidc oidc h = refl
same_protocol→eq oidc saml h = cc
same_protocol→eq saml oidc h = cc
same_protocol→eq saml saml h = refl

same_protocol_refl : (p : ExternalIdentityProtocol) → same_protocol p p ≡ true
unfolding same_protocol
same_protocol_refl oidc = refl
same_protocol_refl saml = refl

module _ (k : Platform) (now : ℕ) (secret : Text) (protocol : ExternalIdentityProtocol)
    (profile : ExternalProfile) where
  is_subject_self :
      (user i : ℕ)
      → is_subject protocol profile.issuer profile.subject (new_link now protocol profile user i)
        ≡ true
  is_subject_self user i = ground (
    arith,
    same_protocol_refl protocol,
    text_eq_refl profile.issuer,
    text_eq_refl profile.subject,
  )

  -- A test that the new link passes is that of its own identity.
  subject_of_new :
      (p : ExternalIdentityProtocol) (provider subject : Text) (user i : ℕ)
      → is_subject p provider subject (new_link now protocol profile user i) ≡ true
      → (protocol ≡ p) × (profile.issuer ≡ provider) × (profile.subject ≡ subject)
  subject_of_new p provider subject user i h =
      let parts : (same_protocol protocol p ≡ true)
          × (text_eq profile.issuer provider ≡ true)
          × (text_eq profile.subject subject ≡ true) =
        (ground arith, ground arith, ground arith) in
      (
        same_protocol→eq protocol p parts.0,
        text_eq→eq profile.issuer provider parts.1,
        text_eq→eq profile.subject subject parts.2,
      )

  module _ (db : Db) (v : AccountsValid db) where
    with_link-Valid :
        (user : ℕ)
        → exists (is_subject protocol profile.issuer profile.subject) db.links ≡ false
        → AccountsValid (with_link now protocol profile user db)
    with_link-Valid user free = record {
      email_unique = v.email_unique;
      username_unique = v.username_unique;
      user_unique = v.user_unique;
      user_bound = λ i h. v.user_bound i (omega arith);
      subject_unique = λ p provider subject.
          count_append_one (is_subject p provider subject) db.links
            (new_link now protocol profile user db.next_id) (v.subject_unique p provider subject)
            (λ h.
              let (ep, ei, es) = subject_of_new p provider subject user db.next_id h in
              rw (← ep, ← ei, ← es)
                (count_of_not_exists (is_subject protocol profile.issuer profile.subject) db.links
                  free));
    }

    with_account-Valid :
        (name : Text)
        → first_where (has_email (k.lower profile.email)) db.users ≡ none
        → exists (has_username name) db.users ≡ false
        → AccountsValid (with_account k now secret profile db name)
    with_account-Valid name stranger free = record {
      email_unique = λ s.
          count_append_one (has_email s) db.users (new_account k now secret profile db name)
            (v.email_unique s)
            (λ h.
              rw (← text_eq→eq (k.lower profile.email) s h)
                (count_of_none (has_email (k.lower profile.email)) db.users stranger));
      username_unique = λ s.
          count_append_one (has_username s) db.users (new_account k now secret profile db name)
            (v.username_unique s)
            (λ h.
              rw (← text_eq→eq name s h) (count_of_not_exists (has_username name) db.users free));
      user_unique = λ i.
          count_append_one (is_user i) db.users (new_account k now secret profile db name)
            (v.user_unique i)
            (λ h. count_of_none (is_user i) db.users (v.user_bound i (ground arith)));
      user_bound = λ i h.
          first_where_before (is_user i) db.users (new_account k now secret profile db name)
            (v.user_bound i (omega arith)) (ground arith);
      subject_unique = v.subject_unique;
    }

module _ (k : Platform) (now : ℕ) (secret : Text) (protocol : ExternalIdentityProtocol)
    (profile : ExternalProfile) (db : Db) (v : AccountsValid db) (laws : LowerLaws k) where
  -- What holds after a sign-in that returned `u`.
  record SignedIn (u : User) (db' : Db) : Type 0 where
    valid : AccountsValid db'
    owner : linked protocol profile db' ≡ some u

  found_by_id :
      (u : User)
      → account_of_email k profile db ≡ some u
      → first_where (is_user u.id) db.users ≡ some u
  found_by_id u e =
      first_where_of_key (has_email (k.lower (k.lower profile.email))) (is_user u.id) db.users u e
        (v.user_unique u.id) (==_refl u.id)

  adopted-SignedIn :
      (u : User)
      → account_of_email k profile db ≡ some u
      → exists (is_subject protocol profile.issuer profile.subject) db.links ≡ false
      → SignedIn u (with_link now protocol profile u.id db)
  adopted-SignedIn u e free = record {
    valid = with_link-Valid k now secret protocol profile db v u.id free;
    owner =
        rw
          (first_where_last (is_subject protocol profile.issuer profile.subject) db.links
            (new_link now protocol profile u.id db.next_id)
            (none_of_count (is_subject protocol profile.issuer profile.subject) db.links (
              count_of_not_exists (is_subject protocol profile.issuer profile.subject) db.links
                free))
            (is_subject_self k now secret protocol profile u.id db.next_id))
          (found_by_id u e);
  }

  created-SignedIn :
      (name : Text)
      → account_of_email k profile db ≡ none
      → exists (is_subject protocol profile.issuer profile.subject) db.links ≡ false
      → exists (has_username name) db.users ≡ false
      → SignedIn
          (new_account k now secret profile db name)
          (with_link now protocol profile db.next_id (with_account k now secret profile db name))
  created-SignedIn name e free unused = record {
    valid =
        with_link-Valid k now secret protocol profile (with_account k now secret profile db name)
          (with_account-Valid k now secret protocol profile db v name
            (rw (← laws.idempotent profile.email) e) unused)
          db.next_id free;
    owner =
        rw
          (first_where_last (is_subject protocol profile.issuer profile.subject) db.links
            (new_link now protocol profile db.next_id (db.next_id + 1))
            (none_of_count (is_subject protocol profile.issuer profile.subject) db.links (
              count_of_not_exists (is_subject protocol profile.issuer profile.subject) db.links
                free))
            (is_subject_self k now secret protocol profile db.next_id (db.next_id + 1)))
          (first_where_last (is_user db.next_id) db.users (new_account k now secret profile db name)
            (v.user_bound db.next_id (omega arith)) (==_refl db.next_id));
  }

  outcome-SignedIn :
      (u : User) (db' : Db) (r : Result User × Db)
      → Outcome k now secret protocol profile db r
      → r ≡ (ok u, db')
      → SignedIn u db'
  outcome-SignedIn u db' r (known w e same) h =
      let (eu, ed) = returns_once r w u db db' same h in
      rw (eu, ed) (record { valid = v; owner = e })
  outcome-SignedIn u db' r (refused w e e' unverified same) h = cc
  outcome-SignedIn u db' r (adopted w e e' verified fits free same) h =
      let (eu, ed) = returns_once r w u _ db' same h in rw (eu, ed) (adopted-SignedIn w e' free)
  outcome-SignedIn u db' r (created name e e' wide fits free unused same) h =
      let (eu, ed) = returns_once r _ u _ db' same h in
      rw (eu, ed) (created-SignedIn name e' free unused)
  outcome-SignedIn u db' r (unlinkable w e e' verified long same) h = cc
  outcome-SignedIn u db' r (overlong e e' long same) h = cc (ap (λ x. x.0) h)
  outcome-SignedIn u db' r (orphaned e twice same) h = cc (ap (λ x. x.0) h)

  module _ (few : length db.users < 10000) (u : User) (db' : Db)
      (run : find_or_create_user k now secret protocol profile db ≡ (ok u, db')) where
    signed_in : SignedIn u db'
    signed_in =
        outcome-SignedIn u db' (find_or_create_user k now secret protocol profile db)
          (find_or_create_user-Outcome k now secret protocol profile db v laws few) run

    -- A sign-in keeps emails, usernames, keys and linked identities unique. They are so before,
    -- there are fewer than 10000 users, and `str.lower` keeps texts in lower case.
    pub find_or_create_user-Valid : AccountsValid db'
    find_or_create_user-Valid = signed_in.valid

    -- An identity keeps its account: after a sign-in, any later one with the same issuer and
    -- subject returns the same user and changes nothing, whatever email the provider then tells.
    -- Accounts and links meet their constraints, there are fewer than 10000 users, and `str.lower`
    -- keeps texts in lower case.
    pub sign_in_again :
        (later : ℕ) (other_secret : Text) (told : ExternalProfile)
        → told.issuer ≡ profile.issuer
        → told.subject ≡ profile.subject
        → find_or_create_user k later other_secret protocol told db' ≡ (ok u, db')
    sign_in_again later other_secret told ei es =
        sign_in_linked k later other_secret protocol told db' signed_in.valid u
          (rw (ei, es) signed_in.owner)
