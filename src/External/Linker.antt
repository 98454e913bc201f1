-- ===== src/External/Linker.antt =====
-- backend/src/repositories/external_identity_link_repository.py and the accounts of
-- backend/src/services/external_identity_linker.py. `secret` is the random password that nobody has.
use pqc_grade_a.Base.{
  ℕ, Bool, true, false, ◌&&◌, not, Option, none, some, [], ◌∷◌, ◌++◌, Text, text_eq, if◌then◌else◌,
  select, exists, leb, length,
}
use pqc_grade_a.Errors.{auth, external_identity_conflict, integrity_error, data_error}
use pqc_grade_a.Db.{User, active, ExternalIdentityProtocol, oidc, saml, ExternalIdentityLink}
use pqc_grade_a.Exec.{
  Action, pure, raise, gets, lift, ◌>>=◌, ◌>>◌, raise_if, modify, fresh_id, scalar_one_or_none,
}
use pqc_grade_a.Conversation.Repository.{is_user}
use pqc_grade_a.Account.Platform.{Platform}
use pqc_grade_a.Account.Users.{get_by_id, get_by_email, add_user}
use pqc_grade_a.External.Clients.{ExternalProfile}
use pqc_grade_a.External.Usernames.{unique_username_from_email}

unfoldable pub same_protocol : ExternalIdentityProtocol → ExternalIdentityProtocol → Bool
same_protocol oidc oidc = true
same_protocol oidc saml = false
same_protocol saml oidc = false
same_protocol saml saml = true

abbrev pub is_subject : ExternalIdentityProtocol → Text → Text → ExternalIdentityLink → Bool
is_subject protocol provider subject l =
    same_protocol l.protocol protocol
    && (text_eq l.provider_identifier provider && text_eq l.subject subject)

unfoldable pub get_by_subject :
    ExternalIdentityProtocol → Text → Text → Action (Option ExternalIdentityLink)
get_by_subject protocol provider subject = do
  rows ← gets (λ db. select (is_subject protocol provider subject) db.links)
  lift (scalar_one_or_none rows)

-- The columns of the provider and of the subject are `String(512)` and `String(255)`.
unfoldable pub link_fits : ExternalIdentityLink → Bool
link_fits l = leb (length l.provider_identifier) 512 && leb (length l.subject) 255

-- `BaseRepository.add` of a link: the user is known, and the subject linked once.
unfoldable pub add_link : (ℕ → ExternalIdentityLink) → Action ExternalIdentityLink
add_link row = do
  raise_if (not (link_fits (row 0))) data_error
  raise_if (not (← gets (λ db. exists (is_user (row 0).user_id) db.users))) integrity_error
  raise_if
      (← gets (λ db.
        exists (is_subject (row 0).protocol (row 0).provider_identifier (row 0).subject) db.links))
      integrity_error
  i ← fresh_id
  modify (λ db. record db { links = db.links ++ row i ∷ [] })
  pure (row i)

-- `profile.name or username`
abbrev pub or_username : Option Text → Text → Text
or_username none username = username
or_username (some []) username = username
or_username (some (c ∷ s)) username = c ∷ s

abbrev pub user_of_profile : ℕ → Text → Text → Text → Option Text → ℕ → User
user_of_profile now email username hash name i = record {
  id = i;
  email = email;
  username = username;
  password_hash = hash;
  display_name = or_username name username;
  avatar_url = none;
  email_verified = true;
  status = active;
  last_seen_at = none;
  created_at = now;
  updated_at = now;
}

unfoldable pub create_user_from_profile : Platform → ℕ → Text → ExternalProfile → Action User
create_user_from_profile k now secret profile = do
  username ← unique_username_from_email k (k.lower profile.email)
  add_user
      (user_of_profile now (k.lower profile.email) username (k.hash_password secret) profile.name)

abbrev pub new_link : ℕ → ExternalIdentityProtocol → ExternalProfile → ℕ → ℕ → ExternalIdentityLink
new_link now protocol profile user i = record {
  id = i;
  user_id = user;
  protocol = protocol;
  provider_identifier = profile.issuer;
  subject = profile.subject;
  created_at = now;
}

-- The user of a link, if both are there.
unfoldable pub linked_user : Option ExternalIdentityLink → Action (Option User)
linked_user none = pure none
linked_user (some l) = get_by_id l.user_id

-- An account with the email is taken over only if the provider has verified the email.
unfoldable pub account_for : Platform → ℕ → Text → ExternalProfile → Option User → Action User
account_for k now secret profile none = create_user_from_profile k now secret profile
account_for k now secret profile (some u) =
    if profile.email_verified then pure u else raise (auth external_identity_conflict)

unfoldable pub link_account :
    Platform → ℕ → Text → ExternalIdentityProtocol → ExternalProfile → Action User
link_account k now secret protocol profile = do
  existing ← get_by_email k (k.lower profile.email)
  u ← account_for k now secret profile existing
  add_link (new_link now protocol profile u.id)
  pure u

unfoldable pub find_or_create_user :
    Platform → ℕ → Text → ExternalIdentityProtocol → ExternalProfile → Action User
find_or_create_user k now secret protocol profile = do
  link ← get_by_subject protocol profile.issuer profile.subject
  known ← linked_user link
  elim known [ some u ↦ pure u | none ↦ link_account k now secret protocol profile ]
