-- ===== src/External/Service.antt =====
-- backend/src/services/oidc_service.py and saml_service.py. The configured clients are a table of
-- names; a client is what its provider says of a code, or of a response to a request.
use pqc_grade_a.Base.{
  ℕ, ◌+◌, Option, none, some, List, [], ◌∷◌, ◌++◌, Text, codes, text_eq, if◌then◌else◌,
}
use pqc_grade_a.Errors.{
  AuthError, auth, oauth_provider_not_supported, oauth_exchange_failed, saml_provider_not_supported,
  saml_assertion_rejected, account_disabled,
}
use pqc_grade_a.Db.{ExternalIdentityProtocol, oidc, saml}
use pqc_grade_a.Exec.{Action, pure, ◌>>=◌, ◌>>◌, raise_if, or_raise}
use pqc_grade_a.Account.Platform.{Platform}
use pqc_grade_a.Account.Sessions.{create_session}
use pqc_grade_a.Account.Auth.{is_disabled}
use pqc_grade_a.External.Clients.{ExternalProfile}
use pqc_grade_a.External.Linker.{find_or_create_user}

pub record OidcClient : Type 0 where
  pub authorization_url : Text → Text
  pub exchange_code : Text → Option ExternalProfile

pub record SamlClient : Type 0 where
  -- the URL and the id of a new request
  pub login_redirect : Text → Text × Text
  pub process_response : Text → Text → Option ExternalProfile
  pub metadata_xml : Text

-- `dict.get`, or the error of the service.
unfoldable pub client_of : {C : Type 0} → List (Text × C) → Text → Option C
client_of [] name = none
client_of ((n, c) ∷ rest) name = if text_eq n name then some c else client_of rest name

unfoldable pub get_client : {C : Type 0} → AuthError → List (Text × C) → Text → Action C
get_client e clients name = or_raise (client_of clients name) (auth e)

-- What a service returns beside the refresh token: the access token and when it ends.
pub record TokenResponse : Type 0 where
  pub access_token : Text
  pub expires_at : ℕ

-- The part that both services share: the account, its session and its tokens. `raw` is the refresh
-- token, and `secret` the password of a new account.
unfoldable pub sign_in :
    Platform
    → ℕ
    → Text
    → Text
    → ExternalIdentityProtocol
    → Text
    → ExternalProfile
    → Action (TokenResponse × Text)
sign_in k now secret raw protocol device profile = do
  u ← find_or_create_user k now secret protocol profile
  raise_if (is_disabled u) (auth account_disabled)
  s ← create_session k now u.id (some device) raw
  pure (record { access_token = k.mint u.id s.0.id now; expires_at = now + k.access_ttl }, s.1)

-- `f"OAuth ({provider})"` and `f"SAML ({idp})"`
abbrev pub device_of : Text → Text → Text
device_of what name = what ++ b' ' ∷ b'(' ∷ name ++ b')' ∷ []

unfoldable pub build_authorization_url : List (Text × OidcClient) → Text → Text → Action Text
build_authorization_url clients provider state = do
  client ← get_client oauth_provider_not_supported clients provider
  pure (client.authorization_url state)

unfoldable pub handle_callback :
    Platform
    → ℕ
    → Text
    → Text
    → List (Text × OidcClient)
    → Text
    → Text
    → Action (TokenResponse × Text)
handle_callback k now secret raw clients provider code = do
  client ← get_client oauth_provider_not_supported clients provider
  profile ← or_raise (client.exchange_code code) (auth oauth_exchange_failed)
  sign_in k now secret raw oidc (device_of (codes "OAuth") provider) profile

unfoldable pub build_login_redirect : List (Text × SamlClient) → Text → Text → Action (Text × Text)
build_login_redirect clients idp relay_state = do
  client ← get_client saml_provider_not_supported clients idp
  pure (client.login_redirect relay_state)

unfoldable pub metadata_xml : List (Text × SamlClient) → Text → Action Text
metadata_xml clients idp = do
  client ← get_client saml_provider_not_supported clients idp
  pure client.metadata_xml

unfoldable pub handle_acs :
    Platform
    → ℕ
    → Text
    → Text
    → List (Text × SamlClient)
    → Text
    → Text
    → Text
    → Action (TokenResponse × Text)
handle_acs k now secret raw clients idp saml_response request_id = do
  client ← get_client saml_provider_not_supported clients idp
  profile ←
      or_raise (client.process_response saml_response request_id) (auth saml_assertion_rejected)
  sign_in k now secret raw saml (device_of (codes "SAML") idp) profile
