-- ===== src/External/Routes.antt =====
-- The routes of backend/src/api/v1/oidc.py and saml.py: redirects of the browser, with the cookies
-- that they set and delete. A redirect is a response like any other, so its request commits.
use pqc_grade_a.Base.{
  ℕ, Bool, true, false, ◌&&◌, ◌||◌, not, Option, none, some, List, [], ◌∷◌, Text, codes, text_eq,
  if◌then◌else◌, leb, exists,
}
use pqc_grade_a.Errors.{
  Error, AuthError, auth, oauth_provider_not_supported, oauth_exchange_failed,
  saml_provider_not_supported, saml_assertion_rejected, account_disabled,
  external_identity_conflict, type_error,
}
use pqc_grade_a.Exec.{Action, Result, ok, err, pure, ◌>>=◌, ◌>>◌, raise_if}
use pqc_grade_a.Account.Platform.{Platform}
use pqc_grade_a.External.Service.{
  OidcClient, SamlClient, build_authorization_url, handle_callback, build_login_redirect,
  metadata_xml, handle_acs,
}

pub data Cookie : Type 0 where
  refresh_token oauth_state saml_request_id : Cookie

pub data CookieChange : Type 0 where
  set_cookie : Cookie → Text → CookieChange
  delete_cookie : Cookie → CookieChange

-- Where the browser goes: the root of the frontend, its login page with an error, or an identity
-- provider.
pub data Target : Type 0 where
  app : Target
  login_error : Text → Target
  provider : Text → Target

pub record RedirectResponse : Type 0 where
  pub target : Target
  pub cookies : List CookieChange

abbrev pub to_login : Cookie → Text → RedirectResponse
to_login c code = record { target = login_error code; cookies = delete_cookie c ∷ [] }

-- What a `try` catches becomes a redirect to the login page; any other error goes on.
abbrev pub caught : (AuthError → Bool) → RedirectResponse → Error → Result RedirectResponse
caught handled resp (auth e) = if handled e then ok resp else err (auth e)
caught handled resp e = err e

unfoldable pub or_redirect :
    (AuthError → Bool) → RedirectResponse → Action RedirectResponse → Action RedirectResponse
or_redirect handled resp m db =
    let (r, db') = m db in elim r [ ok a ↦ (ok a, db') | err e ↦ (caught handled resp e, db') ]

unfoldable pub oidc_errors : AuthError → Bool
oidc_errors oauth_provider_not_supported = true
oidc_errors oauth_exchange_failed = true
oidc_errors external_identity_conflict = true
oidc_errors account_disabled = true
oidc_errors e = false

unfoldable pub saml_errors : AuthError → Bool
saml_errors saml_provider_not_supported = true
saml_errors saml_assertion_rejected = true
saml_errors external_identity_conflict = true
saml_errors account_disabled = true
saml_errors e = false

unfoldable pub oidc_unsupported : AuthError → Bool
oidc_unsupported oauth_provider_not_supported = true
oidc_unsupported e = false

unfoldable pub saml_unsupported : AuthError → Bool
saml_unsupported saml_provider_not_supported = true
saml_unsupported e = false

-- `state` is random.
unfoldable pub oidc_authorize : List (Text × OidcClient) → Text → Text → Action RedirectResponse
oidc_authorize clients name state =
    or_redirect oidc_unsupported (to_login oauth_state (codes "oauth_unavailable")) (do
      url ← build_authorization_url clients name state
      pure (record { target = provider url; cookies = set_cookie oauth_state state ∷ [] }))

-- A text that is there and not empty.
abbrev pub truthy_text : Option Text → Bool
truthy_text none = false
truthy_text (some []) = false
truthy_text (some (c ∷ s)) = true

abbrev pub or_blank : Option Text → Text
or_blank none = []
or_blank (some s) = s

-- `error or not code or not state or not cookie_state`
abbrev pub incomplete : Option Text → Option Text → Option Text → Option Text → Bool
incomplete error code state cookie_state =
    truthy_text error
    || (not (truthy_text code) || (not (truthy_text state) || not (truthy_text cookie_state)))

abbrev pub is_ascii : Text → Bool
is_ascii s = not (exists (λ c. leb 128 c) s)

-- `secrets.compare_digest` of two texts takes ASCII only.
unfoldable pub compare_digest : Text → Text → Action Bool
compare_digest s t = do raise_if (not (is_ascii s && is_ascii t)) type_error; pure (text_eq s t)

abbrev pub signed_in_response : Cookie → Text → RedirectResponse
signed_in_response c raw = record {
  target = app;
  cookies = delete_cookie c ∷ set_cookie refresh_token raw ∷ [];
}

unfoldable pub oidc_callback :
    Platform
    → ℕ
    → Text
    → Text
    → List (Text × OidcClient)
    → Text
    → Option Text
    → Option Text
    → Option Text
    → Option Text
    → Action RedirectResponse
oidc_callback k now secret raw clients name error code state cookie_state =
    if incomplete error code state cookie_state
    then pure (to_login oauth_state (codes "oauth_failed"))
    else (do
      same ← compare_digest (or_blank state) (or_blank cookie_state)
      if not same
          then pure (to_login oauth_state (codes "oauth_failed"))
          else or_redirect oidc_errors (to_login oauth_state (codes "oauth_failed")) (do
            r ← handle_callback k now secret raw clients name (or_blank code)
            pure (signed_in_response oauth_state r.1)))

unfoldable pub saml_login : List (Text × SamlClient) → Text → Action RedirectResponse
saml_login clients name =
    or_redirect saml_unsupported (to_login saml_request_id (codes "saml_unavailable")) (do
      r ← build_login_redirect clients name []
      pure (record { target = provider r.0; cookies = set_cookie saml_request_id r.1 ∷ [] }))

unfoldable pub saml_acs :
    Platform
    → ℕ
    → Text
    → Text
    → List (Text × SamlClient)
    → Text
    → Text
    → Option Text
    → Action RedirectResponse
saml_acs k now secret raw clients name saml_response request_id =
    if not (truthy_text request_id)
    then pure (to_login saml_request_id (codes "saml_failed"))
    else or_redirect saml_errors (to_login saml_request_id (codes "saml_failed")) (do
      r ← handle_acs k now secret raw clients name saml_response (or_blank request_id)
      pure (signed_in_response saml_request_id r.1))

pub data TextResponse : Type 0 where
  xml : Text → TextResponse
  not_configured : TextResponse

abbrev pub xml_or_404 : (AuthError → Bool) → Error → Result TextResponse
xml_or_404 handled (auth e) = if handled e then ok not_configured else err (auth e)
xml_or_404 handled e = err e

unfoldable pub saml_metadata : List (Text × SamlClient) → Text → Action TextResponse
saml_metadata clients name db =
    let (r, db') = metadata_xml clients name db in
    elim r [ ok a ↦ (ok (xml a), db') | err e ↦ (xml_or_404 saml_unsupported e, db') ]
