-- ===== src/External/Clients.antt =====
-- What an identity provider says of a user: backend/src/services/oidc_client.py and saml_client.py.
-- The answers of Google's servers and what pysaml2 reads from a response are parameters; a claim is a
-- text, as OpenID Connect has it, and one that is none is read as absent.
use pqc_grade_a.Base.{
  Bool, true, false, Option, none, some, List, [], ◌∷◌, ◌++◌, Text, codes, text_eq, if◌then◌else◌,
}
use pqc_grade_a.Db.{Json, text, int, other, Envelope}
use pqc_grade_a.Messaging.Envelope.{get}

pub record ExternalProfile : Type 0 where
  pub issuer : Text
  pub subject : Text
  pub email : Text
  pub email_verified : Bool
  pub name : Option Text

-- An error of HTTP, a status that is none of success or a body that is no JSON; or the object that
-- Google documents.
pub data HttpResult : Type 0 where
  failed : HttpResult
  json_body : Envelope → HttpResult

pub record GoogleServers : Type 0 where
  -- the token endpoint for a code, and the userinfo endpoint for an access token
  pub token : Text → HttpResult
  pub userinfo : Json → HttpResult
  -- the truth value of a claim
  pub truthy : Json → Bool

abbrev pub issuer : Text
issuer = codes "https://accounts.google.com"

abbrev pub nonempty : Text → Option Text
nonempty [] = none
nonempty (c ∷ s) = some (c ∷ s)

abbrev pub text_claim : Option Json → Option Text
text_claim none = none
text_claim (some (text t)) = some t
text_claim (some (int n)) = none
text_claim (some (other n)) = none

abbrev pub required : Option Text → Option Text
required none = none
required (some t) = nonempty t

abbrev pub truth_of : (Json → Bool) → Option Json → Bool
truth_of truthy none = false
truth_of truthy (some j) = truthy j

-- `none` is `OidcExchangeError`.
unfoldable pub profile_of_claims : (Json → Bool) → Envelope → Option ExternalProfile
profile_of_claims truthy claims = elim (required (text_claim (get (codes "email") claims))) [
  | none ↦ none
  | some email ↦ elim (required (text_claim (get (codes "sub") claims))) [
    | none ↦ none
    | some subject ↦ some (record {
      issuer = issuer;
      subject = subject;
      email = email;
      email_verified = truth_of truthy (get (codes "email_verified") claims);
      name = text_claim (get (codes "name") claims);
    })
  ]
]

abbrev pub claims_of : GoogleServers → HttpResult → Option ExternalProfile
claims_of g failed = none
claims_of g (json_body claims) = profile_of_claims g.truthy claims

abbrev pub ask_userinfo : GoogleServers → Option Json → Option ExternalProfile
ask_userinfo g none = none
ask_userinfo g (some access_token) = claims_of g (g.userinfo access_token)

abbrev pub with_token : GoogleServers → HttpResult → Option ExternalProfile
with_token g failed = none
with_token g (json_body body) = ask_userinfo g (get (codes "access_token") body)

unfoldable pub exchange_code : GoogleServers → Text → Option ExternalProfile
exchange_code g code = with_token g (g.token code)

-- A response whose signature, time, audience and request pysaml2 has checked.
pub record AuthnResponse : Type 0 where
  pub name_id : Option Text
  pub identity : List (Text × List Text)
  pub issuer : Text

unfoldable pub attribute : List (Text × List Text) → Text → List Text
attribute [] key = []
attribute ((k, vs) ∷ rest) key = if text_eq k key then vs else attribute rest key

abbrev pub or_next : List Text → Option Text → Option Text
or_next [] rest = rest
or_next (v ∷ vs) rest = some v

unfoldable pub first_attribute : List (Text × List Text) → List Text → Option Text
first_attribute identity [] = none
first_attribute identity (key ∷ keys) =
    or_next (attribute identity key) (first_attribute identity keys)

abbrev pub email_attribute_keys : List Text
email_attribute_keys =
    codes "email"
    ∷ codes "mail"
    ∷ codes "emailAddress"
    ∷ codes "urn:oid:0.9.2342.19200300.100.1.3"
    ∷ []

abbrev pub name_attribute_keys : List Text
name_attribute_keys =
    codes "displayName"
    ∷ codes "displayname"
    ∷ codes "cn"
    ∷ codes "urn:oid:2.16.840.1.113730.3.1.241"
    ∷ []

abbrev pub first_name_attribute_keys : List Text
first_name_attribute_keys =
    codes "firstName"
    ∷ codes "firstname"
    ∷ codes "givenName"
    ∷ codes "givenname"
    ∷ codes "urn:oid:2.5.4.42"
    ∷ []

abbrev pub last_name_attribute_keys : List Text
last_name_attribute_keys =
    codes "lastName"
    ∷ codes "lastname"
    ∷ codes "surname"
    ∷ codes "sn"
    ∷ codes "urn:oid:2.5.4.4"
    ∷ []

-- `" ".join(p for p in (first, last) if p) or None`
abbrev pub join_names : Option Text → Option Text → Option Text
join_names none none = none
join_names (some a) none = some a
join_names none (some b) = some b
join_names (some a) (some b) = some (a ++ b' ' ∷ b)

abbrev pub or_joined : Option Text → Option Text → Option Text
or_joined none joined = joined
or_joined (some name) joined = some name

unfoldable pub name_of : List (Text × List Text) → Option Text
name_of identity = or_joined (required (first_attribute identity name_attribute_keys)) (
    join_names (required (first_attribute identity first_name_attribute_keys))
      (required (first_attribute identity last_name_attribute_keys)))

-- `parse` is `parse_authn_request_response` for the outstanding request; `none` is
-- `SamlExchangeError`.
unfoldable pub process_response :
    (Text → Text → Option AuthnResponse) → Text → Text → Option ExternalProfile
process_response parse saml_response request_id = elim (parse saml_response request_id) [
  | none ↦ none
  | some r ↦ elim (required r.name_id) [
    | none ↦ none
    | some subject ↦ elim (required (first_attribute r.identity email_attribute_keys)) [
      | none ↦ none
      | some email ↦ some (record {
        issuer = r.issuer;
        subject = subject;
        email = email;
        email_verified = true;
        name = name_of r.identity;
      })
    ]
  ]
]
