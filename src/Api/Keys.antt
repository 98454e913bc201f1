-- ===== src/Api/Keys.antt =====
-- The routes of identity keys in backend/src/api/v1/users.py, with the bodies of
-- backend/src/schemas/messaging.py. `trim` is how pydantic strips a field.
use pqc_grade_a.Base.{ℕ, Bool, ◌&&◌, not, Option, none, List, map, Text, Bytes, length, leb}
use pqc_grade_a.Base64.{b64encode, standard}
use pqc_grade_a.Errors.{http_exception}
use pqc_grade_a.Db.{IdentityKeyRecord}
use pqc_grade_a.Exec.{Action, pure, ◌>>=◌, ◌>>◌, raise_if, or_raise}
use pqc_grade_a.Messaging.Envelope.{between}
use pqc_grade_a.IdentityKey.Repository.{list_active_for_user, get_active_for_user}
use pqc_grade_a.IdentityKey.Service.{Wrapped, wrapped_fields, publish, rotate}
use pqc_grade_a.Api.Accounts.{if_given}
use mathlib.Core.Option

pub record PublicIdentityKeyResponse : Type 0 where
  pub id : ℕ
  pub user_id : ℕ
  pub device_label : Text
  pub public_signing_key : Text
  pub public_kem_key : Text
  pub key_version : ℕ
  pub created_at : ℕ
  pub superseded_at : Option ℕ

-- What the owner gets: the wrapped private keys too.
pub record IdentityKeyResponse : Type 0 where
  pub directory : PublicIdentityKeyResponse
  pub wrapped : Wrapped

-- `_b64`
abbrev pub b64 : Option Bytes → Option Text
b64 = Option.map (b64encode standard)

unfoldable pub to_public_key_response : IdentityKeyRecord → PublicIdentityKeyResponse
to_public_key_response r = record {
  id = r.id;
  user_id = r.user_id;
  device_label = r.device_label;
  public_signing_key = b64encode standard r.public_signing_key;
  public_kem_key = b64encode standard r.public_kem_key;
  key_version = r.key_version;
  created_at = r.created_at;
  superseded_at = r.superseded_at;
}

unfoldable pub to_full_key_response : IdentityKeyRecord → IdentityKeyResponse
to_full_key_response r = record {
  directory = to_public_key_response r;
  wrapped = record {
    wrapped_signing_private_key = b64 r.wrapped_signing_private_key;
    wrapped_kem_private_key = b64 r.wrapped_kem_private_key;
    wrap_nonce = b64 r.wrap_nonce;
    wrap_kdf_salt = b64 r.wrap_kdf_salt;
    wrap_kdf_params = r.wrap_kdf_params;
    wrap_alg = r.wrap_alg;
  };
}

abbrev pub at_most : ℕ → Text → Bool
at_most n s = leb (length s) n

-- The bounds of the six optional fields.
unfoldable pub valid_wrapped : Wrapped → Bool
valid_wrapped w =
    if_given (at_most 32768) w.wrapped_signing_private_key
    && (if_given (at_most 32768) w.wrapped_kem_private_key
        && (if_given (at_most 256) w.wrap_nonce
            && (if_given (at_most 256) w.wrap_kdf_salt
                && (if_given (at_most 64) w.wrap_kdf_params && if_given (at_most 32) w.wrap_alg))))

abbrev pub valid_blob : Text → Bool
valid_blob s = between 1 8192 (length s)

abbrev pub trimmed : (Text → Text) → Wrapped → Wrapped
trimmed trim w = record {
  wrapped_signing_private_key = Option.map trim w.wrapped_signing_private_key;
  wrapped_kem_private_key = Option.map trim w.wrapped_kem_private_key;
  wrap_nonce = Option.map trim w.wrap_nonce;
  wrap_kdf_salt = Option.map trim w.wrap_kdf_salt;
  wrap_kdf_params = Option.map trim w.wrap_kdf_params;
  wrap_alg = Option.map trim w.wrap_alg;
}

-- The fields of `PublishIdentityKeyRequest`, as they are after `trim`.
unfoldable pub publish_identity_key :
    (Text → Text) → ℕ → ℕ → Text → Text → Text → Wrapped → Action IdentityKeyResponse
publish_identity_key trim now user label signing kem w = do
  raise_if
      (not (
        between 1 100 (length (trim label))
        && (valid_blob (trim signing)
            && (valid_blob (trim kem) && valid_wrapped (trimmed trim w)))))
      (http_exception 422)
  fields ← wrapped_fields (trimmed trim w)
  r ← publish now user (trim label) (trim signing) (trim kem) fields
  pure (to_full_key_response r)

unfoldable pub rotate_identity_key :
    (Text → Text)
    → (Bytes → Bytes → Bytes → Bool)
    → ℕ
    → ℕ
    → Text
    → Text
    → Text
    → Wrapped
    → Action IdentityKeyResponse
rotate_identity_key trim verify now user signing kem attestation w = do
  raise_if
      (not (
        valid_blob (trim signing)
        && (valid_blob (trim kem)
            && (valid_blob (trim attestation) && valid_wrapped (trimmed trim w)))))
      (http_exception 422)
  fields ← wrapped_fields (trimmed trim w)
  r ← rotate verify now user (trim signing) (trim kem) (trim attestation) fields
  pure (to_full_key_response r)

unfoldable pub get_my_identity_key : ℕ → Action IdentityKeyResponse
get_my_identity_key user = do
  found ← get_active_for_user user none
  r ← or_raise found (http_exception 404)
  pure (to_full_key_response r)

unfoldable pub list_identity_keys : ℕ → Action (List PublicIdentityKeyResponse)
list_identity_keys user = do
  keys ← list_active_for_user user
  pure (map to_public_key_response keys)
