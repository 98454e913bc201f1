-- ===== src/IdentityKey/Service.antt =====
-- backend/src/services/identity_key_service.py and `_wrapped_fields` of
-- backend/src/api/v1/users.py. The signature scheme of `IdentityKeyProvider` is a parameter.
use pqc_grade_a.Base.{
  ℕ, ◌+◌, Bool, true, false, ◌&&◌, not, Option, none, some, List, [], ◌∷◌, ◌++◌, Text, Bytes, ltb,
  is_some,
}
use pqc_grade_a.Base64.{b64decode}
use pqc_grade_a.Errors.{messaging, invalid_rotation_attestation, value_error, http_exception}
use pqc_grade_a.Db.{IdentityKeyRecord}
use pqc_grade_a.Exec.{Action, pure, ◌>>=◌, ◌>>◌, raise_if, or_raise}
use pqc_grade_a.IdentityKey.Repository.{
  list_active_for_user, get_active_for_user, mark_superseded, add,
}

-- The optional fields of a request with the password-wrapped private keys (FR-054).
pub record Wrapped : Type 0 where
  pub wrapped_signing_private_key : Option Text
  pub wrapped_kem_private_key : Option Text
  pub wrap_nonce : Option Text
  pub wrap_kdf_salt : Option Text
  pub wrap_kdf_params : Option Text
  pub wrap_alg : Option Text

abbrev pub one_if : Bool → ℕ
one_if true = 1
one_if false = 0

abbrev pub present : Wrapped → ℕ
present w =
    one_if (is_some w.wrapped_signing_private_key)
    + one_if (is_some w.wrapped_kem_private_key)
    + one_if (is_some w.wrap_nonce)
    + one_if (is_some w.wrap_kdf_salt)
    + one_if (is_some w.wrap_kdf_params)
    + one_if (is_some w.wrap_alg)

-- All six fields or none.
unfoldable pub wrapped_fields : Wrapped → Action Wrapped
wrapped_fields w = do raise_if (ltb 0 (present w) && ltb (present w) 6) (http_exception 400); pure w

unfoldable pub decode_b64 : Text → Action Bytes
decode_b64 value = or_raise (b64decode value) value_error

unfoldable pub opt_b64 : Option Text → Action (Option Bytes)
opt_b64 none = pure none
opt_b64 (some value) = do b ← decode_b64 value; pure (some b)

-- The four wrapped blobs, decoded in the order of the constructor's arguments.
pub record Blobs : Type 0 where
  pub signing : Option Bytes
  pub kem : Option Bytes
  pub nonce : Option Bytes
  pub salt : Option Bytes

unfoldable pub decode_wrapped : Wrapped → Action Blobs
decode_wrapped w = do
  signing ← opt_b64 w.wrapped_signing_private_key
  kem ← opt_b64 w.wrapped_kem_private_key
  nonce ← opt_b64 w.wrap_nonce
  salt ← opt_b64 w.wrap_kdf_salt
  pure (record { signing = signing; kem = kem; nonce = nonce; salt = salt })

abbrev pub new_record :
    ℕ → ℕ → Text → Bytes → Bytes → ℕ → Option Bytes → Blobs → Wrapped → ℕ → IdentityKeyRecord
new_record now user label signing kem version attestation blobs w i = record {
  id = i;
  user_id = user;
  device_label = label;
  public_signing_key = signing;
  public_kem_key = kem;
  key_version = version;
  rotation_attestation = attestation;
  wrapped_signing_private_key = blobs.signing;
  wrapped_kem_private_key = blobs.kem;
  wrap_nonce = blobs.nonce;
  wrap_kdf_salt = blobs.salt;
  wrap_kdf_params = w.wrap_kdf_params;
  wrap_alg = w.wrap_alg;
  created_at = now;
  superseded_at = none;
}

abbrev pub next_version : List IdentityKeyRecord → ℕ
next_version [] = 1
next_version (k ∷ ks) = k.key_version + 1

unfoldable pub publish : ℕ → ℕ → Text → Text → Text → Wrapped → Action IdentityKeyRecord
publish now user label signing_b64 kem_b64 w = do
  active ← list_active_for_user user
  signing ← decode_b64 signing_b64
  kem ← decode_b64 kem_b64
  blobs ← decode_wrapped w
  add (new_record now user label signing kem (next_version active) none blobs w)

-- `verify public message signature` of the provider.
unfoldable pub rotate :
    (Bytes → Bytes → Bytes → Bool) → ℕ → ℕ → Text → Text → Text → Wrapped → Action IdentityKeyRecord
rotate verify now user signing_b64 kem_b64 attestation_b64 w = do
  found ← get_active_for_user user none
  outgoing ← or_raise found (messaging invalid_rotation_attestation)
  signing ← decode_b64 signing_b64
  kem ← decode_b64 kem_b64
  attestation ← decode_b64 attestation_b64
  raise_if (not (verify outgoing.public_signing_key (signing ++ kem) attestation))
      (messaging invalid_rotation_attestation)
  mark_superseded now outgoing
  blobs ← decode_wrapped w
  add (
      new_record now user outgoing.device_label signing kem (outgoing.key_version + 1)
        (some attestation) blobs w)
