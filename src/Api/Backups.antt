-- ===== src/Api/Backups.antt =====
-- The key backup routes of backend/src/api/v1/messages.py. `trim` is how pydantic strips a field.
use pqc_grade_a.Base.{ℕ, Bool, ◌&&◌, not, Text, length}
use pqc_grade_a.Base64.{b64encode, b64decode, standard}
use pqc_grade_a.Errors.{value_error, http_exception}
use pqc_grade_a.Db.{ConversationKeyBackup}
use pqc_grade_a.Exec.{Action, pure, ◌>>=◌, ◌>>◌, raise_if, or_raise}
use pqc_grade_a.Messaging.Envelope.{between}
use pqc_grade_a.Backup.Service.{WrappedKey, put, get}

pub record PutConversationKeyBackupRequest : Type 0 where
  pub wrapped_key : Text
  pub wrap_nonce : Text
  pub wrap_kdf_salt : Text
  pub wrap_kdf_params : Text
  pub wrap_alg : Text

pub record ConversationKeyBackupResponse : Type 0 where
  pub conversation_id : ℕ
  pub wrapped_key : Text
  pub wrap_nonce : Text
  pub wrap_kdf_salt : Text
  pub wrap_kdf_params : Text
  pub wrap_alg : Text
  pub created_at : ℕ
  pub updated_at : ℕ

abbrev pub stripped :
    (Text → Text) → PutConversationKeyBackupRequest → PutConversationKeyBackupRequest
stripped trim r = record {
  wrapped_key = trim r.wrapped_key;
  wrap_nonce = trim r.wrap_nonce;
  wrap_kdf_salt = trim r.wrap_kdf_salt;
  wrap_kdf_params = trim r.wrap_kdf_params;
  wrap_alg = trim r.wrap_alg;
}

-- The bounds of the five fields.
unfoldable pub valid_backup : PutConversationKeyBackupRequest → Bool
valid_backup r =
    between 1 4096 (length r.wrapped_key)
    && (between 1 256 (length r.wrap_nonce)
        && (between 1 256 (length r.wrap_kdf_salt)
            && (between 1 64 (length r.wrap_kdf_params) && between 1 32 (length r.wrap_alg))))

unfoldable pub to_key_backup_response : ConversationKeyBackup → ConversationKeyBackupResponse
to_key_backup_response b = record {
  conversation_id = b.conversation_id;
  wrapped_key = b64encode standard b.wrapped_key;
  wrap_nonce = b64encode standard b.wrap_nonce;
  wrap_kdf_salt = b64encode standard b.wrap_kdf_salt;
  wrap_kdf_params = b.wrap_kdf_params;
  wrap_alg = b.wrap_alg;
  created_at = b.created_at;
  updated_at = b.updated_at;
}

-- The three blobs are decoded before the service is called.
unfoldable pub decode_request : PutConversationKeyBackupRequest → Action WrappedKey
decode_request r = do
  wrapped_key ← or_raise (b64decode r.wrapped_key) value_error
  wrap_nonce ← or_raise (b64decode r.wrap_nonce) value_error
  wrap_kdf_salt ← or_raise (b64decode r.wrap_kdf_salt) value_error
  pure (record {
    wrapped_key = wrapped_key;
    wrap_nonce = wrap_nonce;
    wrap_kdf_salt = wrap_kdf_salt;
    wrap_kdf_params = r.wrap_kdf_params;
    wrap_alg = r.wrap_alg;
  })

unfoldable pub put_conversation_key_backup :
    (Text → Text)
    → ℕ
    → ℕ
    → ℕ
    → PutConversationKeyBackupRequest
    → Action ConversationKeyBackupResponse
put_conversation_key_backup trim now user c body = do
  raise_if (not (valid_backup (stripped trim body))) (http_exception 422)
  w ← decode_request (stripped trim body)
  b ← put now c user w
  pure (to_key_backup_response b)

unfoldable pub get_conversation_key_backup : ℕ → ℕ → Action ConversationKeyBackupResponse
get_conversation_key_backup user c = do
  found ← get c user
  b ← or_raise found (http_exception 404)
  pure (to_key_backup_response b)
