-- ===== src/Db.antt =====
-- The tables of the database: backend/src/models/*.py. A row is a record with the columns of its
-- table, a UUID and a timestamp are numbers, and the primary keys are drawn from a counter.
use pqc_grade_a.Base.{ℕ, Bool, Option, List, [], Text, Bytes, is_none, is_some, ltb, ◌&&◌}

pub data ConversationType : Type 0 where
  direct group : ConversationType

pub data ParticipantRole : Type 0 where
  member group_admin : ParticipantRole

pub record Conversation : Type 0 where
  pub id : ℕ
  pub type : ConversationType
  pub name : Option Text
  pub created_by : ℕ
  pub created_at : ℕ
  pub last_message_at : Option ℕ

pub record ConversationParticipant : Type 0 where
  pub id : ℕ
  pub conversation_id : ℕ
  pub user_id : ℕ
  pub role : Option ParticipantRole
  pub joined_at : ℕ
  pub left_at : Option ℕ

-- A value of a JSON object, as far as the program looks into it.
pub data Json : Type 0 where
  text : Text → Json
  int : ℕ → Json
  other : ℕ → Json

abbrev pub Envelope : Type 0
Envelope = List (Text × Json)

pub record Message : Type 0 where
  pub id : ℕ
  pub conversation_id : ℕ
  pub sender_id : ℕ
  pub sender_identity_key_id : ℕ
  pub ciphertext : Bytes
  pub envelope : Envelope
  pub integrity_tag_valid_on_receipt : Bool
  pub sent_at : ℕ
  pub delivered_at : Option ℕ

pub record IdentityKeyRecord : Type 0 where
  pub id : ℕ
  pub user_id : ℕ
  pub device_label : Text
  pub public_signing_key : Bytes
  pub public_kem_key : Bytes
  pub key_version : ℕ
  pub rotation_attestation : Option Bytes
  pub wrapped_signing_private_key : Option Bytes
  pub wrapped_kem_private_key : Option Bytes
  pub wrap_nonce : Option Bytes
  pub wrap_kdf_salt : Option Bytes
  pub wrap_kdf_params : Option Text
  pub wrap_alg : Option Text
  pub created_at : ℕ
  pub superseded_at : Option ℕ

pub data FileUploadStatus : Type 0 where
  pending complete failed : FileUploadStatus

pub record FileAttachment : Type 0 where
  pub id : ℕ
  pub message_id : ℕ
  pub storage_key : ℕ × ℕ
  pub envelope : Envelope
  pub content_type : Text
  pub size_bytes : ℕ
  pub upload_status : FileUploadStatus
  pub created_at : ℕ

pub record ConversationKeyBackup : Type 0 where
  pub id : ℕ
  pub conversation_id : ℕ
  pub user_id : ℕ
  pub wrapped_key : Bytes
  pub wrap_nonce : Bytes
  pub wrap_kdf_salt : Bytes
  pub wrap_kdf_params : Text
  pub wrap_alg : Text
  pub created_at : ℕ
  pub updated_at : ℕ

pub data UserStatus : Type 0 where
  active disabled : UserStatus

pub record User : Type 0 where
  pub id : ℕ
  pub email : Text
  pub username : Text
  pub password_hash : Text
  pub display_name : Text
  pub avatar_url : Option Text
  pub email_verified : Bool
  pub status : UserStatus
  pub last_seen_at : Option ℕ
  pub created_at : ℕ
  pub updated_at : ℕ

pub record Session : Type 0 where
  pub id : ℕ
  pub user_id : ℕ
  pub refresh_token_hash : Text
  pub device_context : Option Text
  pub created_at : ℕ
  pub expires_at : ℕ
  pub revoked_at : Option ℕ

-- `Session.is_active`
unfoldable pub session_is_active : ℕ → Session → Bool
session_is_active now s = is_none s.revoked_at && ltb now s.expires_at

pub record EmailVerificationToken : Type 0 where
  pub id : ℕ
  pub user_id : ℕ
  pub token_hash : Text
  pub created_at : ℕ
  pub expires_at : ℕ
  pub used_at : Option ℕ

-- `EmailVerificationToken.is_valid`
unfoldable pub token_is_valid : ℕ → EmailVerificationToken → Bool
token_is_valid now t = is_none t.used_at && ltb now t.expires_at

pub data MfaFactorType : Type 0 where
  totp : MfaFactorType

pub record MfaFactor : Type 0 where
  pub id : ℕ
  pub user_id : ℕ
  pub type : MfaFactorType
  pub secret_ciphertext : Bytes
  pub secret_nonce : Bytes
  pub created_at : ℕ
  pub enabled_at : Option ℕ
  pub disabled_at : Option ℕ

-- `MfaFactor.is_pending`
unfoldable pub factor_is_pending : MfaFactor → Bool
factor_is_pending f = is_none f.enabled_at && is_none f.disabled_at

-- `MfaFactor.is_active`
unfoldable pub factor_is_active : MfaFactor → Bool
factor_is_active f = is_some f.enabled_at && is_none f.disabled_at

pub data ExternalIdentityProtocol : Type 0 where
  oidc saml : ExternalIdentityProtocol

pub record ExternalIdentityLink : Type 0 where
  pub id : ℕ
  pub user_id : ℕ
  pub protocol : ExternalIdentityProtocol
  pub provider_identifier : Text
  pub subject : Text
  pub created_at : ℕ

pub record Db : Type 0 where
  pub users : List User
  pub sessions : List Session
  pub tokens : List EmailVerificationToken
  pub factors : List MfaFactor
  pub links : List ExternalIdentityLink
  pub identity_keys : List IdentityKeyRecord
  pub conversations : List Conversation
  pub participants : List ConversationParticipant
  pub messages : List Message
  pub files : List FileAttachment
  pub backups : List ConversationKeyBackup
  pub next_id : ℕ

abbrev pub empty_db : Db
empty_db = record {
  users = [];
  sessions = [];
  tokens = [];
  factors = [];
  links = [];
  identity_keys = [];
  conversations = [];
  participants = [];
  messages = [];
  files = [];
  backups = [];
  next_id = 1;
}
