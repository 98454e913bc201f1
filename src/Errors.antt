-- ===== src/Errors.antt =====
-- The exceptions of the services with their HTTP status and error code:
-- backend/src/services/errors.py, messaging_errors.py, file_errors.py and user_errors.py, and the
-- exceptions of the libraries that reach the services.
use pqc_grade_a.Base.{ℕ, String}

pub data AuthError : Type 0 where
  weak_password invalid_verification_token email_already_registered : AuthError
  username_already_registered invalid_credentials email_not_verified : AuthError
  account_disabled unauthenticated invalid_refresh_token : AuthError
  mfa_required invalid_mfa_code mfa_already_enabled : AuthError
  mfa_enrollment_not_found mfa_not_enabled session_not_found : AuthError
  oauth_provider_not_supported oauth_exchange_failed : AuthError
  saml_provider_not_supported saml_assertion_rejected : AuthError
  external_identity_conflict : AuthError

pub data MessagingError : Type 0 where
  conversation_not_found not_participant invalid_envelope : MessagingError
  invalid_identity_key invalid_rotation_attestation : MessagingError
  invalid_conversation_request not_group_admin : MessagingError
  conversation_type_mismatch participant_already_active : MessagingError

pub data FileError : Type 0 where
  file_too_large file_size_mismatch file_type_not_allowed : FileError
  file_not_found file_not_ready file_upload_failed : FileError
  -- the base class, which the upload route raises itself
  file_error : FileError

pub data UserServiceError : Type 0 where
  user_not_found : UserServiceError

-- What a call raises. The last ten are not classes of the program: a violated constraint of the
-- database, more than one row where a query promises one, a pattern that the database refuses or a
-- text too long for its column, the `ValueError` of a decoder, pydantic's `ValidationError`, a
-- ciphertext that does not authenticate, a `TypeError`, an error of the object store, no exception
-- but a loop that has used up its fuel, and an `HTTPException` that a route raises.
pub data Error : Type 0 where
  auth : AuthError → Error
  messaging : MessagingError → Error
  file : FileError → Error
  user : UserServiceError → Error
  integrity_error multiple_results data_error value_error validation_error : Error
  decryption_error type_error storage_error unfinished : Error
  http_exception : ℕ → Error

unfoldable pub auth_status_code : AuthError → ℕ
auth_status_code weak_password = 400
auth_status_code invalid_verification_token = 400
auth_status_code email_already_registered = 409
auth_status_code username_already_registered = 409
auth_status_code invalid_credentials = 401
auth_status_code email_not_verified = 403
auth_status_code account_disabled = 403
auth_status_code unauthenticated = 401
auth_status_code invalid_refresh_token = 401
auth_status_code mfa_required = 401
auth_status_code invalid_mfa_code = 401
auth_status_code mfa_already_enabled = 409
auth_status_code mfa_enrollment_not_found = 400
auth_status_code mfa_not_enabled = 400
auth_status_code session_not_found = 404
auth_status_code oauth_provider_not_supported = 404
auth_status_code oauth_exchange_failed = 401
auth_status_code saml_provider_not_supported = 404
auth_status_code saml_assertion_rejected = 401
auth_status_code external_identity_conflict = 401

unfoldable pub auth_error_code : AuthError → String
auth_error_code weak_password = "weak_password"
auth_error_code invalid_verification_token = "invalid_verification_token"
auth_error_code email_already_registered = "email_already_registered"
auth_error_code username_already_registered = "username_taken"
auth_error_code invalid_credentials = "invalid_credentials"
auth_error_code email_not_verified = "email_not_verified"
auth_error_code account_disabled = "account_disabled"
auth_error_code unauthenticated = "unauthenticated"
auth_error_code invalid_refresh_token = "invalid_refresh_token"
auth_error_code mfa_required = "mfa_required"
auth_error_code invalid_mfa_code = "invalid_mfa_code"
auth_error_code mfa_already_enabled = "mfa_already_enabled"
auth_error_code mfa_enrollment_not_found = "mfa_enrollment_not_found"
auth_error_code mfa_not_enabled = "mfa_not_enabled"
auth_error_code session_not_found = "session_not_found"
auth_error_code oauth_provider_not_supported = "oauth_provider_not_supported"
auth_error_code oauth_exchange_failed = "oauth_exchange_failed"
auth_error_code saml_provider_not_supported = "saml_provider_not_supported"
auth_error_code saml_assertion_rejected = "saml_assertion_rejected"
auth_error_code external_identity_conflict = "external_identity_conflict"

unfoldable pub messaging_status_code : MessagingError → ℕ
messaging_status_code conversation_not_found = 404
messaging_status_code not_participant = 403
messaging_status_code invalid_envelope = 400
messaging_status_code invalid_identity_key = 400
messaging_status_code invalid_rotation_attestation = 400
messaging_status_code invalid_conversation_request = 400
messaging_status_code not_group_admin = 403
messaging_status_code conversation_type_mismatch = 400
messaging_status_code participant_already_active = 409

unfoldable pub messaging_error_code : MessagingError → String
messaging_error_code conversation_not_found = "conversation_not_found"
messaging_error_code not_participant = "not_participant"
messaging_error_code invalid_envelope = "invalid_envelope"
messaging_error_code invalid_identity_key = "invalid_identity_key"
messaging_error_code invalid_rotation_attestation = "invalid_rotation_attestation"
messaging_error_code invalid_conversation_request = "invalid_conversation_request"
messaging_error_code not_group_admin = "not_group_admin"
messaging_error_code conversation_type_mismatch = "conversation_type_mismatch"
messaging_error_code participant_already_active = "participant_already_active"

unfoldable pub file_status_code : FileError → ℕ
file_status_code file_too_large = 413
file_status_code file_size_mismatch = 400
file_status_code file_type_not_allowed = 400
file_status_code file_not_found = 404
file_status_code file_not_ready = 404
file_status_code file_upload_failed = 502
file_status_code file_error = 400

unfoldable pub file_error_code : FileError → String
file_error_code file_too_large = "file_too_large"
file_error_code file_size_mismatch = "file_size_mismatch"
file_error_code file_type_not_allowed = "file_type_not_allowed"
file_error_code file_not_found = "file_not_found"
file_error_code file_not_ready = "file_not_ready"
file_error_code file_upload_failed = "file_upload_failed"
file_error_code file_error = "file_error"

unfoldable pub user_service_status_code : UserServiceError → ℕ
user_service_status_code user_not_found = 404

unfoldable pub user_service_error_code : UserServiceError → String
user_service_error_code user_not_found = "user_not_found"
