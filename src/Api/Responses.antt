-- ===== src/Api/Responses.antt =====
-- What a client is told of an error: the exception handlers of backend/src/main.py and of
-- backend/src/core/error_handling.py.
use pqc_grade_a.Base.{ℕ, Option, none, some, String}
use pqc_grade_a.Errors.{
  Error, auth, messaging, file, user, http_exception, auth_status_code, auth_error_code,
  messaging_status_code, messaging_error_code, file_status_code, file_error_code,
  user_service_status_code, user_service_error_code,
}

-- The status, and the `error_code` of the body; an `HTTPException` has a body of its own.
pub record ErrorResponse : Type 0 where
  pub status_code : ℕ
  pub error_code : Option String

unfoldable pub error_response : Error → ErrorResponse
error_response (auth e) = record {
  status_code = auth_status_code e;
  error_code = some (auth_error_code e);
}
error_response (messaging e) = record {
  status_code = messaging_status_code e;
  error_code = some (messaging_error_code e);
}
error_response (file e) = record {
  status_code = file_status_code e;
  error_code = some (file_error_code e);
}
error_response (user e) = record {
  status_code = user_service_status_code e;
  error_code = some (user_service_error_code e);
}
error_response (http_exception n) = record { status_code = n; error_code = none }
error_response e = record { status_code = 500; error_code = some "internal_error" }
