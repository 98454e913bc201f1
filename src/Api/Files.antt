-- ===== src/Api/Files.antt =====
-- The handlers of backend/src/api/v1/files.py. The JSON of the envelope is parsed by a parameter,
-- which reads a value that is no object as the empty object: neither validates.
use pqc_grade_a.Base.{ℕ, Option, none, some, List, Text, Bytes, ◌==◌, delete_where}
use pqc_grade_a.Errors.{file, file_error}
use pqc_grade_a.Db.{Db, Envelope, FileAttachment, FileUploadStatus, Message}
use pqc_grade_a.Exec.{Action, Result, ok, err, pure, ◌>>=◌}
use pqc_grade_a.Messaging.Envelope.{Coercion}
use pqc_grade_a.File.Service.{download}
use pqc_grade_a.File.Upload.{Store, Objects, Upload, upload}
use pqc_grade_a.Api.Handlers.{Deliveries, fan_out, message_new}

-- The form of an upload.
pub record UploadForm : Type 0 where
  pub conversation_id : ℕ
  pub sender_identity_key_id : ℕ
  pub file_envelope : Text
  pub content_type : Text
  pub size_bytes : ℕ
  pub file_ciphertext : Bytes

pub record FileUploadResponse : Type 0 where
  pub file_attachment_id : ℕ
  pub message_id : ℕ
  pub content_type : Text
  pub size_bytes : ℕ
  pub upload_status : FileUploadStatus
  pub sent_at : ℕ

abbrev pub upload_of : ℕ → UploadForm → Envelope → Upload
upload_of user f e = record {
  conversation_id = f.conversation_id;
  sender_id = user;
  sender_identity_key_id = f.sender_identity_key_id;
  file_envelope = e;
  content_type = f.content_type;
  declared_size_bytes = f.size_bytes;
  contents = f.file_ciphertext;
}

abbrev pub upload_response : Message → FileAttachment → FileUploadResponse
upload_response m a = record {
  file_attachment_id = a.id;
  message_id = m.id;
  content_type = a.content_type;
  size_bytes = a.size_bytes;
  upload_status = a.upload_status;
  sent_at = m.sent_at;
}

-- The response, and the event for all recipients but the sender.
abbrev pub shared :
    ℕ → Result (Message × FileAttachment × List ℕ) → Result (FileUploadResponse × Deliveries)
shared user (err e) = err e
shared user (ok (m, a, recipients)) =
    ok (upload_response m a, fan_out (message_new m) (delete_where (λ u. u == user) recipients))

unfoldable pub upload_file :
    Coercion
    → (Text → Option Envelope)
    → Store
    → (ℕ → Text)
    → ℕ
    → ℕ
    → ℕ
    → UploadForm
    → Db
    → Objects
    → (Result (FileUploadResponse × Deliveries) × Db) × Objects
upload_file k loads s uuid_text max_mb now user f db objects = elim (loads f.file_envelope) [
  | none ↦ ((err (file file_error), db), objects)
  | some e ↦
      let ((r, db'), objects') = upload k s uuid_text max_mb now (upload_of user f e) db objects in
      ((shared user r, db'), objects')
]

-- The bytes, with what the headers say of them.
pub record FileResponse : Type 0 where
  pub content : Bytes
  pub envelope : Envelope
  pub content_type : Text
  pub size_bytes : ℕ

unfoldable pub download_file : (ℕ × ℕ → Result Bytes) → ℕ → ℕ → ℕ → Action FileResponse
download_file objects user c i = do
  r ← download objects c i user
  pure (record {
    content = r.1;
    envelope = r.0.envelope;
    content_type = r.0.content_type;
    size_bytes = r.0.size_bytes;
  })
