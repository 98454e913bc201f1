-- ===== src/File/Service.antt =====
-- `download` of backend/src/services/file_service.py. The object store is a parameter: the bytes of
-- a key, or the error that it raises.
use pqc_grade_a.Base.{ℕ, Bool, true, false, not, Option, none, some, Bytes, ◌==◌, first_where}
use pqc_grade_a.Errors.{file, file_not_found, file_not_ready}
use pqc_grade_a.Db.{Message, FileAttachment, FileUploadStatus, pending, complete, failed}
use pqc_grade_a.Exec.{Result, Action, pure, gets, lift, ◌>>=◌, ◌>>◌, raise_if, or_raise}
use pqc_grade_a.Messaging.Repository as Messages
use pqc_grade_a.Messaging.Service.{authorize}

abbrev pub is_file : ℕ → FileAttachment → Bool
is_file i f = f.id == i

unfoldable pub get_by_id : ℕ → Action (Option FileAttachment)
get_by_id i = gets (λ db. first_where (is_file i) db.files)

abbrev pub is_complete : FileUploadStatus → Bool
is_complete pending = false
is_complete complete = true
is_complete failed = false

-- `message is None or message.conversation_id != conversation_id`
abbrev pub in_conversation : ℕ → Option Message → Bool
in_conversation c none = false
in_conversation c (some m) = m.conversation_id == c

unfoldable pub download : (ℕ × ℕ → Result Bytes) → ℕ → ℕ → ℕ → Action (FileAttachment × Bytes)
download get_object c file_id user = do
  authorize c user
  found ← get_by_id file_id
  f ← or_raise found (file file_not_found)
  message ← Messages.get_by_id f.message_id
  raise_if (not (in_conversation c message)) (file file_not_found)
  raise_if (not (is_complete f.upload_status)) (file file_not_ready)
  bytes ← lift (get_object f.storage_key)
  pure (f, bytes)
