-- ===== src/File/Upload.antt =====
-- `upload` of backend/src/services/file_service.py, with the object store of
-- backend/src/repositories/file_storage.py as a state beside the database, which no rollback undoes.
-- A declared size below 0 is as 0.
use pqc_grade_a.Base.{
  ℕ, ◌*◌, Bool, ◌&&◌, ◌||◌, not, Option, none, some, List, [], ◌∷◌, ◌++◌, Text, Bytes, codes, ltb,
  leb, ◌==◌, text_eq, if◌then◌else◌, length, exists, update_where,
}
use pqc_grade_a.Errors.{
  file, file_too_large, file_upload_failed, file_size_mismatch, messaging, invalid_envelope,
  integrity_error, storage_error, data_error,
}
use pqc_grade_a.Db.{
  Db, Json, text, Envelope, Message, FileAttachment, FileUploadStatus, pending, complete, failed,
}
use pqc_grade_a.Exec.{Result, ok, err, Action, pure, gets, ◌>>=◌, ◌>>◌, raise_if, modify, fresh_id}
use pqc_grade_a.Conversation.Repository.{update_last_message_at}
use pqc_grade_a.Messaging.Envelope.{Coercion, validates}
use pqc_grade_a.Messaging.Repository as Messages
use pqc_grade_a.Messaging.Service.{authorize, require_signing_key, new_message, recipients}
use pqc_grade_a.File.Service.{is_file}

-- `conversations/{conversation_id}/{attachment_id}`
abbrev pub StorageKey : Type 0
StorageKey = ℕ × ℕ

abbrev pub Objects : Type 0
Objects = StorageKey → Option Bytes

abbrev pub same_key : StorageKey → StorageKey → Bool
same_key a b = a.0 == b.0 && a.1 == b.1

-- Whether the calls of the store go through.
pub record Store : Type 0 where
  pub puts : Bool
  pub gets : Bool
  pub deletes : Bool

unfoldable pub put_object : StorageKey → Bytes → Objects → Objects
put_object key bytes objects = λ other. if same_key other key then some bytes else objects other

unfoldable pub delete_object : StorageKey → Objects → Objects
delete_object key objects = λ other. if same_key other key then none else objects other

-- A missing key raises too.
unfoldable pub get_object : Store → Objects → StorageKey → Result Bytes
get_object s objects key =
    if s.gets
    then elim (objects key) [ none ↦ err storage_error | some bytes ↦ ok bytes ]
    else err storage_error

pub record Upload : Type 0 where
  pub conversation_id : ℕ
  pub sender_id : ℕ
  pub sender_identity_key_id : ℕ
  pub file_envelope : Envelope
  pub content_type : Text
  pub declared_size_bytes : ℕ
  pub contents : Bytes

abbrev pub max_bytes : ℕ → ℕ
max_bytes max_mb = max_mb * 1024 * 1024

abbrev pub bad_size : ℕ → Upload → Bool
bad_size max_mb u = u.declared_size_bytes == 0 || ltb (max_bytes max_mb) u.declared_size_bytes

-- What is checked before the store is called; the result is the id of the attachment.
unfoldable pub check_upload : Coercion → ℕ → Upload → Action ℕ
check_upload k max_mb u = do
  authorize u.conversation_id u.sender_id
  raise_if (bad_size max_mb u) (file file_too_large)
  require_signing_key u.sender_id u.sender_identity_key_id
  raise_if (not (validates k u.file_envelope)) (messaging invalid_envelope)
  fresh_id

-- `{**envelope, key: value}`
unfoldable pub with_entry : Text → Json → Envelope → Envelope
with_entry key v [] = (key, v) ∷ []
with_entry key v ((k, w) ∷ rest) =
    if text_eq k key then (k, v) ∷ rest else (k, w) ∷ with_entry key v rest

abbrev pub message_envelope : (ℕ → Text) → ℕ → Envelope → Envelope
message_envelope uuid_text attachment e =
    with_entry (codes "file_attachment_id") (text (uuid_text attachment))
      (with_entry (codes "kind") (text (codes "file")) e)

abbrev pub new_attachment : ℕ → Upload → ℕ → ℕ → FileAttachment
new_attachment now u attachment message = record {
  id = attachment;
  message_id = message;
  storage_key = (u.conversation_id, attachment);
  envelope = u.file_envelope;
  content_type = u.content_type;
  size_bytes = length u.contents;
  upload_status = pending;
  created_at = now;
}

-- `String(255)` of the column of content types.
abbrev pub type_fits : Text → Bool
type_fits s = leb (length s) 255

-- `BaseRepository.add` of an attachment: the content type fits its column, and the message is known.
unfoldable pub add_attachment : FileAttachment → Action FileAttachment
add_attachment f = do
  raise_if (not (type_fits f.content_type)) data_error
  raise_if (not (← gets (λ db. exists (λ m. m.id == f.message_id) db.messages))) integrity_error
  modify (λ db. record db { files = db.files ++ f ∷ [] })
  pure f

abbrev pub set_status : FileUploadStatus → FileAttachment → FileAttachment
set_status s f = record f { upload_status = s }

abbrev pub completed : ℕ → FileAttachment → FileAttachment
completed size f = record f { upload_status = complete; size_bytes = size }

unfoldable pub mark_complete : FileAttachment → ℕ → Action FileAttachment
mark_complete f size = do
  modify (λ db. record db { files = update_where (is_file f.id) (completed size) db.files })
  pure (completed size f)

unfoldable pub mark_failed : FileAttachment → Action FileAttachment
mark_failed f = do
  modify (λ db. record db { files = update_where (is_file f.id) (set_status failed) db.files })
  pure (set_status failed f)

-- The companion message, the attachment and the recipients, as in `MessagingService.send`.
unfoldable pub record_upload :
    (ℕ → Text) → ℕ → Upload → ℕ → Action (Message × FileAttachment × List ℕ)
record_upload uuid_text now u attachment = do
  saved ← Messages.add u.conversation_id (
      new_message now u.conversation_id u.sender_id u.sender_identity_key_id []
        (message_envelope uuid_text attachment u.file_envelope))
  pending_row ← add_attachment (new_attachment now u attachment saved.id)
  row ← mark_complete pending_row (length u.contents)
  recipient_ids ← recipients u.conversation_id
  update_last_message_at u.conversation_id saved.sent_at
  pure (saved, row, recipient_ids)

abbrev pub bad_length : ℕ → Upload → Bool
bad_length max_mb u =
    not (length u.contents == u.declared_size_bytes) || ltb (max_bytes max_mb) (length u.contents)

abbrev pub Outcome : Type 0
Outcome = (Result (Message × FileAttachment × List ℕ) × Db) × Objects

-- The object goes to the store; one of another length than was declared is deleted again.
unfoldable pub store_upload : Store → (ℕ → Text) → ℕ → ℕ → Upload → ℕ → Db → Objects → Outcome
store_upload s uuid_text max_mb now u attachment db objects =
    let key : StorageKey = (u.conversation_id, attachment) in
    let stored = put_object key u.contents objects in
    if not s.puts
    then ((err (file file_upload_failed), db), objects)
    else if bad_length max_mb u
    then (if s.deletes
        then ((err (file file_size_mismatch), db), delete_object key stored)
        else ((err storage_error, db), stored))
    else (record_upload uuid_text now u attachment db, stored)

unfoldable pub upload : Coercion → Store → (ℕ → Text) → ℕ → ℕ → Upload → Db → Objects → Outcome
upload k s uuid_text max_mb now u db objects =
    let (r, db') = check_upload k max_mb u db in
    elim r [
      | ok attachment ↦ store_upload s uuid_text max_mb now u attachment db' objects
      | err e ↦ ((err e, db'), objects)
    ]
