-- ===== src/Tests/Files.antt =====
-- Tests of uploads.
use pqc_grade_a.Base.{
  ℕ, ◌≡◌, ◌⊎◌, ◌↔◌, refl, false, none, some, List, [], ◌∷◌, arith, codes, true, first_where, exists,
  select, update_where,
}
use pqc_grade_a.Errors.{file, file_size_mismatch, data_error}
use pqc_grade_a.Db.{Db, Message, FileAttachment, complete}
use pqc_grade_a.Exec.{ok, err, fresh_id, scalar_one_or_none}
use pqc_grade_a.Conversation.Outcomes.{active_membership}
use pqc_grade_a.Messaging.Service.{authorize, require_signing_key, recipients}
use pqc_grade_a.Base.Sort.{order_by}
use pqc_grade_a.Base.Tests.{text_eq}
use pqc_grade_a.Conversation.Repository as Rows
use pqc_grade_a.Conversation.Repository.{
  get_participant, list_all_participants, update_last_message_at,
}
use pqc_grade_a.IdentityKey.Repository as Keys
use pqc_grade_a.Messaging.Repository as Messages
use pqc_grade_a.Messaging.Envelope.{validates, valid_str, get, valid_int}
use pqc_grade_a.File.Service.{download}
use pqc_grade_a.File.Upload.{
  Store, StorageKey, Objects, Upload, Outcome, type_fits, put_object, get_object, upload,
  check_upload, store_upload, message_envelope, record_upload, add_attachment, mark_complete,
  with_entry,
}
use pqc_grade_a.File.UploadEnds.{MayUpload}
use pqc_grade_a.File.UploadRights.{upload_iff, upload_fails}
use pqc_grade_a.File.Sharing.{FreshKeys, download-upload}
use pqc_grade_a.Tests.World.{coercion, envelope, unary}
use pqc_grade_a.Tests.Storage.{room, room-IsValid, row}

abbrev store : Store
store = record { puts = true; gets = true; deletes = true }

abbrev nothing : Objects
nothing = λ key. none

abbrev two_bytes : Upload
two_bytes = record {
  conversation_id = 10;
  sender_id = 1;
  sender_identity_key_id = 9;
  file_envelope = envelope;
  content_type = codes "image/png";
  declared_size_bytes = 2;
  contents = 4 ∷ 5 ∷ [];
}

-- One byte fewer comes than was declared.
abbrev cut_short : Upload
cut_short = record two_bytes { contents = 4 ∷ [] }

upload_iff_example :
    ((r : Message × FileAttachment × List ℕ) × (db' : Db) × (objects' : Objects) × (upload coercion
          store unary 5 7 two_bytes room nothing
        ≡ ((ok r, db'), objects')))
    ↔ MayUpload coercion store 5 two_bytes room
upload_iff_example = upload_iff coercion store unary 5 7 two_bytes room nothing room-IsValid

abbrev failed_run : Outcome
failed_run = upload coercion store unary 5 7 cut_short room nothing

failed_with : failed_run ≡ ((err (file file_size_mismatch), failed_run.0.1), failed_run.1)
unfolding upload check_upload store_upload authorize require_signing_key get_participant select
    Keys.get_by_id first_where validates valid_str get text_eq valid_int fresh_id
failed_with = refl

upload_fails_example :
    ((other : StorageKey) → failed_run.1 other ≡ nothing other)
    ⊎ ((file file_size_mismatch ≡ data_error)
        × (type_fits (codes "image/png") ≡ false)
        × MayUpload coercion store 5 (record cut_short { content_type = [] }) room
        × (failed_run.1 ≡ put_object (10, 14) (4 ∷ []) nothing))
upload_fails_example =
    upload_fails coercion store unary 5 7 cut_short room nothing room-IsValid
      (file file_size_mismatch) failed_run.0.1 failed_run.1 refl refl failed_with

room-FreshKeys : FreshKeys room
unfolding first_where
room-FreshKeys = record { message_bound = λ i h. ground arith; file_bound = λ i h. ground arith }

abbrev run : Outcome
run = upload coercion store unary 5 7 two_bytes room nothing

abbrev companion : Message
companion = record {
  id = 15;
  conversation_id = 10;
  sender_id = 1;
  sender_identity_key_id = 9;
  ciphertext = [];
  envelope = message_envelope unary 14 envelope;
  integrity_tag_valid_on_receipt = false;
  sent_at = 7;
  delivered_at = none;
}

abbrev shared : FileAttachment
shared = record {
  id = 14;
  message_id = 15;
  storage_key = (10, 14);
  envelope = envelope;
  content_type = codes "image/png";
  size_bytes = 2;
  upload_status = complete;
  created_at = 7;
}

uploads : run ≡ ((ok (companion, shared, 1 ∷ []), run.0.1), run.1)
unfolding upload check_upload store_upload authorize require_signing_key get_participant select
    Keys.get_by_id first_where validates valid_str get text_eq valid_int fresh_id record_upload
    Messages.add add_attachment mark_complete recipients update_last_message_at with_entry
    list_all_participants Rows.get_by_id update_where exists scalar_one_or_none order_by
uploads = refl

still_member : active_membership run.0.1 10 1 ≡ some row
unfolding upload check_upload store_upload authorize require_signing_key get_participant select
    Keys.get_by_id first_where validates valid_str get text_eq valid_int fresh_id record_upload
    Messages.add add_attachment mark_complete recipients update_last_message_at with_entry
    list_all_participants Rows.get_by_id update_where exists scalar_one_or_none order_by
still_member = refl

download-upload_example :
    download (get_object store run.1) 10 14 1 run.0.1 ≡ (ok (shared, 4 ∷ 5 ∷ []), run.0.1)
download-upload_example =
    download-upload coercion store unary 5 7 two_bytes room nothing room-IsValid room-FreshKeys refl
      (companion, shared, 1 ∷ []) run.0.1 run.1 uploads 1 row still_member
