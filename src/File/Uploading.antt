-- ===== src/File/Uploading.antt =====
-- `upload` branch by branch, on a database that keeps its constraints.
use pqc_grade_a.Base.{
  ℕ, ◌+◌, ◌≡◌, true, false, none, some, [], ◌∷◌, ◌++◌, Text, ◌==◌, ==_refl, arith, length, exists,
  update_where,
}
use pqc_grade_a.Base.AppendLaws.{exists_last}
use pqc_grade_a.Errors.{
  messaging, not_participant, invalid_identity_key, invalid_envelope, file, file_too_large,
  data_error,
}
use pqc_grade_a.Db.{Db, Conversation, ConversationParticipant, Message, FileAttachment}
use pqc_grade_a.Exec.{ok, err, fresh_id}
use pqc_grade_a.Conversation.Invariant.{IsValid}
use pqc_grade_a.Conversation.Outcomes.{active_membership, group_of}
use pqc_grade_a.Messaging.Envelope.{Coercion, validates}
use pqc_grade_a.Messaging.Service.{new_message}
use pqc_grade_a.Messaging.Outcomes.{authorize_lem, signs, require_signing_key_lem}
use pqc_grade_a.Messaging.Sending.{
  stored, to_whom, revived, stamped, update_last_message_at_lem, recipients_lem, add_lem,
}
use pqc_grade_a.File.Service.{is_file}
use pqc_grade_a.File.Upload.{
  Upload, type_fits, bad_size, check_upload, message_envelope, new_attachment, add_attachment,
  completed, mark_complete, record_upload,
}

abbrev pub drawn : Db → Db
drawn db = record db { next_id = db.next_id + 1 }

module _ (k : Coercion) (max_mb : ℕ) (u : Upload) (db : Db) (v : IsValid db) where
  pub check_outsider :
      active_membership db u.conversation_id u.sender_id ≡ none
      → check_upload k max_mb u db ≡ (err (messaging not_participant), db)
  unfolding check_upload
  check_outsider e = ground (arith, authorize_lem db v u.conversation_id u.sender_id)

  module _ (p : ConversationParticipant)
      (member : active_membership db u.conversation_id u.sender_id ≡ some p) where
    pub check_large :
        bad_size max_mb u ≡ true → check_upload k max_mb u db ≡ (err (file file_too_large), db)
    unfolding check_upload
    check_large e = ground (arith, authorize_lem db v u.conversation_id u.sender_id)

    pub check_unsigned :
        bad_size max_mb u ≡ false
        → signs db u.sender_id u.sender_identity_key_id ≡ false
        → check_upload k max_mb u db ≡ (err (messaging invalid_identity_key), db)
    unfolding check_upload
    check_unsigned e s = ground (
      arith,
      authorize_lem db v u.conversation_id u.sender_id,
      require_signing_key_lem db u.sender_id u.sender_identity_key_id,
    )

    pub check_misshapen :
        bad_size max_mb u ≡ false
        → signs db u.sender_id u.sender_identity_key_id ≡ true
        → validates k u.file_envelope ≡ false
        → check_upload k max_mb u db ≡ (err (messaging invalid_envelope), db)
    unfolding check_upload
    check_misshapen e s w = ground (
      arith,
      authorize_lem db v u.conversation_id u.sender_id,
      require_signing_key_lem db u.sender_id u.sender_identity_key_id,
    )

    pub check_done :
        bad_size max_mb u ≡ false
        → signs db u.sender_id u.sender_identity_key_id ≡ true
        → validates k u.file_envelope ≡ true
        → check_upload k max_mb u db ≡ (ok db.next_id, drawn db)
    unfolding check_upload fresh_id
    check_done e s w = ground (
      arith,
      authorize_lem db v u.conversation_id u.sender_id,
      require_signing_key_lem db u.sender_id u.sender_identity_key_id,
    )

module _ (uuid_text : ℕ → Text) (now : ℕ) (u : Upload) (attachment : ℕ) (db : Db) where
  -- The message and the attachment, and the tables with both before anyone is told.
  abbrev pub companion : Message
  companion =
      new_message now u.conversation_id u.sender_id u.sender_identity_key_id []
        (message_envelope uuid_text attachment u.file_envelope) db.next_id

  abbrev pub attached : FileAttachment
  attached = new_attachment now u attachment db.next_id

  abbrev pub filed : Db
  filed = record (stored companion db) {
    files =
        update_where (is_file attachment) (completed (length u.contents))
          (db.files ++ attached ∷ []);
  }

  message_there : exists (λ m. m.id == db.next_id) (db.messages ++ companion ∷ []) ≡ true
  message_there = exists_last (λ m. m.id == db.next_id) db.messages companion (==_refl db.next_id)

  -- A content type that does not fit fails the insert, after that of the message.
  pub record_upload_overlong :
      (cv : Conversation)
      → group_of db u.conversation_id ≡ some cv
      → type_fits u.content_type ≡ false
      → record_upload uuid_text now u attachment db ≡ (err data_error, stored companion db)
  unfolding record_upload add_attachment
  record_upload_overlong cv g long = ground (
    arith,
    add_lem u.conversation_id cv
        (new_message now u.conversation_id u.sender_id u.sender_identity_key_id []
          (message_envelope uuid_text attachment u.file_envelope))
        db g,
  )

  pub record_upload_lem :
      (cv : Conversation)
      → group_of db u.conversation_id ≡ some cv
      → type_fits u.content_type ≡ true
      → record_upload uuid_text now u attachment db ≡ (
        ok (companion, completed (length u.contents) attached, to_whom db u.conversation_id cv),
        stamped u.conversation_id now (revived u.conversation_id cv filed),
      )
  unfolding record_upload add_attachment mark_complete
  record_upload_lem cv g fits = ground (
    arith,
    add_lem u.conversation_id cv
        (new_message now u.conversation_id u.sender_id u.sender_identity_key_id []
          (message_envelope uuid_text attachment u.file_envelope))
        db g,
    message_there,
    recipients_lem u.conversation_id cv filed g,
    update_last_message_at_lem u.conversation_id now (revived u.conversation_id cv filed),
  )
