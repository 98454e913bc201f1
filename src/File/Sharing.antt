-- ===== src/File/Sharing.antt =====
-- An upload can be downloaded.
use pqc_grade_a.Base.{
  ℕ, ◌+◌, ◌≤◌, ◌≡◌, refl, ap, ◌∙◌, true, none, some, List, [], ◌∷◌, ◌++◌, Text, Bytes, ◌==◌,
  ==_refl, arith, length, first_where, is_some, inl, inr, Bool-cases, first_where-update_where,
  touched, if◌then◌else◌,
}
use mathlib.Core.Option
use pqc_grade_a.Base.AppendLaws.{first_where_last}
use pqc_grade_a.Errors.{data_error}
use pqc_grade_a.Db.{Db, Conversation, ConversationParticipant, Message, FileAttachment}
use pqc_grade_a.Exec.{ok}
use pqc_grade_a.Conversation.Repository.{is_direct, update_last_message_at}
use pqc_grade_a.Conversation.Invariant.{IsValid, IsValid-irrelevant}
use pqc_grade_a.Conversation.Outcomes.{active_membership, after_reactivated}
use pqc_grade_a.Messaging.Envelope.{Coercion}
use pqc_grade_a.Messaging.Outcomes.{revive, everyone}
use pqc_grade_a.Messaging.Sending.{revived, stamped}
use pqc_grade_a.Messaging.SendRights.{announced-IsValid}
use pqc_grade_a.Messaging.SendEffect.{stamped-messages, revived-messages}
use pqc_grade_a.File.Service.{is_file, download}
use pqc_grade_a.File.Access.{download_iff}
use pqc_grade_a.File.Upload.{
  Store, Objects, StorageKey, put_object, get_object, Upload, completed, Outcome, upload,
}
use pqc_grade_a.File.Uploading.{drawn, companion, attached, filed}
use pqc_grade_a.File.UploadEnds.{Ends, refused, mismatched, stuck, overlong, done, upload-Ends}
use pqc_grade_a.File.UploadRights.{no_error, same_upload, same_key_refl}

-- The keys still to be drawn are of no message and no file.
pub record FreshKeys (db : Db) : Type 0 where
  pub message_bound : (i : ℕ) → db.next_id ≤ i → first_where (λ m. m.id == i) db.messages ≡ none
  pub file_bound : (i : ℕ) → db.next_id ≤ i → first_where (is_file i) db.files ≡ none

read_back :
    (s : Store) (a : StorageKey) (bytes : Bytes) (objects : Objects)
    → s.gets ≡ true
    → get_object s (put_object a bytes objects) a ≡ ok bytes
unfolding get_object put_object
read_back s a bytes objects e = rw (e, same_key_refl a) refl

stamped-files : (c now : ℕ) (db : Db) → (stamped c now db).files ≡ db.files
unfolding update_last_message_at
stamped-files c now db = refl

revive-files : (ps : List ConversationParticipant) (db : Db) → (revive ps db).files ≡ db.files
revive-files [] db = refl
revive-files (p ∷ ps) db =
    rw (revive-files ps (after_reactivated p db))
      (elim (Bool-cases (is_some p.left_at)) [ inl e ↦ rw e refl | inr e ↦ rw e refl ])

revived-files : (c : ℕ) (cv : Conversation) (db : Db) → (revived c cv db).files ≡ db.files
revived-files c cv db = elim (Bool-cases (is_direct cv.type)) [
  | inl d ↦ rw d (revive-files (everyone db c) db)
  | inr d ↦ rw d refl
]

module _ (k : Coercion) (s : Store) (uuid_text : ℕ → Text) (max_mb now : ℕ) (u : Upload) (db : Db)
    (objects : Objects) (v : IsValid db) where
  abbrev run : Outcome
  run = upload k s uuid_text max_mb now u db objects

  module _ (fresh : FreshKeys db) (reads : s.gets ≡ true) where
    abbrev final : Conversation → Db
    final cv =
        stamped u.conversation_id now
          (revived u.conversation_id cv (filed uuid_text now u db.next_id (drawn db)))

    abbrev shared : FileAttachment
    shared = completed (length u.contents) (attached uuid_text now u db.next_id (drawn db))

    file_found :
        (cv : Conversation) → first_where (is_file db.next_id) (final cv).files ≡ some shared
    file_found cv =
        ap (first_where (is_file db.next_id)) (
          stamped-files u.conversation_id now
            (revived u.conversation_id cv (filed uuid_text now u db.next_id (drawn db)))
          ∙ revived-files u.conversation_id cv (filed uuid_text now u db.next_id (drawn db)))
        ∙ first_where-update_where (is_file db.next_id) (is_file db.next_id)
            (completed (length u.contents))
            (db.files ++ attached uuid_text now u db.next_id (drawn db) ∷ []) (λ f. refl)
        ∙ ap (Option.map (touched (is_file db.next_id) (completed (length u.contents)))) (
            first_where_last (is_file db.next_id) db.files
              (attached uuid_text now u db.next_id (drawn db))
              (fresh.file_bound db.next_id (omega arith)) (==_refl db.next_id))
        ∙ ap (λ b. some (if b then shared else attached uuid_text now u db.next_id (drawn db)))
            (==_refl db.next_id)

    message_found :
        (cv : Conversation)
        → first_where (λ m. m.id == shared.message_id) (final cv).messages
          ≡ some (companion uuid_text now u db.next_id (drawn db))
    message_found cv =
        ap (first_where (λ m. m.id == shared.message_id)) (
          stamped-messages u.conversation_id now
            (revived u.conversation_id cv (filed uuid_text now u db.next_id (drawn db)))
          ∙ revived-messages u.conversation_id cv (filed uuid_text now u db.next_id (drawn db)))
        ∙ first_where_last (λ m. m.id == shared.message_id) db.messages
            (companion uuid_text now u db.next_id (drawn db))
            (fresh.message_bound (db.next_id + 1) (omega arith)) (==_refl (db.next_id + 1))

    final-IsValid : (cv : Conversation) → IsValid (final cv)
    final-IsValid cv =
        announced-IsValid u.conversation_id now cv (filed uuid_text now u db.next_id (drawn db)) (
          IsValid-irrelevant db (filed uuid_text now u db.next_id (drawn db)) refl refl
            (omega arith) v)

    shared_with :
        (cv : Conversation) (user : ℕ) (p : ConversationParticipant)
        → active_membership (final cv) u.conversation_id user ≡ some p
        → download
            (get_object s (put_object (u.conversation_id, db.next_id) u.contents objects))
            u.conversation_id
            db.next_id
            user
            (final cv)
          ≡ (ok (shared, u.contents), final cv)
    shared_with cv user p member =
        (download_iff (get_object s (put_object (u.conversation_id, db.next_id) u.contents objects))
            u.conversation_id db.next_id user (final cv) (final-IsValid cv) shared u.contents).1
          (record {
            row = p;
            member = member;
            found = file_found cv;
            message = companion uuid_text now u db.next_id (drawn db);
            attached = message_found cv;
            here = refl;
            ready = refl;
            object = read_back s (u.conversation_id, db.next_id) u.contents objects reads;
          })

    download-Ends :
        (r : Message × FileAttachment × List ℕ) (db' : Db) (objects' : Objects)
        → run ≡ ((ok r, db'), objects')
        → Ends k s uuid_text max_mb now u db objects v run
        → (user : ℕ) (p : ConversationParticipant)
        → active_membership db' u.conversation_id user ≡ some p
        → download (get_object s objects') u.conversation_id r.1.id user db'
          ≡ (ok (r.1, u.contents), db')
    download-Ends r db' objects' h (refused x d e) user p member =
        absurd (no_error run x r d db' objects objects' e h)
    download-Ends r db' objects' h (mismatched x d del e) user p member =
        absurd (no_error run x r d db' _ objects' e h)
    download-Ends r db' objects' h (stuck x d del e) user p member =
        absurd (no_error run x r d db' _ objects' e h)
    download-Ends r db' objects' h (overlong d wide long e) user p member =
        absurd (no_error run data_error r d db' _ objects' e h)
    download-Ends r db' objects' h (done may cv g e) user p member =
        let (er, ed, eo) = same_upload run _ r _ db' _ objects' e h in
        let goes : (user : ℕ) (p : ConversationParticipant)
            → active_membership db' u.conversation_id user ≡ some p
            → download (get_object s objects') u.conversation_id r.1.id user db'
              ≡ (ok (r.1, u.contents), db') =
          rw (← er, ← ed, ← eo) (shared_with cv) in
        goes user p member

    -- What is uploaded can be downloaded: after an upload every active participant of the
    -- conversation downloads the file by its id and gets the bytes that were uploaded. The tables
    -- are valid, the keys still to be drawn are unused, and the store answers.
    pub download-upload :
        (r : Message × FileAttachment × List ℕ) (db' : Db) (objects' : Objects)
        → upload k s uuid_text max_mb now u db objects ≡ ((ok r, db'), objects')
        → (user : ℕ) (p : ConversationParticipant)
        → active_membership db' u.conversation_id user ≡ some p
        → download (get_object s objects') u.conversation_id r.1.id user db'
          ≡ (ok (r.1, u.contents), db')
    download-upload r db' objects' h user p member =
        download-Ends r db' objects' h (upload-Ends k s uuid_text max_mb now u db objects v) user p
          member
