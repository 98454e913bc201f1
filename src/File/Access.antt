-- ===== src/File/Access.antt =====
-- Who may download a file.
use pqc_grade_a.Base.{
  ℕ, ◌≡◌, ◌↔◌, ap, true, false, none, some, Bytes, ◌==◌, arith, first_where, inl, inr, Option-cases,
  Bool-cases,
}
use pqc_grade_a.Errors.{Error, file, file_not_found, file_not_ready, messaging, not_participant}
use pqc_grade_a.Db.{Db, Message, FileAttachment, ConversationParticipant}
use pqc_grade_a.Exec.{Result, ok, err}
use pqc_grade_a.Exec.Keeps.{returns_once, Result-cases}
use pqc_grade_a.Conversation.Invariant.{IsValid}
use pqc_grade_a.Conversation.Outcomes.{active_membership}
use pqc_grade_a.Messaging.Repository as Messages
use pqc_grade_a.Messaging.Outcomes.{authorize_lem}
use pqc_grade_a.File.Service.{is_file, get_by_id, is_complete, in_conversation, download}

-- The user is an active participant of the conversation, the file hangs on a message of it, its
-- upload is complete, and the object store has its bytes.
pub record MayDownload (get_object : ℕ × ℕ → Result Bytes) (db : Db) (c file_id user : ℕ)
    (f : FileAttachment) (bytes : Bytes) : Type 0 where
  pub row : ConversationParticipant
  pub member : active_membership db c user ≡ some row
  pub found : first_where (is_file file_id) db.files ≡ some f
  pub message : Message
  pub attached : first_where (λ m. m.id == f.message_id) db.messages ≡ some message
  pub here : message.conversation_id ≡ c
  pub ready : is_complete f.upload_status ≡ true
  pub object : get_object f.storage_key ≡ ok bytes

module _ (get_object : ℕ × ℕ → Result Bytes) (c file_id user : ℕ) (db : Db) (v : IsValid db) where
  download_outsider :
      active_membership db c user ≡ none
      → download get_object c file_id user db ≡ (err (messaging not_participant), db)
  unfolding download
  download_outsider e = ground (arith, authorize_lem db v c user)

  download_missing :
      (p : ConversationParticipant)
      → active_membership db c user ≡ some p
      → first_where (is_file file_id) db.files ≡ none
      → download get_object c file_id user db ≡ (err (file file_not_found), db)
  unfolding download get_by_id
  download_missing p e n = ground (arith, authorize_lem db v c user)

  download_elsewhere :
      (p : ConversationParticipant) (f : FileAttachment)
      → active_membership db c user ≡ some p
      → first_where (is_file file_id) db.files ≡ some f
      → in_conversation c (first_where (λ m. m.id == f.message_id) db.messages) ≡ false
      → download get_object c file_id user db ≡ (err (file file_not_found), db)
  unfolding download get_by_id Messages.get_by_id
  download_elsewhere p f e n i = ground (arith, authorize_lem db v c user)

  download_early :
      (p : ConversationParticipant) (f : FileAttachment)
      → active_membership db c user ≡ some p
      → first_where (is_file file_id) db.files ≡ some f
      → in_conversation c (first_where (λ m. m.id == f.message_id) db.messages) ≡ true
      → is_complete f.upload_status ≡ false
      → download get_object c file_id user db ≡ (err (file file_not_ready), db)
  unfolding download get_by_id Messages.get_by_id
  download_early p f e n i r = ground (arith, authorize_lem db v c user)

  download_lost :
      (p : ConversationParticipant) (f : FileAttachment) (x : Error)
      → active_membership db c user ≡ some p
      → first_where (is_file file_id) db.files ≡ some f
      → in_conversation c (first_where (λ m. m.id == f.message_id) db.messages) ≡ true
      → is_complete f.upload_status ≡ true
      → get_object f.storage_key ≡ err x
      → download get_object c file_id user db ≡ (err x, db)
  unfolding download get_by_id Messages.get_by_id
  download_lost p f x e n i r o = ground (arith, authorize_lem db v c user)

  download_done :
      (p : ConversationParticipant) (f : FileAttachment) (bytes : Bytes)
      → active_membership db c user ≡ some p
      → first_where (is_file file_id) db.files ≡ some f
      → in_conversation c (first_where (λ m. m.id == f.message_id) db.messages) ≡ true
      → is_complete f.upload_status ≡ true
      → get_object f.storage_key ≡ ok bytes
      → download get_object c file_id user db ≡ (ok (f, bytes), db)
  unfolding download get_by_id Messages.get_by_id
  download_done p f bytes e n i r o = ground (arith, authorize_lem db v c user)

  attached_message :
      (f : FileAttachment)
      → in_conversation c (first_where (λ m. m.id == f.message_id) db.messages) ≡ true
      → (m : Message) × (first_where (λ m. m.id == f.message_id) db.messages ≡ some m)
        × (m.conversation_id ≡ c)
  attached_message f i = elim (Option-cases (first_where (λ m. m.id == f.message_id) db.messages)) [
    | inl n ↦ absurd (ground arith)
    | inr (m, n) ↦ (m, n, (ground arith))
  ]

  -- On valid tables a download gives a file and its bytes exactly if the user is an active
  -- participant of the conversation, the file hangs on a message of it, its upload is complete and
  -- the object store has its bytes.
  pub download_iff :
      (f : FileAttachment) (bytes : Bytes)
      → (download get_object c file_id user db ≡ (ok (f, bytes), db))
        ↔ MayDownload get_object db c file_id user f bytes
  download_iff f bytes = (
    (λ h. elim (Option-cases (active_membership db c user)) [
      | inl e ↦ cc (download_outsider e)
      | inr (p, e) ↦ elim (Option-cases (first_where (is_file file_id) db.files)) [
        | inl n ↦ cc (download_missing p e n)
        | inr (g, n) ↦
            elim (Bool-cases
              (in_conversation c (first_where (λ m. m.id == g.message_id) db.messages))) [
                | inr i ↦ cc (download_elsewhere p g e n i)
                | inl i ↦ elim (Bool-cases (is_complete g.upload_status)) [
                  | inr r ↦ cc (download_early p g e n i r)
                  | inl r ↦ elim (Result-cases (get_object g.storage_key)) [
                    | inl (x, o) ↦ cc (download_lost p g x e n i r o)
                    | inr (b, o) ↦
                        let (er, _) =
                          returns_once (download get_object c file_id user db) (g, b) (f, bytes) db
                            db (download_done p g b e n i r o) h in
                        let (m, a, w) = attached_message g i in
                        rw (ap (λ r. r.0) er, ap (λ r. r.1) er)
                          (record {
                            row = p;
                            member = e;
                            found = n;
                            message = m;
                            attached = a;
                            here = w;
                            ready = r;
                            object = o;
                          })
                  ]
                ]
              ]
      ]
    ]),
    (λ d.
        download_done d.row f bytes d.member d.found (rw d.attached (ground (arith, d.here)))
          d.ready d.object),
  )
