-- ===== src/Messaging/Sending.antt =====
-- When `MessagingService.send` succeeds and what it stores.
use pqc_grade_a.Base.{
  ℕ, ◌+◌, ◌≡◌, refl, true, false, none, some, List, [], ◌∷◌, ◌++◌, Text, Bytes, arith, is_none,
  if◌then◌else◌, select, inl, inr, Bool-cases, exists_of_found,
}
use pqc_grade_a.Base64.{b64decode}
use pqc_grade_a.Errors.{
  messaging, not_participant, invalid_identity_key, invalid_envelope, value_error,
}
use pqc_grade_a.Db.{Db, Conversation, ConversationParticipant, Envelope, Message}
use pqc_grade_a.Exec.{ok, err, fresh_id}
use pqc_grade_a.Conversation.Repository.{is_direct, update_last_message_at, has_id}
use pqc_grade_a.Conversation.Invariant.{IsValid}
use pqc_grade_a.Conversation.Outcomes.{active_membership, group_of}
use pqc_grade_a.Messaging.Envelope.{Coercion, validates}
use pqc_grade_a.Messaging.Repository as Messages
use pqc_grade_a.Messaging.Service.{new_message, recipients, user_ids, send}
use pqc_grade_a.Messaging.Outcomes.{
  authorize_lem, signs, require_signing_key_lem, revive, everyone, recipients_direct,
  recipients_group,
}

abbrev pub stored : Message → Db → Db
stored m db = record db { messages = db.messages ++ m ∷ []; next_id = db.next_id + 1 }

-- The recipients of a message, and the memberships after it, by the kind of conversation.
abbrev pub to_whom : Db → ℕ → Conversation → List ℕ
to_whom db c cv =
    if is_direct cv.type
    then user_ids (everyone db c)
    else user_ids (select (λ p. is_none p.left_at) (everyone db c))

abbrev pub revived : ℕ → Conversation → Db → Db
revived c cv db = if is_direct cv.type then revive (everyone db c) db else db

abbrev pub stamped : ℕ → ℕ → Db → Db
stamped c now db = (update_last_message_at c now db).1

pub update_last_message_at_lem :
    (c now : ℕ) (db : Db) → update_last_message_at c now db ≡ (ok tt, stamped c now db)
unfolding update_last_message_at
update_last_message_at_lem c now db = refl

pub recipients_lem :
    (c : ℕ) (cv : Conversation) (db : Db)
    → group_of db c ≡ some cv
    → recipients c db ≡ (ok (to_whom db c cv), revived c cv db)
recipients_lem c cv db e = elim (Bool-cases (is_direct cv.type)) [
  | inl d ↦ rw (recipients_direct c cv db e d, d) refl
  | inr d ↦ rw (recipients_group c cv db e d, d) refl
]

pub add_lem :
    (c : ℕ) (cv : Conversation) (row : ℕ → Message) (db : Db)
    → group_of db c ≡ some cv
    → Messages.add c row db ≡ (ok (row db.next_id), stored (row db.next_id) db)
unfolding Messages.add fresh_id
add_lem c cv row db e = ground (arith, exists_of_found (has_id c) db.conversations cv e)

module _ (k : Coercion) (now sender c : ℕ) (text : Text) (envelope : Envelope) (key_id : ℕ)
    (db : Db) (v : IsValid db) where
  pub send_outsider :
      active_membership db c sender ≡ none
      → send k now sender c text envelope key_id db ≡ (err (messaging not_participant), db)
  unfolding send
  send_outsider e = ground (arith, authorize_lem db v c sender)

  pub send_unsigned :
      (p : ConversationParticipant)
      → active_membership db c sender ≡ some p
      → signs db sender key_id ≡ false
      → send k now sender c text envelope key_id db ≡ (err (messaging invalid_identity_key), db)
  unfolding send
  send_unsigned p e s =
      ground (arith, authorize_lem db v c sender, require_signing_key_lem db sender key_id)

  pub send_misshapen :
      (p : ConversationParticipant)
      → active_membership db c sender ≡ some p
      → signs db sender key_id ≡ true
      → validates k envelope ≡ false
      → send k now sender c text envelope key_id db ≡ (err (messaging invalid_envelope), db)
  unfolding send
  send_misshapen p e s w =
      ground (arith, authorize_lem db v c sender, require_signing_key_lem db sender key_id)

  pub send_undecodable :
      (p : ConversationParticipant)
      → active_membership db c sender ≡ some p
      → signs db sender key_id ≡ true
      → validates k envelope ≡ true
      → b64decode text ≡ none
      → send k now sender c text envelope key_id db ≡ (err value_error, db)
  unfolding send
  send_undecodable p e s w d =
      ground (arith, authorize_lem db v c sender, require_signing_key_lem db sender key_id)

  pub send_done :
      (p : ConversationParticipant) (cv : Conversation) (bytes : Bytes)
      → active_membership db c sender ≡ some p
      → signs db sender key_id ≡ true
      → validates k envelope ≡ true
      → b64decode text ≡ some bytes
      → group_of db c ≡ some cv
      → let m : Message = new_message now c sender key_id bytes envelope db.next_id in
        send k now sender c text envelope key_id db
        ≡ (ok (m, to_whom db c cv), stamped c now (revived c cv (stored m db)))
  unfolding send
  send_done p cv bytes e s w d g =
      let m : Message = new_message now c sender key_id bytes envelope db.next_id in
      ground (
        arith,
        authorize_lem db v c sender,
        require_signing_key_lem db sender key_id,
        add_lem c cv (new_message now c sender key_id bytes envelope) db g,
        recipients_lem c cv (stored m db) g,
        update_last_message_at_lem c now (revived c cv (stored m db)),
      )
