-- ===== src/Messaging/Service.antt =====
-- backend/src/services/messaging_service.py.
use pqc_grade_a.Base.{
  ℕ, Bool, false, not, Option, none, some, List, [], ◌∷◌, map, Text, Bytes, ◌==◌, is_none, is_some,
  if◌then◌else◌, select,
}
use pqc_grade_a.Base64.{b64encode, b64decode, standard}
use pqc_grade_a.Errors.{
  messaging, not_participant, invalid_identity_key, invalid_envelope, value_error, validation_error,
}
use pqc_grade_a.Db.{Conversation, ConversationParticipant, Envelope, Message, IdentityKeyRecord}
use pqc_grade_a.Exec.{
  Action, Result, ok, err, lift, pure, ◌>>=◌, ◌>>◌, raise_if, or_raise, for_each,
}
use pqc_grade_a.Conversation.Repository.{
  is_direct, get_by_id, get_participant, list_all_participants, mark_reactivated,
  update_last_message_at,
}
use pqc_grade_a.IdentityKey.Repository as Keys
use pqc_grade_a.Messaging.Envelope.{Coercion, validates}
use pqc_grade_a.Messaging.Cursor.{Codec}
use pqc_grade_a.Messaging.Repository as Messages
use pqc_grade_a.Messaging.Repository.{list_for_conversation}

-- `_authorize`, of `FileService` too.
unfoldable pub authorize : ℕ → ℕ → Action (Unit {0})
authorize c u = do
  found ← get_participant c u
  p ← or_raise found (messaging not_participant)
  raise_if (is_some p.left_at) (messaging not_participant)

-- The key must be the sender's own and not rotated out.
abbrev pub may_sign : ℕ → Option IdentityKeyRecord → Bool
may_sign sender none = false
may_sign sender (some k) = if k.user_id == sender then is_none k.superseded_at else false

unfoldable pub require_signing_key : ℕ → ℕ → Action (Unit {0})
require_signing_key sender key_id = do
  key ← Keys.get_by_id key_id
  raise_if (not (may_sign sender key)) (messaging invalid_identity_key)

abbrev pub new_message : ℕ → ℕ → ℕ → ℕ → Bytes → Envelope → ℕ → Message
new_message now c sender key_id ciphertext envelope i = record {
  id = i;
  conversation_id = c;
  sender_id = sender;
  sender_identity_key_id = key_id;
  ciphertext = ciphertext;
  envelope = envelope;
  integrity_tag_valid_on_receipt = false;
  sent_at = now;
  delivered_at = none;
}

abbrev pub is_direct_conversation : Option Conversation → Bool
is_direct_conversation none = false
is_direct_conversation (some c) = is_direct c.type

abbrev pub user_ids : List ConversationParticipant → List ℕ
user_ids = map (λ p. p.user_id)

-- In a direct conversation every left membership is reactivated and all participants receive; in
-- a group only the active ones do.
unfoldable pub recipients : ℕ → Action (List ℕ)
recipients c = do
  all_participants ← list_all_participants c
  conversation ← get_by_id c
  if is_direct_conversation conversation
      then (for_each all_participants
            (λ p. if is_some p.left_at then mark_reactivated p else pure tt)
          >> pure (user_ids all_participants))
      else pure (user_ids (select (λ p. is_none p.left_at) all_participants))

unfoldable pub send : Coercion → ℕ → ℕ → ℕ → Text → Envelope → ℕ → Action (Message × List ℕ)
send k now sender c ciphertext_b64 envelope key_id = do
  authorize c sender
  require_signing_key sender key_id
  raise_if (not (validates k envelope)) (messaging invalid_envelope)
  ciphertext ← or_raise (b64decode ciphertext_b64) value_error
  saved ← Messages.add c (new_message now c sender key_id ciphertext envelope)
  recipient_ids ← recipients c
  update_last_message_at c saved.sent_at
  pure (saved, recipient_ids)

pub record MessageResponse : Type 0 where
  pub id : ℕ
  pub conversation_id : ℕ
  pub sender_id : ℕ
  pub sender_identity_key_id : ℕ
  pub ciphertext : Text
  pub envelope : Envelope
  pub sent_at : ℕ

-- The stored envelope goes through `MessageEnvelope.model_validate`, which raises on another shape.
unfoldable pub message_to_response : Coercion → Message → Result MessageResponse
message_to_response k m =
    if validates k m.envelope
    then ok (record {
      id = m.id;
      conversation_id = m.conversation_id;
      sender_id = m.sender_id;
      sender_identity_key_id = m.sender_identity_key_id;
      ciphertext = b64encode standard m.ciphertext;
      envelope = k.model_dump m.envelope;
      sent_at = m.sent_at;
    })
    else err validation_error

unfoldable pub to_responses : Coercion → List Message → Action (List MessageResponse)
to_responses k [] = pure []
to_responses k (m ∷ ms) = do
  r ← lift (message_to_response k m)
  rs ← to_responses k ms
  pure (r ∷ rs)

unfoldable pub list_messages :
    Coercion → Codec → ℕ → ℕ → Option Text → ℕ → Action (List MessageResponse × Option Text)
list_messages k codec requester c before limit = do
  authorize c requester
  page ← list_for_conversation codec c before limit
  responses ← to_responses k page.0
  pure (responses, page.1)
