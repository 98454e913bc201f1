-- ===== src/Api/Handlers.antt =====
-- The handlers of backend/src/api/v1/conversations.py and backend/src/api/v1/messages.py, with the
-- events that they fan out over the open websockets. `user` is the user of the session.
use pqc_grade_a.Base.{
  ◌&&◌, ℕ, not, Option, none, some, List, [], ◌∷◌, map, Text, ◌==◌, if◌then◌else◌, first_where,
  delete_where,
}
use pqc_grade_a.Errors.{http_exception}
use pqc_grade_a.Db.{Db, Conversation, ConversationParticipant, Envelope, Message, User}
use pqc_grade_a.Exec.{Action, pure, gets, lift, ◌>>=◌, ◌>>◌, raise_if, request}
use pqc_grade_a.Conversation.Repository.{
  is_direct, is_user, list_for_user, list_participants, list_participants_with_users,
}
use pqc_grade_a.Conversation.Service as Conversations
use pqc_grade_a.Conversation.Service.{create_direct, create_group}
use pqc_grade_a.Messaging.Envelope.{Coercion, validates, between}
use pqc_grade_a.Messaging.Cursor.{Codec}
use pqc_grade_a.Messaging.Service as Messaging
use pqc_grade_a.Messaging.Service.{MessageResponse, user_ids, send, message_to_response}
use pqc_grade_a.Api.Schema.{CreateConversationRequest, stripped, valid_ciphertext, well_shaped}

pub data Event : Type 0 where
  -- `message_to_ws_event`
  message_new : Message → Event
  participant_added : ℕ → ℕ → ℕ → Event
  participant_removed : ℕ → ℕ → ℕ → Event

-- The events go to the sockets of one user each: `connection_manager.send_to_user`.
abbrev pub Deliveries : Type 0
Deliveries = List (ℕ × Event)

abbrev pub fan_out : Event → List ℕ → Deliveries
fan_out e = map (λ u. (u, e))

pub data Request : Type 0 where
  create_conversation : CreateConversationRequest → Request
  list_conversations : Request
  delete_conversation : ℕ → Request
  add_participant : ℕ → ℕ → Request
  remove_participant : ℕ → ℕ → Request
  send_message : ℕ → Text → Envelope → ℕ → Request
  list_messages : ℕ → Option Text → ℕ → Request

-- `_to_response`: the conversation with its active participants and their names.
abbrev pub ConversationResponse : Type 0
ConversationResponse = Conversation × List (ConversationParticipant × Text × Text)

pub data Reply : Type 0 where
  conversation : ConversationResponse → Reply
  conversations : List ConversationResponse → Reply
  participant : ConversationParticipant → Option User → Reply
  sent : MessageResponse → Reply
  page : List MessageResponse → Option Text → Reply
  no_content : Reply

unfoldable pub to_response : Conversation → Action ConversationResponse
to_response c = do ps ← list_participants_with_users c.id; pure (c, ps)

unfoldable pub all_to_response : List Conversation → Action (List ConversationResponse)
all_to_response [] = pure []
all_to_response (c ∷ cs) = do r ← to_response c; rs ← all_to_response cs; pure (r ∷ rs)

-- `body.name or ""`
abbrev pub or_empty : Option Text → Text
or_empty none = []
or_empty (some name) = name

abbrev pub create_of : ℕ → ℕ → CreateConversationRequest → Action Conversation
create_of now user body =
    if is_direct body.type
    then create_direct now user body.participant_user_ids body.name
    else create_group now user body.participant_user_ids (or_empty body.name)

unfoldable pub handle_create :
    Coercion → ℕ → ℕ → CreateConversationRequest → Action (Reply × Deliveries)
handle_create k now user body = do
  raise_if (not (well_shaped (stripped k body))) (http_exception 422)
  c ← create_of now user (stripped k body)
  r ← to_response c
  pure (conversation r, [])

unfoldable pub handle_list : ℕ → Action (Reply × Deliveries)
handle_list user = do cs ← list_for_user user; rs ← all_to_response cs; pure (conversations rs, [])

unfoldable pub handle_delete : ℕ → ℕ → ℕ → Action (Reply × Deliveries)
handle_delete now user c = do Conversations.delete_conversation now user c; pure (no_content, [])

unfoldable pub handle_add : ℕ → ℕ → ℕ → ℕ → Action (Reply × Deliveries)
handle_add now user c target = do
  p ← Conversations.add_participant now c user target
  active ← list_participants c
  added ← gets (λ db. first_where (is_user target) db.users)
  pure (participant p added, fan_out (participant_added c target user) (user_ids active))

-- The recipients are read before the removal.
unfoldable pub handle_remove : ℕ → ℕ → ℕ → ℕ → Action (Reply × Deliveries)
handle_remove now user c target = do
  active ← list_participants c
  Conversations.remove_participant now c user target
  pure (no_content, fan_out (participant_removed c target user) (user_ids active))

-- The sender gets the response and no event.
unfoldable pub handle_send :
    Coercion → ℕ → ℕ → ℕ → Text → Envelope → ℕ → Action (Reply × Deliveries)
handle_send k now user c ciphertext envelope key_id = do
  raise_if (not (validates k envelope && valid_ciphertext (k.strip ciphertext)))
      (http_exception 422)
  saved ← send k now user c (k.strip ciphertext) (k.model_dump envelope) key_id
  r ← lift (message_to_response k saved.0)
  pure (sent r, fan_out (message_new saved.0) (delete_where (λ u. u == user) saved.1))

unfoldable pub handle_messages :
    Coercion → Codec → ℕ → ℕ → Option Text → ℕ → Action (Reply × Deliveries)
handle_messages k codec user c before limit = do
  raise_if (not (between 1 200 limit)) (http_exception 422)
  r ← Messaging.list_messages k codec user c before limit
  pure (page r.0 r.1, [])

unfoldable pub handle : Coercion → Codec → ℕ → ℕ → Request → Action (Reply × Deliveries)
handle k codec now user (create_conversation body) = handle_create k now user body
handle k codec now user list_conversations = handle_list user
handle k codec now user (delete_conversation c) = handle_delete now user c
handle k codec now user (add_participant c target) = handle_add now user c target
handle k codec now user (remove_participant c target) = handle_remove now user c target
handle k codec now user (send_message c ciphertext envelope key_id) =
    handle_send k now user c ciphertext envelope key_id
handle k codec now user (list_messages c before limit) = handle_messages k codec user c before limit

-- Requests of users one after another, each in a transaction of its own.
unfoldable pub serve : Coercion → Codec → List (ℕ × ℕ × Request) → Db → Db
serve k codec [] db = db
serve k codec ((now, user, r) ∷ rs) db = serve k codec rs (request (handle k codec now user r) db).1
