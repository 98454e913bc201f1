-- ===== src/Api/Validity.antt =====
-- Every sequence of requests keeps the constraints of the tables of conversations and participants.
use pqc_grade_a.Base.{
  ◌&&◌, take, select, delete_where, first_where, ◌==◌, ◌+◌, is_some, ℕ, ◌≡◌, refl, not, Option,
  List, [], ◌∷◌, Text,
}
use pqc_grade_a.Errors.{http_exception, messaging, not_participant}
use pqc_grade_a.Base.Sort.{order_by}
use pqc_grade_a.Db.{Db, Conversation, ConversationParticipant, Envelope, Message}
use pqc_grade_a.Exec.{Action, pure, raise_if, or_raise, lift, gets, ◌>>=◌, ◌>>◌, request}
use pqc_grade_a.Exec.Keeps.{
  Keeps, Keeps-read, Keeps-pure, Keeps-bind, Keeps-if, Keeps-raise_if, Keeps-request,
  Keeps-or_raise,
}
use pqc_grade_a.Conversation.Repository.{
  is_direct, is_user, get_participant, list_for_user, list_participants,
  list_participants_with_users,
}
use pqc_grade_a.Conversation.Service as Conversations
use pqc_grade_a.Conversation.Service.{create_direct, create_group}
use pqc_grade_a.Conversation.Invariant.{IsValid}
use pqc_grade_a.Conversation.Preserve.{
  create_direct-Keeps, create_group-Keeps, add_participant-Keeps, remove_participant-Keeps,
  delete_conversation-Keeps,
}
use pqc_grade_a.Messaging.Envelope.{Coercion, validates, between}
use pqc_grade_a.Messaging.Cursor.{Codec}
use pqc_grade_a.Messaging.Repository.{
  list_for_conversation, decode_before, page_size, newest_first, in_page, page_of,
}
use pqc_grade_a.Messaging.Service as Messaging
use pqc_grade_a.Messaging.Service.{authorize, to_responses, message_to_response, send, user_ids}
use pqc_grade_a.Messaging.SendRights.{send-Keeps}
use pqc_grade_a.Api.Schema.{stripped, valid_ciphertext, CreateConversationRequest, well_shaped}
use pqc_grade_a.Api.Handlers.{
  Request, Reply, conversation, conversations, participant, sent, page, no_content, Deliveries,
  fan_out, message_new, participant_added, participant_removed, create_conversation,
  list_conversations, delete_conversation, add_participant, remove_participant, send_message,
  list_messages, to_response, all_to_response, or_empty, create_of, handle_create, handle_list,
  handle_delete, handle_add, handle_remove, handle_send, handle_messages, handle, serve,
}

module _ {A B : Type 0} (m : Action A) (f : A → Action B) (kf : (a : A) → Keeps IsValid (f a)) where
  -- A read goes first.
  after_read : ((db : Db) → (m db).1 ≡ db) → Keeps IsValid (m >>= f)
  after_read same = Keeps-bind m f (Keeps-read m same) kf

to_response-Keeps : (c : Conversation) → Keeps IsValid (to_response c)
unfolding to_response list_participants_with_users list_participants
to_response-Keeps c = Keeps-read (to_response c) (λ db. refl)

all_to_response-Keeps : (cs : List Conversation) → Keeps IsValid (all_to_response cs)
unfolding all_to_response
all_to_response-Keeps [] = Keeps-pure []
all_to_response-Keeps (c ∷ cs) =
    Keeps-bind (to_response c) (λ r. all_to_response cs >>= λ rs. pure (r ∷ rs))
      (to_response-Keeps c)
      (λ r.
        Keeps-bind (all_to_response cs) (λ rs. pure (r ∷ rs)) (all_to_response-Keeps cs)
          (λ rs. Keeps-pure (r ∷ rs)))

module _ (now user : ℕ) where
  handle_create-Keeps :
      (k : Coercion) (body : CreateConversationRequest)
      → Keeps IsValid (handle_create k now user body)
  unfolding handle_create
  handle_create-Keeps k body =
      Keeps-bind (raise_if (not (well_shaped (stripped k body))) (http_exception 422))
        (λ _. create_of now user (stripped k body) >>= λ c.
          to_response c >>= λ r. pure (conversation r, []))
        (Keeps-raise_if (not (well_shaped (stripped k body))) (http_exception 422))
        (λ _.
          Keeps-bind (create_of now user (stripped k body))
            (λ c. to_response c >>= λ r. pure (conversation r, []))
            (Keeps-if (is_direct (stripped k body).type)
              (create_direct now user (stripped k body).participant_user_ids (stripped k body).name)
              (create_group now user (stripped k body).participant_user_ids
                (or_empty (stripped k body).name))
              (create_direct-Keeps now user (stripped k body).participant_user_ids
                (stripped k body).name)
              (create_group-Keeps now user (stripped k body).participant_user_ids
                (or_empty (stripped k body).name)))
            (λ c.
              Keeps-bind (to_response c) (λ r. pure (conversation r, [])) (to_response-Keeps c)
                (λ r. Keeps-pure (conversation r, []))))

  handle_list-Keeps : Keeps IsValid (handle_list user)
  unfolding handle_list list_for_user
  handle_list-Keeps =
      after_read (list_for_user user)
        (λ cs. all_to_response cs >>= λ rs. pure (conversations rs, []))
        (λ cs.
          Keeps-bind (all_to_response cs) (λ rs. pure (conversations rs, []))
            (all_to_response-Keeps cs) (λ rs. Keeps-pure (conversations rs, [])))
        (λ db. refl)

  handle_delete-Keeps : (c : ℕ) → Keeps IsValid (handle_delete now user c)
  unfolding handle_delete
  handle_delete-Keeps c =
      Keeps-bind (Conversations.delete_conversation now user c) (λ _. pure (no_content, []))
        (delete_conversation-Keeps now user c) (λ _. Keeps-pure (no_content, []))

  handle_add-Keeps : (c target : ℕ) → Keeps IsValid (handle_add now user c target)
  unfolding handle_add list_participants
  handle_add-Keeps c target =
      let tell : ConversationParticipant → Action (Reply × Deliveries) = λ p.
        list_participants c >>= λ active.
        gets (λ db. first_where (is_user target) db.users) >>= λ added.
        pure (participant p added, fan_out (participant_added c target user) (user_ids active)) in
      Keeps-bind (Conversations.add_participant now c user target) tell
        (add_participant-Keeps now c user target) (λ p. Keeps-read (tell p) (λ db. refl))

  handle_remove-Keeps : (c target : ℕ) → Keeps IsValid (handle_remove now user c target)
  unfolding handle_remove list_participants
  handle_remove-Keeps c target =
      let tell : List ConversationParticipant → Action (Reply × Deliveries) = λ active.
        pure (no_content, fan_out (participant_removed c target user) (user_ids active)) in
      let remove : List ConversationParticipant → Action (Reply × Deliveries) =
        λ active. Conversations.remove_participant now c user target >> tell active in
      Keeps-bind (list_participants c) remove (Keeps-read (list_participants c) (λ db. refl))
        (λ active.
          Keeps-bind (Conversations.remove_participant now c user target) (λ _. tell active)
            (remove_participant-Keeps now c user target)
            (λ _. Keeps-read (tell active) (λ db. refl)))

  handle_send-Keeps :
      (k : Coercion) (c : ℕ) (ciphertext : Text) (envelope : Envelope) (key_id : ℕ)
      → Keeps IsValid (handle_send k now user c ciphertext envelope key_id)
  unfolding handle_send
  handle_send-Keeps k c ciphertext envelope key_id =
      let tell : Message × List ℕ → Action (Reply × Deliveries) = λ saved.
        lift (message_to_response k saved.0) >>= λ r.
        pure (sent r, fan_out (message_new saved.0) (delete_where (λ u. u == user) saved.1)) in
      Keeps-bind
        (raise_if (not (validates k envelope && valid_ciphertext (k.strip ciphertext)))
          (http_exception 422))
        (λ _. send k now user c (k.strip ciphertext) (k.model_dump envelope) key_id >>= tell)
        (Keeps-raise_if (not (validates k envelope && valid_ciphertext (k.strip ciphertext)))
          (http_exception 422))
        (λ _.
          Keeps-bind (send k now user c (k.strip ciphertext) (k.model_dump envelope) key_id) tell
            (send-Keeps k now user c (k.strip ciphertext) (k.model_dump envelope) key_id)
            (λ saved.
              Keeps-bind (lift (message_to_response k saved.0))
                (λ r.
                  pure
                    (sent r, fan_out (message_new saved.0) (delete_where (λ u. u == user) saved.1)))
                (Keeps-read (lift (message_to_response k saved.0)) (λ db. refl))
                (λ r.
                  Keeps-pure (
                    sent r,
                    fan_out (message_new saved.0) (delete_where (λ u. u == user) saved.1),
                  ))))

get_participant-Keeps : (c u : ℕ) → Keeps IsValid (get_participant c u)
unfolding get_participant
get_participant-Keeps c u = Keeps-read (get_participant c u) (λ db. refl)

authorize-Keeps : (c u : ℕ) → Keeps IsValid (authorize c u)
unfolding authorize
authorize-Keeps c u =
    Keeps-bind (get_participant c u)
      (λ found. or_raise found (messaging not_participant) >>= λ p.
        raise_if (is_some p.left_at) (messaging not_participant))
      (get_participant-Keeps c u)
      (λ found.
        Keeps-bind (or_raise found (messaging not_participant))
          (λ p. raise_if (is_some p.left_at) (messaging not_participant))
          (Keeps-or_raise found (messaging not_participant))
          (λ p. Keeps-raise_if (is_some p.left_at) (messaging not_participant)))

to_responses-Keeps : (k : Coercion) (ms : List Message) → Keeps IsValid (to_responses k ms)
unfolding to_responses
to_responses-Keeps k [] = Keeps-pure []
to_responses-Keeps k (m ∷ ms) =
    Keeps-bind (lift (message_to_response k m)) (λ r. to_responses k ms >>= λ rs. pure (r ∷ rs))
      (Keeps-read (lift (message_to_response k m)) (λ db. refl))
      (λ r.
        Keeps-bind (to_responses k ms) (λ rs. pure (r ∷ rs)) (to_responses-Keeps k ms)
          (λ rs. Keeps-pure (r ∷ rs)))

list_for_conversation-Keeps :
    (codec : Codec) (c : ℕ) (before : Option Text) (limit : ℕ)
    → Keeps IsValid (list_for_conversation codec c before limit)
unfolding list_for_conversation
list_for_conversation-Keeps codec c before limit =
    let fetch : Option (ℕ × ℕ) → Action (List Message × Option Text) = λ at.
      gets (λ db.
        take (page_size limit + 1) (order_by newest_first (select (in_page c at) db.messages)))
      >>= λ rows. pure (page_of codec (page_size limit) rows) in
    Keeps-bind (lift (decode_before codec before)) fetch
      (Keeps-read (lift (decode_before codec before)) (λ db. refl))
      (λ at. Keeps-read (fetch at) (λ db. refl))

list_messages-Keeps :
    (k : Coercion) (codec : Codec) (user c : ℕ) (before : Option Text) (limit : ℕ)
    → Keeps IsValid (Messaging.list_messages k codec user c before limit)
unfolding Messaging.list_messages
list_messages-Keeps k codec user c before limit =
    Keeps-bind (authorize c user)
      (λ _. list_for_conversation codec c before limit >>= λ page.
        to_responses k page.0 >>= λ rs. pure (rs, page.1))
      (authorize-Keeps c user)
      (λ _.
        Keeps-bind (list_for_conversation codec c before limit)
          (λ page. to_responses k page.0 >>= λ rs. pure (rs, page.1))
          (list_for_conversation-Keeps codec c before limit)
          (λ page.
            Keeps-bind (to_responses k page.0) (λ rs. pure (rs, page.1))
              (to_responses-Keeps k page.0) (λ rs. Keeps-pure (rs, page.1))))

handle_messages-Keeps :
    (k : Coercion) (codec : Codec) (user c : ℕ) (before : Option Text) (limit : ℕ)
    → Keeps IsValid (handle_messages k codec user c before limit)
unfolding handle_messages
handle_messages-Keeps k codec user c before limit =
    Keeps-bind (raise_if (not (between 1 200 limit)) (http_exception 422))
      (λ _. Messaging.list_messages k codec user c before limit >>= λ r. pure (page r.0 r.1, []))
      (Keeps-raise_if (not (between 1 200 limit)) (http_exception 422))
      (λ _.
        Keeps-bind (Messaging.list_messages k codec user c before limit)
          (λ r. pure (page r.0 r.1, [])) (list_messages-Keeps k codec user c before limit)
          (λ r. Keeps-pure (page r.0 r.1, [])))

pub handle-Keeps :
    (k : Coercion) (codec : Codec) (now user : ℕ) (r : Request)
    → Keeps IsValid (handle k codec now user r)
unfolding handle
handle-Keeps k codec now user (create_conversation body) = handle_create-Keeps now user k body
handle-Keeps k codec now user list_conversations = handle_list-Keeps now user
handle-Keeps k codec now user (delete_conversation c) = handle_delete-Keeps now user c
handle-Keeps k codec now user (add_participant c target) = handle_add-Keeps now user c target
handle-Keeps k codec now user (remove_participant c target) = handle_remove-Keeps now user c target
handle-Keeps k codec now user (send_message c ciphertext envelope key_id) =
    handle_send-Keeps now user k c ciphertext envelope key_id
handle-Keeps k codec now user (list_messages c before limit) =
    handle_messages-Keeps k codec user c before limit

-- After any sequence of requests by any users, each committed or rolled back on its own, the
-- tables of conversations and participants satisfy their constraints if they did before: keys are
-- unique and known, and a pair of users has one direct conversation at most.
pub serve-IsValid :
    (k : Coercion) (codec : Codec) (rs : List (ℕ × ℕ × Request)) (db : Db)
    → IsValid db
    → IsValid (serve k codec rs db)
unfolding serve
serve-IsValid k codec [] db v = v
serve-IsValid k codec ((now, user, r) ∷ rs) db v =
    serve-IsValid k codec rs (request (handle k codec now user r) db).1
      ((Keeps-request (handle k codec now user r) (handle-Keeps k codec now user r)).after db v)
