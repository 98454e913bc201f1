-- ===== src/Conversation/Repository.antt =====
-- backend/src/repositories/conversation_repository.py, with `BaseRepository` of base.py: each
-- method is an action on the database. `now` is the reading of the clock that the method makes.
use pqc_grade_a.Base.{
  ℕ, Bool, true, false, ◌&&◌, ◌||◌, not, Option, none, some, List, [], ◌∷◌, ◌++◌, Text, ◌==◌, ltb,
  is_none, is_some, if◌then◌else◌, select, first_where, exists, update_where, delete_where,
}
use pqc_grade_a.Base.Sort.{order_by}
use pqc_grade_a.Errors.{integrity_error}
use pqc_grade_a.Db.{
  Db, Conversation, ConversationParticipant, ConversationType, direct, group, ParticipantRole, User,
  Message, FileAttachment, ConversationKeyBackup,
}
use pqc_grade_a.Exec.{
  Action, pure, gets, lift, ◌>>=◌, ◌>>◌, raise_if, modify, fresh_id, scalar_one_or_none,
}

abbrev pub is_direct : ConversationType → Bool
is_direct direct = true
is_direct group = false

abbrev pub has_id : ℕ → Conversation → Bool
has_id i c = c.id == i

abbrev pub is_user : ℕ → User → Bool
is_user i u = u.id == i

-- The participants of a conversation, and the row of one user in it.
abbrev pub belongs_to : ℕ → ConversationParticipant → Bool
belongs_to c p = p.conversation_id == c

abbrev pub is_member : ℕ → ℕ → ConversationParticipant → Bool
is_member c u p = p.conversation_id == c && p.user_id == u

abbrev pub is_row : ℕ → ConversationParticipant → Bool
is_row i p = p.id == i

-- `BaseRepository.get_by_id`
unfoldable pub get_by_id : ℕ → Action (Option Conversation)
get_by_id i = gets (λ db. first_where (has_id i) db.conversations)

-- Latest activity first, conversations without a message last, then the newest.
unfoldable pub newer_activity : Conversation → Conversation → Bool
newer_activity a b = elim a.last_message_at [
  | some s ↦ elim b.last_message_at [
    | some t ↦ ltb t s || (s == t && not (ltb a.created_at b.created_at))
    | none ↦ true
  ]
  | none ↦ elim b.last_message_at [ some t ↦ false | none ↦ not (ltb a.created_at b.created_at) ]
]

unfoldable pub is_active_member : ℕ → ℕ → ConversationParticipant → Bool
is_active_member c u p = is_member c u p && is_none p.left_at

unfoldable pub list_for_user : ℕ → Action (List Conversation)
list_for_user u = gets λ db.
    order_by newer_activity
      (select (λ c. exists (is_active_member c.id u) db.participants) db.conversations)

-- The condition of `find_direct`: a direct conversation with a membership row of either user.
abbrev pub is_direct_between : List ConversationParticipant → ℕ → ℕ → Conversation → Bool
is_direct_between ps a b c =
    is_direct c.type && (exists (is_member c.id a) ps && exists (is_member c.id b) ps)

unfoldable pub find_direct : ℕ → ℕ → Action (Option Conversation)
find_direct a b = gets λ db. first_where (is_direct_between db.participants a b) db.conversations

unfoldable pub get_participant : ℕ → ℕ → Action (Option ConversationParticipant)
unfolding scalar_one_or_none
get_participant c u = do
  rows ← gets (λ db. select (is_member c u) db.participants)
  lift (scalar_one_or_none rows)

abbrev pub joined_earlier : ConversationParticipant → ConversationParticipant → Bool
joined_earlier p q = not (ltb q.joined_at p.joined_at)

unfoldable pub list_participants : ℕ → Action (List ConversationParticipant)
list_participants c = gets λ db.
    order_by joined_earlier (select (λ p. belongs_to c p && is_none p.left_at) db.participants)

unfoldable pub list_all_participants : ℕ → Action (List ConversationParticipant)
list_all_participants c = gets λ db. order_by joined_earlier (select (belongs_to c) db.participants)

-- The inner join of a participant with the `users` table.
unfoldable pub with_users :
    List User → List ConversationParticipant → List (ConversationParticipant × Text × Text)
with_users us [] = []
with_users us (p ∷ ps) = elim (first_where (is_user p.user_id) us) [
  | some u ↦ (p, u.username, u.display_name) ∷ with_users us ps
  | none ↦ with_users us ps
]

unfoldable pub list_participants_with_users :
    ℕ → Action (List (ConversationParticipant × Text × Text))
list_participants_with_users c = do ps ← list_participants c; gets (λ db. with_users db.users ps)

-- `BaseRepository.add` of a conversation, whose creator must be a user.
unfoldable pub add_conversation : ℕ → ConversationType → Option Text → ℕ → Action Conversation
unfolding fresh_id
add_conversation now kind name creator = do
  raise_if (not (← gets (λ db. exists (is_user creator) db.users))) integrity_error
  i ← fresh_id
  let c : Conversation = record {
    id = i;
    type = kind;
    name = name;
    created_by = creator;
    created_at = now;
    last_message_at = none;
  }
  modify (λ db. record db { conversations = db.conversations ++ c ∷ [] })
  pure c

-- The insert checks the foreign keys and `uq_conversation_participant`.
unfoldable pub add_participant : ℕ → ℕ → ℕ → Option ParticipantRole → Action ConversationParticipant
unfolding fresh_id
add_participant now c u role = do
  raise_if (not (← gets (λ db. exists (has_id c) db.conversations))) integrity_error
  raise_if (not (← gets (λ db. exists (is_user u) db.users))) integrity_error
  raise_if (← gets (λ db. exists (is_member c u) db.participants)) integrity_error
  i ← fresh_id
  let p : ConversationParticipant = record {
    id = i;
    conversation_id = c;
    user_id = u;
    role = role;
    joined_at = now;
    left_at = none;
  }
  modify (λ db. record db { participants = db.participants ++ p ∷ [] })
  pure p

abbrev pub set_left_at : Option ℕ → ConversationParticipant → ConversationParticipant
set_left_at t p = record p { left_at = t }

abbrev pub write_left_at : ℕ → Option ℕ → Db → Db
write_left_at i t db = record db {
  participants = update_where (is_row i) (set_left_at t) db.participants;
}

unfoldable pub mark_left : ℕ → ConversationParticipant → Action (Unit {0})
mark_left now p = if is_none p.left_at then modify (write_left_at p.id (some now)) else pure tt

unfoldable pub mark_reactivated : ConversationParticipant → Action (Unit {0})
mark_reactivated p = if is_some p.left_at then modify (write_left_at p.id none) else pure tt

unfoldable pub is_later : ℕ → Conversation → Bool
is_later t c = elim c.last_message_at [ none ↦ true | some s ↦ ltb s t ]

unfoldable pub update_last_message_at : ℕ → ℕ → Action (Unit {0})
unfolding is_later
update_last_message_at i sent_at = modify λ db. record db {
  conversations =
      update_where (λ c. has_id i c && is_later sent_at c)
        (λ c. record c { last_message_at = some sent_at }) db.conversations;
}

abbrev pub message_of : ℕ → Message → Bool
message_of c m = m.conversation_id == c

abbrev pub file_of : ℕ → List Message → FileAttachment → Bool
file_of c ms f = exists (λ m. message_of c m && m.id == f.message_id) ms

abbrev pub backup_of : ℕ → ConversationKeyBackup → Bool
backup_of c b = b.conversation_id == c

-- `BaseRepository.delete` of a conversation, with the cascades of its relationships and keys.
unfoldable pub delete : ℕ → Action (Unit {0})
delete i = modify λ db. record db {
  conversations = delete_where (has_id i) db.conversations;
  participants = delete_where (belongs_to i) db.participants;
  messages = delete_where (message_of i) db.messages;
  files = delete_where (file_of i db.messages) db.files;
  backups = delete_where (backup_of i) db.backups;
}
