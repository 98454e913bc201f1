-- ===== src/Tests/Chat.antt =====
-- Tests of conversations and messages.
use pqc_grade_a.Base.{
  ℕ, ◌≡◌, ◌≢◌, ◌↔◌, ◌≤◌, refl, Option, none, some, List, [], ◌∷◌, ◌++◌, arith, codes, true, length,
  is_some, ◌⊎◌, inl, inr, delete_where, update_where, exists, count, select, first_where, ◌==◌,
}
use pqc_grade_a.Db.{
  Db, Conversation, ConversationParticipant, Message, direct, group, group_admin, member,
  ParticipantRole,
}
use pqc_grade_a.Base.Tests.{text_eq}
use mathlib.Core.Path.{subst}
use mathlib.Core.List.{reverse}
use pqc_grade_a.Exec.{Result, ok, request, fresh_id}
use pqc_grade_a.Conversation.Repository as Rows
use pqc_grade_a.Conversation.Repository.{
  find_direct, add_conversation, get_participant, update_last_message_at,
}
use pqc_grade_a.Conversation.Service.{
  create_direct, create_pair, create_group, fill_group, from_keys, remove_participant,
  delete_conversation,
}
use pqc_grade_a.Conversation.Invariant.{IsValid}
use pqc_grade_a.Conversation.Preserve.{create_direct-Keeps, create_group-Keeps}
use pqc_grade_a.Conversation.Outcomes.{group_of, active_membership, membership}
use pqc_grade_a.Conversation.Direct.{create_direct_again, pair_of}
use pqc_grade_a.Conversation.Turns.{Call, started, finished, step, one, two, interleave, beginning}
use pqc_grade_a.Conversation.Race.{BothMade, concurrent_create_direct}
use pqc_grade_a.Conversation.Service.{authorize_participant, require_group}
use pqc_grade_a.Conversation.Service as Conversations
use pqc_grade_a.Conversation.Admission.{MayAdd, add_participant_iff}
use pqc_grade_a.Conversation.Access.{MayRemove, remove_participant_iff, remove_participant_effect}
use pqc_grade_a.Conversation.Deletion.{
  MayDelete, Gone, Kept, delete_direct_effect, delete_conversation_iff,
}
use pqc_grade_a.Conversation.Repository.{list_all_participants, is_later, set_left_at}
use pqc_grade_a.IdentityKey.Repository as Keys
use pqc_grade_a.Messaging.Envelope.{validates, valid_str, valid_int, get}
use pqc_grade_a.Messaging.Repository as Messages
use pqc_grade_a.Messaging.Service.{send, authorize, require_signing_key, recipients, new_message}
use pqc_grade_a.Messaging.SendRights.{MaySend, send_iff}
use pqc_grade_a.Messaging.SendEffect.{send_stores, send_direct, send_group}
use pqc_grade_a.Base64.{b64decode, value, digit}
use pqc_grade_a.Base.Sort.{order_by, place}
use pqc_grade_a.Exec.{scalar_one_or_none}
use mathlib.Core.Option
use pqc_grade_a.Conversation.Preserve.{remove_participant-Keeps}
use pqc_grade_a.Api.Handlers.{Request, create_conversation, send_message, serve}
use pqc_grade_a.Api.Validity.{serve-IsValid}
use pqc_grade_a.Messaging.Cursor.{encode_cursor, decode_cursor}
use pqc_grade_a.Messaging.CursorLaws.{decode_cursor-encode_cursor}
use pqc_grade_a.Messaging.Pagination.{timeline, read_from, read_all}
use pqc_grade_a.Base64.{b64encode, standard}
use pqc_grade_a.Base64.RoundTrip.{b64decode-b64encode}
use pqc_grade_a.Tests.World.{world, world-IsValid, coercion, envelope, codec, codec-RoundTrips}

abbrev talk : Conversation
talk = record {
  id = 10;
  type = direct;
  name = none;
  created_by = 1;
  created_at = 5;
  last_message_at = none;
}

abbrev row : ℕ → ℕ → ℕ → Option ParticipantRole → Option ℕ → ConversationParticipant
row i c u role left = record {
  id = i;
  conversation_id = c;
  user_id = u;
  role = role;
  joined_at = 5;
  left_at = left;
}

abbrev hello : Db
hello = record world {
  conversations = talk ∷ [];
  participants = row 11 10 1 none none ∷ row 12 10 2 none none ∷ [];
  next_id = 13;
}

made : create_direct 5 1 (2 ∷ []) none world ≡ (ok talk, hello)
unfolding create_direct create_pair find_direct add_conversation Rows.add_participant fresh_id
    first_where exists
made = refl

hello-IsValid : IsValid hello
hello-IsValid =
    subst (λ (r : Result Conversation × Db). IsValid r.1) made
      ((create_direct-Keeps 5 1 (2 ∷ []) none).after world world-IsValid)

create_direct_again_example :
    ((d : Db) × (create_direct 8 1 (2 ∷ []) none hello ≡ (ok talk, d))
      × (length d.conversations ≡ length hello.conversations))
    × ((d : Db) × (create_direct 8 2 (1 ∷ []) none hello ≡ (ok talk, d))
        × (length d.conversations ≡ length hello.conversations))
create_direct_again_example =
    create_direct_again 5 8 1 2 none none world hello talk world-IsValid made

alone : pair_of world 1 2 ≡ none
unfolding first_where
alone = refl

known : (u : ℕ) → u ≡ 1 → exists (λ x. x.id == u) world.users ≡ true
unfolding exists
known u e = rw e refl

-- Each of the two calls for the other, and the second inserts first.
abbrev ask : Call
ask = record { at = 5; caller = 1; peer = 2; name = none }

abbrev ask_back : Call
ask_back = record { at = 6; caller = 2; peer = 1; name = none }

concurrent_create_direct_example :
    BothMade 1 2 (interleave ask ask_back (one ∷ two ∷ two ∷ one ∷ []) (beginning world))
    × ((e : Call) (tables : Db)
        → step e (step e (started, tables)) ≡ (
          finished (request (create_direct e.at e.caller (e.peer ∷ []) e.name) tables).0,
          (request (create_direct e.at e.caller (e.peer ∷ []) e.name) tables).1,
        ))
unfolding exists
concurrent_create_direct_example =
    concurrent_create_direct 1 2 ask ask_back world two world-IsValid (omega arith) refl refl alone
      (inl (refl, refl)) (inr (refl, refl))

abbrev gone : Db
gone = (delete_conversation 7 2 10 hello).1

deletes : delete_conversation 7 2 10 hello ≡ (ok tt, gone)
unfolding delete_conversation authorize_participant get_participant Rows.get_by_id create_direct
    create_pair find_direct add_conversation Rows.add_participant fresh_id first_where exists select
    scalar_one_or_none Rows.delete
deletes = refl

talk_there : group_of hello 10 ≡ some talk
unfolding first_where
talk_there = refl

delete_direct_effect_example : Gone 10 hello gone × ((c : ℕ) → c ≢ 10 → Kept c hello gone)
delete_direct_effect_example =
    delete_direct_effect 7 2 10 hello gone talk hello-IsValid talk_there refl deletes

delete_conversation_iff_example :
    ((db' : Db) × (delete_conversation 7 3 10 hello ≡ (ok tt, db'))) ↔ MayDelete hello 3 10
delete_conversation_iff_example = delete_conversation_iff 7 3 10 hello hello-IsValid

-- A group of three, of which user 2 leaves.
abbrev team_room : Conversation
team_room = record {
  id = 10;
  type = group;
  name = some (codes "team");
  created_by = 1;
  created_at = 5;
  last_message_at = none;
}

abbrev team : Db
team = record world {
  conversations = team_room ∷ [];
  participants =
      row 11 10 1 (some group_admin) none
      ∷ row 12 10 2 (some member) none
      ∷ row 13 10 3 (some member) none
      ∷ [];
  next_id = 14;
}

gathers : create_group 5 1 (2 ∷ 3 ∷ []) (codes "team") world ≡ (ok team_room, team)
unfolding create_group fill_group from_keys add_conversation Rows.add_participant fresh_id
    first_where exists delete_where
gathers = refl

team-IsValid : IsValid team
team-IsValid =
    subst (λ (r : Result Conversation × Db). IsValid r.1) gathers
      ((create_group-Keeps 5 1 (2 ∷ 3 ∷ []) (codes "team")).after world world-IsValid)

abbrev smaller : Db
smaller = record team {
  participants =
      row 11 10 1 (some group_admin) none
      ∷ row 12 10 2 (some member) (some 6)
      ∷ row 13 10 3 (some member) none
      ∷ [];
}

removes : remove_participant 6 10 2 2 team ≡ (ok tt, smaller)
unfolding remove_participant require_group authorize_participant get_participant Rows.get_by_id
    first_where select scalar_one_or_none update_where Rows.mark_left
removes = refl

remove_participant_effect_example :
    (active_membership smaller 10 2 ≡ none)
    × ((c' u' : ℕ) → (c' ≢ 10) ⊎ (u' ≢ 2) → membership smaller c' u' ≡ membership team c' u')
    × (smaller.conversations ≡ team.conversations)
    × (smaller.messages ≡ team.messages)
remove_participant_effect_example =
    remove_participant_effect 6 10 2 2 team smaller team-IsValid removes

remove_participant_iff_example :
    ((db' : Db) × (remove_participant 6 10 3 2 team ≡ (ok tt, db'))) ↔ MayRemove team 10 3 2
remove_participant_iff_example = remove_participant_iff 6 10 3 2 team team-IsValid

-- Ciphertext `TQ==`, the byte 77.
abbrev note : Message
note = new_message 9 10 1 9 (77 ∷ []) envelope 13

abbrev told : Db
told = record hello {
  conversations = record talk { last_message_at = some 9 } ∷ [];
  messages = note ∷ [];
  next_id = 14;
}

sends : send coercion 9 1 10 (codes "TQ==") envelope 9 hello ≡ (ok (note, 1 ∷ 2 ∷ []), told)
unfolding send authorize require_signing_key Keys.get_by_id validates valid_str valid_int get
    text_eq Messages.add fresh_id recipients list_all_participants update_last_message_at is_later
    get_participant Rows.get_by_id first_where exists select update_where scalar_one_or_none
    b64decode order_by place value digit
sends = refl

send_iff_example :
    ((r : Message × List ℕ) × (db' : Db) × (send coercion 9 3 10 (codes "TQ==") envelope 9 hello
        ≡ (ok r, db')))
    ↔ MaySend coercion hello 3 10 (codes "TQ==") envelope 9
send_iff_example = send_iff coercion 9 3 10 (codes "TQ==") envelope 9 hello hello-IsValid

send_stores_example :
    (b64decode (codes "TQ==") ≡ some note.ciphertext)
    × (note.envelope ≡ envelope)
    × (note.sender_id ≡ 1)
    × (note.conversation_id ≡ 10)
    × (told.messages ≡ hello.messages ++ note ∷ [])
send_stores_example =
    send_stores coercion 9 1 10 (codes "TQ==") envelope 9 hello told note (1 ∷ 2 ∷ []) hello-IsValid
      sends

send_direct_example :
    ((u : ℕ) → exists (λ x. x == u) (1 ∷ 2 ∷ []) ≡ is_some (membership hello 10 u))
    × ((u : ℕ) → membership told 10 u ≡ Option.map (set_left_at none) (membership hello 10 u))
    × ((c' u : ℕ) → c' ≢ 10 → membership told c' u ≡ membership hello c' u)
send_direct_example =
    send_direct coercion 9 1 10 (codes "TQ==") envelope 9 hello told note (1 ∷ 2 ∷ []) hello-IsValid
      sends talk talk_there refl

-- User 2 has left the group and is not a recipient.
abbrev team_note : Message
team_note = new_message 9 10 1 9 (77 ∷ []) envelope 14

smaller-IsValid : IsValid smaller
smaller-IsValid =
    subst (λ (r : Result (Unit {0}) × Db). IsValid r.1) removes
      ((remove_participant-Keeps 6 10 2 2).after team team-IsValid)

abbrev told_team : Db
told_team = record smaller {
  conversations = record team_room { last_message_at = some 9 } ∷ [];
  messages = team_note ∷ [];
  next_id = 15;
}

sends_team :
    send coercion 9 1 10 (codes "TQ==") envelope 9 smaller ≡ (ok (team_note, 1 ∷ 3 ∷ []), told_team)
unfolding send authorize require_signing_key Keys.get_by_id validates valid_str valid_int get
    text_eq Messages.add fresh_id recipients list_all_participants update_last_message_at is_later
    get_participant Rows.get_by_id first_where exists select update_where scalar_one_or_none
    b64decode order_by place value digit
sends_team = refl

team_there : group_of smaller 10 ≡ some team_room
unfolding first_where
team_there = refl

send_group_example :
    ((u : ℕ) → exists (λ x. x == u) (1 ∷ 3 ∷ []) ≡ is_some (active_membership smaller 10 u))
    × (told_team.participants ≡ smaller.participants)
send_group_example =
    send_group coercion 9 1 10 (codes "TQ==") envelope 9 smaller told_team team_note (1 ∷ 3 ∷ [])
      smaller-IsValid sends_team team_room team_there refl

abbrev requests : List (ℕ × ℕ × Request)
requests =
    (
      5,
      1,
      create_conversation (record { type = direct; participant_user_ids = 2 ∷ []; name = none }),
    )
    ∷ (6, 2, send_message 10 (codes "TQ==") envelope 9)
    ∷ (7, 1, send_message 10 (codes "TQ==") envelope 9)
    ∷ (8, 2, Request.delete_conversation 10)
    ∷ []

serve-IsValid_example : IsValid (serve coercion codec requests world)
serve-IsValid_example = serve-IsValid coercion codec requests world world-IsValid

-- The reader with pages of one message: `read_all` on the conversation after one message.
one_id : (i : ℕ) → count (λ m. m.id == i) told.messages ≤ 1
unfolding count send authorize require_signing_key Keys.get_by_id validates valid_str valid_int get
    Messages.add recipients list_all_participants update_last_message_at is_later get_participant
    Rows.get_by_id create_direct create_pair find_direct add_conversation Rows.add_participant
    fresh_id first_where exists select scalar_one_or_none b64decode order_by place value digit
one_id i = ground arith

one_message : length (timeline 10 told) ≡ 1
unfolding select order_by place
one_message = refl

read_all_example : read_from codec 10 1 told 2 none ≡ some (reverse (timeline 10 told))
read_all_example = read_all codec 10 1 2 told codec-RoundTrips one_id (omega (arith, one_message))

decode_cursor-encode_cursor_example : decode_cursor codec (encode_cursor codec 3 2) ≡ ok (3, 2)
decode_cursor-encode_cursor_example = decode_cursor-encode_cursor codec 3 2 codec-RoundTrips

b64decode-b64encode_example : b64decode (b64encode standard (77 ∷ 255 ∷ [])) ≡ some (77 ∷ 255 ∷ [])
b64decode-b64encode_example = b64decode-b64encode (77 ∷ 255 ∷ []) (omega arith, (omega arith, tt))

add_participant_iff_example :
    ((p : ConversationParticipant) × (db' : Db) × (Conversations.add_participant 7 10 1 2 smaller
        ≡ (ok p, db')))
    ↔ MayAdd smaller 10 1 2
add_participant_iff_example = add_participant_iff 7 10 1 2 smaller smaller-IsValid
