-- ===== src/Conversation/Deletion.antt =====
-- Who may delete a conversation, and what a deletion destroys.
use pqc_grade_a.Base.{
  ℕ, ◌≡◌, ◌≢◌, ◌↔◌, true, none, some, [], arith, if◌then◌else◌, select, inl, inr, Bool-cases,
  Option-cases, first_where-delete_where_other,
}
use pqc_grade_a.Base.DeleteLaws.{
  select-delete_where_other, select-delete_where_gone, first_where-delete_where_gone,
}
use pqc_grade_a.Db.{Db, Conversation, ConversationParticipant}
use pqc_grade_a.Exec.{ok}
use pqc_grade_a.Exec.Keeps.{returns_once}
use pqc_grade_a.Conversation.Repository.{
  is_direct, has_id, belongs_to, message_of, file_of, backup_of, delete,
}
use pqc_grade_a.Conversation.Service.{delete_conversation}
use pqc_grade_a.Conversation.Invariant.{IsValid}
use pqc_grade_a.Conversation.Outcomes.{active_membership, group_of, after_left}
use pqc_grade_a.Conversation.Branches.{
  delete_conversation_unknown, delete_conversation_denied, delete_conversation_direct,
  delete_conversation_group,
}

-- The conversation exists and the requester is an active participant of it.
pub record MayDelete (db : Db) (requester i : ℕ) : Type 0 where
  pub conversation : Conversation
  pub found : group_of db i ≡ some conversation
  pub row : ConversationParticipant
  pub member : active_membership db i requester ≡ some row

-- The state after it: the cascade for a direct conversation, a stamp for a group.
abbrev pub deleted : (now requester i : ℕ) (db : Db) → MayDelete db requester i → Db
deleted now requester i db m =
    if is_direct m.conversation.type then (delete i db).1 else after_left now m.row db

module _ (now requester i : ℕ) (db : Db) (v : IsValid db) where
  delete_runs :
      (m : MayDelete db requester i)
      → delete_conversation now requester i db ≡ (ok tt, deleted now requester i db m)
  unfolding delete
  delete_runs m = elim (Bool-cases (is_direct m.conversation.type)) [
    | inl d ↦
        rw d
          (delete_conversation_direct now requester i db v m.conversation m.row m.found m.member d)
    | inr d ↦
        rw d
          (delete_conversation_group now requester i db v m.conversation m.row m.found m.member d)
  ]

  delete_allowed :
      (db' : Db)
      → delete_conversation now requester i db ≡ (ok tt, db')
      → (m : MayDelete db requester i) × (db' ≡ deleted now requester i db m)
  delete_allowed db' h = elim (Option-cases (group_of db i)) [
    | inl e ↦ cc (delete_conversation_unknown now requester i db v e)
    | inr (cv, e) ↦ elim (Option-cases (active_membership db i requester)) [
      | inl n ↦ cc (delete_conversation_denied now requester i db v cv e n)
      | inr (p, n) ↦
          let m : MayDelete db requester i = record {
            conversation = cv;
            found = e;
            row = p;
            member = n;
          } in
          (
            m,
            (returns_once (delete_conversation now requester i db) tt tt
                (deleted now requester i db m) db' (delete_runs m) h).1,
          )
    ]
  ]

  -- On valid tables, a deletion succeeds exactly for an active participant of a conversation that
  -- exists.
  pub delete_conversation_iff :
      ((db' : Db) × (delete_conversation now requester i db ≡ (ok tt, db')))
      ↔ MayDelete db requester i
  delete_conversation_iff =
      ((λ r. (delete_allowed r.0 r.1).0), (λ m. (deleted now requester i db m, delete_runs m)))

-- What is left of conversation `i`: nothing.
pub record Gone (i : ℕ) (before after : Db) : Type 0 where
  pub conversation : group_of after i ≡ none
  pub participants : select (belongs_to i) after.participants ≡ []
  pub messages : select (message_of i) after.messages ≡ []
  pub files : select (file_of i before.messages) after.files ≡ []
  pub backups : select (backup_of i) after.backups ≡ []

-- What is left of conversation `c`: all of it.
pub record Kept (c : ℕ) (before after : Db) : Type 0 where
  pub conversation : group_of after c ≡ group_of before c
  pub participants :
      select (belongs_to c) after.participants ≡ select (belongs_to c) before.participants
  pub messages : select (message_of c) after.messages ≡ select (message_of c) before.messages
  pub backups : select (backup_of c) after.backups ≡ select (backup_of c) before.backups

delete-Gone : (i : ℕ) (db : Db) → Gone i db (delete i db).1
unfolding delete
delete-Gone i db = record {
  conversation = first_where-delete_where_gone (has_id i) (has_id i) db.conversations (λ x h. h);
  participants = select-delete_where_gone (belongs_to i) (belongs_to i) db.participants (λ x h. h);
  messages = select-delete_where_gone (message_of i) (message_of i) db.messages (λ x h. h);
  files =
      select-delete_where_gone (file_of i db.messages) (file_of i db.messages) db.files (λ x h. h);
  backups = select-delete_where_gone (backup_of i) (backup_of i) db.backups (λ x h. h);
}

delete-Kept : (i c : ℕ) (db : Db) → c ≢ i → Kept c db (delete i db).1
unfolding delete
delete-Kept i c db ne = record {
  conversation =
      first_where-delete_where_other (has_id c) (has_id i) db.conversations (λ x h. ground arith);
  participants =
      select-delete_where_other (belongs_to c) (belongs_to i) db.participants (λ x h. ground arith);
  messages =
      select-delete_where_other (message_of c) (message_of i) db.messages (λ x h. ground arith);
  backups = select-delete_where_other (backup_of c) (backup_of i) db.backups (λ x h. ground arith);
}

-- On valid tables, when a participant deletes a direct conversation, it is destroyed for both: the
-- conversation, the memberships, the messages, their files and the key backups. Every other
-- conversation keeps its row, its memberships, its messages and its key backups.
pub delete_direct_effect :
    (now requester i : ℕ) (db db' : Db) (cv : Conversation)
    → IsValid db
    → group_of db i ≡ some cv
    → is_direct cv.type ≡ true
    → delete_conversation now requester i db ≡ (ok tt, db')
    → Gone i db db' × ((c : ℕ) → c ≢ i → Kept c db db')
delete_direct_effect now requester i db db' cv v e d h =
    let (m, s) = delete_allowed now requester i db v db' h in
    let direct : is_direct m.conversation.type ≡ true = ground (arith, m.found) in
    let s' : db' ≡ (delete i db).1 = ground (arith, s) in
    rw s' (delete-Gone i db, λ c ne. delete-Kept i c db ne)
