-- ===== src/Conversation/Service.antt =====
-- backend/src/services/conversation_service.py: the lifecycle of conversations and the
-- authorization of their participants.
use pqc_grade_a.Base.{
  ℕ, Bool, true, false, ◌||◌, not, Option, none, some, List, [], ◌∷◌, ◌==◌, Text, is_none, is_some,
  if◌then◌else◌, exists, delete_where,
}
use pqc_grade_a.Errors.{
  messaging, conversation_not_found, not_participant, invalid_conversation_request, not_group_admin,
  conversation_type_mismatch, participant_already_active,
}
use pqc_grade_a.Db.{
  Conversation, ConversationParticipant, direct, group, ParticipantRole, group_admin, member,
}
use pqc_grade_a.Exec.{Action, pure, raise, ◌>>=◌, ◌>>◌, raise_if, or_raise, for_each}
use pqc_grade_a.Conversation.Repository
use pqc_grade_a.Conversation.Repository.{
  is_direct, get_by_id, find_direct, get_participant, add_conversation, mark_left, mark_reactivated,
  delete,
}

-- Clears `left_at`; no change if the membership is active or absent.
unfoldable pub reactivate_participant : ℕ → ℕ → Action (Unit {0})
reactivate_participant c u = do
  found ← get_participant c u
  elim found [ none ↦ pure tt | some p ↦ mark_reactivated p ]

-- The branch of `create_direct` for a pair with no direct conversation.
unfoldable pub create_pair : ℕ → ℕ → ℕ → Option Text → Action Conversation
create_pair now creator other name = do
  c ← add_conversation now direct name creator
  Repository.add_participant now c.id creator none
  Repository.add_participant now c.id other none
  pure c

-- The branch of `create_direct` for a pair with one.
unfoldable pub reuse_pair : ℕ → Conversation → Action Conversation
reuse_pair creator existing = do
  membership ← get_participant existing.id creator
  elim membership [ none ↦ pure tt | some p ↦ reactivate_participant existing.id creator ]
  pure existing

-- What `create_direct` does with the conversation that its search has found.
abbrev pub after_search : ℕ → ℕ → ℕ → Option Text → Option Conversation → Action Conversation
after_search now creator other name (some existing) = reuse_pair creator existing
after_search now creator other name none = create_pair now creator other name

unfoldable pub create_direct : ℕ → ℕ → List ℕ → Option Text → Action Conversation
create_direct now creator [] name = raise (messaging invalid_conversation_request)
create_direct now creator (other ∷ []) name = do
  raise_if (other == creator) (messaging invalid_conversation_request)
  found ← find_direct creator other
  after_search now creator other name found
create_direct now creator (other ∷ another ∷ rest) name =
    raise (messaging invalid_conversation_request)

-- `dict.fromkeys`: the first occurrence of each id, in order.
unfoldable pub from_keys : List ℕ → List ℕ
from_keys [] = []
from_keys (u ∷ us) = u ∷ delete_where (λ v. v == u) (from_keys us)

-- The memberships of a new group: the creator as its admin, the others as members.
unfoldable pub fill_group : ℕ → Conversation → ℕ → List ℕ → Action Conversation
fill_group now c creator other_ids = do
  Repository.add_participant now c.id creator (some group_admin)
  for_each other_ids (λ u. Repository.add_participant now c.id u (some member) >> pure tt)
  pure c

-- The ids of the other members, each once and without the creator's.
abbrev pub other_members : ℕ → List ℕ → List ℕ
other_members creator user_ids = delete_where (λ u. u == creator) (from_keys user_ids)

unfoldable pub create_group : ℕ → ℕ → List ℕ → Text → Action Conversation
create_group now creator user_ids name =
    let other_ids = other_members creator user_ids in
    do
      raise_if (not (exists (λ u. true) other_ids)) (messaging invalid_conversation_request)
      c ← add_conversation now group (some name) creator
      fill_group now c creator other_ids

abbrev pub is_group_admin : Option ParticipantRole → Bool
is_group_admin none = false
is_group_admin (some member) = false
is_group_admin (some group_admin) = true

-- An active membership row, or the error.
unfoldable pub authorize_participant : ℕ → ℕ → Action ConversationParticipant
authorize_participant c u = do
  found ← get_participant c u
  p ← or_raise found (messaging not_participant)
  raise_if (is_some p.left_at) (messaging not_participant)
  pure p

unfoldable pub authorize_group_admin : ℕ → ℕ → Action ConversationParticipant
authorize_group_admin c u = do
  found ← get_participant c u
  p ← or_raise found (messaging not_group_admin)
  raise_if (is_some p.left_at || not (is_group_admin p.role)) (messaging not_group_admin)
  pure p

-- The two checks with which the management of participants begins.
unfoldable pub require_group : ℕ → Action Conversation
require_group i = do
  found ← get_by_id i
  c ← or_raise found (messaging conversation_not_found)
  raise_if (is_direct c.type) (messaging conversation_type_mismatch)
  pure c

unfoldable pub add_participant : ℕ → ℕ → ℕ → ℕ → Action ConversationParticipant
add_participant now c actor target = do
  require_group c
  authorize_group_admin c actor
  found ← get_participant c target
  elim found [
    | some p ↦ do
      raise_if (is_none p.left_at) (messaging participant_already_active)
      mark_reactivated p
      pure (record p { left_at = none })
    | none ↦ Repository.add_participant now c target (some member)
  ]

unfoldable pub remove_participant : ℕ → ℕ → ℕ → ℕ → Action (Unit {0})
remove_participant now c actor target = do
  require_group c
  p ← authorize_participant c target
  if actor == target then pure tt else (authorize_group_admin c actor >> pure tt)
  mark_left now p

unfoldable pub delete_conversation : ℕ → ℕ → ℕ → Action (Unit {0})
delete_conversation now requester i = do
  found ← get_by_id i
  c ← or_raise found (messaging conversation_not_found)
  p ← authorize_participant i requester
  if is_direct c.type then delete i else mark_left now p
