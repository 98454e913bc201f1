-- ===== src/Conversation/Branches.antt =====
-- The branches of the management of participants and of the deletion, one lemma for each.
use pqc_grade_a.Base.{◌⊎◌, ℕ, ◌≡◌, ◌≢◌, true, false, none, some, arith, inl, inr}
use pqc_grade_a.Errors.{
  messaging, not_participant, not_group_admin, conversation_not_found, conversation_type_mismatch,
  participant_already_active,
}
use pqc_grade_a.Db.{Db, Conversation, ConversationParticipant, member}
use pqc_grade_a.Exec.{ok, err}
use pqc_grade_a.Conversation.Repository
use pqc_grade_a.Conversation.Repository.{
  is_direct, has_id, is_user, belongs_to, is_member, is_direct_between, get_by_id, find_direct,
  get_participant, add_conversation, mark_left, mark_reactivated, delete, write_left_at,
}
use pqc_grade_a.Conversation.Service.{
  require_group, add_participant, remove_participant, delete_conversation,
}
use pqc_grade_a.Conversation.Invariant.{IsValid}
use pqc_grade_a.Conversation.Outcomes.{
  membership, active_membership, admin_membership, group_of, is_active, after_left,
  after_reactivated, get_participant_lem, authorize_participant_lem, authorize_group_admin_lem,
  mark_left_lem, mark_reactivated_lem,
}

module _ (now c actor target : ℕ) (db : Db) (v : IsValid db) where
  pub add_participant_unknown :
      group_of db c ≡ none
      → add_participant now c actor target db ≡ (err (messaging conversation_not_found), db)
  unfolding add_participant require_group get_by_id
  add_participant_unknown e = ground arith

  pub add_participant_direct :
      (cv : Conversation)
      → group_of db c ≡ some cv
      → is_direct cv.type ≡ true
      → add_participant now c actor target db ≡ (err (messaging conversation_type_mismatch), db)
  unfolding add_participant require_group get_by_id
  add_participant_direct cv e d = ground arith

  pub add_participant_denied :
      (cv : Conversation)
      → group_of db c ≡ some cv
      → is_direct cv.type ≡ false
      → admin_membership db c actor ≡ none
      → add_participant now c actor target db ≡ (err (messaging not_group_admin), db)
  unfolding add_participant require_group get_by_id
  add_participant_denied cv e d n = ground (arith, authorize_group_admin_lem db v c actor)

  pub add_participant_active :
      (cv : Conversation) (admin p : ConversationParticipant)
      → group_of db c ≡ some cv
      → is_direct cv.type ≡ false
      → admin_membership db c actor ≡ some admin
      → membership db c target ≡ some p
      → is_active p ≡ true
      → add_participant now c actor target db ≡ (err (messaging participant_already_active), db)
  unfolding add_participant require_group get_by_id
  add_participant_active cv admin p e d n m a =
      ground (arith, authorize_group_admin_lem db v c actor, get_participant_lem db v c target)

  pub add_participant_left :
      (cv : Conversation) (admin p : ConversationParticipant)
      → group_of db c ≡ some cv
      → is_direct cv.type ≡ false
      → admin_membership db c actor ≡ some admin
      → membership db c target ≡ some p
      → is_active p ≡ false
      → add_participant now c actor target db
        ≡ (ok (record p { left_at = none }), after_reactivated p db)
  unfolding add_participant require_group get_by_id
  add_participant_left cv admin p e d n m a = ground (
    arith,
    authorize_group_admin_lem db v c actor,
    get_participant_lem db v c target,
    mark_reactivated_lem p db,
  )

  pub add_participant_new :
      (cv : Conversation) (admin : ConversationParticipant)
      → group_of db c ≡ some cv
      → is_direct cv.type ≡ false
      → admin_membership db c actor ≡ some admin
      → membership db c target ≡ none
      → add_participant now c actor target db
        ≡ Repository.add_participant now c target (some member) db
  unfolding add_participant require_group get_by_id
  add_participant_new cv admin e d n m =
      ground (arith, authorize_group_admin_lem db v c actor, get_participant_lem db v c target)

  pub remove_participant_unknown :
      group_of db c ≡ none
      → remove_participant now c actor target db ≡ (err (messaging conversation_not_found), db)
  unfolding remove_participant require_group get_by_id
  remove_participant_unknown e = ground arith

  pub remove_participant_direct :
      (cv : Conversation)
      → group_of db c ≡ some cv
      → is_direct cv.type ≡ true
      → remove_participant now c actor target db ≡ (err (messaging conversation_type_mismatch), db)
  unfolding remove_participant require_group get_by_id
  remove_participant_direct cv e d = ground arith

  pub remove_participant_absent :
      (cv : Conversation)
      → group_of db c ≡ some cv
      → is_direct cv.type ≡ false
      → active_membership db c target ≡ none
      → remove_participant now c actor target db ≡ (err (messaging not_participant), db)
  unfolding remove_participant require_group get_by_id
  remove_participant_absent cv e d n = ground (arith, authorize_participant_lem db v c target)

  pub remove_participant_denied :
      (cv : Conversation) (p : ConversationParticipant)
      → group_of db c ≡ some cv
      → is_direct cv.type ≡ false
      → active_membership db c target ≡ some p
      → actor ≢ target
      → admin_membership db c actor ≡ none
      → remove_participant now c actor target db ≡ (err (messaging not_group_admin), db)
  unfolding remove_participant require_group get_by_id
  remove_participant_denied cv p e d m ne n =
      ground
        (arith, authorize_participant_lem db v c target, authorize_group_admin_lem db v c actor)

  pub remove_participant_done :
      (cv : Conversation) (p : ConversationParticipant)
      → group_of db c ≡ some cv
      → is_direct cv.type ≡ false
      → active_membership db c target ≡ some p
      → (actor ≡ target)
        ⊎ ((admin : ConversationParticipant) × (admin_membership db c actor ≡ some admin))
      → remove_participant now c actor target db ≡ (ok tt, after_left now p db)
  unfolding remove_participant require_group get_by_id
  remove_participant_done cv p e d m (inl same) =
      ground (arith, authorize_participant_lem db v c target, mark_left_lem now p db)
  remove_participant_done cv p e d m (inr (admin, n)) = ground (
    arith,
    authorize_participant_lem db v c target,
    authorize_group_admin_lem db v c actor,
    mark_left_lem now p db,
  )

module _ (now requester i : ℕ) (db : Db) (v : IsValid db) where
  pub delete_conversation_unknown :
      group_of db i ≡ none
      → delete_conversation now requester i db ≡ (err (messaging conversation_not_found), db)
  unfolding delete_conversation get_by_id
  delete_conversation_unknown e = ground arith

  pub delete_conversation_denied :
      (cv : Conversation)
      → group_of db i ≡ some cv
      → active_membership db i requester ≡ none
      → delete_conversation now requester i db ≡ (err (messaging not_participant), db)
  unfolding delete_conversation get_by_id
  delete_conversation_denied cv e n = ground (arith, authorize_participant_lem db v i requester)

  pub delete_conversation_direct :
      (cv : Conversation) (p : ConversationParticipant)
      → group_of db i ≡ some cv
      → active_membership db i requester ≡ some p
      → is_direct cv.type ≡ true
      → delete_conversation now requester i db ≡ delete i db
  unfolding delete_conversation get_by_id
  delete_conversation_direct cv p e n d = ground (arith, authorize_participant_lem db v i requester)

  pub delete_conversation_group :
      (cv : Conversation) (p : ConversationParticipant)
      → group_of db i ≡ some cv
      → active_membership db i requester ≡ some p
      → is_direct cv.type ≡ false
      → delete_conversation now requester i db ≡ (ok tt, after_left now p db)
  unfolding delete_conversation get_by_id
  delete_conversation_group cv p e n d =
      ground (arith, authorize_participant_lem db v i requester, mark_left_lem now p db)
