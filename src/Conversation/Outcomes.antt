-- ===== src/Conversation/Outcomes.antt =====
-- What the methods of the conversation service return on a valid database, by the memberships that
-- they find there.
use pqc_grade_a.Base.{
  ap, ℕ, ◌≡◌, ◌≢◌, Bool, Option, none, some, [], ◌∷◌, arith, if◌then◌else◌, first_where, is_some,
  Text, is_none,
}
use pqc_grade_a.Errors.{
  Error, messaging, not_participant, not_group_admin, invalid_conversation_request,
}
use pqc_grade_a.Exec.Rows.{scalar_select}
use pqc_grade_a.Db.{Db, Conversation, ConversationParticipant}
use pqc_grade_a.Exec.{Result, ok, err}
use pqc_grade_a.Conversation.Repository.{
  has_id, is_member, is_direct_between, find_direct, get_participant, mark_left, mark_reactivated,
  write_left_at,
}
use pqc_grade_a.Conversation.Service.{
  reactivate_participant, create_pair, reuse_pair, create_direct, authorize_participant,
  authorize_group_admin, is_group_admin,
}
use pqc_grade_a.Conversation.Invariant.{IsValid}

-- The membership row of a user in a conversation, active or left.
abbrev pub membership : Db → ℕ → ℕ → Option ConversationParticipant
membership db c u = first_where (is_member c u) db.participants

abbrev pub keep_if {ℓ} : {A : Type ℓ} → (A → Bool) → Option A → Option A
keep_if p none = none
keep_if p (some x) = if p x then some x else none

abbrev pub is_active : ConversationParticipant → Bool
is_active p = is_none p.left_at

abbrev pub active_membership : Db → ℕ → ℕ → Option ConversationParticipant
active_membership db c u = keep_if is_active (membership db c u)

abbrev pub admin_membership : Db → ℕ → ℕ → Option ConversationParticipant
admin_membership db c u = keep_if (λ p. is_group_admin p.role) (active_membership db c u)

abbrev pub group_of : Db → ℕ → Option Conversation
group_of db i = first_where (has_id i) db.conversations

abbrev pub or_error : {A : Type 0} → Error → Option A → Result A
or_error e none = err e
or_error e (some a) = ok a

module _ (db : Db) (v : IsValid db) where
  pub get_participant_lem : (c u : ℕ) → get_participant c u db ≡ (ok (membership db c u), db)
  unfolding get_participant
  get_participant_lem c u =
      ap
        (λ (r : Result (Option ConversationParticipant)).
          let w : Result (Option ConversationParticipant) × Db = (r, db) in w)
        (scalar_select (is_member c u) db.participants (v.member_unique c u))

  pub authorize_participant_lem :
      (c u : ℕ)
      → authorize_participant c u db
        ≡ (or_error (messaging not_participant) (active_membership db c u), db)
  unfolding authorize_participant
  authorize_participant_lem c u = ground (arith, get_participant_lem c u)

  pub authorize_group_admin_lem :
      (c u : ℕ)
      → authorize_group_admin c u db
        ≡ (or_error (messaging not_group_admin) (admin_membership db c u), db)
  unfolding authorize_group_admin
  authorize_group_admin_lem c u = ground (arith, get_participant_lem c u)

  pub reactivate_none :
      (c u : ℕ) → membership db c u ≡ none → reactivate_participant c u db ≡ (ok tt, db)
  unfolding reactivate_participant
  reactivate_none c u e = ground (arith, get_participant_lem c u)

  pub reactivate_some :
      (c u : ℕ) (p : ConversationParticipant)
      → membership db c u ≡ some p
      → reactivate_participant c u db ≡ mark_reactivated p db
  unfolding reactivate_participant
  reactivate_some c u p e = ground (arith, get_participant_lem c u)

-- The states that the two marks leave.
abbrev pub after_left : ℕ → ConversationParticipant → Db → Db
after_left now p db = if is_none p.left_at then write_left_at p.id (some now) db else db

abbrev pub after_reactivated : ConversationParticipant → Db → Db
after_reactivated p db = if is_some p.left_at then write_left_at p.id none db else db

pub mark_left_lem :
    (now : ℕ) (p : ConversationParticipant) (db : Db)
    → mark_left now p db ≡ (ok tt, after_left now p db)
unfolding mark_left
mark_left_lem now p db = ground arith

pub mark_reactivated_lem :
    (p : ConversationParticipant) (db : Db)
    → mark_reactivated p db ≡ (ok tt, after_reactivated p db)
unfolding mark_reactivated
mark_reactivated_lem p db = ground arith

module _ (db : Db) (v : IsValid db) where
  pub reuse_pair_absent :
      (creator : ℕ) (existing : Conversation)
      → membership db existing.id creator ≡ none
      → reuse_pair creator existing db ≡ (ok existing, db)
  unfolding reuse_pair
  reuse_pair_absent creator existing e =
      ground (arith, get_participant_lem db v existing.id creator)

  pub reuse_pair_present :
      (creator : ℕ) (existing : Conversation) (p : ConversationParticipant)
      → membership db existing.id creator ≡ some p
      → reuse_pair creator existing db ≡ (ok existing, after_reactivated p db)
  unfolding reuse_pair
  reuse_pair_present creator existing p e = ground (
    arith,
    get_participant_lem db v existing.id creator,
    reactivate_some db v existing.id creator p e,
    mark_reactivated_lem p db,
  )

-- The three ways in which `create_direct` goes on, by its tests.
module _ (now creator other : ℕ) (name : Option Text) (db : Db) where
  pub create_direct_self :
      other ≡ creator
      → create_direct now creator (other ∷ []) name db
        ≡ (err (messaging invalid_conversation_request), db)
  unfolding create_direct
  create_direct_self e = ground arith

  pub create_direct_found :
      (existing : Conversation)
      → other ≢ creator
      → first_where (is_direct_between db.participants creator other) db.conversations
        ≡ some existing
      → create_direct now creator (other ∷ []) name db ≡ reuse_pair creator existing db
  unfolding create_direct find_direct
  create_direct_found existing ne e = ground arith

  pub create_direct_new :
      other ≢ creator
      → first_where (is_direct_between db.participants creator other) db.conversations ≡ none
      → create_direct now creator (other ∷ []) name db ≡ create_pair now creator other name db
  unfolding create_direct find_direct
  create_direct_new ne e = ground arith
