-- ===== src/Messaging/Outcomes.antt =====
-- `MessagingService.send` branch by branch, on a database that keeps its constraints.
use pqc_grade_a.Base.{
  ℕ, ◌≡◌, refl, Bool, true, false, some, List, [], ◌∷◌, arith, is_none, is_some, if◌then◌else◌,
  first_where, select, inl, inr, Bool-cases,
}
use pqc_grade_a.Base.Sort.{order_by}
use pqc_grade_a.Errors.{messaging, not_participant, invalid_identity_key}
use pqc_grade_a.Db.{Db, Conversation, ConversationParticipant}
use pqc_grade_a.Exec.{ok, err, pure, for_each}
use pqc_grade_a.Conversation.Repository.{
  is_direct, belongs_to, joined_earlier, get_by_id, list_all_participants, mark_reactivated,
}
use pqc_grade_a.Conversation.Invariant.{IsValid}
use pqc_grade_a.Conversation.Outcomes.{
  active_membership, group_of, after_reactivated, get_participant_lem, mark_reactivated_lem,
}
use pqc_grade_a.IdentityKey.Repository as Keys
use pqc_grade_a.Messaging.Service.{authorize, require_signing_key, may_sign, recipients, user_ids}

pub authorize_lem :
    (db : Db)
    → IsValid db
    → (c u : ℕ)
    → authorize c u db
      ≡ (if is_some (active_membership db c u) then ok tt else err (messaging not_participant), db)
unfolding authorize
authorize_lem db v c u = ground (arith, get_participant_lem db v c u)

abbrev pub signs : Db → ℕ → ℕ → Bool
signs db sender i = may_sign sender (first_where (Keys.is_key i) db.identity_keys)

pub require_signing_key_lem :
    (db : Db) (sender i : ℕ)
    → require_signing_key sender i db
      ≡ (if signs db sender i then ok tt else err (messaging invalid_identity_key), db)
unfolding require_signing_key Keys.get_by_id
require_signing_key_lem db sender i = ground arith

-- Every row of a list of participants reactivated.
abbrev pub revive : List ConversationParticipant → Db → Db
revive [] db = db
revive (p ∷ ps) db = revive ps (after_reactivated p db)

reactivate_one :
    (p : ConversationParticipant) (db : Db)
    → (if is_some p.left_at then mark_reactivated p else pure tt) db
      ≡ (ok tt, after_reactivated p db)
reactivate_one p db = elim (Bool-cases (is_some p.left_at)) [
  | inl e ↦ rw e (ground (arith, mark_reactivated_lem p db))
  | inr e ↦ rw e refl
]

pub reactivate_all :
    (ps : List ConversationParticipant) (db : Db)
    → for_each ps (λ p. if is_some p.left_at then mark_reactivated p else pure tt) db
      ≡ (ok tt, revive ps db)
reactivate_all [] db = refl
reactivate_all (p ∷ ps) db =
    ground (arith, reactivate_one p db, reactivate_all ps (after_reactivated p db))

abbrev pub everyone : Db → ℕ → List ConversationParticipant
everyone db c = order_by joined_earlier (select (belongs_to c) db.participants)

pub recipients_direct :
    (c : ℕ) (cv : Conversation) (db : Db)
    → group_of db c ≡ some cv
    → is_direct cv.type ≡ true
    → recipients c db ≡ (ok (user_ids (everyone db c)), revive (everyone db c) db)
unfolding recipients list_all_participants get_by_id
recipients_direct c cv db e d = ground (arith, reactivate_all (everyone db c) db)

pub recipients_group :
    (c : ℕ) (cv : Conversation) (db : Db)
    → group_of db c ≡ some cv
    → is_direct cv.type ≡ false
    → recipients c db ≡ (ok (user_ids (select (λ p. is_none p.left_at) (everyone db c))), db)
unfolding recipients list_all_participants get_by_id
recipients_group c cv db e d = ground arith
