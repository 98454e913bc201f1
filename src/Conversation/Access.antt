-- ===== src/Conversation/Access.antt =====
-- Who may remove a participant or delete a conversation, and what a removal changes.
use mathlib.Core.Option
use pqc_grade_a.Base.{
  ℕ, ◌≡◌, ◌≢◌, ◌↔◌, ◌⊎◌, refl, true, false, Option, none, some, arith, ◌==◌, ==_iff, ==_refl,
  is_none, inl, inr, Bool-cases, Option-cases, first_where_holds, first_where-update_where,
  same_row, touched,
}
use pqc_grade_a.Db.{Db, Conversation, ConversationParticipant}
use pqc_grade_a.Exec.{ok}
use pqc_grade_a.Exec.Keeps.{returns_once}
use pqc_grade_a.Conversation.Repository.{is_direct, is_member, is_row, set_left_at, write_left_at}
use pqc_grade_a.Conversation.Service.{remove_participant}
use pqc_grade_a.Conversation.Invariant.{IsValid}
use pqc_grade_a.Conversation.Outcomes.{
  membership, active_membership, admin_membership, group_of, after_left,
}
use pqc_grade_a.Conversation.Branches.{
  remove_participant_unknown, remove_participant_direct, remove_participant_absent,
  remove_participant_denied, remove_participant_done,
}

-- FR-024: the conversation is a group, the target an active member of it, and the actor the target
-- or an active admin of the group.
pub record MayRemove (db : Db) (c actor target : ℕ) : Type 0 where
  pub conversation : Conversation
  pub found : group_of db c ≡ some conversation
  pub plain : is_direct conversation.type ≡ false
  pub row : ConversationParticipant
  pub member : active_membership db c target ≡ some row
  pub actor_allowed :
      (actor ≡ target)
      ⊎ ((admin : ConversationParticipant) × (admin_membership db c actor ≡ some admin))

module _ (now c actor target : ℕ) (db : Db) (v : IsValid db) where
  -- A removal that succeeds was allowed, and stamps the target's row.
  removed :
      (db' : Db)
      → remove_participant now c actor target db ≡ (ok tt, db')
      → (m : MayRemove db c actor target) × (db' ≡ after_left now m.row db)
  removed db' h = elim (Option-cases (group_of db c)) [
    | inl e ↦ cc (remove_participant_unknown now c actor target db v e)
    | inr (cv, e) ↦ elim (Bool-cases (is_direct cv.type)) [
      | inl d ↦ cc (remove_participant_direct now c actor target db v cv e d)
      | inr d ↦ elim (Option-cases (active_membership db c target)) [
        | inl m ↦ cc (remove_participant_absent now c actor target db v cv e d m)
        | inr (p, m) ↦
            let done : ((actor ≡ target)
                  ⊎ ((admin : ConversationParticipant) × (admin_membership db c actor
                        ≡ some admin)))
                → (m : MayRemove db c actor target) × (db' ≡ after_left now m.row db) =
              λ allowed. (
                record {
                  conversation = cv;
                  found = e;
                  plain = d;
                  row = p;
                  member = m;
                  actor_allowed = allowed;
                },
                (returns_once (remove_participant now c actor target db) tt tt (after_left now p db)
                    db' (remove_participant_done now c actor target db v cv p e d m allowed) h).1,
              ) in
            elim (Bool-cases (actor == target)) [
              | inl same ↦ done (inl ((==_iff actor target).0 same))
              | inr apart ↦ elim (Option-cases (admin_membership db c actor)) [
                | inl n ↦
                    cc (
                      remove_participant_denied now c actor target db v cv p e d m (ground arith) n)
                | inr admin ↦ done (inr admin)
              ]
            ]
      ]
    ]
  ]

  -- On valid tables, a removal succeeds exactly if the conversation is a group, the target an
  -- active member of it, and the actor the target or an active admin.
  pub remove_participant_iff :
      ((db' : Db) × (remove_participant now c actor target db ≡ (ok tt, db')))
      ↔ MayRemove db c actor target
  remove_participant_iff = (
    (λ r. (removed r.0 r.1).0),
    (λ m. (
      after_left now m.row db,
      remove_participant_done now c actor target db v m.conversation m.row m.found m.plain m.member
          m.actor_allowed,
    )),
  )

-- The row of a membership carries the conversation and the user.
row_of :
    (db : Db) (c u : ℕ) (p : ConversationParticipant)
    → membership db c u ≡ some p
    → (p.conversation_id ≡ c) × (p.user_id ≡ u)
row_of db c u p e = ground (arith, first_where_holds (is_member c u) db.participants p e)

membership-write_left_at :
    (i : ℕ) (t : Option ℕ) (db : Db) (c u : ℕ)
    → membership (write_left_at i t db) c u
      ≡ Option.map (touched (is_row i) (set_left_at t)) (membership db c u)
membership-write_left_at i t db c u =
    first_where-update_where (is_member c u) (is_row i) (set_left_at t) db.participants (λ x. refl)

active_row :
    (db : Db) (c u : ℕ) (p : ConversationParticipant)
    → active_membership db c u ≡ some p
    → (membership db c u ≡ some p) × (is_none p.left_at ≡ true)
active_row db c u p e = elim (Option-cases (membership db c u)) [
  | inl n ↦ ground arith
  | inr (q, n) ↦ ground arith
]

-- Stamping one row leaves the memberships of all others.
module _ (now c u : ℕ) (db : Db) (v : IsValid db) (p : ConversationParticipant)
    (mine : membership db c u ≡ some p) (active : is_none p.left_at ≡ true) where
  stamped_mine : active_membership (after_left now p db) c u ≡ none
  stamped_mine =
      rw active
        (rw (membership-write_left_at p.id (some now) db c u) (ground (arith, ==_refl p.id)))

  stamped_other :
      (c' u' : ℕ)
      → (c' ≢ c) ⊎ (u' ≢ u)
      → membership (after_left now p db) c' u' ≡ membership db c' u'
  stamped_other c' u' apart = rw active (
      rw (membership-write_left_at p.id (some now) db c' u')
        (elim (Option-cases (membership db c' u')) [
          | inl e ↦ rw e refl
          | inr (q, e) ↦ elim (Bool-cases (is_row p.id q)) [
            | inr other ↦ rw (e, other) refl
            | inl same ↦
                let one : q ≡ p =
                  same_row (is_member c' u') (is_member c u) (is_row p.id) db.participants q p
                    (v.row_unique p.id) e mine same (==_refl p.id) in
                absurd (elim apart [
                  | inl d ↦ ground (arith, row_of db c u p mine, row_of db c' u' q e)
                  | inr d ↦ ground (arith, row_of db c u p mine, row_of db c' u' q e)
                ])
          ]
        ]))

-- On valid tables, a participant who was removed is no active member any more; every other
-- membership, the conversations and the messages are as before.
pub remove_participant_effect :
    (now c actor target : ℕ) (db db' : Db)
    → IsValid db
    → remove_participant now c actor target db ≡ (ok tt, db')
    → (active_membership db' c target ≡ none)
      × ((c' u' : ℕ) → (c' ≢ c) ⊎ (u' ≢ target) → membership db' c' u' ≡ membership db c' u')
      × (db'.conversations ≡ db.conversations)
      × (db'.messages ≡ db.messages)
remove_participant_effect now c actor target db db' v h =
    let (m, e) = removed now c actor target db v db' h in
    let (mine, active) = active_row db c target m.row m.member in
    rw e (
      stamped_mine now c target db v m.row mine active,
      stamped_other now c target db v m.row mine active,
      rw active refl,
      rw active refl,
    )
