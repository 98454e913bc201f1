-- ===== src/Conversation/Admission.antt =====
-- Who may add a participant to a group.
use pqc_grade_a.Base.{
  ℕ, ◌≡◌, ◌↔◌, ◌⊎◌, ◌∙◌, true, false, none, some, ◌≢◌, arith, exists_of_found, not_exists_of_count,
  count_of_none, inl, inr, Bool-cases, Option-cases, exists,
}
use pqc_grade_a.Errors.{integrity_error}
use pqc_grade_a.Db.{Db, Conversation, ConversationParticipant, member}
use pqc_grade_a.Exec.{ok, err, fresh_id}
use pqc_grade_a.Conversation.Repository as Rows
use pqc_grade_a.Conversation.Repository.{is_direct, is_user, has_id, is_member}
use pqc_grade_a.Conversation.Service.{add_participant}
use pqc_grade_a.Conversation.Invariant.{IsValid}
use pqc_grade_a.Conversation.Outcomes.{membership, admin_membership, group_of, is_active}
use pqc_grade_a.Conversation.Inserts.{add_participant_cases}
use pqc_grade_a.Conversation.Branches.{
  add_participant_unknown, add_participant_direct, add_participant_denied, add_participant_active,
  add_participant_left, add_participant_new,
}

-- The conversation is a group, the actor an active admin of it, and the target a user who has left
-- it or was never in it.
pub record MayAdd (db : Db) (c actor target : ℕ) : Type 0 where
  pub conversation : Conversation
  pub found : group_of db c ≡ some conversation
  pub plain : is_direct conversation.type ≡ false
  pub admin : ConversationParticipant
  pub managed : admin_membership db c actor ≡ some admin
  pub target_allowed :
      ((row : ConversationParticipant) × (membership db c target ≡ some row)
        × (is_active row ≡ false))
      ⊎ ((membership db c target ≡ none) × (exists (is_user target) db.users ≡ true))

-- The insert of a known user without a row in a conversation that is there passes.
refused :
    (c u : ℕ) (db : Db)
    → exists (is_user u) db.users ≡ true
    → exists (has_id c) db.conversations ≡ true
    → exists (is_member c u) db.participants ≡ false
    → (now : ℕ) → Rows.add_participant now c u (some member) db ≢ (err integrity_error, db)
unfolding Rows.add_participant fresh_id
refused c u db known there new now h = ground arith

module _ (now c actor target : ℕ) (db : Db) (v : IsValid db) where
  abbrev Added : Type 0
  Added =
      (p : ConversationParticipant) × (db' : Db) × (add_participant now c actor target db
        ≡ (ok p, db'))

  stranger :
      (cv : Conversation) (admin : ConversationParticipant)
      → group_of db c ≡ some cv
      → is_direct cv.type ≡ false
      → admin_membership db c actor ≡ some admin
      → membership db c target ≡ none
      → Added ↔ (exists (is_user target) db.users ≡ true)
  stranger cv admin e d n m =
      let run = add_participant_new now c actor target db v cv admin e d n m in
      (
        (λ (p, db', h). elim (add_participant_cases now c target (some member) db) [
          | inl f ↦ cc
          | inr (_, known, _, _) ↦ known
        ]),
        (λ known. elim (add_participant_cases now c target (some member) db) [
          | inr (_, _, _, f) ↦ (_, _, run ∙ f)
          | inl f ↦ absurd (
              refused c target db known (exists_of_found (has_id c) db.conversations cv e)
                (not_exists_of_count (is_member c target) db.participants
                  (count_of_none (is_member c target) db.participants m))
                now f)
        ]),
      )

  -- On valid tables, adding a participant succeeds exactly if the conversation is a group, the
  -- actor an active admin of it, and the target a user who has left it or was never in it.
  pub add_participant_iff : Added ↔ MayAdd db c actor target
  add_participant_iff = (
    (λ (p, db', h). elim (Option-cases (group_of db c)) [
      | inl e ↦ cc (add_participant_unknown now c actor target db v e)
      | inr (cv, e) ↦ elim (Bool-cases (is_direct cv.type)) [
        | inl d ↦ cc (add_participant_direct now c actor target db v cv e d)
        | inr d ↦ elim (Option-cases (admin_membership db c actor)) [
          | inl n ↦ cc (add_participant_denied now c actor target db v cv e d n)
          | inr (admin, n) ↦
              let allow : (((row : ConversationParticipant) × (membership db c target ≡ some row)
                      × (is_active row ≡ false))
                    ⊎ ((membership db c target ≡ none) × (exists (is_user target) db.users ≡ true)))
                  → MayAdd db c actor target =
                λ t. record {
                  conversation = cv;
                  found = e;
                  plain = d;
                  admin = admin;
                  managed = n;
                  target_allowed = t;
                } in
              elim (Option-cases (membership db c target)) [
                | inl m ↦ allow (inr (m, (stranger cv admin e d n m).0 (p, db', h)))
                | inr (row, m) ↦ elim (Bool-cases (is_active row)) [
                  | inl a ↦
                      cc (add_participant_active now c actor target db v cv admin row e d n m a)
                  | inr a ↦ allow (inl (row, m, a))
                ]
              ]
        ]
      ]
    ]),
    (λ m. elim m.target_allowed [
      | inl (row, e, a) ↦ (
        _,
        _,
        add_participant_left now c actor target db v m.conversation m.admin row m.found m.plain
            m.managed e a,
      )
      | inr (e, known) ↦ (stranger m.conversation m.admin m.found m.plain m.managed e).1 known
    ]),
  )
