-- ===== src/Messaging/Revival.antt =====
-- What a message changes in the memberships: in a direct conversation every membership is active
-- afterwards, in a group none changes.
use mathlib.Core.Option
use pqc_grade_a.Base.{
  ℕ, ◌≡◌, ◌≢◌, refl, sym, ap, ◌∙◌, Bool, false, ◌&&◌, Option, none, some, List, [], ◌∷◌, arith,
  ◌==◌, ==_refl, is_some, first_where, exists, count, select, inl, inr, Option-cases, Bool-cases,
  count_of_found, count_of_none, not_exists_of_count, count_of_not_exists, same_row, touched,
  first_where_holds, first_where-update_where,
}
use pqc_grade_a.Base.UpdateLaws.{count-select}
use pqc_grade_a.Base.Sort.{count-order_by}
use pqc_grade_a.Db.{Db, ConversationParticipant}
use pqc_grade_a.Conversation.Repository.{belongs_to, is_member, is_row, set_left_at, joined_earlier}
use pqc_grade_a.Conversation.Invariant.{IsValid}
use pqc_grade_a.Conversation.Outcomes.{membership, after_reactivated}
use pqc_grade_a.Messaging.Outcomes.{revive, everyone}

-- A row that the list holds as left.
abbrev left_in : List ConversationParticipant → ConversationParticipant → Bool
left_in qs x = exists (λ q. x.id == q.id && is_some q.left_at) qs

reactivated :
    (p : ConversationParticipant) (db : Db) (c u : ℕ)
    → membership (after_reactivated p db) c u
      ≡ Option.map
          (touched (λ x. x.id == p.id && is_some p.left_at) (set_left_at none))
          (membership db c u)
reactivated p db c u = elim (Bool-cases (is_some p.left_at)) [
  | inr e ↦ rw e (elim (Option-cases (membership db c u)) [
    | inl n ↦ rw n refl
    | inr (q, n) ↦ rw n (ground arith)
  ])
  | inl e ↦ rw e (
      rw
        (first_where-update_where (is_member c u) (is_row p.id) (set_left_at none) db.participants
          (λ x. refl))
        (elim (Option-cases (membership db c u)) [
          | inl n ↦ rw n refl
          | inr (q, n) ↦ rw n (ground arith)
        ]))
]

stays : (q : ConversationParticipant) → q.left_at ≡ none → q ≡ set_left_at none q
stays q n = ground arith

touched_once :
    (p : ConversationParticipant) (ps : List ConversationParticipant)
    (o : Option ConversationParticipant)
    → Option.map
        (touched (left_in ps) (set_left_at none))
        (Option.map (touched (λ x. x.id == p.id && is_some p.left_at) (set_left_at none)) o)
      ≡ Option.map (touched (left_in (p ∷ ps)) (set_left_at none)) o
unfolding exists
touched_once p ps none = refl
touched_once p ps (some q) = elim (Bool-cases (q.id == p.id && is_some p.left_at)) [
  | inr e ↦ rw e refl
  | inl e ↦ rw e (elim (Bool-cases (left_in ps q)) [ inl d ↦ rw d refl | inr d ↦ rw d refl ])
]

pub revived_one :
    (qs : List ConversationParticipant) (db : Db) (c u : ℕ)
    → membership (revive qs db) c u
      ≡ Option.map (touched (left_in qs) (set_left_at none)) (membership db c u)
unfolding exists
revived_one [] db c u = elim (Option-cases (membership db c u)) [
  | inl n ↦ rw n refl
  | inr (q, n) ↦ rw n refl
]
revived_one (p ∷ ps) db c u =
    rw (revived_one ps (after_reactivated p db) c u, reactivated p db c u)
      (touched_once p ps (membership db c u))

module _ (db : Db) (v : IsValid db) (c c' u : ℕ) where
  pub counted :
      (r : ConversationParticipant → Bool)
      → count r (everyone db c) ≡ count (λ x. belongs_to c x && r x) db.participants
  counted r =
      rw (count-order_by joined_earlier r (select (belongs_to c) db.participants))
        (count-select r (belongs_to c) db.participants)

  pub revived_mine :
      (q : ConversationParticipant)
      → membership db c u ≡ some q
      → membership (revive (everyone db c) db) c u ≡ some (set_left_at none q)
  revived_mine q e =
      rw (revived_one (everyone db c) db c u, e)
        (elim (Bool-cases (left_in (everyone db c) q)) [
          | inl d ↦ rw d refl
          | inr d ↦ elim (Option-cases q.left_at) [
            | inl n ↦ rw d (ap some (stays q n))
            | inr (t, n) ↦ absurd (
                omega (
                  arith,
                  counted (λ x. q.id == x.id && is_some x.left_at),
                  count_of_not_exists (λ x. q.id == x.id && is_some x.left_at) (everyone db c) d,
                  count_of_found (is_member c u)
                      (λ x. belongs_to c x && (q.id == x.id && is_some x.left_at)) db.participants q
                      e
                      (ground (
                        arith,
                        first_where_holds (is_member c u) db.participants q e,
                        ==_refl q.id,
                      )),
                ))
          ]
        ])

  pub revived_other :
      (q : ConversationParticipant)
      → c' ≢ c
      → membership db c' u ≡ some q
      → left_in (everyone db c) q ≡ false
  revived_other q apart e =
      let r : ConversationParticipant → Bool =
        λ x. belongs_to c x && (q.id == x.id && is_some x.left_at) in
      not_exists_of_count (λ x. q.id == x.id && is_some x.left_at) (everyone db c)
        (rw (counted (λ x. q.id == x.id && is_some x.left_at))
          (elim (Option-cases (first_where r db.participants)) [
            | inl n ↦ count_of_none r db.participants n
            | inr (y, n) ↦ absurd (
                ground (
                  arith,
                  first_where_holds r db.participants y n,
                  first_where_holds (is_member c' u) db.participants q e,
                  same_row (is_member c' u) r (is_row q.id) db.participants q y (v.row_unique q.id)
                      e n (==_refl q.id),
                ))
          ]))

  pub memberships_revived :
      membership (revive (everyone db c) db) c u ≡ Option.map (set_left_at none) (membership db c u)
  memberships_revived = elim (Option-cases (membership db c u)) [
    | inl n ↦ rw (revived_one (everyone db c) db c u, n) refl
    | inr (q, n) ↦ revived_mine q n ∙ sym (ap (Option.map (set_left_at none)) n)
  ]

  pub memberships_kept : c' ≢ c → membership (revive (everyone db c) db) c' u ≡ membership db c' u
  memberships_kept apart = elim (Option-cases (membership db c' u)) [
    | inl n ↦ rw (revived_one (everyone db c) db c' u, n) refl
    | inr (q, n) ↦ rw (revived_one (everyone db c) db c' u, n, revived_other q apart n) refl
  ]
