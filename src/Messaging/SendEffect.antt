-- ===== src/Messaging/SendEffect.antt =====
-- What `MessagingService.send` stores, whom it names as recipients, and what it does to the
-- memberships.
use mathlib.Core.Option
use pqc_grade_a.Base.{
  ℕ, ◌≡◌, ◌≢◌, refl, sym, ap, ◌∙◌, Bool, true, false, ◌&&◌, none, some, List, [], ◌∷◌, ◌++◌, Text,
  arith, ◌==◌, is_some, is_none, first_where, exists, count, select, inl, inr, Option-cases,
  Bool-cases, not_exists_of_count, count_of_not_exists, exists_of_count, exists_of_found,
  count_of_none, count_of_found, first_where_holds, same_row,
}
use pqc_grade_a.Base.UpdateLaws.{count-select}
use pqc_grade_a.Base64.{b64decode}
use pqc_grade_a.Db.{Db, Conversation, ConversationParticipant, Envelope, Message}
use pqc_grade_a.Exec.{ok}
use pqc_grade_a.Conversation.Repository.{
  is_direct, belongs_to, is_member, set_left_at, update_last_message_at,
}
use pqc_grade_a.Conversation.Invariant.{IsValid, IsValid-irrelevant}
use pqc_grade_a.Conversation.Outcomes.{membership, active_membership, group_of, after_reactivated}
use pqc_grade_a.Messaging.Envelope.{Coercion}
use pqc_grade_a.Messaging.Service.{new_message, user_ids, send}
use pqc_grade_a.Messaging.Outcomes.{revive, everyone}
use pqc_grade_a.Messaging.Sending.{stored, to_whom, revived, stamped}
use pqc_grade_a.Messaging.SendRights.{Sent-only_if}
use pqc_grade_a.Messaging.Revival.{counted, memberships_revived, memberships_kept}

revive-messages :
    (ps : List ConversationParticipant) (db : Db) → (revive ps db).messages ≡ db.messages
revive-messages [] db = refl
revive-messages (p ∷ ps) db =
    rw (revive-messages ps (after_reactivated p db))
      (elim (Bool-cases (is_some p.left_at)) [ inl e ↦ rw e refl | inr e ↦ rw e refl ])

pub stamped-messages : (c now : ℕ) (db : Db) → (stamped c now db).messages ≡ db.messages
unfolding update_last_message_at
stamped-messages c now db = refl

stamped-participants : (c now : ℕ) (db : Db) → (stamped c now db).participants ≡ db.participants
unfolding update_last_message_at
stamped-participants c now db = refl

stamped-membership :
    (t now : ℕ) (db : Db) (c u : ℕ) → membership (stamped t now db) c u ≡ membership db c u
stamped-membership t now db c u = ap (first_where (is_member c u)) (stamped-participants t now db)

pub revived-messages :
    (c : ℕ) (cv : Conversation) (db : Db) → (revived c cv db).messages ≡ db.messages
revived-messages c cv db = elim (Bool-cases (is_direct cv.type)) [
  | inl d ↦ rw d (revive-messages (everyone db c) db)
  | inr d ↦ rw d refl
]

exists-user_ids :
    (u : ℕ) (ps : List ConversationParticipant)
    → exists (λ v. v == u) (user_ids ps) ≡ exists (λ p. p.user_id == u) ps
unfolding exists
exists-user_ids u [] = refl
exists-user_ids u (p ∷ ps) = ground (arith, exists-user_ids u ps)

-- Two conditions that count alike hold alike.
exists_alike :
    {A B : Type 0} (p : A → Bool) (q : B → Bool) (xs : List A) (ys : List B)
    → count p xs ≡ count q ys
    → exists p xs ≡ exists q ys
exists_alike p q xs ys h = elim (Bool-cases (exists p xs)) [
  | inl a ↦ elim (Bool-cases (exists q ys)) [
    | inl b ↦ a ∙ sym b
    | inr b ↦ absurd (omega (arith, exists_of_count p xs a, count_of_not_exists q ys b))
  ]
  | inr a ↦ elim (Bool-cases (exists q ys)) [
    | inr b ↦ a ∙ sym b
    | inl b ↦ absurd (omega (arith, exists_of_count q ys b, count_of_not_exists p xs a))
  ]
]

exists_found : {A : Type 0} (p : A → Bool) (xs : List A) → exists p xs ≡ is_some (first_where p xs)
exists_found p xs = elim (Option-cases (first_where p xs)) [
  | inl n ↦ rw n (not_exists_of_count p xs (count_of_none p xs n))
  | inr (x, n) ↦ rw n (exists_of_found p xs x n)
]

module _ (db : Db) (v : IsValid db) (c u : ℕ) where
  everyone_lem : exists (λ x. x == u) (user_ids (everyone db c)) ≡ is_some (membership db c u)
  everyone_lem =
      exists-user_ids u (everyone db c)
      ∙ exists_alike (λ p. p.user_id == u) (is_member c u) (everyone db c) db.participants
          (counted db v c c u (λ p. p.user_id == u))
      ∙ exists_found (is_member c u) db.participants

  active_count :
      exists (λ p. belongs_to c p && (is_none p.left_at && p.user_id == u)) db.participants
      ≡ is_some (active_membership db c u)
  active_count =
      let r : ConversationParticipant → Bool =
        λ p. belongs_to c p && (is_none p.left_at && p.user_id == u) in
      elim (Option-cases (first_where r db.participants)) [
        | inr (y, n) ↦ elim (Option-cases (membership db c u)) [
          | inl e ↦ absurd (
              omega (
                arith,
                count_of_none (is_member c u) db.participants e,
                count_of_found r (is_member c u) db.participants y n
                    (ground (arith, first_where_holds r db.participants y n)),
              ))
          | inr (p, e) ↦
              rw (exists_of_found r db.participants y n, e)
                (ground (
                  arith,
                  first_where_holds r db.participants y n,
                  first_where_holds (is_member c u) db.participants p e,
                  same_row (is_member c u) r (is_member c u) db.participants p y
                      (v.member_unique c u) e n,
                ))
        ]
        | inl n ↦
            rw (not_exists_of_count r db.participants (count_of_none r db.participants n))
              (elim (Option-cases (membership db c u)) [
                | inl e ↦ rw e refl
                | inr (p, e) ↦ elim (Option-cases p.left_at) [
                  | inr (t, l) ↦ rw (e, l) refl
                  | inl l ↦ absurd (
                      omega (
                        arith,
                        count_of_none r db.participants n,
                        count_of_found (is_member c u) r db.participants p e
                            (ground (arith, first_where_holds (is_member c u) db.participants p e)),
                      ))
                ]
              ])
      ]

  active_lem :
      exists (λ x. x == u) (user_ids (select (λ p. is_none p.left_at) (everyone db c)))
      ≡ is_some (active_membership db c u)
  active_lem =
      exists-user_ids u (select (λ p. is_none p.left_at) (everyone db c))
      ∙ exists_alike (λ p. p.user_id == u)
          (λ p. belongs_to c p && (is_none p.left_at && p.user_id == u))
          (select (λ p. is_none p.left_at) (everyone db c)) db.participants
          (count-select (λ p. p.user_id == u) (λ p. is_none p.left_at) (everyone db c)
            ∙ counted db v c c u (λ p. is_none p.left_at && p.user_id == u))
      ∙ active_count

module _ (k : Coercion) (now sender c : ℕ) (text : Text) (envelope : Envelope) (key_id : ℕ)
    (db db' : Db) (m : Message) (recipients : List ℕ) (v : IsValid db)
    (h : send k now sender c text envelope key_id db ≡ (ok (m, recipients), db')) where
  -- On valid tables, a message that is accepted is stored as sent: the ciphertext is the decoded
  -- text, the envelope is unchanged, and it is the one new row of the table.
  pub send_stores :
      (b64decode text ≡ some m.ciphertext)
      × (m.envelope ≡ envelope)
      × (m.sender_id ≡ sender)
      × (m.conversation_id ≡ c)
      × (db'.messages ≡ db.messages ++ m ∷ [])
  send_stores =
      let (may, cv, g, er, ed) =
        Sent-only_if k now sender c text envelope key_id db v (m, recipients) db' h in
      let em : m ≡ new_message now c sender key_id may.bytes envelope db.next_id =
        ap (λ r. r.0) er in
      (
        rw em may.decoded,
        rw em refl,
        rw em refl,
        rw em refl,
        rw (em, ed)
            (stamped-messages c now (
                revived c cv
                  (stored (new_message now c sender key_id may.bytes envelope db.next_id) db))
              ∙ revived-messages c cv
                  (stored (new_message now c sender key_id may.bytes envelope db.next_id) db)),
      )

  outcome :
      (cv : Conversation)
      → group_of db c ≡ some cv
      → (recipients ≡ to_whom db c cv)
        × (db'.participants ≡ (revived c cv (stored m db)).participants)
  outcome cv found =
      let (may, cv', g, er, ed) =
        Sent-only_if k now sender c text envelope key_id db v (m, recipients) db' h in
      let em : new_message now c sender key_id may.bytes envelope db.next_id ≡ m =
        ap (λ r. r.0) (sym er) in
      let same : cv' ≡ cv = ground arith in
      (
        ap (λ r. r.1) er ∙ ap (to_whom db c) same,
        ap (λ d. d.participants) ed
            ∙ stamped-participants c now (
                revived c cv'
                  (stored (new_message now c sender key_id may.bytes envelope db.next_id) db))
            ∙ ap (λ n. (revived c cv' (stored n db)).participants) em
            ∙ ap (λ w. (revived c w (stored m db)).participants) same,
      )

  -- On valid tables, a message that is accepted in a direct conversation goes to everyone with a
  -- membership and makes every membership of the conversation active; those of other conversations
  -- are as before.
  pub send_direct :
      (cv : Conversation)
      → group_of db c ≡ some cv
      → is_direct cv.type ≡ true
      → ((u : ℕ) → exists (λ x. x == u) recipients ≡ is_some (membership db c u))
        × ((u : ℕ) → membership db' c u ≡ Option.map (set_left_at none) (membership db c u))
        × ((c' u : ℕ) → c' ≢ c → membership db' c' u ≡ membership db c' u)
  send_direct cv found d =
      let w : IsValid (stored m db) =
        IsValid-irrelevant db (stored m db) refl refl (omega arith) v in
      let (er, ep) = outcome cv found in
      (
        (λ u. rw (er, d) (everyone_lem db v c u)),
        (λ u.
            ap (first_where (is_member c u)) (rw d at ep)
            ∙ memberships_revived (stored m db) w c c u),
        (λ c' u apart.
            ap (first_where (is_member c' u)) (rw d at ep)
            ∙ memberships_kept (stored m db) w c c' u apart),
      )

  -- On valid tables, a message that is accepted in a group goes to the active participants and
  -- changes no membership: who left or was removed stays out.
  pub send_group :
      (cv : Conversation)
      → group_of db c ≡ some cv
      → is_direct cv.type ≡ false
      → ((u : ℕ) → exists (λ x. x == u) recipients ≡ is_some (active_membership db c u))
        × (db'.participants ≡ db.participants)
  send_group cv found d =
      let (er, ep) = outcome cv found in ((λ u. rw (er, d) (active_lem db v c u)), rw d at ep)
