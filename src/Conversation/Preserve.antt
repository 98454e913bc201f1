-- ===== src/Conversation/Preserve.antt =====
-- Every method of the conversation service keeps the invariant, whether it returns or raises.
use pqc_grade_a.Base.{
  none_of_count, ℕ, ◌≡◌, ◌≢◌, refl, true, false, Option, none, some, List, [], ◌∷◌, arith, ◌==◌,
  first_where, exists, is_some, inl, inr, Bool-cases, Option-cases, Text, first_where-append,
  is_none, ==_iff,
}
use pqc_grade_a.Errors.{integrity_error, messaging, invalid_conversation_request}
use pqc_grade_a.Db.{
  Db, Conversation, ConversationParticipant, ParticipantRole, group, member, group_admin,
}
use pqc_grade_a.Exec.{ok, err, pure, ◌>>◌, for_each}
use pqc_grade_a.Exec.Keeps.{Keeps, Keeps-pure, Keeps-bind, Keeps-for_each}
use pqc_grade_a.Conversation.Repository
use pqc_grade_a.Conversation.Repository.{
  is_direct, has_id, is_user, belongs_to, is_member, is_direct_between, get_by_id, find_direct,
  get_participant, add_conversation, mark_left, mark_reactivated, delete, write_left_at,
}
use pqc_grade_a.Conversation.Service.{
  reuse_pair, create_direct, create_group, add_participant, remove_participant, delete_conversation,
  fill_group, other_members,
}
use pqc_grade_a.Conversation.Invariant.{
  IsValid, write_left_at-IsValid, delete-IsValid, insert_conversation, insert_conversation-IsValid,
}
use pqc_grade_a.Conversation.Pair.{create_pair_after}
use pqc_grade_a.Conversation.Inserts.{
  new_conversation, add_conversation_cases, InGroup, group_insert,
}
use pqc_grade_a.Conversation.Outcomes.{
  membership, active_membership, admin_membership, group_of, is_active, after_left,
  after_reactivated, mark_reactivated_lem, reuse_pair_absent, reuse_pair_present,
  create_direct_self, create_direct_found, create_direct_new,
}
use pqc_grade_a.Conversation.Branches.{
  add_participant_unknown, add_participant_direct, add_participant_denied, add_participant_active,
  add_participant_left, add_participant_new, remove_participant_unknown, remove_participant_direct,
  remove_participant_absent, remove_participant_denied, remove_participant_done,
  delete_conversation_unknown, delete_conversation_denied, delete_conversation_direct,
  delete_conversation_group,
}

after_left-IsValid :
    (now : ℕ) (p : ConversationParticipant) (db : Db) → IsValid db → IsValid (after_left now p db)
after_left-IsValid now p db v = elim (Bool-cases (is_none p.left_at)) [
  | inl e ↦ rw e (write_left_at-IsValid p.id (some now) db v)
  | inr e ↦ rw e v
]

pub after_reactivated-IsValid :
    (p : ConversationParticipant) (db : Db) → IsValid db → IsValid (after_reactivated p db)
after_reactivated-IsValid p db v = elim (Bool-cases (is_some p.left_at)) [
  | inl e ↦ rw e (write_left_at-IsValid p.id none db v)
  | inr e ↦ rw e v
]

pub mark_reactivated-Keeps : (p : ConversationParticipant) → Keeps IsValid (mark_reactivated p)
mark_reactivated-Keeps p = record {
  after = λ db v. rw (mark_reactivated_lem p db) (after_reactivated-IsValid p db v);
}

reuse_pair-Keeps :
    (creator : ℕ) (existing : Conversation) → Keeps IsValid (reuse_pair creator existing)
reuse_pair-Keeps creator existing = record {
  after = λ db v. elim (Option-cases (membership db existing.id creator)) [
    | inl e ↦ rw (reuse_pair_absent db v creator existing e) v
    | inr (p, e) ↦
        rw (reuse_pair_present db v creator existing p e) (after_reactivated-IsValid p db v)
  ];
}

create_direct_one :
    (now creator other : ℕ) (name : Option Text) (db : Db)
    → IsValid db
    → IsValid (create_direct now creator (other ∷ []) name db).1
create_direct_one now creator other name db v = elim (Bool-cases (other == creator)) [
  | inl same ↦ rw (create_direct_self now creator other name db ((==_iff other creator).0 same)) v
  | inr apart ↦
      let ne : other ≢ creator = ground arith in
      elim (Option-cases
        (first_where (is_direct_between db.participants creator other) db.conversations)) [
          | inl e ↦
              rw (create_direct_new now creator other name db ne e)
                (create_pair_after now creator other name db v ne e)
          | inr (existing, e) ↦
              rw (create_direct_found now creator other name db existing ne e)
                ((reuse_pair-Keeps creator existing).after db v)
        ]
]

pub create_direct-Keeps :
    (now creator : ℕ) (others : List ℕ) (name : Option Text)
    → Keeps IsValid (create_direct now creator others name)
create_direct-Keeps now creator [] name = record { after = λ db v. unfold create_direct in v }
create_direct-Keeps now creator (other ∷ []) name = record {
  after = λ db v. create_direct_one now creator other name db v;
}
create_direct-Keeps now creator (other ∷ another ∷ rest) name = record {
  after = λ db v. unfold create_direct in v;
}

-- In a group, inserting a member is one case of `group_insert`.
add_participant_group :
    (now c actor target : ℕ) (db : Db) (cv : Conversation)
    → IsValid db
    → group_of db c ≡ some cv
    → is_direct cv.type ≡ false
    → IsValid (add_participant now c actor target db).1
add_participant_group now c actor target db cv v e d =
    elim (Option-cases (admin_membership db c actor)) [
      | inl n ↦ rw (add_participant_denied now c actor target db v cv e d n) v
      | inr (admin, n) ↦ elim (Option-cases (membership db c target)) [
        | inl m ↦
            rw (add_participant_new now c actor target db v cv admin e d n m)
              ((group_insert now c target (some member)).after db (v, (cv, e, d))).0
        | inr (p, m) ↦ elim (Bool-cases (is_active p)) [
          | inl a ↦ rw (add_participant_active now c actor target db v cv admin p e d n m a) v
          | inr a ↦
              rw (add_participant_left now c actor target db v cv admin p e d n m a)
                (after_reactivated-IsValid p db v)
        ]
      ]
    ]

pub add_participant-Keeps :
    (now c actor target : ℕ) → Keeps IsValid (add_participant now c actor target)
add_participant-Keeps now c actor target = record {
  after = λ db v. elim (Option-cases (group_of db c)) [
    | inl e ↦ rw (add_participant_unknown now c actor target db v e) v
    | inr (cv, e) ↦ elim (Bool-cases (is_direct cv.type)) [
      | inl d ↦ rw (add_participant_direct now c actor target db v cv e d) v
      | inr d ↦ add_participant_group now c actor target db cv v e d
    ]
  ];
}

remove_participant_group :
    (now c actor target : ℕ) (db : Db) (cv : Conversation) (p : ConversationParticipant)
    → IsValid db
    → group_of db c ≡ some cv
    → is_direct cv.type ≡ false
    → active_membership db c target ≡ some p
    → IsValid (remove_participant now c actor target db).1
remove_participant_group now c actor target db cv p v e d m = elim (Bool-cases (actor == target)) [
  | inl same ↦
      rw
        (remove_participant_done now c actor target db v cv p e d m
          (inl ((==_iff actor target).0 same)))
        (after_left-IsValid now p db v)
  | inr apart ↦
      let ne : actor ≢ target = ground arith in
      elim (Option-cases (admin_membership db c actor)) [
        | inl n ↦ rw (remove_participant_denied now c actor target db v cv p e d m ne n) v
        | inr admin ↦
            rw (remove_participant_done now c actor target db v cv p e d m (inr admin))
              (after_left-IsValid now p db v)
      ]
]

pub remove_participant-Keeps :
    (now c actor target : ℕ) → Keeps IsValid (remove_participant now c actor target)
remove_participant-Keeps now c actor target = record {
  after = λ db v. elim (Option-cases (group_of db c)) [
    | inl e ↦ rw (remove_participant_unknown now c actor target db v e) v
    | inr (cv, e) ↦ elim (Bool-cases (is_direct cv.type)) [
      | inl d ↦ rw (remove_participant_direct now c actor target db v cv e d) v
      | inr d ↦ elim (Option-cases (active_membership db c target)) [
        | inl m ↦ rw (remove_participant_absent now c actor target db v cv e d m) v
        | inr (p, m) ↦ remove_participant_group now c actor target db cv p v e d m
      ]
    ]
  ];
}

pub delete_conversation-Keeps :
    (now requester i : ℕ) → Keeps IsValid (delete_conversation now requester i)
delete_conversation-Keeps now requester i = record {
  after = λ db v. elim (Option-cases (group_of db i)) [
    | inl e ↦ rw (delete_conversation_unknown now requester i db v e) v
    | inr (cv, e) ↦ elim (Option-cases (active_membership db i requester)) [
      | inl n ↦ rw (delete_conversation_denied now requester i db v cv e n) v
      | inr (p, n) ↦ elim (Bool-cases (is_direct cv.type)) [
        | inl d ↦
            rw (delete_conversation_direct now requester i db v cv p e n d) (delete-IsValid i db v)
        | inr d ↦
            rw (delete_conversation_group now requester i db v cv p e n d)
              (after_left-IsValid now p db v)
      ]
    ]
  ];
}

add_member-Keeps :
    (now c u : ℕ) (role : Option ParticipantRole)
    → Keeps (InGroup c) (Repository.add_participant now c u role >> pure tt)
add_member-Keeps now c u role =
    Keeps-bind (Repository.add_participant now c u role) (λ _. pure tt) (group_insert now c u role)
      (λ _. Keeps-pure tt)

fill_group-Keeps :
    (now : ℕ) (c : Conversation) (creator : ℕ) (others : List ℕ)
    → Keeps (InGroup c.id) (fill_group now c creator others)
unfolding fill_group
fill_group-Keeps now c creator others =
    Keeps-bind (Repository.add_participant now c.id creator (some group_admin))
      (λ _.
        for_each others (λ u. Repository.add_participant now c.id u (some member) >> pure tt)
        >> pure c)
      (group_insert now c.id creator (some group_admin))
      λ _.
        Keeps-bind
          (for_each others (λ u. Repository.add_participant now c.id u (some member) >> pure tt))
          (λ _. pure c) (Keeps-for_each others _ (λ u. add_member-Keeps now c.id u (some member)))
          (λ _. Keeps-pure c)

new_group :
    (now creator : ℕ) (name : Option Text) (db : Db)
    → IsValid db
    → InGroup db.next_id
        (insert_conversation (new_conversation now group name creator db.next_id) db)
unfolding first_where
new_group now creator name db v =
    let cv : Conversation = new_conversation now group name creator db.next_id in
    (
      insert_conversation-IsValid cv db refl v,
      (
        cv,
        ground (
          arith,
          first_where-append (has_id db.next_id) db.conversations (cv ∷ []),
          none_of_count (has_id db.next_id) db.conversations
              (v.conversation_bound db.next_id (omega arith)),
        ),
        refl,
      ),
    )

module _ (now creator : ℕ) (ids : List ℕ) (name : Text) (db : Db) where
  pub create_group_empty :
      exists (λ u. true) (other_members creator ids) ≡ false
      → create_group now creator ids name db ≡ (err (messaging invalid_conversation_request), db)
  unfolding create_group
  create_group_empty e = ground arith

  pub create_group_refused :
      exists (λ u. true) (other_members creator ids) ≡ true
      → add_conversation now group (some name) creator db ≡ (err integrity_error, db)
      → create_group now creator ids name db ≡ (err integrity_error, db)
  unfolding create_group
  create_group_refused e f = ground arith

  pub create_group_filled :
      (c : Conversation) (db1 : Db)
      → exists (λ u. true) (other_members creator ids) ≡ true
      → add_conversation now group (some name) creator db ≡ (ok c, db1)
      → create_group now creator ids name db
        ≡ fill_group now c creator (other_members creator ids) db1
  unfolding create_group
  create_group_filled c db1 e f = ground arith

pub create_group-Keeps :
    (now creator : ℕ) (ids : List ℕ) (name : Text)
    → Keeps IsValid (create_group now creator ids name)
create_group-Keeps now creator ids name = record {
  after = λ db v. elim (Bool-cases (exists (λ u. true) (other_members creator ids))) [
    | inr e ↦ rw (create_group_empty now creator ids name db e) v
    | inl e ↦ elim (add_conversation_cases now group (some name) creator db) [
      | inl f ↦ rw (create_group_refused now creator ids name db e f) v
      | inr (_, f) ↦
          rw (create_group_filled now creator ids name db _ _ e f)
            ((fill_group-Keeps now (new_conversation now group (some name) creator db.next_id)
                creator (other_members creator ids)).after
              _ (new_group now creator (some name) db v)).0
    ]
  ];
}
