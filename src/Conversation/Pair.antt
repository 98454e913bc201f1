-- ===== src/Conversation/Pair.antt =====
-- `create_direct` for a pair with no conversation: each of its three inserts keeps the invariant.
use pqc_grade_a.Base.{
  none_of_count, ◌⊎◌, ℕ, ◌+◌, ◌≤◌, ◌≡◌, ◌≢◌, refl, true, false, ◌||◌, Option, none, some, [], ◌∷◌,
  ◌++◌, arith, ◌==◌, first_where, exists, count, inl, inr, Bool-cases, Text, exists-append,
  first_where-append, sym, ==_iff, count_of_none, count-append, count_mono,
}
use pqc_grade_a.Errors.{integrity_error}
use pqc_grade_a.Db.{Db, Conversation, ConversationParticipant, direct}
use pqc_grade_a.Exec.{ok, err}
use mathlib.Core.Path.{subst₂}
use pqc_grade_a.Exec.Keeps.{returns_once}
use pqc_grade_a.Conversation.Repository.{has_id, is_member, is_direct_between}
use pqc_grade_a.Conversation.Service.{create_pair}
use pqc_grade_a.Conversation.Invariant.{
  IsValid, insert_conversation, insert_participant, no_member, insert_conversation-IsValid,
  insert_participant-IsValid,
}
use pqc_grade_a.Conversation.Inserts.{
  new_row, new_conversation, add_participant_cases, add_conversation_cases, old_pairs,
}

-- The three inserts of a new pair, from a valid database in which the pair has no conversation.
module _ (now creator other : ℕ) (name : Option Text) (db : Db) (v : IsValid db)
    (ne : other ≢ creator)
    (alone : first_where (is_direct_between db.participants creator other) db.conversations
      ≡ none) where
  abbrev key : ℕ
  key = db.next_id

  abbrev db1 : Db
  db1 = insert_conversation (new_conversation now direct name creator key) db

  abbrev row1 : ConversationParticipant
  row1 = new_row now key creator none (key + 1)

  abbrev db2 : Db
  db2 = insert_participant row1 db1

  abbrev row2 : ConversationParticipant
  row2 = new_row now key other none (key + 1 + 1)

  abbrev db3 : Db
  db3 = insert_participant row2 db2

  db1-IsValid : IsValid db1
  db1-IsValid = insert_conversation-IsValid (new_conversation now direct name creator key) db refl v

  unused : (u : ℕ) → exists (is_member key u) db.participants ≡ false
  unused = no_member (new_conversation now direct name creator key) db refl v

  key_new : count (has_id key) db.conversations ≡ 0
  key_new = v.conversation_bound key (omega arith)

  room1 :
      (a b : ℕ)
      → a ≢ b
      → count (is_direct_between (db.participants ++ row1 ∷ []) a b) db1.conversations ≤ 1
  unfolding exists count
  room1 a b d = ground (
    arith,
    v.direct_unique a b d,
    unused a,
    unused b,
    old_pairs key row1 db.participants db.conversations a b key_new refl,
    exists-append (is_member key a) db.participants (row1 ∷ []),
    exists-append (is_member key b) db.participants (row1 ∷ []),
    count-append (is_direct_between (db.participants ++ row1 ∷ []) a b) db.conversations
        (new_conversation now direct name creator key ∷ []),
  )

  member_key :
      (u : ℕ)
      → exists (is_member key u) (db2.participants ++ row2 ∷ []) ≡ (creator == u || other == u)
  unfolding exists
  member_key u = ground (
    arith,
    unused u,
    exists-append (is_member key u) db.participants (row1 ∷ []),
    exists-append (is_member key u) (db.participants ++ row1 ∷ []) (row2 ∷ []),
  )

  none_before : count (is_direct_between db.participants creator other) db.conversations ≡ 0
  none_before =
      count_of_none (is_direct_between db.participants creator other) db.conversations alone

  none_swapped : count (is_direct_between db.participants other creator) db.conversations ≡ 0
  none_swapped = omega (
    arith,
    none_before,
    count_mono (is_direct_between db.participants other creator)
        (is_direct_between db.participants creator other) db.conversations (λ x h. ground arith),
  )

  none_of_both :
      (a b : ℕ)
      → a ≢ b
      → (creator == a || other == a) ≡ true
      → (creator == b || other == b) ≡ true
      → count (is_direct_between db.participants a b) db.conversations ≡ 0
  none_of_both a b d ha hb = elim (Bool-cases (creator == a)) [
    | inl p ↦
        let e : other ≡ b = ground arith in rw (sym ((==_iff creator a).0 p), sym e) none_before
    | inr p ↦
        let e : other ≡ a = ground arith in
        let f : creator ≡ b = ground arith in rw (sym e, sym f) none_swapped
  ]

  room2 :
      (a b : ℕ)
      → a ≢ b
      → count (is_direct_between (db2.participants ++ row2 ∷ []) a b) db2.conversations ≤ 1
  unfolding count
  room2 a b d = ground (
    arith,
    v.direct_unique a b d,
    member_key a,
    member_key b,
    none_of_both a b d,
    old_pairs key row1 db.participants db.conversations a b key_new refl,
    old_pairs key row2 (db.participants ++ row1 ∷ []) db.conversations a b key_new refl,
    count-append (is_direct_between (db2.participants ++ row2 ∷ []) a b) db.conversations
        (new_conversation now direct name creator key ∷ []),
  )

  db2-IsValid : exists (has_id key) db1.conversations ≡ true → IsValid db2
  db2-IsValid known =
      insert_participant-IsValid row1 db1 refl db1-IsValid known (unused creator) room1

  -- After the inserts no earlier conversation is one of the pair.
  pairs_old :
      count (is_direct_between (db2.participants ++ row2 ∷ []) creator other) db.conversations ≡ 0
  pairs_old = omega (
    arith,
    none_before,
    old_pairs key row1 db.participants db.conversations creator other key_new refl,
    old_pairs key row2 (db.participants ++ row1 ∷ []) db.conversations creator other key_new refl,
  )

  -- The outcomes of the three inserts: a refused one raises and leaves those before it.
  create_pair_cases :
      ((create_pair now creator other name db ≡ (err integrity_error, db))
        ⊎ ((exists (has_id key) db1.conversations ≡ true)
            × (create_pair now creator other name db ≡ (err integrity_error, db2))))
      ⊎ ((create_pair now creator other name db ≡ (err integrity_error, db1))
          ⊎ ((exists (has_id key) db1.conversations ≡ true)
              × (exists (is_member key other) db2.participants ≡ false)
              × (create_pair now creator other name db
                  ≡ (ok (new_conversation now direct name creator key), db3))))
  unfolding create_pair
  create_pair_cases = elim (add_conversation_cases now direct name creator db) [
    | inl e ↦ inl (inl (ground arith))
    | inr (_, e) ↦ elim (add_participant_cases now key creator none db1) [
      | inl f ↦ inr (inl (ground arith))
      | inr (known, _, new, f) ↦ elim (add_participant_cases now key other none db2) [
        | inl g ↦ inl (inr (known, ground arith))
        | inr (known2, _, new2, g) ↦ inr (inr (known, new2, ground arith))
      ]
    ]
  ]

  pub create_pair_after : IsValid (create_pair now creator other name db).1
  create_pair_after = elim create_pair_cases [
    | inl (inl e) ↦ rw e v
    | inl (inr (known, e)) ↦ rw e (db2-IsValid known)
    | inr (inl e) ↦ rw e db1-IsValid
    | inr (inr (known, new, e)) ↦
        rw e (insert_participant-IsValid row2 db2 refl (db2-IsValid known) known new room2)
  ]

  abbrev Made : Conversation → Db → Type 0
  Made cv db' =
      (first_where (is_direct_between db'.participants creator other) db'.conversations ≡ some cv)
      × (db'.conversations ≡ db.conversations ++ cv ∷ [])
      × (cv.id ≡ db.next_id)

  Made-db3 : Made (new_conversation now direct name creator key) db3
  unfolding first_where
  Made-db3 =
      let cv : Conversation = new_conversation now direct name creator key in
      (
        ground (
          arith,
          member_key creator,
          member_key other,
          first_where-append (is_direct_between (db2.participants ++ row2 ∷ []) creator other)
              db.conversations (cv ∷ []),
          none_of_count (is_direct_between (db2.participants ++ row2 ∷ []) creator other)
              db.conversations pairs_old,
        ),
        refl,
        refl,
      )

  -- The new conversation is the pair's, stands behind all others, and has the key drawn first.
  pub create_pair-Made :
      (cv : Conversation) (db' : Db)
      → create_pair now creator other name db ≡ (ok cv, db')
      → Made cv db'
  create_pair-Made cv db' h = elim create_pair_cases [
    | inl (inl e) ↦ cc
    | inl (inr (_, e)) ↦ cc
    | inr (inl e) ↦ cc
    | inr (inr (_, _, e)) ↦
        let (c, d) = returns_once (create_pair now creator other name db) _ cv db3 db' e h in
        subst₂ Made (sym c) (sym d) Made-db3
  ]
