-- ===== src/Conversation/Invariant.antt =====
-- The constraints that the tables of conversations and participants keep, and how the primitive
-- updates of the repository preserve them.
use pqc_grade_a.Base.{
  sym, ◌∙◌, inl, inr, Bool-cases, ℕ, ◌+◌, ◌≤◌, ◌≡◌, ◌≢◌, refl, Bool, true, false, ◌&&◌, Option,
  some, [], ◌∷◌, ◌++◌, arith, ◌==◌, exists, count, update_where, delete_where, count-append,
  count-update_where, exists-update_where, count-delete_where_le, count-delete_where_gone,
  count_mono, exists_of_count, count_of_not_exists, count-delete_where_other, exists-delete_where,
  not_exists_of_count,
}
use pqc_grade_a.Db.{Db, Conversation, ConversationParticipant}
use pqc_grade_a.Conversation.Repository.{
  has_id, belongs_to, is_member, is_row, is_direct_between, set_left_at, write_left_at, is_later,
  update_last_message_at, delete,
}

pub record IsValid (db : Db) : Type 0 where
  -- `uq_conversation_participant` and the primary keys
  pub member_unique : (c u : ℕ) → count (is_member c u) db.participants ≤ 1
  pub row_unique : (i : ℕ) → count (is_row i) db.participants ≤ 1
  pub conversation_unique : (i : ℕ) → count (has_id i) db.conversations ≤ 1
  -- the keys still to be drawn are not in use
  pub row_bound : (i : ℕ) → db.next_id ≤ i → count (is_row i) db.participants ≡ 0
  pub conversation_bound : (i : ℕ) → db.next_id ≤ i → count (has_id i) db.conversations ≡ 0
  -- the foreign key from a participant to its conversation
  pub participant_known :
      (c : ℕ) → count (has_id c) db.conversations ≡ 0 → count (belongs_to c) db.participants ≡ 0
  -- FR-056: a pair of users has one direct conversation at most
  pub direct_unique :
      (a b : ℕ) → a ≢ b → count (is_direct_between db.participants a b) db.conversations ≤ 1

-- Another database with the same conversations and participants, up to their keys drawn.
pub IsValid-irrelevant :
    (db db' : Db)
    → db'.conversations ≡ db.conversations
    → db'.participants ≡ db.participants
    → db.next_id ≤ db'.next_id
    → IsValid db
    → IsValid db'
IsValid-irrelevant db db' ec ep en v = record {
  member_unique = λ c u. rw ep (v.member_unique c u);
  row_unique = λ i. rw ep (v.row_unique i);
  conversation_unique = λ i. rw ec (v.conversation_unique i);
  row_bound = λ i h. rw ep (v.row_bound i (omega arith));
  conversation_bound = λ i h. rw ec (v.conversation_bound i (omega arith));
  participant_known = λ c h. rw ep (v.participant_known c (rw ec at h));
  direct_unique = λ a b ne. rw (ep, ec) (v.direct_unique a b ne);
}

module _ (i : ℕ) (t : Option ℕ) (db : Db) where
  same_members :
      (p : ConversationParticipant → Bool)
      → ((x : ConversationParticipant) → p (set_left_at t x) ≡ p x)
      → count p (write_left_at i t db).participants ≡ count p db.participants
  same_members p h = count-update_where p (is_row i) (set_left_at t) db.participants h

  pub same_pairs :
      (a b : ℕ) (c : Conversation)
      → is_direct_between (write_left_at i t db).participants a b c
        ≡ is_direct_between db.participants a b c
  same_pairs a b c = rw (
    exists-update_where (is_member c.id a) (is_row i) (set_left_at t) db.participants (λ x. refl),
    exists-update_where (is_member c.id b) (is_row i) (set_left_at t) db.participants (λ x. refl),
  )

  -- Leaving and coming back change no key and no pair.
  pub write_left_at-IsValid : IsValid db → IsValid (write_left_at i t db)
  write_left_at-IsValid v = record {
    member_unique = λ c u. rw (same_members (is_member c u) (λ x. refl)) (v.member_unique c u);
    row_unique = λ j. rw (same_members (is_row j) (λ x. refl)) (v.row_unique j);
    conversation_unique = v.conversation_unique;
    row_bound = λ j h. rw (same_members (is_row j) (λ x. refl)) (v.row_bound j h);
    conversation_bound = v.conversation_bound;
    participant_known =
        λ c h. rw (same_members (belongs_to c) (λ x. refl)) (v.participant_known c h);
    direct_unique = λ a b ne. omega (
      arith,
      v.direct_unique a b ne,
      count_mono (is_direct_between (write_left_at i t db).participants a b)
          (is_direct_between db.participants a b) db.conversations
          (λ c h. rw (same_pairs a b c) at h),
    );
  }

module _ (i t : ℕ) (db : Db) where
  stamp : Conversation → Conversation
  stamp c = record c { last_message_at = some t }

  stamped : Conversation → Bool
  stamped c = has_id i c && is_later t c

  same_conversations :
      (p : Conversation → Bool)
      → ((c : Conversation) → p (stamp c) ≡ p c)
      → count p (update_where stamped stamp db.conversations) ≡ count p db.conversations
  same_conversations p h = count-update_where p stamped stamp db.conversations h

  pub update_last_message_at-IsValid : IsValid db → IsValid (update_last_message_at i t db).1
  unfolding update_last_message_at stamp stamped
  update_last_message_at-IsValid v = record {
    member_unique = v.member_unique;
    row_unique = v.row_unique;
    conversation_unique =
        λ j. rw (same_conversations (has_id j) (λ c. refl)) (v.conversation_unique j);
    row_bound = v.row_bound;
    conversation_bound =
        λ j h. rw (same_conversations (has_id j) (λ c. refl)) (v.conversation_bound j h);
    participant_known =
        λ j h. v.participant_known j (rw (same_conversations (has_id j) (λ c. refl)) at h);
    direct_unique = λ a b ne.
        rw (same_conversations (is_direct_between db.participants a b) (λ c. refl))
          (v.direct_unique a b ne);
  }

module _ (i : ℕ) (db : Db) where
  pairs_after_delete :
      (a b : ℕ) (c : Conversation)
      → is_direct_between (delete_where (belongs_to i) db.participants) a b c ≡ true
      → is_direct_between db.participants a b c ≡ true
  pairs_after_delete a b c h = ground (
    arith,
    exists-delete_where (is_member c.id a) (belongs_to i) db.participants,
    exists-delete_where (is_member c.id b) (belongs_to i) db.participants,
  )

  known_after_delete :
      (v : IsValid db) (c : ℕ)
      → count (has_id c) (delete_where (has_id i) db.conversations) ≡ 0
      → count (belongs_to c) (delete_where (belongs_to i) db.participants) ≡ 0
  known_after_delete v c h = elim (Bool-cases (c == i)) [
    | inl same ↦
        count-delete_where_gone (belongs_to c) (belongs_to i) db.participants (λ x e. ground arith)
    | inr other ↦ omega (
      arith,
      count-delete_where_le (belongs_to c) (belongs_to i) db.participants,
      v.participant_known c (
          sym
            (count-delete_where_other (has_id c) (has_id i) db.conversations (λ x e. ground arith))
          ∙ h),
    )
  ]

  pub delete-IsValid : IsValid db → IsValid (delete i db).1
  unfolding delete
  delete-IsValid v = record {
    member_unique = λ c u. omega (
      arith,
      v.member_unique c u,
      count-delete_where_le (is_member c u) (belongs_to i) db.participants,
    );
    row_unique = λ j.
        omega
          (arith, v.row_unique j, count-delete_where_le (is_row j) (belongs_to i) db.participants);
    conversation_unique = λ j. omega (
      arith,
      v.conversation_unique j,
      count-delete_where_le (has_id j) (has_id i) db.conversations,
    );
    row_bound = λ j h.
        omega
          (arith, v.row_bound j h, count-delete_where_le (is_row j) (belongs_to i) db.participants);
    conversation_bound = λ j h. omega (
      arith,
      v.conversation_bound j h,
      count-delete_where_le (has_id j) (has_id i) db.conversations,
    );
    participant_known = known_after_delete v;
    direct_unique = λ a b ne. omega (
      arith,
      v.direct_unique a b ne,
      count_mono (is_direct_between (delete_where (belongs_to i) db.participants) a b)
          (is_direct_between db.participants a b) (delete_where (has_id i) db.conversations)
          (pairs_after_delete a b),
      count-delete_where_le (is_direct_between db.participants a b) (has_id i) db.conversations,
    );
  }

-- The states after the two inserts.
abbrev pub insert_conversation : Conversation → Db → Db
insert_conversation c db = record db {
  conversations = db.conversations ++ c ∷ [];
  next_id = db.next_id + 1;
}

abbrev pub insert_participant : ConversationParticipant → Db → Db
insert_participant p db = record db {
  participants = db.participants ++ p ∷ [];
  next_id = db.next_id + 1;
}

module _ (cv : Conversation) (db : Db) (fresh : cv.id ≡ db.next_id) (v : IsValid db) where
  pub no_member : (u : ℕ) → exists (is_member cv.id u) db.participants ≡ false
  no_member u = not_exists_of_count (is_member cv.id u) db.participants (
      omega (
        arith,
        v.participant_known cv.id (v.conversation_bound cv.id (omega arith)),
        count_mono (is_member cv.id u) (belongs_to cv.id) db.participants (λ x e. ground arith),
      ))

  pub insert_conversation-IsValid : IsValid (insert_conversation cv db)
  unfolding count
  insert_conversation-IsValid = record {
    member_unique = v.member_unique;
    row_unique = v.row_unique;
    conversation_unique = λ i. ground (
      arith,
      v.conversation_unique i,
      v.conversation_bound i,
      count-append (has_id i) db.conversations (cv ∷ []),
    );
    row_bound = λ i h. v.row_bound i (omega arith);
    conversation_bound = λ i h.
        ground (arith, v.conversation_bound i, count-append (has_id i) db.conversations (cv ∷ []));
    participant_known = λ i h.
        v.participant_known i (omega (arith, count-append (has_id i) db.conversations (cv ∷ [])));
    direct_unique = λ a b ne. ground (
      arith,
      v.direct_unique a b ne,
      no_member a,
      count-append (is_direct_between db.participants a b) db.conversations (cv ∷ []),
    );
  }

module _ (p : ConversationParticipant) (db : Db) (fresh : p.id ≡ db.next_id) where
  pub insert_participant-IsValid :
      IsValid db
      → exists (has_id p.conversation_id) db.conversations ≡ true
      → exists (is_member p.conversation_id p.user_id) db.participants ≡ false
      → ((a b : ℕ)
          → a ≢ b
          → count (is_direct_between (db.participants ++ p ∷ []) a b) db.conversations ≤ 1)
      → IsValid (insert_participant p db)
  unfolding count
  insert_participant-IsValid v known new room = record {
    member_unique = λ c u. ground (
      arith,
      v.member_unique c u,
      count-append (is_member c u) db.participants (p ∷ []),
      count_of_not_exists (is_member p.conversation_id p.user_id) db.participants new,
    );
    row_unique = λ i.
        ground
          (arith, v.row_unique i, v.row_bound i, count-append (is_row i) db.participants (p ∷ []));
    conversation_unique = v.conversation_unique;
    row_bound =
        λ i h. ground (arith, v.row_bound i, count-append (is_row i) db.participants (p ∷ []));
    conversation_bound = λ i h. v.conversation_bound i (omega arith);
    participant_known = λ c h. ground (
      arith,
      v.participant_known c h,
      count-append (belongs_to c) db.participants (p ∷ []),
      exists_of_count (has_id p.conversation_id) db.conversations known,
    );
    direct_unique = room;
  }
