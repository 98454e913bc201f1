-- ===== src/Conversation/Inserts.antt =====
-- The two inserts of the conversation repository, by the constraints that they check.
use pqc_grade_a.Base.{
  ◌⊎◌, ℕ, ◌≤◌, ◌≡◌, ◌≢◌, refl, true, false, Option, none, some, List, [], ◌∷◌, ◌++◌, arith,
  first_where, exists, count, inl, inr, Bool-cases, Text, count_mono_one, exists-append,
  count_mono_none,
}
use pqc_grade_a.Errors.{integrity_error}
use pqc_grade_a.Db.{Db, Conversation, ConversationParticipant, ParticipantRole, ConversationType}
use pqc_grade_a.Exec.{ok, err, fresh_id}
use pqc_grade_a.Exec.Keeps.{Keeps}
use pqc_grade_a.Conversation.Repository
use pqc_grade_a.Conversation.Repository.{
  is_direct, has_id, is_user, belongs_to, is_member, is_direct_between, get_by_id, find_direct,
  get_participant, add_conversation, mark_left, mark_reactivated, delete, write_left_at,
}
use pqc_grade_a.Conversation.Invariant.{
  IsValid, insert_conversation, insert_participant, insert_participant-IsValid,
}

-- The row that `add_participant` inserts under the key `i`.
abbrev pub new_row : ℕ → ℕ → ℕ → Option ParticipantRole → ℕ → ConversationParticipant
new_row now c u role i = record {
  id = i;
  conversation_id = c;
  user_id = u;
  role = role;
  joined_at = now;
  left_at = none;
}

abbrev pub new_conversation : ℕ → ConversationType → Option Text → ℕ → ℕ → Conversation
new_conversation now kind name creator i = record {
  id = i;
  type = kind;
  name = name;
  created_by = creator;
  created_at = now;
  last_message_at = none;
}

-- An insert that a constraint refuses changes nothing.
module _ (now c u : ℕ) (role : Option ParticipantRole) (db : Db) where
  pub add_participant_cases :
      (Repository.add_participant now c u role db ≡ (err integrity_error, db))
      ⊎ ((exists (has_id c) db.conversations ≡ true)
          × (exists (is_user u) db.users ≡ true)
          × (exists (is_member c u) db.participants ≡ false)
          × (Repository.add_participant now c u role db ≡ (
            ok (new_row now c u role db.next_id),
            insert_participant (new_row now c u role db.next_id) db,
          )))
  unfolding Repository.add_participant fresh_id
  add_participant_cases = elim (Bool-cases (exists (has_id c) db.conversations)) [
    | inr e ↦ inl (rw e refl)
    | inl e ↦ elim (Bool-cases (exists (is_user u) db.users)) [
      | inr f ↦ inl (rw (e, f) refl)
      | inl f ↦ elim (Bool-cases (exists (is_member c u) db.participants)) [
        | inl g ↦ inl (rw (e, f, g) refl)
        | inr g ↦ inr (e, f, g, rw (e, f, g) refl)
      ]
    ]
  ]

module _ (now : ℕ) (kind : ConversationType) (name : Option Text) (creator : ℕ) (db : Db) where
  pub add_conversation_cases :
      (add_conversation now kind name creator db ≡ (err integrity_error, db))
      ⊎ ((exists (is_user creator) db.users ≡ true)
          × (add_conversation now kind name creator db ≡ (
            ok (new_conversation now kind name creator db.next_id),
            insert_conversation (new_conversation now kind name creator db.next_id) db,
          )))
  unfolding add_conversation fresh_id
  add_conversation_cases = elim (Bool-cases (exists (is_user creator) db.users)) [
    | inr e ↦ inl (rw e refl)
    | inl e ↦ inr (e, rw e refl)
  ]

abbrev pub IsGroup : ℕ → Db → Type 0
IsGroup c db =
    (cv : Conversation) × (first_where (has_id c) db.conversations ≡ some cv)
    × (is_direct cv.type ≡ false)

abbrev pub InGroup : ℕ → Db → Type 0
InGroup c db = IsValid db × IsGroup c db

-- A new row of a group makes no new pair of a direct conversation.
pub group_room :
    (c : ℕ) (p : ConversationParticipant) (db : Db)
    → InGroup c db
    → p.conversation_id ≡ c
    → (a b : ℕ) → a ≢ b
    → count (is_direct_between (db.participants ++ p ∷ []) a b) db.conversations ≤ 1
unfolding exists
group_room c p db (v, (cv, found, plain)) e a b ne = omega (
  arith,
  v.direct_unique a b ne,
  count_mono_one (is_direct_between (db.participants ++ p ∷ []) a b)
      (is_direct_between db.participants a b) (has_id c) db.conversations cv
      (v.conversation_unique c) found
      (λ x other h. ground (
        arith,
        exists-append (is_member x.id a) db.participants (p ∷ []),
        exists-append (is_member x.id b) db.participants (p ∷ []),
      ))
      (λ h. cc),
)

pub group_insert :
    (now c u : ℕ) (role : Option ParticipantRole)
    → Keeps (InGroup c) (Repository.add_participant now c u role)
group_insert now c u role = record {
  after = λ db h. elim (add_participant_cases now c u role db) [
    | inl e ↦ rw e h
    | inr (known, _, new, e) ↦ rw e (
      insert_participant-IsValid (new_row now c u role db.next_id) db refl h.0 known new
          (group_room c (new_row now c u role db.next_id) db h refl),
      h.1,
    )
  ];
}

-- A row of a conversation outside the list makes no pair in it.
pub old_pairs :
    (n : ℕ) (p : ConversationParticipant) (ps : List ConversationParticipant)
    (cs : List Conversation) (a b : ℕ)
    → count (has_id n) cs ≡ 0
    → p.conversation_id ≡ n
    → count (is_direct_between (ps ++ p ∷ []) a b) cs ≤ count (is_direct_between ps a b) cs
unfolding exists
old_pairs n p ps cs a b none_of e =
    count_mono_none (is_direct_between (ps ++ p ∷ []) a b) (is_direct_between ps a b) (has_id n) cs
      none_of
      (λ x other h. ground (
        arith,
        exists-append (is_member x.id a) ps (p ∷ []),
        exists-append (is_member x.id b) ps (p ∷ []),
      ))
