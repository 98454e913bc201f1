-- ===== src/Conversation/PairCount.antt =====
-- How many direct conversations a pair has, before and after `create_pair`.
use pqc_grade_a.Base.{
  ℕ, suc, ◌+◌, ◌≤◌, ◌≡◌, ◌≢◌, refl, Bool, true, false, ◌||◌, Option, none, List, [], ◌∷◌, ◌++◌,
  arith, ◌==◌, exists, count, Text, count_mono, exists-append, count-append,
}
use pqc_grade_a.Db.{Db, Conversation, ConversationParticipant, direct}
use pqc_grade_a.Exec.{ok, fresh_id}
use pqc_grade_a.Conversation.Repository
use pqc_grade_a.Conversation.Repository.{
  has_id, is_user, is_member, is_direct, is_direct_between, find_direct, add_conversation,
}
use pqc_grade_a.Conversation.Service.{create_pair}
use pqc_grade_a.Conversation.Invariant.{IsValid, no_member, insert_conversation, insert_participant}
use pqc_grade_a.Conversation.Inserts.{new_conversation, new_row, old_pairs}

-- The conversations in which both users have a membership.
abbrev pub pairs : Db → ℕ → ℕ → ℕ
pairs db a b = count (is_direct_between db.participants a b) db.conversations

count_same :
    (p q : Conversation → Bool) (cs : List Conversation)
    → ((c : Conversation) → p c ≡ q c)
    → count p cs ≡ count q cs
unfolding count
count_same p q [] h = refl
count_same p q (c ∷ cs) h = ground (arith, h c, count_same p q cs h)

more_pairs :
    (n : ℕ) (p : ConversationParticipant) (ps : List ConversationParticipant)
    (cs : List Conversation) (a b : ℕ)
    → count (is_direct_between ps a b) cs ≤ count (is_direct_between (ps ++ p ∷ []) a b) cs
unfolding exists
more_pairs n p ps cs a b =
    count_mono (is_direct_between ps a b) (is_direct_between (ps ++ p ∷ []) a b) cs (λ x h. ground (
      arith,
      exists-append (is_member x.id a) ps (p ∷ []),
      exists-append (is_member x.id b) ps (p ∷ []),
    ))

module _ (now creator other : ℕ) (name : Option Text) (db : Db) where
  abbrev pub made : Conversation
  made = new_conversation now direct name creator db.next_id

  abbrev row1 : ConversationParticipant
  row1 = new_row now db.next_id creator none (db.next_id + 1)

  abbrev row2 : ConversationParticipant
  row2 = new_row now db.next_id other none (db.next_id + 1 + 1)

  abbrev pub paired : Db
  paired = insert_participant row2 (insert_participant row1 (insert_conversation made db))

  module _ (v : IsValid db) (ne : other ≢ creator) where
    unused : (u : ℕ) → exists (is_member db.next_id u) db.participants ≡ false
    unused = no_member made db refl v

    -- With both users known, all three inserts pass.
    pub create_pair_runs :
        exists (is_user creator) db.users ≡ true
        → exists (is_user other) db.users ≡ true
        → create_pair now creator other name db ≡ (ok made, paired)
    unfolding create_pair add_conversation Repository.add_participant fresh_id exists
    create_pair_runs hc ho = ground (
      arith,
      unused creator,
      unused other,
      exists-append (has_id db.next_id) db.conversations (made ∷ []),
      exists-append (is_member db.next_id other) db.participants (row1 ∷ []),
    )

    both :
        (u : ℕ) → exists (is_member db.next_id u) paired.participants ≡ (creator == u || other == u)
    unfolding exists
    both u = ground (
      arith,
      unused u,
      exists-append (is_member db.next_id u) db.participants (row1 ∷ []),
      exists-append (is_member db.next_id u) (db.participants ++ row1 ∷ []) (row2 ∷ []),
    )

    -- Whatever there was before, the pair has one conversation more.
    pub pairs-paired : pairs paired creator other ≡ suc (pairs db creator other)
    unfolding count
    pairs-paired =
        let fresh : count (has_id db.next_id) db.conversations ≡ 0 =
          v.conversation_bound db.next_id (omega arith) in
        ground (
          arith,
          both creator,
          both other,
          old_pairs db.next_id row1 db.participants db.conversations creator other fresh refl,
          old_pairs db.next_id row2 (db.participants ++ row1 ∷ []) db.conversations creator other
              fresh refl,
          more_pairs db.next_id row1 db.participants db.conversations creator other,
          more_pairs db.next_id row2 (db.participants ++ row1 ∷ []) db.conversations creator other,
          count-append (is_direct_between paired.participants creator other) db.conversations
              (made ∷ []),
        )

-- The order of the two users does not show.
pub pairs_swap : (db : Db) (a b : ℕ) → pairs db a b ≡ pairs db b a
pairs_swap db a b =
    count_same (is_direct_between db.participants a b) (is_direct_between db.participants b a)
      db.conversations (λ c. ground arith)
