-- ===== src/Conversation/Direct.antt =====
-- `create_direct` as get-or-create by pair (FR-056).
use pqc_grade_a.Base.{
  ℕ, ◌≡◌, ◌≢◌, refl, sym, ◌∙◌, ap, Bool, Option, none, some, List, [], ◌∷◌, arith, ◌==◌, ==_iff,
  first_where, is_some, inl, inr, Bool-cases, Option-cases, Text, length,
}
use mathlib.Core.Path.{subst}
use pqc_grade_a.Db.{Db, Conversation, ConversationParticipant}
use pqc_grade_a.Exec.{Result, ok}
use pqc_grade_a.Exec.Keeps.{returns_once}
use pqc_grade_a.Conversation.Preserve.{create_direct-Keeps}
use pqc_grade_a.Conversation.Repository.{is_direct_between, write_left_at}
use pqc_grade_a.Conversation.Service.{create_direct, reuse_pair}
use pqc_grade_a.Conversation.Invariant.{IsValid, same_pairs}
use pqc_grade_a.Conversation.Outcomes.{
  membership, after_reactivated, reuse_pair_absent, reuse_pair_present, create_direct_self,
  create_direct_found, create_direct_new,
}
use pqc_grade_a.Conversation.Pair.{create_pair-Made}

-- The direct conversation of a pair, which `find_direct` returns.
abbrev pub pair_of : Db → ℕ → ℕ → Option Conversation
pair_of db a b = first_where (is_direct_between db.participants a b) db.conversations

first_where_same :
    (p q : Conversation → Bool) (cs : List Conversation)
    → ((c : Conversation) → p c ≡ q c)
    → first_where p cs ≡ first_where q cs
unfolding first_where
first_where_same p q [] h = refl
first_where_same p q (c ∷ cs) h = ground (arith, h c, first_where_same p q cs h)

-- Neither the order of the two users nor a change of `left_at` shows in the pair.
pub pair_of_swap : (db : Db) (a b : ℕ) → pair_of db a b ≡ pair_of db b a
pair_of_swap db a b =
    first_where_same (is_direct_between db.participants a b) (is_direct_between db.participants b a)
      db.conversations (λ c. ground arith)

pair_of-write_left_at :
    (i : ℕ) (t : Option ℕ) (db : Db) (a b : ℕ) → pair_of (write_left_at i t db) a b ≡ pair_of db a b
pair_of-write_left_at i t db a b =
    first_where_same (is_direct_between (write_left_at i t db).participants a b)
      (is_direct_between db.participants a b) db.conversations (same_pairs i t db a b)

pair_of-after_reactivated :
    (p : ConversationParticipant) (db : Db) (a b : ℕ)
    → (pair_of (after_reactivated p db) a b ≡ pair_of db a b)
      × ((after_reactivated p db).conversations ≡ db.conversations)
pair_of-after_reactivated p db a b = elim (Bool-cases (is_some p.left_at)) [
  | inl e ↦ rw e (pair_of-write_left_at p.id none db a b, refl)
  | inr e ↦ rw e (refl, refl)
]

-- A database in which `cv` is the pair's conversation, with as many conversations as `db`.
abbrev Settled : Db → ℕ → ℕ → Conversation → Db → Type 0
Settled db a b cv db' =
    (pair_of db' a b ≡ some cv) × (length db'.conversations ≡ length db.conversations)

reuse_pair_settles :
    (db : Db) (a b : ℕ) (cv : Conversation)
    → IsValid db
    → pair_of db a b ≡ some cv
    → (db' : Db) × (reuse_pair a cv db ≡ (ok cv, db')) × Settled db a b cv db'
reuse_pair_settles db a b cv v found = elim (Option-cases (membership db cv.id a)) [
  | inl e ↦ (db, reuse_pair_absent db v a cv e, (found, refl))
  | inr (p, e) ↦
      let (same, rows) = pair_of-after_reactivated p db a b in
      (after_reactivated p db, reuse_pair_present db v a cv p e, (same ∙ found, ap length rows))
]

-- Whoever of a settled pair calls `create_direct` gets the same conversation, and no other is made.
create_direct-Settled :
    (now a b : ℕ) (name : Option Text) (db : Db) (cv : Conversation)
    → IsValid db
    → a ≢ b
    → pair_of db a b ≡ some cv
    → ((db' : Db) × (create_direct now a (b ∷ []) name db ≡ (ok cv, db')) × Settled db a b cv db')
      × ((db' : Db) × (create_direct now b (a ∷ []) name db ≡ (ok cv, db')) × Settled db b a cv db')
create_direct-Settled now a b name db cv v ne found =
    let swapped : pair_of db b a ≡ some cv = pair_of_swap db b a ∙ found in
    let (d, e, s) = reuse_pair_settles db a b cv v found in
    let (d', e', s') = reuse_pair_settles db b a cv v swapped in
    (
      (d, create_direct_found now a b name db cv (λ h. ne (sym h)) found ∙ e, s),
      (d', create_direct_found now b a name db cv ne swapped ∙ e', s'),
    )

-- After a successful call the pair has the conversation that was returned.
create_direct_finds :
    (now a b : ℕ) (name : Option Text) (db db' : Db) (cv : Conversation)
    → IsValid db
    → create_direct now a (b ∷ []) name db ≡ (ok cv, db')
    → (a ≢ b) × (pair_of db' a b ≡ some cv)
create_direct_finds now a b name db db' cv v h = elim (Bool-cases (b == a)) [
  | inl same ↦ cc (create_direct_self now a b name db ((==_iff b a).0 same))
  | inr apart ↦
      let ne : b ≢ a = ground arith in
      elim (Option-cases (pair_of db a b)) [
        | inl e ↦
            let made =
              create_pair-Made now a b name db v ne e cv db'
                (sym (create_direct_new now a b name db ne e) ∙ h) in
            ((λ p. ne (sym p)), made.0)
        | inr (old, e) ↦
            let (d, run, (found, _)) = reuse_pair_settles db a b old v e in
            let (c, s) =
              returns_once (create_direct now a (b ∷ []) name db) old cv d db'
                (create_direct_found now a b name db old ne e ∙ run) h in
            ((λ p. ne (sym p)), rw (s, c) found)
      ]
]

-- On valid tables, once a user has a direct conversation with another, a later call by either of
-- them returns that same conversation and makes no other one.
pub create_direct_again :
    (now later a b : ℕ) (name name' : Option Text) (db db' : Db) (cv : Conversation)
    → IsValid db
    → create_direct now a (b ∷ []) name db ≡ (ok cv, db')
    → ((d : Db) × (create_direct later a (b ∷ []) name' db' ≡ (ok cv, d))
        × (length d.conversations ≡ length db'.conversations))
      × ((d : Db) × (create_direct later b (a ∷ []) name' db' ≡ (ok cv, d))
          × (length d.conversations ≡ length db'.conversations))
create_direct_again now later a b name name' db db' cv v h =
    let (ne, found) = create_direct_finds now a b name db db' cv v h in
    let v' : IsValid db' =
      subst (λ (r : Result Conversation × Db). IsValid r.1) h
        ((create_direct-Keeps now a (b ∷ []) name).after db v) in
    let ((d, e, s), (d', e', s')) = create_direct-Settled later a b name' db' cv v' ne found in
    ((d, e, s.1), (d', e', s'.1))
