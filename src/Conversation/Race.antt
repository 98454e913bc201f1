-- ===== src/Conversation/Race.antt =====
-- Two clients that start the same pair at once: the search and the inserts of `create_direct` are
-- separate statements, and no constraint of the tables joins the pair to one conversation.
use pqc_grade_a.Base.{
  ℕ, suc, ◌≡◌, ◌≢◌, refl, sym, ap, ◌∙◌, true, none, [], ◌∷◌, inl, inr, arith, exists, count_of_none,
}
use mathlib.Core.Path.{subst}
use pqc_grade_a.Db.{Db, Conversation}
use pqc_grade_a.Exec.{Result, ok, request}
use pqc_grade_a.Conversation.Repository.{is_user, is_direct_between, find_direct}
use pqc_grade_a.Conversation.Service.{create_pair, create_direct}
use pqc_grade_a.Conversation.Invariant.{IsValid}
use pqc_grade_a.Conversation.Pair.{create_pair_after}
use pqc_grade_a.Conversation.Direct.{pair_of, pair_of_swap}
use pqc_grade_a.Conversation.PairCount.{
  pairs, made, paired, create_pair_runs, pairs-paired, pairs_swap,
}
use pqc_grade_a.Conversation.Turns.{
  Call, started, searched, finished, step, Turn, one, two, Race, interleave, Joins, step_twice,
  beginning, other,
}

module _ (a b : ℕ) (ne : a ≢ b) where
  apart : (c : Call) → Joins a b c → c.peer ≢ c.caller
  apart c (inl (e, f)) = λ h. ne (sym e ∙ sym h ∙ f)
  apart c (inr (e, f)) = λ h. ne (sym f ∙ h ∙ e)

  pairs_of : (db : Db) (c : Call) → Joins a b c → pairs db c.caller c.peer ≡ pairs db a b
  pairs_of db c (inl (e, f)) = rw (e, f) refl
  pairs_of db c (inr (e, f)) = rw (e, f) (pairs_swap db b a)

  module _ (db : Db) where
    alone_of : (c : Call) → Joins a b c → pair_of db a b ≡ none → pair_of db c.caller c.peer ≡ none
    alone_of c (inl (e, f)) h = rw (e, f) h
    alone_of c (inr (e, f)) h = rw (e, f) (pair_of_swap db b a ∙ h)

    -- A call that searches finds nothing.
    step_search :
        (c : Call)
        → Joins a b c
        → pair_of db a b ≡ none
        → step c (started, db) ≡ (searched none, db)
    unfolding step find_direct
    step_search c j alone = ground (arith, apart c j, alone_of c j alone)

    module _ (v : IsValid db) (ha : exists (is_user a) db.users ≡ true)
        (hb : exists (is_user b) db.users ≡ true) where
      users_of :
          (c : Call)
          → Joins a b c
          → (exists (is_user c.caller) db.users ≡ true) × (exists (is_user c.peer) db.users ≡ true)
      users_of c (inl (e, f)) = (rw e ha, rw f hb)
      users_of c (inr (e, f)) = (rw e hb, rw f ha)

      inserts :
          (c : Call)
          → Joins a b c
          → create_pair c.at c.caller c.peer c.name db
            ≡ (ok (made c.at c.caller c.peer c.name db), paired c.at c.caller c.peer c.name db)
      inserts c j =
          let (hc, hp) = users_of c j in
          create_pair_runs c.at c.caller c.peer c.name db v (apart c j) hc hp

      -- A call that has found nothing makes a conversation, whatever there is by then.
      step_insert :
          (c : Call)
          → Joins a b c
          → step c (searched none, db) ≡ (
            finished (ok (made c.at c.caller c.peer c.name db)),
            paired c.at c.caller c.peer c.name db,
          )
      unfolding step request
      step_insert c j = ground (arith, inserts c j)

      one_more :
          (c : Call)
          → Joins a b c
          → pairs (paired c.at c.caller c.peer c.name db) a b ≡ suc (pairs db a b)
      one_more c j =
          sym (pairs_of (paired c.at c.caller c.peer c.name db) c j)
          ∙ pairs-paired c.at c.caller c.peer c.name db v (apart c j)
          ∙ ap suc (pairs_of db c j)

      paired-IsValid :
          (c : Call)
          → Joins a b c
          → pair_of db a b ≡ none
          → IsValid (paired c.at c.caller c.peer c.name db)
      paired-IsValid c j alone =
          subst (λ (r : Result Conversation × Db). IsValid r.1) (inserts c j)
            (create_pair_after c.at c.caller c.peer c.name db v (apart c j) (alone_of c j alone))

-- Both calls have ended, with conversations of their own, and the pair has two.
pub record BothMade (a b : ℕ) (r : Race) : Type 0 where
  pub x : Conversation
  pub y : Conversation
  pub first_made : r.first ≡ finished (ok x)
  pub second_made : r.second ≡ finished (ok y)
  pub distinct : x.id ≢ y.id
  pub two_pairs : pairs r.tables a b ≡ 2

module _ (a b : ℕ) (ne : a ≢ b) (db : Db) (v : IsValid db) (ha : exists (is_user a) db.users ≡ true)
    (hb : exists (is_user b) db.users ≡ true) (alone : pair_of db a b ≡ none) where
  abbrev after : Call → Db
  after c = paired c.at c.caller c.peer c.name db

  abbrev then_after : Call → Call → Db
  then_after c d = paired d.at d.caller d.peer d.name (after c)

  -- The second insert, on the tables that the first has left.
  insert_again :
      (c d : Call)
      → Joins a b c
      → Joins a b d
      → step d (searched none, after c)
        ≡ (finished (ok (made d.at d.caller d.peer d.name (after c))), then_after c d)
  insert_again c d jc jd =
      step_insert a b ne (after c) (paired-IsValid a b ne db v ha hb c jc alone) ha hb d jd

  two_of_them : (c d : Call) → Joins a b c → Joins a b d → pairs (then_after c d) a b ≡ 2
  two_of_them c d jc jd =
      one_more a b ne (after c) (paired-IsValid a b ne db v ha hb c jc alone) ha hb d jd
      ∙ ap suc (
          one_more a b ne db v ha hb c jc
          ∙ ap suc (count_of_none (is_direct_between db.participants a b) db.conversations alone))

  raced :
      (c d : Call)
      → Joins a b c
      → Joins a b d
      → (t : Turn) → BothMade a b (interleave c d (one ∷ two ∷ t ∷ other t ∷ []) (beginning db))
  raced c d jc jd one =
      rw
        (
          step_search a b ne db c jc alone,
          step_search a b ne db d jd alone,
          step_insert a b ne db v ha hb c jc,
          insert_again c d jc jd,
        )
        (record {
          x = made c.at c.caller c.peer c.name db;
          y = made d.at d.caller d.peer d.name (after c);
          first_made = refl;
          second_made = refl;
          distinct = λ e. omega arith;
          two_pairs = two_of_them c d jc jd;
        })
  raced c d jc jd two =
      rw
        (
          step_search a b ne db c jc alone,
          step_search a b ne db d jd alone,
          step_insert a b ne db v ha hb d jd,
          insert_again d c jd jc,
        )
        (record {
          x = made c.at c.caller c.peer c.name (after d);
          y = made d.at d.caller d.peer d.name db;
          first_made = refl;
          second_made = refl;
          distinct = λ e. omega arith;
          two_pairs = two_of_them d c jd jc;
        })

-- If two calls of create_direct by the two users of a pair, or twice by one of them for the other,
-- both search before either inserts, each makes a conversation of its own, whichever inserts
-- first: both requests succeed, and the pair has two. The two steps of any call that is alone, its
-- search and the rest, are the request of create_direct. The tables are valid, the users are two
-- and exist, and the pair had no conversation.
pub concurrent_create_direct :
    (a b : ℕ) (c d : Call) (db : Db) (t : Turn)
    → IsValid db
    → a ≢ b
    → exists (is_user a) db.users ≡ true
    → exists (is_user b) db.users ≡ true
    → pair_of db a b ≡ none
    → Joins a b c
    → Joins a b d
    → BothMade a b (interleave c d (one ∷ two ∷ t ∷ other t ∷ []) (beginning db))
      × ((e : Call) (tables : Db)
          → step e (step e (started, tables)) ≡ (
            finished (request (create_direct e.at e.caller (e.peer ∷ []) e.name) tables).0,
            (request (create_direct e.at e.caller (e.peer ∷ []) e.name) tables).1,
          ))
concurrent_create_direct a b c d db t v ne ha hb alone jc jd =
    (raced a b ne db v ha hb alone c d jc jd t, step_twice)
