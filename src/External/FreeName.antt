-- ===== src/External/FreeName.antt =====
-- The username of an account that an external identity makes: the loop ends, and what it finds is
-- free and a username.
use pqc_grade_a.Base.{
  ℕ, zero, suc, ◌+◌, ◌≤◌, ◌<◌, ◌≡◌, refl, ap, ◌∙◌, Bool, true, false, List, Text, if◌then◌else◌,
  length, All, arith, inl, inr, Bool-cases, exists, first_where, delete_where, count,
}
use pqc_grade_a.Db.{Db, User}
use pqc_grade_a.Exec.{ok, pure}
use pqc_grade_a.Exec.Rows.{scalar_select}
use pqc_grade_a.Exec.Keeps.{Yields, Yields-pure, Yields-bind}
use pqc_grade_a.Account.Platform.{Platform}
use pqc_grade_a.Account.Users.{has_username, get_by_username, username_exists}
use pqc_grade_a.External.Handles.{
  IsHandleChar, IsHandle, LowerLaws, IsBase, base_of-IsBase, candidate-IsHandle,
}
use pqc_grade_a.External.Usernames.{base_of, candidate, first_free, unique_username_from_email}
use pqc_grade_a.External.TriedNames.{
  name_at, name_at-IsHandle, name_at-injective, has_one_name, name_next, exists-delete_where_other,
  length-delete_where_lt, is_some-first_where,
}

module _ (k : Platform) (fuel : ℕ) (base : Text) (n : ℕ) (name : Text) (db : Db) where
  first_free_done :
      username_exists k name db ≡ (ok false, db)
      → first_free k (suc fuel) base n name db ≡ (ok name, db)
  unfolding first_free
  first_free_done e = ground arith

  first_free_next :
      username_exists k name db ≡ (ok true, db)
      → first_free k (suc fuel) base n name db
        ≡ first_free k fuel base (n + 1) (candidate base (n + 1)) db
  unfolding first_free
  first_free_next e = ground arith

module _ (k : Platform) (laws : LowerLaws k) (db : Db)
    (unique : (s : Text) → count (has_username s) db.users ≤ 1) where
  get_by_username_lem :
      (s : Text)
      → All IsHandleChar s
      → get_by_username k s db ≡ (ok (first_where (has_username s) db.users), db)
  unfolding get_by_username
  get_by_username_lem s h =
      rw (laws.fixed s h) (rw (scalar_select (has_username s) db.users (unique s)) refl)

  pub username_exists_lem :
      (s : Text)
      → All IsHandleChar s
      → username_exists k s db ≡ (ok (exists (has_username s) db.users), db)
  unfolding username_exists
  username_exists_lem s h =
      ground (arith, get_by_username_lem s h, is_some-first_where (has_username s) db.users)

  module _ (base : Text) (b : IsBase base) where
    abbrev taken : ℕ → Bool
    taken n = exists (has_username (name_at base n)) db.users

    loop_done :
        (fuel n : ℕ)
        → taken n ≡ false
        → first_free k (suc fuel) base n (name_at base n) db ≡ (ok (name_at base n), db)
    loop_done fuel n e =
        first_free_done k fuel base n (name_at base n) db
          (username_exists_lem (name_at base n) (name_at-IsHandle base n b).chars ∙ rw e refl)

    loop_next :
        (fuel n : ℕ)
        → taken n ≡ true
        → first_free k (suc fuel) base n (name_at base n) db
          ≡ first_free k fuel base (n + 1) (name_at base (n + 1)) db
    loop_next fuel n e =
        first_free_next k fuel base n (name_at base n) db
          (username_exists_lem (name_at base n) (name_at-IsHandle base n b).chars ∙ rw e refl)
        ∙ ap (λ t. first_free k fuel base (n + 1) t db) (name_next base n)

    -- `us` has the users whose name the loop may still meet: fewer each round.
    loop_ends :
        (fuel n : ℕ) (us : List User)
        → length us < fuel
        → n + fuel ≤ 10000
        → ((j : ℕ)
            → n ≤ j
            → j < 10000
            → taken j ≡ true
            → exists (has_username (name_at base j)) us ≡ true)
        → (m : ℕ) × (m < 10000)
          × (first_free k fuel base n (name_at base n) db ≡ (ok (name_at base m), db))
          × (taken m ≡ false)
    loop_ends zero n us l bound seen = absurd (omega arith)
    loop_ends (suc fuel) n us l bound seen = elim (Bool-cases (taken n)) [
      | inr e ↦ (n, omega arith, loop_done fuel n e, e)
      | inl e ↦
          let here : exists (has_username (name_at base n)) us ≡ true =
            seen n (omega arith) (omega arith) e in
          let (m, lt, run, free) =
            loop_ends fuel (n + 1) (delete_where (has_username (name_at base n)) us)
              (omega (arith, length-delete_where_lt (has_username (name_at base n)) us here))
              (omega arith)
              (λ j le lt t.
                exists-delete_where_other (has_username (name_at base j))
                  (has_username (name_at base n)) us
                  (λ u h.
                    has_one_name (name_at base j) (name_at base n) u
                      (λ same.
                        absurd (omega (arith, name_at-injective base j n b lt (omega arith) same)))
                      h)
                  (seen j (omega arith) lt t)) in
          (m, lt, loop_next fuel n e ∙ run, free)
    ]

  -- With fewer than 10000 users the search for a username ends: it returns a name that no user
  -- has, and changes nothing. Usernames are unique, and `str.lower` keeps texts in lower case.
  pub unique_username_total :
      (email : Text)
      → length db.users < 10000
      → (name : Text) × (unique_username_from_email k email db ≡ (ok name, db))
        × (exists (has_username name) db.users ≡ false)
  unfolding unique_username_from_email
  unique_username_total email few =
      let (m, lt, run, free) =
        loop_ends (base_of k email) (base_of-IsBase k email) (suc (length db.users)) 0 db.users
          (omega arith) (omega arith) (λ j le lt t. t) in
      (name_at (base_of k email) m, run, free)

first_free-IsHandle :
    (k : Platform) (fuel : ℕ) (base : Text) (n : ℕ) (name : Text) (db : Db)
    → IsBase base
    → IsHandle name
    → Yields IsHandle (first_free k fuel base n name db)
unfolding first_free
first_free-IsHandle k zero base n name db b h = λ s e. cc
first_free-IsHandle k (suc fuel) base n name db b h =
    Yields-bind IsHandle (username_exists k name)
      (λ taken.
        if taken then first_free k fuel base (n + 1) (candidate base (n + 1)) else pure name)
      (λ taken db'. elim (Bool-cases taken) [
        | inl e ↦ rw e (
            first_free-IsHandle k fuel base (n + 1) (candidate base (n + 1)) db' b
              (candidate-IsHandle base (n + 1) b))
        | inr e ↦ rw e (Yields-pure IsHandle name db' h)
      ])
      db

-- Whatever comes out of the search for a username has 3 to 32 characters, each a lower-case
-- letter, a digit or an underscore, for every email.
pub unique_username-IsHandle :
    (k : Platform) (email : Text) (db db' : Db) (name : Text)
    → unique_username_from_email k email db ≡ (ok name, db')
    → IsHandle name
unfolding unique_username_from_email
unique_username-IsHandle k email db db' name h =
    let b : IsBase (base_of k email) = base_of-IsBase k email in
    first_free-IsHandle k (suc (length db.users)) (base_of k email) 0 (base_of k email) db b
      (record { long = b.long; short = omega (arith, b.short); chars = b.chars }) name
      (ap (λ r. r.0) h)
