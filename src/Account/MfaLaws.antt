-- ===== src/Account/MfaLaws.antt =====
-- One factor of a user at most is not disabled, and what the second factor asks of a login.
use pqc_grade_a.Base.{
  ℕ, ◌+◌, ◌≤◌, ◌<◌, ◌≡◌, refl, Bool, true, ◌&&◌, none, some, List, [], ◌∷◌, ◌++◌, Text, ◌==◌,
  ==_refl, arith, is_none, first_where, count, update_where, delete_where, inl, inr, Option-cases,
  count_mono, count-append, count_of_none, count-delete_where_le, first_where_holds,
}
use pqc_grade_a.Errors.{auth, mfa_already_enabled}
use pqc_grade_a.Db.{Db, User, MfaFactor}
use pqc_grade_a.Exec.{ok, err, fresh_id}
use pqc_grade_a.Exec.Keeps.{Keeps}
use pqc_grade_a.Exec.Rows.{scalar_select}
use pqc_grade_a.Account.Platform.{Platform}
use pqc_grade_a.Account.Mfa.{
  is_active, is_pending, is_factor, get_active_for_user, get_pending_for_user, without, new_factor,
  enroll,
}

-- A factor of the user that is not disabled.
abbrev pub is_open : ℕ → MfaFactor → Bool
is_open u f = f.user_id == u && is_none f.disabled_at

pub record OneFactor (db : Db) : Type 0 where
  pub open_unique : (u : ℕ) → count (is_open u) db.factors ≤ 1

module _ {A : Type 0} (p q : A → Bool) where
  count-delete_where_found :
      (r : A → Bool) (xs : List A) (x : A)
      → first_where r xs ≡ some x
      → p x ≡ true
      → q x ≡ true
      → count p (delete_where q xs) < count p xs
  unfolding count delete_where first_where
  count-delete_where_found r [] x h px qx = cc
  count-delete_where_found r (y ∷ xs) x h px qx =
      ground (arith, count-delete_where_found r xs x, count-delete_where_le p q xs)

  pub count-update_where_le :
      (f : A → A) (xs : List A)
      → ((x : A) → p (f x) ≡ true → p x ≡ true)
      → count p (update_where q f xs) ≤ count p xs
  unfolding count update_where
  count-update_where_le f [] h = omega arith
  count-update_where_le f (x ∷ xs) h = ground (arith, h x, count-update_where_le f xs h)

module _ (db : Db) (v : OneFactor db) (u : ℕ) where
  pub get_active_lem : get_active_for_user u db ≡ (ok (first_where (is_active u) db.factors), db)
  unfolding get_active_for_user
  get_active_lem =
      rw
        (scalar_select (is_active u) db.factors (
          omega (
            arith,
            v.open_unique u,
            count_mono (is_active u) (is_open u) db.factors (λ x h. ground arith),
          )))
        refl

  pub get_pending_lem : get_pending_for_user u db ≡ (ok (first_where (is_pending u) db.factors), db)
  unfolding get_pending_for_user
  get_pending_lem =
      rw
        (scalar_select (is_pending u) db.factors (
          omega (
            arith,
            v.open_unique u,
            count_mono (is_pending u) (is_open u) db.factors (λ x h. ground arith),
          )))
        refl

-- An open factor is active or pending.
open_split :
    (u : ℕ) (fs : List MfaFactor)
    → count (is_open u) fs ≡ count (is_active u) fs + count (is_pending u) fs
unfolding count
open_split u [] = refl
open_split u (f ∷ fs) = elim (Option-cases f.enabled_at) [
  | inl e ↦ ground (arith, open_split u fs)
  | inr (t, e) ↦ ground (arith, open_split u fs)
]

abbrev added : (ℕ → MfaFactor) → Db → Db
added row db = record db { factors = db.factors ++ row db.next_id ∷ []; next_id = db.next_id + 1 }

module _ (k : Platform) (now : ℕ) (u : User) (secret : Text) (db : Db) (v : OneFactor db) where
  abbrev row : ℕ → MfaFactor
  row = new_factor now u.id (k.encrypt u.id secret)

  pub enroll_active :
      (f : MfaFactor)
      → first_where (is_active u.id) db.factors ≡ some f
      → enroll k now u secret db ≡ (err (auth mfa_already_enabled), db)
  unfolding enroll
  enroll_active f e = ground (arith, get_active_lem db v u.id)

  pub enroll_first :
      first_where (is_active u.id) db.factors ≡ none
      → first_where (is_pending u.id) db.factors ≡ none
      → enroll k now u secret db ≡ (ok secret, added row db)
  unfolding enroll fresh_id
  enroll_first e p = ground (arith, get_active_lem db v u.id, get_pending_lem db v u.id)

  pub enroll_again :
      (f : MfaFactor)
      → first_where (is_active u.id) db.factors ≡ none
      → first_where (is_pending u.id) db.factors ≡ some f
      → enroll k now u secret db ≡ (ok secret, added row (without f.id db))
  unfolding enroll fresh_id
  enroll_again f e p = ground (arith, get_active_lem db v u.id, get_pending_lem db v u.id)

-- A row more for a user who has no open factor.
added-OneFactor :
    (u : ℕ) (row : ℕ → MfaFactor) (db : Db)
    → OneFactor db
    → (row db.next_id).user_id ≡ u
    → count (is_open u) db.factors ≡ 0
    → OneFactor (added row db)
unfolding count
added-OneFactor u row db v owner zero = record {
  open_unique = λ u'.
      ground (arith, v.open_unique u', count-append (is_open u') db.factors (row db.next_id ∷ []));
}

pub enroll-Keeps :
    (k : Platform) (now : ℕ) (u : User) (secret : Text) → Keeps OneFactor (enroll k now u secret)
enroll-Keeps k now u secret = record {
  after = λ db v. elim (Option-cases (first_where (is_active u.id) db.factors)) [
    | inr (f, e) ↦ rw (enroll_active k now u secret db v f e) v
    | inl e ↦
        let none_active : count (is_active u.id) db.factors ≡ 0 =
          count_of_none (is_active u.id) db.factors e in
        elim (Option-cases (first_where (is_pending u.id) db.factors)) [
          | inl p ↦ rw (enroll_first k now u secret db v e p) (
              added-OneFactor u.id (new_factor now u.id (k.encrypt u.id secret)) db v refl (
                omega (
                  arith,
                  none_active,
                  open_split u.id db.factors,
                  count_of_none (is_pending u.id) db.factors p,
                )))
          | inr (f, p) ↦ rw (enroll_again k now u secret db v f e p) (
              added-OneFactor u.id (new_factor now u.id (k.encrypt u.id secret)) (without f.id db)
                (record {
                  open_unique = λ u'. omega (
                    arith,
                    v.open_unique u',
                    count-delete_where_le (is_open u') (is_factor f.id) db.factors,
                  );
                })
                refl
                (omega (
                  arith,
                  v.open_unique u.id,
                  count-delete_where_found (is_open u.id) (is_factor f.id) (is_pending u.id)
                      db.factors f p
                      (ground (arith, first_where_holds (is_pending u.id) db.factors f p))
                      (==_refl f.id),
                )))
        ]
  ];
}
