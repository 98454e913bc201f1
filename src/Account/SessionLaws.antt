-- ===== src/Account/SessionLaws.antt =====
-- The rotation of refresh tokens.
use mathlib.Core.Option
use pqc_grade_a.Base.{
  ℕ, ◌+◌, ◌≤◌, ◌≡◌, refl, sym, ◌∙◌, ap, Bool, true, false, ◌&&◌, not, Option, none, some, List, [],
  ◌∷◌, Text, ==_refl, arith, text_eq, text_eq_refl, first_where, exists, count, update_where, inl,
  inr, Option-cases, Bool-cases, count_of_none, count_of_found, none_of_count, count_of_not_exists,
  first_where_holds, same_row,
}
use pqc_grade_a.Errors.{auth, invalid_refresh_token, integrity_error}
use pqc_grade_a.Db.{Db, Session, session_is_active}
use pqc_grade_a.Exec.{ok, err}
use pqc_grade_a.Exec.Keeps.{returns_once}
use pqc_grade_a.Exec.Rows.{scalar_select}
use pqc_grade_a.Account.Platform.{Platform}
use pqc_grade_a.Account.Sessions.{
  is_session, has_refresh_hash, get_by_refresh_token_hash, rotate_refresh_token, set_refresh,
  write_refresh, live, refresh_session,
}

-- The keys of the table of sessions.
pub record UniqueSessions (db : Db) : Type 0 where
  pub hash_unique : (h : Text) → count (has_refresh_hash h) db.sessions ≤ 1
  pub session_unique : (i : ℕ) → count (is_session i) db.sessions ≤ 1

module _ {A : Type 0} (p q : A → Bool) (f : A → A) where
  -- No row but the updated ones satisfied `p`, and those do now.
  first_where-update_where_moved :
      (xs : List A)
      → ((x : A) → p (f x) ≡ true)
      → count (λ x. p x && not (q x)) xs ≡ 0
      → first_where p (update_where q f xs) ≡ Option.map f (first_where q xs)
  unfolding first_where update_where count
  first_where-update_where_moved [] h z = refl
  first_where-update_where_moved (x ∷ xs) h z =
      ground (arith, h x, first_where-update_where_moved xs h)

  -- No row but the updated ones satisfied `p`, and those do no more.
  count-update_where_left :
      (xs : List A)
      → ((x : A) → p (f x) ≡ false)
      → count (λ x. p x && not (q x)) xs ≡ 0
      → count p (update_where q f xs) ≡ 0
  unfolding update_where count
  count-update_where_left [] h z = refl
  count-update_where_left (x ∷ xs) h z = ground (arith, h x, count-update_where_left xs h)

get_by_hash_lem :
    (db : Db) (h : Text)
    → count (has_refresh_hash h) db.sessions ≤ 1
    → get_by_refresh_token_hash h db ≡ (ok (first_where (has_refresh_hash h) db.sessions), db)
unfolding get_by_refresh_token_hash
get_by_hash_lem db h u = rw (scalar_select (has_refresh_hash h) db.sessions u) refl

-- Another session has the hash.
abbrev pub others_with : Db → Session → Text → Bool
others_with db s h = exists (λ t. has_refresh_hash h t && not (is_session s.id t)) db.sessions

module _ (k : Platform) (now : ℕ) (raw new_raw : Text) (db : Db)
    (u : count (has_refresh_hash (k.digest raw)) db.sessions ≤ 1) where
  pub refresh_dead :
      live now (first_where (has_refresh_hash (k.digest raw)) db.sessions) ≡ none
      → refresh_session k now raw new_raw db ≡ (err (auth invalid_refresh_token), db)
  unfolding refresh_session
  refresh_dead e = ground (arith, get_by_hash_lem db (k.digest raw) u)

  pub refresh_clash :
      (s : Session)
      → live now (first_where (has_refresh_hash (k.digest raw)) db.sessions) ≡ some s
      → others_with db s (k.digest new_raw) ≡ true
      → refresh_session k now raw new_raw db ≡ (err integrity_error, db)
  unfolding refresh_session rotate_refresh_token
  refresh_clash s e c = ground (arith, get_by_hash_lem db (k.digest raw) u)

  pub refresh_done :
      (s : Session)
      → live now (first_where (has_refresh_hash (k.digest raw)) db.sessions) ≡ some s
      → others_with db s (k.digest new_raw) ≡ false
      → refresh_session k now raw new_raw db ≡ (
        ok (set_refresh (k.digest new_raw) (now + k.refresh_ttl) s, new_raw),
        write_refresh s.id (k.digest new_raw) (now + k.refresh_ttl) db,
      )
  unfolding refresh_session rotate_refresh_token
  refresh_done s e c = ground (arith, get_by_hash_lem db (k.digest raw) u)

pub live_found :
    (now : ℕ) (o : Option Session) (s : Session)
    → live now o ≡ some s
    → (o ≡ some s) × (session_is_active now s ≡ true)
live_found now none s h = cc
live_found now (some t) s h = ground arith

module _ (db : Db) (v : UniqueSessions db) (t : Session) (old new : Text) (expires : ℕ)
    (found : first_where (has_refresh_hash old) db.sessions ≡ some t) where
  old_gone :
      text_eq new old ≡ false
      → count (has_refresh_hash old) (write_refresh t.id new expires db).sessions ≡ 0
  old_gone fresh =
      let other : Session → Bool = λ x. has_refresh_hash old x && not (is_session t.id x) in
      count-update_where_left (has_refresh_hash old) (is_session t.id) (set_refresh new expires)
        db.sessions (λ x. fresh)
        (elim (Option-cases (first_where other db.sessions)) [
          | inl n ↦ count_of_none other db.sessions n
          | inr (y, n) ↦
              let y_other : other y ≡ true = first_where_holds other db.sessions y n in
              let same : t ≡ y =
                same_row (has_refresh_hash old) other (has_refresh_hash old) db.sessions t y
                  (v.hash_unique old) found n
                  (first_where_holds (has_refresh_hash old) db.sessions t found) (ground arith) in
              absurd (ground (arith, ==_refl t.id))
        ])

  own_row : first_where (is_session t.id) db.sessions ≡ some t
  own_row = elim (Option-cases (first_where (is_session t.id) db.sessions)) [
    | inl n ↦ absurd (
        omega (
          arith,
          count_of_none (is_session t.id) db.sessions n,
          count_of_found (has_refresh_hash old) (is_session t.id) db.sessions t found
              (==_refl t.id),
        ))
    | inr (y, n) ↦
        n
        ∙ ap some (
            same_row (is_session t.id) (has_refresh_hash old) (is_session t.id) db.sessions y t
              (v.session_unique t.id) n found (first_where_holds (is_session t.id) db.sessions y n)
              (==_refl t.id))
  ]

  new_found :
      others_with db t new ≡ false
      → first_where (has_refresh_hash new) (write_refresh t.id new expires db).sessions
        ≡ some (set_refresh new expires t)
  new_found clear =
      first_where-update_where_moved (has_refresh_hash new) (is_session t.id)
        (set_refresh new expires) db.sessions (λ x. text_eq_refl new)
        (count_of_not_exists (λ x. has_refresh_hash new x && not (is_session t.id x)) db.sessions
          clear)
      ∙ ap (Option.map (set_refresh new expires)) own_row

-- A refresh token is good once: after it is redeemed the same token is refused, and the new one
-- finds the session that was returned. Keys of sessions are unique, and the digests differ.
pub refresh_rotates :
    (k : Platform) (now later : ℕ) (raw new_raw next_raw : Text) (db db' : Db) (s : Session)
    → UniqueSessions db
    → text_eq (k.digest new_raw) (k.digest raw) ≡ false
    → refresh_session k now raw new_raw db ≡ (ok (s, new_raw), db')
    → (refresh_session k later raw next_raw db' ≡ (err (auth invalid_refresh_token), db'))
      × (first_where (has_refresh_hash (k.digest new_raw)) db'.sessions ≡ some s)
refresh_rotates k now later raw new_raw next_raw db db' s v fresh h =
    let old : Text = k.digest raw in
    let new : Text = k.digest new_raw in
    let u : count (has_refresh_hash old) db.sessions ≤ 1 = v.hash_unique old in
    elim (Option-cases (live now (first_where (has_refresh_hash old) db.sessions))) [
      | inl e ↦ cc (refresh_dead k now raw new_raw db u e)
      | inr (t, e) ↦ elim (Bool-cases (others_with db t new)) [
        | inl c ↦ cc (refresh_clash k now raw new_raw db u t e c)
        | inr c ↦
            let expires : ℕ = now + k.refresh_ttl in
            let found : first_where (has_refresh_hash old) db.sessions ≡ some t =
              (live_found now (first_where (has_refresh_hash old) db.sessions) t e).0 in
            let (es, ed) =
              returns_once (refresh_session k now raw new_raw db)
                (set_refresh new expires t, new_raw) (s, new_raw)
                (write_refresh t.id new expires db) db' (refresh_done k now raw new_raw db u t e c)
                h in
            let none_left = old_gone db v t old new expires found fresh in
            let gone =
              none_of_count (has_refresh_hash old) (write_refresh t.id new expires db).sessions
                none_left in
            rw ed (
              refresh_dead k later raw next_raw (write_refresh t.id new expires db)
                  (omega (arith, none_left)) (ap (live later) gone),
              new_found db v t old new expires found c ∙ sym (ap (λ r. some r.0) es),
            )
      ]
    ]
