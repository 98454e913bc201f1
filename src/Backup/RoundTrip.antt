-- ===== src/Backup/RoundTrip.antt =====
-- A key backup is read back as it was put, by the user who put it.
use mathlib.Core.Option
use pqc_grade_a.Base.{
  ℕ, ◌≤◌, ◌≡◌, ◌≢◌, ◌⊎◌, refl, ◌∙◌, ap, none, some, [], ◌∷◌, ==_refl, arith, first_where, count,
  inl, inr, Option-cases, Bool-cases, first_where_holds, first_where-append,
  first_where-update_where, count-update_where, count-append, count_of_none, same_row, touched,
}
use pqc_grade_a.Errors.{Error}
use pqc_grade_a.Db.{Db, ConversationKeyBackup}
use pqc_grade_a.Exec.{ok, err}
use pqc_grade_a.Exec.Keeps.{returns_once}
use pqc_grade_a.Conversation.Invariant.{IsValid, IsValid-irrelevant}
use pqc_grade_a.Conversation.Outcomes.{active_membership, group_of}
use pqc_grade_a.Backup.Service.{
  WrappedKey, is_backup, has_backup_id, overwrite, new_backup, write_backup, authorize, put, get,
}
use pqc_grade_a.Backup.Laws.{
  UniqueBackups, backup_of, get_for_user_lem, authorize_unknown, authorize_outsider,
  authorize_member, stored, put_again, put_first,
}

abbrev pub contents : ConversationKeyBackup → WrappedKey
contents b = record {
  wrapped_key = b.wrapped_key;
  wrap_nonce = b.wrap_nonce;
  wrap_kdf_salt = b.wrap_kdf_salt;
  wrap_kdf_params = b.wrap_kdf_params;
  wrap_alg = b.wrap_alg;
}

abbrev Apart : ℕ → ℕ → ℕ → ℕ → Type 0
Apart c u c' u' = (c' ≢ c) ⊎ (u' ≢ u)

put_refused :
    (now c u : ℕ) (w : WrappedKey) (db : Db) (x : Error)
    → authorize c u db ≡ (err x, db)
    → put now c u w db ≡ (err x, db)
unfolding put
put_refused now c u w db x e = ground arith

get_reads :
    (c u : ℕ) (db : Db) (b : ConversationKeyBackup)
    → authorize c u db ≡ (ok tt, db)
    → count (is_backup c u) db.backups ≤ 1
    → backup_of db c u ≡ some b
    → get c u db ≡ (ok (some b), db)
unfolding get
get_reads c u db b a h e = ground (arith, get_for_user_lem db c u h)

module _ (now c u : ℕ) (w : WrappedKey) (db : Db) (q : UniqueBackups db) (b : ConversationKeyBackup)
    (found : backup_of db c u ≡ some b) where
  overwritten :
      (c' u' : ℕ)
      → backup_of (write_backup now b.id w db) c' u'
        ≡ Option.map (touched (has_backup_id b.id) (overwrite now w)) (backup_of db c' u')
  overwritten c' u' =
      first_where-update_where (is_backup c' u') (has_backup_id b.id) (overwrite now w) db.backups
        (λ x. refl)

  overwritten_mine : backup_of (write_backup now b.id w db) c u ≡ some (overwrite now w b)
  overwritten_mine =
      overwritten c u
      ∙ ap (Option.map (touched (has_backup_id b.id) (overwrite now w))) found
      ∙ ground (arith, ==_refl b.id)

  overwritten_other :
      (c' u' : ℕ)
      → Apart c u c' u'
      → backup_of (write_backup now b.id w db) c' u' ≡ backup_of db c' u'
  overwritten_other c' u' far = overwritten c' u' ∙ elim (Option-cases (backup_of db c' u')) [
    | inl e ↦ rw e refl
    | inr (x, e) ↦ elim (Bool-cases (has_backup_id b.id x)) [
      | inr other ↦ rw (e, other) refl
      | inl same ↦
          let one : x ≡ b =
            same_row (is_backup c' u') (is_backup c u) (has_backup_id b.id) db.backups x b
              (q.id_unique b.id) e found same (==_refl b.id) in
          let mine = first_where_holds (is_backup c u) db.backups b found in
          let theirs = first_where_holds (is_backup c' u') db.backups x e in
          absurd (elim far [ inl d ↦ ground arith | inr d ↦ ground arith ])
    ]
  ]

module _ (now c u : ℕ) (w : WrappedKey) (db : Db) (absent : backup_of db c u ≡ none) where
  abbrev fresh : ConversationKeyBackup
  fresh = new_backup now c u w db.next_id

  added_mine : backup_of (stored fresh db) c u ≡ some fresh
  unfolding first_where
  added_mine =
      ground
        (arith, first_where-append (is_backup c u) db.backups (fresh ∷ []), ==_refl c, ==_refl u)

  added_one : count (is_backup c u) (stored fresh db).backups ≤ 1
  unfolding count
  added_one = ground (
    arith,
    count-append (is_backup c u) db.backups (fresh ∷ []),
    count_of_none (is_backup c u) db.backups absent,
  )

  added_other :
      (c' u' : ℕ) → Apart c u c' u' → backup_of (stored fresh db) c' u' ≡ backup_of db c' u'
  unfolding first_where
  added_other c' u' far =
      first_where-append (is_backup c' u') db.backups (fresh ∷ [])
      ∙ elim (Option-cases (backup_of db c' u')) [
        | inr (x, e) ↦ rw e refl
        | inl e ↦ rw e (elim far [ inl d ↦ ground arith | inr d ↦ ground arith ])
      ]

-- A key backup that a user puts is what they get back, whether it is the first or replaces one,
-- and no other backup changes. The tables are valid, and the keys of backups unique.
pub get-put :
    (now c u : ℕ) (w : WrappedKey) (db db' : Db) (b : ConversationKeyBackup)
    → IsValid db
    → UniqueBackups db
    → put now c u w db ≡ (ok b, db')
    → (get c u db' ≡ (ok (some b), db'))
      × (contents b ≡ w)
      × ((c' u' : ℕ) → (c' ≢ c) ⊎ (u' ≢ u) → backup_of db' c' u' ≡ backup_of db c' u')
get-put now c u w db db' b v q h = elim (Option-cases (group_of db c)) [
  | inl e ↦ cc (put_refused now c u w db _ (authorize_unknown c u db v e))
  | inr (cv, e) ↦ elim (Option-cases (active_membership db c u)) [
    | inl n ↦ cc (put_refused now c u w db _ (authorize_outsider c u db v cv e n))
    | inr (p, n) ↦
        let allowed = authorize_member c u db v cv p e n in
        elim (Option-cases (backup_of db c u)) [
          | inr (old, o) ↦
              let d : Db = write_backup now old.id w db in
              let (eb, ed) =
                returns_once (put now c u w db) (overwrite now w old) b d db'
                  (put_again now c u w db v q allowed old o) h in
              let v' : IsValid d = IsValid-irrelevant db d refl refl (omega arith) v in
              rw (ed, eb)
                (
                  get_reads c u d (overwrite now w old) (authorize_member c u d v' cv p e n)
                      (rw
                        (count-update_where (is_backup c u) (has_backup_id old.id) (overwrite now w)
                          db.backups (λ x. refl))
                        (q.pair_unique c u))
                      (overwritten_mine now c u w db q old o),
                  refl,
                  overwritten_other now c u w db q old o,
                )
          | inl o ↦
              let k : ConversationKeyBackup = new_backup now c u w db.next_id in
              let d : Db = stored k db in
              let (eb, ed) =
                returns_once (put now c u w db) k b d db'
                  (put_first now c u w db v q allowed cv e o) h in
              let v' : IsValid d = IsValid-irrelevant db d refl refl (omega arith) v in
              rw (ed, eb)
                (
                  get_reads c u d k (authorize_member c u d v' cv p e n) (added_one now c u w db o)
                      (added_mine now c u w db o),
                  refl,
                  added_other now c u w db o,
                )
        ]
  ]
]
