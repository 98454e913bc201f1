-- ===== src/Backup/Laws.antt =====
-- What `put` stores and `get` reads back.

use pqc_grade_a.Base.{
  ℕ, ◌+◌, ◌≤◌, ◌≡◌, refl, Option, none, some, [], ◌∷◌, ◌++◌, arith, first_where, count,
  exists_of_found, not_exists_of_count, count_of_none,
}
use pqc_grade_a.Errors.{messaging, conversation_not_found, not_participant}
use pqc_grade_a.Db.{Db, Conversation, ConversationParticipant, ConversationKeyBackup}
use pqc_grade_a.Exec.{ok, err, fresh_id}
use pqc_grade_a.Exec.Rows.{scalar_select}
use pqc_grade_a.Conversation.Repository.{has_id, get_by_id}
use pqc_grade_a.Conversation.Invariant.{IsValid}
use pqc_grade_a.Conversation.Outcomes.{active_membership, group_of, get_participant_lem}
use pqc_grade_a.Backup.Service.{
  WrappedKey, is_backup, has_backup_id, get_for_user, overwrite, new_backup, add, write_backup,
  upsert, authorize, put,
}

pub record UniqueBackups (db : Db) : Type 0 where
  pub pair_unique : (c u : ℕ) → count (is_backup c u) db.backups ≤ 1
  pub id_unique : (i : ℕ) → count (has_backup_id i) db.backups ≤ 1

abbrev pub backup_of : Db → ℕ → ℕ → Option ConversationKeyBackup
backup_of db c u = first_where (is_backup c u) db.backups

pub get_for_user_lem :
    (db : Db) (c u : ℕ)
    → count (is_backup c u) db.backups ≤ 1
    → get_for_user c u db ≡ (ok (backup_of db c u), db)
unfolding get_for_user
get_for_user_lem db c u h = rw (scalar_select (is_backup c u) db.backups h) refl

module _ (c u : ℕ) (db : Db) (v : IsValid db) where
  pub authorize_unknown :
      group_of db c ≡ none → authorize c u db ≡ (err (messaging conversation_not_found), db)
  unfolding authorize get_by_id
  authorize_unknown e = ground arith

  pub authorize_outsider :
      (cv : Conversation)
      → group_of db c ≡ some cv
      → active_membership db c u ≡ none
      → authorize c u db ≡ (err (messaging not_participant), db)
  unfolding authorize get_by_id
  authorize_outsider cv e n = ground (arith, get_participant_lem db v c u)

  pub authorize_member :
      (cv : Conversation) (p : ConversationParticipant)
      → group_of db c ≡ some cv
      → active_membership db c u ≡ some p
      → authorize c u db ≡ (ok tt, db)
  unfolding authorize get_by_id
  authorize_member cv p e n = ground (arith, get_participant_lem db v c u)

abbrev pub stored : ConversationKeyBackup → Db → Db
stored b db = record db { backups = db.backups ++ b ∷ []; next_id = db.next_id + 1 }

module _ (now c u : ℕ) (w : WrappedKey) (db : Db) (v : IsValid db) (q : UniqueBackups db)
    (allowed : authorize c u db ≡ (ok tt, db)) where
  pub put_again :
      (b : ConversationKeyBackup)
      → backup_of db c u ≡ some b
      → put now c u w db ≡ (ok (overwrite now w b), write_backup now b.id w db)
  unfolding put upsert
  put_again b e = ground (arith, get_for_user_lem db c u (q.pair_unique c u))

  pub put_first :
      (cv : Conversation)
      → group_of db c ≡ some cv
      → backup_of db c u ≡ none
      → put now c u w db
        ≡ (ok (new_backup now c u w db.next_id), stored (new_backup now c u w db.next_id) db)
  unfolding put upsert add fresh_id
  put_first cv g e = ground (
    arith,
    get_for_user_lem db c u (q.pair_unique c u),
    exists_of_found (has_id c) db.conversations cv g,
    not_exists_of_count (is_backup c u) db.backups (count_of_none (is_backup c u) db.backups e),
  )
