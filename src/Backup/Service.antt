-- ===== src/Backup/Service.antt =====
-- backend/src/repositories/conversation_key_backup_repository.py and
-- backend/src/services/conversation_key_backup_service.py.
use pqc_grade_a.Base.{
  ℕ, Bool, ◌&&◌, not, Option, none, some, [], ◌∷◌, ◌++◌, Text, Bytes, ◌==◌, is_some, select, exists,
  update_where,
}
use pqc_grade_a.Errors.{messaging, conversation_not_found, not_participant, integrity_error}
use pqc_grade_a.Db.{Db, ConversationKeyBackup}
use pqc_grade_a.Exec.{
  Action, pure, gets, lift, ◌>>=◌, ◌>>◌, raise_if, or_raise, modify, fresh_id, scalar_one_or_none,
}
use pqc_grade_a.Conversation.Repository.{has_id, get_by_id, get_participant}

-- The wrapped key with the parameters to unwrap it.
pub record WrappedKey : Type 0 where
  pub wrapped_key : Bytes
  pub wrap_nonce : Bytes
  pub wrap_kdf_salt : Bytes
  pub wrap_kdf_params : Text
  pub wrap_alg : Text

abbrev pub is_backup : ℕ → ℕ → ConversationKeyBackup → Bool
is_backup c u b = b.conversation_id == c && b.user_id == u

abbrev pub has_backup_id : ℕ → ConversationKeyBackup → Bool
has_backup_id i b = b.id == i

unfoldable pub get_for_user : ℕ → ℕ → Action (Option ConversationKeyBackup)
get_for_user c u = do
  rows ← gets (λ db. select (is_backup c u) db.backups)
  lift (scalar_one_or_none rows)

abbrev pub overwrite : ℕ → WrappedKey → ConversationKeyBackup → ConversationKeyBackup
overwrite now w b = record b {
  wrapped_key = w.wrapped_key;
  wrap_nonce = w.wrap_nonce;
  wrap_kdf_salt = w.wrap_kdf_salt;
  wrap_kdf_params = w.wrap_kdf_params;
  wrap_alg = w.wrap_alg;
  updated_at = now;
}

abbrev pub new_backup : ℕ → ℕ → ℕ → WrappedKey → ℕ → ConversationKeyBackup
new_backup now c u w i = record {
  id = i;
  conversation_id = c;
  user_id = u;
  wrapped_key = w.wrapped_key;
  wrap_nonce = w.wrap_nonce;
  wrap_kdf_salt = w.wrap_kdf_salt;
  wrap_kdf_params = w.wrap_kdf_params;
  wrap_alg = w.wrap_alg;
  created_at = now;
  updated_at = now;
}

-- `BaseRepository.add` of a backup: the conversation is known and the pair unique.
unfoldable pub add : ℕ → ℕ → (ℕ → ConversationKeyBackup) → Action ConversationKeyBackup
add c u row = do
  raise_if (not (← gets (λ db. exists (has_id c) db.conversations))) integrity_error
  raise_if (← gets (λ db. exists (is_backup c u) db.backups)) integrity_error
  i ← fresh_id
  modify (λ db. record db { backups = db.backups ++ row i ∷ [] })
  pure (row i)

abbrev pub write_backup : ℕ → ℕ → WrappedKey → Db → Db
write_backup now i w db = record db {
  backups = update_where (has_backup_id i) (overwrite now w) db.backups;
}

unfoldable pub upsert : ℕ → ℕ → ℕ → WrappedKey → Action ConversationKeyBackup
upsert now c u w = do
  existing ← get_for_user c u
  elim existing [
    | some b ↦ (modify (write_backup now b.id w) >> pure (overwrite now w b))
    | none ↦ add c u (new_backup now c u w)
  ]

unfoldable pub authorize : ℕ → ℕ → Action (Unit {0})
authorize c u = do
  conversation ← get_by_id c
  or_raise conversation (messaging conversation_not_found)
  found ← get_participant c u
  p ← or_raise found (messaging not_participant)
  raise_if (is_some p.left_at) (messaging not_participant)

unfoldable pub put : ℕ → ℕ → ℕ → WrappedKey → Action ConversationKeyBackup
put now c u w = do authorize c u; upsert now c u w

unfoldable pub get : ℕ → ℕ → Action (Option ConversationKeyBackup)
get c u = do authorize c u; get_for_user c u
