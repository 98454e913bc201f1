-- ===== src/IdentityKey/Repository.antt =====
-- backend/src/repositories/identity_key_repository.py.
use pqc_grade_a.Base.{
  ℕ, Bool, ◌&&◌, Option, none, some, List, [], ◌∷◌, ◌++◌, ◌==◌, leb, is_none, if◌then◌else◌, select,
  first_where, update_where, take,
}
use pqc_grade_a.Base.Sort.{order_by}
use pqc_grade_a.Db.{Db, IdentityKeyRecord}
use pqc_grade_a.Exec.{Action, pure, gets, lift, ◌>>=◌, ◌>>◌, modify, fresh_id, scalar_one_or_none}

abbrev pub is_key : ℕ → IdentityKeyRecord → Bool
is_key i k = k.id == i

abbrev pub owned_by : ℕ → IdentityKeyRecord → Bool
owned_by u k = k.user_id == u

abbrev pub is_current : ℕ → IdentityKeyRecord → Bool
is_current u k = k.user_id == u && is_none k.superseded_at

unfoldable pub get_by_id : ℕ → Action (Option IdentityKeyRecord)
get_by_id i = gets (λ db. first_where (is_key i) db.identity_keys)

abbrev pub newer_version : IdentityKeyRecord → IdentityKeyRecord → Bool
newer_version a b = leb b.key_version a.key_version

abbrev pub active_keys : Db → ℕ → List IdentityKeyRecord
active_keys db u = order_by newer_version (select (is_current u) db.identity_keys)

unfoldable pub list_active_for_user : ℕ → Action (List IdentityKeyRecord)
list_active_for_user u = gets (λ db. active_keys db u)

-- Without a version the newest; with one, the key of that version, of which there is one at most.
unfoldable pub get_active_for_user : ℕ → Option ℕ → Action (Option IdentityKeyRecord)
get_active_for_user u none = do
  rows ← gets (λ db. take 1 (active_keys db u))
  lift (scalar_one_or_none rows)
get_active_for_user u (some version) = do
  rows ← gets (λ db. select (λ k. is_current u k && k.key_version == version) db.identity_keys)
  lift (scalar_one_or_none rows)

abbrev pub set_superseded : ℕ → IdentityKeyRecord → IdentityKeyRecord
set_superseded now k = record k { superseded_at = some now }

unfoldable pub mark_superseded : ℕ → IdentityKeyRecord → Action (Unit {0})
mark_superseded now key =
    if is_none key.superseded_at
    then modify (λ db. record db {
      identity_keys = update_where (is_key key.id) (set_superseded now) db.identity_keys;
    })
    else pure tt

-- `BaseRepository.add`, under a fresh primary key.
unfoldable pub add : (ℕ → IdentityKeyRecord) → Action IdentityKeyRecord
add row = do
  i ← fresh_id
  modify (λ db. record db { identity_keys = db.identity_keys ++ row i ∷ [] })
  pure (row i)
