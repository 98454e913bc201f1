-- ===== src/Messaging/Repository.antt =====
-- backend/src/repositories/message_repository.py.
use pqc_grade_a.Base.{
  ℕ, ◌+◌, Bool, ◌&&◌, ◌||◌, not, Option, none, some, List, [], ◌∷◌, ◌++◌, Text, min, max, ltb, leb,
  ◌==◌, length, take, if◌then◌else◌, select, first_where, exists,
}
use mathlib.Core.List.{reverse}
use pqc_grade_a.Base.Sort.{order_by}
use pqc_grade_a.Errors.{integrity_error}
use pqc_grade_a.Db.{Message}
use pqc_grade_a.Exec.{Action, Result, ok, pure, gets, lift, ◌>>=◌, ◌>>◌, raise_if, modify, fresh_id}
use pqc_grade_a.Conversation.Repository.{has_id, message_of}
use pqc_grade_a.Messaging.Cursor.{Codec, encode_cursor, decode_cursor}

abbrev pub default_page_size : ℕ
default_page_size = 50

abbrev pub max_page_size : ℕ
max_page_size = 200

-- `min(max(1, limit), _MAX_PAGE_SIZE)`; a limit below 0 is as 0.
abbrev pub page_size : ℕ → ℕ
page_size limit = min (max 1 limit) max_page_size

-- `ORDER BY sent_at DESC, id DESC`
abbrev pub newest_first : Message → Message → Bool
newest_first a b = ltb b.sent_at a.sent_at || (a.sent_at == b.sent_at && leb b.id a.id)

-- `(sent_at, id) < (cursor_sent_at, cursor_id)`
abbrev pub strictly_older : ℕ → ℕ → Message → Bool
strictly_older sent_at message_id m =
    ltb m.sent_at sent_at || (m.sent_at == sent_at && ltb m.id message_id)

-- The `WHERE` clause.
abbrev pub in_page : ℕ → Option (ℕ × ℕ) → Message → Bool
in_page c none m = message_of c m
in_page c (some (t, i)) m = message_of c m && strictly_older t i m

abbrev pub last_cursor : Codec → List Message → Option Text
last_cursor k [] = none
last_cursor k (m ∷ ms) = some (encode_cursor k m.sent_at m.id)

-- The page from the fetched rows, of which there is one more than `size` if older ones exist.
unfoldable pub page_of : Codec → ℕ → List Message → List Message × Option Text
page_of k size rows =
    let page = reverse (take size rows) in
    (page, if ltb size (length rows) then last_cursor k page else none)

abbrev pub decode_before : Codec → Option Text → Result (Option (ℕ × ℕ))
decode_before k none = ok none
decode_before k (some cursor) = elim (decode_cursor k cursor) [
  | Result.ok at ↦ ok (some at)
  | Result.err e ↦ Result.err e
]

unfoldable pub list_for_conversation :
    Codec → ℕ → Option Text → ℕ → Action (List Message × Option Text)
list_for_conversation k c before limit = do
  at ← lift (decode_before k before)
  rows ←
      gets
        λ db. take (page_size limit + 1) (order_by newest_first (select (in_page c at) db.messages))
  pure (page_of k (page_size limit) rows)

-- `BaseRepository.add`, under a fresh primary key and the foreign key to the conversation.
unfoldable pub add : ℕ → (ℕ → Message) → Action Message
add c row = do
  raise_if (not (← gets (λ db. exists (has_id c) db.conversations))) integrity_error
  i ← fresh_id
  modify (λ db. record db { messages = db.messages ++ row i ∷ [] })
  pure (row i)

unfoldable pub get_by_id : ℕ → Action (Option Message)
get_by_id i = gets (λ db. first_where (λ m. m.id == i) db.messages)
