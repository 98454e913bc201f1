-- ===== src/Messaging/Pagination.antt =====
-- Following the cursors reads the whole conversation: every message once, oldest first.
use mathlib.Core.List.{reverse, reverse-append, reverse-reverse, append_assoc}
use mathlib.Core.Option
use native.Mathlib.Numerals.{add-one}
use pqc_grade_a.Base.{
  ℕ, zero, suc, ◌+◌, ◌≤◌, ◌<◌, ◌≡◌, refl, sym, ◌∙◌, ap, true, false, Option, none, some, List, [],
  ◌∷◌, ◌++◌, Text, ◌==◌, ltb, arith, length, take, drop, length-take, length-append, if◌then◌else◌,
  Bool-cases, inl, inr, select, count,
}
use pqc_grade_a.Base.Sort.{order_by, count-order_by}
use pqc_grade_a.Base.SortLaws.{order_by-Ordered, select-order_by}
use pqc_grade_a.Db.{Db, Message}
use pqc_grade_a.Exec.{ok, err}
use pqc_grade_a.Conversation.Repository.{message_of}
use pqc_grade_a.Messaging.Cursor.{Codec, RoundTrips, encode_cursor}
use pqc_grade_a.Messaging.CursorLaws.{decode_cursor-encode_cursor}
use pqc_grade_a.Messaging.Repository.{
  newest_first, strictly_older, in_page, page_size, page_of, last_cursor, decode_before,
  list_for_conversation,
}
use pqc_grade_a.Messaging.Older.{
  newest_first-IsPreorder, older, select-older, select-select, count-select_le, take-take,
  take-append-drop, take_all,
}

-- The page of `size` and the cursor, from the rows that remain.
page_of-take :
    (k : Codec) (size : ℕ) (rows : List Message)
    → page_of k size (take (suc size) rows) ≡ (
      reverse (take size rows),
      if ltb size (length rows) then last_cursor k (reverse (take size rows)) else none,
    )
unfolding page_of
page_of-take k size rows = ground (arith, take-take size rows, length-take (suc size) rows)

-- The conversation's messages, newest first.
abbrev pub timeline : ℕ → Db → List Message
timeline c db = order_by newest_first (select (message_of c) db.messages)

-- The rows from which the page at a position is taken.
abbrev remaining : ℕ → Option (ℕ × ℕ) → Db → List Message
remaining c at db = order_by newest_first (select (in_page c at) db.messages)

-- A client that reads page after page, following the cursors, and puts each older page in front.
pub read_from : Codec → ℕ → ℕ → Db → ℕ → Option Text → Option (List Message)
read_from k c limit db zero before = none
read_from k c limit db (suc fuel) before = elim (list_for_conversation k c before limit db).0 [
  | err e ↦ none
  | ok r ↦ elim r.1 [
    | none ↦ some r.0
    | some cursor ↦ Option.map (λ older. older ++ r.0) (read_from k c limit db fuel (some cursor))
  ]
]

module _ (k : Codec) (c limit : ℕ) (db : Db) where
  abbrev size : ℕ
  size = page_size limit

  size_pos : 1 ≤ size
  size_pos = omega arith

  list_lem :
      (before : Option Text) (at : Option (ℕ × ℕ))
      → decode_before k before ≡ ok at
      → list_for_conversation k c before limit db
        ≡ (ok (page_of k size (take (suc size) (remaining c at db))), db)
  unfolding list_for_conversation
  list_lem before at e = rw (sym (add-one size)) (ground arith)

  module _ (unique : (i : ℕ) → count (λ m. m.id == i) db.messages ≤ 1) where
    -- Behind the last row of a page stand the rows of the next one.
    remaining_next :
        (pre post : List Message) (m : Message)
        → timeline c db ≡ pre ++ m ∷ post
        → remaining c (some (m.sent_at, m.id)) db ≡ post
    remaining_next pre post m e =
        let rows : remaining c (some (m.sent_at, m.id)) db ≡ select (older m) (timeline c db) =
          (rw (select-select (message_of c) (strictly_older m.sent_at m.id) db.messages) (
            sym (
              select-order_by newest_first newest_first-IsPreorder (strictly_older m.sent_at m.id)
                (select (message_of c) db.messages)))) in
        let few : count (λ x. x.id == m.id) (timeline c db) ≤ 1 = omega (
          arith,
          unique m.id,
          count-order_by newest_first (λ (x : Message). x.id == m.id)
              (select (message_of c) db.messages),
          count-select_le (message_of c) (λ x. x.id == m.id) db.messages,
        ) in
        rows
        ∙ rw e (
            select-older m pre post
              (rw e at (
                order_by-Ordered newest_first newest_first-IsPreorder
                  (select (message_of c) db.messages)))
              (rw e at few))

    reverse_split :
        (rows : List Message) → reverse rows ≡ reverse (drop size rows) ++ reverse (take size rows)
    reverse_split rows =
        ap reverse (sym (take-append-drop size rows))
        ∙ reverse-append (take size rows) (drop size rows)

    length_split :
        (rows : List Message) → length rows ≡ length (take size rows) + length (drop size rows)
    length_split rows =
        ap length (sym (take-append-drop size rows))
        ∙ length-append (take size rows) (drop size rows)

    -- The state of the reader: the rows still to be read end the timeline.
    record Reads (before : Option Text) (rows : List Message) : Type 0 where
      at : Option (ℕ × ℕ)
      decoded : decode_before k before ≡ ok at
      rest : remaining c at db ≡ rows
      read : List Message
      split : timeline c db ≡ read ++ rows

    page_result :
        (before : Option Text) (rows : List Message)
        → Reads before rows
        → (list_for_conversation k c before limit db).0
          ≡ ok (
            reverse (take size rows),
            if ltb size (length rows) then last_cursor k (reverse (take size rows)) else none,
          )
    page_result before rows r =
        rw (list_lem before r.at r.decoded) (rw r.rest (ap ok (page_of-take k size rows)))

    module _ (laws : RoundTrips k) where
      -- The reader after a page whose oldest message is `m`.
      next-Reads :
          (before : Option Text) (rows ms : List Message) (m : Message)
          → Reads before rows
          → reverse (take size rows) ≡ m ∷ ms
          → Reads (some (encode_cursor k m.sent_at m.id)) (drop size rows)
      next-Reads before rows ms m r e =
          let page : take size rows ≡ reverse ms ++ m ∷ [] =
            sym (reverse-reverse (take size rows)) ∙ ap reverse e ∙ reverse-append (m ∷ []) ms in
          let whole : timeline c db ≡ (r.read ++ take size rows) ++ drop size rows =
            r.split
            ∙ ap (λ (xs : List Message). r.read ++ xs) (sym (take-append-drop size rows))
            ∙ sym (append_assoc r.read (take size rows) (drop size rows)) in
          record {
            at = some (m.sent_at, m.id);
            decoded = ground (arith, decode_cursor-encode_cursor k m.sent_at m.id laws);
            rest =
                remaining_next (r.read ++ reverse ms) (drop size rows) m
                  (whole ∙ simp (page, append_assoc));
            read = r.read ++ take size rows;
            split = whole;
          }

      step_done :
          (fuel : ℕ) (before : Option Text) (rows : List Message)
          → Reads before rows
          → ltb size (length rows) ≡ false
          → read_from k c limit db (suc fuel) before ≡ some (reverse rows)
      unfolding read_from
      step_done fuel before rows r e =
          rw (page_result before rows r, read_from)
            (rw e
              (ap (λ (xs : List Message). some (reverse xs)) (take_all size rows (ground arith))))

      step_more :
          (fuel : ℕ) (before : Option Text) (rows ms : List Message) (m : Message)
          → Reads before rows
          → ltb size (length rows) ≡ true
          → reverse (take size rows) ≡ m ∷ ms
          → read_from k c limit db (suc fuel) before
            ≡ Option.map
                (λ older. older ++ reverse (take size rows))
                (read_from k c limit db fuel (some (encode_cursor k m.sent_at m.id)))
      unfolding read_from
      step_more fuel before rows ms m r e p =
          rw (page_result before rows r, read_from) (rw (e, p) (simp p))

      -- The page of a reader that has more to read is not empty.
      page_cases :
          (rows page : List Message)
          → reverse (take size rows) ≡ page
          → ltb size (length rows) ≡ true
          → (m : Message) × (ms : List Message) × (page ≡ m ∷ ms)
      page_cases rows [] e more =
          let gone : take size rows ≡ [] = sym (reverse-reverse (take size rows)) ∙ ap reverse e in
          absurd (ground (arith, length-take size rows, ap length gone, size_pos))
      page_cases rows (m ∷ ms) e more = (m, ms, refl)

      read_from_lem :
          (fuel : ℕ) (before : Option Text) (rows : List Message)
          → Reads before rows
          → length rows < fuel
          → read_from k c limit db fuel before ≡ some (reverse rows)
      read_from_lem zero before rows r h = absurd (omega arith)
      read_from_lem (suc fuel) before rows r h = elim (Bool-cases (ltb size (length rows))) [
        | inr e ↦ step_done fuel before rows r e
        | inl e ↦
            let (m, ms, p) = page_cases rows (reverse (take size rows)) refl e in
            let shorter : length (drop size rows) < fuel =
              ground (arith, length_split rows, length-take size rows, size_pos) in
            step_more fuel before rows ms m r e p
            ∙ ap (Option.map (λ older. older ++ reverse (take size rows))) (
                read_from_lem fuel (some (encode_cursor k m.sent_at m.id)) (drop size rows)
                  (next-Reads before rows ms m r p) shorter)
            ∙ ap some (sym (reverse_split rows))
      ]

-- Following the cursors from the newest page on, with a message for each turn of fuel and one
-- more, reads the messages of a conversation, each once, oldest first, for every page size.
-- Message ids are unique, and the texts of times and ids read back.
pub read_all :
    (k : Codec) (c limit fuel : ℕ) (db : Db)
    → RoundTrips k
    → ((i : ℕ) → count (λ m. m.id == i) db.messages ≤ 1)
    → length (timeline c db) < fuel
    → read_from k c limit db fuel none ≡ some (reverse (timeline c db))
read_all k c limit fuel db laws unique enough =
    read_from_lem k c limit db unique laws fuel none (timeline c db)
      (record { at = none; decoded = refl; rest = refl; read = []; split = refl }) enough
