-- ===== src/Conversation/Turns.antt =====
-- Calls of `create_direct` in turns: the search, and the inserts with their commit.
use pqc_grade_a.Base.{ℕ, ◌≡◌, Option, List, [], ◌∷◌, ◌⊎◌, arith, ◌==◌, Text}
use pqc_grade_a.Db.{Db, Conversation}
use pqc_grade_a.Errors.{messaging, invalid_conversation_request}
use pqc_grade_a.Exec.{Result, ok, err, Action, ◌>>◌, raise_if, request}
use pqc_grade_a.Conversation.Repository.{find_direct}
use pqc_grade_a.Conversation.Service.{after_search, create_direct}

-- A call of `create_direct` for one other user.
pub record Call : Type 0 where
  pub at : ℕ
  pub caller : ℕ
  pub peer : ℕ
  pub name : Option Text

-- Where a call is: before its search, past it, or at the end of its request.
pub data Progress : Type 0 where
  started : Progress
  searched : Option Conversation → Progress
  finished : Result Conversation → Progress

-- The checks and the search, which only read.
abbrev pub search : Call → Action (Option Conversation)
search c = do
  raise_if (c.peer == c.caller) (messaging invalid_conversation_request)
  find_direct c.caller c.peer

abbrev after_search_of : Result (Option Conversation) → Progress
after_search_of (ok found) = searched found
after_search_of (err e) = finished (err e)

abbrev rest : Call → Option Conversation → Action Conversation
rest c found = request (after_search c.at c.caller c.peer c.name found)

-- The next statements of a call: its search, or its inserts with their commit.
unfoldable pub step : Call → Progress × Db → Progress × Db
step c (started, db) = let (r, db') = search c db in (after_search_of r, db')
step c (searched found, db) = let (r, db') = rest c found db in (finished r, db')
step c (finished r, db) = (finished r, db)

pub data Turn : Type 0 where
  one two : Turn

pub record Race : Type 0 where
  pub first : Progress
  pub second : Progress
  pub tables : Db

abbrev pub turn : Call → Call → Turn → Race → Race
turn c d one r =
    let (p, db) = step c (r.first, r.tables) in record { first = p; second = r.second; tables = db }
turn c d two r =
    let (p, db) = step d (r.second, r.tables) in record { first = r.first; second = p; tables = db }

abbrev pub interleave : Call → Call → List Turn → Race → Race
interleave c d [] r = r
interleave c d (t ∷ ts) r = interleave c d ts (turn c d t r)

-- The call is of one of two users for the other.
abbrev pub Joins : ℕ → ℕ → Call → Type 0
Joins a b c = ((c.caller ≡ a) × (c.peer ≡ b)) ⊎ ((c.caller ≡ b) × (c.peer ≡ a))

-- The two steps of a call that is alone are `create_direct`.
pub step_twice :
    (c : Call) (db : Db)
    → step c (step c (started, db)) ≡ (
      finished (request (create_direct c.at c.caller (c.peer ∷ []) c.name) db).0,
      (request (create_direct c.at c.caller (c.peer ∷ []) c.name) db).1,
    )
unfolding step create_direct find_direct request
step_twice c db = ground arith

abbrev pub beginning : Db → Race
beginning db = record { first = started; second = started; tables = db }

abbrev pub other : Turn → Turn
other one = two
other two = one
