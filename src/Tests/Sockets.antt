-- ===== src/Tests/Sockets.antt =====
-- Tests of the registry of sockets.
use pqc_grade_a.Base.{
  ◌↔◌, true, ℕ, ◌≡◌, refl, arith, none, List, [], ◌∷◌, ◌==◌, some, exists, delete_where, codes,
  Text, false, length, Bool,
}
use pqc_grade_a.Socket.Manager.{
  Manager, empty_manager, SocketEvent, connected, disconnected, delivered, run_events,
  deliver_locally, connect, disconnect, drop_broken,
}
use pqc_grade_a.Socket.Tracking.{IsTracked}
use pqc_grade_a.Socket.Refinement.{opened, spec_run, run_events_refines}
use pqc_grade_a.Db.{Json, text, int, other}
use pqc_grade_a.Conversation.Invariant.{IsValid, IsValid-irrelevant}
use pqc_grade_a.Socket.Realtime.{Parsers, FrameData, Frame, no_json, object, Connection, realtime}
use pqc_grade_a.Socket.Connection.{realtime_closes}
use pqc_grade_a.Tests.World.{coercion, world, world-IsValid}
use pqc_grade_a.Tests.Accounts.{bank}
use pqc_grade_a.Tests.Directory.{signer, json}
use pqc_grade_a.Socket.Delivery.{is_open}

-- Of the sockets 5 and 6 of user 1, a send to 6 fails.
abbrev works : ℕ → Bool
works s = s == 5

abbrev events : List SocketEvent
events = connected 1 5 ∷ connected 1 6 ∷ connected 2 7 ∷ delivered works 1 ∷ disconnected 2 7 ∷ []

left_open : (run_events events empty_manager).connections 1 ≡ some (5 ∷ [])
unfolding run_events connect disconnect deliver_locally drop_broken exists delete_where
left_open = refl

empty-IsTracked : IsTracked empty_manager
empty-IsTracked = record { subscribed = λ u. refl; nonempty = λ u. refl }

run_events_refines_example :
    ((w t : ℕ)
      → is_open w t (run_events events empty_manager) ≡ spec_run events (opened empty_manager) w t)
    × ((w : ℕ)
        → ((run_events events empty_manager).subscribed w ≡ true)
          ↔ ((t : ℕ) × (spec_run events (opened empty_manager) w t ≡ true)))
run_events_refines_example = run_events_refines events empty_manager empty-IsTracked

abbrev two : Manager
two = connect 1 5 (connect 1 6 empty_manager)

two-new : (w : ℕ) → is_open w 9 two ≡ false
unfolding connect exists
two-new w = ground arith

bank-IsValid : IsValid bank
bank-IsValid = IsValid-irrelevant world bank refl refl (omega arith) world-IsValid

abbrev as_str : Json → Text
as_str (text t) = t
as_str (int n) = []
as_str (other n) = []

abbrev parsers : Parsers
parsers = record { to_str = as_str; uuid = λ s. some (length s) }

abbrev unread : FrameData
unread = record {
  conversation_id = none;
  ciphertext = none;
  sender_identity_key_id = none;
  envelope = none;
}

-- A frame of another type, and one that is no JSON.
abbrev frames : List (ℕ × Frame)
frames = (7, object (some (text (codes "ping"))) unread) ∷ (8, no_json) ∷ []

abbrev ended : Connection
ended = realtime coercion parsers signer json 30 (some (codes "..")) 9 frames bank two

realtime_closes_example :
    IsValid ended.tables × ((w t : ℕ) → is_open w t ended.manager ≡ is_open w t two)
realtime_closes_example =
    realtime_closes coercion parsers 9 frames two two-new signer json 30 (some (codes "..")) bank
      bank-IsValid
