-- ===== src/Socket/Realtime.antt =====
-- The connection of backend/src/api/ws/realtime.py: one socket from its upgrade to its end. The frames
-- that the client sends are a list, at whose end the client disconnects. A frame is a JSON text that
-- does not parse, a value that is no object, or an object with its `type` and its `data`.
use pqc_grade_a.Base.{
  ℕ, Bool, true, false, Option, none, some, List, [], ◌∷◌, Text, codes, text_eq, ◌==◌,
  if◌then◌else◌, delete_where,
}
use pqc_grade_a.Errors.{Error, MessagingError, messaging}
use pqc_grade_a.Db.{Db, Json, text, int, other, Envelope, Message}
use pqc_grade_a.Exec.{Result, ok, err, request}
use pqc_grade_a.Messaging.Envelope.{Coercion, validates}
use pqc_grade_a.Messaging.Service.{send}
use pqc_grade_a.Account.AccessTokens.{TokenSigner, ClaimsJson}
use pqc_grade_a.Account.Guard.{authenticate}
use pqc_grade_a.Api.Handlers.{Deliveries, fan_out, message_new}
use pqc_grade_a.Socket.Manager.{Manager, connect, disconnect}

-- `data` of a frame: the four keys of a `message.send`, where they are there. An envelope that is no
-- object does not validate, as if it were not there.
pub record FrameData : Type 0 where
  pub conversation_id : Option Json
  pub ciphertext : Option Json
  pub sender_identity_key_id : Option Json
  pub envelope : Option Envelope

pub data Frame : Type 0 where
  no_json no_object : Frame
  -- An object; without `type`, or with `null` there, it is `none`.
  object : Option Json → FrameData → Frame

-- `str` of a JSON value, and `UUID` of a text.
pub record Parsers : Type 0 where
  pub to_str : Json → Text
  pub uuid : Text → Option ℕ

pub data SocketError : Type 0 where
  invalid_envelope unknown_event : SocketError
  refused : MessagingError → SocketError

pub record SendRequest : Type 0 where
  pub conversation_id : ℕ
  pub ciphertext : Text
  pub sender_identity_key_id : ℕ
  pub envelope : Envelope

abbrev pub as_uuid : Parsers → Option Json → Option ℕ
as_uuid p none = none
as_uuid p (some j) = p.uuid (p.to_str j)

abbrev pub as_str : Parsers → Option Json → Option Text
as_str p none = none
as_str p (some j) = some (p.to_str j)

abbrev pub as_envelope : Coercion → Option Envelope → Option Envelope
as_envelope k none = none
as_envelope k (some e) = if validates k e then some e else none

-- `none` is the `KeyError`, `ValueError` or `ValidationError` of a malformed `message.send`.
unfoldable pub parse_send : Coercion → Parsers → FrameData → Option SendRequest
parse_send k p d = elim (as_uuid p d.conversation_id) [
  | none ↦ none
  | some c ↦ elim (as_str p d.ciphertext) [
    | none ↦ none
    | some s ↦ elim (as_uuid p d.sender_identity_key_id) [
      | none ↦ none
      | some i ↦ elim (as_envelope k d.envelope) [
        | none ↦ none
        | some e ↦ some (record {
          conversation_id = c;
          ciphertext = s;
          sender_identity_key_id = i;
          envelope = e;
        })
      ]
    ]
  ]
]

-- What one frame does: an error event to the socket or none, events to others, and whether an
-- exception ends the connection.
pub record Handled : Type 0 where
  pub reply : Option SocketError
  pub deliveries : Deliveries
  pub crashed : Bool

abbrev pub quiet : Handled
quiet = record { reply = none; deliveries = []; crashed = false }

-- A `MessagingError` is answered; any other exception goes through.
abbrev pub on_error : Error → Handled
on_error (messaging e) = record quiet { reply = some (refused e) }
on_error e = record quiet { crashed = true }

abbrev pub on_sent : ℕ → Message × List ℕ → Handled
on_sent sender saved = record quiet {
  deliveries = fan_out (message_new saved.0) (delete_where (λ u. u == sender) saved.1);
}

-- The scope commits where the error is answered inside it: `send` raises a `MessagingError` before
-- it writes.
abbrev pub scope : Error → Db → Db → Db
scope (messaging e) before after = after
scope e before after = before

unfoldable pub handle_message_send : Coercion → Parsers → ℕ → ℕ → FrameData → Db → Handled × Db
handle_message_send k p now sender d db = elim (parse_send k p d) [
  | none ↦ (record quiet { reply = some invalid_envelope }, db)
  | some r ↦
      let (result, db') =
        send k now sender r.conversation_id r.ciphertext (k.model_dump r.envelope)
          r.sender_identity_key_id db in
      elim result [ ok saved ↦ (on_sent sender saved, db') | err e ↦ (on_error e, scope e db db') ]
]

abbrev pub is_send : Json → Bool
is_send (text t) = text_eq t (codes "message.send")
is_send (int n) = false
is_send (other n) = false

unfoldable pub on_frame : Coercion → Parsers → ℕ → ℕ → Frame → Db → Handled × Db
on_frame k p now user no_json db = (record quiet { crashed = true }, db)
on_frame k p now user no_object db = (quiet, db)
on_frame k p now user (object none d) db = (quiet, db)
on_frame k p now user (object (some event_type) d) db =
    if is_send event_type
    then handle_message_send k p now user d db
    else (record quiet { reply = some unknown_event }, db)

-- The loop; each frame comes with the time of its handling.
unfoldable pub receive_loop : Coercion → Parsers → ℕ → List (ℕ × Frame) → Db → List Handled × Db
receive_loop k p user [] db = ([], db)
receive_loop k p user ((now, f) ∷ fs) db =
    let step = on_frame k p now user f db in
    let rest = receive_loop k p user fs step.1 in
    if step.0.crashed then (step.0 ∷ [], step.1) else (step.0 ∷ rest.0, rest.1)

pub record Connection : Type 0 where
  pub tables : Db
  pub manager : Manager
  pub handled : List Handled

-- The socket is registered while the loop runs, and taken out whatever ends it.
abbrev pub run_socket : Coercion → Parsers → ℕ → ℕ → List (ℕ × Frame) → Db → Manager → Connection
run_socket k p user socket frames db m =
    let (handled, db') = receive_loop k p user frames db in
    record {
      tables = db';
      manager = disconnect user socket (connect user socket m);
      handled = handled;
    }

-- Without an active session, or with a token that is refused, no connection is opened.
abbrev pub after_authentication :
    Coercion → Parsers → ℕ → List (ℕ × Frame) → Manager → Result (Option ℕ) → Db → Connection
after_authentication k p socket frames m (err e) db = record {
  tables = db;
  manager = m;
  handled = [];
}
after_authentication k p socket frames m (ok none) db = record {
  tables = db;
  manager = m;
  handled = [];
}
after_authentication k p socket frames m (ok (some user)) db =
    run_socket k p user socket frames db m

unfoldable pub realtime :
    Coercion
    → Parsers
    → TokenSigner
    → ClaimsJson
    → ℕ
    → Option Text
    → ℕ
    → List (ℕ × Frame)
    → Db
    → Manager
    → Connection
realtime k p signer json now token socket frames db m =
    let (who, db') = request (authenticate signer json now token) db in
    after_authentication k p socket frames m who db'
