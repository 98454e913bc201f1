-- ===== src/Socket/Manager.antt =====
-- `ConnectionManager` of backend/src/api/ws/connection_manager.py. The sockets of a user, and whether
-- a task subscribes to the user's channel. `works` tells of a socket whether a send to it succeeds.
use pqc_grade_a.Base.{
  ℕ, Bool, true, false, Option, none, some, List, [], ◌∷◌, ◌==◌, if◌then◌else◌, exists,
  delete_where,
}

pub record Manager : Type 0 where
  pub connections : ℕ → Option (List ℕ)
  pub subscribed : ℕ → Bool

abbrev pub empty_manager : Manager
empty_manager = record { connections = λ u. none; subscribed = λ u. false }

abbrev pub set_at {ℓ} : {A : Type ℓ} → ℕ → A → (ℕ → A) → ℕ → A
set_at u a f w = if w == u then a else f w

abbrev pub sockets_of : Option (List ℕ) → List ℕ
sockets_of none = []
sockets_of (some ss) = ss

-- `set.add`
abbrev pub with_socket : ℕ → List ℕ → List ℕ
with_socket s ss = if exists (λ t. t == s) ss then ss else s ∷ ss

unfoldable pub connect : ℕ → ℕ → Manager → Manager
connect u s m = record {
  connections = set_at u (some (with_socket s (sockets_of (m.connections u)))) m.connections;
  subscribed = set_at u true m.subscribed;
}

-- After the socket is discarded: the entry and the task go with the last one.
abbrev pub after_discard : ℕ → List ℕ → Manager → Manager
after_discard u [] m = record {
  connections = set_at u none m.connections;
  subscribed = set_at u false m.subscribed;
}
after_discard u (t ∷ ts) m = record m { connections = set_at u (some (t ∷ ts)) m.connections }

unfoldable pub disconnect : ℕ → ℕ → Manager → Manager
disconnect u s m = elim (m.connections u) [
  | none ↦ m
  | some ss ↦ after_discard u (delete_where (λ t. t == s) ss) m
]

-- The loop of `_deliver_locally` over a copy of the set.
unfoldable pub drop_broken : (ℕ → Bool) → ℕ → List ℕ → Manager → Manager
drop_broken works u [] m = m
drop_broken works u (s ∷ ss) m = drop_broken works u ss (if works s then m else disconnect u s m)

unfoldable pub deliver_locally : (ℕ → Bool) → ℕ → Manager → Manager
deliver_locally works u m = drop_broken works u (sockets_of (m.connections u)) m

pub data SocketEvent : Type 0 where
  connected : ℕ → ℕ → SocketEvent
  disconnected : ℕ → ℕ → SocketEvent
  delivered : (ℕ → Bool) → ℕ → SocketEvent

abbrev pub on_event : SocketEvent → Manager → Manager
on_event (connected u s) m = connect u s m
on_event (disconnected u s) m = disconnect u s m
on_event (delivered works u) m = deliver_locally works u m

unfoldable pub run_events : List SocketEvent → Manager → Manager
run_events [] m = m
run_events (e ∷ es) m = run_events es (on_event e m)
