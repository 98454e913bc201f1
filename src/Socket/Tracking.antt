-- ===== src/Socket/Tracking.antt =====
-- An instance subscribes to the channels of exactly the users with an open socket.
use pqc_grade_a.Base.{
  ℕ, ◌≡◌, refl, Bool, true, false, Option, none, some, List, [], ◌∷◌, ◌==◌, exists, delete_where,
  arith, inl, inr, Bool-cases, Option-cases,
}
use pqc_grade_a.Socket.Manager.{
  Manager, sockets_of, with_socket, connect, after_discard, disconnect, drop_broken,
  deliver_locally, SocketEvent, connected, disconnected, delivered, run_events,
}

-- A user with an entry has a socket in it.
abbrev pub has_socket : Option (List ℕ) → Bool
has_socket none = false
has_socket (some []) = false
has_socket (some (s ∷ ss)) = true

abbrev pub has_entry : Option (List ℕ) → Bool
has_entry none = false
has_entry (some ss) = true

pub record IsTracked (m : Manager) : Type 0 where
  pub subscribed : (u : ℕ) → m.subscribed u ≡ has_socket (m.connections u)
  pub nonempty : (u : ℕ) → has_entry (m.connections u) ≡ has_socket (m.connections u)

with_socket_filled : (s : ℕ) (ss : List ℕ) → has_socket (some (with_socket s ss)) ≡ true
unfolding exists
with_socket_filled s [] = refl
with_socket_filled s (t ∷ ts) = elim (Bool-cases (exists (λ x. x == s) (t ∷ ts))) [
  | inl e ↦ rw e refl
  | inr e ↦ rw e refl
]

connect-IsTracked : (u s : ℕ) (m : Manager) → IsTracked m → IsTracked (connect u s m)
unfolding connect
connect-IsTracked u s m v = record {
  subscribed = λ w. elim (Bool-cases (w == u)) [
    | inl e ↦ rw e (ground (arith, with_socket_filled s (sockets_of (m.connections u))))
    | inr e ↦ rw e (v.subscribed w)
  ];
  nonempty = λ w. elim (Bool-cases (w == u)) [
    | inl e ↦ rw e (ground (arith, with_socket_filled s (sockets_of (m.connections u))))
    | inr e ↦ rw e (v.nonempty w)
  ];
}

discard-IsTracked :
    (u : ℕ) (ss old : List ℕ) (m : Manager)
    → IsTracked m
    → m.connections u ≡ some old
    → IsTracked (after_discard u ss m)
discard-IsTracked u [] old m v h = record {
  subscribed =
      λ w. elim (Bool-cases (w == u)) [ inl e ↦ rw e refl | inr e ↦ rw e (v.subscribed w) ];
  nonempty = λ w. elim (Bool-cases (w == u)) [ inl e ↦ rw e refl | inr e ↦ rw e (v.nonempty w) ];
}
discard-IsTracked u (s ∷ ss) old m v h = record {
  subscribed = λ w. elim (Bool-cases (w == u)) [
    | inl e ↦ ground (arith, v.subscribed u, v.nonempty u)
    | inr e ↦ rw e (v.subscribed w)
  ];
  nonempty = λ w. elim (Bool-cases (w == u)) [ inl e ↦ rw e refl | inr e ↦ rw e (v.nonempty w) ];
}

module _ (u s : ℕ) (m : Manager) where
  pub disconnect_unknown : m.connections u ≡ none → disconnect u s m ≡ m
  unfolding disconnect
  disconnect_unknown e = ground arith

  pub disconnect_known :
      (ss : List ℕ)
      → m.connections u ≡ some ss
      → disconnect u s m ≡ after_discard u (delete_where (λ t. t == s) ss) m
  unfolding disconnect
  disconnect_known ss e = ground arith

disconnect-IsTracked : (u s : ℕ) (m : Manager) → IsTracked m → IsTracked (disconnect u s m)
disconnect-IsTracked u s m v = elim (Option-cases (m.connections u)) [
  | inl e ↦ rw (disconnect_unknown u s m e) v
  | inr (ss, e) ↦
      rw (disconnect_known u s m ss e)
        (discard-IsTracked u (delete_where (λ t. t == s) ss) ss m v e)
]

drop_broken-IsTracked :
    (works : ℕ → Bool) (u : ℕ) (ss : List ℕ) (m : Manager)
    → IsTracked m
    → IsTracked (drop_broken works u ss m)
unfolding drop_broken
drop_broken-IsTracked works u [] m v = v
drop_broken-IsTracked works u (s ∷ ss) m v = elim (Bool-cases (works s)) [
  | inl e ↦ rw e (drop_broken-IsTracked works u ss m v)
  | inr e ↦
      rw e (drop_broken-IsTracked works u ss (disconnect u s m) (disconnect-IsTracked u s m v))
]

-- After any connections, disconnections and deliveries, the instance subscribes to the channel of
-- a user exactly if the user has an open socket, and no entry is empty, if this held before.
pub run_events-IsTracked :
    (es : List SocketEvent) (m : Manager) → IsTracked m → IsTracked (run_events es m)
unfolding run_events deliver_locally
run_events-IsTracked [] m v = v
run_events-IsTracked (connected u s ∷ es) m v =
    run_events-IsTracked es (connect u s m) (connect-IsTracked u s m v)
run_events-IsTracked (disconnected u s ∷ es) m v =
    run_events-IsTracked es (disconnect u s m) (disconnect-IsTracked u s m v)
run_events-IsTracked (delivered works u ∷ es) m v =
    run_events-IsTracked es (deliver_locally works u m)
      (drop_broken-IsTracked works u (sockets_of (m.connections u)) m v)
