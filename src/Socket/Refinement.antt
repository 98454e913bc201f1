-- ===== src/Socket/Refinement.antt =====
-- The registry of sockets against its specification: which socket of which user is open.
use pqc_grade_a.Base.{
  ℕ, ◌≡◌, ◌↔◌, refl, sym, ap, ◌∙◌, Bool, true, false, ◌&&◌, ◌||◌, not, Option, none, some, List, [],
  ◌∷◌, ◌==◌, ==_refl, ◌≢◌, ==_iff, arith, exists, inl, inr, Bool-cases,
}
use mathlib.Core.Path.{fun_ext, subst}
use pqc_grade_a.Socket.Manager.{
  Manager, sockets_of, with_socket, connect, disconnect, deliver_locally, SocketEvent, connected,
  disconnected, delivered, on_event, run_events,
}
use pqc_grade_a.Socket.Tracking.{has_socket, IsTracked, run_events-IsTracked}
use pqc_grade_a.Socket.Delivery.{is_open, disconnect_mine, disconnect_other, deliver_locally_lem}

exists-with_socket :
    (s t : ℕ) (ss : List ℕ)
    → exists (λ x. x == t) (with_socket s ss) ≡ (exists (λ x. x == t) ss || t == s)
unfolding exists
exists-with_socket s t ss = elim (Bool-cases (exists (λ x. x == s) ss)) [
  | inr e ↦ rw e (ground arith)
  | inl e ↦ rw e (elim (Bool-cases (t == s)) [
    | inl same ↦
        let eq : t ≡ s = ground arith in
        rw same (ground (arith, ap (λ i. exists (λ x. x == i) ss) eq))
    | inr apart ↦ rw apart (ground arith)
  ])
]

module _ (u s : ℕ) (m : Manager) where
  pub connect_mine : (t : ℕ) → is_open u t (connect u s m) ≡ (is_open u t m || t == s)
  unfolding connect
  connect_mine t = rw (==_refl u) (exists-with_socket s t (sockets_of (m.connections u)))

  pub connect_other : (w t : ℕ) → (w == u) ≡ false → is_open w t (connect u s m) ≡ is_open w t m
  unfolding connect
  connect_other w t e = rw e refl

-- The specification: a user and a socket to whether it is open.
abbrev pub Registry : Type 0
Registry = ℕ → ℕ → Bool

abbrev pub opened : Manager → Registry
opened m w t = is_open w t m

unfoldable pub spec_event : SocketEvent → Registry → Registry
spec_event (connected u s) r w t = r w t || (w == u && t == s)
spec_event (disconnected u s) r w t = r w t && not (w == u && t == s)
spec_event (delivered works u) r w t = r w t && (not (w == u) || works t)

unfoldable pub spec_run : List SocketEvent → Registry → Registry
spec_run [] r = r
spec_run (e ∷ es) r = spec_run es (spec_event e r)

-- A fact of the user of an event, and of every other user.
by_user : (P : ℕ → Type 0) (u w : ℕ) → P u → ((w == u) ≡ false → P w) → P w
by_user P u w mine other = elim (Bool-cases (w == u)) [
  | inl e ↦ subst P (sym ((==_iff w u).0 e)) mine
  | inr e ↦ other e
]

apart : {u w : ℕ} → (w == u) ≡ false → w ≢ u
apart h = λ e. ground arith

event_refines :
    (e : SocketEvent) (m : Manager) (w t : ℕ)
    → is_open w t (on_event e m) ≡ spec_event e (opened m) w t
unfolding spec_event
event_refines (connected u s) m w t =
    by_user (λ v. is_open v t (connect u s m) ≡ (is_open v t m || (v == u && t == s))) u w
      (connect_mine u s m t ∙ rw (==_refl u) refl) (λ e. connect_other u s m w t e ∙ ground arith)
event_refines (disconnected u s) m w t =
    by_user (λ v. is_open v t (disconnect u s m) ≡ (is_open v t m && not (v == u && t == s))) u w
      (disconnect_mine u s m t ∙ rw (==_refl u) refl)
      (λ e. disconnect_other u s m w t (apart e) ∙ ground arith)
event_refines (delivered works u) m w t =
    let (mine, other) = deliver_locally_lem works u m in
    by_user
      (λ v. is_open v t (deliver_locally works u m) ≡ (is_open v t m && (not (v == u) || works t)))
      u w (mine t ∙ rw (==_refl u) refl) (λ e. other w t (apart e) ∙ ground arith)

run_refines :
    (es : List SocketEvent) (m : Manager) (w t : ℕ)
    → is_open w t (run_events es m) ≡ spec_run es (opened m) w t
unfolding spec_run run_events
run_refines [] m w t = refl
run_refines (e ∷ es) m w t =
    run_refines es (on_event e m) w t
    ∙ ap (λ (r : Registry). spec_run es r w t) (fun_ext (λ v. fun_ext (λ s. event_refines e m v s)))

has_socket_iff :
    (o : Option (List ℕ))
    → (has_socket o ≡ true) ↔ ((t : ℕ) × (exists (λ x. x == t) (sockets_of o) ≡ true))
unfolding exists
has_socket_iff none = ((λ h. cc), (λ (t, h). cc))
has_socket_iff (some []) = ((λ h. cc), (λ (t, h). cc))
has_socket_iff (some (s ∷ ss)) = ((λ h. (s, rw (==_refl s) refl)), (λ h. refl))

-- The registry of sockets refines a set of pairs of a user and a socket: after any connections,
-- disconnections and deliveries, a socket is open exactly if it is in the set, and the instance
-- subscribes to the channel of a user exactly if the set has a socket of the user. It holds of
-- every registry that tracks its subscriptions at the start.
pub run_events_refines :
    (es : List SocketEvent) (m : Manager)
    → IsTracked m
    → ((w t : ℕ) → is_open w t (run_events es m) ≡ spec_run es (opened m) w t)
      × ((w : ℕ)
          → ((run_events es m).subscribed w ≡ true)
            ↔ ((t : ℕ) × (spec_run es (opened m) w t ≡ true)))
run_events_refines es m v =
    let tracked = (run_events-IsTracked es m v).subscribed in
    (
      run_refines es m,
      (λ w. (
        (λ h.
            let (t, o) =
              (has_socket_iff ((run_events es m).connections w)).0 (sym (tracked w) ∙ h) in
            (t, sym (run_refines es m w t) ∙ o)),
        (λ (t, o).
            tracked w
            ∙ (has_socket_iff ((run_events es m).connections w)).1 (t, run_refines es m w t ∙ o)),
      )),
    )
