-- ===== src/Socket/Delivery.antt =====
-- A delivery drops the sockets that fail, and no others.
use pqc_grade_a.Base.{
  ℕ, ◌≡◌, ◌≢◌, refl, ◌∙◌, ap, Bool, true, false, ◌&&◌, ◌||◌, not, List, [], ◌∷◌, ◌==◌, ==_refl,
  ==_iff, if◌then◌else◌, exists, delete_where, arith, inl, inr, Bool-cases, Option-cases,
}
use pqc_grade_a.Socket.Manager.{
  Manager, sockets_of, after_discard, disconnect, drop_broken, deliver_locally,
}
use pqc_grade_a.Socket.Tracking.{disconnect_unknown, disconnect_known}

abbrev pub is_open : ℕ → ℕ → Manager → Bool
is_open u t m = exists (λ x. x == t) (sockets_of (m.connections u))

exists-delete_where_socket :
    (s t : ℕ) (xs : List ℕ)
    → exists (λ x. x == t) (delete_where (λ x. x == s) xs)
      ≡ (exists (λ x. x == t) xs && not (t == s))
unfolding exists delete_where
exists-delete_where_socket s t [] = refl
exists-delete_where_socket s t (x ∷ xs) = ground (arith, exists-delete_where_socket s t xs)

after_discard_sockets :
    (u w : ℕ) (ss : List ℕ) (m : Manager)
    → sockets_of ((after_discard u ss m).connections w)
      ≡ (if w == u then ss else sockets_of (m.connections w))
after_discard_sockets u w [] m = elim (Bool-cases (w == u)) [
  | inl e ↦ rw e refl
  | inr e ↦ rw e refl
]
after_discard_sockets u w (s ∷ ss) m = elim (Bool-cases (w == u)) [
  | inl e ↦ rw e refl
  | inr e ↦ rw e refl
]

module _ (u s : ℕ) (m : Manager) where
  pub disconnect_mine : (t : ℕ) → is_open u t (disconnect u s m) ≡ (is_open u t m && not (t == s))
  unfolding exists
  disconnect_mine t = elim (Option-cases (m.connections u)) [
    | inl e ↦ rw (disconnect_unknown u s m e, e) refl
    | inr (ss, e) ↦ rw (disconnect_known u s m ss e) (
        ap (exists (λ x. x == t)) (after_discard_sockets u u (delete_where (λ x. x == s) ss) m)
        ∙ rw (==_refl u, e) (exists-delete_where_socket s t ss))
  ]

  pub disconnect_other : (w t : ℕ) → w ≢ u → is_open w t (disconnect u s m) ≡ is_open w t m
  disconnect_other w t apart = elim (Option-cases (m.connections u)) [
    | inl e ↦ rw (disconnect_unknown u s m e) refl
    | inr (ss, e) ↦ rw (disconnect_known u s m ss e) (
        ap (exists (λ x. x == t)) (after_discard_sockets u w (delete_where (λ x. x == s) ss) m)
        ∙ elim (Bool-cases (w == u)) [ inl same ↦ absurd (ground arith) | inr d ↦ rw d refl ])
  ]

-- One turn of the loop.
module _ (works : ℕ → Bool) (u s : ℕ) (m : Manager) where
  abbrev turn : Manager
  turn = if works s then m else disconnect u s m

  turn_kept : works s ≡ true → turn ≡ m
  turn_kept e = rw e refl

  turn_dropped : works s ≡ false → turn ≡ disconnect u s m
  turn_dropped e = rw e refl

  turn_mine : (t : ℕ) → is_open u t turn ≡ (is_open u t m && (works s || not (t == s)))
  turn_mine t = elim (Bool-cases (works s)) [
    | inl e ↦ ap (is_open u t) (turn_kept e) ∙ ground arith
    | inr e ↦ ap (is_open u t) (turn_dropped e) ∙ disconnect_mine u s m t ∙ ground arith
  ]

  turn_other : (w t : ℕ) → w ≢ u → is_open w t turn ≡ is_open w t m
  turn_other w t apart = elim (Bool-cases (works s)) [
    | inl e ↦ ap (is_open w t) (turn_kept e)
    | inr e ↦ ap (is_open w t) (turn_dropped e) ∙ disconnect_other u s m w t apart
  ]

-- What a socket is after the rest of the loop.
remaining :
    (works : ℕ → Bool) (s t : ℕ) (now rest : Bool)
    → ((now && (works s || not (t == s))) && (works t || not rest))
      ≡ (now && (works t || not (s == t || rest)))
remaining works s t now rest = elim (Bool-cases (t == s)) [
  | inl e ↦ ground (arith, ap works ((==_iff t s).0 e))
  | inr e ↦ ground arith
]

drop_broken_mine :
    (works : ℕ → Bool) (u t : ℕ) (ss : List ℕ) (m : Manager)
    → is_open u t (drop_broken works u ss m)
      ≡ (is_open u t m && (works t || not (exists (λ x. x == t) ss)))
unfolding drop_broken exists
drop_broken_mine works u t [] m = ground arith
drop_broken_mine works u t (s ∷ ss) m =
    drop_broken_mine works u t ss (turn works u s m)
    ∙ ap (λ o. o && (works t || not (exists (λ x. x == t) ss))) (turn_mine works u s m t)
    ∙ remaining works s t (is_open u t m) (exists (λ x. x == t) ss)

drop_broken_other :
    (works : ℕ → Bool) (u w t : ℕ) (ss : List ℕ) (m : Manager)
    → w ≢ u
    → is_open w t (drop_broken works u ss m) ≡ is_open w t m
unfolding drop_broken
drop_broken_other works u w t [] m apart = refl
drop_broken_other works u w t (s ∷ ss) m apart =
    drop_broken_other works u w t ss (turn works u s m) apart ∙ turn_other works u s m w t apart

-- After an event is delivered to a user, the open sockets of the user are those that were open and
-- took it, and the sockets of all other users are as before.
pub deliver_locally_lem :
    (works : ℕ → Bool) (u : ℕ) (m : Manager)
    → ((t : ℕ) → is_open u t (deliver_locally works u m) ≡ (is_open u t m && works t))
      × ((w t : ℕ) → w ≢ u → is_open w t (deliver_locally works u m) ≡ is_open w t m)
unfolding deliver_locally
deliver_locally_lem works u m = (
  (λ t. drop_broken_mine works u t (sockets_of (m.connections u)) m ∙ ground arith),
  (λ w t apart. drop_broken_other works u w t (sockets_of (m.connections u)) m apart),
)
