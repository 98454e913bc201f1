-- ===== src/IdentityKey/Rotation.antt =====
-- Requests about identity keys: the handlers of backend/src/api/v1/users.py that publish and rotate.
use pqc_grade_a.Base.{
  ℕ, ◌+◌, ◌≤◌, ◌≡◌, ◌≢◌, refl, ◌∙◌, ap, Bool, true, false, ◌&&◌, List, [], ◌∷◌, Text, Bytes, ◌==◌,
  arith, is_none, ltb, inl, inr, Bool-cases, update_where, select, count, count-update_where,
}
use pqc_grade_a.Base.SortLaws.{All-mono}
use pqc_grade_a.Base.UpdateLaws.{select-update_where_other}
use pqc_grade_a.Errors.{http_exception}
use pqc_grade_a.Db.{Db, IdentityKeyRecord}
use pqc_grade_a.Exec.{Action, Result, ok, err, request, ◌>>=◌}
use pqc_grade_a.Exec.Keeps.{request_failed, returns_once}
use pqc_grade_a.IdentityKey.Repository.{is_key, is_current, active_keys, set_superseded}
use pqc_grade_a.IdentityKey.Service.{
  Wrapped, present, wrapped_fields, next_version, publish, rotate,
}
use pqc_grade_a.IdentityKey.Outcomes.{
  inserted, superseded, IsNew, Attested, publish_cases, rotate_cases,
}
use pqc_grade_a.IdentityKey.Versions.{
  Versioned, is_version, newest, append-Bounded, insert-Versioned, Versioned-Bounded,
  published-Versioned, out_owner, next_version-order_by,
}

module _ (now u : ℕ) (out k : IdentityKeyRecord) (rest : List IdentityKeyRecord) (db : Db)
    (v : Versioned db) (head : active_keys db u ≡ out ∷ rest) (fresh : k.id ≡ db.next_id)
    (new : IsNew u (out.key_version + 1) k) where
  abbrev without_out : List IdentityKeyRecord
  without_out = update_where (is_key out.id) (set_superseded now) db.identity_keys

  ahead : newest u db.identity_keys ≤ out.key_version + 1
  ahead =
      omega (
        arith,
        next_version-order_by (select (is_current u) db.identity_keys),
        ap next_version head,
      )

  kept :
      (p : IdentityKeyRecord → Bool)
      → ((x : IdentityKeyRecord) → p (set_superseded now x) ≡ p x)
      → count p without_out ≡ count p db.identity_keys
  kept p h = count-update_where p (is_key out.id) (set_superseded now) db.identity_keys h

  others :
      (w : ℕ) → w ≢ u → select (is_current w) without_out ≡ select (is_current w) db.identity_keys
  others w apart =
      select-update_where_other (is_current w) (is_key out.id) (set_superseded now) db.identity_keys
        (All-mono (λ x. is_key out.id x ≡ true → (x.user_id == u) ≡ true)
          (λ x.
            is_key out.id x ≡ true
            → (is_current w x ≡ false) × (is_current w (set_superseded now x) ≡ false))
          db.identity_keys (λ x h e. (ground (arith, h e), ground (arith, h e)))
          (out_owner u db out rest v head))

  rotated-Versioned : Versioned (inserted k (superseded now out db))
  rotated-Versioned = elim (Bool-cases (is_none out.superseded_at)) [
    | inr e ↦ rw e (
        insert-Versioned k db v.key_unique v.key_bound fresh (
          append-Bounded u (out.key_version + 1) k db.identity_keys db.identity_keys
            (Versioned-Bounded db v) new ahead (λ w m. refl) (λ w h. omega arith)))
    | inl e ↦ rw e (
        insert-Versioned k (record db { identity_keys = without_out })
          (λ i. rw (kept (is_key i) (λ x. refl)) (v.key_unique i))
          (λ i h. rw (kept (is_key i) (λ x. refl)) (v.key_bound i h)) fresh
          (append-Bounded u (out.key_version + 1) k db.identity_keys without_out
            (Versioned-Bounded db v) new ahead (λ w m. kept (is_version w m) (λ x. refl))
            (λ w h. rw (others w h) (omega arith))))
  ]

superseded-next_id :
    (now : ℕ) (out : IdentityKeyRecord) (db : Db) → (superseded now out db).next_id ≡ db.next_id
superseded-next_id now out db = elim (Bool-cases (is_none out.superseded_at)) [
  | inl e ↦ rw e refl
  | inr e ↦ rw e refl
]

pub data KeyRequest : Type 0 where
  publish_key : Text → Text → Text → Wrapped → KeyRequest
  rotate_key : Text → Text → Text → Wrapped → KeyRequest

abbrev pub Verify : Type 0
Verify = Bytes → Bytes → Bytes → Bool

abbrev pub key_action : Verify → ℕ → ℕ → KeyRequest → Wrapped → Action IdentityKeyRecord
key_action verify now u (publish_key label signing kem _) w = publish now u label signing kem w
key_action verify now u (rotate_key signing kem attestation _) w =
    rotate verify now u signing kem attestation w

abbrev pub wrapped_of : KeyRequest → Wrapped
wrapped_of (publish_key label signing kem w) = w
wrapped_of (rotate_key signing kem attestation w) = w

-- `publish_identity_key` and `rotate_identity_key`
unfoldable pub handle_key : Verify → ℕ → ℕ → KeyRequest → Action IdentityKeyRecord
handle_key verify now u r = do w ← wrapped_fields (wrapped_of r); key_action verify now u r w

unfoldable pub serve_keys : Verify → List (ℕ × ℕ × KeyRequest) → Db → Db
serve_keys verify [] db = db
serve_keys verify ((now, u, r) ∷ rs) db =
    serve_keys verify rs (request (handle_key verify now u r) db).1

-- A request that returns leaves what its action leaves.
request_done :
    {A : Type 0} (m : Action A) (a : A) (db db' : Db)
    → m db ≡ (ok a, db')
    → request m db ≡ (ok a, db')
unfolding request
request_done m a db db' h = ground arith

action-Versioned :
    (verify : Verify) (now u : ℕ) (r : KeyRequest) (w : Wrapped) (db : Db)
    → Versioned db
    → Versioned (request (key_action verify now u r w) db).1
action-Versioned verify now u (publish_key label signing kem _) w db v =
    elim (publish_cases now u label signing kem w db) [
      | inl (x, e) ↦ rw (request_failed (publish now u label signing kem w) x db db e) v
      | inr (k, e, i, n) ↦
          rw (request_done (publish now u label signing kem w) k db (inserted k db) e)
            (published-Versioned u k db v i n)
    ]
action-Versioned verify now u (rotate_key signing kem attestation _) w db v =
    elim (rotate_cases verify now u signing kem attestation w db) [
      | inl (x, d, e) ↦
          rw (request_failed (rotate verify now u signing kem attestation w) x db d e) v
      | inr (out, k, rest, head, e, i, n, a) ↦
          rw
            (request_done (rotate verify now u signing kem attestation w) k db
              (inserted k (superseded now out db)) e)
            (rotated-Versioned now u out k rest db v head (i ∙ superseded-next_id now out db) n)
    ]

half_given : Wrapped → Bool
half_given w = ltb 0 (present w) && ltb (present w) 6

handle_half :
    (verify : Verify) (now u : ℕ) (r : KeyRequest) (db : Db)
    → half_given (wrapped_of r) ≡ true
    → handle_key verify now u r db ≡ (err (http_exception 400), db)
unfolding handle_key wrapped_fields half_given
handle_half verify now u r db e = ground arith

handle_whole :
    (verify : Verify) (now u : ℕ) (r : KeyRequest) (db : Db)
    → half_given (wrapped_of r) ≡ false
    → handle_key verify now u r db ≡ key_action verify now u r (wrapped_of r) db
unfolding handle_key wrapped_fields half_given
handle_whole verify now u r db e = ground arith

request_same : {A : Type 0} (m n : Action A) (db : Db) → m db ≡ n db → request m db ≡ request n db
unfolding request
request_same {A} m n db h =
    ap
      (λ (r : Result A × Db). elim r.0 as (λ _. Result A × Db) [
        | ok a ↦ (ok a, r.1)
        | err e ↦ (err e, db)
      ])
      h

key_request-Versioned :
    (verify : Verify) (now u : ℕ) (r : KeyRequest) (db : Db)
    → Versioned db
    → Versioned (request (handle_key verify now u r) db).1
key_request-Versioned verify now u r db v = elim (Bool-cases (half_given (wrapped_of r))) [
  | inl e ↦
      rw
        (request_failed (handle_key verify now u r) (http_exception 400) db db
          (handle_half verify now u r db e))
        v
  | inr e ↦
      rw
        (request_same (handle_key verify now u r) (key_action verify now u r (wrapped_of r)) db
          (handle_whole verify now u r db e))
        (action-Versioned verify now u r (wrapped_of r) db v)
]

-- Whatever users publish and rotate, each key of a user has a version of its own, and the next
-- version is above those of all keys of the user, the superseded ones too, if this held before.
pub serve_keys-Versioned :
    (verify : Verify) (rs : List (ℕ × ℕ × KeyRequest)) (db : Db)
    → Versioned db
    → Versioned (serve_keys verify rs db)
unfolding serve_keys
serve_keys-Versioned verify [] db v = v
serve_keys-Versioned verify ((now, u, r) ∷ rs) db v =
    serve_keys-Versioned verify rs (request (handle_key verify now u r) db).1
      (key_request-Versioned verify now u r db v)

-- A rotation that succeeds has a newest active key to replace, whose owner signed the two new
-- public keys with it; it is superseded, and the new key is active and one version higher.
pub rotate-Attested :
    (verify : Verify) (now u : ℕ) (signing kem attestation : Text) (w : Wrapped) (db db' : Db)
    (k : IdentityKeyRecord)
    → rotate verify now u signing kem attestation w db ≡ (ok k, db')
    → (out : IdentityKeyRecord) × (rest : List IdentityKeyRecord) × (active_keys db u ≡ out ∷ rest)
      × Attested verify attestation out k
      × IsNew u (out.key_version + 1) k
      × (db' ≡ inserted k (superseded now out db))
rotate-Attested verify now u signing kem attestation w db db' k h =
    elim (rotate_cases verify now u signing kem attestation w db) [
      | inl (x, d, e) ↦ cc
      | inr (out, k', rest, head, e, i, n, a) ↦
          let (ek, ed) =
            returns_once (rotate verify now u signing kem attestation w db) k' k
              (inserted k' (superseded now out db)) db' e h in
          (out, rest, head, rw ek a, rw ek n, rw (ek, ed) refl)
    ]
