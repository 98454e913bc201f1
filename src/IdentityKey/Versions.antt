-- ===== src/IdentityKey/Versions.antt =====
-- The versions of a user's keys: one key for each, and only upwards.
use pqc_grade_a.Base.{
  ℕ, ◌+◌, ◌≤◌, ◌<◌, ◌≡◌, ◌≢◌, refl, ◌∙◌, ap, Bool, true, false, ◌&&◌, List, [], ◌∷◌, ◌++◌, ◌==◌,
  ==_refl, arith, max, inl, inr, Bool-cases, select, count, All, count-append, count_mono,
}
use pqc_grade_a.Base.UpdateLaws.{count-select, All-unique}
use pqc_grade_a.Base.Sort.{place, order_by, count-order_by}
use pqc_grade_a.Db.{Db, IdentityKeyRecord}
use pqc_grade_a.IdentityKey.Repository.{is_key, is_current, active_keys, newer_version}
use pqc_grade_a.IdentityKey.Service.{next_version}
use pqc_grade_a.IdentityKey.Outcomes.{inserted, IsNew}

abbrev pub is_version : ℕ → ℕ → IdentityKeyRecord → Bool
is_version u n k = k.user_id == u && k.key_version == n

pub record Versioned (db : Db) : Type 0 where
  pub key_unique : (i : ℕ) → count (is_key i) db.identity_keys ≤ 1
  pub key_bound : (i : ℕ) → db.next_id ≤ i → count (is_key i) db.identity_keys ≡ 0
  pub version_unique : (u n : ℕ) → count (is_version u n) db.identity_keys ≤ 1
  -- no key of the user, active or not, is ahead of the next version
  pub version_bound :
      (u n : ℕ) → next_version (active_keys db u) ≤ n → count (is_version u n) db.identity_keys ≡ 0

-- One more than the newest version in the list.
abbrev pub top : List IdentityKeyRecord → ℕ
top [] = 1
top (k ∷ ks) = max (k.key_version + 1) (top ks)

next_version-place :
    (k : IdentityKeyRecord) (ks : List IdentityKeyRecord)
    → next_version (place newer_version k ks) ≡ max (k.key_version + 1) (next_version ks)
unfolding place
next_version-place k [] = omega arith
next_version-place k (x ∷ ks) = ground arith

pub next_version-order_by :
    (ks : List IdentityKeyRecord) → next_version (order_by newer_version ks) ≡ top ks
unfolding order_by
next_version-order_by [] = refl
next_version-order_by (k ∷ ks) =
    next_version-place k (order_by newer_version ks)
    ∙ ap (max (k.key_version + 1)) (next_version-order_by ks)

module _ (p : IdentityKeyRecord → Bool) (k : IdentityKeyRecord) where
  top-append :
      (ks : List IdentityKeyRecord)
      → p k ≡ true
      → (top (select p ks) ≤ top (select p (ks ++ k ∷ [])))
        × (k.key_version < top (select p (ks ++ k ∷ [])))
  unfolding select
  top-append [] h = rw h (omega arith, omega arith)
  top-append (x ∷ ks) h = elim (Bool-cases (p x)) [
    | inl e ↦ let (a, b) = top-append ks h in rw e (omega arith, omega arith)
    | inr e ↦ rw e (top-append ks h)
  ]

  select-append_other :
      (ks : List IdentityKeyRecord) → p k ≡ false → select p (ks ++ k ∷ []) ≡ select p ks
  unfolding select
  select-append_other [] h = rw h refl
  select-append_other (x ∷ ks) h = ground (arith, select-append_other ks h)

abbrev pub newest : ℕ → List IdentityKeyRecord → ℕ
newest u ks = top (select (is_current u) ks)

-- The invariant on a table of keys and the next key to be drawn.
pub record Bounded (ks : List IdentityKeyRecord) : Type 0 where
  pub version_unique : (u n : ℕ) → count (is_version u n) ks ≤ 1
  pub version_bound : (u n : ℕ) → newest u ks ≤ n → count (is_version u n) ks ≡ 0

-- A new key whose version is at least the next one and above all versions of its user.
pub append-Bounded :
    (u n : ℕ) (k : IdentityKeyRecord) (ks ks' : List IdentityKeyRecord)
    → Bounded ks
    → IsNew u n k
    → newest u ks ≤ n
    → ((v m : ℕ) → count (is_version v m) ks' ≡ count (is_version v m) ks)
    → ((v : ℕ) → v ≢ u → newest v ks ≤ newest v ks')
    → Bounded (ks' ++ k ∷ [])
unfolding count
append-Bounded u n k ks ks' b (owner, version, fresh) ahead same others = record {
  version_unique = λ v m. ground (
    arith,
    count-append (is_version v m) ks' (k ∷ []),
    same v m,
    b.version_unique v m,
    b.version_bound u n ahead,
  );
  version_bound = λ v m h. elim (Bool-cases (v == u)) [
    | inl e ↦ ground (
      arith,
      count-append (is_version v m) ks' (k ∷ []),
      same v m,
      b.version_bound u m,
      top-append (is_current u) k ks',
    )
    | inr e ↦
        let apart : v ≢ u = ground arith in
        ground (
          arith,
          count-append (is_version v m) ks' (k ∷ []),
          same v m,
          b.version_bound v m,
          others v apart,
          ap (λ xs. top xs) (select-append_other (is_current v) k ks' (ground arith)),
        )
  ];
}

pub Versioned-Bounded : (db : Db) → Versioned db → Bounded db.identity_keys
Versioned-Bounded db v = record {
  version_unique = v.version_unique;
  version_bound = λ u n h.
      v.version_bound u n (rw (next_version-order_by (select (is_current u) db.identity_keys)) h);
}

-- The key is under a fresh primary key too.
pub insert-Versioned :
    (k : IdentityKeyRecord) (db : Db)
    → ((i : ℕ) → count (is_key i) db.identity_keys ≤ 1)
    → ((i : ℕ) → db.next_id ≤ i → count (is_key i) db.identity_keys ≡ 0)
    → k.id ≡ db.next_id
    → Bounded (db.identity_keys ++ k ∷ [])
    → Versioned (inserted k db)
unfolding count
insert-Versioned k db unique bound fresh b = record {
  key_unique = λ i. ground (
    arith,
    count-append (is_key i) db.identity_keys (k ∷ []),
    unique i,
    bound db.next_id (omega arith),
  );
  key_bound = λ i h.
      ground (arith, count-append (is_key i) db.identity_keys (k ∷ []), bound i (omega arith));
  version_unique = b.version_unique;
  version_bound = λ u n h.
      b.version_bound u n
        (rw (next_version-order_by (select (is_current u) (db.identity_keys ++ k ∷ []))) at h);
}

pub published-Versioned :
    (u : ℕ) (k : IdentityKeyRecord) (db : Db)
    → Versioned db
    → k.id ≡ db.next_id
    → IsNew u (next_version (active_keys db u)) k
    → Versioned (inserted k db)
published-Versioned u k db v fresh new = insert-Versioned k db v.key_unique v.key_bound fresh (
    append-Bounded u (next_version (active_keys db u)) k db.identity_keys db.identity_keys
      (Versioned-Bounded db v) new
      (omega (arith, next_version-order_by (select (is_current u) db.identity_keys))) (λ w m. refl)
      (λ w h. omega arith))

head_counts :
    (u : ℕ) (db : Db) (out : IdentityKeyRecord) (rest : List IdentityKeyRecord)
    → active_keys db u ≡ out ∷ rest
    → 0 < count (is_key out.id) (active_keys db u)
unfolding count
head_counts u db out rest e = rw e (rw (==_refl out.id) (omega arith))

-- The newest active key is a row of its user, and the only one with its id.
pub out_owner :
    (u : ℕ) (db : Db) (out : IdentityKeyRecord) (rest : List IdentityKeyRecord)
    → Versioned db
    → active_keys db u ≡ out ∷ rest
    → All (λ x. is_key out.id x ≡ true → (x.user_id == u) ≡ true) db.identity_keys
unfolding count
out_owner u db out rest v e =
    All-unique (λ x. x.user_id == u) (is_key out.id) db.identity_keys (v.key_unique out.id)
      (omega (
        arith,
        count-order_by newer_version (is_key out.id) (select (is_current u) db.identity_keys),
        count-select (is_key out.id) (is_current u) db.identity_keys,
        count_mono (λ x. is_current u x && is_key out.id x) (λ x. is_key out.id x && x.user_id == u)
            db.identity_keys (λ x h. ground arith),
        head_counts u db out rest e,
      ))
