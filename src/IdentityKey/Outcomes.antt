-- ===== src/IdentityKey/Outcomes.antt =====
-- What publishing and rotating a key return and write.
use mathlib.Core.List.{List, [], ◌∷◌, ◌++◌}
use pqc_grade_a.Base.{
  ℕ, ◌+◌, ◌≡◌, ◌⊎◌, refl, Bool, true, Option, none, some, Text, Bytes, arith, is_none,
  if◌then◌else◌, inl, inr, Option-cases, Bool-cases, update_where,
}
use pqc_grade_a.Base64.{b64decode}
use pqc_grade_a.Errors.{Error, messaging, invalid_rotation_attestation, value_error}
use pqc_grade_a.Db.{Db, IdentityKeyRecord}
use pqc_grade_a.Exec.{Action, ok, err, fresh_id, scalar_one_or_none}
use pqc_grade_a.IdentityKey.Repository.{
  is_key, active_keys, list_active_for_user, get_active_for_user, set_superseded, mark_superseded,
  add,
}
use pqc_grade_a.IdentityKey.Service.{
  Wrapped, decode_b64, opt_b64, decode_wrapped, new_record, next_version, publish, rotate,
}

-- A decoder raises or returns, and changes nothing.
abbrev pub Reads : {A : Type 0} → Action A → Db → Type 0
Reads {A} m db = ((x : Error) × (m db ≡ (err x, db))) ⊎ ((a : A) × (m db ≡ (ok a, db)))

decode_b64_cases : (t : Text) (db : Db) → Reads (decode_b64 t) db
unfolding decode_b64
decode_b64_cases t db = elim (Option-cases (b64decode t)) [
  | inl e ↦ inl (value_error, (rw e refl))
  | inr (b, e) ↦ inr (b, (rw e refl))
]

opt_b64_cases : (t : Option Text) (db : Db) → Reads (opt_b64 t) db
unfolding opt_b64
opt_b64_cases none db = inr (none, refl)
opt_b64_cases (some t) db = elim (decode_b64_cases t db) [
  | inl (x, e) ↦ inl (x, (ground arith))
  | inr (b, e) ↦ inr (some b, (ground arith))
]

decode_wrapped_cases : (w : Wrapped) (db : Db) → Reads (decode_wrapped w) db
unfolding decode_wrapped
decode_wrapped_cases w db = elim (opt_b64_cases w.wrapped_signing_private_key db) [
  | inl (x, e) ↦ inl (x, (ground arith))
  | inr (a, e) ↦ elim (opt_b64_cases w.wrapped_kem_private_key db) [
    | inl (x, f) ↦ inl (x, (ground arith))
    | inr (b, f) ↦ elim (opt_b64_cases w.wrap_nonce db) [
      | inl (x, g) ↦ inl (x, (ground arith))
      | inr (c, g) ↦ elim (opt_b64_cases w.wrap_kdf_salt db) [
        | inl (x, h) ↦ inl (x, (ground arith))
        | inr (d, h) ↦ inr (record { signing = a; kem = b; nonce = c; salt = d }, (ground arith))
      ]
    ]
  ]
]

abbrev pub inserted : IdentityKeyRecord → Db → Db
inserted k db = record db { identity_keys = db.identity_keys ++ k ∷ []; next_id = db.next_id + 1 }

add_lem :
    (row : ℕ → IdentityKeyRecord) (db : Db)
    → add row db ≡ (ok (row db.next_id), inserted (row db.next_id) db)
unfolding add fresh_id
add_lem row db = refl

list_active_lem : (u : ℕ) (db : Db) → list_active_for_user u db ≡ (ok (active_keys db u), db)
unfolding list_active_for_user
list_active_lem u db = refl

-- A key of the user with the version, the label and the attestation.
abbrev pub IsNew : ℕ → ℕ → IdentityKeyRecord → Type 0
IsNew u version k = (k.user_id ≡ u) × (k.key_version ≡ version) × (k.superseded_at ≡ none)

pub publish_cases :
    (now u : ℕ) (label signing kem : Text) (w : Wrapped) (db : Db)
    → ((x : Error) × (publish now u label signing kem w db ≡ (err x, db)))
      ⊎ ((k : IdentityKeyRecord) × (publish now u label signing kem w db ≡ (ok k, inserted k db))
          × (k.id ≡ db.next_id)
          × IsNew u (next_version (active_keys db u)) k)
unfolding publish
publish_cases now u label signing kem w db = elim (decode_b64_cases signing db) [
  | inl (x, e) ↦ inl (x, (ground (arith, list_active_lem u db)))
  | inr (a, e) ↦ elim (decode_b64_cases kem db) [
    | inl (x, f) ↦ inl (x, (ground (arith, list_active_lem u db)))
    | inr (b, f) ↦ elim (decode_wrapped_cases w db) [
      | inl (x, g) ↦ inl (x, (ground (arith, list_active_lem u db)))
      | inr (c, g) ↦
          let row : ℕ → IdentityKeyRecord =
            new_record now u label a b (next_version (active_keys db u)) none c w in
          inr (
            row db.next_id,
            (ground (arith, list_active_lem u db, add_lem row db)),
            refl,
            (refl, refl, refl),
          )
    ]
  ]
]

-- The newest active key.
get_active_none :
    (u : ℕ) (db : Db) → active_keys db u ≡ [] → get_active_for_user u none db ≡ (ok none, db)
unfolding get_active_for_user scalar_one_or_none
get_active_none u db e = rw e refl

get_active_some :
    (u : ℕ) (db : Db) (k : IdentityKeyRecord) (ks : List IdentityKeyRecord)
    → active_keys db u ≡ k ∷ ks
    → get_active_for_user u none db ≡ (ok (some k), db)
unfolding get_active_for_user scalar_one_or_none
get_active_some u db k ks e = rw e refl

abbrev pub superseded : ℕ → IdentityKeyRecord → Db → Db
superseded now k db =
    if is_none k.superseded_at
    then record db {
      identity_keys = update_where (is_key k.id) (set_superseded now) db.identity_keys;
    }
    else db

mark_superseded_lem :
    (now : ℕ) (k : IdentityKeyRecord) (db : Db)
    → mark_superseded now k db ≡ (ok tt, superseded now k db)
unfolding mark_superseded
mark_superseded_lem now k db = ground arith

List-cases :
    (xs : List IdentityKeyRecord)
    → (xs ≡ []) ⊎ ((k : IdentityKeyRecord) × (ks : List IdentityKeyRecord) × (xs ≡ k ∷ ks))
List-cases [] = inl refl
List-cases (k ∷ ks) = inr (k, ks, refl)

decode_b64_passes :
    (t : Text) (b : Bytes) (db : Db) → b64decode t ≡ some b → decode_b64 t db ≡ (ok b, db)
unfolding decode_b64
decode_b64_passes t b db e = rw e refl

decode_b64_fails :
    (t : Text) (db : Db) → b64decode t ≡ none → decode_b64 t db ≡ (err value_error, db)
unfolding decode_b64
decode_b64_fails t db e = rw e refl

-- The key `out` signed the two public keys of its successor `k`.
abbrev pub Attested :
    (Bytes → Bytes → Bytes → Bool) → Text → IdentityKeyRecord → IdentityKeyRecord → Type 0
Attested verify attestation out k =
    (signature : Bytes) × (b64decode attestation ≡ some signature)
    × (verify out.public_signing_key (k.public_signing_key ++ k.public_kem_key) signature ≡ true)

-- A rotation raises, or supersedes the newest key and adds its successor, which it attested.
pub rotate_cases :
    (verify : Bytes → Bytes → Bytes → Bool) (now u : ℕ) (signing kem attestation : Text)
    (w : Wrapped) (db : Db)
    → ((x : Error) × (d : Db) × (rotate verify now u signing kem attestation w db ≡ (err x, d)))
      ⊎ ((out k : IdentityKeyRecord) × (rest : List IdentityKeyRecord) × (active_keys db u
            ≡ out ∷ rest)
          × (rotate verify now u signing kem attestation w db
              ≡ (ok k, inserted k (superseded now out db)))
          × (k.id ≡ (superseded now out db).next_id)
          × IsNew u (out.key_version + 1) k
          × Attested verify attestation out k)
unfolding rotate
rotate_cases verify now u signing kem attestation w db = elim (List-cases (active_keys db u)) [
  | inl n ↦
      inl (messaging invalid_rotation_attestation, db, (ground (arith, get_active_none u db n)))
  | inr (out, rest, n) ↦ elim (decode_b64_cases signing db) [
    | inl (x, e) ↦ inl (x, db, (ground (arith, get_active_some u db out rest n)))
    | inr (a, e) ↦ elim (decode_b64_cases kem db) [
      | inl (x, f) ↦ inl (x, db, (ground (arith, get_active_some u db out rest n)))
      | inr (b, f) ↦ elim (Option-cases (b64decode attestation)) [
        | inl g ↦ inl (
          value_error,
          db,
          (ground (arith, get_active_some u db out rest n, decode_b64_fails attestation db g)),
        )
        | inr (s, g) ↦ elim (Bool-cases (verify out.public_signing_key (a ++ b) s)) [
          | inr t ↦ inl (
            messaging invalid_rotation_attestation,
            db,
            (ground (arith, get_active_some u db out rest n, decode_b64_passes attestation s db g)),
          )
          | inl t ↦ elim (decode_wrapped_cases w (superseded now out db)) [
            | inl (x, h) ↦ inl (
              x,
              superseded now out db,
              (ground (
                arith,
                get_active_some u db out rest n,
                decode_b64_passes attestation s db g,
                mark_superseded_lem now out db,
              )),
            )
            | inr (c, h) ↦
                let row : ℕ → IdentityKeyRecord =
                  new_record now u out.device_label a b (out.key_version + 1) (some s) c w in
                inr (
                  out,
                  row (superseded now out db).next_id,
                  rest,
                  n,
                  (ground (
                    arith,
                    get_active_some u db out rest n,
                    decode_b64_passes attestation s db g,
                    mark_superseded_lem now out db,
                    add_lem row (superseded now out db),
                  )),
                  refl,
                  (refl, refl, refl),
                  (s, g, t),
                )
          ]
        ]
      ]
    ]
  ]
]
