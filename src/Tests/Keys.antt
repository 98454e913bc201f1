-- ===== src/Tests/Keys.antt =====
-- Tests of identity keys.
use pqc_grade_a.Base.{
  ℕ, ◌+◌, ◌≡◌, refl, true, none, some, List, [], ◌∷◌, arith, codes, count, select, update_where,
}
use pqc_grade_a.Base.Sort.{order_by, place}
use pqc_grade_a.Base64.{b64decode, digit, value}
use pqc_grade_a.Db.{Db, IdentityKeyRecord}
use pqc_grade_a.Exec.{ok, scalar_one_or_none, fresh_id}
use pqc_grade_a.IdentityKey.Repository.{active_keys, get_active_for_user, mark_superseded, add}
use pqc_grade_a.IdentityKey.Service.{Wrapped, rotate, decode_b64, opt_b64, decode_wrapped}
use pqc_grade_a.IdentityKey.Outcomes.{inserted, superseded, IsNew, Attested}
use pqc_grade_a.IdentityKey.Versions.{Versioned}
use pqc_grade_a.IdentityKey.Rotation.{
  Verify, KeyRequest, publish_key, rotate_key, serve_keys, serve_keys-Versioned, rotate-Attested,
}
use pqc_grade_a.Tests.World.{world, key}

abbrev verify : Verify
verify = λ public message signature. true

abbrev plain : Wrapped
plain = record {
  wrapped_signing_private_key = none;
  wrapped_kem_private_key = none;
  wrap_nonce = none;
  wrap_kdf_salt = none;
  wrap_kdf_params = none;
  wrap_alg = none;
}

world-Versioned : Versioned world
unfolding count select order_by place
world-Versioned = record {
  key_unique = λ i. ground arith;
  key_bound = λ i h. ground arith;
  version_unique = λ u n. ground arith;
  version_bound = λ u n h. ground arith;
}

abbrev key_requests : List (ℕ × ℕ × KeyRequest)
key_requests =
    (3, 1, rotate_key (codes "TQ==") (codes "TQ==") (codes "TQ==") plain)
    ∷ (4, 2, publish_key (codes "phone") (codes "TQ==") (codes "TQ==") plain)
    ∷ []

serve_keys-Versioned_example : Versioned (serve_keys verify key_requests world)
serve_keys-Versioned_example = serve_keys-Versioned verify key_requests world world-Versioned

abbrev successor : IdentityKeyRecord
successor = record key {
  id = 10;
  public_signing_key = 77 ∷ [];
  public_kem_key = 77 ∷ [];
  key_version = 2;
  rotation_attestation = some (77 ∷ []);
  created_at = 3;
}

abbrev rotated : Db
rotated = record world {
  identity_keys = record key { superseded_at = some 3 } ∷ successor ∷ [];
  next_id = 11;
}

rotates :
    rotate verify 3 1 (codes "TQ==") (codes "TQ==") (codes "TQ==") plain world
    ≡ (ok successor, rotated)
unfolding rotate get_active_for_user mark_superseded add fresh_id decode_b64 opt_b64 decode_wrapped
    scalar_one_or_none select update_where order_by place b64decode digit value
rotates = refl

rotate-Attested_example :
    (out : IdentityKeyRecord) × (rest : List IdentityKeyRecord) × (active_keys world 1 ≡ out ∷ rest)
    × Attested verify (codes "TQ==") out successor
    × IsNew 1 (out.key_version + 1) successor
    × (rotated ≡ inserted successor (superseded 3 out world))
rotate-Attested_example =
    rotate-Attested verify 3 1 (codes "TQ==") (codes "TQ==") (codes "TQ==") plain world rotated
      successor rotates
