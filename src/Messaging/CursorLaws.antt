-- ===== src/Messaging/CursorLaws.antt =====
-- A cursor that the server hands out decodes to the position that it was made from.
use pqc_grade_a.Base.{ℕ, ◌<◌, ◌≡◌, ◌≢◌, some, List, [], ◌∷◌, ◌++◌, Text, All, arith}
use pqc_grade_a.Base.SortLaws.{All-mono}
use pqc_grade_a.Base64.{b64encode, url_safe, urlsafe_b64decode}
use pqc_grade_a.Base64.RoundTrip.{IsByte, urlsafe_b64decode-b64encode}
use pqc_grade_a.Exec.{ok}
use pqc_grade_a.Messaging.Cursor.{Codec, RoundTrips, encode_cursor, decode_cursor, partition}

All-append :
    (P : ℕ → Type 0) (xs : List ℕ) (y : ℕ) (ys : List ℕ)
    → All P xs
    → P y
    → All P ys
    → All P (xs ++ y ∷ ys)
All-append P [] y ys h p k = (p, k)
All-append P (x ∷ xs) y ys h p k = (h.0, All-append P xs y ys h.1 p k)

partition_at :
    (sep : ℕ) (xs ys : Text) → All (λ b. b ≢ sep) xs → partition sep (xs ++ sep ∷ ys) ≡ (xs, ys)
unfolding partition
partition_at sep [] ys h = ground arith
partition_at sep (x ∷ xs) ys h = ground (arith, partition_at sep xs ys h.1, h.0)

-- decode_cursor inverts encode_cursor, given the round trips of the texts that a cursor is made
-- of.
pub decode_cursor-encode_cursor :
    (c : Codec) (t i : ℕ) → RoundTrips c → decode_cursor c (encode_cursor c t i) ≡ ok (t, i)
unfolding decode_cursor encode_cursor
decode_cursor-encode_cursor c t i r =
    let raw : Text = c.isoformat t ++ (b'|' ∷ c.uuid_text i) in
    let ascii : All (λ b. b < 128) raw =
      All-append (λ b. b < 128) (c.isoformat t) b'|' (c.uuid_text i) (r.iso_ascii t) (omega arith)
        (r.uuid_ascii i) in
    let bytes : urlsafe_b64decode (b64encode url_safe raw) ≡ some raw =
      urlsafe_b64decode-b64encode raw
        (All-mono (λ b. b < 128) IsByte raw (λ b h. omega arith) ascii) in
    ground (
      arith,
      bytes,
      r.utf8 raw ascii,
      partition_at b'|' (c.isoformat t) (c.uuid_text i) (r.iso_no_bar t),
      r.iso t,
      r.uuid i,
    )
