-- ===== src/Capture/Cursor/RoundTrip.antt =====
-- crates/jlink-capture/src/cursor.rs: encode_cursor against decode_cursor, validate_snapshot.
use jlink_mcp_v.Base.{
  ℕ, ◌<◌, ◌≡◌, ◌≢◌, refl, ap, ap₂, ◌∙◌, true, List, [], ◌∷◌, ◌++◌, Option, some, All, ◌==◌, arith,
  eq, length, eq_refl, nat_equal, list_equal, if◌then◌else◌, ◌&&◌,
}
use jlink_mcp_v.Domain.Error.{bind-ok, ensure-true, ok, ok_or}
use jlink_mcp_v.Domain.Json.{Value}
use jlink_mcp_v.Capture.Json.{is_object, is_object-canonicalize}
use jlink_mcp_v.Capture.Cursor.{
  CaptureSnapshot, CursorPayload, cursor_prefix, cursor_digest, cursor_text, payload_of,
  encode_cursor, is_bound, decode_parts, decode_split, decode_cursor, validate_snapshot, split,
  push_char, dot, invalid_cursor, encode_hex, decode_hex,
}
use jlink_mcp_v.Capture.Cursor.Hex.{encode_hex-dotless, decode_hex-encode_hex}

not_at_dot : (c : ℕ) (x y : List (List ℕ)) → c ≢ dot → (if c == dot then x else y) ≡ y
not_at_dot c x y h = ground arith

IsDotless : List ℕ → Type 0
IsDotless w = All (λ c. c ≢ dot) w

split-dotless : (w : List ℕ) → IsDotless w → split w ≡ w ∷ []
unfolding split IsDotless
split-dotless [] h = refl
split-dotless (c ∷ cs) h =
    not_at_dot c ([] ∷ split cs) (push_char c (split cs)) h.0
    ∙ ap (push_char c) (split-dotless cs h.1)

split-at_dot : (w rest : List ℕ) → IsDotless w → split (w ++ (dot ∷ rest)) ≡ w ∷ split rest
unfolding split IsDotless
split-at_dot [] rest h = refl
split-at_dot (c ∷ cs) rest h =
    not_at_dot c ([] ∷ split (cs ++ (dot ∷ rest))) (push_char c (split (cs ++ (dot ∷ rest)))) h.0
    ∙ ap (push_char c) (split-at_dot cs rest h.1)

prefix-IsDotless : IsDotless cursor_prefix
unfolding IsDotless
prefix-IsDotless = (ground arith, (ground arith, (ground arith, (ground arith, tt))))

split-cursor_text :
    (bytes digest : List ℕ)
    → split (cursor_text bytes digest) ≡ cursor_prefix ∷ encode_hex bytes ∷ encode_hex digest ∷ []
unfolding IsDotless
split-cursor_text bytes digest =
    split-at_dot cursor_prefix _ prefix-IsDotless
    ∙ ap (λ ws. cursor_prefix ∷ ws)
        (split-at_dot (encode_hex bytes) _ (encode_hex-dotless bytes)
          ∙ ap (λ ws. encode_hex bytes ∷ ws)
              (split-dotless (encode_hex digest) (encode_hex-dotless digest)))

-- At least one byte, each below 256.
unfoldable pub IsBytes : List ℕ → Type 0
IsBytes bytes = (0 < length bytes) × All (λ b. b < 256) bytes

decode_hex-IsBytes : (bytes : List ℕ) → IsBytes bytes → decode_hex (encode_hex bytes) ≡ ok bytes
unfolding IsBytes
decode_hex-IsBytes [] h = ground arith
decode_hex-IsBytes (byte ∷ bytes) h = decode_hex-encode_hex byte bytes h.1

module _ {S : Type 0} (to_vec : CursorPayload (Value S) → Option (List ℕ))
    (from_slice : List ℕ → Option (CursorPayload (Value S))) (sha256 : List ℕ → List ℕ) where
  decode_parts-encode_hex :
      (p : CursorPayload (Value S)) (bytes : List ℕ)
      → IsBytes bytes
      → IsBytes (cursor_digest sha256 bytes p.snapshot_sha256)
      → from_slice bytes ≡ some p
      → is_bound p ≡ true
      → decode_parts to_vec from_slice sha256
          (encode_hex bytes)
          (encode_hex (cursor_digest sha256 bytes p.snapshot_sha256))
        ≡ ok p
  unfolding decode_parts
  decode_parts-encode_hex p bytes h d read bound =
      bind-ok _ (decode_hex-IsBytes bytes h)
      ∙ bind-ok _ (decode_hex-IsBytes _ d)
      ∙ bind-ok _ (ap (λ r. ok_or r invalid_cursor) read)
      ∙ bind-ok _ (ensure-true _ _ bound)
      ∙ bind-ok _ (ensure-true _ _ (eq_refl (cursor_digest sha256 bytes p.snapshot_sha256)))

payload_of-is_bound :
    {S : Type 0} (snapshot : CaptureSnapshot) (query : Value S) (ordering : List ℕ) (position : ℕ)
    (emitted : List (List ℕ))
    → 0 < length snapshot.capture_id
    → length snapshot.raw_sha256 ≡ 64
    → 0 < length ordering
    → is_object query ≡ true
    → is_bound (payload_of snapshot query ordering position emitted) ≡ true
unfolding payload_of is_bound
payload_of-is_bound snapshot query ordering position emitted i s o q =
    let kept = is_object-canonicalize query q in ground arith

validate_snapshot-payload_of :
    {S : Type 0} (snapshot : CaptureSnapshot) (query : Value S) (ordering : List ℕ) (position : ℕ)
    (emitted : List (List ℕ))
    → validate_snapshot (payload_of snapshot query ordering position emitted) snapshot
      ≡ ok (record {})
unfolding payload_of validate_snapshot
validate_snapshot-payload_of snapshot query ordering position emitted =
    let i = eq_refl snapshot.capture_id in
    let s = eq_refl snapshot.raw_sha256 in
    ensure-true
      (eq snapshot.capture_id snapshot.capture_id && eq snapshot.raw_sha256 snapshot.raw_sha256) _
      (ap₂ ◌&&◌ i s)

-- When serde_json writes the payload as bytes that it reads back as that payload, the digest is of
-- bytes, the snapshot has an identity and a digest of 64 characters, the ordering is named and the
-- query is an object, then encode_cursor gives a text, decode_cursor reads that text as the same
-- payload, and the payload is accepted for the snapshot it was encoded for.
pub decode_cursor-encode_cursor :
    {S : Type 0} (to_vec : CursorPayload (Value S) → Option (List ℕ))
    (from_slice : List ℕ → Option (CursorPayload (Value S))) (sha256 : List ℕ → List ℕ)
    (snapshot : CaptureSnapshot) (query : Value S) (ordering : List ℕ) (position : ℕ)
    (emitted : List (List ℕ)) {bytes : List ℕ}
    → 0 < length snapshot.capture_id
    → length snapshot.raw_sha256 ≡ 64
    → 0 < length ordering
    → is_object query ≡ true
    → to_vec (payload_of snapshot query ordering position emitted) ≡ some bytes
    → from_slice bytes ≡ some (payload_of snapshot query ordering position emitted)
    → IsBytes bytes
    → ((hashed : List ℕ) → IsBytes (sha256 hashed))
    → (cursor : List ℕ) × (encode_cursor to_vec from_slice sha256 snapshot query ordering position
          emitted
        ≡ ok cursor)
      × (decode_cursor to_vec from_slice sha256 cursor
          ≡ ok (payload_of snapshot query ordering position emitted))
      × (validate_snapshot (payload_of snapshot query ordering position emitted) snapshot
          ≡ ok (record {}))
unfolding encode_cursor decode_cursor decode_split
decode_cursor-encode_cursor to_vec from_slice sha256 snapshot query ordering position emitted
      {bytes} i s o q written read h hashed =
    let p = payload_of snapshot query ordering position emitted in
    let digest = cursor_digest sha256 bytes p.snapshot_sha256 in
    (
      cursor_text bytes digest,
      bind-ok _ (ap (λ r. ok_or r invalid_cursor) written),
      ap (decode_split to_vec from_slice sha256) (split-cursor_text bytes digest)
          ∙ bind-ok
              (λ _. decode_parts to_vec from_slice sha256 (encode_hex bytes) (encode_hex digest))
              (ensure-true (eq cursor_prefix cursor_prefix) invalid_cursor (eq_refl cursor_prefix))
          ∙ decode_parts-encode_hex to_vec from_slice sha256 p bytes h (hashed _) read
              (payload_of-is_bound snapshot query ordering position emitted i s o q),
      validate_snapshot-payload_of snapshot query ordering position emitted,
    )
