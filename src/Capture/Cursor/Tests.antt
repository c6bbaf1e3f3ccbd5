-- ===== src/Capture/Cursor/Tests.antt =====
-- Cursors of one capture, of position 3 and of two series, on a stand-in writer and digest.
use jlink_mcp_v.Base.{
  ℕ, zero, suc, ◌%◌, ◌≡◌, refl, true, List, [], ◌∷◌, Option, some, none, length, arith,
}
use jlink_mcp_v.Domain.Error.{ok}
use jlink_mcp_v.Domain.Json.{Value, object, end, field, scalar}
use jlink_mcp_v.Capture.Json.{is_object}
use jlink_mcp_v.Capture.Cursor.{
  CaptureSnapshot, CursorPayload, payload_of, encode_cursor, decode_cursor, validate_snapshot,
  cursor_text, cursor_digest, is_bound, encode_hex,
}
use jlink_mcp_v.Capture.Cursor.RoundTrip.{IsBytes, decode_cursor-encode_cursor}
use jlink_mcp_v.Capture.Cursor.Sealed.{decode_cursor-sealed}

abbrev repeated : ℕ → ℕ → List ℕ
repeated zero c = []
repeated (suc n) c = c ∷ repeated n c

abbrev snapshot : CaptureSnapshot
snapshot = record { capture_id = b'c' ∷ b'1' ∷ []; raw_sha256 = repeated 64 b'0' }

abbrev query : Value ℕ
query = object (field (b'k' ∷ []) (scalar 1) (field (b'a' ∷ []) (scalar 2) end))

abbrev ordering : List ℕ
ordering = b't' ∷ []

abbrev emitted : List (List ℕ)
emitted = (b'y' ∷ []) ∷ (b'x' ∷ []) ∷ (b'y' ∷ []) ∷ []

abbrev payload : ℕ → CursorPayload (Value ℕ)
payload position = payload_of snapshot query ordering position emitted

-- Keeps the position only.
abbrev written : CursorPayload (Value ℕ) → Option (List ℕ)
written p = some (p.position ∷ [])

abbrev read : List ℕ → Option (CursorPayload (Value ℕ))
read (position ∷ []) = some (payload position)
read _ = none

abbrev digest : List ℕ → List ℕ
digest bytes = length bytes % 256 ∷ []

series_sorted : (payload 3).emitted_series ≡ (b'x' ∷ []) ∷ (b'y' ∷ []) ∷ []
unfolding payload_of
series_sorted = refl

digest-IsBytes : (bytes : List ℕ) → IsBytes (digest bytes)
unfolding IsBytes
digest-IsBytes bytes = (ground arith, (ground arith, tt))

position-IsBytes : IsBytes (3 ∷ [])
unfolding IsBytes
position-IsBytes = (ground arith, (ground arith, tt))

written-payload : written (payload 3) ≡ some (3 ∷ [])
unfolding payload_of
written-payload = refl

query-is_object : is_object query ≡ true
unfolding is_object
query-is_object = refl

decode_cursor-encode_cursor_example :
    (cursor : List ℕ) × (encode_cursor written read digest snapshot query ordering 3 emitted
      ≡ ok cursor)
    × (decode_cursor written read digest cursor ≡ ok (payload 3))
    × (validate_snapshot (payload 3) snapshot ≡ ok (record {}))
decode_cursor-encode_cursor_example =
    decode_cursor-encode_cursor written read digest snapshot query ordering 3 emitted (ground arith)
      refl (ground arith) query-is_object written-payload refl position-IsBytes digest-IsBytes

abbrev cursor : List ℕ
cursor = cursor_text (3 ∷ []) (cursor_digest digest (3 ∷ []) snapshot.raw_sha256)

cursor-accepted : decode_cursor written read digest cursor ≡ ok (payload 3)
unfolding decode_cursor payload_of encode_hex
cursor-accepted = refl

decode_cursor-sealed_example :
    (bytes : List ℕ) × (cursor
      ≡ cursor_text bytes (cursor_digest digest bytes (payload 3).snapshot_sha256))
    × (read bytes ≡ some (payload 3))
    × (is_bound (payload 3) ≡ true)
decode_cursor-sealed_example = decode_cursor-sealed written read digest cursor cursor-accepted
