-- ===== src/Capture/Cursor.antt =====
-- crates/jlink-capture/src/cursor.rs: opaque continuation cursors. Text is its UTF-8 bytes.
pub mod Hex
pub mod RoundTrip
pub mod Sealed
mod Tests
use jlink_mcp_v.Base.{
  ℕ, ◌+◌, ◌-◌, ◌*◌, ◌/◌, ◌%◌, Bool, true, false, not, ◌&&◌, ◌||◌, List, [], ◌∷◌, ◌++◌, Option, none,
  some, length, if◌then◌else◌, ◌==◌, ltb, leb, eq, nat_equal, list_equal,
}
use jlink_mcp_v.Domain.Json.{Value, text_leb}
use jlink_mcp_v.Capture.Json.{canonicalize, is_object}
use jlink_mcp_v.Domain.Error.{
  JlinkError, new, with_detail, nums, Result, ok, err, ◌>>=◌, ◌>>◌, ensure, ok_or, cursor_invalid,
  cursor_expired,
}

-- `jmc1`
abbrev pub cursor_prefix : List ℕ
cursor_prefix = b'j' ∷ b'm' ∷ b'c' ∷ b'1' ∷ []

-- `jlink-mcp:capture-cursor:v1\0`
abbrev pub cursor_digest_domain : List ℕ
cursor_digest_domain =
    b'j' ∷ b'l' ∷ b'i' ∷ b'n' ∷ b'k' ∷ b'-' ∷ b'm' ∷ b'c' ∷ b'p' ∷ b':' ∷ b'c' ∷ b'a' ∷ b'p' ∷ b't'
    ∷ b'u' ∷ b'r' ∷ b'e' ∷ b'-' ∷ b'c' ∷ b'u' ∷ b'r' ∷ b's' ∷ b'o' ∷ b'r' ∷ b':' ∷ b'v' ∷ b'1' ∷ 0
    ∷ []

abbrev pub cursor_schema_version : ℕ
cursor_schema_version = 1

abbrev pub dot : ℕ
dot = b'.'

abbrev pub invalid_cursor : JlinkError
invalid_cursor = new cursor_invalid false

-- What the cursor reads of a CaptureSnapshot.
pub record CaptureSnapshot : Type 0 where
  pub capture_id : List ℕ
  pub raw_sha256 : List ℕ

pub record CursorPayload (V : Type 0) : Type 0 where
  pub schema_version : ℕ
  pub payload_capture_id : List ℕ
  pub snapshot_sha256 : List ℕ
  pub query : V
  pub ordering : List ℕ
  pub position : ℕ
  pub emitted_series : List (List ℕ)

-- `{byte:02x}`
abbrev pub hex_digit : ℕ → ℕ
hex_digit n = if ltb n 10 then 48 + n else 87 + n

unfoldable pub encode_hex : List ℕ → List ℕ
encode_hex [] = []
encode_hex (byte ∷ bytes) = hex_digit (byte / 16) ∷ hex_digit (byte % 16) ∷ encode_hex bytes

unfoldable pub decode_nibble : ℕ → Result ℕ
decode_nibble byte =
    if leb 48 byte && leb byte 57
    then ok (byte - 48)
    else if leb 97 byte && leb byte 102
    then ok (byte - 97 + 10)
    else err invalid_cursor

-- The pairs of `as_chunks`; both nibbles are below 16, so `(high << 4) | low` is a sum.
unfoldable pub decode_pairs : List ℕ → Result (List ℕ)
unfolding decode_nibble
decode_pairs [] = ok []
decode_pairs (c ∷ []) = ok []
decode_pairs (c ∷ d ∷ rest) = do
  high ← decode_nibble c
  low ← decode_nibble d
  bytes ← decode_pairs rest
  ok ((high * 16 + low) ∷ bytes)

unfoldable pub decode_hex : List ℕ → Result (List ℕ)
unfolding decode_pairs
decode_hex encoded = do
  ensure (not (length encoded == 0 || not (length encoded % 2 == 0))) invalid_cursor
  decode_pairs encoded

-- `str::split('.')`
abbrev pub push_char : ℕ → List (List ℕ) → List (List ℕ)
push_char c [] = (c ∷ []) ∷ []
push_char c (w ∷ words) = (c ∷ w) ∷ words

unfoldable pub split : List ℕ → List (List ℕ)
split [] = [] ∷ []
split (c ∷ cs) = let words = split cs in if c == dot then [] ∷ words else push_char c words

-- `sort` and `dedup` of strings.
unfoldable pub insert_text : List ℕ → List (List ℕ) → List (List ℕ)
unfolding text_leb
insert_text t [] = t ∷ []
insert_text t (u ∷ us) = if text_leb t u then t ∷ u ∷ us else u ∷ insert_text t us

unfoldable pub sort_texts : List (List ℕ) → List (List ℕ)
unfolding insert_text
sort_texts [] = []
sort_texts (t ∷ ts) = insert_text t (sort_texts ts)

unfoldable pub dedup_after : List ℕ → List (List ℕ) → List (List ℕ)
dedup_after t [] = []
dedup_after t (u ∷ us) = if eq t u then dedup_after t us else u ∷ dedup_after u us

unfoldable pub dedup : List (List ℕ) → List (List ℕ)
unfolding dedup_after
dedup [] = []
dedup (t ∷ ts) = t ∷ dedup_after t ts

-- `sha256` is the digest of the `sha2` crate.
abbrev pub cursor_digest : (List ℕ → List ℕ) → List ℕ → List ℕ → List ℕ
cursor_digest sha256 payload snapshot_sha256 =
    sha256 (cursor_digest_domain ++ (snapshot_sha256 ++ payload))

unfoldable pub payload_of :
    {S : Type 0} → CaptureSnapshot → Value S → List ℕ → ℕ → List (List ℕ) → CursorPayload (Value S)
unfolding sort_texts dedup canonicalize
payload_of snapshot query ordering position emitted_series = record {
  schema_version = cursor_schema_version;
  payload_capture_id = snapshot.capture_id;
  snapshot_sha256 = snapshot.raw_sha256;
  query = canonicalize query;
  ordering = ordering;
  position = position;
  emitted_series = dedup (sort_texts emitted_series);
}

abbrev pub cursor_text : List ℕ → List ℕ → List ℕ
cursor_text bytes digest = cursor_prefix ++ (dot ∷ (encode_hex bytes ++ (dot ∷ encode_hex digest)))

unfoldable pub is_bound : {S : Type 0} → CursorPayload (Value S) → Bool
unfolding is_object
is_bound p =
    p.schema_version == cursor_schema_version
    && not (length p.payload_capture_id == 0)
    && length p.snapshot_sha256 == 64
    && not (length p.ordering == 0)
    && is_object p.query

-- CaptureCursor::validate_snapshot
unfoldable pub validate_snapshot :
    {S : Type 0} → CursorPayload (Value S) → CaptureSnapshot → Result (Unit {0})
validate_snapshot payload snapshot =
    ensure
      (eq snapshot.capture_id payload.payload_capture_id
        && eq snapshot.raw_sha256 payload.snapshot_sha256)
      (with_detail (new cursor_expired false) "capture_id" (nums payload.payload_capture_id))

-- serde_json's writer and reader, and the `sha2` digest.
module _ {S : Type 0} (to_vec : CursorPayload (Value S) → Option (List ℕ))
    (from_slice : List ℕ → Option (CursorPayload (Value S))) (sha256 : List ℕ → List ℕ) where
  unfoldable pub encode_cursor :
      CaptureSnapshot → Value S → List ℕ → ℕ → List (List ℕ) → Result (List ℕ)
  unfolding payload_of encode_hex
  encode_cursor snapshot query ordering position emitted_series = do
    let payload = payload_of snapshot query ordering position emitted_series
    bytes ← ok_or (to_vec payload) invalid_cursor
    ok (cursor_text bytes (cursor_digest sha256 bytes payload.snapshot_sha256))

  -- From the two hexadecimal parts.
  unfoldable pub decode_parts : List ℕ → List ℕ → Result (CursorPayload (Value S))
  unfolding decode_hex is_bound
  decode_parts payload_hex digest_hex = do
    bytes ← decode_hex payload_hex
    supplied_digest ← decode_hex digest_hex
    payload ← ok_or (from_slice bytes) invalid_cursor
    ensure (is_bound payload) invalid_cursor
    ensure (eq supplied_digest (cursor_digest sha256 bytes payload.snapshot_sha256)) invalid_cursor
    ok payload

  -- From the parts of the split; the prefix is tested first, and the parts after it counted.
  unfoldable pub decode_split : List (List ℕ) → Result (CursorPayload (Value S))
  unfolding decode_parts
  decode_split (prefix ∷ payload_hex ∷ digest_hex ∷ []) = do
    ensure (eq prefix cursor_prefix) invalid_cursor
    decode_parts payload_hex digest_hex
  decode_split _ = err invalid_cursor

  unfoldable pub decode_cursor : List ℕ → Result (CursorPayload (Value S))
  unfolding decode_split split
  decode_cursor cursor = decode_split (split cursor)
