-- ===== src/Domain/Image/SRecord.antt =====
-- crates/jlink-domain/src/image.rs: `parse_s_record`.
pub mod Valid
pub mod Records
mod Body
mod Line
pub mod RoundTrip
use mathlib.Core.List.{reverse}
use jlink_mcp_v.Base.{
  ℕ, ◌+◌, ◌*◌, Bool, true, false, not, ◌&&◌, ◌||◌, Option, none, some, if◌then◌else◌, List, [], ◌∷◌,
  leb, ◌==◌, checked_add, length, take, drop, all,
}
use jlink_mcp_v.Base.Utf8.{from_utf8}
use jlink_mcp_v.Base.Lines.{lines}
use jlink_mcp_v.Domain.Error.{Result, ok, err, ◌>>=◌, ensure, ok_or}
use jlink_mcp_v.Domain.Image.{FirmwareSegment, invalid, segment, normalize_segments}
use jlink_mcp_v.Domain.Image.Text.{
  strip_bom, decode_hex, byte_sum, is_empty, but_last, each_line, is_ascii_char, to_ascii_uppercase,
}

-- The variables of the loop. The head of `raw` is the back of `raw_segments`.
pub record SReader : Type 0 where
  pub raw : List FirmwareSegment
  pub saw_termination : Bool
  pub saw_count : Bool
  pub data_record_count : ℕ

abbrev pub s_start : SReader
s_start = record { raw = []; saw_termination = false; saw_count = false; data_record_count = 0 }

abbrev pub is_data : ℕ → Bool
is_data kind = kind == b'1' || kind == b'2' || kind == b'3'

abbrev pub is_end : ℕ → Bool
is_end kind = kind == b'7' || kind == b'8' || kind == b'9'

abbrev pub is_count : ℕ → Bool
is_count kind = kind == b'5' || kind == b'6'

abbrev pub address_bytes : ℕ → Option ℕ
address_bytes kind =
    if kind == b'0' || kind == b'1' || kind == b'5' || kind == b'9'
    then some 2
    else if kind == b'2' || kind == b'6' || kind == b'8'
    then some 3
    else if kind == b'3' || kind == b'7'
    then some 4
    else none

-- `fold(0_u64, |value, byte| (value << 8) | byte)` of at most four bytes.
abbrev pub be_value : ℕ → List ℕ → ℕ
be_value value [] = value
be_value value (b ∷ bytes) = be_value (value * 256 + b) bytes

unfoldable pub push_data : SReader → ℕ → List ℕ → Result (List FirmwareSegment)
unfolding segment
push_data r address [] = ok r.raw
push_data r address (b ∷ payload) = do s ← segment address (b ∷ payload); ok (s ∷ r.raw)

unfoldable pub s_data : SReader → ℕ → List ℕ → Result SReader
unfolding push_data
s_data r address payload = do
  raw ← push_data r address payload
  count ← ok_or (checked_add r.data_record_count 1) invalid
  ok (record r { raw = raw; data_record_count = count })

abbrev pub s_count : SReader → ℕ → Result SReader
s_count r address = do
  _ ← ensure (address == r.data_record_count) invalid
  ok (record r { saw_count = true })

-- `match record_type`
unfoldable pub read_kind : SReader → ℕ → ℕ → List ℕ → Result SReader
unfolding s_data
read_kind r kind address payload =
    if is_data kind
    then s_data r address payload
    else if is_end kind && is_empty payload
    then ok (record r { saw_termination = true })
    else if is_count kind && is_empty payload && not r.saw_count
    then s_count r address
    else if kind == b'0'
    then ok r
    else err invalid

-- The decoded bytes of a record with an address of `width` bytes.
unfoldable pub read_s_record : SReader → ℕ → ℕ → List ℕ → Result SReader
unfolding read_kind
read_s_record r kind width [] = err invalid
read_s_record r kind width (count ∷ tail) = do
  _ ← ensure (length tail == count) invalid
  _ ← ensure (byte_sum 0 (count ∷ tail) == 255) invalid
  _ ← ensure (leb (width + 1) (length tail)) invalid
  _ ← ensure (not r.saw_count || is_end kind) invalid
  read_kind r kind (be_value 0 (take width tail)) (but_last (drop width tail))

-- One line, which is not blank.
unfoldable pub read_s_line : SReader → List ℕ → Result SReader
unfolding read_s_record decode_hex to_ascii_uppercase
read_s_line r (start ∷ type ∷ body) = do
  _ ← ensure (not r.saw_termination) invalid
  _ ←
      ensure
        (all is_ascii_char (start ∷ type ∷ body)
          && leb 2 (length body)
          && to_ascii_uppercase start == b'S')
        invalid
  width ← ok_or (address_bytes (to_ascii_uppercase type)) invalid
  bytes ← decode_hex body
  read_s_record r (to_ascii_uppercase type) width bytes
read_s_line r short = err invalid

unfoldable pub finish_s_record : SReader → Result (List FirmwareSegment)
unfolding normalize_segments
finish_s_record r = do _ ← ensure r.saw_termination invalid; normalize_segments (reverse r.raw)

unfoldable pub parse_s_record : List ℕ → Result (List FirmwareSegment)
unfolding from_utf8 lines strip_bom each_line read_s_line finish_s_record
parse_s_record bytes = do
  text ← ok_or (from_utf8 bytes) invalid
  r ← each_line read_s_line (lines (strip_bom text)) s_start
  finish_s_record r
