-- ===== src/Domain/Image/IntelHex.antt =====
-- crates/jlink-domain/src/image.rs: `parse_intel_hex`.
pub mod Valid
pub mod Records
mod Line
pub mod RoundTrip
use mathlib.Core.List.{reverse}
use jlink_mcp_v.Base.{
  ℕ, ◌+◌, ◌*◌, ◌^◌, Bool, true, false, not, ◌||◌, if◌then◌else◌, List, [], ◌∷◌, ◌==◌, checked_add,
  length,
}
use jlink_mcp_v.Base.Utf8.{from_utf8}
use jlink_mcp_v.Base.Lines.{lines}
use jlink_mcp_v.Domain.Error.{Result, ok, err, ◌>>=◌, ensure, ok_or}
use jlink_mcp_v.Domain.Image.{FirmwareSegment, invalid, segment, normalize_segments}
use jlink_mcp_v.Domain.Image.Text.{strip_bom, decode_hex, byte_sum, is_empty, but_last, each_line}

-- The variables of the loop. The head of `raw` is the back of `raw_segments`.
pub record HexReader : Type 0 where
  pub upper : ℕ
  pub raw : List FirmwareSegment
  pub saw_eof : Bool

abbrev pub hex_start : HexReader
hex_start = record { upper = 0; raw = []; saw_eof = false }

-- `u16::from_be_bytes`
abbrev pub from_be : ℕ → ℕ → ℕ
from_be high low = high * 256 + low

-- Record type 0x00.
unfoldable pub data_record : HexReader → ℕ → List ℕ → Result HexReader
unfolding segment
data_record r offset [] = ok r
data_record r offset (b ∷ payload) = do
  address ← ok_or (checked_add r.upper offset) invalid
  s ← segment address (b ∷ payload)
  ok (record r { raw = s ∷ r.raw })

-- The other record types, by the length of the payload that they take.
unfoldable pub control_record : HexReader → ℕ → List ℕ → Result HexReader
control_record r kind [] = if kind == 0x01 then ok (record r { saw_eof = true }) else err invalid
control_record r kind (high ∷ low ∷ []) =
    if kind == 0x02
    then ok (record r { upper = from_be high low * 2 ^ 4 })
    else if kind == 0x04
    then ok (record r { upper = from_be high low * 2 ^ 16 })
    else err invalid
control_record r kind (a ∷ b ∷ c ∷ d ∷ []) =
    if kind == 0x03 || kind == 0x05 then ok r else err invalid
control_record r kind payload = err invalid

-- `match record[3]`
unfoldable pub read_payload : HexReader → ℕ → ℕ → List ℕ → Result HexReader
unfolding data_record control_record
read_payload r kind offset payload = elim (kind == 0) [
  | true ↦ data_record r offset payload
  | false ↦ control_record r kind payload
]

-- A record that has at least five bytes: `tail` is the payload and the checksum.
unfoldable pub read_tail : HexReader → List ℕ → ℕ → ℕ → ℕ → List ℕ → Result HexReader
unfolding read_payload
read_tail r record_bytes count offset kind tail = do
  _ ← ensure (length tail == count + 1) invalid
  _ ← ensure (byte_sum 0 record_bytes == 0) invalid
  read_payload r kind offset (but_last tail)

unfoldable pub read_record : HexReader → List ℕ → Result HexReader
unfolding read_tail
read_record r (count ∷ high ∷ low ∷ kind ∷ last ∷ rest) =
    read_tail r (count ∷ high ∷ low ∷ kind ∷ last ∷ rest) count (from_be high low) kind
      (last ∷ rest)
read_record r short = err invalid

-- One line, which is not blank.
unfoldable pub read_hex_line : HexReader → List ℕ → Result HexReader
unfolding read_record decode_hex
read_hex_line r [] = ok r
read_hex_line r (c ∷ body) = do
  _ ← ensure (not r.saw_eof) invalid
  _ ← ensure (c == b':') invalid
  bytes ← decode_hex body
  read_record r bytes

unfoldable pub finish_hex : HexReader → Result (List FirmwareSegment)
unfolding normalize_segments
finish_hex r = do _ ← ensure r.saw_eof invalid; normalize_segments (reverse r.raw)

unfoldable pub parse_intel_hex : List ℕ → Result (List FirmwareSegment)
unfolding from_utf8 lines strip_bom each_line read_hex_line finish_hex
parse_intel_hex bytes = do
  text ← ok_or (from_utf8 bytes) invalid
  r ← each_line read_hex_line (lines (strip_bom text)) hex_start
  finish_hex r
