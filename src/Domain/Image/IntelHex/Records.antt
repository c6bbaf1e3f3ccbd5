-- ===== src/Domain/Image/IntelHex/Records.antt =====
-- Intel HEX as the format describes it: records, how a file is written, and what it loads.
use jlink_mcp_v.Base.{ℕ, ◌+◌, ◌*◌, ◌/◌, ◌%◌, ◌^◌, ◌<◌, List, [], ◌∷◌, All, length}
use jlink_mcp_v.Base.Lines.{unlines}
use jlink_mcp_v.Domain.Image.{FirmwareSegment}
use jlink_mcp_v.Domain.Image.Text.Encode.{IsByte, sealed, encode_bytes}

pub data HexRecord : Type 0 where
  data_at : ℕ → List ℕ → HexRecord
  segment_base linear_base : ℕ → HexRecord
  segment_entry linear_entry : ℕ → HexRecord

-- What the fields of a record can hold.
abbrev pub IsRecord : HexRecord → Type 0
IsRecord (data_at offset payload) = (offset < 2 ^ 16) × (length payload < 256) × All IsByte payload
IsRecord (segment_base base) = base < 2 ^ 16
IsRecord (linear_base base) = base < 2 ^ 16
IsRecord (segment_entry entry) = entry < 2 ^ 32
IsRecord (linear_entry entry) = entry < 2 ^ 32

abbrev pub be16 : ℕ → List ℕ → List ℕ
be16 n rest = n / 256 ∷ n % 256 ∷ rest

-- The fields of a record: the offset, the type and the payload.
abbrev pub fields : HexRecord → ℕ × ℕ × List ℕ
fields (data_at offset payload) = (offset, 0, payload)
fields (segment_base base) = (0, 2, be16 base [])
fields (segment_entry entry) = (0, 3, be16 (entry / 2 ^ 16) (be16 (entry % 2 ^ 16) []))
fields (linear_base base) = (0, 4, be16 base [])
fields (linear_entry entry) = (0, 5, be16 (entry / 2 ^ 16) (be16 (entry % 2 ^ 16) []))

abbrev pub encode_fields : ℕ × ℕ × List ℕ → List ℕ
encode_fields (offset, kind, payload) = sealed (length payload ∷ be16 offset (kind ∷ payload))

unfoldable pub hex_line : ℕ × ℕ × List ℕ → List ℕ
unfolding encode_bytes
hex_line f = b':' ∷ encode_bytes (encode_fields f)

-- The records, a line each, and the end record.
unfoldable pub hex_lines : List HexRecord → List (List ℕ)
unfolding hex_line
hex_lines [] = hex_line (0, 1, []) ∷ []
hex_lines (r ∷ rs) = hex_line (fields r) ∷ hex_lines rs

unfoldable pub hex_file : List HexRecord → List ℕ
unfolding hex_lines
hex_file rs = unlines (hex_lines rs)

-- What the records load: each data record at its offset from the base that a record before it set.
abbrev pub loads : ℕ → List HexRecord → List FirmwareSegment
loads base [] = []
loads base (data_at offset [] ∷ rs) = loads base rs
loads base (data_at offset (b ∷ payload) ∷ rs) =
    record { address = base + offset; bytes = b ∷ payload } ∷ loads base rs
loads base (segment_base paragraph ∷ rs) = loads (paragraph * 2 ^ 4) rs
loads base (linear_base upper ∷ rs) = loads (upper * 2 ^ 16) rs
loads base (segment_entry entry ∷ rs) = loads base rs
loads base (linear_entry entry ∷ rs) = loads base rs
