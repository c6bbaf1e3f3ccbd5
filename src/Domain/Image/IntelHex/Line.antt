-- ===== src/Domain/Image/IntelHex/Line.antt =====
-- One written record of an Intel HEX file is read as what it says.
use jlink_mcp_v.Base.{
  ℕ, ◌+◌, ◌/◌, ◌%◌, ◌^◌, ◌<◌, ◌≡◌, refl, ap, ◌∙◌, true, false, List, [], ◌∷◌, ◌++◌, ltb, ◌==◌, All,
  All-append, length, length-append, u64_mod, arith,
}
use jlink_mcp_v.Base.Graphic.{IsGraphic}
use jlink_mcp_v.Domain.Error.{ok, ◌>>=◌}
use jlink_mcp_v.Domain.Image.{FirmwareSegment, segment}
use jlink_mcp_v.Domain.Image.Text.{byte_sum, each_line}
use jlink_mcp_v.Domain.Image.Text.Encode.{
  each_line-graphic, IsByte, checksum, sealed, encode_bytes, encode_bytes-IsGraphic,
  decode_hex-encode_bytes, byte_sum-sealed, but_last-snoc,
}
use jlink_mcp_v.Domain.Image.IntelHex.{
  HexReader, data_record, read_payload, read_tail, read_record, read_hex_line, from_be,
}
use jlink_mcp_v.Domain.Image.IntelHex.Records.{
  HexRecord, data_at, segment_base, linear_base, segment_entry, linear_entry, IsRecord, fields,
  be16, encode_fields, hex_line,
}

-- Fields that fit their bytes.
abbrev pub IsFields : ℕ × ℕ × List ℕ → Type 0
IsFields (offset, kind, payload) =
    (offset < 2 ^ 16) × (kind < 256) × (length payload < 256) × All IsByte payload

module _ (r : HexReader) (offset kind : ℕ) where
  read_tail-sealed :
      (payload : List ℕ) (c : ℕ)
      → byte_sum 0 (length payload ∷ be16 offset (kind ∷ payload ++ (c ∷ []))) ≡ 0
      → read_tail r
          (length payload ∷ be16 offset (kind ∷ payload ++ (c ∷ [])))
          (length payload)
          (from_be (offset / 256) (offset % 256))
          kind
          (payload ++ (c ∷ []))
        ≡ read_payload r kind offset payload
  unfolding read_tail
  read_tail-sealed payload c sum =
      let long : (length (payload ++ (c ∷ [])) == length payload + 1) ≡ true =
        ground (arith, length-append payload (c ∷ [])) in
      let place : from_be (offset / 256) (offset % 256) ≡ offset = omega arith in
      rw (read_tail, long, sum, place, but_last-snoc c payload) refl

  -- A record that was written is read by its type.
  read_record-encode_fields :
      (payload : List ℕ)
      → read_record r (encode_fields (offset, kind, payload)) ≡ read_payload r kind offset payload
  unfolding read_record
  read_record-encode_fields [] =
      read_tail-sealed [] (checksum (0 ∷ be16 offset (kind ∷ [])))
        (byte_sum-sealed (0 ∷ be16 offset (kind ∷ [])))
  read_record-encode_fields (b ∷ payload) =
      let front = length (b ∷ payload) ∷ be16 offset (kind ∷ b ∷ payload) in
      read_tail-sealed (b ∷ payload) (checksum front) (byte_sum-sealed front)

IsByte-sealed : (bytes : List ℕ) → All IsByte bytes → All IsByte (sealed bytes)
IsByte-sealed bytes h = All-append IsByte bytes (checksum bytes ∷ []) h (omega arith, tt)

IsByte-encode_fields : (f : ℕ × ℕ × List ℕ) → IsFields f → All IsByte (encode_fields f)
IsByte-encode_fields (offset, kind, payload) (at, type, short, bytes) =
    IsByte-sealed (length payload ∷ be16 offset (kind ∷ payload))
      (short, (omega arith, (omega arith, (type, bytes))))

pub hex_line-IsGraphic : (f : ℕ × ℕ × List ℕ) → IsFields f → All IsGraphic (hex_line f)
unfolding hex_line
hex_line-IsGraphic f h = (
  (omega arith, omega arith),
  encode_bytes-IsGraphic (encode_fields f) (IsByte-encode_fields f h),
)

pub IsFields-fields : (r : HexRecord) → IsRecord r → IsFields (fields r)
IsFields-fields (data_at offset payload) (at, short, bytes) = (at, omega arith, short, bytes)
IsFields-fields (segment_base base) h =
    (omega arith, omega arith, omega arith, (omega arith, (omega arith, tt)))
IsFields-fields (linear_base base) h =
    (omega arith, omega arith, omega arith, (omega arith, (omega arith, tt)))
IsFields-fields (segment_entry entry) h = (
  omega arith,
  omega arith,
  omega arith,
  (omega arith, (omega arith, (omega arith, (omega arith, tt)))),
)
IsFields-fields (linear_entry entry) h = (
  omega arith,
  omega arith,
  omega arith,
  (omega arith, (omega arith, (omega arith, (omega arith, tt)))),
)

-- A reader that has not seen the end record.
abbrev pub reader : ℕ → List FirmwareSegment → HexReader
reader base raw = record { upper = base; raw = raw; saw_eof = false }

read_hex_line-hex_line :
    (base : ℕ) (raw : List FirmwareSegment) (f : ℕ × ℕ × List ℕ)
    → IsFields f
    → read_hex_line (reader base raw) (hex_line f) ≡ read_record (reader base raw) (encode_fields f)
unfolding read_hex_line hex_line
read_hex_line-hex_line base raw f h =
    rw (read_hex_line, decode_hex-encode_bytes (encode_fields f) (IsByte-encode_fields f h)) refl

pub each_line-hex_line :
    (base : ℕ) (raw : List FirmwareSegment) (f : ℕ × ℕ × List ℕ) (rest : List (List ℕ))
    → IsFields f
    → each_line read_hex_line (hex_line f ∷ rest) (reader base raw)
      ≡ (read_payload (reader base raw) (f.1) (f.0) (f.2) >>= each_line read_hex_line rest)
unfolding hex_line
each_line-hex_line base raw (offset, kind, payload) rest h =
    let f : ℕ × ℕ × List ℕ = (offset, kind, payload) in
    each_line-graphic read_hex_line (reader base raw) b':' (encode_bytes (encode_fields f)) rest
      (hex_line-IsGraphic f h)
    ∙ ap (λ r. r >>= each_line read_hex_line rest)
        (read_hex_line-hex_line base raw f h
          ∙ read_record-encode_fields (reader base raw) offset kind payload)

segment-fits :
    (address b : ℕ) (bytes : List ℕ)
    → address + length (b ∷ bytes) < u64_mod
    → segment address (b ∷ bytes) ≡ ok (record { address = address; bytes = b ∷ bytes })
unfolding segment
segment-fits address b bytes h =
    let fits : ltb (address + length (b ∷ bytes)) u64_mod ≡ true = ground (arith, h) in
    rw (segment, fits) refl

pub data_record-fits :
    (base offset b : ℕ) (raw : List FirmwareSegment) (bytes : List ℕ)
    → base < 2 ^ 32
    → offset < 2 ^ 16
    → length (b ∷ bytes) < 256
    → data_record (reader base raw) offset (b ∷ bytes)
      ≡ ok (reader base (record { address = base + offset; bytes = b ∷ bytes } ∷ raw))
unfolding data_record
data_record-fits base offset b raw bytes h at short =
    let fits : ltb (base + offset) u64_mod ≡ true = ground (arith, h, at) in
    rw (data_record, fits, segment-fits (base + offset) b bytes (omega (arith, h, at, short))) refl
