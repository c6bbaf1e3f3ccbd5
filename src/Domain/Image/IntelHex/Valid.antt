-- ===== src/Domain/Image/IntelHex/Valid.antt =====
-- What `parse_intel_hex` hands over is valid.
use jlink_mcp_v.Base.{
  ℕ, ◌+◌, not, ◌||◌, List, [], ◌∷◌, ◌==◌, All, All-reverse, length, checked_add, inl, inr,
  Bool-cases,
}
use jlink_mcp_v.Base.Utf8.{from_utf8}
use jlink_mcp_v.Base.Lines.{lines}
use jlink_mcp_v.Domain.Error.{ensure, ok_or}
use jlink_mcp_v.Domain.Image.{segment, invalid}
use jlink_mcp_v.Domain.Image.Segments.{IsSegment}
use jlink_mcp_v.Domain.Image.Text.{each_line, decode_hex, byte_sum, but_last, strip_bom}
use jlink_mcp_v.Domain.Image.Valid.{
  IfOk, IfOk-then, IfOk-bind, IfOk-test, each_line-keeps, segment-IsSegment, IsImageData,
  normalize_segments-valid,
}
use mathlib.Core.List.{reverse}
use jlink_mcp_v.Domain.Image.IntelHex.{
  HexReader, from_be, hex_start, data_record, control_record, read_payload, read_tail, read_record,
  read_hex_line, finish_hex, parse_intel_hex,
}

abbrev HexValid : HexReader → Type 0
HexValid r = All IsSegment r.raw

data_record-valid :
    (r : HexReader) (offset : ℕ) (payload : List ℕ)
    → HexValid r
    → IfOk HexValid (data_record r offset payload)
unfolding data_record
data_record-valid r offset [] h = h
data_record-valid r offset (b ∷ payload) h =
    IfOk-then HexValid (ok_or (checked_add r.upper offset) invalid) _ (λ address.
      IfOk-bind HexValid IsSegment (segment address (b ∷ payload)) _
        (segment-IsSegment address (b ∷ payload)) (λ s v. (v, h)))

control_record-valid :
    (r : HexReader) (kind : ℕ) (payload : List ℕ)
    → HexValid r
    → IfOk HexValid (control_record r kind payload)
unfolding control_record
control_record-valid r kind [] h = IfOk-test HexValid (kind == 1) _ _ h tt
control_record-valid r kind (a ∷ []) h = tt
control_record-valid r kind (a ∷ b ∷ []) h =
    IfOk-test HexValid (kind == 2) _ _ h (IfOk-test HexValid (kind == 4) _ _ h tt)
control_record-valid r kind (a ∷ b ∷ c ∷ []) h = tt
control_record-valid r kind (a ∷ b ∷ c ∷ d ∷ []) h =
    IfOk-test HexValid (kind == 3 || kind == 5) _ _ h tt
control_record-valid r kind (a ∷ b ∷ c ∷ d ∷ e ∷ more) h = tt

read_payload-valid :
    (r : HexReader) (kind offset : ℕ) (payload : List ℕ)
    → HexValid r
    → IfOk HexValid (read_payload r kind offset payload)
unfolding read_payload
read_payload-valid r kind offset payload h = elim (Bool-cases (kind == 0)) [
  | inl zero_kind ↦ rw (read_payload, zero_kind) (data_record-valid r offset payload h)
  | inr other ↦ rw (read_payload, other) (control_record-valid r kind payload h)
]

read_record-valid :
    (r : HexReader) (bytes : List ℕ) → HexValid r → IfOk HexValid (read_record r bytes)
unfolding read_record read_tail
read_record-valid r [] h = tt
read_record-valid r (a ∷ []) h = tt
read_record-valid r (a ∷ b ∷ []) h = tt
read_record-valid r (a ∷ b ∷ c ∷ []) h = tt
read_record-valid r (a ∷ b ∷ c ∷ d ∷ []) h = tt
read_record-valid r (count ∷ high ∷ low ∷ kind ∷ last ∷ rest) h =
    IfOk-then HexValid (ensure (length (last ∷ rest) == count + 1) invalid) _ (λ u.
      IfOk-then HexValid
        (ensure (byte_sum 0 (count ∷ high ∷ low ∷ kind ∷ last ∷ rest) == 0) invalid) _
        (λ u'. read_payload-valid r kind (from_be high low) (but_last (last ∷ rest)) h))

read_hex_line-valid :
    (r : HexReader) (line : List ℕ) → HexValid r → IfOk HexValid (read_hex_line r line)
unfolding read_hex_line
read_hex_line-valid r [] h = h
read_hex_line-valid r (c ∷ body) h = IfOk-then HexValid (ensure (not r.saw_eof) invalid) _ (λ u.
    IfOk-then HexValid (ensure (c == b':') invalid) _
      (λ u'. IfOk-then HexValid (decode_hex body) _ (λ bytes. read_record-valid r bytes h)))

pub parse_intel_hex-valid : (bytes : List ℕ) → IfOk IsImageData (parse_intel_hex bytes)
unfolding parse_intel_hex finish_hex
parse_intel_hex-valid bytes = IfOk-then IsImageData (ok_or (from_utf8 bytes) invalid) _ (λ text.
    IfOk-bind IsImageData HexValid (each_line read_hex_line (lines (strip_bom text)) hex_start) _
      (each_line-keeps HexValid read_hex_line read_hex_line-valid (lines (strip_bom text)) hex_start
        tt)
      (λ r h.
        IfOk-then IsImageData (ensure r.saw_eof invalid) _
          (λ u. normalize_segments-valid (reverse r.raw) (All-reverse IsSegment r.raw h))))
