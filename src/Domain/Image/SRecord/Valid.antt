-- ===== src/Domain/Image/SRecord/Valid.antt =====
-- What `parse_s_record` hands over is valid.
use jlink_mcp_v.Base.{
  ℕ, ◌+◌, not, ◌&&◌, ◌||◌, List, [], ◌∷◌, leb, ◌==◌, take, drop, all, All, All-reverse, length,
  checked_add,
}
use jlink_mcp_v.Base.Utf8.{from_utf8}
use jlink_mcp_v.Base.Lines.{lines}
use jlink_mcp_v.Domain.Error.{ensure, ok_or}
use jlink_mcp_v.Domain.Image.{segment, invalid}
use jlink_mcp_v.Domain.Image.Segments.{IsSegment}
use jlink_mcp_v.Domain.Image.Text.{
  is_empty, each_line, decode_hex, byte_sum, but_last, is_ascii_char, to_ascii_uppercase, strip_bom,
}
use jlink_mcp_v.Domain.Image.Valid.{
  IfOk, IfOk-then, IfOk-bind, IfOk-test, each_line-keeps, segment-IsSegment, IsImageData,
  normalize_segments-valid,
}
use mathlib.Core.List.{reverse}
use jlink_mcp_v.Domain.Image.SRecord.{
  SReader, s_start, is_end, is_count, be_value, address_bytes, push_data, s_data, s_count,
  read_kind, read_s_record, read_s_line, finish_s_record, parse_s_record, is_data,
}

abbrev SValid : SReader → Type 0
SValid r = All IsSegment r.raw

push_data-valid :
    (r : SReader) (address : ℕ) (payload : List ℕ)
    → SValid r
    → IfOk (All IsSegment) (push_data r address payload)
unfolding push_data
push_data-valid r address [] h = h
push_data-valid r address (b ∷ payload) h =
    IfOk-bind (All IsSegment) IsSegment (segment address (b ∷ payload)) _
      (segment-IsSegment address (b ∷ payload)) (λ s v. (v, h))

s_data-valid :
    (r : SReader) (address : ℕ) (payload : List ℕ)
    → SValid r
    → IfOk SValid (s_data r address payload)
unfolding s_data
s_data-valid r address payload h =
    IfOk-bind SValid (All IsSegment) (push_data r address payload) _
      (push_data-valid r address payload h)
      (λ raw v. IfOk-then SValid (ok_or (checked_add r.data_record_count 1) invalid) _ (λ count. v))

s_count-valid : (r : SReader) (address : ℕ) → SValid r → IfOk SValid (s_count r address)
s_count-valid r address h =
    IfOk-then SValid (ensure (address == r.data_record_count) invalid) _ (λ u. h)

read_kind-valid :
    (r : SReader) (kind address : ℕ) (payload : List ℕ)
    → SValid r
    → IfOk SValid (read_kind r kind address payload)
unfolding read_kind
read_kind-valid r kind address payload h =
    IfOk-test SValid (is_data kind) _ _ (s_data-valid r address payload h) (
      IfOk-test SValid (is_end kind && is_empty payload) _ _ h (
        IfOk-test SValid (is_count kind && is_empty payload && not r.saw_count) _ _
          (s_count-valid r address h) (IfOk-test SValid (kind == b'0') _ _ h tt)))

read_s_record-valid :
    (r : SReader) (kind width : ℕ) (bytes : List ℕ)
    → SValid r
    → IfOk SValid (read_s_record r kind width bytes)
unfolding read_s_record
read_s_record-valid r kind width [] h = tt
read_s_record-valid r kind width (count ∷ tail) h =
    IfOk-then SValid (ensure (length tail == count) invalid) _ (λ u.
      IfOk-then SValid (ensure (byte_sum 0 (count ∷ tail) == 255) invalid) _ (λ u.
        IfOk-then SValid (ensure (leb (width + 1) (length tail)) invalid) _ (λ u.
          IfOk-then SValid (ensure (not r.saw_count || is_end kind) invalid) _ (λ u.
            read_kind-valid r kind (be_value 0 (take width tail)) (but_last (drop width tail)) h))))

read_s_line-valid : (r : SReader) (line : List ℕ) → SValid r → IfOk SValid (read_s_line r line)
unfolding read_s_line
read_s_line-valid r [] h = tt
read_s_line-valid r (c ∷ []) h = tt
read_s_line-valid r (start ∷ type ∷ body) h =
    let kind = to_ascii_uppercase type in
    IfOk-then SValid (ensure (not r.saw_termination) invalid) _ (λ u.
      IfOk-then SValid
        (ensure
          (all is_ascii_char (start ∷ type ∷ body)
            && leb 2 (length body)
            && to_ascii_uppercase start == b'S')
          invalid)
        _
        (λ u. IfOk-then SValid (ok_or (address_bytes kind) invalid) _ (λ width.
          IfOk-then SValid (decode_hex body) _
            (λ bytes. read_s_record-valid r kind width bytes h))))

pub parse_s_record-valid : (bytes : List ℕ) → IfOk IsImageData (parse_s_record bytes)
unfolding parse_s_record finish_s_record
parse_s_record-valid bytes = IfOk-then IsImageData (ok_or (from_utf8 bytes) invalid) _ (λ text.
    IfOk-bind IsImageData SValid (each_line read_s_line (lines (strip_bom text)) s_start) _
      (each_line-keeps SValid read_s_line read_s_line-valid (lines (strip_bom text)) s_start tt)
      (λ r h.
        IfOk-then IsImageData (ensure r.saw_termination invalid) _
          (λ u. normalize_segments-valid (reverse r.raw) (All-reverse IsSegment r.raw h))))
