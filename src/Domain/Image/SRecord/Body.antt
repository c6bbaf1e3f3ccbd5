-- ===== src/Domain/Image/SRecord/Body.antt =====
-- The bytes of a written S-record are read as what it says.
use jlink_mcp_v.Base.{
  ℕ, ◌+◌, ◌<◌, ◌≡◌, refl, ap₂, ◌∙◌, true, not, ◌||◌, List, [], ◌∷◌, ◌++◌, leb, ◌==◌, All,
  All-append, length, length-append, take, drop, arith,
}
use jlink_mcp_v.Domain.Image.Text.{byte_sum, but_last}
use jlink_mcp_v.Domain.Image.Text.Encode.{IsByte, byte_sum-snoc, byte_sum-lt, but_last-snoc}
use jlink_mcp_v.Domain.Image.SRecord.{SReader, be_value, is_end, read_kind, read_s_record}
use jlink_mcp_v.Domain.Image.SRecord.Records.{
  Width, two, three, four, bytes_of, be_bytes, IsBody, complement, counted, s_record,
}

byte_sum-complement : (front : List ℕ) → byte_sum 0 (front ++ (complement front ∷ [])) ≡ 255
byte_sum-complement front =
    let small = byte_sum-lt 0 front (omega arith) in
    byte_sum-snoc 0 (complement front) front ∙ omega arith

read_s_record-tail :
    (r : SReader) (kind width count : ℕ) (tail : List ℕ)
    → length tail ≡ count
    → byte_sum 0 (count ∷ tail) ≡ 255
    → width < length tail
    → (not r.saw_count || is_end kind) ≡ true
    → read_s_record r kind width (count ∷ tail)
      ≡ read_kind r kind (be_value 0 (take width tail)) (but_last (drop width tail))
unfolding read_s_record
read_s_record-tail r kind width count tail long sum wide allowed =
    let same : (length tail == count) ≡ true = ground (arith, long) in
    let enough : leb (width + 1) (length tail) ≡ true = ground (arith, wide) in
    rw (read_s_record, same, sum, enough, allowed) refl

-- A record that was written is read by its type.
pub read_s_record-s_record :
    (r : SReader) (kind : ℕ) (width : Width) (address : ℕ) (payload : List ℕ)
    → IsBody width address payload
    → (not r.saw_count || is_end kind) ≡ true
    → read_s_record r kind (bytes_of width) (s_record width address payload)
      ≡ read_kind r kind address payload
read_s_record-s_record r kind two address payload h allowed =
    let front = counted two address payload in
    let c = complement front in
    let long = length-append payload (c ∷ []) in
    read_s_record-tail r kind 2 (2 + length payload + 1)
      (be_bytes two address (payload ++ (c ∷ []))) (omega (arith, long)) (byte_sum-complement front)
      (omega (arith, long)) allowed
    ∙ ap₂ (read_kind r kind) (omega arith) (but_last-snoc c payload)
read_s_record-s_record r kind three address payload h allowed =
    let front = counted three address payload in
    let c = complement front in
    let long = length-append payload (c ∷ []) in
    read_s_record-tail r kind 3 (3 + length payload + 1)
      (be_bytes three address (payload ++ (c ∷ []))) (omega (arith, long))
      (byte_sum-complement front) (omega (arith, long)) allowed
    ∙ ap₂ (read_kind r kind) (omega arith) (but_last-snoc c payload)
read_s_record-s_record r kind four address payload h allowed =
    let front = counted four address payload in
    let c = complement front in
    let long = length-append payload (c ∷ []) in
    read_s_record-tail r kind 4 (4 + length payload + 1)
      (be_bytes four address (payload ++ (c ∷ []))) (omega (arith, long))
      (byte_sum-complement front) (omega (arith, long)) allowed
    ∙ ap₂ (read_kind r kind) (omega arith) (but_last-snoc c payload)

IsByte-be_bytes :
    (width : Width) (address : ℕ) (payload : List ℕ)
    → IsBody width address payload
    → All IsByte (counted width address payload)
IsByte-be_bytes two address payload (at, short, bytes) =
    (omega arith, (omega arith, (omega arith, bytes)))
IsByte-be_bytes three address payload (at, short, bytes) =
    (omega arith, (omega arith, (omega arith, (omega arith, bytes))))
IsByte-be_bytes four address payload (at, short, bytes) =
    (omega arith, (omega arith, (omega arith, (omega arith, (omega arith, bytes)))))

pub IsByte-s_record :
    (width : Width) (address : ℕ) (payload : List ℕ)
    → IsBody width address payload
    → All IsByte (s_record width address payload)
IsByte-s_record width address payload h =
    let front = counted width address payload in
    All-append IsByte front (complement front ∷ []) (IsByte-be_bytes width address payload h)
      (omega arith, tt)
