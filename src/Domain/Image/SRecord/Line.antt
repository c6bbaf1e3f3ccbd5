-- ===== src/Domain/Image/SRecord/Line.antt =====
-- One line of a written S-record file is read as what it says.
use jlink_mcp_v.Base.{
  ℕ, ◌+◌, ◌^◌, ◌<◌, ◌≤◌, ◌≡◌, refl, ap, ◌∙◌, Bool, true, false, not, ◌||◌, List, [], ◌∷◌, some, ltb,
  leb, All, length, u64_mod, arith,
}
use jlink_mcp_v.Base.Graphic.{IsGraphic}
use jlink_mcp_v.Domain.Error.{ok, ◌>>=◌}
use jlink_mcp_v.Domain.Image.{FirmwareSegment, segment}
use jlink_mcp_v.Domain.Image.Text.{each_line, to_ascii_uppercase}
use jlink_mcp_v.Domain.Image.Text.Encode.{
  each_line-graphic, encode_bytes, encode_bytes-IsGraphic, decode_hex-encode_bytes, all-is_ascii,
  length-encode_bytes,
}
use jlink_mcp_v.Domain.Image.SRecord.{
  SReader, address_bytes, is_end, s_data, push_data, read_kind, read_s_line,
}
use jlink_mcp_v.Domain.Image.SRecord.Records.{
  Width, two, three, four, bytes_of, address_mod, data_kind, end_kind, IsBody, s_record, s_line,
  loaded,
}
use jlink_mcp_v.Domain.Image.SRecord.Body.{read_s_record-s_record, IsByte-s_record}

-- The type of a record and the width of its address.
pub record IsKind (kind : ℕ) (width : Width) : Type 0 where
  graphic : IsGraphic kind
  upper : to_ascii_uppercase kind ≡ kind
  wide : address_bytes kind ≡ some (bytes_of width)

pub s_line-IsGraphic :
    (kind : ℕ) (width : Width) (address : ℕ) (payload : List ℕ)
    → IsKind kind width
    → IsBody width address payload
    → All IsGraphic (s_line kind width address payload)
unfolding s_line
s_line-IsGraphic kind width address payload k h = (
  (omega arith, omega arith),
  (
    k.graphic,
    encode_bytes-IsGraphic (s_record width address payload)
        (IsByte-s_record width address payload h),
  ),
)

module _ (raw : List FirmwareSegment) (counted_yet : Bool) (n : ℕ) where
  abbrev pub s_reader : SReader
  s_reader = record {
    raw = raw;
    saw_termination = false;
    saw_count = counted_yet;
    data_record_count = n;
  }

  read_s_line-s_line :
      (kind : ℕ) (width : Width) (address : ℕ) (payload : List ℕ)
      → IsKind kind width
      → IsBody width address payload
      → (not counted_yet || is_end kind) ≡ true
      → read_s_line s_reader (s_line kind width address payload)
        ≡ read_kind s_reader kind address payload
  unfolding read_s_line s_line
  read_s_line-s_line kind width address payload k h allowed =
      let body = s_record width address payload in
      let bytes = IsByte-s_record width address payload h in
      let plain : ltb kind 128 ≡ true = ground (arith, k.graphic) in
      let long : leb 2 (length (encode_bytes body)) ≡ true =
        ground (arith, length-encode_bytes body) in
      rw
        (
          read_s_line,
          decode_hex-encode_bytes body bytes,
          plain,
          all-is_ascii (encode_bytes body) (encode_bytes-IsGraphic body bytes),
          long,
          k.upper,
          k.wide,
        )
        (read_s_record-s_record s_reader kind width address payload h allowed)

  pub each_line-s_line :
      (kind : ℕ) (width : Width) (address : ℕ) (payload : List ℕ) (rest : List (List ℕ))
      → IsKind kind width
      → IsBody width address payload
      → (not counted_yet || is_end kind) ≡ true
      → each_line read_s_line (s_line kind width address payload ∷ rest) s_reader
        ≡ (read_kind s_reader kind address payload >>= each_line read_s_line rest)
  unfolding s_line
  each_line-s_line kind width address payload rest k h allowed =
      each_line-graphic read_s_line s_reader b'S'
        (kind ∷ encode_bytes (s_record width address payload)) rest
        (s_line-IsGraphic kind width address payload k h)
      ∙ ap (λ r. r >>= each_line read_s_line rest)
          (read_s_line-s_line kind width address payload k h allowed)

pub IsKind-data_kind : (width : Width) → IsKind (data_kind width) width
unfolding to_ascii_uppercase
IsKind-data_kind two = record { graphic = omega arith; upper = refl; wide = refl }
IsKind-data_kind three = record { graphic = omega arith; upper = refl; wide = refl }
IsKind-data_kind four = record { graphic = omega arith; upper = refl; wide = refl }

pub IsKind-end_kind : (width : Width) → IsKind (end_kind width) width
unfolding to_ascii_uppercase
IsKind-end_kind two = record { graphic = omega arith; upper = refl; wide = refl }
IsKind-end_kind three = record { graphic = omega arith; upper = refl; wide = refl }
IsKind-end_kind four = record { graphic = omega arith; upper = refl; wide = refl }

pub IsKind-header : IsKind b'0' two
unfolding to_ascii_uppercase
IsKind-header = record { graphic = omega arith; upper = refl; wide = refl }

pub IsKind-count : IsKind b'5' two
unfolding to_ascii_uppercase
IsKind-count = record { graphic = omega arith; upper = refl; wide = refl }

pub read_kind-data_kind :
    (r : SReader) (width : Width) (address : ℕ) (payload : List ℕ)
    → read_kind r (data_kind width) address payload ≡ s_data r address payload
unfolding read_kind
read_kind-data_kind r two address payload = refl
read_kind-data_kind r three address payload = refl
read_kind-data_kind r four address payload = refl

pub read_kind-end_kind :
    (r : SReader) (width : Width) (address : ℕ)
    → read_kind r (end_kind width) address [] ≡ ok (record r { saw_termination = true })
unfolding read_kind
read_kind-end_kind r two address = refl
read_kind-end_kind r three address = refl
read_kind-end_kind r four address = refl

pub is_end-end_kind : (width : Width) → is_end (end_kind width) ≡ true
is_end-end_kind two = refl
is_end-end_kind three = refl
is_end-end_kind four = refl

address_mod-le : (width : Width) → address_mod width ≤ 2 ^ 32
address_mod-le two = omega arith
address_mod-le three = omega arith
address_mod-le four = omega arith

pub s_data-fits :
    (raw : List FirmwareSegment) (n : ℕ) (width : Width) (address : ℕ) (payload : List ℕ)
    → IsBody width address payload
    → n + 1 < u64_mod
    → s_data (s_reader raw false n) address payload
      ≡ ok (s_reader (loaded address payload raw) false (n + 1))
unfolding s_data push_data segment
s_data-fits raw n width address [] h small =
    let fits : ltb (n + 1) u64_mod ≡ true = ground (arith, small) in
    rw (s_data, push_data, fits) refl
s_data-fits raw n width address (b ∷ payload) h small =
    let fits : ltb (n + 1) u64_mod ≡ true = ground (arith, small) in
    let placed : ltb (address + length (b ∷ payload)) u64_mod ≡ true =
      ground (arith, address_mod-le width, h) in
    rw (s_data, push_data, segment, fits, placed) refl
