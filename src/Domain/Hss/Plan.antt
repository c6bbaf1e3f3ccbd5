-- ===== src/Domain/Hss/Plan.antt =====
-- hss.rs: the variables that a capture samples, by DWARF or by a raw address.
pub mod Variables
pub mod Equality
pub mod Start
pub mod Rebuilt
pub mod Placed
pub mod Check
pub mod Tests
use jlink_mcp_v.Base.{
  ℕ, zero, suc, ◌+◌, ◌-◌, Bool, true, false, not, ◌&&◌, ◌||◌, List, [], ◌∷◌, ◌++◌, Option, none,
  some, if◌then◌else◌, ltb, leb, ◌==◌, map, length, eq, nat_equal, list_equal, checked_add,
  is_some_and,
}
use jlink_mcp_v.Base.Radix.{digits}
use jlink_mcp_v.Domain.Error.{
  JlinkError, new, with_detail, num, nums, Result, ok, err, ◌>>=◌, ◌>>◌, ensure, ok_or,
  value_invalid, hss_unsupported,
}
use jlink_mcp_v.Domain.Dwarf.{AccessPlan}
use jlink_mcp_v.Domain.Memory.{MemoryRegion, kind_eq, ram}

-- HSS_MAX_EXPANDED_SAMPLE_BYTES
abbrev pub max_expanded_sample_bytes : ℕ
max_expanded_sample_bytes = 40

abbrev pub value_error : JlinkError
value_error = new value_invalid false

abbrev pub unsupported : JlinkError
unsupported = new hss_unsupported false

pub data HssRawEndianness : Type 0 where
  little big : HssRawEndianness

pub data HssRawValueType : Type 0 where
  bytes u8 u16 u32 u64 i8 i16 i32 i64 f32 f64 : HssRawValueType

unfoldable pub fixed_length : HssRawValueType → Option ℕ
fixed_length bytes = none
fixed_length u8 = some 1
fixed_length i8 = some 1
fixed_length u16 = some 2
fixed_length i16 = some 2
fixed_length u32 = some 4
fixed_length i32 = some 4
fixed_length f32 = some 4
fixed_length u64 = some 8
fixed_length i64 = some 8
fixed_length f64 = some 8

-- HssRawValueType::as_str
unfoldable pub type_name : HssRawValueType → List ℕ
type_name bytes = b'b' ∷ b'y' ∷ b't' ∷ b'e' ∷ b's' ∷ []
type_name u8 = b'u' ∷ b'8' ∷ []
type_name u16 = b'u' ∷ b'1' ∷ b'6' ∷ []
type_name u32 = b'u' ∷ b'3' ∷ b'2' ∷ []
type_name u64 = b'u' ∷ b'6' ∷ b'4' ∷ []
type_name i8 = b'i' ∷ b'8' ∷ []
type_name i16 = b'i' ∷ b'1' ∷ b'6' ∷ []
type_name i32 = b'i' ∷ b'3' ∷ b'2' ∷ []
type_name i64 = b'i' ∷ b'6' ∷ b'4' ∷ []
type_name f32 = b'f' ∷ b'3' ∷ b'2' ∷ []
type_name f64 = b'f' ∷ b'6' ∷ b'4' ∷ []

pub record HssRawSelector : Type 0 where
  pub address : ℕ
  pub value_type : HssRawValueType
  pub length : ℕ
  pub endianness : HssRawEndianness
  pub allowed_region : MemoryRegion
  pub series : List ℕ

abbrev upper_digit : ℕ → ℕ
upper_digit d = if ltb d 10 then b'0' + d else b'A' + (d - 10)

unfoldable pub padding : ℕ → List ℕ
padding zero = []
padding (suc n) = b'0' ∷ padding n

-- `{address:08X}`
abbrev upper_hex : ℕ → List ℕ
upper_hex n = map upper_digit (digits 16 n n)

abbrev padded_hex : ℕ → List ℕ
padded_hex n = padding (8 - length (upper_hex n)) ++ upper_hex n

-- `raw_{address:08X}_{type}`
unfoldable pub series_of : ℕ → HssRawValueType → List ℕ
unfolding padding type_name
series_of address value_type =
    b'r' ∷ b'a' ∷ b'w' ∷ b'_' ∷ (padded_hex address ++ (b'_' ∷ type_name value_type))

abbrev length_error : HssRawSelector → ℕ → JlinkError
length_error s expected =
    with_detail
      (with_detail (with_detail value_error "type" (nums (type_name s.value_type)))
        "expected_length" (num expected))
      "actual_length" (num s.length)

check_length : HssRawSelector → Option ℕ → Result (Unit {0})
unfolding type_name
check_length s none = ok tt
check_length s (some expected) = ensure (s.length == expected) (length_error s expected)

abbrev region_error : HssRawSelector → JlinkError
region_error s =
    with_detail
      (with_detail
        (with_detail (with_detail value_error "address" (num s.address)) "length" (num s.length))
        "allowed_address" (num s.allowed_region.address))
      "allowed_length" (num s.allowed_region.length)

-- HssRawSelector::validate
unfoldable pub validate_selector : HssRawSelector → Result (Unit {0})
unfolding fixed_length check_length series_of
validate_selector s = do
  ensure (leb 1 s.length && leb s.length max_expanded_sample_bytes) unsupported
  check_length s (fixed_length s.value_type)
  ensure (kind_eq s.allowed_region.kind ram) value_error
  range_end ← ok_or (checked_add s.address s.length) value_error
  allowed_end ← ok_or (checked_add s.allowed_region.address s.allowed_region.length) value_error
  ensure (not (ltb s.address s.allowed_region.address || ltb allowed_end range_end))
      (region_error s)
  ensure (eq s.series (series_of s.address s.value_type)) value_error

-- HssRawSelector::new
unfoldable pub new_raw_selector :
    ℕ → HssRawValueType → ℕ → HssRawEndianness → MemoryRegion → Result HssRawSelector
unfolding validate_selector series_of
new_raw_selector address value_type length endianness allowed_region = do
  let selector : HssRawSelector = record {
    address = address;
    value_type = value_type;
    length = length;
    endianness = endianness;
    allowed_region = allowed_region;
    series = series_of address value_type;
  }
  validate_selector selector
  ok selector

pub data HssEvidenceKind : Type 0 where
  of_dwarf of_raw_address : HssEvidenceKind

pub data HssSelectorPlan : Type 0 where
  dwarf : AccessPlan → HssSelectorPlan
  raw : HssRawSelector → HssSelectorPlan

pub data HssVariableEvidence : Type 0 where
  dwarf_evidence : HssVariableEvidence
  raw_address : HssRawSelector → HssVariableEvidence

pub record HssVariablePlan : Type 0 where
  pub plan : Option AccessPlan
  pub evidence : HssVariableEvidence
  pub sample_offset : ℕ
