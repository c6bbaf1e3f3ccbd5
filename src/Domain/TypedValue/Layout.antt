-- ===== src/Domain/TypedValue/Layout.antt =====
-- crates/jlink-domain/src/typed_value.rs: where the parts of a layout lie, and sets of members.
pub mod Decode
pub mod Encode
pub mod Slices
pub mod MemberSets
pub mod Unchanged
pub mod Length
use jlink_mcp_v.Base.{
  ℕ, zero, suc, ◌+◌, ◌-◌, Bool, true, false, not, ◌||◌, List, [], ◌∷◌, ◌++◌, Option, none, some,
  if◌then◌else◌, leb, ◌==◌, length, take, drop, checked_mul, checked_add, eq, nat_equal, list_equal,
}
use jlink_mcp_v.Base.Decimal.{to_decimal}
use jlink_mcp_v.Domain.Error.{
  ErrorCode, type_unsupported, JlinkError, Result, ok, err, ◌>>=◌, ◌>>◌, ensure, ok_or,
}
use jlink_mcp_v.Domain.Json.{
  Value, scalar, array, object, Items, nil, item, Fields, end, field, as_array, as_object,
  count_items, count_fields, get, insert, single,
}
use jlink_mcp_v.Domain.Dwarf.{
  BitRange, ScalarEncoding, AccessLayout, pointer, structure, union, Members, no_members, member,
  byte_size, AccessPlan,
}
use jlink_mcp_v.Domain.TypedValue.Bits.{invalid_value, unsupported, read_unsigned, write_unsigned}
use jlink_mcp_v.Domain.TypedValue.Numbers.{require_object, pointer_json, parse_pointer}
use jlink_mcp_v.Domain.TypedValue.Scalar.{
  Floats, JsonValue, reject_bit_range, require_length, decode_scalar, encode_scalar,
}
use jlink_mcp_v.Domain.Dwarf

-- `$union`
abbrev pub union_key : List ℕ
union_key = b'$' ∷ b'u' ∷ b'n' ∷ b'i' ∷ b'o' ∷ b'n' ∷ []

abbrev pub member_path : List ℕ → List ℕ → List ℕ
member_path path name = path ++ (b'.' ∷ name)

abbrev pub union_member_path : List ℕ → List ℕ → List ℕ
union_member_path path name = path ++ (b'.' ∷ (union_key ++ (b'.' ∷ name)))

abbrev pub index_path : List ℕ → ℕ → List ℕ
index_path path index = path ++ (b'[' ∷ (to_decimal index ++ (b']' ∷ [])))

-- `&data[start..end]`, and the storage with these bytes replaced, for a range inside it.
abbrev pub slice : ℕ → ℕ → List ℕ → List ℕ
slice start stop bytes = take (stop - start) (drop start bytes)

abbrev pub splice : ℕ → List ℕ → List ℕ → List ℕ
splice start new bytes = take start bytes ++ (new ++ drop (start + length new) bytes)

abbrev pub bounded_layout_size : AccessLayout → List ℕ → Result ℕ
bounded_layout_size layout path = ok_or (byte_size layout) (unsupported path)

abbrev checked_sub : ℕ → ℕ → Option ℕ
checked_sub a b = if leb b a then some (a - b) else none

member_storage :
    Option ℕ → Option ℕ → Option ℕ → AccessLayout → List ℕ → Result (ℕ × Option BitRange)
member_storage none none none layout path = do
  size ← bounded_layout_size layout path
  ok (size, none)
member_storage (some storage_size) (some dwarf_offset) (some width) layout path = do
  storage_bits ← ok_or (checked_mul storage_size 8) (unsupported path)
  above ← ok_or (checked_sub storage_bits dwarf_offset) (unsupported path)
  lsb ← ok_or (checked_sub above width) (unsupported path)
  ok (storage_size, some (record { lsb = lsb; width = width }))
member_storage _ _ _ layout path = err (unsupported path)

unfoldable pub member_bounds :
    ℕ
    → Option ℕ
    → Option ℕ
    → Option ℕ
    → AccessLayout
    → ℕ
    → List ℕ
    → Result (ℕ × ℕ × Option BitRange)
unfolding member_storage
member_bounds byte_offset storage_size bit_offset bit_size layout aggregate_len path = do
  (size, bit_range) ← member_storage storage_size bit_offset bit_size layout path
  stop ← ok_or (checked_add byte_offset size) (unsupported path)
  ensure (leb stop aggregate_len) (unsupported path)
  ok (byte_offset, stop, bit_range)

unfoldable pub element_bounds : ℕ → ℕ → List ℕ → Result (ℕ × ℕ)
element_bounds index element_size path = do
  start ← ok_or (checked_mul index element_size) (unsupported path)
  stop ← ok_or (checked_add start element_size) (unsupported path)
  ok (start, stop)

abbrev is_unsupported : ErrorCode → Bool
is_unsupported type_unsupported = true
is_unsupported _ = false

abbrev pub count_members : Members → ℕ
count_members no_members = 0
count_members (member name offset storage bit_offset bits layout rest) = suc (count_members rest)

unfoldable pub has_member : List ℕ → Members → Bool
has_member name no_members = false
has_member name (member other offset storage bit_offset bits layout rest) =
    eq other name || has_member name rest

abbrev none_found : Option (List ℕ) → List ℕ → Result (Unit {0})
none_found none path = ok tt
none_found (some name) path = err (invalid_value (member_path path name))

module _ {S : Type 0} where
  abbrev is_present : Option (Value S) → Bool
  is_present none = false
  is_present (some v) = true

  abbrev pub contains_key : List ℕ → Fields S → Bool
  contains_key name fields = is_present (get name fields)

  unfoldable pub find_extra : Fields S → Members → Option (List ℕ)
  unfolding has_member
  find_extra end known = none
  find_extra (field name v rest) known =
      if has_member name known then find_extra rest known else some name

  unfoldable pub find_missing : Members → Fields S → Option (List ℕ)
  unfolding get
  find_missing no_members fields = none
  find_missing (member name offset storage bit_offset bits layout rest) fields =
      if contains_key name fields then find_missing rest fields else some name

  unfoldable pub validate_member_set : Fields S → Members → List ℕ → Result (Unit {0})
  unfolding find_extra find_missing
  validate_member_set fields members path = do
    ensure (count_fields fields == count_members members) (invalid_value path)
    none_found (find_extra fields members) path
    none_found (find_missing members fields) path

  -- A map of exactly one name.
  abbrev only : Fields S → List ℕ → Result (List ℕ × Value S)
  only (field name v end) path = ok (name, v)
  only _ path = err (invalid_value path)
