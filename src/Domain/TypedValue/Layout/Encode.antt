-- ===== src/Domain/TypedValue/Layout/Encode.antt =====
-- crates/jlink-domain/src/typed_value.rs: encode_typed_value and encode_layout.
use jlink_mcp_v.Base.{
  ℕ, ◌+◌, List, [], ◌∷◌, Option, none, some, if◌then◌else◌, ◌==◌, length, checked_mul, eq,
  nat_equal, list_equal,
}
use jlink_mcp_v.Domain.Error.{Result, ok, err, ◌>>=◌, ◌>>◌, ensure, ok_or}
use jlink_mcp_v.Domain.Json.{
  Items, nil, item, Fields, as_array, as_object, count_items, count_fields, get,
}
use jlink_mcp_v.Domain.Dwarf.{
  BitRange, ScalarEncoding, AccessLayout, pointer, structure, union, Members, no_members, member,
  byte_size, AccessPlan,
}
use jlink_mcp_v.Domain.Dwarf
use jlink_mcp_v.Domain.TypedValue.Bits.{invalid_value, unsupported, write_unsigned}
use jlink_mcp_v.Domain.TypedValue.Numbers.{Scalar, require_object, parse_pointer}
use jlink_mcp_v.Domain.TypedValue.Scalar.{
  Floats, JsonValue, reject_bit_range, require_length, encode_scalar,
}
use jlink_mcp_v.Domain.TypedValue.Layout.{
  union_key, member_path, union_member_path, index_path, slice, splice, bounded_layout_size,
  member_bounds, element_bounds, validate_member_set, only,
}

-- A part of the storage that a call gets as a mutable slice is put back by `splice`.
module _ (fl : Floats) where
  open fl use {F64}

  unfoldable pub encode_elements :
      (List ℕ → Option BitRange → JsonValue fl → List ℕ → Result (List ℕ))
      → ℕ
      → ℕ
      → Items (Scalar F64)
      → List ℕ
      → List ℕ
      → Result (List ℕ)
  encode_elements encode size index nil bytes path = ok bytes
  encode_elements encode size index (item v rest) bytes path = do
    (start, stop) ← element_bounds index size path
    new ← encode (slice start stop bytes) none v (index_path path index)
    encode_elements encode size (index + 1) rest (splice start new bytes) path

  unfoldable mutual
    unfolding encode_scalar write_unsigned parse_pointer member_bounds element_bounds
        encode_elements validate_member_set get as_array as_object byte_size

    pub encode_layout :
        AccessLayout → List ℕ → Option BitRange → JsonValue fl → List ℕ → Result (List ℕ)
    encode_layout (Dwarf.scalar name size encoding) bytes bit_range value path =
        encode_scalar fl size encoding bytes bit_range value path
    encode_layout (pointer size) bytes bit_range value path = do
      reject_bit_range bit_range path
      require_length (length bytes) size path
      address ← parse_pointer value size path
      write_unsigned bytes address path
    encode_layout (structure size members) bytes bit_range value path = do
      reject_bit_range bit_range path
      require_length (length bytes) size path
      fields ← require_object value path
      validate_member_set fields members path
      encode_members members bytes fields path
    encode_layout (union size members) bytes bit_range value path = do
      reject_bit_range bit_range path
      require_length (length bytes) size path
      fields ← require_object value path
      ensure (count_fields fields == 1) (invalid_value path)
      inner ← ok_or (get union_key fields) (invalid_value path)
      alternatives ← require_object inner path
      (name, member_value) ← only alternatives path
      encode_alternative members name member_value bytes path
    encode_layout (Dwarf.array element none) bytes bit_range value path = err (unsupported path)
    encode_layout (Dwarf.array element (some count)) bytes bit_range value path = do
      reject_bit_range bit_range path
      element_size ← bounded_layout_size element path
      expected ← ok_or (checked_mul element_size count) (unsupported path)
      require_length (length bytes) expected path
      values ← ok_or (as_array value) (invalid_value path)
      ensure (count_items values == count) (invalid_value path)
      encode_elements (encode_layout element) element_size 0 values bytes path

    -- encode_structure, after the member set is validated: then each name is there.
    pub encode_members : Members → List ℕ → Fields (Scalar F64) → List ℕ → Result (List ℕ)
    encode_members no_members bytes fields path = ok bytes
    encode_members (member name offset storage bit_offset bits layout rest) bytes fields path = do
      (start, stop, member_bits) ←
          member_bounds offset storage bit_offset bits layout (length bytes) (member_path path name)
      v ← ok_or (get name fields) (invalid_value path)
      new ← encode_layout layout (slice start stop bytes) member_bits v (member_path path name)
      encode_members rest (splice start new bytes) fields path

    -- The first member of the name.
    pub encode_alternative : Members → List ℕ → JsonValue fl → List ℕ → List ℕ → Result (List ℕ)
    encode_alternative no_members name value bytes path = err (invalid_value path)
    encode_alternative (member other offset storage bit_offset bits layout rest) name value bytes
          path =
        let at = union_member_path path name in
        let later = encode_alternative rest name value bytes path in
        if eq other name
        then (do
          (start, stop, member_bits) ←
              member_bounds offset storage bit_offset bits layout (length bytes) at
          new ← encode_layout layout (slice start stop bytes) member_bits value at
          ok (splice start new bytes))
        else later

  unfoldable pub encode_typed_value : AccessPlan → List ℕ → JsonValue fl → Result (List ℕ)
  unfolding encode_layout
  encode_typed_value plan current value = do
    require_length (length current) plan.plan_byte_size (b'$' ∷ [])
    encode_layout plan.layout current plan.bit_range value (b'$' ∷ [])
