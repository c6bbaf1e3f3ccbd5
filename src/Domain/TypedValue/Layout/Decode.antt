-- ===== src/Domain/TypedValue/Layout/Decode.antt =====
-- crates/jlink-domain/src/typed_value.rs: decode_typed_value and decode_layout.
use jlink_mcp_v.Base.{
  ℕ, zero, suc, ◌+◌, List, [], ◌∷◌, Option, none, some, if◌then◌else◌, length, checked_mul,
  nat_equal, list_equal,
}
use jlink_mcp_v.Domain.Error.{Result, ok, err, ◌>>=◌, ◌>>◌, ok_or}
use jlink_mcp_v.Domain.Json.{array, object, Items, nil, item, Fields, end, field, insert, single}
use jlink_mcp_v.Domain.Dwarf.{
  BitRange, ScalarEncoding, AccessLayout, pointer, structure, union, Members, no_members, member,
  byte_size, AccessPlan,
}
use jlink_mcp_v.Domain.Dwarf
use jlink_mcp_v.Domain.TypedValue.Bits.{unsupported, read_unsigned}
use jlink_mcp_v.Domain.TypedValue.Numbers.{Scalar, pointer_json}
use jlink_mcp_v.Domain.TypedValue.Scalar.{
  Floats, JsonValue, reject_bit_range, require_length, decode_scalar,
}
use jlink_mcp_v.Domain.TypedValue.Layout.{
  union_key, member_path, union_member_path, index_path, slice, bounded_layout_size, member_bounds,
  element_bounds, is_unsupported,
}

module _ (fl : Floats) where
  open fl use {F64}

  -- The loop over the elements, with the number of those left.
  unfoldable pub decode_elements :
      (List ℕ → Option BitRange → List ℕ → Result (JsonValue fl))
      → ℕ
      → ℕ
      → ℕ
      → List ℕ
      → List ℕ
      → Result (Items (Scalar F64))
  decode_elements decode size index zero bytes path = ok nil
  decode_elements decode size index (suc left) bytes path = do
    (start, stop) ← element_bounds index size path
    v ← decode (slice start stop bytes) none (index_path path index)
    rest ← decode_elements decode size (index + 1) left bytes path
    ok (item v rest)

  -- A member of a union whose type is not supported is left out.
  add_alternative :
      Result (JsonValue fl) → List ℕ → Fields (Scalar F64) → Result (Fields (Scalar F64))
  add_alternative (ok v) name fields = ok (insert name v fields)
  add_alternative (err e) name fields = if is_unsupported e.code then ok fields else err e

  union_json : Fields (Scalar F64) → List ℕ → Result (JsonValue fl)
  union_json end path = err (unsupported path)
  union_json (field name v rest) path = ok (object (single union_key (object (field name v rest))))

  unfoldable mutual
    unfolding decode_scalar read_unsigned pointer_json member_bounds element_bounds decode_elements
        add_alternative union_json insert byte_size

    pub decode_layout : AccessLayout → List ℕ → Option BitRange → List ℕ → Result (JsonValue fl)
    decode_layout (Dwarf.scalar name size encoding) bytes bit_range path =
        decode_scalar fl size encoding bytes bit_range path
    decode_layout (pointer size) bytes bit_range path = do
      reject_bit_range bit_range path
      require_length (length bytes) size path
      address ← read_unsigned bytes path
      ok (pointer_json address)
    decode_layout (structure size members) bytes bit_range path = do
      reject_bit_range bit_range path
      require_length (length bytes) size path
      fields ← decode_members members bytes path end
      ok (object fields)
    decode_layout (union size members) bytes bit_range path = do
      reject_bit_range bit_range path
      require_length (length bytes) size path
      alternatives ← decode_alternatives members bytes path end
      union_json alternatives path
    decode_layout (Dwarf.array element none) bytes bit_range path = err (unsupported path)
    decode_layout (Dwarf.array element (some count)) bytes bit_range path = do
      reject_bit_range bit_range path
      element_size ← bounded_layout_size element path
      expected ← ok_or (checked_mul element_size count) (unsupported path)
      require_length (length bytes) expected path
      values ← decode_elements (decode_layout element) element_size 0 count bytes path
      ok (array values)

    pub decode_members :
        Members → List ℕ → List ℕ → Fields (Scalar F64) → Result (Fields (Scalar F64))
    decode_members no_members bytes path fields = ok fields
    decode_members (member name offset storage bit_offset bits layout rest) bytes path fields = do
      (start, stop, member_bits) ←
          member_bounds offset storage bit_offset bits layout (length bytes) (member_path path name)
      v ← decode_layout layout (slice start stop bytes) member_bits (member_path path name)
      decode_members rest bytes path (insert name v fields)

    pub decode_alternatives :
        Members → List ℕ → List ℕ → Fields (Scalar F64) → Result (Fields (Scalar F64))
    decode_alternatives no_members bytes path fields = ok fields
    decode_alternatives (member name offset storage bit_offset bits layout rest) bytes path fields =
        do
          let at = union_member_path path name
          let decoded =
              member_bounds offset storage bit_offset bits layout (length bytes) at
              >>= λ (start, stop, member_bits).
                  decode_layout layout (slice start stop bytes) member_bits at
          more ← add_alternative decoded name fields
          decode_alternatives rest bytes path more

  unfoldable pub decode_typed_value : AccessPlan → List ℕ → Result (JsonValue fl)
  unfolding decode_layout
  decode_typed_value plan bytes = do
    require_length (length bytes) plan.plan_byte_size (b'$' ∷ [])
    decode_layout plan.layout bytes plan.bit_range (b'$' ∷ [])
