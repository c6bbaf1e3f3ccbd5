-- ===== src/Domain/TypedValue/Layout/Length.antt =====
-- crates/jlink-domain/src/typed_value.rs: an encoded value is as long as the storage it goes to.
use jlink_mcp_v.Base.{
  ℕ, ◌+◌, ◌-◌, ◌≡◌, ap, [], ◌∷◌, ◌∙◌, sym, Bool-cases, inl, inr, List, ◌++◌, Option, none, some,
  take, drop, length, length-append, length-take, length-drop, ◌==◌, ==_iff, eq, nat_equal,
  list_equal, checked_mul, arith,
}
use jlink_mcp_v.Domain.Error.{Result, ok, ensure, ok_or, bind-eq-ok, ensure-eq-ok, ok-injective}
use jlink_mcp_v.Domain.Json.{Items, nil, item, Fields, as_array, get, count_items, count_fields}
use jlink_mcp_v.Domain.Dwarf.{
  BitRange, AccessLayout, pointer, structure, union, Members, no_members, member, AccessPlan,
}
use jlink_mcp_v.Domain.Dwarf
use jlink_mcp_v.Domain.TypedValue.Bits.{invalid_value, unsupported}
use jlink_mcp_v.Domain.TypedValue.Bits.Length.{length-write_unsigned}
use jlink_mcp_v.Domain.TypedValue.Numbers.{Scalar, require_object, parse_pointer}
use jlink_mcp_v.Domain.TypedValue.Scalar.{Floats, JsonValue, reject_bit_range, require_length}
use jlink_mcp_v.Domain.TypedValue.Scalar.Length.{HasWidths, length-encode_scalar}
use jlink_mcp_v.Domain.TypedValue.Layout.{
  slice, splice, element_bounds, member_bounds, member_path, union_member_path, index_path,
  bounded_layout_size, validate_member_set, only, union_key,
}
use jlink_mcp_v.Domain.TypedValue.Layout.Encode.{
  encode_layout, encode_members, encode_alternative, encode_elements, encode_typed_value,
}

length-splice :
    (start stop : ℕ) (new bytes : List ℕ)
    → length new ≡ length (slice start stop bytes)
    → length (splice start new bytes) ≡ length bytes
length-splice start stop new bytes h = omega (
  arith,
  h,
  length-take start bytes,
  length-take (stop - start) (drop start bytes),
  length-drop start bytes,
  length-append (take start bytes) (new ++ drop (start + length new) bytes),
  length-append new (drop (start + length new) bytes),
  length-drop (start + length new) bytes,
)

module _ (fl : Floats) where
  -- An encoder keeps the length of its storage.
  abbrev KeepsLength : (List ℕ → Option BitRange → JsonValue fl → List ℕ → Result (List ℕ)) → Type 0
  KeepsLength encode =
      (bytes : List ℕ) (bit_range : Option BitRange) (v : JsonValue fl) (path new : List ℕ)
      → encode bytes bit_range v path ≡ ok new
      → length new ≡ length bytes

  length-encode_elements :
      (encode : List ℕ → Option BitRange → JsonValue fl → List ℕ → Result (List ℕ))
      → KeepsLength encode
      → (size index : ℕ) (values : Items (Scalar fl.F64)) (bytes path : List ℕ) {new : List ℕ}
      → encode_elements fl encode size index values bytes path ≡ ok new
      → length new ≡ length bytes
  unfolding encode_elements
  length-encode_elements encode keeps size index nil bytes path h = ap length (sym (ok-injective h))
  length-encode_elements encode keeps size index (item v values) bytes path h =
      let ((start, stop), _, h₁) = bind-eq-ok _ (element_bounds index size path) h in
      let (new, encoded, h₂) =
        bind-eq-ok _ (encode (slice start stop bytes) none v (index_path path index)) h₁ in
      length-encode_elements encode keeps size (index + 1) values (splice start new bytes) path h₂
      ∙ length-splice start stop new bytes (keeps _ _ _ _ _ encoded)

  module _ (widths : HasWidths fl) where
    mutual
      unfolding encode_layout

      length-encode_layout : (layout : AccessLayout) → KeepsLength (encode_layout fl layout)
      length-encode_layout (Dwarf.scalar name size encoding) bytes bit_range v path new h =
          length-encode_scalar fl widths size encoding bytes bit_range v path h
      length-encode_layout (pointer size) bytes bit_range v path new h =
          let (_, _, h₁) = bind-eq-ok _ (reject_bit_range bit_range path) h in
          let (_, _, h₂) = bind-eq-ok _ (require_length (length bytes) size path) h₁ in
          let (address, _, h₃) = bind-eq-ok _ (parse_pointer v size path) h₂ in
          length-write_unsigned bytes address path h₃
      length-encode_layout (structure size ms) bytes bit_range v path new h =
          let (_, _, h₁) = bind-eq-ok _ (reject_bit_range bit_range path) h in
          let (_, _, h₂) = bind-eq-ok _ (require_length (length bytes) size path) h₁ in
          let (fields, _, h₃) = bind-eq-ok _ (require_object v path) h₂ in
          let (_, _, h₄) = bind-eq-ok _ (validate_member_set fields ms path) h₃ in
          length-encode_members ms bytes fields path h₄
      length-encode_layout (union size ms) bytes bit_range v path new h =
          let (_, _, h₁) = bind-eq-ok _ (reject_bit_range bit_range path) h in
          let (_, _, h₂) = bind-eq-ok _ (require_length (length bytes) size path) h₁ in
          let (fields, _, h₃) = bind-eq-ok _ (require_object v path) h₂ in
          let (_, _, h₄) =
            bind-eq-ok _ (ensure (count_fields fields == 1) (invalid_value path)) h₃ in
          let (inner, _, h₅) =
            bind-eq-ok _ (ok_or (get union_key fields) (invalid_value path)) h₄ in
          let (alternatives, _, h₆) = bind-eq-ok _ (require_object inner path) h₅ in
          let ((name, value), _, h₇) = bind-eq-ok _ (only alternatives path) h₆ in
          length-encode_alternative ms name value bytes path h₇
      length-encode_layout (Dwarf.array element none) bytes bit_range v path new h = cc
      length-encode_layout (Dwarf.array element (some count)) bytes bit_range v path new h =
          let (_, _, h₁) = bind-eq-ok _ (reject_bit_range bit_range path) h in
          let (size, _, h₂) = bind-eq-ok _ (bounded_layout_size element path) h₁ in
          let (expected, _, h₃) =
            bind-eq-ok _ (ok_or (checked_mul size count) (unsupported path)) h₂ in
          let (_, _, h₄) = bind-eq-ok _ (require_length (length bytes) expected path) h₃ in
          let (values, _, h₅) = bind-eq-ok _ (ok_or (as_array v) (invalid_value path)) h₄ in
          let (_, _, h₆) =
            bind-eq-ok _ (ensure (count_items values == count) (invalid_value path)) h₅ in
          length-encode_elements (encode_layout fl element) (length-encode_layout element) size 0
            values bytes path h₆

      length-encode_members :
          (ms : Members) (bytes : List ℕ) (fields : Fields (Scalar fl.F64)) (path : List ℕ)
          {new : List ℕ}
          → encode_members fl ms bytes fields path ≡ ok new
          → length new ≡ length bytes
      length-encode_members no_members bytes fields path h = ap length (sym (ok-injective h))
      length-encode_members (member name offset storage bit_offset bits layout rest) bytes fields
            path h =
          let ((start, stop, member_bits), _, h₁) =
            bind-eq-ok _
              (member_bounds offset storage bit_offset bits layout (length bytes)
                (member_path path name))
              h in
          let (v, _, h₂) = bind-eq-ok _ (ok_or (get name fields) (invalid_value path)) h₁ in
          let (new, encoded, h₃) =
            bind-eq-ok _
              (encode_layout fl layout (slice start stop bytes) member_bits v
                (member_path path name))
              h₂ in
          length-encode_members rest (splice start new bytes) fields path h₃
          ∙ length-splice start stop new bytes (length-encode_layout layout _ _ _ _ _ encoded)

      length-encode_alternative :
          (ms : Members) (name : List ℕ) (v : JsonValue fl) (bytes path : List ℕ) {new : List ℕ}
          → encode_alternative fl ms name v bytes path ≡ ok new
          → length new ≡ length bytes
      length-encode_alternative no_members name v bytes path h = cc
      length-encode_alternative (member other offset storage bit_offset bits layout rest) name v
            bytes path h =
          elim (Bool-cases (eq other name)) [
            | inr miss ↦ length-encode_alternative rest name v bytes path (rw miss at h)
            | inl hit ↦
                let at = union_member_path path name in
                let ((start, stop, member_bits), _, h₁) =
                  bind-eq-ok _
                    (member_bounds offset storage bit_offset bits layout (length bytes) at)
                    (rw hit at h) in
                let (new, encoded, h₂) =
                  bind-eq-ok _ (encode_layout fl layout (slice start stop bytes) member_bits v at)
                    h₁ in
                ap length (sym (ok-injective h₂))
                ∙ length-splice start stop new bytes (length-encode_layout layout _ _ _ _ _ encoded)
          ]

    -- An encoded value takes exactly the bytes of its plan.
    pub length-encode_typed_value :
        (plan : AccessPlan) (current : List ℕ) (v : JsonValue fl) {new : List ℕ}
        → encode_typed_value fl plan current v ≡ ok new
        → length new ≡ plan.plan_byte_size
    unfolding encode_typed_value
    length-encode_typed_value plan current v h =
        let (_, sized, h₁) =
          bind-eq-ok _ (require_length (length current) plan.plan_byte_size (b'$' ∷ [])) h in
        length-encode_layout plan.layout current plan.bit_range v (b'$' ∷ []) _ h₁
        ∙ (==_iff (length current) plan.plan_byte_size).0 (ensure-eq-ok _ _ sized)
