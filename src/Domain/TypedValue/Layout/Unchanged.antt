-- ===== src/Domain/TypedValue/Layout/Unchanged.antt =====
-- crates/jlink-domain/src/typed_value.rs: a value that is read and written back unchanged.
use jlink_mcp_v.Base.{
  ℕ, ◌*◌, ◌^◌, ◌<◌, ◌≤◌, ◌≡◌, refl, ap, ◌∙◌, sym, subst, true, ==_iff, List, [], ◌∷◌, Option, none,
  some, length, checked_mul, arith,
}
use jlink_mcp_v.Domain.Error.{
  ok, ◌>>=◌, ◌>>◌, ensure, ok_or, bind-eq-ok, bind-ok, ensure-eq-ok, ensure-true,
}
use jlink_mcp_v.Domain.Json.{object, array, Fields, end, insert, get, get-insert_self, as_array}
use jlink_mcp_v.Domain.Dwarf.{
  BitRange, AccessLayout, pointer, structure, union, Members, no_members, member, AccessPlan,
}
use jlink_mcp_v.Domain.Dwarf
use jlink_mcp_v.Domain.TypedValue.Bits.{
  invalid_value, unsupported, read_unsigned, write_unsigned, from_le_bytes, is_word,
}
use jlink_mcp_v.Domain.TypedValue.Bits.Storage.{
  IsBytes, from_le_bytes-lt, to_le_bytes-from_le_bytes, write_unsigned-eq,
}
use jlink_mcp_v.Domain.TypedValue.Numbers.{Scalar, require_object, pointer_json, parse_pointer}
use jlink_mcp_v.Domain.TypedValue.Numbers.Tags.{parse_pointer-pointer_json}
use jlink_mcp_v.Domain.TypedValue.Scalar.{Floats, JsonValue, require_length, reject_bit_range}
use jlink_mcp_v.Domain.TypedValue.Scalar.Stored.{IsExact, encode_scalar-decode_scalar}
use jlink_mcp_v.Domain.TypedValue.Layout.{
  validate_member_set, member_bounds, member_path, slice, bounded_layout_size,
}
use jlink_mcp_v.Domain.TypedValue.Layout.Decode.{
  decode_layout, decode_members, decode_elements, decode_typed_value,
}
use jlink_mcp_v.Domain.TypedValue.Layout.Encode.{encode_layout, encode_members, encode_typed_value}
use jlink_mcp_v.Domain.TypedValue.Layout.Slices.{
  splice-slice, slice-IsBytes, count-decode_elements, elements_unchanged,
}
use jlink_mcp_v.Domain.TypedValue.Layout.MemberSets.{
  AreDistinct, get-decode_members, validate_member_set-decode_members,
}

-- Integers, pointers, and structures and arrays of these; no structure names two members alike.
unfoldable mutual
  pub IsExactLayout : AccessLayout → Type 0
  IsExactLayout (Dwarf.scalar name size encoding) = IsExact encoding
  IsExactLayout (pointer size) = Unit
  IsExactLayout (structure size ms) = AreDistinct ms × AreExact ms
  IsExactLayout (union size ms) = ⊥
  IsExactLayout (Dwarf.array element count) = IsExactLayout element

  pub AreExact : Members → Type 0
  AreExact no_members = Unit
  AreExact (member name offset storage bit_offset bits layout rest) =
      IsExactLayout layout × AreExact rest

pointer_word :
    (bytes path : List ℕ) {address : ℕ}
    → read_unsigned bytes path ≡ ok address
    → (is_word bytes ≡ true) × (address ≡ from_le_bytes bytes)
unfolding read_unsigned
pointer_word bytes path h =
    let (_, word, rest) = bind-eq-ok _ (ensure (is_word bytes) (unsupported path)) h in
    (ensure-eq-ok _ (unsupported path) word, cc)

word_size : (bytes : List ℕ) → is_word bytes ≡ true → (0 < length bytes) × (length bytes ≤ 8)
word_size bytes h = ground arith

module _ (fl : Floats) where
  pointer_unchanged :
      (size : ℕ) (bytes : List ℕ) (path : List ℕ) {address : ℕ}
      → IsBytes bytes
      → length bytes ≡ size
      → read_unsigned bytes path ≡ ok address
      → (parse_pointer {F = fl.F64} (pointer_json address) size path ≡ ok address)
        × (write_unsigned bytes address path ≡ ok bytes)
  pointer_unchanged size bytes path {address} b sized h =
      let (word, same) = pointer_word bytes path h in
      let fits : from_le_bytes bytes < 2 ^ (length bytes * 8) = from_le_bytes-lt bytes b in
      let (some_bytes, few) = word_size bytes word in
      (
        parse_pointer-pointer_json fl.F64 address size path (omega arith) (omega arith) (
            let e : address < 2 ^ (size * 8) =
              subst (λ n. address < 2 ^ (n * 8)) sized
                (subst (λ a. a < 2 ^ (length bytes * 8)) (sym same) fits) in
            e),
        ap (λ a. write_unsigned bytes a path) same
            ∙ write_unsigned-eq bytes (from_le_bytes bytes) path word fits
            ∙ ap ok (to_le_bytes-from_le_bytes bytes b),
      )

  mutual
    unfolding decode_layout encode_layout IsExactLayout

    layout_unchanged :
        (layout : AccessLayout)
        → IsExactLayout layout
        → (bytes : List ℕ) (bit_range : Option BitRange) (path : List ℕ) (v : JsonValue fl)
        → IsBytes bytes
        → decode_layout fl layout bytes bit_range path ≡ ok v
        → encode_layout fl layout bytes bit_range v path ≡ ok bytes
    layout_unchanged (Dwarf.scalar name size encoding) exact bytes bit_range path v b h =
        encode_scalar-decode_scalar fl bytes bit_range path b size encoding exact h
    layout_unchanged (pointer size) exact bytes bit_range path v b h =
        let (_, whole, h₁) = bind-eq-ok _ (reject_bit_range bit_range path) h in
        let (_, sized, h₂) = bind-eq-ok _ (require_length (length bytes) size path) h₁ in
        let (address, word, h₃) = bind-eq-ok _ (read_unsigned bytes path) h₂ in
        let same : pointer_json address ≡ v = cc in
        let (parsed, written) =
          pointer_unchanged size bytes path b
            ((==_iff _ _).0 (ensure-eq-ok _ (invalid_value path) sized)) word in
        bind-ok _ whole
        ∙ bind-ok _ sized
        ∙ ap (λ w. parse_pointer w size path >>= λ a. write_unsigned bytes a path) (sym same)
        ∙ bind-ok _ parsed
        ∙ written
    layout_unchanged (structure size ms) exact bytes bit_range path v b h =
        let (_, whole, h₁) = bind-eq-ok _ (reject_bit_range bit_range path) h in
        let (_, sized, h₂) = bind-eq-ok _ (require_length (length bytes) size path) h₁ in
        let (fields, decoded, h₃) = bind-eq-ok _ (decode_members fl ms bytes path end) h₂ in
        let same : object fields ≡ v = cc in
        bind-ok _ whole
        ∙ bind-ok _ sized
        ∙ ap
            (λ w. require_object w path >>= λ fs.
              validate_member_set fs ms path >> encode_members fl ms bytes fs path)
            (sym same)
        ∙ bind-ok _ (validate_member_set-decode_members fl bytes path ms fields exact.0 decoded)
        ∙ members_unchanged ms exact.1 exact.0 bytes path end fields b decoded
    layout_unchanged (union size ms) exact bytes bit_range path v b h = elim exact [ ]
    layout_unchanged (Dwarf.array element none) exact bytes bit_range path v b h = cc
    layout_unchanged (Dwarf.array element (some count)) exact bytes bit_range path v b h =
        let (_, whole, h₁) = bind-eq-ok _ (reject_bit_range bit_range path) h in
        let (size, element_sized, h₂) = bind-eq-ok _ (bounded_layout_size element path) h₁ in
        let (total, product, h₃) =
          bind-eq-ok _ (ok_or (checked_mul size count) (unsupported path)) h₂ in
        let (_, sized, h₄) = bind-eq-ok _ (require_length (length bytes) total path) h₃ in
        let (values, decoded, h₅) =
          bind-eq-ok _ (decode_elements fl (decode_layout fl element) size 0 count bytes path) h₄ in
        let same : array values ≡ v = cc in
        let again =
          λ (bs p : List ℕ) (w : JsonValue fl) (bb : IsBytes bs)
              (e : decode_layout fl element bs none p ≡ ok w).
            layout_unchanged element exact bs none p w bb e in
        bind-ok _ whole
        ∙ bind-ok _ element_sized
        ∙ bind-ok _ product
        ∙ bind-ok _ sized
        ∙ bind-ok _ (ap (λ w. ok_or (as_array w) (invalid_value path)) (sym same))
        ∙ bind-ok _ (
            ensure-true _ _ (
              (==_iff _ _).1 (
                count-decode_elements fl (decode_layout fl element) (encode_layout fl element) again
                  size 0 count bytes path decoded)))
        ∙ elements_unchanged fl (decode_layout fl element) (encode_layout fl element) again size 0
            count bytes path b decoded

    members_unchanged :
        (ms : Members)
        → AreExact ms
        → AreDistinct ms
        → (bytes path : List ℕ) (fields final : Fields (Scalar fl.F64)) → IsBytes bytes
        → decode_members fl ms bytes path fields ≡ ok final
        → encode_members fl ms bytes final path ≡ ok bytes
    members_unchanged no_members exact d bytes path fields final b h = refl
    members_unchanged (member name offset storage bit_offset bits layout rest) exact d bytes path
          fields final b h =
        let ((start, stop, mb), bounds, h₁) =
          bind-eq-ok _
            (member_bounds offset storage bit_offset bits layout (length bytes)
              (member_path path name))
            h in
        let (v, decoded, h₂) =
          bind-eq-ok _ (decode_layout fl layout (slice start stop bytes) mb (member_path path name))
            h₁ in
        let found : get name final ≡ some v =
          get-decode_members fl bytes path rest name (insert name v fields) final d.0 h₂
          ∙ get-insert_self name v fields in
        bind-ok _ bounds
        ∙ bind-ok _ (ap (λ x. ok_or x (invalid_value path)) found)
        ∙ bind-ok _ (
            layout_unchanged layout exact.0 (slice start stop bytes) mb (member_path path name) v
              (slice-IsBytes start stop bytes b) decoded)
        ∙ ap (λ bs. encode_members fl rest bs final path) (splice-slice start stop bytes)
        ∙ members_unchanged rest exact.1 d.1 bytes path (insert name v fields) final b h₂

  -- A value read through an access plan and written back leaves each byte as it was, when the plan's
  -- layout is built of integers, pointers, structures without two members of one name, and arrays.
  pub encode_typed_value-decode_typed_value :
      (plan : AccessPlan) (bytes : List ℕ) (v : JsonValue fl)
      → IsExactLayout plan.layout
      → IsBytes bytes
      → decode_typed_value fl plan bytes ≡ ok v
      → encode_typed_value fl plan bytes v ≡ ok bytes
  unfolding decode_typed_value encode_typed_value
  encode_typed_value-decode_typed_value plan bytes v exact b h =
      let (_, sized, rest) =
        bind-eq-ok _ (require_length (length bytes) plan.plan_byte_size (b'$' ∷ [])) h in
      bind-ok _ sized ∙ layout_unchanged plan.layout exact bytes plan.bit_range (b'$' ∷ []) v b rest
