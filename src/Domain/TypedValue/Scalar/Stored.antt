-- ===== src/Domain/TypedValue/Scalar/Stored.antt =====
-- crates/jlink-domain/src/typed_value.rs: integer scalars written and read back, read and written back.
use jlink_mcp_v.Base.{ℕ, ◌^◌, ◌<◌, ◌-◌, ◌≡◌, ◌∙◌, subst, List, Option, length}
use jlink_mcp_v.Base.Int.{ℤ}
use jlink_mcp_v.Domain.Error.{ok, bind-eq-ok, bind-ok}
use jlink_mcp_v.Domain.Dwarf.{BitRange, ScalarEncoding, signed, unsigned, boolean, float, other}
use jlink_mcp_v.Domain.TypedValue.Bits.{
  from_le_bytes, read_unsigned, logical_bits, selected_integer,
}
use jlink_mcp_v.Domain.TypedValue.Bits.Storage.{IsBytes}
use jlink_mcp_v.Domain.TypedValue.Bits.Selected.{
  IsSelection, logical_bits-IsSelection, chosen, selected_integer-eq, selected-lt,
  insert_integer_same,
}
use jlink_mcp_v.Domain.TypedValue.Numbers.{signed_json, unsigned_json}
use jlink_mcp_v.Domain.TypedValue.Numbers.Signs.{
  sign_extend-eq, magnitude-to_signed, signed_to_raw-to_signed, to_signed,
}
use jlink_mcp_v.Domain.TypedValue.Numbers.Tags.{
  parse_signed-signed_json, parse_unsigned-unsigned_json,
}
use jlink_mcp_v.Domain.TypedValue.Scalar.{
  Floats, JsonValue, require_length, decode_scalar, encode_scalar, decode_as, encode_as,
}

-- A read selection has a width.
selected_integer-logical :
    (bytes : List ℕ) (bit_range : Option BitRange) (path : List ℕ) {p : ℕ × ℕ}
    → selected_integer bytes bit_range path ≡ ok p
    → (bits : ℕ) × (logical_bits bytes bit_range path ≡ ok bits)
unfolding selected_integer
selected_integer-logical bytes bit_range path h =
    let (raw, _, h₁) = bind-eq-ok _ (read_unsigned bytes path) h in
    let (bits, l, _) = bind-eq-ok _ (logical_bits bytes bit_range path) h₁ in (bits, l)

abbrev pub IsExact : ScalarEncoding → Type 0
IsExact signed = Unit
IsExact unsigned = Unit
IsExact _ = ⊥

module _ (fl : Floats) (bytes : List ℕ) (bit_range : Option BitRange) (path : List ℕ)
    (b : IsBytes bytes) where
  module _ {bits : ℕ} (l : logical_bits bytes bit_range path ≡ ok bits) where
    raw : ℕ
    raw = chosen bit_range bits (from_le_bytes bytes)

    number : ℤ
    number = to_signed (2 ^ (bits - 1)) raw

    s : IsSelection bytes bit_range bits
    s = logical_bits-IsSelection bytes bit_range path l

    fits : raw < 2 ^ bits
    unfolding raw
    fits = selected-lt bytes bit_range path l b

    decode_signed : decode_as fl signed bytes bit_range path ≡ ok (signed_json number bits)
    unfolding decode_as raw number
    decode_signed =
        bind-ok _ (selected_integer-eq bytes bit_range path l)
        ∙ bind-ok _ (sign_extend-eq bits raw path s.some_bits s.small fits)

    encode_signed : encode_as fl signed bytes bit_range (signed_json number bits) path ≡ ok bytes
    unfolding encode_as raw number
    encode_signed =
        bind-ok _ l
        ∙ bind-ok _ (
            parse_signed-signed_json fl.F64 number bits path s.small
              (magnitude-to_signed bits raw path s.some_bits s.small fits))
        ∙ bind-ok _ (signed_to_raw-to_signed bits raw path s.some_bits s.small fits)
        ∙ insert_integer_same bytes bit_range path l b

    decode_unsigned : decode_as fl unsigned bytes bit_range path ≡ ok (unsigned_json raw bits)
    unfolding decode_as raw
    decode_unsigned = bind-ok _ (selected_integer-eq bytes bit_range path l)

    encode_unsigned : encode_as fl unsigned bytes bit_range (unsigned_json raw bits) path ≡ ok bytes
    unfolding encode_as raw
    encode_unsigned =
        bind-ok _ l
        ∙ bind-ok _ (parse_unsigned-unsigned_json fl.F64 raw bits path s.small fits)
        ∙ insert_integer_same bytes bit_range path l b

  unchanged :
      (encoding : ScalarEncoding)
      → IsExact encoding
      → {v : JsonValue fl} → decode_as fl encoding bytes bit_range path ≡ ok v
      → encode_as fl encoding bytes bit_range v path ≡ ok bytes
  unfolding decode_as
  unchanged signed exact {v} h =
      let (p, selected, _) = bind-eq-ok _ (selected_integer bytes bit_range path) h in
      let (bits, l) = selected_integer-logical bytes bit_range path selected in
      let same : signed_json (number l) bits ≡ v = let d = decode_signed l in cc in
      subst (λ w. encode_as fl signed bytes bit_range w path ≡ ok bytes) same (encode_signed l)
  unchanged unsigned exact {v} h =
      let (p, selected, _) = bind-eq-ok _ (selected_integer bytes bit_range path) h in
      let (bits, l) = selected_integer-logical bytes bit_range path selected in
      let same : unsigned_json (raw l) bits ≡ v = let d = decode_unsigned l in cc in
      subst (λ w. encode_as fl unsigned bytes bit_range w path ≡ ok bytes) same (encode_unsigned l)
  unchanged boolean exact h = elim exact [ ]
  unchanged float exact h = elim exact [ ]
  unchanged other exact h = elim exact [ ]

  -- An integer that is read and written back leaves the storage as it was.
  pub encode_scalar-decode_scalar :
      (size : ℕ) (encoding : ScalarEncoding)
      → IsExact encoding
      → {v : JsonValue fl} → decode_scalar fl size encoding bytes bit_range path ≡ ok v
      → encode_scalar fl size encoding bytes bit_range v path ≡ ok bytes
  unfolding decode_scalar encode_scalar
  encode_scalar-decode_scalar size encoding exact h =
      let (_, sized, rest) = bind-eq-ok _ (require_length (length bytes) size path) h in
      bind-ok _ sized ∙ unchanged encoding exact rest
