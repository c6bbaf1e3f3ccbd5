-- ===== src/Domain/TypedValue/Tests.antt =====
-- crates/jlink-domain/src/typed_value.rs: a plan and the values it reads, as data.
use jlink_mcp_v.Base.{ℕ, ◌≡◌, refl, true, false, List, [], ◌∷◌, Option, none, some, arith}
use jlink_mcp_v.Base.Int.{ℤ, pos, negsuc}
use jlink_mcp_v.Domain.Error.{ok}
use jlink_mcp_v.Domain.Json.{Value, object, array, item, nil, field, end, insert}
use jlink_mcp_v.Domain.Json
use jlink_mcp_v.Domain.Dwarf.{
  BitRange, AccessLayout, pointer, structure, no_members, member, AccessPlan, unsigned, signed,
}
use jlink_mcp_v.Domain.Dwarf
use jlink_mcp_v.Domain.TypedValue.Bits.{from_le_bytes, to_le_bytes}
use jlink_mcp_v.Domain.TypedValue.Numbers.{integer, pointer_json}
use jlink_mcp_v.Domain.TypedValue.Scalar.{Floats, JsonValue, encode_scalar}
use jlink_mcp_v.Domain.TypedValue.Scalar.Written.{IsStored, decode_scalar-encode_scalar}
use jlink_mcp_v.Domain.TypedValue.Bits.Storage.{IsBytes}
use jlink_mcp_v.Domain.TypedValue.Layout.{has_member}
use jlink_mcp_v.Domain.TypedValue.Layout.Decode.{decode_typed_value}
use jlink_mcp_v.Domain.TypedValue.Layout.Encode.{encode_typed_value}
use jlink_mcp_v.Domain.TypedValue.Layout.Unchanged.{
  IsExactLayout, encode_typed_value-decode_typed_value,
}

-- The pattern of a float stands for it.
abbrev pub pattern_floats : Floats
pattern_floats = record {
  F64 = ℕ;
  from_f32_le = from_le_bytes;
  from_f64_le = from_le_bytes;
  to_f64_le = λ v. to_le_bytes 8 v;
  to_f32_le = λ v. to_le_bytes 4 v;
  is_nan = λ v. false;
  is_infinity = λ v. false;
  is_neg_infinity = λ v. false;
  is_finite = λ v. true;
  in_f32_range = λ v. true;
  from_integer = λ z. 0;
  nan = 0;
  infinity = 0;
  neg_infinity = 0;
}

abbrev bits : AccessLayout
bits = Dwarf.scalar [] 1 unsigned

abbrev words : AccessLayout
words = Dwarf.array (Dwarf.scalar [] 2 signed) (some 2)

-- A byte, three bits of another one, two 16-bit words and a pointer.
abbrev packet : AccessLayout
packet = structure 10 (
    member (b'a' ∷ []) 0 none none none bits (
      member (b'b' ∷ []) 1 (some 1) (some 3) (some 3) bits (
        member (b'c' ∷ []) 2 none none none words
          (member (b'd' ∷ []) 6 none none none (pointer 4) no_members))))

abbrev packet_plan : AccessPlan
packet_plan = record {
  elf_sha256 = [];
  parser_format_version = 1;
  selector = record { path = b'p' ∷ []; slice = none };
  address = 536870912;
  plan_byte_size = 10;
  bit_range = none;
  is_volatile = false;
  layout = packet;
}

abbrev packet_bytes : List ℕ
packet_bytes = 7 ∷ 213 ∷ 254 ∷ 255 ∷ 3 ∷ 1 ∷ 0 ∷ 16 ∷ 0 ∷ 32 ∷ []

abbrev number : ℤ → JsonValue pattern_floats
number z = Json.scalar (integer z)

abbrev packet_value : JsonValue pattern_floats
packet_value = object (
    field (b'a' ∷ []) (number (pos 7)) (
      field (b'b' ∷ []) (number (pos 5)) (
        field (b'c' ∷ []) (array (item (number (negsuc 1)) (item (number (pos 259)) nil)))
          (field (b'd' ∷ []) (pointer_json 536875008) end))))

packet_read : decode_typed_value pattern_floats packet_plan packet_bytes ≡ ok packet_value
unfolding decode_typed_value
packet_read = refl

packet_IsBytes : IsBytes packet_bytes
packet_IsBytes = ground arith

field_IsBytes : IsBytes (213 ∷ [])
field_IsBytes = (omega arith, tt)

packet_unchanged_example :
    encode_typed_value pattern_floats packet_plan packet_bytes packet_value ≡ ok packet_bytes
unfolding IsExactLayout has_member
packet_unchanged_example =
    encode_typed_value-decode_typed_value pattern_floats packet_plan packet_bytes packet_value
      ((refl, (refl, (refl, (refl, tt)))), (tt, (tt, (tt, (tt, tt))))) packet_IsBytes packet_read

abbrev field_bits : Option BitRange
field_bits = some (record { lsb = 2; width = 3 })

field_write :
    encode_scalar pattern_floats 1 unsigned (213 ∷ []) field_bits (number (pos 2)) (b'$' ∷ [])
    ≡ ok (201 ∷ [])
unfolding encode_scalar
field_write = refl

field_write_example :
    IsStored pattern_floats 1 unsigned (213 ∷ []) (201 ∷ []) field_bits (b'$' ∷ []) (number (pos 2))
field_write_example =
    decode_scalar-encode_scalar pattern_floats 1 unsigned (213 ∷ []) (201 ∷ []) field_bits
      (b'$' ∷ []) (number (pos 2)) field_IsBytes tt field_write
