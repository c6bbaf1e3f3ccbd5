-- ===== src/Domain/TypedValue/Scalar.antt =====
-- crates/jlink-domain/src/typed_value.rs: decode_scalar and encode_scalar.
pub mod Length
pub mod Stored
pub mod Written
use jlink_mcp_v.Base.{
  ℕ, zero, suc, ◌^◌, Bool, true, false, not, ◌&&◌, List, [], ◌∷◌, Option, none, some, if◌then◌else◌,
  ◌==◌, length, eq, nat_equal, list_equal,
}
use jlink_mcp_v.Base.Int.{ℤ}
use jlink_mcp_v.Domain.Error.{JlinkError, Result, ok, err, ◌>>=◌, ◌>>◌, ensure, ok_or}
use jlink_mcp_v.Domain.Json.{Value, scalar, object, Fields, as_object, count_fields, get, single}
use jlink_mcp_v.Domain.Dwarf.{BitRange, ScalarEncoding, signed, unsigned, boolean, float, other}
use jlink_mcp_v.Domain.TypedValue.Bits.{
  invalid_value, unsupported, selected_integer, insert_integer, logical_bits,
}
use jlink_mcp_v.Domain.TypedValue.Numbers.{
  Scalar, null, bool, integer, real, string, as_str, require_object, sign_extend, signed_to_raw,
  signed_json, unsigned_json, parse_signed, parse_unsigned,
}

-- The floats of the language: f64, and f32 as far as it is read into f64 and narrowed from it.
pub record Floats : Type 1 where
  pub F64 : Type 0
  pub from_f32_le : List ℕ → F64
  pub from_f64_le : List ℕ → F64
  pub to_f64_le : F64 → List ℕ
  pub to_f32_le : F64 → List ℕ
  pub is_nan : F64 → Bool
  pub is_infinity : F64 → Bool
  pub is_neg_infinity : F64 → Bool
  pub is_finite : F64 → Bool
  pub in_f32_range : F64 → Bool
  pub from_integer : ℤ → F64
  pub nan : F64
  pub infinity : F64
  pub neg_infinity : F64

-- `$float`, `nan`, `inf` and `-inf`.
abbrev float_key : List ℕ
float_key = b'$' ∷ b'f' ∷ b'l' ∷ b'o' ∷ b'a' ∷ b't' ∷ []

abbrev nan_text : List ℕ
nan_text = b'n' ∷ b'a' ∷ b'n' ∷ []

abbrev inf_text : List ℕ
inf_text = b'i' ∷ b'n' ∷ b'f' ∷ []

abbrev neg_inf_text : List ℕ
neg_inf_text = b'-' ∷ inf_text

abbrev pub reject_bit_range : Option BitRange → List ℕ → Result (Unit {0})
reject_bit_range none path = ok tt
reject_bit_range (some range) path = err (unsupported path)

abbrev pub require_length : ℕ → ℕ → List ℕ → Result (Unit {0})
require_length actual expected path = ensure (actual == expected) (invalid_value path)

module _ (fl : Floats) where
  open fl use {
    F64, from_f32_le, from_f64_le, to_f64_le, to_f32_le, is_nan, is_infinity, is_neg_infinity,
    is_finite, in_f32_range, from_integer, nan, infinity, neg_infinity,
  }

  abbrev pub JsonValue : Type 0
  JsonValue = Value (Scalar F64)

  abbrev tagged_float : List ℕ → JsonValue
  tagged_float text = object (single float_key (scalar (string text)))

  float_json : F64 → List ℕ → Result JsonValue
  float_json value path =
      if is_nan value
      then ok (tagged_float nan_text)
      else if is_infinity value
      then ok (tagged_float inf_text)
      else if is_neg_infinity value
      then ok (tagged_float neg_inf_text)
      else if is_finite value
      then ok (scalar (real value))
      else err (invalid_value path)

  unfoldable pub decode_float : List ℕ → List ℕ → Result JsonValue
  unfolding float_json
  decode_float bytes path =
      if length bytes == 4
      then float_json (from_f32_le bytes) path
      else if length bytes == 8
      then float_json (from_f64_le bytes) path
      else err (unsupported path)

  float_of_text : Option (List ℕ) → List ℕ → Result F64
  float_of_text none path = err (invalid_value path)
  float_of_text (some text) path =
      if eq text nan_text
      then ok nan
      else if eq text inf_text
      then ok infinity
      else if eq text neg_inf_text
      then ok neg_infinity
      else err (invalid_value path)

  tagged_value : JsonValue → List ℕ → Result F64
  unfolding float_of_text as_object get
  tagged_value value path = do
    fields ← require_object value path
    ensure (count_fields fields == 1) (invalid_value path)
    float_of_text (as_str (get float_key fields)) path

  -- `as_f64`, and the `$float` object.
  parse_float : JsonValue → List ℕ → Result F64
  unfolding tagged_value
  parse_float (scalar (real value)) path = ok value
  parse_float (scalar (integer z)) path = ok (from_integer z)
  parse_float value path = tagged_value value path

  narrow_f32 : F64 → List ℕ → Result (List ℕ)
  narrow_f32 value path =
      if is_finite value && not (in_f32_range value)
      then err (invalid_value path)
      else ok (to_f32_le value)

  unfoldable pub encode_float : List ℕ → JsonValue → List ℕ → Result (List ℕ)
  unfolding parse_float narrow_f32
  encode_float bytes json path = do
    value ← parse_float json path
    (if length bytes == 4
        then narrow_f32 value path
        else if length bytes == 8
        then ok (to_f64_le value)
        else err (unsupported path))

  decode_as : ScalarEncoding → List ℕ → Option BitRange → List ℕ → Result JsonValue
  unfolding decode_float selected_integer sign_extend signed_json unsigned_json
  decode_as signed bytes bit_range path = do
    (raw, bits) ← selected_integer bytes bit_range path
    value ← sign_extend raw bits path
    ok (signed_json value bits)
  decode_as unsigned bytes bit_range path = do
    (raw, bits) ← selected_integer bytes bit_range path
    ok (unsigned_json raw bits)
  decode_as boolean bytes bit_range path = do
    (raw, bits) ← selected_integer bytes bit_range path
    ok (scalar (bool (not (raw == 0))))
  decode_as float bytes bit_range path = do reject_bit_range bit_range path; decode_float bytes path
  decode_as other bytes bit_range path = err (unsupported path)

  unfoldable pub decode_scalar :
      ℕ → ScalarEncoding → List ℕ → Option BitRange → List ℕ → Result JsonValue
  unfolding decode_as
  decode_scalar byte_size encoding bytes bit_range path = do
    require_length (length bytes) byte_size path
    decode_as encoding bytes bit_range path

  as_bool : JsonValue → Option Bool
  as_bool (scalar (bool b)) = some b
  as_bool _ = none

  abbrev from_bool : Bool → ℕ
  from_bool true = 1
  from_bool false = 0

  encode_as : ScalarEncoding → List ℕ → Option BitRange → JsonValue → List ℕ → Result (List ℕ)
  unfolding encode_float as_bool insert_integer logical_bits parse_signed parse_unsigned
      signed_to_raw
  encode_as signed bytes bit_range value path = do
    bits ← logical_bits bytes bit_range path
    z ← parse_signed value bits path
    raw ← signed_to_raw z bits path
    insert_integer bytes bit_range raw path
  encode_as unsigned bytes bit_range value path = do
    bits ← logical_bits bytes bit_range path
    raw ← parse_unsigned value bits path
    insert_integer bytes bit_range raw path
  encode_as boolean bytes bit_range value path = do
    b ← ok_or (as_bool value) (invalid_value path)
    insert_integer bytes bit_range (from_bool b) path
  encode_as float bytes bit_range value path = do
    reject_bit_range bit_range path
    encode_float bytes value path
  encode_as other bytes bit_range value path = err (unsupported path)

  unfoldable pub encode_scalar :
      ℕ → ScalarEncoding → List ℕ → Option BitRange → JsonValue → List ℕ → Result (List ℕ)
  unfolding encode_as
  encode_scalar byte_size encoding bytes bit_range value path = do
    require_length (length bytes) byte_size path
    encode_as encoding bytes bit_range value path
