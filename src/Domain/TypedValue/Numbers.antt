-- ===== src/Domain/TypedValue/Numbers.antt =====
-- crates/jlink-domain/src/typed_value.rs: integers and pointers as JSON values.
pub mod Signs
pub mod Tags
use jlink_mcp_v.Base.{
  ℕ, zero, suc, ◌+◌, ◌-◌, ◌*◌, ◌/◌, ◌%◌, ◌^◌, Bool, true, false, not, ◌&&◌, ◌||◌, List, [], ◌∷◌,
  Option, none, some, if◌then◌else◌, ltb, leb, ◌==◌, length, all, checked_mul, eq, nat_equal,
  list_equal, option_equal,
}
use jlink_mcp_v.Base.Int.{ℤ, pos, negsuc}
use jlink_mcp_v.Base.Decimal.{to_decimal, to_decimal_ℤ, parse_signed_text, parse_unsigned_text}
use jlink_mcp_v.Base.Hex.{to_hex, hex_value}
use jlink_mcp_v.Base.Text.{is_ascii_hexdigit}
use jlink_mcp_v.Domain.Error.{JlinkError, Result, ok, err, ◌>>=◌, ◌>>◌, ensure, ok_or}
use jlink_mcp_v.Domain.Json.{
  Value, scalar, array, object, Fields, end, field, as_object, count_fields, get, single,
}
use jlink_mcp_v.Domain.TypedValue.Bits.{invalid_value, unsupported, bit_mask}

-- serde_json's null, Bool, Number and String; a float is a value of `F`.
pub data Scalar (F : Type 0) : Type 0 where
  null : Scalar F
  bool : Bool → Scalar F
  integer : ℤ → Scalar F
  real : F → Scalar F
  string : List ℕ → Scalar F

abbrev pub json_safe_integer : ℕ
json_safe_integer = 9007199254740991

-- `$int`, `bits`, `signed` and `$pointer`.
abbrev pub int_key : List ℕ
int_key = b'$' ∷ b'i' ∷ b'n' ∷ b't' ∷ []

abbrev pub bits_key : List ℕ
bits_key = b'b' ∷ b'i' ∷ b't' ∷ b's' ∷ []

abbrev pub signed_key : List ℕ
signed_key = b's' ∷ b'i' ∷ b'g' ∷ b'n' ∷ b'e' ∷ b'd' ∷ []

abbrev pub pointer_key : List ℕ
pointer_key = b'$' ∷ b'p' ∷ b'o' ∷ b'i' ∷ b'n' ∷ b't' ∷ b'e' ∷ b'r' ∷ []

-- `i64::unsigned_abs`, and how far a number is from the nearer end of the signed range.
abbrev pub unsigned_abs : ℤ → ℕ
unsigned_abs (pos n) = n
unsigned_abs (negsuc n) = suc n

abbrev pub magnitude : ℤ → ℕ
magnitude (pos n) = n
magnitude (negsuc n) = n

-- `u64::cast_signed`
abbrev pub cast_signed : ℕ → ℤ
cast_signed n = if ltb n (2 ^ 63) then pos n else negsuc (2 ^ 64 - n - 1)

-- `raw & sign == 0` says that bit `bits - 1` is clear, and `raw | !mask` sets every bit from `bits` on.
unfoldable pub sign_extend : ℕ → ℕ → List ℕ → Result ℤ
sign_extend raw bits path = do
  _ ← bit_mask bits path
  ok (
      if bits == 64
      then cast_signed raw
      else if raw / 2 ^ (bits - 1) % 2 == 0
      then cast_signed raw
      else cast_signed (raw % 2 ^ bits + (2 ^ 64 - 2 ^ bits)))

as_u64_word : ℕ → List ℕ → Result ℕ
as_u64_word n path = if ltb n (2 ^ 64) then ok n else err (invalid_value path)

-- `(1 << bits) + value` for a negative value, which must not be negative itself.
unfoldable pub signed_to_raw : ℤ → ℕ → List ℕ → Result ℕ
unfolding as_u64_word
signed_to_raw (pos n) bits path = as_u64_word n path
signed_to_raw (negsuc n) bits path =
    if leb (suc n) (2 ^ bits) then as_u64_word (2 ^ bits - suc n) path else err (invalid_value path)

abbrev pub is_u64 : Option ℕ → ℕ → Bool
is_u64 none n = false
is_u64 (some m) n = m == n

-- `strip_prefix("0x")` and the filter on the digits.
abbrev pub pointer_digits : Option (List ℕ) → Option (List ℕ)
pointer_digits (some (zero' ∷ x ∷ digits)) =
    if zero' == b'0' && (x == b'x' && (not (length digits == 0) && all is_ascii_hexdigit digits))
    then some digits
    else none
pointer_digits _ = none

fits_pointer : ℕ → ℕ → Bool
fits_pointer bits address =
    not (bits == 0 || (ltb 64 bits || (ltb bits 64 && ltb (2 ^ bits - 1) address)))

module _ {F : Type 0} where
  abbrev tagged : List ℕ → ℕ → Bool → Value (Scalar F)
  tagged text bits signed = object (
      field int_key (scalar (string text)) (
        field bits_key (scalar (integer (pos bits))) (field signed_key (scalar (bool signed)) end)))

  unfoldable pub unsigned_json : ℕ → ℕ → Value (Scalar F)
  unsigned_json value bits =
      if leb value json_safe_integer
      then scalar (integer (pos value))
      else tagged (to_decimal value) bits false

  unfoldable pub signed_json : ℤ → ℕ → Value (Scalar F)
  signed_json value bits =
      if leb (unsigned_abs value) json_safe_integer
      then scalar (integer value)
      else tagged (to_decimal_ℤ value) bits true

  -- `Value::as_u64` and its kin, of a field that may be missing.
  abbrev pub as_u64 : Option (Value (Scalar F)) → Option ℕ
  as_u64 (some (scalar (integer (pos n)))) = some n
  as_u64 _ = none

  abbrev pub as_i64 : Value (Scalar F) → Option ℤ
  as_i64 (scalar (integer z)) = if ltb (magnitude z) (2 ^ 63) then some z else none
  as_i64 _ = none

  abbrev pub as_str : Option (Value (Scalar F)) → Option (List ℕ)
  as_str (some (scalar (string text))) = some text
  as_str _ = none

  abbrev pub is_bool : Option (Value (Scalar F)) → Bool → Bool
  is_bool (some (scalar (bool true))) b = b
  is_bool (some (scalar (bool false))) b = not b
  is_bool _ b = false

  abbrev pub require_object : Value (Scalar F) → List ℕ → Result (Fields (Scalar F))
  require_object value path = ok_or (as_object value) (invalid_value path)

  unfoldable pub integer_tag : Value (Scalar F) → ℕ → Bool → List ℕ → Result (List ℕ)
  unfolding as_object get
  integer_tag value bits signed path = do
    fields ← require_object value path
    ensure (count_fields fields == 3) (invalid_value path)
    ensure (is_u64 (as_u64 (get bits_key fields)) bits && is_bool (get signed_key fields) signed)
        (invalid_value path)
    ok_or (as_str (get int_key fields)) (invalid_value path)

  -- A number over the i128 or u128 range is refused by `parse`, as it is by the range of `bits`.
  signed_of : Option ℤ → Value (Scalar F) → ℕ → List ℕ → Result ℤ
  unfolding integer_tag parse_signed_text
  signed_of (some number) value bits path = do
    ensure (leb (unsigned_abs number) json_safe_integer) (invalid_value path)
    ok number
  signed_of none value bits path = do
    decimal ← integer_tag value bits true path
    ok_or (parse_signed_text decimal) (invalid_value path)

  unfoldable pub parse_signed : Value (Scalar F) → ℕ → List ℕ → Result ℤ
  unfolding signed_of
  parse_signed value bits path = do
    parsed ← signed_of (as_i64 value) value bits path
    ensure (ltb (magnitude parsed) (2 ^ (bits - 1))) (invalid_value path)
    ok parsed

  unsigned_of : Option ℕ → Value (Scalar F) → ℕ → List ℕ → Result ℕ
  unfolding integer_tag parse_unsigned_text
  unsigned_of (some number) value bits path = do
    ensure (leb number json_safe_integer) (invalid_value path)
    ok number
  unsigned_of none value bits path = do
    decimal ← integer_tag value bits false path
    ok_or (parse_unsigned_text decimal) (invalid_value path)

  unfoldable pub parse_unsigned : Value (Scalar F) → ℕ → List ℕ → Result ℕ
  unfolding unsigned_of as_u64_word
  parse_unsigned value bits path = do
    parsed ← unsigned_of (as_u64 (some value)) value bits path
    ensure (leb parsed (2 ^ bits - 1)) (invalid_value path)
    as_u64_word parsed path

  unfoldable pub pointer_json : ℕ → Value (Scalar F)
  pointer_json address =
      object (single pointer_key (scalar (string (b'0' ∷ b'x' ∷ to_hex address))))

  unfoldable pub parse_pointer : Value (Scalar F) → ℕ → List ℕ → Result ℕ
  unfolding fits_pointer as_object get is_ascii_hexdigit hex_value
  parse_pointer value byte_size path = do
    fields ← require_object value path
    ensure (count_fields fields == 1) (invalid_value path)
    digits ← ok_or (pointer_digits (as_str (get pointer_key fields))) (invalid_value path)
    ensure (ltb (hex_value digits) (2 ^ 64)) (invalid_value path)
    bits ← ok_or (checked_mul byte_size 8) (unsupported path)
    ensure (fits_pointer bits (hex_value digits)) (invalid_value path)
    ok (hex_value digits)
