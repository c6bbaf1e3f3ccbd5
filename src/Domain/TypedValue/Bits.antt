-- ===== src/Domain/TypedValue/Bits.antt =====
-- crates/jlink-domain/src/typed_value.rs: integers and bit-fields in little-endian storage.
pub mod Length
pub mod Fields
pub mod Storage
pub mod Selected
pub mod Inserted
use jlink_mcp_v.Base.{
  ℕ, zero, suc, ◌+◌, ◌-◌, ◌*◌, ◌/◌, ◌%◌, ◌^◌, Bool, true, false, not, ◌&&◌, ◌||◌, List, [], ◌∷◌,
  Option, none, some, if◌then◌else◌, ltb, leb, ◌==◌, length, checked_mul, checked_add, is_some_and,
}
use jlink_mcp_v.Domain.Error.{
  JlinkError, new, with_detail, nums, Result, ok, err, ◌>>=◌, ◌>>◌, ensure, ok_or, value_invalid,
  type_unsupported,
}
use jlink_mcp_v.Domain.Dwarf.{BitRange}

-- A path is a string, as its code points.
abbrev pub invalid_value : List ℕ → JlinkError
invalid_value path = with_detail (new value_invalid false) "path" (nums path)

abbrev pub unsupported : List ℕ → JlinkError
unsupported path = with_detail (new type_unsupported false) "path" (nums path)

-- `u64::from_le_bytes` of the bytes and zeros behind them.
unfoldable pub from_le_bytes : List ℕ → ℕ
from_le_bytes [] = 0
from_le_bytes (b ∷ bytes) = b + 256 * from_le_bytes bytes

-- The first bytes of `u64::to_le_bytes`.
unfoldable pub to_le_bytes : ℕ → ℕ → List ℕ
to_le_bytes zero value = []
to_le_bytes (suc n) value = value % 256 ∷ to_le_bytes n (value / 256)

abbrev pub is_word : List ℕ → Bool
is_word bytes = not (length bytes == 0 || ltb 8 (length bytes))

unfoldable pub read_unsigned : List ℕ → List ℕ → Result ℕ
unfolding from_le_bytes
read_unsigned bytes path = do ensure (is_word bytes) (unsupported path); ok (from_le_bytes bytes)

-- `(1 << bits) - 1`, which is `u64::MAX` at 64.
unfoldable pub bit_mask : ℕ → List ℕ → Result ℕ
bit_mask bits path = if leb 1 bits && leb bits 64 then ok (2 ^ bits - 1) else err (unsupported path)

fits_storage : ℕ → ℕ → List ℕ → Result (Unit {0})
unfolding bit_mask
fits_storage bits value path =
    if ltb bits 64
    then (do mask ← bit_mask bits path; ensure (leb value mask) (invalid_value path))
    else ok tt

unfoldable pub write_unsigned : List ℕ → ℕ → List ℕ → Result (List ℕ)
unfolding fits_storage to_le_bytes
write_unsigned bytes value path = do
  ensure (is_word bytes) (unsupported path)
  bits ← ok_or (checked_mul (length bytes) 8) (unsupported path)
  fits_storage bits value path
  ok (to_le_bytes (length bytes) value)

abbrev pub in_storage : BitRange → ℕ → Bool
in_storage range storage_bits =
    ltb 0 range.width
    && is_some_and (checked_add range.lsb range.width) (λ end. leb end storage_bits)

bits_of : Option BitRange → ℕ → List ℕ → Result ℕ
bits_of none storage_bits path = ok storage_bits
bits_of (some range) storage_bits path =
    if in_storage range storage_bits then ok range.width else err (unsupported path)

unfoldable pub logical_bits : List ℕ → Option BitRange → List ℕ → Result ℕ
unfolding bits_of
logical_bits bytes bit_range path = do
  storage_bits ← ok_or (checked_mul (length bytes) 8) (unsupported path)
  ensure (not (storage_bits == 0 || ltb 64 storage_bits)) (unsupported path)
  bits_of bit_range storage_bits path

-- `(raw >> lsb) & mask` for a mask of `width` bits.
unfoldable pub get_bits : ℕ → ℕ → ℕ → ℕ
get_bits lsb width raw = raw / 2 ^ lsb % 2 ^ width

-- `(current & !(mask << lsb)) | (value << lsb)`: the bits below, the value, and the bits above.
unfoldable pub put_bits : ℕ → ℕ → ℕ → ℕ → ℕ
put_bits lsb width current value =
    current % 2 ^ lsb + value * 2 ^ lsb + current / 2 ^ lsb / 2 ^ width * 2 ^ width * 2 ^ lsb

select_bits : Option BitRange → ℕ → ℕ → List ℕ → Result (ℕ × ℕ)
unfolding bit_mask get_bits
select_bits none raw bits path = ok (raw, bits)
select_bits (some range) raw bits path = do
  _ ← bit_mask bits path
  ok (get_bits range.lsb bits raw, bits)

unfoldable pub selected_integer : List ℕ → Option BitRange → List ℕ → Result (ℕ × ℕ)
unfolding read_unsigned logical_bits select_bits
selected_integer bytes bit_range path = do
  raw ← read_unsigned bytes path
  bits ← logical_bits bytes bit_range path
  select_bits bit_range raw bits path

-- `checked_shl` refuses a shift of 64 bits or more.
unfoldable pub insert_integer : List ℕ → Option BitRange → ℕ → List ℕ → Result (List ℕ)
unfolding write_unsigned read_unsigned logical_bits bit_mask put_bits
insert_integer bytes none value path = write_unsigned bytes value path
insert_integer bytes (some range) value path = do
  bits ← logical_bits bytes (some range) path
  value_mask ← bit_mask bits path
  ensure (leb value value_mask) (invalid_value path)
  ensure (ltb range.lsb 64) (unsupported path)
  current ← read_unsigned bytes path
  write_unsigned bytes (put_bits range.lsb bits current value) path
