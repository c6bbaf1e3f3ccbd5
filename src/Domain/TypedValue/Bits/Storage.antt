-- ===== src/Domain/TypedValue/Bits/Storage.antt =====
-- crates/jlink-domain/src/typed_value.rs: little-endian storage, read and written.
use jlink_mcp_v.Base.{
  ℕ, zero, suc, ◌+◌, ◌-◌, ◌*◌, ◌/◌, ◌%◌, ◌^◌, ◌<◌, ◌≤◌, ◌≡◌, refl, ap, ap₂, ◌∙◌, true, List, [],
  ◌∷◌, All, length, arith,
}
use native.Mathlib.Numerals.{towards_suc}
use jlink_mcp_v.Domain.Error.{ok}
use jlink_mcp_v.Domain.TypedValue.Bits.{
  from_le_bytes, to_le_bytes, write_unsigned, bit_mask, is_word,
}

abbrev pub IsBytes : List ℕ → Type 0
IsBytes bytes = All (λ b. b < 256) bytes

pub length-to_le_bytes : (n v : ℕ) → length (to_le_bytes n v) ≡ n
unfolding to_le_bytes
length-to_le_bytes zero v = refl
length-to_le_bytes (suc n) v = omega (arith, length-to_le_bytes n (v / 256))

pub to_le_bytes-IsBytes : (n v : ℕ) → IsBytes (to_le_bytes n v)
unfolding to_le_bytes
to_le_bytes-IsBytes zero v = tt
to_le_bytes-IsBytes (suc n) v = (omega arith, to_le_bytes-IsBytes n (v / 256))

byte_more : (n : ℕ) → 2 ^ (suc n * 8) ≡ 256 * 2 ^ (n * 8)
byte_more n =
    ap (λ k. 2 ^ k) (let e : suc n * 8 ≡ n * 8 + 8 = omega arith in e)
    ∙ simp towards_suc (omega arith)

pub from_le_bytes-lt :
    (bytes : List ℕ) → IsBytes bytes → from_le_bytes bytes < 2 ^ (length bytes * 8)
unfolding from_le_bytes
from_le_bytes-lt [] h = omega arith
from_le_bytes-lt (b ∷ bytes) h =
    omega (arith, byte_more (length bytes), from_le_bytes-lt bytes h.1, h.0)

pub to_le_bytes-from_le_bytes :
    (bytes : List ℕ) → IsBytes bytes → to_le_bytes (length bytes) (from_le_bytes bytes) ≡ bytes
unfolding from_le_bytes to_le_bytes
to_le_bytes-from_le_bytes [] h = refl
to_le_bytes-from_le_bytes (b ∷ bytes) h =
    let low : (b + 256 * from_le_bytes bytes) % 256 ≡ b = omega (arith, h.0) in
    let high : (b + 256 * from_le_bytes bytes) / 256 ≡ from_le_bytes bytes = omega (arith, h.0) in
    ap₂ (λ x xs. x ∷ xs) low
      (ap (to_le_bytes (length bytes)) high ∙ to_le_bytes-from_le_bytes bytes h.1)

pub from_le_bytes-to_le_bytes : (n v : ℕ) → v < 2 ^ (n * 8) → from_le_bytes (to_le_bytes n v) ≡ v
unfolding from_le_bytes to_le_bytes
from_le_bytes-to_le_bytes zero v h = omega arith
from_le_bytes-to_le_bytes (suc n) v h =
    let below : v / 256 < 2 ^ (n * 8) = omega (arith, byte_more n) in
    omega (arith, from_le_bytes-to_le_bytes n (v / 256) below)

pub bit_mask-eq :
    (bits : ℕ) (path : List ℕ) → 0 < bits → bits ≤ 64 → bit_mask bits path ≡ ok (2 ^ bits - 1)
unfolding bit_mask
bit_mask-eq bits path h k = ground arith

-- A word whose value fits is written as its bytes.
pub write_unsigned-eq :
    (bytes : List ℕ) (v : ℕ) (path : List ℕ)
    → is_word bytes ≡ true
    → v < 2 ^ (length bytes * 8)
    → write_unsigned bytes v path ≡ ok (to_le_bytes (length bytes) v)
unfolding write_unsigned
write_unsigned-eq bytes v path word fits = ground arith
