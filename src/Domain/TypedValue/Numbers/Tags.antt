-- ===== src/Domain/TypedValue/Numbers/Tags.antt =====
-- crates/jlink-domain/src/typed_value.rs: the JSON forms of integers and pointers, read back.
use jlink_mcp_v.Base.{
  ℕ, ◌-◌, ◌*◌, ◌^◌, ◌<◌, ◌≤◌, ◌≡◌, refl, subst, Bool, true, false, List, some, ltb, leb, arith, inl,
  inr, lt→ltb, Bool-cases, ==_refl,
}
use native.Mathlib.Nat.{pow-le-pow_right, one-le-pow}
use jlink_mcp_v.Base.Int.{ℤ, pos, negsuc}
use jlink_mcp_v.Base.Decimal.{
  to_decimal, to_decimal_ℤ, parse_signed_text-to_decimal, parse_unsigned_text-to_decimal,
}
use jlink_mcp_v.Base.Hex.{hex_value-to_hex, to_hex-is_hexdigit, to_hex-nonempty}
use jlink_mcp_v.Domain.Error.{ok, ensure, bind-eq-ok, ensure-eq-ok}
use jlink_mcp_v.Domain.Json.{Value}
use jlink_mcp_v.Domain.TypedValue.Bits.{invalid_value}
use jlink_mcp_v.Domain.TypedValue.Numbers.{
  Scalar, json_safe_integer, unsigned_abs, magnitude, tagged, unsigned_json, signed_json,
  integer_tag, parse_signed, signed_of, parse_unsigned, unsigned_of, pointer_json, parse_pointer,
  as_i64, as_u64,
}

magnitude-lt : (z : ℤ) → leb (unsigned_abs z) json_safe_integer ≡ true → magnitude z < 2 ^ 63
magnitude-lt (pos n) h = ground arith
magnitude-lt (negsuc n) h = ground arith

module _ (F : Type 0) where
  integer_tag-tagged :
      (text : List ℕ) (bits : ℕ) (signed : Bool) (path : List ℕ)
      → integer_tag {F = F} (tagged text bits signed) bits signed path ≡ ok text
  unfolding integer_tag
  integer_tag-tagged text bits true path = ground (arith, ==_refl bits)
  integer_tag-tagged text bits false path = ground (arith, ==_refl bits)

  pub parse_signed-signed_json :
      (z : ℤ) (bits : ℕ) (path : List ℕ)
      → bits ≤ 64
      → magnitude z < 2 ^ (bits - 1)
      → parse_signed {F = F} (signed_json z bits) bits path ≡ ok z
  unfolding parse_signed signed_json
  parse_signed-signed_json z bits path small fits =
      elim (Bool-cases (leb (unsigned_abs z) json_safe_integer)) [
        | inl safe ↦ rw (safe, lt→ltb _ _ (magnitude-lt z safe), safe, lt→ltb _ _ fits) refl
        | inr large ↦
            rw (large, integer_tag-tagged (to_decimal_ℤ z) bits true path)
              (rw (parse_signed_text-to_decimal z, lt→ltb _ _ fits) refl)
      ]

  pub parse_unsigned-unsigned_json :
      (n bits : ℕ) (path : List ℕ)
      → bits ≤ 64
      → n < 2 ^ bits
      → parse_unsigned {F = F} (unsigned_json n bits) bits path ≡ ok n
  unfolding parse_unsigned unsigned_json
  parse_unsigned-unsigned_json n bits path small fits =
      let bound : 2 ^ bits ≤ 2 ^ 64 = pow-le-pow_right {n = 2} (omega arith) small in
      elim (Bool-cases (leb n json_safe_integer)) [
        | inl safe ↦ rw safe (ground arith)
        | inr large ↦
            rw (large, integer_tag-tagged (to_decimal n) bits false path)
              (rw (parse_unsigned_text-to_decimal n) (ground arith))
      ]

  pub parse_pointer-pointer_json :
      (n size : ℕ) (path : List ℕ)
      → 0 < size
      → size ≤ 8
      → n < 2 ^ (size * 8)
      → parse_pointer {F = F} (pointer_json n) size path ≡ ok n
  unfolding parse_pointer pointer_json
  parse_pointer-pointer_json n size path h small fits =
      let bound : 2 ^ (size * 8) ≤ 2 ^ 64 =
        pow-le-pow_right {n = 2} (omega arith) (let e : size * 8 ≤ 64 = omega arith in e) in
      ground (arith, hex_value-to_hex n, to_hex-is_hexdigit n, to_hex-nonempty n)

-- Only a number that fits the bits is accepted.
pub parse_signed-range :
    {F : Type 0} (v : Value (Scalar F)) (bits : ℕ) (path : List ℕ) {z : ℤ}
    → parse_signed v bits path ≡ ok z
    → magnitude z < 2 ^ (bits - 1)
unfolding parse_signed
parse_signed-range v bits path {z} h =
    let (y, _, h₁) = bind-eq-ok _ (signed_of (as_i64 v) v bits path) h in
    let (_, small, h₂) =
      bind-eq-ok _ (ensure (ltb (magnitude y) (2 ^ (bits - 1))) (invalid_value path)) h₁ in
    let same : y ≡ z = cc in
    subst (λ x. magnitude x < 2 ^ (bits - 1)) same
      (let t = ensure-eq-ok _ (invalid_value path) small in ground arith)

pub parse_unsigned-range :
    {F : Type 0} (v : Value (Scalar F)) (bits : ℕ) (path : List ℕ) {n : ℕ}
    → parse_unsigned v bits path ≡ ok n
    → (n < 2 ^ bits) × (n < 2 ^ 64)
unfolding parse_unsigned
parse_unsigned-range v bits path {n} h =
    let (y, _, h₁) = bind-eq-ok _ (unsigned_of (as_u64 (some v)) v bits path) h in
    let (_, small, h₂) = bind-eq-ok _ (ensure (leb y (2 ^ bits - 1)) (invalid_value path)) h₁ in
    let pos = one-le-pow bits 2 (omega arith) in
    let t = ensure-eq-ok _ (invalid_value path) small in ground arith
