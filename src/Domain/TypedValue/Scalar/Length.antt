-- ===== src/Domain/TypedValue/Scalar/Length.antt =====
-- crates/jlink-domain/src/typed_value.rs: an encoded scalar is as long as the storage it goes to.
use jlink_mcp_v.Base.{
  ℕ, ◌≡◌, ap, ◌∙◌, sym, Bool-cases, inl, inr, List, Option, length, ◌==◌, ==_iff, not, ◌&&◌,
}
use jlink_mcp_v.Domain.Error.{ok, ok_or, bind-eq-ok, ok-injective}
use jlink_mcp_v.Domain.Dwarf.{BitRange, ScalarEncoding, signed, unsigned, boolean, float, other}
use jlink_mcp_v.Domain.TypedValue.Bits.{invalid_value, logical_bits}
use jlink_mcp_v.Domain.TypedValue.Bits.Length.{length-insert_integer}
use jlink_mcp_v.Domain.TypedValue.Numbers.{parse_signed, parse_unsigned, signed_to_raw}
use jlink_mcp_v.Domain.TypedValue.Scalar.{
  Floats, JsonValue, reject_bit_range, require_length, encode_scalar, encode_as, encode_float,
  parse_float, narrow_f32, as_bool,
}

-- `f32::to_le_bytes` and `f64::to_le_bytes` give 4 and 8 bytes.
pub record HasWidths (fl : Floats) : Type 0 where
  pub four : (x : fl.F64) → length (fl.to_f32_le x) ≡ 4
  pub eight : (x : fl.F64) → length (fl.to_f64_le x) ≡ 8

module _ (fl : Floats) (widths : HasWidths fl) where
  length-narrow_f32 :
      (x : fl.F64) (path : List ℕ) {new : List ℕ} → narrow_f32 fl x path ≡ ok new → length new ≡ 4
  unfolding narrow_f32
  length-narrow_f32 x path h = elim (Bool-cases (fl.is_finite x && not (fl.in_f32_range x))) [
    | inl far ↦ absurd (cc (rw far at h))
    | inr near ↦ ap length (sym (ok-injective (rw near at h))) ∙ widths.four x
  ]

  length-encode_float :
      (bytes : List ℕ) (v : JsonValue fl) (path : List ℕ) {new : List ℕ}
      → encode_float fl bytes v path ≡ ok new
      → length new ≡ length bytes
  unfolding encode_float
  length-encode_float bytes v path h =
      let (x, _, h₁) = bind-eq-ok _ (parse_float fl v path) h in
      elim (Bool-cases (length bytes == 4)) [
        | inl short ↦
            length-narrow_f32 x path (rw short at h₁) ∙ sym ((==_iff (length bytes) 4).0 short)
        | inr longer ↦ elim (Bool-cases (length bytes == 8)) [
          | inl long ↦
              ap length (sym (ok-injective (rw (longer, long) at h₁)))
              ∙ widths.eight x
              ∙ sym ((==_iff (length bytes) 8).0 long)
          | inr odd ↦ absurd (cc (rw (longer, odd) at h₁))
        ]
      ]

  length-encode_as :
      (encoding : ScalarEncoding) (bytes : List ℕ) (bit_range : Option BitRange) (v : JsonValue fl)
      (path : List ℕ) {new : List ℕ}
      → encode_as fl encoding bytes bit_range v path ≡ ok new
      → length new ≡ length bytes
  unfolding encode_as
  length-encode_as signed bytes bit_range v path h =
      let (bits, _, h₁) = bind-eq-ok _ (logical_bits bytes bit_range path) h in
      let (z, _, h₂) = bind-eq-ok _ (parse_signed v bits path) h₁ in
      let (raw, _, h₃) = bind-eq-ok _ (signed_to_raw z bits path) h₂ in
      length-insert_integer bytes bit_range raw path h₃
  length-encode_as unsigned bytes bit_range v path h =
      let (bits, _, h₁) = bind-eq-ok _ (logical_bits bytes bit_range path) h in
      let (raw, _, h₂) = bind-eq-ok _ (parse_unsigned v bits path) h₁ in
      length-insert_integer bytes bit_range raw path h₂
  length-encode_as boolean bytes bit_range v path h =
      let (b, _, h₁) = bind-eq-ok _ (ok_or (as_bool fl v) (invalid_value path)) h in
      length-insert_integer bytes bit_range _ path h₁
  length-encode_as float bytes bit_range v path h =
      let (_, _, h₁) = bind-eq-ok _ (reject_bit_range bit_range path) h in
      length-encode_float bytes v path h₁
  length-encode_as other bytes bit_range v path h = cc

  pub length-encode_scalar :
      (size : ℕ) (encoding : ScalarEncoding) (bytes : List ℕ) (bit_range : Option BitRange)
      (v : JsonValue fl) (path : List ℕ) {new : List ℕ}
      → encode_scalar fl size encoding bytes bit_range v path ≡ ok new
      → length new ≡ length bytes
  unfolding encode_scalar
  length-encode_scalar size encoding bytes bit_range v path h =
      let (_, _, h₁) = bind-eq-ok _ (require_length (length bytes) size path) h in
      length-encode_as encoding bytes bit_range v path h₁
