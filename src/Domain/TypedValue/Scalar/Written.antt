-- ===== src/Domain/TypedValue/Scalar/Written.antt =====
-- crates/jlink-domain/src/typed_value.rs: what is read after an integer or a Boolean is written.
use jlink_mcp_v.Base.{
  ℕ, ◌^◌, ◌<◌, ◌≡◌, refl, ap, ◌∙◌, sym, Bool, true, false, not, ◌==◌, List, Option, length, arith,
}
use native.Mathlib.Nat.{pow-le-pow_right, one-le-pow}
use jlink_mcp_v.Base.Int.{ℤ}
use jlink_mcp_v.Domain.Error.{ok, ok_or, bind-eq-ok, bind-ok}
use jlink_mcp_v.Domain.Json.{scalar, array, object}
use jlink_mcp_v.Domain.Dwarf.{BitRange, ScalarEncoding, signed, unsigned, boolean, float, other}
use jlink_mcp_v.Domain.TypedValue.Bits.{from_le_bytes, invalid_value, logical_bits}
use jlink_mcp_v.Domain.TypedValue.Bits.Storage.{IsBytes}
use jlink_mcp_v.Domain.TypedValue.Bits.Selected.{logical_bits-IsSelection, Around}
use jlink_mcp_v.Domain.TypedValue.Bits.Inserted.{
  IsInserted, insert_integer-IsInserted, insert_integer-fits,
}
use jlink_mcp_v.Domain.TypedValue.Numbers.{
  null, integer, real, string, bool, signed_json, unsigned_json, parse_signed, parse_unsigned,
  signed_to_raw,
}
use jlink_mcp_v.Domain.TypedValue.Numbers.Signs.{sign_extend-eq, signed_to_raw-pattern}
use jlink_mcp_v.Domain.TypedValue.Numbers.Tags.{parse_signed-range, parse_unsigned-range}
use jlink_mcp_v.Domain.TypedValue.Scalar.{
  Floats, JsonValue, require_length, decode_scalar, encode_scalar, decode_as, encode_as, as_bool,
  from_bool,
}

module _ (fl : Floats) where
  -- `got` is what a value `v` of the encoding reads as when it is stored in `bits` bits.
  abbrev pub ReadsAs : ScalarEncoding → ℕ → List ℕ → JsonValue fl → JsonValue fl → Type 0
  ReadsAs signed bits path v got =
      (z : ℤ) × (parse_signed v bits path ≡ ok z) × (got ≡ signed_json z bits)
  ReadsAs unsigned bits path v got =
      (n : ℕ) × (parse_unsigned v bits path ≡ ok n) × (got ≡ unsigned_json n bits)
  ReadsAs boolean bits path v got = got ≡ v
  ReadsAs _ bits path v got = ⊥

  abbrev pub IsIntegral : ScalarEncoding → Type 0
  IsIntegral signed = Unit
  IsIntegral unsigned = Unit
  IsIntegral boolean = Unit
  IsIntegral _ = ⊥

  pub record IsStored (size : ℕ) (encoding : ScalarEncoding) (bytes new : List ℕ)
      (bit_range : Option BitRange) (path : List ℕ) (v : JsonValue fl) : Type 0 where
    pub bits : ℕ
    pub width : logical_bits bytes bit_range path ≡ ok bits
    pub got : JsonValue fl
    pub reads : decode_scalar fl size encoding new bit_range path ≡ ok got
    pub means : ReadsAs encoding bits path v got
    pub same_length : length new ≡ length bytes
    pub keeps_others : Around bit_range bits (from_le_bytes bytes) (from_le_bytes new)
    pub still_bytes : IsBytes new

  module _ (size : ℕ) (encoding : ScalarEncoding) (bytes new : List ℕ) (bit_range : Option BitRange)
      (path : List ℕ) (v : JsonValue fl)
      (sized : require_length (length bytes) size path ≡ ok (record {})) where
    IsStored-of :
        {bits raw : ℕ} (got : JsonValue fl)
        → logical_bits bytes bit_range path ≡ ok bits
        → IsInserted bytes new bit_range path bits raw
        → decode_as fl encoding new bit_range path ≡ ok got
        → ReadsAs encoding bits path v got
        → IsStored size encoding bytes new bit_range path v
    unfolding decode_scalar
    IsStored-of {bits = bits} got l i read means = record {
      bits = bits;
      width = l;
      got = got;
      reads = bind-ok _ (ap (λ n. require_length n size path) i.same_length ∙ sized) ∙ read;
      means = means;
      same_length = i.same_length;
      keeps_others = i.keeps_others;
      still_bytes = i.still_bytes;
    }

  from_bool-lt : (t : Bool) (bits : ℕ) → 0 < bits → from_bool fl t < 2 ^ bits
  from_bool-lt true bits h = pow-le-pow_right {n = 2} (omega arith) {i = 1} {j = bits} h
  from_bool-lt false bits h = one-le-pow bits 2 (omega arith)

  from_bool-read : (t : Bool) → not (from_bool fl t == 0) ≡ t
  from_bool-read true = refl
  from_bool-read false = refl

  as_bool-eq :
      (v : JsonValue fl) (path : List ℕ) {t : Bool}
      → ok_or (as_bool fl v) (invalid_value path) ≡ ok t
      → v ≡ scalar (bool t)
  unfolding as_bool
  as_bool-eq (scalar (bool x)) path h = cc
  as_bool-eq (scalar null) path h = cc
  as_bool-eq (scalar (integer z)) path h = cc
  as_bool-eq (scalar (real x)) path h = cc
  as_bool-eq (scalar (string x)) path h = cc
  as_bool-eq (array items) path h = cc
  as_bool-eq (object fields) path h = cc

  stored :
      (size : ℕ) (encoding : ScalarEncoding) (bytes new : List ℕ) (bit_range : Option BitRange)
      (path : List ℕ) (v : JsonValue fl)
      → IsBytes bytes
      → require_length (length bytes) size path ≡ ok (record {})
      → IsIntegral encoding
      → encode_as fl encoding bytes bit_range v path ≡ ok new
      → IsStored size encoding bytes new bit_range path v
  unfolding encode_as decode_as
  stored size signed bytes new bit_range path v b sized integral h =
      let (bits, l, h₁) = bind-eq-ok _ (logical_bits bytes bit_range path) h in
      let (z, parsed, h₂) = bind-eq-ok _ (parse_signed v bits path) h₁ in
      let (raw, pattern', h₃) = bind-eq-ok _ (signed_to_raw z bits path) h₂ in
      let s = logical_bits-IsSelection bytes bit_range path l in
      let (fits, stands, _) =
        signed_to_raw-pattern z bits path s.some_bits (parse_signed-range v bits path parsed)
          pattern' in
      let i = insert_integer-IsInserted bytes bit_range path b l fits h₃ in
      IsStored-of size signed bytes new bit_range path v sized (signed_json z bits) l i
        (bind-ok _ i.reads_back
          ∙ bind-ok _ (sign_extend-eq bits raw path s.some_bits s.small fits)
          ∙ ap (λ y. ok (signed_json y bits)) stands)
        (z, parsed, refl)
  stored size unsigned bytes new bit_range path v b sized integral h =
      let (bits, l, h₁) = bind-eq-ok _ (logical_bits bytes bit_range path) h in
      let (n, parsed, h₂) = bind-eq-ok _ (parse_unsigned v bits path) h₁ in
      let (fits, _) = parse_unsigned-range v bits path parsed in
      let i = insert_integer-IsInserted bytes bit_range path b l fits h₂ in
      IsStored-of size unsigned bytes new bit_range path v sized (unsigned_json n bits) l i
        (bind-ok _ i.reads_back) (n, parsed, refl)
  stored size boolean bytes new bit_range path v b sized integral h =
      let (t, is_bool, h₁) = bind-eq-ok _ (ok_or (as_bool fl v) (invalid_value path)) h in
      let (bits, l, fits) =
        insert_integer-fits bytes bit_range (from_bool fl t) path (from_bool-lt t 64 (omega arith))
          h₁ in
      let i = insert_integer-IsInserted bytes bit_range path b l fits h₁ in
      IsStored-of size boolean bytes new bit_range path v sized v l i
        (bind-ok _ i.reads_back
          ∙ ap ok (ap (λ x. scalar (bool x)) (from_bool-read t) ∙ sym (as_bool-eq v path is_bool)))
        refl
  stored size float bytes new bit_range path v b sized integral h = elim integral [ ]
  stored size other bytes new bit_range path v b sized integral h = elim integral [ ]

  -- An integer or a Boolean that is written reads back as the same number, in its canonical JSON
  -- form, or the same Boolean, and the storage around its bits is as it was.
  pub decode_scalar-encode_scalar :
      (size : ℕ) (encoding : ScalarEncoding) (bytes new : List ℕ) (bit_range : Option BitRange)
      (path : List ℕ) (v : JsonValue fl)
      → IsBytes bytes
      → IsIntegral encoding
      → encode_scalar fl size encoding bytes bit_range v path ≡ ok new
      → IsStored size encoding bytes new bit_range path v
  unfolding encode_scalar
  decode_scalar-encode_scalar size encoding bytes new bit_range path v b integral h =
      let (_, sized, rest) = bind-eq-ok _ (require_length (length bytes) size path) h in
      stored size encoding bytes new bit_range path v b sized integral rest
