-- ===== src/Domain/Hss/Plan/Variables.antt =====
-- hss.rs: what an HssVariablePlan says of its variable, and how a sample is decoded.
use jlink_mcp_v.Base.{ℕ, Bool, true, false, ◌&&◌, List, [], ◌∷◌, Option, none, some, if◌then◌else◌}
use mathlib.Core.List.{reverse}
use jlink_mcp_v.Domain.Error.{Result, err}
use jlink_mcp_v.Domain.Dwarf.{
  AccessLayout, AccessPlan, ScalarEncoding, unsigned, signed, float, other, byte_size,
}
use jlink_mcp_v.Domain.Dwarf
use jlink_mcp_v.Domain.TypedValue.Scalar.{Floats, JsonValue}
use jlink_mcp_v.Domain.TypedValue.Layout.Decode.{decode_layout}
use jlink_mcp_v.Domain.Hss.Plan.{
  HssRawValueType, bytes, u8, u16, u32, u64, i8, i16, i32, i64, f32, f64, type_name,
  HssRawEndianness, little, big, HssRawSelector, HssEvidenceKind, of_dwarf, of_raw_address,
  dwarf_evidence, raw_address, HssVariablePlan, value_error,
}

-- `uint8_t` and `invalid`
abbrev uint8_text : List ℕ
uint8_text = b'u' ∷ b'i' ∷ b'n' ∷ b't' ∷ b'8' ∷ b'_' ∷ b't' ∷ []

abbrev invalid_text : List ℕ
invalid_text = b'i' ∷ b'n' ∷ b'v' ∷ b'a' ∷ b'l' ∷ b'i' ∷ b'd' ∷ []

unfoldable pub is_numeric : HssRawValueType → Bool
is_numeric bytes = false
is_numeric _ = true

encoding_of : HssRawValueType → ScalarEncoding
encoding_of u8 = unsigned
encoding_of u16 = unsigned
encoding_of u32 = unsigned
encoding_of u64 = unsigned
encoding_of i8 = signed
encoding_of i16 = signed
encoding_of i32 = signed
encoding_of i64 = signed
encoding_of f32 = float
encoding_of f64 = float
encoding_of bytes = other

-- HssRawValueType::layout; the encoding of bytes is not asked for.
unfoldable pub raw_layout : HssRawValueType → ℕ → AccessLayout
unfolding encoding_of type_name
raw_layout bytes length = Dwarf.array (Dwarf.scalar uint8_text 1 unsigned) (some length)
raw_layout value_type length = Dwarf.scalar (type_name value_type) length (encoding_of value_type)

unfoldable pub evidence_kind : HssVariablePlan → HssEvidenceKind
evidence_kind v = elim (v.evidence) [ dwarf_evidence ↦ of_dwarf | raw_address s ↦ of_raw_address ]

unfoldable pub raw_selector : HssVariablePlan → Option HssRawSelector
raw_selector v = elim (v.evidence) [ dwarf_evidence ↦ none | raw_address s ↦ some s ]

unfoldable pub is_raw_numeric : HssVariablePlan → Bool
unfolding is_numeric
is_raw_numeric v = elim (v.evidence) [
  | dwarf_evidence ↦ false
  | raw_address s ↦ is_numeric s.value_type
]

abbrev map_or {ℓ} : {A : Type ℓ} → A → (AccessPlan → A) → Option AccessPlan → A
map_or a f none = a
map_or a f (some plan) = f plan

unfoldable pub series_label : HssVariablePlan → List ℕ
series_label v = elim (v.evidence) [
  | dwarf_evidence ↦ map_or [] (λ plan. plan.selector.path) v.plan
  | raw_address s ↦ s.series
]

unfoldable pub variable_address : HssVariablePlan → ℕ
variable_address v = elim (v.evidence) [
  | dwarf_evidence ↦ map_or 0 (λ plan. plan.address) v.plan
  | raw_address s ↦ s.address
]

unfoldable pub variable_byte_size : HssVariablePlan → ℕ
variable_byte_size v = elim (v.evidence) [
  | dwarf_evidence ↦ map_or 0 (λ plan. plan.plan_byte_size) v.plan
  | raw_address s ↦ s.length
]

unfoldable pub variable_layout : HssVariablePlan → AccessLayout
unfolding raw_layout
variable_layout v = elim (v.evidence) [
  | dwarf_evidence ↦
      map_or (Dwarf.array (Dwarf.scalar invalid_text 1 other) (some 0)) (λ plan. plan.layout) v.plan
  | raw_address s ↦ raw_layout s.value_type s.length
]

abbrev is_big : HssRawEndianness → Bool
is_big little = false
is_big big = true

abbrev raw_path : List ℕ
raw_path = b'$' ∷ b'r' ∷ b'a' ∷ b'w' ∷ []

module _ (fl : Floats) where
  decode_raw : HssRawSelector → List ℕ → Result (JsonValue fl)
  unfolding raw_layout decode_layout is_numeric
  decode_raw s sample =
      if is_big s.endianness && is_numeric s.value_type
      then decode_layout fl (raw_layout s.value_type s.length) (reverse sample) none raw_path
      else decode_layout fl (raw_layout s.value_type s.length) sample none raw_path

  decode_dwarf : Option AccessPlan → List ℕ → Result (JsonValue fl)
  unfolding decode_layout
  decode_dwarf none sample = err value_error
  decode_dwarf (some plan) sample = decode_layout fl plan.layout sample plan.bit_range (b'$' ∷ [])

  unfoldable pub decode_value : HssVariablePlan → List ℕ → Result (JsonValue fl)
  unfolding decode_raw decode_dwarf
  decode_value v sample = elim (v.evidence) [
    | dwarf_evidence ↦ decode_dwarf v.plan sample
    | raw_address s ↦ decode_raw s sample
  ]
