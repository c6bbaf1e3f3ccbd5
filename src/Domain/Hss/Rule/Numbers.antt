-- ===== src/Domain/Hss/Rule/Numbers.antt =====
-- hss.rs: the numbers of rules, and how they compare.
use jlink_mcp_v.Base.{
  ℕ, suc, ◌+◌, ◌-◌, ◌^◌, Bool, true, false, not, ◌&&◌, List, Option, none, some, if◌then◌else◌, ltb,
  leb, ◌==◌,
}
use jlink_mcp_v.Base.Int.{ℤ, pos, negsuc}
use jlink_mcp_v.Base.Decimal.{parse_signed_text, parse_unsigned_text}
use jlink_mcp_v.Domain.Error.{
  JlinkError, new, with_detail, nums, Result, ok, err, ◌>>=◌, ◌>>◌, ensure, ok_or, value_invalid,
}
use jlink_mcp_v.Domain.Json.{Value, scalar, as_object, count_fields, get}
use jlink_mcp_v.Domain.TypedValue.Numbers.{
  Scalar, integer, real, bool, json_safe_integer, int_key, bits_key, signed_key, as_u64, as_str,
  unsigned_abs, magnitude,
}
use jlink_mcp_v.Domain.TypedValue.Scalar.{Floats}

-- `rule_value_invalid`
abbrev pub rule_invalid : List ℕ → JlinkError
rule_invalid rule_id = with_detail (new value_invalid false) "rule_id" (nums rule_id)

pub data Ordering : Type 0 where
  less equal greater : Ordering

abbrev pub is_order : Ordering → Ordering → Bool
is_order less less = true
is_order equal equal = true
is_order greater greater = true
is_order _ _ = false

abbrev pub reverse_order : Ordering → Ordering
reverse_order less = greater
reverse_order equal = equal
reverse_order greater = less

-- What rules need of f64 beside `Floats`: `partial_cmp`, `==`, `< 0.0`, and the absolute difference.
pub record FloatOrder (fl : Floats) : Type 0 where
  pub partial_cmp : fl.F64 → fl.F64 → Option Ordering
  pub same : fl.F64 → fl.F64 → Bool
  pub below_zero : fl.F64 → Bool
  pub abs_difference : fl.F64 → fl.F64 → fl.F64

-- serde_json's Number: an integer of the i64 or u64 range, or a finite float.
pub data Number (F : Type 0) : Type 0 where
  int : ℤ → Number F
  float : F → Number F

pub data RuleNumber (F : Type 0) : Type 0 where
  whole : ℤ → RuleNumber F
  fraction : F → RuleNumber F

abbrev pub cmp_ℕ : ℕ → ℕ → Ordering
cmp_ℕ a b = if ltb a b then less else if a == b then equal else greater

abbrev pub cmp_ℤ : ℤ → ℤ → Ordering
cmp_ℤ (pos a) (pos b) = cmp_ℕ a b
cmp_ℤ (pos a) (negsuc b) = greater
cmp_ℤ (negsuc a) (pos b) = less
cmp_ℤ (negsuc a) (negsuc b) = cmp_ℕ b a

-- `i128::abs_diff`
abbrev pub abs_diff : ℤ → ℤ → ℕ
abs_diff (pos a) (pos b) = a - b + (b - a)
abs_diff (pos a) (negsuc b) = a + suc b
abs_diff (negsuc a) (pos b) = suc a + b
abs_diff (negsuc a) (negsuc b) = a - b + (b - a)

abbrev is_negative_ℤ : ℤ → Bool
is_negative_ℤ (pos n) = false
is_negative_ℤ (negsuc n) = true

module _ {F : Type 0} where
  abbrev pub from_json_number : Number F → RuleNumber F
  from_json_number (int z) = whole z
  from_json_number (float x) = fraction x

  -- `Value::as_number`
  unfoldable pub as_number : Value (Scalar F) → Option (Number F)
  as_number (scalar (integer z)) = some (int z)
  as_number (scalar (real x)) = some (float x)
  as_number _ = none

  unfoldable pub as_bool : Option (Value (Scalar F)) → Option Bool
  as_bool (some (scalar (bool b))) = some b
  as_bool _ = none

-- `filter` by the width of a word.
abbrev width : Option ℕ → Option ℕ
width none = none
width (some bits) = if leb 1 bits && leb bits 64 then some bits else none

abbrev in_signed : ℕ → ℤ → List ℕ → Result ℤ
in_signed bits z rule_id =
    if ltb (magnitude z) (2 ^ (bits - 1)) then ok z else err (rule_invalid rule_id)

abbrev in_unsigned : ℕ → ℕ → List ℕ → Result ℤ
in_unsigned bits n rule_id = if leb n (2 ^ bits - 1) then ok (pos n) else err (rule_invalid rule_id)

parse_in : Bool → List ℕ → ℕ → List ℕ → Result ℤ
unfolding parse_signed_text parse_unsigned_text
parse_in true text bits rule_id = do
  z ← ok_or (parse_signed_text text) (rule_invalid rule_id)
  in_signed bits z rule_id
parse_in false text bits rule_id = do
  n ← ok_or (parse_unsigned_text text) (rule_invalid rule_id)
  in_unsigned bits n rule_id

module _ (fl : Floats) where
  tagged_number : Value (Scalar fl.F64) → List ℕ → Result (RuleNumber fl.F64)
  unfolding as_object get as_bool parse_in
  tagged_number value rule_id = do
    fields ← ok_or (as_object value) (rule_invalid rule_id)
    ensure (count_fields fields == 3) (rule_invalid rule_id)
    text ← ok_or (as_str (get int_key fields)) (rule_invalid rule_id)
    bits ← ok_or (width (as_u64 (get bits_key fields))) (rule_invalid rule_id)
    signed ← ok_or (as_bool (get signed_key fields)) (rule_invalid rule_id)
    z ← parse_in signed text bits rule_id
    ok (whole z)

  unfoldable pub parse_rule_number : Value (Scalar fl.F64) → List ℕ → Result (RuleNumber fl.F64)
  unfolding tagged_number as_number
  parse_rule_number value rule_id = elim (as_number value) [
    | none ↦ tagged_number value rule_id
    | some number ↦ ok (from_json_number number)
  ]

  unfoldable pub safe_integer_as_f64 : ℤ → List ℕ → Result fl.F64
  safe_integer_as_f64 z rule_id =
      if leb (unsigned_abs z) json_safe_integer
      then ok (fl.from_integer z)
      else err (rule_invalid rule_id)

  unfoldable pub rule_number_as_f64 : RuleNumber fl.F64 → List ℕ → Result fl.F64
  unfolding safe_integer_as_f64
  rule_number_as_f64 (fraction x) rule_id = ok x
  rule_number_as_f64 (whole z) rule_id = safe_integer_as_f64 z rule_id

module _ (fl : Floats) (order : FloatOrder fl) where
  abbrev pub is_negative : RuleNumber fl.F64 → Bool
  is_negative (whole z) = is_negative_ℤ z
  is_negative (fraction x) = order.below_zero x

  unfoldable pub compare_mixed_number : ℤ → fl.F64 → List ℕ → Result Ordering
  unfolding safe_integer_as_f64
  compare_mixed_number z x rule_id = do
    y ← safe_integer_as_f64 fl z rule_id
    ok_or (order.partial_cmp y x) (rule_invalid rule_id)

  unfoldable pub compare_rule_numbers :
      RuleNumber fl.F64 → RuleNumber fl.F64 → List ℕ → Result Ordering
  unfolding compare_mixed_number
  compare_rule_numbers (whole a) (whole b) rule_id = ok (cmp_ℤ a b)
  compare_rule_numbers (fraction a) (fraction b) rule_id =
      ok_or (order.partial_cmp a b) (rule_invalid rule_id)
  compare_rule_numbers (whole a) (fraction b) rule_id = compare_mixed_number a b rule_id
  compare_rule_numbers (fraction a) (whole b) rule_id = do
    by ← compare_mixed_number b a rule_id
    ok (reverse_order by)

  -- compare_numeric_typed_values, with the id `typed-value-comparison`.
  unfoldable pub compare_numeric_typed_values :
      List ℕ → Value (Scalar fl.F64) → Value (Scalar fl.F64) → Result Ordering
  unfolding parse_rule_number compare_rule_numbers
  compare_numeric_typed_values rule_id left right = do
    a ← parse_rule_number fl left rule_id
    b ← parse_rule_number fl right rule_id
    compare_rule_numbers a b rule_id

  delta_of : RuleNumber fl.F64 → RuleNumber fl.F64 → List ℕ → Result (RuleNumber fl.F64)
  unfolding rule_number_as_f64
  delta_of (whole a) (whole b) rule_id =
      if ltb (abs_diff a b) (2 ^ 127)
      then ok (whole (pos (abs_diff a b)))
      else err (rule_invalid rule_id)
  delta_of before after rule_id = do
    a ← rule_number_as_f64 fl before rule_id
    b ← rule_number_as_f64 fl after rule_id
    let delta = order.abs_difference b a
    ensure (fl.is_finite delta) (rule_invalid rule_id)
    ok (fraction delta)

  unfoldable pub absolute_delta_gte :
      RuleNumber fl.F64 → RuleNumber fl.F64 → RuleNumber fl.F64 → List ℕ → Result Bool
  unfolding delta_of compare_rule_numbers
  absolute_delta_gte before after threshold rule_id = do
    ensure (not (is_negative threshold)) (rule_invalid rule_id)
    delta ← delta_of before after rule_id
    by ← compare_rule_numbers delta threshold rule_id
    ok (not (is_order by less))
