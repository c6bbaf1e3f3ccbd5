-- ===== src/Domain/Hss/Rule.antt =====
-- hss.rs: threshold rules, their paths, and the values that they match.
pub mod Path
pub mod Reread
pub mod Numbers
pub mod Matching
pub mod Normal
use jlink_mcp_v.Base.{
  ℕ, Bool, true, false, not, ◌&&◌, ◌||◌, List, [], ◌∷◌, Option, none, some, if◌then◌else◌, eq,
  nat_equal, list_equal, ltb,
}
use jlink_mcp_v.Base.Text.{is_blank}
use jlink_mcp_v.Domain.Error.{
  JlinkError, new, with_detail, nums, Result, ok, err, ◌>>=◌, ◌>>◌, ensure, value_invalid, map_err,
}
use jlink_mcp_v.Domain.Json.{Value, scalar, array, object, text_leb}
use jlink_mcp_v.Domain.TypedValue.Numbers.{Scalar, null, string}
use jlink_mcp_v.Domain.TypedValue.Scalar.{Floats, JsonValue}
use jlink_mcp_v.Domain.Hss.Rule.Path.{parse_rule_path, RulePathPattern}
use jlink_mcp_v.Domain.Hss.Rule.Numbers.{
  FloatOrder, Number, Ordering, greater, less, is_order, RuleNumber, from_json_number, is_negative,
  parse_rule_number, compare_rule_numbers, rule_invalid,
}

pub data HssCrossingDirection : Type 0 where
  up down either : HssCrossingDirection

-- A rule has its id and its path before what it compares with.
pub data HssThresholdRule (F : Type 0) : Type 0 where
  abs_delta_gte : List ℕ → List ℕ → Value (Scalar F) → HssThresholdRule F
  outside : List ℕ → List ℕ → Number F → Number F → HssThresholdRule F
  equals : List ℕ → List ℕ → Value (Scalar F) → HssThresholdRule F
  crosses : List ℕ → List ℕ → Value (Scalar F) → HssCrossingDirection → HssThresholdRule F

module _ {F : Type 0} where
  abbrev pub rule_id : HssThresholdRule F → List ℕ
  rule_id (abs_delta_gte id path value) = id
  rule_id (outside id path min max) = id
  rule_id (equals id path value) = id
  rule_id (crosses id path value direction) = id

  abbrev pub rule_path : HssThresholdRule F → List ℕ
  rule_path (abs_delta_gte id path value) = path
  rule_path (outside id path min max) = path
  rule_path (equals id path value) = path
  rule_path (crosses id path value direction) = path

  abbrev pub with_path : List ℕ → HssThresholdRule F → HssThresholdRule F
  with_path new_path (abs_delta_gte id path value) = abs_delta_gte id new_path value
  with_path new_path (outside id path min max) = outside id new_path min max
  with_path new_path (equals id path value) = equals id new_path value
  with_path new_path (crosses id path value direction) = crosses id new_path value direction

  -- Null and strings are no rule values.
  abbrev is_rule_value : Value (Scalar F) → Bool
  is_rule_value (scalar null) = false
  is_rule_value (scalar (string text)) = false
  is_rule_value _ = true

  abbrev pub has_rule_value : HssThresholdRule F → Bool
  has_rule_value (abs_delta_gte id path value) = is_rule_value value
  has_rule_value (outside id path min max) = true
  has_rule_value (equals id path value) = is_rule_value value
  has_rule_value (crosses id path value direction) = is_rule_value value

module _ (fl : Floats) (order : FloatOrder fl) where
  abbrev pub Rule : Type 0
  Rule = HssThresholdRule fl.F64

  -- The last match of HssThresholdRule::validate.
  unfoldable pub validate_threshold : Rule → Result (Unit {0})
  unfolding parse_rule_number compare_rule_numbers
  validate_threshold (abs_delta_gte id path value) = do
    number ← parse_rule_number fl value id
    ensure (not (is_negative fl order number)) (rule_invalid id)
  validate_threshold (outside id path min max) = do
    by ← compare_rule_numbers fl order (from_json_number min) (from_json_number max) id
    ensure (not (is_order by greater)) (rule_invalid id)
  validate_threshold (equals id path value) = ok tt
  validate_threshold (crosses id path value direction) = do
    number ← parse_rule_number fl value id
    ok tt

  unfoldable pub validate_rule : Rule → Result (Unit {0})
  unfolding validate_threshold parse_rule_path
  validate_rule rule = do
    ensure (not (is_blank (rule_id rule))) (new value_invalid false)
    ensure (not (is_blank (rule_path rule))) (rule_invalid (rule_id rule))
    _ ←
        map_err (λ e. with_detail e "rule_id" (nums (rule_id rule)))
          (parse_rule_path (rule_path rule))
    ensure (has_rule_value rule) (rule_invalid (rule_id rule))
    validate_threshold rule

  -- HssThresholdRule::normalize_path
  unfoldable pub normalize_path : Rule → Result Rule
  unfolding parse_rule_path
  normalize_path rule = do
    found ← parse_rule_path (rule_path rule)
    ok (with_path found.normalized rule)

  unfoldable pub normalize_each : List Rule → Result (List Rule)
  unfolding validate_rule normalize_path
  normalize_each [] = ok []
  normalize_each (rule ∷ rules) = do
    validate_rule rule
    normal ← normalize_path rule
    others ← normalize_each rules
    ok (normal ∷ others)

  unfoldable pub insert_rule : Rule → List Rule → List Rule
  unfolding text_leb
  insert_rule rule [] = rule ∷ []
  insert_rule rule (other ∷ rules) =
      let later = insert_rule rule rules in
      if text_leb (rule_id rule) (rule_id other) then rule ∷ other ∷ rules else other ∷ later

  -- A stable sort by the ids; an equal id of a later rule goes behind.
  unfoldable pub sort_rules : List Rule → List Rule
  unfolding insert_rule
  sort_rules [] = []
  sort_rules (rule ∷ rules) = insert_rule rule (sort_rules rules)

  -- `windows(2).find`
  unfoldable pub find_duplicate : List Rule → Option (List ℕ)
  find_duplicate [] = none
  find_duplicate (rule ∷ []) = none
  find_duplicate (rule ∷ next ∷ rules) =
      let later = find_duplicate (next ∷ rules) in
      if eq (rule_id rule) (rule_id next) then some (rule_id rule) else later

  abbrev pub no_duplicate : Option (List ℕ) → Result (Unit {0})
  no_duplicate none = ok tt
  no_duplicate (some id) = err (rule_invalid id)

  unfoldable pub normalize_hss_rules : List Rule → Result (List Rule)
  unfolding normalize_each sort_rules find_duplicate
  normalize_hss_rules rules = do
    normal ← normalize_each rules
    no_duplicate (find_duplicate (sort_rules normal))
    ok (sort_rules normal)
