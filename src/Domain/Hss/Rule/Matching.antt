-- ===== src/Domain/Hss/Rule/Matching.antt =====
-- hss.rs: HssThresholdRule::matches_path and matches_values.
use jlink_mcp_v.Base.{
  ℕ, Bool, true, false, not, ◌&&◌, ◌||◌, List, ◌∷◌, none, if◌then◌else◌, ◌==◌, eq, nat_equal,
  list_equal, length,
}
use jlink_mcp_v.Base.Int.{ℤ, pos, negsuc}
use jlink_mcp_v.Domain.Error.{Result, ok, ◌>>=◌, ◌>>◌}
use jlink_mcp_v.Domain.Json.{scalar, array, object, Items, nil, item, Fields, end, field}
use jlink_mcp_v.Domain.Selector.{SelectorStep, new_selector, selector_steps, root_of}
use jlink_mcp_v.Domain.TypedValue.Numbers.{Scalar, null, bool, integer, real, string}
use jlink_mcp_v.Domain.TypedValue.Scalar.{Floats, JsonValue}
use jlink_mcp_v.Domain.Hss.Rule.Path.{RulePathStep, matches_step, parse_rule_path}
use jlink_mcp_v.Domain.Hss.Rule.Numbers.{
  FloatOrder, less, greater, Ordering, is_order, from_json_number, parse_rule_number,
  compare_rule_numbers, absolute_delta_gte,
}
use jlink_mcp_v.Domain.Hss.Rule.{
  HssCrossingDirection, up, down, either, abs_delta_gte, outside, equals, crosses, rule_path, Rule,
  validate_rule,
}

abbrev all_match : List RulePathStep → List SelectorStep → Bool
all_match (expected ∷ steps) (actual ∷ actuals) =
    matches_step expected actual && all_match steps actuals
all_match _ _ = true

abbrev pub int_eq : ℤ → ℤ → Bool
int_eq (pos a) (pos b) = a == b
int_eq (negsuc a) (negsuc b) = a == b
int_eq _ _ = false

abbrev bool_eq : Bool → Bool → Bool
bool_eq true b = b
bool_eq false b = not b

module _ (fl : Floats) (order : FloatOrder fl) where
  unfoldable pub matches_path : Rule fl order → List ℕ → Result Bool
  unfolding parse_rule_path new_selector selector_steps root_of matches_step
  matches_path rule candidate = do
    found ← parse_rule_path (rule_path rule)
    selector ← new_selector candidate none
    let same_root = eq found.root (root_of selector.path)
    let steps = selector_steps selector
    (if not same_root
        then ok false
        else steps >>= λ actual.
            if not (length found.steps == length actual)
            then ok false
            else ok (all_match found.steps actual))

  abbrev scalar_eq : Scalar fl.F64 → Scalar fl.F64 → Bool
  scalar_eq null null = true
  scalar_eq (bool a) (bool b) = bool_eq a b
  scalar_eq (integer a) (integer b) = int_eq a b
  scalar_eq (real a) (real b) = order.same a b
  scalar_eq (string a) (string b) = eq a b
  scalar_eq _ _ = false

  -- The derived `PartialEq` of serde_json's Value.
  unfoldable mutual
    pub value_eq : JsonValue fl → JsonValue fl → Bool
    value_eq (scalar a) (scalar b) = scalar_eq a b
    value_eq (array a) (array b) = items_eq a b
    value_eq (object a) (object b) = fields_eq a b
    value_eq _ _ = false

    pub items_eq : Items (Scalar fl.F64) → Items (Scalar fl.F64) → Bool
    items_eq nil nil = true
    items_eq (item a as_) (item b bs) = value_eq a b && items_eq as_ bs
    items_eq _ _ = false

    pub fields_eq : Fields (Scalar fl.F64) → Fields (Scalar fl.F64) → Bool
    fields_eq end end = true
    fields_eq (field m a as_) (field n b bs) = eq m n && (value_eq a b && fields_eq as_ bs)
    fields_eq _ _ = false

  abbrev crossed : HssCrossingDirection → Ordering → Ordering → Bool
  crossed up before after = is_order before less && not (is_order after less)
  crossed down before after = is_order before greater && not (is_order after greater)
  crossed either before after =
      (is_order before less && not (is_order after less))
      || (is_order before greater && not (is_order after greater))

  evaluate : Rule fl order → JsonValue fl → JsonValue fl → Result Bool
  unfolding parse_rule_number compare_rule_numbers absolute_delta_gte value_eq
  evaluate (abs_delta_gte id path value) before after = do
    from ← parse_rule_number fl before id
    to ← parse_rule_number fl after id
    threshold ← parse_rule_number fl value id
    absolute_delta_gte fl order from to threshold id
  evaluate (outside id path min max) before after = do
    now ← parse_rule_number fl after id
    below ← compare_rule_numbers fl order now (from_json_number min) id
    (if is_order below less
        then ok true
        else compare_rule_numbers fl order now (from_json_number max) id >>= λ above.
            ok (is_order above greater))
  evaluate (equals id path value) before after =
      ok (not (value_eq before value) && value_eq after value)
  evaluate (crosses id path value direction) before after = do
    from ← parse_rule_number fl before id
    to ← parse_rule_number fl after id
    threshold ← parse_rule_number fl value id
    was ← compare_rule_numbers fl order from threshold id
    is ← compare_rule_numbers fl order to threshold id
    ok (crossed direction was is)

  unfoldable pub matches_values : Rule fl order → JsonValue fl → JsonValue fl → Result Bool
  unfolding validate_rule evaluate
  matches_values rule before after = do validate_rule fl order rule; evaluate rule before after
