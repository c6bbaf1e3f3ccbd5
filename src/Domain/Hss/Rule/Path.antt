-- ===== src/Domain/Hss/Rule/Path.antt =====
-- hss.rs: parse_rule_path, a selector path with wildcards.
use jlink_mcp_v.Base.{
  ℕ, Bool, true, false, List, [], ◌∷◌, ◌++◌, if◌then◌else◌, ◌==◌, eq, nat_equal, list_equal,
}
use jlink_mcp_v.Base.Decimal.{to_decimal}
use jlink_mcp_v.Domain.Error.{Result, ok, err, ◌>>=◌, ok_or}
use jlink_mcp_v.Domain.Selector.{
  path_invalid, SelectorStep, parse_identifier, split_bracket, parse_index, parse_path, normalized,
}
use jlink_mcp_v.Domain.Selector

pub data RulePathStep : Type 0 where
  name : List ℕ → RulePathStep
  index : ℕ → RulePathStep
  wildcard : RulePathStep

pub record RulePathPattern : Type 0 where
  pub root : List ℕ
  pub steps : List RulePathStep
  pub normalized : List ℕ

-- RulePathStep::matches
unfoldable pub matches_step : RulePathStep → SelectorStep → Bool
matches_step (name expected) (Selector.name actual) = eq expected actual
matches_step (index expected) (Selector.index actual) = expected == actual
matches_step wildcard (Selector.index actual) = true
matches_step _ _ = false

-- parse_rule_identifier is parse_identifier again.
abbrev parse_rule_identifier : List ℕ → Result (List ℕ × List ℕ)
parse_rule_identifier = parse_identifier

abbrev pub star : List ℕ
star = b'*' ∷ []

unfoldable pub token_step : List ℕ → Result RulePathStep
unfolding parse_index
token_step token = if eq token star then ok wildcard else (do n ← parse_index token; ok (index n))

unfoldable pub next_member : List ℕ → Result (RulePathStep × List ℕ)
unfolding parse_identifier
next_member cs = do (member, rest) ← parse_rule_identifier cs; ok (name member, rest)

unfoldable pub next_token : List ℕ → Result (RulePathStep × List ℕ)
unfolding split_bracket token_step
next_token cs = do
  (token, rest) ← ok_or (split_bracket cs) path_invalid
  step ← token_step token
  ok (step, rest)

unfoldable pub next_rule_step : ℕ → List ℕ → Result (RulePathStep × List ℕ)
unfolding next_member next_token
next_rule_step c cs =
    if c == b'.' then next_member cs else if c == b'[' then next_token cs else err path_invalid

abbrev pub rule_step_mark : RulePathStep → ℕ
rule_step_mark (name member) = b'.'
rule_step_mark _ = b'['

abbrev pub rule_step_body : RulePathStep → List ℕ
rule_step_body (name member) = member
rule_step_body (index n) = to_decimal n ++ (b']' ∷ [])
rule_step_body wildcard = b'*' ∷ b']' ∷ []

abbrev pub rule_step_text : RulePathStep → List ℕ
rule_step_text step = rule_step_mark step ∷ rule_step_body step

-- The normal form is that of the root and the steps.
unfoldable pub parse_rule_path : List ℕ → Result RulePathPattern
unfolding parse_path next_rule_step
parse_rule_path path = do
  (root, steps) ← parse_path next_rule_step path
  ok (record { root = root; steps = steps; normalized = normalized rule_step_text root steps })
