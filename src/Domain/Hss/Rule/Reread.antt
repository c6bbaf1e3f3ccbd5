-- ===== src/Domain/Hss/Rule/Reread.antt =====
-- hss.rs: the normal form of a rule path is read as the same pattern.
use jlink_mcp_v.Base.{
  ℕ, ◌^◌, ◌<◌, ◌≡◌, refl, ap, ◌∙◌, sym, subst, true, false, List, [], ◌∷◌, ◌++◌, ◌==◌, all, All,
  All-append, eq, eq→≡, nat_equal, list_equal, inl, inr, Bool-cases, arith,
}
use jlink_mcp_v.Base.Decimal.{to_decimal, to_decimal-digits}
use jlink_mcp_v.Base.Text.{is_blank, is_whitespace}
use jlink_mcp_v.Domain.Error.{ok, ◌>>=◌, ensure, ok_or, bind-eq-ok, bind-ok, ensure-eq-ok}
use jlink_mcp_v.Domain.Selector.{
  path_invalid, is_ascii_digit, is_identifier_char, is_identifier_start, is_path_text,
  parse_identifier, split_bracket, parse_index, parse_path, normalized,
}
use jlink_mcp_v.Domain.Selector.Grammar.{
  is_identifier, stops, append_assoc, split_bracket-append, parse_index-to_decimal, parse_index-lt,
  parse_identifier-is_identifier, parse_identifier-append,
}
use jlink_mcp_v.Base.Graphic.{IsGraphic}
use jlink_mcp_v.Domain.Selector.Steps.{all-IsGraphic, identifier-IsGraphic, parse_path-normalized}
use jlink_mcp_v.Domain.Hss.Rule.Path.{
  RulePathStep, name, index, wildcard, RulePathPattern, star, token_step, next_member, next_token,
  next_rule_step, rule_step_mark, rule_step_body, rule_step_text, parse_rule_path,
}

abbrev IsStep : RulePathStep → Type 0
IsStep (name member) = is_identifier member ≡ true
IsStep (index n) = n < 2 ^ 64
IsStep wildcard = Unit

rule_step_mark-stops : (step : RulePathStep) → is_identifier_char (rule_step_mark step) ≡ false
rule_step_mark-stops (name member) = refl
rule_step_mark-stops (index n) = refl
rule_step_mark-stops wildcard = refl

numeral-not_star : (n : ℕ) → eq (to_decimal n) star ≡ false
numeral-not_star n = elim (Bool-cases (eq (to_decimal n) star)) [
  | inl hit ↦
      let digits = to_decimal-digits n in
      let odd : all is_ascii_digit star ≡ true =
        subst (λ t. all is_ascii_digit t ≡ true) (eq→≡ (to_decimal n) star hit) digits.1 in
      cc
  | inr miss ↦ miss
]

token_step-to_decimal : (n : ℕ) → n < 2 ^ 64 → token_step (to_decimal n) ≡ ok (index n)
unfolding token_step
token_step-to_decimal n h = rw (numeral-not_star n) (bind-ok _ (parse_index-to_decimal n h))

next_rule_step-text :
    (step : RulePathStep) (rest : List ℕ)
    → IsStep step
    → stops rest ≡ true
    → next_rule_step (rule_step_mark step) (rule_step_body step ++ rest) ≡ ok (step, rest)
unfolding next_rule_step next_member next_token token_step split_bracket
next_rule_step-text (name member) rest h s = bind-ok _ (parse_identifier-append member rest h s)
next_rule_step-text (index n) rest h s =
    let (_, digits) = to_decimal-digits n in
    let split =
      ap split_bracket (append_assoc (to_decimal n) (b']' ∷ []) rest)
      ∙ split_bracket-append (to_decimal n) rest digits in
    bind-ok _ (ap (λ o. ok_or o path_invalid) split) ∙ bind-ok _ (token_step-to_decimal n h)
next_rule_step-text wildcard rest h s = refl

rule_step-IsGraphic : (step : RulePathStep) → IsStep step → All IsGraphic (rule_step_text step)
rule_step-IsGraphic (name member) h = ((omega arith, omega arith), identifier-IsGraphic member h)
rule_step-IsGraphic (index n) h = (
  (omega arith, omega arith),
  All-append IsGraphic (to_decimal n) (b']' ∷ [])
      (all-IsGraphic is_ascii_digit (λ c d. (ground arith, ground arith)) (to_decimal n)
        (to_decimal-digits n).1)
      ((omega arith, omega arith), tt),
)
rule_step-IsGraphic wildcard h =
    ((omega arith, omega arith), ((omega arith, omega arith), ((omega arith, omega arith), tt)))

index-IsStep :
    (token : List ℕ) {step : RulePathStep}
    → (parse_index token >>= λ n. ok (index n)) ≡ ok step
    → IsStep step
index-IsStep token {step} h =
    let (n, parsed, h₁) = bind-eq-ok _ (parse_index token) h in
    let e : index n ≡ step = cc in subst IsStep e (parse_index-lt token parsed)

token_step-IsStep :
    (token : List ℕ) {step : RulePathStep} → token_step token ≡ ok step → IsStep step
unfolding token_step
token_step-IsStep token {step} h = elim (Bool-cases (eq token star)) [
  | inl hit ↦ let r = rw hit at h in let e : wildcard ≡ step = cc in subst IsStep e tt
  | inr miss ↦ index-IsStep token (rw miss at h)
]

next_member-IsStep :
    (cs : List ℕ) {p : RulePathStep × List ℕ} → next_member cs ≡ ok p → IsStep (p.0)
unfolding next_member
next_member-IsStep cs {p} h =
    let ((member, rest), parsed, h₁) = bind-eq-ok _ (parse_identifier cs) h in
    let e : (name member, rest) ≡ p = cc in
    subst (λ q. IsStep (q.0)) e (parse_identifier-is_identifier cs parsed)

next_token-IsStep : (cs : List ℕ) {p : RulePathStep × List ℕ} → next_token cs ≡ ok p → IsStep (p.0)
unfolding next_token
next_token-IsStep cs {p} h =
    let ((token, rest), _, h₁) = bind-eq-ok _ (ok_or (split_bracket cs) path_invalid) h in
    let (step, parsed, h₂) = bind-eq-ok _ (token_step token) h₁ in
    let e : (step, rest) ≡ p = cc in subst (λ q. IsStep (q.0)) e (token_step-IsStep token parsed)

next_rule_step-IsStep :
    (c : ℕ) (cs : List ℕ) (p : RulePathStep × List ℕ) → next_rule_step c cs ≡ ok p → IsStep (p.0)
unfolding next_rule_step
next_rule_step-IsStep c cs p h = elim (Bool-cases (c == b'.')) [
  | inl dot ↦ next_member-IsStep cs (rw dot at h)
  | inr other ↦ elim (Bool-cases (c == b'[')) [
    | inl bracket ↦ next_token-IsStep cs (rw (other, bracket) at h)
    | inr neither ↦ let failed = rw (other, neither) at h in cc
  ]
]

pub parse_rule_path-normalized :
    (path : List ℕ) {found : RulePathPattern}
    → parse_rule_path path ≡ ok found
    → parse_rule_path found.normalized ≡ ok found
unfolding parse_rule_path
parse_rule_path-normalized path {found} h =
    let ((root, steps), parsed, h₁) = bind-eq-ok _ (parse_path next_rule_step path) h in
    let e : record { root = root; steps = steps; normalized = normalized rule_step_text root steps }
        ≡ found =
      cc in
    ap parse_rule_path (sym (ap (λ x. x.normalized) e))
    ∙ bind-ok _ (
        parse_path-normalized next_rule_step rule_step_mark rule_step_body IsStep
          rule_step_mark-stops next_rule_step-text rule_step-IsGraphic next_rule_step-IsStep path
          root steps parsed)
    ∙ ap ok e

start-not_whitespace : (c : ℕ) → is_identifier_start c ≡ true → is_whitespace c ≡ false
unfolding is_whitespace
start-not_whitespace c h = ground arith

identifier-not_blank :
    (path : List ℕ) {p : List ℕ × List ℕ} → parse_identifier path ≡ ok p → is_blank path ≡ false
unfolding parse_identifier is_blank
identifier-not_blank [] h = cc
identifier-not_blank (c ∷ cs) h =
    let (_, start, _) = bind-eq-ok _ (ensure (is_identifier_start c) path_invalid) h in
    rw (start-not_whitespace c (ensure-eq-ok _ path_invalid start)) refl

-- A path that is read is not blank.
pub parse_rule_path-not_blank :
    (path : List ℕ) {found : RulePathPattern}
    → parse_rule_path path ≡ ok found
    → is_blank path ≡ false
unfolding parse_rule_path parse_path
parse_rule_path-not_blank path h =
    let (_, parsed, _) = bind-eq-ok _ (parse_path next_rule_step path) h in
    let (_, _, h₁) = bind-eq-ok _ (ensure (is_path_text path) path_invalid) parsed in
    let (_, first, _) = bind-eq-ok _ (parse_identifier path) h₁ in identifier-not_blank path first
