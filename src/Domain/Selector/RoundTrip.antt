-- ===== src/Domain/Selector/RoundTrip.antt =====
-- crates/jlink-domain/src/dwarf.rs: a normalized path is its own normal form.
use jlink_mcp_v.Base.{
  ℕ, ◌≡◌, refl, ap, ap₂, ◌∙◌, sym, false, List, [], ◌∷◌, Option, All, All-append, nat_equal,
  list_equal, arith,
}
use jlink_mcp_v.Base.Decimal.{to_decimal, to_decimal-digits}
use jlink_mcp_v.Domain.Error.{ok, bind-eq-ok, bind-ok}
use jlink_mcp_v.Domain.Dwarf.{ElementSlice, VariableSelector}
use jlink_mcp_v.Domain.Selector.{
  SelectorStep, name, index, is_ascii_digit, is_identifier_char, parse_selector_path, next_step,
  step_text, step_mark, step_body, normalized, new_selector,
}
use jlink_mcp_v.Base.Graphic.{IsGraphic}
use jlink_mcp_v.Domain.Selector.Steps.{all-IsGraphic, identifier-IsGraphic, parse_path-normalized}
use jlink_mcp_v.Domain.Selector.Grammar.{IsStep, next_step-IsStep, next_step-text}

step-IsGraphic : (step : SelectorStep) → IsStep step → All IsGraphic (step_text step)
step-IsGraphic (name member) h = ((omega arith, omega arith), identifier-IsGraphic member h)
step-IsGraphic (index n) h = (
  (omega arith, omega arith),
  All-append IsGraphic (to_decimal n) (b']' ∷ [])
      (all-IsGraphic is_ascii_digit (λ c d. (ground arith, ground arith)) (to_decimal n)
        (to_decimal-digits n).1)
      ((omega arith, omega arith), tt),
)

step_mark-stops : (step : SelectorStep) → is_identifier_char (step_mark step) ≡ false
step_mark-stops (name member) = refl
step_mark-stops (index n) = refl

parse_selector_path-normalized :
    (path root : List ℕ) (steps : List SelectorStep)
    → parse_selector_path path ≡ ok (root, steps)
    → parse_selector_path (normalized step_text root steps) ≡ ok (root, steps)
unfolding parse_selector_path
parse_selector_path-normalized =
    parse_path-normalized next_step step_mark step_body IsStep step_mark-stops next_step-text
      step-IsGraphic (λ c cs p h. next_step-IsStep c cs h)

-- An accepted path names a root and steps that its normal form names again, and the selector made of
-- the normal form is the same selector.
pub new_selector-normal :
    (path : List ℕ) (slice : Option ElementSlice) (s : VariableSelector)
    → new_selector path slice ≡ ok s
    → (root : List ℕ) × (steps : List SelectorStep) × (parse_selector_path path ≡ ok (root, steps))
      × (parse_selector_path s.path ≡ ok (root, steps))
      × (new_selector s.path s.slice ≡ ok s)
unfolding new_selector
new_selector-normal path slice s h =
    let ((root, steps), parsed, h₁) = bind-eq-ok _ (parse_selector_path path) h in
    let same : record { path = normalized step_text root steps; slice = slice } ≡ s = cc in
    let again =
      ap parse_selector_path (sym (ap (λ x. x.path) same))
      ∙ parse_selector_path-normalized path root steps parsed in
    (
      root,
      steps,
      parsed,
      again,
      bind-ok _ again
          ∙ ap ok (
              ap₂ (λ p sl. record { path = p; slice = sl }) refl (sym (ap (λ x. x.slice) same))
              ∙ same),
    )
