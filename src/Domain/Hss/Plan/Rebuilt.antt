-- ===== src/Domain/Hss/Plan/Rebuilt.antt =====
-- hss.rs: HssStartPlan::validate rebuilds a plan from its own fields, and gets the same plan.
use jlink_mcp_v.Base.{
  ℕ, ◌+◌, ◌≡◌, refl, ap, ap₂, ◌∙◌, sym, subst, true, not, ◌||◌, List, [], ◌∷◌, Option, leb, any,
  length, checked_add_u32, eq, nat_equal, list_equal, arith,
}
use jlink_mcp_v.Base.Text.{is_blank}
use jlink_mcp_v.Domain.Error.{
  ok, ◌>>=◌, ensure, ok_or, bind-eq-ok, bind-ok, ok-injective, ensure-eq-ok, ensure-true,
}
use jlink_mcp_v.Domain.Identity.{FirmwareIdentityPlan}
use jlink_mcp_v.Domain.Selector.Execution.{validate_for_execution}
use jlink_mcp_v.Domain.TypedValue.Scalar.{Floats}
use jlink_mcp_v.Domain.Hss.Frame.{new_layout}
use jlink_mcp_v.Domain.Hss.Rule.{Rule, normalize_hss_rules}
use jlink_mcp_v.Domain.Hss.Rule.Normal.{normalize_hss_rules-normal}
use jlink_mcp_v.Domain.Hss.Rule.Numbers.{FloatOrder}
use jlink_mcp_v.Domain.Hss.Plan.{
  max_expanded_sample_bytes, value_error, unsupported, HssSelectorPlan, dwarf, raw, HssVariablePlan,
  validate_selector,
}
use jlink_mcp_v.Domain.Hss.Plan.Start.{
  min_duration_s, max_duration_s, min_rate_hz, max_rate_hz, max_top_level_selectors, HssReturnWhen,
  in_range, is_dwarf, is_empty, is_raw_variable, check_firmware, require_strong, Block, at_index,
  block_of, try_u32, expanded_error, place, resolve, resolved_selectors, HssEncoding,
  FingerprintInput, HssStartPlan, fingerprint, finish_plan, new_selectors, rebuild,
}

block_of-resolve :
    (firmware : Option FirmwareIdentityPlan) (index offset : ℕ) (selector : HssSelectorPlan)
    {block : Block}
    → block_of firmware index offset selector ≡ ok block
    → resolve (block.0) ≡ ok selector
unfolding block_of resolve
block_of-resolve firmware index offset (dwarf plan) {block} h =
    let (identity, _, h₁) = bind-eq-ok _ (ok_or firmware value_error) h in
    let (_, _, h₂) =
      bind-eq-ok _ (ensure (eq plan.elf_sha256 identity.elf_sha256) (at_index value_error index))
        h₁ in
    let (_, _, h₃) = bind-eq-ok _ (validate_for_execution plan) h₂ in
    ap (λ b. resolve (b.0)) (sym (ok-injective h₃))
block_of-resolve firmware index offset (raw selector) {block} h =
    let (_, _, h₁) = bind-eq-ok _ (validate_selector selector) h in
    ap (λ b. resolve (b.0)) (sym (ok-injective h₁))

place-resolved :
    (firmware : Option FirmwareIdentityPlan) (index offset : ℕ) (selectors : List HssSelectorPlan)
    {placed : List HssVariablePlan × List ℕ}
    → place firmware index offset selectors ≡ ok placed
    → resolved_selectors (placed.0) ≡ ok selectors
unfolding place resolved_selectors
place-resolved firmware index offset [] {placed} h =
    let e : ([], []) ≡ placed = cc in ap (λ p. resolved_selectors (p.0)) (sym e)
place-resolved firmware index offset (selector ∷ selectors) {placed} h =
    let ((variable, address_value, byte_size), blocked, h₁) =
      bind-eq-ok _ (block_of firmware index offset selector) h in
    let (byte_count, _, h₂) = bind-eq-ok _ (try_u32 byte_size index) h₁ in
    let (address, _, h₃) = bind-eq-ok _ (try_u32 address_value index) h₂ in
    let (_, _, h₄) =
      bind-eq-ok _ (ok_or (checked_add_u32 address byte_count) (at_index unsupported index)) h₃ in
    let (next, _, h₅) =
      bind-eq-ok _ (ok_or (checked_add_u32 offset byte_count) (at_index unsupported index)) h₄ in
    let (_, _, h₆) =
      bind-eq-ok _ (ensure (leb next max_expanded_sample_bytes) (expanded_error index next)) h₅ in
    let ((variables, counts), others, h₇) =
      bind-eq-ok _ (place firmware (index + 1) next selectors) h₆ in
    let e : (variable ∷ variables, byte_count ∷ counts) ≡ placed = ok-injective h₇ in
    subst (λ p. resolved_selectors (p.0) ≡ ok (selector ∷ selectors)) e
      (bind-ok _ (block_of-resolve firmware index offset selector blocked)
        ∙ bind-ok _ (place-resolved firmware (index + 1) next selectors others))

module _ (fl : Floats) (order : FloatOrder fl) where
  -- No rules are normalized to no rules.
  still_allowed :
      (rules : List (Rule fl order)) (variables : List HssVariablePlan)
      {normal : List (Rule fl order)}
      → normalize_hss_rules fl order rules ≡ ok normal
      → (is_empty rules || not (any is_raw_variable variables)) ≡ true
      → (is_empty normal || not (any is_raw_variable variables)) ≡ true
  unfolding normalize_hss_rules
  still_allowed [] variables {normal} h allowed =
      let e : [] ≡ normal = cc in
      ap (λ rs. is_empty rs || not (any is_raw_variable variables)) (sym e)
  still_allowed (rule ∷ rules) variables {normal} h allowed = ground arith

  module _ (encoding : HssEncoding fl order) where
    -- A plan that keeps what it is made of, and is made again with its own rules.
    record IsKept (key : List ℕ) (duration rate : ℕ) (when : HssReturnWhen)
        (variables : List HssVariablePlan) (counts : List ℕ)
        (firmware : Option FirmwareIdentityPlan) (plan : HssStartPlan fl order) : Type 0 where
      same_key : plan.capture_key ≡ key
      same_duration : plan.duration_s ≡ duration
      same_rate : plan.rate_hz ≡ rate
      same_when : plan.return_when ≡ when
      same_variables : plan.variables ≡ variables
      same_firmware : plan.firmware ≡ firmware
      again :
          finish_plan fl order encoding key duration rate when variables counts plan.rules firmware
          ≡ ok plan

    finish_plan-IsKept :
        (key : List ℕ) (duration rate : ℕ) (when : HssReturnWhen) (variables : List HssVariablePlan)
        (counts : List ℕ) (rules : List (Rule fl order)) (firmware : Option FirmwareIdentityPlan)
        {plan : HssStartPlan fl order}
        → finish_plan fl order encoding key duration rate when variables counts rules firmware
          ≡ ok plan
        → IsKept key duration rate when variables counts firmware plan
    unfolding finish_plan
    finish_plan-IsKept key duration rate when variables counts rules firmware {plan} h =
        let (layout, laid, h₁) = bind-eq-ok _ (new_layout counts) h in
        let (_, allowed, h₂) =
          bind-eq-ok _ (ensure (is_empty rules || not (any is_raw_variable variables)) unsupported)
            h₁ in
        let (normal, normalized, h₃) = bind-eq-ok _ (normalize_hss_rules fl order rules) h₂ in
        let input : FingerprintInput fl order = record {
          duration_s = duration;
          rate_hz = rate;
          return_when = when;
          variables = variables;
          rules = normal;
          firmware = firmware;
        } in
        let (print, printed, h₄) = bind-eq-ok _ (fingerprint fl order encoding input) h₃ in
        let still = still_allowed rules variables normalized (ensure-eq-ok _ unsupported allowed) in
        subst (IsKept key duration rate when variables counts firmware) (ok-injective h₄) (record {
          same_key = refl;
          same_duration = refl;
          same_rate = refl;
          same_when = refl;
          same_variables = refl;
          same_firmware = refl;
          again =
              bind-ok _ laid
              ∙ bind-ok _ (ensure-true _ unsupported still)
              ∙ bind-ok _ (normalize_hss_rules-normal fl order rules normalized)
              ∙ bind-ok _ printed;
        })

    rebuild-kept :
        (key : List ℕ) (duration rate : ℕ) (when : HssReturnWhen) (variables : List HssVariablePlan)
        (counts : List ℕ) (firmware : Option FirmwareIdentityPlan) (plan : HssStartPlan fl order)
        → IsKept key duration rate when variables counts firmware plan
        → rebuild fl order encoding plan ≡ (
            resolved_selectors variables >>= λ selectors.
            new_selectors fl order encoding key duration rate when selectors plan.rules firmware)
    unfolding rebuild
    rebuild-kept key duration rate when variables counts firmware plan kept =
        ap
          (λ vs. resolved_selectors vs >>= λ ss.
            new_selectors fl order encoding plan.capture_key plan.duration_s plan.rate_hz
              plan.return_when ss plan.rules plan.firmware)
          kept.same_variables
        ∙ ap
            (λ k. resolved_selectors variables >>= λ ss.
              new_selectors fl order encoding k plan.duration_s plan.rate_hz plan.return_when ss
                plan.rules plan.firmware)
            kept.same_key
        ∙ ap₂
            (λ d r. resolved_selectors variables >>= λ ss.
              new_selectors fl order encoding key d r plan.return_when ss plan.rules plan.firmware)
            kept.same_duration kept.same_rate
        ∙ ap₂
            (λ w f. resolved_selectors variables >>= λ ss.
              new_selectors fl order encoding key duration rate w ss plan.rules f)
            kept.same_when kept.same_firmware

    -- A plan that is made of selectors is made again of what it keeps of them: the same plan, with the
    -- same offsets, rules and fingerprint.
    pub rebuild-new_selectors :
        (key : List ℕ) (duration rate : ℕ) (when : HssReturnWhen) (selectors : List HssSelectorPlan)
        (rules : List (Rule fl order)) (firmware : Option FirmwareIdentityPlan)
        (plan : HssStartPlan fl order)
        → new_selectors fl order encoding key duration rate when selectors rules firmware ≡ ok plan
        → rebuild fl order encoding plan ≡ ok plan
    unfolding new_selectors
    rebuild-new_selectors key duration rate when selectors rules firmware plan h =
        let (_, named, h₁) = bind-eq-ok _ (ensure (not (is_blank key)) value_error) h in
        let (_, lasting, h₂) =
          bind-eq-ok _ (ensure (in_range min_duration_s max_duration_s duration) value_error) h₁ in
        let (_, paced, h₃) =
          bind-eq-ok _ (ensure (in_range min_rate_hz max_rate_hz rate) value_error) h₂ in
        let (_, few, h₄) =
          bind-eq-ok _ (ensure (in_range 1 max_top_level_selectors (length selectors)) value_error)
            h₃ in
        let (_, known, h₅) = bind-eq-ok _ (check_firmware firmware) h₄ in
        let (_, strong, h₆) = bind-eq-ok _ (require_strong (any is_dwarf selectors) firmware) h₅ in
        let ((variables, counts), placed, h₇) = bind-eq-ok _ (place firmware 0 0 selectors) h₆ in
        let kept = finish_plan-IsKept key duration rate when variables counts rules firmware h₇ in
        rebuild-kept key duration rate when variables counts firmware plan kept
        ∙ bind-ok _ (place-resolved firmware 0 0 selectors placed)
        ∙ bind-ok _ named
        ∙ bind-ok _ lasting
        ∙ bind-ok _ paced
        ∙ bind-ok _ few
        ∙ bind-ok _ known
        ∙ bind-ok _ strong
        ∙ bind-ok _ placed
        ∙ kept.again
