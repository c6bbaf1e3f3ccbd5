-- ===== src/Domain/Hss/Plan/Placed.antt =====
-- hss.rs: where HssStartPlan::new_selectors puts the variables of a plan.
use jlink_mcp_v.Base.{
  ℕ, ◌+◌, ◌≡◌, ◌<◌, ◌≤◌, refl, ap, ◌∙◌, sym, subst, not, ◌||◌, List, [], ◌∷◌, Option, leb, leb→le,
  any, All, length, checked_add_u32, u32_mod, eq, nat_equal, list_equal, arith,
}
use jlink_mcp_v.Base.Text.{is_blank}
use jlink_mcp_v.Domain.Error.{ok, ensure, ok_or, bind-eq-ok, ok-injective, ensure-eq-ok}
use jlink_mcp_v.Domain.Identity.{FirmwareIdentityPlan}
use jlink_mcp_v.Domain.Selector.Execution.{validate_for_execution}
use jlink_mcp_v.Domain.TypedValue.Scalar.{Floats}
use jlink_mcp_v.Domain.Hss.Frame.{new_layout}
use jlink_mcp_v.Domain.Hss.Frame.Lossless.{sum, new_layout-IsLayout}
use jlink_mcp_v.Domain.Hss.Rule.{Rule, normalize_hss_rules}
use jlink_mcp_v.Domain.Hss.Rule.Numbers.{FloatOrder}
use jlink_mcp_v.Domain.Hss.Plan.{
  max_expanded_sample_bytes, value_error, unsupported, HssSelectorPlan, dwarf, raw, HssVariablePlan,
  validate_selector,
}
use jlink_mcp_v.Domain.Hss.Plan.Variables.{variable_address, variable_byte_size}
use jlink_mcp_v.Domain.Hss.Plan.Start.{
  min_duration_s, max_duration_s, min_rate_hz, max_rate_hz, max_top_level_selectors, HssReturnWhen,
  in_range, is_dwarf, is_empty, is_raw_variable, plan_format_version, check_firmware,
  require_strong, Block, at_index, block_of, try_u32, expanded_error, place, HssEncoding,
  FingerprintInput, HssStartPlan, fingerprint, finish_plan, new_selectors,
}

-- The variables stand one behind the other from one offset to another, each of them a block of the
-- 32-bit address space with a byte at least.
pub IsPacked : ℕ → List HssVariablePlan → ℕ → Type 0
IsPacked offset [] end = offset ≡ end
IsPacked offset (v ∷ variables) end =
    (v.sample_offset ≡ offset)
    × (0 < variable_byte_size v)
    × (variable_address v + variable_byte_size v < u32_mod)
    × IsPacked (offset + variable_byte_size v) variables end

-- What a block says of its variable.
record IsBlock (offset : ℕ) (block : Block) : Type 0 where
  here : (block.0).sample_offset ≡ offset
  same_address : variable_address (block.0) ≡ block.1
  same_size : variable_byte_size (block.0) ≡ block.2

block_of-IsBlock :
    (firmware : Option FirmwareIdentityPlan) (index offset : ℕ) (selector : HssSelectorPlan)
    {block : Block}
    → block_of firmware index offset selector ≡ ok block
    → IsBlock offset block
unfolding block_of variable_address variable_byte_size
block_of-IsBlock firmware index offset (dwarf plan) {block} h =
    let (identity, _, h₁) = bind-eq-ok _ (ok_or firmware value_error) h in
    let (_, _, h₂) =
      bind-eq-ok _ (ensure (eq plan.elf_sha256 identity.elf_sha256) (at_index value_error index))
        h₁ in
    let (_, _, h₃) = bind-eq-ok _ (validate_for_execution plan) h₂ in
    subst (IsBlock offset) (ok-injective h₃)
      (record { here = refl; same_address = refl; same_size = refl })
block_of-IsBlock firmware index offset (raw selector) {block} h =
    let (_, _, h₁) = bind-eq-ok _ (validate_selector selector) h in
    subst (IsBlock offset) (ok-injective h₁)
      (record { here = refl; same_address = refl; same_size = refl })

try_u32-same : (n index : ℕ) {m : ℕ} → try_u32 n index ≡ ok m → n ≡ m
try_u32-same n index h = ground arith

add_u32-sum :
    (a b index : ℕ) {c : ℕ}
    → ok_or (checked_add_u32 a b) (at_index unsupported index) ≡ ok c
    → c ≡ a + b
add_u32-sum a b index h = ground arith

add_u32-inside :
    (a b index : ℕ) {c : ℕ}
    → ok_or (checked_add_u32 a b) (at_index unsupported index) ≡ ok c
    → a + b < u32_mod
add_u32-inside a b index h = ground arith

IsPacked-next :
    (v : HssVariablePlan) (variables : List HssVariablePlan) (counts : List ℕ)
    (offset address count next : ℕ)
    → IsBlock offset (v, address, count)
    → 0 < count
    → address + count < u32_mod
    → next ≡ offset + count
    → IsPacked next variables (next + sum counts) × (next + sum counts ≤ max_expanded_sample_bytes)
    → IsPacked offset (v ∷ variables) (offset + sum (count ∷ counts))
      × (offset + sum (count ∷ counts) ≤ max_expanded_sample_bytes)
unfolding IsPacked sum
IsPacked-next v variables counts offset address count next b filled inside step (packed, small) =
    let start : next ≡ offset + variable_byte_size v =
      step ∙ ap (λ n. offset + n) (sym b.same_size) in
    let end : next + sum counts ≡ offset + (count + sum counts) = omega arith in
    (
      (
        b.here,
        subst (λ n. 0 < n) (sym b.same_size) filled,
        block_inside b inside,
        subst (λ k. IsPacked k variables (offset + (count + sum counts))) start
            (subst (IsPacked next variables) end packed),
      ),
      omega arith,
    )
  where
    block_inside :
        {v : HssVariablePlan} {offset address count : ℕ}
        → IsBlock offset (v, address, count)
        → address + count < u32_mod
        → variable_address v + variable_byte_size v < u32_mod
    block_inside b h = grind (arith, b.same_address, b.same_size)

place-IsPacked :
    (firmware : Option FirmwareIdentityPlan) (index offset : ℕ) (selectors : List HssSelectorPlan)
    {placed : List HssVariablePlan × List ℕ}
    → place firmware index offset selectors ≡ ok placed
    → offset ≤ max_expanded_sample_bytes
    → All (λ c. 0 < c) (placed.1)
    → IsPacked offset (placed.0) (offset + sum (placed.1))
      × (offset + sum (placed.1) ≤ max_expanded_sample_bytes)
unfolding place sum IsPacked
place-IsPacked firmware index offset [] {placed} h below filled =
    subst
      (λ p.
        IsPacked offset (p.0) (offset + sum (p.1))
        × (offset + sum (p.1) ≤ max_expanded_sample_bytes))
      (ok-injective h) (omega arith, omega arith)
place-IsPacked firmware index offset (selector ∷ selectors) {placed} h below filled =
    let ((variable, address_value, byte_size), blocked, h₁) =
      bind-eq-ok _ (block_of firmware index offset selector) h in
    let (byte_count, sized, h₂) = bind-eq-ok _ (try_u32 byte_size index) h₁ in
    let (address, addressed, h₃) = bind-eq-ok _ (try_u32 address_value index) h₂ in
    let (_, inside, h₄) =
      bind-eq-ok _ (ok_or (checked_add_u32 address byte_count) (at_index unsupported index)) h₃ in
    let (next, added, h₅) =
      bind-eq-ok _ (ok_or (checked_add_u32 offset byte_count) (at_index unsupported index)) h₄ in
    let (_, small, h₆) =
      bind-eq-ok _ (ensure (leb next max_expanded_sample_bytes) (expanded_error index next)) h₅ in
    let ((variables, counts), others, h₇) =
      bind-eq-ok _ (place firmware (index + 1) next selectors) h₆ in
    let e : (variable ∷ variables, byte_count ∷ counts) ≡ placed = ok-injective h₇ in
    let (here, later) = subst (λ p. All (λ c. 0 < c) (p.1)) (sym e) filled in
    let block =
      subst (λ n. IsBlock offset (variable, address_value, n)) (try_u32-same byte_size index sized)
        (block_of-IsBlock firmware index offset selector blocked) in
    let placed_block =
      subst (λ a. IsBlock offset (variable, a, byte_count))
        (try_u32-same address_value index addressed) block in
    let rest =
      place-IsPacked firmware (index + 1) next selectors others
        (leb→le next _ (ensure-eq-ok _ _ small)) later in
    subst
      (λ p.
        IsPacked offset (p.0) (offset + sum (p.1))
        × (offset + sum (p.1) ≤ max_expanded_sample_bytes))
      e
      (IsPacked-next variable variables counts offset address byte_count next placed_block here
        (add_u32-inside address byte_count index inside) (add_u32-sum offset byte_count index added)
        rest)

module _ (fl : Floats) (order : FloatOrder fl) (encoding : HssEncoding fl order) where
  -- A plan that was made puts its variables, then makes the rest.
  pub new_selectors-placed :
      (key : List ℕ) (duration rate : ℕ) (when : HssReturnWhen) (selectors : List HssSelectorPlan)
      (rules : List (Rule fl order)) (firmware : Option FirmwareIdentityPlan)
      {plan : HssStartPlan fl order}
      → new_selectors fl order encoding key duration rate when selectors rules firmware ≡ ok plan
      → (placed : List HssVariablePlan × List ℕ) × (place firmware 0 0 selectors ≡ ok placed)
        × (finish_plan fl order encoding key duration rate when (placed.0) (placed.1) rules firmware
            ≡ ok plan)
  unfolding new_selectors
  new_selectors-placed key duration rate when selectors rules firmware h =
      let (_, _, h₁) = bind-eq-ok _ (ensure (not (is_blank key)) value_error) h in
      let (_, _, h₂) =
        bind-eq-ok _ (ensure (in_range min_duration_s max_duration_s duration) value_error) h₁ in
      let (_, _, h₃) =
        bind-eq-ok _ (ensure (in_range min_rate_hz max_rate_hz rate) value_error) h₂ in
      let (_, _, h₄) =
        bind-eq-ok _ (ensure (in_range 1 max_top_level_selectors (length selectors)) value_error)
          h₃ in
      let (_, _, h₅) = bind-eq-ok _ (check_firmware firmware) h₄ in
      let (_, _, h₆) = bind-eq-ok _ (require_strong (any is_dwarf selectors) firmware) h₅ in
      bind-eq-ok _ (place firmware 0 0 selectors) h₆

  -- What the end of new_selectors says of the variables.
  record IsFinished (variables : List HssVariablePlan) (counts : List ℕ)
      (plan : HssStartPlan fl order) : Type 0 where
    laid_out : new_layout counts ≡ ok plan.frame_layout
    kept : plan.variables ≡ variables
    current : plan.format_version ≡ plan_format_version

  finish_plan-IsFinished :
      (key : List ℕ) (duration rate : ℕ) (when : HssReturnWhen) (variables : List HssVariablePlan)
      (counts : List ℕ) (rules : List (Rule fl order)) (firmware : Option FirmwareIdentityPlan)
      {plan : HssStartPlan fl order}
      → finish_plan fl order encoding key duration rate when variables counts rules firmware
        ≡ ok plan
      → IsFinished variables counts plan
  unfolding finish_plan
  finish_plan-IsFinished key duration rate when variables counts rules firmware {plan} h =
      let (layout, laid, h₁) = bind-eq-ok _ (new_layout counts) h in
      let (_, _, h₂) =
        bind-eq-ok _ (ensure (is_empty rules || not (any is_raw_variable variables)) unsupported)
          h₁ in
      let (normal, _, h₃) = bind-eq-ok _ (normalize_hss_rules fl order rules) h₂ in
      let input : FingerprintInput fl order = record {
        duration_s = duration;
        rate_hz = rate;
        return_when = when;
        variables = variables;
        rules = normal;
        firmware = firmware;
      } in
      let (print, _, h₄) = bind-eq-ok _ (fingerprint fl order encoding input) h₃ in
      subst (IsFinished variables counts) (ok-injective h₄)
        (record { laid_out = laid; kept = refl; current = refl })

  pub new_selectors-version :
      (key : List ℕ) (duration rate : ℕ) (when : HssReturnWhen) (selectors : List HssSelectorPlan)
      (rules : List (Rule fl order)) (firmware : Option FirmwareIdentityPlan)
      (plan : HssStartPlan fl order)
      → new_selectors fl order encoding key duration rate when selectors rules firmware ≡ ok plan
      → plan.format_version ≡ plan_format_version
  new_selectors-version key duration rate when selectors rules firmware plan h =
      let ((variables, counts), _, finished) =
        new_selectors-placed key duration rate when selectors rules firmware h in
      (finish_plan-IsFinished key duration rate when variables counts rules firmware
        finished).current

  -- The records of a plan that is made of selectors are a timestamp of 4 bytes and a sample of at most
  -- 40 bytes, in which the variables stand one behind the other without a gap, each with a byte at
  -- least and inside the 32-bit address space.
  pub new_selectors-IsPacked :
      (key : List ℕ) (duration rate : ℕ) (when : HssReturnWhen) (selectors : List HssSelectorPlan)
      (rules : List (Rule fl order)) (firmware : Option FirmwareIdentityPlan)
      (plan : HssStartPlan fl order)
      → new_selectors fl order encoding key duration rate when selectors rules firmware ≡ ok plan
      → IsPacked 0 plan.variables plan.frame_layout.sample_bytes
        × (plan.frame_layout.sample_bytes ≤ 40)
        × (plan.frame_layout.record_bytes ≡ 4 + plan.frame_layout.sample_bytes)
  new_selectors-IsPacked key duration rate when selectors rules firmware plan h =
      let ((variables, counts), placed, finished) =
        new_selectors-placed key duration rate when selectors rules firmware h in
      let done =
        finish_plan-IsFinished key duration rate when variables counts rules firmware finished in
      let (layout, size, filled) = new_layout-IsLayout counts plan.frame_layout done.laid_out in
      let (packed, small) = place-IsPacked firmware 0 0 selectors placed (omega arith) filled in
      let end : 0 + sum counts ≡ plan.frame_layout.sample_bytes = omega arith in
      (
        subst (λ vs. IsPacked 0 vs plan.frame_layout.sample_bytes) (sym done.kept)
            (subst (IsPacked 0 variables) end packed),
        omega arith,
        layout.whole,
      )
