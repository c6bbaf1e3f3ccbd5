-- ===== src/Domain/Hss/Plan/Check.antt =====
-- hss.rs: HssStartPlan::validate, also of plans of V1.0, and HssCapabilities.
use jlink_mcp_v.Base.{
  ℕ, ◌+◌, ◌≡◌, ◌∙◌, ap, Bool, true, false, not, ◌&&◌, ◌||◌, List, [], ◌∷◌, Option, none, some,
  if◌then◌else◌, ltb, leb, ◌==◌, length, eq, nat_equal, list_equal, checked_add_u32, u32_mod, all,
}
use jlink_mcp_v.Base.Text.{is_blank}
use jlink_mcp_v.Domain.Error.{
  JlinkError, with_detail, num, nums, Result, ok, ◌>>=◌, ◌>>◌, ensure, ok_or, bind-ok, ensure-true,
}
use jlink_mcp_v.Domain.Dwarf.{AccessPlan}
use jlink_mcp_v.Domain.Identity.{FirmwareIdentityPlan, validate_plan}
use jlink_mcp_v.Domain.Selector.Execution.{validate_for_execution}
use jlink_mcp_v.Domain.TypedValue.Scalar.{Floats}
use jlink_mcp_v.Domain.Hss.Frame.{new_layout}
use jlink_mcp_v.Domain.Hss.Rule.{Rule, normalize_hss_rules}
use jlink_mcp_v.Domain.Hss.Rule.Numbers.{FloatOrder}
use jlink_mcp_v.Domain.Hss.Quality.{source_timestamp_frequency_hz, source_timestamp_resolution_us}
use jlink_mcp_v.Domain.Hss.Plan.{
  max_expanded_sample_bytes, value_error, unsupported, HssSelectorPlan, HssVariablePlan,
}
use jlink_mcp_v.Domain.Hss.Plan.Start.{
  min_duration_s, max_duration_s, min_rate_hz, max_rate_hz, max_top_level_selectors, in_range,
  at_index, is_raw_variable, HssReturnWhen, HssEncoding, HssStartPlan, new_selectors, rebuild,
}
use jlink_mcp_v.Domain.Hss.Plan.Equality.{frame_equal, rules_eq, start_plan_eq, start_plan_eq_refl}
use jlink_mcp_v.Domain.Hss.Plan.Rebuilt.{rebuild-new_selectors}
use jlink_mcp_v.Domain.Hss.Plan.Placed.{new_selectors-version}

abbrev below_limit : Option ℕ → Option ℕ
below_limit none = none
below_limit (some n) = if leb n max_expanded_sample_bytes then some n else none

-- The loop of validate_legacy_persisted: the byte counts.
legacy_counts : FirmwareIdentityPlan → ℕ → ℕ → List HssVariablePlan → Result (List ℕ)
unfolding is_raw_variable validate_for_execution
legacy_counts firmware index offset [] = ok []
legacy_counts firmware index offset (v ∷ variables) = do
  ensure (not (is_raw_variable v)) value_error
  plan ← ok_or v.plan value_error
  validate_for_execution plan
  ensure (eq plan.elf_sha256 firmware.elf_sha256) (at_index value_error index)
  ensure (v.sample_offset == offset) (at_index value_error index)
  byte_count ←
      ok_or (if ltb plan.plan_byte_size u32_mod then some plan.plan_byte_size else none) unsupported
  next_offset ← ok_or (below_limit (checked_add_u32 offset byte_count)) unsupported
  counts ← legacy_counts firmware (index + 1) next_offset variables
  ok (byte_count ∷ counts)

-- The variables of LegacyFingerprintInput.
legacy_variables : List HssVariablePlan → Result (List (AccessPlan × ℕ))
legacy_variables [] = ok []
legacy_variables (v ∷ variables) = do
  plan ← ok_or v.plan value_error
  others ← legacy_variables variables
  ok ((plan, v.sample_offset) ∷ others)

module _ (fl : Floats) (order : FloatOrder fl) (encoding : HssEncoding fl order) where
  abbrev Plan : Type 0
  Plan = HssStartPlan fl order

  legacy_fingerprint : Plan → FirmwareIdentityPlan → Result (List ℕ)
  unfolding legacy_variables
  legacy_fingerprint plan firmware = do
    variables ← legacy_variables plan.variables
    text ←
        ok_or
          (encoding.legacy_json (record {
            duration_s = plan.duration_s;
            rate_hz = plan.rate_hz;
            return_when = plan.return_when;
            variables = variables;
            rules = plan.rules;
            firmware = firmware;
          }))
          value_error
    ok (encoding.sha256 text)

  unfoldable pub validate_legacy_persisted : Plan → Result (Unit {0})
  unfolding legacy_counts legacy_fingerprint new_layout normalize_hss_rules validate_plan rules_eq
  validate_legacy_persisted plan = do
    ensure
        (not (is_blank plan.capture_key)
          && (in_range min_duration_s max_duration_s plan.duration_s
              && (in_range min_rate_hz max_rate_hz plan.rate_hz
                  && in_range 1 max_top_level_selectors (length plan.variables))))
        value_error
    firmware ← ok_or plan.firmware value_error
    validate_plan firmware
    counts ← legacy_counts firmware 0 0 plan.variables
    layout ← new_layout counts
    ensure (eq layout plan.frame_layout) value_error
    normal ← normalize_hss_rules fl order plan.rules
    ensure (rules_eq fl order normal plan.rules) value_error
    print ← legacy_fingerprint plan firmware
    ensure (eq print plan.request_fingerprint) value_error

  -- HssStartPlan::validate
  unfoldable pub validate_start_plan : Plan → Result (Unit {0})
  unfolding validate_legacy_persisted rebuild start_plan_eq
  validate_start_plan plan =
      let legacy = validate_legacy_persisted plan in
      if plan.format_version == 0 then legacy else (do
        rebuilt ← rebuild fl order encoding plan
        ensure (start_plan_eq fl order rebuilt plan) value_error)

  -- A plan that is made of selectors is accepted when it is checked again, whatever the fingerprints
  -- are, if its rules are equal to themselves.
  pub validate_start_plan-new_selectors :
      (key : List ℕ) (duration rate : ℕ) (return_when : HssReturnWhen)
      (selectors : List HssSelectorPlan) (rules : List (Rule fl order))
      (firmware : Option FirmwareIdentityPlan) (plan : Plan)
      → new_selectors fl order encoding key duration rate return_when selectors rules firmware
        ≡ ok plan
      → rules_eq fl order plan.rules plan.rules ≡ true
      → validate_start_plan plan ≡ ok (record {})
  unfolding validate_start_plan
  validate_start_plan-new_selectors key duration rate return_when selectors rules firmware plan h
        same =
      let rebuilt =
        rebuild-new_selectors fl order encoding key duration rate return_when selectors rules
          firmware plan h in
      let current : plan.format_version ≡ 2 =
        new_selectors-version fl order encoding key duration rate return_when selectors rules
          firmware plan h in
      let recent : (plan.format_version == 0) ≡ false = ap (λ v. v == 0) current in
      rw recent
        (bind-ok _ rebuilt ∙ ensure-true _ value_error (start_plan_eq_refl fl order plan same))

pub record HssCapabilities : Type 0 where
  pub max_blocks : ℕ
  pub max_frequency_hz : ℕ
  pub timestamp_frequency_hz : ℕ
  pub timestamp_resolution_us : ℕ
  pub timestamp_monotonic : Bool

-- HSS_CAPS_TIMESTAMP_FLAG
abbrev pub caps_timestamp_flag : ℕ
caps_timestamp_flag = 2

unfoldable pub frozen_698a : ℕ → ℕ → ℕ → List ℕ → Result HssCapabilities
frozen_698a max_blocks max_frequency_hz flags reserved = do
  ensure (not (max_blocks == 0 || max_frequency_hz == 0)) unsupported
  ensure (flags == caps_timestamp_flag && all (λ word. word == 0) reserved)
      (with_detail (with_detail unsupported "flags" (num flags)) "reserved" (nums reserved))
  ok (record {
    max_blocks = max_blocks;
    max_frequency_hz = max_frequency_hz;
    timestamp_frequency_hz = source_timestamp_frequency_hz;
    timestamp_resolution_us = source_timestamp_resolution_us;
    timestamp_monotonic = true;
  })

abbrev limit_error : ℕ → ℕ → JlinkError
limit_error requested most =
    with_detail (with_detail unsupported "requested_blocks" (num requested)) "max_blocks" (num most)

abbrev rate_error : ℕ → ℕ → JlinkError
rate_error requested most =
    with_detail (with_detail unsupported "requested_rate_hz" (num requested)) "max_frequency_hz"
      (num most)

unfoldable pub validate_start :
    (fl : Floats) (order : FloatOrder fl)
    → HssEncoding fl order
    → HssCapabilities
    → HssStartPlan fl order
    → Result (Unit {0})
unfolding validate_start_plan
validate_start fl order encoding caps plan = do
  validate_start_plan fl order encoding plan
  ensure (ltb (length plan.variables) u32_mod) unsupported
  ensure (leb (length plan.variables) caps.max_blocks)
      (limit_error (length plan.variables) caps.max_blocks)
  ensure (leb plan.rate_hz caps.max_frequency_hz) (rate_error plan.rate_hz caps.max_frequency_hz)
