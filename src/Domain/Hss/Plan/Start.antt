-- ===== src/Domain/Hss/Plan/Start.antt =====
-- hss.rs: HssStartPlan, the request that starts a capture, and HssCapabilities.
use jlink_mcp_v.Base.{
  ℕ, ◌+◌, Bool, true, false, not, ◌&&◌, ◌||◌, List, [], ◌∷◌, ◌++◌, Option, none, some,
  if◌then◌else◌, ltb, leb, map, any, length, eq, nat_equal, list_equal, checked_add_u32, u32_mod,
}
use jlink_mcp_v.Base.Text.{is_blank}
use jlink_mcp_v.Domain.Error.{
  JlinkError, with_detail, num, texts, Result, ok, err, ◌>>=◌, ◌>>◌, ensure, ok_or,
}
use jlink_mcp_v.Domain.Dwarf.{AccessPlan}
use jlink_mcp_v.Domain.Identity.{FirmwareIdentityPlan, validate_plan, ensure_strong}
use jlink_mcp_v.Domain.Selector.Execution.{validate_for_execution}
use jlink_mcp_v.Domain.TypedValue.Scalar.{Floats}
use jlink_mcp_v.Domain.Hss.Frame.{HssFrameLayout, new_layout}
use jlink_mcp_v.Domain.Hss.Rule.{Rule, normalize_hss_rules}
use jlink_mcp_v.Domain.Hss.Rule.Numbers.{FloatOrder}
use jlink_mcp_v.Domain.Hss.Plan.{
  max_expanded_sample_bytes, value_error, unsupported, HssSelectorPlan, dwarf, raw, dwarf_evidence,
  raw_address, HssVariablePlan, validate_selector, HssEvidenceKind, of_dwarf, of_raw_address,
}
use jlink_mcp_v.Domain.Hss.Plan.Variables.{evidence_kind}

-- HSS_PLAN_FORMAT_VERSION, HSS_MIN_DURATION_S, HSS_MAX_DURATION_S, HSS_MIN_RATE_HZ, HSS_MAX_RATE_HZ and
-- HSS_MAX_TOP_LEVEL_SELECTORS
abbrev pub plan_format_version : ℕ
plan_format_version = 2

abbrev pub min_duration_s : ℕ
min_duration_s = 1

abbrev pub max_duration_s : ℕ
max_duration_s = 300

abbrev pub min_rate_hz : ℕ
min_rate_hz = 1

abbrev pub max_rate_hz : ℕ
max_rate_hz = 1000

abbrev pub max_top_level_selectors : ℕ
max_top_level_selectors = 10

pub data HssReturnWhen : Type 0 where
  on_started on_completed : HssReturnWhen

abbrev pub in_range : ℕ → ℕ → ℕ → Bool
in_range low high n = leb low n && leb n high

abbrev pub is_dwarf : HssSelectorPlan → Bool
is_dwarf (dwarf plan) = true
is_dwarf (raw selector) = false

abbrev is_raw_kind : HssEvidenceKind → Bool
is_raw_kind of_dwarf = false
is_raw_kind of_raw_address = true

unfoldable pub is_raw_variable : HssVariablePlan → Bool
unfolding evidence_kind
is_raw_variable v = is_raw_kind (evidence_kind v)

unfoldable pub check_firmware : Option FirmwareIdentityPlan → Result (Unit {0})
unfolding validate_plan
check_firmware none = ok tt
check_firmware (some firmware) = validate_plan firmware

unfoldable pub require_strong : Bool → Option FirmwareIdentityPlan → Result (Unit {0})
unfolding ensure_strong
require_strong false firmware = ok tt
require_strong true firmware = do plan ← ok_or firmware value_error; _ ← ensure_strong plan; ok tt

-- A selector as a variable at an offset, with its address and its size.
abbrev pub Block : Type 0
Block = HssVariablePlan × ℕ × ℕ

abbrev pub at_index : JlinkError → ℕ → JlinkError
at_index e index = with_detail e "selector_index" (num index)

unfoldable pub block_of : Option FirmwareIdentityPlan → ℕ → ℕ → HssSelectorPlan → Result Block
unfolding validate_for_execution validate_selector
block_of firmware index offset (dwarf plan) = do
  identity ← ok_or firmware value_error
  ensure (eq plan.elf_sha256 identity.elf_sha256) (at_index value_error index)
  validate_for_execution plan
  ok (
    record { plan = some plan; evidence = dwarf_evidence; sample_offset = offset },
    plan.address,
    plan.plan_byte_size,
  )
block_of firmware index offset (raw selector) = do
  validate_selector selector
  ok (
    record { plan = none; evidence = raw_address selector; sample_offset = offset },
    selector.address,
    selector.length,
  )

abbrev pub try_u32 : ℕ → ℕ → Result ℕ
try_u32 n index = if ltb n u32_mod then ok n else err (at_index unsupported index)

abbrev pub expanded_error : ℕ → ℕ → JlinkError
expanded_error index next_offset =
    with_detail
      (with_detail
        (with_detail (at_index unsupported index) "expanded_sample_bytes" (num next_offset))
        "maximum_sample_bytes" (num max_expanded_sample_bytes))
      "reduction_suggestions"
      (texts (
        "select fewer top-level fields" ∷ "slice arrays before capture"
        ∷ "split selectors across separate captures" ∷ []))

-- The loop over the selectors, with the offset of the next one: the variables and their byte counts.
unfoldable pub place :
    Option FirmwareIdentityPlan
    → ℕ
    → ℕ
    → List HssSelectorPlan
    → Result (List HssVariablePlan × List ℕ)
unfolding block_of
place firmware index offset [] = ok ([], [])
place firmware index offset (selector ∷ selectors) = do
  (variable, address_value, byte_size) ← block_of firmware index offset selector
  byte_count ← try_u32 byte_size index
  address ← try_u32 address_value index
  _ ← ok_or (checked_add_u32 address byte_count) (at_index unsupported index)
  next_offset ← ok_or (checked_add_u32 offset byte_count) (at_index unsupported index)
  ensure (leb next_offset max_expanded_sample_bytes) (expanded_error index next_offset)
  (variables, byte_counts) ← place firmware (index + 1) next_offset selectors
  ok (variable ∷ variables, byte_count ∷ byte_counts)

abbrev pub is_empty {ℓ} : {A : Type ℓ} → List A → Bool
is_empty [] = true
is_empty (x ∷ xs) = false

unfoldable pub resolve : HssVariablePlan → Result HssSelectorPlan
resolve v = elim (v.evidence) [
  | dwarf_evidence ↦ ok_or v.plan value_error >>= λ plan. ok (dwarf plan)
  | raw_address selector ↦ ok (raw selector)
]

unfoldable pub resolved_selectors : List HssVariablePlan → Result (List HssSelectorPlan)
unfolding resolve
resolved_selectors [] = ok []
resolved_selectors (v ∷ variables) = do
  selector ← resolve v
  selectors ← resolved_selectors variables
  ok (selector ∷ selectors)

module _ (fl : Floats) (order : FloatOrder fl) where
  pub record FingerprintInput : Type 0 where
    pub duration_s : ℕ
    pub rate_hz : ℕ
    pub return_when : HssReturnWhen
    pub variables : List HssVariablePlan
    pub rules : List (Rule fl order)
    pub firmware : Option FirmwareIdentityPlan

  pub record LegacyFingerprintInput : Type 0 where
    pub duration_s : ℕ
    pub rate_hz : ℕ
    pub return_when : HssReturnWhen
    pub variables : List (AccessPlan × ℕ)
    pub rules : List (Rule fl order)
    pub firmware : FirmwareIdentityPlan

  -- The bytes that serde_json writes of these, and the digest of the `sha2` crate in hexadecimal.
  pub record HssEncoding : Type 0 where
    pub input_json : FingerprintInput → Option (List ℕ)
    pub legacy_json : LegacyFingerprintInput → Option (List ℕ)
    pub sha256 : List ℕ → List ℕ

  pub record HssStartPlan : Type 0 where
    pub format_version : ℕ
    pub capture_key : List ℕ
    pub duration_s : ℕ
    pub rate_hz : ℕ
    pub return_when : HssReturnWhen
    pub variables : List HssVariablePlan
    pub rules : List (Rule fl order)
    pub firmware : Option FirmwareIdentityPlan
    pub frame_layout : HssFrameLayout
    pub request_fingerprint : List ℕ

  module _ (encoding : HssEncoding) where
    unfoldable pub fingerprint : FingerprintInput → Result (List ℕ)
    fingerprint input = do
      text ← ok_or (encoding.input_json input) value_error
      ok (encoding.sha256 text)

    -- From the variables on.
    unfoldable pub finish_plan :
        List ℕ
        → ℕ
        → ℕ
        → HssReturnWhen
        → List HssVariablePlan
        → List ℕ
        → List (Rule fl order)
        → Option FirmwareIdentityPlan
        → Result HssStartPlan
    unfolding new_layout normalize_hss_rules fingerprint is_raw_variable
    finish_plan capture_key duration_s rate_hz return_when variables byte_counts rules firmware = do
      frame_layout ← new_layout byte_counts
      ensure (is_empty rules || not (any is_raw_variable variables)) unsupported
      normal ← normalize_hss_rules fl order rules
      request_fingerprint ← fingerprint (record {
        duration_s = duration_s;
        rate_hz = rate_hz;
        return_when = return_when;
        variables = variables;
        rules = normal;
        firmware = firmware;
      })
      ok (record {
        format_version = plan_format_version;
        capture_key = capture_key;
        duration_s = duration_s;
        rate_hz = rate_hz;
        return_when = return_when;
        variables = variables;
        rules = normal;
        firmware = firmware;
        frame_layout = frame_layout;
        request_fingerprint = request_fingerprint;
      })

    unfoldable pub new_selectors :
        List ℕ
        → ℕ
        → ℕ
        → HssReturnWhen
        → List HssSelectorPlan
        → List (Rule fl order)
        → Option FirmwareIdentityPlan
        → Result HssStartPlan
    unfolding check_firmware require_strong place finish_plan
    new_selectors capture_key duration_s rate_hz return_when selectors rules firmware = do
      ensure (not (is_blank capture_key)) value_error
      ensure (in_range min_duration_s max_duration_s duration_s) value_error
      ensure (in_range min_rate_hz max_rate_hz rate_hz) value_error
      ensure (in_range 1 max_top_level_selectors (length selectors)) value_error
      check_firmware firmware
      require_strong (any is_dwarf selectors) firmware
      (variables, byte_counts) ← place firmware 0 0 selectors
      finish_plan capture_key duration_s rate_hz return_when variables byte_counts rules firmware

    -- HssStartPlan::new
    unfoldable pub new_plan :
        List ℕ
        → ℕ
        → ℕ
        → HssReturnWhen
        → List AccessPlan
        → List (Rule fl order)
        → FirmwareIdentityPlan
        → Result HssStartPlan
    unfolding new_selectors
    new_plan capture_key duration_s rate_hz return_when plans rules firmware =
        new_selectors capture_key duration_s rate_hz return_when (map (λ plan. dwarf plan) plans)
          rules (some firmware)

    -- What HssStartPlan::validate compares with the plan.
    unfoldable pub rebuild : HssStartPlan → Result HssStartPlan
    unfolding resolved_selectors new_selectors
    rebuild plan = do
      selectors ← resolved_selectors plan.variables
      new_selectors plan.capture_key plan.duration_s plan.rate_hz plan.return_when selectors
          plan.rules plan.firmware

    -- `{key}-rate-measurement`
    abbrev measurement_suffix : List ℕ
    measurement_suffix =
        b'-' ∷ b'r' ∷ b'a' ∷ b't' ∷ b'e' ∷ b'-' ∷ b'm' ∷ b'e' ∷ b'a' ∷ b's' ∷ b'u' ∷ b'r' ∷ b'e'
        ∷ b'm' ∷ b'e' ∷ b'n' ∷ b't' ∷ []

    unfoldable pub with_rate_for_measurement : HssStartPlan → ℕ → Result HssStartPlan
    unfolding resolved_selectors new_selectors
    with_rate_for_measurement plan rate_hz = do
      selectors ← resolved_selectors plan.variables
      new_selectors (plan.capture_key ++ measurement_suffix) min_duration_s rate_hz on_started
          selectors [] plan.firmware
