-- ===== src/Domain/Program/Facts.antt =====
-- program.rs: ProgramExecutionFacts, what can be proved of a Flash operation that fails.
use jlink_mcp_v.Base.{ℕ, Bool, true, false, Option, none, some, List, [], ◌∷◌, ◌++◌, map}
use Prim.Native.String.{String}
use jlink_mcp_v.Domain.Error.{
  ErrorCode, Detail, JlinkError, new, with_detail, flag, text, null, ranges, failure,
  execution_uncertain,
}
use jlink_mcp_v.Domain.State.{TargetState, running, halted, hard_fault, unknown}

pub data ProgramStage : Type 0 where
  target_preparation loader_ram_preflight begin_download segment_commit : ProgramStage
  end_download verify_preparation range_verification final_state : ProgramStage

pub data FlashModifiedState : Type 0 where
  unmodified modified unproven : FlashModifiedState

pub record ProgramRangeFact : Type 0 where
  pub address : ℕ
  pub length : ℕ

pub record ProgramExecutionFacts : Type 0 where
  pub last_completed_stage : Option ProgramStage
  pub current_stage : ProgramStage
  pub side_effect_dispatched : Bool
  pub submitted_ranges : List ProgramRangeFact
  pub confirmed_ranges : List ProgramRangeFact
  pub flash_modified : FlashModifiedState
  pub last_trusted_target_state : Option TargetState
  pub raw_error_code : Option ErrorCode
  pub retry_safe : Bool

abbrev pub new_facts : ProgramExecutionFacts
new_facts = record {
  last_completed_stage = none;
  current_stage = target_preparation;
  side_effect_dispatched = false;
  submitted_ranges = [];
  confirmed_ranges = [];
  flash_modified = unmodified;
  last_trusted_target_state = none;
  raw_error_code = none;
  retry_safe = false;
}

abbrev pub advance : ProgramStage → ProgramStage → ProgramExecutionFacts → ProgramExecutionFacts
advance completed next f = record f { last_completed_stage = some completed; current_stage = next }

abbrev pub dispatch_side_effect : ProgramExecutionFacts → ProgramExecutionFacts
dispatch_side_effect f = record f { side_effect_dispatched = true; flash_modified = unproven }

abbrev pub dispatch_non_flash_side_effect : ProgramExecutionFacts → ProgramExecutionFacts
dispatch_non_flash_side_effect f = record f { side_effect_dispatched = true }

abbrev pub submit : ℕ → ℕ → ProgramExecutionFacts → ProgramExecutionFacts
submit address length f = record f {
  submitted_ranges = f.submitted_ranges ++ (record { address = address; length = length } ∷ []);
}

abbrev pub confirm_submitted : ProgramExecutionFacts → ProgramExecutionFacts
confirm_submitted f = record f { confirmed_ranges = f.submitted_ranges; flash_modified = modified }

abbrev stage_name : ProgramStage → String
stage_name target_preparation = "target_preparation"
stage_name loader_ram_preflight = "loader_ram_preflight"
stage_name begin_download = "begin_download"
stage_name segment_commit = "segment_commit"
stage_name end_download = "end_download"
stage_name verify_preparation = "verify_preparation"
stage_name range_verification = "range_verification"
stage_name final_state = "final_state"

abbrev json_flash_modified : FlashModifiedState → Detail
json_flash_modified unmodified = flag false
json_flash_modified modified = flag true
json_flash_modified unproven = text "unknown"

abbrev json_option {ℓ} : {A : Type ℓ} → (A → Detail) → Option A → Detail
json_option f none = null
json_option f (some a) = f a

abbrev json_ranges : List ProgramRangeFact → Detail
json_ranges facts = ranges (map (λ r. (r.address, r.length)) facts)

abbrev pub state_name : TargetState → String
state_name running = "running"
state_name halted = "halted"
state_name hard_fault = "hardfault"
state_name unknown = "unknown"

-- ProgramExecutionFacts::detail_value, its fields in the order of the record.
unfoldable pub detail_value : ProgramExecutionFacts → List (String × Detail)
detail_value f =
    ("last_completed_stage", json_option (λ s. text (stage_name s)) f.last_completed_stage)
    ∷ ("current_stage", text (stage_name f.current_stage))
    ∷ ("side_effect_dispatched", flag f.side_effect_dispatched)
    ∷ ("submitted_ranges", json_ranges f.submitted_ranges)
    ∷ ("confirmed_ranges", json_ranges f.confirmed_ranges)
    ∷ ("flash_modified", json_flash_modified f.flash_modified)
    ∷ (
      "last_trusted_target_state",
      json_option (λ s. text (state_name s)) f.last_trusted_target_state,
    )
    ∷ ("raw_error_code", json_option failure f.raw_error_code)
    ∷ ("retry_safe", flag f.retry_safe)
    ∷ []

abbrev pub attach : List (String × Detail) → JlinkError → JlinkError
attach [] e = e
attach ((key, value) ∷ details) e = attach details (with_detail e key value)

-- The message and the details of the cause are left out.
unfoldable pub uncertain_error : ProgramExecutionFacts → JlinkError → JlinkError
unfolding detail_value
uncertain_error f cause =
    with_detail
      (attach (detail_value (record f { raw_error_code = some cause.code }))
        (new execution_uncertain false))
      "cause_code" (failure cause.code)

unfoldable pub known_error : ProgramExecutionFacts → JlinkError → JlinkError
unfolding detail_value
known_error f cause = attach (detail_value (record f { raw_error_code = some cause.code })) cause
