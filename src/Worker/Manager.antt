-- ===== src/Worker/Manager.antt =====
-- session.rs: the state of TargetSessionManager, its guards, and what it records.
mod Status
use jlink_mcp_v.Base.{
  ℕ, Bool, true, false, not, ◌&&◌, ◌||◌, Option, none, some, List, [], if◌then◌else◌, filter, find,
  all, eq, nat_equal, list_equal, option_equal, is_some_and, ◌==◌,
}
use jlink_mcp_v.Domain.Error.{
  new, Result, ok, err, ◌>>◌, ensure, operation_conflict, invalid_state_transition, config_invalid,
}
use jlink_mcp_v.Domain.State.{
  ConnectionState, disconnected, connected, TargetState, running, unknown, transition_session,
  worker_lost,
}
use jlink_mcp_v.Domain.Identity.{FirmwareIdentityPlan, plan_equal}
use jlink_mcp_v.Domain.Session.{
  TargetConnectionSpec, spec_equal, ValidationInvalidation, flash_modified, ValidationAfter,
  ValidationCheck, ValidationCheckKind, background_access, hss_capability, target_identity,
  ValidationReport, RecoveryNotification,
}

pub data ValidationMode : Type 0 where
  observe : ValidationMode
  temporary : ValidationAfter → ValidationMode

unfoldable pub validation_mode : ConnectionState → Option ValidationAfter → Result ValidationMode
validation_mode connected none = ok observe
validation_mode connected (some after) = err (new operation_conflict false)
validation_mode disconnected (some after) = ok (temporary after)
validation_mode disconnected none = err (new config_invalid false)
validation_mode _ _ = err (new operation_conflict true)

pub record FirmwareIdentityCacheKey : Type 0 where
  pub generation : ℕ
  pub target : TargetConnectionSpec
  pub firmware : FirmwareIdentityPlan
  pub dll : List ℕ

pub record TargetSessionManager : Type 0 where
  pub connection_state : ConnectionState
  pub target_state : TargetState
  pub target_id : Option ℕ
  pub hss_active : Bool
  pub active_target : Option TargetConnectionSpec
  pub validation_key : Option TargetConnectionSpec
  pub validation_checks : List ValidationCheck
  pub running_background_access : Option ValidationCheck
  pub firmware_identity : Option FirmwareIdentityCacheKey
  pub connection_generation : ℕ
  pub dll_sha256 : List ℕ
  pub validation_runs : ℕ
  pub recovery_notifications : List RecoveryNotification
  pub last_invalidation : Option ValidationInvalidation

unfoldable pub new_manager : List ℕ → TargetSessionManager
new_manager dll_sha256 = record {
  connection_state = disconnected;
  target_state = unknown;
  target_id = none;
  hss_active = false;
  active_target = none;
  validation_key = none;
  validation_checks = [];
  running_background_access = none;
  firmware_identity = none;
  connection_generation = 0;
  dll_sha256 = dll_sha256;
  validation_runs = 0;
  recovery_notifications = [];
  last_invalidation = none;
}

-- The derived `PartialEq`s.
abbrev pub is_connected : ConnectionState → Bool
is_connected connected = true
is_connected _ = false

abbrev pub is_running : TargetState → Bool
is_running running = true
is_running _ = false

abbrev pub is_unknown : TargetState → Bool
is_unknown unknown = true
is_unknown _ = false

abbrev pub is_active : TargetSessionManager → TargetConnectionSpec → Bool
is_active m spec = eq m.active_target (some spec)

unfoldable pub ensure_program_allowed :
    TargetSessionManager → TargetConnectionSpec → Result (Unit {0})
ensure_program_allowed m spec = do
  ensure (not m.hss_active) (new operation_conflict true)
  ensure (is_connected m.connection_state) (new invalid_state_transition true)
  ensure (is_active m spec) (new operation_conflict true)

unfoldable pub ensure_control_allowed :
    TargetSessionManager → TargetConnectionSpec → Result (Unit {0})
ensure_control_allowed m spec = do
  ensure (not m.hss_active) (new operation_conflict true)
  ensure (is_connected m.connection_state) (new invalid_state_transition true)
  ensure (is_active m spec) (new operation_conflict true)

unfoldable pub ensure_hss_start_allowed :
    TargetSessionManager → TargetConnectionSpec → Result (Unit {0})
ensure_hss_start_allowed m spec = do
  ensure (not m.hss_active) (new operation_conflict true)
  ensure (is_connected m.connection_state) (new invalid_state_transition true)
  ensure (is_active m spec) (new operation_conflict true)
  ensure (is_running m.target_state) (new invalid_state_transition true)

abbrev pub record_hss_started : TargetSessionManager → TargetSessionManager
record_hss_started m = record m { hss_active = true }

abbrev pub record_hss_completed : TargetSessionManager → TargetSessionManager
record_hss_completed m = record m { hss_active = false }

abbrev pub record_control_state : TargetState → TargetSessionManager → TargetSessionManager
record_control_state state m = record m { target_state = state }

abbrev pub record_program_state : TargetState → TargetSessionManager → TargetSessionManager
record_program_state state m = record m { target_state = state }

unfoldable pub firmware_identity_cached :
    TargetSessionManager → TargetConnectionSpec → FirmwareIdentityPlan → Bool
firmware_identity_cached m target firmware = is_some_and m.firmware_identity (λ key.
    key.generation == m.connection_generation
    && eq key.target target
    && eq key.firmware firmware
    && eq key.dll m.dll_sha256)

unfoldable pub ensure_firmware_identity_read_allowed : TargetSessionManager → Result (Unit {0})
ensure_firmware_identity_read_allowed m = ensure (not m.hss_active) (new operation_conflict true)

unfoldable pub record_firmware_identity :
    TargetConnectionSpec → FirmwareIdentityPlan → TargetSessionManager → TargetSessionManager
record_firmware_identity target firmware m = record m {
  firmware_identity = some record {
    generation = m.connection_generation;
    target = target;
    firmware = firmware;
    dll = m.dll_sha256;
  };
}

unfoldable pub record_flash_modified : TargetSessionManager → TargetSessionManager
record_flash_modified m = record m {
  firmware_identity = none;
  running_background_access = none;
  last_invalidation = some flash_modified;
}

unfoldable pub invalidate_validation :
    ValidationInvalidation → TargetSessionManager → TargetSessionManager
invalidate_validation reason m = record m {
  validation_key = none;
  validation_checks = [];
  running_background_access = none;
  firmware_identity = none;
  last_invalidation = some reason;
}

-- The connection is gone, and everything that was known through it.
abbrev pub forget : ConnectionState → TargetSessionManager → TargetSessionManager
forget state m = record m {
  connection_state = state;
  target_state = unknown;
  target_id = none;
  active_target = none;
  recovery_notifications = [];
}

unfoldable pub record_execution_uncertain :
    ValidationInvalidation → TargetSessionManager → TargetSessionManager × Result (Unit {0})
unfolding invalidate_validation
record_execution_uncertain reason m = elim (transition_session m.connection_state worker_lost) [
  | err e ↦ (m, err e)
  | ok state ↦ (invalidate_validation reason (forget state m), ok tt)
]

abbrev pub is_background_access : ValidationCheckKind → Bool
is_background_access background_access = true
is_background_access _ = false

abbrev pub is_hss_capability : ValidationCheckKind → Bool
is_hss_capability hss_capability = true
is_hss_capability _ = false

abbrev pub is_target_identity : ValidationCheckKind → Bool
is_target_identity target_identity = true
is_target_identity _ = false

unfoldable pub record_validation_evidence :
    TargetConnectionSpec → ValidationReport → TargetSessionManager → TargetSessionManager
record_validation_evidence spec report m = record m {
  validation_key = some spec;
  validation_checks = filter (λ c. not (is_background_access c.kind)) report.checks;
  running_background_access =
      if is_running report.target_state
      then find (λ c. is_background_access c.kind && c.passed) report.checks
      else m.running_background_access;
}

unfoldable pub ordinary_debug_validation_passed : ValidationReport → Bool
ordinary_debug_validation_passed report =
    all (λ c. is_hss_capability c.kind || c.passed) report.checks
