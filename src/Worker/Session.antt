-- ===== src/Worker/Session.antt =====
-- crates/jlink-worker: what a session goes through, as the runtime lets its requests call the manager,
-- and what holds after any sequence of them.
pub mod Kept
pub mod Disconnected
pub mod Consistent
pub mod Tests
use jlink_mcp_v.Base.{
  ℕ, Bool, true, false, Option, none, some, List, ◌≡◌, ◌⊎◌, inl, inr, refl, eq, eq→≡, nat_equal,
  option_equal, list_equal, Option-cases, Bool-cases, and-eq-true, ◌&&◌, ◌==◌, if◌then◌else◌,
  is_some_and,
}
use jlink_mcp_v.Domain.Error.{JlinkError, Result, ok, err}
use jlink_mcp_v.Domain.State.{
  ConnectionState, connected, disconnected, faulted, connecting, TargetState, transition_session,
}
use jlink_mcp_v.Domain.Core.{ControlRequest}
use jlink_mcp_v.Domain.Identity.{FirmwareIdentityPlan, FirmwareIdentityStrength, plan_equal}
use jlink_mcp_v.Domain.Session.{
  TargetConnectionSpec, spec_equal, ValidationAfter, ValidationInvalidation, connection_lost,
  ensure_disconnect_allowed,
}
use jlink_mcp_v.Worker.Gateway.{Gateway}
use jlink_mcp_v.Worker.Manager.{
  TargetSessionManager, new_manager, is_connected, is_active, firmware_identity_cached,
  record_firmware_identity, record_flash_modified, record_hss_started, record_hss_completed,
  record_program_state, record_execution_uncertain, ensure_hss_start_allowed, invalidate_validation,
  forget,
}
use jlink_mcp_v.Worker.Connect.{Session, connect, disconnect, attempt, may_request_disconnect}
use jlink_mcp_v.Worker.Connect.Consistent.{
  IsConsistent, IsIdle, IsLive, IsVoid, connect-IsConsistent,
}
use jlink_mcp_v.Worker.Validate.{validate}
use jlink_mcp_v.Worker.Validate.Consistent.{validate-IsConsistent}
use jlink_mcp_v.Worker.Control.{execute_control}
use jlink_mcp_v.Worker.Control.Outcome.{
  execute_control-IsConsistent, record_execution_uncertain-IsFaulted,
}
use jlink_mcp_v.Worker.Debug.{ensure_firmware_identity}
use jlink_mcp_v.Worker.Debug.Proved.{IdentityEnd, ensure_firmware_identity-IdentityEnd}

module _ {G : Type 0} (gw : Gateway G) (digest : List ℕ → List ℕ) where
  -- One request, or one part of a request, that calls the manager. Memory, registers, programming and
  -- captures change the gateway in ways that the manager does not see. A target state is recorded only on
  -- a connection: programming demands one.
  pub data Step : Session G → Session G → Type 0 where
    connects :
        {s : Session G} (identity : List ℕ) (spec : TargetConnectionSpec)
        → Step s ((connect gw identity spec s).0)
    validates :
        {s : Session G} (identity : List ℕ) (spec : TargetConnectionSpec)
        (after : Option ValidationAfter)
        → Step s ((validate gw identity spec after s).0)
    disconnects : {s : Session G} → Step s ((disconnect gw s).0)
    controls :
        {s : Session G} (target : TargetConnectionSpec) (request : ControlRequest)
        → Step s ((execute_control gw target request s).0)
    identifies :
        {m : TargetSessionManager} {g : G} (target : TargetConnectionSpec)
        (firmware : FirmwareIdentityPlan) (require_strong : Bool)
        → is_connected m.connection_state ≡ true
        → is_active m target ≡ true
        → Step (m, g) ((ensure_firmware_identity gw digest target firmware require_strong (m, g)).0)
    programs :
        {m : TargetSessionManager} {g : G} (g' : G) → Step (m, g) (record_flash_modified m, g')
    observes :
        {m : TargetSessionManager} {g : G} (state : TargetState) (g' : G)
        → is_connected m.connection_state ≡ true
        → Step (m, g) (record_program_state state m, g')
    starts :
        {m : TargetSessionManager} {g : G} (spec : TargetConnectionSpec) (g' : G)
        → ensure_hss_start_allowed m spec ≡ ok tt
        → Step (m, g) (record_hss_started m, g')
    stops : {m : TargetSessionManager} {g : G} (g' : G) → Step (m, g) (record_hss_completed m, g')
    loses :
        {m : TargetSessionManager} {g : G} (reason : ValidationInvalidation) (g' : G)
        → Step (m, g) ((record_execution_uncertain reason m).0, g')
    accesses : {m : TargetSessionManager} {g : G} (g' : G) → Step (m, g) (m, g')

  pub data Reachable (dll_sha256 : List ℕ) : Session G → Type 0 where
    begins : {g : G} → Reachable dll_sha256 (new_manager dll_sha256, g)
    goes_on : {s t : Session G} → Reachable dll_sha256 s → Step s t → Reachable dll_sha256 t
