-- ===== src/Worker/Control.antt =====
-- crates/jlink-worker/src/control.rs: execute_control.
pub mod Outcome
use jlink_mcp_v.Base.{Bool, true, false, not, if◌then◌else◌}
use jlink_mcp_v.Domain.Error.{
  ErrorCode, JlinkError, new, with_detail, text, Result, ok, err, invalid_state_transition,
  target_recovery_failed,
}
use jlink_mcp_v.Domain.State.{TargetState, running, halted, hard_fault, unknown}
use jlink_mcp_v.Domain.Core.{
  ControlRequest, halt_core, resume, reset, step, ControlAfter, run, halt,
}
use jlink_mcp_v.Domain.Session.{TargetConnectionSpec, connection_lost}
use jlink_mcp_v.Worker.Gateway.{Gateway}
use jlink_mcp_v.Worker.Manager.{
  TargetSessionManager, ensure_control_allowed, record_control_state, record_execution_uncertain,
}
use jlink_mcp_v.Domain.Program.Facts.{state_name}
use jlink_mcp_v.Worker.Connect.{Session, attempt}

unfoldable pub expected_state : ControlRequest → TargetState
expected_state halt_core = halted
expected_state (reset halt) = halted
expected_state step = halted
expected_state resume = running
expected_state (reset run) = running

abbrev pub state_eq : TargetState → TargetState → Bool
state_eq running running = true
state_eq halted halted = true
state_eq hard_fault hard_fault = true
state_eq unknown unknown = true
state_eq _ _ = false

abbrev pub is_invalid_transition : ErrorCode → Bool
is_invalid_transition invalid_state_transition = true
is_invalid_transition _ = false

unfoldable pub not_settled : TargetState → TargetState → JlinkError
not_settled expected actual =
    with_detail
      (with_detail (new target_recovery_failed true) "expected" (text (state_name expected)))
      "actual" (text (state_name actual))

module _ {G : Type 0} (gw : Gateway G) where
  unfoldable pub perform : ControlRequest → G → G × Result TargetState
  perform halt_core g = gw.halt_and_observe g
  perform resume g = gw.resume_and_observe g
  perform (reset run) g = gw.reset_run_and_observe g
  perform (reset halt) g = gw.reset_halt_and_observe g
  perform step g = gw.step_and_observe g

  -- `record_execution_uncertain(..)?` and then the error.
  unfoldable pub uncertain : TargetSessionManager → G → JlinkError → Session G × Result (Unit {0})
  uncertain m g error =
      let (m', recorded) = record_execution_uncertain connection_lost m in
      attempt recorded (m', g) (λ t. ((m', g), err error))

  unfoldable pub performed :
      TargetState → TargetSessionManager → G × Result TargetState → Session G × Result (Unit {0})
  unfolding uncertain not_settled
  performed expected m (g, err e) =
      if is_invalid_transition e.code then ((m, g), err e) else uncertain m (gw.close_target g) e
  performed expected m (g, ok actual) =
      let m' = record_control_state actual m in
      if not (state_eq actual expected)
      then ((m', g), err (not_settled expected actual))
      else ((m', g), ok tt)

  unfoldable pub execute_control :
      TargetConnectionSpec → ControlRequest → Session G → Session G × Result (Unit {0})
  unfolding performed perform
  execute_control target request (m, g) =
      attempt (ensure_control_allowed m target) (m, g)
        λ allowed. performed (expected_state request) m (perform request g)
