-- ===== src/Worker/Validate.antt =====
-- session.rs: validate and validate_temporary of TargetSessionManager.
pub mod Consistent
pub mod Outcome
use jlink_mcp_v.Base.{
  ℕ, Bool, true, false, not, ◌&&◌, ◌||◌, Option, none, some, List, [], ◌∷◌, refl, if◌then◌else◌,
  any, eq, nat_equal, list_equal, option_equal, wrapping_add,
}
use jlink_mcp_v.Base.Decimal.{to_decimal}
use jlink_mcp_v.Domain.Error.{
  JlinkError, new, with_detail, text, Result, ok, err, operation_conflict, config_invalid,
  target_connect_failed, target_recovery_failed,
}
use jlink_mcp_v.Domain.State.{
  ConnectionState, disconnected, connecting, connected, faulted, TargetState, running, halted,
  unknown, transition_session, connect_requested, connection_made, connect_failed,
  disconnect_requested,
}
use jlink_mcp_v.Domain.Session.{
  TargetConnectionSpec, spec_equal, validate_spec, ValidationReport, ValidationCheck,
  ValidationAfter, run, halt, connection_lost, RecoveryNotification, ensure_disconnect_allowed,
}
use jlink_mcp_v.Worker.Gateway.{Gateway, TargetObservation}
use jlink_mcp_v.Worker.Manager.{
  TargetSessionManager, ValidationMode, observe, temporary, validation_mode, is_active, is_running,
  is_unknown, is_target_identity, invalidate_validation, record_validation_evidence,
  ordinary_debug_validation_passed, forget,
}
use jlink_mcp_v.Worker.Recovery.{Recovered, recover_target}
use jlink_mcp_v.Worker.Connect.{Session, attempt}

-- `self.validation_runs += 1`
abbrev pub count_run : TargetSessionManager → TargetSessionManager
count_run m = record m { validation_runs = wrapping_add m.validation_runs 1 }

abbrev pub reusable_checks :
    TargetConnectionSpec → TargetSessionManager → Option (List ValidationCheck)
reusable_checks spec m = if eq m.validation_key (some spec) then some m.validation_checks else none

abbrev pub wanted : ValidationAfter → TargetState
wanted run = running
wanted halt = halted

abbrev pub same_state : TargetState → TargetState → Bool
same_state running running = true
same_state halted halted = true
same_state _ _ = false

module _ {G : Type 0} (gw : Gateway G) where
  -- ValidationMode::Observe, after the pass.
  unfoldable pub observed :
      TargetConnectionSpec
      → TargetSessionManager
      → G × ValidationReport
      → Session G × Result ValidationReport
  observed spec m (g, report) =
      let m1 : TargetSessionManager = record m {
        target_state = report.target_state;
        target_id = report.target_id;
      } in
      let lost =
        is_unknown report.target_state
        || any (λ c. is_target_identity c.kind && not c.passed) report.checks in
      let m2 =
        if lost
        then invalidate_validation connection_lost m1
        else record_validation_evidence spec report m1 in
      ((m2, g), ok report)

  unfoldable pub validate_observe :
      TargetConnectionSpec → Session G → Session G × Result ValidationReport
  unfolding observed
  validate_observe spec (m, g) =
      if not (is_active m spec)
      then ((m, g), err (new operation_conflict true))
      else observed spec (count_run m) (
          gw.validation_report (count_run m).validation_runs (reusable_checks spec m)
            m.running_background_access g)

  -- `match after`: the final state.
  abbrev pub settle : ValidationAfter → TargetState → G → G × Result TargetState
  settle run state g = (g, ok state)
  settle halt state g = gw.halt_and_observe g

  abbrev pub settled :
      ValidationAfter
      → List RecoveryNotification
      → ValidationReport
      → G × Result TargetState
      → G × Result ValidationReport
  settled after notifications report (g, err e) = (g, err e)
  settled after notifications report (g, ok final_state) =
      if not (same_state final_state (wanted after))
      then (g, err (new target_recovery_failed false))
      else (
        g,
        ok (record report { target_state = final_state; recovery_notifications = notifications }),
      )

  abbrev pub reported :
      ValidationAfter → Recovered → G × ValidationReport → G × Result ValidationReport
  reported after (state, notifications) (g, report) =
      settled after notifications report (settle after state g)

  -- The closure of validate_temporary.
  unfoldable pub temporary_pass :
      ValidationAfter → ℕ → G × Result Recovered → G × Result ValidationReport
  temporary_pass after runs (g, err e) = (g, err e)
  temporary_pass after runs (g, ok (state, notifications)) =
      if not (is_running state)
      then (g, err (new target_recovery_failed false))
      else reported after (state, notifications) (gw.validation_report runs none none g)

  -- After the pass, whatever it gave, the target is closed.
  unfoldable pub close_pass :
      ℕ
      → ℕ
      → TargetSessionManager
      → G × Result ValidationReport
      → Session G × Result ValidationReport
  close_pass runs id m (g, ok report) = (
    (
      record m {
        validation_runs = runs;
        target_state = report.target_state;
        target_id = some id;
        recovery_notifications = report.recovery_notifications;
      },
      gw.close_target g,
    ),
    ok report,
  )
  close_pass runs id m (g, err e) = (
    (
      record m { target_state = unknown; target_id = none; recovery_notifications = [] },
      gw.close_target g,
    ),
    err e,
  )

  abbrev pub open_advice : JlinkError → JlinkError
  open_advice e = with_detail e "recommendation" (text "check DLL, probe, power, device, interface")

  unfoldable pub opened_temporary :
      ValidationAfter
      → TargetSessionManager
      → G × Result TargetObservation
      → Session G × Result ValidationReport
  unfolding temporary_pass close_pass
  opened_temporary after m (g, err e) = ((m, g), err (open_advice e))
  opened_temporary after m (g, ok observation) =
      let runs = wrapping_add m.validation_runs 1 in
      close_pass runs observation.target_id m
        (temporary_pass after runs (recover_target gw observation.target_state g))

  unfoldable pub validate_temporary :
      TargetConnectionSpec → ValidationAfter → Session G → Session G × Result ValidationReport
  unfolding opened_temporary
  validate_temporary spec after (m, g) = opened_temporary after m (gw.open_target spec g)

  unfoldable pub validate_in :
      ValidationMode → TargetConnectionSpec → Session G → Session G × Result ValidationReport
  unfolding validate_observe validate_temporary
  validate_in observe spec s = validate_observe spec s
  validate_in (temporary after) spec s = validate_temporary spec after s

  unfoldable pub validate :
      List ℕ
      → TargetConnectionSpec
      → Option ValidationAfter
      → Session G
      → Session G × Result ValidationReport
  unfolding validate_in
  validate probe_identity spec after (m, g) =
      attempt (validate_spec spec) (m, g)
        λ valid.
          if not (eq probe_identity (to_decimal spec.probe_serial))
          then ((m, g), err (new config_invalid false))
          else attempt (validation_mode m.connection_state after) (m, g)
              λ mode. validate_in mode spec (m, g)
