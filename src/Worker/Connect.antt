-- ===== src/Worker/Connect.antt =====
-- session.rs: connect and disconnect of TargetSessionManager.
pub mod Consistent
use jlink_mcp_v.Base.{
  ℕ, Bool, true, false, not, ◌&&◌, ◌||◌, Option, none, some, List, [], ◌∷◌, refl, if◌then◌else◌,
  any, eq, nat_equal, list_equal, option_equal, wrapping_add,
}
use jlink_mcp_v.Base.Decimal.{to_decimal}
use jlink_mcp_v.Domain.Error.{
  JlinkError, new, with_detail, text, Result, ok, err, operation_conflict, config_invalid,
  target_connect_failed, target_recovery_failed,
}
use jlink_mcp_v.Domain.State.{
  ConnectionState, disconnected, connecting, connected, faulted, TargetState, running, halted,
  unknown, transition_session, connect_requested, connection_made, connect_failed,
  disconnect_requested,
}
use jlink_mcp_v.Domain.Session.{
  TargetConnectionSpec, spec_equal, validate_spec, ValidationReport, ValidationCheck,
  ValidationAfter, run, halt, connection_lost, RecoveryNotification, ensure_disconnect_allowed,
}
use jlink_mcp_v.Worker.Gateway.{Gateway, TargetObservation}
use jlink_mcp_v.Worker.Manager.{
  TargetSessionManager, ValidationMode, observe, temporary, validation_mode, is_active, is_running,
  is_unknown, is_target_identity, invalidate_validation, record_validation_evidence,
  ordinary_debug_validation_passed, forget,
}
use jlink_mcp_v.Worker.Recovery.{Recovered, recover_target}

-- `?` where the state has to be handed back.
abbrev pub attempt {ℓ κ σ} :
    {A : Type ℓ} {B : Type κ} {S : Type σ} → Result A → S → (A → S × Result B) → S × Result B
attempt (err e) s k = (s, err e)
attempt (ok a) s k = k a

abbrev pub in_state : ConnectionState → TargetSessionManager → TargetSessionManager
in_state state m = record m { connection_state = state }

abbrev pub Session : Type 0 → Type 0
Session G = TargetSessionManager × G

abbrev pub recovered_manager :
    TargetState → List RecoveryNotification → TargetSessionManager → TargetSessionManager
recovered_manager state notifications m = record m {
  target_state = state;
  recovery_notifications = notifications;
  validation_runs = wrapping_add m.validation_runs 1;
}

module _ {G : Type 0} (gw : Gateway G) where
  -- The failed exits of connect: the transition, and then the error.
  unfoldable pub fail_connect :
      TargetSessionManager → G → JlinkError → Session G × Result (Unit {0})
  fail_connect m g error =
      attempt (transition_session m.connection_state connect_failed) (m, g)
        (λ state. ((in_state state m, g), err error))

  unfoldable pub report_error : JlinkError
  report_error = new target_connect_failed true

  -- From `self.target_state = report.target_state` to the end.
  unfoldable pub finish_connect :
      TargetConnectionSpec
      → ℕ
      → ValidationReport
      → TargetSessionManager
      → G
      → Session G × Result (Unit {0})
  unfolding record_validation_evidence
  finish_connect spec id report m g =
      let m1 : TargetSessionManager = record m {
        target_state = report.target_state;
        target_id = some id;
        active_target = some spec;
        connection_generation = wrapping_add m.connection_generation 1;
        firmware_identity = none;
      } in
      let m2 : TargetSessionManager = record (record_validation_evidence spec report m1) {
        last_invalidation = none;
      } in
      attempt (transition_session m2.connection_state connection_made) (m2, g)
        (λ state. ((in_state state m2, g), ok tt))

  -- The validation pass over the connected target.
  unfoldable pub check_connect :
      TargetConnectionSpec
      → ℕ
      → TargetSessionManager
      → G × ValidationReport
      → Session G × Result (Unit {0})
  unfolding finish_connect fail_connect
  check_connect spec id m (g, report) =
      if not (ordinary_debug_validation_passed report)
      then fail_connect (record m { target_state = unknown }) (gw.close_target g) report_error
      else finish_connect spec id report m g

  unfoldable pub recovered_connect :
      TargetConnectionSpec
      → ℕ
      → TargetSessionManager
      → G × Result Recovered
      → Session G × Result (Unit {0})
  unfolding check_connect
  recovered_connect spec id m (g, err e) = fail_connect m (gw.close_target g) e
  recovered_connect spec id m (g, ok (state, notifications)) =
      let m1 = recovered_manager state notifications m in
      check_connect spec id m1 (gw.validation_report m1.validation_runs none none g)

  unfoldable pub opened_connect :
      TargetConnectionSpec
      → TargetSessionManager
      → G × Result TargetObservation
      → Session G × Result (Unit {0})
  unfolding recovered_connect
  opened_connect spec m (g, err e) = fail_connect m g e
  opened_connect spec m (g, ok observation) =
      recovered_connect spec observation.target_id m (recover_target gw observation.target_state g)

  unfoldable pub connect : List ℕ → TargetConnectionSpec → Session G → Session G × Result (Unit {0})
  unfolding opened_connect
  connect probe_identity spec (m, g) =
      attempt (validate_spec spec) (m, g)
        λ valid.
          if not (eq probe_identity (to_decimal spec.probe_serial))
          then ((m, g), err (new config_invalid false))
          else attempt (transition_session m.connection_state connect_requested) (m, g)
              λ state. opened_connect spec (in_state state m) (gw.open_target spec g)

  -- `matches!(state, Connected | Faulted)`
  abbrev pub may_request_disconnect : ConnectionState → Bool
  may_request_disconnect connected = true
  may_request_disconnect faulted = true
  may_request_disconnect _ = false

  unfoldable pub disconnect : Session G → Session G × Result (Unit {0})
  unfolding invalidate_validation
  disconnect (m, g) =
      attempt (ensure_disconnect_allowed m.hss_active) (m, g)
        λ allowed.
          let requested =
            if may_request_disconnect m.connection_state
            then transition_session m.connection_state disconnect_requested
            else ok m.connection_state in
          attempt requested (m, g)
            λ state.
              ((invalidate_validation connection_lost (forget state m), gw.close_target g), ok tt)
