-- ===== src/Worker/Session/Tests.antt =====
-- crates/jlink-worker: a session on a gateway that answers at once. Its state is the target's.
use jlink_mcp_v.Base.{ℕ, true, none, some, List, [], ◌∷◌, ◌≡◌, refl, arith}
use jlink_mcp_v.Base.Text.{
  trim, is_ascii_alphanumeric, is_ascii_hexdigit, to_ascii_lowercase, starts_with, contains_text,
}
use jlink_mcp_v.Domain.Error.{ok}
use jlink_mcp_v.Domain.State.{
  TargetState, running, halted, hard_fault, connected, transition_session,
}
use jlink_mcp_v.Domain.Core.{halt_core}
use jlink_mcp_v.Domain.Memory.{flash, new_range, checked_end, classify, validate_range}
use jlink_mcp_v.Domain.Identity.{validate_plan, strength, ensure_strong, verify_target_bytes}
use jlink_mcp_v.Domain.Identity.Tests.{block_bytes, firmware}
use jlink_mcp_v.Domain.Session.{TargetConnectionSpec, validate_spec, swd, ValidationReport, halt}
use jlink_mcp_v.Worker.Gateway.{Gateway}
use jlink_mcp_v.Worker.Manager.{
  new_manager, firmware_identity_cached, is_connected, is_active, ordinary_debug_validation_passed,
  ensure_firmware_identity_read_allowed, record_firmware_identity,
}
use jlink_mcp_v.Worker.Recovery.{recover_target}
use jlink_mcp_v.Worker.Recovery.Ended.{Ended, recover_target-Ended}
use jlink_mcp_v.Worker.Connect.{Session, connect, disconnect}
use jlink_mcp_v.Worker.Validate.{validate_temporary}
use jlink_mcp_v.Worker.Validate.Outcome.{PassEnd, validate_temporary-PassEnd}
use jlink_mcp_v.Worker.Control.{execute_control}
use jlink_mcp_v.Worker.Control.Outcome.{ControlEnd, execute_control-ControlEnd}
use jlink_mcp_v.Domain.Memory.Request.{readback}
use jlink_mcp_v.Worker.Debug.{ensure_firmware_identity, write_verified}
use jlink_mcp_v.Worker.Debug.Written.{WriteEnd, write_verified-WriteEnd}
use jlink_mcp_v.Worker.Session.{Reachable, begins, goes_on, connects, identifies}
use jlink_mcp_v.Worker.Session.Disconnected.{DisconnectEnd, disconnect-DisconnectEnd}
use jlink_mcp_v.Worker.Session.Consistent.{Reachable-IsConsistent}

abbrev pub report : ℕ → TargetState → ValidationReport
report runs state = record {
  valid = true;
  checks = [];
  target_state = state;
  target_id = some 5;
  validation_runs = runs;
  recovery_notifications = [];
}

abbrev pub bench : Gateway TargetState
bench = record {
  open_target = λ spec g. (g, ok (record { target_id = 5; target_state = g }));
  close_target = λ g. g;
  validation_report = λ runs checks background g. (g, report runs g);
  observe_target_state = λ g. (g, ok g);
  halt_and_observe = λ g. (halted, ok halted);
  resume_and_observe = λ g. (running, ok running);
  reset_run_and_observe = λ g. (running, ok running);
  reset_halt_and_observe = λ g. (halted, ok halted);
  step_and_observe = λ g. (halted, ok halted);
  fault_diagnostics = λ g. (
    g,
    record { pc = none; ipsr = none; cfsr = none; hfsr = none; dfsr = none; unavailable = [] },
  );
  device_memory_map = λ device g.
      (g, ok (record { regions = record { address = 0; length = 65536; kind = flash } ∷ [] }));
  read_bytes = λ address size g. (g, ok block_bytes);
  write_bytes = λ address bytes g. (g, ok tt);
  read_register = λ register g. (g, ok 0);
  write_register = λ register value g. (g, ok tt);
}

abbrev digest : List ℕ → List ℕ
digest bytes = bytes

-- An STM32F4 on the probe with serial 7.
abbrev pub board : TargetConnectionSpec
board = record {
  device = b'S' ∷ b'T' ∷ b'M' ∷ b'3' ∷ b'2' ∷ b'F' ∷ b'4' ∷ [];
  interface = swd;
  speed_khz = 4000;
  probe_serial = 7;
  elf_sha256 = none;
}

abbrev fresh : Session TargetState
fresh = (new_manager [], halted)

abbrev linked : Session TargetState
linked = (connect bench (b'7' ∷ []) board fresh).0

linked-Reachable : Reachable bench digest [] linked
linked-Reachable = goes_on begins (connects (b'7' ∷ []) board)

linked-connected : linked.0.connection_state ≡ connected
unfolding connect validate_spec trim is_ascii_alphanumeric to_ascii_lowercase starts_with
    contains_text transition_session new_manager recover_target ordinary_debug_validation_passed
linked-connected = refl

linked-active : is_active linked.0 board ≡ true
unfolding connect validate_spec trim is_ascii_alphanumeric to_ascii_lowercase starts_with
    contains_text transition_session new_manager recover_target ordinary_debug_validation_passed
linked-active = refl

linked-up : is_connected linked.0.connection_state ≡ true
unfolding connect validate_spec trim is_ascii_alphanumeric to_ascii_lowercase starts_with
    contains_text transition_session new_manager recover_target ordinary_debug_validation_passed
linked-up = refl

abbrev identified : Session TargetState
identified = (ensure_firmware_identity bench digest board firmware true linked).0

identified-Reachable : Reachable bench digest [] identified
identified-Reachable =
    goes_on linked-Reachable (identifies board firmware true linked-up linked-active)

identified-cached : firmware_identity_cached identified.0 board firmware ≡ true
unfolding connect firmware_identity_cached ensure_firmware_identity validate_plan is_ascii_hexdigit
    strength validate_spec trim is_ascii_alphanumeric to_ascii_lowercase starts_with contains_text
    transition_session new_manager recover_target ordinary_debug_validation_passed
    ensure_firmware_identity_read_allowed ensure_strong new_range checked_end classify
    validate_range verify_target_bytes record_firmware_identity
identified-cached = refl

disconnect-DisconnectEnd_example :
    DisconnectEnd bench identified.0 identified.1 (disconnect bench identified)
disconnect-DisconnectEnd_example =
    disconnect-DisconnectEnd bench identified.0 identified.1
      (Reachable-IsConsistent bench digest [] identified-Reachable)

recover_target-Ended_example :
    Ended bench hard_fault hard_fault (recover_target bench hard_fault hard_fault)
recover_target-Ended_example = recover_target-Ended bench hard_fault hard_fault

validate_temporary-PassEnd_example :
    PassEnd bench halt board fresh.0 fresh.1 (validate_temporary bench board halt fresh)
validate_temporary-PassEnd_example = validate_temporary-PassEnd bench halt board fresh.0 fresh.1

execute_control-ControlEnd_example :
    ControlEnd bench board halt_core linked.0 linked.1
      (execute_control bench board halt_core linked)
execute_control-ControlEnd_example =
    execute_control-ControlEnd bench board halt_core linked.0 linked.1
      (Reachable-IsConsistent bench digest [] linked-Reachable)

write_verified-WriteEnd_example :
    WriteEnd bench 256 block_bytes readback running
      (write_verified bench 256 block_bytes readback running)
write_verified-WriteEnd_example =
    write_verified-WriteEnd bench 256 block_bytes (omega arith) running readback
