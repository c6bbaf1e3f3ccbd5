-- ===== src/Worker/Recovery.antt =====
-- session.rs: recover_target and reset_target, which bring a stopped target back to running.
pub mod Ended
use Prim.Native.String.{String}
use jlink_mcp_v.Base.{
  ℕ, Bool, true, false, ◌||◌, Option, none, some, List, [], ◌∷◌, ◌++◌, map, ◌≡◌, refl,
  if◌then◌else◌, any,
}
use jlink_mcp_v.Domain.Error.{
  Detail, JlinkError, new, with_detail, text, texts, registers, failure, Result, ok, err,
  target_connect_failed, target_recovery_failed,
}
use jlink_mcp_v.Domain.Program.Facts.{state_name}
use jlink_mcp_v.Domain.State.{TargetState, running, halted, hard_fault, unknown}
use jlink_mcp_v.Domain.Session.{
  RecoveryAction, resume, reset, run_after_reset, RecoveryNotification, resumed_from_halt,
  reset_after_fault, FaultDiagnostics,
}
use jlink_mcp_v.Worker.Gateway.{Gateway}

abbrev pub Recovered : Type 0
Recovered = TargetState × List RecoveryNotification

abbrev action_name : RecoveryAction → String
action_name resume = "resume"
action_name reset = "reset"
action_name run_after_reset = "run_after_reset"

abbrev is_resume : RecoveryAction → Bool
is_resume resume = true
is_resume _ = false

abbrev json_diagnostics : FaultDiagnostics → Detail
json_diagnostics d = registers (d.pc ∷ d.ipsr ∷ d.cfsr ∷ d.hfsr ∷ d.dfsr ∷ []) d.unavailable

abbrev with_resume_error : Option JlinkError → JlinkError → JlinkError
with_resume_error none e = e
with_resume_error (some cause) e = with_detail e "resume_error" (failure cause.code)

abbrev with_final_result : Result TargetState → JlinkError → JlinkError
with_final_result (ok state) e = with_detail e "final_state" (text (state_name state))
with_final_result (err cause) e = with_detail e "reset_error" (failure cause.code)

unfoldable pub recovery_error :
    List RecoveryAction → FaultDiagnostics → Option JlinkError → Result TargetState → JlinkError
recovery_error actions diagnostics resume_error final_result =
    let e0 =
      with_detail (new target_recovery_failed false) "actions" (texts (map action_name actions)) in
    let e1 = with_detail e0 "diagnostics" (json_diagnostics diagnostics) in
    with_final_result final_result (with_resume_error resume_error e1)

abbrev pub reset_notifications : List RecoveryAction → List RecoveryNotification
reset_notifications actions =
    if any is_resume actions
    then resumed_from_halt ∷ reset_after_fault ∷ []
    else reset_after_fault ∷ []

module _ {G : Type 0} (gw : Gateway G) where
  -- After a reset that did not leave the target running.
  abbrev pub reset_failed :
      List RecoveryAction → Option JlinkError → Result TargetState → G → G × Result Recovered
  reset_failed actions resume_error final_result g =
      let (g', diagnostics) = gw.fault_diagnostics g in
      (g', err (recovery_error actions diagnostics resume_error final_result))

  abbrev pub reset_done :
      List RecoveryAction → Option JlinkError → G × Result TargetState → G × Result Recovered
  reset_done actions resume_error (g, ok running) = (g, ok (running, reset_notifications actions))
  reset_done actions resume_error (g, ok halted) = reset_failed actions resume_error (ok halted) g
  reset_done actions resume_error (g, ok hard_fault) =
      reset_failed actions resume_error (ok hard_fault) g
  reset_done actions resume_error (g, ok unknown) = reset_failed actions resume_error (ok unknown) g
  reset_done actions resume_error (g, err e) = reset_failed actions resume_error (err e) g

  unfoldable pub reset_target : List RecoveryAction → Option JlinkError → G → G × Result Recovered
  unfolding recovery_error
  reset_target actions resume_error g =
      reset_done (actions ++ (reset ∷ run_after_reset ∷ [])) resume_error
        (gw.reset_run_and_observe g)

  abbrev pub resume_done : G × Result TargetState → G × Result Recovered
  resume_done (g, ok running) = (g, ok (running, resumed_from_halt ∷ []))
  resume_done (g, ok _) = reset_target (resume ∷ []) none g
  resume_done (g, err e) = reset_target (resume ∷ []) (some e) g

  unfoldable pub recover_target : TargetState → G → G × Result Recovered
  unfolding reset_target
  recover_target running g = (g, ok (running, []))
  recover_target halted g = resume_done (gw.resume_and_observe g)
  recover_target hard_fault g = reset_target [] none g
  recover_target unknown g = (g, err (new target_connect_failed true))
