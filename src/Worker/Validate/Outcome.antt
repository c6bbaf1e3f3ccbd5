-- ===== src/Worker/Validate/Outcome.antt =====
-- What a validation without a connection leaves behind.
use jlink_mcp_v.Base.{
  ℕ, true, false, none, some, List, [], ◌≡◌, ◌≢◌, inl, inr, refl, Bool-cases, wrapping_add,
}
use jlink_mcp_v.Domain.Error.{JlinkError, Result, ok, err}
use jlink_mcp_v.Domain.State.{TargetState, running, halted, hard_fault, unknown}
use jlink_mcp_v.Domain.Session.{
  TargetConnectionSpec, ValidationReport, ValidationAfter, run, halt, RecoveryNotification,
}
use jlink_mcp_v.Worker.Gateway.{Gateway, TargetObservation}
use jlink_mcp_v.Worker.Manager.{TargetSessionManager}
use jlink_mcp_v.Worker.Recovery.{Recovered, recover_target}
use jlink_mcp_v.Worker.Connect.{Session}
use jlink_mcp_v.Worker.Validate.{
  wanted, same_state, settle, settled, reported, temporary_pass, close_pass, opened_temporary,
  validate_temporary,
}

same_state_sound :
    (s : TargetState) (after : ValidationAfter)
    → same_state s (wanted after) ≡ true
    → s ≡ wanted after
same_state_sound running run h = refl
same_state_sound running halt h = cc
same_state_sound halted run h = cc
same_state_sound halted halt h = refl
same_state_sound hard_fault run h = cc
same_state_sound hard_fault halt h = cc
same_state_sound unknown run h = cc
same_state_sound unknown halt h = cc

same_state-other :
    (s : TargetState) (after : ValidationAfter) {answer : Result TargetState}
    → answer ≡ ok s
    → same_state s (wanted after) ≡ false
    → answer ≢ ok (wanted after)
same_state-other running run a h p = cc
same_state-other running halt a h p = cc
same_state-other halted run a h p = cc
same_state-other halted halt a h p = cc
same_state-other hard_fault run a h p = cc
same_state-other hard_fault halt a h p = cc
same_state-other unknown run a h p = cc
same_state-other unknown halt a h p = cc

module _ {G : Type 0} (gw : Gateway G) (after : ValidationAfter) where
  -- The last question to the gateway, from its state before to its state after and the answer.
  pub data Asked : ValidationAfter → G → G → Result TargetState → Type 0 where
    left_running : {g : G} → Asked run g g (ok running)
    asked_halt :
        {g h : G} {answer : Result TargetState}
        → gw.halt_and_observe g ≡ (h, answer)
        → Asked halt g h answer

  -- The pass over an opened target: it recovers, with these notices; it is reported on; it is left
  -- running or halted. What was asked for last was seen, or something failed.
  pub data Pass (runs : ℕ) (seen : TargetState) (g : G) : G × Result ValidationReport → Type 0 where
    reached :
        {h k : G} {notices : List RecoveryNotification} {report : ValidationReport}
        → recover_target gw seen g ≡ (h, ok (running, notices))
        → Asked after ((gw.validation_report runs none none h).0) k (ok report.target_state)
        → report.target_state ≡ wanted after
        → report.recovery_notifications ≡ notices
        → report.checks ≡ (gw.validation_report runs none none h).1.checks
        → Pass runs seen g (k, ok report)
    not_recovered :
        {h : G} {e : JlinkError}
        → recover_target gw seen g ≡ (h, err e)
        → Pass runs seen g (h, err e)
    not_running :
        {h : G} {s : TargetState} {notices : List RecoveryNotification} {e : JlinkError}
        → recover_target gw seen g ≡ (h, ok (s, notices))
        → s ≢ running
        → Pass runs seen g (h, err e)
    not_reached :
        {h k : G} {notices : List RecoveryNotification} {answer : Result TargetState}
        {e : JlinkError}
        → recover_target gw seen g ≡ (h, ok (running, notices))
        → Asked after ((gw.validation_report runs none none h).0) k answer
        → answer ≢ ok (wanted after)
        → Pass runs seen g (k, err e)

  module _ (runs : ℕ) (seen : TargetState) (g : G) {h : G} {notices : List RecoveryNotification}
      (recovered : recover_target gw seen g ≡ (h, ok (running, notices))) where
    settled-Pass :
        (answer : G × Result TargetState)
        → Asked after ((gw.validation_report runs none none h).0) (answer.0) (answer.1)
        → Pass runs seen g
            (settled gw after notices ((gw.validation_report runs none none h).1) answer)
    settled-Pass (k, err e) asked = not_reached recovered asked (λ p. cc)
    settled-Pass (k, ok s) asked = elim (Bool-cases (same_state s (wanted after))) [
      | inl same ↦ rw same (reached recovered asked (same_state_sound s after same) refl refl)
      | inr other ↦ rw other (not_reached recovered asked (same_state-other s after refl other))
    ]

    settle-Asked :
        (a : ValidationAfter) (k : G)
        → Asked a k ((settle gw a running k).0) ((settle gw a running k).1)
    settle-Asked run k = left_running
    settle-Asked halt k = asked_halt refl

    reported-Pass :
        Pass runs seen g
          (reported gw after (running, notices) (gw.validation_report runs none none h))
    reported-Pass =
        let k = (gw.validation_report runs none none h).0 in
        settled-Pass (settle gw after running k) (settle-Asked after k)

  temporary_pass-Pass :
      (runs : ℕ) (seen : TargetState) (g : G) (answer : G × Result Recovered)
      → recover_target gw seen g ≡ answer
      → Pass runs seen g (temporary_pass gw after runs answer)
  unfolding temporary_pass
  temporary_pass-Pass runs seen g (h, err e) asked = not_recovered asked
  temporary_pass-Pass runs seen g (h, ok (running, notices)) asked = reported-Pass runs seen g asked
  temporary_pass-Pass runs seen g (h, ok (halted, notices)) asked = not_running asked (λ p. cc)
  temporary_pass-Pass runs seen g (h, ok (hard_fault, notices)) asked = not_running asked (λ p. cc)
  temporary_pass-Pass runs seen g (h, ok (unknown, notices)) asked = not_running asked (λ p. cc)

  -- From the session before to the session after and the answer.
  pub data PassEnd (spec : TargetConnectionSpec) (m : TargetSessionManager) (before : G)
      : Session G × Result ValidationReport → Type 0 where
    not_opened :
        {g : G} {cause e : JlinkError}
        → gw.open_target spec before ≡ (g, err cause)
        → e.code ≡ cause.code
        → e.retryable ≡ cause.retryable
        → PassEnd spec m before ((m, g), err e)
    passed :
        {m' : TargetSessionManager} {g k : G} {seen : TargetObservation} {report : ValidationReport}
        → gw.open_target spec before ≡ (g, ok seen)
        → Pass (wrapping_add m.validation_runs 1) seen.target_state g (k, ok report)
        → m' ≡ record m {
          validation_runs = wrapping_add m.validation_runs 1;
          target_state = wanted after;
          target_id = some seen.target_id;
          recovery_notifications = report.recovery_notifications;
        }
        → PassEnd spec m before ((m', gw.close_target k), ok report)
    failed :
        {m' : TargetSessionManager} {g k : G} {seen : TargetObservation} {e : JlinkError}
        → gw.open_target spec before ≡ (g, ok seen)
        → Pass (wrapping_add m.validation_runs 1) seen.target_state g (k, err e)
        → m' ≡ record m { target_state = unknown; target_id = none; recovery_notifications = [] }
        → PassEnd spec m before ((m', gw.close_target k), err e)

  Pass-wanted :
      {runs : ℕ} {seen : TargetState} {g k : G} {report : ValidationReport}
      → Pass runs seen g (k, ok report)
      → report.target_state ≡ wanted after
  Pass-wanted (reached recovered asked want notices checks) = want

  module _ (spec : TargetConnectionSpec) (m : TargetSessionManager) (before : G) where
    close_pass-PassEnd :
        {g : G} {seen : TargetObservation} (answer : G × Result ValidationReport)
        → gw.open_target spec before ≡ (g, ok seen)
        → Pass (wrapping_add m.validation_runs 1) seen.target_state g answer
        → PassEnd spec m before
            (close_pass gw (wrapping_add m.validation_runs 1) seen.target_id m answer)
    unfolding close_pass
    close_pass-PassEnd (k, ok report) opened pass = passed opened pass (rw (Pass-wanted pass) refl)
    close_pass-PassEnd (k, err e) opened pass = failed opened pass refl

    opened_temporary-PassEnd :
        (answer : G × Result TargetObservation)
        → gw.open_target spec before ≡ answer
        → PassEnd spec m before (opened_temporary gw after m answer)
    unfolding opened_temporary
    opened_temporary-PassEnd (g, err e) opened = not_opened opened refl refl
    opened_temporary-PassEnd (g, ok seen) opened =
        let runs = wrapping_add m.validation_runs 1 in
        let answer = temporary_pass gw after runs (recover_target gw seen.target_state g) in
        close_pass-PassEnd answer opened (
          temporary_pass-Pass runs seen.target_state g (recover_target gw seen.target_state g) refl)

  -- A validation without a connection ends in one of three ways. The gateway failed to open the
  -- target: then the session is as it was, and the caller gets the gateway's error. The target was
  -- opened, recovered to running, was reported on, and was left running or was seen halted, as asked:
  -- then it is closed last, and the report and the session say this state and the notices of the
  -- recovery. Or it was opened, and the recovery failed or the state asked for was not seen: then it is
  -- closed last too, and the session claims no state, no identifier, no notice and no completed pass.
  -- Nothing else of the session changes.
  pub validate_temporary-PassEnd :
      (spec : TargetConnectionSpec) (m : TargetSessionManager) (g : G)
      → PassEnd spec m g (validate_temporary gw spec after (m, g))
  unfolding validate_temporary
  validate_temporary-PassEnd spec m g =
      opened_temporary-PassEnd spec m g (gw.open_target spec g) refl
