-- ===== src/Worker/Recovery/Ended.antt =====
-- How a recovery can end, by what the gateway answers.
use jlink_mcp_v.Base.{false, List, [], ◌∷◌, ◌++◌, Option, none, some, ◌≡◌, ◌≢◌, refl}
use jlink_mcp_v.Domain.Error.{
  JlinkError, Result, ok, err, target_connect_failed, target_recovery_failed,
}
use jlink_mcp_v.Domain.State.{TargetState, running, halted, hard_fault, unknown}
use jlink_mcp_v.Domain.Session.{
  RecoveryAction, RecoveryNotification, resumed_from_halt, reset_after_fault, resume, reset,
  run_after_reset,
}
use jlink_mcp_v.Worker.Gateway.{Gateway}
use jlink_mcp_v.Worker.Recovery.{
  Recovered, recovery_error, reset_target, reset_done, reset_failed, resume_done, recover_target,
  reset_notifications,
}

module _ {G : Type 0} (gw : Gateway G) where
  -- The reset is due: the target had a fault, or it was resumed and did not run. With the state of
  -- the gateway then, and the notices that a successful reset gives.
  pub data ResetDue (g : G) : TargetState → G → List RecoveryNotification → Type 0 where
    at_once : ResetDue g hard_fault g (reset_after_fault ∷ [])
    after_resume :
        {h : G} {answer : Result TargetState}
        → gw.resume_and_observe g ≡ (h, answer)
        → answer ≢ ok running
        → ResetDue g halted h (resumed_from_halt ∷ reset_after_fault ∷ [])

  -- From the initial state and the gateway's state before to what recover_target returns.
  pub data Ended (g : G) : TargetState → G × Result Recovered → Type 0 where
    left_alone : Ended g running (g, ok (running, []))
    resumed :
        {h : G}
        → gw.resume_and_observe g ≡ (h, ok running)
        → Ended g halted (h, ok (running, resumed_from_halt ∷ []))
    restarted :
        {s : TargetState} {h k : G} {notices : List RecoveryNotification}
        → ResetDue g s h notices
        → gw.reset_run_and_observe h ≡ (k, ok running)
        → Ended g s (k, ok (running, notices))
    gave_up :
        {s : TargetState} {h k : G} {notices : List RecoveryNotification}
        {answer : Result TargetState} {e : JlinkError}
        → ResetDue g s h notices
        → gw.reset_run_and_observe h ≡ (k, answer)
        → answer ≢ ok running
        → e.code ≡ target_recovery_failed
        → e.retryable ≡ false
        → Ended g s ((gw.fault_diagnostics k).0, err e)
    untouched : {e : JlinkError} → e.code ≡ target_connect_failed → Ended g unknown (g, err e)

  module _ {s : TargetState} {g h : G} {notices : List RecoveryNotification}
      (due : ResetDue g s h notices) where
    failed-Ended :
        (actions : List RecoveryAction) (cause : Option JlinkError) (answer : Result TargetState)
        (k : G)
        → gw.reset_run_and_observe h ≡ (k, answer)
        → answer ≢ ok running
        → Ended g s (reset_failed gw actions cause answer k)
    unfolding recovery_error
    failed-Ended actions none (ok state) k asked stopped = gave_up due asked stopped refl refl
    failed-Ended actions none (err e) k asked stopped = gave_up due asked stopped refl refl
    failed-Ended actions (some c) (ok state) k asked stopped = gave_up due asked stopped refl refl
    failed-Ended actions (some c) (err e) k asked stopped = gave_up due asked stopped refl refl

    done-Ended :
        (actions : List RecoveryAction) (cause : Option JlinkError)
        (answer : G × Result TargetState)
        → reset_notifications actions ≡ notices
        → gw.reset_run_and_observe h ≡ answer
        → Ended g s (reset_done gw actions cause answer)
    done-Ended actions cause (k, ok running) shown asked = rw shown (restarted due asked)
    done-Ended actions cause (k, ok halted) shown asked =
        failed-Ended actions cause (ok halted) k asked (λ p. cc)
    done-Ended actions cause (k, ok hard_fault) shown asked =
        failed-Ended actions cause (ok hard_fault) k asked (λ p. cc)
    done-Ended actions cause (k, ok unknown) shown asked =
        failed-Ended actions cause (ok unknown) k asked (λ p. cc)
    done-Ended actions cause (k, err e) shown asked =
        failed-Ended actions cause (err e) k asked (λ p. cc)

    reset_target-Ended :
        (actions : List RecoveryAction) (cause : Option JlinkError)
        → reset_notifications (actions ++ (reset ∷ run_after_reset ∷ [])) ≡ notices
        → Ended g s (reset_target gw actions cause h)
    unfolding reset_target
    reset_target-Ended actions cause shown =
        done-Ended (actions ++ (reset ∷ run_after_reset ∷ [])) cause (gw.reset_run_and_observe h)
          shown refl

  resumed-Ended :
      (g : G) (answer : G × Result TargetState)
      → gw.resume_and_observe g ≡ answer
      → Ended g halted (resume_done gw answer)
  resumed-Ended g (h, ok running) asked = resumed asked
  resumed-Ended g (h, ok halted) asked =
      reset_target-Ended (after_resume asked (λ p. cc)) (resume ∷ []) none refl
  resumed-Ended g (h, ok hard_fault) asked =
      reset_target-Ended (after_resume asked (λ p. cc)) (resume ∷ []) none refl
  resumed-Ended g (h, ok unknown) asked =
      reset_target-Ended (after_resume asked (λ p. cc)) (resume ∷ []) none refl
  resumed-Ended g (h, err e) asked =
      reset_target-Ended (after_resume asked (λ p. cc)) (resume ∷ []) (some e) refl

  -- A running target is left alone without a notice. A halted one is resumed, and is reported to run
  -- when the gateway answers so. One with a fault, and a halted one that the gateway did not answer to
  -- run after the resume, is reset, and is reported to run, with the notices of what was tried, when the
  -- gateway answers so to the reset. After any other answer the recovery fails for good, and the fault
  -- diagnostics are read last. A target of unknown state is refused with the gateway untouched.
  pub recover_target-Ended : (s : TargetState) (g : G) → Ended g s (recover_target gw s g)
  unfolding recover_target
  recover_target-Ended running g = left_alone
  recover_target-Ended halted g = resumed-Ended g (gw.resume_and_observe g) refl
  recover_target-Ended hard_fault g = reset_target-Ended at_once [] none refl
  recover_target-Ended unknown g = untouched refl
