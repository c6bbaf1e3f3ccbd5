-- ===== src/Worker/Program/Failure.antt =====
-- What a failed programming request leaves.
use jlink_mcp_v.Base.{
  ℕ, true, false, Option, none, some, List, ◌≡◌, inl, inr, refl, Bool-cases, list_equal,
  option_equal,
}
use jlink_mcp_v.Domain.Error.{JlinkError, Result, ok, err, execution_uncertain}
use jlink_mcp_v.Domain.State.{TargetState}
use jlink_mcp_v.Domain.Image.{FirmwareSegment}
use jlink_mcp_v.Domain.Program.Facts.{ProgramExecutionFacts, uncertain_error}
use jlink_mcp_v.Worker.Gateway.{Gateway}
use jlink_mcp_v.Worker.Manager.{TargetSessionManager}
use jlink_mcp_v.Worker.Connect.{Session}
use jlink_mcp_v.Worker.Connect.Consistent.{IsFaulted, IsLive}
use jlink_mcp_v.Worker.Control.Outcome.{record_execution_uncertain-IsFaulted}
use jlink_mcp_v.Worker.Program.{
  Programmer, invalidation, fail_observed, observed_facts, fail_with_facts, handle_program_failure,
}

module _ {G : Type 0} (gw : Gateway G) (pg : Programmer G)
    (read_image : List ℕ → Option ℕ → Result (List FirmwareSegment)) where
  -- The connection is given up.
  pub data IsLost : Session G × Result (Unit {0}) → Type 0 where
    given_up :
        {m : TargetSessionManager} {g : G} {e : JlinkError}
        → IsFaulted m
        → e.code ≡ execution_uncertain
        → e.retryable ≡ false
        → IsLost ((m, gw.close_target g), err e)

  uncertain-IsLost :
      (m : TargetSessionManager) (g : G) (f : ProgramExecutionFacts) (e : JlinkError)
      → IsLive m
      → f.side_effect_dispatched ≡ true
      → IsLost (fail_with_facts gw pg read_image m g f e)
  unfolding fail_with_facts uncertain_error
  uncertain-IsLost m g f e live sent =
      let (down, reason, recorded) =
        record_execution_uncertain-IsFaulted (invalidation f.flash_modified) m live.phase in
      rw (sent, recorded) (given_up down refl refl)

  observed-sent :
      (f : ProgramExecutionFacts) (r : Result TargetState)
      → f.side_effect_dispatched ≡ true
      → (observed_facts f r).side_effect_dispatched ≡ true
  observed-sent f (err e) sent = sent
  observed-sent f (ok state) sent = sent

  fail_observed-IsLost :
      (o : Option TargetState) (m : TargetSessionManager) (g : G) (f : ProgramExecutionFacts)
      (e : JlinkError)
      → IsLive m
      → f.side_effect_dispatched ≡ true
      → IsLost (fail_observed gw pg read_image o m g f e)
  fail_observed-IsLost (some state) m g f e live sent = uncertain-IsLost m g f e live sent
  fail_observed-IsLost none m g f e live sent =
      let answer = gw.observe_target_state g in
      uncertain-IsLost m (answer.0) (observed_facts f answer.1) e live
        (observed-sent f answer.1 sent)

  -- On a live connection, a failure after a side effect was sent to the target closes the target; the
  -- session is faulted and has forgotten everything of the target: no target is active, no validation
  -- counts, no firmware is proved, and no target state, identifier or recovery notice is left. The error
  -- says that the execution is uncertain and is not to be retried.
  pub handle_program_failure-IsLost :
      (m : TargetSessionManager) (g : G) (f : ProgramExecutionFacts) (e : JlinkError)
      → IsLive m
      → f.side_effect_dispatched ≡ true
      → IsLost (handle_program_failure gw pg read_image m g f e)
  unfolding handle_program_failure
  handle_program_failure-IsLost m g f e live sent =
      fail_observed-IsLost f.last_trusted_target_state m g f e live sent

  -- A failure before any side effect was sent, or a lost connection.
  pub data FailEnd (m : TargetSessionManager) (f : ProgramExecutionFacts)
      : Session G × Result (Unit {0}) → Type 0 where
    known :
        {g : G} {e : JlinkError} → f.side_effect_dispatched ≡ false → FailEnd m f ((m, g), err e)
    unknowable : {r : Session G × Result (Unit {0})} → IsLost r → FailEnd m f r

  module _ (m : TargetSessionManager) (live : IsLive m) where
    with_facts-FailEnd :
        (g : G) (f : ProgramExecutionFacts) (e : JlinkError)
        → FailEnd m f (fail_with_facts gw pg read_image m g f e)
    unfolding fail_with_facts
    with_facts-FailEnd g f e = elim (Bool-cases f.side_effect_dispatched) [
      | inl sent ↦ unknowable (uncertain-IsLost m g f e live sent)
      | inr unsent ↦ rw unsent (known refl)
    ]

    FailEnd-observed :
        (f : ProgramExecutionFacts) (seen : Result TargetState) {r : Session G × Result (Unit {0})}
        → FailEnd m (observed_facts f seen) r
        → FailEnd m f r
    FailEnd-observed f (err e) end = end
    FailEnd-observed f (ok state) (known unsent) = known unsent
    FailEnd-observed f (ok state) (unknowable l) = unknowable l

    observed-FailEnd :
        (o : Option TargetState) (g : G) (f : ProgramExecutionFacts) (e : JlinkError)
        → FailEnd m f (fail_observed gw pg read_image o m g f e)
    observed-FailEnd (some state) g f e = with_facts-FailEnd g f e
    observed-FailEnd none g f e =
        let answer = gw.observe_target_state g in
        FailEnd-observed f answer.1 (with_facts-FailEnd (answer.0) (observed_facts f answer.1) e)

    pub failure-FailEnd :
        (g : G) (f : ProgramExecutionFacts) (e : JlinkError)
        → FailEnd m f (handle_program_failure gw pg read_image m g f e)
    unfolding handle_program_failure
    failure-FailEnd g f e = observed-FailEnd f.last_trusted_target_state g f e
