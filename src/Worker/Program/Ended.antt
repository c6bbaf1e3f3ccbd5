-- ===== src/Worker/Program/Ended.antt =====
-- How a programming request ends once it has changed the Flash, or only compares.
use jlink_mcp_v.Base.{
  inl, inr, ℕ, false, Option, none, some, List, ◌≡◌, refl, list_equal, option_equal,
}
use jlink_mcp_v.Domain.Error.{JlinkError, Result, ok, err}
use jlink_mcp_v.Domain.State.{TargetState}
use jlink_mcp_v.Domain.Image.{FirmwareSegment}
use jlink_mcp_v.Domain.Program.Facts.{
  ProgramExecutionFacts, advance, range_verification, final_state,
}
use jlink_mcp_v.Domain.Session.{TargetConnectionSpec, flash_modified}
use jlink_mcp_v.Worker.Gateway.{Gateway}
use jlink_mcp_v.Worker.Manager.{TargetSessionManager, record_flash_modified}
use jlink_mcp_v.Worker.Connect.{Session}
use jlink_mcp_v.Worker.Connect.Consistent.{IsLive}
use jlink_mcp_v.Worker.Program.{
  ProgramAfter, ProgramRequest, flash, erase, verify, Programmer, verify_image, final_state_seen,
  finish_program, verified, prepared_verify,
}
use jlink_mcp_v.Worker.Program.Failure.{IsLost, FailEnd, known, unknowable, failure-FailEnd}
use jlink_mcp_v.Worker.Program.Undone.{Undone}

-- What a completed request leaves, but for the target state: once the Flash is changed, no firmware is
-- proved and no access to memory counts as validated on the running target.
abbrev pub completed : ProgramRequest → TargetSessionManager → TargetSessionManager
completed (flash path base check after loader) m = record m {
  firmware_identity = none;
  running_background_access = none;
  last_invalidation = some flash_modified;
}
completed (erase range after loader) m = record m {
  firmware_identity = none;
  running_background_access = none;
  last_invalidation = some flash_modified;
}
completed (verify path base) m = m

pub record_flash_modified-IsLive :
    (m : TargetSessionManager) → IsLive m → IsLive (record_flash_modified m)
unfolding record_flash_modified
record_flash_modified-IsLive m live = record {
  phase = live.phase;
  spec = live.spec;
  target = live.target;
  valid = live.valid;
  key = elim live.key [
    | inl without ↦
        inl record { no_key = without.no_key; no_checks = without.no_checks; no_access = refl }
    | inr key ↦ inr key
  ];
  identity = tt;
}

module _ {G : Type 0} (gw : Gateway G) (pg : Programmer G)
    (read_image : List ℕ → Option ℕ → Result (List FirmwareSegment)) where
  -- From the manager before to the session after and the answer.
  pub data ProgramEnd (m : TargetSessionManager) (target : TargetConnectionSpec) (before : G)
      (request : ProgramRequest) : Session G × Result (Unit {0}) → Type 0 where
    unchanged :
        {g : G} {e : JlinkError}
        → Undone pg read_image m target before request
        → ProgramEnd m target before request ((m, g), err e)
    unfinished :
        {g : G} {e : JlinkError}
        → ProgramEnd m target before request ((completed request m, g), err e)
    mismatch :
        {state : TargetState} {g : G} {e : JlinkError}
        → ProgramEnd m target before request
            ((record (completed request m) { target_state = state }, g), err e)
    done :
        {state : TargetState} {g : G}
        → ProgramEnd m target before request
            ((record (completed request m) { target_state = state }, g), ok tt)
    lost :
        {r : Session G × Result (Unit {0})}
        → IsLost gw pg read_image r
        → ProgramEnd m target before request r

  module _ (target : TargetConnectionSpec) (before : G) where
    pub first-failure :
        (m : TargetSessionManager) (request : ProgramRequest) {r : Session G × Result (Unit {0})}
        {f : ProgramExecutionFacts}
        → (f.side_effect_dispatched ≡ false → Undone pg read_image m target before request)
        → FailEnd gw pg read_image m f r
        → ProgramEnd m target before request r
    first-failure m request undone (known unsent) = unchanged (undone unsent)
    first-failure m request undone (unknowable l) = lost l

    pub later-failure :
        (m : TargetSessionManager) (request : ProgramRequest) {r : Session G × Result (Unit {0})}
        {f : ProgramExecutionFacts}
        → FailEnd gw pg read_image (completed request m) f r
        → ProgramEnd m target before request r
    later-failure m request (known unsent) = unfinished
    later-failure m request (unknowable l) = lost l

    module _ (m : TargetSessionManager) (request : ProgramRequest)
        (live : IsLive (completed request m)) where
      pub final-ProgramEnd :
          (f : ProgramExecutionFacts) (answer : G × Result TargetState)
          → ProgramEnd m target before request
              (final_state_seen gw pg read_image (completed request m) f answer)
      final-ProgramEnd f (g, err e) =
          later-failure m request
            (failure-FailEnd gw pg read_image (completed request m) live g f e)
      final-ProgramEnd f (g, ok state) = done

      pub finish-ProgramEnd :
          (after : ProgramAfter) (f : ProgramExecutionFacts) (g : G)
          → ProgramEnd m target before request
              (finish_program gw pg read_image after (completed request m) f g)
      unfolding finish_program
      finish-ProgramEnd after f g = final-ProgramEnd f (pg.apply_program_after after g)

      pub verified-ProgramEnd :
          (after : ProgramAfter) (f : ProgramExecutionFacts) (answer : G × Result (Unit {0}))
          → ProgramEnd m target before request
              (verified gw pg read_image after (completed request m) f answer)
      verified-ProgramEnd after f (g, err e) = mismatch
      verified-ProgramEnd after f (g, ok u) =
          finish-ProgramEnd after (advance range_verification final_state f) g

      pub prepared-ProgramEnd :
          (image : List FirmwareSegment) (after : ProgramAfter) (f : ProgramExecutionFacts)
          (answer : G × Result (Unit {0}))
          → ProgramEnd m target before request
              (prepared_verify gw pg read_image image after (completed request m) f answer)
      prepared-ProgramEnd image after f (g, err e) =
          later-failure m request
            (failure-FailEnd gw pg read_image (completed request m) live g f e)
      prepared-ProgramEnd image after f (g, ok u) =
          verified-ProgramEnd after _ (verify_image gw pg read_image image g)
