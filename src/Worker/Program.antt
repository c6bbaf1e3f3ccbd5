-- ===== src/Worker/Program.antt =====
-- crates/jlink-worker/src/program.rs: execute_program, handle_program_failure and verify_image.
pub mod Failure
pub mod Undone
pub mod Ended
pub mod Outcome
pub mod Verified
pub mod Files
pub mod Compared
mod Tests
use jlink_mcp_v.Base.{ℕ, Bool, true, false, not, Option, none, some, List, [], ◌∷◌, length}
use jlink_mcp_v.Domain.Error.{
  JlinkError, new, with_detail, text, Result, ok, err, ◌>>=◌, ok_or, config_invalid,
}
use jlink_mcp_v.Domain.State.{TargetState, running, halted, unknown}
use jlink_mcp_v.Domain.Memory.{MemoryRegion}
use jlink_mcp_v.Domain.Image.{FirmwareSegment}
use jlink_mcp_v.Domain.Program.Ranges.{
  FlashRegion, validate_flash_range, validate_image_flash_ranges,
}
use jlink_mcp_v.Domain.Program.Compare.{
  Accumulator, VerifyMismatch, empty, into_error, mismatch_address_error, compare_segment, finish,
}
use jlink_mcp_v.Domain.Program.Facts.{
  ProgramExecutionFacts, FlashModifiedState, unmodified, modified, unproven, new_facts, advance,
  verify_preparation, range_verification, final_state, known_error, uncertain_error,
}
use jlink_mcp_v.Domain.Session.{
  TargetConnectionSpec, ValidationInvalidation, flash_modified, target_configuration_changed,
}
use jlink_mcp_v.Worker.Gateway.{Gateway}
use jlink_mcp_v.Worker.Manager.{
  TargetSessionManager, ensure_program_allowed, record_flash_modified, record_program_state,
  record_execution_uncertain,
}
use jlink_mcp_v.Worker.Connect.{Session, attempt}
use jlink_mcp_v.Worker.Preflight.{Download}

-- ProgramAfter of program.rs: `None` is `leave`.
pub data ProgramAfter : Type 0 where
  leave reset_halt reset_run : ProgramAfter

-- A path is its text.
pub data ProgramRequest : Type 0 where
  flash : List ℕ → Option ℕ → Bool → ProgramAfter → Option MemoryRegion → ProgramRequest
  erase : Option (ℕ × ℕ) → ProgramAfter → Option MemoryRegion → ProgramRequest
  verify : List ℕ → Option ℕ → ProgramRequest

abbrev pub modifies_flash : ProgramRequest → Bool
modifies_flash (flash image base _ after loader_ram) = true
modifies_flash (erase range after loader_ram) = true
modifies_flash (verify image base) = false

-- The Flash operations of the gateway.
pub record Programmer (G : Type 0) : Type 0 where
  pub device_flash_regions : List ℕ → G → G × Result (List FlashRegion)
  pub program_image : List FirmwareSegment → MemoryRegion → G → ProgramExecutionFacts → Download G
  pub erase_range : ℕ → ℕ → MemoryRegion → G → ProgramExecutionFacts → Download G
  pub erase_chip : MemoryRegion → G → ProgramExecutionFacts → Download G
  pub reset_halt_for_flash : G → G × Result (Unit {0})
  pub apply_program_after : ProgramAfter → G → G × Result TargetState

abbrev pub missing_loader_ram_error : JlinkError
missing_loader_ram_error =
    with_detail (new config_invalid false) "field" (text "profile.loader_ram")

-- `compare_segment` always answers: its fuel is the length of the segment.
abbrev pub answered : Option (Result Accumulator) → Result Accumulator
answered none = err mismatch_address_error
answered (some r) = r

abbrev pub verdict : Option VerifyMismatch → Result (Unit {0})
verdict none = ok tt
verdict (some mismatch) = err (into_error mismatch)

abbrev pub invalidation : FlashModifiedState → ValidationInvalidation
invalidation modified = flash_modified
invalidation unproven = flash_modified
invalidation unmodified = target_configuration_changed

abbrev trusted : TargetState → ProgramExecutionFacts → ProgramExecutionFacts
trusted state f = record f { last_trusted_target_state = some state }

abbrev pub observed_facts : ProgramExecutionFacts → Result TargetState → ProgramExecutionFacts
observed_facts f (err e) = f
observed_facts f (ok state) = trusted state f

abbrev pub observed_state : Result TargetState → TargetState
observed_state (err e) = unknown
observed_state (ok state) = state

module _ {G : Type 0} (gw : Gateway G) (pg : Programmer G)
    (read_image : List ℕ → Option ℕ → Result (List FirmwareSegment)) where
  abbrev Program : Type 0
  Program = Session G × Result (Unit {0})

  -- One segment that was read, and the rest of the loop.
  abbrev pub compare_read :
      FirmwareSegment
      → Accumulator
      → (Accumulator → G → G × Result (Unit {0}))
      → G × Result (List ℕ)
      → G × Result (Unit {0})
  compare_read s mismatches rest (g, err e) = (g, err e)
  compare_read s mismatches rest (g, ok actual) =
      attempt (answered (compare_segment s.address s.bytes actual mismatches)) g
        (λ next. rest next g)

  -- The loop of verify_image.
  unfoldable pub verify_segments : List FirmwareSegment → Accumulator → G → G × Result (Unit {0})
  verify_segments [] mismatches g = (g, verdict (finish mismatches))
  verify_segments (s ∷ segments) mismatches g =
      compare_read s mismatches (verify_segments segments)
        (gw.read_bytes s.address (length s.bytes) g)

  unfoldable pub verify_image : List FirmwareSegment → G → G × Result (Unit {0})
  unfolding verify_segments
  verify_image segments g = verify_segments segments empty g

  -- After the target state was observed where it was not known.
  unfoldable pub fail_with_facts :
      TargetSessionManager → G → ProgramExecutionFacts → JlinkError → Program
  fail_with_facts m g f error = elim f.side_effect_dispatched [
    | false ↦ ((m, g), err (known_error f error))
    | true ↦
        let closed = gw.close_target g in
        let (m1, recorded) = record_execution_uncertain (invalidation f.flash_modified) m in
        attempt recorded (m1, closed) (λ u. ((m1, closed), err (uncertain_error f error)))
  ]

  -- By the last trusted target state.
  abbrev pub fail_observed :
      Option TargetState → TargetSessionManager → G → ProgramExecutionFacts → JlinkError → Program
  fail_observed (some state) m g f error = fail_with_facts m g f error
  fail_observed none m g f error =
      let (g1, seen) = gw.observe_target_state g in
      fail_with_facts m g1 (observed_facts f seen) error

  unfoldable pub handle_program_failure :
      TargetSessionManager → G → ProgramExecutionFacts → JlinkError → Program
  unfolding fail_with_facts
  handle_program_failure m g f error = fail_observed f.last_trusted_target_state m g f error

  -- The requested final state.
  abbrev pub final_state_seen :
      TargetSessionManager → ProgramExecutionFacts → G × Result TargetState → Program
  final_state_seen m f (g, err e) = handle_program_failure m g f e
  final_state_seen m f (g, ok state) = ((record_program_state state m, g), ok tt)

  unfoldable pub finish_program :
      ProgramAfter → TargetSessionManager → ProgramExecutionFacts → G → Program
  unfolding handle_program_failure
  finish_program after m f g = final_state_seen m f (pg.apply_program_after after g)

  -- A comparison that failed: the state is observed and recorded.
  abbrev pub fail_verify : TargetSessionManager → ProgramExecutionFacts → JlinkError → G → Program
  fail_verify m f e g =
      let (g1, seen) = gw.observe_target_state g in
      let state = observed_state seen in
      ((record_program_state state m, g1), err (known_error (trusted state f) e))

  abbrev pub verified :
      ProgramAfter → TargetSessionManager → ProgramExecutionFacts → G × Result (Unit {0}) → Program
  verified after m f (g, err e) = fail_verify m f e g
  verified after m f (g, ok u) = finish_program after m (advance range_verification final_state f) g

  abbrev pub prepared_verify :
      List FirmwareSegment
      → ProgramAfter
      → TargetSessionManager
      → ProgramExecutionFacts
      → G × Result (Unit {0})
      → Program
  prepared_verify image after m f (g, err e) = handle_program_failure m g f e
  prepared_verify image after m f (g, ok u) =
      verified after m (advance verify_preparation range_verification (trusted halted f))
        (verify_image image g)

  -- After the download of an image.
  unfoldable pub programmed :
      List FirmwareSegment → Bool → ProgramAfter → TargetSessionManager → Download G → Program
  unfolding verify_image finish_program
  programmed image check after m ((g, f), err e) = handle_program_failure m g f e
  programmed image true after m ((g, f), ok u) =
      prepared_verify image after (record_flash_modified m) f (pg.reset_halt_for_flash g)
  programmed image false after m ((g, f), ok u) =
      finish_program after (record_flash_modified m) (record f { current_stage = final_state }) g

  unfoldable pub erased : ProgramAfter → TargetSessionManager → Download G → Program
  unfolding finish_program
  erased after m ((g, f), err e) = handle_program_failure m g f e
  erased after m ((g, f), ok u) = finish_program after (record_flash_modified m) f g

  -- ProgramRequest::Flash, once its image and the regions are checked.
  abbrev pub flash_checked :
      List FirmwareSegment
      → MemoryRegion
      → Bool
      → ProgramAfter
      → TargetSessionManager
      → G × Result (List FlashRegion)
      → Program
  flash_checked image loader check after m (g, err e) = ((m, g), err e)
  flash_checked image loader check after m (g, ok regions) =
      attempt (validate_image_flash_ranges image regions) (m, g)
        λ inside. programmed image check after m (pg.program_image image loader g new_facts)

  abbrev pub erase_checked :
      Option (ℕ × ℕ)
      → MemoryRegion
      → ProgramAfter
      → TargetSessionManager
      → G × Result (List FlashRegion)
      → Program
  erase_checked range loader after m (g, err e) = ((m, g), err e)
  erase_checked none loader after m (g, ok regions) =
      erased after m (pg.erase_chip loader g new_facts)
  erase_checked (some (address, size)) loader after m (g, ok regions) =
      attempt (validate_flash_range regions address size) (m, g)
        λ inside. erased after m (pg.erase_range address size loader g new_facts)

  -- The last observation of a verify request, which alone may fail.
  abbrev pub verify_observed : TargetSessionManager → G × Result TargetState → Program
  verify_observed m (g, err e) = ((m, g), err e)
  verify_observed m (g, ok state) = ((record_program_state state m, g), ok tt)

  abbrev pub verify_compared : TargetSessionManager → G × Result (Unit {0}) → Program
  verify_compared m (g, err e) =
      fail_verify m (record new_facts { current_stage = range_verification }) e g
  verify_compared m (g, ok u) = verify_observed m (gw.observe_target_state g)

  abbrev pub verify_checked :
      List FirmwareSegment → TargetSessionManager → G × Result (List FlashRegion) → Program
  verify_checked image m (g, err e) = ((m, g), err e)
  verify_checked image m (g, ok regions) =
      attempt (validate_image_flash_ranges image regions) (m, g)
        λ inside. verify_compared m (verify_image image g)

  unfoldable pub run_program :
      TargetConnectionSpec → ProgramRequest → TargetSessionManager → G → Program
  unfolding programmed erased verify_image
  run_program target (flash path base check after loader) m g =
      attempt (ok_or loader missing_loader_ram_error) (m, g)
        λ region.
          attempt (read_image path base) (m, g)
            λ image.
              flash_checked image region check after m (pg.device_flash_regions target.device g)
  run_program target (erase range after loader) m g =
      attempt (ok_or loader missing_loader_ram_error) (m, g)
        λ region. erase_checked range region after m (pg.device_flash_regions target.device g)
  run_program target (verify path base) m g =
      attempt (read_image path base) (m, g)
        λ image. verify_checked image m (pg.device_flash_regions target.device g)

  unfoldable pub execute_program : TargetConnectionSpec → ProgramRequest → Session G → Program
  unfolding run_program
  execute_program target request (m, g) =
      attempt (ensure_program_allowed m target) (m, g) λ allowed. run_program target request m g
