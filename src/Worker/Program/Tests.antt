-- ===== src/Worker/Program/Tests.antt =====
-- crates/jlink-worker/src/program.rs: requests on a bench that answers at once.
use jlink_mcp_v.Base.{
  ℕ, ◌≡◌, ◌↔◌, Option, none, some, true, false, List, [], ◌∷◌, refl, inr, take, drop, arith,
}
use jlink_mcp_v.Base.Text.{
  trim, is_ascii_alphanumeric, to_ascii_lowercase, starts_with, contains_text,
}
use jlink_mcp_v.Domain.Error.{new, Result, ok, target_connect_failed}
use jlink_mcp_v.Domain.State.{TargetState, running, halted, connected}
use jlink_mcp_v.Domain.Image.{FirmwareSegment}
use jlink_mcp_v.Domain.Program.Facts.{new_facts, dispatch_side_effect}
use jlink_mcp_v.Domain.Session.{validate_spec}
use jlink_mcp_v.Worker.Manager.{TargetSessionManager, ensure_program_allowed, record_program_state}
use jlink_mcp_v.Worker.Connect.Consistent.{IsLive}
use jlink_mcp_v.Worker.Download.{program_image}
use jlink_mcp_v.Worker.Download.Tests.{flasher, image, loader}
use jlink_mcp_v.Worker.Program.{
  Programmer, flash, verify, reset_run, handle_program_failure, execute_program, verify_image,
}
use jlink_mcp_v.Domain.Image.Valid.{IsImageData}
use jlink_mcp_v.Domain.Program.Compare.{compare_segment, finish}
use jlink_mcp_v.Worker.Gateway.{Gateway}
use jlink_mcp_v.Domain.Program.Ranges.{validate_image_flash_ranges}
use jlink_mcp_v.Domain.Image.Parse.{parse_image, read_segments}
use jlink_mcp_v.Worker.Program.Files.{read_image_segments}
use jlink_mcp_v.Worker.Program.Compared.{IsCompared, verifying, execute_program-IsCompared}
use jlink_mcp_v.Worker.Program.Verified.{ReadsBack, verify_image_iff}
use jlink_mcp_v.Worker.Program.Failure.{IsLost, handle_program_failure-IsLost}
use jlink_mcp_v.Worker.Program.Ended.{ProgramEnd}
use jlink_mcp_v.Worker.Program.Outcome.{execute_program-ProgramEnd}
use jlink_mcp_v.Worker.Session.Tests.{bench, board}

abbrev programmer : Programmer TargetState
programmer = record {
  device_flash_regions = λ device g. (g, ok (record { address = 0; length = 65536 } ∷ []));
  program_image = program_image flasher bench;
  erase_range = λ address size region g f. ((g, dispatch_side_effect f), ok tt);
  erase_chip = λ region g f. ((g, dispatch_side_effect f), ok tt);
  reset_halt_for_flash = λ g. (halted, ok tt);
  apply_program_after = λ after g. (running, ok running);
}

abbrev files : List ℕ → Option ℕ → Result (List FirmwareSegment)
files path base = ok image

-- The manager of a connected board.
abbrev live_manager : TargetSessionManager
live_manager = record {
  connection_state = connected;
  target_state = running;
  target_id = some 5;
  hss_active = false;
  active_target = some board;
  validation_key = some board;
  validation_checks = [];
  running_background_access = none;
  firmware_identity = none;
  connection_generation = 1;
  dll_sha256 = [];
  validation_runs = 1;
  recovery_notifications = [];
  last_invalidation = none;
}

live_manager-IsLive : IsLive live_manager
unfolding validate_spec trim is_ascii_alphanumeric to_ascii_lowercase starts_with contains_text
live_manager-IsLive = record {
  phase = refl;
  spec = board;
  target = refl;
  valid = refl;
  key = inr refl;
  identity = tt;
}

handle_program_failure-IsLost_example : IsLost bench programmer files (
    handle_program_failure bench programmer files live_manager running
      (dispatch_side_effect new_facts)
      (new target_connect_failed true))
handle_program_failure-IsLost_example =
    handle_program_failure-IsLost bench programmer files live_manager running
      (dispatch_side_effect new_facts) (new target_connect_failed true) live_manager-IsLive refl

execute_program-ProgramEnd_example :
    ProgramEnd bench programmer files live_manager board running
      (flash [] none true reset_run (some loader))
      (execute_program bench programmer files board
        (flash [] none true reset_run (some loader))
        (live_manager, running))
execute_program-ProgramEnd_example =
    execute_program-ProgramEnd bench programmer files live_manager live_manager-IsLive board
      (flash [] none true reset_run (some loader)) running

abbrev flash_memory : List ℕ
flash_memory = 1 ∷ 2 ∷ 3 ∷ 0 ∷ 0 ∷ 0 ∷ 0 ∷ 0 ∷ 0 ∷ 0 ∷ 0 ∷ 0 ∷ 0 ∷ 0 ∷ 0 ∷ 0 ∷ 4 ∷ []

abbrev flash_bench : Gateway TargetState
flash_bench = record bench {
  read_bytes = λ address size g. (g, ok (take size (drop address flash_memory)));
}

image-IsImageData : IsImageData image
image-IsImageData = (
  (
    record { nonempty = omega arith; bounded = omega arith },
    (record { nonempty = omega arith; bounded = omega arith }, tt),
  ),
  ((omega arith, tt), (tt, tt)),
)

verify_image_iff_example :
    (verify_image flash_bench programmer files image running ≡ (running, ok tt))
    ↔ ReadsBack flash_bench image running running
verify_image_iff_example =
    verify_image_iff flash_bench programmer files image running running image-IsImageData

image_verified : verify_image flash_bench programmer files image running ≡ (running, ok tt)
unfolding verify_image compare_segment finish
image_verified = refl

abbrev bin_extension : List ℕ → Option (List ℕ)
bin_extension path = some (b'b' ∷ b'i' ∷ b'n' ∷ [])

-- The path is the contents of the file, and the digest too.
abbrev file_image : List ℕ → Option ℕ → Result (List FirmwareSegment)
file_image = read_image_segments (λ path. some path) (λ b. none) bin_extension (λ b. b)

verified_file :
    execute_program flash_bench programmer file_image board
      (verify (1 ∷ 2 ∷ 3 ∷ []) (some 0))
      (live_manager, running)
    ≡ ((record_program_state running live_manager, running), ok tt)
unfolding execute_program parse_image read_segments read_image_segments ensure_program_allowed
    validate_image_flash_ranges record_program_state compare_segment finish
verified_file = refl

execute_program-IsCompared_example : IsCompared flash_bench file_image (1 ∷ 2 ∷ 3 ∷ []) (some 0)
execute_program-IsCompared_example =
    execute_program-IsCompared flash_bench programmer (λ path. some path) (λ b. none) bin_extension
      (λ b. b) board live_manager running (record_program_state running live_manager, running)
      verifying verified_file
