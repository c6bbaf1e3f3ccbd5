-- ===== src/Worker/Program/Compared.antt =====
-- program.rs: a request that compares an image passes only if the target reads back as the image of
-- its file.
use jlink_mcp_v.Base.{
  ℕ, ◌≡◌, refl, subst, true, false, Option, none, some, List, Bool-cases, inl, inr,
}
use jlink_mcp_v.Domain.Error.{JlinkError, new, Result, ok, err, ok_or, value_invalid}
use jlink_mcp_v.Domain.State.{TargetState}
use jlink_mcp_v.Domain.Memory.{MemoryRegion}
use jlink_mcp_v.Domain.Image.{FirmwareSegment}
use jlink_mcp_v.Domain.Image.Valid.{IfOk, IfOk-then, IfOk-bind, IsImageData}
use jlink_mcp_v.Domain.Image.Elf.{ObjectFile}
use jlink_mcp_v.Domain.Image.Parse.{FirmwareImage, parse_image}
use jlink_mcp_v.Domain.Image.Parse.Accepted.{parse_image-IsAccepted}
use jlink_mcp_v.Domain.Program.Ranges.{FlashRegion, validate_image_flash_ranges}
use jlink_mcp_v.Domain.Program.Facts.{ProgramExecutionFacts, new_facts}
use jlink_mcp_v.Domain.Session.{TargetConnectionSpec}
use jlink_mcp_v.Worker.Gateway.{Gateway}
use jlink_mcp_v.Worker.Manager.{
  TargetSessionManager, ensure_program_allowed, record_execution_uncertain, record_flash_modified,
}
use jlink_mcp_v.Worker.Connect.{Session, attempt}
use jlink_mcp_v.Worker.Preflight.{Download}
use jlink_mcp_v.Worker.Program.{
  ProgramAfter, ProgramRequest, flash, verify, Programmer, missing_loader_ram_error, verify_image,
  fail_with_facts, fail_observed, observed_facts, invalidation, handle_program_failure, verified,
  prepared_verify, programmed, flash_checked, verify_compared, verify_checked, run_program,
  execute_program,
}
use jlink_mcp_v.Worker.Program.Files.{read_image, read_image_segments}
use jlink_mcp_v.Worker.Program.Verified.{ReadsBack, verify_image_iff}

-- A request that compares the image of a file with the target.
pub data Compares : ProgramRequest → List ℕ → Option ℕ → Type 0 where
  flashed :
      {path : List ℕ} {base : Option ℕ} {after : ProgramAfter} {loader : Option MemoryRegion}
      → Compares (flash path base true after loader) path base
  verifying : {path : List ℕ} {base : Option ℕ} → Compares (verify path base) path base

-- The segments that were read from the file, and two states of the gateway between which the target
-- gives them.
pub record IsCompared {G : Type 0} (gw : Gateway G)
    (read_image : List ℕ → Option ℕ → Result (List FirmwareSegment)) (path : List ℕ)
    (base : Option ℕ) : Type 0 where
  pub image : List FirmwareSegment
  pub from_file : read_image path base ≡ ok image
  pub before : G
  pub after : G
  pub same : ReadsBack gw image before after

module _ {G : Type 0} (P : Type 0) where
  -- `P` holds if the request passed.
  abbrev IfPassed : Session G × Result (Unit {0}) → Type 0
  IfPassed (s, ok u) = P
  IfPassed (s, err e) = Unit

  IfPassed-always : (x : Session G × Result (Unit {0})) → P → IfPassed x
  IfPassed-always (s, ok u) p = p
  IfPassed-always (s, err e) p = tt

  IfPassed-attempt :
      {A : Type 0} (r : Result A) (s : Session G) (k : A → Session G × Result (Unit {0}))
      → ((a : A) → r ≡ ok a → IfPassed (k a))
      → IfPassed (attempt r s k)
  IfPassed-attempt (err e) s k h = tt
  IfPassed-attempt (ok a) s k h = h a refl

module _ {G : Type 0} (gw : Gateway G) (pg : Programmer G)
    (read_image : List ℕ → Option ℕ → Result (List FirmwareSegment))
    (reads : (path : List ℕ) (base : Option ℕ) → IfOk IsImageData (read_image path base)) where
  module _ (P : Type 0) where
    with_facts-IfPassed :
        (m : TargetSessionManager) (g : G) (f : ProgramExecutionFacts) (e : JlinkError)
        → IfPassed P (fail_with_facts gw pg read_image m g f e)
    unfolding fail_with_facts
    with_facts-IfPassed m g f e = elim (Bool-cases f.side_effect_dispatched) [
      | inl sent ↦
          rw (fail_with_facts, sent)
            (IfPassed-attempt P ((record_execution_uncertain (invalidation f.flash_modified) m).1) _
              _ (λ u recorded. tt))
      | inr unsent ↦ rw (fail_with_facts, unsent) tt
    ]

    failure-IfPassed :
        (m : TargetSessionManager) (g : G) (f : ProgramExecutionFacts) (e : JlinkError)
        → IfPassed P (handle_program_failure gw pg read_image m g f e)
    unfolding handle_program_failure
    failure-IfPassed m g f e = observed f.last_trusted_target_state
      where
        observed : (o : Option TargetState) → IfPassed P (fail_observed gw pg read_image o m g f e)
        observed (some state) = with_facts-IfPassed m g f e
        observed none =
            with_facts-IfPassed m (gw.observe_target_state g).0
              (observed_facts f (gw.observe_target_state g).1) e

  module _ (path : List ℕ) (base : Option ℕ) (image : List FirmwareSegment)
      (from_file : read_image path base ≡ ok image) where
    abbrev End : Session G × Result (Unit {0}) → Type 0
    End = IfPassed (IsCompared gw read_image path base)

    -- A comparison that passed.
    seen :
        (g g' : G)
        → verify_image gw pg read_image image g ≡ (g', ok tt)
        → IsCompared gw read_image path base
    seen g g' h =
        let valid = subst (IfOk IsImageData) from_file (reads path base) in
        record {
          image = image;
          from_file = from_file;
          before = g;
          after = g';
          same = (verify_image_iff gw pg read_image image g g' valid).0 h;
        }

    verified-End :
        (after : ProgramAfter) (m : TargetSessionManager) (f : ProgramExecutionFacts) (g : G)
        (x : G × Result (Unit {0}))
        → verify_image gw pg read_image image g ≡ x
        → End (verified gw pg read_image after m f x)
    verified-End after m f g (g', err e) h = tt
    verified-End after m f g (g', ok u) h =
        IfPassed-always (IsCompared gw read_image path base)
          (verified gw pg read_image after m f (g', ok u)) (seen g g' h)

    prepared-End :
        (after : ProgramAfter) (m : TargetSessionManager) (f : ProgramExecutionFacts)
        (x : G × Result (Unit {0}))
        → End (prepared_verify gw pg read_image image after m f x)
    prepared-End after m f (g, err e) =
        failure-IfPassed (IsCompared gw read_image path base) m g f e
    prepared-End after m f (g, ok u) =
        verified-End after m _ g (verify_image gw pg read_image image g) refl

    programmed-End :
        (after : ProgramAfter) (m : TargetSessionManager) (d : Download G)
        → End (programmed gw pg read_image image true after m d)
    unfolding programmed
    programmed-End after m ((g, f), err e) =
        failure-IfPassed (IsCompared gw read_image path base) m g f e
    programmed-End after m ((g, f), ok u) =
        prepared-End after (record_flash_modified m) f (pg.reset_halt_for_flash g)

    flash_checked-End :
        (loader : MemoryRegion) (after : ProgramAfter) (m : TargetSessionManager)
        (x : G × Result (List FlashRegion))
        → End (flash_checked gw pg read_image image loader true after m x)
    flash_checked-End loader after m (g, err e) = tt
    flash_checked-End loader after m (g, ok regions) =
        IfPassed-attempt (IsCompared gw read_image path base)
          (validate_image_flash_ranges image regions) (m, g) _
          (λ u inside. programmed-End after m (pg.program_image image loader g new_facts))

    compared-End :
        (m : TargetSessionManager) (g : G) (x : G × Result (Unit {0}))
        → verify_image gw pg read_image image g ≡ x
        → End (verify_compared gw pg read_image m x)
    compared-End m g (g', err e) h = tt
    compared-End m g (g', ok u) h =
        IfPassed-always (IsCompared gw read_image path base)
          (verify_compared gw pg read_image m (g', ok u)) (seen g g' h)

    verify_checked-End :
        (m : TargetSessionManager) (x : G × Result (List FlashRegion))
        → End (verify_checked gw pg read_image image m x)
    verify_checked-End m (g, err e) = tt
    verify_checked-End m (g, ok regions) =
        IfPassed-attempt (IsCompared gw read_image path base)
          (validate_image_flash_ranges image regions) (m, g) _
          (λ u inside. compared-End m g (verify_image gw pg read_image image g) refl)

  run_program-IfPassed :
      (target : TargetConnectionSpec) (m : TargetSessionManager) (g : G) {request : ProgramRequest}
      {path : List ℕ} {base : Option ℕ}
      → Compares request path base
      → IfPassed
          (IsCompared gw read_image path base)
          (run_program gw pg read_image target request m g)
  unfolding run_program
  run_program-IfPassed target m g
        (flashed {path = path} {base = base} {after = after} {loader = loader}) =
      IfPassed-attempt (IsCompared gw read_image path base) (ok_or loader missing_loader_ram_error)
        (m, g) _
        (λ region given.
          IfPassed-attempt (IsCompared gw read_image path base) (read_image path base) (m, g) _
            (λ image from_file.
              flash_checked-End path base image from_file region after m
                (pg.device_flash_regions target.device g)))
  run_program-IfPassed target m g (verifying {path = path} {base = base}) =
      IfPassed-attempt (IsCompared gw read_image path base) (read_image path base) (m, g) _
        (λ image from_file.
          verify_checked-End path base image from_file m (pg.device_flash_regions target.device g))

  execute_program-IfPassed :
      (target : TargetConnectionSpec) (m : TargetSessionManager) (g : G) {request : ProgramRequest}
      {path : List ℕ} {base : Option ℕ}
      → Compares request path base
      → IfPassed
          (IsCompared gw read_image path base)
          (execute_program gw pg read_image target request (m, g))
  unfolding execute_program
  execute_program-IfPassed target m g {path = path} {base = base} c =
      IfPassed-attempt (IsCompared gw read_image path base) (ensure_program_allowed m target) (m, g)
        _ (λ u allowed. run_program-IfPassed target m g c)

module _ {G : Type 0} (gw : Gateway G) (pg : Programmer G) (read_file : List ℕ → Option (List ℕ))
    (object_parse : List ℕ → Option ObjectFile) (path_extension : List ℕ → Option (List ℕ))
    (sha256_of : List ℕ → List ℕ) where
  read_image-IfOk :
      (path : List ℕ) (base : Option ℕ)
      → IfOk
          (λ image. IsImageData image.segments)
          (read_image read_file object_parse path_extension sha256_of path base)
  unfolding read_image
  read_image-IfOk path base =
      IfOk-then (λ image. IsImageData image.segments)
        (ok_or (read_file path) (new value_invalid false)) _
        (λ bytes.
          accepted bytes (parse_image object_parse path_extension sha256_of path bytes base) refl)
    where
      accepted :
          (bytes : List ℕ) (r : Result FirmwareImage)
          → parse_image object_parse path_extension sha256_of path bytes base ≡ r
          → IfOk (λ image. IsImageData image.segments) r
      accepted bytes (err e) h = tt
      accepted bytes (ok image) h =
          (parse_image-IsAccepted object_parse path_extension sha256_of bytes path base image
            h).segments

  reads_file :
      (path : List ℕ) (base : Option ℕ)
      → IfOk IsImageData
          (read_image_segments read_file object_parse path_extension sha256_of path base)
  unfolding read_image_segments
  reads_file path base =
      IfOk-bind IsImageData (λ image. IsImageData image.segments)
        (read_image read_file object_parse path_extension sha256_of path base) _
        (read_image-IfOk path base) (λ image valid. valid)

  -- If a request that compares an image with the target passes, a verification or a programming that
  -- verifies, then the file was read as an image, and during the request the target gave the bytes of
  -- every segment of that image, one read after the other.
  pub execute_program-IsCompared :
      (target : TargetConnectionSpec) (m : TargetSessionManager) (g : G) (s : Session G)
      {request : ProgramRequest} {path : List ℕ} {base : Option ℕ}
      → Compares request path base
      → execute_program gw pg
          (read_image_segments read_file object_parse path_extension sha256_of)
          target
          request
          (m, g)
        ≡ (s, ok tt)
      → IsCompared gw
          (read_image_segments read_file object_parse path_extension sha256_of)
          path
          base
  execute_program-IsCompared target m g s {path = path} {base = base} c h =
      subst
        (IfPassed (
          IsCompared gw (read_image_segments read_file object_parse path_extension sha256_of) path
            base))
        h
        (execute_program-IfPassed gw pg
          (read_image_segments read_file object_parse path_extension sha256_of) reads_file target m
          g c)
