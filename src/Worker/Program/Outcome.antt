-- ===== src/Worker/Program/Outcome.antt =====
-- How a programming request can end for the session.
use jlink_mcp_v.Base.{
  subst, sym, ℕ, Bool, true, false, Option, none, some, List, ◌≡◌, refl, list_equal, option_equal,
}
use jlink_mcp_v.Domain.Error.{Result, ok, err}
use jlink_mcp_v.Domain.State.{TargetState}
use jlink_mcp_v.Domain.Memory.{MemoryRegion}
use jlink_mcp_v.Domain.Image.{FirmwareSegment}
use jlink_mcp_v.Domain.Program.Ranges.{
  FlashRegion, validate_flash_range, validate_image_flash_ranges,
}
use jlink_mcp_v.Domain.Program.Facts.{new_facts, final_state}
use jlink_mcp_v.Domain.Session.{TargetConnectionSpec}
use jlink_mcp_v.Worker.Gateway.{Gateway}
use jlink_mcp_v.Worker.Manager.{TargetSessionManager, ensure_program_allowed, record_flash_modified}
use jlink_mcp_v.Worker.Connect.{attempt}
use jlink_mcp_v.Worker.Connect.Consistent.{IsLive}
use jlink_mcp_v.Worker.Preflight.{Download}
use jlink_mcp_v.Worker.Program.{
  ProgramAfter, ProgramRequest, flash, erase, verify, Programmer, verify_image, finish_program,
  prepared_verify, programmed, erased, flash_checked, erase_checked, verify_observed,
  verify_compared, verify_checked, run_program, execute_program,
}
use jlink_mcp_v.Worker.Program.Failure.{failure-FailEnd}
use jlink_mcp_v.Worker.Program.Undone.{
  Undone, not_allowed, compares_only, no_loader, no_eraser, no_regions, not_read, outside,
  not_downloaded, chip_kept, range_outside, range_kept,
}
use jlink_mcp_v.Worker.Program.Ended.{
  completed, record_flash_modified-IsLive, ProgramEnd, unchanged, mismatch, done, first-failure,
  finish-ProgramEnd, prepared-ProgramEnd,
}

module _ {G : Type 0} (gw : Gateway G) (pg : Programmer G)
    (read_image : List ℕ → Option ℕ → Result (List FirmwareSegment)) where
  module _ (target : TargetConnectionSpec) (before : G) where
    module _ (m : TargetSessionManager) (live : IsLive m) where
      module _ (request : ProgramRequest)
          (changes : completed request m ≡ record_flash_modified m) where
        -- What a failure of a download or an erase says of the request.
        abbrev IsUndone : Download G → Type 0
        IsUndone ((k, f), ok u) = Unit
        IsUndone ((k, f), err e) =
            f.side_effect_dispatched ≡ false → Undone pg read_image m target before request

        IsLive-changed : IsLive (completed request m)
        IsLive-changed = subst IsLive (sym changes) (record_flash_modified-IsLive m live)

        programmed-ProgramEnd :
            (image : List FirmwareSegment) (check : Bool) (after : ProgramAfter) (d : Download G)
            → IsUndone d
            → ProgramEnd gw pg read_image m target before request
                (programmed gw pg read_image image check after m d)
        unfolding programmed
        programmed-ProgramEnd image check after ((g, f), err e) undone =
            first-failure gw pg read_image target before m request undone
              (failure-FailEnd gw pg read_image m live g f e)
        programmed-ProgramEnd image true after ((g, f), ok u) undone =
            subst
              (λ n.
                ProgramEnd gw pg read_image m target before request
                  (prepared_verify gw pg read_image image after n f (pg.reset_halt_for_flash g)))
              changes
              (prepared-ProgramEnd gw pg read_image target before m request IsLive-changed image
                after f (pg.reset_halt_for_flash g))
        programmed-ProgramEnd image false after ((g, f), ok u) undone =
            subst
              (λ n. ProgramEnd gw pg read_image m target before request (
                finish_program gw pg read_image after n (record f { current_stage = final_state })
                  g))
              changes
              (finish-ProgramEnd gw pg read_image target before m request IsLive-changed after
                (record f { current_stage = final_state }) g)

        erased-ProgramEnd :
            (after : ProgramAfter) (d : Download G)
            → IsUndone d
            → ProgramEnd gw pg read_image m target before request
                (erased gw pg read_image after m d)
        unfolding erased
        erased-ProgramEnd after ((g, f), err e) undone =
            first-failure gw pg read_image target before m request undone
              (failure-FailEnd gw pg read_image m live g f e)
        erased-ProgramEnd after ((g, f), ok u) undone =
            subst
              (λ n.
                ProgramEnd gw pg read_image m target before request
                  (finish_program gw pg read_image after n f g))
              changes
              (finish-ProgramEnd gw pg read_image target before m request IsLive-changed after f g)

      module _ (path : List ℕ) (base : Option ℕ) (check : Bool) (after : ProgramAfter) where
        flash-ProgramEnd :
            (image : List FirmwareSegment) (region : MemoryRegion)
            (answer : G × Result (List FlashRegion))
            → read_image path base ≡ ok image
            → pg.device_flash_regions target.device before ≡ answer
            → ProgramEnd gw pg read_image m target before
                (flash path base check after (some region))
                (flash_checked gw pg read_image image region check after m answer)
        unfolding record_flash_modified
        flash-ProgramEnd image region (g, err e) file found = unchanged (no_regions found)
        flash-ProgramEnd image region (g, ok regions) file found =
            inside (validate_image_flash_ranges image regions) refl
          where
            undone :
                (d : Download G)
                → pg.program_image image region g new_facts ≡ d
                → IsUndone (flash path base check after (some region)) refl d
            undone ((k, f), ok u) sent = tt
            undone ((k, f), err e) sent = λ unsent. not_downloaded file found sent unsent

            inside :
                (r : Result (Unit {0}))
                → validate_image_flash_ranges image regions ≡ r
                → ProgramEnd gw pg read_image m target before
                    (flash path base check after (some region))
                    (attempt r
                      (m, g)
                      (λ t.
                        programmed gw pg read_image image check after m
                          (pg.program_image image region g new_facts)))
            inside (err e) out = unchanged (outside file found out)
            inside (ok t) out =
                programmed-ProgramEnd (flash path base check after (some region)) refl image check
                  after (pg.program_image image region g new_facts)
                  (undone (pg.program_image image region g new_facts) refl)

      module _ (after : ProgramAfter) (region : MemoryRegion) where
        erase-ProgramEnd :
            (range : Option (ℕ × ℕ)) (answer : G × Result (List FlashRegion))
            → pg.device_flash_regions target.device before ≡ answer
            → ProgramEnd gw pg read_image m target before
                (erase range after (some region))
                (erase_checked gw pg read_image range region after m answer)
        unfolding record_flash_modified
        erase-ProgramEnd range (g, err e) found = unchanged (no_regions found)
        erase-ProgramEnd none (g, ok regions) found =
            erased-ProgramEnd (erase none after (some region)) refl after
              (pg.erase_chip region g new_facts) (undone (pg.erase_chip region g new_facts) refl)
          where
            undone :
                (d : Download G)
                → pg.erase_chip region g new_facts ≡ d
                → IsUndone (erase none after (some region)) refl d
            undone ((k, f), ok u) sent = tt
            undone ((k, f), err e) sent = λ unsent. chip_kept found sent unsent
        erase-ProgramEnd (some (address, size)) (g, ok regions) found =
            inside (validate_flash_range regions address size) refl
          where
            undone :
                (d : Download G)
                → pg.erase_range address size region g new_facts ≡ d
                → IsUndone (erase (some (address, size)) after (some region)) refl d
            undone ((k, f), ok u) sent = tt
            undone ((k, f), err e) sent = λ unsent. range_kept found sent unsent

            inside :
                (r : Result (Unit {0}))
                → validate_flash_range regions address size ≡ r
                → ProgramEnd gw pg read_image m target before
                    (erase (some (address, size)) after (some region))
                    (attempt r
                      (m, g)
                      (λ t.
                        erased gw pg read_image after m
                          (pg.erase_range address size region g new_facts)))
            inside (err e) out = unchanged (range_outside found out)
            inside (ok t) out =
                erased-ProgramEnd (erase (some (address, size)) after (some region)) refl after
                  (pg.erase_range address size region g new_facts)
                  (undone (pg.erase_range address size region g new_facts) refl)

      module _ (path : List ℕ) (base : Option ℕ) where
        seen-ProgramEnd :
            (answer : G × Result TargetState)
            → ProgramEnd gw pg read_image m target before
                (verify path base)
                (verify_observed gw pg read_image m answer)
        seen-ProgramEnd (g, err e) = unchanged compares_only
        seen-ProgramEnd (g, ok state) = done

        compared-ProgramEnd :
            (answer : G × Result (Unit {0}))
            → ProgramEnd gw pg read_image m target before
                (verify path base)
                (verify_compared gw pg read_image m answer)
        compared-ProgramEnd (g, err e) = mismatch
        compared-ProgramEnd (g, ok u) = seen-ProgramEnd (gw.observe_target_state g)

        verify-ProgramEnd :
            (image : List FirmwareSegment) (answer : G × Result (List FlashRegion))
            → ProgramEnd gw pg read_image m target before
                (verify path base)
                (verify_checked gw pg read_image image m answer)
        verify-ProgramEnd image (g, err e) = unchanged compares_only
        verify-ProgramEnd image (g, ok regions) = inside (validate_image_flash_ranges image regions)
          where
            inside :
                (r : Result (Unit {0}))
                → ProgramEnd gw pg read_image m target before (verify path base) (
                    attempt r
                      (m, g)
                      (λ t.
                        verify_compared gw pg read_image m (verify_image gw pg read_image image g)))
            inside (err e) = unchanged compares_only
            inside (ok t) = compared-ProgramEnd (verify_image gw pg read_image image g)

      run_program-ProgramEnd :
          (request : ProgramRequest)
          → ProgramEnd gw pg read_image m target before request
              (run_program gw pg read_image target request m before)
      unfolding run_program
      run_program-ProgramEnd (flash path base check after none) = unchanged no_loader
      run_program-ProgramEnd (flash path base check after (some region)) =
          read (read_image path base) refl
        where
          read :
              (r : Result (List FirmwareSegment))
              → read_image path base ≡ r
              → ProgramEnd gw pg read_image m target before
                  (flash path base check after (some region))
                  (attempt r
                    (m, before)
                    (λ image.
                      flash_checked gw pg read_image image region check after m
                        (pg.device_flash_regions target.device before)))
          read (err e) file = unchanged (not_read file)
          read (ok image) file =
              flash-ProgramEnd path base check after image region
                (pg.device_flash_regions target.device before) file refl
      run_program-ProgramEnd (erase range after none) = unchanged no_eraser
      run_program-ProgramEnd (erase range after (some region)) =
          erase-ProgramEnd after region range (pg.device_flash_regions target.device before) refl
      run_program-ProgramEnd (verify path base) = read (read_image path base)
        where
          read :
              (r : Result (List FirmwareSegment))
              → ProgramEnd gw pg read_image m target before (verify path base) (
                  attempt r
                    (m, before)
                    (λ image.
                      verify_checked gw pg read_image image m
                        (pg.device_flash_regions target.device before)))
          read (err e) = unchanged compares_only
          read (ok image) =
              verify-ProgramEnd path base image (pg.device_flash_regions target.device before)

  -- A programming request on a live connection ends in one of these ways. It fails before any side effect
  -- was sent to the target, because it was not allowed, had no loader, no image or no Flash regions, lay
  -- outside the Flash, or failed in its download or erase without a side effect, or it only compares;
  -- then the session manager is as it was. Or the connection is given up, and the session is faulted and
  -- has forgotten the target. Or it succeeds or fails later: then, after a download or an erase, no
  -- firmware is proved, no background access is validated and the last invalidation is the Flash
  -- change; the target state may be another, and nothing else of the manager is changed.
  pub execute_program-ProgramEnd :
      (m : TargetSessionManager)
      → IsLive m
      → (target : TargetConnectionSpec) (request : ProgramRequest) (g : G)
      → ProgramEnd gw pg read_image m target g request
          (execute_program gw pg read_image target request (m, g))
  unfolding execute_program
  execute_program-ProgramEnd m live target request g =
      allowed (ensure_program_allowed m target) refl
    where
      allowed :
          (r : Result (Unit {0}))
          → ensure_program_allowed m target ≡ r
          → ProgramEnd gw pg read_image m target g request
              (attempt r (m, g) (λ t. run_program gw pg read_image target request m g))
      allowed (err e) refusal = unchanged (not_allowed refusal)
      allowed (ok t) granted = run_program-ProgramEnd target g m live request
