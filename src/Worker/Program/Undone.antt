-- ===== src/Worker/Program/Undone.antt =====
-- Why a programming request left the Flash alone.
use jlink_mcp_v.Base.{ℕ, Bool, false, Option, none, some, List, ◌≡◌, list_equal, option_equal}
use jlink_mcp_v.Domain.Error.{JlinkError, Result, ok, err}
use jlink_mcp_v.Domain.Memory.{MemoryRegion}
use jlink_mcp_v.Domain.Image.{FirmwareSegment}
use jlink_mcp_v.Domain.Program.Ranges.{
  FlashRegion, validate_flash_range, validate_image_flash_ranges,
}
use jlink_mcp_v.Domain.Program.Facts.{ProgramExecutionFacts, new_facts}
use jlink_mcp_v.Domain.Session.{TargetConnectionSpec}
use jlink_mcp_v.Worker.Manager.{TargetSessionManager, ensure_program_allowed}
use jlink_mcp_v.Worker.Program.{ProgramAfter, ProgramRequest, flash, erase, verify, Programmer}

module _ {G : Type 0} (pg : Programmer G)
    (read_image : List ℕ → Option ℕ → Result (List FirmwareSegment)) where
  -- Why a request left the Flash alone, on a gateway in the state `g`.
  pub data Undone (m : TargetSessionManager) (target : TargetConnectionSpec) (g : G)
      : ProgramRequest → Type 0 where
    not_allowed :
        {request : ProgramRequest} {e : JlinkError}
        → ensure_program_allowed m target ≡ err e
        → Undone m target g request
    compares_only : {path : List ℕ} {base : Option ℕ} → Undone m target g (verify path base)
    no_loader :
        {path : List ℕ} {base : Option ℕ} {check : Bool} {after : ProgramAfter}
        → Undone m target g (flash path base check after none)
    no_eraser :
        {range : Option (ℕ × ℕ)} {after : ProgramAfter} → Undone m target g (erase range after none)
    no_regions :
        {request : ProgramRequest} {h : G} {e : JlinkError}
        → pg.device_flash_regions target.device g ≡ (h, err e)
        → Undone m target g request
    not_read :
        {path : List ℕ} {base : Option ℕ} {check : Bool} {after : ProgramAfter}
        {loader : Option MemoryRegion} {e : JlinkError}
        → read_image path base ≡ err e
        → Undone m target g (flash path base check after loader)
    outside :
        {path : List ℕ} {base : Option ℕ} {check : Bool} {after : ProgramAfter}
        {loader : Option MemoryRegion} {image : List FirmwareSegment} {regions : List FlashRegion}
        {h : G} {e : JlinkError}
        → read_image path base ≡ ok image
        → pg.device_flash_regions target.device g ≡ (h, ok regions)
        → validate_image_flash_ranges image regions ≡ err e
        → Undone m target g (flash path base check after loader)
    not_downloaded :
        {path : List ℕ} {base : Option ℕ} {check : Bool} {after : ProgramAfter}
        {region : MemoryRegion} {image : List FirmwareSegment} {regions : List FlashRegion}
        {h k : G} {f : ProgramExecutionFacts} {e : JlinkError}
        → read_image path base ≡ ok image
        → pg.device_flash_regions target.device g ≡ (h, ok regions)
        → pg.program_image image region h new_facts ≡ ((k, f), err e)
        → f.side_effect_dispatched ≡ false
        → Undone m target g (flash path base check after (some region))
    chip_kept :
        {after : ProgramAfter} {region : MemoryRegion} {regions : List FlashRegion} {h k : G}
        {f : ProgramExecutionFacts} {e : JlinkError}
        → pg.device_flash_regions target.device g ≡ (h, ok regions)
        → pg.erase_chip region h new_facts ≡ ((k, f), err e)
        → f.side_effect_dispatched ≡ false
        → Undone m target g (erase none after (some region))
    range_outside :
        {address size : ℕ} {after : ProgramAfter} {loader : Option MemoryRegion}
        {regions : List FlashRegion} {h : G} {e : JlinkError}
        → pg.device_flash_regions target.device g ≡ (h, ok regions)
        → validate_flash_range regions address size ≡ err e
        → Undone m target g (erase (some (address, size)) after loader)
    range_kept :
        {address size : ℕ} {after : ProgramAfter} {region : MemoryRegion}
        {regions : List FlashRegion} {h k : G} {f : ProgramExecutionFacts} {e : JlinkError}
        → pg.device_flash_regions target.device g ≡ (h, ok regions)
        → pg.erase_range address size region h new_facts ≡ ((k, f), err e)
        → f.side_effect_dispatched ≡ false
        → Undone m target g (erase (some (address, size)) after (some region))
