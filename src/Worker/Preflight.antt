-- ===== src/Worker/Preflight.antt =====
-- gateway.rs: what a Flash operation does before BeginDownload: the target is halted, and the loader RAM
-- is written, read back and restored.
use jlink_mcp_v.Base.{
  ℕ, Bool, true, false, not, ◌||◌, List, map, length, if◌then◌else◌, ◌==◌, eq, nat_equal,
  list_equal,
}
use Prim.Native.Nat.{bit_xor, min}
use jlink_mcp_v.Domain.Error.{
  JlinkError, new, with_detail, flag, Result, ok, err, ensure, execution_uncertain,
  target_connect_failed, target_recovery_failed, config_invalid, verify_failed,
}
use jlink_mcp_v.Domain.State.{TargetState, halted}
use jlink_mcp_v.Domain.Memory.{MemoryRegion, ram, kind_eq}
use jlink_mcp_v.Domain.Memory.Write.{ℤ}
use jlink_mcp_v.Domain.Program.Facts.{ProgramExecutionFacts, dispatch_non_flash_side_effect}
use jlink_mcp_v.Worker.Gateway.{Gateway}

-- The calls of the DLL that a download makes, on the gateway's state.
pub record FlashDll (G : Type 0) : Type 0 where
  pub is_ready : G → G × Result Bool
  pub call_begin_download : G → G
  pub call_write_mem : ℕ → List ℕ → G → G × ℤ
  pub call_end_download : G → G × ℤ

abbrev pub loader_ram_preflight_bytes : ℕ
loader_ram_preflight_bytes = 16

abbrev pub uncertain : JlinkError
uncertain = new execution_uncertain false

-- The gateway's state and the facts, and how it ended.
abbrev pub Download : Type 0 → Type 0
Download G = (G × ProgramExecutionFacts) × Result (Unit {0})

-- `?` between two parts of a Flash operation.
abbrev pub and_then :
    {G : Type 0} → Download G → (G → ProgramExecutionFacts → Download G) → Download G
and_then ((g, f), err e) next = ((g, f), err e)
and_then ((g, f), ok u) next = next g f

module _ {G : Type 0} (dll : FlashDll G) (gw : Gateway G) where
  abbrev is_halted : TargetState → Bool
  is_halted halted = true
  is_halted _ = false

  -- reset_halt_for_flash, after the reset.
  abbrev pub require_flash_reset_halted : G × Result TargetState → G × Result (Unit {0})
  require_flash_reset_halted (g, err e) = (g, err e)
  require_flash_reset_halted (g, ok state) =
      (g, ensure (is_halted state) (new target_recovery_failed false))

  abbrev pub with_facts : ProgramExecutionFacts → G × Result (Unit {0}) → Download G
  with_facts f (g, r) = ((g, f), r)

  abbrev pub prepared : ProgramExecutionFacts → G × Result Bool → Download G
  prepared f (g, err e) = ((g, f), err e)
  prepared f (g, ok false) = ((g, f), err (new target_connect_failed true))
  prepared f (g, ok true) =
      with_facts (dispatch_non_flash_side_effect f)
        (require_flash_reset_halted (gw.reset_halt_and_observe g))

  -- prepare_flash_operation; `is_ready` says whether a device is selected and the target connected.
  unfoldable pub prepare_flash_operation : G → ProgramExecutionFacts → Download G
  prepare_flash_operation g f = prepared f (dll.is_ready g)

  abbrev pub restore_read : List ℕ → G × Result (List ℕ) → G × Bool
  restore_read original (g, err e) = (g, false)
  restore_read original (g, ok actual) = (g, eq actual original)

  abbrev pub restore_written : ℕ → List ℕ → G × Result (Unit {0}) → G × Bool
  restore_written address original (g, err e) = (g, false)
  restore_written address original (g, ok u) =
      restore_read original (gw.read_bytes address (length original) g)

  unfoldable pub restore_loader_ram : ℕ → List ℕ → G → G × Bool
  restore_loader_ram address original g =
      restore_written address original (gw.write_bytes address original g)

  abbrev pub restored_error : Bool → JlinkError → JlinkError
  restored_error restored e =
      with_detail (with_detail e "loader_ram_restored" (flag restored)) "flash_modified"
        (flag false)

  -- A failed preflight restores the RAM before it reports.
  abbrev pub fail_preflight : ℕ → List ℕ → ProgramExecutionFacts → JlinkError → G → Download G
  fail_preflight address original f e g =
      let (g', restored) = restore_loader_ram address original g in
      ((g', f), err (restored_error restored e))

  abbrev pub pass_preflight : ProgramExecutionFacts → G × Bool → Download G
  pass_preflight f (g, true) = ((g, f), ok tt)
  pass_preflight f (g, false) = ((g, f), err (restored_error false uncertain))

  abbrev pub pattern_read :
      ℕ → List ℕ → List ℕ → ProgramExecutionFacts → G × Result (List ℕ) → Download G
  pattern_read address original pattern f (g, err e) = fail_preflight address original f e g
  pattern_read address original pattern f (g, ok actual) =
      if not (eq actual pattern)
      then fail_preflight address original f (new verify_failed false) g
      else pass_preflight f (restore_loader_ram address original g)

  abbrev pub pattern_written :
      ℕ → List ℕ → List ℕ → ProgramExecutionFacts → G × Result (Unit {0}) → Download G
  pattern_written address original pattern f (g, err e) = fail_preflight address original f e g
  pattern_written address original pattern f (g, ok u) =
      pattern_read address original pattern f (gw.read_bytes address (length original) g)

  abbrev pub original_read : ℕ → ProgramExecutionFacts → G × Result (List ℕ) → Download G
  original_read address f (g, err e) = ((g, f), err e)
  original_read address f (g, ok original) =
      let pattern = map (λ byte. bit_xor byte 165) original in
      pattern_written address original pattern (dispatch_non_flash_side_effect f)
        (gw.write_bytes address pattern g)

  unfoldable pub preflight_loader_ram : MemoryRegion → G → ProgramExecutionFacts → Download G
  unfolding restore_loader_ram
  preflight_loader_ram region g f =
      if not (kind_eq region.kind ram) || region.length == 0
      then ((g, f), err (new config_invalid false))
      else original_read region.address f
          (gw.read_bytes region.address (min region.length loader_ram_preflight_bytes) g)
