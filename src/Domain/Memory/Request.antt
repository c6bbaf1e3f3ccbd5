-- ===== src/Domain/Memory/Request.antt =====
-- crates/jlink-domain/src/memory.rs: DebugRequest, its validation, and DebugResult.
use jlink_mcp_v.Base.{
  ℕ, Bool, true, false, List, Option, none, some, length, eq, nat_equal, list_equal,
}
use jlink_mcp_v.Domain.Error.{new, Result, ok, ◌>>=◌, ◌>>◌, ensure, firmware_identity_unknown}
use jlink_mcp_v.Domain.Json.{Value}
use jlink_mcp_v.Domain.Core.{CoreRegister, ensure_writable}
use jlink_mcp_v.Domain.Dwarf.{AccessPlan}
use jlink_mcp_v.Domain.Identity.{FirmwareIdentityPlan, validate_plan}
use jlink_mcp_v.Domain.Selector.Execution.{validate_for_execution}
use jlink_mcp_v.Domain.TypedValue.Numbers.{Scalar}
use jlink_mcp_v.Domain.Memory.{MemoryRange, raw_range, new_range}

-- WriteVerify: `None` is `skip`.
pub data WriteVerify : Type 0 where
  skip readback : WriteVerify

pub data DebugRequest (F : Type 0) : Type 0 where
  read_memory : MemoryRange → DebugRequest F
  write_memory : ℕ → List ℕ → WriteVerify → DebugRequest F
  read_variable : AccessPlan → FirmwareIdentityPlan → DebugRequest F
  write_variable :
      AccessPlan → FirmwareIdentityPlan → Value (Scalar F) → WriteVerify → DebugRequest F
  read_register : CoreRegister → DebugRequest F
  write_register : CoreRegister → ℕ → DebugRequest F

pub data DebugResult (F : Type 0) : Type 0 where
  memory : List ℕ → DebugResult F
  variable : Value (Scalar F) → DebugResult F
  register : ℕ → DebugResult F
  written : DebugResult F

unfoldable pub validate_variable : AccessPlan → FirmwareIdentityPlan → Result (Unit {0})
unfolding validate_for_execution validate_plan new_range
validate_variable plan firmware = do
  validate_for_execution plan
  validate_plan firmware
  ensure (eq plan.elf_sha256 firmware.elf_sha256) (new firmware_identity_unknown false)
  _ ← new_range plan.address plan.plan_byte_size
  ok tt

module _ {F : Type 0} where
  -- DebugRequest::validate
  unfoldable pub validate_request : DebugRequest F → Result (Unit {0})
  unfolding raw_range validate_variable ensure_writable
  validate_request (read_memory range) = do _ ← raw_range range.address range.length; ok tt
  validate_request (write_memory address bytes verify) = do
    _ ← raw_range address (length bytes)
    ok tt
  validate_request (read_variable plan firmware) = validate_variable plan firmware
  validate_request (write_variable plan firmware value verify) = validate_variable plan firmware
  validate_request (read_register r) = ok tt
  validate_request (write_register r value) = ensure_writable r

  abbrev pub is_write : DebugRequest F → Bool
  is_write (write_memory address bytes verify) = true
  is_write (write_variable plan firmware value verify) = true
  is_write (write_register r value) = true
  is_write _ = false

  abbrev pub may_interleave_during_hss : DebugRequest F → Bool
  may_interleave_during_hss (write_memory address bytes verify) = true
  may_interleave_during_hss (write_variable plan firmware value verify) = true
  may_interleave_during_hss _ = false

  -- DebugRequest::firmware
  abbrev pub request_firmware : DebugRequest F → Option FirmwareIdentityPlan
  request_firmware (read_variable plan firmware) = some firmware
  request_firmware (write_variable plan firmware value verify) = some firmware
  request_firmware _ = none
