-- ===== src/Worker/Debug.antt =====
-- crates/jlink-worker/src/debug.rs: verified writes, raw memory access, and the firmware identity proof.
pub mod Written
pub mod Proved
pub mod Execute
pub mod Traced
mod Writes
pub mod Permitted
mod Tests
use jlink_mcp_v.Base.{
  ℕ, Bool, true, false, not, Option, none, some, List, [], ◌∷◌, length, if◌then◌else◌,
}
use jlink_mcp_v.Domain.Error.{
  JlinkError, new, with_detail, num, text, failure, Result, ok, err, firmware_identity_unknown,
  verify_failed,
}
use jlink_mcp_v.Domain.Memory.{
  DeviceMemoryMap, MemoryRange, MemoryRegionKind, flash, kind_eq, new_range, raw_range, classify,
  ensure_ordinary_write,
}
use jlink_mcp_v.Domain.Memory.Write.{verify_memory_readback}
use jlink_mcp_v.Domain.Memory.Request.{WriteVerify, skip, readback}
use jlink_mcp_v.Domain.Identity.{
  FirmwareIdentityPlan, FirmwareIdentityBlock, FirmwareIdentityStrength, weak, strong, strength,
  validate_plan, ensure_strong, verify_target_bytes,
}
use jlink_mcp_v.Domain.Session.{TargetConnectionSpec}
use jlink_mcp_v.Worker.Gateway.{Gateway}
use jlink_mcp_v.Worker.Manager.{
  TargetSessionManager, firmware_identity_cached, ensure_firmware_identity_read_allowed,
  record_firmware_identity,
}
use jlink_mcp_v.Worker.Connect.{Session, attempt}

unfoldable pub readback_transport_failure : ℕ → ℕ → JlinkError → JlinkError
readback_transport_failure address size cause =
    let e0 = with_detail (new verify_failed false) "address" (num address) in
    let e1 = with_detail e0 "length" (num size) in
    let e2 = with_detail e1 "write_outcome" (text "dll_reported_complete") in
    let e3 = with_detail e2 "verification_outcome" (text "readback_unavailable") in
    with_detail e3 "cause" (failure cause.code)

abbrev pub unknown_identity : JlinkError
unknown_identity = new firmware_identity_unknown false

abbrev pub unknown_because : JlinkError → JlinkError
unknown_because cause = with_detail unknown_identity "cause" (failure cause.code)

module _ {G : Type 0} (gw : Gateway G) where
  -- The readback, and its comparison.
  abbrev pub compared : ℕ → List ℕ → G × Result (List ℕ) → G × Result (Unit {0})
  compared address expected (g, err e) =
      (g, err (readback_transport_failure address (length expected) e))
  compared address expected (g, ok actual) = (g, verify_memory_readback address expected actual)

  unfoldable pub verify_if_requested : ℕ → List ℕ → WriteVerify → G → G × Result (Unit {0})
  unfolding readback_transport_failure
  verify_if_requested address expected skip g = (g, ok tt)
  verify_if_requested address expected readback g =
      compared address expected (gw.read_bytes address (length expected) g)

  abbrev pub after_write : ℕ → List ℕ → WriteVerify → G × Result (Unit {0}) → G × Result (Unit {0})
  unfolding verify_if_requested
  after_write address bytes verify (g, err e) = (g, err e)
  after_write address bytes verify (g, ok u) = verify_if_requested address bytes verify g

  unfoldable pub write_verified : ℕ → List ℕ → WriteVerify → G → G × Result (Unit {0})
  unfolding verify_if_requested
  write_verified address bytes verify g =
      after_write address bytes verify (gw.write_bytes address bytes g)

  unfoldable pub read_memory : DeviceMemoryMap → MemoryRange → G → G × Result (List ℕ)
  read_memory memory_map range g =
      attempt (classify memory_map range) g (λ kind. gw.read_bytes range.address range.length g)

  unfoldable pub write_memory :
      DeviceMemoryMap → ℕ → List ℕ → WriteVerify → G → G × Result (Unit {0})
  unfolding write_verified
  write_memory memory_map address bytes verify g =
      attempt (raw_range address (length bytes)) g λ range.
        attempt (ensure_ordinary_write memory_map range) g
          λ allowed. write_verified address bytes verify g

  module _ (digest : List ℕ → List ℕ) where
    -- The read block against the plan, and the record.
    unfoldable pub prove_identity :
        TargetConnectionSpec
        → FirmwareIdentityPlan
        → TargetSessionManager
        → G × Result (List ℕ)
        → Session G × Result FirmwareIdentityStrength
    prove_identity target firmware m (g, err e) = ((m, g), err (unknown_because e))
    prove_identity target firmware m (g, ok bytes) =
        attempt (verify_target_bytes digest firmware (some bytes)) (m, g)
          λ same. ((record_firmware_identity target firmware m, g), ok strong)

    unfoldable pub read_identity :
        TargetConnectionSpec
        → FirmwareIdentityPlan
        → FirmwareIdentityBlock
        → MemoryRange
        → TargetSessionManager
        → G × Result DeviceMemoryMap
        → Session G × Result FirmwareIdentityStrength
    unfolding prove_identity
    read_identity target firmware expected range m (g, err e) = ((m, g), err e)
    read_identity target firmware expected range m (g, ok memory_map) =
        attempt (classify memory_map range) (m, g)
          λ kind.
            if not (kind_eq kind flash)
            then ((m, g), err unknown_identity)
            else prove_identity target firmware m
                (gw.read_bytes expected.address (length expected.bytes) g)

    -- Strong and not cached yet.
    unfoldable pub first_identity :
        TargetConnectionSpec
        → FirmwareIdentityPlan
        → Session G
        → Session G × Result FirmwareIdentityStrength
    unfolding read_identity
    first_identity target firmware (m, g) =
        attempt (ensure_firmware_identity_read_allowed m) (m, g)
          λ allowed.
            attempt (ensure_strong firmware) (m, g)
              λ expected.
                attempt (new_range expected.address (length expected.bytes)) (m, g)
                  λ range.
                    read_identity target firmware expected range m
                      (gw.device_memory_map target.device g)

    unfoldable pub strong_identity :
        TargetConnectionSpec
        → FirmwareIdentityPlan
        → Session G
        → Session G × Result FirmwareIdentityStrength
    unfolding first_identity
    strong_identity target firmware (m, g) =
        if firmware_identity_cached m target firmware
        then ((m, g), ok strong)
        else first_identity target firmware (m, g)

    unfoldable pub weak_identity :
        FirmwareIdentityPlan → Bool → Session G → Session G × Result FirmwareIdentityStrength
    weak_identity firmware true s = attempt (ensure_strong firmware) s (λ block. (s, ok weak))
    weak_identity firmware false s = (s, ok weak)

    abbrev pub by_strength :
        FirmwareIdentityStrength
        → TargetConnectionSpec
        → FirmwareIdentityPlan
        → Bool
        → Session G
        → Session G × Result FirmwareIdentityStrength
    by_strength weak target firmware require_strong s = weak_identity firmware require_strong s
    by_strength strong target firmware require_strong s = strong_identity target firmware s

    unfoldable pub ensure_firmware_identity :
        TargetConnectionSpec
        → FirmwareIdentityPlan
        → Bool
        → Session G
        → Session G × Result FirmwareIdentityStrength
    unfolding strong_identity weak_identity
    ensure_firmware_identity target firmware require_strong s =
        attempt (validate_plan firmware) s
          λ valid. by_strength (strength firmware) target firmware require_strong s
