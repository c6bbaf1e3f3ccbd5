-- ===== src/Worker/Debug/Execute.antt =====
-- crates/jlink-worker: ensure_debug_allowed of session.rs, and execute_debug of debug.rs.
use jlink_mcp_v.Base.{ℕ, true, false, not, ◌&&◌, List, nat_equal, list_equal, option_equal}
use jlink_mcp_v.Domain.Error.{
  new, Result, ok, err, ◌>>◌, ensure, operation_conflict, invalid_state_transition,
}
use jlink_mcp_v.Domain.Dwarf.{AccessPlan}
use jlink_mcp_v.Domain.Identity.{FirmwareIdentityStrength}
use jlink_mcp_v.Domain.Memory.{DeviceMemoryMap, new_range, classify, ensure_ordinary_write}
use jlink_mcp_v.Domain.Memory.Request.{
  WriteVerify, DebugRequest, DebugResult, memory, variable, register, written, validate_request,
  may_interleave_during_hss,
}
use jlink_mcp_v.Domain.Memory.Request
use jlink_mcp_v.Domain.Session.{TargetConnectionSpec, spec_equal}
use jlink_mcp_v.Domain.TypedValue.Scalar.{Floats, JsonValue}
use jlink_mcp_v.Domain.TypedValue.Layout.Decode.{decode_typed_value}
use jlink_mcp_v.Domain.TypedValue.Layout.Encode.{encode_typed_value}
use jlink_mcp_v.Worker.Gateway.{Gateway}
use jlink_mcp_v.Worker.Manager.{TargetSessionManager, is_connected, is_active}
use jlink_mcp_v.Worker.Connect.{Session, attempt}
use jlink_mcp_v.Worker.Debug.{read_memory, write_memory, write_verified, ensure_firmware_identity}

-- A `?` on the answer of the gateway, or of a part of the request.
abbrev pub then_with {ℓ κ σ} :
    {A : Type ℓ} {B : Type κ} {S : Type σ} → S × Result A → (A → S → S × Result B) → S × Result B
then_with (s, err e) k = (s, err e)
then_with (s, ok a) k = k a s

module _ (fl : Floats) where
  open fl use {F64}

  unfoldable pub ensure_debug_allowed :
      TargetSessionManager → TargetConnectionSpec → DebugRequest F64 → Result (Unit {0})
  unfolding validate_request
  ensure_debug_allowed m spec request = do
    validate_request request
    ensure (not (m.hss_active && not (may_interleave_during_hss request)))
        (new operation_conflict true)
    ensure (is_connected m.connection_state) (new invalid_state_transition true)
    ensure (is_active m spec) (new operation_conflict true)

  module _ {G : Type 0} (gw : Gateway G) where
    -- ReadVariable, with the device memory map.
    unfoldable pub read_variable : AccessPlan → DeviceMemoryMap → G → G × Result (DebugResult F64)
    unfolding new_range classify decode_typed_value
    read_variable plan memory_map g =
        attempt (new_range plan.address plan.plan_byte_size) g λ range.
          attempt (classify memory_map range) g λ kind.
            then_with (gw.read_bytes plan.address plan.plan_byte_size g) λ bytes g'.
              attempt (decode_typed_value fl plan bytes) g' λ value. (g', ok (variable value))

    -- WriteVariable, with the device memory map.
    unfoldable pub write_variable :
        AccessPlan → JsonValue fl → WriteVerify → DeviceMemoryMap → G → G × Result (DebugResult F64)
    unfolding new_range ensure_ordinary_write encode_typed_value write_verified
    write_variable plan value verify memory_map g =
        attempt (new_range plan.address plan.plan_byte_size) g λ range.
          attempt (ensure_ordinary_write memory_map range) g λ allowed.
            then_with (gw.read_bytes plan.address plan.plan_byte_size g) λ current g'.
              attempt (encode_typed_value fl plan current value) g' λ encoded.
                then_with (write_verified gw plan.address encoded verify g')
                  λ done g''. (g'', ok written)

    -- The second match of execute_debug: what a request does once it may.
    unfoldable pub access :
        TargetConnectionSpec → DebugRequest F64 → G → G × Result (DebugResult F64)
    unfolding read_memory write_memory read_variable write_variable
    access target (Request.read_memory range) g =
        then_with (gw.device_memory_map target.device g) λ memory_map g'.
          then_with (read_memory gw memory_map range g') λ bytes g''. (g'', ok (memory bytes))
    access target (Request.write_memory address bytes verify) g =
        then_with (gw.device_memory_map target.device g) λ memory_map g'.
          then_with (write_memory gw memory_map address bytes verify g')
            λ done g''. (g'', ok written)
    access target (Request.read_variable plan firmware) g =
        then_with (gw.device_memory_map target.device g)
          λ memory_map g'. read_variable plan memory_map g'
    access target (Request.write_variable plan firmware value verify) g =
        then_with (gw.device_memory_map target.device g)
          λ memory_map g'. write_variable plan value verify memory_map g'
    access target (Request.read_register r) g =
        then_with (gw.read_register r g) λ value g'. (g', ok (register value))
    access target (Request.write_register r value) g =
        then_with (gw.write_register r value g) λ done g'. (g', ok written)

    module _ (digest : List ℕ → List ℕ) where
      abbrev pub passed :
          Session G × Result FirmwareIdentityStrength → Session G × Result (Unit {0})
      passed (s, err e) = (s, err e)
      passed (s, ok strength) = (s, ok tt)

      -- The first match of execute_debug: a variable needs the firmware of its plan.
      unfoldable pub prove_firmware :
          TargetConnectionSpec → DebugRequest F64 → Session G → Session G × Result (Unit {0})
      unfolding ensure_firmware_identity
      prove_firmware target (Request.read_variable plan firmware) s =
          passed (ensure_firmware_identity gw digest target firmware false s)
      prove_firmware target (Request.write_variable plan firmware value verify) s =
          passed (ensure_firmware_identity gw digest target firmware true s)
      prove_firmware target _ s = (s, ok tt)

      abbrev pub on_gateway :
          TargetSessionManager → G × Result (DebugResult F64) → Session G × Result (DebugResult F64)
      on_gateway m (g, r) = ((m, g), r)

      unfoldable pub execute_debug :
          TargetConnectionSpec → DebugRequest F64 → Session G → Session G × Result (DebugResult F64)
      unfolding ensure_debug_allowed prove_firmware access
      execute_debug target request (m, g) =
          attempt (ensure_debug_allowed m target request) (m, g)
            λ allowed.
              then_with (prove_firmware target request (m, g))
                λ proved s. on_gateway (s.0) (access target request (s.1))
