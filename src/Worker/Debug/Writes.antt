-- ===== src/Worker/Debug/Writes.antt =====
-- debug.rs: what the accesses of a request write, and what lets them.
use jlink_mcp_v.Base.{
  ℕ, ◌≡◌, refl, ap, ◌∙◌, sym, subst, true, List, ◌∷◌, length, nat_equal, list_equal, option_equal,
}
use jlink_mcp_v.Domain.Error.{Result, ok, err}
use jlink_mcp_v.Domain.Dwarf.{AccessPlan}
use jlink_mcp_v.Domain.Identity.{FirmwareIdentityPlan}
use jlink_mcp_v.Domain.Memory.{
  DeviceMemoryMap, MemoryRange, MemoryRegionKind, raw_range, new_range, classify,
  ensure_ordinary_write,
}
use jlink_mcp_v.Domain.Memory.Request.{
  WriteVerify, DebugRequest, DebugResult, may_interleave_during_hss, validate_request,
}
use jlink_mcp_v.Domain.Memory.Request
use jlink_mcp_v.Domain.Session.{TargetConnectionSpec, spec_equal}
use jlink_mcp_v.Domain.TypedValue.Scalar.{Floats, JsonValue}
use jlink_mcp_v.Domain.TypedValue.Scalar.Length.{HasWidths}
use jlink_mcp_v.Domain.TypedValue.Layout.Decode.{decode_typed_value}
use jlink_mcp_v.Domain.TypedValue.Layout.Encode.{encode_typed_value}
use jlink_mcp_v.Domain.TypedValue.Layout.Length.{length-encode_typed_value}
use jlink_mcp_v.Worker.Gateway.{Gateway}
use jlink_mcp_v.Worker.Manager.{TargetSessionManager, firmware_identity_cached}
use jlink_mcp_v.Worker.Connect.{attempt}
use jlink_mcp_v.Worker.Debug.{write_verified, write_memory, read_memory}
use jlink_mcp_v.Worker.Debug.Execute.{then_with, read_variable, write_variable, access}
use jlink_mcp_v.Worker.Debug.Traced.{Log, traced, noted, log-write_verified}

module _ (fl : Floats) {G : Type 0} (gw : Gateway G) (target : TargetConnectionSpec) where
  open fl use {F64}

  -- The write of these bytes at this address, by a session that ends with the manager `m`: a map of the
  -- device lets the range of the bytes through; the bytes of a variable go to the range of its plan,
  -- and the target is proved to run its firmware.
  pub data IsPermitted (m : TargetSessionManager) : DebugRequest F64 → ℕ → List ℕ → Type 0 where
    raw :
        {address : ℕ} {bytes : List ℕ} {verify : WriteVerify} {g g' : G}
        {memory_map : DeviceMemoryMap} {range : MemoryRange} {kind : MemoryRegionKind}
        → gw.device_memory_map target.device g ≡ (g', ok memory_map)
        → raw_range address (length bytes) ≡ ok range
        → ensure_ordinary_write memory_map range ≡ ok kind
        → IsPermitted m (Request.write_memory address bytes verify) address bytes
    typed :
        {plan : AccessPlan} {firmware : FirmwareIdentityPlan} {value : JsonValue fl}
        {verify : WriteVerify} {bytes : List ℕ} {g g' : G} {memory_map : DeviceMemoryMap}
        {range : MemoryRange} {kind : MemoryRegionKind}
        → gw.device_memory_map target.device g ≡ (g', ok memory_map)
        → new_range plan.address (length bytes) ≡ ok range
        → ensure_ordinary_write memory_map range ≡ ok kind
        → firmware_identity_cached m target firmware ≡ true
        → IsPermitted m (Request.write_variable plan firmware value verify) plan.address bytes

  pub data Writes (m : TargetSessionManager) (request : DebugRequest F64) (log : Log)
      : Log → Type 0 where
    nothing : Writes m request log log
    once :
        (address : ℕ) (bytes : List ℕ)
        → IsPermitted m request address bytes
        → Writes m request log ((address, bytes) ∷ log)

  -- What is known of the firmware before a variable is written.
  abbrev pub IsProved : TargetSessionManager → DebugRequest F64 → Type 0
  IsProved m (Request.write_variable plan firmware value verify) =
      firmware_identity_cached m target firmware ≡ true
  IsProved m _ = Unit

  -- The parts of a request, as long as they write nothing and once they have written.
  module _ (m : TargetSessionManager) (request : DebugRequest F64) (log : Log) where
    attempt-Writes :
        {A B : Type 0} (r : Result A) (g : G) (k : A → (G × Log) × Result B)
        → ((a : A) → r ≡ ok a → Writes m request log (((k a).0).1))
        → Writes m request log (((attempt r (g, log) k).0).1)
    attempt-Writes (err e) g k h = nothing
    attempt-Writes (ok a) g k h = h a refl

    then-Writes :
        {A B : Type 0} (p : G × Result A) (k : A → G × Log → (G × Log) × Result B)
        → ((a : A) → p ≡ (p.0, ok a) → Writes m request log (((k a (p.0, log)).0).1))
        → Writes m request log (((then_with (noted log p) k).0).1)
    then-Writes (g, err e) k h = nothing
    then-Writes (g, ok a) k h = h a refl

    end-Writes :
        {A : Type 0} (x : (G × Log) × Result A) (f : A → DebugResult F64)
        → Writes m request log ((x.0).1)
        → Writes m request log (((then_with x (λ a s. (s, ok (f a)))).0).1)
    end-Writes (s, err e) f h = h
    end-Writes (s, ok a) f h = h

    written-Writes :
        (address : ℕ) (bytes : List ℕ) (verify : WriteVerify) (g : G)
        → IsPermitted m request address bytes
        → Writes m request log (((write_verified (traced gw) address bytes verify (g, log)).0).1)
    written-Writes address bytes verify g h =
        subst (Writes m request log) (sym (log-write_verified gw address bytes verify g log))
          (once address bytes h)

  module _ (widths : HasWidths fl) (log : Log) where
    read_variable-Writes :
        (m : TargetSessionManager) (request : DebugRequest F64) (plan : AccessPlan)
        (memory_map : DeviceMemoryMap) (g : G)
        → Writes m request log (((read_variable fl (traced gw) plan memory_map (g, log)).0).1)
    unfolding read_variable
    read_variable-Writes m request plan memory_map g =
        attempt-Writes m request log (new_range plan.address plan.plan_byte_size) g _ λ range _.
          attempt-Writes m request log (classify memory_map range) g _ λ kind _.
            then-Writes m request log (gw.read_bytes plan.address plan.plan_byte_size g) _
              λ bytes _.
                attempt-Writes m request log (decode_typed_value fl plan bytes) _ _
                  (λ value _. nothing)

    write_variable-Writes :
        (m : TargetSessionManager) (plan : AccessPlan) (firmware : FirmwareIdentityPlan)
        (value : JsonValue fl) (verify : WriteVerify) (memory_map : DeviceMemoryMap) (g g0 g1 : G)
        → gw.device_memory_map target.device g0 ≡ (g1, ok memory_map)
        → firmware_identity_cached m target firmware ≡ true
        → Writes m
            (Request.write_variable plan firmware value verify)
            log
            (((write_variable fl (traced gw) plan value verify memory_map (g, log)).0).1)
    unfolding write_variable
    write_variable-Writes m plan firmware value verify memory_map g g0 g1 mapped cached =
        let request = Request.write_variable plan firmware value verify in
        attempt-Writes m request log (new_range plan.address plan.plan_byte_size) g _
          λ range ranged.
            attempt-Writes m request log (ensure_ordinary_write memory_map range) g _
              λ kind let_through.
                then-Writes m request log (gw.read_bytes plan.address plan.plan_byte_size g) _
                  λ current _.
                    attempt-Writes m request log (encode_typed_value fl plan current value) _ _
                      λ encoded made.
                        end-Writes m request log
                          (write_verified (traced gw) plan.address encoded verify _)
                          (λ done. Request.written)
                          (written-Writes m request log plan.address encoded verify _ (
                            typed mapped
                              (ap (new_range plan.address)
                                  (length-encode_typed_value fl widths plan current value made)
                                ∙ ranged)
                              let_through cached))

    write_memory-Writes :
        (m : TargetSessionManager) (address : ℕ) (bytes : List ℕ) (verify : WriteVerify)
        (memory_map : DeviceMemoryMap) (g g0 g1 : G)
        → gw.device_memory_map target.device g0 ≡ (g1, ok memory_map)
        → Writes m
            (Request.write_memory address bytes verify)
            log
            (((write_memory (traced gw) memory_map address bytes verify (g, log)).0).1)
    unfolding write_memory
    write_memory-Writes m address bytes verify memory_map g g0 g1 mapped =
        let request = Request.write_memory address bytes verify in
        attempt-Writes m request log (raw_range address (length bytes)) g _ λ range ranged.
          attempt-Writes m request log (ensure_ordinary_write memory_map range) g _
            λ kind let_through.
              written-Writes m request log address bytes verify g (raw mapped ranged let_through)

    pub access-Writes :
        (m : TargetSessionManager) (request : DebugRequest F64) (g : G)
        → IsProved m request
        → Writes m request log (((access fl (traced gw) target request (g, log)).0).1)
    unfolding access read_memory
    access-Writes m (Request.read_memory range) g p =
        let request = Request.read_memory range in
        then-Writes m request log (gw.device_memory_map target.device g) _ λ memory_map _.
          end-Writes m request log (read_memory (traced gw) memory_map range _)
            (λ bytes. Request.memory bytes)
            (attempt-Writes m request log (classify memory_map range) _ _ (λ kind _. nothing))
    access-Writes m (Request.write_memory address bytes verify) g p =
        let request = Request.write_memory address bytes verify in
        then-Writes m request log (gw.device_memory_map target.device g) _ λ memory_map mapped.
          end-Writes m request log (write_memory (traced gw) memory_map address bytes verify _)
            (λ done. Request.written)
            (write_memory-Writes m address bytes verify memory_map _ g _ mapped)
    access-Writes m (Request.read_variable plan firmware) g p =
        let request = Request.read_variable plan firmware in
        then-Writes m request log (gw.device_memory_map target.device g) _
          λ memory_map _. read_variable-Writes m request plan memory_map _
    access-Writes m (Request.write_variable plan firmware value verify) g p =
        then-Writes m (Request.write_variable plan firmware value verify) log
          (gw.device_memory_map target.device g) _
          λ memory_map mapped.
            write_variable-Writes m plan firmware value verify memory_map _ g _ mapped p
    access-Writes m (Request.read_register r) g p =
        then-Writes m (Request.read_register r) log (gw.read_register r g) _ (λ value _. nothing)
    access-Writes m (Request.write_register r value) g p =
        then-Writes m (Request.write_register r value) log (gw.write_register r value g) _
          (λ done _. nothing)
