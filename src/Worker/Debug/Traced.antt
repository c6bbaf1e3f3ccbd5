-- ===== src/Worker/Debug/Traced.antt =====
-- debug.rs: what a debug request may write, seen by a gateway that notes each write.
use jlink_mcp_v.Base.{
  ℕ, ◌≡◌, refl, Bool, true, false, inl, inr, Bool-cases, List, ◌∷◌, length, nat_equal, list_equal,
  option_equal,
}
use jlink_mcp_v.Domain.Error.{Result, ok, err}
use jlink_mcp_v.Domain.Identity.{
  FirmwareIdentityPlan, FirmwareIdentityBlock, FirmwareIdentityStrength, weak, strong, strength,
  validate_plan, ensure_strong,
}
use jlink_mcp_v.Domain.Memory.{DeviceMemoryMap, MemoryRange, flash, kind_eq, new_range, classify}
use jlink_mcp_v.Domain.Memory.Request.{WriteVerify, skip, readback}
use jlink_mcp_v.Domain.Session.{TargetConnectionSpec, spec_equal}
use jlink_mcp_v.Worker.Gateway.{Gateway}
use jlink_mcp_v.Worker.Manager.{
  TargetSessionManager, firmware_identity_cached, ensure_firmware_identity_read_allowed,
}
use jlink_mcp_v.Worker.Connect.{Session, attempt}
use jlink_mcp_v.Worker.Debug.{
  compared, after_write, verify_if_requested, write_verified, prove_identity, read_identity,
  first_identity, strong_identity, weak_identity, by_strength, ensure_firmware_identity,
}

-- The writes so far, the last one first.
abbrev pub Log : Type 0
Log = List (ℕ × List ℕ)

abbrev pub noted : {G R : Type 0} → Log → G × R → (G × Log) × R
noted log (g, r) = ((g, log), r)

-- The gateway, with a note of each write whatever its answer.
abbrev pub traced : {G : Type 0} → Gateway G → Gateway (G × Log)
traced gw = record {
  open_target = λ spec s. noted (s.1) (gw.open_target spec (s.0));
  close_target = λ s. (gw.close_target (s.0), s.1);
  validation_report =
      λ runs checks background s. noted (s.1) (gw.validation_report runs checks background (s.0));
  observe_target_state = λ s. noted (s.1) (gw.observe_target_state (s.0));
  halt_and_observe = λ s. noted (s.1) (gw.halt_and_observe (s.0));
  resume_and_observe = λ s. noted (s.1) (gw.resume_and_observe (s.0));
  reset_run_and_observe = λ s. noted (s.1) (gw.reset_run_and_observe (s.0));
  reset_halt_and_observe = λ s. noted (s.1) (gw.reset_halt_and_observe (s.0));
  step_and_observe = λ s. noted (s.1) (gw.step_and_observe (s.0));
  fault_diagnostics = λ s. noted (s.1) (gw.fault_diagnostics (s.0));
  device_memory_map = λ device s. noted (s.1) (gw.device_memory_map device (s.0));
  read_bytes = λ address size s. noted (s.1) (gw.read_bytes address size (s.0));
  write_bytes =
      λ address bytes s. noted ((address, bytes) ∷ s.1) (gw.write_bytes address bytes (s.0));
  read_register = λ register s. noted (s.1) (gw.read_register register (s.0));
  write_register = λ register value s. noted (s.1) (gw.write_register register value (s.0));
}

module _ {G : Type 0} (gw : Gateway G) where
  -- A verified write writes once.
  module _ (address : ℕ) (bytes : List ℕ) where
    log-compared :
        (s : G × Log) (r : Result (List ℕ))
        → ((compared (traced gw) address bytes (s, r)).0).1 ≡ s.1
    log-compared s (err e) = refl
    log-compared s (ok actual) = refl

    log-after_write :
        (verify : WriteVerify) (s : G × Log) (r : Result (Unit {0}))
        → ((after_write (traced gw) address bytes verify (s, r)).0).1 ≡ s.1
    unfolding verify_if_requested
    log-after_write verify s (err e) = refl
    log-after_write skip s (ok u) = refl
    log-after_write readback s (ok u) = log-compared _ _

    pub log-write_verified :
        (verify : WriteVerify) (g : G) (log : Log)
        → ((write_verified (traced gw) address bytes verify (g, log)).0).1 ≡ (address, bytes) ∷ log
    unfolding write_verified
    log-write_verified verify g log = log-after_write verify _ _

  -- What a request has noted at its end.
  abbrev pub noted_in : {A : Type 0} → Session (G × Log) × Result A → Log
  noted_in ((m, (g, log)), r) = log

  attempt-keeps :
      {A B : Type 0} (r : Result A) (s : Session (G × Log)) (k : A → Session (G × Log) × Result B)
      → ((a : A) → noted_in (k a) ≡ (s.1).1)
      → noted_in (attempt r s k) ≡ (s.1).1
  attempt-keeps (err e) s k h = refl
  attempt-keeps (ok a) s k h = h a

  module _ (digest : List ℕ → List ℕ) (target : TargetConnectionSpec)
      (firmware : FirmwareIdentityPlan) (m : TargetSessionManager) where
    -- The firmware check writes nothing.
    log-prove_identity :
        (s : G × Log) (r : Result (List ℕ))
        → noted_in (prove_identity (traced gw) digest target firmware m (s, r)) ≡ s.1
    unfolding prove_identity
    log-prove_identity s (err e) = refl
    log-prove_identity s (ok bytes) = attempt-keeps _ (m, s) _ (λ same. refl)

    log-read_identity :
        (expected : FirmwareIdentityBlock) (range : MemoryRange) (s : G × Log)
        (r : Result DeviceMemoryMap)
        → noted_in (read_identity (traced gw) digest target firmware expected range m (s, r)) ≡ s.1
    unfolding read_identity
    log-read_identity expected range s (err e) = refl
    log-read_identity expected range s (ok memory_map) =
        attempt-keeps (classify memory_map range) (m, s) _
          λ kind. elim (Bool-cases (kind_eq kind flash)) [
            | inl is_flash ↦ rw is_flash (log-prove_identity _ _)
            | inr other ↦ rw other refl
          ]

    log-first_identity :
        (s : G × Log) → noted_in (first_identity (traced gw) digest target firmware (m, s)) ≡ s.1
    unfolding first_identity
    log-first_identity s =
        attempt-keeps (ensure_firmware_identity_read_allowed m) (m, s) _
          λ allowed.
            attempt-keeps (ensure_strong firmware) (m, s) _
              λ expected.
                attempt-keeps (new_range expected.address (length expected.bytes)) (m, s) _
                  λ range. log-read_identity expected range _ _

    log-by_strength :
        (level : FirmwareIdentityStrength) (require_strong : Bool) (s : G × Log)
        → noted_in (by_strength (traced gw) digest level target firmware require_strong (m, s))
          ≡ s.1
    unfolding weak_identity strong_identity
    log-by_strength weak true s = attempt-keeps (ensure_strong firmware) (m, s) _ (λ block. refl)
    log-by_strength weak false s = refl
    log-by_strength strong require_strong s =
        elim (Bool-cases (firmware_identity_cached m target firmware)) [
          | inl hit ↦ rw hit refl
          | inr miss ↦ rw miss (log-first_identity s)
        ]

    pub log-ensure_firmware_identity :
        (require_strong : Bool) (s : G × Log)
        → noted_in
            (ensure_firmware_identity (traced gw) digest target firmware require_strong (m, s))
          ≡ s.1
    unfolding ensure_firmware_identity
    log-ensure_firmware_identity require_strong s =
        attempt-keeps (validate_plan firmware) (m, s) _
          (λ valid. log-by_strength (strength firmware) require_strong s)
