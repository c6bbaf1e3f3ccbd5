-- ===== src/Worker/Debug/Proved.antt =====
-- When a session may say that its target runs the firmware of a plan.
use jlink_mcp_v.Base.{
  ℕ, Bool, true, false, none, some, List, length, ◌≡◌, inl, inr, refl, Bool-cases, Option-cases,
  eq_refl, nat_equal, list_equal, ==_refl, ap, ◌∙◌,
}
use jlink_mcp_v.Domain.Error.{JlinkError, Result, ok, err}
use jlink_mcp_v.Domain.Memory.{
  DeviceMemoryMap, MemoryRange, MemoryRegionKind, flash, kind_eq, classify, new_range,
}
use jlink_mcp_v.Domain.Identity.{
  FirmwareIdentityPlan, plan_equal, FirmwareIdentityBlock, FirmwareIdentityStrength, weak, strong,
  strength, validate_plan, ensure_strong, verify_target_bytes,
}
use jlink_mcp_v.Domain.Identity.Block.{ensure_strong-block, verify_target_bytes_iff}
use jlink_mcp_v.Domain.Session.{TargetConnectionSpec, spec_equal}
use jlink_mcp_v.Worker.Gateway.{Gateway}
use jlink_mcp_v.Worker.Manager.{
  TargetSessionManager, firmware_identity_cached, record_firmware_identity,
  ensure_firmware_identity_read_allowed,
}
use jlink_mcp_v.Worker.Connect.{Session, attempt}
use jlink_mcp_v.Worker.Debug.{
  prove_identity, read_identity, first_identity, strong_identity, weak_identity, by_strength,
  ensure_firmware_identity,
}

-- What is recorded is found again, as long as the connection lasts.
cached-recorded :
    (m : TargetSessionManager) (target : TargetConnectionSpec) (firmware : FirmwareIdentityPlan)
    → firmware_identity_cached (record_firmware_identity target firmware m) target firmware ≡ true
unfolding firmware_identity_cached record_firmware_identity
cached-recorded m target firmware =
    rw (==_refl m.connection_generation, eq_refl target, eq_refl firmware, eq_refl m.dll_sha256)

quiet_capture :
    (m : TargetSessionManager)
    → ensure_firmware_identity_read_allowed m ≡ ok tt
    → m.hss_active ≡ false
unfolding ensure_firmware_identity_read_allowed
quiet_capture m h = elim (Bool-cases m.hss_active) [
  | inr quiet ↦ quiet
  | inl active ↦ absurd (cc (rw active at h))
]

weak-absent : (plan : FirmwareIdentityPlan) → strength plan ≡ weak → plan.identity_block ≡ none
unfolding strength
weak-absent plan h = elim (Option-cases plan.identity_block) [
  | inl absent ↦ absent
  | inr (block, present) ↦ absurd (cc (rw present at h))
]

module _ {G : Type 0} (gw : Gateway G) (digest : List ℕ → List ℕ) (target : TargetConnectionSpec)
    (firmware : FirmwareIdentityPlan) where
  -- From the requirement and the manager before to the session after and the answer.
  pub data IdentityEnd (m : TargetSessionManager)
      : Bool → Session G × Result FirmwareIdentityStrength → Type 0 where
    no_identity : {b : Bool} {g : G} {e : JlinkError} → IdentityEnd m b ((m, g), err e)
    without_block : {g : G} → firmware.identity_block ≡ none → IdentityEnd m false ((m, g), ok weak)
    already :
        {b : Bool} {g : G}
        → firmware_identity_cached m target firmware ≡ true
        → IdentityEnd m b ((m, g), ok strong)
    proved :
        {b : Bool} {g1 g2 : G} {block : FirmwareIdentityBlock}
        → m.hss_active ≡ false
        → firmware.identity_block ≡ some block
        → gw.read_bytes block.address (length block.bytes) g1 ≡ (g2, ok block.bytes)
        → firmware_identity_cached (record_firmware_identity target firmware m) target firmware
          ≡ true
        → IdentityEnd m b ((record_firmware_identity target firmware m, g2), ok strong)

  module _ (m : TargetSessionManager) (b : Bool) where
    module _ (quiet : m.hss_active ≡ false) (block : FirmwareIdentityBlock)
        (chosen : ensure_strong firmware ≡ ok block) where
      same-IdentityEnd :
          (g1 g2 : G) (bytes : List ℕ)
          → gw.read_bytes block.address (length block.bytes) g1 ≡ (g2, ok bytes)
          → (r : Result (Unit {0})) → verify_target_bytes digest firmware (some bytes) ≡ r
          → IdentityEnd m b (prove_identity gw digest target firmware m (g2, ok bytes))
      unfolding prove_identity
      same-IdentityEnd g1 g2 bytes read (err e) h = rw h no_identity
      same-IdentityEnd g1 g2 bytes read (ok tt) h =
          let (found, chosen2, same) = (verify_target_bytes_iff digest firmware bytes).0 h in
          let one : found ≡ block = cc in
          rw h (
            proved quiet (ensure_strong-block firmware block chosen)
              (read ∙ ap (λ bs. (g2, ok bs)) (same ∙ ap (λ t. t.bytes) one))
              (cached-recorded m target firmware))

      read-IdentityEnd :
          (g1 : G) (answer : G × Result (List ℕ))
          → gw.read_bytes block.address (length block.bytes) g1 ≡ answer
          → IdentityEnd m b (prove_identity gw digest target firmware m answer)
      unfolding prove_identity
      read-IdentityEnd g1 (g2, err e) read = no_identity
      read-IdentityEnd g1 (g2, ok bytes) read = same-IdentityEnd g1 g2 bytes read _ refl

      kind-IdentityEnd :
          (range : MemoryRange) (g1 : G) (map : DeviceMemoryMap) (r : Result MemoryRegionKind)
          → classify map range ≡ r
          → IdentityEnd m b (read_identity gw digest target firmware block range m (g1, ok map))
      unfolding read_identity
      kind-IdentityEnd range g1 map (err e) h = rw h no_identity
      kind-IdentityEnd range g1 map (ok kind) h = elim (Bool-cases (kind_eq kind flash)) [
        | inr other ↦ rw (h, other) no_identity
        | inl is_flash ↦ rw (h, is_flash) (read-IdentityEnd g1 _ refl)
      ]

      map-IdentityEnd :
          (range : MemoryRange) (answer : G × Result DeviceMemoryMap)
          → IdentityEnd m b (read_identity gw digest target firmware block range m answer)
      unfolding read_identity
      map-IdentityEnd range (g1, err e) = no_identity
      map-IdentityEnd range (g1, ok map) = kind-IdentityEnd range g1 map _ refl

      range-IdentityEnd :
          (g : G) (r : Result MemoryRange)
          → IdentityEnd m b (
              attempt r
                (m, g)
                (λ range.
                  read_identity gw digest target firmware block range m
                    (gw.device_memory_map target.device g)))
      range-IdentityEnd g (err e) = no_identity
      range-IdentityEnd g (ok range) = map-IdentityEnd range (gw.device_memory_map target.device g)

    block-IdentityEnd :
        (g : G)
        → m.hss_active ≡ false
        → (r : Result FirmwareIdentityBlock) → ensure_strong firmware ≡ r
        → IdentityEnd m b (
            attempt r
              (m, g)
              (λ block.
                attempt
                  (new_range block.address (length block.bytes))
                  (m, g)
                  (λ range.
                    read_identity gw digest target firmware block range m
                      (gw.device_memory_map target.device g))))
    block-IdentityEnd g quiet (err e) h = no_identity
    block-IdentityEnd g quiet (ok block) h =
        range-IdentityEnd quiet block h g (new_range block.address (length block.bytes))

    first-IdentityEnd :
        (g : G) (r : Result (Unit {0}))
        → ensure_firmware_identity_read_allowed m ≡ r
        → IdentityEnd m b (first_identity gw digest target firmware (m, g))
    unfolding first_identity
    first-IdentityEnd g (err e) h = rw h no_identity
    first-IdentityEnd g (ok tt) h =
        rw h (block-IdentityEnd g (quiet_capture m h) (ensure_strong firmware) refl)

    strong-IdentityEnd :
        (g : G) → IdentityEnd m b (strong_identity gw digest target firmware (m, g))
    unfolding strong_identity
    strong-IdentityEnd g = elim (Bool-cases (firmware_identity_cached m target firmware)) [
      | inl hit ↦ rw hit (already hit)
      | inr miss ↦ rw miss (first-IdentityEnd g _ refl)
    ]

  weak-IdentityEnd :
      (m : TargetSessionManager) (b : Bool) (g : G)
      → firmware.identity_block ≡ none
      → IdentityEnd m b (weak_identity gw digest firmware b (m, g))
  unfolding weak_identity
  weak-IdentityEnd m false g absent = without_block absent
  weak-IdentityEnd m true g absent = refused _ refl
    where
      refused :
          (r : Result FirmwareIdentityBlock)
          → ensure_strong firmware ≡ r
          → IdentityEnd m true
              (attempt (ensure_strong firmware) (m, g) (λ block. ((m, g), ok weak)))
      refused (err e) h = rw h no_identity
      refused (ok block) h = absurd (cc (ensure_strong-block firmware block h, absent))

  chosen-IdentityEnd :
      (m : TargetSessionManager) (b : Bool) (g : G) (s : FirmwareIdentityStrength)
      → strength firmware ≡ s
      → IdentityEnd m b (by_strength gw digest s target firmware b (m, g))
  chosen-IdentityEnd m b g weak h = weak-IdentityEnd m b g (weak-absent firmware h)
  chosen-IdentityEnd m b g strong h = strong-IdentityEnd m b g

  pub ensure_firmware_identity-IdentityEnd :
      (m : TargetSessionManager) (b : Bool) (g : G)
      → IdentityEnd m b (ensure_firmware_identity gw digest target firmware b (m, g))
  unfolding ensure_firmware_identity
  ensure_firmware_identity-IdentityEnd m b g = checked (validate_plan firmware)
    where
      checked :
          (r : Result (Unit {0}))
          → IdentityEnd m b (
              attempt r
                (m, g)
                (λ valid. by_strength gw digest (strength firmware) target firmware b (m, g)))
      checked (err e) = no_identity
      checked (ok tt) = chosen-IdentityEnd m b g _ refl
