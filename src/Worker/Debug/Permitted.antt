-- ===== src/Worker/Debug/Permitted.antt =====
-- debug.rs: a debug request writes memory at most once, and only where and when it may.
use jlink_mcp_v.Base.{
  ℕ, ◌≡◌, refl, sym, subst, true, false, not, ◌&&◌, ◌⊎◌, inl, inr, Bool-cases, List, eq→≡,
  nat_equal, list_equal, option_equal, some,
}
use jlink_mcp_v.Domain.Error.{
  JlinkError, new, Result, ok, err, ensure, bind-eq-ok, ensure-eq-ok, operation_conflict,
  invalid_state_transition,
}
use jlink_mcp_v.Domain.Identity.{FirmwareIdentityPlan, FirmwareIdentityStrength}
use jlink_mcp_v.Domain.Memory.Request.{
  WriteVerify, DebugRequest, DebugResult, may_interleave_during_hss, validate_request,
}
use jlink_mcp_v.Domain.Memory.Request
use jlink_mcp_v.Domain.Session.{TargetConnectionSpec, spec_equal}
use jlink_mcp_v.Domain.TypedValue.Scalar.{Floats}
use jlink_mcp_v.Domain.TypedValue.Scalar.Length.{HasWidths}
use jlink_mcp_v.Worker.Gateway.{Gateway}
use jlink_mcp_v.Worker.Manager.{TargetSessionManager, is_connected, firmware_identity_cached}
use jlink_mcp_v.Worker.Connect.{Session, attempt}
use jlink_mcp_v.Worker.Debug.Execute.{
  then_with, ensure_debug_allowed, access, passed, prove_firmware, on_gateway, execute_debug,
}
use jlink_mcp_v.Worker.Debug.Proved.{
  IdentityEnd, no_identity, already, proved, ensure_firmware_identity-IdentityEnd,
}
use jlink_mcp_v.Worker.Debug.Traced.{Log, traced, noted_in, log-ensure_firmware_identity}
use jlink_mcp_v.Worker.Debug.Writes.{Writes, nothing, IsProved, access-Writes}

module _ (fl : Floats) {G : Type 0} (gw : Gateway G) (target : TargetConnectionSpec) where
  open fl use {F64}

  -- When a request may go on: connected to its target, and no capture is active or it may interleave.
  pub record IsAllowed (m : TargetSessionManager) (request : DebugRequest F64) : Type 0 where
    valid : validate_request request ≡ ok tt
    up : is_connected m.connection_state ≡ true
    active : m.active_target ≡ some target
    quiet : (m.hss_active ≡ false) ⊎ (may_interleave_during_hss request ≡ true)

  -- From the manager, the gateway's state and the log before to those after, and the answer.
  pub data DebugEnd (request : DebugRequest F64) (m : TargetSessionManager) (g : G) (log : Log)
      : Session (G × Log) × Result (DebugResult F64) → Type 0 where
    refused : {e : JlinkError} → DebugEnd request m g log ((m, (g, log)), err e)
    ran :
        {m' : TargetSessionManager} {s : G × Log} {r : Result (DebugResult F64)}
        → IsAllowed m request
        → Writes fl gw target m' request log (s.1)
        → DebugEnd request m g log ((m', s), r)

  still_quiet :
      (m : TargetSessionManager) (request : DebugRequest F64)
      → not (m.hss_active && not (may_interleave_during_hss request)) ≡ true
      → (m.hss_active ≡ false) ⊎ (may_interleave_during_hss request ≡ true)
  still_quiet m request h = elim (Bool-cases m.hss_active) [
    | inr quiet ↦ inl quiet
    | inl active ↦ elim (Bool-cases (may_interleave_during_hss request)) [
      | inl may ↦ inr may
      | inr may_not ↦ absurd (cc (rw (active, may_not) at h))
    ]
  ]

  ensure_debug_allowed-IsAllowed :
      (m : TargetSessionManager) (request : DebugRequest F64) {u : Unit {0}}
      → ensure_debug_allowed fl m target request ≡ ok u
      → IsAllowed m request
  unfolding ensure_debug_allowed
  ensure_debug_allowed-IsAllowed m request h =
      let (_, valid, h₁) = bind-eq-ok _ (validate_request request) h in
      let (_, quiet, h₂) =
        bind-eq-ok _
          (ensure (not (m.hss_active && not (may_interleave_during_hss request)))
            (new operation_conflict true))
          h₁ in
      let (_, up, h₃) =
        bind-eq-ok _ (ensure (is_connected m.connection_state) (new invalid_state_transition true))
          h₂ in
      record {
        valid = valid;
        up = ensure-eq-ok _ _ up;
        active = eq→≡ m.active_target (some target) (ensure-eq-ok _ _ h₃);
        quiet = still_quiet m request (ensure-eq-ok _ _ quiet);
      }

  module _ (widths : HasWidths fl) (log : Log) where
    module _ (digest : List ℕ → List ℕ) where
      cached-IdentityEnd :
          (firmware : FirmwareIdentityPlan) {m : TargetSessionManager}
          {x : Session (G × Log) × Result FirmwareIdentityStrength}
          {level : FirmwareIdentityStrength}
          → IdentityEnd (traced gw) digest target firmware m true x
          → x.1 ≡ ok level
          → firmware_identity_cached ((x.0).0) target firmware ≡ true
      cached-IdentityEnd firmware no_identity h = cc
      cached-IdentityEnd firmware (already hit) h = hit
      cached-IdentityEnd firmware (proved quiet block read hit) h = hit

      -- After the firmware check.
      abbrev IsChecked : DebugRequest F64 → Session (G × Log) × Result (Unit {0}) → Type 0
      IsChecked request x =
          (noted_in gw x ≡ log) × (x.1 ≡ ok tt → IsProved fl gw target ((x.0).0) request)

      passed-IsChecked :
          (request : DebugRequest F64) (x : Session (G × Log) × Result FirmwareIdentityStrength)
          → noted_in gw x ≡ log
          → ((level : FirmwareIdentityStrength)
              → x.1 ≡ ok level
              → IsProved fl gw target ((x.0).0) request)
          → IsChecked request (passed fl (traced gw) digest x)
      passed-IsChecked request (s, err e) kept h = (kept, λ r. cc)
      passed-IsChecked request (s, ok level) kept h = (kept, λ r. h level refl)

      prove_firmware-IsChecked :
          (request : DebugRequest F64) (m : TargetSessionManager) (g : G)
          → IsChecked request (prove_firmware fl (traced gw) digest target request (m, (g, log)))
      unfolding prove_firmware
      prove_firmware-IsChecked (Request.read_variable plan firmware) m g =
          passed-IsChecked (Request.read_variable plan firmware) _
            (log-ensure_firmware_identity gw digest target firmware m false (g, log))
            (λ level r. tt)
      prove_firmware-IsChecked (Request.write_variable plan firmware value verify) m g =
          passed-IsChecked (Request.write_variable plan firmware value verify) _
            (log-ensure_firmware_identity gw digest target firmware m true (g, log))
            (λ level r.
              cached-IdentityEnd firmware
                (ensure_firmware_identity-IdentityEnd (traced gw) digest target firmware m true
                  (g, log))
                r)
      prove_firmware-IsChecked (Request.read_memory range) m g = (refl, λ r. tt)
      prove_firmware-IsChecked (Request.write_memory address bytes verify) m g = (refl, λ r. tt)
      prove_firmware-IsChecked (Request.read_register register) m g = (refl, λ r. tt)
      prove_firmware-IsChecked (Request.write_register register value) m g = (refl, λ r. tt)

      checked-DebugEnd :
          (request : DebugRequest F64) (m : TargetSessionManager) (g : G)
          → IsAllowed m request
          → (x : Session (G × Log) × Result (Unit {0})) → IsChecked request x
          → DebugEnd request m g log (
              then_with x (λ proved s.
                on_gateway fl
                  (traced gw)
                  digest
                  (s.0)
                  (access fl (traced gw) target request (s.1))))
      checked-DebugEnd request m g allowed ((m', (g', log')), err e) (kept, h) =
          ran allowed (subst (Writes fl gw target m' request log) (sym kept) nothing)
      checked-DebugEnd request m g allowed ((m', (g', log')), ok u) (kept, h) = ran allowed (
          subst
            (λ l.
              Writes fl gw target m' request log
                (((access fl (traced gw) target request (g', l)).0).1))
            (sym kept) (access-Writes fl gw target widths log m' request g' (h refl)))

      -- A debug request is refused before any call of the gateway, or it is valid, the session is connected
      -- to its target, and no capture is active or the request may go between its reads. Then it writes
      -- memory at most once, also when it fails: the bytes of a raw write or of a variable's plan, in a
      -- range that the map of the device lets through, and a variable only of firmware that is proved.
      -- That f32 and f64 take 4 and 8 bytes is supposed.
      pub execute_debug-DebugEnd :
          (request : DebugRequest F64) (m : TargetSessionManager) (g : G)
          → DebugEnd request m g log
              (execute_debug fl (traced gw) digest target request (m, (g, log)))
      unfolding execute_debug
      execute_debug-DebugEnd request m g = decided _ refl
        where
          decided :
              (r : Result (Unit {0}))
              → ensure_debug_allowed fl m target request ≡ r
              → DebugEnd request m g log (
                  attempt r
                    (m, (g, log))
                    λ allowed.
                      then_with
                        (prove_firmware fl (traced gw) digest target request (m, (g, log)))
                        λ proved s.
                          on_gateway fl
                            (traced gw)
                            digest
                            (s.0)
                            (access fl (traced gw) target request (s.1)))
          decided (err e) h = refused
          decided (ok u) h =
              checked-DebugEnd request m g (ensure_debug_allowed-IsAllowed m request h) _
                (prove_firmware-IsChecked request m g)
