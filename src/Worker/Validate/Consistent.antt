-- ===== src/Worker/Validate/Consistent.antt =====
-- A validation keeps the session consistent.
use jlink_mcp_v.Base.{
  ℕ, not, ◌&&◌, ◌||◌, Option, none, some, List, ◌≡◌, inl, inr, refl, Bool-cases, eq, eq→≡,
  nat_equal, list_equal, option_equal, any, wrapping_add,
}
use jlink_mcp_v.Base.Decimal.{to_decimal}
use jlink_mcp_v.Domain.Error.{Result, ok, err}
use jlink_mcp_v.Domain.State.{ConnectionState, disconnected, connecting, connected, faulted}
use jlink_mcp_v.Domain.Session.{
  TargetConnectionSpec, spec_equal, validate_spec, ValidationReport, ValidationAfter,
}
use jlink_mcp_v.Worker.Gateway.{Gateway, TargetObservation}
use jlink_mcp_v.Worker.Manager.{
  TargetSessionManager, ValidationMode, observe, temporary, validation_mode, is_active, is_unknown,
  is_target_identity, record_validation_evidence, invalidate_validation,
}
use jlink_mcp_v.Worker.Recovery.{recover_target}
use jlink_mcp_v.Worker.Connect.{attempt}
use jlink_mcp_v.Worker.Connect.Consistent.{
  IsConsistent, IsIdle, IsLive, IsVoid, IsVoid-same, IsEvidence-same,
}
use jlink_mcp_v.Worker.Validate.{
  count_run, reusable_checks, observed, validate_observe, temporary_pass, close_pass,
  opened_temporary, validate_temporary, validate_in, validate,
}

observe-connected :
    (s : ConnectionState) (after : Option ValidationAfter)
    → validation_mode s after ≡ ok observe
    → s ≡ connected
unfolding validation_mode
observe-connected connected after h = refl
observe-connected disconnected none h = cc
observe-connected disconnected (some a) h = cc
observe-connected connecting after h = cc
observe-connected faulted after h = cc

connected-observe :
    (after : Option ValidationAfter) (a : ValidationAfter)
    → validation_mode connected after ≡ ok (temporary a)
    → ⊥
unfolding validation_mode
connected-observe none a h = cc
connected-observe (some b) a h = cc

faulted-refused :
    (after : Option ValidationAfter) (a : ValidationAfter)
    → validation_mode faulted after ≡ ok (temporary a)
    → ⊥
unfolding validation_mode
faulted-refused none a h = cc
faulted-refused (some b) a h = cc

module _ {G : Type 0} (gw : Gateway G) where
  observed-IsLive :
      (spec : TargetConnectionSpec) (m : TargetSessionManager) (answer : G × ValidationReport)
      → (live : IsLive m) → spec ≡ live.spec
      → IsLive ((observed gw spec m answer).0.0)
  unfolding observed record_validation_evidence invalidate_validation
  observed-IsLive spec m (g, report) live same =
      elim (Bool-cases (
        is_unknown report.target_state
        || any (λ c. is_target_identity c.kind && not c.passed) report.checks)) [
          | inl lost ↦ rw lost record {
            phase = live.phase;
            spec = live.spec;
            target = live.target;
            valid = live.valid;
            key = inl record { no_key = refl; no_checks = refl; no_access = refl };
            identity = tt;
          }
          | inr fine ↦ rw fine record {
            phase = live.phase;
            spec = live.spec;
            target = live.target;
            valid = live.valid;
            key = inr (rw same refl);
            identity = live.identity;
          }
        ]

  validate_observe-IsConsistent :
      (spec : TargetConnectionSpec) (m : TargetSessionManager) (g : G)
      → m.connection_state ≡ connected
      → IsConsistent m
      → IsConsistent ((validate_observe gw spec (m, g)).0.0)
  unfolding validate_observe
  validate_observe-IsConsistent spec m g phase (inl idle) = elim idle.at_rest [
    | inl rest ↦ absurd (cc)
    | inr down ↦ absurd (cc (down.phase, phase))
  ]
  validate_observe-IsConsistent spec m g phase (inr live) = elim (Bool-cases (is_active m spec)) [
    | inr other ↦ rw other (inr live)
    | inl active ↦
        let same : spec ≡ live.spec = cc (live.target, eq→≡ m.active_target (some spec) active) in
        rw active (
          inr (
            observed-IsLive spec (count_run m)
              (gw.validation_report (count_run m).validation_runs (reusable_checks spec m)
                m.running_background_access g)
              (record {
                phase = live.phase;
                spec = live.spec;
                target = live.target;
                valid = live.valid;
                key = IsEvidence-same live.key refl refl refl;
                identity = live.identity;
              })
              same))
  ]

  close_pass-IsIdle :
      (runs id : ℕ) (m : TargetSessionManager) (answer : G × Result ValidationReport)
      → m.connection_state ≡ disconnected
      → IsVoid m
      → IsIdle ((close_pass gw runs id m answer).0.0)
  unfolding close_pass
  close_pass-IsIdle runs id m (g, ok report) rest void = record {
    at_rest = inl rest;
    void = IsVoid-same void refl refl refl refl refl;
  }
  close_pass-IsIdle runs id m (g, err e) rest void = record {
    at_rest = inl rest;
    void = IsVoid-same void refl refl refl refl refl;
  }

  opened_temporary-IsIdle :
      (after : ValidationAfter) (m : TargetSessionManager) (answer : G × Result TargetObservation)
      → m.connection_state ≡ disconnected
      → IsVoid m
      → IsIdle ((opened_temporary gw after m answer).0.0)
  unfolding opened_temporary
  opened_temporary-IsIdle after m (g, err e) rest void = record { at_rest = inl rest; void = void }
  opened_temporary-IsIdle after m (g, ok seen) rest void =
      close_pass-IsIdle (wrapping_add m.validation_runs 1) seen.target_id m
        (temporary_pass gw after (wrapping_add m.validation_runs 1)
          (recover_target gw seen.target_state g))
        rest void

  mode-IsConsistent :
      (spec : TargetConnectionSpec) (after : Option ValidationAfter) (m : TargetSessionManager)
      (g : G)
      → IsConsistent m
      → (mode : ValidationMode) → validation_mode m.connection_state after ≡ ok mode
      → IsConsistent ((validate_in gw mode spec (m, g)).0.0)
  unfolding validate_in validate_temporary
  mode-IsConsistent spec after m g good observe h =
      validate_observe-IsConsistent spec m g (observe-connected m.connection_state after h) good
  mode-IsConsistent spec after m g (inl idle) (temporary a) h = elim idle.at_rest [
    | inl rest ↦ inl (opened_temporary-IsIdle a m (gw.open_target spec g) rest idle.void)
    | inr down ↦ absurd (faulted-refused after a (rw (down.phase) at h))
  ]
  mode-IsConsistent spec after m g (inr live) (temporary a) h =
      absurd (connected-observe after a (rw live.phase at h))

  validated-IsConsistent :
      (identity : List ℕ) (spec : TargetConnectionSpec) (after : Option ValidationAfter)
      (m : TargetSessionManager) (g : G)
      → IsConsistent m
      → (r : Result (Unit {0})) → validate_spec spec ≡ r
      → (mode : Result ValidationMode) → validation_mode m.connection_state after ≡ mode
      → IsConsistent ((validate gw identity spec after (m, g)).0.0)
  unfolding validate
  validated-IsConsistent identity spec after m g good (err e) h mode k = rw h good
  validated-IsConsistent identity spec after m g good (ok tt) h mode k =
      elim (Bool-cases (eq identity (to_decimal spec.probe_serial))) [
        | inr other ↦ rw (h, other) good
        | inl same ↦ rw (h, same) (chosen mode k)
      ]
    where
      chosen :
          (mode : Result ValidationMode)
          → validation_mode m.connection_state after ≡ mode
          → IsConsistent (
              (attempt
                (validation_mode m.connection_state after)
                (m, g)
                (λ t. validate_in gw t spec (m, g))).0.0)
      chosen (err e) k = rw k good
      chosen (ok t) k = rw k (mode-IsConsistent spec after m g good t k)

  -- A validation, of a connection or on its own, granted or refused, leaves the session consistent.
  pub validate-IsConsistent :
      (identity : List ℕ) (spec : TargetConnectionSpec) (after : Option ValidationAfter)
      (m : TargetSessionManager) (g : G)
      → IsConsistent m
      → IsConsistent ((validate gw identity spec after (m, g)).0.0)
  validate-IsConsistent identity spec after m g good =
      validated-IsConsistent identity spec after m g good _ refl _ refl
