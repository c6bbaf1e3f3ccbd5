-- ===== src/Worker/Connect/Consistent.antt =====
-- What a session manager never contradicts between two requests.
use jlink_mcp_v.Base.{
  ℕ, Option, none, some, List, [], ◌≡◌, ◌∙◌, ◌⊎◌, inl, inr, refl, Bool-cases, eq, nat_equal,
  list_equal,
}
use jlink_mcp_v.Base.Decimal.{to_decimal}
use jlink_mcp_v.Domain.Error.{JlinkError, Result, ok, err}
use jlink_mcp_v.Domain.State.{
  ConnectionState, disconnected, connecting, connected, faulted, unknown, transition_session,
  connect_requested,
}
use jlink_mcp_v.Domain.Session.{TargetConnectionSpec, validate_spec, ValidationReport}
use jlink_mcp_v.Worker.Gateway.{Gateway, TargetObservation}
use jlink_mcp_v.Worker.Manager.{
  TargetSessionManager, FirmwareIdentityCacheKey, record_validation_evidence,
  ordinary_debug_validation_passed,
}
use jlink_mcp_v.Worker.Recovery.{Recovered, recover_target}
use jlink_mcp_v.Worker.Connect.{
  in_state, connect, opened_connect, recovered_connect, check_connect, finish_connect, fail_connect,
  recovered_manager, attempt,
}

-- No validation counts.
pub record HasNoEvidence (m : TargetSessionManager) : Type 0 where
  pub no_key : m.validation_key ≡ none
  pub no_checks : m.validation_checks ≡ []
  pub no_access : m.running_background_access ≡ none

-- No target is active, and nothing was validated or proved of one.
pub record IsVoid (m : TargetSessionManager) : Type 0 where
  pub no_target : m.active_target ≡ none
  pub no_evidence : HasNoEvidence m
  pub no_identity : m.firmware_identity ≡ none

-- And no state, no identifier and no recovery of a target is remembered either.
pub record IsForgotten (m : TargetSessionManager) : Type 0 where
  pub void : IsVoid m
  pub no_state : m.target_state ≡ unknown
  pub no_id : m.target_id ≡ none
  pub no_recovery : m.recovery_notifications ≡ []

pub record IsFaulted (m : TargetSessionManager) : Type 0 where
  pub phase : m.connection_state ≡ faulted
  pub forgotten : IsForgotten m

pub record IsIdle (m : TargetSessionManager) : Type 0 where
  pub at_rest : (m.connection_state ≡ disconnected) ⊎ IsFaulted m
  pub void : IsVoid m

pub IsFaulted-IsIdle : {m : TargetSessionManager} → IsFaulted m → IsIdle m
IsFaulted-IsIdle down = record { at_rest = inr down; void = down.forgotten.void }

-- IsVoid speaks of these fields alone.
pub IsVoid-same :
    {m n : TargetSessionManager}
    → IsVoid m
    → n.active_target ≡ m.active_target
    → n.validation_key ≡ m.validation_key
    → n.validation_checks ≡ m.validation_checks
    → n.running_background_access ≡ m.running_background_access
    → n.firmware_identity ≡ m.firmware_identity
    → IsVoid n
IsVoid-same void t k c a i = record {
  no_target = t ∙ void.no_target;
  no_evidence = record {
    no_key = k ∙ void.no_evidence.no_key;
    no_checks = c ∙ void.no_evidence.no_checks;
    no_access = a ∙ void.no_evidence.no_access;
  };
  no_identity = i ∙ void.no_identity;
}

-- There is no evidence, or it is of this target.
abbrev pub IsEvidence : TargetSessionManager → TargetConnectionSpec → Type 0
IsEvidence m spec = HasNoEvidence m ⊎ (m.validation_key ≡ some spec)

pub IsEvidence-same :
    {m n : TargetSessionManager} {spec : TargetConnectionSpec}
    → IsEvidence m spec
    → n.validation_key ≡ m.validation_key
    → n.validation_checks ≡ m.validation_checks
    → n.running_background_access ≡ m.running_background_access
    → IsEvidence n spec
IsEvidence-same (inl without) k c a = inl record {
  no_key = k ∙ without.no_key;
  no_checks = c ∙ without.no_checks;
  no_access = a ∙ without.no_access;
}
IsEvidence-same (inr key) k c a = inr (k ∙ key)

-- The cached identity was proved over this very connection.
abbrev pub IsIdentity :
    TargetSessionManager → TargetConnectionSpec → Option FirmwareIdentityCacheKey → Type 0
IsIdentity m spec none = Unit
IsIdentity m spec (some key) =
    (key.generation ≡ m.connection_generation) × (key.target ≡ spec) × (key.dll ≡ m.dll_sha256)

pub record IsLive (m : TargetSessionManager) : Type 0 where
  pub phase : m.connection_state ≡ connected
  pub spec : TargetConnectionSpec
  pub target : m.active_target ≡ some spec
  pub valid : validate_spec spec ≡ ok tt
  pub key : IsEvidence m spec
  pub identity : IsIdentity m spec m.firmware_identity

abbrev pub IsConsistent : TargetSessionManager → Type 0
IsConsistent m = IsIdle m ⊎ IsLive m

module _ {G : Type 0} (gw : Gateway G) where
  fail_connect-IsIdle :
      (m : TargetSessionManager) (g : G) (e : JlinkError)
      → m.connection_state ≡ connecting
      → IsVoid m
      → IsIdle ((fail_connect gw m g e).0.0)
  unfolding fail_connect transition_session
  fail_connect-IsIdle m g e phase void =
      rw phase record { at_rest = inl refl; void = IsVoid-same void refl refl refl refl refl }

  finish_connect-IsLive :
      (spec : TargetConnectionSpec) (id : ℕ) (report : ValidationReport) (m : TargetSessionManager)
      (g : G)
      → validate_spec spec ≡ ok tt
      → m.connection_state ≡ connecting
      → IsLive ((finish_connect gw spec id report m g).0.0)
  unfolding finish_connect transition_session record_validation_evidence
  finish_connect-IsLive spec id report m g valid phase = rw phase record {
    phase = refl;
    spec = spec;
    target = refl;
    valid = valid;
    key = inr refl;
    identity = tt;
  }

  module _ (spec : TargetConnectionSpec) (valid : validate_spec spec ≡ ok tt) where
    check_connect-IsConsistent :
        (id : ℕ) (m : TargetSessionManager) (answer : G × ValidationReport)
        → m.connection_state ≡ connecting
        → IsVoid m
        → IsConsistent ((check_connect gw spec id m answer).0.0)
    unfolding check_connect
    check_connect-IsConsistent id m (g, report) phase void =
        elim (Bool-cases (ordinary_debug_validation_passed report)) [
          | inl passed ↦ rw passed (inr (finish_connect-IsLive spec id report m g valid phase))
          | inr failed ↦
              rw failed
                (inl (fail_connect-IsIdle _ _ _ phase (IsVoid-same void refl refl refl refl refl)))
        ]

    recovered_connect-IsConsistent :
        (id : ℕ) (m : TargetSessionManager) (answer : G × Result Recovered)
        → m.connection_state ≡ connecting
        → IsVoid m
        → IsConsistent ((recovered_connect gw spec id m answer).0.0)
    unfolding recovered_connect
    recovered_connect-IsConsistent id m (g, err e) phase void =
        inl (fail_connect-IsIdle _ _ _ phase void)
    recovered_connect-IsConsistent id m (g, ok (state, notices)) phase void =
        let m1 = recovered_manager state notices m in
        check_connect-IsConsistent id m1 (gw.validation_report m1.validation_runs none none g) phase
          (IsVoid-same void refl refl refl refl refl)

    opened_connect-IsConsistent :
        (m : TargetSessionManager) (answer : G × Result TargetObservation)
        → m.connection_state ≡ connecting
        → IsVoid m
        → IsConsistent ((opened_connect gw spec m answer).0.0)
    unfolding opened_connect
    opened_connect-IsConsistent m (g, err e) phase void = inl (fail_connect-IsIdle _ _ _ phase void)
    opened_connect-IsConsistent m (g, ok seen) phase void =
        recovered_connect-IsConsistent seen.target_id m (recover_target gw seen.target_state g)
          phase void

  -- Only a session at rest starts to connect.
  connecting_from :
      (m : TargetSessionManager) (state : ConnectionState)
      → IsConsistent m
      → transition_session m.connection_state connect_requested ≡ ok state
      → (state ≡ connecting) × IsVoid m
  unfolding transition_session
  connecting_from m state (inl idle) h = elim idle.at_rest [
    | inl rest ↦ (cc (rw rest at h), idle.void)
    | inr down ↦ (cc (rw (down.phase) at h), idle.void)
  ]
  connecting_from m state (inr live) h = cc (rw live.phase at h)

  requested-IsConsistent :
      (spec : TargetConnectionSpec) (m : TargetSessionManager) (g : G)
      → validate_spec spec ≡ ok tt
      → IsConsistent m
      → (r : Result ConnectionState) → transition_session m.connection_state connect_requested ≡ r
      → IsConsistent (
          (attempt r
            (m, g)
            (λ state. opened_connect gw spec (in_state state m) (gw.open_target spec g))).0.0)
  requested-IsConsistent spec m g valid good (err e) h = good
  requested-IsConsistent spec m g valid good (ok state) h =
      let (phase, void) = connecting_from m state good h in
      opened_connect-IsConsistent spec valid (in_state state m) (gw.open_target spec g) phase
        (IsVoid-same void refl refl refl refl refl)

  checked-IsConsistent :
      (identity : List ℕ) (spec : TargetConnectionSpec) (m : TargetSessionManager) (g : G)
      → IsConsistent m
      → (r : Result (Unit {0})) → validate_spec spec ≡ r
      → IsConsistent ((connect gw identity spec (m, g)).0.0)
  unfolding connect
  checked-IsConsistent identity spec m g good (err e) h = rw h good
  checked-IsConsistent identity spec m g good (ok tt) h =
      elim (Bool-cases (eq identity (to_decimal spec.probe_serial))) [
        | inl same ↦ rw (h, same) (requested-IsConsistent spec m g h good _ refl)
        | inr other ↦ rw (h, other) good
      ]

  -- A connect request, granted or refused or failed half-way, leaves the session consistent.
  pub connect-IsConsistent :
      (identity : List ℕ) (spec : TargetConnectionSpec) (m : TargetSessionManager) (g : G)
      → IsConsistent m
      → IsConsistent ((connect gw identity spec (m, g)).0.0)
  connect-IsConsistent identity spec m g good = checked-IsConsistent identity spec m g good _ refl
