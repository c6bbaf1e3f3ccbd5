-- ===== src/Worker/Control/Outcome.antt =====
-- How a control request can end.
use jlink_mcp_v.Base.{
  true, false, some, subst, sym, ◌≡◌, ◌≢◌, inl, inr, refl, Bool-cases, list_equal, option_equal,
  arith,
}
use jlink_mcp_v.Domain.Error.{
  ErrorCode, JlinkError, Result, ok, err, invalid_state_transition, target_recovery_failed,
}
use jlink_mcp_v.Domain.State.{
  ConnectionState, connected, connecting, disconnected, faulted, TargetState, running, halted,
  hard_fault, unknown, transition_session,
}
use jlink_mcp_v.Domain.Core.{ControlRequest, halt_core, resume, reset, step, run, halt}
use jlink_mcp_v.Domain.Session.{
  TargetConnectionSpec, spec_equal, connection_lost, ValidationInvalidation,
}
use jlink_mcp_v.Worker.Gateway.{Gateway}
use jlink_mcp_v.Worker.Manager.{
  TargetSessionManager, ensure_control_allowed, record_execution_uncertain, invalidate_validation,
  is_connected,
}
use jlink_mcp_v.Worker.Connect.{Session}
use jlink_mcp_v.Worker.Connect.Consistent.{
  IsConsistent, IsFaulted, IsFaulted-IsIdle, IsLive, IsEvidence-same,
}
use jlink_mcp_v.Worker.Control.{
  expected_state, state_eq, is_invalid_transition, not_settled, perform, uncertain, performed,
  execute_control,
}

is_connected_sound : (s : ConnectionState) → is_connected s ≡ true → s ≡ connected
is_connected_sound connected h = refl
is_connected_sound connecting h = cc
is_connected_sound disconnected h = cc
is_connected_sound faulted h = cc

state_eq_sound : (s t : TargetState) → state_eq s t ≡ true → s ≡ t
state_eq_sound s t h = ground arith

state_eq_refl : (s : TargetState) → state_eq s s ≡ true
state_eq_refl running = refl
state_eq_refl halted = refl
state_eq_refl hard_fault = refl
state_eq_refl unknown = refl

state_eq-other : (s t : TargetState) → s ≡ t → state_eq s t ≡ false → ⊥
state_eq-other s t h k = cc (rw (h, state_eq_refl t) at k)

-- A granted control request stands on a live connection without a running capture.
pub ensure_control_allowed-connected :
    (m : TargetSessionManager) (target : TargetConnectionSpec)
    → ensure_control_allowed m target ≡ ok tt
    → (m.connection_state ≡ connected) × (m.hss_active ≡ false)
unfolding ensure_control_allowed
ensure_control_allowed-connected m target h = elim (Bool-cases m.hss_active) [
  | inl active ↦ absurd (cc (rw active at h))
  | inr idle ↦ elim (Bool-cases (is_connected m.connection_state)) [
    | inl up ↦ (is_connected_sound m.connection_state up, idle)
    | inr down ↦ absurd (cc (rw (idle, down) at h))
  ]
]

-- Losing a live connection ends in a fault, with everything forgotten.
pub record_execution_uncertain-IsFaulted :
    (reason : ValidationInvalidation) (m : TargetSessionManager)
    → m.connection_state ≡ connected
    → IsFaulted ((record_execution_uncertain reason m).0)
      × ((record_execution_uncertain reason m).0.last_invalidation ≡ some reason)
      × ((record_execution_uncertain reason m).1 ≡ ok tt)
unfolding record_execution_uncertain transition_session invalidate_validation
record_execution_uncertain-IsFaulted reason m phase = rw phase (
  record {
    phase = refl;
    forgotten = record {
      void = record {
        no_target = refl;
        no_evidence = record { no_key = refl; no_checks = refl; no_access = refl };
        no_identity = refl;
      };
      no_state = refl;
      no_id = refl;
      no_recovery = refl;
    };
  },
  refl,
  refl,
)

-- The state that a request names.
abbrev pub named : ControlRequest → TargetState
named halt_core = halted
named resume = running
named (reset halt) = halted
named (reset run) = running
named step = halted

expected_state_lem : (request : ControlRequest) → expected_state request ≡ named request
unfolding expected_state
expected_state_lem halt_core = refl
expected_state_lem resume = refl
expected_state_lem (reset halt) = refl
expected_state_lem (reset run) = refl
expected_state_lem step = refl

pub state_IsLive :
    (m : TargetSessionManager) (s : TargetState) → IsLive m → IsLive (record m { target_state = s })
state_IsLive m s live = record {
  phase = live.phase;
  spec = live.spec;
  target = live.target;
  valid = live.valid;
  key = IsEvidence-same live.key refl refl refl;
  identity = live.identity;
}

module _ {G : Type 0} (gw : Gateway G) (target : TargetConnectionSpec)
    (request : ControlRequest) where
  -- What the gateway is asked, from its state before to its state after and the answer.
  pub data Asked (g : G) : ControlRequest → G × Result TargetState → Type 0 where
    asked_halt : Asked g halt_core (gw.halt_and_observe g)
    asked_resume : Asked g resume (gw.resume_and_observe g)
    asked_reset_halt : Asked g (reset halt) (gw.reset_halt_and_observe g)
    asked_reset_run : Asked g (reset run) (gw.reset_run_and_observe g)
    asked_step : Asked g step (gw.step_and_observe g)

  -- From the session before to the session after and the answer.
  pub data ControlEnd (m : TargetSessionManager) (before : G)
      : Session G × Result (Unit {0}) → Type 0 where
    refused :
        {e : JlinkError}
        → ensure_control_allowed m target ≡ err e
        → ControlEnd m before ((m, before), err e)
    done :
        {g : G}
        → IsLive m
        → Asked before request (g, ok (named request))
        → ControlEnd m before ((record m { target_state = named request }, g), ok tt)
    unsettled :
        {g : G} {s : TargetState} {e : JlinkError}
        → IsLive m
        → Asked before request (g, ok s)
        → s ≢ named request
        → e.code ≡ target_recovery_failed
        → ControlEnd m before ((record m { target_state = s }, g), err e)
    rejected :
        {g : G} {e : JlinkError}
        → Asked before request (g, err e)
        → e.code ≡ invalid_state_transition
        → ControlEnd m before ((m, g), err e)
    lost :
        {m' : TargetSessionManager} {g : G} {e : JlinkError}
        → Asked before request (g, err e)
        → e.code ≢ invalid_state_transition
        → IsFaulted m'
        → m'.last_invalidation ≡ some connection_lost
        → ControlEnd m before ((m', gw.close_target g), err e)

  perform-Asked : (r : ControlRequest) (g : G) → Asked g r (perform gw r g)
  unfolding perform
  perform-Asked halt_core g = asked_halt
  perform-Asked resume g = asked_resume
  perform-Asked (reset halt) g = asked_reset_halt
  perform-Asked (reset run) g = asked_reset_run
  perform-Asked step g = asked_step

  invalid_sound : (c : ErrorCode) → is_invalid_transition c ≡ true → c ≡ invalid_state_transition
  invalid_sound c h = ground arith

  module _ (m : TargetSessionManager) (before : G) (live : IsLive m) where
    uncertain-ControlEnd :
        (g : G) (e : JlinkError)
        → Asked before request (g, err e)
        → e.code ≢ invalid_state_transition
        → ControlEnd m before (uncertain gw m (gw.close_target g) e)
    unfolding uncertain
    uncertain-ControlEnd g e asked other =
        let (down, reason, recorded) =
          record_execution_uncertain-IsFaulted connection_lost m live.phase in
        rw recorded (lost asked other down reason)

    observed-ControlEnd :
        (g : G) (actual : TargetState)
        → Asked before request (g, ok actual)
        → ControlEnd m before (performed gw (named request) m (g, ok actual))
    unfolding performed not_settled
    observed-ControlEnd g actual asked = elim (Bool-cases (state_eq actual (named request))) [
      | inr other ↦
          rw other
            (unsettled live asked (λ same. state_eq-other actual (named request) same other) refl)
      | inl same ↦ rw same (
          subst (λ s. ControlEnd m before ((record m { target_state = s }, g), ok tt))
            (sym (state_eq_sound actual (named request) same))
            (done live (
              subst (λ s. Asked before request (g, ok s))
                (state_eq_sound actual (named request) same) asked)))
    ]

    performed-ControlEnd :
        (answer : G × Result TargetState)
        → Asked before request answer
        → ControlEnd m before (performed gw (named request) m answer)
    unfolding performed
    performed-ControlEnd (g, err e) asked = elim (Bool-cases (is_invalid_transition e.code)) [
      | inl invalid ↦ rw invalid (rejected asked (invalid_sound e.code invalid))
      | inr other ↦ rw other (uncertain-ControlEnd g e asked (λ p. cc (rw p at other)))
    ]
    performed-ControlEnd (g, ok actual) asked = observed-ControlEnd g actual asked

  module _ (m : TargetSessionManager) (g : G) (good : IsConsistent m) where
    allowed-IsLive : m.connection_state ≡ connected → IsLive m
    allowed-IsLive phase = elim good [
      | inr live ↦ live
      | inl idle ↦ elim idle.at_rest [
        | inl rest ↦ absurd (cc)
        | inr down ↦ absurd (cc (down.phase, phase))
      ]
    ]

    guarded-ControlEnd :
        (r : Result (Unit {0}))
        → ensure_control_allowed m target ≡ r
        → ControlEnd m g (execute_control gw target request (m, g))
    unfolding execute_control
    guarded-ControlEnd (err e) h = rw h (refused h)
    guarded-ControlEnd (ok tt) h =
        let live = allowed-IsLive ((ensure_control_allowed-connected m target h).0) in
        rw (h, expected_state_lem request)
          (performed-ControlEnd m g live (perform gw request g) (perform-Asked request g))

    -- A control request on a consistent session ends in one of five ways. It is refused before the
    -- gateway is called; or the gateway is asked for what the request says, and: it answers with the state
    -- that the request names, which the session records and the caller is told of as success; it answers
    -- with another state, which the session records and the caller is told of as an error; it answers that
    -- the request is illegal, and the session is as before; or it gives any other error, and then the
    -- target is closed and the session is faulted, with everything forgotten that it knew of the target.
    -- The caller gets the gateway's own error.
    pub execute_control-ControlEnd : ControlEnd m g (execute_control gw target request (m, g))
    execute_control-ControlEnd = guarded-ControlEnd _ refl

  ControlEnd-IsConsistent :
      {m : TargetSessionManager} {g : G} {after : Session G × Result (Unit {0})}
      → IsConsistent m
      → ControlEnd m g after
      → IsConsistent (after.0.0)
  ControlEnd-IsConsistent good (refused h) = good
  ControlEnd-IsConsistent {m = m} good (done live asked) = inr (state_IsLive m (named request) live)
  ControlEnd-IsConsistent {m = m} good (unsettled {s = s} live asked other c) =
      inr (state_IsLive m s live)
  ControlEnd-IsConsistent good (rejected asked c) = good
  ControlEnd-IsConsistent good (lost asked c down reason) = inl (IsFaulted-IsIdle down)

  pub execute_control-IsConsistent :
      (m : TargetSessionManager) (g : G)
      → IsConsistent m
      → IsConsistent ((execute_control gw target request (m, g)).0.0)
  execute_control-IsConsistent m g good =
      ControlEnd-IsConsistent good (execute_control-ControlEnd m g good)
