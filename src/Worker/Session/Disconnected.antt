-- ===== src/Worker/Session/Disconnected.antt =====
-- How a disconnect can end.
use jlink_mcp_v.Base.{
  ◌≢◌, Bool, true, false, some, ◌≡◌, inl, inr, refl, nat_equal, option_equal, list_equal,
  Bool-cases, if◌then◌else◌,
}
use jlink_mcp_v.Domain.Error.{JlinkError, Result, ok, err, new, operation_conflict}
use jlink_mcp_v.Domain.State.{
  ConnectionState, connected, disconnected, faulted, connecting, transition_session,
  disconnect_requested,
}
use jlink_mcp_v.Domain.Identity.{plan_equal}
use jlink_mcp_v.Domain.Session.{spec_equal, connection_lost, ensure_disconnect_allowed}
use jlink_mcp_v.Worker.Gateway.{Gateway}
use jlink_mcp_v.Worker.Manager.{TargetSessionManager, invalidate_validation}
use jlink_mcp_v.Worker.Connect.{Session, disconnect, may_request_disconnect}
use jlink_mcp_v.Worker.Connect.Consistent.{IsConsistent, IsForgotten}
use jlink_mcp_v.Worker.Session.Kept.{resting}

module _ {G : Type 0} (gw : Gateway G) where
  -- From the session before to the session after and the answer.
  pub data DisconnectEnd (m : TargetSessionManager) (g : G)
      : Session G × Result (Unit {0}) → Type 0 where
    owned :
        {e : JlinkError}
        → m.hss_active ≡ true
        → e.code ≡ operation_conflict
        → DisconnectEnd m g ((m, g), err e)
    released :
        {m' : TargetSessionManager}
        → m.hss_active ≡ false
        → IsForgotten m'
        → m'.connection_state ≡ disconnected
        → m'.hss_active ≡ false
        → m'.last_invalidation ≡ some connection_lost
        → m'.connection_generation ≡ m.connection_generation
        → DisconnectEnd m g ((m', gw.close_target g), ok tt)

  disconnect-owned :
      (h : Bool) → h ≡ true → ensure_disconnect_allowed h ≡ err (new operation_conflict true)
  unfolding ensure_disconnect_allowed
  disconnect-owned h active = rw active refl

  disconnect-allowed : (h : Bool) → h ≡ false → ensure_disconnect_allowed h ≡ ok tt
  unfolding ensure_disconnect_allowed
  disconnect-allowed h quiet = rw quiet refl

  consistent-state : (m : TargetSessionManager) → IsConsistent m → m.connection_state ≢ connecting
  consistent-state m (inl idle) h = elim (resting idle) [ inl r ↦ cc | inr r ↦ cc ]
  consistent-state m (inr live) h = cc (live.phase, h)

  requested :
      (s : ConnectionState)
      → s ≢ connecting
      → (if may_request_disconnect gw s then transition_session s disconnect_requested else ok s)
        ≡ ok disconnected
  unfolding transition_session
  requested disconnected h = refl
  requested connecting h = absurd (h refl)
  requested connected h = refl
  requested faulted h = refl

  -- A disconnect of a consistent session is refused during a capture, with the session and the gateway
  -- as before. Otherwise it closes the target, ends disconnected, and has forgotten everything of the
  -- target: its identity and its state, what was validated and proved of it and how it was recovered.
  pub disconnect-DisconnectEnd :
      (m : TargetSessionManager) (g : G) → IsConsistent m → DisconnectEnd m g (disconnect gw (m, g))
  unfolding disconnect invalidate_validation
  disconnect-DisconnectEnd m g good = elim (Bool-cases m.hss_active) [
    | inl active ↦ rw (disconnect-owned m.hss_active active) (owned active refl)
    | inr quiet ↦
        rw
          (
            disconnect-allowed m.hss_active quiet,
            requested m.connection_state (consistent-state m good),
          )
          (released quiet
            record {
              void = record {
                no_target = refl;
                no_evidence = record { no_key = refl; no_checks = refl; no_access = refl };
                no_identity = refl;
              };
              no_state = refl;
              no_id = refl;
              no_recovery = refl;
            }
            refl quiet refl refl)
  ]

  pub disconnect-IsConsistent :
      (m : TargetSessionManager) (g : G)
      → IsConsistent m
      → IsConsistent ((disconnect gw (m, g)).0.0)
  disconnect-IsConsistent m g good = ended (disconnect-DisconnectEnd m g good)
    where
      ended : {r : Session G × Result (Unit {0})} → DisconnectEnd m g r → IsConsistent (r.0.0)
      ended (owned active conflict) = good
      ended (released quiet forgotten d h i g) =
          inl record { at_rest = inl d; void = forgotten.void }
