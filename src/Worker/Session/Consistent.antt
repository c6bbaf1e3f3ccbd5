-- ===== src/Worker/Session/Consistent.antt =====
-- The invariant of a session, after any sequence of requests.
use jlink_mcp_v.Base.{
  ℕ, Bool, true, false, some, List, ◌≡◌, inl, inr, refl, eq→≡, nat_equal, option_equal, list_equal,
}
use jlink_mcp_v.Domain.Error.{Result}
use jlink_mcp_v.Domain.Identity.{FirmwareIdentityPlan, FirmwareIdentityStrength, plan_equal}
use jlink_mcp_v.Domain.Session.{TargetConnectionSpec, spec_equal}
use jlink_mcp_v.Worker.Gateway.{Gateway}
use jlink_mcp_v.Worker.Manager.{
  TargetSessionManager, new_manager, is_connected, is_active, record_firmware_identity,
}
use jlink_mcp_v.Worker.Connect.{Session}
use jlink_mcp_v.Worker.Connect.Consistent.{IsConsistent, IsEvidence-same, connect-IsConsistent}
use jlink_mcp_v.Worker.Validate.Consistent.{validate-IsConsistent}
use jlink_mcp_v.Worker.Control.Outcome.{execute_control-IsConsistent, state_IsLive}
use jlink_mcp_v.Worker.Debug.Proved.{
  IdentityEnd, no_identity, without_block, already, proved, ensure_firmware_identity-IdentityEnd,
}
use jlink_mcp_v.Worker.Session.{
  Step, connects, validates, disconnects, controls, identifies, programs, observes, starts, stops,
  loses, accesses, Reachable, begins, goes_on,
}
use jlink_mcp_v.Worker.Session.Kept.{
  own-IsConsistent, connected-IsLive, flash-IsConsistent, resting, uncertain-IsConsistent,
}
use jlink_mcp_v.Worker.Session.Disconnected.{disconnect-IsConsistent}

module _ {G : Type 0} (gw : Gateway G) (digest : List ℕ → List ℕ) where
  IdentityEnd-IsConsistent :
      (target : TargetConnectionSpec) (firmware : FirmwareIdentityPlan) (m : TargetSessionManager)
      (b : Bool) {r : Session G × Result FirmwareIdentityStrength}
      → is_connected m.connection_state ≡ true
      → is_active m target ≡ true
      → IsConsistent m
      → IdentityEnd gw digest target firmware m b r
      → IsConsistent (r.0.0)
  unfolding record_firmware_identity
  IdentityEnd-IsConsistent target firmware m b up active good no_identity = good
  IdentityEnd-IsConsistent target firmware m b up active good (without_block absent) = good
  IdentityEnd-IsConsistent target firmware m b up active good (already hit) = good
  IdentityEnd-IsConsistent target firmware m b up active (inl idle) (proved quiet block read hit) =
      elim (resting idle) [ inl r ↦ absurd (cc (rw r at up)) | inr r ↦ absurd (cc (rw r at up)) ]
  IdentityEnd-IsConsistent target firmware m b up active (inr live) (proved quiet block read hit) =
      inr record {
        phase = live.phase;
        spec = live.spec;
        target = live.target;
        valid = live.valid;
        key = IsEvidence-same live.key refl refl refl;
        identity = (refl, same, refl);
      }
    where
      same : target ≡ live.spec
      same = cc (live.target, eq→≡ m.active_target (some target) active)

  Step-IsConsistent :
      {s t : Session G} → Step gw digest s t → IsConsistent (s.0) → IsConsistent (t.0)
  Step-IsConsistent {s = (m, g)} (connects identity spec) good =
      connect-IsConsistent gw identity spec m g good
  Step-IsConsistent {s = (m, g)} (validates identity spec after) good =
      validate-IsConsistent gw identity spec after m g good
  Step-IsConsistent {s = (m, g)} disconnects good = disconnect-IsConsistent gw m g good
  Step-IsConsistent {s = (m, g)} (controls target request) good =
      execute_control-IsConsistent gw target request m g good
  Step-IsConsistent (identifies {m} {g} target firmware b up active) good =
      IdentityEnd-IsConsistent target firmware m b up active good
        (ensure_firmware_identity-IdentityEnd gw digest target firmware m b g)
  Step-IsConsistent (programs {m} g') good = flash-IsConsistent m good
  Step-IsConsistent (observes {m} state g' up) good =
      inr (state_IsLive m state (connected-IsLive m up good))
  Step-IsConsistent (starts {m} spec g' allowed) good = own-IsConsistent true m good
  Step-IsConsistent (stops {m} g') good = own-IsConsistent false m good
  Step-IsConsistent (loses {m} reason g') good = uncertain-IsConsistent reason m good
  Step-IsConsistent (accesses {m} g') good = good

  pub Reachable-IsConsistent :
      (dll_sha256 : List ℕ) {s : Session G} → Reachable gw digest dll_sha256 s → IsConsistent (s.0)
  unfolding new_manager
  Reachable-IsConsistent dll begins = inl record {
    at_rest = inl refl;
    void = record {
      no_target = refl;
      no_evidence = record { no_key = refl; no_checks = refl; no_access = refl };
      no_identity = refl;
    };
  }
  Reachable-IsConsistent dll (goes_on before step) =
      Step-IsConsistent step (Reachable-IsConsistent dll before)
