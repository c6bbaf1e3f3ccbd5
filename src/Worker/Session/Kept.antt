-- ===== src/Worker/Session/Kept.antt =====
-- What the records of a session manager keep of its invariant.
use jlink_mcp_v.Base.{
  ◌∙◌, Bool, true, ◌≡◌, ◌⊎◌, inl, inr, refl, nat_equal, option_equal, list_equal,
}
use jlink_mcp_v.Domain.Error.{err}
use jlink_mcp_v.Domain.State.{
  ConnectionState, disconnected, faulted, transition_session, worker_lost, invalid_transition,
}
use jlink_mcp_v.Domain.Identity.{plan_equal}
use jlink_mcp_v.Domain.Session.{spec_equal, ValidationInvalidation}
use jlink_mcp_v.Worker.Manager.{
  TargetSessionManager, is_connected, record_flash_modified, record_execution_uncertain,
}
use jlink_mcp_v.Worker.Connect.Consistent.{
  IsConsistent, IsIdle, IsFaulted, IsFaulted-IsIdle, IsVoid, IsVoid-same, IsLive, IsEvidence-same,
}
use jlink_mcp_v.Worker.Control.Outcome.{record_execution_uncertain-IsFaulted}

IsFaulted-same :
    {m n : TargetSessionManager}
    → IsFaulted m
    → IsVoid n
    → n.connection_state ≡ m.connection_state
    → n.target_state ≡ m.target_state
    → n.target_id ≡ m.target_id
    → n.recovery_notifications ≡ m.recovery_notifications
    → IsFaulted n
IsFaulted-same down void s t i r = record {
  phase = s ∙ down.phase;
  forgotten = record {
    void = void;
    no_state = t ∙ down.forgotten.no_state;
    no_id = i ∙ down.forgotten.no_id;
    no_recovery = r ∙ down.forgotten.no_recovery;
  };
}

-- The invariant does not mention the capture.
abbrev pub own : Bool → TargetSessionManager → TargetSessionManager
own active m = record m { hss_active = active }

pub own-IsConsistent :
    (active : Bool) (m : TargetSessionManager) → IsConsistent m → IsConsistent (own active m)
own-IsConsistent active m (inl idle) =
    let void : IsVoid (own active m) = IsVoid-same idle.void refl refl refl refl refl in
    inl record {
      at_rest = elim idle.at_rest [
        | inl rest ↦ inl rest
        | inr down ↦ inr (IsFaulted-same down void refl refl refl refl)
      ];
      void = void;
    }
own-IsConsistent active m (inr live) = inr record {
  phase = live.phase;
  spec = live.spec;
  target = live.target;
  valid = live.valid;
  key = IsEvidence-same live.key refl refl refl;
  identity = live.identity;
}

-- A session that is not at rest is live.
pub connected-IsLive :
    (m : TargetSessionManager) → is_connected m.connection_state ≡ true → IsConsistent m → IsLive m
connected-IsLive m up (inr live) = live
connected-IsLive m up (inl idle) = elim idle.at_rest [
  | inl rest ↦ absurd (cc (rw rest at up))
  | inr down ↦ absurd (cc (rw (down.phase) at up))
]

pub flash-IsConsistent :
    (m : TargetSessionManager) → IsConsistent m → IsConsistent (record_flash_modified m)
unfolding record_flash_modified
flash-IsConsistent m (inl idle) =
    let void : IsVoid (record_flash_modified m) = record {
      no_target = idle.void.no_target;
      no_evidence = record {
        no_key = idle.void.no_evidence.no_key;
        no_checks = idle.void.no_evidence.no_checks;
        no_access = refl;
      };
      no_identity = refl;
    } in
    inl record {
      at_rest = elim idle.at_rest [
        | inl rest ↦ inl rest
        | inr down ↦ inr (IsFaulted-same down void refl refl refl refl)
      ];
      void = void;
    }
flash-IsConsistent m (inr live) = inr record {
  phase = live.phase;
  spec = live.spec;
  target = live.target;
  valid = live.valid;
  key = elim live.key [
    | inl without ↦
        inl record { no_key = without.no_key; no_checks = without.no_checks; no_access = refl }
    | inr key ↦ inr key
  ];
  identity = tt;
}

pub resting :
    {m : TargetSessionManager}
    → IsIdle m
    → (m.connection_state ≡ disconnected) ⊎ (m.connection_state ≡ faulted)
resting idle = elim idle.at_rest [ inl rest ↦ inl rest | inr down ↦ inr (down.phase) ]

-- A session at rest has no worker to lose.
rest-refused :
    (s : ConnectionState)
    → (s ≡ disconnected) ⊎ (s ≡ faulted)
    → transition_session s worker_lost ≡ err (invalid_transition s worker_lost)
unfolding transition_session
rest-refused s (inl rest) = rw rest refl
rest-refused s (inr rest) = rw rest refl

pub uncertain-IsConsistent :
    (reason : ValidationInvalidation) (m : TargetSessionManager)
    → IsConsistent m
    → IsConsistent ((record_execution_uncertain reason m).0)
unfolding record_execution_uncertain
uncertain-IsConsistent reason m (inr live) =
    inl (IsFaulted-IsIdle ((record_execution_uncertain-IsFaulted reason m live.phase).0))
uncertain-IsConsistent reason m (inl idle) =
    rw (rest-refused m.connection_state (resting idle), record_execution_uncertain) (inl idle)
