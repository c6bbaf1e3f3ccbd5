-- ===== src/Domain/State/Lifecycle.antt =====
-- How a session gets connected.
use jlink_mcp_v.Base.{◌≡◌, refl, ap, ◌⊎◌, inl, inr, List, [], ◌∷◌, ◌++◌}
use jlink_mcp_v.Domain.Error.{ok}
use jlink_mcp_v.Domain.State.{
  ConnectionState, disconnected, connecting, connected, faulted, SessionEvent, connect_requested,
  connection_made, connect_failed, disconnect_requested, worker_lost, transition_session,
  run_session,
}

-- The events `es` end with `t`.
abbrev pub EndsWith : List SessionEvent → List SessionEvent → Type 0
EndsWith es t = (front : List SessionEvent) × (es ≡ front ++ t)

-- What the events must have been, given the state before them and the state that they lead to.
abbrev Trace : ConnectionState → ConnectionState → List SessionEvent → Type 0
Trace connecting connected es =
    (es ≡ connection_made ∷ []) ⊎ EndsWith es (connect_requested ∷ connection_made ∷ [])
Trace connected connected es = (es ≡ []) ⊎ EndsWith es (connect_requested ∷ connection_made ∷ [])
Trace _ connected es = EndsWith es (connect_requested ∷ connection_made ∷ [])
Trace _ _ es = Unit

EndsWith-cons : (e : SessionEvent) (es t : List SessionEvent) → EndsWith es t → EndsWith (e ∷ es) t
EndsWith-cons e es t (front, p) = (e ∷ front, ap (◌∷◌ e) p)

run_session-Trace :
    (s : ConnectionState) (es : List SessionEvent)
    → run_session s es ≡ ok connected
    → Trace s connected es
unfolding run_session transition_session
run_session-Trace disconnected [] h = cc
run_session-Trace connecting [] h = cc
run_session-Trace connected [] h = inl refl
run_session-Trace faulted [] h = cc
run_session-Trace disconnected (connect_requested ∷ es) h =
    elim (run_session-Trace connecting es h) [
      | inl e ↦ ([], ap (◌∷◌ connect_requested) e)
      | inr e ↦ EndsWith-cons connect_requested es _ e
    ]
run_session-Trace faulted (connect_requested ∷ es) h = elim (run_session-Trace connecting es h) [
  | inl e ↦ ([], ap (◌∷◌ connect_requested) e)
  | inr e ↦ EndsWith-cons connect_requested es _ e
]
run_session-Trace connecting (connection_made ∷ es) h = elim (run_session-Trace connected es h) [
  | inl e ↦ inl (ap (◌∷◌ connection_made) e)
  | inr e ↦ inr (EndsWith-cons connection_made es _ e)
]
run_session-Trace connecting (worker_lost ∷ es) h =
    inr (EndsWith-cons worker_lost es _ (run_session-Trace faulted es h))
run_session-Trace connected (worker_lost ∷ es) h =
    inr (EndsWith-cons worker_lost es _ (run_session-Trace faulted es h))
run_session-Trace connecting (connect_failed ∷ es) h =
    inr (EndsWith-cons connect_failed es _ (run_session-Trace disconnected es h))
run_session-Trace connected (disconnect_requested ∷ es) h =
    inr (EndsWith-cons disconnect_requested es _ (run_session-Trace disconnected es h))
run_session-Trace faulted (disconnect_requested ∷ es) h =
    EndsWith-cons disconnect_requested es _ (run_session-Trace disconnected es h)
run_session-Trace _ (_ ∷ es) h = cc

-- A session that starts disconnected and is connected now ended with a request to connect and its
-- success: no other event leads to, or stays in, the connected state.
pub run_session-connected :
    (es : List SessionEvent)
    → run_session disconnected es ≡ ok connected
    → EndsWith es (connect_requested ∷ connection_made ∷ [])
run_session-connected es h = run_session-Trace disconnected es h
