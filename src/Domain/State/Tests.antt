-- ===== src/Domain/State/Tests.antt =====
-- The theorems on the connection lifecycle at concrete inputs.
use jlink_mcp_v.Base.{refl, List, [], ◌∷◌}
use jlink_mcp_v.Domain.State.{
  SessionEvent, connect_requested, connection_made, worker_lost, run_session,
}
use jlink_mcp_v.Domain.State.Lifecycle.{EndsWith, run_session-connected}

abbrev reconnect : List SessionEvent
reconnect =
    connect_requested ∷ connection_made ∷ worker_lost ∷ connect_requested ∷ connection_made ∷ []

run_session-connected_example : EndsWith reconnect (connect_requested ∷ connection_made ∷ [])
unfolding run_session
run_session-connected_example = run_session-connected reconnect refl
