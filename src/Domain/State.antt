-- ===== src/Domain/State.antt =====
-- crates/jlink-domain/src/state.rs and the command kinds of ipc.rs: the connection lifecycle, and
-- what losing the worker means for one operation.
pub mod Lifecycle
pub mod Loss
mod Tests
use jlink_mcp_v.Base.{Bool, true, false, List, [], ◌∷◌}
use Prim.Native.String.{String}
use jlink_mcp_v.Domain.Error.{
  ErrorCode, JlinkError, new, with_detail, text, Result, ok, err, ◌>>=◌, invalid_state_transition,
  execution_uncertain, worker_unavailable,
}

pub data ConnectionState : Type 0 where
  disconnected connecting connected faulted : ConnectionState

pub data TargetState : Type 0 where
  running halted hard_fault unknown : TargetState

pub data ExecutionKind : Type 0 where
  read_only side_effect : ExecutionKind

pub data DispatchState : Type 0 where
  not_dispatched dispatched completed : DispatchState

pub data SessionEvent : Type 0 where
  connect_requested connection_made connect_failed disconnect_requested : SessionEvent
  connection_released worker_lost : SessionEvent

-- The names that serde gives them.
abbrev connection_name : ConnectionState → String
connection_name disconnected = "disconnected"
connection_name connecting = "connecting"
connection_name connected = "connected"
connection_name faulted = "faulted"

abbrev event_name : SessionEvent → String
event_name connect_requested = "connect_requested"
event_name connection_made = "connected"
event_name connect_failed = "connect_failed"
event_name disconnect_requested = "disconnect_requested"
event_name connection_released = "disconnected"
event_name worker_lost = "worker_lost"

abbrev execution_name : ExecutionKind → String
execution_name read_only = "read_only"
execution_name side_effect = "side_effect"

abbrev dispatch_name : DispatchState → String
dispatch_name not_dispatched = "not_dispatched"
dispatch_name dispatched = "dispatched"
dispatch_name completed = "completed"

abbrev pub invalid_transition : ConnectionState → SessionEvent → JlinkError
invalid_transition current event =
    with_detail
      (with_detail (new invalid_state_transition false) "current_state"
        (text (connection_name current)))
      "event" (text (event_name event))

unfoldable pub transition_session : ConnectionState → SessionEvent → Result ConnectionState
transition_session disconnected connect_requested = ok connecting
transition_session faulted connect_requested = ok connecting
transition_session connecting connection_made = ok connected
transition_session connecting worker_lost = ok faulted
transition_session connected worker_lost = ok faulted
transition_session connecting connect_failed = ok disconnected
transition_session connected disconnect_requested = ok disconnected
transition_session faulted disconnect_requested = ok disconnected
transition_session current event = err (invalid_transition current event)

-- A session: the events are applied in turn, and the first illegal one ends it.
pub run_session : ConnectionState → List SessionEvent → Result ConnectionState
unfolding transition_session
run_session s [] = ok s
run_session s (e ∷ es) = do t ← transition_session s e; run_session t es

abbrev loss_error : ErrorCode → Bool → ExecutionKind → DispatchState → JlinkError
loss_error code retryable execution dispatch =
    with_detail (with_detail (new code retryable) "dispatch_state" (text (dispatch_name dispatch)))
      "execution_kind" (text (execution_name execution))

unfoldable pub classify_worker_loss : ExecutionKind → DispatchState → Result JlinkError
classify_worker_loss execution completed = err (invalid_transition faulted worker_lost)
classify_worker_loss side_effect dispatched =
    ok (loss_error execution_uncertain false side_effect dispatched)
classify_worker_loss read_only dispatched =
    ok (loss_error worker_unavailable true read_only dispatched)
classify_worker_loss execution not_dispatched =
    ok (loss_error worker_unavailable true execution not_dispatched)

pub data SessionCommand : Type 0 where
  connect disconnect shutdown status validate flash erase verify : SessionCommand
  read_memory write_memory read_variable write_variable : SessionCommand
  read_register write_register control hss_start hss_status : SessionCommand

unfoldable pub execution_kind : SessionCommand → ExecutionKind
execution_kind status = read_only
execution_kind verify = read_only
execution_kind read_memory = read_only
execution_kind read_variable = read_only
execution_kind read_register = read_only
execution_kind hss_status = read_only
execution_kind _ = side_effect
