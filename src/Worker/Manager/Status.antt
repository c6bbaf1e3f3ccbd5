-- ===== src/Worker/Manager/Status.antt =====
-- session.rs: what TargetSessionManager tells of itself, with the parts of WorkerStatus (ipc.rs).
use jlink_mcp_v.Base.{ℕ, Bool, true, Option, List, is_some_and}
use jlink_mcp_v.Domain.State.{ConnectionState, TargetState}
use jlink_mcp_v.Domain.Session.{RecoveryNotification}
use jlink_mcp_v.Worker.Manager.{TargetSessionManager}

pub record WorkerStatus : Type 0 where
  pub worker_pid : ℕ
  pub parent_pid : ℕ
  pub probe_identity_hash : List ℕ
  pub dll_loaded : Bool
  pub dll_sha256 : List ℕ
  pub connection_state : ConnectionState
  pub target_state : TargetState
  pub target_id : Option ℕ
  pub hss_active : Bool
  pub validation_cached : Bool
  pub validation_runs : ℕ
  pub recovery_notifications : List RecoveryNotification

-- `worker_pid` is `std::process::id()`.
abbrev pub status : ℕ → TargetSessionManager → ℕ → List ℕ → Bool → WorkerStatus
status worker_pid m parent_pid probe_identity_hash dll_loaded = record {
  worker_pid = worker_pid;
  parent_pid = parent_pid;
  probe_identity_hash = probe_identity_hash;
  dll_loaded = dll_loaded;
  dll_sha256 = m.dll_sha256;
  connection_state = m.connection_state;
  target_state = m.target_state;
  target_id = m.target_id;
  hss_active = m.hss_active;
  validation_cached = is_some_and m.validation_key (λ key. true);
  validation_runs = m.validation_runs;
  recovery_notifications = m.recovery_notifications;
}
