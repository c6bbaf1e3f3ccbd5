-- ===== src/Domain/Hss/Capture.antt =====
-- hss.rs: HssCaptureState, the lifecycle of one capture.
pub mod Lifecycle
use jlink_mcp_v.Base.{
  ℕ, Bool, true, false, ◌||◌, Option, none, some, List, [], ◌∷◌, ◌++◌, if◌then◌else◌,
}
use jlink_mcp_v.Base.Text.{is_blank}
use jlink_mcp_v.Domain.Error.{
  ErrorCode, JlinkError, new, Result, ok, err, ◌>>=◌, ◌>>◌, ensure, invalid_state_transition,
  value_invalid,
}

pub data HssRunState : Type 0 where
  starting running stopping completed failed aborted : HssRunState

pub data HssDataIntegrity : Type 0 where
  complete degraded unknown : HssDataIntegrity

pub data HssRecoveryNotification : Type 0 where
  stop_completed_after_failure : HssRecoveryNotification
  partial_data_retained : ℕ → ℕ → HssRecoveryNotification
  aborted_capture_recovered : HssRecoveryNotification

pub record HssCaptureState : Type 0 where
  pub lifecycle : HssRunState
  pub integrity : HssDataIntegrity
  pub failure_code : Option ErrorCode
  pub partial_available : Bool
  pub reason : Option (List ℕ)
  pub recoverable : Option Bool
  pub recovery_notifications : List HssRecoveryNotification

abbrev pub start : HssCaptureState
start = record {
  lifecycle = starting;
  integrity = unknown;
  failure_code = none;
  partial_available = false;
  reason = none;
  recoverable = none;
  recovery_notifications = [];
}

abbrev invalid_hss_transition : JlinkError
invalid_hss_transition = new invalid_state_transition false

abbrev state_eq : HssRunState → HssRunState → Bool
state_eq starting starting = true
state_eq running running = true
state_eq stopping stopping = true
state_eq completed completed = true
state_eq failed failed = true
state_eq aborted aborted = true
state_eq _ _ = false

require : HssCaptureState → HssRunState → Result (Unit {0})
require s expected = ensure (state_eq s.lifecycle expected) invalid_hss_transition

abbrev pub is_terminal : HssRunState → Bool
is_terminal completed = true
is_terminal failed = true
is_terminal aborted = true
is_terminal _ = false

pub mark_running : HssCaptureState → Result HssCaptureState
unfolding require
mark_running s = do require s starting; ok (record s { lifecycle = running })

pub mark_stopping : HssCaptureState → Result HssCaptureState
unfolding require
mark_stopping s = do require s running; ok (record s { lifecycle = stopping })

pub mark_completed : HssDataIntegrity → HssCaptureState → Result HssCaptureState
unfolding require
mark_completed integrity s = do
  require s stopping
  ok (record s { lifecycle = completed; integrity = integrity })

pub mark_failed :
    ErrorCode → Bool → List HssRecoveryNotification → HssCaptureState → Result HssCaptureState
mark_failed code partial_available notifications s =
    if is_terminal s.lifecycle
    then err invalid_hss_transition
    else ok (record s {
      lifecycle = failed;
      integrity = unknown;
      failure_code = some code;
      partial_available = partial_available;
      recovery_notifications = notifications;
    })

pub mark_aborted :
    List ℕ → Bool → Bool → List HssRecoveryNotification → HssCaptureState → Result HssCaptureState
mark_aborted reason recoverable partial_available notifications s =
    if is_terminal s.lifecycle
    then err invalid_hss_transition
    else if is_blank reason
    then err (new value_invalid false)
    else ok (record s {
      lifecycle = aborted;
      integrity = unknown;
      partial_available = partial_available;
      reason = some reason;
      recoverable = some recoverable;
      recovery_notifications = notifications ++ aborted_capture_recovered ∷ [];
    })

-- The calls that acquisition and recovery make.
pub data Mark : Type 0 where
  to_running to_stopping : Mark
  to_completed : HssDataIntegrity → Mark
  to_failed : ErrorCode → Bool → List HssRecoveryNotification → Mark
  to_aborted : List ℕ → Bool → Bool → List HssRecoveryNotification → Mark

pub mark : Mark → HssCaptureState → Result HssCaptureState
unfolding mark_running mark_stopping mark_completed mark_failed mark_aborted
mark to_running = mark_running
mark to_stopping = mark_stopping
mark (to_completed i) = mark_completed i
mark (to_failed c p n) = mark_failed c p n
mark (to_aborted t r p n) = mark_aborted t r p n

-- A refused call leaves the state as it was.
abbrev pub after : HssCaptureState → Result HssCaptureState → HssCaptureState
after s (ok t) = t
after s (err e) = s

pub run_marks : HssCaptureState → List Mark → HssCaptureState
unfolding mark
run_marks s [] = s
run_marks s (m ∷ ms) = run_marks (after s (mark m s)) ms
