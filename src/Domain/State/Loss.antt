-- ===== src/Domain/State/Loss.antt =====
-- Which operations may be tried again after the worker was lost.
use jlink_mcp_v.Base.{true, false, ◌≡◌, ◌⊎◌, inl, inr, refl, arith}
use jlink_mcp_v.Domain.Error.{JlinkError, ok, execution_uncertain}
use jlink_mcp_v.Domain.State.{
  ExecutionKind, read_only, side_effect, DispatchState, not_dispatched, dispatched, completed,
  classify_worker_loss, SessionCommand, flash, erase, write_memory, write_variable, write_register,
  control, hss_start, execution_kind,
}

-- Commands that write to the target, its Flash or its registers, or that change its run state.
abbrev pub TouchesTarget : SessionCommand → Type 0
TouchesTarget flash = Unit
TouchesTarget erase = Unit
TouchesTarget write_memory = Unit
TouchesTarget write_variable = Unit
TouchesTarget write_register = Unit
TouchesTarget control = Unit
TouchesTarget hss_start = Unit
TouchesTarget _ = ⊥

TouchesTarget-side_effect : (c : SessionCommand) → TouchesTarget c → execution_kind c ≡ side_effect
unfolding execution_kind
TouchesTarget-side_effect flash h = refl
TouchesTarget-side_effect erase h = refl
TouchesTarget-side_effect write_memory h = refl
TouchesTarget-side_effect write_variable h = refl
TouchesTarget-side_effect write_register h = refl
TouchesTarget-side_effect control h = refl
TouchesTarget-side_effect hss_start h = refl
TouchesTarget-side_effect _ h = absurd h

loss_of_dispatched :
    (k : ExecutionKind) (d : DispatchState) {e : JlinkError}
    → k ≡ side_effect
    → classify_worker_loss k d ≡ ok e
    → (d ≡ not_dispatched) × (e.retryable ≡ true)
      ⊎ (d ≡ dispatched) × (e.retryable ≡ false) × (e.code ≡ execution_uncertain)
unfolding classify_worker_loss
loss_of_dispatched read_only _ p h = cc
loss_of_dispatched side_effect not_dispatched p h = inl (refl, ground arith)
loss_of_dispatched side_effect dispatched p h = inr (refl, ground arith, ground arith)
loss_of_dispatched side_effect completed p h = cc

-- When a command that touches the target loses its worker, a retry is offered exactly if the worker
-- never received the command; if it did, the error is that the execution is uncertain.
pub classify_worker_loss-retryable :
    (c : SessionCommand) (d : DispatchState) (e : JlinkError)
    → TouchesTarget c
    → classify_worker_loss (execution_kind c) d ≡ ok e
    → (d ≡ not_dispatched) × (e.retryable ≡ true)
      ⊎ (d ≡ dispatched) × (e.retryable ≡ false) × (e.code ≡ execution_uncertain)
classify_worker_loss-retryable c d e t h =
    loss_of_dispatched (execution_kind c) d (TouchesTarget-side_effect c t) h
