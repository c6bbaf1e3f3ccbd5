-- ===== src/Domain/Hss/Capture/Lifecycle.antt =====
-- What every history of a capture keeps.
use jlink_mcp_v.Base.{
  ℕ, ◌≡◌, ◌≢◌, refl, ap, ◌∙◌, inl, inr, Bool, true, false, none, List, [], ◌∷◌, arith, Any, here,
  Any-right, Bool-cases,
}
use jlink_mcp_v.Base.Text.{is_blank}
use jlink_mcp_v.Domain.Error.{ErrorCode}
use jlink_mcp_v.Domain.Hss.Capture.{
  HssRunState, completed, failed, aborted, HssDataIntegrity, unknown, HssRecoveryNotification,
  aborted_capture_recovered, HssCaptureState, start, is_terminal, require, mark_running,
  mark_stopping, mark_completed, mark_failed, mark_aborted, Mark, to_running, to_stopping,
  to_completed, to_failed, to_aborted, mark, after, run_marks,
}

-- What each lifecycle state says of the other fields.
abbrev pub Shape : HssRunState → HssCaptureState → Type 0
Shape completed s = (s.failure_code ≡ none) × (s.reason ≡ none) × (s.partial_available ≡ false)
Shape failed s = (s.failure_code ≢ none) × (s.reason ≡ none) × (s.integrity ≡ unknown)
Shape aborted s =
    (s.failure_code ≡ none)
    × (s.reason ≢ none)
    × (s.recoverable ≢ none)
    × (s.integrity ≡ unknown)
    × Any (λ n. n ≡ aborted_capture_recovered) s.recovery_notifications
Shape _ s =
    (s.failure_code ≡ none)
    × (s.reason ≡ none)
    × (s.integrity ≡ unknown)
    × (s.partial_available ≡ false)

abbrev pub IsConsistent : HssCaptureState → Type 0
IsConsistent s = Shape s.lifecycle s

mark_running-IsConsistent :
    (s : HssCaptureState) → IsConsistent s → IsConsistent (after s (mark_running s))
unfolding mark_running require
mark_running-IsConsistent s c = ground arith

mark_stopping-IsConsistent :
    (s : HssCaptureState) → IsConsistent s → IsConsistent (after s (mark_stopping s))
unfolding mark_stopping require
mark_stopping-IsConsistent s c = ground arith

mark_completed-IsConsistent :
    (i : HssDataIntegrity) (s : HssCaptureState)
    → IsConsistent s
    → IsConsistent (after s (mark_completed i s))
unfolding mark_completed require
mark_completed-IsConsistent i s c = ground arith

open_reason :
    (s : HssCaptureState) → is_terminal s.lifecycle ≡ false → IsConsistent s → s.reason ≡ none
open_reason s h c = ground arith

open_code :
    (s : HssCaptureState) → is_terminal s.lifecycle ≡ false → IsConsistent s → s.failure_code ≡ none
open_code s h c = ground arith

mark_failed-IsConsistent :
    (code : ErrorCode) (p : Bool) (ns : List HssRecoveryNotification) (s : HssCaptureState)
    → IsConsistent s
    → IsConsistent (after s (mark_failed code p ns s))
unfolding mark_failed
mark_failed-IsConsistent code p ns s c = elim (Bool-cases (is_terminal s.lifecycle)) [
  | inl ended ↦ rw ended c
  | inr open_ended ↦ rw open_ended (λ e. cc e, open_reason s open_ended c, refl)
]

mark_aborted-IsConsistent :
    (text : List ℕ) (r p : Bool) (ns : List HssRecoveryNotification) (s : HssCaptureState)
    → IsConsistent s
    → IsConsistent (after s (mark_aborted text r p ns s))
unfolding mark_aborted
mark_aborted-IsConsistent text r p ns s c = elim (Bool-cases (is_terminal s.lifecycle)) [
  | inl ended ↦ rw ended c
  | inr open_ended ↦ elim (Bool-cases (is_blank text)) [
    | inl blank ↦ rw (open_ended, blank) c
    | inr said ↦
        rw (open_ended, said)
          (
            open_code s open_ended c,
            λ e. cc e,
            λ e. cc e,
            refl,
            Any-right (λ n. n ≡ aborted_capture_recovered) ns (aborted_capture_recovered ∷ [])
                (here refl),
          )
  ]
]

mark-IsConsistent :
    (m : Mark) (s : HssCaptureState) → IsConsistent s → IsConsistent (after s (mark m s))
unfolding mark
mark-IsConsistent to_running s c = mark_running-IsConsistent s c
mark-IsConsistent to_stopping s c = mark_stopping-IsConsistent s c
mark-IsConsistent (to_completed i) s c = mark_completed-IsConsistent i s c
mark-IsConsistent (to_failed code p ns) s c = mark_failed-IsConsistent code p ns s c
mark-IsConsistent (to_aborted t r p ns) s c = mark_aborted-IsConsistent t r p ns s c

run_marks-keeps :
    (s : HssCaptureState) (ms : List Mark) → IsConsistent s → IsConsistent (run_marks s ms)
unfolding run_marks
run_marks-keeps s [] c = c
run_marks-keeps s (m ∷ ms) c = run_marks-keeps (after s (mark m s)) ms (mark-IsConsistent m s c)

-- After any calls a capture that has not ended claims no integrity, failure, reason or partial data;
-- a completed one has no failure and no reason; a failed one has a code and no integrity; and an
-- aborted one has a reason, says whether it can be recovered, and carries its notice.
pub run_marks-IsConsistent : (ms : List Mark) → IsConsistent (run_marks start ms)
run_marks-IsConsistent ms = run_marks-keeps start ms (refl, refl, refl, refl)

mark-terminal :
    (m : Mark) (s : HssCaptureState) → is_terminal s.lifecycle ≡ true → after s (mark m s) ≡ s
unfolding mark mark_running mark_stopping mark_completed mark_failed mark_aborted require
mark-terminal to_running s h = ground arith
mark-terminal to_stopping s h = ground arith
mark-terminal (to_completed i) s h = ground arith
mark-terminal (to_failed code p ns) s h = rw h
mark-terminal (to_aborted t r p ns) s h = rw h

-- An ended capture never changes again.
pub run_marks-terminal :
    (ms : List Mark) (s : HssCaptureState) → is_terminal s.lifecycle ≡ true → run_marks s ms ≡ s
unfolding run_marks
run_marks-terminal [] s h = refl
run_marks-terminal (m ∷ ms) s h =
    ap (λ t. run_marks t ms) (mark-terminal m s h) ∙ run_marks-terminal ms s h
