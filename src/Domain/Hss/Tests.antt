-- ===== src/Domain/Hss/Tests.antt =====
-- The theorems on HSS frames and captures at concrete inputs.
use jlink_mcp_v.Base.{ℕ, ◌≡◌, refl, true, List, [], ◌∷◌, arith}
use jlink_mcp_v.Domain.Error.{ok, frame_invalid}
use jlink_mcp_v.Domain.Hss.Frame.{HssFrameLayout, HssFrameBatch, new_layout, parse}
use jlink_mcp_v.Domain.Hss.Frame.Lossless.{
  IsLayout, IsLossless, new_layout-IsLayout, parse-IsLossless,
}
use jlink_mcp_v.Domain.Hss.Capture.{
  HssCaptureState, Mark, complete, completed, start, to_running, to_stopping, to_completed,
  to_failed, run_marks,
}
use jlink_mcp_v.Domain.Hss.Capture.Lifecycle.{IsConsistent, run_marks-IsConsistent}

abbrev two_blocks : HssFrameLayout
two_blocks = record { sample_bytes = 3; record_bytes = 7 }

two_blocks_made : IsLayout two_blocks
unfolding new_layout
two_blocks_made = (new_layout-IsLayout (1 ∷ 2 ∷ []) two_blocks refl).0

abbrev stream : List ℕ
stream = 1 ∷ 2 ∷ 0 ∷ 0 ∷ 9 ∷ 9 ∷ 9 ∷ 5 ∷ []

parse-IsLossless_example :
    (batch : HssFrameBatch) × (parse two_blocks stream ≡ ok batch)
    × IsLossless two_blocks stream batch
parse-IsLossless_example = parse-IsLossless two_blocks stream two_blocks_made (omega arith)

one_frame :
    parse two_blocks stream
    ≡ ok (record {
      frames = record { timestamp_raw = 513; sample = 9 ∷ 9 ∷ 9 ∷ [] } ∷ [];
      incomplete_tail = 5 ∷ [];
    })
unfolding parse
one_frame = refl

abbrev history : List Mark
history = to_running ∷ to_stopping ∷ to_completed complete ∷ to_failed frame_invalid true [] ∷ []

run_marks-IsConsistent_example : IsConsistent (run_marks start history)
run_marks-IsConsistent_example = run_marks-IsConsistent history

abbrev ended : HssCaptureState
ended = record start { lifecycle = completed; integrity = complete }
