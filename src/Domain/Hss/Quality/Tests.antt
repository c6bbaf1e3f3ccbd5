-- ===== src/Domain/Hss/Quality/Tests.antt =====
-- hss.rs: a capture of three records, one of them late, at 1000 Hz.
use jlink_mcp_v.Base.{ℕ, ◌≡◌, refl, none, List, [], ◌∷◌, arith}
use jlink_mcp_v.Domain.Hss.Capture.{degraded}
use jlink_mcp_v.Domain.Hss.Frame.{HssFrameLayout, parse}
use jlink_mcp_v.Domain.Hss.Quality.Tracker.{HssQualityTracker, slot_of}
use jlink_mcp_v.Domain.Hss.Quality.Verdict.{integrity}
use jlink_mcp_v.Domain.Hss.Quality.Frames.{IsAccounted}
use jlink_mcp_v.Domain.Hss.Quality.Accounts.{
  Observation, read_shape, complete_records, observe_all-IsAccounted,
}
use jlink_mcp_v.Domain.Hss.Quality.Conclusions.{reached, integrity-eq, Agrees, summarize-Agrees}

abbrev one_byte : HssFrameLayout
one_byte = record { sample_bytes = 1; record_bytes = 5 }

-- Milliseconds 10, 11 and 13.
abbrev records : List ℕ
records = 10 ∷ 0 ∷ 0 ∷ 0 ∷ 7 ∷ 11 ∷ 0 ∷ 0 ∷ 0 ∷ 7 ∷ 13 ∷ 0 ∷ 0 ∷ 0 ∷ 8 ∷ []

abbrev late : List Observation
late = read_shape 15 5 14000 0 ∷ complete_records one_byte records 14000 ∷ []

abbrev late_tracker : HssQualityTracker
late_tracker = reached 1 1000 500 none late

late_IsAccounted_example : IsAccounted late_tracker
late_IsAccounted_example = observe_all-IsAccounted 1 1000 500 none late

late_integrity_example : integrity late_tracker 0 ≡ degraded
unfolding parse slot_of
late_integrity_example =
    integrity-eq 1 1000 500 none late 10000 14000 ((11000, 14000) ∷ (13000, 14000) ∷ []) 0 refl
      (omega arith)

late_summary_example : Agrees late_tracker 0
late_summary_example = summarize-Agrees 1 1000 500 none late 0
