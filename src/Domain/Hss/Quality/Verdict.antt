-- ===== src/Domain/Hss/Quality/Verdict.antt =====
-- hss.rs: HssQualityTracker::summary and integrity.
use jlink_mcp_v.Base.{
  ℕ, ◌-◌, ◌/◌, Bool, true, false, not, ◌&&◌, ◌||◌, Option, none, some, List, if◌then◌else◌, ltb,
  leb, ◌==◌, saturating_mul,
}
use jlink_mcp_v.Domain.Hss.Capture.{HssDataIntegrity, degraded}
use jlink_mcp_v.Domain.Hss.Capture
use jlink_mcp_v.Domain.Hss.Quality.{
  confirmed, is_confirmed, HssClockEvidence, unmatched_gaps, short_frame, HssQualityEvent,
  aggregate_quality_event, loss_assessment,
}
use jlink_mcp_v.Domain.Hss.Quality.Summary.{HssQualitySummary, reasons}
use jlink_mcp_v.Domain.Hss.Quality.Tracker.{HssQualityTracker}

unfoldable pub timestamp_span : HssClockEvidence → Option ℕ
timestamp_span clock = elim (clock.first_timestamp_us) [
  | none ↦ none
  | some first ↦ elim (clock.last_timestamp_us) [
    | none ↦ none
    | some last ↦ if leb first last then some (last - first) else none
  ]
]

unfoldable pub actual_rate : HssQualitySummary → Option ℕ → Option ℕ
actual_rate s none = none
actual_rate s (some span) =
    if s.intervals.regressions == 0 && (ltb 0 span && ltb 1 s.actual_samples)
    then some (saturating_mul (s.actual_samples - 1) 1000000000 / span)
    else none

abbrev pub with_tail : ℕ → HssQualityTracker → List HssQualityEvent
with_tail final_tail_bytes t =
    if ltb 0 final_tail_bytes
    then aggregate_quality_event short_frame confirmed t.last_host_elapsed_us
        t.summary.actual_samples t.summary.actual_samples t.summary.events
    else t.summary.events

unfoldable pub usable_for_period : HssQualitySummary → Bool → ℕ → Bool
usable_for_period s mismatch final_tail_bytes =
    not mismatch
    && (leb 2 s.actual_samples
        && (final_tail_bytes == 0
            && (s.intervals.regressions == 0
                && (unmatched_gaps s.intervals == 0 && not (is_confirmed s.overflow)))))

abbrev is_present : Option ℕ → Bool
is_present none = false
is_present (some n) = true

-- The assessed facts, before the reasons are listed.
unfoldable pub assessed : HssQualityTracker → ℕ → HssQualitySummary
unfolding timestamp_span actual_rate usable_for_period loss_assessment aggregate_quality_event
assessed t final_tail_bytes =
    let s = t.summary in
    let period = usable_for_period s t.source_host_clock_mismatch final_tail_bytes in
    record s {
      actual_rate_millihz = actual_rate s (timestamp_span s.clock);
      events = with_tail final_tail_bytes t;
      loss = loss_assessment s.overflow s.intervals (with_tail final_tail_bytes t) final_tail_bytes;
      usable_for_period_estimation = period;
      usable_for_runtime_estimation =
          period && (is_present s.clock.first_timestamp_us && is_present s.clock.last_timestamp_us);
      proves_no_sample_loss = false;
    }

unfoldable pub summarize : HssQualityTracker → ℕ → HssQualitySummary
unfolding assessed reasons
summarize t final_tail_bytes =
    let s = assessed t final_tail_bytes in
    record s { reason_codes = reasons s t.source_host_clock_mismatch final_tail_bytes }

unfoldable pub integrity : HssQualityTracker → ℕ → HssDataIntegrity
integrity t final_tail_bytes =
    if t.source_host_clock_mismatch
      || (ltb 0 final_tail_bytes
          || (is_confirmed t.summary.overflow
              || (ltb 0 t.summary.intervals.regressions
                  || ltb 0 (unmatched_gaps t.summary.intervals))))
    then degraded
    else Capture.unknown
