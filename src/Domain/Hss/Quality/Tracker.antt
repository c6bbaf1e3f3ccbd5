-- ===== src/Domain/Hss/Quality/Tracker.antt =====
-- hss.rs: HssQualityTracker, which classifies what a capture observes.
use jlink_mcp_v.Base.{
  ℕ, ◌-◌, ◌*◌, ◌/◌, ◌%◌, Bool, false, not, ◌||◌, Option, none, some, List, [], ◌∷◌, if◌then◌else◌,
  ltb, ◌==◌, length, is_some_and, saturating_add, saturating_mul, u64_mod,
}
use Prim.Native.Nat.{max, min}
use jlink_mcp_v.Domain.Error.{Result, ok, err}
use jlink_mcp_v.Domain.Hss.Frame.{HssFrameLayout, HssFrameBatch, HssRawFrame, parse, frame_error}
use jlink_mcp_v.Domain.Hss.Quality.{
  source_timestamp_resolution_us, HssQualityEvidence, confirmed, suspected, unknown,
  dll_overflow_signal, HssIntervalStatistics, HssQualityEventKind, buffer_overflow, short_frame,
  frame_format, sample_interval, clock_regression, aggregate_quality_event,
}
use jlink_mcp_v.Domain.Hss.Quality.Rate.{HssRateAssessment}
use jlink_mcp_v.Domain.Hss.Quality.Summary.{HssQualitySummary, default}

pub record HssQualityTracker : Type 0 where
  pub summary : HssQualitySummary
  pub previous_timestamp_us : Option ℕ
  pub previous_slot : Option ℕ
  pub last_host_elapsed_us : ℕ
  pub source_host_clock_mismatch : Bool

-- HssQualityTracker::new_with_rate_assessment, of the duration and the rate of the plan.
unfoldable pub new : ℕ → ℕ → ℕ → Option HssRateAssessment → HssQualityTracker
new duration_s rate_hz start_call_elapsed_us assessment = record {
  summary = record default {
    requested_rate_hz = rate_hz;
    expected_samples = duration_s * rate_hz % u64_mod;
    rate_assessment = assessment;
    clock = record default.clock {
      mapping_error_us = some (saturating_add start_call_elapsed_us source_timestamp_resolution_us);
    };
  };
  previous_timestamp_us = none;
  previous_slot = none;
  last_host_elapsed_us = 0;
  source_host_clock_mismatch = false;
}

unfoldable pub record_event :
    HssQualityEventKind → HssQualityEvidence → ℕ → ℕ → ℕ → HssQualityTracker → HssQualityTracker
record_event kind evidence host first last t = record t {
  summary = record t.summary {
    events = aggregate_quality_event kind evidence host first last t.summary.events;
  };
}

unfoldable pub at_host : ℕ → HssQualityTracker → HssQualityTracker
at_host host t = record t { last_host_elapsed_us = max t.last_host_elapsed_us host }

unfoldable pub observe_read_shape : ℕ → ℕ → ℕ → ℕ → HssQualityTracker → HssQualityTracker
unfolding record_event at_host
observe_read_shape read_bytes record_bytes host first_record t =
    if read_bytes == 0
    then at_host host t
    else if ltb read_bytes record_bytes
    then record_event short_frame suspected host first_record first_record (at_host host t)
    else if not (read_bytes % record_bytes == 0)
    then record_event frame_format suspected host first_record
        (saturating_add first_record (read_bytes / record_bytes)) (at_host host t)
    else at_host host t

-- A u32 of milliseconds, times 1000.
unfoldable pub normalize_hss_timestamp_us : ℕ → ℕ
normalize_hss_timestamp_us timestamp_ms = timestamp_ms * source_timestamp_resolution_us % u64_mod

-- The slot of the requested rate that a timestamp is nearest to.
unfoldable pub slot_of : ℕ → ℕ → ℕ
slot_of rate_hz timestamp_us = saturating_add (saturating_mul timestamp_us rate_hz) 500000 / 1000000

abbrev pub is_ahead : Option ℕ → ℕ → ℕ → Bool
is_ahead bound timestamp_us host = is_some_and bound λ b. ltb (saturating_add host b) timestamp_us

abbrev pub get_or_insert : Option ℕ → ℕ → Option ℕ
get_or_insert none n = some n
get_or_insert (some m) n = some m

unfoldable pub note_clock : ℕ → ℕ → HssQualityTracker → HssQualityTracker
note_clock timestamp_us host t = record t {
  source_host_clock_mismatch =
      t.source_host_clock_mismatch || is_ahead t.summary.clock.mapping_error_us timestamp_us host;
  summary = record t.summary {
    clock = record t.summary.clock {
      first_timestamp_us = get_or_insert t.summary.clock.first_timestamp_us timestamp_us;
      last_timestamp_us = some timestamp_us;
    };
  };
}

abbrev with_intervals : HssIntervalStatistics → HssQualityTracker → HssQualityTracker
with_intervals s t = record t { summary = record t.summary { intervals = s } }

abbrev map_or : (ℕ → ℕ → ℕ) → Option ℕ → ℕ → ℕ
map_or f none delta = delta
map_or f (some current) delta = f current delta

abbrev pub add_interval : ℕ → HssIntervalStatistics → HssIntervalStatistics
add_interval delta s = record s {
  intervals = saturating_add s.intervals 1;
  total_us = saturating_add s.total_us delta;
  min_us = some (map_or min s.min_us delta);
  max_us = some (map_or max s.max_us delta);
}

abbrev pub add_regression : HssIntervalStatistics → HssIntervalStatistics
add_regression s = record s { regressions = saturating_add s.regressions 1 }

abbrev pub add_collision : HssIntervalStatistics → HssIntervalStatistics
add_collision s = record s { collisions = saturating_add s.collisions 1 }

abbrev pub add_gap : ℕ → HssIntervalStatistics → HssIntervalStatistics
add_gap slots s = record s {
  gap_events = saturating_add s.gap_events 1;
  gap_slots = saturating_add s.gap_slots slots;
}

unfoldable pub note_interval : Option ℕ → ℕ → ℕ → ℕ → HssQualityTracker → HssQualityTracker
unfolding record_event
note_interval none timestamp_us host index t = t
note_interval (some previous) timestamp_us host index t =
    if ltb timestamp_us previous
    then record_event clock_regression confirmed host (index - 1) index
        (with_intervals (add_regression t.summary.intervals) t)
    else with_intervals (add_interval (timestamp_us - previous) t.summary.intervals) t

unfoldable pub note_slot : Option ℕ → ℕ → ℕ → ℕ → HssQualityTracker → HssQualityTracker
unfolding record_event
note_slot none slot host index t = t
note_slot (some previous) slot host index t =
    if ltb slot previous
    then t
    else if slot == previous
    then record_event sample_interval unknown host (index - 1) index
        (with_intervals (add_collision t.summary.intervals) t)
    else if ltb (saturating_add previous 1) slot
    then record_event sample_interval suspected host (index - 1) index
        (with_intervals (add_gap (slot - previous - 1) t.summary.intervals) t)
    else t

unfoldable pub observe_timestamp : ℕ → ℕ → ℕ → HssQualityTracker → HssQualityTracker
unfolding slot_of note_clock note_interval note_slot
observe_timestamp timestamp_us host index t =
    let slot = slot_of t.summary.requested_rate_hz timestamp_us in
    let timed =
      note_interval t.previous_timestamp_us timestamp_us host index
        (note_clock timestamp_us host t) in
    record (note_slot t.previous_slot slot host index timed) {
      previous_timestamp_us = some timestamp_us;
      previous_slot = some slot;
    }

unfoldable pub observe_frame : ℕ → HssRawFrame → HssQualityTracker → HssQualityTracker
unfolding observe_timestamp normalize_hss_timestamp_us
observe_frame host frame t =
    let seen =
      observe_timestamp (normalize_hss_timestamp_us frame.timestamp_raw) host
        t.summary.actual_samples t in
    record seen {
      summary = record seen.summary {
        actual_samples = saturating_add seen.summary.actual_samples 1;
      };
    }

unfoldable pub observe_frames : ℕ → List HssRawFrame → HssQualityTracker → HssQualityTracker
unfolding observe_frame
observe_frames host [] t = t
observe_frames host (frame ∷ frames) t = observe_frames host frames (observe_frame host frame t)

unfoldable pub observe_batch :
    ℕ → Result HssFrameBatch → HssQualityTracker → HssQualityTracker × Result ℕ
unfolding observe_frames
observe_batch host (err e) t = (t, err e)
observe_batch host (ok batch) t =
    if not (length batch.incomplete_tail == 0)
    then (t, err frame_error)
    else (let seen = observe_frames host batch.frames t in (seen, ok seen.summary.actual_samples))

unfoldable pub observe_complete_records :
    HssFrameLayout → List ℕ → ℕ → HssQualityTracker → HssQualityTracker × Result ℕ
unfolding observe_batch at_host
observe_complete_records layout bytes host t =
    observe_batch host (parse layout bytes) (at_host host t)

abbrev unwrap_or_zero : Option ℕ → ℕ
unwrap_or_zero none = 0
unwrap_or_zero (some n) = n

unfoldable pub record_confirmed_overflow : ℕ → ℕ → ℕ → HssQualityTracker → HssQualityTracker
unfolding record_event at_host
record_confirmed_overflow host first last t =
    let seen = record_event buffer_overflow confirmed host first last (at_host host t) in
    record seen {
      summary = record seen.summary {
        overflow = record {
          evidence = confirmed;
          basis = dll_overflow_signal;
          events = some (saturating_add (unwrap_or_zero seen.summary.overflow.events) 1);
        };
      };
    }

unfoldable pub record_frame_format_error : ℕ → ℕ → HssQualityTracker → HssQualityTracker
unfolding record_event at_host
record_frame_format_error host index t =
    record_event frame_format confirmed host index index (at_host host t)
