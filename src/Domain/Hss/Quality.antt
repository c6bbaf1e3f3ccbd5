-- ===== src/Domain/Hss/Quality.antt =====
-- hss.rs: the facts that describe the quality of a capture, its events and the loss assessment.
pub mod Rate
pub mod Summary
pub mod Tracker
pub mod Verdict
pub mod Sums
pub mod Frames
pub mod Accounts
pub mod Watched
pub mod Told
pub mod Conclusions
mod Tests
use jlink_mcp_v.Base.{
  ℕ, ◌-◌, Bool, true, false, ◌&&◌, ◌||◌, Option, none, some, List, [], ◌∷◌, ◌++◌, if◌then◌else◌,
  ltb, saturating_add,
}
use Prim.Native.Nat.{max}

-- HSS_SOURCE_TIMESTAMP_FREQUENCY_HZ and HSS_SOURCE_TIMESTAMP_RESOLUTION_US
abbrev pub source_timestamp_frequency_hz : ℕ
source_timestamp_frequency_hz = 1000

abbrev pub source_timestamp_resolution_us : ℕ
source_timestamp_resolution_us = 1000

pub record HssDrainTiming : Type 0 where
  pub calls : ℕ
  pub total_us : ℕ
  pub max_us : ℕ

pub data HssQualityEvidence : Type 0 where
  confirmed suspected unknown : HssQualityEvidence

pub data HssQualityBasis : Type 0 where
  no_independent_overflow_or_sequence_counter dll_overflow_signal short_or_malformed_read :
      HssQualityBasis
  source_timestamp_gap source_timestamp_regression : HssQualityBasis

pub record HssLossAssessment : Type 0 where
  pub evidence : HssQualityEvidence
  pub basis : HssQualityBasis
  pub lost_samples : Option ℕ

pub record HssOverflowAssessment : Type 0 where
  pub evidence : HssQualityEvidence
  pub basis : HssQualityBasis
  pub events : Option ℕ

-- The three enums of one constructor are left out.
pub record HssClockEvidence : Type 0 where
  pub source_frequency_hz : ℕ
  pub source_resolution_us : ℕ
  pub host_monotonic_since_start : Bool
  pub mapping_error_us : Option ℕ
  pub first_timestamp_us : Option ℕ
  pub last_timestamp_us : Option ℕ

pub record HssIntervalStatistics : Type 0 where
  pub intervals : ℕ
  pub min_us : Option ℕ
  pub max_us : Option ℕ
  pub total_us : ℕ
  pub collisions : ℕ
  pub gap_events : ℕ
  pub gap_slots : ℕ
  pub regressions : ℕ

abbrev pub no_intervals : HssIntervalStatistics
no_intervals = record {
  intervals = 0;
  min_us = none;
  max_us = none;
  total_us = 0;
  collisions = 0;
  gap_events = 0;
  gap_slots = 0;
  regressions = 0;
}

pub data HssQualityEventKind : Type 0 where
  buffer_overflow short_frame frame_format sample_interval clock_regression : HssQualityEventKind

pub record HssQualityEvent : Type 0 where
  pub kind : HssQualityEventKind
  pub evidence : HssQualityEvidence
  pub first_host_elapsed_us : ℕ
  pub last_host_elapsed_us : ℕ
  pub first_record : ℕ
  pub last_record : ℕ
  pub occurrences : ℕ

abbrev pub kind_eq : HssQualityEventKind → HssQualityEventKind → Bool
kind_eq buffer_overflow buffer_overflow = true
kind_eq short_frame short_frame = true
kind_eq frame_format frame_format = true
kind_eq sample_interval sample_interval = true
kind_eq clock_regression clock_regression = true
kind_eq _ _ = false

abbrev pub evidence_eq : HssQualityEvidence → HssQualityEvidence → Bool
evidence_eq confirmed confirmed = true
evidence_eq suspected suspected = true
evidence_eq unknown unknown = true
evidence_eq _ _ = false

-- The first event of the kind and evidence is extended; without one, a new event is pushed.
unfoldable pub aggregate_quality_event :
    HssQualityEventKind
    → HssQualityEvidence
    → ℕ
    → ℕ
    → ℕ
    → List HssQualityEvent
    → List HssQualityEvent
aggregate_quality_event kind evidence host first last [] =
    record {
      kind = kind;
      evidence = evidence;
      first_host_elapsed_us = host;
      last_host_elapsed_us = host;
      first_record = first;
      last_record = last;
      occurrences = 1;
    }
    ∷ []
aggregate_quality_event kind evidence host first last (event ∷ events) =
    let later = aggregate_quality_event kind evidence host first last events in
    if kind_eq event.kind kind && evidence_eq event.evidence evidence
    then record event {
      last_host_elapsed_us = host;
      last_record = max event.last_record last;
      occurrences = saturating_add event.occurrences 1;
    }
      ∷ events
    else event ∷ later

abbrev is_malformed : HssQualityEventKind → Bool
is_malformed short_frame = true
is_malformed frame_format = true
is_malformed _ = false

pub any_malformed : List HssQualityEvent → Bool
any_malformed [] = false
any_malformed (event ∷ events) = is_malformed event.kind || any_malformed events

-- `gap_slots.saturating_sub(collisions)`
abbrev pub unmatched_gaps : HssIntervalStatistics → ℕ
unmatched_gaps s = s.gap_slots - s.collisions

abbrev pub is_confirmed : HssOverflowAssessment → Bool
is_confirmed overflow = evidence_eq overflow.evidence confirmed

abbrev pub no_evidence : HssLossAssessment
no_evidence = record {
  evidence = unknown;
  basis = no_independent_overflow_or_sequence_counter;
  lost_samples = none;
}

unfoldable pub loss_assessment :
    HssOverflowAssessment → HssIntervalStatistics → List HssQualityEvent → ℕ → HssLossAssessment
unfolding any_malformed
loss_assessment overflow intervals events final_tail_bytes =
    if is_confirmed overflow
    then record { evidence = confirmed; basis = dll_overflow_signal; lost_samples = none }
    else if ltb 0 intervals.regressions
    then record { evidence = suspected; basis = source_timestamp_regression; lost_samples = none }
    else if ltb 0 (unmatched_gaps intervals)
    then record { evidence = suspected; basis = source_timestamp_gap; lost_samples = none }
    else if ltb 0 final_tail_bytes || any_malformed events
    then record { evidence = suspected; basis = short_or_malformed_read; lost_samples = none }
    else no_evidence
