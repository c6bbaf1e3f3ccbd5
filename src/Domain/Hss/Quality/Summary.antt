-- ===== src/Domain/Hss/Quality/Summary.antt =====
-- hss.rs: HssQualitySummary and the reasons it gives.
use jlink_mcp_v.Base.{ℕ, Bool, true, false, Option, none, List, [], ◌∷◌, if◌then◌else◌, ltb}
use jlink_mcp_v.Domain.Hss.Quality.{
  HssLossAssessment, no_evidence, HssOverflowAssessment, is_confirmed, HssClockEvidence,
  HssIntervalStatistics, no_intervals, unmatched_gaps, HssQualityEvent,
  source_timestamp_frequency_hz, source_timestamp_resolution_us, unknown,
  no_independent_overflow_or_sequence_counter,
}
use jlink_mcp_v.Domain.Hss.Quality.Rate.{HssRateAssessment}

pub data HssQualityReasonCode : Type 0 where
  stable_intervals_available runtime_bounds_available insufficient_samples : HssQualityReasonCode
  incomplete_frame clock_regression source_host_clock_mismatch source_timestamp_gap :
      HssQualityReasonCode
  confirmed_overflow no_independent_loss_evidence : HssQualityReasonCode

pub record HssQualitySummary : Type 0 where
  pub requested_rate_hz : ℕ
  pub expected_samples : ℕ
  pub actual_samples : ℕ
  pub actual_rate_millihz : Option ℕ
  pub rate_assessment : Option HssRateAssessment
  pub intervals : HssIntervalStatistics
  pub loss : HssLossAssessment
  pub overflow : HssOverflowAssessment
  pub clock : HssClockEvidence
  pub usable_for_period_estimation : Bool
  pub usable_for_runtime_estimation : Bool
  pub proves_no_sample_loss : Bool
  pub reason_codes : List HssQualityReasonCode
  pub events : List HssQualityEvent

-- `HssQualitySummary::default`
abbrev pub default : HssQualitySummary
default = record {
  requested_rate_hz = 0;
  expected_samples = 0;
  actual_samples = 0;
  actual_rate_millihz = none;
  rate_assessment = none;
  intervals = no_intervals;
  loss = no_evidence;
  overflow = record {
    evidence = unknown;
    basis = no_independent_overflow_or_sequence_counter;
    events = none;
  };
  clock = record {
    source_frequency_hz = source_timestamp_frequency_hz;
    source_resolution_us = source_timestamp_resolution_us;
    host_monotonic_since_start = true;
    mapping_error_us = none;
    first_timestamp_us = none;
    last_timestamp_us = none;
  };
  usable_for_period_estimation = false;
  usable_for_runtime_estimation = false;
  proves_no_sample_loss = false;
  reason_codes = no_independent_loss_evidence ∷ [];
  events = [];
}

-- `if test { reasons.push(reason) }`, with what is pushed later.
abbrev when : Bool → HssQualityReasonCode → List HssQualityReasonCode → List HssQualityReasonCode
when test reason later = if test then reason ∷ later else later

unfoldable pub reasons : HssQualitySummary → Bool → ℕ → List HssQualityReasonCode
reasons s mismatch final_tail_bytes =
    when s.usable_for_period_estimation stable_intervals_available (
      when s.usable_for_runtime_estimation runtime_bounds_available (
        when mismatch source_host_clock_mismatch (
          when (ltb s.actual_samples 2) insufficient_samples (
            when (ltb 0 final_tail_bytes) incomplete_frame (
              when (ltb 0 s.intervals.regressions) clock_regression (
                when (ltb 0 (unmatched_gaps s.intervals)) source_timestamp_gap (
                  when (is_confirmed s.overflow) confirmed_overflow
                    (no_independent_loss_evidence ∷ []))))))))
