-- ===== src/Domain/Hss/Quality/Rate.antt =====
-- hss.rs: HssRateAssessment, the measurement before a capture.
use jlink_mcp_v.Base.{ℕ, Bool, false, not, ◌||◌, leb, ltb, ◌==◌, List, [], ◌∷◌}
use jlink_mcp_v.Domain.Error.{
  JlinkError, new, with_detail, flag, rates, Result, ok, ◌>>◌, ensure, hss_unsupported,
}

pub record HssRateAssessment : Type 0 where
  pub reused : Bool
  pub measurement_rate_hz : ℕ
  pub measurement_window_us : ℕ
  pub complete_samples : ℕ
  pub measured_rate_hz : ℕ
  pub safety_margin_percent : ℕ
  pub recommended_max_rate_hz : ℕ
  pub requested_rate_hz : ℕ
  pub accepted : Bool

abbrev pub unsupported : JlinkError
unsupported = new hss_unsupported false

unfoldable pub new_assessment : ℕ → ℕ → ℕ → ℕ → ℕ → ℕ → ℕ → Result HssRateAssessment
new_assessment rate window samples measured margin recommended requested = do
  ensure
      (not (
        rate == 0
        || (window == 0
            || (samples == 0
                || (measured == 0
                    || (leb 100 margin
                        || (recommended == 0 || (ltb measured recommended || requested == 0))))))))
      unsupported
  ok (record {
    reused = false;
    measurement_rate_hz = rate;
    measurement_window_us = window;
    complete_samples = samples;
    measured_rate_hz = measured;
    safety_margin_percent = margin;
    recommended_max_rate_hz = recommended;
    requested_rate_hz = requested;
    accepted = leb requested recommended;
  })

-- The JSON form of an assessment.
abbrev json : HssRateAssessment → List ℕ
json a =
    a.measurement_rate_hz ∷ a.measurement_window_us ∷ a.complete_samples ∷ a.measured_rate_hz
    ∷ a.safety_margin_percent ∷ a.recommended_max_rate_hz ∷ a.requested_rate_hz ∷ []

unfoldable pub ensure_accepted : HssRateAssessment → Result HssRateAssessment
ensure_accepted a = do
  ensure a.accepted (
      with_detail (with_detail unsupported "rate_assessment" (rates a.reused (json a) a.accepted))
        "rate_was_modified" (flag false))
  ok a
