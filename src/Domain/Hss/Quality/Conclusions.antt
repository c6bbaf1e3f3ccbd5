-- ===== src/Domain/Hss/Quality/Conclusions.antt =====
-- hss.rs: what HssQualityTracker::integrity and summary conclude from the statistics.
use jlink_mcp_v.Base.{
  ℕ, ◌+◌, ◌-◌, ◌/◌, ◌^◌, ◌<◌, ◌≤◌, ◌≡◌, refl, ◌∙◌, sym, subst, Bool, true, false, ◌||◌, ◌&&◌,
  Option, some, List, if◌then◌else◌, ltb, leb, saturating_add, saturating_mul, ap, any, length, ◌∷◌,
  inl, inr, Bool-cases, arith,
}
use jlink_mcp_v.Domain.Hss.Capture.{HssDataIntegrity, degraded}
use jlink_mcp_v.Domain.Hss.Capture
use jlink_mcp_v.Domain.Hss.Quality.{
  unknown, unmatched_gaps, is_confirmed, HssQualityEvent, loss_assessment,
}
use jlink_mcp_v.Domain.Hss.Quality.Rate.{HssRateAssessment}
use jlink_mcp_v.Domain.Hss.Quality.Summary.{HssQualitySummary}
use jlink_mcp_v.Domain.Hss.Quality.Tracker.{HssQualityTracker, new, slot_of}
use jlink_mcp_v.Domain.Hss.Quality.Verdict.{
  integrity, summarize, assessed, usable_for_period, timestamp_span, actual_rate, with_tail,
}
use jlink_mcp_v.Domain.Hss.Quality.Frames.{IsUnderway, IsAccounted}
use jlink_mcp_v.Domain.Hss.Quality.Watched.{
  Stamp, all_stamps, reports_overflow, ran_ahead, went_back, last_time,
}
use jlink_mcp_v.Domain.Hss.Quality.Told.{Told, observe_all-Told}
use jlink_mcp_v.Domain.Hss.Quality.Accounts.{Observation, observe_all, observe_all-IsAccounted}

-- The tracker of a capture after its observations.
abbrev pub reached : ℕ → ℕ → ℕ → Option HssRateAssessment → List Observation → HssQualityTracker
reached duration rate elapsed assessment calls =
    observe_all calls (new duration rate elapsed assessment)

-- By the tracker.
abbrev doubts : HssQualityTracker → ℕ → ℕ → ℕ → Bool
doubts t first last tail =
    t.source_host_clock_mismatch
    || (ltb 0 tail
        || (is_confirmed t.summary.overflow
            || (ltb 0 t.summary.intervals.regressions
                || leb (t.summary.actual_samples + slot_of t.summary.requested_rate_hz first)
                    (slot_of t.summary.requested_rate_hz last))))

-- By what the capture was told.
abbrev pub is_doubtful : ℕ → ℕ → Stamp → List Stamp → List Observation → ℕ → Bool
is_doubtful rate bound first rest calls tail =
    any (ran_ahead (some bound)) (first ∷ rest)
    || (ltb 0 tail
        || (any reports_overflow calls
            || (went_back (some first.0) rest
                || leb (length (first ∷ rest) + slot_of rate first.0)
                    (slot_of rate (last_time first.0 rest)))))

-- A tracker that knows of a first and a last timestamp accounts for them.
underway :
    (t : HssQualityTracker) (first last : ℕ)
    → IsAccounted t
    → t.summary.clock.first_timestamp_us ≡ some first
    → t.summary.clock.last_timestamp_us ≡ some last
    → IsUnderway t first last
unfolding IsAccounted
underway t first last (inl f) h l = let none_first = f.no_first in cc
underway t first last (inr (a, b, u)) h l =
    let same_first : a ≡ first = let e = u.is_first in cc in
    let same_last : b ≡ last = let e = u.is_last in cc in
    subst (λ x. IsUnderway t x last) same_first (subst (λ x. IsUnderway t a x) same_last u)

gaps-eq :
    (t : HssQualityTracker) (first last : ℕ)
    → IsUnderway t first last
    → t.summary.actual_samples < 2 ^ 63
    → t.summary.intervals.regressions ≡ 0
    → ltb 0 (unmatched_gaps t.summary.intervals)
      ≡ leb
          (t.summary.actual_samples + slot_of t.summary.requested_rate_hz first)
          (slot_of t.summary.requested_rate_hz last)
gaps-eq t first last u few none_back =
    let a = u.sums few none_back in ground (arith, a.counted, a.slotted)

integrity-doubts :
    (t : HssQualityTracker) (first last tail : ℕ)
    → IsUnderway t first last
    → t.summary.actual_samples < 2 ^ 63
    → integrity t tail ≡ (if doubts t first last tail then degraded else Capture.unknown)
unfolding integrity
integrity-doubts t first last tail u few =
    elim (Bool-cases (ltb 0 t.summary.intervals.regressions)) [
      | inl back ↦ rw (back) refl
      | inr on ↦ rw (gaps-eq t first last u few (ground arith)) refl
    ]

doubts-eq :
    (t : HssQualityTracker) (rate bound first host : ℕ) (rest : List Stamp)
    (calls : List Observation) (tail : ℕ)
    → Told t bound rate first host rest calls
    → doubts t first (last_time first rest) tail
      ≡ is_doubtful rate bound (first, host) rest calls tail
doubts-eq t rate bound first host rest calls tail told =
    rw (told.mismatch, told.over, told.back, told.counted, told.rated) refl

-- Whatever a capture is told, the integrity is degraded exactly when: the timestamp of some record ran
-- ahead of the host's time at its observation by more than the duration of the start call and the
-- resolution; or bytes are left over; or the DLL reported an overflow; or the timestamp of some record
-- lies before that of the record before it; or there are fewer records than slots of the requested
-- rate from the first timestamp to the last. There is a first record, and there are fewer than 2^63.
pub integrity-eq :
    (duration rate elapsed : ℕ) (assessment : Option HssRateAssessment) (calls : List Observation)
    (first host : ℕ) (rest : List Stamp) (tail : ℕ)
    → all_stamps calls ≡ (first, host) ∷ rest
    → length ((first, host) ∷ rest) < 2 ^ 63
    → integrity (reached duration rate elapsed assessment calls) tail ≡ (
        if is_doubtful rate (saturating_add elapsed 1000) (first, host) rest calls tail
        then degraded
        else Capture.unknown)
integrity-eq duration rate elapsed assessment calls first host rest tail e few =
    let t = reached duration rate elapsed assessment calls in
    let told = observe_all-Told duration rate elapsed assessment calls first host rest e few in
    let last = last_time first rest in
    let u =
      underway t first last (observe_all-IsAccounted duration rate elapsed assessment calls)
        told.is_first told.is_last in
    integrity-doubts t first last tail u (subst (λ n. n < 2 ^ 63) (sym told.counted) few)
    ∙ ap (λ b. if b then degraded else Capture.unknown)
        (doubts-eq t rate (saturating_add elapsed 1000) first host rest calls tail told)

is_intact : HssDataIntegrity → Bool
is_intact Capture.unknown = true
is_intact _ = false

-- What the summary of a tracker says, by its integrity.
pub record Agrees (t : HssQualityTracker) (tail : ℕ) : Type 0 where
  period :
      (summarize t tail).usable_for_period_estimation
      ≡ (is_intact (integrity t tail) && leb 2 t.summary.actual_samples)
  runtime :
      (summarize t tail).usable_for_runtime_estimation
      ≡ (summarize t tail).usable_for_period_estimation
  loss :
      (summarize t tail).loss.evidence ≡ unknown
      → t.source_host_clock_mismatch ≡ false
      → integrity t tail ≡ Capture.unknown
  rate :
      (summarize t tail).usable_for_runtime_estimation ≡ true
      → t.summary.actual_samples < 2 ^ 63
      → 0 < t.summary.intervals.total_us
      → (summarize t tail).actual_rate_millihz
        ≡ some
            (saturating_mul t.summary.intervals.intervals 1000000000 / t.summary.intervals.total_us)

period-eq :
    (t : HssQualityTracker) (tail : ℕ)
    → usable_for_period t.summary t.source_host_clock_mismatch tail
      ≡ (is_intact (integrity t tail) && leb 2 t.summary.actual_samples)
unfolding usable_for_period integrity is_intact
period-eq t tail = ground arith

loss-eq :
    (t : HssQualityTracker) (tail : ℕ) (events : List HssQualityEvent)
    → (loss_assessment t.summary.overflow t.summary.intervals events tail).evidence ≡ unknown
    → t.source_host_clock_mismatch ≡ false
    → integrity t tail ≡ Capture.unknown
unfolding loss_assessment integrity
loss-eq t tail events h clocked = ground arith

-- Two records or more have a first and a last timestamp.
has_bounds :
    (t : HssQualityTracker)
    → IsAccounted t
    → 2 ≤ t.summary.actual_samples
    → (first last : ℕ) × IsUnderway t first last
unfolding IsAccounted
has_bounds t (inl f) two = let none_yet = f.no_samples in absurd (omega (arith, none_yet))
has_bounds t (inr u) two = u

period-two :
    (s : HssQualitySummary) (mismatch : Bool) (tail : ℕ)
    → usable_for_period s mismatch tail ≡ true
    → (2 ≤ s.actual_samples) × (s.intervals.regressions ≡ 0)
unfolding usable_for_period
period-two s mismatch tail h = ground arith

runtime-eq :
    (t : HssQualityTracker) (tail : ℕ)
    → IsAccounted t
    → (summarize t tail).usable_for_runtime_estimation
      ≡ (summarize t tail).usable_for_period_estimation
unfolding summarize assessed
runtime-eq t tail h =
    elim (Bool-cases (usable_for_period t.summary t.source_host_clock_mismatch tail)) [
      | inl usable ↦
          let (first, last, u) =
            has_bounds t h (period-two t.summary t.source_host_clock_mismatch tail usable).0 in
          rw (usable, u.is_first, u.is_last) refl
      | inr other ↦ rw other refl
    ]

span-eq :
    (t : HssQualityTracker) (first last : ℕ)
    → IsUnderway t first last
    → first ≤ last
    → timestamp_span t.summary.clock ≡ some (last - first)
unfolding timestamp_span
span-eq t first last u ordered = rw (u.is_first, u.is_last) (ground arith)

rate-eq :
    (t : HssQualityTracker) (tail : ℕ)
    → IsAccounted t
    → (summarize t tail).usable_for_runtime_estimation ≡ true
    → t.summary.actual_samples < 2 ^ 63
    → 0 < t.summary.intervals.total_us
    → (summarize t tail).actual_rate_millihz
      ≡ some
          (saturating_mul t.summary.intervals.intervals 1000000000 / t.summary.intervals.total_us)
unfolding summarize assessed actual_rate
rate-eq t tail h usable few long =
    let (two, on) =
      period-two t.summary t.source_host_clock_mismatch tail (sym (runtime-eq t tail h) ∙ usable) in
    let (first, last, u) = has_bounds t h two in
    let a = u.sums few on in
    let span : last - first ≡ t.summary.intervals.total_us = omega (arith, a.timed) in
    let pairs : t.summary.actual_samples - 1 ≡ t.summary.intervals.intervals =
      omega (arith, a.counted) in
    rw (span-eq t first last u a.ordered, span, pairs) (ground arith)

-- The summary agrees with the integrity: the intervals are usable exactly if the integrity is not
-- degraded and there are two records, the runtime is usable whenever they are, a loss of which nothing
-- is known leaves the integrity intact unless the clocks disagree, and the rate given for a usable
-- runtime is that of the intervals over their total.
pub summarize-Agrees :
    (duration rate elapsed : ℕ) (assessment : Option HssRateAssessment) (calls : List Observation)
    (tail : ℕ)
    → Agrees (reached duration rate elapsed assessment calls) tail
unfolding summarize assessed
summarize-Agrees duration rate elapsed assessment calls tail =
    let t = reached duration rate elapsed assessment calls in
    let h = observe_all-IsAccounted duration rate elapsed assessment calls in
    record {
      period = period-eq t tail;
      runtime = runtime-eq t tail h;
      loss = loss-eq t tail (with_tail tail t);
      rate = rate-eq t tail h;
    }
