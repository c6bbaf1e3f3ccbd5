-- ===== src/Domain/Hss/Quality/Accounts.antt =====
-- hss.rs: what the interval statistics of a tracker add up to.
use jlink_mcp_v.Base.{
  ℕ, ◌%◌, ◌≡◌, refl, sym, subst, Option, List, [], ◌∷◌, ltb, ◌==◌, length, inl, inr, Bool-cases,
}
use Prim.Native.Nat.{max}
use jlink_mcp_v.Domain.Error.{Result, ok, err}
use jlink_mcp_v.Domain.Hss.Frame.{HssFrameLayout, HssFrameBatch, parse}
use jlink_mcp_v.Domain.Hss.Quality.{HssOverflowAssessment, HssQualityEvent}
use jlink_mcp_v.Domain.Hss.Quality.Rate.{HssRateAssessment}
use jlink_mcp_v.Domain.Hss.Quality.Frames.{IsAccounted, observe_frames-IsAccounted}
use jlink_mcp_v.Domain.Hss.Quality.Tracker.{
  HssQualityTracker, new, observe_batch, observe_complete_records, observe_read_shape,
  record_confirmed_overflow, record_frame_format_error, at_host, record_event,
}

-- A tracker that differs from `t` in its events, its host time or its overflow alone.
abbrev pub with_others :
    List HssQualityEvent → ℕ → HssOverflowAssessment → HssQualityTracker → HssQualityTracker
with_others events host overflow t = record t {
  last_host_elapsed_us = host;
  summary = record t.summary { events = events; overflow = overflow };
}

with_others-IsAccounted :
    (events : List HssQualityEvent) (host : ℕ) (overflow : HssOverflowAssessment)
    (t : HssQualityTracker)
    → IsAccounted t
    → IsAccounted (with_others events host overflow t)
unfolding IsAccounted
with_others-IsAccounted events host overflow t (inl f) = inl (record {
  no_samples = f.no_samples;
  no_timestamp = f.no_timestamp;
  no_slot = f.no_slot;
  no_first = f.no_first;
  no_last = f.no_last;
  nothing = f.nothing;
})
with_others-IsAccounted events host overflow t (inr (first, last, u)) = inr (
  first,
  last,
  record {
    some_samples = u.some_samples;
    timestamp = u.timestamp;
    slot = u.slot;
    is_first = u.is_first;
    is_last = u.is_last;
    sums = u.sums;
  },
)

-- The calls that a capture makes of its tracker.
pub data Observation : Type 0 where
  read_shape : ℕ → ℕ → ℕ → ℕ → Observation
  complete_records : HssFrameLayout → List ℕ → ℕ → Observation
  overflow : ℕ → ℕ → ℕ → Observation
  format_error : ℕ → ℕ → Observation

unfoldable pub observe : Observation → HssQualityTracker → HssQualityTracker
observe (read_shape read_bytes record_bytes host first_record) t =
    observe_read_shape read_bytes record_bytes host first_record t
observe (complete_records layout bytes host) t = (observe_complete_records layout bytes host t).0
observe (overflow host first last) t = record_confirmed_overflow host first last t
observe (format_error host index) t = record_frame_format_error host index t

unfoldable pub observe_all : List Observation → HssQualityTracker → HssQualityTracker
observe_all [] t = t
observe_all (call ∷ calls) t = observe_all calls (observe call t)

observe_batch-IsAccounted :
    (host : ℕ) (r : Result HssFrameBatch) (t : HssQualityTracker)
    → IsAccounted t
    → IsAccounted (observe_batch host r t).0
unfolding observe_batch
observe_batch-IsAccounted host (err e) t h = h
observe_batch-IsAccounted host (ok batch) t h =
    elim (Bool-cases (length batch.incomplete_tail == 0)) [
      | inl whole ↦ rw whole (observe_frames-IsAccounted host batch.frames t h)
      | inr tail ↦ rw tail h
    ]

pub observe_read_shape-others :
    (read_bytes record_bytes host first_record : ℕ) (t : HssQualityTracker)
    → observe_read_shape read_bytes record_bytes host first_record t
      ≡ with_others
          (observe_read_shape read_bytes record_bytes host first_record t).summary.events
          (max t.last_host_elapsed_us host)
          t.summary.overflow
          t
unfolding observe_read_shape record_event at_host
observe_read_shape-others read_bytes record_bytes host first_record t =
    elim (Bool-cases (read_bytes == 0)) [
      | inl empty ↦ rw empty refl
      | inr some_bytes ↦ elim (Bool-cases (ltb read_bytes record_bytes)) [
        | inl short ↦ rw (some_bytes, short) refl
        | inr long ↦ elim (Bool-cases (read_bytes % record_bytes == 0)) [
          | inl whole ↦ rw (some_bytes, long, whole) refl
          | inr rest ↦ rw (some_bytes, long, rest) refl
        ]
      ]
    ]

observe-IsAccounted :
    (call : Observation) (t : HssQualityTracker) → IsAccounted t → IsAccounted (observe call t)
unfolding observe observe_complete_records at_host record_confirmed_overflow
    record_frame_format_error record_event
observe-IsAccounted (read_shape read_bytes record_bytes host first_record) t h =
    subst IsAccounted (sym (observe_read_shape-others read_bytes record_bytes host first_record t))
      (with_others-IsAccounted _ _ _ t h)
observe-IsAccounted (complete_records layout bytes host) t h =
    observe_batch-IsAccounted host (parse layout bytes) (at_host host t)
      (with_others-IsAccounted _ _ _ t h)
observe-IsAccounted (overflow host first last) t h = with_others-IsAccounted _ _ _ t h
observe-IsAccounted (format_error host index) t h = with_others-IsAccounted _ _ _ t h

observe_all-keeps :
    (calls : List Observation) (t : HssQualityTracker)
    → IsAccounted t
    → IsAccounted (observe_all calls t)
unfolding observe_all
observe_all-keeps [] t h = h
observe_all-keeps (call ∷ calls) t h =
    observe_all-keeps calls (observe call t) (observe-IsAccounted call t h)

-- Whatever a capture observes, as long as no timestamp moved backwards and fewer than 2^63 records came,
-- the intervals are one fewer than the records, their total is the time from the first to the last
-- timestamp, and the slots from the first to the last are the intervals and the gaps less the collisions.
pub observe_all-IsAccounted :
    (duration rate elapsed : ℕ) (assessment : Option HssRateAssessment) (calls : List Observation)
    → IsAccounted (observe_all calls (new duration rate elapsed assessment))
unfolding IsAccounted new
observe_all-IsAccounted duration rate elapsed assessment calls =
    observe_all-keeps calls (new duration rate elapsed assessment) (
      inl (record {
        no_samples = refl;
        no_timestamp = refl;
        no_slot = refl;
        no_first = refl;
        no_last = refl;
        nothing = refl;
      }))
