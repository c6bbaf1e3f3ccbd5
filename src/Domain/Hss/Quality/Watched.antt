-- ===== src/Domain/Hss/Quality/Watched.antt =====
-- hss.rs: what a tracker knows of the records and the overflows that it was told of, and nothing else.
use jlink_mcp_v.Base.{
  ℕ, ◌*◌, ◌%◌, ◌≡◌, refl, ap, ◌∙◌, Bool, true, false, ◌||◌, Option, none, some, List, [], ◌∷◌, ◌++◌,
  map, length, if◌then◌else◌, ltb, ◌==◌, is_some_and, saturating_add, u64_mod, inl, inr, Bool-cases,
  arith,
}
use jlink_mcp_v.Domain.Error.{Result, ok, err}
use jlink_mcp_v.Domain.Hss.Frame.{HssFrameBatch, HssRawFrame, parse}
use jlink_mcp_v.Domain.Hss.Quality.{HssIntervalStatistics}
use jlink_mcp_v.Domain.Hss.Quality.Sums.{interval_after, slot_after}
use jlink_mcp_v.Domain.Hss.Quality.Tracker.{
  HssQualityTracker, slot_of, observe_frame, observe_frames, observe_batch, get_or_insert,
  note_clock, normalize_hss_timestamp_us,
}
use jlink_mcp_v.Domain.Hss.Quality.Frames.{observe_frame-eq}
use jlink_mcp_v.Domain.Hss.Quality.Accounts.{
  Observation, read_shape, complete_records, overflow, format_error,
}

-- A record: its timestamp in microseconds, and the host's time when it was observed.
abbrev pub Stamp : Type 0
Stamp = ℕ × ℕ

abbrev stamp : ℕ → HssRawFrame → Stamp
stamp host frame = (frame.timestamp_raw * 1000 % u64_mod, host)

-- The records of bytes that are whole records.
abbrev pub batch_stamps : ℕ → Result HssFrameBatch → List Stamp
batch_stamps host (err e) = []
batch_stamps host (ok batch) =
    if length batch.incomplete_tail == 0 then map (stamp host) batch.frames else []

-- The records that a call observes, and whether it reports an overflow.
abbrev pub stamps : Observation → List Stamp
stamps (complete_records layout bytes host) = batch_stamps host (parse layout bytes)
stamps (read_shape read_bytes record_bytes host first_record) = []
stamps (overflow host first last) = []
stamps (format_error host index) = []

abbrev pub reports_overflow : Observation → Bool
reports_overflow (overflow host first last) = true
reports_overflow (complete_records layout bytes host) = false
reports_overflow (read_shape read_bytes record_bytes host first_record) = false
reports_overflow (format_error host index) = false

abbrev pub all_stamps : List Observation → List Stamp
all_stamps [] = []
all_stamps (call ∷ calls) = stamps call ++ all_stamps calls

-- The record says a time that the host has not reached, by more than the bound.
abbrev pub ran_ahead : Option ℕ → Stamp → Bool
ran_ahead bound (time, host) = is_some_and bound λ b. ltb (saturating_add host b) time

abbrev pub is_earlier : Option ℕ → ℕ → Bool
is_earlier none time = false
is_earlier (some previous) time = ltb time previous

-- A record's timestamp lies before that of the record before it.
abbrev pub went_back : Option ℕ → List Stamp → Bool
went_back previous [] = false
went_back previous ((time, host) ∷ xs) = is_earlier previous time || went_back (some time) xs

abbrev pub last_time : ℕ → List Stamp → ℕ
last_time time [] = time
last_time time ((next, host) ∷ xs) = last_time next xs

-- What is kept of the records.
pub record Facts : Type 0 where
  pub mismatch : Bool
  pub back : Bool
  pub previous : Option ℕ
  pub bound : Option ℕ
  pub first : Option ℕ
  pub last : Option ℕ
  pub count : ℕ
  pub rate : ℕ

abbrev pub facts : HssQualityTracker → Facts
facts t = record {
  mismatch = t.source_host_clock_mismatch;
  back = ltb 0 t.summary.intervals.regressions;
  previous = t.previous_timestamp_us;
  bound = t.summary.clock.mapping_error_us;
  first = t.summary.clock.first_timestamp_us;
  last = t.summary.clock.last_timestamp_us;
  count = t.summary.actual_samples;
  rate = t.summary.requested_rate_hz;
}

abbrev pub watch : Stamp → Facts → Facts
watch (time, host) f = record f {
  mismatch = f.mismatch || ran_ahead f.bound (time, host);
  back = f.back || is_earlier f.previous time;
  previous = some time;
  first = get_or_insert f.first time;
  last = some time;
  count = saturating_add f.count 1;
}

abbrev pub watch_all : List Stamp → Facts → Facts
watch_all [] f = f
watch_all (x ∷ xs) f = watch_all xs (watch x f)

pub watch_all-append :
    (xs ys : List Stamp) (f : Facts) → watch_all (xs ++ ys) f ≡ watch_all ys (watch_all xs f)
watch_all-append [] ys f = refl
watch_all-append (x ∷ xs) ys f = watch_all-append xs ys (watch x f)

slot_after-regressions :
    (previous : Option ℕ) (slot : ℕ) (s : HssIntervalStatistics)
    → (slot_after previous slot s).regressions ≡ s.regressions
unfolding slot_after
slot_after-regressions none slot s = refl
slot_after-regressions (some previous) slot s = elim (Bool-cases (ltb slot previous)) [
  | inl back ↦ rw back refl
  | inr on ↦ elim (Bool-cases (slot == previous)) [
    | inl same ↦ rw (on, same) refl
    | inr apart ↦ elim (Bool-cases (ltb (saturating_add previous 1) slot)) [
      | inl gap ↦ rw (on, apart, gap) refl
      | inr next ↦ rw (on, apart, next) refl
    ]
  ]
]

interval_after-regressions :
    (previous : Option ℕ) (time : ℕ) (s : HssIntervalStatistics)
    → ltb 0 (interval_after previous time s).regressions
      ≡ (ltb 0 s.regressions || is_earlier previous time)
unfolding interval_after
interval_after-regressions none time s = ground arith
interval_after-regressions (some previous) time s = elim (Bool-cases (ltb time previous)) [
  | inl back ↦ rw back (ground arith)
  | inr on ↦ rw on (ground arith)
]

observe_frame-facts :
    (host : ℕ) (frame : HssRawFrame) (t : HssQualityTracker)
    → (facts (observe_frame host frame t) ≡ watch (stamp host frame) (facts t))
      × ((observe_frame host frame t).summary.overflow ≡ t.summary.overflow)
unfolding note_clock normalize_hss_timestamp_us
observe_frame-facts host frame t =
    let now = normalize_hss_timestamp_us frame.timestamp_raw in
    let (events, e) = observe_frame-eq host frame t in
    let s = interval_after t.previous_timestamp_us now t.summary.intervals in
    let slot = slot_of t.summary.requested_rate_hz now in
    let back =
      ap (ltb 0) (slot_after-regressions t.previous_slot slot s)
      ∙ interval_after-regressions t.previous_timestamp_us now t.summary.intervals in
    (
      ap facts e ∙ ap (λ b. record (watch (now, host) (facts t)) { back = b }) back,
      ap (λ (u : HssQualityTracker). u.summary.overflow) e,
    )

observe_frames-facts :
    (host : ℕ) (frames : List HssRawFrame) (t : HssQualityTracker)
    → (facts (observe_frames host frames t) ≡ watch_all (map (stamp host) frames) (facts t))
      × ((observe_frames host frames t).summary.overflow ≡ t.summary.overflow)
unfolding observe_frames
observe_frames-facts host [] t = (refl, refl)
observe_frames-facts host (frame ∷ frames) t =
    let (seen, over) = observe_frame-facts host frame t in
    let (rest, over_rest) = observe_frames-facts host frames (observe_frame host frame t) in
    (rest ∙ ap (watch_all (map (stamp host) frames)) seen, over_rest ∙ over)

pub observe_batch-facts :
    (host : ℕ) (r : Result HssFrameBatch) (t : HssQualityTracker)
    → (facts ((observe_batch host r t).0) ≡ watch_all (batch_stamps host r) (facts t))
      × ((observe_batch host r t).0.summary.overflow ≡ t.summary.overflow)
unfolding observe_batch
observe_batch-facts host (err e) t = (refl, refl)
observe_batch-facts host (ok batch) t = elim (Bool-cases (length batch.incomplete_tail == 0)) [
  | inl whole ↦ rw whole (observe_frames-facts host batch.frames t)
  | inr tail ↦ rw tail (refl, refl)
]
