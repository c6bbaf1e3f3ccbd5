-- ===== src/Domain/Hss/Quality/Frames.antt =====
-- hss.rs: how a record changes a tracker whose interval statistics add up.
use jlink_mcp_v.Base.{
  ℕ, ◌^◌, ◌<◌, ◌≡◌, refl, ap, ◌∙◌, sym, subst, Option, none, some, List, [], ◌∷◌, ltb, ◌==◌,
  saturating_add, inl, inr, ◌⊎◌, Bool-cases, arith,
}
use jlink_mcp_v.Domain.Hss.Frame.{HssRawFrame}
use jlink_mcp_v.Domain.Hss.Quality.{HssIntervalStatistics, no_intervals, HssQualityEvent}
use jlink_mcp_v.Domain.Hss.Quality.Sums.{
  AddsUp, AddsUp-one, AddsUp-next, interval_after, slot_after,
}
use jlink_mcp_v.Domain.Hss.Quality.Tracker.{
  HssQualityTracker, slot_of, note_clock, note_interval, note_slot, observe_frame, observe_frames,
  normalize_hss_timestamp_us, record_event, get_or_insert,
}

abbrev with_facts :
    HssIntervalStatistics → List HssQualityEvent → HssQualityTracker → HssQualityTracker
with_facts s events t = record t { summary = record t.summary { intervals = s; events = events } }

note_interval-eq :
    (previous : Option ℕ) (timestamp_us host index : ℕ) (t : HssQualityTracker)
    → note_interval previous timestamp_us host index t
      ≡ with_facts
          (interval_after previous timestamp_us t.summary.intervals)
          (note_interval previous timestamp_us host index t).summary.events
          t
unfolding note_interval interval_after record_event
note_interval-eq none timestamp_us host index t = refl
note_interval-eq (some previous) timestamp_us host index t =
    elim (Bool-cases (ltb timestamp_us previous)) [ inl back ↦ rw back refl | inr on ↦ rw on refl ]

note_slot-eq :
    (previous : Option ℕ) (slot host index : ℕ) (t : HssQualityTracker)
    → note_slot previous slot host index t
      ≡ with_facts
          (slot_after previous slot t.summary.intervals)
          (note_slot previous slot host index t).summary.events
          t
unfolding note_slot slot_after record_event
note_slot-eq none slot host index t = refl
note_slot-eq (some previous) slot host index t = elim (Bool-cases (ltb slot previous)) [
  | inl back ↦ rw back refl
  | inr on ↦ elim (Bool-cases (slot == previous)) [
    | inl same ↦ rw (on, same) refl
    | inr apart ↦ elim (Bool-cases (ltb (saturating_add previous 1) slot)) [
      | inl gap ↦ rw (on, apart, gap) refl
      | inr next ↦ rw (on, apart, next) refl
    ]
  ]
]

-- A tracker after a record whose timestamp is `timestamp_us`.
abbrev pub frame_after : ℕ → ℕ → List HssQualityEvent → HssQualityTracker → HssQualityTracker
frame_after timestamp_us host events t =
    let slot = slot_of t.summary.requested_rate_hz timestamp_us in
    let s =
      slot_after t.previous_slot slot
        (interval_after t.previous_timestamp_us timestamp_us t.summary.intervals) in
    let seen = with_facts s events (note_clock timestamp_us host t) in
    record seen {
      previous_timestamp_us = some timestamp_us;
      previous_slot = some slot;
      summary = record seen.summary { actual_samples = saturating_add t.summary.actual_samples 1 };
    }

pub observe_frame-eq :
    (host : ℕ) (frame : HssRawFrame) (t : HssQualityTracker)
    → (events : List HssQualityEvent) × (observe_frame host frame t
        ≡ frame_after (normalize_hss_timestamp_us frame.timestamp_raw) host events t)
unfolding observe_frame note_clock slot_of
observe_frame-eq host frame t =
    let now = normalize_hss_timestamp_us frame.timestamp_raw in
    let slot = slot_of t.summary.requested_rate_hz now in
    let index = t.summary.actual_samples in
    let clocked = note_clock now host t in
    let finish = λ (seen : HssQualityTracker).
      let ready : HssQualityTracker = record seen {
        previous_timestamp_us = some now;
        previous_slot = some slot;
      } in
      record ready {
        summary = record ready.summary {
          actual_samples = saturating_add ready.summary.actual_samples 1;
        };
      } in
    (
      _,
      ap (λ timed. finish (note_slot t.previous_slot slot host index timed))
            (note_interval-eq t.previous_timestamp_us now host index clocked)
          ∙ ap finish (note_slot-eq t.previous_slot slot host index _),
    )

pub record IsFresh (t : HssQualityTracker) : Type 0 where
  pub no_samples : t.summary.actual_samples ≡ 0
  pub no_timestamp : t.previous_timestamp_us ≡ none
  pub no_slot : t.previous_slot ≡ none
  pub no_first : t.summary.clock.first_timestamp_us ≡ none
  pub no_last : t.summary.clock.last_timestamp_us ≡ none
  pub nothing : t.summary.intervals ≡ no_intervals

pub record IsUnderway (t : HssQualityTracker) (first last : ℕ) : Type 0 where
  pub some_samples : 0 < t.summary.actual_samples
  pub timestamp : t.previous_timestamp_us ≡ some last
  pub slot : t.previous_slot ≡ some (slot_of t.summary.requested_rate_hz last)
  pub is_first : t.summary.clock.first_timestamp_us ≡ some first
  pub is_last : t.summary.clock.last_timestamp_us ≡ some last
  pub sums :
      t.summary.actual_samples < 2 ^ 63
      → t.summary.intervals.regressions ≡ 0
      → AddsUp t.summary.actual_samples first last
          (slot_of t.summary.requested_rate_hz first)
          (slot_of t.summary.requested_rate_hz last)
          t.summary.intervals

-- No record was seen yet, or the statistics add up, unless a timestamp moved backwards.
unfoldable pub IsAccounted : HssQualityTracker → Type 0
IsAccounted t = IsFresh t ⊎ ((first last : ℕ) × IsUnderway t first last)

first_frame-IsUnderway :
    (now host : ℕ) (events : List HssQualityEvent) (t : HssQualityTracker)
    → IsFresh t
    → IsUnderway (frame_after now host events t) now now
unfolding note_clock interval_after slot_after
first_frame-IsUnderway now host events t f = record {
  some_samples = ground arith;
  timestamp = refl;
  slot = refl;
  is_first = ap (λ o. get_or_insert o now) f.no_first;
  is_last = refl;
  sums = λ few r.
      rw (f.no_samples, f.no_slot, f.no_timestamp, f.nothing)
        (AddsUp-one now (slot_of t.summary.requested_rate_hz now));
}

frame_after-IsUnderway :
    (now host : ℕ) (events : List HssQualityEvent) (t : HssQualityTracker) (first last : ℕ)
    → now < 2 ^ 64
    → IsUnderway t first last
    → IsUnderway (frame_after now host events t) first now
unfolding note_clock
frame_after-IsUnderway now host events t first last small u = record {
  some_samples = ground arith;
  timestamp = refl;
  slot = refl;
  is_first = ap (λ o. get_or_insert o now) u.is_first;
  is_last = refl;
  sums = λ few r.
      let rate = t.summary.requested_rate_hz in
      let back : (slot_after t.previous_slot (slot_of rate now)
            (interval_after t.previous_timestamp_us now t.summary.intervals)).regressions
          ≡ 0 =
        r in
      let back' = rw (u.slot, u.timestamp) at back in
      rw (u.slot, u.timestamp)
        (AddsUp-next t.summary.actual_samples first last now rate t.summary.intervals small u.sums
          few back');
}

normalized-lt : (ms : ℕ) → normalize_hss_timestamp_us ms < 2 ^ 64
unfolding normalize_hss_timestamp_us
normalized-lt ms = omega arith

observe_frame-IsAccounted :
    (host : ℕ) (frame : HssRawFrame) (t : HssQualityTracker)
    → IsAccounted t
    → IsAccounted (observe_frame host frame t)
unfolding IsAccounted
observe_frame-IsAccounted host frame t h =
    let now = normalize_hss_timestamp_us frame.timestamp_raw in
    let (events, e) = observe_frame-eq host frame t in
    subst IsAccounted (sym e) (elim h [
      | inl fresh ↦ inr (now, now, first_frame-IsUnderway now host events t fresh)
      | inr (first, last, u) ↦ inr (
        first,
        now,
        frame_after-IsUnderway now host events t first last (normalized-lt frame.timestamp_raw) u,
      )
    ])

pub observe_frames-IsAccounted :
    (host : ℕ) (frames : List HssRawFrame) (t : HssQualityTracker)
    → IsAccounted t
    → IsAccounted (observe_frames host frames t)
unfolding observe_frames
observe_frames-IsAccounted host [] t h = h
observe_frames-IsAccounted host (frame ∷ frames) t h =
    observe_frames-IsAccounted host frames (observe_frame host frame t)
      (observe_frame-IsAccounted host frame t h)
