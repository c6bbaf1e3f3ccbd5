-- ===== src/Domain/Hss/Quality/Told.antt =====
-- hss.rs: what the calls of a capture make of its tracker, by the records and overflows they tell of.
use jlink_mcp_v.Base.{
  ℕ, ◌+◌, ◌^◌, ◌<◌, ◌≡◌, refl, ap, ◌∙◌, sym, Bool, false, ◌||◌, Option, some, List, [], ◌∷◌, any,
  length, ltb, saturating_add, arith,
}
use jlink_mcp_v.Domain.Hss.Frame.{parse}
use jlink_mcp_v.Domain.Hss.Quality.{is_confirmed}
use jlink_mcp_v.Domain.Hss.Quality.Rate.{HssRateAssessment}
use jlink_mcp_v.Domain.Hss.Quality.Tracker.{
  HssQualityTracker, new, at_host, record_event, observe_complete_records,
  record_confirmed_overflow, record_frame_format_error,
}
use jlink_mcp_v.Domain.Hss.Quality.Accounts.{
  Observation, read_shape, complete_records, overflow, format_error, observe, observe_all,
  observe_read_shape-others,
}
use jlink_mcp_v.Domain.Hss.Quality.Watched.{
  Stamp, stamps, all_stamps, reports_overflow, ran_ahead, is_earlier, went_back, last_time, Facts,
  facts, watch, watch_all, watch_all-append, observe_batch-facts,
}

or-none : (a : Bool) → (a || false) ≡ a
or-none a = ground arith

or_assoc : (a b c : Bool) → ((a || b) || c) ≡ (a || (b || c))
or_assoc a b c = ground arith

observe-facts :
    (call : Observation) (t : HssQualityTracker)
    → (facts (observe call t) ≡ watch_all (stamps call) (facts t))
      × (is_confirmed (observe call t).summary.overflow
          ≡ (is_confirmed t.summary.overflow || reports_overflow call))
unfolding observe observe_complete_records at_host record_confirmed_overflow
    record_frame_format_error record_event
observe-facts (read_shape read_bytes record_bytes host first_record) t =
    let e = observe_read_shape-others read_bytes record_bytes host first_record t in
    (
      ap facts e,
      ap (λ (u : HssQualityTracker). is_confirmed u.summary.overflow) e
          ∙ sym (or-none (is_confirmed t.summary.overflow)),
    )
observe-facts (complete_records layout bytes host) t =
    let (seen, over) = observe_batch-facts host (parse layout bytes) (at_host host t) in
    (seen, ap is_confirmed over ∙ sym (or-none (is_confirmed t.summary.overflow)))
observe-facts (overflow host first last) t = (refl, ground arith)
observe-facts (format_error host index) t = (refl, sym (or-none (is_confirmed t.summary.overflow)))

observe_all-facts :
    (calls : List Observation) (t : HssQualityTracker)
    → (facts (observe_all calls t) ≡ watch_all (all_stamps calls) (facts t))
      × (is_confirmed (observe_all calls t).summary.overflow
          ≡ (is_confirmed t.summary.overflow || any reports_overflow calls))
unfolding observe_all
observe_all-facts [] t = (refl, sym (or-none (is_confirmed t.summary.overflow)))
observe_all-facts (call ∷ calls) t =
    let (now, over) = observe-facts call t in
    let (rest, over_rest) = observe_all-facts calls (observe call t) in
    (
      rest
          ∙ ap (watch_all (all_stamps calls)) now
          ∙ sym (watch_all-append (stamps call) (all_stamps calls) (facts t)),
      over_rest
          ∙ ap (λ b. b || any reports_overflow calls) over
          ∙ or_assoc (is_confirmed t.summary.overflow) (reports_overflow call)
              (any reports_overflow calls),
    )

watch_all-mismatch :
    (xs : List Stamp) (f : Facts)
    → (watch_all xs f).mismatch ≡ (f.mismatch || any (ran_ahead f.bound) xs)
watch_all-mismatch [] f = sym (or-none f.mismatch)
watch_all-mismatch (x ∷ xs) f =
    watch_all-mismatch xs (watch x f)
    ∙ or_assoc f.mismatch (ran_ahead f.bound x) (any (ran_ahead f.bound) xs)

watch_all-back :
    (xs : List Stamp) (f : Facts) → (watch_all xs f).back ≡ (f.back || went_back f.previous xs)
watch_all-back [] f = sym (or-none f.back)
watch_all-back ((time, host) ∷ xs) f =
    watch_all-back xs (watch (time, host) f)
    ∙ or_assoc f.back (is_earlier f.previous time) (went_back (some time) xs)

watch_all-rate : (xs : List Stamp) (f : Facts) → (watch_all xs f).rate ≡ f.rate
watch_all-rate [] f = refl
watch_all-rate (x ∷ xs) f = watch_all-rate xs (watch x f)

watch_all-first :
    (xs : List Stamp) (f : Facts) (a : ℕ) → f.first ≡ some a → (watch_all xs f).first ≡ some a
watch_all-first [] f a h = h
watch_all-first (x ∷ xs) f a h = watch_all-first xs (watch x f) a (rw h refl)

watch_all-last :
    (xs : List Stamp) (f : Facts) (a : ℕ)
    → f.last ≡ some a
    → (watch_all xs f).last ≡ some (last_time a xs)
watch_all-last [] f a h = h
watch_all-last ((time, host) ∷ xs) f a h = watch_all-last xs (watch (time, host) f) time refl

watch_all-count :
    (xs : List Stamp) (f : Facts)
    → f.count + length xs < 2 ^ 63
    → (watch_all xs f).count ≡ f.count + length xs
watch_all-count [] f few = omega arith
watch_all-count (x ∷ xs) f few =
    let one : saturating_add f.count 1 ≡ f.count + 1 = ground arith in
    let rest = watch_all-count xs (watch x f) (ground arith) in ground (arith, rest, one)

watch_all-count_new :
    (xs : List Stamp) (f : Facts)
    → f.count ≡ 0
    → length xs < 2 ^ 63
    → (watch_all xs f).count ≡ length xs
watch_all-count_new xs f none_yet few =
    let counted = watch_all-count xs f (omega (arith, none_yet, few)) in
    omega (arith, counted, none_yet)

-- What is known of a tracker after calls that tell of a first record and others.
pub record Told (t : HssQualityTracker) (bound rate first host : ℕ) (rest : List Stamp)
    (calls : List Observation) : Type 0 where
  pub mismatch : t.source_host_clock_mismatch ≡ any (ran_ahead (some bound)) ((first, host) ∷ rest)
  pub back : ltb 0 t.summary.intervals.regressions ≡ went_back (some first) rest
  pub over : is_confirmed t.summary.overflow ≡ any reports_overflow calls
  pub rated : t.summary.requested_rate_hz ≡ rate
  pub is_first : t.summary.clock.first_timestamp_us ≡ some first
  pub is_last : t.summary.clock.last_timestamp_us ≡ some (last_time first rest)
  pub counted : t.summary.actual_samples ≡ length ((first, host) ∷ rest)

pub observe_all-Told :
    (duration rate elapsed : ℕ) (assessment : Option HssRateAssessment) (calls : List Observation)
    (first host : ℕ) (rest : List Stamp)
    → all_stamps calls ≡ (first, host) ∷ rest
    → length ((first, host) ∷ rest) < 2 ^ 63
    → Told
        (observe_all calls (new duration rate elapsed assessment))
        (saturating_add elapsed 1000)
        rate
        first
        host
        rest
        calls
unfolding new
observe_all-Told duration rate elapsed assessment calls first host rest e few =
    let t = new duration rate elapsed assessment in
    let (seen, over) = observe_all-facts calls t in
    let known = seen ∙ ap (λ xs. watch_all xs (facts t)) e in
    let f = watch (first, host) (facts t) in
    record {
      mismatch =
          ap (λ (f : Facts). f.mismatch) known
          ∙ watch_all-mismatch ((first, host) ∷ rest) (facts t);
      back = ap (λ (f : Facts). f.back) known ∙ watch_all-back ((first, host) ∷ rest) (facts t);
      over = over;
      rated = ap (λ (f : Facts). f.rate) known ∙ watch_all-rate rest f;
      is_first = ap (λ (f : Facts). f.first) known ∙ watch_all-first rest f first refl;
      is_last = ap (λ (f : Facts). f.last) known ∙ watch_all-last rest f first refl;
      counted =
          ap (λ (f : Facts). f.count) known
          ∙ watch_all-count_new ((first, host) ∷ rest) (facts t) refl few;
    }
