-- ===== src/Domain/Hss/Quality/Sums.antt =====
-- hss.rs: what a timestamp changes in the interval statistics, and how they add up.
use jlink_mcp_v.Base.{
  ℕ, ◌+◌, ◌-◌, ◌*◌, ◌^◌, ◌<◌, ◌≤◌, ◌≡◌, refl, ap, ◌∙◌, sym, Option, none, some, if◌then◌else◌, ltb,
  ◌==◌, saturating_add, inl, inr, Bool-cases, arith,
}
use native.Mathlib.Nat.{mul-le-mul_right}
use jlink_mcp_v.Domain.Hss.Quality.{HssIntervalStatistics, no_intervals}
use jlink_mcp_v.Domain.Hss.Quality.Tracker.{
  slot_of, add_interval, add_regression, add_collision, add_gap,
}

-- A later timestamp has no earlier slot.
slot_of_mono : (rate a b : ℕ) → a ≤ b → slot_of rate a ≤ slot_of rate b
unfolding slot_of
slot_of_mono rate a b h = let more : a * rate ≤ b * rate = mul-le-mul_right rate h in ground arith

slot_of-lt : (rate a : ℕ) → slot_of rate a < 2 ^ 45
unfolding slot_of
slot_of-lt rate a = ground arith

-- What a timestamp and its slot change in the statistics.
unfoldable pub interval_after : Option ℕ → ℕ → HssIntervalStatistics → HssIntervalStatistics
interval_after none timestamp_us s = s
interval_after (some previous) timestamp_us s =
    if ltb timestamp_us previous then add_regression s else add_interval (timestamp_us - previous) s

unfoldable pub slot_after : Option ℕ → ℕ → HssIntervalStatistics → HssIntervalStatistics
slot_after none slot s = s
slot_after (some previous) slot s =
    if ltb slot previous
    then s
    else if slot == previous
    then add_collision s
    else if ltb (saturating_add previous 1) slot
    then add_gap (slot - previous - 1) s
    else s

-- The sums, of `samples` records from the timestamp `first` to the timestamp `last` and their slots.
pub record AddsUp (samples first last first_slot last_slot : ℕ) (s : HssIntervalStatistics)
    : Type 0 where
  pub ordered : first ≤ last
  pub counted : s.intervals + 1 ≡ samples
  pub timed : s.total_us + first ≡ last
  pub collided : s.collisions ≤ s.intervals
  pub slotted : last_slot + s.collisions ≡ first_slot + s.intervals + s.gap_slots

interval_after-on :
    (last now : ℕ) (s : HssIntervalStatistics)
    → last ≤ now
    → interval_after (some last) now s ≡ add_interval (now - last) s
unfolding interval_after
interval_after-on last now s on = ground arith

interval_after-back :
    (last now : ℕ) (s : HssIntervalStatistics)
    → now < last
    → interval_after (some last) now s ≡ add_regression s
unfolding interval_after
interval_after-back last now s back = ground arith

slot_after-regressions :
    (last_slot slot : ℕ) (s : HssIntervalStatistics)
    → (slot_after (some last_slot) slot s).regressions ≡ s.regressions
unfolding slot_after
slot_after-regressions last_slot slot s = ground arith

AddsUp-after :
    (samples first last now first_slot last_slot slot : ℕ) (s : HssIntervalStatistics)
    → samples + 1 < 2 ^ 63
    → now < 2 ^ 64
    → slot < 2 ^ 45
    → last ≤ now
    → last_slot ≤ slot
    → AddsUp samples first last first_slot last_slot s
    → AddsUp
        (samples + 1)
        first
        now
        first_slot
        slot
        (slot_after (some last_slot) slot (add_interval (now - last) s))
unfolding slot_after
AddsUp-after samples first last now first_slot last_slot slot s few small low on slots a = record {
  ordered = ground arith;
  counted = ground arith;
  timed = ground arith;
  collided = ground arith;
  slotted = ground arith;
}

pub AddsUp-one : (now slot : ℕ) → AddsUp 1 now now slot slot no_intervals
AddsUp-one now slot = record {
  ordered = omega arith;
  counted = refl;
  timed = omega arith;
  collided = omega arith;
  slotted = omega arith;
}

pub AddsUp-next :
    (samples first last now rate : ℕ) (s : HssIntervalStatistics)
    → now < 2 ^ 64
    → (samples < 2 ^ 63
        → s.regressions ≡ 0
        → AddsUp samples first last (slot_of rate first) (slot_of rate last) s)
    → saturating_add samples 1 < 2 ^ 63
    → (slot_after
        (some (slot_of rate last))
        (slot_of rate now)
        (interval_after (some last) now s)).regressions
      ≡ 0
    → AddsUp (saturating_add samples 1) first now (slot_of rate first) (slot_of rate now) (
        slot_after (some (slot_of rate last)) (slot_of rate now) (interval_after (some last) now s))
AddsUp-next samples first last now rate s small before few r =
    let old = slot_of rate last in
    let slot = slot_of rate now in
    let one_more : saturating_add samples 1 ≡ samples + 1 = ground arith in
    let none_back = sym (slot_after-regressions old slot (interval_after (some last) now s)) ∙ r in
    elim (Bool-cases (ltb now last)) [
      | inl back ↦
          let counted = ap (λ s. s.regressions) (interval_after-back last now s (ground arith)) in
          ground arith
      | inr on ↦
          let ahead : last ≤ now = ground arith in
          let e = interval_after-on last now s ahead in
          let still : s.regressions ≡ 0 = sym (ap (λ s. s.regressions) e) ∙ none_back in
          rw (one_more, e)
            (AddsUp-after samples first last now (slot_of rate first) old slot s (omega arith) small
              (slot_of-lt rate now) ahead (slot_of_mono rate last now ahead)
              (before (omega arith) still))
    ]
