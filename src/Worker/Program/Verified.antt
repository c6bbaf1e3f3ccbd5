-- ===== src/Worker/Program/Verified.antt =====
-- program.rs: verify_image passes exactly if the target reads back as the image.
use jlink_mcp_v.Base.{
  ℕ, ◌+◌, ◌≤◌, ◌<◌, ◌≡◌, ◌↔◌, refl, ap, ◌∙◌, sym, subst, false, Option, none, some, List, [], ◌∷◌,
  ◌==◌, ==_iff, Bool-cases, inl, inr, All, All-map, length, u64_mod, arith,
}
use jlink_mcp_v.Domain.Error.{new, Result, ok, err, value_invalid}
use jlink_mcp_v.Domain.Image.{FirmwareSegment}
use jlink_mcp_v.Domain.Image.Segments.{IsSegment, IsNormal}
use jlink_mcp_v.Domain.Image.Valid.{IsImageData}
use jlink_mcp_v.Domain.Program.Compare.{Accumulator, empty, compare_segment, finish}
use jlink_mcp_v.Domain.Program.Compare.Runs.{absorbed, compare_segment_lem}
use jlink_mcp_v.Domain.Program.Compare.Kept.{absorbed-none, absorbed-total, absorbed-equal}
use jlink_mcp_v.Worker.Gateway.{Gateway}
use jlink_mcp_v.Worker.Program.{Programmer, verdict, compare_read, verify_segments, verify_image}

-- How many bytes the segments hold.
abbrev size : List FirmwareSegment → ℕ
size [] = 0
size (s ∷ segments) = length s.bytes + size segments

-- Segments that ascend fit between the first address and the end of the address space.
size-bounded :
    (base : ℕ) (segments : List FirmwareSegment)
    → base < u64_mod
    → All (λ t. base ≤ t.address) segments
    → All IsSegment segments
    → IsNormal segments
    → base + size segments < u64_mod
size-bounded base [] small above valid normal = omega arith
size-bounded base (s ∷ segments) small above valid normal =
    let end = s.address + length s.bytes in
    let rest =
      size-bounded end segments (omega (arith, valid.0.bounded))
        (All-map _ _ (λ t h. omega arith) segments (normal.0)) (valid.1) (normal.1) in
    omega (arith, above.0, rest)

from_zero : (segments : List FirmwareSegment) → All (λ t. 0 ≤ t.address) segments
from_zero [] = tt
from_zero (s ∷ segments) = (omega arith, from_zero segments)

compare_segment-length :
    (address : ℕ) (expected actual : List ℕ) (acc : Accumulator)
    → (length expected == length actual) ≡ false
    → compare_segment address expected actual acc ≡ some (err (new value_invalid false))
unfolding compare_segment
compare_segment-length address expected actual acc h = rw (compare_segment, h) refl

module _ {G : Type 0} (gw : Gateway G) where
  -- The target gives every segment, one read after the other, from the first state to the second.
  pub data ReadsBack : List FirmwareSegment → G → G → Type 0 where
    all_read : {g : G} → ReadsBack [] g g
    one_read :
        {s : FirmwareSegment} {segments : List FirmwareSegment} {g g1 g2 : G}
        → gw.read_bytes s.address (length s.bytes) g ≡ (g1, ok s.bytes)
        → ReadsBack segments g1 g2
        → ReadsBack (s ∷ segments) g g2

  module _ (pg : Programmer G)
      (read_image : List ℕ → Option ℕ → Result (List FirmwareSegment)) where
    -- What a comparison that goes on adds, and what the next ones need.
    abbrev IsRoomy : List FirmwareSegment → Accumulator → Type 0
    IsRoomy segments acc = acc.total_regions + size segments < u64_mod

    compare_read-same :
        (s : FirmwareSegment) (acc : Accumulator) (rest : Accumulator → G → G × Result (Unit {0}))
        (g : G) (actual : List ℕ)
        → length s.bytes ≡ length actual
        → s.address + length s.bytes ≤ u64_mod
        → acc.total_regions + length s.bytes < u64_mod
        → compare_read gw pg read_image s acc rest (g, ok actual)
          ≡ rest (absorbed s.address 0 s.bytes actual acc) g
    compare_read-same s acc rest g actual e at room =
        rw (compare_segment_lem s.address s.bytes actual acc e at room) refl

    compare_read-length :
        (s : FirmwareSegment) (acc : Accumulator) (rest : Accumulator → G → G × Result (Unit {0}))
        (g : G) (actual : List ℕ)
        → (length s.bytes == length actual) ≡ false
        → compare_read gw pg read_image s acc rest (g, ok actual)
          ≡ (g, err (new value_invalid false))
    compare_read-length s acc rest g actual h =
        rw (compare_segment-length s.address s.bytes actual acc h) refl

    abbrev Passed : List FirmwareSegment → Accumulator → G → G → Type 0
    Passed segments acc g g' = (acc.first_address ≡ none) × ReadsBack segments g g'

    verdict-none : (acc : Accumulator) → verdict (finish acc) ≡ ok tt → acc.first_address ≡ none
    unfolding finish
    verdict-none acc h = checked acc.first_address refl
      where
        checked : (o : Option ℕ) → acc.first_address ≡ o → acc.first_address ≡ none
        checked none e = e
        checked (some a) e = absurd (cc (rw e at h))

    -- What was read of one segment, when the rest passes on it.
    passed_one :
        (s : FirmwareSegment) (segments : List FirmwareSegment) (acc : Accumulator) (g g' : G)
        → ((next : Accumulator) (g1 : G)
            → IsRoomy segments next
            → verify_segments gw pg read_image segments next g1 ≡ (g', ok tt)
            → Passed segments next g1 g')
        → s.address + length s.bytes ≤ u64_mod
        → IsRoomy (s ∷ segments) acc
        → (p : G × Result (List ℕ)) → gw.read_bytes s.address (length s.bytes) g ≡ p
        → compare_read gw pg read_image s acc (verify_segments gw pg read_image segments) p
          ≡ (g', ok tt)
        → Passed (s ∷ segments) acc g g'
    passed_one s segments acc g g' later at room (g1, err e) read h = absurd (cc (ap (λ x. x.1) h))
    passed_one s segments acc g g' later at room (g1, ok actual) read h =
        elim (Bool-cases (length s.bytes == length actual)) [
          | inr differ ↦ absurd (
              cc (
                ap (λ x. x.1)
                  (sym (
                      compare_read-length s acc (verify_segments gw pg read_image segments) g1
                        actual differ)
                    ∙ h)))
          | inl same ↦
              let long = (==_iff (length s.bytes) (length actual)).0 same in
              let next = absorbed s.address 0 s.bytes actual acc in
              let on =
                compare_read-same s acc (verify_segments gw pg read_image segments) g1 actual long
                  at (omega (arith, room)) in
              let (none_later, rest) =
                later next g1 (omega (arith, room, absorbed-total s.address s.bytes actual acc))
                  (sym on ∙ h) in
              let (none_before, equal) =
                absorbed-none s.address s.bytes actual acc long none_later in
              (none_before, one_read (read ∙ ap (λ b. (g1, ok b)) (sym equal)) rest)
        ]

    passed :
        (segments : List FirmwareSegment) (acc : Accumulator) (g g' : G)
        → All IsSegment segments
        → IsRoomy segments acc
        → verify_segments gw pg read_image segments acc g ≡ (g', ok tt)
        → Passed segments acc g g'
    unfolding verify_segments
    passed [] acc g g' valid room h =
        let here : g ≡ g' = ap (λ x. x.0) h in
        (verdict-none acc (ap (λ x. x.1) h), subst (ReadsBack [] g) here all_read)
    passed (s ∷ segments) acc g g' valid room h =
        passed_one s segments acc g g'
          (λ next g1 room' h'. passed segments next g1 g' (valid.1) room' h')
          (omega (arith, valid.0.bounded)) room (gw.read_bytes s.address (length s.bytes) g) refl h

    read_back :
        (segments : List FirmwareSegment) (acc : Accumulator) (g g' : G)
        → All IsSegment segments
        → IsRoomy segments acc
        → acc.first_address ≡ none
        → ReadsBack segments g g'
        → verify_segments gw pg read_image segments acc g ≡ (g', ok tt)
    unfolding verify_segments finish
    read_back [] acc g _ valid room none_before all_read =
        rw (verify_segments, finish, none_before) refl
    read_back (s ∷ segments) acc g g' valid room none_before (one_read {g1 = g1} read rest) =
        let next = absorbed s.address 0 s.bytes s.bytes acc in
        ap (compare_read gw pg read_image s acc (verify_segments gw pg read_image segments)) read
        ∙ compare_read-same s acc (verify_segments gw pg read_image segments) g1 s.bytes refl
            (omega (arith, valid.0.bounded)) (omega (arith, room))
        ∙ read_back segments next g1 g' (valid.1)
            (omega (arith, room, absorbed-total s.address s.bytes s.bytes acc))
            (absorbed-equal s.address s.bytes acc none_before) rest

    -- Verifying an image passes exactly if the target reads back as the image: the segments of the image
    -- being valid, ascending and apart, every read of a segment gives its bytes, one read after the
    -- other.
    pub verify_image_iff :
        (segments : List FirmwareSegment) (g g' : G)
        → IsImageData segments
        → (verify_image gw pg read_image segments g ≡ (g', ok tt)) ↔ ReadsBack segments g g'
    unfolding verify_image
    verify_image_iff segments g g' (valid, normal) =
        let room : IsRoomy segments empty =
          omega (arith, size-bounded 0 segments (omega arith) (from_zero segments) valid normal) in
        (
          λ h. (passed segments empty g g' valid room h).1,
          λ h. read_back segments empty g g' valid room refl h,
        )
