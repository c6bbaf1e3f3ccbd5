-- ===== src/Domain/Program/Compare/Runs.antt =====
-- The comparison counts the maximal runs of differing bytes and keeps the first.
use mathlib.Core.Path.{ap₂}
use jlink_mcp_v.Base.{
  ℕ, zero, suc, ◌+◌, ◌-◌, ◌≤◌, ◌<◌, ◌≡◌, ◌↔◌, refl, ap, sym, ◌∙◌, Bool, true, false, inl, inr,
  Option, none, some, List, [], ◌∷◌, arith, ◌==◌, ==_iff, if◌then◌else◌, Bool-cases, u64_mod,
  length, drop, length-drop,
}
use jlink_mcp_v.Domain.Error.{ok}
use jlink_mcp_v.Domain.Program.Compare.{
  Accumulator, empty, skip_run, note_first, record_run, compare_loop, compare_segment, finish,
}

-- How many positions differ of which the one before does not: `inside` tells of the one before.
unfoldable pub run_starts : Bool → List ℕ → List ℕ → ℕ
run_starts inside [] ys = 0
run_starts inside (x ∷ xs) [] = 0
run_starts inside (x ∷ xs) (y ∷ ys) =
    if x == y then run_starts false xs ys else (if inside then 0 else 1) + run_starts true xs ys

-- How many bytes differ from the start on.
pub leading : List ℕ → List ℕ → ℕ
leading [] ys = 0
leading (x ∷ xs) [] = 0
leading (x ∷ xs) (y ∷ ys) = if x == y then 0 else suc (leading xs ys)

-- The first differing position with the length of its run.
pub first_run : ℕ → List ℕ → List ℕ → Option (ℕ × ℕ)
unfolding leading
first_run i [] ys = none
first_run i (x ∷ xs) [] = none
first_run i (x ∷ xs) (y ∷ ys) =
    if x == y then first_run (i + 1) xs ys else some (i, leading (x ∷ xs) (y ∷ ys))

skip_run-leading :
    (i : ℕ) (xs ys : List ℕ)
    → skip_run i xs ys ≡ (i + leading xs ys, drop (leading xs ys) xs, drop (leading xs ys) ys)
unfolding skip_run leading
skip_run-leading i [] ys = ap (λ n. (n, [], ys)) (omega arith)
skip_run-leading i (x ∷ xs) [] = ap (λ n. (n, x ∷ xs, [])) (omega arith)
skip_run-leading i (x ∷ xs) (y ∷ ys) = elim (Bool-cases (x == y)) [
  | inl same ↦ rw same (ap (λ n. (n, x ∷ xs, y ∷ ys)) (omega arith))
  | inr differ ↦ rw differ (
      skip_run-leading (i + 1) xs ys
      ∙ ap (λ n. (n, drop (leading xs ys) xs, drop (leading xs ys) ys)) (omega arith))
]

run_starts-leading :
    (xs ys : List ℕ)
    → run_starts true xs ys ≡ run_starts false (drop (leading xs ys) xs) (drop (leading xs ys) ys)
unfolding run_starts leading
run_starts-leading [] ys = refl
run_starts-leading (x ∷ xs) [] = refl
run_starts-leading (x ∷ xs) (y ∷ ys) = elim (Bool-cases (x == y)) [
  | inl same ↦ rw same (rw same refl)
  | inr differ ↦ rw differ (omega (arith, run_starts-leading xs ys))
]

length-leading : (xs ys : List ℕ) → leading xs ys ≤ length xs
unfolding leading
length-leading [] ys = omega arith
length-leading (x ∷ xs) [] = omega arith
length-leading (x ∷ xs) (y ∷ ys) = ground (arith, length-leading xs ys)

-- The first address, with its length, after a first run was met.
unfoldable pub keep_first : ℕ → Option ℕ → ℕ → Option (ℕ × ℕ) → Option ℕ × ℕ
keep_first address (some first) n run = (some first, n)
keep_first address none n none = (none, n)
keep_first address none n (some (i, k)) = (some (address + i), k)

-- The accumulator after a segment: the first run is kept if there was none, and all are counted.
unfoldable pub absorbed : ℕ → ℕ → List ℕ → List ℕ → Accumulator → Accumulator
absorbed address i xs ys acc = record {
  first_address = (keep_first address acc.first_address acc.first_length (first_run i xs ys)).0;
  first_length = (keep_first address acc.first_address acc.first_length (first_run i xs ys)).1;
  total_regions = acc.total_regions + run_starts false xs ys;
}

absorbed-nothing :
    (address i : ℕ) (acc : Accumulator) (ys : List ℕ) → absorbed address i [] ys acc ≡ acc
unfolding absorbed keep_first first_run run_starts
absorbed-nothing address i acc ys = ground arith

absorbed-same :
    (address i x y : ℕ) (xs ys : List ℕ) (acc : Accumulator)
    → (x == y) ≡ true
    → absorbed address i (x ∷ xs) (y ∷ ys) acc ≡ absorbed address (i + 1) xs ys acc
unfolding absorbed first_run run_starts
absorbed-same address i x y xs ys acc same = rw same

-- The accumulator after one run.
abbrev after_run : ℕ → ℕ → ℕ → Accumulator → Accumulator
after_run address start n acc =
    note_first acc.first_address (address + start) n
      (record acc { total_regions = acc.total_regions + 1 })

record_run_lem :
    (address start n : ℕ) (acc : Accumulator)
    → address + start < u64_mod
    → acc.total_regions + 1 < u64_mod
    → record_run address start n acc ≡ ok (after_run address start n acc)
unfolding record_run
record_run_lem address start n acc h k = ground arith

after_run-total :
    (address start n : ℕ) (acc : Accumulator)
    → (after_run address start n acc).total_regions ≡ acc.total_regions + 1
unfolding note_first
after_run-total address start n acc = ground arith

absorbed-run :
    (address i x y : ℕ) (xs ys : List ℕ) (acc : Accumulator)
    → (x == y) ≡ false
    → let n = leading (x ∷ xs) (y ∷ ys) in
      absorbed address (i + n) (drop n (x ∷ xs)) (drop n (y ∷ ys)) (after_run address i n acc)
      ≡ absorbed address i (x ∷ xs) (y ∷ ys) acc
unfolding absorbed first_run run_starts note_first keep_first leading
absorbed-run address i x y xs ys acc differ = rw differ (ground (arith, run_starts-leading xs ys))

length-drop-leading :
    (x y : ℕ) (xs ys : List ℕ)
    → (x == y) ≡ false
    → let n = leading (x ∷ xs) (y ∷ ys) in
      (length (drop n (x ∷ xs)) ≤ length xs) × (n + length (drop n (x ∷ xs)) ≡ suc (length xs))
unfolding leading
length-drop-leading x y xs ys differ = rw differ (
  omega (arith, length-leading xs ys, length-drop (leading xs ys) xs),
  omega (arith, length-leading xs ys, length-drop (leading xs ys) xs),
)

run_starts-le : (inside : Bool) (xs ys : List ℕ) → run_starts inside xs ys ≤ length xs
unfolding run_starts
run_starts-le inside [] ys = omega arith
run_starts-le inside (x ∷ xs) [] = omega arith
run_starts-le inside (x ∷ xs) (y ∷ ys) =
    ground (arith, run_starts-le false xs ys, run_starts-le true xs ys)

compare_loop_lem :
    (fuel address i : ℕ) (xs ys : List ℕ) (acc : Accumulator)
    → length xs ≡ length ys
    → length xs ≤ fuel
    → address + i + length xs ≤ u64_mod
    → acc.total_regions + length xs < u64_mod
    → compare_loop fuel address i xs ys acc ≡ some (ok (absorbed address i xs ys acc))
unfolding compare_loop
compare_loop_lem fuel address i [] ys acc e f a t =
    ap (λ r. some (ok r)) (sym (absorbed-nothing address i acc ys))
compare_loop_lem fuel address i (x ∷ xs) [] acc e f a t = absurd (omega arith)
compare_loop_lem zero address i (x ∷ xs) (y ∷ ys) acc e f a t = absurd (omega arith)
compare_loop_lem (suc fuel) address i (x ∷ xs) (y ∷ ys) acc e f a t = elim (Bool-cases (x == y)) [
  | inl same ↦ rw same (
      compare_loop_lem fuel address (i + 1) xs ys acc (omega arith) (omega arith) (omega arith)
        (omega arith)
      ∙ ap (λ r. some (ok r)) (sym (absorbed-same address i x y xs ys acc same)))
  | inr differ ↦
      let n = leading (x ∷ xs) (y ∷ ys) in
      let left = length-drop-leading x y xs ys differ in
      let right = length-drop n (y ∷ ys) in
      let next = after_run address i n acc in
      let width : i + n - i ≡ n = omega arith in
      rw
        (
          differ,
          skip_run-leading i (x ∷ xs) (y ∷ ys),
          width,
          record_run_lem address i n acc (omega arith) (omega arith),
          skip_run-leading i (x ∷ xs) (y ∷ ys),
        )
        (compare_loop_lem fuel address (i + n) (drop n (x ∷ xs)) (drop n (y ∷ ys)) next
            (omega (arith, length-drop n (x ∷ xs), right)) (omega (arith, left.0))
            (omega (arith, left.1)) (omega (arith, left.0, after_run-total address i n acc))
          ∙ ap (λ r. some (ok r)) (absorbed-run address i x y xs ys acc differ))
]

-- Two segments of one length that ends at or below 2^64 are compared to the end: every maximal run
-- of differing bytes is counted, and the first one is kept, with its address and its length, if no
-- run was kept before.
pub compare_segment_lem :
    (address : ℕ) (expected actual : List ℕ) (acc : Accumulator)
    → length expected ≡ length actual
    → address + length expected ≤ u64_mod
    → acc.total_regions + length expected < u64_mod
    → compare_segment address expected actual acc
      ≡ some (ok (absorbed address 0 expected actual acc))
unfolding compare_segment
compare_segment_lem address expected actual acc e a t =
    rw ((==_iff (length expected) (length actual)).1 e) (
      compare_loop_lem (length expected) address 0 expected actual acc e (omega arith) (omega arith)
        (omega arith))

pub first_run-none :
    (i : ℕ) (xs ys : List ℕ) → length xs ≡ length ys → (first_run i xs ys ≡ none) ↔ (xs ≡ ys)
unfolding first_run
first_run-none i [] [] e = (λ _. refl, λ _. refl)
first_run-none i [] (y ∷ ys) e = absurd (omega arith)
first_run-none i (x ∷ xs) [] e = absurd (omega arith)
first_run-none i (x ∷ xs) (y ∷ ys) e = elim (Bool-cases (x == y)) [
  | inl same ↦ (
    λ h.
        ap₂ ◌∷◌ ((==_iff x y).0 same)
          ((first_run-none (i + 1) xs ys (omega arith)).0 (rw same at h)),
    λ h. rw same ((first_run-none (i + 1) xs ys (omega arith)).1 (cc h)),
  )
  | inr differ ↦ (
    λ h. absurd (cc (rw differ at h)),
    λ h. let heads : x ≡ y = cc h in absurd (cc (sym ((==_iff x y).1 heads) ∙ differ)),
  )
]

-- A fresh comparison of two segments reports no mismatch exactly if they are equal.
pub compare_segment-finish :
    (address : ℕ) (expected actual : List ℕ) (acc : Accumulator)
    → length expected ≡ length actual
    → address + length expected ≤ u64_mod
    → length expected < u64_mod
    → compare_segment address expected actual empty ≡ some (ok acc)
    → (finish acc ≡ none) ↔ (expected ≡ actual)
unfolding finish absorbed keep_first
compare_segment-finish address expected actual acc e a t h =
    let same : absorbed address 0 expected actual empty ≡ acc =
      cc (sym (compare_segment_lem address expected actual empty e a (omega arith)) ∙ h) in
    let first = first_run-none 0 expected actual e in
    rw (← same) (λ q. first.0 (ground arith), λ q. ground (arith, first.1 q))
