-- ===== src/Domain/Program/Compare/Total.antt =====
-- The comparison of a segment always answers: its fuel is enough on any input.
use jlink_mcp_v.Base.{
  ℕ, zero, suc, ◌+◌, ◌-◌, ◌≤◌, ◌≡◌, refl, false, inl, inr, Option, some, List, [], ◌∷◌, arith, ◌==◌,
  Bool-cases, length,
}
use jlink_mcp_v.Domain.Error.{new, Result, ok, err, value_invalid}
use jlink_mcp_v.Domain.Program.Compare.{
  Accumulator, skip_run, record_run, compare_loop, compare_segment,
}

abbrev pub Answers : Option (Result Accumulator) → Type 0
Answers o = (r : Result Accumulator) × (o ≡ some r)

-- What a run leaves is no longer than what it was given.
skip_run-length : (index : ℕ) (xs ys : List ℕ) → length (skip_run index xs ys).1 ≤ length xs
unfolding skip_run
skip_run-length index [] ys = omega arith
skip_run-length index (x ∷ xs) [] = omega arith
skip_run-length index (x ∷ xs) (y ∷ ys) = elim (Bool-cases (x == y)) [
  | inl same ↦ rw same (omega arith)
  | inr differ ↦ rw differ (omega (arith, skip_run-length (index + 1) xs ys))
]

-- A run that starts takes a byte at least.
skip_run-shorter :
    (index x y : ℕ) (xs ys : List ℕ)
    → (x == y) ≡ false
    → length (skip_run index (x ∷ xs) (y ∷ ys)).1 ≤ length xs
unfolding skip_run
skip_run-shorter index x y xs ys differ = rw differ (skip_run-length (index + 1) xs ys)

module _ (fuel address : ℕ)
    (ih : (index : ℕ) (xs ys : List ℕ) (acc : Accumulator)
      → length xs ≤ fuel
      → Answers (compare_loop fuel address index xs ys acc)) where
  recorded-Answers :
      (end : ℕ) (xs ys : List ℕ)
      → length xs ≤ fuel
      → (r : Result Accumulator)
      → Answers (elim r [
        | err failure ↦ some (err failure)
        | ok next ↦ compare_loop fuel address end xs ys next
      ])
  recorded-Answers end xs ys h (err e) = (err e, refl)
  recorded-Answers end xs ys h (ok next) = ih end xs ys next h

compare_loop-Answers :
    (fuel address index : ℕ) (xs ys : List ℕ) (acc : Accumulator)
    → length xs ≤ fuel
    → Answers (compare_loop fuel address index xs ys acc)
unfolding compare_loop
compare_loop-Answers fuel address index [] ys acc h = (ok acc, refl)
compare_loop-Answers fuel address index (x ∷ xs) [] acc h = (ok acc, refl)
compare_loop-Answers zero address index (x ∷ xs) (y ∷ ys) acc h = absurd (omega arith)
compare_loop-Answers (suc fuel) address index (x ∷ xs) (y ∷ ys) acc h = elim (Bool-cases (x == y)) [
  | inl same ↦ rw same (compare_loop-Answers fuel address (index + 1) xs ys acc (omega arith))
  | inr differ ↦
      let run = skip_run index (x ∷ xs) (y ∷ ys) in
      let left = skip_run-shorter index x y xs ys differ in
      rw differ (
        recorded-Answers fuel address (λ i us vs b k. compare_loop-Answers fuel address i us vs b k)
          run.0 run.1 run.2 (omega arith) (record_run address index (run.0 - index) acc))
]

-- Whatever the segment, the readback and the runs counted so far, the comparison answers.
pub compare_segment-Answers :
    (address : ℕ) (expected actual : List ℕ) (acc : Accumulator)
    → Answers (compare_segment address expected actual acc)
unfolding compare_segment
compare_segment-Answers address expected actual acc =
    elim (Bool-cases (length expected == length actual)) [
      | inl same ↦
          rw same
            (compare_loop-Answers (length expected) address 0 expected actual acc (omega arith))
      | inr other ↦ rw other (err (new value_invalid false), refl)
    ]
