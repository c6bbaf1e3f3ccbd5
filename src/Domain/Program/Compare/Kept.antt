-- ===== src/Domain/Program/Compare/Kept.antt =====
-- What the accumulator tells of a segment that was compared.
use jlink_mcp_v.Base.{
  ℕ, ◌+◌, ◌≤◌, ◌≡◌, refl, Bool, true, false, Option, none, some, List, [], ◌∷◌, length, arith,
}
use jlink_mcp_v.Domain.Program.Compare.{Accumulator}
use jlink_mcp_v.Domain.Program.Compare.Runs.{
  absorbed, keep_first, run_starts, first_run, first_run-none,
}

keep_first-none :
    (address n : ℕ) (first : Option ℕ) (run : Option (ℕ × ℕ))
    → (keep_first address first n run).0 ≡ none
    → (first ≡ none) × (run ≡ none)
unfolding keep_first
keep_first-none address n (some a) run h = cc
keep_first-none address n none none h = (refl, refl)
keep_first-none address n none (some (i, k)) h = cc

-- Without a run there was none before, and the segment is as expected.
pub absorbed-none :
    (address : ℕ) (expected actual : List ℕ) (acc : Accumulator)
    → length expected ≡ length actual
    → (absorbed address 0 expected actual acc).first_address ≡ none
    → (acc.first_address ≡ none) × (expected ≡ actual)
unfolding absorbed
absorbed-none address expected actual acc e h =
    let (before, run) =
      keep_first-none address acc.first_length acc.first_address (first_run 0 expected actual) h in
    (before, (first_run-none 0 expected actual e).0 run)

run_starts-le : (inside : Bool) (xs ys : List ℕ) → run_starts inside xs ys ≤ length xs
unfolding run_starts
run_starts-le inside [] ys = omega arith
run_starts-le inside (x ∷ xs) [] = omega arith
run_starts-le inside (x ∷ xs) (y ∷ ys) =
    ground (arith, run_starts-le false xs ys, run_starts-le true xs ys)

pub absorbed-total :
    (address : ℕ) (expected actual : List ℕ) (acc : Accumulator)
    → (absorbed address 0 expected actual acc).total_regions ≤ acc.total_regions + length expected
unfolding absorbed
absorbed-total address expected actual acc = omega (arith, run_starts-le false expected actual)

-- A segment that is as expected keeps the first run as it is.
pub absorbed-equal :
    (address : ℕ) (bytes : List ℕ) (acc : Accumulator)
    → acc.first_address ≡ none
    → (absorbed address 0 bytes bytes acc).first_address ≡ none
unfolding absorbed keep_first
absorbed-equal address bytes acc h =
    rw (absorbed, h, (first_run-none 0 bytes bytes refl).1 refl) refl
