-- ===== src/Domain/Program/Compare.antt =====
-- program.rs: VerifyMismatchAccumulator, which compares an image with target readbacks.
pub mod Runs
pub mod Kept
pub mod Total
use mathlib.Core.Path.{ap₂}
use jlink_mcp_v.Base.{
  ℕ, zero, suc, ◌+◌, ◌-◌, ◌≤◌, ◌<◌, ◌≡◌, ◌≢◌, ◌↔◌, refl, ap, sym, ◌∙◌, Bool, true, false, ◌⊎◌, inl,
  inr, Option, none, some, List, [], ◌∷◌, arith, ltb, ◌==◌, ==_iff, ==_refl, if◌then◌else◌,
  Bool-cases, checked_add, u64_mod, length, drop, length-drop,
}
use jlink_mcp_v.Domain.Error.{
  JlinkError, new, with_detail, num, Result, ok, err, ◌>>=◌, ok_or, value_invalid, verify_failed,
}

pub record Accumulator : Type 0 where
  pub first_address : Option ℕ
  pub first_length : ℕ
  pub total_regions : ℕ

abbrev pub empty : Accumulator
empty = record { first_address = none; first_length = 0; total_regions = 0 }

pub record VerifyMismatch : Type 0 where
  pub first_address : ℕ
  pub first_length : ℕ
  pub total_regions : ℕ

abbrev pub into_error : VerifyMismatch → JlinkError
into_error m =
    with_detail
      (with_detail (with_detail (new verify_failed false) "first_address" (num m.first_address))
        "first_length" (num m.first_length))
      "total_regions" (num m.total_regions)

abbrev pub mismatch_address_error : JlinkError
mismatch_address_error = new value_invalid false

-- The inner loop: the index behind a run of differing bytes, with what is left of both slices.
skip_run : ℕ → List ℕ → List ℕ → ℕ × List ℕ × List ℕ
skip_run index [] actual = (index, [], actual)
skip_run index (e ∷ es) [] = (index, e ∷ es, [])
skip_run index (e ∷ es) (a ∷ as') =
    if e == a then (index, e ∷ es, a ∷ as') else skip_run (index + 1) es as'

-- `if self.first_address.is_none()`
note_first : Option ℕ → ℕ → ℕ → Accumulator → Accumulator
note_first none run_address run_length acc = record acc {
  first_address = some run_address;
  first_length = run_length;
}
note_first (some _) run_address run_length acc = acc

-- What the outer loop does with a run that starts at the index `start`.
record_run : ℕ → ℕ → ℕ → Accumulator → Result Accumulator
unfolding note_first
record_run address start run_length acc = do
  run_address ← ok_or (checked_add address start) mismatch_address_error
  total ← ok_or (checked_add acc.total_regions 1) mismatch_address_error
  ok (note_first acc.first_address run_address run_length (record acc { total_regions = total }))

-- The outer loop from `index` on, over what is left of both slices; `none` when the fuel runs out.
compare_loop : ℕ → ℕ → ℕ → List ℕ → List ℕ → Accumulator → Option (Result Accumulator)
compare_loop fuel address index [] actual acc = some (ok acc)
compare_loop fuel address index (e ∷ es) [] acc = some (ok acc)
compare_loop zero address index (e ∷ es) (a ∷ as') acc = none
compare_loop (suc fuel) address index (e ∷ es) (a ∷ as') acc =
    let matched = compare_loop fuel address (index + 1) es as' acc in
    let (end, es', rest) = skip_run index (e ∷ es) (a ∷ as') in
    if e == a then matched else elim (record_run address index (end - index) acc) [
      | err failure ↦ some (err failure)
      | ok next ↦ compare_loop fuel address end es' rest next
    ]

unfoldable pub compare_segment : ℕ → List ℕ → List ℕ → Accumulator → Option (Result Accumulator)
unfolding compare_loop skip_run record_run
compare_segment address expected actual acc =
    if length expected == length actual
    then compare_loop (length expected) address 0 expected actual acc
    else some (err (new value_invalid false))

finish_with : Option ℕ → Accumulator → Option VerifyMismatch
finish_with none acc = none
finish_with (some first) acc = some (record {
  first_address = first;
  first_length = acc.first_length;
  total_regions = acc.total_regions;
})

unfoldable pub finish : Accumulator → Option VerifyMismatch
unfolding finish_with
finish acc = finish_with acc.first_address acc
