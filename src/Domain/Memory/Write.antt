-- ===== src/Domain/Memory/Write.antt =====
-- crates/jlink-domain/src/memory.rs: the count that a write returned, and its readback.
use jlink_mcp_v.Base.{
  ℕ, suc, ◌+◌, ◌≤◌, ◌<◌, ◌^◌, ◌≡◌, ◌≢◌, refl, ap, ap₂, ◌∙◌, Bool, false, ◌⊎◌, inl, inr, Option,
  none, some, List, [], ◌∷◌, arith, leb, ◌==◌, if◌then◌else◌, take, length, get_elem?, Bool-cases,
  ==_iff, u64_mod, checked_add,
}
pub use jlink_mcp_v.Base.Int.{ℤ, pos, negsuc}
use jlink_mcp_v.Domain.Error.{
  JlinkError, new, with_detail, num, Result, ok, err, ◌>>=◌, ok_or, value_invalid,
  execution_uncertain, verify_failed,
}
use jlink_mcp_v.Domain.Memory.{address_error}

abbrev short_write : ℕ → ℕ → JlinkError
short_write address requested =
    with_detail (with_detail (new execution_uncertain false) "address" (num address))
      "requested_length" (num requested)

count_matches : ℕ → ℤ → Bool
count_matches requested (pos n) = n == requested
count_matches requested (negsuc n) = false

with_result : JlinkError → ℤ → JlinkError
with_result e (pos n) = with_detail e "actual_length" (num n)
with_result e (negsuc n) = with_detail e "minus_dll_result" (num (suc n))

unfoldable pub validate_write_count : ℕ → ℕ → ℤ → Result (Unit {0})
unfolding count_matches with_result
validate_write_count address requested actual =
    if leb (2 ^ 31) requested
    then err (new value_invalid false)
    else if count_matches requested actual
    then ok tt
    else err (with_result (short_write address requested) actual)

-- The first differing offset of two slices of one length, with its two bytes.
first_difference : ℕ → List ℕ → List ℕ → Option (ℕ × ℕ × ℕ)
first_difference offset [] ys = none
first_difference offset (x ∷ xs) [] = none
first_difference offset (x ∷ xs) (y ∷ ys) =
    if x == y then first_difference (offset + 1) xs ys else some (offset, x, y)

abbrev pub readback_mismatch : ℕ → ℕ → ℕ → JlinkError
readback_mismatch first_address expected actual =
    with_detail
      (with_detail (with_detail (new verify_failed false) "first_address" (num first_address))
        "expected" (num expected))
      "actual" (num actual)

abbrev pub readback_incomplete : ℕ → ℕ → JlinkError
readback_incomplete requested actual =
    with_detail (with_detail (new verify_failed false) "requested_length" (num requested))
      "actual_length" (num actual)

unfoldable pub verify_memory_readback : ℕ → List ℕ → List ℕ → Result (Unit {0})
unfolding first_difference
verify_memory_readback address expected actual =
    if length expected == length actual
    then elim (first_difference 0 expected actual) [
      | none ↦ ok tt
      | some (offset, e, a) ↦ do
        first_address ← ok_or (checked_add address offset) address_error
        err (readback_mismatch first_address e a)
    ]
    else err (readback_incomplete (length expected) (length actual))

-- Where two slices of one length first differ.
pub record FirstDifference (xs ys : List ℕ) : Type 0 where
  pub at : ℕ
  pub left : ℕ
  pub right : ℕ
  pub left_here : get_elem? xs at ≡ some left
  pub right_here : get_elem? ys at ≡ some right
  pub differ : left ≢ right
  pub agree : take at xs ≡ take at ys

first_difference-cases :
    (offset : ℕ) (xs ys : List ℕ)
    → length xs ≡ length ys
    → ((xs ≡ ys) × (first_difference offset xs ys ≡ none))
      ⊎ ((d : FirstDifference xs ys) × (first_difference offset xs ys
            ≡ some (offset + d.at, d.left, d.right))
          × (d.at < length xs))
unfolding first_difference
first_difference-cases offset [] [] h = inl (refl, refl)
first_difference-cases offset [] (y ∷ ys) h = absurd (omega arith)
first_difference-cases offset (x ∷ xs) [] h = absurd (omega arith)
first_difference-cases offset (x ∷ xs) (y ∷ ys) h = elim (Bool-cases (x == y)) [
  | inr differs ↦ inr (
    record {
      at = 0;
      left = x;
      right = y;
      left_here = refl;
      right_here = refl;
      differ = ground arith;
      agree = refl;
    },
    rw differs (ap (λ n. some (n, x, y)) (omega arith)),
    omega arith,
  )
  | inl same ↦ elim (first_difference-cases (offset + 1) xs ys (omega arith)) [
    | inl (e, found) ↦ inl (ap₂ ◌∷◌ ((==_iff x y).0 same) e, rw same found)
    | inr (d, found, inside) ↦ inr (
      record {
        at = suc d.at;
        left = d.left;
        right = d.right;
        left_here = d.left_here;
        right_here = d.right_here;
        differ = d.differ;
        agree = ap₂ ◌∷◌ ((==_iff x y).0 same) d.agree;
      },
      rw same (found ∙ ap (λ n. some (n, d.left, d.right)) (omega arith)),
      omega arith,
    )
  ]
]

-- A readback of a written range that ends below 2^64 is accepted exactly when it equals the bytes
-- written; one of another length fails verification, and one of the same length fails with the
-- address of the first differing byte and its two values.
pub verify_memory_readback_cases :
    (address : ℕ) (expected actual : List ℕ)
    → address + length expected ≤ u64_mod
    → ((expected ≡ actual) × (verify_memory_readback address expected actual ≡ ok tt))
      ⊎ ((length expected ≢ length actual)
          × (verify_memory_readback address expected actual
              ≡ err (readback_incomplete (length expected) (length actual))))
      ⊎ ((d : FirstDifference expected actual) × (verify_memory_readback address expected actual
            ≡ err (readback_mismatch (address + d.at) d.left d.right)))
unfolding verify_memory_readback
verify_memory_readback_cases address expected actual bound =
    elim (Bool-cases (length expected == length actual)) [
      | inr other ↦ inr (inl (ground arith, rw other refl))
      | inl same ↦ elim (first_difference-cases 0 expected actual ((==_iff _ _).0 same)) [
        | inl (e, found) ↦ inl (e, rw (same, found))
        | inr (d, found, inside) ↦ inr (inr (d, rw (same, found) (ground arith)))
      ]
    ]
