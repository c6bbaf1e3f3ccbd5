-- ===== src/Base/Radix.antt =====
-- Digits of a number in a base, the last one last, and that they are the number's.
use jlink_mcp_v.Base.{
  ℕ, zero, suc, ◌+◌, ◌*◌, ◌/◌, ◌%◌, ◌≤◌, ◌<◌, ◌≡◌, refl, List, [], ◌∷◌, ◌++◌, inl, inr,
  if◌then◌else◌, ltb, Bool-cases, All, All-append, length, arith,
}
use native.Mathlib.Nat.{div-lt_self, div-add-mod', mod-lt}

-- n / base < n, so n steps are enough for n.
abbrev pub digits : ℕ → ℕ → ℕ → List ℕ
digits base zero n = n ∷ []
digits base (suc fuel) n =
    let front = digits base fuel (n / base) in
    if ltb n base then n ∷ [] else front ++ (n % base ∷ [])

abbrev pub value : ℕ → ℕ → List ℕ → ℕ
value base acc [] = acc
value base acc (d ∷ ds) = value base (acc * base + d) ds

value-append :
    (base acc d : ℕ) (ds : List ℕ) → value base acc (ds ++ (d ∷ [])) ≡ value base acc ds * base + d
value-append base acc d [] = refl
value-append base acc d (x ∷ xs) = value-append base (acc * base + x) d xs

shrinks : (base fuel n : ℕ) → 1 < base → n ≤ suc fuel → base ≤ n → n / base ≤ fuel
shrinks base fuel n b h large =
    let smaller : n / base < n = div-lt_self {n = n} {k = base} (omega arith) b in omega arith

pub value-digits : (base fuel n : ℕ) → 1 < base → n ≤ fuel → value base 0 (digits base fuel n) ≡ n
value-digits base zero n b h = omega arith
value-digits base (suc fuel) n b h = elim (Bool-cases (ltb n base)) [
  | inl small ↦ rw small (omega arith)
  | inr large ↦
      rw
        (
          large,
          value-append base 0 (n % base) (digits base fuel (n / base)),
          value-digits base fuel (n / base) b (shrinks base fuel n b h (ground arith)),
        )
        (div-add-mod' n base)
]

pub digits-lt : (base fuel n : ℕ) → 1 < base → n ≤ fuel → All (λ d. d < base) (digits base fuel n)
digits-lt base zero n b h = omega arith
digits-lt base (suc fuel) n b h = elim (Bool-cases (ltb n base)) [
  | inl small ↦ rw small (ground arith, tt)
  | inr large ↦ rw large (
      All-append (λ d. d < base) (digits base fuel (n / base)) (n % base ∷ [])
        (digits-lt base fuel (n / base) b (shrinks base fuel n b h (ground arith)))
        (mod-lt n (omega arith), tt))
]

append-nonempty : (xs : List ℕ) (d : ℕ) → 0 < length (xs ++ (d ∷ []))
append-nonempty [] d = omega arith
append-nonempty (x ∷ xs) d = omega arith

pub digits-nonempty : (base fuel n : ℕ) → 0 < length (digits base fuel n)
digits-nonempty base zero n = omega arith
digits-nonempty base (suc fuel) n = elim (Bool-cases (ltb n base)) [
  | inl small ↦ rw small (omega arith)
  | inr large ↦ rw large (append-nonempty (digits base fuel (n / base)) (n % base))
]
