-- ===== src/Domain/TypedValue/Numbers/Signs.antt =====
-- crates/jlink-domain/src/typed_value.rs: sign_extend and signed_to_raw as two's complement.
use jlink_mcp_v.Base.{
  ℕ, zero, suc, ◌-◌, ◌*◌, ◌/◌, ◌%◌, ◌^◌, ◌<◌, ◌≤◌, ◌≡◌, ap, sym, List, if◌then◌else◌, ltb, ltb→lt,
  ◌==◌, arith, inl, inr, Bool-cases, ==_iff,
}
use native.Mathlib.Nat.{
  pow-suc, pow-le-pow_right, mod-eq_of_lt, one-le-pow, div-eq_of_lt, div-eq_of_lt-le,
}
use jlink_mcp_v.Base.Int.{ℤ, pos, negsuc}
use jlink_mcp_v.Domain.Error.{ok}
use jlink_mcp_v.Domain.TypedValue.Bits.Storage.{bit_mask-eq}
use jlink_mcp_v.Domain.TypedValue.Numbers.{sign_extend, signed_to_raw, magnitude}

-- The number that a pattern of bits stands for; `half` is the value of the highest bit.
abbrev pub to_signed : ℕ → ℕ → ℤ
to_signed half raw = if ltb raw half then pos raw else negsuc (2 * half - raw - 1)

pub double : (bits : ℕ) → 0 < bits → 2 ^ bits ≡ 2 * 2 ^ (bits - 1)
double zero h = absurd (omega arith)
double (suc n) h =
    let same : suc n - 1 ≡ n = omega arith in omega (arith, pow-suc 2 n, ap (λ k. 2 ^ k) same)

top_bit : (half raw : ℕ) → 0 < half → half ≤ raw → raw < 2 * half → raw / half ≡ 1
top_bit half raw h l u = div-eq_of_lt-le {k = 1} half {m = raw} (omega arith) (omega arith)

-- Both halves of the patterns, by their highest bit.
high_bit : (half raw : ℕ) → 0 < half → raw < 2 * half → (raw / half % 2 == 0) ≡ ltb raw half
high_bit half raw h fits = elim (Bool-cases (ltb raw half)) [
  | inl low ↦ rw (div-eq_of_lt {n = raw} {m = half} (ltb→lt raw half low)) (sym low)
  | inr high ↦ rw (top_bit half raw h (ground arith) fits) (sym high)
]

module _ (bits raw : ℕ) (path : List ℕ) (some_bits : 0 < bits) (small : bits ≤ 64)
    (fits : raw < 2 ^ bits) where
  pub sign_extend-eq : sign_extend raw bits path ≡ ok (to_signed (2 ^ (bits - 1)) raw)
  unfolding sign_extend
  sign_extend-eq =
      let two = double bits some_bits in
      let half_pos : 0 < 2 ^ (bits - 1) = one-le-pow (bits - 1) 2 (omega arith) in
      rw
        (
          bit_mask-eq bits path some_bits small,
          high_bit (2 ^ (bits - 1)) raw half_pos (omega arith),
          mod-eq_of_lt {n = raw} {m = 2 ^ bits} fits,
        )
        (elim (Bool-cases (bits == 64)) [
          | inl wide ↦
              let full : bits ≡ 64 = (==_iff bits 64).0 wide in
              let power : 2 ^ bits ≡ 2 ^ 64 = ap (λ k. 2 ^ k) full in rw wide (ground arith)
          | inr narrow ↦
              let power : 2 ^ bits ≤ 2 ^ 63 =
                pow-le-pow_right {n = 2} (omega arith) (let e : bits ≤ 63 = ground arith in e) in
              rw narrow (ground arith)
        ])

  pub magnitude-to_signed : magnitude (to_signed (2 ^ (bits - 1)) raw) < 2 ^ (bits - 1)
  magnitude-to_signed = let two = double bits some_bits in ground arith

  pub signed_to_raw-to_signed : signed_to_raw (to_signed (2 ^ (bits - 1)) raw) bits path ≡ ok raw
  unfolding signed_to_raw
  signed_to_raw-to_signed =
      let two = double bits some_bits in
      let bound : 2 ^ bits ≤ 2 ^ 64 = pow-le-pow_right {n = 2} (omega arith) small in ground arith

-- A number in range is stored as the pattern that stands for it.
pub signed_to_raw-pattern :
    (z : ℤ) (bits : ℕ) (path : List ℕ) {raw : ℕ}
    → 0 < bits
    → magnitude z < 2 ^ (bits - 1)
    → signed_to_raw z bits path ≡ ok raw
    → (raw < 2 ^ bits) × (to_signed (2 ^ (bits - 1)) raw ≡ z) × (raw < 2 ^ 64)
unfolding signed_to_raw
signed_to_raw-pattern (pos n) bits path b h e = let two = double bits b in ground arith
signed_to_raw-pattern (negsuc n) bits path b h e = let two = double bits b in ground arith
