-- ===== src/Domain/TypedValue/Bits/Fields.antt =====
-- crates/jlink-domain/src/typed_value.rs: a bit-field that is replaced, and the bits around it.
use jlink_mcp_v.Base.{
  ℕ, zero, suc, ◌+◌, ◌*◌, ◌/◌, ◌%◌, ◌^◌, ◌<◌, ◌≤◌, ◌≡◌, ap, subst, ◌-◌, ◌∙◌, sym, arith,
}
use native.Mathlib.Nat.{
  mod-add-div', mod-lt, add-mul-div_right, add-mul-mod_self_right, mod-eq_of_lt, div-eq_of_lt,
  one-le-pow, mul_assoc, pow-suc, add-zero, zero-add, add-suc, mul-one, div-lt_iff_lt-mul,
}
use jlink_mcp_v.Domain.TypedValue.Bits.{get_bits, put_bits}

below : {a b : ℕ} (k h l v : ℕ) → v < b → l < a → h < k → l + (v + h * b) * a < k * b * a
below {a} {b} k h l v vb la hk = let rows : v + h * b < k * b = grind arith in grind arith

-- A number is cut at `a` and at `a * b`; `p` and `q` stand for the powers of two.
module _ (a b : ℕ) (pos_a : 0 < a) (pos_b : 0 < b) where
  abbrev put : ℕ → ℕ → ℕ
  put x v = x % a + v * a + x / a / b * b * a

  regroup : (l v h : ℕ) → l + v * a + h * b * a ≡ l + (v + h * b) * a
  regroup l v h = grind arith

  put-mod : (x v : ℕ) → put x v % a ≡ x % a
  put-mod x v =
      ap (λ n. n % a) (regroup (x % a) v (x / a / b))
      ∙ add-mul-mod_self_right (x % a) (v + x / a / b * b) a
      ∙ mod-eq_of_lt (mod-lt x pos_a)

  put-div : (x v : ℕ) → put x v / a ≡ v + x / a / b * b
  put-div x v =
      ap (λ n. n / a) (regroup (x % a) v (x / a / b))
      ∙ add-mul-div_right (x % a) (v + x / a / b * b) pos_a
      ∙ ap (λ n. n + (v + x / a / b * b)) (div-eq_of_lt (mod-lt x pos_a))
      ∙ zero-add _

  put-get : (x v : ℕ) → v < b → put x v / a % b ≡ v
  put-get x v h =
      ap (λ n. n % b) (put-div x v) ∙ add-mul-mod_self_right v (x / a / b) b ∙ mod-eq_of_lt h

  put-above : (x v : ℕ) → v < b → put x v / a / b ≡ x / a / b
  put-above x v h =
      ap (λ n. n / b) (put-div x v)
      ∙ add-mul-div_right v (x / a / b) pos_b
      ∙ ap (λ n. n + x / a / b) (div-eq_of_lt h)
      ∙ zero-add _

  put_same : (x : ℕ) → put x (x / a % b) ≡ x
  put_same x =
      regroup (x % a) (x / a % b) (x / a / b)
      ∙ ap (λ q. x % a + q * a) (mod-add-div' (x / a) b)
      ∙ mod-add-div' x a

  put-lt : (x v k : ℕ) → v < b → x < k * b * a → put x v < k * b * a
  put-lt x v k h small =
      let high : x / a / b < k =
        (div-lt_iff_lt-mul {k = b} {x = x / a} {y = k} pos_b).1
          ((div-lt_iff_lt-mul {k = a} {x = x} {y = k * b} pos_a).1 small) in
      let low : x % a < a = mod-lt x pos_a in
      subst (λ n. n < k * b * a) (sym (regroup (x % a) v (x / a / b)))
        (below k (x / a / b) (x % a) v h low high)

pow-add : (m n : ℕ) → 2 ^ (m + n) ≡ 2 ^ m * 2 ^ n
pow-add m zero = ap (λ k. 2 ^ k) (add-zero m) ∙ sym (mul-one (2 ^ m))
pow-add m (suc n) =
    ap (λ k. 2 ^ k) (add-suc m n)
    ∙ pow-suc 2 (m + n)
    ∙ ap (λ t. t * 2) (pow-add m n)
    ∙ mul_assoc (2 ^ m) (2 ^ n) 2
    ∙ ap (λ t. 2 ^ m * t) (sym (pow-suc 2 n))

pow-pos : (n : ℕ) → 0 < 2 ^ n
pow-pos n = one-le-pow n 2 (omega arith)

module _ (lsb width : ℕ) where
  pub get_bits-put_bits :
      (x v : ℕ) → v < 2 ^ width → get_bits lsb width (put_bits lsb width x v) ≡ v
  unfolding get_bits put_bits
  get_bits-put_bits = put-get (2 ^ lsb) (2 ^ width) (pow-pos lsb) (pow-pos width)

  pub put_bits-get_bits : (x : ℕ) → put_bits lsb width x (get_bits lsb width x) ≡ x
  unfolding get_bits put_bits
  put_bits-get_bits = put_same (2 ^ lsb) (2 ^ width) (pow-pos lsb) (pow-pos width)

  pub put_bits-below : (x v : ℕ) → put_bits lsb width x v % 2 ^ lsb ≡ x % 2 ^ lsb
  unfolding put_bits
  put_bits-below = put-mod (2 ^ lsb) (2 ^ width) (pow-pos lsb) (pow-pos width)

  pub put_bits-above :
      (x v : ℕ)
      → v < 2 ^ width
      → put_bits lsb width x v / 2 ^ lsb / 2 ^ width ≡ x / 2 ^ lsb / 2 ^ width
  unfolding put_bits
  put_bits-above = put-above (2 ^ lsb) (2 ^ width) (pow-pos lsb) (pow-pos width)

  pub put_bits-lt :
      (x v bits : ℕ)
      → v < 2 ^ width
      → lsb + width ≤ bits
      → x < 2 ^ bits
      → put_bits lsb width x v < 2 ^ bits
  unfolding put_bits
  put_bits-lt x v bits h inside small =
      let whole : bits ≡ bits - (lsb + width) + width + lsb = omega arith in
      let split : 2 ^ bits ≡ 2 ^ (bits - (lsb + width)) * 2 ^ width * 2 ^ lsb =
        ap (λ k. 2 ^ k) whole
        ∙ pow-add (bits - (lsb + width) + width) lsb
        ∙ ap (λ t. t * 2 ^ lsb) (pow-add (bits - (lsb + width)) width) in
      subst (λ n. put_bits lsb width x v < n) (sym split)
        (put-lt (2 ^ lsb) (2 ^ width) (pow-pos lsb) (pow-pos width) x v (2 ^ (bits - (lsb + width)))
          h (subst (λ n. x < n) split small))
