-- ===== src/Base/Decimal.antt =====
-- `to_string` and `parse` of integers, and that the first is undone by the second.
use jlink_mcp_v.Base.{
  ℕ, zero, suc, ◌+◌, ◌-◌, ◌*◌, ◌<◌, ◌≡◌, refl, ◌∙◌, ap, sym, subst, all, true, ◌&&◌, List, [], ◌∷◌,
  map, Option, none, some, if◌then◌else◌, leb, ◌==◌, All, length, arith,
}
use jlink_mcp_v.Base.Int.{ℤ, pos, negsuc}
use jlink_mcp_v.Base.Radix.{digits, value, value-digits, digits-lt, digits-nonempty}

abbrev pub to_decimal : ℕ → List ℕ
to_decimal n = map (λ d. b'0' + d) (digits 10 n n)

abbrev pub to_decimal_ℤ : ℤ → List ℕ
to_decimal_ℤ (pos n) = to_decimal n
to_decimal_ℤ (negsuc n) = b'-' ∷ to_decimal (suc n)

unfoldable pub parse_digits : ℕ → List ℕ → Option ℕ
parse_digits acc [] = some acc
parse_digits acc (c ∷ cs) =
    let rest = parse_digits (acc * 10 + (c - b'0')) cs in
    if leb b'0' c && leb c b'9' then rest else none

-- At least one digit.
unfoldable pub parse_number : List ℕ → Option ℕ
unfolding parse_digits
parse_number [] = none
parse_number (c ∷ cs) = parse_digits 0 (c ∷ cs)

abbrev negate : Option ℕ → Option ℤ
negate none = none
negate (some zero) = some (pos 0)
negate (some (suc n)) = some (negsuc n)

abbrev positive : Option ℕ → Option ℤ
positive none = none
positive (some n) = some (pos n)

-- `str::parse::<u128>` and `str::parse::<i128>`, the overflow of 128 bits apart.
unfoldable pub parse_unsigned_text : List ℕ → Option ℕ
unfolding parse_number
parse_unsigned_text [] = none
parse_unsigned_text (c ∷ cs) = if c == b'+' then parse_number cs else parse_number (c ∷ cs)

unfoldable pub parse_signed_text : List ℕ → Option ℤ
unfolding parse_number
parse_signed_text [] = none
parse_signed_text (c ∷ cs) =
    if c == b'-'
    then negate (parse_number cs)
    else if c == b'+'
    then positive (parse_number cs)
    else positive (parse_number (c ∷ cs))

parse_digits-map :
    (acc : ℕ) (ds : List ℕ)
    → All (λ d. d < 10) ds
    → parse_digits acc (map (λ d. b'0' + d) ds) ≡ some (value 10 acc ds)
unfolding parse_digits
parse_digits-map acc [] h = refl
parse_digits-map acc (d ∷ ds) h =
    let rest = parse_digits-map (acc * 10 + d) ds h.1 in
    let same : acc * 10 + (b'0' + d - b'0') ≡ acc * 10 + d = omega arith in ground arith

-- Texts of digits, at least one, with no sign before them.
parse_number-digits :
    (ds : List ℕ)
    → 0 < length ds
    → All (λ d. d < 10) ds
    → parse_number (map (λ d. b'0' + d) ds) ≡ some (value 10 0 ds)
unfolding parse_number
parse_number-digits [] h small = absurd (omega arith)
parse_number-digits (d ∷ ds) h small = parse_digits-map 0 (d ∷ ds) small

parse_unsigned-digits :
    (ds : List ℕ)
    → 0 < length ds
    → All (λ d. d < 10) ds
    → parse_unsigned_text (map (λ d. b'0' + d) ds) ≡ some (value 10 0 ds)
unfolding parse_unsigned_text
parse_unsigned-digits [] h small = absurd (omega arith)
parse_unsigned-digits (d ∷ ds) h small =
    let rest = parse_number-digits (d ∷ ds) h small in ground arith

parse_signed-digits :
    (ds : List ℕ)
    → 0 < length ds
    → All (λ d. d < 10) ds
    → parse_signed_text (map (λ d. b'0' + d) ds) ≡ some (pos (value 10 0 ds))
unfolding parse_signed_text
parse_signed-digits [] h small = absurd (omega arith)
parse_signed-digits (d ∷ ds) h small =
    let rest = parse_number-digits (d ∷ ds) h small in ground arith

module _ (n : ℕ) where
  some_digit : 0 < length (digits 10 n n)
  some_digit = digits-nonempty 10 n n

  small_digits : All (λ d. d < 10) (digits 10 n n)
  small_digits = digits-lt 10 n n (omega arith) (omega arith)

  value-to_decimal : value 10 0 (digits 10 n n) ≡ n
  value-to_decimal = value-digits 10 n n (omega arith) (omega arith)

  parse_number-to_decimal : parse_number (to_decimal n) ≡ some n
  parse_number-to_decimal =
      parse_number-digits (digits 10 n n) some_digit small_digits ∙ ap some value-to_decimal

pub parse_unsigned_text-to_decimal : (n : ℕ) → parse_unsigned_text (to_decimal n) ≡ some n
parse_unsigned_text-to_decimal n =
    parse_unsigned-digits (digits 10 n n) (some_digit n) (small_digits n)
    ∙ ap some (value-to_decimal n)

pub parse_signed_text-to_decimal : (z : ℤ) → parse_signed_text (to_decimal_ℤ z) ≡ some z
unfolding parse_signed_text
parse_signed_text-to_decimal (pos n) =
    parse_signed-digits (digits 10 n n) (some_digit n) (small_digits n)
    ∙ ap (λ v. some (pos v)) (value-to_decimal n)
parse_signed_text-to_decimal (negsuc n) = ap negate (parse_number-to_decimal (suc n))

map-digits :
    (ds : List ℕ)
    → All (λ d. d < 10) ds
    → all (λ c. leb b'0' c && leb c b'9') (map (λ d. b'0' + d) ds) ≡ true
map-digits [] h = refl
map-digits (d ∷ ds) h = let rest = map-digits ds h.1 in ground arith

length-map_digits : (ds : List ℕ) → length (map (λ d. b'0' + d) ds) ≡ length ds
length-map_digits [] = refl
length-map_digits (d ∷ ds) = ap suc (length-map_digits ds)

-- A numeral is not empty and has digits only.
pub to_decimal-digits :
    (n : ℕ)
    → (0 < length (to_decimal n)) × (all (λ c. leb b'0' c && leb c b'9') (to_decimal n) ≡ true)
to_decimal-digits n = (
  subst (λ k. 0 < k) (sym (length-map_digits (digits 10 n n))) (some_digit n),
  map-digits (digits 10 n n) (small_digits n),
)
