-- ===== src/Base/Hex.antt =====
-- `{:x}` and `from_str_radix(_, 16)` of unsigned numbers, and that the first is undone by the second.
use jlink_mcp_v.Base.{
  ℕ, ◌+◌, ◌-◌, ◌<◌, ◌≡◌, refl, ◌∙◌, ap, true, List, [], ◌∷◌, map, if◌then◌else◌, leb, ltb, All, all,
  length, arith,
}
use jlink_mcp_v.Base.Radix.{digits, value, value-digits, digits-lt, digits-nonempty}
use jlink_mcp_v.Base.Text.{is_ascii_hexdigit}

abbrev pub lower_digit : ℕ → ℕ
lower_digit d = if ltb d 10 then b'0' + d else b'a' + (d - 10)

abbrev pub to_hex : ℕ → List ℕ
to_hex n = map lower_digit (digits 16 n n)

-- `char::to_digit(16)` of a hexadecimal digit.
abbrev pub digit_value : ℕ → ℕ
digit_value c = if leb c b'9' then c - b'0' else if leb c b'F' then c - b'A' + 10 else c - b'a' + 10

-- The number that a text of hexadecimal digits stands for.
unfoldable pub hex_value : List ℕ → ℕ
hex_value cs = value 16 0 (map digit_value cs)

digit_value-lower_digit : (d : ℕ) → d < 16 → digit_value (lower_digit d) ≡ d
digit_value-lower_digit d h = ground arith

map-digit_value : (ds : List ℕ) → All (λ d. d < 16) ds → map digit_value (map lower_digit ds) ≡ ds
map-digit_value [] h = refl
map-digit_value (d ∷ ds) h = rw (digit_value-lower_digit d h.0, map-digit_value ds h.1)

lower_digit-is_hexdigit : (d : ℕ) → d < 16 → is_ascii_hexdigit (lower_digit d) ≡ true
unfolding is_ascii_hexdigit
lower_digit-is_hexdigit d h = ground arith

all-is_hexdigit :
    (ds : List ℕ) → All (λ d. d < 16) ds → all is_ascii_hexdigit (map lower_digit ds) ≡ true
all-is_hexdigit [] h = refl
all-is_hexdigit (d ∷ ds) h =
    let first = lower_digit-is_hexdigit d h.0 in let rest = all-is_hexdigit ds h.1 in ground arith

length-map : (ds : List ℕ) → length (map lower_digit ds) ≡ length ds
length-map [] = refl
length-map (d ∷ ds) = omega (arith, length-map ds)

module _ (n : ℕ) where
  small_digits : All (λ d. d < 16) (digits 16 n n)
  small_digits = digits-lt 16 n n (omega arith) (omega arith)

  pub hex_value-to_hex : hex_value (to_hex n) ≡ n
  unfolding hex_value
  hex_value-to_hex =
      ap (value 16 0) (map-digit_value (digits 16 n n) small_digits)
      ∙ value-digits 16 n n (omega arith) (omega arith)

  pub to_hex-is_hexdigit : all is_ascii_hexdigit (to_hex n) ≡ true
  to_hex-is_hexdigit = all-is_hexdigit (digits 16 n n) small_digits

  pub to_hex-nonempty : 0 < length (to_hex n)
  to_hex-nonempty = omega (arith, length-map (digits 16 n n), digits-nonempty 16 n n)
