-- ===== src/Domain/Image/Text.antt =====
-- crates/jlink-domain/src/image.rs: what the two readers of text images share.
pub mod Encode
use jlink_mcp_v.Base.{
  ℕ, ◌+◌, ◌*◌, ◌%◌, Bool, true, false, ◌&&◌, Option, none, some, List, [], ◌∷◌, if◌then◌else◌, ltb,
  leb, ◌-◌, ◌==◌, all, length,
}
use jlink_mcp_v.Base.Text.{is_ascii_hexdigit, trim}
use jlink_mcp_v.Base.Hex.{digit_value}
use jlink_mcp_v.Domain.Error.{Result, ok, err, ◌>>=◌, ensure, ok_or}
use jlink_mcp_v.Domain.Image.{invalid}

-- `trim_start_matches('\u{feff}')`
unfoldable pub strip_bom : List ℕ → List ℕ
strip_bom [] = []
strip_bom (c ∷ cs) = elim (c == 0xfeff) [ true ↦ strip_bom cs | false ↦ c ∷ cs ]

abbrev pub is_ascii_char : ℕ → Bool
is_ascii_char c = ltb c 128

unfoldable pub to_ascii_uppercase : ℕ → ℕ
to_ascii_uppercase c = if leb b'a' c && leb c b'z' then c - 32 else c

-- `char::to_digit(16)`
unfoldable pub to_digit : ℕ → Option ℕ
unfolding is_ascii_hexdigit
to_digit c = if is_ascii_hexdigit c then some (digit_value c) else none

-- `u8::from_str_radix(_, 16)` of two characters: a sign `+` may stand before the digits.
unfoldable pub byte_of_pair : ℕ → ℕ → Option ℕ
unfolding to_digit
byte_of_pair high low = elim (to_digit low) [
  | none ↦ none
  | some l ↦ elim (high == b'+') [
    | true ↦ some l
    | false ↦ elim (to_digit high) [ none ↦ none | some h ↦ some (h * 16 + l) ]
  ]
]

unfoldable pub decode_pairs : List ℕ → Result (List ℕ)
unfolding byte_of_pair
decode_pairs [] = ok []
decode_pairs (c ∷ []) = err invalid
decode_pairs (high ∷ low ∷ rest) = do
  byte ← ok_or (byte_of_pair high low) invalid
  bytes ← decode_pairs rest
  ok (byte ∷ bytes)

unfoldable pub decode_hex : List ℕ → Result (List ℕ)
unfolding decode_pairs
decode_hex text = do
  _ ← ensure (length text % 2 == 0 && all is_ascii_char text) invalid
  decode_pairs text

-- `fold(0_u8, u8::wrapping_add)`
abbrev pub byte_sum : ℕ → List ℕ → ℕ
byte_sum sum [] = sum
byte_sum sum (b ∷ bytes) = byte_sum ((sum + b) % 256) bytes

abbrev pub is_empty {ℓ} : {A : Type ℓ} → List A → Bool
is_empty [] = true
is_empty (x ∷ xs) = false

-- The record without its last byte.
abbrev pub but_last {ℓ} : {A : Type ℓ} → List A → List A
but_last [] = []
but_last (x ∷ []) = []
but_last (x ∷ y ∷ rest) = x ∷ but_last (y ∷ rest)

-- The loop over the lines: one that is blank is passed over, of another the trimmed text is read.
unfoldable pub each_line {ℓ} : {S : Type ℓ} → (S → List ℕ → Result S) → List (List ℕ) → S → Result S
each_line step [] s = ok s
each_line step (line ∷ rest) s = elim (is_empty (trim line)) [
  | true ↦ each_line step rest s
  | false ↦ step s (trim line) >>= each_line step rest
]
