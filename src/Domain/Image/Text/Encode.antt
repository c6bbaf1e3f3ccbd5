-- ===== src/Domain/Image/Text/Encode.antt =====
-- Bytes as pairs of hexadecimal digits, and the checksum of a record, as a text image is written.
use jlink_mcp_v.Base.{
  ℕ, ◌+◌, ◌-◌, ◌*◌, ◌/◌, ◌%◌, ◌<◌, ◌≡◌, refl, ap, ◌∙◌, true, false, if◌then◌else◌, List, [], ◌∷◌,
  ◌++◌, some, ltb, ◌==◌, All, all, length, arith,
}
use jlink_mcp_v.Base.Graphic.{IsGraphic, trim-graphic}
use jlink_mcp_v.Base.Text.{is_ascii_hexdigit}
use jlink_mcp_v.Domain.Error.{Result, ok, ◌>>=◌}
use jlink_mcp_v.Domain.Image.Text.{
  to_digit, byte_of_pair, decode_pairs, decode_hex, byte_sum, but_last, is_ascii_char, is_empty,
  each_line,
}

abbrev pub IsByte : ℕ → Type 0
IsByte b = b < 256

abbrev pub upper_hex : ℕ → ℕ
upper_hex d = if ltb d 10 then b'0' + d else b'A' + (d - 10)

-- The byte that makes the sum of the record a multiple of 256.
abbrev pub checksum : List ℕ → ℕ
checksum bytes = (256 - byte_sum 0 bytes) % 256

abbrev pub sealed : List ℕ → List ℕ
sealed bytes = bytes ++ (checksum bytes ∷ [])

unfoldable pub encode_bytes : List ℕ → List ℕ
encode_bytes [] = []
encode_bytes (b ∷ bytes) = upper_hex (b / 16) ∷ upper_hex (b % 16) ∷ encode_bytes bytes

to_digit-upper_hex : (d : ℕ) → d < 16 → to_digit (upper_hex d) ≡ some d
unfolding to_digit is_ascii_hexdigit
to_digit-upper_hex d h = ground arith

upper_hex-IsGraphic : (d : ℕ) → d < 16 → IsGraphic (upper_hex d)
upper_hex-IsGraphic d h = (ground arith, ground arith)

upper_hex-not_sign : (d : ℕ) → d < 16 → (upper_hex d == b'+') ≡ false
upper_hex-not_sign d h = ground arith

byte_of_pair-upper_hex :
    (b : ℕ) → IsByte b → byte_of_pair (upper_hex (b / 16)) (upper_hex (b % 16)) ≡ some b
unfolding byte_of_pair
byte_of_pair-upper_hex b h =
    rw
      (
        byte_of_pair,
        to_digit-upper_hex (b % 16) (omega arith),
        upper_hex-not_sign (b / 16) (omega arith),
        to_digit-upper_hex (b / 16) (omega arith),
      )
      (ap some (omega arith))

decode_pairs-encode_bytes :
    (bytes : List ℕ) → All IsByte bytes → decode_pairs (encode_bytes bytes) ≡ ok bytes
unfolding decode_pairs encode_bytes
decode_pairs-encode_bytes [] h = refl
decode_pairs-encode_bytes (b ∷ bytes) h =
    rw
      (
        encode_bytes,
        decode_pairs,
        byte_of_pair-upper_hex b (h.0),
        decode_pairs-encode_bytes bytes (h.1),
      )
      refl

pub encode_bytes-IsGraphic :
    (bytes : List ℕ) → All IsByte bytes → All IsGraphic (encode_bytes bytes)
unfolding encode_bytes
encode_bytes-IsGraphic [] h = tt
encode_bytes-IsGraphic (b ∷ bytes) h = (
  upper_hex-IsGraphic (b / 16) (omega (arith, h.0)),
  (upper_hex-IsGraphic (b % 16) (omega arith), encode_bytes-IsGraphic bytes (h.1)),
)

pub all-is_ascii : (cs : List ℕ) → All IsGraphic cs → all is_ascii_char cs ≡ true
all-is_ascii [] h = refl
all-is_ascii (c ∷ cs) h =
    let first : ltb c 128 ≡ true = ground (arith, h.0) in rw (first, all-is_ascii cs (h.1)) refl

pub length-encode_bytes : (bytes : List ℕ) → length (encode_bytes bytes) ≡ 2 * length bytes
unfolding encode_bytes
length-encode_bytes [] = omega arith
length-encode_bytes (b ∷ bytes) = omega (arith, length-encode_bytes bytes)

pub decode_hex-encode_bytes :
    (bytes : List ℕ) → All IsByte bytes → decode_hex (encode_bytes bytes) ≡ ok bytes
unfolding decode_hex
decode_hex-encode_bytes bytes h =
    let even : (length (encode_bytes bytes) % 2 == 0) ≡ true =
      ground (arith, length-encode_bytes bytes) in
    rw (decode_hex, even, all-is_ascii (encode_bytes bytes) (encode_bytes-IsGraphic bytes h))
      (decode_pairs-encode_bytes bytes h)

pub byte_sum-snoc :
    (s c : ℕ) (bytes : List ℕ) → byte_sum s (bytes ++ (c ∷ [])) ≡ (byte_sum s bytes + c) % 256
byte_sum-snoc s c [] = refl
byte_sum-snoc s c (b ∷ bytes) = byte_sum-snoc ((s + b) % 256) c bytes

pub byte_sum-lt : (s : ℕ) (bytes : List ℕ) → s < 256 → byte_sum s bytes < 256
byte_sum-lt s [] h = h
byte_sum-lt s (b ∷ bytes) h = byte_sum-lt ((s + b) % 256) bytes (omega arith)

pub byte_sum-sealed : (bytes : List ℕ) → byte_sum 0 (sealed bytes) ≡ 0
byte_sum-sealed bytes =
    let small = byte_sum-lt 0 bytes (omega arith) in
    byte_sum-snoc 0 (checksum bytes) bytes ∙ omega arith

pub but_last-snoc : (c : ℕ) (bytes : List ℕ) → but_last (bytes ++ (c ∷ [])) ≡ bytes
but_last-snoc c [] = refl
but_last-snoc c (b ∷ []) = refl
but_last-snoc c (b ∷ d ∷ bytes) = ap (λ bs. b ∷ bs) (but_last-snoc c (d ∷ bytes))

-- A line of visible characters is read as it is.
pub each_line-graphic :
    {S : Type 0} (step : S → List ℕ → Result S) (s : S) (c : ℕ) (cs : List ℕ) (rest : List (List ℕ))
    → All IsGraphic (c ∷ cs)
    → each_line step ((c ∷ cs) ∷ rest) s ≡ (step s (c ∷ cs) >>= each_line step rest)
unfolding each_line
each_line-graphic step s c cs rest h =
    ap
      (λ l. elim (is_empty l) [
        | true ↦ each_line step rest s
        | false ↦ step s l >>= each_line step rest
      ])
      (trim-graphic (c ∷ cs) h)
