-- ===== src/Capture/Cursor/Hex.antt =====
-- crates/jlink-capture/src/cursor.rs: the hexadecimal form of the payload and of the digest.
use jlink_mcp_v.Base.{
  ℕ, ◌+◌, ◌*◌, ◌/◌, ◌%◌, ◌<◌, ◌≡◌, ◌≢◌, refl, ap, ◌∙◌, not, ◌||◌, List, [], ◌∷◌, All, ◌==◌, length,
  arith,
}
use jlink_mcp_v.Domain.Error.{bind-ok, ok, ensure}
use jlink_mcp_v.Capture.Cursor.{
  hex_digit, encode_hex, decode_nibble, decode_pairs, decode_hex, dot, invalid_cursor,
}

decode_nibble-hex_digit : (n : ℕ) → n < 16 → decode_nibble (hex_digit n) ≡ ok n
unfolding decode_nibble
decode_nibble-hex_digit n h = ground arith

hex_digit≢dot : (n : ℕ) → hex_digit n ≢ dot
hex_digit≢dot n = ground arith

pub encode_hex-dotless : (bytes : List ℕ) → All (λ c. c ≢ dot) (encode_hex bytes)
unfolding encode_hex
encode_hex-dotless [] = tt
encode_hex-dotless (byte ∷ bytes) =
    (hex_digit≢dot (byte / 16), (hex_digit≢dot (byte % 16), encode_hex-dotless bytes))

decode_pairs-pair :
    (c d : ℕ) (rest : List ℕ) {high low : ℕ} {bytes : List ℕ}
    → decode_nibble c ≡ ok high
    → decode_nibble d ≡ ok low
    → decode_pairs rest ≡ ok bytes
    → decode_pairs (c ∷ d ∷ rest) ≡ ok ((high * 16 + low) ∷ bytes)
unfolding decode_pairs
decode_pairs-pair c d rest {high} {low} e f g =
    bind-ok _ e ∙ bind-ok _ f ∙ bind-ok (λ bytes. ok ((high * 16 + low) ∷ bytes)) g

decode_pairs-encode_hex :
    (bytes : List ℕ) → All (λ b. b < 256) bytes → decode_pairs (encode_hex bytes) ≡ ok bytes
unfolding encode_hex decode_pairs
decode_pairs-encode_hex [] h = refl
decode_pairs-encode_hex (byte ∷ bytes) h =
    let high : decode_nibble (hex_digit (byte / 16)) ≡ ok (byte / 16) =
      decode_nibble-hex_digit (byte / 16) (ground arith) in
    let low : decode_nibble (hex_digit (byte % 16)) ≡ ok (byte % 16) =
      decode_nibble-hex_digit (byte % 16) (ground arith) in
    let rest = decode_pairs-encode_hex bytes h.1 in
    decode_pairs-pair (hex_digit (byte / 16)) (hex_digit (byte % 16)) (encode_hex bytes) high low
      rest
    ∙ ap (λ b. ok (b ∷ bytes)) (ground arith)

encode_hex-even : (bytes : List ℕ) → length (encode_hex bytes) % 2 ≡ 0
unfolding encode_hex
encode_hex-even [] = refl
encode_hex-even (byte ∷ bytes) = let rest = encode_hex-even bytes in ground arith

even_length :
    (n : ℕ)
    → 0 < n
    → n % 2 ≡ 0
    → ensure (not (n == 0 || not (n % 2 == 0))) invalid_cursor ≡ ok (record {})
even_length n h e = ground arith

nonzero : (byte : ℕ) (bytes : List ℕ) → 0 < length (encode_hex (byte ∷ bytes))
unfolding encode_hex
nonzero byte bytes = ground arith

-- The hexadecimal form of at least one byte reads back as the same bytes.
pub decode_hex-encode_hex :
    (byte : ℕ) (bytes : List ℕ)
    → All (λ b. b < 256) (byte ∷ bytes)
    → decode_hex (encode_hex (byte ∷ bytes)) ≡ ok (byte ∷ bytes)
unfolding decode_hex
decode_hex-encode_hex byte bytes h =
    let even = encode_hex-even (byte ∷ bytes) in
    bind-ok (λ _. decode_pairs (encode_hex (byte ∷ bytes)))
      (even_length (length (encode_hex (byte ∷ bytes))) (nonzero byte bytes) even)
    ∙ decode_pairs-encode_hex (byte ∷ bytes) h
