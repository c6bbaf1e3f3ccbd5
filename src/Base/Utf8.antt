-- ===== src/Base/Utf8.antt =====
-- `str::from_utf8`.
use jlink_mcp_v.Base.{
  ℕ, zero, suc, ◌+◌, ◌-◌, ◌*◌, ◌<◌, ◌≡◌, refl, Bool, true, ◌&&◌, List, [], ◌∷◌, Option, none, some,
  if◌then◌else◌, leb, ◌==◌, All, arith,
}

-- How many bytes of a character are to come, between which bounds the next one lies, and what the
-- bytes so far stand for.
pub record Pending : Type 0 where
  pub need : ℕ
  pub low : ℕ
  pub high : ℕ
  pub code : ℕ

abbrev pub resting : Pending
resting = record { need = 0; low = 0; high = 0; code = 0 }

abbrev pending : ℕ → ℕ → ℕ → ℕ → Option Pending
pending need low high code = some (record { need = need; low = low; high = high; code = code })

abbrev between : ℕ → ℕ → ℕ → Bool
between low high b = leb low b && leb b high

-- The first byte of a character.
abbrev lead : ℕ → Option Pending
lead b =
    if leb b 0x7f
    then pending 0 0 0 b
    else if between 0xc2 0xdf b
    then pending 1 0x80 0xbf (b - 0xc0)
    else if b == 0xe0
    then pending 2 0xa0 0xbf 0
    else if b == 0xed
    then pending 2 0x80 0x9f 13
    else if between 0xe1 0xef b
    then pending 2 0x80 0xbf (b - 0xe0)
    else if b == 0xf0
    then pending 3 0x90 0xbf 0
    else if b == 0xf4
    then pending 3 0x80 0x8f 4
    else if between 0xf1 0xf3 b
    then pending 3 0x80 0xbf (b - 0xf0)
    else none

next_byte : Pending → ℕ → Option Pending
next_byte p b = elim (p.need) [
  | zero ↦ lead b
  | suc need ↦
      if between p.low p.high b then pending need 0x80 0xbf (p.code * 64 + (b - 0x80)) else none
]

abbrev emit : Pending → Option (List ℕ) → Option (List ℕ)
emit p none = none
emit p (some cs) = some (if p.need == 0 then p.code ∷ cs else cs)

unfoldable pub decode_from : Pending → List ℕ → Option (List ℕ)
unfolding next_byte
decode_from p [] = if p.need == 0 then some [] else none
decode_from p (b ∷ bytes) = elim (next_byte p b) [
  | none ↦ none
  | some q ↦ emit q (decode_from q bytes)
]

unfoldable pub from_utf8 : List ℕ → Option (List ℕ)
unfolding decode_from
from_utf8 = decode_from resting

next_byte-ascii :
    (low high code b : ℕ)
    → b < 128
    → next_byte (record { need = 0; low = low; high = high; code = code }) b ≡ pending 0 0 0 b
unfolding next_byte
next_byte-ascii low high code b h = let first : leb b 0x7f ≡ true = ground arith in rw first refl

decode_from-ascii :
    (low high code : ℕ) (bytes : List ℕ)
    → All (λ b. b < 128) bytes
    → decode_from (record { need = 0; low = low; high = high; code = code }) bytes ≡ some bytes
unfolding decode_from
decode_from-ascii low high code [] small = refl
decode_from-ascii low high code (b ∷ bytes) small =
    rw
      (
        decode_from,
        next_byte-ascii low high code b (small.0),
        decode_from-ascii 0 0 b bytes (small.1),
      )
      refl

-- ASCII is itself.
pub from_utf8-ascii : (bytes : List ℕ) → All (λ b. b < 128) bytes → from_utf8 bytes ≡ some bytes
unfolding from_utf8
from_utf8-ascii bytes small = decode_from-ascii 0 0 0 bytes small
