-- ===== src/Base/Graphic.antt =====
-- Visible ASCII, which `trim` leaves as it is.
use mathlib.Core.List.{reverse, reverse-reverse}
use jlink_mcp_v.Base.{ℕ, ◌<◌, ◌≡◌, refl, false, List, [], ◌∷◌, All, All-reverse, arith}
use jlink_mcp_v.Base.Text.{trim, trim_start, is_whitespace}

abbrev pub IsGraphic : ℕ → Type 0
IsGraphic c = (32 < c) × (c < 127)

graphic-not_whitespace : (c : ℕ) → IsGraphic c → is_whitespace c ≡ false
unfolding is_whitespace
graphic-not_whitespace c h = ground arith

trim_start-graphic : (cs : List ℕ) → All IsGraphic cs → trim_start cs ≡ cs
unfolding trim_start
trim_start-graphic [] h = refl
trim_start-graphic (c ∷ cs) h = rw (graphic-not_whitespace c h.0) refl

pub trim-graphic : (cs : List ℕ) → All IsGraphic cs → trim cs ≡ cs
unfolding trim
trim-graphic cs h =
    rw (trim_start-graphic cs h, trim_start-graphic (reverse cs) (All-reverse IsGraphic cs h))
      (reverse-reverse cs)
