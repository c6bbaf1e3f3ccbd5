-- ===== src/Base/Lines.antt =====
-- `str::lines`.
use mathlib.Core.List.{reverse, reverse-cons, append-nil, append_assoc}
use jlink_mcp_v.Base.{
  ℕ, ◌<◌, ◌≡◌, refl, ap, ◌∙◌, sym, true, false, List, [], ◌∷◌, ◌++◌, ◌==◌, All, All-append, All-map,
  arith,
}
use jlink_mcp_v.Base.Graphic.{IsGraphic}

-- A line that ends in `\n`, given from its back, without a `\r` there.
abbrev strip_return : List ℕ → List ℕ
strip_return [] = []
strip_return (c ∷ cs) = elim (c == b'\r') [ true ↦ reverse cs | false ↦ reverse (c ∷ cs) ]

-- The line so far from its back, and the text behind it.
lines_from : List ℕ → List ℕ → List (List ℕ)
lines_from [] [] = []
lines_from (c ∷ line) [] = reverse (c ∷ line) ∷ []
lines_from line (c ∷ cs) = elim (c == b'\n') [
  | true ↦ strip_return line ∷ lines_from [] cs
  | false ↦ lines_from (c ∷ line) cs
]

unfoldable pub lines : List ℕ → List (List ℕ)
unfolding lines_from
lines = lines_from []

-- Each line with `\n` behind it.
abbrev pub unlines : List (List ℕ) → List ℕ
unlines [] = []
unlines (line ∷ rest) = line ++ (b'\n' ∷ unlines rest)

not_newline : (c : ℕ) → IsGraphic c → (c == b'\n') ≡ false
not_newline c h = ground (arith, h.0)

not_return : (c : ℕ) → IsGraphic c → (c == b'\r') ≡ false
not_return c h = ground (arith, h.0)

strip_return-graphic : (cs : List ℕ) → All IsGraphic cs → strip_return cs ≡ reverse cs
strip_return-graphic [] h = refl
strip_return-graphic (c ∷ cs) h = rw (strip_return, not_return c (h.0)) refl

lines_from-start :
    (line cs : List ℕ) (c : ℕ)
    → (c == b'\n') ≡ false
    → lines_from line (c ∷ cs) ≡ lines_from (c ∷ line) cs
unfolding lines_from
lines_from-start [] cs c h = rw (lines_from, h) refl
lines_from-start (b ∷ line) cs c h = rw (lines_from, h) refl

lines_from-end :
    (line cs : List ℕ) → lines_from line (b'\n' ∷ cs) ≡ strip_return line ∷ lines_from [] cs
unfolding lines_from
lines_from-end [] cs = refl
lines_from-end (b ∷ line) cs = refl

lines_from-graphic :
    (line text rest : List ℕ)
    → All IsGraphic line
    → All IsGraphic text
    → lines_from line (text ++ (b'\n' ∷ rest)) ≡ (reverse line ++ text) ∷ lines_from [] rest
lines_from-graphic line [] rest b h =
    lines_from-end line rest
    ∙ ap (λ l. l ∷ lines_from [] rest)
        (strip_return-graphic line b ∙ sym (append-nil (reverse line)))
lines_from-graphic line (c ∷ text) rest b h =
    lines_from-start line (text ++ (b'\n' ∷ rest)) c (not_newline c (h.0))
    ∙ lines_from-graphic (c ∷ line) text rest (h.0, b) (h.1)
    ∙ ap (λ l. l ∷ lines_from [] rest)
        (ap (λ l. l ++ text) (reverse-cons c line) ∙ append_assoc (reverse line) (c ∷ []) text)

-- Lines of visible ASCII come out as they are.
pub lines-unlines : (text : List (List ℕ)) → All (All IsGraphic) text → lines (unlines text) ≡ text
unfolding lines lines_from
lines-unlines [] h = refl
lines-unlines (line ∷ rest) h =
    lines_from-graphic [] line (unlines rest) tt (h.0)
    ∙ ap (λ ls. line ∷ ls) (lines-unlines rest (h.1))

pub ascii-unlines :
    (text : List (List ℕ)) → All (All IsGraphic) text → All (λ c. c < 128) (unlines text)
ascii-unlines [] h = tt
ascii-unlines (line ∷ rest) h =
    All-append (λ c. c < 128) line (b'\n' ∷ unlines rest)
      (All-map IsGraphic (λ c. c < 128) (λ c g. omega (arith, g.1)) line (h.0))
      (omega arith, ascii-unlines rest (h.1))
