-- ===== src/Domain/Selector/Steps.antt =====
-- Paths of any kind of step, printed and parsed: crates/jlink-domain/src/dwarf.rs and hss.rs.
use jlink_mcp_v.Base.{
  ℕ, zero, suc, ◌≤◌, ◌≡◌, refl, ap, ◌∙◌, sym, subst, Bool, true, false, List, [], ◌∷◌, ◌++◌, ltb,
  length, length-append, all, All, All-append, eq_refl, nat_equal, list_equal, and-eq-true, arith,
}
use jlink_mcp_v.Base.Graphic.{IsGraphic, trim-graphic}
use jlink_mcp_v.Domain.Error.{Result, ok, ensure, bind-eq-ok, bind-ok, ensure-true}
use jlink_mcp_v.Domain.Selector.{
  path_invalid, is_identifier_char, is_identifier_start, is_path_text, parse_identifier,
  parse_steps, parse_path, normalized,
}
use jlink_mcp_v.Domain.Selector.Grammar.{
  append_assoc, append-nil, is_identifier, stops, parse_identifier-is_identifier,
  parse_identifier-append,
}

-- Visible ASCII.
identifier_char-IsGraphic : (c : ℕ) → is_identifier_char c ≡ true → IsGraphic c
identifier_char-IsGraphic c h = (ground arith, ground arith)

pub all-IsGraphic :
    (p : ℕ → Bool)
    → ((c : ℕ) → p c ≡ true → IsGraphic c)
    → (cs : List ℕ) → all p cs ≡ true
    → All IsGraphic cs
all-IsGraphic p graphic [] h = tt
all-IsGraphic p graphic (c ∷ cs) h =
    let (here, later) = and-eq-true (p c) (all p cs) h in
    (graphic c here, all-IsGraphic p graphic cs later)

pub identifier-IsGraphic : (text : List ℕ) → is_identifier text ≡ true → All IsGraphic text
identifier-IsGraphic [] h = tt
identifier-IsGraphic (c ∷ cs) h =
    let (start, chars) = and-eq-true (is_identifier_start c) (all is_identifier_char cs) h in
    (
      (ground arith, ground arith),
      all-IsGraphic is_identifier_char identifier_char-IsGraphic cs chars,
    )

all_ascii : (cs : List ℕ) → All IsGraphic cs → all (λ c. ltb c 128) cs ≡ true
all_ascii [] h = refl
all_ascii (c ∷ cs) h = let rest = all_ascii cs h.1 in ground (arith, h.0)

graphic-is_path_text : (c : ℕ) (cs : List ℕ) → All IsGraphic (c ∷ cs) → is_path_text (c ∷ cs) ≡ true
unfolding is_path_text
graphic-is_path_text c cs h =
    rw (trim-graphic (c ∷ cs) h, eq_refl (c ∷ cs), all_ascii (c ∷ cs) h) (ground arith)

root-is_path_text :
    (root rest : List ℕ)
    → is_identifier root ≡ true
    → All IsGraphic (root ++ rest)
    → is_path_text (root ++ rest) ≡ true
root-is_path_text [] rest h g = cc
root-is_path_text (c ∷ cs) rest h g = graphic-is_path_text c (cs ++ rest) g

-- A step is its mark, which ends an identifier, and a body; `next` reads the steps that `IsStep` says.
module _ {S : Type 0} (next : ℕ → List ℕ → Result (S × List ℕ)) (mark : S → ℕ) (body : S → List ℕ)
    (IsStep : S → Type 0) (mark_stops : (s : S) → is_identifier_char (mark s) ≡ false)
    (reads : (s : S) (rest : List ℕ)
      → IsStep s
      → stops rest ≡ true
      → next (mark s) (body s ++ rest) ≡ ok (s, rest))
    (graphic : (s : S) → IsStep s → All IsGraphic (mark s ∷ body s))
    (sound : (c : ℕ) (cs : List ℕ) (p : S × List ℕ) → next c cs ≡ ok p → IsStep (p.0)) where
  texts : List S → List ℕ
  texts [] = []
  texts (step ∷ steps) = mark step ∷ (body step ++ texts steps)

  stops-texts : (steps : List S) → stops (texts steps) ≡ true
  unfolding texts
  stops-texts [] = refl
  stops-texts (step ∷ steps) = rw (mark_stops step) refl

  texts-IsGraphic : (steps : List S) → All IsStep steps → All IsGraphic (texts steps)
  unfolding texts
  texts-IsGraphic [] h = tt
  texts-IsGraphic (step ∷ steps) h =
      let g = graphic step h.0 in
      (g.0, All-append IsGraphic (body step) (texts steps) g.1 (texts-IsGraphic steps h.1))

  normalized-eq :
      (steps : List S) (root : List ℕ)
      → normalized (λ s. mark s ∷ body s) root steps ≡ root ++ texts steps
  unfolding texts
  normalized-eq [] root = sym (append-nil root)
  normalized-eq (step ∷ steps) root =
      normalized-eq steps (root ++ (mark step ∷ body step))
      ∙ append_assoc root (mark step ∷ body step) (texts steps)

  -- The steps are read back from their text, with any fuel that is not below its length.
  parse_steps-texts :
      (steps : List S) (fuel : ℕ)
      → All IsStep steps
      → length (texts steps) ≤ fuel
      → parse_steps next fuel (texts steps) ≡ ok steps
  unfolding parse_steps texts
  parse_steps-texts [] zero h enough = refl
  parse_steps-texts [] (suc fuel) h enough = refl
  parse_steps-texts (step ∷ steps) zero h enough = absurd (omega arith)
  parse_steps-texts (step ∷ steps) (suc fuel) h enough =
      let longer : length (texts steps) ≤ fuel =
        omega (arith, length-append (body step) (texts steps)) in
      bind-ok _ (reads step (texts steps) h.0 (stops-texts steps))
      ∙ bind-ok _ (parse_steps-texts steps fuel h.1 longer)

  parse_steps-IsStep :
      (fuel : ℕ) (cs : List ℕ) {steps : List S}
      → parse_steps next fuel cs ≡ ok steps
      → All IsStep steps
  unfolding parse_steps
  parse_steps-IsStep zero [] {steps} h = let e : [] ≡ steps = cc in subst (All IsStep) e tt
  parse_steps-IsStep (suc fuel) [] {steps} h = let e : [] ≡ steps = cc in subst (All IsStep) e tt
  parse_steps-IsStep zero (c ∷ cs) h = cc
  parse_steps-IsStep (suc fuel) (c ∷ cs) {steps} h =
      let ((step, rest), first, h₁) = bind-eq-ok _ (next c cs) h in
      let (later, others, h₂) = bind-eq-ok _ (parse_steps next fuel rest) h₁ in
      let e : step ∷ later ≡ steps = cc in
      subst (All IsStep) e (sound c cs (step, rest) first, parse_steps-IsStep fuel rest others)

  parse_path-of :
      (root : List ℕ) (steps : List S)
      → is_identifier root ≡ true
      → All IsStep steps
      → parse_path next (normalized (λ s. mark s ∷ body s) root steps) ≡ ok (root, steps)
  unfolding parse_path
  parse_path-of root steps h hs =
      let visible =
        All-append IsGraphic root (texts steps) (identifier-IsGraphic root h)
          (texts-IsGraphic steps hs) in
      ap (parse_path next) (normalized-eq steps root)
      ∙ bind-ok _ (ensure-true _ path_invalid (root-is_path_text root (texts steps) h visible))
      ∙ bind-ok _ (parse_identifier-append root (texts steps) h (stops-texts steps))
      ∙ bind-ok _ (parse_steps-texts steps (length (texts steps)) hs (omega arith))

  -- The normal form of a path that is read is read as the same root and steps.
  pub parse_path-normalized :
      (path root : List ℕ) (steps : List S)
      → parse_path next path ≡ ok (root, steps)
      → parse_path next (normalized (λ s. mark s ∷ body s) root steps) ≡ ok (root, steps)
  unfolding parse_path
  parse_path-normalized path root steps h =
      let (_, _, h₁) = bind-eq-ok _ (ensure (is_path_text path) path_invalid) h in
      let ((found, rest), first, h₂) = bind-eq-ok _ (parse_identifier path) h₁ in
      let (others, later, h₃) = bind-eq-ok _ (parse_steps next (length rest) rest) h₂ in
      let same : found ≡ root = cc in
      let same_steps : others ≡ steps = cc in
      parse_path-of root steps
        (subst (λ r. is_identifier r ≡ true) same (parse_identifier-is_identifier path first))
        (subst (All IsStep) same_steps (parse_steps-IsStep (length rest) rest later))
