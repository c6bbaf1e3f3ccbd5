-- ===== src/Domain/Selector/Grammar.antt =====
-- crates/jlink-domain/src/dwarf.rs: identifiers, indices and steps of a path, printed and parsed.
use jlink_mcp_v.Base.{
  ℕ, ◌^◌, ◌<◌, ◌≡◌, refl, ap, ◌∙◌, subst, Bool, true, false, not, ◌&&◌, List, [], ◌∷◌, ◌++◌, Option,
  none, some, ◌==◌, length, all, and-eq-true, inl, inr, Bool-cases, lt→ltb, arith,
}
use jlink_mcp_v.Base.Decimal.{
  to_decimal, parse_unsigned_text, parse_unsigned_text-to_decimal, to_decimal-digits,
}
use jlink_mcp_v.Domain.Error.{ok, ensure, ok_or, bind-eq-ok, bind-ok, ensure-eq-ok}
use jlink_mcp_v.Domain.Selector.{
  path_invalid, SelectorStep, name, index, is_ascii_digit, is_identifier_start, is_identifier_char,
  span_identifier, parse_identifier, split_bracket, parse_index, as_u64, next_step, next_name,
  next_index, step_mark, step_body,
}

abbrev pub is_identifier : List ℕ → Bool
is_identifier [] = false
is_identifier (c ∷ cs) = is_identifier_start c && all is_identifier_char cs

-- An identifier ends before this text.
abbrev pub stops : List ℕ → Bool
stops [] = true
stops (c ∷ cs) = not (is_identifier_char c)

span_identifier-chars : (cs : List ℕ) → all is_identifier_char (span_identifier cs).0 ≡ true
unfolding span_identifier
span_identifier-chars [] = refl
span_identifier-chars (c ∷ cs) = ground (arith, span_identifier-chars cs)

span_identifier-append :
    (cs rest : List ℕ)
    → all is_identifier_char cs ≡ true
    → stops rest ≡ true
    → span_identifier (cs ++ rest) ≡ (cs, rest)
unfolding span_identifier
span_identifier-append [] [] h s = refl
span_identifier-append [] (c ∷ rest) h s =
    let off : is_identifier_char c ≡ false = ground arith in rw off refl
span_identifier-append (c ∷ cs) rest h s =
    let (here, later) = and-eq-true (is_identifier_char c) (all is_identifier_char cs) h in
    rw (here, span_identifier-append cs rest later s) refl

pub parse_identifier-is_identifier :
    (cs : List ℕ) {p : List ℕ × List ℕ} → parse_identifier cs ≡ ok p → is_identifier (p.0) ≡ true
unfolding parse_identifier
parse_identifier-is_identifier [] h = cc
parse_identifier-is_identifier (c ∷ cs) {p} h =
    let (_, start, rest) = bind-eq-ok _ (ensure (is_identifier_start c) path_invalid) h in
    let e : (c ∷ (span_identifier cs).0, (span_identifier cs).1) ≡ p = cc in
    subst (λ q. is_identifier (q.0) ≡ true) e
      (rw (ensure-eq-ok _ path_invalid start, span_identifier-chars cs) refl)

pub parse_identifier-append :
    (root rest : List ℕ)
    → is_identifier root ≡ true
    → stops rest ≡ true
    → parse_identifier (root ++ rest) ≡ ok (root, rest)
unfolding parse_identifier
parse_identifier-append [] rest h s = cc
parse_identifier-append (c ∷ cs) rest h s =
    let (start, chars) = and-eq-true (is_identifier_start c) (all is_identifier_char cs) h in
    rw (start, span_identifier-append cs rest chars s) refl

pub split_bracket-append :
    (token rest : List ℕ)
    → all is_ascii_digit token ≡ true
    → split_bracket (token ++ (b']' ∷ rest)) ≡ some (token, rest)
unfolding split_bracket
split_bracket-append [] rest h = refl
split_bracket-append (c ∷ cs) rest h =
    let (digit, later) = and-eq-true (is_ascii_digit c) (all is_ascii_digit cs) h in
    let apart : (c == b']') ≡ false = ground arith in
    rw (apart, split_bracket-append cs rest later) refl

pub parse_index-to_decimal : (n : ℕ) → n < 2 ^ 64 → parse_index (to_decimal n) ≡ ok n
unfolding parse_index
parse_index-to_decimal n h =
    let (some_digit, digits) = to_decimal-digits n in
    let nonempty : (length (to_decimal n) == 0) ≡ false = ground (arith, some_digit) in
    rw (nonempty, digits, parse_unsigned_text-to_decimal n, lt→ltb n (2 ^ 64) h) refl

as_u64-lt : (o : Option ℕ) {n : ℕ} → ok_or (as_u64 o) path_invalid ≡ ok n → n < 2 ^ 64
as_u64-lt none h = cc
as_u64-lt (some m) {n} h = ground arith

pub parse_index-lt : (token : List ℕ) {n : ℕ} → parse_index token ≡ ok n → n < 2 ^ 64
unfolding parse_index
parse_index-lt token {n} h =
    let (_, _, rest) =
      bind-eq-ok _ (ensure (not (length token == 0) && all is_ascii_digit token) path_invalid) h in
    as_u64-lt (parse_unsigned_text token) rest

abbrev pub IsStep : SelectorStep → Type 0
IsStep (name member) = is_identifier member ≡ true
IsStep (index n) = n < 2 ^ 64

next_name-IsStep : (cs : List ℕ) {p : SelectorStep × List ℕ} → next_name cs ≡ ok p → IsStep (p.0)
unfolding next_name
next_name-IsStep cs {p} h =
    let ((member, rest), parsed, h₁) = bind-eq-ok _ (parse_identifier cs) h in
    let e : (name member, rest) ≡ p = cc in
    subst (λ q. IsStep (q.0)) e (parse_identifier-is_identifier cs parsed)

next_index-IsStep : (cs : List ℕ) {p : SelectorStep × List ℕ} → next_index cs ≡ ok p → IsStep (p.0)
unfolding next_index
next_index-IsStep cs {p} h =
    let ((token, rest), _, h₁) = bind-eq-ok _ (ok_or (split_bracket cs) path_invalid) h in
    let (n, parsed, h₂) = bind-eq-ok _ (parse_index token) h₁ in
    let e : (index n, rest) ≡ p = cc in subst (λ q. IsStep (q.0)) e (parse_index-lt token parsed)

pub next_step-IsStep :
    (c : ℕ) (cs : List ℕ) {p : SelectorStep × List ℕ} → next_step c cs ≡ ok p → IsStep (p.0)
unfolding next_step
next_step-IsStep c cs h = elim (Bool-cases (c == b'.')) [
  | inl dot ↦ next_name-IsStep cs (rw dot at h)
  | inr other ↦ elim (Bool-cases (c == b'[')) [
    | inl bracket ↦ next_index-IsStep cs (rw (other, bracket) at h)
    | inr neither ↦ let failed = rw (other, neither) at h in cc
  ]
]

pub append_assoc : (xs ys zs : List ℕ) → (xs ++ ys) ++ zs ≡ xs ++ (ys ++ zs)
append_assoc [] ys zs = refl
append_assoc (x ∷ xs) ys zs = ap (λ l. x ∷ l) (append_assoc xs ys zs)

pub append-nil : (xs : List ℕ) → xs ++ [] ≡ xs
append-nil [] = refl
append-nil (x ∷ xs) = ap (λ l. x ∷ l) (append-nil xs)

pub next_index-text :
    (n : ℕ) (rest : List ℕ)
    → n < 2 ^ 64
    → next_index ((to_decimal n ++ (b']' ∷ [])) ++ rest) ≡ ok (index n, rest)
unfolding next_index
next_index-text n rest h =
    let (_, digits) = to_decimal-digits n in
    let split =
      ap split_bracket (append_assoc (to_decimal n) (b']' ∷ []) rest)
      ∙ split_bracket-append (to_decimal n) rest digits in
    bind-ok _ (ap (λ o. ok_or o path_invalid) split) ∙ bind-ok _ (parse_index-to_decimal n h)

-- A step is read from its text.
pub next_step-text :
    (step : SelectorStep) (rest : List ℕ)
    → IsStep step
    → stops rest ≡ true
    → next_step (step_mark step) (step_body step ++ rest) ≡ ok (step, rest)
unfolding next_step next_name
next_step-text (name member) rest h s = bind-ok _ (parse_identifier-append member rest h s)
next_step-text (index n) rest h s = next_index-text n rest h
