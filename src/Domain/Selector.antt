-- ===== src/Domain/Selector.antt =====
-- crates/jlink-domain/src/dwarf.rs: variable selectors, the text of their paths, and access plans.
pub mod Grammar
pub mod Steps
pub mod RoundTrip
pub mod Execution
mod Tests
use jlink_mcp_v.Base.{
  ℕ, zero, suc, ◌+◌, ◌^◌, ◌≡◌, Bool, true, false, not, ◌&&◌, ◌||◌, List, [], ◌∷◌, ◌++◌, Option,
  none, some, if◌then◌else◌, ltb, leb, ◌==◌, length, all, eq, nat_equal, list_equal, checked_add,
  u64_mod,
}
use jlink_mcp_v.Base.Decimal.{to_decimal, parse_unsigned_text}
use jlink_mcp_v.Base.Text.{trim, is_ascii_alphanumeric}
use jlink_mcp_v.Domain.Error.{
  JlinkError, new, Result, ok, err, ◌>>=◌, ◌>>◌, ensure, ok_or, value_invalid, slice_required,
}
use jlink_mcp_v.Domain.Dwarf.{ElementSlice, VariableSelector}

abbrev pub path_invalid : JlinkError
path_invalid = new value_invalid false

-- ElementSlice::new
unfoldable pub new_slice : ℕ → ℕ → Result ElementSlice
new_slice start count = do
  ensure (not (count == 0)) (new slice_required false)
  _ ← ok_or (checked_add start count) (new slice_required false)
  ok (record { start = start; count = count })

pub data SelectorStep : Type 0 where
  name : List ℕ → SelectorStep
  index : ℕ → SelectorStep

abbrev pub is_ascii_digit : ℕ → Bool
is_ascii_digit c = leb b'0' c && leb c b'9'

abbrev pub is_identifier_start : ℕ → Bool
is_identifier_start c = (leb b'A' c && leb c b'Z') || ((leb b'a' c && leb c b'z') || c == b'_')

abbrev pub is_identifier_char : ℕ → Bool
is_identifier_char c = is_ascii_digit c || is_identifier_start c

-- A cursor into a path is the text behind it; the loop takes the characters of an identifier.
unfoldable pub span_identifier : List ℕ → List ℕ × List ℕ
span_identifier [] = ([], [])
span_identifier (c ∷ cs) =
    let rest = span_identifier cs in
    if is_identifier_char c then (c ∷ rest.0, rest.1) else ([], c ∷ cs)

unfoldable pub parse_identifier : List ℕ → Result (List ℕ × List ℕ)
unfolding span_identifier
parse_identifier [] = err path_invalid
parse_identifier (c ∷ cs) = do
  ensure (is_identifier_start c) path_invalid
  let rest = span_identifier cs
  ok (c ∷ rest.0, rest.1)

abbrev cons_token : ℕ → Option (List ℕ × List ℕ) → Option (List ℕ × List ℕ)
cons_token c none = none
cons_token c (some (token, rest)) = some (c ∷ token, rest)

-- What stands before the first `]`, and behind it.
unfoldable pub split_bracket : List ℕ → Option (List ℕ × List ℕ)
split_bracket [] = none
split_bracket (c ∷ cs) =
    let rest = split_bracket cs in if c == b']' then some ([], cs) else cons_token c rest

abbrev as_u64 : Option ℕ → Option ℕ
as_u64 none = none
as_u64 (some n) = if ltb n u64_mod then some n else none

unfoldable pub parse_index : List ℕ → Result ℕ
unfolding parse_unsigned_text
parse_index token = do
  ensure (not (length token == 0) && all is_ascii_digit token) path_invalid
  ok_or (as_u64 (parse_unsigned_text token)) path_invalid

unfoldable pub next_name : List ℕ → Result (SelectorStep × List ℕ)
unfolding parse_identifier
next_name cs = do (member, rest) ← parse_identifier cs; ok (name member, rest)

unfoldable pub next_index : List ℕ → Result (SelectorStep × List ℕ)
unfolding split_bracket parse_index
next_index cs = do
  (token, rest) ← ok_or (split_bracket cs) path_invalid
  n ← parse_index token
  ok (index n, rest)

unfoldable pub next_step : ℕ → List ℕ → Result (SelectorStep × List ℕ)
unfolding next_name next_index
next_step c cs =
    if c == b'.' then next_name cs else if c == b'[' then next_index cs else err path_invalid

-- The loop over the steps: each takes at least one byte, so that the length of the text is fuel enough.
unfoldable pub parse_steps :
    {S : Type 0} → (ℕ → List ℕ → Result (S × List ℕ)) → ℕ → List ℕ → Result (List S)
parse_steps next fuel [] = ok []
parse_steps next zero (c ∷ cs) = err path_invalid
parse_steps next (suc fuel) (c ∷ cs) = do
  (step, rest) ← next c cs
  steps ← parse_steps next fuel rest
  ok (step ∷ steps)

abbrev is_ascii : ℕ → Bool
is_ascii c = ltb c 128

unfoldable pub is_path_text : List ℕ → Bool
unfolding trim
is_path_text path = not (length path == 0) && (eq (trim path) path && all is_ascii path)

unfoldable pub parse_path :
    {S : Type 0} → (ℕ → List ℕ → Result (S × List ℕ)) → List ℕ → Result (List ℕ × List S)
unfolding is_path_text parse_identifier parse_steps
parse_path next path = do
  ensure (is_path_text path) path_invalid
  (root, rest) ← parse_identifier path
  steps ← parse_steps next (length rest) rest
  ok (root, steps)

unfoldable pub parse_selector_path : List ℕ → Result (List ℕ × List SelectorStep)
unfolding parse_path next_step
parse_selector_path = parse_path next_step

abbrev pub step_mark : SelectorStep → ℕ
step_mark (name member) = b'.'
step_mark (index n) = b'['

abbrev pub step_body : SelectorStep → List ℕ
step_body (name member) = member
step_body (index n) = to_decimal n ++ (b']' ∷ [])

abbrev pub step_text : SelectorStep → List ℕ
step_text step = step_mark step ∷ step_body step

abbrev pub normalized : {S : Type 0} → (S → List ℕ) → List ℕ → List S → List ℕ
normalized text root [] = root
normalized text root (step ∷ steps) = normalized text (root ++ text step) steps

unfoldable pub new_selector : List ℕ → Option ElementSlice → Result VariableSelector
unfolding parse_selector_path
new_selector path slice = do
  (root, steps) ← parse_selector_path path
  ok (record { path = normalized step_text root steps; slice = slice })

-- `split(['.', '[']).next()`
unfoldable pub root_of : List ℕ → List ℕ
root_of [] = []
root_of (c ∷ cs) = let rest = root_of cs in if c == b'.' || c == b'[' then [] else c ∷ rest

unfoldable pub selector_steps : VariableSelector → Result (List SelectorStep)
unfolding parse_selector_path
selector_steps s = do (root, steps) ← parse_selector_path s.path; ok steps

abbrev slice_text : ElementSlice → List ℕ
slice_text s =
    b'|'
    ∷ b's'
    ∷ b'l'
    ∷ b'i'
    ∷ b'c'
    ∷ b'e'
    ∷ b':'
    ∷ (to_decimal s.start ++ (b':' ∷ to_decimal s.count))

unfoldable pub cache_fragment : VariableSelector → List ℕ
cache_fragment s = elim (s.slice) [ none ↦ s.path | some slice ↦ s.path ++ slice_text slice ]
