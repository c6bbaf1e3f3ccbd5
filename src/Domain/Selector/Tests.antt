-- ===== src/Domain/Selector/Tests.antt =====
-- crates/jlink-domain/src/dwarf.rs: a path with an index that is not in its canonical form.
use jlink_mcp_v.Base.{ℕ, ◌≡◌, refl, List, [], ◌∷◌, none}
use jlink_mcp_v.Domain.Error.{ok}
use jlink_mcp_v.Domain.Dwarf.{VariableSelector}
use jlink_mcp_v.Domain.Selector.{SelectorStep, new_selector, parse_selector_path}
use jlink_mcp_v.Domain.Selector.RoundTrip.{new_selector-normal}

-- `m.v[07]`
abbrev given : List ℕ
given = b'm' ∷ b'.' ∷ b'v' ∷ b'[' ∷ b'0' ∷ b'7' ∷ b']' ∷ []

abbrev normal : VariableSelector
normal = record { path = b'm' ∷ b'.' ∷ b'v' ∷ b'[' ∷ b'7' ∷ b']' ∷ []; slice = none }

given_accepted : new_selector given none ≡ ok normal
unfolding new_selector
given_accepted = refl

new_selector-normal_example :
    (root : List ℕ) × (steps : List SelectorStep) × (parse_selector_path given ≡ ok (root, steps))
    × (parse_selector_path normal.path ≡ ok (root, steps))
    × (new_selector normal.path normal.slice ≡ ok normal)
new_selector-normal_example = new_selector-normal given none normal given_accepted
