-- ===== src/Domain/Selector/Execution.antt =====
-- crates/jlink-domain/src/dwarf.rs: AccessPlan::validate_for_execution.
use jlink_mcp_v.Base.{
  ℕ, ◌^◌, refl, Bool, false, not, ◌&&◌, ◌||◌, List, Option, none, some, ltb, leb, ◌==◌, length, all,
  eq, Equal, equal_by, ◌⊗◌, nat_equal, list_equal, option_equal, checked_add, checked_mul,
}
use jlink_mcp_v.Base.Text.{is_ascii_hexdigit}
use jlink_mcp_v.Domain.Error.{new, Result, ok, ◌>>=◌, ◌>>◌, ensure, ok_or, type_unsupported}
use jlink_mcp_v.Domain.Dwarf.{BitRange, AccessPlan, byte_size, ElementSlice, VariableSelector}
use jlink_mcp_v.Domain.Selector.{path_invalid, new_selector}

-- ACCESS_PLAN_FORMAT_VERSION
abbrev pub access_plan_format_version : ℕ
access_plan_format_version = 1

-- The derived `PartialEq`s.
instance abbrev pub slice_equal : Equal ElementSlice
slice_equal =
    equal_by (nat_equal ⊗ nat_equal) (λ s. (s.start, s.count))
      (λ (a, b). record { start = a; count = b }) (λ s. refl)

instance abbrev pub selector_equal : Equal VariableSelector
selector_equal =
    equal_by (list_equal ⊗ option_equal) (λ s. (s.path, s.slice))
      (λ (p, s). record { path = p; slice = s }) (λ s. refl)

unfoldable pub is_sha256 : List ℕ → Bool
unfolding is_ascii_hexdigit
is_sha256 text = length text == 64 && all is_ascii_hexdigit text

check_bits : Option BitRange → ℕ → Result (Unit {0})
check_bits none size = ok tt
check_bits (some bits) size = do
  storage_bits ← ok_or (checked_mul size 8) path_invalid
  bit_end ← ok_or (checked_add bits.lsb bits.width) path_invalid
  ensure (not (bits.width == 0 || ltb storage_bits bit_end)) path_invalid

unfoldable pub validate_for_execution : AccessPlan → Result (Unit {0})
unfolding is_sha256 new_selector byte_size check_bits
validate_for_execution plan = do
  ensure (plan.parser_format_version == access_plan_format_version) path_invalid
  ensure (is_sha256 plan.elf_sha256) path_invalid
  normal ← new_selector plan.selector.path plan.selector.slice
  ensure (eq normal plan.selector) path_invalid
  ensure (not (plan.plan_byte_size == 0) && eq (byte_size plan.layout) (some plan.plan_byte_size))
      (new type_unsupported false)
  end ← ok_or (checked_add plan.address plan.plan_byte_size) path_invalid
  ensure (leb end (2 ^ 32)) path_invalid
  check_bits plan.bit_range plan.plan_byte_size
