-- ===== src/Domain/Dwarf.antt =====
-- crates/jlink-domain/src/dwarf.rs: how a resolved variable lies in target memory.
use jlink_mcp_v.Base.{
  ℕ, Bool, true, false, ◌&&◌, List, Option, none, some, checked_mul, if◌then◌else◌,
}

pub data ScalarEncoding : Type 0 where
  signed unsigned boolean float other : ScalarEncoding

pub record BitRange : Type 0 where
  pub lsb : ℕ
  pub width : ℕ

-- An AccessMember stands in the list of its neighbours, with its name, `byte_offset`,
-- `storage_size`, `dwarf_bit_offset`, `bit_size` and layout.
mutual
  pub data AccessLayout : Type 0 where
    scalar : List ℕ → ℕ → ScalarEncoding → AccessLayout
    pointer : ℕ → AccessLayout
    structure : ℕ → Members → AccessLayout
    union : ℕ → Members → AccessLayout
    array : AccessLayout → Option ℕ → AccessLayout

  pub data Members : Type 0 where
    no_members : Members
    member : List ℕ → ℕ → Option ℕ → Option ℕ → Option ℕ → AccessLayout → Members → Members

abbrev array_size : Option ℕ → ℕ → Option ℕ
array_size none count = none
array_size (some size) count = checked_mul size count

abbrev sized : Bool → ℕ → Option ℕ
sized all size = if all then some size else none

abbrev is_some : Option ℕ → Bool
is_some none = false
is_some (some n) = true

-- AccessLayout::byte_size
unfoldable mutual
  pub byte_size : AccessLayout → Option ℕ
  byte_size (scalar name size encoding) = some size
  byte_size (pointer size) = some size
  byte_size (structure size members) = sized (all_sized members) size
  byte_size (union size members) = sized (all_sized members) size
  byte_size (array element none) = none
  byte_size (array element (some count)) = array_size (byte_size element) count

  pub all_sized : Members → Bool
  all_sized no_members = true
  all_sized (member name offset storage bit_offset bits layout rest) =
      is_some (byte_size layout) && all_sized rest

pub record ElementSlice : Type 0 where
  pub start : ℕ
  pub count : ℕ

pub record VariableSelector : Type 0 where
  pub path : List ℕ
  pub slice : Option ElementSlice

pub record AccessPlan : Type 0 where
  pub elf_sha256 : List ℕ
  pub parser_format_version : ℕ
  pub selector : VariableSelector
  pub address : ℕ
  pub plan_byte_size : ℕ
  pub bit_range : Option BitRange
  pub is_volatile : Bool
  pub layout : AccessLayout
