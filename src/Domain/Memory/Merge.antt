-- ===== src/Domain/Memory/Merge.antt =====
-- crates/jlink-domain/src/memory.rs, merge_safe_memory_reads: adjacent safe reads become one call.
pub mod Bytes
pub mod Groups
use mathlib.Core.List.{reverse}
use jlink_mcp_v.Base.{
  ℕ, ◌+◌, ◌%◌, ◌≡◌, refl, Bool, true, false, not, ◌&&◌, Option, none, some, List, [], ◌∷◌, ◌++◌,
  arith, ltb, leb, ◌==◌, if◌then◌else◌, wrapping_add, get_elem?, length,
}
use jlink_mcp_v.Domain.Memory.{MemoryRange, MemoryRegionKind, flash, ram, mmio, kind_eq, range_end}

pub data MemoryReadOrigin : Type 0 where
  raw static_variable : MemoryReadOrigin

pub record MemoryReadPlan : Type 0 where
  pub range : MemoryRange
  pub region : MemoryRegionKind
  pub origin : MemoryReadOrigin
  pub is_volatile : Bool

side_effect_free : MemoryReadOrigin → MemoryRegionKind → Bool
side_effect_free raw region = kind_eq region ram
side_effect_free static_variable region = not (kind_eq region mmio)

-- SAFE_MERGE_ALIGNMENT
abbrev pub safe_merge_alignment : ℕ
safe_merge_alignment = 4

pub can_merge : MemoryReadPlan → Bool
unfolding side_effect_free
can_merge p =
    side_effect_free p.origin p.region
    && not p.is_volatile
    && p.range.address % safe_merge_alignment == 0
    && p.range.length % safe_merge_alignment == 0

pub record MemoryReadPart : Type 0 where
  pub index : ℕ
  pub offset : ℕ
  pub length : ℕ

pub record MergedMemoryRead : Type 0 where
  pub range : MemoryRange
  pub parts : List MemoryReadPart

-- `reads[current.parts[0].index]`; `none` where the source would panic.
first_read : List MemoryReadPlan → MergedMemoryRead → Option MemoryReadPlan
first_read reads current = elim (get_elem? current.parts 0) [
  | none ↦ none
  | some part ↦ get_elem? reads part.index
]

can_extend : Option MemoryReadPlan → MemoryReadPlan → MergedMemoryRead → Bool
can_extend none read current = false
can_extend (some first) read current =
    can_merge first
    && can_merge read
    && kind_eq first.region read.region
    && range_end current.range == read.range.address

abbrev pub single : ℕ → MemoryReadPlan → MergedMemoryRead
single index read = record {
  range = read.range;
  parts = record { index = index; offset = 0; length = read.range.length } ∷ [];
}

abbrev pub part_after : ℕ → MemoryReadPlan → MergedMemoryRead → MemoryReadPart
part_after index read current = record {
  index = index;
  offset = current.range.length;
  length = read.range.length;
}

abbrev pub extend : ℕ → MemoryReadPlan → MergedMemoryRead → MergedMemoryRead
extend index read current = record {
  range = record {
    address = current.range.address;
    length = wrapping_add current.range.length read.range.length;
  };
  parts = current.parts ++ part_after index read current ∷ [];
}

-- One round of the loop. The head of `merged` is the back of the vector.
step : List MemoryReadPlan → ℕ → MemoryReadPlan → List MergedMemoryRead → List MergedMemoryRead
unfolding first_read can_extend can_merge
step reads index read [] = single index read ∷ []
step reads index read (current ∷ before) =
    if can_extend (first_read reads current) read current
    then extend index read current ∷ before
    else single index read ∷ current ∷ before

merge_from :
    List MemoryReadPlan → ℕ → List MemoryReadPlan → List MergedMemoryRead → List MergedMemoryRead
unfolding step
merge_from reads index [] merged = merged
merge_from reads index (read ∷ rest) merged =
    merge_from reads (index + 1) rest (step reads index read merged)

unfoldable pub merge_safe_memory_reads : List MemoryReadPlan → List MergedMemoryRead
unfolding merge_from
merge_safe_memory_reads reads = reverse (merge_from reads 0 reads [])
