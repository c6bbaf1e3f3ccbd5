-- ===== src/Domain/Memory/Tests.antt =====
-- The theorems on memory.rs at concrete inputs.
use jlink_mcp_v.Base.{ℕ, ◌≡◌, refl, List, [], ◌∷◌, ◌≢◌, arith, All, length, false}
use mathlib.Core.List.{Perm}
use jlink_mcp_v.Base.Sort.{sort_by_key}
use jlink_mcp_v.Domain.Error.{ok}
use jlink_mcp_v.Domain.Memory.{
  MemoryRegion, MemoryRange, flash, ram, mmio, DeviceMemoryMap, new_map, classify, checked_end,
  validate_range, ensure_ordinary_write,
}
use jlink_mcp_v.Domain.Memory.Map.{
  IsWellFormed, Holds, kind_at, new_map-IsWellFormed, classify-kind_at,
  ensure_ordinary_write-avoids_flash,
}
use jlink_mcp_v.Domain.Memory.Merge.{MemoryReadPlan, raw, merge_safe_memory_reads}
use jlink_mcp_v.Domain.Memory.Merge.Bytes.{decode, read_each, merge_safe_memory_reads-decode}
use jlink_mcp_v.Domain.Memory.Merge.Groups.{IsSafeGroup, merge_safe_memory_reads-IsSafeGroup}

abbrev flash_region : MemoryRegion
flash_region = record { address = 0x8000000; length = 0x10000; kind = flash }

abbrev ram_region : MemoryRegion
ram_region = record { address = 0x20000000; length = 0x5000; kind = ram }

abbrev device : List MemoryRegion
device = ram_region ∷ flash_region ∷ []

abbrev device_map : DeviceMemoryMap
device_map = record { regions = flash_region ∷ ram_region ∷ [] }

abbrev ram_word : MemoryRange
ram_word = record { address = 0x20000010; length = 4 }

new_map-IsWellFormed_example : IsWellFormed device_map × Perm device_map.regions device
unfolding new_map checked_end sort_by_key
new_map-IsWellFormed_example = new_map-IsWellFormed device device_map refl

device-IsWellFormed : IsWellFormed device_map
device-IsWellFormed = new_map-IsWellFormed_example.0

classify-kind_at_example : kind_at device_map.regions 0x20000013 ≡ ram
unfolding classify checked_end validate_range
classify-kind_at_example =
    classify-kind_at device_map ram_word ram 0x20000013 device-IsWellFormed refl (omega arith)

ensure_ordinary_write-avoids_flash_example :
    All (λ (r : MemoryRegion). r.kind ≡ flash → ¬ Holds r 0x20000013) device
unfolding new_map checked_end ensure_ordinary_write validate_range sort_by_key
ensure_ordinary_write-avoids_flash_example =
    ensure_ordinary_write-avoids_flash device device_map ram_word ram 0x20000013 refl refl
      (omega arith)

-- A write that crosses the end of the Flash region is refused.
crossing : ensure_ordinary_write device_map (record { address = 0x800fffe; length = 4 }) ≢ ok mmio
unfolding ensure_ordinary_write checked_end validate_range
crossing e = cc e

abbrev word_at : ℕ → MemoryReadPlan
word_at a = record {
  range = record { address = a; length = 4 };
  region = ram;
  origin = raw;
  is_volatile = false;
}

abbrev reads : List MemoryReadPlan
reads = word_at 0x20000000 ∷ word_at 0x20000004 ∷ word_at 0x20000010 ∷ []

two_calls : length (merge_safe_memory_reads reads) ≡ 2
unfolding merge_safe_memory_reads
two_calls = refl

merge_safe_memory_reads-decode_example :
    decode (λ a. a) (merge_safe_memory_reads reads) ≡ read_each (λ a. a) reads
merge_safe_memory_reads-decode_example = merge_safe_memory_reads-decode (λ a. a) reads (omega arith)

merge_safe_memory_reads-IsSafeGroup_example :
    All (IsSafeGroup reads) (merge_safe_memory_reads reads)
merge_safe_memory_reads-IsSafeGroup_example = merge_safe_memory_reads-IsSafeGroup reads

abbrev written : List ℕ
written = 1 ∷ 2 ∷ []

abbrev seen : List ℕ
seen = 1 ∷ 3 ∷ []
