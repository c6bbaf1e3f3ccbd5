-- ===== src/Domain/Memory.antt =====
-- crates/jlink-domain/src/memory.rs: target ranges, the device memory map and its checks.
pub mod Map
pub mod Merge
pub mod Write
pub mod Request
mod Tests
use jlink_mcp_v.Base.{
  ℕ, ◌+◌, ◌<◌, ◌≤◌, ◌^◌, ◌≡◌, refl, Bool, true, false, not, ◌&&◌, ◌||◌, Option, none, some, List,
  [], ◌∷◌, arith, ltb, leb, ◌==◌, if◌then◌else◌, checked_add, wrapping_add, all, any, find,
}
use jlink_mcp_v.Base.Sort.{sort_by_key}
use jlink_mcp_v.Domain.Error.{
  JlinkError, new, with_detail, num, text, Result, ok, err, ◌>>=◌, ◌>>◌, ensure, ok_or,
  address_out_of_range, value_invalid,
}

-- MAX_RAW_MEMORY_BYTES, CORTEX_M_ADDRESS_SPACE_END, SAFE_MERGE_ALIGNMENT
abbrev pub max_raw_memory_bytes : ℕ
max_raw_memory_bytes = 4096

abbrev pub cortex_m_address_space_end : ℕ
cortex_m_address_space_end = 2 ^ 32

pub data MemoryRegionKind : Type 0 where
  flash ram mmio : MemoryRegionKind

abbrev pub kind_eq : MemoryRegionKind → MemoryRegionKind → Bool
kind_eq flash flash = true
kind_eq ram ram = true
kind_eq mmio mmio = true
kind_eq _ _ = false

pub record MemoryRegion : Type 0 where
  pub address : ℕ
  pub length : ℕ
  pub kind : MemoryRegionKind

pub record MemoryRange : Type 0 where
  pub address : ℕ
  pub length : ℕ

abbrev pub address_error : JlinkError
address_error = new address_out_of_range false

unfoldable pub checked_end : ℕ → ℕ → Result ℕ
checked_end address length = if length == 0 then err address_error else do
  end ← ok_or (checked_add address length) address_error
  if ltb cortex_m_address_space_end end then err address_error else ok end

pub new_region : ℕ → ℕ → MemoryRegionKind → Result MemoryRegion
new_region address length kind = do
  _ ← checked_end address length
  ok (record { address = address; length = length; kind = kind })

unfoldable pub new_range : ℕ → ℕ → Result MemoryRange
new_range address length = do
  _ ← checked_end address length
  ok (record { address = address; length = length })

unfoldable pub raw_range : ℕ → ℕ → Result MemoryRange
unfolding new_range
raw_range address length =
    if leb 1 length && leb length max_raw_memory_bytes
    then new_range address length
    else err (new value_invalid false)

abbrev pub region_end : MemoryRegion → ℕ
region_end r = wrapping_add r.address r.length

abbrev pub range_end : MemoryRange → ℕ
range_end r = wrapping_add r.address r.length

unfoldable pub validate_range : MemoryRange → Result (Unit {0})
validate_range r = do _ ← checked_end r.address r.length; ok tt

unfoldable contains : MemoryRegion → MemoryRange → Bool
contains region range =
    leb region.address range.address && leb (range_end range) (region_end region)

unfoldable overlaps : MemoryRegion → MemoryRange → Bool
overlaps region range =
    ltb region.address (range_end range) && ltb range.address (region_end region)

pub record DeviceMemoryMap : Type 0 where
  pub regions : List MemoryRegion

-- `regions.windows(2).any(|pair| pair[0].end() > pair[1].address)`
any_window_overlaps : List MemoryRegion → Bool
any_window_overlaps [] = false
any_window_overlaps (a ∷ []) = false
any_window_overlaps (a ∷ b ∷ rest) = ltb b.address (region_end a) || any_window_overlaps (b ∷ rest)

-- The loop of `DeviceMemoryMap::new` over its regions.
check_regions : List MemoryRegion → Result (Unit {0})
unfolding new_region
check_regions [] = ok tt
check_regions (region ∷ regions) = do
  _ ← new_region region.address region.length region.kind
  if kind_eq region.kind mmio then err address_error else check_regions regions

unfoldable pub new_map : List MemoryRegion → Result DeviceMemoryMap
unfolding check_regions any_window_overlaps
new_map regions = do
  check_regions regions
  let sorted = sort_by_key (λ (r : MemoryRegion). r.address) regions
  if any_window_overlaps sorted then err address_error else ok (record { regions = sorted })

unfoldable pub classify : DeviceMemoryMap → MemoryRange → Result MemoryRegionKind
unfolding contains overlaps
classify map range = do
  validate_range range
  elim (find (λ region. contains region range) map.regions) [
    | some region ↦ ok region.kind
    | none ↦
        if any (λ region. overlaps region range) map.regions
        then err (
            with_detail (with_detail address_error "address" (num range.address)) "length"
              (num range.length))
        else ok mmio
  ]

unfoldable pub ensure_ordinary_write : DeviceMemoryMap → MemoryRange → Result MemoryRegionKind
unfolding classify
ensure_ordinary_write map range = do
  kind ← classify map range
  if kind_eq kind flash
      then err (
          with_detail (with_detail address_error "region" (text "flash")) "use_tool"
            (text "jlink_program"))
      else ok kind
