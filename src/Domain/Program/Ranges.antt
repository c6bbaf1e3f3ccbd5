-- ===== src/Domain/Program/Ranges.antt =====
-- program.rs: the checks of Flash ranges before any target access.
use jlink_mcp_v.Base.{
  ℕ, ◌+◌, ◌≤◌, ◌<◌, ◌≡◌, refl, Bool, true, false, ◌&&◌, inl, inr, Option, none, some, List, [], ◌∷◌,
  ◌↔◌, arith, ltb, leb, ◌==◌, if◌then◌else◌, any, All, Bool-cases, checked_add, u64_mod, length,
}
use jlink_mcp_v.Domain.Error.{
  JlinkError, new, with_detail, num, Result, ok, err, ◌>>=◌, ◌>>◌, ok_or, flash_range_invalid,
  bind-eq-ok,
}
use jlink_mcp_v.Domain.Image.{FirmwareSegment}

pub record FlashRegion : Type 0 where
  pub address : ℕ
  pub length : ℕ

abbrev pub flash_range_error : ℕ → ℕ → JlinkError
flash_range_error address length =
    with_detail (with_detail (new flash_range_invalid false) "address" (num address)) "length"
      (num length)

unfoldable pub checked_end : ℕ → ℕ → Result ℕ
checked_end address length =
    if length == 0
    then err (flash_range_error address length)
    else ok_or (checked_add address length) (flash_range_error address length)

unfoldable pub new_flash_region : ℕ → ℕ → Result FlashRegion
unfolding checked_end
new_flash_region address length = do
  _ ← checked_end address length
  ok (record { address = address; length = length })

contains_checked : FlashRegion → ℕ → ℕ → Option ℕ → Option ℕ → Bool
contains_checked region address length none _ = false
contains_checked region address length (some end) none = false
contains_checked region address length (some end) (some region_end) =
    ltb 0 length && leb region.address address && leb end region_end

unfoldable pub contains : FlashRegion → ℕ → ℕ → Bool
unfolding contains_checked
contains region address length =
    contains_checked region address length (checked_add address length)
      (checked_add region.address region.length)

unfoldable pub validate_flash_range : List FlashRegion → ℕ → ℕ → Result (Unit {0})
unfolding checked_end contains
validate_flash_range regions address length = do
  _ ← checked_end address length
  if any (λ region. contains region address length) regions
      then ok tt
      else err (flash_range_error address length)

-- The segments of a parsed image, in order.
unfoldable pub validate_image_flash_ranges :
    List FirmwareSegment → List FlashRegion → Result (Unit {0})
unfolding validate_flash_range
validate_image_flash_ranges [] regions = ok tt
validate_image_flash_ranges (segment ∷ segments) regions = do
  validate_flash_range regions segment.address (length segment.bytes)
  validate_image_flash_ranges segments regions

abbrev pub IsInside : FlashRegion → ℕ → ℕ → Type 0
IsInside r address length =
    (r.address ≤ address)
    × (address + length ≤ r.address + r.length)
    × (r.address + r.length < u64_mod)

-- Some region holds the whole range.
pub data HasRegion (address length : ℕ) : List FlashRegion → Type 0 where
  here :
      {r : FlashRegion} {rs : List FlashRegion}
      → IsInside r address length
      → HasRegion address length (r ∷ rs)
  there :
      {r : FlashRegion} {rs : List FlashRegion}
      → HasRegion address length rs
      → HasRegion address length (r ∷ rs)

contains_iff :
    (r : FlashRegion) (address length : ℕ)
    → 0 < length
    → (contains r address length ≡ true) ↔ IsInside r address length
unfolding contains
contains_iff r address length h =
    (λ e. (ground arith, ground arith, ground arith), λ i. ground arith)

HasRegion-of_any :
    (address length : ℕ) (rs : List FlashRegion)
    → 0 < length
    → any (λ r. contains r address length) rs ≡ true
    → HasRegion address length rs
HasRegion-of_any address length [] h e = cc
HasRegion-of_any address length (r ∷ rs) h e = elim (Bool-cases (contains r address length)) [
  | inl hit ↦ here ((contains_iff r address length h).0 hit)
  | inr miss ↦ there (HasRegion-of_any address length rs h (rw miss at e))
]

any-of_HasRegion :
    (address length : ℕ) (rs : List FlashRegion)
    → 0 < length
    → HasRegion address length rs
    → any (λ r. contains r address length) rs ≡ true
any-of_HasRegion address length _ h (here {r = r} i) = rw ((contains_iff r address length h).1 i)
any-of_HasRegion address length _ h (there {r = r} {rs = rs} k) =
    ground (arith, any-of_HasRegion address length rs h k)

HasRegion-bounded :
    (address length : ℕ) (rs : List FlashRegion)
    → HasRegion address length rs
    → address + length < u64_mod
HasRegion-bounded address length _ (here i) = omega arith
HasRegion-bounded address length _ (there {rs = rs} k) = HasRegion-bounded address length rs k

checked_end-pos : (address length : ℕ) {e : ℕ} → checked_end address length ≡ ok e → 0 < length
unfolding checked_end
checked_end-pos address length h = ground arith

checked_end_lem :
    (address length : ℕ)
    → 0 < length
    → address + length < u64_mod
    → checked_end address length ≡ ok (address + length)
unfolding checked_end
checked_end_lem address length h k = ground arith

validate_flash_range_sound :
    (rs : List FlashRegion) (address length : ℕ)
    → validate_flash_range rs address length ≡ ok tt
    → (0 < length) × HasRegion address length rs
unfolding validate_flash_range
validate_flash_range_sound rs address length h =
    let (_, ended, found) = bind-eq-ok _ (checked_end address length) h in
    let nonempty = checked_end-pos address length ended in
    elim (Bool-cases (any (λ r. contains r address length) rs)) [
      | inl inside ↦ (nonempty, HasRegion-of_any address length rs nonempty inside)
      | inr outside ↦ absurd (cc (rw outside at found))
    ]

validate_flash_range_complete :
    (rs : List FlashRegion) (address length : ℕ)
    → 0 < length
    → HasRegion address length rs
    → validate_flash_range rs address length ≡ ok tt
unfolding validate_flash_range
validate_flash_range_complete rs address length h k = rw (
  checked_end_lem address length h (HasRegion-bounded address length rs k),
  any-of_HasRegion address length rs h k,
)

-- Every segment is non-empty and lies inside one region.
abbrev pub Placed : List FlashRegion → List FirmwareSegment → Type 0
Placed regions = All (λ s. (0 < length s.bytes) × HasRegion s.address (length s.bytes) regions)

-- An image passes exactly if each of its segments is non-empty and lies as a whole inside one
-- region of the device whose end is below 2^64.
pub validate_image_flash_ranges_iff :
    (segments : List FirmwareSegment) (regions : List FlashRegion)
    → (validate_image_flash_ranges segments regions ≡ ok tt) ↔ Placed regions segments
unfolding validate_image_flash_ranges
validate_image_flash_ranges_iff [] regions = (λ _. tt, λ _. refl)
validate_image_flash_ranges_iff (s ∷ segments) regions = (
  λ h.
      let (_, first, rest) =
        bind-eq-ok _ (validate_flash_range regions s.address (length s.bytes)) h in
      (
        validate_flash_range_sound regions s.address (length s.bytes) first,
        (validate_image_flash_ranges_iff segments regions).0 rest,
      ),
  λ h. rw (
    validate_flash_range_complete regions s.address (length s.bytes) h.0.0 h.0.1,
    (validate_image_flash_ranges_iff segments regions).1 h.1,
  ),
)
