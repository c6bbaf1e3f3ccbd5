-- ===== src/Domain/Memory/Map.antt =====
-- What DeviceMemoryMap::new, classify and ensure_ordinary_write of memory.rs guarantee.
use mathlib.Core.List.{Perm}
use jlink_mcp_v.Base.{
  ℕ, ◌+◌, ◌<◌, ◌≤◌, ◌≡◌, ◌≢◌, refl, true, false, ◌&&◌, ◌⊎◌, inl, inr, some, List, [], ◌∷◌, arith,
  ltb, leb, if◌then◌else◌, All, any, find, All-find, All-map, Option-cases, Bool-cases, ap, ◌∙◌,
  subst, sym,
}
use jlink_mcp_v.Base.Sort.{sort_by_key, sort_by_key-perm, All-sort, All-sort_inv}
use jlink_mcp_v.Domain.Error.{JlinkError, ok, err, bind-eq-ok}
use jlink_mcp_v.Domain.Memory.{
  MemoryRegion, MemoryRange, MemoryRegionKind, flash, mmio, kind_eq, DeviceMemoryMap, checked_end,
  new_region, validate_range, contains, overlaps, any_window_overlaps, check_regions, new_map,
  classify, ensure_ordinary_write, cortex_m_address_space_end,
}

abbrev pub Holds : MemoryRegion → ℕ → Type 0
Holds r a = (r.address ≤ a) × (a < r.address + r.length)

abbrev pub Covers : MemoryRange → ℕ → Type 0
Covers r a = (r.address ≤ a) × (a < r.address + r.length)

pub record IsValidRange (r : MemoryRange) : Type 0 where
  pub nonempty : 0 < r.length
  pub bounded : r.address + r.length ≤ cortex_m_address_space_end

pub record IsValidRegion (r : MemoryRegion) : Type 0 where
  pub nonempty : 0 < r.length
  pub bounded : r.address + r.length ≤ cortex_m_address_space_end
  pub declared : r.kind ≢ mmio

abbrev pub IsSeparated : List MemoryRegion → Type 0
IsSeparated [] = Unit
IsSeparated (r ∷ rs) = All (λ s. r.address + r.length ≤ s.address) rs × IsSeparated rs

pub record IsWellFormed (m : DeviceMemoryMap) : Type 0 where
  pub valid : All IsValidRegion m.regions
  pub separated : IsSeparated m.regions

pub checked_end-eq-ok :
    (address length : ℕ) {e : ℕ}
    → checked_end address length ≡ ok e
    → (0 < length) × (address + length ≤ cortex_m_address_space_end) × (e ≡ address + length)
unfolding checked_end
checked_end-eq-ok address length h = ground arith

check_regions-valid :
    (rs : List MemoryRegion) {u : Unit {0}} → check_regions rs ≡ ok u → All IsValidRegion rs
unfolding check_regions
check_regions-valid [] h = tt
check_regions-valid (r ∷ rs) h =
    let (_, checked, rest) = bind-eq-ok _ (new_region r.address r.length r.kind) h in
    let (_, ended, _) = bind-eq-ok _ (checked_end r.address r.length) checked in
    let (nonempty, bounded, _) = checked_end-eq-ok r.address r.length ended in
    (
      record { nonempty = nonempty; bounded = bounded; declared = ground arith },
      check_regions-valid rs (ground arith),
    )

IsSeparated-of_windows :
    (rs : List MemoryRegion)
    → All IsValidRegion rs
    → any_window_overlaps rs ≡ false
    → IsSeparated rs
unfolding any_window_overlaps
IsSeparated-of_windows [] v h = tt
IsSeparated-of_windows (a ∷ []) v h = (tt, tt)
IsSeparated-of_windows (a ∷ b ∷ rest) v h =
    let behind : IsSeparated (b ∷ rest) = IsSeparated-of_windows (b ∷ rest) v.1 (ground arith) in
    let near : a.address + a.length ≤ b.address = ground arith in
    ((near, All-map _ _ (λ s p. omega (arith, v.1.0.nonempty)) rest behind.0), behind)

-- The kind of the byte at an address: that of the first region which holds it, MMIO elsewhere.
pub kind_at : List MemoryRegion → ℕ → MemoryRegionKind
kind_at [] a = mmio
kind_at (r ∷ rs) a =
    if leb r.address a && ltb a (r.address + r.length) then r.kind else kind_at rs a

Holds-of_contains :
    (r : MemoryRegion) (range : MemoryRange) (a : ℕ)
    → IsValidRegion r
    → IsValidRange range
    → contains r range ≡ true
    → Covers range a
    → Holds r a
unfolding contains
Holds-of_contains r range a v w h c = ground arith

kind_at-here :
    (r : MemoryRegion) (rs : List MemoryRegion) (a : ℕ) → Holds r a → kind_at (r ∷ rs) a ≡ r.kind
unfolding kind_at
kind_at-here r rs a h = ground arith

kind_at-there :
    (r : MemoryRegion) (rs : List MemoryRegion) (a : ℕ)
    → ¬ Holds r a
    → kind_at (r ∷ rs) a ≡ kind_at rs a
unfolding kind_at
kind_at-there r rs a h = ground arith

kind_at-contained :
    (rs : List MemoryRegion) (range : MemoryRange) (r : MemoryRegion) (a : ℕ)
    → All IsValidRegion rs
    → IsSeparated rs
    → IsValidRange range
    → find (λ s. contains s range) rs ≡ some r
    → Covers range a
    → kind_at rs a ≡ r.kind
kind_at-contained [] range r a v s w e c = cc
kind_at-contained (x ∷ rs) range r a v s w e c = elim (Bool-cases (contains x range)) [
  | inl hit ↦
      let found : x ≡ r = cc (rw hit at e) in
      kind_at-here x rs a (Holds-of_contains x range a v.0 w hit c)
      ∙ ap (λ (t : MemoryRegion). t.kind) found
  | inr miss ↦
      let later = rw miss at e in
      let behind =
        All-find (λ t. x.address + x.length ≤ t.address) (λ t. contains t range) rs s.0 later in
      let valid = All-find IsValidRegion (λ t. contains t range) rs v.1 later in
      let held : Holds r a = Holds-of_contains r range a valid.0 w valid.1 c in
      kind_at-there x rs a (λ h. omega (arith, behind.0))
      ∙ kind_at-contained rs range r a v.1 s.1 w later c
]

not-Holds-of_overlaps :
    (r : MemoryRegion) (range : MemoryRange) (a : ℕ)
    → IsValidRegion r
    → IsValidRange range
    → overlaps r range ≡ false
    → Covers range a
    → ¬ Holds r a
unfolding overlaps
not-Holds-of_overlaps r range a v w h c k = ground arith

kind_at-apart :
    (rs : List MemoryRegion) (range : MemoryRange) (a : ℕ)
    → All IsValidRegion rs
    → IsValidRange range
    → any (λ s. overlaps s range) rs ≡ false
    → Covers range a
    → kind_at rs a ≡ mmio
unfolding kind_at
kind_at-apart [] range a v w h c = refl
kind_at-apart (x ∷ rs) range a v w h c =
    kind_at-there x rs a (not-Holds-of_overlaps x range a v.0 w (ground arith) c)
    ∙ kind_at-apart rs range a v.1 w (ground arith) c

validate_range-IsValidRange :
    (range : MemoryRange) {u : Unit {0}} → validate_range range ≡ ok u → IsValidRange range
unfolding validate_range
validate_range-IsValidRange range h =
    let (_, ended, _) = bind-eq-ok _ (checked_end range.address range.length) h in
    let (nonempty, bounded, _) = checked_end-eq-ok range.address range.length ended in
    record { nonempty = nonempty; bounded = bounded }

abbrev by_address : MemoryRegion → ℕ
by_address r = r.address

-- What an accepted map consists of.
new_map-parts :
    (rs : List MemoryRegion) (m : DeviceMemoryMap)
    → new_map rs ≡ ok m
    → All IsValidRegion rs
      × (any_window_overlaps (sort_by_key by_address rs) ≡ false)
      × (m.regions ≡ sort_by_key by_address rs)
unfolding new_map
new_map-parts rs m h =
    let (_, checked, rest) = bind-eq-ok _ (check_regions rs) h in
    elim (Bool-cases (any_window_overlaps (sort_by_key by_address rs))) [
      | inl crossing ↦ absurd (cc (rw crossing at rest))
      | inr apart ↦ (check_regions-valid rs checked, apart, ground arith)
    ]

-- A memory map that `new_map` accepts holds the given regions, in some order: each is non-empty,
-- lies in the 32-bit space and is Flash or RAM, they ascend, and none reaches into a later one.
pub new_map-IsWellFormed :
    (rs : List MemoryRegion) (m : DeviceMemoryMap)
    → new_map rs ≡ ok m
    → IsWellFormed m × Perm m.regions rs
new_map-IsWellFormed rs m h =
    let (checked, apart, sorted) = new_map-parts rs m h in
    let valid = All-sort by_address IsValidRegion rs checked in
    (
      rw sorted (record { valid = valid; separated = IsSeparated-of_windows _ valid apart }),
      rw sorted (sort_by_key-perm by_address rs),
    )

-- In a well-formed map, a range that `classify` accepts as of a kind has that kind at every byte.
pub classify-kind_at :
    (m : DeviceMemoryMap) (range : MemoryRange) (k : MemoryRegionKind) (a : ℕ)
    → IsWellFormed m
    → classify m range ≡ ok k
    → Covers range a
    → kind_at m.regions a ≡ k
unfolding classify
classify-kind_at m range k a w h c =
    let (_, validated, rest) = bind-eq-ok _ (validate_range range) h in
    let valid = validate_range-IsValidRange range validated in
    elim (Option-cases (find (λ s. contains s range) m.regions)) [
      | inl missing ↦ elim (Bool-cases (any (λ s. overlaps s range) m.regions)) [
        | inl partial ↦ absurd (cc (rw (missing, partial) at rest))
        | inr apart ↦
            kind_at-apart m.regions range a w.valid valid apart c ∙ cc (rw (missing, apart) at rest)
      ]
      | inr (r, found) ↦
          kind_at-contained m.regions range r a w.valid w.separated valid found c
          ∙ cc (rw found at rest)
    ]

Holds-cases : (r : MemoryRegion) (a : ℕ) → Holds r a ⊎ (¬ Holds r a)
Holds-cases r a = elim (Bool-cases (leb r.address a && ltb a (r.address + r.length))) [
  | inl inside ↦ inl (ground arith, ground arith)
  | inr outside ↦ inr (λ h. ground arith)
]

not_flash :
    (kind : MemoryRegionKind) (e : JlinkError) {k : MemoryRegionKind}
    → (if kind_eq kind flash then err e else ok kind) ≡ ok k
    → kind ≢ flash
not_flash kind e h f = ground arith

-- Of a well-formed map, no later region holds a byte that an earlier one holds.
flash_free :
    (rs : List MemoryRegion) (a : ℕ)
    → All IsValidRegion rs
    → IsSeparated rs
    → kind_at rs a ≢ flash
    → All (λ r. r.kind ≡ flash → ¬ Holds r a) rs
flash_free [] a v s h = tt
flash_free (x ∷ rs) a v s h = elim (Holds-cases x a) [
  | inl held ↦
      (λ e _. h (kind_at-here x rs a held ∙ e), All-map _ _ (λ r behind _ k. omega arith) rs s.0)
  | inr free ↦ (λ _ k. free k, flash_free rs a v.1 s.1 (λ e. h (kind_at-there x rs a free ∙ e)))
]

-- An ordinary write that is let through touches no byte of a Flash region, whatever the order in
-- which the device database lists its regions.
pub ensure_ordinary_write-avoids_flash :
    (rs : List MemoryRegion) (m : DeviceMemoryMap) (range : MemoryRange) (k : MemoryRegionKind)
    (a : ℕ)
    → new_map rs ≡ ok m
    → ensure_ordinary_write m range ≡ ok k
    → Covers range a
    → All (λ r. r.kind ≡ flash → ¬ Holds r a) rs
unfolding ensure_ordinary_write
ensure_ordinary_write-avoids_flash rs m range k a built h c =
    let w = (new_map-IsWellFormed rs m built).0 in
    let (kind, classified, accepted) = bind-eq-ok _ (classify m range) h in
    let kinds = classify-kind_at m range kind a w classified c in
    let free =
      flash_free m.regions a w.valid w.separated (λ e. not_flash kind _ accepted (sym kinds ∙ e)) in
    All-sort_inv by_address (λ r. r.kind ≡ flash → ¬ Holds r a) rs
      (subst (All (λ (r : MemoryRegion). r.kind ≡ flash → ¬ Holds r a)) (new_map-parts rs m built).2
        free)
