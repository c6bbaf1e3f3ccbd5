-- ===== src/Domain/Identity/Accepted.antt =====
-- A block that was parsed, and a plan that is made of one, pass their own validation.
use jlink_mcp_v.Base.{
  ℕ, ◌+◌, ◌≡◌, refl, true, not, ◌&&◌, ◌||◌, Option, none, some, List, [], ◌==◌, eq, eq_refl, leb,
  ltb, take, drop, all, length, checked_add, nat_equal, list_equal, option_equal, subst, arith,
}
use jlink_mcp_v.Domain.Error.{ok, ensure, ok_or, bind-eq-ok, ensure-eq-ok, ok-injective}
use jlink_mcp_v.Domain.Identity.{
  FirmwareIdentityBlock, FirmwareIdentityPlan, is_printable, byte_at, parse_block, block_is_valid,
  is_sha256, plan_is_valid, validate_plan, segments_are_valid, firmware_identity_magic,
  block_invalid, max_firmware_identity_bytes, firmware_identity_format_version,
}

-- What parse_block makes of the bytes that it lets through.
abbrev block_of : ℕ → List ℕ → FirmwareIdentityBlock
block_of address bytes = record {
  address = address;
  bytes = bytes;
  magic = firmware_identity_magic;
  format_version = firmware_identity_format_version;
  build_id = take (byte_at bytes 5) (drop 6 bytes);
}

block_of-valid :
    (address : ℕ) (bytes : List ℕ) (block : FirmwareIdentityBlock)
    → parse_block address bytes ≡ ok block
    → leb (6 + byte_at bytes 5) (length bytes) ≡ true
    → block_is_valid (block_of address bytes) ≡ true
unfolding block_is_valid
block_of-valid address bytes block h inside =
    rw (block_is_valid, h, inside, eq_refl (take (byte_at bytes 5) (drop 6 bytes))) refl

pub parse_block-valid :
    (address : ℕ) (bytes : List ℕ) (block : FirmwareIdentityBlock)
    → parse_block address bytes ≡ ok block
    → block_is_valid block ≡ true
unfolding parse_block block_is_valid
parse_block-valid address bytes block h0 =
    let n = byte_at bytes 5 in
    let (u0, size, h1) =
      bind-eq-ok _
        (ensure (leb 6 (length bytes) && leb (length bytes) max_firmware_identity_bytes)
          block_invalid)
        h0 in
    let (u1, magic, h2) =
      bind-eq-ok _ (ensure (eq (take 4 bytes) firmware_identity_magic) block_invalid) h1 in
    let (u2, version, h3) =
      bind-eq-ok _ (ensure (byte_at bytes 4 == firmware_identity_format_version) block_invalid)
        h2 in
    let (u3, counted, h4) =
      bind-eq-ok _ (ensure (not (n == 0 || ltb (length bytes) (6 + n))) block_invalid) h3 in
    let (u4, shown, h5) =
      bind-eq-ok _ (ensure (all is_printable (take n (drop 6 bytes))) block_invalid) h4 in
    let (end, fits, h6) =
      bind-eq-ok _ (ok_or (checked_add address (length bytes)) block_invalid) h5 in
    let inside : leb (6 + n) (length bytes) ≡ true = ground (arith, ensure-eq-ok _ _ counted) in
    subst (λ b. block_is_valid b ≡ true) (ok-injective h6)
      (block_of-valid address bytes block h0 inside)

-- The plan that a symbol image makes.
abbrev pub plan_of : List ℕ → Option FirmwareIdentityBlock → FirmwareIdentityPlan
plan_of elf_sha256 identity_block = record {
  elf_sha256 = elf_sha256;
  identity_block = identity_block;
  legacy_segments = [];
}

abbrev pub IsBlock : Option FirmwareIdentityBlock → Type 0
IsBlock none = Unit
IsBlock (some block) = block_is_valid block ≡ true

-- It passes its own validation, if its digest is one, and its block is valid.
pub validate_plan-plan_of :
    (elf_sha256 : List ℕ) (block? : Option FirmwareIdentityBlock)
    → is_sha256 elf_sha256 ≡ true
    → IsBlock block?
    → validate_plan (plan_of elf_sha256 block?) ≡ ok tt
unfolding validate_plan plan_is_valid segments_are_valid
validate_plan-plan_of elf_sha256 none digest valid = rw (validate_plan, plan_is_valid, digest) refl
validate_plan-plan_of elf_sha256 (some block) digest valid =
    rw (validate_plan, plan_is_valid, digest, valid) refl
