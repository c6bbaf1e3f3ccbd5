-- ===== src/Domain/Identity/Tests.antt =====
-- image.rs: an identity block of a small firmware.
use jlink_mcp_v.Base.{ℕ, ◌≡◌, refl, some, List, [], ◌∷◌}
use jlink_mcp_v.Base.Text.{is_ascii_hexdigit}
use jlink_mcp_v.Domain.Error.{ok}
use jlink_mcp_v.Domain.Identity.{
  FirmwareIdentityBlock, FirmwareIdentityPlan, parse_block, verify_target_bytes,
}

-- Build id "1.0", and a byte of padding.
abbrev pub block_bytes : List ℕ
block_bytes = 74 ∷ 76 ∷ 73 ∷ 68 ∷ 1 ∷ 3 ∷ 49 ∷ 46 ∷ 48 ∷ 0 ∷ []

abbrev pub block : FirmwareIdentityBlock
block = record {
  address = 256;
  bytes = block_bytes;
  magic = 74 ∷ 76 ∷ 73 ∷ 68 ∷ [];
  format_version = 1;
  build_id = 49 ∷ 46 ∷ 48 ∷ [];
}

abbrev pub firmware : FirmwareIdentityPlan
firmware = record {
  elf_sha256 =
      48 ∷ 49 ∷ 50 ∷ 51 ∷ 52 ∷ 53 ∷ 54 ∷ 55 ∷ 48 ∷ 49 ∷ 50 ∷ 51 ∷ 52 ∷ 53 ∷ 54 ∷ 55 ∷ 48 ∷ 49 ∷ 50
      ∷ 51 ∷ 52 ∷ 53 ∷ 54 ∷ 55 ∷ 48 ∷ 49 ∷ 50 ∷ 51 ∷ 52 ∷ 53 ∷ 54 ∷ 55 ∷ 48 ∷ 49 ∷ 50 ∷ 51 ∷ 52 ∷ 53
      ∷ 54 ∷ 55 ∷ 48 ∷ 49 ∷ 50 ∷ 51 ∷ 52 ∷ 53 ∷ 54 ∷ 55 ∷ 97 ∷ 98 ∷ 99 ∷ 100 ∷ 101 ∷ 102 ∷ 54 ∷ 55
      ∷ 48 ∷ 49 ∷ 50 ∷ 51 ∷ 52 ∷ 53 ∷ 54 ∷ 55 ∷ [];
  identity_block = some block;
  legacy_segments = [];
}

parsed : parse_block 256 block_bytes ≡ ok block
unfolding parse_block
parsed = refl

proved : verify_target_bytes (λ bytes. bytes) firmware (some block_bytes) ≡ ok tt
unfolding verify_target_bytes is_ascii_hexdigit
proved = refl
