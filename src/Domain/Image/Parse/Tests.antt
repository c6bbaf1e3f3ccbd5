-- ===== src/Domain/Image/Parse/Tests.antt =====
-- The plan of an ELF image with an identity block.
use jlink_mcp_v.Base.{ℕ, ◌≡◌, refl, true, none, some, List, [], ◌∷◌, take}
use jlink_mcp_v.Base.Sort.{sort_by_key}
use jlink_mcp_v.Domain.Error.{ok}
use jlink_mcp_v.Domain.Identity.{validate_plan, is_sha256}
use jlink_mcp_v.Domain.Identity.Tests.{block, block_bytes, firmware}
use jlink_mcp_v.Domain.Image.{elf}
use jlink_mcp_v.Domain.Image.Elf.{ObjectFile, elf32, firmware_identity_symbol}
use jlink_mcp_v.Domain.Image.Parse.{FirmwareImage, parse_image, symbol_identity_plan}
use jlink_mcp_v.Domain.Image.Parse.Planned.{symbol_identity_plan-valid}

-- One section at address 256 holds the block, and is loaded.
abbrev small_file : ObjectFile
small_file = record {
  kind = elf32;
  section_size = λ name. some 12;
  symbols =
      record {
        is_definition = true;
        name = some firmware_identity_symbol;
        address = 256;
        size = 10;
        section_index = some 1;
      }
      ∷ [];
  section_by_index =
      λ index. some (record { data_range = λ address size. some (some (take size block_bytes)) });
  elf_program_headers =
      record { p_type = 1; p_filesz = 10; p_paddr = 256; contents = some block_bytes } ∷ [];
}

abbrev elf_bytes : List ℕ
elf_bytes = 0x7f ∷ b'E' ∷ b'L' ∷ b'F' ∷ 1 ∷ []

abbrev symbol_image : FirmwareImage
symbol_image = record {
  format = elf;
  digest = firmware.elf_sha256;
  segments = record { address = 256; bytes = block_bytes } ∷ [];
  has_dwarf = true;
  identity_block = some block;
}

symbol_identity_plan-valid_example :
    (firmware.elf_sha256 ≡ firmware.elf_sha256)
    × (validate_plan firmware ≡ ok tt)
    × (firmware.legacy_segments ≡ [])
unfolding parse_image symbol_identity_plan sort_by_key is_sha256
symbol_identity_plan-valid_example =
    symbol_identity_plan-valid (λ b. some small_file) (λ n. none) (λ b. firmware.elf_sha256) []
      elf_bytes none symbol_image firmware refl refl refl
