-- ===== src/Domain/Image/Elf.antt =====
-- crates/jlink-domain/src/image.rs: `parse_elf`, over what the `object` crate finds in a file.
pub mod Valid
use jlink_mcp_v.Base.{
  ℕ, Bool, true, false, not, ◌&&◌, ◌||◌, Option, none, some, List, [], ◌∷◌, leb, ltb, ◌==◌, any,
  filter, eq, list_equal, option_equal, nat_equal, is_some_and,
}
use mathlib.Core.List.{reverse}
use jlink_mcp_v.Domain.Error.{Result, ok, err, ◌>>=◌, ensure, ok_or}
use jlink_mcp_v.Domain.Identity.{FirmwareIdentityBlock, parse_block, max_firmware_identity_bytes}
use jlink_mcp_v.Domain.Image.{FirmwareSegment, invalid, segment, normalize_segments}

-- A section: `data_range` fails, finds no bytes or finds them.
pub record ElfSection : Type 0 where
  pub data_range : ℕ → ℕ → Option (Option (List ℕ))

pub record ElfSymbol : Type 0 where
  pub is_definition : Bool
  pub name : Option (List ℕ)
  pub address : ℕ
  pub size : ℕ
  pub section_index : Option ℕ

-- `contents` is what `data` gives.
pub record ProgramHeader : Type 0 where
  pub p_type : ℕ
  pub p_filesz : ℕ
  pub p_paddr : ℕ
  pub contents : Option (List ℕ)

pub data ObjectKind : Type 0 where
  elf32 elf64 other : ObjectKind

-- `object::File`, by the questions that the code asks of it.
pub record ObjectFile : Type 0 where
  pub kind : ObjectKind
  pub section_size : List ℕ → Option ℕ
  pub symbols : List ElfSymbol
  pub section_by_index : ℕ → Option ElfSection
  pub elf_program_headers : List ProgramHeader

-- `__jlink_mcp_identity`
abbrev pub firmware_identity_symbol : List ℕ
firmware_identity_symbol =
    b'_' ∷ b'_' ∷ b'j' ∷ b'l' ∷ b'i' ∷ b'n' ∷ b'k' ∷ b'_' ∷ b'm' ∷ b'c' ∷ b'p' ∷ b'_' ∷ b'i' ∷ b'd'
    ∷ b'e' ∷ b'n' ∷ b't' ∷ b'i' ∷ b't' ∷ b'y' ∷ []

abbrev debug_info : List ℕ
debug_info = b'd' ∷ b'e' ∷ b'b' ∷ b'u' ∷ b'g' ∷ b'_' ∷ b'i' ∷ b'n' ∷ b'f' ∷ b'o' ∷ []

abbrev dwarf_sections : List (List ℕ)
dwarf_sections = (b'.' ∷ debug_info) ∷ (b'.' ∷ b'z' ∷ debug_info) ∷ []

abbrev pub has_dwarf_section : ObjectFile → Bool
has_dwarf_section file =
    any (λ name. is_some_and (file.section_size name) (λ size. ltb 0 size)) dwarf_sections

abbrev pub pt_load : ℕ
pt_load = 1

-- The loop over the program headers; the head of `segments` is the back of the vector.
unfoldable pub load_headers :
    List FirmwareSegment → List ProgramHeader → Result (List FirmwareSegment)
unfolding segment
load_headers segments [] = ok segments
load_headers segments (header ∷ rest) =
    elim (not (header.p_type == pt_load) || header.p_filesz == 0) [
      | true ↦ load_headers segments rest
      | false ↦ ok_or header.contents invalid >>= λ bytes.
          segment header.p_paddr bytes >>= λ s. load_headers (s ∷ segments) rest
    ]

abbrev pub some_segments : List FirmwareSegment → Result (List FirmwareSegment)
some_segments [] = err invalid
some_segments (s ∷ segments) = ok (reverse (s ∷ segments))

unfoldable pub parse_elf_segments : ObjectFile → Result (List FirmwareSegment)
unfolding load_headers
parse_elf_segments file = load_headers [] file.elf_program_headers >>= some_segments

unfoldable pub identity_of_symbol : ObjectFile → ElfSymbol → Result (Option FirmwareIdentityBlock)
unfolding parse_block
identity_of_symbol file symbol = do
  _ ← ensure (leb 6 symbol.size && leb symbol.size max_firmware_identity_bytes) invalid
  index ← ok_or symbol.section_index invalid
  section ← ok_or (file.section_by_index index) invalid
  found ← ok_or (section.data_range symbol.address symbol.size) invalid
  bytes ← ok_or found invalid
  block ← parse_block symbol.address bytes
  ok (some block)

abbrev pub is_identity_symbol : ElfSymbol → Bool
is_identity_symbol symbol = symbol.is_definition && eq symbol.name (some firmware_identity_symbol)

unfoldable pub identity_of_symbols :
    ObjectFile → List ElfSymbol → Result (Option FirmwareIdentityBlock)
unfolding identity_of_symbol
identity_of_symbols file [] = ok none
identity_of_symbols file (symbol ∷ []) = identity_of_symbol file symbol
identity_of_symbols file (symbol ∷ again ∷ more) = err invalid

unfoldable pub parse_elf_identity_block : ObjectFile → Result (Option FirmwareIdentityBlock)
unfolding identity_of_symbols
parse_elf_identity_block file = identity_of_symbols file (filter is_identity_symbol file.symbols)

abbrev pub ensure_elf : ObjectKind → Result (Unit {0})
ensure_elf elf32 = ok tt
ensure_elf elf64 = ok tt
ensure_elf other = err invalid

-- What a reader finds: the segments, whether there is debug information, and the identity block.
abbrev pub Parts : Type 0
Parts = List FirmwareSegment × Bool × Option FirmwareIdentityBlock

-- `object_parse` is `object::File::parse`.
unfoldable pub parse_elf : (List ℕ → Option ObjectFile) → List ℕ → Result Parts
unfolding parse_elf_segments parse_elf_identity_block normalize_segments
parse_elf object_parse bytes = do
  file ← ok_or (object_parse bytes) invalid
  _ ← ensure_elf file.kind
  segments ← parse_elf_segments file
  identity_block ← parse_elf_identity_block file
  normalized ← normalize_segments segments
  ok (normalized, has_dwarf_section file, identity_block)
