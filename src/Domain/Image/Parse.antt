-- ===== src/Domain/Image/Parse.antt =====
-- crates/jlink-domain/src/image.rs: `FirmwareImage`, `detect_format` and `FirmwareImage::parse`.
pub mod Accepted
pub mod Planned
mod Tests
use jlink_mcp_v.Base.{
  ℕ, Bool, true, false, not, ◌&&◌, Option, none, some, if◌then◌else◌, List, [], ◌∷◌, map, leb, ◌==◌,
  any, find, eq, list_equal, nat_equal,
}
use jlink_mcp_v.Base.Text.{trim, starts_with, to_ascii_lowercase}
use jlink_mcp_v.Base.Utf8.{from_utf8}
use jlink_mcp_v.Base.Lines.{lines}
use jlink_mcp_v.Domain.Selector.{is_ascii_digit}
use jlink_mcp_v.Domain.Error.{Result, ok, err, ◌>>=◌, ensure, ok_or}
use jlink_mcp_v.Domain.Identity.{FirmwareIdentityBlock, FirmwareIdentityPlan}
use jlink_mcp_v.Domain.Image.{
  FirmwareFormat, elf, intel_hex, s_record, bin, FirmwareSegment, invalid, segment,
}
use jlink_mcp_v.Domain.Image.Text.{strip_bom, is_empty, to_ascii_uppercase}
use jlink_mcp_v.Domain.Image.IntelHex.{parse_intel_hex}
use jlink_mcp_v.Domain.Image.SRecord.{parse_s_record}
use jlink_mcp_v.Domain.Image.Elf.{ObjectFile, Parts, parse_elf}

pub record FirmwareImage : Type 0 where
  pub format : FirmwareFormat
  pub digest : List ℕ
  pub segments : List FirmwareSegment
  pub has_dwarf : Bool
  pub identity_block : Option FirmwareIdentityBlock

abbrev elf_magic : List ℕ
elf_magic = 0x7f ∷ b'E' ∷ b'L' ∷ b'F' ∷ []

abbrev elf_names : List (List ℕ)
elf_names = (b'e' ∷ b'l' ∷ b'f' ∷ []) ∷ (b'a' ∷ b'x' ∷ b'f' ∷ []) ∷ (b'o' ∷ b'u' ∷ b't' ∷ []) ∷ []

abbrev bin_names : List (List ℕ)
bin_names = (b'b' ∷ b'i' ∷ b'n' ∷ []) ∷ []

abbrev hex_names : List (List ℕ)
hex_names = (b'h' ∷ b'e' ∷ b'x' ∷ []) ∷ (b'i' ∷ b'h' ∷ b'e' ∷ b'x' ∷ []) ∷ []

abbrev s_record_names : List (List ℕ)
s_record_names =
    (b's' ∷ b'r' ∷ b'e' ∷ b'c' ∷ [])
    ∷ (b's' ∷ b'1' ∷ b'9' ∷ [])
    ∷ (b's' ∷ b'2' ∷ b'8' ∷ [])
    ∷ (b's' ∷ b'3' ∷ b'7' ∷ [])
    ∷ (b'm' ∷ b'o' ∷ b't' ∷ [])
    ∷ []

abbrev pub map_names : List (List ℕ)
map_names = (b'm' ∷ b'a' ∷ b'p' ∷ []) ∷ []

unfoldable pub lower_extension : Option (List ℕ) → Option (List ℕ)
unfolding to_ascii_lowercase
lower_extension none = none
lower_extension (some extension) = some (map to_ascii_lowercase extension)

abbrev pub is_one_of : Option (List ℕ) → List (List ℕ) → Bool
is_one_of none names = false
is_one_of (some extension) names = any (λ name. eq extension name) names

-- The first line that is not blank tells the format.
unfoldable pub format_of_line : List ℕ → Result FirmwareFormat
unfolding to_ascii_uppercase
format_of_line [] = err invalid
format_of_line (c ∷ []) = if c == b':' then ok intel_hex else err invalid
format_of_line (c ∷ d ∷ rest) =
    if c == b':'
    then ok intel_hex
    else if to_ascii_uppercase c == b'S' && is_ascii_digit d
    then ok s_record
    else err invalid

unfoldable pub format_of_text : List ℕ → Result FirmwareFormat
unfolding from_utf8 strip_bom lines trim format_of_line
format_of_text bytes = do
  text ← ok_or (from_utf8 bytes) invalid
  first ← ok_or (find (λ line. not (is_empty line)) (map trim (lines (strip_bom text)))) invalid
  format_of_line first

unfoldable pub detect_format : Option (List ℕ) → List ℕ → Result FirmwareFormat
unfolding starts_with format_of_text
detect_format extension bytes =
    if starts_with elf_magic bytes
    then ok elf
    else if is_one_of extension elf_names
    then err invalid
    else if is_one_of extension bin_names
    then ok bin
    else if is_one_of extension hex_names
    then ok intel_hex
    else if is_one_of extension s_record_names
    then ok s_record
    else format_of_text bytes

abbrev no_address : Option ℕ → Result (Unit {0})
no_address none = ok tt
no_address (some address) = err invalid

-- BIN takes a base address in the request, the other formats none.
abbrev pub ensure_base_address : FirmwareFormat → Option ℕ → Result (Unit {0})
ensure_base_address bin none = err invalid
ensure_base_address bin (some address) = ok tt
ensure_base_address elf base = no_address base
ensure_base_address intel_hex base = no_address base
ensure_base_address s_record base = no_address base

-- `object_parse` is `object::File::parse_image`, `path_extension` is `Path::extension`, whose separators
-- are the platform's, and `sha256_of` the digest of the `sha2` crate in hexadecimal.
module _ (object_parse : List ℕ → Option ObjectFile) where
  unfoldable pub read_segments : FirmwareFormat → List ℕ → Option ℕ → Result Parts
  unfolding parse_elf parse_intel_hex parse_s_record segment
  read_segments elf bytes base = parse_elf object_parse bytes
  read_segments intel_hex bytes base = do
    segments ← parse_intel_hex bytes
    ok (segments, false, none)
  read_segments s_record bytes base = do segments ← parse_s_record bytes; ok (segments, false, none)
  read_segments bin bytes base = do
    address ← ok_or base invalid
    s ← segment address bytes
    ok (s ∷ [], false, none)

module _ (object_parse : List ℕ → Option ObjectFile) (path_extension : List ℕ → Option (List ℕ))
    (sha256_of : List ℕ → List ℕ) where
  unfoldable pub parse_image : List ℕ → List ℕ → Option ℕ → Result FirmwareImage
  unfolding detect_format read_segments lower_extension
  parse_image file_name bytes base_address = do
    let extension = lower_extension (path_extension file_name)
    _ ← ensure (not (is_one_of extension map_names)) invalid
    _ ← ensure (not (is_empty bytes)) invalid
    detected ← detect_format extension bytes
    _ ← ensure_base_address detected base_address
    (segments, has_dwarf, identity_block) ← read_segments object_parse detected bytes base_address
    ok record {
      format = detected;
      digest = sha256_of bytes;
      segments = segments;
      has_dwarf = has_dwarf;
      identity_block = identity_block;
    }

abbrev pub is_elf : FirmwareFormat → Bool
is_elf elf = true
is_elf intel_hex = false
is_elf s_record = false
is_elf bin = false

-- FirmwareImage::symbol_identity_plan
unfoldable pub symbol_identity_plan : FirmwareImage → Result FirmwareIdentityPlan
symbol_identity_plan image = do
  _ ← ensure (is_elf image.format) invalid
  _ ← ensure image.has_dwarf invalid
  ok (record {
    elf_sha256 = image.digest;
    identity_block = image.identity_block;
    legacy_segments = [];
  })
