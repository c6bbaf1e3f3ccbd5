-- ===== src/Domain/Image/Tests.antt =====
-- The theorems on image.rs at concrete inputs.
use jlink_mcp_v.Base.{ℕ, ◌≡◌, ◌↔◌, refl, false, none, some, List, [], ◌∷◌, arith, Any}
use jlink_mcp_v.Base.Sort.{sort_by_key}
use jlink_mcp_v.Domain.Error.{ok}
use jlink_mcp_v.Domain.Image.{FirmwareSegment, bin, normalize_segments}
use jlink_mcp_v.Domain.Image.Segments.{Loads, IsNormal, normalize_segments-Loads}
use jlink_mcp_v.Domain.Image.Text.{decode_hex}
use jlink_mcp_v.Domain.Image.IntelHex.{parse_intel_hex}
use jlink_mcp_v.Domain.Image.IntelHex.Records.{HexRecord, data_at, linear_base, hex_file}
use jlink_mcp_v.Domain.Image.IntelHex.RoundTrip.{parse_intel_hex-hex_file}
use jlink_mcp_v.Domain.Image.SRecord.{parse_s_record}
use jlink_mcp_v.Domain.Image.SRecord.Records.{three, four, SFile, s_file}
use jlink_mcp_v.Domain.Image.SRecord.RoundTrip.{parse_s_record-s_file}
use jlink_mcp_v.Domain.Image.Parse.{FirmwareImage, parse_image}
use jlink_mcp_v.Domain.Image.Parse.Accepted.{IsAccepted, parse_image-IsAccepted}

abbrev first : FirmwareSegment
first = record { address = 16; bytes = 1 ∷ 2 ∷ [] }

abbrev second : FirmwareSegment
second = record { address = 18; bytes = 3 ∷ [] }

abbrev joined : FirmwareSegment
joined = record { address = 16; bytes = 1 ∷ 2 ∷ 3 ∷ [] }

normalize_segments-Loads_example :
    IsNormal (joined ∷ [])
    × ((a b : ℕ) → Any (Loads a b) (second ∷ first ∷ []) ↔ Any (Loads a b) (joined ∷ []))
unfolding normalize_segments sort_by_key
normalize_segments-Loads_example =
    normalize_segments-Loads (second ∷ first ∷ []) (joined ∷ []) (omega arith) refl

abbrev flash_records : List HexRecord
flash_records = linear_base 0x800 ∷ data_at 2 (3 ∷ []) ∷ data_at 0 (1 ∷ 2 ∷ []) ∷ []

parse_intel_hex-hex_file_example :
    parse_intel_hex (hex_file flash_records)
    ≡ ok (record { address = 0x8000000; bytes = 1 ∷ 2 ∷ 3 ∷ [] } ∷ [])
unfolding normalize_segments sort_by_key
parse_intel_hex-hex_file_example = parse_intel_hex-hex_file flash_records (omega arith)

abbrev flash_file : SFile
flash_file = record {
  header = b'H' ∷ b'D' ∷ b'R' ∷ [];
  records =
      record { width = three; address = 18; payload = 3 ∷ [] }
      ∷ record { width = four; address = 16; payload = 1 ∷ 2 ∷ [] }
      ∷ [];
  end_width = four;
  entry = 16;
}

parse_s_record-s_file_example : parse_s_record (s_file flash_file) ≡ ok (joined ∷ [])
unfolding normalize_segments sort_by_key
parse_s_record-s_file_example = parse_s_record-s_file flash_file (omega arith)

abbrev raw_image : FirmwareImage
raw_image = record {
  format = bin;
  digest = 1 ∷ 2 ∷ 3 ∷ [];
  segments = joined ∷ [];
  has_dwarf = false;
  identity_block = none;
}

-- The name is its extension, and the digest the bytes.
parse_image-IsAccepted_example : IsAccepted (λ b. b) (1 ∷ 2 ∷ 3 ∷ []) (some 16) raw_image
unfolding parse_image
parse_image-IsAccepted_example =
    parse_image-IsAccepted (λ b. none) (λ n. some n) (λ b. b) (1 ∷ 2 ∷ 3 ∷ [])
      (b'B' ∷ b'I' ∷ b'N' ∷ []) (some 16) raw_image refl

-- A sign is taken for a digit.
decode_hex-sign_test : decode_hex (b'+' ∷ b'A' ∷ []) ≡ ok (10 ∷ [])
unfolding decode_hex
decode_hex-sign_test = refl
