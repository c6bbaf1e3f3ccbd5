-- ===== src/Worker/Program/Files.antt =====
-- program.rs: read_image.
use jlink_mcp_v.Base.{ℕ, false, Option, List}
use jlink_mcp_v.Domain.Error.{new, Result, ok, ◌>>=◌, ok_or, value_invalid}
use jlink_mcp_v.Domain.Image.{FirmwareSegment}
use jlink_mcp_v.Domain.Image.Elf.{ObjectFile}
use jlink_mcp_v.Domain.Image.Parse.{FirmwareImage, parse_image}

-- `read_file` is `fs::read`.
module _ (read_file : List ℕ → Option (List ℕ)) (object_parse : List ℕ → Option ObjectFile)
    (path_extension : List ℕ → Option (List ℕ)) (sha256_of : List ℕ → List ℕ) where
  unfoldable pub read_image : List ℕ → Option ℕ → Result FirmwareImage
  unfolding parse_image
  read_image path base = do
    bytes ← ok_or (read_file path) (new value_invalid false)
    parse_image object_parse path_extension sha256_of path bytes base

  -- What the requests use of the image.
  unfoldable pub read_image_segments : List ℕ → Option ℕ → Result (List FirmwareSegment)
  unfolding read_image
  read_image_segments path base = do image ← read_image path base; ok image.segments
