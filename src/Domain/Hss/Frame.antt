-- ===== src/Domain/Hss/Frame.antt =====
-- hss.rs: HssFrameLayout and the records that it cuts out of a byte stream.
pub mod Lossless
use jlink_mcp_v.Base.{
  ℕ, zero, suc, ◌+◌, ◌*◌, ◌/◌, ◌%◌, ◌≡◌, Bool, true, false, Option, none, some, List, [], ◌∷◌, ltb,
  leb, ◌==◌, if◌then◌else◌, checked_add_u32, length, take, drop,
}
use jlink_mcp_v.Domain.Error.{
  JlinkError, new, with_detail, num, Result, ok, err, ◌>>=◌, ok_or, frame_invalid,
}

-- HSS_TIMESTAMP_BYTES
abbrev pub timestamp_bytes : ℕ
timestamp_bytes = 4

pub record HssFrameLayout : Type 0 where
  pub sample_bytes : ℕ
  pub record_bytes : ℕ

abbrev pub frame_error : JlinkError
frame_error = new frame_invalid false

abbrev block_error : ℕ → JlinkError
block_error index = with_detail frame_error "block_index" (num index)

-- The loop over the blocks.
add_blocks : ℕ → ℕ → List ℕ → Result ℕ
add_blocks index sample_bytes [] = ok sample_bytes
add_blocks index sample_bytes (byte_count ∷ counts) =
    if byte_count == 0 then err (block_error index) else do
      total ← ok_or (checked_add_u32 sample_bytes byte_count) (block_error index)
      add_blocks (index + 1) total counts

layout_of : ℕ → Result HssFrameLayout
layout_of sample_bytes = do
  record_bytes ← ok_or (checked_add_u32 timestamp_bytes sample_bytes) frame_error
  ok (record { sample_bytes = sample_bytes; record_bytes = record_bytes })

unfoldable pub new_layout : List ℕ → Result HssFrameLayout
unfolding add_blocks layout_of
new_layout [] = err frame_error
new_layout (count ∷ counts) = do
  sample_bytes ← add_blocks 0 0 (count ∷ counts)
  layout_of sample_bytes

pub record HssRawFrame : Type 0 where
  pub timestamp_raw : ℕ
  pub sample : List ℕ

pub record HssFrameBatch : Type 0 where
  pub frames : List HssRawFrame
  pub incomplete_tail : List ℕ

-- `slice::chunks_exact`, with the number of chunks.
chunks_exact : ℕ → ℕ → List ℕ → List (List ℕ)
chunks_exact size zero bytes = []
chunks_exact size (suc n) bytes = take size bytes ∷ chunks_exact size n (drop size bytes)

-- `u32::from_le_bytes` of the first four bytes of a record, with the rest as the sample.
parse_record : List ℕ → Result HssRawFrame
parse_record (b0 ∷ b1 ∷ b2 ∷ b3 ∷ sample) =
    ok (record { timestamp_raw = b0 + 256 * b1 + 65536 * b2 + 16777216 * b3; sample = sample })
parse_record _ = err frame_error

parse_records : List (List ℕ) → Result (List HssRawFrame)
parse_records [] = ok []
parse_records (chunk ∷ chunks) = do
  frame ← parse_record chunk
  frames ← parse_records chunks
  ok (frame ∷ frames)

unfoldable pub parse : HssFrameLayout → List ℕ → Result HssFrameBatch
unfolding chunks_exact parse_record parse_records
parse layout bytes = do
  let count = length bytes / layout.record_bytes
  let complete_bytes = count * layout.record_bytes
  frames ← parse_records (chunks_exact layout.record_bytes count (take complete_bytes bytes))
  ok (record { frames = frames; incomplete_tail = drop complete_bytes bytes })
