-- ===== src/Domain/Image.antt =====
-- crates/jlink-domain/src/image.rs: load segments of a firmware image and their normal form.
pub mod Segments
pub mod Text
pub mod IntelHex
pub mod Valid
pub mod Elf
pub mod Parse
pub mod SRecord
mod Tests
use mathlib.Core.List.{reverse}
use jlink_mcp_v.Base.{
  ℕ, ◌+◌, ◌≡◌, Bool, true, false, Option, none, some, List, [], ◌∷◌, ◌++◌, ltb, ◌==◌, if◌then◌else◌,
  checked_add, length,
}
use jlink_mcp_v.Base.Sort.{sort_by_key}
use jlink_mcp_v.Domain.Error.{JlinkError, new, Result, ok, err, ◌>>=◌, ok_or, value_invalid}

pub data FirmwareFormat : Type 0 where
  elf intel_hex s_record bin : FirmwareFormat

-- `bytes` is the field `data`.
pub record FirmwareSegment : Type 0 where
  pub address : ℕ
  pub bytes : List ℕ

abbrev pub invalid : JlinkError
invalid = new value_invalid false

segment_with : ℕ → List ℕ → Result FirmwareSegment
segment_with address [] = err invalid
segment_with address (b ∷ bytes) = do
  _ ← ok_or (checked_add address (length (b ∷ bytes))) invalid
  ok (record { address = address; bytes = b ∷ bytes })

unfoldable pub segment : ℕ → List ℕ → Result FirmwareSegment
unfolding segment_with
segment address bytes = segment_with address bytes

abbrev append_bytes : FirmwareSegment → FirmwareSegment → FirmwareSegment
append_bytes previous current = record previous { bytes = previous.bytes ++ current.bytes }

-- One round of the loop. The head of `normalized` is the back of the vector.
push_segment : FirmwareSegment → List FirmwareSegment → Result (List FirmwareSegment)
push_segment current [] = ok (current ∷ [])
push_segment current (previous ∷ before) = do
  previous_end ← ok_or (checked_add previous.address (length previous.bytes)) invalid
  if ltb current.address previous_end
      then err invalid
      else ok (
          if current.address == previous_end
          then append_bytes previous current ∷ before
          else current ∷ previous ∷ before)

push_segments : List FirmwareSegment → List FirmwareSegment → Result (List FirmwareSegment)
push_segments [] normalized = ok normalized
push_segments (current ∷ segments) normalized = do
  next ← push_segment current normalized
  push_segments segments next

abbrev by_address : FirmwareSegment → ℕ
by_address s = s.address

normalize_sorted : List FirmwareSegment → Result (List FirmwareSegment)
normalize_sorted segments = do normalized ← push_segments segments []; ok (reverse normalized)

unfoldable pub normalize_segments : List FirmwareSegment → Result (List FirmwareSegment)
unfolding normalize_sorted push_segments push_segment
normalize_segments [] = err invalid
normalize_segments (s ∷ segments) = normalize_sorted (sort_by_key by_address (s ∷ segments))
