-- ===== src/Worker/Download.antt =====
-- gateway.rs: the Flash download of an image, with the facts that it records on the way.
pub mod Audit
pub mod Chunks
pub mod Submitted
pub mod Tests
use jlink_mcp_v.Base.{
  ℕ, zero, suc, ◌+◌, Bool, true, false, not, ◌&&◌, ◌||◌, Option, none, some, List, [], ◌∷◌, map,
  length, take, drop, if◌then◌else◌, ◌==◌, ltb, checked_add, u32_mod, eq, nat_equal, list_equal,
}
use Prim.Native.Nat.{bit_xor, min}
use jlink_mcp_v.Domain.Error.{
  JlinkError, new, with_detail, num, flag, Result, ok, err, ◌>>=◌, ◌>>◌, ensure, ok_or,
  execution_uncertain, target_connect_failed, target_recovery_failed, config_invalid, verify_failed,
}
use jlink_mcp_v.Domain.State.{TargetState, running, halted, hard_fault, unknown}
use jlink_mcp_v.Domain.Memory.{MemoryRegion, MemoryRegionKind, ram, kind_eq}
use jlink_mcp_v.Domain.Memory.Write.{ℤ, pos, negsuc}
use jlink_mcp_v.Domain.Image.{FirmwareSegment}
use jlink_mcp_v.Domain.Program.Facts.{
  ProgramExecutionFacts, ProgramStage, target_preparation, loader_ram_preflight, begin_download,
  segment_commit, end_download, verify_preparation, advance, dispatch_side_effect,
  dispatch_non_flash_side_effect, submit, confirm_submitted,
}
use jlink_mcp_v.Worker.Gateway.{Gateway}
use jlink_mcp_v.Worker.Preflight.{
  FlashDll, Download, uncertain, and_then, prepare_flash_operation, preflight_loader_ram,
}

abbrev pub program_chunk_bytes : ℕ
program_chunk_bytes = 65536

-- The parts of `bytes` that the loop of write_download_bytes cuts, in order; as many rounds as bytes
-- are enough.
unfoldable pub chunks_from : ℕ → List ℕ → List (List ℕ)
chunks_from zero bytes = []
chunks_from (suc rounds) [] = []
chunks_from (suc rounds) (b ∷ bytes) =
    take program_chunk_bytes (b ∷ bytes) ∷ chunks_from rounds (drop program_chunk_bytes (b ∷ bytes))

unfoldable pub download_chunks : List ℕ → List (List ℕ)
unfolding chunks_from
download_chunks bytes = chunks_from (length bytes) bytes

-- `u32::try_from(address.checked_add(offset)?)`
unfoldable pub chunk_address : ℕ → ℕ → Result ℕ
chunk_address address offset = do
  current ← ok_or (checked_add address offset) uncertain
  ensure (ltb current u32_mod) uncertain
  ok current

abbrev pub with_code : ℤ → JlinkError → JlinkError
with_code (pos n) e = with_detail e "dll_return_code" (num n)
with_code (negsuc n) e = with_detail e "minus_dll_return_code" (num (suc n))

abbrev write_error : ℤ → ℕ → ℕ → JlinkError
write_error result current count =
    with_detail (with_detail (with_code result uncertain) "address" (num current)) "length"
      (num count)

abbrev pub returned_count : ℤ → ℕ → Bool
returned_count (pos n) count = n == count
returned_count (negsuc n) count = false

module _ {G : Type 0} (dll : FlashDll G) where
  -- One chunk, after its call: the failure, or the rest of the loop.
  abbrev pub written_chunk :
      ℕ
      → List ℕ
      → (G → ProgramExecutionFacts → Download G)
      → ProgramExecutionFacts
      → G × ℤ
      → Download G
  written_chunk current chunk rest f (g, result) =
      if not (returned_count result (length chunk))
      then ((g, f), err (write_error result current (length chunk)))
      else rest g (submit current (length chunk) f)

  abbrev pub write_chunk :
      Result ℕ
      → List ℕ
      → (G → ProgramExecutionFacts → Download G)
      → G
      → ProgramExecutionFacts
      → Download G
  write_chunk (err e) chunk rest g f = ((g, f), err e)
  write_chunk (ok current) chunk rest g f =
      written_chunk current chunk rest f (dll.call_write_mem current chunk g)

  -- The loop of write_download_bytes, `offset` bytes into the segment.
  unfoldable pub write_chunks : ℕ → ℕ → List (List ℕ) → G → ProgramExecutionFacts → Download G
  write_chunks address offset [] g f = ((g, f), ok tt)
  write_chunks address offset (chunk ∷ rest) g f =
      write_chunk (chunk_address address offset) chunk
        (write_chunks address (offset + length chunk) rest) g f

  unfoldable pub write_download_bytes : ℕ → List ℕ → G → ProgramExecutionFacts → Download G
  unfolding write_chunks download_chunks
  write_download_bytes address bytes g f = write_chunks address 0 (download_chunks bytes) g f

  unfoldable pub write_segments : List FirmwareSegment → G → ProgramExecutionFacts → Download G
  unfolding write_download_bytes
  write_segments [] g f = ((g, f), ok tt)
  write_segments (s ∷ segments) g f =
      and_then (write_download_bytes s.address s.bytes g f) (write_segments segments)

  -- What EndDownload returned.
  abbrev pub ended_download : ProgramStage → ProgramExecutionFacts → G × ℤ → Download G
  ended_download next_stage f (g, pos n) =
      ((g, advance end_download next_stage (confirm_submitted f)), ok tt)
  ended_download next_stage f (g, negsuc n) = ((g, f), err (with_code (negsuc n) uncertain))

  unfoldable pub finish_download_after_segments : ProgramStage → Download G → Download G
  finish_download_after_segments next_stage ((g, f), err e) = ((g, f), err e)
  finish_download_after_segments next_stage ((g, f), ok u) =
      ended_download next_stage (advance segment_commit end_download f) (dll.call_end_download g)

  -- From BeginDownload to the end of program_image.
  unfoldable pub commit_image : List FirmwareSegment → G → ProgramExecutionFacts → Download G
  unfolding write_segments finish_download_after_segments
  commit_image segments g f =
      let f1 =
        advance begin_download segment_commit
          (dispatch_side_effect (advance loader_ram_preflight begin_download f)) in
      finish_download_after_segments verify_preparation
        (write_segments segments (dll.call_begin_download g) f1)

  -- The whole operation.
  unfoldable pub program_image :
      Gateway G → List FirmwareSegment → MemoryRegion → G → ProgramExecutionFacts → Download G
  unfolding prepare_flash_operation preflight_loader_ram commit_image
  program_image gw segments region g f = and_then (prepare_flash_operation dll gw g f) λ g1 f1.
      and_then
        (preflight_loader_ram dll gw region g1 (
          advance target_preparation loader_ram_preflight
            (record f1 { last_trusted_target_state = some halted })))
        (commit_image segments)
