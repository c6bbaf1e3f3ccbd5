-- ===== src/Worker/Download/Chunks.antt =====
-- How write_download_bytes cuts a segment.
use jlink_mcp_v.Base.{
  ℕ, zero, suc, ◌≤◌, ◌≡◌, refl, ap, ◌∙◌, List, [], ◌∷◌, ◌++◌, length, take, drop, arith, All,
  take-append-drop, length-take, length-drop,
}
use jlink_mcp_v.Worker.Download.{chunks_from, download_chunks, program_chunk_bytes}

pub joined : List (List ℕ) → List ℕ
joined [] = []
joined (chunk ∷ chunks) = chunk ++ joined chunks

abbrev pub IsChunk : List ℕ → Type 0
IsChunk chunk = (1 ≤ length chunk) × (length chunk ≤ program_chunk_bytes)

chunks_from_lem :
    (rounds : ℕ) (bytes : List ℕ)
    → length bytes ≤ rounds
    → (joined (chunks_from rounds bytes) ≡ bytes) × All IsChunk (chunks_from rounds bytes)
unfolding chunks_from joined
chunks_from_lem zero [] h = (refl, tt)
chunks_from_lem zero (b ∷ bytes) h = absurd (omega arith)
chunks_from_lem (suc rounds) [] h = (refl, tt)
chunks_from_lem (suc rounds) (b ∷ bytes) h =
    let left = length-drop program_chunk_bytes (b ∷ bytes) in
    let cut = length-take program_chunk_bytes (b ∷ bytes) in
    let (whole, chunks) =
      chunks_from_lem rounds (drop program_chunk_bytes (b ∷ bytes)) (omega arith) in
    (
      ap (λ rest. take program_chunk_bytes (b ∷ bytes) ++ rest) whole
          ∙ take-append-drop program_chunk_bytes (b ∷ bytes),
      ((ground arith, ground arith), chunks),
    )

-- The chunks of a segment are non-empty, none is longer than 64 KiB, and together they are the segment.
pub download_chunks_lem :
    (bytes : List ℕ)
    → (joined (download_chunks bytes) ≡ bytes) × All IsChunk (download_chunks bytes)
unfolding download_chunks
download_chunks_lem bytes = chunks_from_lem (length bytes) bytes (omega arith)
