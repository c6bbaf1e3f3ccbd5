-- ===== src/Domain/Image/Elf/Valid.antt =====
-- What `parse_elf` hands over is valid.
use jlink_mcp_v.Base.{
  ℕ, not, ◌||◌, Option, List, [], ◌∷◌, ◌==◌, All, All-reverse, inl, inr, Bool-cases,
}
use jlink_mcp_v.Domain.Error.{◌>>=◌, ok_or}
use jlink_mcp_v.Domain.Image.{FirmwareSegment, segment, normalize_segments, invalid}
use jlink_mcp_v.Domain.Image.Segments.{IsSegment}
use jlink_mcp_v.Domain.Image.Valid.{
  IfOk, IfOk-then, IfOk-bind, segment-IsSegment, IsImageData, normalize_segments-valid,
}
use jlink_mcp_v.Domain.Image.Elf.{
  ProgramHeader, ObjectFile, pt_load, load_headers, some_segments, ensure_elf, parse_elf_segments,
  parse_elf_identity_block, parse_elf,
}

load_headers-valid :
    (segments : List FirmwareSegment) (headers : List ProgramHeader)
    → All IsSegment segments
    → IfOk (All IsSegment) (load_headers segments headers)
unfolding load_headers
load_headers-valid segments [] h = h
load_headers-valid segments (header ∷ rest) h =
    elim (Bool-cases (not (header.p_type == pt_load) || header.p_filesz == 0)) [
      | inl skipped ↦ rw (load_headers, skipped) (load_headers-valid segments rest h)
      | inr loaded ↦
          rw (load_headers, loaded)
            (IfOk-then (All IsSegment) (ok_or header.contents invalid) _ (λ bytes.
              IfOk-bind (All IsSegment) IsSegment (segment header.p_paddr bytes) _
                (segment-IsSegment header.p_paddr bytes)
                (λ s v. load_headers-valid (s ∷ segments) rest (v, h))))
    ]

some_segments-valid :
    (segments : List FirmwareSegment)
    → All IsSegment segments
    → IfOk (All IsSegment) (some_segments segments)
some_segments-valid [] h = tt
some_segments-valid (s ∷ segments) h = All-reverse IsSegment (s ∷ segments) h

pub parse_elf-valid :
    (object_parse : List ℕ → Option ObjectFile) (bytes : List ℕ)
    → IfOk (λ parsed. IsImageData (parsed.0)) (parse_elf object_parse bytes)
unfolding parse_elf parse_elf_segments
parse_elf-valid object_parse bytes = IfOk-then _ (ok_or (object_parse bytes) invalid) _ (λ file.
    IfOk-then _ (ensure_elf file.kind) _ (λ u.
      IfOk-bind _ (All IsSegment) (load_headers [] file.elf_program_headers >>= some_segments) _
        (IfOk-bind (All IsSegment) (All IsSegment) (load_headers [] file.elf_program_headers)
          some_segments (load_headers-valid [] file.elf_program_headers tt) some_segments-valid)
        (λ segments h. IfOk-then _ (parse_elf_identity_block file) _ (λ block.
          IfOk-bind _ IsImageData (normalize_segments segments) _
            (normalize_segments-valid segments h) (λ normalized n. n)))))
