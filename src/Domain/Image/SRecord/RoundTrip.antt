-- ===== src/Domain/Image/SRecord/RoundTrip.antt =====
-- A written S-record file is read as what its data records load.
use mathlib.Core.List.{reverse, reverse-cons, append_assoc, append-nil}
use jlink_mcp_v.Base.{
  ℕ, ◌+◌, ◌^◌, ◌<◌, ◌≡◌, refl, ap, ◌∙◌, sym, true, false, List, [], ◌∷◌, ◌++◌, ◌==◌, All, length,
  u64_mod, arith,
}
use jlink_mcp_v.Base.Graphic.{IsGraphic}
use jlink_mcp_v.Base.Utf8.{from_utf8-ascii}
use jlink_mcp_v.Base.Lines.{unlines, lines-unlines, ascii-unlines}
use jlink_mcp_v.Domain.Error.{◌>>=◌}
use jlink_mcp_v.Domain.Image.{FirmwareSegment, normalize_segments}
use jlink_mcp_v.Domain.Image.Text.{strip_bom, each_line}
use jlink_mcp_v.Domain.Image.SRecord.{read_kind, read_s_line, finish_s_record, parse_s_record}
use jlink_mcp_v.Domain.Image.SRecord.Records.{
  two, data_kind, end_kind, DataRecord, IsBody, IsDataRecord, s_line, data_lines, SFile, IsFile,
  s_lines, s_file, loaded, s_loads,
}
use jlink_mcp_v.Domain.Image.SRecord.Line.{
  s_reader, s_line-IsGraphic, each_line-s_line, IsKind-data_kind, IsKind-end_kind, IsKind-header,
  IsKind-count, read_kind-data_kind, read_kind-end_kind, is_end-end_kind, s_data-fits,
}

abbrev all_data : List FirmwareSegment → List DataRecord → List FirmwareSegment
all_data raw [] = raw
all_data raw (d ∷ ds) = all_data (loaded d.address d.payload raw) ds

reverse-loaded :
    (address : ℕ) (payload : List ℕ) (raw rest : List FirmwareSegment)
    → reverse (loaded address payload raw) ++ rest ≡ reverse raw ++ loaded address payload rest
reverse-loaded address [] raw rest = refl
reverse-loaded address (b ∷ bytes) raw rest =
    let s : FirmwareSegment = record { address = address; bytes = b ∷ bytes } in
    ap (λ l. l ++ rest) (reverse-cons s raw) ∙ append_assoc (reverse raw) (s ∷ []) rest

reverse-all_data :
    (raw : List FirmwareSegment) (ds : List DataRecord)
    → reverse (all_data raw ds) ≡ reverse raw ++ s_loads ds
reverse-all_data raw [] = sym (append-nil (reverse raw))
reverse-all_data raw (d ∷ ds) =
    reverse-all_data (loaded d.address d.payload raw) ds
    ∙ reverse-loaded d.address d.payload raw (s_loads ds)

read_data :
    (raw : List FirmwareSegment) (n : ℕ) (ds : List DataRecord) (rest : List (List ℕ))
    → All IsDataRecord ds
    → n + length ds < u64_mod
    → each_line read_s_line (data_lines ds rest) (s_reader raw false n)
      ≡ each_line read_s_line rest (s_reader (all_data raw ds) false (n + length ds))
unfolding data_lines
read_data raw n [] rest h small =
    ap (λ m. each_line read_s_line rest (s_reader raw false m)) (omega arith)
read_data raw n (d ∷ ds) rest h small =
    each_line-s_line raw false n (data_kind d.width) d.width d.address d.payload
      (data_lines ds rest) (IsKind-data_kind d.width) (h.0) refl
    ∙ ap (λ r. r >>= each_line read_s_line (data_lines ds rest))
        (read_kind-data_kind (s_reader raw false n) d.width d.address d.payload
          ∙ s_data-fits raw n d.width d.address d.payload (h.0) (omega (arith, small)))
    ∙ read_data (loaded d.address d.payload raw) (n + 1) ds rest (h.1) (omega (arith, small))
    ∙ ap
        (λ m.
          each_line read_s_line rest
            (s_reader (all_data (loaded d.address d.payload raw) ds) false m))
        (omega arith)

read_count :
    (raw : List FirmwareSegment) (n : ℕ) (rest : List (List ℕ))
    → n < 2 ^ 16
    → each_line read_s_line (s_line b'5' two n [] ∷ rest) (s_reader raw false n)
      ≡ each_line read_s_line rest (s_reader raw true n)
unfolding read_kind
read_count raw n rest small =
    let same : (n == n) ≡ true = ground arith in
    let fits : IsBody two n [] = (small, omega arith, tt) in
    each_line-s_line raw false n b'5' two n [] rest IsKind-count fits refl
    ∙ rw (read_kind, same) refl

read_end :
    (raw : List FirmwareSegment) (n : ℕ) (f : SFile)
    → IsFile f
    → (each_line read_s_line
          (s_line (end_kind f.end_width) f.end_width f.entry [] ∷ [])
          (s_reader raw true n)
        >>= finish_s_record)
      ≡ normalize_segments (reverse raw)
unfolding finish_s_record each_line
read_end raw n f h =
    let fits : IsBody f.end_width f.entry [] = (h.3, omega arith, tt) in
    rw
      (
        each_line-s_line raw true n (end_kind f.end_width) f.end_width f.entry [] []
            (IsKind-end_kind f.end_width) fits (is_end-end_kind f.end_width),
        read_kind-end_kind (s_reader raw true n) f.end_width f.entry,
      )
      refl

read_header :
    (f : SFile) (rest : List (List ℕ))
    → IsFile f
    → each_line read_s_line (s_line b'0' two 0 f.header ∷ rest) (s_reader [] false 0)
      ≡ each_line read_s_line rest (s_reader [] false 0)
unfolding read_kind
read_header f rest h = each_line-s_line [] false 0 b'0' two 0 f.header rest IsKind-header (h.0) refl

IsGraphic-data_lines :
    (ds : List DataRecord) (rest : List (List ℕ))
    → All IsDataRecord ds
    → All (All IsGraphic) rest
    → All (All IsGraphic) (data_lines ds rest)
unfolding data_lines
IsGraphic-data_lines [] rest h g = g
IsGraphic-data_lines (d ∷ ds) rest h g = (
  s_line-IsGraphic (data_kind d.width) d.width d.address d.payload (IsKind-data_kind d.width) (h.0),
  IsGraphic-data_lines ds rest (h.1) g,
)

IsGraphic-s_lines : (f : SFile) → IsFile f → All (All IsGraphic) (s_lines f)
unfolding s_lines
IsGraphic-s_lines f h =
    let n = length f.records in
    let ends : IsBody f.end_width f.entry [] = (h.3, omega arith, tt) in
    let counts : IsBody two n [] = (h.2, omega arith, tt) in
    (
      s_line-IsGraphic b'0' two 0 f.header IsKind-header (h.0),
      IsGraphic-data_lines f.records _ (h.1) (
        s_line-IsGraphic b'5' two n [] IsKind-count counts,
        (
          s_line-IsGraphic (end_kind f.end_width) f.end_width f.entry []
              (IsKind-end_kind f.end_width) ends,
          tt,
        ),
      ),
    )

strip_bom-s_lines : (f : SFile) → strip_bom (unlines (s_lines f)) ≡ unlines (s_lines f)
unfolding s_lines s_line strip_bom
strip_bom-s_lines f = refl

read_s_lines :
    (f : SFile)
    → IsFile f
    → (each_line read_s_line (s_lines f) (s_reader [] false 0) >>= finish_s_record)
      ≡ normalize_segments (s_loads f.records)
unfolding s_lines
read_s_lines f h =
    let ds = f.records in
    let n = length ds in
    let end = s_line (end_kind f.end_width) f.end_width f.entry [] ∷ [] in
    let numbered : 0 + length ds ≡ n = omega arith in
    ap (λ r. r >>= finish_s_record)
      (read_header f (data_lines ds (s_line b'5' two n [] ∷ end)) h
        ∙ read_data [] 0 ds (s_line b'5' two n [] ∷ end) (h.1) (omega (arith, h.2))
        ∙ ap
            (λ m.
              each_line read_s_line (s_line b'5' two n [] ∷ end)
                (s_reader (all_data [] ds) false m))
            numbered
        ∙ read_count (all_data [] ds) n end (h.2))
    ∙ read_end (all_data [] ds) n f h
    ∙ ap normalize_segments (reverse-all_data [] ds)

-- The bytes of a written S-record file are read, and the result is the normal form of what its data records load.
pub parse_s_record-s_file :
    (f : SFile) → IsFile f → parse_s_record (s_file f) ≡ normalize_segments (s_loads f.records)
unfolding parse_s_record s_file
parse_s_record-s_file f h =
    let printed = IsGraphic-s_lines f h in
    rw
      (
        parse_s_record,
        s_file,
        from_utf8-ascii (unlines (s_lines f)) (ascii-unlines (s_lines f) printed),
        strip_bom-s_lines f,
        lines-unlines (s_lines f) printed,
      )
      (read_s_lines f h)
