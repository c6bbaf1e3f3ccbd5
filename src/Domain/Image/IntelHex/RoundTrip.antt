-- ===== src/Domain/Image/IntelHex/RoundTrip.antt =====
-- A written Intel HEX file is read as what its records load.
use mathlib.Core.List.{reverse, reverse-cons, append_assoc, append-nil}
use jlink_mcp_v.Base.{
  ℕ, ◌+◌, ◌*◌, ◌^◌, ◌<◌, ◌≡◌, refl, ap, ◌∙◌, sym, List, [], ◌∷◌, ◌++◌, All, arith,
}
use jlink_mcp_v.Base.Graphic.{IsGraphic}
use jlink_mcp_v.Base.Utf8.{from_utf8-ascii}
use jlink_mcp_v.Base.Lines.{unlines, lines-unlines, ascii-unlines}
use jlink_mcp_v.Domain.Error.{ok, ◌>>=◌}
use jlink_mcp_v.Domain.Image.{FirmwareSegment, normalize_segments}
use jlink_mcp_v.Domain.Image.Text.{strip_bom, each_line}
use jlink_mcp_v.Domain.Image.IntelHex.{
  control_record, read_payload, read_hex_line, finish_hex, parse_intel_hex,
}
use jlink_mcp_v.Domain.Image.IntelHex.Records.{
  HexRecord, data_at, segment_base, linear_base, segment_entry, linear_entry, IsRecord, fields,
  hex_line, hex_lines, hex_file, loads,
}
use jlink_mcp_v.Domain.Image.IntelHex.Line.{
  IsFields, reader, hex_line-IsGraphic, IsFields-fields, each_line-hex_line, data_record-fits,
}

read_end :
    (base : ℕ) (raw : List FirmwareSegment)
    → (each_line read_hex_line (hex_lines []) (reader base raw) >>= finish_hex)
      ≡ normalize_segments (reverse raw ++ [])
unfolding hex_lines finish_hex read_payload each_line
read_end base raw =
    let fits : IsFields (0, 1, []) = (omega arith, omega arith, omega arith, tt) in
    rw (hex_lines, each_line-hex_line base raw (0, 1, []) [] fits)
      (ap normalize_segments (sym (append-nil (reverse raw))))

read_next :
    (base base' : ℕ) (raw raw' : List FirmwareSegment) (r : HexRecord) (rs : List HexRecord)
    → IsRecord r
    → read_payload (reader base raw) ((fields r).1) ((fields r).0) ((fields r).2)
      ≡ ok (reader base' raw')
    → each_line read_hex_line (hex_lines (r ∷ rs)) (reader base raw)
      ≡ each_line read_hex_line (hex_lines rs) (reader base' raw')
unfolding hex_lines
read_next base base' raw raw' r rs h e =
    each_line-hex_line base raw (fields r) (hex_lines rs) (IsFields-fields r h)
    ∙ ap (λ k. k >>= each_line read_hex_line (hex_lines rs)) e

reverse-next :
    (s : FirmwareSegment) (raw rest : List FirmwareSegment)
    → reverse (s ∷ raw) ++ rest ≡ reverse raw ++ s ∷ rest
reverse-next s raw rest =
    ap (λ l. l ++ rest) (reverse-cons s raw) ∙ append_assoc (reverse raw) (s ∷ []) rest

read_lines :
    (base : ℕ) (raw : List FirmwareSegment) (rs : List HexRecord)
    → base < 2 ^ 32
    → All IsRecord rs
    → (each_line read_hex_line (hex_lines rs) (reader base raw) >>= finish_hex)
      ≡ normalize_segments (reverse raw ++ loads base rs)
unfolding read_payload control_record
read_lines base raw [] small h = read_end base raw
read_lines base raw (data_at offset [] ∷ rs) small h =
    rw (read_next base base raw raw (data_at offset []) rs (h.0) refl)
      (read_lines base raw rs small (h.1))
read_lines base raw (data_at offset (b ∷ bytes) ∷ rs) small h =
    let s : FirmwareSegment = record { address = base + offset; bytes = b ∷ bytes } in
    rw
      (read_next base base raw (s ∷ raw) (data_at offset (b ∷ bytes)) rs (h.0)
        (data_record-fits base offset b raw bytes small (h.0.0) (h.0.1)))
      (read_lines base (s ∷ raw) rs small (h.1)
        ∙ ap normalize_segments (reverse-next s raw (loads base rs)))
read_lines base raw (segment_base paragraph ∷ rs) small h =
    rw
      (read_next base (paragraph * 2 ^ 4) raw raw (segment_base paragraph) rs (h.0)
        (ap (λ n. ok (reader (n * 2 ^ 4) raw)) (omega arith)))
      (read_lines (paragraph * 2 ^ 4) raw rs (omega (arith, h.0)) (h.1))
read_lines base raw (linear_base upper ∷ rs) small h =
    rw
      (read_next base (upper * 2 ^ 16) raw raw (linear_base upper) rs (h.0)
        (ap (λ n. ok (reader (n * 2 ^ 16) raw)) (omega arith)))
      (read_lines (upper * 2 ^ 16) raw rs (omega (arith, h.0)) (h.1))
read_lines base raw (segment_entry entry ∷ rs) small h =
    rw (read_next base base raw raw (segment_entry entry) rs (h.0) refl)
      (read_lines base raw rs small (h.1))
read_lines base raw (linear_entry entry ∷ rs) small h =
    rw (read_next base base raw raw (linear_entry entry) rs (h.0) refl)
      (read_lines base raw rs small (h.1))

IsGraphic-hex_lines : (rs : List HexRecord) → All IsRecord rs → All (All IsGraphic) (hex_lines rs)
unfolding hex_lines
IsGraphic-hex_lines [] h =
    let fits : IsFields (0, 1, []) = (omega arith, omega arith, omega arith, tt) in
    (hex_line-IsGraphic (0, 1, []) fits, tt)
IsGraphic-hex_lines (r ∷ rs) h =
    (hex_line-IsGraphic (fields r) (IsFields-fields r (h.0)), IsGraphic-hex_lines rs (h.1))

strip_bom-hex_lines :
    (rs : List HexRecord) → strip_bom (unlines (hex_lines rs)) ≡ unlines (hex_lines rs)
unfolding hex_lines hex_line strip_bom
strip_bom-hex_lines [] = refl
strip_bom-hex_lines (r ∷ rs) = refl

-- A written file of records whose fields fit is read, whatever the order of its data and base
-- records, and the result is the normal form of what the records load.
pub parse_intel_hex-hex_file :
    (rs : List HexRecord)
    → All IsRecord rs
    → parse_intel_hex (hex_file rs) ≡ normalize_segments (loads 0 rs)
unfolding parse_intel_hex hex_file
parse_intel_hex-hex_file rs h =
    let printed = IsGraphic-hex_lines rs h in
    rw
      (
        parse_intel_hex,
        hex_file,
        from_utf8-ascii (unlines (hex_lines rs)) (ascii-unlines (hex_lines rs) printed),
        strip_bom-hex_lines rs,
        lines-unlines (hex_lines rs) printed,
      )
      (read_lines 0 [] rs (omega arith) h)
