-- ===== src/Domain/Hss/Frame/Lossless.antt =====
-- Parsing loses no byte: the frames and the tail, written out again, are the input.
use jlink_mcp_v.Base.{
  ℕ, zero, suc, ◌+◌, ◌-◌, ◌*◌, ◌/◌, ◌%◌, ◌≤◌, ◌<◌, ◌≡◌, refl, ap, ap₂, ◌∙◌, List, [], ◌∷◌, ◌++◌,
  arith, ◌==◌, length, take, drop, All, take-append-drop, All-take, All-drop, length-take,
  length-drop, Bool-cases, u32_mod, inl, inr, checked_add_u32,
}
use jlink_mcp_v.Domain.Error.{ok, bind-eq-ok, ok_or}
use jlink_mcp_v.Domain.Hss.Frame.{
  HssFrameLayout, HssRawFrame, HssFrameBatch, timestamp_bytes, add_blocks, layout_of, new_layout,
  chunks_exact, parse_record, parse_records, parse, block_error, frame_error,
}

abbrev pub IsByte : ℕ → Type 0
IsByte b = b < 256

-- `u32::to_le_bytes`
pub to_le_bytes : ℕ → List ℕ
to_le_bytes t = t % 256 ∷ t / 256 % 256 ∷ t / 65536 % 256 ∷ t / 16777216 % 256 ∷ []

abbrev pub write_frame : HssRawFrame → List ℕ
write_frame f = to_le_bytes f.timestamp_raw ++ f.sample

pub write_frames : List HssRawFrame → List ℕ
write_frames [] = []
write_frames (f ∷ fs) = write_frame f ++ write_frames fs

-- What one record of a layout becomes.
abbrev pub IsFrame : HssFrameLayout → HssRawFrame → Type 0
IsFrame layout f = (length f.sample ≡ layout.sample_bytes) × (f.timestamp_raw < u32_mod)

pub record IsLayout (layout : HssFrameLayout) : Type 0 where
  pub positive : 0 < layout.sample_bytes
  pub whole : layout.record_bytes ≡ timestamp_bytes + layout.sample_bytes
  pub bounded : layout.record_bytes < u32_mod

-- One record: it parses, and writing it gives its bytes.
record Parsed (layout : HssFrameLayout) (chunk : List ℕ) : Type 0 where
  frame : HssRawFrame
  parsed : parse_record chunk ≡ ok frame
  written : write_frame frame ≡ chunk
  framed : IsFrame layout frame

word_of : ℕ → ℕ → ℕ → ℕ → ℕ
word_of b0 b1 b2 b3 = b0 + 256 * b1 + 65536 * b2 + 16777216 * b3

to_le_bytes-word :
    (b0 b1 b2 b3 : ℕ)
    → IsByte b0
    → IsByte b1
    → IsByte b2
    → IsByte b3
    → to_le_bytes (b0 + 256 * b1 + 65536 * b2 + 16777216 * b3) ≡ b0 ∷ b1 ∷ b2 ∷ b3 ∷ []
unfolding to_le_bytes
to_le_bytes-word b0 b1 b2 b3 h0 h1 h2 h3 =
    ap₂ ◌∷◌ (omega arith)
      (ap₂ ◌∷◌ (omega arith) (ap₂ ◌∷◌ (omega arith) (ap₂ ◌∷◌ (omega arith) refl)))

parse_record-Parsed :
    (layout : HssFrameLayout) (chunk : List ℕ)
    → IsLayout layout
    → All IsByte chunk
    → length chunk ≡ layout.record_bytes
    → Parsed layout chunk
unfolding parse_record
parse_record-Parsed layout [] v h e = absurd (omega (arith, v.positive))
parse_record-Parsed layout (b0 ∷ []) v h e = absurd (omega (arith, v.positive))
parse_record-Parsed layout (b0 ∷ b1 ∷ []) v h e = absurd (omega (arith, v.positive))
parse_record-Parsed layout (b0 ∷ b1 ∷ b2 ∷ []) v h e = absurd (omega (arith, v.positive))
parse_record-Parsed layout (b0 ∷ b1 ∷ b2 ∷ b3 ∷ sample) v (h0, (h1, (h2, (h3, h)))) e = record {
  frame = record { timestamp_raw = _; sample = sample };
  parsed = refl;
  written = ap (λ t. t ++ sample) (to_le_bytes-word b0 b1 b2 b3 h0 h1 h2 h3);
  framed = (omega (arith, v.whole), omega arith);
}

record AllParsed (layout : HssFrameLayout) (n : ℕ) (bytes : List ℕ) : Type 0 where
  frames : List HssRawFrame
  parsed : parse_records (chunks_exact layout.record_bytes n bytes) ≡ ok frames
  written : write_frames frames ≡ bytes
  framed : All (IsFrame layout) frames
  counted : length frames ≡ n

parse_records-AllParsed :
    (layout : HssFrameLayout) (n : ℕ) (bytes : List ℕ)
    → IsLayout layout
    → All IsByte bytes
    → length bytes ≡ n * layout.record_bytes
    → AllParsed layout n bytes
unfolding parse_records chunks_exact write_frames
parse_records-AllParsed layout zero [] v h e = record {
  frames = [];
  parsed = refl;
  written = refl;
  framed = tt;
  counted = refl;
}
parse_records-AllParsed layout zero (b ∷ bytes) v h e = absurd (omega arith)
parse_records-AllParsed layout (suc n) bytes v h e =
    let k = layout.record_bytes in
    let size : length bytes ≡ k + n * k = omega arith in
    let first =
      parse_record-Parsed layout (take k bytes) v (All-take IsByte k bytes h)
        (omega (arith, length-take k bytes)) in
    let rest =
      parse_records-AllParsed layout n (drop k bytes) v (All-drop IsByte k bytes h)
        (omega (arith, length-drop k bytes)) in
    record {
      frames = first.frame ∷ rest.frames;
      parsed = rw (first.parsed, rest.parsed);
      written = ap₂ ◌++◌ first.written rest.written ∙ take-append-drop k bytes;
      framed = (first.framed, rest.framed);
      counted = ap suc rest.counted;
    }

remainder_short : (n k : ℕ) → 0 < k → n - n / k * k < k
remainder_short n k h = grind arith

pub record IsLossless (layout : HssFrameLayout) (bytes : List ℕ) (batch : HssFrameBatch)
    : Type 0 where
  pub written : write_frames batch.frames ++ batch.incomplete_tail ≡ bytes
  pub framed : All (IsFrame layout) batch.frames
  pub tail_short : length batch.incomplete_tail < layout.record_bytes

-- Of a checked layout every byte stream parses, and no byte is lost: the frames and the tail, written
-- out again, are the input; each frame has the sample size of the layout and a 32-bit timestamp; and
-- the tail is shorter than a record.
pub parse-IsLossless :
    (layout : HssFrameLayout) (bytes : List ℕ)
    → IsLayout layout
    → All IsByte bytes
    → (batch : HssFrameBatch) × (parse layout bytes ≡ ok batch) × IsLossless layout bytes batch
unfolding parse
parse-IsLossless layout bytes v h =
    let count = length bytes / layout.record_bytes in
    let size = count * layout.record_bytes in
    let fits : size ≤ length bytes = grind (arith, v.whole, v.positive) in
    let all =
      parse_records-AllParsed layout count (take size bytes) v (All-take IsByte size bytes h)
        (omega (arith, length-take size bytes)) in
    (
      record { frames = all.frames; incomplete_tail = drop size bytes },
      rw all.parsed,
      record {
        written = ap (λ t. t ++ drop size bytes) all.written ∙ take-append-drop size bytes;
        framed = all.framed;
        tail_short =
            rw (length-drop size bytes)
              (remainder_short (length bytes) layout.record_bytes (omega (arith, v.whole)));
      },
    )

unfoldable pub sum : List ℕ → ℕ
sum [] = 0
sum (x ∷ xs) = x + sum xs

add_blocks-sum :
    (index start : ℕ) (counts : List ℕ) {total : ℕ}
    → add_blocks index start counts ≡ ok total
    → (total ≡ start + sum counts) × All (λ c. 0 < c) counts
unfolding add_blocks sum
add_blocks-sum index start [] h = (ground arith, tt)
add_blocks-sum index start (c ∷ counts) {total} h = elim (Bool-cases (c == 0)) [
  | inl empty ↦ absurd (cc (rw empty at h))
  | inr filled ↦
      let (next, added, rest) =
        bind-eq-ok _ (ok_or (checked_add_u32 start c) (block_error index)) (rw filled at h) in
      let here : next ≡ start + c = ground arith in
      let later = add_blocks-sum (index + 1) next counts rest in
      (omega (arith, later.0), (ground arith, later.1))
]

first_positive :
    (c : ℕ) (counts : List ℕ) (total : ℕ) (layout : HssFrameLayout)
    → total ≡ 0 + sum (c ∷ counts)
    → 0 < c
    → layout.sample_bytes ≡ total
    → 0 < layout.sample_bytes
unfolding sum
first_positive c counts total layout e h k = omega arith

-- An accepted layout adds up non-empty blocks, puts a 4-byte timestamp in front, and fits 32 bits.
pub new_layout-IsLayout :
    (counts : List ℕ) (layout : HssFrameLayout)
    → new_layout counts ≡ ok layout
    → IsLayout layout × (layout.sample_bytes ≡ sum counts) × All (λ c. 0 < c) counts
unfolding new_layout layout_of
new_layout-IsLayout [] layout h = cc
new_layout-IsLayout (c ∷ counts) layout h =
    let (total, added, rest) = bind-eq-ok _ (add_blocks 0 0 (c ∷ counts)) h in
    let (whole, fits, built) =
      bind-eq-ok _ (ok_or (checked_add_u32 timestamp_bytes total) frame_error) rest in
    let (sums, filled) = add_blocks-sum 0 0 (c ∷ counts) added in
    (
      record {
        positive = first_positive c counts total layout sums filled.0 (ground arith);
        whole = ground arith;
        bounded = ground arith;
      },
      ground (arith, sums),
      filled,
    )
