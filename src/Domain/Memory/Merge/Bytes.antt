-- ===== src/Domain/Memory/Merge/Bytes.antt =====
-- A merged plan returns the bytes of every original read, in request order.
use mathlib.Core.List.{reverse, reverse-cons, append-nil, append_assoc, map-append}
use jlink_mcp_v.Base.{
  ℕ, zero, suc, ◌+◌, ◌≤◌, ◌≡◌, refl, ap, ap₂, All-map, sym, ◌∙◌, true, inl, inr, Option, none, some,
  List, [], ◌∷◌, ◌++◌, map, arith, take, drop, All, All-append, Bool-cases,
}
use jlink_mcp_v.Domain.Memory.{MemoryRange, range_end, cortex_m_address_space_end}
use jlink_mcp_v.Domain.Memory.Map.{IsValidRange}
use jlink_mcp_v.Domain.Memory.Merge.{
  MemoryReadPlan, MemoryReadPart, MergedMemoryRead, can_extend, first_read, single, extend, step,
  merge_from, merge_safe_memory_reads,
}

-- A target call: the bytes of the memory `mem` at `n` addresses from `a`.
pub read_bytes : (ℕ → ℕ) → ℕ → ℕ → List ℕ
read_bytes mem a zero = []
read_bytes mem a (suc n) = mem a ∷ read_bytes mem (a + 1) n

abbrev pub read_range : (ℕ → ℕ) → MemoryRange → List ℕ
read_range mem r = read_bytes mem r.address r.length

-- The bytes of one part, cut out of those of the merged call.
abbrev pub cut : List ℕ → MemoryReadPart → List ℕ
cut bytes part = take part.length (drop part.offset bytes)

-- What the caller decodes from the merged calls, one entry for each part.
abbrev pub decode : (ℕ → ℕ) → List MergedMemoryRead → List (List ℕ)
decode mem [] = []
decode mem (m ∷ ms) = map (cut (read_range mem m.range)) m.parts ++ decode mem ms

drop-read_bytes :
    (mem : ℕ → ℕ) (k a n : ℕ)
    → k ≤ n
    → (r : ℕ) × (n ≡ k + r) × (drop k (read_bytes mem a n) ≡ read_bytes mem (a + k) r)
unfolding read_bytes
drop-read_bytes mem zero a n h = (n, omega arith, ap (λ t. read_bytes mem t n) (omega arith))
drop-read_bytes mem (suc k) a zero h = absurd (omega arith)
drop-read_bytes mem (suc k) a (suc n) h =
    let (r, e, rest) = drop-read_bytes mem k (a + 1) n (omega arith) in
    (r, omega arith, rest ∙ ap (λ t. read_bytes mem t r) (omega arith))

take-read_bytes :
    (mem : ℕ → ℕ) (k a n : ℕ) → k ≤ n → take k (read_bytes mem a n) ≡ read_bytes mem a k
unfolding read_bytes
take-read_bytes mem zero a n h = refl
take-read_bytes mem (suc k) a zero h = absurd (omega arith)
take-read_bytes mem (suc k) a (suc n) h =
    ap (◌∷◌ (mem a)) (take-read_bytes mem k (a + 1) n (omega arith))

cut-read_bytes :
    (mem : ℕ → ℕ) (a n : ℕ) (part : MemoryReadPart)
    → part.offset + part.length ≤ n
    → cut (read_bytes mem a n) part ≡ read_bytes mem (a + part.offset) part.length
cut-read_bytes mem a n part h =
    let (r, e, dropped) = drop-read_bytes mem part.offset a n (omega arith) in
    rw dropped (take-read_bytes mem part.length (a + part.offset) r (omega arith))

abbrev located : (ℕ → ℕ) → ℕ → MemoryReadPart → List ℕ
located mem a part = read_bytes mem (a + part.offset) part.length

abbrev FitsIn : ℕ → List MemoryReadPart → Type 0
FitsIn n = All (λ part. part.offset + part.length ≤ n)

record Fits (m : MergedMemoryRead) : Type 0 where
  parts_fit : FitsIn m.range.length m.parts
  bounded : m.range.address + m.range.length ≤ cortex_m_address_space_end

map-cut :
    (mem : ℕ → ℕ) (a n : ℕ) (parts : List MemoryReadPart)
    → FitsIn n parts
    → map (cut (read_bytes mem a n)) parts ≡ map (located mem a) parts
map-cut mem a n [] h = refl
map-cut mem a n (p ∷ ps) h = ap₂ ◌∷◌ (cut-read_bytes mem a n p h.0) (map-cut mem a n ps h.1)

abbrev decode_one : (ℕ → ℕ) → MergedMemoryRead → List (List ℕ)
decode_one mem m = map (cut (read_range mem m.range)) m.parts

decode_back : (ℕ → ℕ) → List MergedMemoryRead → List (List ℕ)
decode_back mem [] = []
decode_back mem (m ∷ ms) = decode_back mem ms ++ decode_one mem m

decode-append :
    (mem : ℕ → ℕ) (xs ys : List MergedMemoryRead)
    → decode mem (xs ++ ys) ≡ decode mem xs ++ decode mem ys
decode-append mem [] ys = refl
decode-append mem (x ∷ xs) ys = simp (decode-append mem xs ys, append_assoc)

decode-reverse :
    (mem : ℕ → ℕ) (ms : List MergedMemoryRead) → decode mem (reverse ms) ≡ decode_back mem ms
unfolding decode_back
decode-reverse mem [] = refl
decode-reverse mem (m ∷ ms) =
    ap (decode mem) (reverse-cons m ms)
    ∙ decode-append mem (reverse ms) (m ∷ [])
    ∙ ap₂ ◌++◌ (decode-reverse mem ms) (append-nil _)

single-Fits :
    (index : ℕ) (read : MemoryReadPlan) → IsValidRange read.range → Fits (single index read)
single-Fits index read v = omega (arith, v.bounded)

FitsIn-weaken : (n k : ℕ) (parts : List MemoryReadPart) → FitsIn n parts → n ≤ k → FitsIn k parts
FitsIn-weaken n k parts h le = All-map _ _ (λ p q. omega arith) parts h

-- A read that starts where the current call ends can be appended to it.
extend-Fits :
    (index : ℕ) (read : MemoryReadPlan) (m : MergedMemoryRead)
    → IsValidRange read.range
    → Fits m
    → range_end m.range ≡ read.range.address
    → Fits (extend index read m)
extend-Fits index read m v f e = record {
  parts_fit =
      All-append _ m.parts _
        (FitsIn-weaken m.range.length _ m.parts f.parts_fit (omega (arith, v.bounded, f.bounded)))
        (omega (arith, v.bounded, f.bounded), tt);
  bounded = omega (arith, v.bounded, f.bounded);
}

decode_one-extend :
    (mem : ℕ → ℕ) (index : ℕ) (read : MemoryReadPlan) (m : MergedMemoryRead)
    → IsValidRange read.range
    → Fits m
    → range_end m.range ≡ read.range.address
    → decode_one mem (extend index read m) ≡ decode_one mem m ++ read_range mem read.range ∷ []
decode_one-extend mem index read m v f e =
    map-cut mem m.range.address _ (extend index read m).parts
      (extend-Fits index read m v f e).parts_fit
    ∙ map-append (located mem m.range.address) m.parts _
    ∙ ap₂ ◌++◌ (sym (map-cut mem m.range.address m.range.length m.parts f.parts_fit))
        (ap (λ a. read_bytes mem a read.range.length ∷ []) (omega (arith, f.bounded)))

decode_one-single :
    (mem : ℕ → ℕ) (index : ℕ) (read : MemoryReadPlan)
    → decode_one mem (single index read) ≡ read_range mem read.range ∷ []
decode_one-single mem index read =
    ap (λ t. t ∷ [])
      (take-read_bytes mem read.range.length read.range.address read.range.length (omega arith))

can_extend-adjacent :
    (first : Option MemoryReadPlan) (read : MemoryReadPlan) (m : MergedMemoryRead)
    → can_extend first read m ≡ true
    → range_end m.range ≡ read.range.address
unfolding can_extend
can_extend-adjacent none read m h = cc
can_extend-adjacent (some first) read m h = ground arith

step-Fits :
    (reads : List MemoryReadPlan) (index : ℕ) (read : MemoryReadPlan) (ms : List MergedMemoryRead)
    → IsValidRange read.range
    → All Fits ms
    → All Fits (step reads index read ms)
unfolding step
step-Fits reads index read [] v h = (single-Fits index read v, tt)
step-Fits reads index read (m ∷ ms) v h =
    elim (Bool-cases (can_extend (first_read reads m) read m)) [
      | inl joins ↦ rw joins (
        extend-Fits index read m v h.0 (can_extend-adjacent (first_read reads m) read m joins),
        h.1,
      )
      | inr parts ↦ rw parts (single-Fits index read v, h)
    ]

decode_back-step :
    (mem : ℕ → ℕ) (reads : List MemoryReadPlan) (index : ℕ) (read : MemoryReadPlan)
    (ms : List MergedMemoryRead)
    → IsValidRange read.range
    → All Fits ms
    → decode_back mem (step reads index read ms)
      ≡ decode_back mem ms ++ read_range mem read.range ∷ []
unfolding step decode_back
decode_back-step mem reads index read [] v h = decode_one-single mem index read
decode_back-step mem reads index read (m ∷ ms) v h =
    elim (Bool-cases (can_extend (first_read reads m) read m)) [
      | inl joins ↦ rw joins (
          ap (◌++◌ (decode_back mem ms)) (
            decode_one-extend mem index read m v h.0
              (can_extend-adjacent (first_read reads m) read m joins))
          ∙ sym (
              append_assoc (decode_back mem ms) (decode_one mem m)
                (read_range mem read.range ∷ [])))
      | inr parts ↦
          rw parts
            (ap (◌++◌ (decode_back mem ms ++ decode_one mem m)) (decode_one-single mem index read))
    ]

abbrev pub read_each : (ℕ → ℕ) → List MemoryReadPlan → List (List ℕ)
read_each mem = map (λ read. read_range mem read.range)

merge_from-decode :
    (mem : ℕ → ℕ) (reads : List MemoryReadPlan) (index : ℕ) (rest : List MemoryReadPlan)
    (ms : List MergedMemoryRead)
    → All (λ read. IsValidRange read.range) rest
    → All Fits ms
    → decode_back mem (merge_from reads index rest ms) ≡ decode_back mem ms ++ read_each mem rest
unfolding merge_from
merge_from-decode mem reads index [] ms v h = sym (append-nil _)
merge_from-decode mem reads index (read ∷ rest) ms v h =
    merge_from-decode mem reads (index + 1) rest (step reads index read ms) v.1
      (step-Fits reads index read ms v.0 h)
    ∙ ap (λ t. t ++ read_each mem rest) (decode_back-step mem reads index read ms v.0 h)
    ∙ append_assoc (decode_back mem ms) (read_range mem read.range ∷ []) (read_each mem rest)

-- Whatever the target memory holds, cutting the parts out of the merged calls gives exactly the
-- bytes that the valid reads would return one by one, each once and in request order.
pub merge_safe_memory_reads-decode :
    (mem : ℕ → ℕ) (reads : List MemoryReadPlan)
    → All (λ read. IsValidRange read.range) reads
    → decode mem (merge_safe_memory_reads reads) ≡ read_each mem reads
unfolding merge_safe_memory_reads decode_back
merge_safe_memory_reads-decode mem reads v =
    decode-reverse mem (merge_from reads 0 reads []) ∙ merge_from-decode mem reads 0 reads [] v tt
