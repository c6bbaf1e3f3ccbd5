-- ===== src/Domain/Memory/Merge/Groups.antt =====
-- Which reads share a target call.
use mathlib.Core.List.{append_assoc}
use jlink_mcp_v.Base.{
  ℕ, ◌+◌, ◌%◌, ◌≡◌, ◌≢◌, refl, ap, subst, sym, ◌∙◌, true, false, inl, inr, Option, none, some, List,
  [], ◌∷◌, ◌++◌, arith, All, All-append, All-reverse, length-append, Bool-cases, length, get_elem?,
}
use jlink_mcp_v.Domain.Memory.{MemoryRegionKind, ram, mmio, kind_eq}
use jlink_mcp_v.Domain.Memory.Merge.{
  MemoryReadPlan, raw, MemoryReadPart, MergedMemoryRead, can_merge, can_extend, first_read,
  part_after, extend, step, merge_from, merge_safe_memory_reads,
}

-- A read that another call may absorb without a side effect on the target.
pub record IsMergeable (read : MemoryReadPlan) : Type 0 where
  pub steady : read.is_volatile ≡ false
  pub aligned : read.range.address % 4 ≡ 0
  pub whole_words : read.range.length % 4 ≡ 0
  pub no_device : read.region ≢ mmio
  pub raw_ram : read.origin ≡ raw → read.region ≡ ram

-- The part stands for a mergeable read of the kind `k`.
pub record IsSafePart (reads : List MemoryReadPlan) (k : MemoryRegionKind) (part : MemoryReadPart)
    : Type 0 where
  pub read : MemoryReadPlan
  pub listed : get_elem? reads part.index ≡ some read
  pub mergeable : IsMergeable read
  pub region : read.region ≡ k

can_merge-IsMergeable : (read : MemoryReadPlan) → can_merge read ≡ true → IsMergeable read
unfolding can_merge
can_merge-IsMergeable read h = record {
  steady = ground arith;
  aligned = ground arith;
  whole_words = ground arith;
  no_device = ground arith;
  raw_ram = ground arith;
}

pub data IsSafeGroup (reads : List MemoryReadPlan) (m : MergedMemoryRead) : Type 0 where
  alone : (part : MemoryReadPart) → m.parts ≡ part ∷ [] → IsSafeGroup reads m
  together :
      (first : MemoryReadPart) (others : List MemoryReadPart) (k : MemoryRegionKind)
      → m.parts ≡ first ∷ others
      → All (IsSafePart reads k) m.parts
      → IsSafeGroup reads m

kind_eq→≡ : (a b : MemoryRegionKind) → kind_eq a b ≡ true → a ≡ b
kind_eq→≡ a b h = ground arith

record Joins (reads : List MemoryReadPlan) (read : MemoryReadPlan) (m : MergedMemoryRead)
    : Type 0 where
  first : MemoryReadPart
  others : List MemoryReadPart
  parts : m.parts ≡ first ∷ others
  safe : IsSafePart reads read.region first
  mergeable : IsMergeable read

first_of_parts :
    (reads : List MemoryReadPlan) (parts : List MemoryReadPart) {p : MemoryReadPlan}
    → elim (get_elem? parts 0) [ none ↦ none | some part ↦ get_elem? reads part.index ] ≡ some p
    → (first : MemoryReadPart) × (others : List MemoryReadPart) × (parts ≡ first ∷ others)
      × (get_elem? reads first.index ≡ some p)
first_of_parts reads [] h = cc
first_of_parts reads (part ∷ others) h = (part, others, refl, h)

can_extend-some :
    (first : Option MemoryReadPlan) (read : MemoryReadPlan) (m : MergedMemoryRead)
    → can_extend first read m ≡ true
    → (p : MemoryReadPlan) × (first ≡ some p)
      × (can_merge p ≡ true)
      × (can_merge read ≡ true)
      × (kind_eq p.region read.region ≡ true)
unfolding can_extend
can_extend-some none read m h = cc
can_extend-some (some p) read m h = (p, refl, ground arith, ground arith, ground arith)

can_extend-Joins :
    (reads : List MemoryReadPlan) (read : MemoryReadPlan) (m : MergedMemoryRead)
    → can_extend (first_read reads m) read m ≡ true
    → Joins reads read m
unfolding first_read
can_extend-Joins reads read m h =
    let (p, found, merges, mergeable, same) = can_extend-some (first_read reads m) read m h in
    let (first, others, parts, listed) = first_of_parts reads m.parts found in
    record {
      first = first;
      others = others;
      parts = parts;
      safe = record {
        read = p;
        listed = listed;
        mergeable = can_merge-IsMergeable p merges;
        region = kind_eq→≡ p.region read.region same;
      };
      mergeable = can_merge-IsMergeable read mergeable;
    }

-- The head of a group fixes the kind of the group.
same_kind :
    (reads : List MemoryReadPlan) (j k : MemoryRegionKind) (part : MemoryReadPart)
    → IsSafePart reads j part
    → IsSafePart reads k part
    → j ≡ k
same_kind reads j k part a b =
    let same : a.read ≡ b.read = cc (sym a.listed ∙ b.listed) in
    sym a.region ∙ ap (λ (p : MemoryReadPlan). p.region) same ∙ b.region

parts_safe :
    (reads : List MemoryReadPlan) (read : MemoryReadPlan) (m : MergedMemoryRead)
    → Joins reads read m
    → IsSafeGroup reads m
    → All (IsSafePart reads read.region) m.parts
parts_safe reads read m j (alone part e) =
    let only : part ∷ [] ≡ j.first ∷ j.others = sym e ∙ j.parts in
    let head : part ≡ j.first = cc only in rw (e, head) (j.safe, tt)
parts_safe reads read m j (together first others k e safe) =
    let here : All (IsSafePart reads k) (j.first ∷ j.others) =
      subst (All (IsSafePart reads k)) j.parts safe in
    subst (λ t. All (IsSafePart reads t) m.parts)
      (same_kind reads k read.region j.first here.0 j.safe) safe

extend-IsSafeGroup :
    (reads : List MemoryReadPlan) (index : ℕ) (read : MemoryReadPlan) (m : MergedMemoryRead)
    → get_elem? reads index ≡ some read
    → Joins reads read m
    → IsSafeGroup reads m
    → IsSafeGroup reads (extend index read m)
extend-IsSafeGroup reads index read m listed j g =
    together j.first (j.others ++ part_after index read m ∷ []) read.region
      (ap (λ t. t ++ part_after index read m ∷ []) j.parts)
      (All-append (IsSafePart reads read.region) m.parts _ (parts_safe reads read m j g)
        (record { read = read; listed = listed; mergeable = j.mergeable; region = refl }, tt))

step-IsSafeGroup :
    (reads : List MemoryReadPlan) (index : ℕ) (read : MemoryReadPlan) (ms : List MergedMemoryRead)
    → get_elem? reads index ≡ some read
    → All (IsSafeGroup reads) ms
    → All (IsSafeGroup reads) (step reads index read ms)
unfolding step
step-IsSafeGroup reads index read [] listed h = (alone _ refl, tt)
step-IsSafeGroup reads index read (m ∷ ms) listed h =
    elim (Bool-cases (can_extend (first_read reads m) read m)) [
      | inl joins ↦ rw joins (
        extend-IsSafeGroup reads index read m listed (can_extend-Joins reads read m joins) h.0,
        h.1,
      )
      | inr parts ↦ rw parts (alone _ refl, h)
    ]

get_elem?-append :
    {A : Type 0} (xs : List A) (y : A) (ys : List A) → get_elem? (xs ++ y ∷ ys) (length xs) ≡ some y
get_elem?-append [] y ys = refl
get_elem?-append (x ∷ xs) y ys = get_elem?-append xs y ys

merge_from-IsSafeGroup :
    (reads : List MemoryReadPlan) (index : ℕ) (before rest : List MemoryReadPlan)
    (ms : List MergedMemoryRead)
    → before ++ rest ≡ reads
    → length before ≡ index
    → All (IsSafeGroup reads) ms
    → All (IsSafeGroup reads) (merge_from reads index rest ms)
unfolding merge_from
merge_from-IsSafeGroup reads index before [] ms e n h = h
merge_from-IsSafeGroup reads index before (read ∷ rest) ms e n h =
    merge_from-IsSafeGroup reads (index + 1) (before ++ read ∷ []) rest (step reads index read ms)
      (append_assoc before (read ∷ []) rest ∙ e) (omega (arith, length-append before (read ∷ [])))
      (step-IsSafeGroup reads index read ms (rw (← n, ← e) (get_elem?-append before read rest)) h)

-- A target call that serves more than one read serves only reads that may be merged, all of one
-- region kind: no volatile, no unaligned and no MMIO read, and no raw read outside RAM.
pub merge_safe_memory_reads-IsSafeGroup :
    (reads : List MemoryReadPlan) → All (IsSafeGroup reads) (merge_safe_memory_reads reads)
unfolding merge_safe_memory_reads
merge_safe_memory_reads-IsSafeGroup reads =
    All-reverse (IsSafeGroup reads) _ (merge_from-IsSafeGroup reads 0 [] reads [] refl refl tt)
