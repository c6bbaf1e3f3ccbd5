-- ===== src/Domain/Image/Segments.antt =====
-- Normal segments load the same bytes as the given ones, ascend and do not touch.
use mathlib.Core.List.{reverse, reverse-cons}
use jlink_mcp_v.Base.{
  ℕ, ◌+◌, ◌<◌, ◌≡◌, ap, ◌∙◌, some, List, [], ◌∷◌, ◌++◌, arith, ltb, ◌==◌, ==_iff, checked_add,
  u64_mod, length, length-append, All, All-map, All-append, Any, here, there, All-reverse,
  Any-reverse, get_elem?, ◌↔◌, ◌⊎◌, inl, inr, Bool-cases, zero, suc,
}
use jlink_mcp_v.Base.Sort.{sort_by_key, Any-sort, All-sort}
use jlink_mcp_v.Domain.Error.{ok, ok_or, bind-eq-ok}
use jlink_mcp_v.Domain.Image.{
  FirmwareSegment, invalid, append_bytes, push_segment, push_segments, by_address, normalize_sorted,
  normalize_segments,
}

-- The segment puts the byte `b` at the address `a`.
pub record Loads (a b : ℕ) (s : FirmwareSegment) : Type 0 where
  pub offset : ℕ
  pub located : a ≡ s.address + offset
  pub stored : get_elem? s.bytes offset ≡ some b

pub record IsSegment (s : FirmwareSegment) : Type 0 where
  pub nonempty : 0 < length s.bytes
  pub bounded : s.address + length s.bytes < u64_mod

-- Ascending, with a gap between any two.
abbrev pub IsNormal : List FirmwareSegment → Type 0
IsNormal [] = Unit
IsNormal (s ∷ ss) = All (λ t. s.address + length s.bytes < t.address) ss × IsNormal ss

get_elem?-append_left :
    {A : Type 0} (xs ys : List A) (i : ℕ) {b : A}
    → get_elem? xs i ≡ some b
    → get_elem? (xs ++ ys) i ≡ some b
get_elem?-append_left [] ys i h = cc
get_elem?-append_left (x ∷ xs) ys zero h = h
get_elem?-append_left (x ∷ xs) ys (suc i) h = get_elem?-append_left xs ys i h

get_elem?-append_right :
    {A : Type 0} (xs ys : List A) (i : ℕ) → get_elem? (xs ++ ys) (length xs + i) ≡ get_elem? ys i
get_elem?-append_right [] ys i = ap (get_elem? ys) (omega arith)
get_elem?-append_right (x ∷ xs) ys i =
    ap (get_elem? (x ∷ xs ++ ys)) shift ∙ get_elem?-append_right xs ys i
  where
    shift : suc (length xs) + i ≡ suc (length xs + i)
    shift = omega arith

get_elem?-append_split :
    {A : Type 0} (xs ys : List A) (i : ℕ) {b : A}
    → get_elem? (xs ++ ys) i ≡ some b
    → (get_elem? xs i ≡ some b) ⊎ ((j : ℕ) × (i ≡ length xs + j) × (get_elem? ys j ≡ some b))
get_elem?-append_split [] ys i h = inr (i, omega arith, h)
get_elem?-append_split (x ∷ xs) ys zero h = inl h
get_elem?-append_split (x ∷ xs) ys (suc i) h = elim (get_elem?-append_split xs ys i h) [
  | inl left ↦ inl left
  | inr (j, e, right) ↦ inr (j, omega arith, right)
]

-- What a step loads is what was there, and what the new segment loads.
abbrev Adds : FirmwareSegment → List FirmwareSegment → List FirmwareSegment → Type 0
Adds s old new_list = (a b : ℕ) → Any (Loads a b) new_list ↔ ((Loads a b s) ⊎ (Any (Loads a b) old))

Adds-append :
    (s p : FirmwareSegment) (before : List FirmwareSegment)
    → s.address ≡ p.address + length p.bytes
    → Adds s (p ∷ before) (append_bytes p s ∷ before)
Adds-append s p before e a b = (forward, backward)
  where
    forward :
        Any (Loads a b) (append_bytes p s ∷ before) → (Loads a b s) ⊎ (Any (Loads a b) (p ∷ before))
    forward (there h) = inr (there h)
    forward (here h) = elim (get_elem?-append_split p.bytes s.bytes h.offset h.stored) [
      | inl left ↦ inr (here (record { offset = h.offset; located = h.located; stored = left }))
      | inr (j, at, right) ↦
          inl (record { offset = j; located = omega (arith, h.located); stored = right })
    ]

    backward :
        (Loads a b s) ⊎ (Any (Loads a b) (p ∷ before)) → Any (Loads a b) (append_bytes p s ∷ before)
    backward (inl h) = here (record {
      offset = length p.bytes + h.offset;
      located = omega (arith, h.located);
      stored = get_elem?-append_right p.bytes s.bytes h.offset ∙ h.stored;
    })
    backward (inr (here h)) = here (record {
      offset = h.offset;
      located = h.located;
      stored = get_elem?-append_left p.bytes s.bytes h.offset h.stored;
    })
    backward (inr (there h)) = there h

abbrev IsBackNormal : List FirmwareSegment → Type 0
IsBackNormal [] = Unit
IsBackNormal (s ∷ ss) = All (λ t. t.address + length t.bytes < s.address) ss × IsBackNormal ss

record Pushed (s : FirmwareSegment) (old new_list : List FirmwareSegment) : Type 0 where
  adds : Adds s old new_list
  segments : All IsSegment new_list
  normal : IsBackNormal new_list

Adds-cons : (s : FirmwareSegment) (old : List FirmwareSegment) → Adds s old (s ∷ old)
Adds-cons s old a b = (forward, backward)
  where
    forward : Any (Loads a b) (s ∷ old) → (Loads a b s) ⊎ (Any (Loads a b) old)
    forward (here h) = inl h
    forward (there h) = inr h

    backward : (Loads a b s) ⊎ (Any (Loads a b) old) → Any (Loads a b) (s ∷ old)
    backward (inl h) = here h
    backward (inr h) = there h

-- A segment behind a gap.
Pushed-cons :
    (s p : FirmwareSegment) (before : List FirmwareSegment)
    → IsSegment s
    → All IsSegment (p ∷ before)
    → IsBackNormal (p ∷ before)
    → p.address + length p.bytes < s.address
    → Pushed s (p ∷ before) (s ∷ p ∷ before)
Pushed-cons s p before v vs n gap = record {
  adds = Adds-cons s (p ∷ before);
  segments = (v, vs);
  normal = ((gap, All-map _ _ (λ t h. omega arith) before n.0), n);
}

-- A segment that continues the previous one.
Pushed-append :
    (s p : FirmwareSegment) (before : List FirmwareSegment)
    → IsSegment s
    → All IsSegment (p ∷ before)
    → IsBackNormal (p ∷ before)
    → s.address ≡ p.address + length p.bytes
    → Pushed s (p ∷ before) (append_bytes p s ∷ before)
Pushed-append s p before v vs n e =
    let width = length-append p.bytes s.bytes in
    record {
      adds = Adds-append s p before e;
      segments = (
        record { nonempty = omega (arith, v.nonempty); bounded = omega (arith, v.bounded) },
        vs.1,
      );
      normal = n;
    }

push_segment-Pushed :
    (s : FirmwareSegment) (old new_list : List FirmwareSegment)
    → IsSegment s
    → All IsSegment old
    → IsBackNormal old
    → push_segment s old ≡ ok new_list
    → Pushed s old new_list
unfolding push_segment
push_segment-Pushed s [] new_list v vs n h =
    let same : s ∷ [] ≡ new_list = cc h in
    rw (← same) (record { adds = Adds-cons s []; segments = (v, tt); normal = (tt, tt) })
push_segment-Pushed s (p ∷ before) new_list v vs n h =
    let (end, ended, rest) =
      bind-eq-ok _ (ok_or (checked_add p.address (length p.bytes)) invalid) h in
    let where_p : end ≡ p.address + length p.bytes = ground arith in
    elim (Bool-cases (ltb s.address end)) [
      | inl overlap ↦ absurd (cc (rw overlap at rest))
      | inr clear ↦
          let placed = rw clear at rest in
          elim (Bool-cases (s.address == end)) [
            | inl touching ↦
                let same : append_bytes p s ∷ before ≡ new_list = cc (rw touching at placed) in
                rw (← same) (Pushed-append s p before v vs n ((==_iff _ _).0 touching ∙ where_p))
            | inr apart ↦
                let same : s ∷ p ∷ before ≡ new_list = cc (rw apart at placed) in
                rw (← same) (Pushed-cons s p before v vs n (ground arith))
          ]
    ]

push_segments-Pushed :
    (segments old new_list : List FirmwareSegment)
    → All IsSegment segments
    → All IsSegment old
    → IsBackNormal old
    → push_segments segments old ≡ ok new_list
    → (IsBackNormal new_list)
      × (All IsSegment new_list)
      × ((a b : ℕ)
          → Any (Loads a b) new_list ↔ ((Any (Loads a b) segments) ⊎ (Any (Loads a b) old)))
unfolding push_segments
push_segments-Pushed [] old new_list v vn n h =
    let same : old ≡ new_list = cc h in
    rw (← same)
      (n, vn, λ a b. (λ k. inr k, λ k. elim k [ inl none_left ↦ elim none_left [ ] | inr k' ↦ k' ]))
push_segments-Pushed (s ∷ segments) old new_list v vs n h =
    let (next, pushed, rest) = bind-eq-ok _ (push_segment s old) h in
    let step = push_segment-Pushed s old next v.0 vs n pushed in
    let (normal, valid, loads) =
      push_segments-Pushed segments next new_list v.1 step.segments step.normal rest in
    (
      normal,
      valid,
      λ a b. (
        λ k. elim ((loads a b).0 k) [
          | inl later ↦ inl (there later)
          | inr now ↦ elim ((step.adds a b).0 now) [
            | inl new_one ↦ inl (here new_one)
            | inr old_one ↦ inr old_one
          ]
        ],
        λ k. (loads a b).1 (elim k [
          | inl (here new_one) ↦ inr ((step.adds a b).1 (inl new_one))
          | inl (there later) ↦ inl later
          | inr old_one ↦ inr ((step.adds a b).1 (inr old_one))
        ]),
      ),
    )

IsNormal-snoc :
    (ss : List FirmwareSegment) (s : FirmwareSegment)
    → IsNormal ss
    → All (λ t. t.address + length t.bytes < s.address) ss
    → IsNormal (ss ++ s ∷ [])
IsNormal-snoc [] s n h = (tt, tt)
IsNormal-snoc (t ∷ ss) s n h = (All-append _ ss (s ∷ []) n.0 (h.0, tt), IsNormal-snoc ss s n.1 h.1)

IsNormal-reverse : (ss : List FirmwareSegment) → IsBackNormal ss → IsNormal (reverse ss)
IsNormal-reverse [] n = tt
IsNormal-reverse (s ∷ ss) n =
    rw (reverse-cons s ss)
      (IsNormal-snoc (reverse ss) s (IsNormal-reverse ss n.1) (All-reverse _ ss n.0))

-- If the load segments of an image can be normalised, the result loads exactly the bytes that the
-- given segments load, at the same addresses, ascends, and leaves a gap between any two segments.
pub normalize_segments-Loads :
    (segments normalized : List FirmwareSegment)
    → All IsSegment segments
    → normalize_segments segments ≡ ok normalized
    → (IsNormal normalized) × ((a b : ℕ) → Any (Loads a b) segments ↔ Any (Loads a b) normalized)
unfolding normalize_segments normalize_sorted
normalize_segments-Loads [] normalized v h = cc
normalize_segments-Loads (s ∷ segments) normalized v h =
    let given = s ∷ segments in
    let sorted = sort_by_key by_address given in
    let (back, pushed, rest) = bind-eq-ok _ (push_segments sorted []) h in
    let same : reverse back ≡ normalized = cc rest in
    let (normal, valid, loads) =
      push_segments-Pushed sorted [] back (All-sort by_address IsSegment given v) tt tt pushed in
    rw (← same) (
      IsNormal-reverse back normal,
      λ a b. (
        λ k.
            (Any-reverse (Loads a b) back).0
              ((loads a b).1 (inl ((Any-sort by_address (Loads a b) given).0 k))),
        λ k. elim ((loads a b).0 ((Any-reverse (Loads a b) back).1 k)) [
          | inl found ↦ (Any-sort by_address (Loads a b) given).1 found
          | inr none_left ↦ elim none_left [ ]
        ],
      ),
    )

-- Normal segments are valid, ascend and do not touch.
pub normalize_segments-IsNormal :
    (segments normalized : List FirmwareSegment)
    → All IsSegment segments
    → normalize_segments segments ≡ ok normalized
    → All IsSegment normalized × IsNormal normalized
unfolding normalize_segments normalize_sorted
normalize_segments-IsNormal [] normalized v h = cc
normalize_segments-IsNormal (s ∷ segments) normalized v h =
    let given = s ∷ segments in
    let sorted = sort_by_key by_address given in
    let (back, pushed, rest) = bind-eq-ok _ (push_segments sorted []) h in
    let same : reverse back ≡ normalized = cc rest in
    let (normal, valid, loads) =
      push_segments-Pushed sorted [] back (All-sort by_address IsSegment given v) tt tt pushed in
    rw (← same) (All-reverse IsSegment back valid, IsNormal-reverse back normal)
