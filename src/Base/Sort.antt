-- ===== src/Base/Sort.antt =====
-- `slice::sort_by_key`: a stable sort, as an insertion sort.
use mathlib.Core.List.{List, [], ◌∷◌, Perm}
use mathlib.Core.List.Perm
use mathlib.Core.Logic.{◌↔◌, inl, inr}
use Prim.Native.Nat.{ℕ, ◌≤◌}
use native.Mathlib.Omega.{arith}
use jlink_mcp_v.Base.Tests.{leb, leb→le, if◌then◌else◌, Bool-cases}
use jlink_mcp_v.Base.Lists.{All, All-map, Any, here, there}

module _ {ℓ} {A : Type ℓ} (key : A → ℕ) where
  -- An equal key goes behind: `x` stood before the members of the list.
  insert_by_key : A → List A → List A
  insert_by_key x [] = x ∷ []
  insert_by_key x (y ∷ ys) = if leb (key x) (key y) then x ∷ y ∷ ys else y ∷ insert_by_key x ys

  unfoldable pub sort_by_key : List A → List A
  unfolding insert_by_key
  sort_by_key [] = []
  sort_by_key (x ∷ xs) = insert_by_key x (sort_by_key xs)

  abbrev pub IsSortedBy : List A → Type ℓ
  IsSortedBy [] = Unit
  IsSortedBy (x ∷ xs) = (All (λ y. key x ≤ key y) xs) × IsSortedBy xs

  insert_by_key-perm : (x : A) (ys : List A) → Perm (insert_by_key x ys) (x ∷ ys)
  unfolding insert_by_key
  insert_by_key-perm x [] = Perm.refl _
  insert_by_key-perm x (y ∷ ys) = elim (Bool-cases (leb (key x) (key y))) [
    | inl before ↦ rw before (Perm.refl _)
    | inr after ↦ rw after (Perm.trans (Perm.cons y (insert_by_key-perm x ys)) (Perm.swap x y ys))
  ]

  pub sort_by_key-perm : (xs : List A) → Perm (sort_by_key xs) xs
  unfolding sort_by_key
  sort_by_key-perm [] = Perm.refl _
  sort_by_key-perm (x ∷ xs) =
      Perm.trans (insert_by_key-perm x (sort_by_key xs)) (Perm.cons x (sort_by_key-perm xs))

  All-insert {κ} :
      (P : A → Type κ) (x : A) (ys : List A) → P x → All P ys → All P (insert_by_key x ys)
  unfolding insert_by_key
  All-insert P x [] h hs = (h, tt)
  All-insert P x (y ∷ ys) h hs = elim (Bool-cases (leb (key x) (key y))) [
    | inl before ↦ rw before (h, hs)
    | inr after ↦ rw after (hs.0, All-insert P x ys h hs.1)
  ]

  pub All-sort {κ} : (P : A → Type κ) (xs : List A) → All P xs → All P (sort_by_key xs)
  unfolding sort_by_key
  All-sort P [] h = tt
  All-sort P (x ∷ xs) h = All-insert P x (sort_by_key xs) h.0 (All-sort P xs h.1)

  insert_by_key-IsSortedBy : (x : A) (ys : List A) → IsSortedBy ys → IsSortedBy (insert_by_key x ys)
  unfolding insert_by_key
  insert_by_key-IsSortedBy x [] h = (tt, tt)
  insert_by_key-IsSortedBy x (y ∷ ys) h = elim (Bool-cases (leb (key x) (key y))) [
    | inl before ↦
        let le = leb→le (key x) (key y) before in
        rw before
          ((le, All-map (λ z. key y ≤ key z) (λ z. key x ≤ key z) (λ z p. omega arith) ys h.0), h)
    | inr after ↦
        rw after (
          All-insert (λ z. key y ≤ key z) x ys (ground arith) h.0,
          insert_by_key-IsSortedBy x ys h.1,
        )
  ]

  pub sort_by_key-IsSortedBy : (xs : List A) → IsSortedBy (sort_by_key xs)
  unfolding sort_by_key
  sort_by_key-IsSortedBy [] = tt
  sort_by_key-IsSortedBy (x ∷ xs) =
      insert_by_key-IsSortedBy x (sort_by_key xs) (sort_by_key-IsSortedBy xs)

  All-insert_inv {κ} :
      (P : A → Type κ) (x : A) (ys : List A) → All P (insert_by_key x ys) → P x × All P ys
  unfolding insert_by_key
  All-insert_inv P x [] h = (h.0, tt)
  All-insert_inv P x (y ∷ ys) h = elim (Bool-cases (leb (key x) (key y))) [
    | inl before ↦ rw before at h
    | inr after ↦
        let inserted = rw after at h in
        let rest = All-insert_inv P x ys inserted.1 in (rest.0, (inserted.0, rest.1))
  ]

  pub All-sort_inv {κ} : (P : A → Type κ) (xs : List A) → All P (sort_by_key xs) → All P xs
  unfolding sort_by_key
  All-sort_inv P [] h = tt
  All-sort_inv P (x ∷ xs) h =
      let parts = All-insert_inv P x (sort_by_key xs) h in (parts.0, All-sort_inv P xs parts.1)

  Any-swap {κ} : (P : A → Type κ) (x y : A) (ys : List A) → Any P (x ∷ y ∷ ys) → Any P (y ∷ x ∷ ys)
  Any-swap P x y ys (here h) = there (here h)
  Any-swap P x y ys (there (here h)) = here h
  Any-swap P x y ys (there (there h)) = there (there h)

  Any-under {κ} :
      (P : A → Type κ) (y : A) (xs ys : List A)
      → (Any P xs → Any P ys)
      → Any P (y ∷ xs)
      → Any P (y ∷ ys)
  Any-under P y xs ys f (here h) = here h
  Any-under P y xs ys f (there h) = there (f h)

  Any-insert {κ} :
      (P : A → Type κ) (x : A) (ys : List A) → Any P (x ∷ ys) ↔ Any P (insert_by_key x ys)
  unfolding insert_by_key
  Any-insert P x [] = (λ h. h, λ h. h)
  Any-insert P x (y ∷ ys) =
      let behind = Any-insert P x ys in
      elim (Bool-cases (leb (key x) (key y))) [
        | inl before ↦ rw before (λ h. h, λ h. h)
        | inr after ↦ rw after (
          λ h. Any-under P y (x ∷ ys) (insert_by_key x ys) behind.0 (Any-swap P x y ys h),
          λ h. Any-swap P y x ys (Any-under P y (insert_by_key x ys) (x ∷ ys) behind.1 h),
        )
      ]

  -- Sorting keeps what the members satisfy, in both directions.
  pub Any-sort {κ} : (P : A → Type κ) (xs : List A) → Any P xs ↔ Any P (sort_by_key xs)
  unfolding sort_by_key
  Any-sort P [] = (λ h. h, λ h. h)
  Any-sort P (x ∷ xs) =
      let rest = Any-sort P xs in
      let step = Any-insert P x (sort_by_key xs) in
      (
        λ h. step.0 (Any-under P x xs (sort_by_key xs) rest.0 h),
        λ h. Any-under P x (sort_by_key xs) xs rest.1 (step.1 h),
      )
