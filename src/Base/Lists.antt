-- ===== src/Base/Lists.antt =====
-- Lists measured and indexed by native numbers, under the library's names, and predicates on lists.
use Prim.Native.Nat.{ℕ, zero, suc, ◌+◌, ◌-◌, min}
use mathlib.Core.Path.{◌≡◌, refl, subst}
use mathlib.Core.Logic.{◌⊎◌, ◌↔◌, inl, inr}
use mathlib.Core.Bool.{Bool, true, false, ◌&&◌, ◌||◌}
use mathlib.Core.List.{List, [], ◌∷◌, ◌++◌, reverse, reverse-cons}
use mathlib.Core.Option.{Option, none, some}
use native.Mathlib.Omega.{arith}
use jlink_mcp_v.Base.Tests.{if◌then◌else◌, Bool-cases}

module _ {ℓ} {A : Type ℓ} where
  abbrev pub length : List A → ℕ
  length [] = 0
  length (x ∷ xs) = suc (length xs)

  abbrev pub get_elem? : List A → ℕ → Option A
  get_elem? [] i = none
  get_elem? (x ∷ xs) zero = some x
  get_elem? (x ∷ xs) (suc i) = get_elem? xs i

  abbrev pub take : ℕ → List A → List A
  take zero xs = []
  take (suc n) [] = []
  take (suc n) (x ∷ xs) = x ∷ take n xs

  abbrev pub drop : ℕ → List A → List A
  drop zero xs = xs
  drop (suc n) [] = []
  drop (suc n) (x ∷ xs) = drop n xs

  abbrev pub All {κ} : (A → Type κ) → List A → Type κ
  All P [] = Unit
  All P (x ∷ xs) = P x × All P xs

  abbrev pub all : (A → Bool) → List A → Bool
  all p [] = true
  all p (x ∷ xs) = p x && all p xs

  abbrev pub any : (A → Bool) → List A → Bool
  any p [] = false
  any p (x ∷ xs) = p x || any p xs

  abbrev pub filter : (A → Bool) → List A → List A
  filter p [] = []
  filter p (x ∷ xs) = if p x then x ∷ filter p xs else filter p xs

  abbrev pub find : (A → Bool) → List A → Option A
  find p [] = none
  find p (x ∷ xs) = if p x then some x else find p xs

module _ {ℓ} {A : Type ℓ} where
  pub length-append : (xs ys : List A) → length (xs ++ ys) ≡ length xs + length ys
  length-append [] ys = omega arith
  length-append (x ∷ xs) ys = omega (arith, length-append xs ys)

  pub take-append-drop : (n : ℕ) (xs : List A) → take n xs ++ drop n xs ≡ xs
  take-append-drop zero xs = refl
  take-append-drop (suc n) [] = refl
  take-append-drop (suc n) (x ∷ xs) = rw (take-append-drop n xs)

  pub length-take : (n : ℕ) (xs : List A) → length (take n xs) ≡ min n (length xs)
  length-take zero xs = omega arith
  length-take (suc n) [] = omega arith
  length-take (suc n) (x ∷ xs) = omega (arith, length-take n xs)

  pub length-drop : (n : ℕ) (xs : List A) → length (drop n xs) ≡ length xs - n
  length-drop zero xs = omega arith
  length-drop (suc n) [] = omega arith
  length-drop (suc n) (x ∷ xs) = omega (arith, length-drop n xs)

  pub All-append {κ} :
      (P : A → Type κ) (front back : List A) → All P front → All P back → All P (front ++ back)
  All-append P [] back _ later = later
  All-append P (_ ∷ front) back (here, more) later = (here, All-append P front back more later)

  pub All-map {κ ν} :
      (P : A → Type κ) (Q : A → Type ν)
      → ((a : A) → P a → Q a)
      → (xs : List A) → All P xs
      → All Q xs
  All-map P Q f [] h = tt
  All-map P Q f (x ∷ xs) h = (f x h.0, All-map P Q f xs h.1)

  pub All-find {κ} :
      (P : A → Type κ) (p : A → Bool) (xs : List A) {a : A}
      → All P xs
      → find p xs ≡ some a
      → P a × (p a ≡ true)
  All-find P p [] h e = cc
  All-find P p (x ∷ xs) {a = a} h e = elim (Bool-cases (p x)) [
    | inl hit ↦ let found : x ≡ a = cc (rw hit at e) in (subst P found h.0, rw (← found) hit)
    | inr miss ↦ All-find P p xs h.1 (rw miss at e)
  ]

  pub All-of_any-false {κ} :
      (P : A → Type κ) (p : A → Bool)
      → ((a : A) → p a ≡ false → P a)
      → (xs : List A) → any p xs ≡ false
      → All P xs
  All-of_any-false P p f [] h = tt
  All-of_any-false P p f (x ∷ xs) h = (f x (ground arith), All-of_any-false P p f xs (ground arith))

-- Some member of the list satisfies `P`.
pub data Any {ℓ κ} {A : Type ℓ} (P : A → Type κ) : List A → Type (ℓ ⊔ κ) where
  here : {x : A} {xs : List A} → P x → Any P (x ∷ xs)
  there : {x : A} {xs : List A} → Any P xs → Any P (x ∷ xs)

module _ {ℓ κ} {A : Type ℓ} (P : A → Type κ) where
  pub Any-left : (xs ys : List A) → Any P xs → Any P (xs ++ ys)
  Any-left [] ys h = elim h [ ]
  Any-left (x ∷ xs) ys (here h) = here h
  Any-left (x ∷ xs) ys (there h) = there (Any-left xs ys h)

  pub Any-right : (xs ys : List A) → Any P ys → Any P (xs ++ ys)
  Any-right [] ys h = h
  Any-right (x ∷ xs) ys h = there (Any-right xs ys h)

  pub Any-split : (xs ys : List A) → Any P (xs ++ ys) → Any P xs ⊎ Any P ys
  Any-split [] ys h = inr h
  Any-split (x ∷ xs) ys (here h) = inl (here h)
  Any-split (x ∷ xs) ys (there h) = elim (Any-split xs ys h) [
    | inl left ↦ inl (there left)
    | inr right ↦ inr right
  ]

  pub All-reverse : (xs : List A) → All P xs → All P (reverse xs)
  All-reverse [] h = tt
  All-reverse (x ∷ xs) h =
      rw (reverse-cons x xs) (All-append P (reverse xs) (x ∷ []) (All-reverse xs h.1) (h.0, tt))

  Any-snoc : (x : A) (xs ys : List A) → Any P xs ↔ Any P ys → Any P (x ∷ xs) ↔ Any P (ys ++ x ∷ [])
  Any-snoc x xs ys e = (forward, backward)
    where
      forward : Any P (x ∷ xs) → Any P (ys ++ x ∷ [])
      forward (here h) = Any-right ys (x ∷ []) (here h)
      forward (there h) = Any-left ys (x ∷ []) (e.0 h)

      backward : Any P (ys ++ x ∷ []) → Any P (x ∷ xs)
      backward h = elim (Any-split ys (x ∷ []) h) [
        | inl old ↦ there (e.1 old)
        | inr (here new) ↦ here new
        | inr (there none_left) ↦ elim none_left [ ]
      ]

  pub Any-reverse : (xs : List A) → Any P xs ↔ Any P (reverse xs)
  Any-reverse [] = (λ h. h, λ h. h)
  Any-reverse (x ∷ xs) = rw (reverse-cons x xs) (Any-snoc x xs (reverse xs) (Any-reverse xs))

module _ {ℓ κ} {A : Type ℓ} (P : A → Type κ) where
  pub All-take : (n : ℕ) (xs : List A) → All P xs → All P (take n xs)
  All-take zero xs h = tt
  All-take (suc n) [] h = tt
  All-take (suc n) (x ∷ xs) h = (h.0, All-take n xs h.1)

  pub All-drop : (n : ℕ) (xs : List A) → All P xs → All P (drop n xs)
  All-drop zero xs h = h
  All-drop (suc n) [] h = tt
  All-drop (suc n) (x ∷ xs) h = All-drop n xs h.1
