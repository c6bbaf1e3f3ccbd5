-- ===== src/Base/Equality.antt =====
-- `PartialEq` as the code derives it: an equality test that is exact, for numbers, lists, options,
-- pairs, and every type that is told apart by its fields.
use mathlib.Core.Path.{◌≡◌, refl, ap, ◌∙◌, sym, subst}
use mathlib.Core.Logic.{◌↔◌}
use mathlib.Core.Bool.{Bool, true, false, ◌&&◌}
use mathlib.Core.Option.{Option, none, some}
use mathlib.Core.List.{List, [], ◌∷◌}
use Prim.Native.Nat.{ℕ}
use jlink_mcp_v.Base.Tests.{◌==◌, ==_iff, and-eq-true}

pub record Equal {ℓ} (A : Type ℓ) : Type ℓ where
  pub same : A → A → Bool
  pub same_iff : (a b : A) → (same a b ≡ true) ↔ (a ≡ b)

instance abbrev pub nat_equal : Equal ℕ
nat_equal = record { same = λ a b. a == b; same_iff = ==_iff }

module _ {ℓ} {A : Type ℓ} ⦃e : Equal A⦄ where
  abbrev pub eq : A → A → Bool
  eq a b = e.same a b

  pub eq_refl : (a : A) → eq a a ≡ true
  eq_refl a = (e.same_iff a a).1 refl

  pub eq→≡ : (a b : A) → eq a b ≡ true → a ≡ b
  eq→≡ a b h = (e.same_iff a b).0 h

  abbrev pub list_same : List A → List A → Bool
  list_same [] [] = true
  list_same [] (y ∷ ys) = false
  list_same (x ∷ xs) [] = false
  list_same (x ∷ xs) (y ∷ ys) = e.same x y && list_same xs ys

  pub list_same_sound : (xs ys : List A) → list_same xs ys ≡ true → xs ≡ ys
  list_same_sound [] [] h = refl
  list_same_sound [] (y ∷ ys) h = cc
  list_same_sound (x ∷ xs) [] h = cc
  list_same_sound (x ∷ xs) (y ∷ ys) h =
      let parts = and-eq-true (e.same x y) (list_same xs ys) h in
      let heads = (e.same_iff x y).0 parts.0 in let tails = list_same_sound xs ys parts.1 in cc

  pub list_same_refl : (xs : List A) → list_same xs xs ≡ true
  list_same_refl [] = refl
  list_same_refl (x ∷ xs) = rw (eq_refl x, list_same_refl xs)

  instance abbrev pub list_equal : Equal (List A)
  list_equal = record {
    same = list_same;
    same_iff = λ xs ys. (list_same_sound xs ys, λ p. rw (← p) (list_same_refl xs));
  }

  abbrev pub option_same : Option A → Option A → Bool
  option_same none none = true
  option_same none (some b) = false
  option_same (some a) none = false
  option_same (some a) (some b) = e.same a b

  pub option_same_sound : (x y : Option A) → option_same x y ≡ true → x ≡ y
  option_same_sound none none h = refl
  option_same_sound none (some b) h = cc
  option_same_sound (some a) none h = cc
  option_same_sound (some a) (some b) h = ap some ((e.same_iff a b).0 h)

  pub option_same_refl : (x : Option A) → option_same x x ≡ true
  option_same_refl none = refl
  option_same_refl (some a) = eq_refl a

  instance abbrev pub option_equal : Equal (Option A)
  option_equal = record {
    same = option_same;
    same_iff = λ x y. (option_same_sound x y, λ p. rw (← p) (option_same_refl x));
  }

module _ {ℓ κ} {A : Type ℓ} {B : Type κ} (e : Equal A) (f : Equal B) where
  abbrev pub pair_same : A × B → A × B → Bool
  pair_same (a, b) (c, d) = e.same a c && f.same b d

  pub pair_same_sound : (p q : A × B) → pair_same p q ≡ true → p ≡ q
  pair_same_sound (a, b) (c, d) h =
      let parts = and-eq-true (e.same a c) (f.same b d) h in
      let left = (e.same_iff a c).0 parts.0 in let right = (f.same_iff b d).0 parts.1 in cc

  pub pair_same_refl : (p : A × B) → pair_same p p ≡ true
  pair_same_refl (a, b) = rw ((e.same_iff a a).1 refl, (f.same_iff b b).1 refl)

-- The fields of a record, one after the other.
infixr 55 ◌⊗◌
abbrev pub ◌⊗◌ {ℓ κ} : {A : Type ℓ} {B : Type κ} → Equal A → Equal B → Equal (A × B)
◌⊗◌ e f = record {
  same = pair_same e f;
  same_iff = λ p q. (
    pair_same_sound e f p q,
    λ r. subst (λ t. pair_same e f p t ≡ true) r (pair_same_refl e f p),
  );
}

-- A type that is compared by a faithful image of its fields.
abbrev pub equal_by {ℓ κ} :
    {A : Type ℓ} {B : Type κ} (e : Equal B) (fields : A → B) (build : B → A)
    (faithful : (a : A) → build (fields a) ≡ a)
    → Equal A
equal_by e fields build faithful = record {
  same = λ a b. e.same (fields a) (fields b);
  same_iff = λ a b. (
    (λ h. sym (faithful a) ∙ ap build ((e.same_iff (fields a) (fields b)).0 h) ∙ faithful b),
    (λ p. (e.same_iff (fields a) (fields b)).1 (ap fields p)),
  );
}
