-- ===== src/Domain/Image/Valid.antt =====
-- image.rs: what a reader of an image hands over, and that its steps keep what they pushed valid.
use jlink_mcp_v.Base.{
  ℕ, ◌+◌, ◌≡◌, refl, Bool, true, false, List, [], ◌∷◌, ltb, All, length, u64_mod, inl, inr,
  Bool-cases, if◌then◌else◌, arith,
}
use jlink_mcp_v.Base.Text.{trim}
use jlink_mcp_v.Domain.Error.{Result, ok, err, ◌>>=◌}
use jlink_mcp_v.Domain.Image.{FirmwareSegment, segment, normalize_segments}
use jlink_mcp_v.Domain.Image.Segments.{IsSegment, IsNormal, normalize_segments-IsNormal}
use jlink_mcp_v.Domain.Image.Text.{is_empty, each_line}

-- The result, if there is one, satisfies `P`.
abbrev pub IfOk {ℓ κ} : {A : Type ℓ} → (A → Type κ) → Result A → Type κ
IfOk P (ok a) = P a
IfOk P (err e) = Unit

module _ {ℓ κ ν} {A : Type ℓ} {B : Type κ} (Q : B → Type ν) where
  -- Whatever the first part gives, the rest keeps.
  pub IfOk-then : (r : Result A) (k : A → Result B) → ((a : A) → IfOk Q (k a)) → IfOk Q (r >>= k)
  IfOk-then (err e) k h = tt
  IfOk-then (ok a) k h = h a

  pub IfOk-bind {μ} :
      (P : A → Type μ) (r : Result A) (k : A → Result B)
      → IfOk P r
      → ((a : A) → P a → IfOk Q (k a))
      → IfOk Q (r >>= k)
  IfOk-bind P (err e) k h f = tt
  IfOk-bind P (ok a) k h f = f a h

module _ {S : Type 0} (P : S → Type 0) (step : S → List ℕ → Result S) where
  -- What every line keeps, the loop keeps.
  pub each_line-keeps :
      ((s : S) (line : List ℕ) → P s → IfOk P (step s line))
      → (text : List (List ℕ)) (s : S) → P s
      → IfOk P (each_line step text s)
  unfolding each_line
  each_line-keeps keeps [] s h = h
  each_line-keeps keeps (line ∷ rest) s h = elim (Bool-cases (is_empty (trim line))) [
    | inl blank ↦ rw (each_line, blank) (each_line-keeps keeps rest s h)
    | inr full ↦
        rw (each_line, full)
          (IfOk-bind P P (step s (trim line)) (each_line step rest) (keeps s (trim line) h)
            (λ s' h'. each_line-keeps keeps rest s' h'))
  ]

pub segment-IsSegment : (address : ℕ) (bytes : List ℕ) → IfOk IsSegment (segment address bytes)
unfolding segment
segment-IsSegment address [] = tt
segment-IsSegment address (b ∷ bytes) =
    elim (Bool-cases (ltb (address + length (b ∷ bytes)) u64_mod)) [
      | inl fits ↦ rw (segment, fits) (record { nonempty = omega arith; bounded = ground arith })
      | inr over ↦ rw (segment, over) tt
    ]

pub IfOk-test {ℓ} :
    {A : Type 0} (P : A → Type ℓ) (test : Bool) (a b : Result A)
    → IfOk P a
    → IfOk P b
    → IfOk P (if test then a else b)
IfOk-test P true a b h k = h
IfOk-test P false a b h k = k

-- What a reader hands over: valid segments in ascending order, a gap between any two.
abbrev pub IsImageData : List FirmwareSegment → Type 0
IsImageData segments = All IsSegment segments × IsNormal segments

pub normalize_segments-valid :
    (segments : List FirmwareSegment)
    → All IsSegment segments
    → IfOk IsImageData (normalize_segments segments)
normalize_segments-valid segments h = normal (normalize_segments segments) refl
  where
    normal :
        (r : Result (List FirmwareSegment)) → normalize_segments segments ≡ r → IfOk IsImageData r
    normal (err e) at = tt
    normal (ok normalized) at = normalize_segments-IsNormal segments normalized h at
