-- ===== src/Domain/TypedValue/Layout/Slices.antt =====
-- crates/jlink-domain/src/typed_value.rs: slices of the storage, and arrays cut into them.
use jlink_mcp_v.Base.{
  ℕ, zero, suc, ◌+◌, ◌-◌, ◌<◌, ◌≡◌, refl, ap, ◌∙◌, sym, List, [], ◌∷◌, ◌++◌, Option, none, take,
  drop, length, take-append-drop, All-take, All-drop, arith,
}
use native.Mathlib.Nat.{zero-add}
use jlink_mcp_v.Domain.Error.{Result, ok, bind-eq-ok, bind-ok}
use jlink_mcp_v.Domain.Json.{Items, nil, item, count_items}
use jlink_mcp_v.Domain.Dwarf.{BitRange}
use jlink_mcp_v.Domain.TypedValue.Bits.Storage.{IsBytes}
use jlink_mcp_v.Domain.TypedValue.Numbers.{Scalar}
use jlink_mcp_v.Domain.TypedValue.Scalar.{Floats, JsonValue}
use jlink_mcp_v.Domain.TypedValue.Layout.{slice, splice, element_bounds, index_path}
use jlink_mcp_v.Domain.TypedValue.Layout.Decode.{decode_elements}
use jlink_mcp_v.Domain.TypedValue.Layout.Encode.{encode_elements}

drop-nil : (n : ℕ) → drop {A = ℕ} n [] ≡ []
drop-nil zero = refl
drop-nil (suc n) = refl

drop-drop : (m n : ℕ) (xs : List ℕ) → drop (m + n) xs ≡ drop n (drop m xs)
drop-drop zero n xs = ap (λ k. drop k xs) (zero-add n)
drop-drop (suc m) n [] = drop-nil (suc m + n) ∙ sym (drop-nil n)
drop-drop (suc m) n (x ∷ xs) =
    let next : suc m + n ≡ suc (m + n) = omega arith in
    ap (λ k. drop k (x ∷ xs)) next ∙ drop-drop m n xs

take-append-rest : (n : ℕ) (xs : List ℕ) → take n xs ++ drop (length (take n xs)) xs ≡ xs
take-append-rest zero xs = refl
take-append-rest (suc n) [] = refl
take-append-rest (suc n) (x ∷ xs) = ap (λ ys. x ∷ ys) (take-append-rest n xs)

-- A slice that is put back where it was changes nothing.
pub splice-slice :
    (start stop : ℕ) (bytes : List ℕ) → splice start (slice start stop bytes) bytes ≡ bytes
splice-slice start stop bytes =
    ap (λ rest. take start bytes ++ (slice start stop bytes ++ rest))
      (drop-drop start (length (slice start stop bytes)) bytes)
    ∙ ap (λ rest. take start bytes ++ rest) (take-append-rest (stop - start) (drop start bytes))
    ∙ take-append-drop start bytes

pub slice-IsBytes :
    (start stop : ℕ) (bytes : List ℕ) → IsBytes bytes → IsBytes (slice start stop bytes)
slice-IsBytes start stop bytes h =
    All-take (λ b. b < 256) (stop - start) (drop start bytes)
      (All-drop (λ b. b < 256) start bytes h)

module _ (fl : Floats) (decode : List ℕ → Option BitRange → List ℕ → Result (JsonValue fl))
    (encode : List ℕ → Option BitRange → JsonValue fl → List ℕ → Result (List ℕ))
    (element_unchanged : (bytes path : List ℕ) (v : JsonValue fl)
      → IsBytes bytes
      → decode bytes none path ≡ ok v
      → encode bytes none v path ≡ ok bytes)
    (size : ℕ) where
  pub count-decode_elements :
      (index left : ℕ) (bytes path : List ℕ) {values : Items (Scalar fl.F64)}
      → decode_elements fl decode size index left bytes path ≡ ok values
      → count_items values ≡ left
  unfolding decode_elements
  count-decode_elements index zero bytes path {values} h =
      let e : nil ≡ values = cc in ap count_items (sym e)
  count-decode_elements index (suc left) bytes path {values} h =
      let ((start, stop), _, h₁) = bind-eq-ok _ (element_bounds index size path) h in
      let (v, _, h₂) =
        bind-eq-ok _ (decode (slice start stop bytes) none (index_path path index)) h₁ in
      let (rest, others, h₃) =
        bind-eq-ok _ (decode_elements fl decode size (index + 1) left bytes path) h₂ in
      let e : item v rest ≡ values = cc in
      ap count_items (sym e) ∙ ap suc (count-decode_elements (index + 1) left bytes path others)

  pub elements_unchanged :
      (index left : ℕ) (bytes path : List ℕ) {values : Items (Scalar fl.F64)}
      → IsBytes bytes
      → decode_elements fl decode size index left bytes path ≡ ok values
      → encode_elements fl encode size index values bytes path ≡ ok bytes
  unfolding decode_elements encode_elements
  elements_unchanged index zero bytes path {values} b h =
      let e : nil ≡ values = cc in
      ap (λ vs. encode_elements fl encode size index vs bytes path) (sym e)
  elements_unchanged index (suc left) bytes path {values} b h =
      let ((start, stop), inside, h₁) = bind-eq-ok _ (element_bounds index size path) h in
      let (v, decoded, h₂) =
        bind-eq-ok _ (decode (slice start stop bytes) none (index_path path index)) h₁ in
      let (rest, others, h₃) =
        bind-eq-ok _ (decode_elements fl decode size (index + 1) left bytes path) h₂ in
      let e : item v rest ≡ values = cc in
      ap (λ vs. encode_elements fl encode size index vs bytes path) (sym e)
      ∙ bind-ok _ inside
      ∙ bind-ok _ (element_unchanged _ _ v (slice-IsBytes start stop bytes b) decoded)
      ∙ ap (λ bs. encode_elements fl encode size (index + 1) rest bs path)
          (splice-slice start stop bytes)
      ∙ elements_unchanged (index + 1) left bytes path b others
