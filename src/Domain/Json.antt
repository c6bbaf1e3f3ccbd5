-- ===== src/Domain/Json.antt =====
-- JSON values as the code handles them: serde_json's Value, and its maps as lists sorted by name.
use jlink_mcp_v.Base.{
  ℕ, suc, ◌≡◌, refl, Bool, true, false, List, [], ◌∷◌, ◌&&◌, ◌||◌, ltb, ◌==◌, if◌then◌else◌, Option,
  none, some, eq, eq_refl, eq→≡, nat_equal, list_equal, Bool-cases, inl, inr, arith,
}

-- Strings compare by code point.
unfoldable pub text_leb : List ℕ → List ℕ → Bool
text_leb [] ys = true
text_leb (x ∷ xs) [] = false
text_leb (x ∷ xs) (y ∷ ys) = ltb x y || (x == y && text_leb xs ys)

-- `S` is the type of the values that are neither arrays nor objects.
mutual
  pub data Value (S : Type 0) : Type 0 where
    scalar : S → Value S
    array : Items S → Value S
    object : Fields S → Value S

  pub data Items (S : Type 0) : Type 0 where
    nil : Items S
    item : Value S → Items S → Items S

  pub data Fields (S : Type 0) : Type 0 where
    end : Fields S
    field : List ℕ → Value S → Fields S → Fields S

module _ {S : Type 0} where
  unfoldable pub as_array : Value S → Option (Items S)
  as_array (array items) = some items
  as_array _ = none

  unfoldable pub as_object : Value S → Option (Fields S)
  as_object (object fields) = some fields
  as_object _ = none

  abbrev pub count_items : Items S → ℕ
  count_items nil = 0
  count_items (item v rest) = suc (count_items rest)

  abbrev pub count_fields : Fields S → ℕ
  count_fields end = 0
  count_fields (field name v rest) = suc (count_fields rest)

  -- `Map::get`
  unfoldable pub get : List ℕ → Fields S → Option (Value S)
  get name end = none
  get name (field other v rest) = if eq name other then some v else get name rest

  -- `Map::insert`: an old value of the name is replaced.
  unfoldable pub insert : List ℕ → Value S → Fields S → Fields S
  unfolding text_leb
  insert name value end = field name value end
  insert name value (field other v rest) =
      let later = insert name value rest in
      if eq name other
      then field other value rest
      else if text_leb name other
      then field name value (field other v rest)
      else field other v later

  -- A map with one name, and with none.
  abbrev pub single : List ℕ → Value S → Fields S
  single name value = field name value end

  pub get-insert_self :
      (name : List ℕ) (value : Value S) (fields : Fields S)
      → get name (insert name value fields) ≡ some value
  unfolding get insert
  get-insert_self name value end = rw (eq_refl name)
  get-insert_self name value (field other v rest) =
      ground (arith, eq_refl name, get-insert_self name value rest)

  pub get-insert_other :
      (name key : List ℕ) (value : Value S) (fields : Fields S)
      → eq name key ≡ false
      → get name (insert key value fields) ≡ get name fields
  unfolding get insert
  get-insert_other name key value end h = rw h
  get-insert_other name key value (field other v rest) h = elim (Bool-cases (eq key other)) [
    | inl hit ↦
        let same : key ≡ other = eq→≡ key other hit in
        let miss : eq name other ≡ false = rw (← same) h in ground arith
    | inr miss ↦ ground (arith, get-insert_other name key value rest h)
  ]

  pub count-insert_new :
      (name : List ℕ) (value : Value S) (fields : Fields S)
      → get name fields ≡ none
      → count_fields (insert name value fields) ≡ suc (count_fields fields)
  unfolding get insert
  count-insert_new name value end h = refl
  count-insert_new name value (field other v rest) h =
      ground (arith, count-insert_new name value rest)
