-- ===== src/Capture/Json.antt =====
-- crates/jlink-capture/src/cursor.rs: the canonical form of a query. Text is its UTF-8 bytes.
use jlink_mcp_v.Base.{ℕ, ◌≡◌, Bool, true, false, List, if◌then◌else◌}
use jlink_mcp_v.Domain.Json.{
  Value, scalar, array, object, Items, nil, item, Fields, end, field, text_leb,
}

unfoldable pub insert_field : {S : Type 0} → List ℕ → Value S → Fields S → Fields S
unfolding text_leb
insert_field name value end = field name value end
insert_field name value (field other v rest) =
    let later = insert_field name value rest in
    if text_leb name other then field name value (field other v rest) else field other v later

-- Each field goes, in its canonical form, to its place among the sorted fields that follow it.
unfoldable mutual
  unfolding insert_field

  pub canonicalize : {S : Type 0} → Value S → Value S
  canonicalize (scalar s) = scalar s
  canonicalize (array items) = array (canonicalize_items items)
  canonicalize (object fields) = object (canonicalize_fields fields)

  pub canonicalize_items : {S : Type 0} → Items S → Items S
  canonicalize_items nil = nil
  canonicalize_items (item v rest) = item (canonicalize v) (canonicalize_items rest)

  pub canonicalize_fields : {S : Type 0} → Fields S → Fields S
  canonicalize_fields end = end
  canonicalize_fields (field name v rest) =
      insert_field name (canonicalize v) (canonicalize_fields rest)

unfoldable pub is_object : {S : Type 0} → Value S → Bool
is_object (object _) = true
is_object _ = false

pub is_object-canonicalize :
    {S : Type 0} (v : Value S) → is_object v ≡ true → is_object (canonicalize v) ≡ true
unfolding is_object canonicalize
is_object-canonicalize (scalar s) h = h
is_object-canonicalize (array items) h = h
is_object-canonicalize (object fields) h = h
