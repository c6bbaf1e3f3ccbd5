-- ===== src/Domain/TypedValue/Bits/Inserted.antt =====
-- crates/jlink-domain/src/typed_value.rs: what insert_integer leaves in the storage.
use jlink_mcp_v.Base.{
  ℕ, ◌*◌, ◌^◌, ◌<◌, ◌≤◌, ◌≡◌, ap, ◌∙◌, sym, subst, true, List, Option, none, some, leb, length,
  arith,
}
use native.Mathlib.Nat.{one-le-pow}
use jlink_mcp_v.Domain.Error.{ok, ensure, bind-eq-ok, ensure-eq-ok}
use jlink_mcp_v.Domain.Dwarf.{BitRange}
use jlink_mcp_v.Domain.TypedValue.Bits.{
  from_le_bytes, to_le_bytes, write_unsigned, bit_mask, invalid_value, logical_bits,
  selected_integer, insert_integer,
}
use jlink_mcp_v.Domain.TypedValue.Bits.Storage.{
  IsBytes, length-to_le_bytes, to_le_bytes-IsBytes, from_le_bytes-lt, from_le_bytes-to_le_bytes,
}
use jlink_mcp_v.Domain.TypedValue.Bits.Selected.{
  logical_bits-IsSelection, chosen, replaced, replaced-lt, chosen-replaced, Around, replaced-Around,
  logical_bits-length, insert_integer-eq, selected_integer-eq,
}

pub record IsInserted (bytes new : List ℕ) (bit_range : Option BitRange) (path : List ℕ)
    (bits v : ℕ) : Type 0 where
  pub reads_back : selected_integer new bit_range path ≡ ok (v, bits)
  pub same_length : length new ≡ length bytes
  pub keeps_others : Around bit_range bits (from_le_bytes bytes) (from_le_bytes new)
  pub still_bytes : IsBytes new

module _ (bytes : List ℕ) (bit_range : Option BitRange) (path : List ℕ) {bits v : ℕ}
    (b : IsBytes bytes) (l : logical_bits bytes bit_range path ≡ ok bits) (h : v < 2 ^ bits) where
  word : ℕ
  word = replaced bit_range bits (from_le_bytes bytes) v

  new : List ℕ
  new = to_le_bytes (length bytes) word

  stored : from_le_bytes new ≡ word
  unfolding new word
  stored = from_le_bytes-to_le_bytes (length bytes) word (
      replaced-lt bit_range bits _ v (length bytes * 8)
        (logical_bits-IsSelection bytes bit_range path l).lies (from_le_bytes-lt bytes b) h)

  new-IsInserted : IsInserted bytes new bit_range path bits v
  unfolding new word
  new-IsInserted = record {
    reads_back =
        selected_integer-eq new bit_range path (
          logical_bits-length new bytes bit_range path (length-to_le_bytes (length bytes) word) ∙ l)
        ∙ ap (λ n. ok (chosen bit_range bits n, bits)) stored
        ∙ ap (λ n. ok (n, bits)) (chosen-replaced bit_range bits (from_le_bytes bytes) v h);
    same_length = length-to_le_bytes (length bytes) word;
    keeps_others =
        subst (Around bit_range bits (from_le_bytes bytes)) (sym stored)
          (replaced-Around bit_range bits (from_le_bytes bytes) v h);
    still_bytes = to_le_bytes-IsBytes (length bytes) word;
  }

  pub insert_integer-IsInserted :
      {got : List ℕ}
      → insert_integer bytes bit_range v path ≡ ok got
      → IsInserted bytes got bit_range path bits v
  unfolding new word
  insert_integer-IsInserted {got} e =
      let same : new ≡ got = let f = insert_integer-eq bytes bit_range path b l h in cc in
      subst (λ g. IsInserted bytes g bit_range path bits v) same new-IsInserted

mask_fits :
    (bits v mask : ℕ) (path : List ℕ)
    → bit_mask bits path ≡ ok mask
    → leb v mask ≡ true
    → v < 2 ^ bits
unfolding bit_mask
mask_fits bits v mask path h k = let pos = one-le-pow bits 2 (omega arith) in ground arith

full_word : (n v : ℕ) → leb 64 (n * 8) ≡ true → n ≤ 8 → v < 2 ^ 64 → v < 2 ^ (n * 8)
full_word n v h k small =
    let whole : n * 8 ≡ 64 = ground arith in subst (λ b. v < 2 ^ b) (sym whole) small

word_fits :
    (bytes : List ℕ) (v : ℕ) (path : List ℕ) {got : List ℕ}
    → v < 2 ^ 64
    → write_unsigned bytes v path ≡ ok got
    → (logical_bits bytes none path ≡ ok (length bytes * 8)) × (v < 2 ^ (length bytes * 8))
unfolding write_unsigned logical_bits
word_fits bytes v path small h =
    let pos = one-le-pow (length bytes * 8) 2 (omega arith) in
    (ground arith, ground (arith, full_word (length bytes) v))

-- A value is inserted only where it fits the bits of the range.
pub insert_integer-fits :
    (bytes : List ℕ) (bit_range : Option BitRange) (v : ℕ) (path : List ℕ) {got : List ℕ}
    → v < 2 ^ 64
    → insert_integer bytes bit_range v path ≡ ok got
    → (bits : ℕ) × (logical_bits bytes bit_range path ≡ ok bits) × (v < 2 ^ bits)
unfolding insert_integer
insert_integer-fits bytes none v path small h =
    let (l, fits) = word_fits bytes v path small h in (length bytes * 8, l, fits)
insert_integer-fits bytes (some r) v path small h =
    let (bits, l, h₁) = bind-eq-ok _ (logical_bits bytes (some r) path) h in
    let (mask, m, h₂) = bind-eq-ok _ (bit_mask bits path) h₁ in
    let (_, in_mask, h₃) = bind-eq-ok _ (ensure (leb v mask) (invalid_value path)) h₂ in
    (bits, l, mask_fits bits v mask path m (ensure-eq-ok _ (invalid_value path) in_mask))
