-- ===== src/Domain/TypedValue/Bits/Selected.antt =====
-- crates/jlink-domain/src/typed_value.rs: the integer that a bit range selects, read and replaced.
use jlink_mcp_v.Base.{
  ℕ, ◌+◌, ◌-◌, ◌*◌, ◌/◌, ◌%◌, ◌^◌, ◌<◌, ◌≤◌, ◌≡◌, refl, ap, ◌∙◌, sym, subst, true, List, Option,
  none, some, ltb, leb, length, arith,
}
use native.Mathlib.Nat.{one-le-pow, mod-lt}
use jlink_mcp_v.Domain.Error.{ok, bind-ok, ensure-true}
use jlink_mcp_v.Domain.Dwarf.{BitRange}
use jlink_mcp_v.Domain.TypedValue.Bits.{
  from_le_bytes, to_le_bytes, read_unsigned, is_word, logical_bits, selected_integer,
  insert_integer, get_bits, put_bits, select_bits,
}
use jlink_mcp_v.Domain.TypedValue.Bits.Fields.{
  get_bits-put_bits, put_bits-get_bits, put_bits-below, put_bits-above, put_bits-lt,
}
use jlink_mcp_v.Domain.TypedValue.Bits.Storage.{
  IsBytes, from_le_bytes-lt, to_le_bytes-from_le_bytes, bit_mask-eq, write_unsigned-eq,
}

abbrev pub LiesIn : Option BitRange → ℕ → ℕ → Type 0
LiesIn none bits storage = bits ≡ storage
LiesIn (some r) bits storage = (bits ≡ r.width) × (r.lsb + r.width ≤ storage)

pub record IsSelection (bytes : List ℕ) (bit_range : Option BitRange) (bits : ℕ) : Type 0 where
  pub nonempty : 0 < length bytes
  pub one_word : length bytes ≤ 8
  pub some_bits : 0 < bits
  pub small : bits ≤ 64
  pub lies : LiesIn bit_range bits (length bytes * 8)

pub logical_bits-IsSelection :
    (bytes : List ℕ) (bit_range : Option BitRange) (path : List ℕ) {bits : ℕ}
    → logical_bits bytes bit_range path ≡ ok bits
    → IsSelection bytes bit_range bits
unfolding logical_bits
logical_bits-IsSelection bytes none path h = ground arith
logical_bits-IsSelection bytes (some r) path h = ground arith

word-eq : (bytes : List ℕ) → 0 < length bytes → length bytes ≤ 8 → is_word bytes ≡ true
word-eq bytes h k = ground arith

read_unsigned-eq :
    (bytes path : List ℕ)
    → is_word bytes ≡ true
    → read_unsigned bytes path ≡ ok (from_le_bytes bytes)
unfolding read_unsigned
read_unsigned-eq bytes path h = rw h refl

-- The integer of a selection.
abbrev pub chosen : Option BitRange → ℕ → ℕ → ℕ
chosen none bits raw = raw
chosen (some r) bits raw = get_bits r.lsb bits raw

select_bits-eq :
    (bit_range : Option BitRange) (raw bits : ℕ) (path : List ℕ)
    → 0 < bits
    → bits ≤ 64
    → select_bits bit_range raw bits path ≡ ok (chosen bit_range bits raw, bits)
unfolding select_bits
select_bits-eq none raw bits path h k = refl
select_bits-eq (some r) raw bits path h k = rw (bit_mask-eq bits path h k) refl

chosen-lt :
    (bit_range : Option BitRange) (bits raw storage : ℕ)
    → LiesIn bit_range bits storage
    → raw < 2 ^ storage
    → chosen bit_range bits raw < 2 ^ bits
unfolding get_bits
chosen-lt none bits raw storage h fits = subst (λ n. raw < 2 ^ n) (sym h) fits
chosen-lt (some r) bits raw storage h fits =
    mod-lt (raw / 2 ^ r.lsb) (one-le-pow bits 2 (omega arith))

-- The storage word with the selected integer replaced.
abbrev pub replaced : Option BitRange → ℕ → ℕ → ℕ → ℕ
replaced none bits raw v = v
replaced (some r) bits raw v = put_bits r.lsb bits raw v

pub replaced-lt :
    (bit_range : Option BitRange) (bits raw v storage : ℕ)
    → LiesIn bit_range bits storage
    → raw < 2 ^ storage
    → v < 2 ^ bits
    → replaced bit_range bits raw v < 2 ^ storage
replaced-lt none bits raw v storage h fits small = subst (λ n. v < 2 ^ n) h small
replaced-lt (some r) bits raw v storage h fits small =
    put_bits-lt r.lsb bits raw v storage small (omega arith) fits

replaced_same :
    (bit_range : Option BitRange) (bits raw : ℕ)
    → replaced bit_range bits raw (chosen bit_range bits raw) ≡ raw
replaced_same none bits raw = refl
replaced_same (some r) bits raw = put_bits-get_bits r.lsb bits raw

pub chosen-replaced :
    (bit_range : Option BitRange) (bits raw v : ℕ)
    → v < 2 ^ bits
    → chosen bit_range bits (replaced bit_range bits raw v) ≡ v
chosen-replaced none bits raw v h = refl
chosen-replaced (some r) bits raw v h = get_bits-put_bits r.lsb bits raw v h

-- What lies around the selection.
abbrev pub Around : Option BitRange → ℕ → ℕ → ℕ → Type 0
Around none bits old new = Unit
Around (some r) bits old new =
    (new % 2 ^ r.lsb ≡ old % 2 ^ r.lsb) × (new / 2 ^ r.lsb / 2 ^ bits ≡ old / 2 ^ r.lsb / 2 ^ bits)

pub replaced-Around :
    (bit_range : Option BitRange) (bits raw v : ℕ)
    → v < 2 ^ bits
    → Around bit_range bits raw (replaced bit_range bits raw v)
replaced-Around none bits raw v h = tt
replaced-Around (some r) bits raw v h =
    (put_bits-below r.lsb bits raw v, put_bits-above r.lsb bits raw v h)

pub logical_bits-length :
    (a b : List ℕ) (bit_range : Option BitRange) (path : List ℕ)
    → length a ≡ length b
    → logical_bits a bit_range path ≡ logical_bits b bit_range path
unfolding logical_bits
logical_bits-length a b bit_range path e = rw e refl

pub insert_integer-eq :
    (bytes : List ℕ) (bit_range : Option BitRange) (path : List ℕ) {bits v : ℕ}
    → IsBytes bytes
    → logical_bits bytes bit_range path ≡ ok bits
    → v < 2 ^ bits
    → insert_integer bytes bit_range v path
      ≡ ok (to_le_bytes (length bytes) (replaced bit_range bits (from_le_bytes bytes) v))
unfolding insert_integer
insert_integer-eq bytes none path {bits} {v} b l h =
    let s = logical_bits-IsSelection bytes none path l in
    write_unsigned-eq bytes v path (word-eq bytes s.nonempty s.one_word)
      (subst (λ n. v < 2 ^ n) s.lies h)
insert_integer-eq bytes (some r) path {bits} {v} b l h =
    let s = logical_bits-IsSelection bytes (some r) path l in
    let in_mask : leb v (2 ^ bits - 1) ≡ true = ground arith in
    let shifts : ltb r.lsb 64 ≡ true =
      let p = s.lies in let q = s.one_word in let w = s.some_bits in ground arith in
    let fits =
      put_bits-lt r.lsb bits (from_le_bytes bytes) v (length bytes * 8) h
        (let p = s.lies in omega arith) (from_le_bytes-lt bytes b) in
    bind-ok _ l
    ∙ bind-ok _ (bit_mask-eq bits path s.some_bits s.small)
    ∙ bind-ok _ (ensure-true _ _ in_mask)
    ∙ bind-ok _ (ensure-true _ _ shifts)
    ∙ bind-ok _ (read_unsigned-eq bytes path (word-eq bytes s.nonempty s.one_word))
    ∙ write_unsigned-eq bytes _ path (word-eq bytes s.nonempty s.one_word) fits

module _ (bytes : List ℕ) (bit_range : Option BitRange) (path : List ℕ) {bits : ℕ}
    (some_logical : logical_bits bytes bit_range path ≡ ok bits) where
  selection : IsSelection bytes bit_range bits
  selection = logical_bits-IsSelection bytes bit_range path some_logical

  word : is_word bytes ≡ true
  word = word-eq bytes selection.nonempty selection.one_word

  pub selected_integer-eq :
      selected_integer bytes bit_range path ≡ ok (chosen bit_range bits (from_le_bytes bytes), bits)
  unfolding selected_integer
  selected_integer-eq =
      bind-ok _ (read_unsigned-eq bytes path word)
      ∙ bind-ok _ some_logical
      ∙ select_bits-eq bit_range (from_le_bytes bytes) bits path selection.some_bits selection.small

  module _ (b : IsBytes bytes) where
    pub selected-lt : chosen bit_range bits (from_le_bytes bytes) < 2 ^ bits
    selected-lt =
        chosen-lt bit_range bits _ (length bytes * 8) selection.lies (from_le_bytes-lt bytes b)

    -- A selected integer that is put back changes nothing.
    pub insert_integer_same :
        insert_integer bytes bit_range (chosen bit_range bits (from_le_bytes bytes)) path ≡ ok bytes
    insert_integer_same =
        insert_integer-eq bytes bit_range path b some_logical selected-lt
        ∙ ap (λ n. ok (to_le_bytes (length bytes) n))
            (replaced_same bit_range bits (from_le_bytes bytes))
        ∙ ap ok (to_le_bytes-from_le_bytes bytes b)
