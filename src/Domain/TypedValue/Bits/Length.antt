-- ===== src/Domain/TypedValue/Bits/Length.antt =====
-- crates/jlink-domain/src/typed_value.rs: an integer that is written is as long as its storage.
use jlink_mcp_v.Base.{ℕ, ◌≡◌, ap, ◌∙◌, sym, List, Option, none, some, length, checked_mul, ltb, leb}
use jlink_mcp_v.Domain.Error.{ok, ensure, ok_or, bind-eq-ok, ok-injective}
use jlink_mcp_v.Domain.Dwarf.{BitRange}
use jlink_mcp_v.Domain.TypedValue.Bits.{
  invalid_value, unsupported, write_unsigned, insert_integer, is_word, logical_bits, bit_mask,
  read_unsigned, put_bits, fits_storage,
}
use jlink_mcp_v.Domain.TypedValue.Bits.Storage.{length-to_le_bytes}

pub length-write_unsigned :
    (bytes : List ℕ) (v : ℕ) (path : List ℕ) {new : List ℕ}
    → write_unsigned bytes v path ≡ ok new
    → length new ≡ length bytes
unfolding write_unsigned
length-write_unsigned bytes v path h =
    let (_, _, h₁) = bind-eq-ok _ (ensure (is_word bytes) (unsupported path)) h in
    let (bits, _, h₂) = bind-eq-ok _ (ok_or (checked_mul (length bytes) 8) (unsupported path)) h₁ in
    let (_, _, h₃) = bind-eq-ok _ (fits_storage bits v path) h₂ in
    ap length (sym (ok-injective h₃)) ∙ length-to_le_bytes (length bytes) v

pub length-insert_integer :
    (bytes : List ℕ) (bit_range : Option BitRange) (v : ℕ) (path : List ℕ) {new : List ℕ}
    → insert_integer bytes bit_range v path ≡ ok new
    → length new ≡ length bytes
unfolding insert_integer
length-insert_integer bytes none v path h = length-write_unsigned bytes v path h
length-insert_integer bytes (some range) v path h =
    let (bits, _, h₁) = bind-eq-ok _ (logical_bits bytes (some range) path) h in
    let (mask, _, h₂) = bind-eq-ok _ (bit_mask bits path) h₁ in
    let (_, _, h₃) = bind-eq-ok _ (ensure (leb v mask) (invalid_value path)) h₂ in
    let (_, _, h₄) = bind-eq-ok _ (ensure (ltb range.lsb 64) (unsupported path)) h₃ in
    let (current, _, h₅) = bind-eq-ok _ (read_unsigned bytes path) h₄ in
    length-write_unsigned bytes (put_bits range.lsb bits current v) path h₅
