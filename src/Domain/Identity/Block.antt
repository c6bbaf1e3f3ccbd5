-- ===== src/Domain/Identity/Block.antt =====
-- What an identity block says, and what proves that a target runs the firmware of a plan.
use jlink_mcp_v.Base.{
  ℕ, ◌+◌, ◌≤◌, ◌≡◌, ◌↔◌, refl, true, false, not, ◌&&◌, ◌||◌, Option, none, some, List, [], ◌∷◌,
  ◌++◌, ◌==◌, leb, ltb, length, take, drop, all, eq, eq→≡, eq_refl, nat_equal, list_equal, arith,
  u64_mod, checked_add, ==_iff, ==_refl, length-take, take-append-drop, subst, sym, ◌∙◌,
}
use jlink_mcp_v.Domain.Error.{ok, ensure, ok_or, bind-eq-ok, ensure-eq-ok}
use jlink_mcp_v.Domain.Identity.{
  FirmwareIdentityBlock, FirmwareIdentityPlan, is_printable, parse_block, validate_plan,
  ensure_strong, verify_target_bytes, firmware_identity_magic, block_invalid, weak_error,
  length_error, mismatch_error, max_firmware_identity_bytes, firmware_identity_format_version,
}

-- The block as the firmware lays it out: magic, version 1, the length of the build id, the build id,
-- and padding.
pub record IsLaidOut (address : ℕ) (bytes : List ℕ) (block : FirmwareIdentityBlock) : Type 0 where
  pub padding : List ℕ
  pub layout :
      bytes ≡ firmware_identity_magic ++ (1 ∷ length block.build_id ∷ (block.build_id ++ padding))
  pub kept : block.bytes ≡ bytes
  pub placed : block.address ≡ address
  pub printable : all is_printable block.build_id ≡ true
  pub named : 1 ≤ length block.build_id
  pub bounded : length bytes ≤ 64
  pub fits : address + length bytes ≤ u64_mod

short_block :
    (address : ℕ) (bytes : List ℕ) (block : FirmwareIdentityBlock)
    → length bytes ≤ 5
    → parse_block address bytes ≡ ok block
    → ⊥
unfolding parse_block
short_block address bytes block short h =
    let small : (leb 6 (length bytes) && leb (length bytes) max_firmware_identity_bytes) ≡ false =
      ground arith in
    cc (rw small at h)

module _ (address a b c d v n : ℕ) (rest : List ℕ) (block : FirmwareIdentityBlock) where
  abbrev whole : List ℕ
  whole = a ∷ b ∷ c ∷ d ∷ v ∷ n ∷ rest

  abbrev block_of : FirmwareIdentityBlock
  block_of = record {
    address = address;
    bytes = whole;
    magic = firmware_identity_magic;
    format_version = firmware_identity_format_version;
    build_id = take n rest;
  }

  laid :
      take 4 whole ≡ firmware_identity_magic
      → v ≡ 1
      → {m : ℕ} → n ≡ m
      → {tail : List ℕ} → rest ≡ tail
      → whole ≡ firmware_identity_magic ++ (1 ∷ m ∷ tail)
  laid start one count body = cc

  parse_long-IsLaidOut : parse_block address whole ≡ ok block → IsLaidOut address whole block
  unfolding parse_block
  parse_long-IsLaidOut h0 =
      let (u0, size, h1) =
        bind-eq-ok _
          (ensure (leb 6 (length whole) && leb (length whole) max_firmware_identity_bytes)
            block_invalid)
          h0 in
      let (u1, magic, h2) =
        bind-eq-ok _ (ensure (eq (take 4 whole) firmware_identity_magic) block_invalid) h1 in
      let (u2, version, h3) =
        bind-eq-ok _ (ensure (v == firmware_identity_format_version) block_invalid) h2 in
      let (u3, counted, h4) =
        bind-eq-ok _ (ensure (not (n == 0 || ltb (length whole) (6 + n))) block_invalid) h3 in
      let (u4, shown, h5) =
        bind-eq-ok _ (ensure (all is_printable (take n rest)) block_invalid) h4 in
      let (end, fits, h6) =
        bind-eq-ok _ (ok_or (checked_add address (length whole)) block_invalid) h5 in
      let bounds = ensure-eq-ok _ _ size in
      let start = eq→≡ (take 4 whole) firmware_identity_magic (ensure-eq-ok _ _ magic) in
      let one = ensure-eq-ok (v == 1) _ version in
      let inside = ensure-eq-ok _ _ counted in
      let built : block_of ≡ block = cc in
      let sized : length (take n rest) ≡ n = length-take n rest ∙ ground arith in
      subst (IsLaidOut address whole) built record {
        padding = drop n rest;
        layout = laid start ((==_iff v 1).0 one) (sym sized) (sym (take-append-drop n rest));
        kept = refl;
        placed = refl;
        printable = ensure-eq-ok _ _ shown;
        named = rw sized (ground arith);
        bounded = ground arith;
        fits = ground arith;
      }

-- FirmwareIdentityBlock::parse accepts only bytes that are laid out as a block and end below 2^64, and
-- keeps them, their address and the build id that they name.
pub parse_block-IsLaidOut :
    (address : ℕ) (bytes : List ℕ) (block : FirmwareIdentityBlock)
    → parse_block address bytes ≡ ok block
    → IsLaidOut address bytes block
parse_block-IsLaidOut address (a ∷ b ∷ c ∷ d ∷ v ∷ n ∷ rest) block h =
    parse_long-IsLaidOut address a b c d v n rest block h
parse_block-IsLaidOut address [] block h = absurd (short_block address [] block (omega arith) h)
parse_block-IsLaidOut address (a ∷ []) block h =
    absurd (short_block address _ block (omega arith) h)
parse_block-IsLaidOut address (a ∷ b ∷ []) block h =
    absurd (short_block address _ block (omega arith) h)
parse_block-IsLaidOut address (a ∷ b ∷ c ∷ []) block h =
    absurd (short_block address _ block (omega arith) h)
parse_block-IsLaidOut address (a ∷ b ∷ c ∷ d ∷ []) block h =
    absurd (short_block address _ block (omega arith) h)
parse_block-IsLaidOut address (a ∷ b ∷ c ∷ d ∷ v ∷ []) block h =
    absurd (short_block address _ block (omega arith) h)

pub ensure_strong-block :
    (plan : FirmwareIdentityPlan) (block : FirmwareIdentityBlock)
    → ensure_strong plan ≡ ok block
    → plan.identity_block ≡ some block
unfolding ensure_strong
ensure_strong-block plan block h =
    let (u, valid, rest) = bind-eq-ok _ (validate_plan plan) h in
    ok_or-some plan.identity_block rest
  where
    ok_or-some : (o : Option FirmwareIdentityBlock) → ok_or o weak_error ≡ ok block → o ≡ some block
    ok_or-some none k = cc
    ok_or-some (some b) k = cc

module _ (digest : List ℕ → List ℕ) where
  -- Target bytes prove a plan exactly if the plan is valid, has an identity block, and the bytes are the
  -- bytes of that block.
  pub verify_target_bytes_iff :
      (plan : FirmwareIdentityPlan) (bytes : List ℕ)
      → (verify_target_bytes digest plan (some bytes) ≡ ok tt) ↔ (
          (block : FirmwareIdentityBlock) × (ensure_strong plan ≡ ok block) × (bytes ≡ block.bytes))
  unfolding verify_target_bytes
  verify_target_bytes_iff plan bytes = (forward, backward)
    where
      forward :
          (verify_target_bytes digest plan (some bytes) ≡ ok tt)
          → (block : FirmwareIdentityBlock) × (ensure_strong plan ≡ ok block)
            × (bytes ≡ block.bytes)
      forward h =
          let (block, strong, rest) = bind-eq-ok _ (ensure_strong plan) h in
          let (u, same_length, last) =
            bind-eq-ok _
              (ensure (length bytes == length block.bytes) (length_error digest block bytes))
              rest in
          (
            block,
            strong,
            eq→≡ bytes block.bytes
                (ensure-eq-ok (eq bytes block.bytes) (mismatch_error digest block bytes) last),
          )

      backward :
          ((block : FirmwareIdentityBlock) × (ensure_strong plan ≡ ok block)
            × (bytes ≡ block.bytes))
          → (verify_target_bytes digest plan (some bytes) ≡ ok tt)
      backward (block, strong, same) =
          rw (strong, same, ==_refl (length block.bytes), eq_refl block.bytes)
