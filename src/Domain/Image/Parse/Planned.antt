-- ===== src/Domain/Image/Parse/Planned.antt =====
-- The identity plan of an accepted symbol image.
use jlink_mcp_v.Base.{ℕ, ◌≡◌, refl, true, not, ◌&&◌, leb, Option, List, [], ◌∷◌, subst, filter}
use jlink_mcp_v.Domain.Error.{Result, ok, err, ensure, ok_or, bind-eq-ok, ok-injective}
use jlink_mcp_v.Domain.Identity.{
  FirmwareIdentityBlock, FirmwareIdentityPlan, parse_block, block_is_valid, is_sha256,
  validate_plan, max_firmware_identity_bytes,
}
use jlink_mcp_v.Domain.Identity.Accepted.{parse_block-valid, IsBlock, validate_plan-plan_of}
use jlink_mcp_v.Domain.Image.{
  FirmwareFormat, elf, intel_hex, s_record, bin, invalid, segment, normalize_segments,
}
use jlink_mcp_v.Domain.Image.Valid.{IfOk, IfOk-then, IfOk-bind}
use jlink_mcp_v.Domain.Image.Text.{is_empty}
use jlink_mcp_v.Domain.Image.IntelHex.{parse_intel_hex}
use jlink_mcp_v.Domain.Image.SRecord.{parse_s_record}
use jlink_mcp_v.Domain.Image.Elf.{
  ObjectFile, Parts, ElfSymbol, is_identity_symbol, ensure_elf, identity_of_symbol,
  identity_of_symbols, parse_elf_identity_block, parse_elf_segments, parse_elf,
}
use jlink_mcp_v.Domain.Image.Parse.{
  FirmwareImage, is_one_of, map_names, lower_extension, detect_format, ensure_base_address,
  read_segments, parse_image, is_elf, symbol_identity_plan,
}

parse_block-IfOk :
    (address : ℕ) (bytes : List ℕ) → IfOk (λ b. block_is_valid b ≡ true) (parse_block address bytes)
parse_block-IfOk address bytes = checked (parse_block address bytes) refl
  where
    checked :
        (r : Result FirmwareIdentityBlock)
        → parse_block address bytes ≡ r
        → IfOk (λ b. block_is_valid b ≡ true) r
    checked (err e) at = tt
    checked (ok block) at = parse_block-valid address bytes block at

identity_of_symbol-IsBlock :
    (file : ObjectFile) (symbol : ElfSymbol) → IfOk IsBlock (identity_of_symbol file symbol)
unfolding identity_of_symbol
identity_of_symbol-IsBlock file symbol =
    IfOk-then IsBlock
      (ensure (leb 6 symbol.size && leb symbol.size max_firmware_identity_bytes) invalid) _
      (λ u. IfOk-then IsBlock (ok_or symbol.section_index invalid) _ (λ index.
        IfOk-then IsBlock (ok_or (file.section_by_index index) invalid) _ (λ section.
          IfOk-then IsBlock (ok_or (section.data_range symbol.address symbol.size) invalid) _
            (λ found. IfOk-then IsBlock (ok_or found invalid) _ (λ bytes.
              IfOk-bind IsBlock (λ b. block_is_valid b ≡ true) (parse_block symbol.address bytes) _
                (parse_block-IfOk symbol.address bytes) (λ block valid. valid))))))

identity_of_symbols-IsBlock :
    (file : ObjectFile) (symbols : List ElfSymbol) → IfOk IsBlock (identity_of_symbols file symbols)
unfolding identity_of_symbols
identity_of_symbols-IsBlock file [] = tt
identity_of_symbols-IsBlock file (symbol ∷ []) = identity_of_symbol-IsBlock file symbol
identity_of_symbols-IsBlock file (symbol ∷ again ∷ more) = tt

abbrev HasBlock : Parts → Type 0
HasBlock (segments, dwarf, block) = IsBlock block

module _ (object_parse : List ℕ → Option ObjectFile) where
  parse_elf-HasBlock : (bytes : List ℕ) → IfOk HasBlock (parse_elf object_parse bytes)
  unfolding parse_elf parse_elf_identity_block
  parse_elf-HasBlock bytes = IfOk-then HasBlock (ok_or (object_parse bytes) invalid) _ (λ file.
      IfOk-then HasBlock (ensure_elf file.kind) _ (λ u.
        IfOk-then HasBlock (parse_elf_segments file) _ (λ segments.
          IfOk-bind HasBlock IsBlock
            (identity_of_symbols file (filter is_identity_symbol file.symbols)) _
            (identity_of_symbols-IsBlock file (filter is_identity_symbol file.symbols))
            (λ block valid.
              IfOk-then HasBlock (normalize_segments segments) _ (λ normalized. valid)))))

  read_segments-HasBlock :
      (format : FirmwareFormat) (bytes : List ℕ) (base : Option ℕ)
      → IfOk HasBlock (read_segments object_parse format bytes base)
  unfolding read_segments
  read_segments-HasBlock elf bytes base = parse_elf-HasBlock bytes
  read_segments-HasBlock intel_hex bytes base =
      IfOk-then HasBlock (parse_intel_hex bytes) _ (λ segments. tt)
  read_segments-HasBlock s_record bytes base =
      IfOk-then HasBlock (parse_s_record bytes) _ (λ segments. tt)
  read_segments-HasBlock bin bytes base =
      IfOk-then HasBlock (ok_or base invalid) _
        (λ address. IfOk-then HasBlock (segment address bytes) _ (λ s. tt))

module _ (object_parse : List ℕ → Option ObjectFile) (path_extension : List ℕ → Option (List ℕ))
    (sha256_of : List ℕ → List ℕ) (file_name bytes : List ℕ) (base : Option ℕ) where
  -- A valid block, if there is one, and the digest of the file.
  abbrev HasIdentity : FirmwareImage → Type 0
  HasIdentity image = (image.digest ≡ sha256_of bytes) × IsBlock image.identity_block

  parse_image-HasIdentity :
      IfOk HasIdentity (parse_image object_parse path_extension sha256_of file_name bytes base)
  unfolding parse_image
  parse_image-HasIdentity =
      let extension = lower_extension (path_extension file_name) in
      IfOk-then HasIdentity (ensure (not (is_one_of extension map_names)) invalid) _ (λ u.
        IfOk-then HasIdentity (ensure (not (is_empty bytes)) invalid) _ (λ u.
          IfOk-then HasIdentity (detect_format extension bytes) _ (λ format.
            IfOk-then HasIdentity (ensure_base_address format base) _ (λ u.
              IfOk-bind HasIdentity HasBlock (read_segments object_parse format bytes base) _
                (read_segments-HasBlock object_parse format bytes base)
                (λ parts valid. (refl, valid))))))

  -- If an image is accepted and gives a plan for the symbols that it carries, the plan names the
  -- digest of the file, passes its own validation, and carries no fingerprints of the first version,
  -- if the digest of the file is a SHA-256 in hexadecimal.
  pub symbol_identity_plan-valid :
      (image : FirmwareImage) (plan : FirmwareIdentityPlan)
      → is_sha256 (sha256_of bytes) ≡ true
      → parse_image object_parse path_extension sha256_of file_name bytes base ≡ ok image
      → symbol_identity_plan image ≡ ok plan
      → (plan.elf_sha256 ≡ sha256_of bytes)
        × (validate_plan plan ≡ ok tt)
        × (plan.legacy_segments ≡ [])
  unfolding symbol_identity_plan
  symbol_identity_plan-valid image plan digest parsed planned =
      let (same, block) = subst (IfOk HasIdentity) parsed parse_image-HasIdentity in
      let (u, is_symbols, h1) = bind-eq-ok _ (ensure (is_elf image.format) invalid) planned in
      let (u', has_dwarf, h2) = bind-eq-ok _ (ensure image.has_dwarf invalid) h1 in
      subst
        (λ p.
          (p.elf_sha256 ≡ sha256_of bytes) × (validate_plan p ≡ ok tt) × (p.legacy_segments ≡ []))
        (ok-injective h2)
        (same, validate_plan-plan_of image.digest image.identity_block (rw same digest) block, refl)
