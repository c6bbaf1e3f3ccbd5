-- ===== src/Domain/Image/Parse/Accepted.antt =====
-- What `FirmwareImage::parse` promises of an image that it accepts.
use jlink_mcp_v.Base.{
  ℕ, ◌+◌, ◌≡◌, refl, ap, subst, ltb, length, u64_mod, Bool-cases, inl, inr, arith, Bool, false, not,
  Option, none, some, List, [], ◌∷◌,
}
use jlink_mcp_v.Domain.Error.{Result, ok, err, ensure}
use jlink_mcp_v.Domain.Identity.{FirmwareIdentityBlock}
use jlink_mcp_v.Domain.Image.{
  FirmwareFormat, elf, intel_hex, s_record, bin, FirmwareSegment, invalid, segment,
}
use jlink_mcp_v.Domain.Image.Segments.{IsSegment}
use jlink_mcp_v.Domain.Image.Valid.{IfOk, IfOk-then, IfOk-bind, IsImageData}
use jlink_mcp_v.Domain.Image.Text.{is_empty}
use jlink_mcp_v.Domain.Image.IntelHex.{parse_intel_hex}
use jlink_mcp_v.Domain.Image.IntelHex.Valid.{parse_intel_hex-valid}
use jlink_mcp_v.Domain.Image.SRecord.{parse_s_record}
use jlink_mcp_v.Domain.Image.SRecord.Valid.{parse_s_record-valid}
use jlink_mcp_v.Domain.Image.Elf.{ObjectFile, Parts, parse_elf}
use jlink_mcp_v.Domain.Image.Elf.Valid.{parse_elf-valid}
use jlink_mcp_v.Domain.Image.Parse.{
  FirmwareImage, is_one_of, map_names, lower_extension, detect_format, ensure_base_address,
  read_segments, parse_image,
}

-- What the formats say besides: only BIN takes an address, and its bytes are the file's; only ELF
-- can have debug information and an identity block.
abbrev HasFormat :
    List ℕ
    → Option ℕ
    → FirmwareFormat
    → List FirmwareSegment
    → Bool
    → Option FirmwareIdentityBlock
    → Type 0
HasFormat bytes base elf segments dwarf block = base ≡ none
HasFormat bytes base intel_hex segments dwarf block =
    (base ≡ none) × (dwarf ≡ false) × (block ≡ none)
HasFormat bytes base s_record segments dwarf block =
    (base ≡ none) × (dwarf ≡ false) × (block ≡ none)
HasFormat bytes base bin segments dwarf block =
    ((address : ℕ) × (base ≡ some address)
      × (segments ≡ record { address = address; bytes = bytes } ∷ []))
    × (dwarf ≡ false)
    × (block ≡ none)

pub record IsAccepted (sha256_of : List ℕ → List ℕ) (bytes : List ℕ) (base : Option ℕ)
    (image : FirmwareImage) : Type 0 where
  pub segments : IsImageData image.segments
  pub digest : image.digest ≡ sha256_of bytes
  pub format : HasFormat bytes base image.format image.segments image.has_dwarf image.identity_block

abbrev HasParts : List ℕ → Option ℕ → FirmwareFormat → Parts → Type 0
HasParts bytes base format (segments, dwarf, block) =
    IsImageData segments × HasFormat bytes base format segments dwarf block

abbrev IsBinary : ℕ → List ℕ → FirmwareSegment → Type 0
IsBinary address bytes s = IsSegment s × (s ≡ record { address = address; bytes = bytes })

segment-IsBinary :
    (address : ℕ) (bytes : List ℕ) → IfOk (IsBinary address bytes) (segment address bytes)
unfolding segment
segment-IsBinary address [] = tt
segment-IsBinary address (b ∷ bytes) =
    elim (Bool-cases (ltb (address + length (b ∷ bytes)) u64_mod)) [
      | inl fits ↦
          rw (segment, fits) (record { nonempty = omega arith; bounded = ground arith }, refl)
      | inr over ↦ rw (segment, over) tt
    ]

IsImageData-single : (s : FirmwareSegment) → IsSegment s → IsImageData (s ∷ [])
IsImageData-single s v = ((v, tt), (tt, tt))

IfOk-weaken :
    {A : Type 0} (P Q : A → Type 0) (r : Result A) → ((a : A) → P a → Q a) → IfOk P r → IfOk Q r
IfOk-weaken P Q (err e) f h = tt
IfOk-weaken P Q (ok a) f h = f a h

IfOk-self :
    (format : FirmwareFormat) (base : Option ℕ)
    → IfOk (λ u. ensure_base_address format base ≡ ok tt) (ensure_base_address format base)
IfOk-self elf none = refl
IfOk-self elf (some address) = tt
IfOk-self intel_hex none = refl
IfOk-self intel_hex (some address) = tt
IfOk-self s_record none = refl
IfOk-self s_record (some address) = tt
IfOk-self bin none = tt
IfOk-self bin (some address) = refl

module _ (object_parse : List ℕ → Option ObjectFile) (path_extension : List ℕ → Option (List ℕ))
    (sha256_of : List ℕ → List ℕ) (bytes : List ℕ) where
  read_segments-HasParts :
      (format : FirmwareFormat) (base : Option ℕ)
      → ensure_base_address format base ≡ ok tt
      → IfOk (HasParts bytes base format) (read_segments object_parse format bytes base)
  unfolding read_segments
  read_segments-HasParts elf none h =
      IfOk-weaken (λ parts. IsImageData (parts.0)) (HasParts bytes none elf)
        (parse_elf object_parse bytes) (λ parts v. (v, refl)) (parse_elf-valid object_parse bytes)
  read_segments-HasParts elf (some address) h = cc h
  read_segments-HasParts intel_hex none h =
      IfOk-bind (HasParts bytes none intel_hex) IsImageData (parse_intel_hex bytes) _
        (parse_intel_hex-valid bytes) (λ s v. (v, (refl, refl, refl)))
  read_segments-HasParts intel_hex (some address) h = cc h
  read_segments-HasParts s_record none h =
      IfOk-bind (HasParts bytes none s_record) IsImageData (parse_s_record bytes) _
        (parse_s_record-valid bytes) (λ s v. (v, (refl, refl, refl)))
  read_segments-HasParts s_record (some address) h = cc h
  read_segments-HasParts bin none h = cc h
  read_segments-HasParts bin (some address) h =
      IfOk-bind (HasParts bytes (some address) bin) (IsBinary address bytes) (segment address bytes)
        _ (segment-IsBinary address bytes)
        (λ s v. (IsImageData-single s (v.0), ((address, refl, ap (λ s. s ∷ []) (v.1)), refl, refl)))

  parse_image-IfOk :
      (file_name : List ℕ) (base : Option ℕ)
      → IfOk
          (IsAccepted sha256_of bytes base)
          (parse_image object_parse path_extension sha256_of file_name bytes base)
  unfolding parse_image
  parse_image-IfOk file_name base =
      let extension = lower_extension (path_extension file_name) in
      IfOk-then (IsAccepted sha256_of bytes base)
        (ensure (not (is_one_of extension map_names)) invalid) _
        (λ u.
          IfOk-then (IsAccepted sha256_of bytes base) (ensure (not (is_empty bytes)) invalid) _
            (λ u.
              IfOk-then (IsAccepted sha256_of bytes base) (detect_format extension bytes) _
                (λ format.
                  IfOk-bind (IsAccepted sha256_of bytes base)
                    (λ u. ensure_base_address format base ≡ ok tt) (ensure_base_address format base)
                    _ (IfOk-self format base)
                    (λ u e.
                      IfOk-bind (IsAccepted sha256_of bytes base) (HasParts bytes base format)
                        (read_segments object_parse format bytes base) _
                        (read_segments-HasParts format base e)
                        (λ parts v. record { segments = v.0; digest = refl; format = v.1 })))))

  -- If an image is accepted, its segments are not empty, lie within the address space, ascend and
  -- leave a gap between any two, and its digest is that of all its bytes. A BIN image was given an
  -- address and is one segment there that holds the bytes of the file; an image of another format
  -- was given no address. Only an ELF image has debug information or an identity block.
  pub parse_image-IsAccepted :
      (file_name : List ℕ) (base : Option ℕ) (image : FirmwareImage)
      → parse_image object_parse path_extension sha256_of file_name bytes base ≡ ok image
      → IsAccepted sha256_of bytes base image
  parse_image-IsAccepted file_name base image h =
      subst (IfOk (IsAccepted sha256_of bytes base)) h (parse_image-IfOk file_name base)
