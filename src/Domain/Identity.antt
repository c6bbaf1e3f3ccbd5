-- ===== src/Domain/Identity.antt =====
-- image.rs: the firmware identity block, the identity plan, and what proves that a target runs it.
pub mod Block
pub mod Fingerprint
pub mod Accepted
pub mod Tests
use jlink_mcp_v.Base.{
  ℕ, ◌+◌, Bool, true, false, not, ◌&&◌, ◌||◌, Option, none, some, List, [], ◌∷◌, refl,
  if◌then◌else◌, ◌==◌, leb, ltb, length, take, drop, all, get_elem?, checked_add, Equal, equal_by,
  eq, nat_equal, list_equal, option_equal, ◌⊗◌, is_some_and,
}
use jlink_mcp_v.Base.Text.{is_ascii_hexdigit}
use jlink_mcp_v.Domain.Error.{
  JlinkError, new, with_detail, num, text, nums, Result, ok, err, ◌>>=◌, ◌>>◌, ensure, ok_or,
  value_invalid, firmware_identity_unknown, firmware_elf_mismatch,
}

abbrev pub max_firmware_identity_bytes : ℕ
max_firmware_identity_bytes = 64

-- `b"JLID"`
abbrev pub firmware_identity_magic : List ℕ
firmware_identity_magic = b'J' ∷ b'L' ∷ b'I' ∷ b'D' ∷ []

abbrev pub firmware_identity_format_version : ℕ
firmware_identity_format_version = 1

pub data FirmwareIdentityStrength : Type 0 where
  weak strong : FirmwareIdentityStrength

pub record FirmwareIdentityBlock : Type 0 where
  pub address : ℕ
  pub bytes : List ℕ
  pub magic : List ℕ
  pub format_version : ℕ
  pub build_id : List ℕ

pub record FirmwareSegmentFingerprint : Type 0 where
  pub start : ℕ
  pub size : ℕ
  pub sha256 : List ℕ

pub record FirmwareIdentityPlan : Type 0 where
  pub elf_sha256 : List ℕ
  pub identity_block : Option FirmwareIdentityBlock
  pub legacy_segments : List FirmwareSegmentFingerprint

-- The derived `PartialEq`s.
instance abbrev pub block_equal : Equal FirmwareIdentityBlock
block_equal =
    equal_by (nat_equal ⊗ list_equal ⊗ list_equal ⊗ nat_equal ⊗ list_equal)
      (λ b. (b.address, (b.bytes, (b.magic, (b.format_version, b.build_id)))))
      (λ (a, (b, (m, (v, i)))). record {
        address = a;
        bytes = b;
        magic = m;
        format_version = v;
        build_id = i;
      })
      (λ b. refl)

instance abbrev pub fingerprint_equal : Equal FirmwareSegmentFingerprint
fingerprint_equal =
    equal_by (nat_equal ⊗ nat_equal ⊗ list_equal) (λ f. (f.start, (f.size, f.sha256)))
      (λ (a, (l, s)). record { start = a; size = l; sha256 = s }) (λ f. refl)

instance abbrev pub plan_equal : Equal FirmwareIdentityPlan
plan_equal =
    equal_by (list_equal ⊗ option_equal ⊗ list_equal)
      (λ p. (p.elf_sha256, (p.identity_block, p.legacy_segments)))
      (λ (e, (b, s)). record { elf_sha256 = e; identity_block = b; legacy_segments = s })
      (λ p. refl)

abbrev block_invalid : JlinkError
block_invalid = new value_invalid false

-- `byte.is_ascii_graphic() || *byte == b' '`
unfoldable pub is_printable : ℕ → Bool
is_printable c = (leb 33 c && leb c 126) || c == 32

-- `value[i]` of a slice that is long enough.
abbrev pub byte_at : List ℕ → ℕ → ℕ
byte_at bytes i = elim (get_elem? bytes i) [ none ↦ 0 | some b ↦ b ]

-- FirmwareIdentityBlock::parse; on the wire the fields are magic, version, length, build id.
unfoldable pub parse_block : ℕ → List ℕ → Result FirmwareIdentityBlock
unfolding is_printable
parse_block address bytes = do
  ensure (leb 6 (length bytes) && leb (length bytes) max_firmware_identity_bytes) block_invalid
  ensure (eq (take 4 bytes) firmware_identity_magic) block_invalid
  ensure (byte_at bytes 4 == firmware_identity_format_version) block_invalid
  let build_id_length = byte_at bytes 5
  ensure (not (build_id_length == 0 || ltb (length bytes) (6 + build_id_length))) block_invalid
  let build_id_bytes = take build_id_length (drop 6 bytes)
  ensure (all is_printable build_id_bytes) block_invalid
  end ← ok_or (checked_add address (length bytes)) block_invalid
  ok record {
    address = address;
    bytes = bytes;
    magic = firmware_identity_magic;
    format_version = firmware_identity_format_version;
    build_id = build_id_bytes;
  }

abbrev pub is_ok {ℓ} : {A : Type ℓ} → Result A → Bool
is_ok (ok a) = true
is_ok (err e) = false

-- `slice.get(from..from + count)`
abbrev pub slice : List ℕ → ℕ → ℕ → Option (List ℕ)
slice bytes from count =
    if leb (from + count) (length bytes) then some (take count (drop from bytes)) else none

-- FirmwareIdentityBlock::is_valid
unfoldable pub block_is_valid : FirmwareIdentityBlock → Bool
unfolding parse_block
block_is_valid block =
    is_ok (parse_block block.address block.bytes)
    && eq block.magic firmware_identity_magic
    && block.format_version == firmware_identity_format_version
    && eq (slice block.bytes 6 (byte_at block.bytes 5)) (some block.build_id)

unfoldable pub is_sha256 : List ℕ → Bool
is_sha256 value = length value == 64 && all is_ascii_hexdigit value

-- FirmwareSegmentFingerprint::is_valid
unfoldable pub fingerprint_is_valid : FirmwareSegmentFingerprint → Bool
unfolding is_sha256
fingerprint_is_valid f =
    ltb 0 f.size && is_some_and (checked_add f.start f.size) (λ end. true) && is_sha256 f.sha256

-- The loop of FirmwareIdentityPlan::is_valid.
segments_are_valid : Option ℕ → List FirmwareSegmentFingerprint → Bool
unfolding fingerprint_is_valid
segments_are_valid previous_end [] = true
segments_are_valid previous_end (s ∷ rest) =
    let later = segments_are_valid (checked_add s.start s.size) rest in
    let overlapping = is_some_and previous_end (λ end. ltb s.start end) in
    if not (fingerprint_is_valid s) || overlapping then false else later

-- FirmwareIdentityPlan::is_valid
unfoldable pub plan_is_valid : FirmwareIdentityPlan → Bool
unfolding block_is_valid segments_are_valid is_sha256
plan_is_valid plan =
    let block_bad = is_some_and plan.identity_block (λ b. not (block_is_valid b)) in
    if not (is_sha256 plan.elf_sha256)
    then false
    else if block_bad
    then false
    else segments_are_valid none plan.legacy_segments

abbrev pub identity_unknown : JlinkError
identity_unknown = new firmware_identity_unknown false

-- FirmwareIdentityPlan::validate
unfoldable pub validate_plan : FirmwareIdentityPlan → Result (Unit {0})
unfolding plan_is_valid
validate_plan plan = ensure (plan_is_valid plan) identity_unknown

-- FirmwareIdentityPlan::strength
unfoldable pub strength : FirmwareIdentityPlan → FirmwareIdentityStrength
strength plan = elim plan.identity_block [ none ↦ weak | some b ↦ strong ]

abbrev weak_error : JlinkError
weak_error =
    with_detail
      (with_detail (with_detail identity_unknown "identity_strength" (text "weak"))
        "required_symbol" (text "__jlink_mcp_identity"))
      "maximum_bytes" (num max_firmware_identity_bytes)

unfoldable pub ensure_strong : FirmwareIdentityPlan → Result FirmwareIdentityBlock
unfolding validate_plan
ensure_strong plan = do validate_plan plan; ok_or plan.identity_block weak_error

-- The digest is that of the `sha2` crate.
module _ (digest : List ℕ → List ℕ) where
  abbrev length_error : FirmwareIdentityBlock → List ℕ → JlinkError
  length_error expected observed =
      with_detail
        (with_detail (with_detail identity_unknown "address" (num expected.address))
          "expected_length" (num (length expected.bytes)))
        "actual_length" (num (length observed))

  abbrev mismatch_error : FirmwareIdentityBlock → List ℕ → JlinkError
  mismatch_error expected observed =
      let e0 = with_detail (new firmware_elf_mismatch false) "address" (num expected.address) in
      let e1 = with_detail e0 "length" (num (length expected.bytes)) in
      let e2 = with_detail e1 "expected_build_id" (nums expected.build_id) in
      let e3 = with_detail e2 "expected_sha256" (nums (digest expected.bytes)) in
      with_detail e3 "actual_sha256" (nums (digest observed))

  unfoldable pub verify_target_bytes : FirmwareIdentityPlan → Option (List ℕ) → Result (Unit {0})
  unfolding ensure_strong
  verify_target_bytes plan observed? = do
    expected ← ensure_strong plan
    observed ← ok_or observed? identity_unknown
    ensure (length observed == length expected.bytes) (length_error expected observed)
    ensure (eq observed expected.bytes) (mismatch_error expected observed)
