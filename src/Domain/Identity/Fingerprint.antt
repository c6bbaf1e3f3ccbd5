-- ===== src/Domain/Identity/Fingerprint.antt =====
-- image.rs: the fingerprints of whole target ranges, which plans of the first version carry.
use jlink_mcp_v.Base.{
  ℕ, Bool, true, false, not, ◌&&◌, Option, List, [], ◌∷◌, ◌==◌, length, filter, any, checked_add,
  eq, nat_equal, list_equal,
}
use jlink_mcp_v.Domain.Error.{
  JlinkError, new, with_detail, num, nums, Result, ok, err, ◌>>=◌, ◌>>◌, ensure, ok_or,
  value_invalid, firmware_elf_mismatch,
}
use jlink_mcp_v.Domain.Identity.{
  FirmwareSegmentFingerprint, FirmwareIdentityPlan, fingerprint_is_valid, validate_plan,
  identity_unknown,
}

abbrev empty_range : List ℕ → Bool
empty_range [] = true
empty_range (b ∷ bytes) = false

-- FirmwareSegmentFingerprint::from_bytes
unfoldable pub from_bytes : (List ℕ → List ℕ) → ℕ → List ℕ → Result FirmwareSegmentFingerprint
from_bytes digest address bytes = do
  ensure (not (empty_range bytes)) (new value_invalid false)
  _ ← ok_or (checked_add address (length bytes)) (new value_invalid false)
  ok (record { start = address; size = length bytes; sha256 = digest bytes })

-- `identity_unknown` with the expected range.
abbrev unknown_range : FirmwareSegmentFingerprint → JlinkError
unknown_range expected =
    with_detail (with_detail identity_unknown "address" (num expected.start)) "length"
      (num expected.size)

abbrev range_mismatch : FirmwareSegmentFingerprint → FirmwareSegmentFingerprint → JlinkError
range_mismatch expected actual =
    let e0 = with_detail (new firmware_elf_mismatch false) "address" (num expected.start) in
    let e1 = with_detail e0 "length" (num expected.size) in
    let e2 = with_detail e1 "expected_sha256" (nums expected.sha256) in
    with_detail e2 "actual_sha256" (nums actual.sha256)

-- The observed fingerprints of the expected range, and the digest of the only one.
match_range : FirmwareSegmentFingerprint → List FirmwareSegmentFingerprint → Result (Unit {0})
match_range expected [] = err (unknown_range expected)
match_range expected (actual ∷ []) =
    ensure (eq actual.sha256 expected.sha256) (range_mismatch expected actual)
match_range expected (actual ∷ again ∷ more) = err (unknown_range expected)

abbrev same_range : FirmwareSegmentFingerprint → FirmwareSegmentFingerprint → Bool
same_range expected candidate = candidate.start == expected.start && candidate.size == expected.size

match_ranges : List FirmwareSegmentFingerprint → List FirmwareSegmentFingerprint → Result (Unit {0})
unfolding match_range
match_ranges observed [] = ok tt
match_ranges observed (expected ∷ rest) =
    match_range expected (filter (same_range expected) observed) >>= λ u. match_ranges observed rest

abbrev some_ranges : List FirmwareSegmentFingerprint → Bool
some_ranges [] = false
some_ranges (f ∷ rest) = true

unfoldable pub verify_target :
    FirmwareIdentityPlan → Option (List FirmwareSegmentFingerprint) → Result (Unit {0})
unfolding validate_plan fingerprint_is_valid match_ranges
verify_target plan observed? = do
  validate_plan plan
  observed ← ok_or observed? identity_unknown
  ensure (not (any (λ f. not (fingerprint_is_valid f)) observed)) identity_unknown
  ensure (some_ranges plan.legacy_segments) identity_unknown
  match_ranges observed plan.legacy_segments
