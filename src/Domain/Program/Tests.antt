-- ===== src/Domain/Program/Tests.antt =====
-- The theorems on program.rs at concrete inputs.
use jlink_mcp_v.Base.{ℕ, ◌≡◌, ◌↔◌, refl, some, List, [], ◌∷◌, arith}
use jlink_mcp_v.Domain.Error.{ok}
use jlink_mcp_v.Domain.Image.{FirmwareSegment}
use jlink_mcp_v.Domain.Program.Ranges.{
  FlashRegion, Placed, validate_image_flash_ranges, validate_image_flash_ranges_iff,
}
use jlink_mcp_v.Domain.Program.Compare.Total.{Answers, compare_segment-Answers}
use jlink_mcp_v.Domain.Program.Compare.{empty, compare_segment}
use jlink_mcp_v.Domain.Program.Compare.Runs.{absorbed, compare_segment_lem}

abbrev main_flash : FlashRegion
main_flash = record { address = 0x8000000; length = 0x1000 }

abbrev inside : FirmwareSegment
inside = record { address = 0x8000ffe; bytes = 1 ∷ 2 ∷ [] }

validate_image_flash_ranges_iff_example :
    (validate_image_flash_ranges (inside ∷ []) (main_flash ∷ []) ≡ ok tt)
    ↔ Placed (main_flash ∷ []) (inside ∷ [])
validate_image_flash_ranges_iff_example =
    validate_image_flash_ranges_iff (inside ∷ []) (main_flash ∷ [])

abbrev image : List ℕ
image = 1 ∷ 2 ∷ 3 ∷ 4 ∷ 5 ∷ []

abbrev flawed : List ℕ
flawed = 1 ∷ 9 ∷ 9 ∷ 4 ∷ 9 ∷ []

compare_segment_lem_example :
    compare_segment 100 image flawed empty ≡ some (ok (absorbed 100 0 image flawed empty))
compare_segment_lem_example =
    compare_segment_lem 100 image flawed empty refl (omega arith) (omega arith)

two_regions :
    compare_segment 100 image flawed empty
    ≡ some (ok (record { first_address = some 101; first_length = 2; total_regions = 2 }))
unfolding compare_segment
two_regions = refl

compare_segment-Answers_example : Answers (compare_segment 8 (1 ∷ 2 ∷ []) (1 ∷ 3 ∷ []) empty)
compare_segment-Answers_example = compare_segment-Answers 8 (1 ∷ 2 ∷ []) (1 ∷ 3 ∷ []) empty
