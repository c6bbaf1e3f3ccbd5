-- ===== src/Worker/Download/Audit.antt =====
-- What the facts of a download claim, however the DLL answers.
use jlink_mcp_v.Base.{
  ℕ, ◌≡◌, refl, ap, ◌∙◌, Bool, true, false, not, ◌||◌, ◌==◌, eq, nat_equal, list_equal, map, some,
  List, [], ◌++◌, length, Bool-cases, inl, inr,
}
use jlink_mcp_v.Domain.Error.{JlinkError, Result, ok, err}
use Prim.Native.Nat.{bit_xor, min}
use jlink_mcp_v.Worker.Gateway.{Gateway}
use jlink_mcp_v.Domain.State.{halted}
use jlink_mcp_v.Domain.Memory.{MemoryRegion, ram, kind_eq}
use jlink_mcp_v.Domain.Memory.Write.{ℤ, pos, negsuc}
use jlink_mcp_v.Domain.Image.{FirmwareSegment}
use jlink_mcp_v.Domain.Program.Facts.{
  ProgramExecutionFacts, ProgramRangeFact, ProgramStage, unmodified, modified, unproven, advance,
  dispatch_side_effect, dispatch_non_flash_side_effect, begin_download, segment_commit,
  end_download, verify_preparation, target_preparation, loader_ram_preflight,
}
use jlink_mcp_v.Worker.Preflight.{
  FlashDll, Download, and_then, prepared, prepare_flash_operation, pass_preflight, pattern_read,
  pattern_written, original_read, restore_loader_ram, preflight_loader_ram,
  loader_ram_preflight_bytes,
}
use jlink_mcp_v.Worker.Download.{
  write_segments, program_image, ended_download, finish_download_after_segments, commit_image,
}
use jlink_mcp_v.Worker.Download.Submitted.{image_ranges, Wrote, failed, wrote, write_segments-Wrote}

-- Nothing of the Flash was touched; a download was begun and nothing is proved; all of it is confirmed.
pub record IsUntouched (f : ProgramExecutionFacts) : Type 0 where
  pub unmodified_flash : f.flash_modified ≡ unmodified
  pub none_confirmed : f.confirmed_ranges ≡ []
  pub none_submitted : f.submitted_ranges ≡ []

pub record IsPending (f : ProgramExecutionFacts) : Type 0 where
  pub dispatched : f.side_effect_dispatched ≡ true
  pub unproven_flash : f.flash_modified ≡ unproven
  pub none_confirmed : f.confirmed_ranges ≡ []

pub record IsConfirmed (ranges : List ProgramRangeFact) (f : ProgramExecutionFacts) : Type 0 where
  pub dispatched : f.side_effect_dispatched ≡ true
  pub modified_flash : f.flash_modified ≡ modified
  pub confirmed : f.confirmed_ranges ≡ ranges
  pub submitted : f.submitted_ranges ≡ ranges

module _ {G : Type 0} where
  pub data ImageEnd (segments : List FirmwareSegment) : Download G → Type 0 where
    untouched :
        {g : G} {f : ProgramExecutionFacts} {e : JlinkError}
        → IsUntouched f
        → ImageEnd segments ((g, f), err e)
    pending :
        {g : G} {f : ProgramExecutionFacts} {e : JlinkError}
        → IsPending f
        → ImageEnd segments ((g, f), err e)
    programmed :
        {g : G} {f : ProgramExecutionFacts}
        → IsConfirmed (image_ranges segments) f
        → ImageEnd segments ((g, f), ok tt)

module _ {G : Type 0} (dll : FlashDll G) (gw : Gateway G) where
  ended-ImageEnd :
      (segments : List FirmwareSegment) (next_stage : ProgramStage) (f : ProgramExecutionFacts)
      → IsPending f
      → f.submitted_ranges ≡ image_ranges segments
      → (answer : G × ℤ) → ImageEnd segments (ended_download dll next_stage f answer)
  ended-ImageEnd segments stage f p s (g, pos n) =
      programmed
        record { dispatched = p.dispatched; modified_flash = refl; confirmed = s; submitted = s }
  ended-ImageEnd segments stage f p s (g, negsuc n) = pending p

  finish-ImageEnd :
      (segments : List FirmwareSegment) (f : ProgramExecutionFacts)
      → IsPending f
      → f.submitted_ranges ≡ []
      → (d : Download G) → Wrote f (image_ranges segments) d
      → ImageEnd segments (finish_download_after_segments dll verify_preparation d)
  unfolding finish_download_after_segments
  finish-ImageEnd segments f p none_yet ((g, k), err e) (failed kept) = pending record {
    dispatched = kept.same_side ∙ p.dispatched;
    unproven_flash = kept.same_flash ∙ p.unproven_flash;
    none_confirmed = kept.same_confirmed ∙ p.none_confirmed;
  }
  finish-ImageEnd segments f p none_yet ((g, k), ok u) (wrote kept s) =
      ended-ImageEnd segments verify_preparation (advance segment_commit end_download k)
        record {
          dispatched = kept.same_side ∙ p.dispatched;
          unproven_flash = kept.same_flash ∙ p.unproven_flash;
          none_confirmed = kept.same_confirmed ∙ p.none_confirmed;
        }
        (s ∙ ap (λ rs. rs ++ image_ranges segments) none_yet) (dll.call_end_download g)

  commit_image-ImageEnd :
      (segments : List FirmwareSegment) (g : G) (f : ProgramExecutionFacts)
      → IsUntouched f
      → ImageEnd segments (commit_image dll segments g f)
  unfolding commit_image
  commit_image-ImageEnd segments g f u =
      let begun =
        advance begin_download segment_commit
          (dispatch_side_effect (advance loader_ram_preflight begin_download f)) in
      finish-ImageEnd segments begun
        record { dispatched = refl; unproven_flash = refl; none_confirmed = u.none_confirmed }
        u.none_submitted (write_segments dll segments (dll.call_begin_download g) begun)
        (write_segments-Wrote dll segments (dll.call_begin_download g) begun)

  -- Whatever happens before BeginDownload, no Flash is claimed.
  abbrev Quiet : Download G → Type 0
  Quiet d = IsUntouched (d.0.1)

  prepared-Quiet :
      (f : ProgramExecutionFacts)
      → IsUntouched f
      → (answer : G × Result Bool) → Quiet (prepared dll gw f answer)
  prepared-Quiet f u (g, err e) = u
  prepared-Quiet f u (g, ok false) = u
  prepared-Quiet f u (g, ok true) = record {
    unmodified_flash = u.unmodified_flash;
    none_confirmed = u.none_confirmed;
    none_submitted = u.none_submitted;
  }

  module _ (address : ℕ) (original pattern : List ℕ) (f : ProgramExecutionFacts)
      (u : IsUntouched f) where
    pass-Quiet : (answer : G × Bool) → Quiet (pass_preflight dll gw f answer)
    pass-Quiet (g, true) = u
    pass-Quiet (g, false) = u

    read-Quiet :
        (answer : G × Result (List ℕ))
        → Quiet (pattern_read dll gw address original pattern f answer)
    read-Quiet (g, err e) = u
    read-Quiet (g, ok actual) = elim (Bool-cases (eq actual pattern)) [
      | inr other ↦ rw other u
      | inl same ↦ rw same (pass-Quiet (restore_loader_ram dll gw address original g))
    ]

    write-Quiet :
        (answer : G × Result (Unit {0}))
        → Quiet (pattern_written dll gw address original pattern f answer)
    write-Quiet (g, err e) = u
    write-Quiet (g, ok t) = read-Quiet (gw.read_bytes address (length original) g)

  original-Quiet :
      (address : ℕ) (f : ProgramExecutionFacts)
      → IsUntouched f
      → (answer : G × Result (List ℕ)) → Quiet (original_read dll gw address f answer)
  original-Quiet address f u (g, err e) = u
  original-Quiet address f u (g, ok original) =
      let pattern = map (λ byte. bit_xor byte 165) original in
      write-Quiet address original pattern (dispatch_non_flash_side_effect f)
        record {
          unmodified_flash = u.unmodified_flash;
          none_confirmed = u.none_confirmed;
          none_submitted = u.none_submitted;
        }
        (gw.write_bytes address pattern g)

  preflight-Quiet :
      (region : MemoryRegion) (g : G) (f : ProgramExecutionFacts)
      → IsUntouched f
      → Quiet (preflight_loader_ram dll gw region g f)
  unfolding preflight_loader_ram
  preflight-Quiet region g f u =
      elim (Bool-cases (not (kind_eq region.kind ram) || region.length == 0)) [
        | inl bad ↦ rw bad u
        | inr fine ↦ rw fine (
            original-Quiet region.address f u
              (gw.read_bytes region.address (min region.length loader_ram_preflight_bytes) g))
      ]

  and_then-ImageEnd :
      (segments : List FirmwareSegment) (d : Download G)
      (next : G → ProgramExecutionFacts → Download G)
      → Quiet d
      → ((g : G) (f : ProgramExecutionFacts) → IsUntouched f → ImageEnd segments (next g f))
      → ImageEnd segments (and_then d next)
  and_then-ImageEnd segments ((g, f), err e) next u h = untouched u
  and_then-ImageEnd segments ((g, f), ok t) next u h = h g f u

  -- From facts that claim nothing, programming an image ends in one of three ways: it fails before the
  -- download and the facts still claim nothing of the Flash; or it fails later and they say that the
  -- Flash may have changed, with no range confirmed; or it succeeds, and exactly the chunks of the
  -- image's segments, in order, are submitted and confirmed.
  pub program_image-ImageEnd :
      (segments : List FirmwareSegment) (region : MemoryRegion) (g : G) (f : ProgramExecutionFacts)
      → IsUntouched f
      → ImageEnd segments (program_image dll gw segments region g f)
  unfolding program_image prepare_flash_operation
  program_image-ImageEnd segments region g f u =
      and_then-ImageEnd segments (prepare_flash_operation dll gw g f) _
        (prepared-Quiet f u (dll.is_ready g))
        λ g1 f1 u1.
          let f2 =
            advance target_preparation loader_ram_preflight
              (record f1 { last_trusted_target_state = some halted }) in
          and_then-ImageEnd segments (preflight_loader_ram dll gw region g1 f2)
            (commit_image dll segments)
            (preflight-Quiet region g1 f2 (record {
              unmodified_flash = u1.unmodified_flash;
              none_confirmed = u1.none_confirmed;
              none_submitted = u1.none_submitted;
            }))
            (λ h k v. commit_image-ImageEnd segments h k v)
