-- ===== src/Worker/Download/Submitted.antt =====
-- What the loops of a download submit, whatever the DLL answers.
use jlink_mcp_v.Base.{
  ℕ, ◌+◌, ◌≡◌, refl, ap, sym, subst, ◌∙◌, nat_equal, list_equal, List, [], ◌∷◌, ◌++◌, length,
  Bool-cases, inl, inr, arith, checked_add, u32_mod, ltb,
}
use mathlib.Core.List.{append_assoc, append-nil}
use jlink_mcp_v.Domain.Error.{JlinkError, Result, ok, err, ensure, ok_or, bind-eq-ok}
use jlink_mcp_v.Domain.Memory.Write.{ℤ}
use jlink_mcp_v.Domain.Image.{FirmwareSegment}
use jlink_mcp_v.Domain.Program.Facts.{ProgramExecutionFacts, ProgramRangeFact, submit}
use jlink_mcp_v.Worker.Preflight.{FlashDll, Download, and_then, uncertain}
use jlink_mcp_v.Worker.Download.{
  download_chunks, chunk_address, returned_count, written_chunk, write_chunk, write_chunks,
  write_download_bytes, write_segments,
}

-- The ranges of consecutive chunks, and those of an image.
pub chunk_ranges : ℕ → ℕ → List (List ℕ) → List ProgramRangeFact
chunk_ranges address offset [] = []
chunk_ranges address offset (chunk ∷ rest) =
    record { address = address + offset; length = length chunk }
    ∷ chunk_ranges address (offset + length chunk) rest

pub image_ranges : List FirmwareSegment → List ProgramRangeFact
image_ranges [] = []
image_ranges (s ∷ segments) =
    chunk_ranges s.address 0 (download_chunks s.bytes) ++ image_ranges segments

-- Writing claims nothing yet.
pub record Kept (f f' : ProgramExecutionFacts) : Type 0 where
  pub same_side : f'.side_effect_dispatched ≡ f.side_effect_dispatched
  pub same_flash : f'.flash_modified ≡ f.flash_modified
  pub same_confirmed : f'.confirmed_ranges ≡ f.confirmed_ranges

Kept-trans : {f g h : ProgramExecutionFacts} → Kept f g → Kept g h → Kept f h
Kept-trans p q = record {
  same_side = q.same_side ∙ p.same_side;
  same_flash = q.same_flash ∙ p.same_flash;
  same_confirmed = q.same_confirmed ∙ p.same_confirmed;
}

module _ {G : Type 0} where
  pub data Wrote (f : ProgramExecutionFacts) (ranges : List ProgramRangeFact)
      : Download G → Type 0 where
    failed :
        {g : G} {f' : ProgramExecutionFacts} {e : JlinkError}
        → Kept f f'
        → Wrote f ranges ((g, f'), err e)
    wrote :
        {g : G} {f' : ProgramExecutionFacts}
        → Kept f f'
        → f'.submitted_ranges ≡ f.submitted_ranges ++ ranges
        → Wrote f ranges ((g, f'), ok tt)

chunk_address-sum :
    (address offset current : ℕ)
    → chunk_address address offset ≡ ok current
    → current ≡ address + offset
unfolding chunk_address
chunk_address-sum address offset current h =
    let (sum, summed, rest) = bind-eq-ok _ (ok_or (checked_add address offset) uncertain) h in
    let (u, small, last) = bind-eq-ok _ (ensure (ltb sum u32_mod) uncertain) rest in
    let same : sum ≡ current = cc in sym same ∙ ground arith

abbrev same_facts : (f : ProgramExecutionFacts) → Kept f f
same_facts f = record { same_side = refl; same_flash = refl; same_confirmed = refl }

module _ {G : Type 0} (dll : FlashDll G) where
  Wrote-submit :
      (current n : ℕ) (f : ProgramExecutionFacts) (ranges : List ProgramRangeFact) {d : Download G}
      → Wrote (submit current n f) ranges d
      → Wrote f (record { address = current; length = n } ∷ ranges) d
  Wrote-submit current n f ranges (failed k) = failed record {
    same_side = k.same_side;
    same_flash = k.same_flash;
    same_confirmed = k.same_confirmed;
  }
  Wrote-submit current n f ranges (wrote k s) =
      wrote
        record {
          same_side = k.same_side;
          same_flash = k.same_flash;
          same_confirmed = k.same_confirmed;
        }
        (s ∙ append_assoc f.submitted_ranges (record { address = current; length = n } ∷ []) ranges)

  module _ (chunk : List ℕ) (ranges : List ProgramRangeFact)
      (next : G → ProgramExecutionFacts → Download G)
      (ih : (g : G) (f : ProgramExecutionFacts) → Wrote f ranges (next g f))
      (f : ProgramExecutionFacts) where
    written_chunk-Wrote :
        (current : ℕ) (answer : G × ℤ)
        → Wrote f
            (record { address = current; length = length chunk } ∷ ranges)
            (written_chunk dll current chunk next f answer)
    written_chunk-Wrote current (g, result) =
        elim (Bool-cases (returned_count result (length chunk))) [
          | inr short ↦ rw short (failed (same_facts f))
          | inl full ↦ rw full (
              Wrote-submit current (length chunk) f ranges (ih g (submit current (length chunk) f)))
        ]

    write_chunk-Wrote :
        (address offset : ℕ) (g : G) (r : Result ℕ)
        → chunk_address address offset ≡ r
        → Wrote f
            (record { address = address + offset; length = length chunk } ∷ ranges)
            (write_chunk dll r chunk next g f)
    write_chunk-Wrote address offset g (err e) h = failed (same_facts f)
    write_chunk-Wrote address offset g (ok current) h =
        subst
          (λ a.
            Wrote f (record { address = a; length = length chunk } ∷ ranges)
              (write_chunk dll (ok current) chunk next g f))
          (chunk_address-sum address offset current h)
          (written_chunk-Wrote current (dll.call_write_mem current chunk g))

  write_chunks-Wrote :
      (address offset : ℕ) (chunks : List (List ℕ)) (g : G) (f : ProgramExecutionFacts)
      → Wrote f (chunk_ranges address offset chunks) (write_chunks dll address offset chunks g f)
  unfolding write_chunks chunk_ranges
  write_chunks-Wrote address offset [] g f =
      wrote (same_facts f) (sym (append-nil f.submitted_ranges))
  write_chunks-Wrote address offset (chunk ∷ rest) g f =
      write_chunk-Wrote chunk (chunk_ranges address (offset + length chunk) rest)
        (write_chunks dll address (offset + length chunk) rest)
        (λ h k. write_chunks-Wrote address (offset + length chunk) rest h k) f address offset g
        (chunk_address address offset) refl

  and_then-Wrote :
      (f : ProgramExecutionFacts) (first rest : List ProgramRangeFact) (d : Download G)
      (next : G → ProgramExecutionFacts → Download G)
      → Wrote f first d
      → ((g : G) (k : ProgramExecutionFacts) → Wrote k rest (next g k))
      → Wrote f (first ++ rest) (and_then d next)
  and_then-Wrote f first rest ((g, k), err e) next (failed kept) h = failed kept
  and_then-Wrote f first rest ((g, k), ok u) next (wrote kept s) h = joined (h g k)
    where
      joined : {d : Download G} → Wrote k rest d → Wrote f (first ++ rest) d
      joined (failed more) = failed (Kept-trans kept more)
      joined (wrote more t) =
          wrote (Kept-trans kept more)
            (t ∙ ap (λ rs. rs ++ rest) s ∙ append_assoc f.submitted_ranges first rest)

  pub write_segments-Wrote :
      (segments : List FirmwareSegment) (g : G) (f : ProgramExecutionFacts)
      → Wrote f (image_ranges segments) (write_segments dll segments g f)
  unfolding write_segments write_download_bytes image_ranges
  write_segments-Wrote [] g f = wrote (same_facts f) (sym (append-nil f.submitted_ranges))
  write_segments-Wrote (s ∷ segments) g f =
      and_then-Wrote f (chunk_ranges s.address 0 (download_chunks s.bytes)) (image_ranges segments)
        (write_download_bytes dll s.address s.bytes g f) (write_segments dll segments)
        (write_chunks-Wrote s.address 0 (download_chunks s.bytes) g f)
        (λ h k. write_segments-Wrote segments h k)
