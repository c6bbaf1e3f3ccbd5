-- ===== src/Worker/Download/Tests.antt =====
-- gateway.rs: programming a small image on a bench that answers at once.
use jlink_mcp_v.Base.{refl, true, List, [], ◌∷◌, length}
use jlink_mcp_v.Domain.Error.{ok}
use jlink_mcp_v.Domain.State.{TargetState, running}
use jlink_mcp_v.Domain.Memory.{MemoryRegion, ram}
use jlink_mcp_v.Domain.Memory.Write.{pos}
use jlink_mcp_v.Domain.Image.{FirmwareSegment}
use jlink_mcp_v.Domain.Program.Facts.{new_facts}
use jlink_mcp_v.Worker.Preflight.{FlashDll}
use jlink_mcp_v.Worker.Download.{program_image}
use jlink_mcp_v.Worker.Download.Audit.{ImageEnd, program_image-ImageEnd}
use jlink_mcp_v.Worker.Session.Tests.{bench}

abbrev pub flasher : FlashDll TargetState
flasher = record {
  is_ready = λ g. (g, ok true);
  call_begin_download = λ g. g;
  call_write_mem = λ address bytes g. (g, pos (length bytes));
  call_end_download = λ g. (g, pos 0);
}

abbrev pub image : List FirmwareSegment
image =
    record { address = 0; bytes = 1 ∷ 2 ∷ 3 ∷ [] } ∷ record { address = 16; bytes = 4 ∷ [] } ∷ []

abbrev pub loader : MemoryRegion
loader = record { address = 536870912; length = 4096; kind = ram }

program_image-ImageEnd_example :
    ImageEnd image (program_image flasher bench image loader running new_facts)
program_image-ImageEnd_example =
    program_image-ImageEnd flasher bench image loader running new_facts
      record { unmodified_flash = refl; none_confirmed = refl; none_submitted = refl }
