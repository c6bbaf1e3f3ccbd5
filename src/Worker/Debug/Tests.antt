-- ===== src/Worker/Debug/Tests.antt =====
-- debug.rs: a raw write to the RAM of a target that is connected.
use jlink_mcp_v.Base.{ℕ, ◌≡◌, refl, some, List, [], ◌∷◌}
use jlink_mcp_v.Domain.Error.{ok}
use jlink_mcp_v.Domain.State.{TargetState, running, connected}
use jlink_mcp_v.Domain.Memory.{ram, checked_end, validate_range}
use jlink_mcp_v.Domain.Memory.Write.{verify_memory_readback}
use jlink_mcp_v.Domain.Memory.Request.{DebugRequest, write_memory, readback, written}
use jlink_mcp_v.Domain.TypedValue.Bits.Storage.{length-to_le_bytes}
use jlink_mcp_v.Domain.TypedValue.Scalar.Length.{HasWidths}
use jlink_mcp_v.Domain.TypedValue.Tests.{pattern_floats}
use jlink_mcp_v.Worker.Gateway.{Gateway}
use jlink_mcp_v.Worker.Manager.{TargetSessionManager, new_manager}
use jlink_mcp_v.Worker.Session.Tests.{bench, board}
use jlink_mcp_v.Worker.Debug.Execute.{execute_debug}
use jlink_mcp_v.Worker.Debug.Traced.{traced}
use jlink_mcp_v.Worker.Debug.Permitted.{DebugEnd, execute_debug-DebugEnd}

abbrev two_bytes : List ℕ
two_bytes = 1 ∷ 2 ∷ []

-- It has RAM alone, and reads back what the test writes.
abbrev ram_bench : Gateway TargetState
ram_bench = record bench {
  device_memory_map = λ device g.
      (g, ok (record { regions = record { address = 0; length = 65536; kind = ram } ∷ [] }));
  read_bytes = λ address size g. (g, ok two_bytes);
}

abbrev digest : List ℕ → List ℕ
digest bytes = bytes

abbrev attached : TargetSessionManager
attached = record (new_manager []) {
  connection_state = connected;
  target_state = running;
  active_target = some board;
}

abbrev poke : DebugRequest ℕ
poke = write_memory 16 two_bytes readback

pattern_floats-HasWidths : HasWidths pattern_floats
pattern_floats-HasWidths = record { four = length-to_le_bytes 4; eight = length-to_le_bytes 8 }

execute_debug_example :
    DebugEnd pattern_floats ram_bench board poke attached running []
      (execute_debug pattern_floats (traced ram_bench) digest board poke (attached, (running, [])))
execute_debug_example =
    execute_debug-DebugEnd pattern_floats ram_bench board pattern_floats-HasWidths [] digest poke
      attached running

poke_written :
    execute_debug pattern_floats (traced ram_bench) digest board poke (attached, (running, []))
    ≡ ((attached, (running, (16, two_bytes) ∷ [])), ok written)
unfolding execute_debug checked_end new_manager validate_range verify_memory_readback
poke_written = refl
