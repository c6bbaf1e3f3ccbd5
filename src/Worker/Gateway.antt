-- ===== src/Worker/Gateway.antt =====
-- gateway.rs, as the session sees it: the operations of DllGateway on a state G of the DLL, the probe
-- and the target. What they do inside is calls of the J-Link DLL.
use jlink_mcp_v.Base.{ℕ, Option, List}
use jlink_mcp_v.Domain.Error.{Result}
use jlink_mcp_v.Domain.State.{TargetState}
use jlink_mcp_v.Domain.Memory.{DeviceMemoryMap}
use jlink_mcp_v.Domain.Core.{CoreRegister}
use jlink_mcp_v.Domain.Session.{
  TargetConnectionSpec, ValidationCheck, ValidationReport, FaultDiagnostics,
}

pub record TargetObservation : Type 0 where
  pub target_id : ℕ
  pub target_state : TargetState

-- Every call may change G, the ones on `&self` too, since they talk to the probe.
pub record Gateway (G : Type 0) : Type 0 where
  pub open_target : TargetConnectionSpec → G → G × Result TargetObservation
  pub close_target : G → G
  pub validation_report :
      ℕ → Option (List ValidationCheck) → Option ValidationCheck → G → G × ValidationReport
  pub observe_target_state : G → G × Result TargetState
  pub halt_and_observe : G → G × Result TargetState
  pub resume_and_observe : G → G × Result TargetState
  pub reset_run_and_observe : G → G × Result TargetState
  pub reset_halt_and_observe : G → G × Result TargetState
  pub step_and_observe : G → G × Result TargetState
  pub fault_diagnostics : G → G × FaultDiagnostics
  pub device_memory_map : List ℕ → G → G × Result DeviceMemoryMap
  pub read_bytes : ℕ → ℕ → G → G × Result (List ℕ)
  pub write_bytes : ℕ → List ℕ → G → G × Result (Unit {0})
  pub read_register : CoreRegister → G → G × Result ℕ
  pub write_register : CoreRegister → ℕ → G → G × Result (Unit {0})
