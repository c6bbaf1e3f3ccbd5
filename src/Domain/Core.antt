-- ===== src/Domain/Core.antt =====
-- crates/jlink-domain/src/core.rs: Cortex-M registers, their names and the guard on writes.
pub mod Names
mod Tests
use Prim.Native.String.{String}
use package.text.Mathlib.Text.{◌==◌ as str_eq}
use jlink_mcp_v.Base.{Bool, true, false, List, [], ◌∷◌, if◌then◌else◌, find}
use jlink_mcp_v.Domain.Error.{
  new, with_detail, text, flag, Result, ok, err, ok_or, ensure, register_not_found, value_invalid,
}

pub data CoreRegister : Type 0 where
  r0 r1 r2 r3 r4 r5 r6 r7 : CoreRegister
  r8 r9 r10 r11 r12 sp lr pc : CoreRegister
  xpsr msp psp apsr epsr ipsr primask basepri : CoreRegister
  faultmask control : CoreRegister

-- CoreRegister::ALL, in order.
abbrev pub all_registers : List CoreRegister
all_registers =
    r0 ∷ r1 ∷ r2 ∷ r3 ∷ r4 ∷ r5 ∷ r6 ∷ r7 ∷ r8 ∷ r9 ∷ r10 ∷ r11 ∷ r12 ∷ sp ∷ lr ∷ pc ∷ xpsr ∷ msp
    ∷ psp ∷ apsr ∷ epsr ∷ ipsr ∷ primask ∷ basepri ∷ faultmask ∷ control ∷ []

unfoldable pub canonical_name : CoreRegister → String
canonical_name r0 = "R0"
canonical_name r1 = "R1"
canonical_name r2 = "R2"
canonical_name r3 = "R3"
canonical_name r4 = "R4"
canonical_name r5 = "R5"
canonical_name r6 = "R6"
canonical_name r7 = "R7"
canonical_name r8 = "R8"
canonical_name r9 = "R9"
canonical_name r10 = "R10"
canonical_name r11 = "R11"
canonical_name r12 = "R12"
canonical_name sp = "SP"
canonical_name lr = "LR"
canonical_name pc = "PC"
canonical_name xpsr = "XPSR"
canonical_name msp = "MSP"
canonical_name psp = "PSP"
canonical_name apsr = "APSR"
canonical_name epsr = "EPSR"
canonical_name ipsr = "IPSR"
canonical_name primask = "PRIMASK"
canonical_name basepri = "BASEPRI"
canonical_name faultmask = "FAULTMASK"
canonical_name control = "CONTROL"

unfoldable pub jlink_name : CoreRegister → String
unfolding canonical_name
jlink_name sp = "R13 (SP)"
jlink_name lr = "R14"
jlink_name pc = "R15 (PC)"
jlink_name register = canonical_name register

-- `iter().find(|register| register.canonical_name() == name)`
unfoldable find_register : String → List CoreRegister → Result CoreRegister
find_register name registers =
    ok_or (find (λ register. str_eq (canonical_name register) name) registers)
      (with_detail (new register_not_found false) "requested_name" (text name))

unfoldable pub from_canonical : String → Result CoreRegister
unfolding canonical_name find_register
from_canonical name = find_register name all_registers

unfoldable pub is_writable : CoreRegister → Bool
is_writable xpsr = false
is_writable epsr = false
is_writable ipsr = false
is_writable _ = true

unfoldable pub ensure_writable : CoreRegister → Result (Unit {0})
unfolding is_writable
ensure_writable register = ensure (is_writable register) (
    with_detail (with_detail (new value_invalid false) "register" (text (canonical_name register)))
      "writable" (flag false))

-- ControlAfter and ControlRequest
pub data ControlAfter : Type 0 where
  run halt : ControlAfter

pub data ControlRequest : Type 0 where
  halt_core resume step : ControlRequest
  reset : ControlAfter → ControlRequest
