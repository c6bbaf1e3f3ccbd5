-- ===== src/Domain/Session.antt =====
-- crates/jlink-domain/src/session.rs and TargetInterface of state.rs: the target that a session
-- connects to, what a validation reports, and the recoveries that are reported.
use Prim.Native.String.{String}
use jlink_mcp_v.Base.{
  ◌≡◌, ℕ, Bool, true, false, not, ◌||◌, Option, List, [], ◌∷◌, map, filter, zero, suc, refl, ◌==◌,
  length, all, Equal, equal_by, eq, nat_equal, list_equal, option_equal, ◌⊗◌, is_some_and,
}
use jlink_mcp_v.Base.Text.{
  trim, to_ascii_lowercase, is_ascii_alphanumeric, is_ascii_hexdigit, starts_with, contains_text,
}
use jlink_mcp_v.Domain.Error.{
  JlinkError, new, Result, ok, ◌>>=◌, ◌>>◌, ensure, ok_or, config_invalid, operation_conflict,
}
use jlink_mcp_v.Domain.State.{TargetState}

pub data TargetInterface : Type 0 where
  swd jtag : TargetInterface

abbrev pub interface_code : TargetInterface → ℕ
interface_code swd = 0
interface_code jtag = 1

abbrev pub interface_of : ℕ → TargetInterface
interface_of zero = swd
interface_of (suc n) = jtag

pub interface_faithful : (i : TargetInterface) → interface_of (interface_code i) ≡ i
interface_faithful swd = refl
interface_faithful jtag = refl

pub record TargetConnectionSpec : Type 0 where
  pub device : List ℕ
  pub interface : TargetInterface
  pub speed_khz : ℕ
  pub probe_serial : ℕ
  pub elf_sha256 : Option (List ℕ)

instance abbrev pub interface_equal : Equal TargetInterface
interface_equal = equal_by nat_equal interface_code interface_of interface_faithful

instance abbrev pub spec_equal : Equal TargetConnectionSpec
spec_equal =
    equal_by (list_equal ⊗ interface_equal ⊗ nat_equal ⊗ nat_equal ⊗ option_equal)
      (λ s. (s.device, (s.interface, (s.speed_khz, (s.probe_serial, s.elf_sha256)))))
      (λ (d, (i, (k, (p, e)))). record {
        device = d;
        interface = i;
        speed_khz = k;
        probe_serial = p;
        elf_sha256 = e;
      })
      (λ s. refl)

abbrev config_error : JlinkError
config_error = new config_invalid false

abbrev arm : List ℕ
arm = b'a' ∷ b'r' ∷ b'm' ∷ []

abbrev cortexm : List ℕ
cortexm = b'c' ∷ b'o' ∷ b'r' ∷ b't' ∷ b'e' ∷ b'x' ∷ b'm' ∷ []

abbrev armcortexm : List ℕ
armcortexm = b'a' ∷ b'r' ∷ b'm' ∷ cortexm

abbrev generic : List ℕ
generic = b'g' ∷ b'e' ∷ b'n' ∷ b'e' ∷ b'r' ∷ b'i' ∷ b'c' ∷ []

abbrev generic_cortex : List ℕ
generic_cortex =
    b'g' ∷ b'e' ∷ b'n' ∷ b'e' ∷ b'r' ∷ b'i' ∷ b'c' ∷ b' ' ∷ b'c' ∷ b'o' ∷ b'r' ∷ b't' ∷ b'e' ∷ b'x'
    ∷ []

abbrev normalized : List ℕ → List ℕ
normalized device = map to_ascii_lowercase (trim device)

abbrev compact : List ℕ → List ℕ
compact device = filter is_ascii_alphanumeric (normalized device)

-- The name tells no device.
unfoldable pub is_generic : List ℕ → Bool
is_generic device =
    length (normalized device) == 0
    || eq (compact device) arm
    || starts_with cortexm (compact device)
    || starts_with armcortexm (compact device)
    || eq (compact device) generic
    || contains_text generic_cortex (normalized device)

abbrev pub is_bad_digest : List ℕ → Bool
is_bad_digest digest = not (length digest == 64) || not (all is_ascii_hexdigit digest)

-- TargetConnectionSpec::validate
unfoldable pub validate_spec : TargetConnectionSpec → Result (Unit {0})
unfolding is_generic
validate_spec spec = do
  ensure (not (is_generic spec.device)) config_error
  ensure (not (spec.speed_khz == 0)) config_error
  ensure (not (is_some_and spec.elf_sha256 is_bad_digest)) config_error

-- TargetConnectionSpec::new
unfoldable pub new_spec :
    List ℕ → TargetInterface → ℕ → Option ℕ → Option (List ℕ) → Result TargetConnectionSpec
unfolding validate_spec
new_spec device interface speed_khz probe_serial elf_sha256 = do
  serial ← ok_or probe_serial config_error
  let value : TargetConnectionSpec = record {
    device = device;
    interface = interface;
    speed_khz = speed_khz;
    probe_serial = serial;
    elf_sha256 = elf_sha256;
  }
  validate_spec value
  ok value

pub data ValidationInvalidation : Type 0 where
  connection_lost worker_exited flash_modified dll_changed elf_changed : ValidationInvalidation
  target_configuration_changed : ValidationInvalidation

pub data RecoveryAction : Type 0 where
  resume reset run_after_reset : RecoveryAction

pub data RecoveryNotification : Type 0 where
  resumed_from_halt reset_after_fault : RecoveryNotification

pub data ValidationAfter : Type 0 where
  run halt : ValidationAfter

pub record FaultDiagnostics : Type 0 where
  pub pc : Option ℕ
  pub ipsr : Option ℕ
  pub cfsr : Option ℕ
  pub hfsr : Option ℕ
  pub dfsr : Option ℕ
  pub unavailable : List String

pub data ValidationCheckKind : Type 0 where
  dll_identity required_exports probe_identity target_identity : ValidationCheckKind
  interface_check background_access hss_capability : ValidationCheckKind

pub data ValidationCheckEvidence : Type 0 where
  executed reused : ValidationCheckEvidence

-- The recommendation and the detail are text for people.
pub record ValidationCheck : Type 0 where
  pub kind : ValidationCheckKind
  pub passed : Bool
  pub evidence : ValidationCheckEvidence

pub record ValidationReport : Type 0 where
  pub valid : Bool
  pub checks : List ValidationCheck
  pub target_state : TargetState
  pub target_id : Option ℕ
  pub validation_runs : ℕ
  pub recovery_notifications : List RecoveryNotification

unfoldable pub ensure_disconnect_allowed : Bool → Result (Unit {0})
ensure_disconnect_allowed hss_active = ensure (not hss_active) (new operation_conflict true)
