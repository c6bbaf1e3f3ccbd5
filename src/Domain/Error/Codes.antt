-- ===== src/Domain/Error/Codes.antt =====
-- crates/jlink-domain/src/error.rs: the wire spelling of the error codes, which tells them apart.
use Prim.Native.String.{String}
use package.text.Mathlib.Text.{◌==◌ as str_eq}
use jlink_mcp_v.Base.{◌≡◌, refl, Option, some, List, [], ◌∷◌, find}
use jlink_mcp_v.Domain.Error.{
  ErrorCode, invalid_request_id, unknown_protocol_version, invalid_state_transition,
  worker_unavailable, execution_uncertain, invalid_response, config_invalid, operation_conflict,
  dll_not_found, dll_architecture_mismatch, dll_version_mismatch, dll_hash_mismatch,
  ipc_protocol_error, probe_busy, dll_load_failed, dll_export_missing, target_connect_failed,
  target_recovery_failed, value_invalid, firmware_identity_unknown, firmware_elf_mismatch,
  symbol_not_found, symbol_ambiguous, type_unsupported, dynamic_location_unsupported,
  slice_required, address_out_of_range, flash_range_invalid, register_not_found, verify_failed,
  frame_invalid, hss_unsupported, hss_start_failed, capture_key_conflict, cursor_invalid,
  cursor_expired,
}

-- ErrorCode::as_str
unfoldable pub code_name : ErrorCode → String
code_name invalid_request_id = "INVALID_REQUEST_ID"
code_name unknown_protocol_version = "UNKNOWN_PROTOCOL_VERSION"
code_name invalid_state_transition = "INVALID_STATE_TRANSITION"
code_name worker_unavailable = "WORKER_UNAVAILABLE"
code_name execution_uncertain = "EXECUTION_UNCERTAIN"
code_name invalid_response = "INVALID_RESPONSE"
code_name config_invalid = "CONFIG_INVALID"
code_name operation_conflict = "OPERATION_CONFLICT"
code_name dll_not_found = "DLL_NOT_FOUND"
code_name dll_architecture_mismatch = "DLL_ARCHITECTURE_MISMATCH"
code_name dll_version_mismatch = "DLL_VERSION_MISMATCH"
code_name dll_hash_mismatch = "DLL_HASH_MISMATCH"
code_name ipc_protocol_error = "IPC_PROTOCOL_ERROR"
code_name probe_busy = "PROBE_BUSY"
code_name dll_load_failed = "DLL_LOAD_FAILED"
code_name dll_export_missing = "DLL_EXPORT_MISSING"
code_name target_connect_failed = "TARGET_CONNECT_FAILED"
code_name target_recovery_failed = "TARGET_RECOVERY_FAILED"
code_name value_invalid = "VALUE_INVALID"
code_name firmware_identity_unknown = "FIRMWARE_IDENTITY_UNKNOWN"
code_name firmware_elf_mismatch = "FIRMWARE_ELF_MISMATCH"
code_name symbol_not_found = "SYMBOL_NOT_FOUND"
code_name symbol_ambiguous = "SYMBOL_AMBIGUOUS"
code_name type_unsupported = "TYPE_UNSUPPORTED"
code_name dynamic_location_unsupported = "DYNAMIC_LOCATION_UNSUPPORTED"
code_name slice_required = "SLICE_REQUIRED"
code_name address_out_of_range = "ADDRESS_OUT_OF_RANGE"
code_name flash_range_invalid = "FLASH_RANGE_INVALID"
code_name register_not_found = "REGISTER_NOT_FOUND"
code_name verify_failed = "VERIFY_FAILED"
code_name frame_invalid = "FRAME_INVALID"
code_name hss_unsupported = "HSS_UNSUPPORTED"
code_name hss_start_failed = "HSS_START_FAILED"
code_name capture_key_conflict = "CAPTURE_KEY_CONFLICT"
code_name cursor_invalid = "CURSOR_INVALID"
code_name cursor_expired = "CURSOR_EXPIRED"

abbrev all_codes : List ErrorCode
all_codes =
    invalid_request_id ∷ unknown_protocol_version ∷ invalid_state_transition ∷ worker_unavailable
    ∷ execution_uncertain ∷ invalid_response ∷ config_invalid ∷ operation_conflict ∷ dll_not_found
    ∷ dll_architecture_mismatch ∷ dll_version_mismatch ∷ dll_hash_mismatch ∷ ipc_protocol_error
    ∷ probe_busy ∷ dll_load_failed ∷ dll_export_missing ∷ target_connect_failed
    ∷ target_recovery_failed ∷ value_invalid ∷ firmware_identity_unknown ∷ firmware_elf_mismatch
    ∷ symbol_not_found ∷ symbol_ambiguous ∷ type_unsupported ∷ dynamic_location_unsupported
    ∷ slice_required ∷ address_out_of_range ∷ flash_range_invalid ∷ register_not_found
    ∷ verify_failed ∷ frame_invalid ∷ hss_unsupported ∷ hss_start_failed ∷ capture_key_conflict
    ∷ cursor_invalid ∷ cursor_expired ∷ []

-- The code of a spelling.
code_of : String → Option ErrorCode
code_of text = find (λ c. str_eq (code_name c) text) all_codes

code_of-code_name : (c : ErrorCode) → code_of (code_name c) ≡ some c
unfolding code_of code_name
code_of-code_name invalid_request_id = refl
code_of-code_name unknown_protocol_version = refl
code_of-code_name invalid_state_transition = refl
code_of-code_name worker_unavailable = refl
code_of-code_name execution_uncertain = refl
code_of-code_name invalid_response = refl
code_of-code_name config_invalid = refl
code_of-code_name operation_conflict = refl
code_of-code_name dll_not_found = refl
code_of-code_name dll_architecture_mismatch = refl
code_of-code_name dll_version_mismatch = refl
code_of-code_name dll_hash_mismatch = refl
code_of-code_name ipc_protocol_error = refl
code_of-code_name probe_busy = refl
code_of-code_name dll_load_failed = refl
code_of-code_name dll_export_missing = refl
code_of-code_name target_connect_failed = refl
code_of-code_name target_recovery_failed = refl
code_of-code_name value_invalid = refl
code_of-code_name firmware_identity_unknown = refl
code_of-code_name firmware_elf_mismatch = refl
code_of-code_name symbol_not_found = refl
code_of-code_name symbol_ambiguous = refl
code_of-code_name type_unsupported = refl
code_of-code_name dynamic_location_unsupported = refl
code_of-code_name slice_required = refl
code_of-code_name address_out_of_range = refl
code_of-code_name flash_range_invalid = refl
code_of-code_name register_not_found = refl
code_of-code_name verify_failed = refl
code_of-code_name frame_invalid = refl
code_of-code_name hss_unsupported = refl
code_of-code_name hss_start_failed = refl
code_of-code_name capture_key_conflict = refl
code_of-code_name cursor_invalid = refl
code_of-code_name cursor_expired = refl

-- Two codes that are spelt alike are the same.
pub code_name-injective : (c d : ErrorCode) → code_name c ≡ code_name d → c ≡ d
code_name-injective c d h = cc (code_of-code_name c, code_of-code_name d)
