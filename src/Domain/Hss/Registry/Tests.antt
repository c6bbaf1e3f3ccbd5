-- ===== src/Domain/Hss/Registry/Tests.antt =====
-- hss.rs: a reservation for a plan of two raw variables.
use jlink_mcp_v.Base.{ℕ, ◌≡◌, refl, List, [], ◌∷◌, Option, none, some}
use jlink_mcp_v.Base.Text.{
  is_blank, is_ascii_alphanumeric, to_ascii_lowercase, starts_with, contains_text,
}
use jlink_mcp_v.Domain.Error.{ok}
use jlink_mcp_v.Domain.Session.{TargetConnectionSpec, swd}
use jlink_mcp_v.Domain.TypedValue.Tests.{pattern_floats}
use jlink_mcp_v.Domain.Hss.Plan.Tests.{pattern_order, sample_encoding, two_raw}
use jlink_mcp_v.Domain.Hss.Registry.{created, reservation_of, reserve}
use jlink_mcp_v.Domain.Hss.Registry.Idempotent.{Reserved, reserve-Reserved}

abbrev stm32 : TargetConnectionSpec
stm32 = record {
  device = b'S' ∷ b'T' ∷ b'M' ∷ b'3' ∷ b'2' ∷ b'F' ∷ b'4' ∷ [];
  interface = swd;
  speed_khz = 4000;
  probe_serial = 77;
  elf_sha256 = none;
}

-- The JSON of a target stands for its device.
abbrev device_json : TargetConnectionSpec → Option (List ℕ)
device_json target = some target.device

abbrev serial : List ℕ
serial = b'7' ∷ b'7' ∷ []

reserve_example :
    Reserved pattern_floats pattern_order sample_encoding device_json serial stm32 two_raw []
      (reserve pattern_floats pattern_order sample_encoding device_json serial stm32 two_raw [])
reserve_example =
    reserve-Reserved pattern_floats pattern_order sample_encoding device_json serial stm32 two_raw
      []

first_reservation :
    reserve pattern_floats pattern_order sample_encoding device_json serial stm32 two_raw [] ≡ (
      (
        two_raw.capture_key,
        reservation_of pattern_floats pattern_order sample_encoding device_json serial stm32.device
            two_raw,
      )
          ∷ [],
      ok (
          created (
            reservation_of pattern_floats pattern_order sample_encoding device_json serial
              stm32.device two_raw)),
    )
unfolding reserve is_blank is_ascii_alphanumeric to_ascii_lowercase starts_with contains_text
first_reservation = refl
