-- ===== src/Domain/Hss/Plan/Tests.antt =====
-- hss.rs: a plan of two raw variables.
use jlink_mcp_v.Base.{◌+◌, ◌≤◌, ℕ, ◌≡◌, refl, true, false, List, [], ◌∷◌, none, some, length}
use jlink_mcp_v.Base.Text.{is_blank}
use jlink_mcp_v.Domain.Error.{ok}
use jlink_mcp_v.Domain.Memory.{MemoryRegion, ram}
use jlink_mcp_v.Domain.TypedValue.Tests.{pattern_floats}
use jlink_mcp_v.Domain.Hss.Rule.Numbers.{FloatOrder, cmp_ℕ}
use jlink_mcp_v.Domain.Hss.Plan.{HssRawSelector, u32, i16, little, big, raw, raw_address}
use jlink_mcp_v.Domain.Hss.Plan.Start.{HssEncoding, HssStartPlan, on_started, new_selectors}
use jlink_mcp_v.Domain.Hss.Plan.Equality.{rules_eq}
use jlink_mcp_v.Domain.Hss.Plan.Placed.{IsPacked, new_selectors-IsPacked}
use jlink_mcp_v.Domain.Hss.Plan.Check.{validate_start_plan, validate_start_plan-new_selectors}

abbrev pub pattern_order : FloatOrder pattern_floats
pattern_order = record {
  partial_cmp = λ a b. some (cmp_ℕ a b);
  same = λ a b. true;
  below_zero = λ a. false;
  abs_difference = λ a b. a;
}

-- The JSON of an input stands for its variables' number, and the digest of a text is the text.
abbrev pub sample_encoding : HssEncoding pattern_floats pattern_order
sample_encoding = record {
  input_json = λ input. some (length input.variables ∷ []);
  legacy_json = λ input. none;
  sha256 = λ text. text;
}

abbrev region : MemoryRegion
region = record { address = 536870912; length = 4096; kind = ram }

abbrev raw_word : HssRawSelector
raw_word = record {
  address = 536870912;
  value_type = u32;
  length = 4;
  endianness = little;
  allowed_region = region;
  series =
      b'r' ∷ b'a' ∷ b'w' ∷ b'_' ∷ b'2' ∷ b'0' ∷ b'0' ∷ b'0' ∷ b'0' ∷ b'0' ∷ b'0' ∷ b'0' ∷ b'_'
      ∷ b'u' ∷ b'3' ∷ b'2' ∷ [];
}

abbrev raw_half : HssRawSelector
raw_half = record {
  address = 536870920;
  value_type = i16;
  length = 2;
  endianness = big;
  allowed_region = region;
  series =
      b'r' ∷ b'a' ∷ b'w' ∷ b'_' ∷ b'2' ∷ b'0' ∷ b'0' ∷ b'0' ∷ b'0' ∷ b'0' ∷ b'0' ∷ b'8' ∷ b'_'
      ∷ b'i' ∷ b'1' ∷ b'6' ∷ [];
}

abbrev key : List ℕ
key = b'k' ∷ []

abbrev pub two_raw : HssStartPlan pattern_floats pattern_order
two_raw = record {
  format_version = 2;
  capture_key = key;
  duration_s = 1;
  rate_hz = 100;
  return_when = on_started;
  variables =
      record { plan = none; evidence = raw_address raw_word; sample_offset = 0 }
      ∷ record { plan = none; evidence = raw_address raw_half; sample_offset = 4 }
      ∷ [];
  rules = [];
  firmware = none;
  frame_layout = record { sample_bytes = 6; record_bytes = 10 };
  request_fingerprint = 2 ∷ [];
}

two_raw_made :
    new_selectors pattern_floats pattern_order sample_encoding key 1 100 on_started
      (raw raw_word ∷ raw raw_half ∷ [])
      []
      none
    ≡ ok two_raw
unfolding new_selectors is_blank
two_raw_made = refl

two_raw_example :
    validate_start_plan pattern_floats pattern_order sample_encoding two_raw ≡ ok (record {})
unfolding rules_eq
two_raw_example =
    validate_start_plan-new_selectors pattern_floats pattern_order sample_encoding key 1 100
      on_started (raw raw_word ∷ raw raw_half ∷ []) [] none two_raw two_raw_made refl

two_raw-IsPacked :
    IsPacked 0 two_raw.variables two_raw.frame_layout.sample_bytes
    × (two_raw.frame_layout.sample_bytes ≤ 40)
    × (two_raw.frame_layout.record_bytes ≡ 4 + two_raw.frame_layout.sample_bytes)
two_raw-IsPacked =
    new_selectors-IsPacked pattern_floats pattern_order sample_encoding key 1 100 on_started
      (raw raw_word ∷ raw raw_half ∷ []) [] none two_raw two_raw_made
