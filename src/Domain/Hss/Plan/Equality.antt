-- ===== src/Domain/Hss/Plan/Equality.antt =====
-- hss.rs and dwarf.rs: the derived `PartialEq` of a start plan.
use jlink_mcp_v.Base.{
  ◌≡◌, refl, Bool, true, false, not, ◌&&◌, List, [], ◌∷◌, Option, none, some, ◌==◌, ==_refl, eq,
  eq_refl, Equal, equal_by, ◌⊗◌, nat_equal, list_equal, option_equal,
}
use jlink_mcp_v.Domain.Dwarf.{
  AccessLayout, pointer, structure, union, Members, no_members, member, ScalarEncoding, signed,
  unsigned, boolean, other, BitRange, AccessPlan,
}
use jlink_mcp_v.Domain.Dwarf
use jlink_mcp_v.Domain.Memory.{MemoryRegion, kind_eq, MemoryRegionKind, flash, ram, mmio}
use jlink_mcp_v.Domain.Identity.{plan_equal}
use jlink_mcp_v.Domain.Selector.Execution.{selector_equal}
use jlink_mcp_v.Domain.TypedValue.Scalar.{Floats}
use jlink_mcp_v.Domain.Hss.Frame.{HssFrameLayout}
use jlink_mcp_v.Domain.Hss.Rule.{
  abs_delta_gte, outside, equals, crosses, HssCrossingDirection, up, down, either, Rule,
}
use jlink_mcp_v.Domain.Hss.Rule.Numbers.{FloatOrder, Number, int}
use jlink_mcp_v.Domain.Hss.Rule.Numbers
use jlink_mcp_v.Domain.Hss.Rule.Matching.{value_eq, int_eq}
use jlink_mcp_v.Domain.Hss.Plan.{
  HssRawEndianness, little, big, type_name, HssRawSelector, HssVariableEvidence, dwarf_evidence,
  raw_address, HssVariablePlan,
}
use jlink_mcp_v.Domain.Hss.Plan.Start.{HssStartPlan, HssReturnWhen, on_started, on_completed}

instance abbrev pub bit_range_equal : Equal BitRange
bit_range_equal =
    equal_by (nat_equal ⊗ nat_equal) (λ r. (r.lsb, r.width))
      (λ (a, b). record { lsb = a; width = b }) (λ r. refl)

instance abbrev pub frame_equal : Equal HssFrameLayout
frame_equal =
    equal_by (nat_equal ⊗ nat_equal) (λ f. (f.sample_bytes, f.record_bytes))
      (λ (a, b). record { sample_bytes = a; record_bytes = b }) (λ f. refl)

abbrev bool_eq : Bool → Bool → Bool
bool_eq true b = b
bool_eq false b = not b

abbrev endianness_eq : HssRawEndianness → HssRawEndianness → Bool
endianness_eq little little = true
endianness_eq big big = true
endianness_eq _ _ = false

abbrev region_eq : MemoryRegion → MemoryRegion → Bool
region_eq a b = a.address == b.address && (a.length == b.length && kind_eq a.kind b.kind)

abbrev when_eq : HssReturnWhen → HssReturnWhen → Bool
when_eq on_started on_started = true
when_eq on_completed on_completed = true
when_eq _ _ = false

abbrev direction_eq : HssCrossingDirection → HssCrossingDirection → Bool
direction_eq up up = true
direction_eq down down = true
direction_eq either either = true
direction_eq _ _ = false

unfoldable encoding_eq : ScalarEncoding → ScalarEncoding → Bool
encoding_eq signed signed = true
encoding_eq unsigned unsigned = true
encoding_eq boolean boolean = true
encoding_eq Dwarf.float Dwarf.float = true
encoding_eq other other = true
encoding_eq _ _ = false

unfoldable mutual
  unfolding encoding_eq

  pub layout_eq : AccessLayout → AccessLayout → Bool
  layout_eq (Dwarf.scalar m s e) (Dwarf.scalar n t f) = eq m n && (s == t && encoding_eq e f)
  layout_eq (pointer s) (pointer t) = s == t
  layout_eq (structure s ms) (structure t ns) = s == t && members_eq ms ns
  layout_eq (union s ms) (union t ns) = s == t && members_eq ms ns
  layout_eq (Dwarf.array a m) (Dwarf.array b n) = layout_eq a b && eq m n
  layout_eq _ _ = false

  pub members_eq : Members → Members → Bool
  members_eq no_members no_members = true
  members_eq (member m o s b w l ms) (member n p t c v k ns) =
      eq m n && (o == p && (eq s t && (eq b c && (eq w v && (layout_eq l k && members_eq ms ns)))))
  members_eq _ _ = false

unfoldable pub access_plan_eq : AccessPlan → AccessPlan → Bool
unfolding layout_eq
access_plan_eq a b =
    eq a.elf_sha256 b.elf_sha256
    && (a.parser_format_version == b.parser_format_version
        && (eq a.selector b.selector
            && (a.address == b.address
                && (a.plan_byte_size == b.plan_byte_size
                    && (eq a.bit_range b.bit_range
                        && (bool_eq a.is_volatile b.is_volatile && layout_eq a.layout b.layout))))))

unfoldable pub raw_selector_eq : HssRawSelector → HssRawSelector → Bool
unfolding type_name
raw_selector_eq a b =
    a.address == b.address
    && (eq (type_name a.value_type) (type_name b.value_type)
        && (a.length == b.length
            && (endianness_eq a.endianness b.endianness
                && (region_eq a.allowed_region b.allowed_region && eq a.series b.series))))

abbrev option_plan_eq : Option AccessPlan → Option AccessPlan → Bool
option_plan_eq none none = true
option_plan_eq (some a) (some b) = access_plan_eq a b
option_plan_eq _ _ = false

abbrev evidence_eq : HssVariableEvidence → HssVariableEvidence → Bool
evidence_eq dwarf_evidence dwarf_evidence = true
evidence_eq (raw_address a) (raw_address b) = raw_selector_eq a b
evidence_eq _ _ = false

unfoldable pub variable_eq : HssVariablePlan → HssVariablePlan → Bool
unfolding access_plan_eq raw_selector_eq
variable_eq a b =
    option_plan_eq a.plan b.plan
    && (evidence_eq a.evidence b.evidence && a.sample_offset == b.sample_offset)

unfoldable pub variables_eq : List HssVariablePlan → List HssVariablePlan → Bool
unfolding variable_eq
variables_eq [] [] = true
variables_eq (a ∷ as_) (b ∷ bs) = variable_eq a b && variables_eq as_ bs
variables_eq _ _ = false

module _ (fl : Floats) (order : FloatOrder fl) where
  abbrev number_eq : Number fl.F64 → Number fl.F64 → Bool
  number_eq (int a) (int b) = int_eq a b
  number_eq (Numbers.float a) (Numbers.float b) = order.same a b
  number_eq _ _ = false

  unfoldable pub rule_eq : Rule fl order → Rule fl order → Bool
  unfolding value_eq
  rule_eq (abs_delta_gte i p v) (abs_delta_gte j q w) = eq i j && (eq p q && value_eq fl order v w)
  rule_eq (outside i p a b) (outside j q c d) =
      eq i j && (eq p q && (number_eq a c && number_eq b d))
  rule_eq (equals i p v) (equals j q w) = eq i j && (eq p q && value_eq fl order v w)
  rule_eq (crosses i p v d) (crosses j q w e) =
      eq i j && (eq p q && (value_eq fl order v w && direction_eq d e))
  rule_eq _ _ = false

  unfoldable pub rules_eq : List (Rule fl order) → List (Rule fl order) → Bool
  unfolding rule_eq
  rules_eq [] [] = true
  rules_eq (a ∷ as_) (b ∷ bs) = rule_eq a b && rules_eq as_ bs
  rules_eq _ _ = false

  unfoldable pub start_plan_eq : HssStartPlan fl order → HssStartPlan fl order → Bool
  unfolding variables_eq rules_eq
  start_plan_eq a b =
      a.format_version == b.format_version
      && (eq a.capture_key b.capture_key
          && (a.duration_s == b.duration_s
              && (a.rate_hz == b.rate_hz
                  && (when_eq a.return_when b.return_when
                      && (variables_eq a.variables b.variables
                          && (rules_eq a.rules b.rules
                              && (eq a.firmware b.firmware
                                  && (eq a.frame_layout b.frame_layout
                                      && eq a.request_fingerprint b.request_fingerprint))))))))

encoding_eq_refl : (e : ScalarEncoding) → encoding_eq e e ≡ true
unfolding encoding_eq
encoding_eq_refl signed = refl
encoding_eq_refl unsigned = refl
encoding_eq_refl boolean = refl
encoding_eq_refl Dwarf.float = refl
encoding_eq_refl other = refl

-- Each of these tests accepts a plan and itself, its rules apart.
mutual
  unfolding layout_eq

  layout_eq_refl : (l : AccessLayout) → layout_eq l l ≡ true
  layout_eq_refl (Dwarf.scalar n s e) = rw (eq_refl n, ==_refl s) (encoding_eq_refl e)
  layout_eq_refl (pointer s) = ==_refl s
  layout_eq_refl (structure s ms) = rw (==_refl s) (members_eq_refl ms)
  layout_eq_refl (union s ms) = rw (==_refl s) (members_eq_refl ms)
  layout_eq_refl (Dwarf.array a n) = rw (layout_eq_refl a) (eq_refl n)

  members_eq_refl : (ms : Members) → members_eq ms ms ≡ true
  members_eq_refl no_members = refl
  members_eq_refl (member n o s b w l ms) =
      rw (eq_refl n, ==_refl o, eq_refl s, eq_refl b, eq_refl w, layout_eq_refl l)
        (members_eq_refl ms)

bool_eq_refl : (b : Bool) → bool_eq b b ≡ true
bool_eq_refl true = refl
bool_eq_refl false = refl

access_plan_eq_refl : (a : AccessPlan) → access_plan_eq a a ≡ true
unfolding access_plan_eq
access_plan_eq_refl a =
    rw
      (
        eq_refl a.elf_sha256,
        ==_refl a.parser_format_version,
        eq_refl a.selector,
        ==_refl a.address,
        ==_refl a.plan_byte_size,
        eq_refl a.bit_range,
        bool_eq_refl a.is_volatile,
      )
      (layout_eq_refl a.layout)

endianness_eq_refl : (e : HssRawEndianness) → endianness_eq e e ≡ true
endianness_eq_refl little = refl
endianness_eq_refl big = refl

kind_eq_refl : (k : MemoryRegionKind) → kind_eq k k ≡ true
kind_eq_refl flash = refl
kind_eq_refl ram = refl
kind_eq_refl mmio = refl

raw_selector_eq_refl : (s : HssRawSelector) → raw_selector_eq s s ≡ true
unfolding raw_selector_eq
raw_selector_eq_refl s =
    rw
      (
        ==_refl s.address,
        eq_refl (type_name s.value_type),
        ==_refl s.length,
        endianness_eq_refl s.endianness,
        ==_refl s.allowed_region.address,
        ==_refl s.allowed_region.length,
        kind_eq_refl s.allowed_region.kind,
      )
      (eq_refl s.series)

option_plan_eq_refl : (o : Option AccessPlan) → option_plan_eq o o ≡ true
option_plan_eq_refl none = refl
option_plan_eq_refl (some a) = access_plan_eq_refl a

evidence_eq_refl : (e : HssVariableEvidence) → evidence_eq e e ≡ true
evidence_eq_refl dwarf_evidence = refl
evidence_eq_refl (raw_address s) = raw_selector_eq_refl s

variables_eq_refl : (vs : List HssVariablePlan) → variables_eq vs vs ≡ true
unfolding variables_eq variable_eq
variables_eq_refl [] = refl
variables_eq_refl (v ∷ vs) =
    rw (option_plan_eq_refl v.plan, evidence_eq_refl v.evidence, ==_refl v.sample_offset)
      (variables_eq_refl vs)

when_eq_refl : (w : HssReturnWhen) → when_eq w w ≡ true
when_eq_refl on_started = refl
when_eq_refl on_completed = refl

-- Rules hold floats, whose `==` is that of the language.
pub start_plan_eq_refl :
    (fl : Floats) (order : FloatOrder fl) (a : HssStartPlan fl order)
    → rules_eq fl order a.rules a.rules ≡ true
    → start_plan_eq fl order a a ≡ true
unfolding start_plan_eq
start_plan_eq_refl fl order a h =
    rw
      (
        ==_refl a.format_version,
        eq_refl a.capture_key,
        ==_refl a.duration_s,
        ==_refl a.rate_hz,
        when_eq_refl a.return_when,
        variables_eq_refl a.variables,
        h,
        eq_refl a.firmware,
        eq_refl a.frame_layout,
      )
      (eq_refl a.request_fingerprint)
