-- ===== src/Domain/Hss/Registry.antt =====
-- hss.rs: HssStartRegistry, the captures that the keys of requests name.
pub mod Idempotent
mod Tests
use jlink_mcp_v.Base.{
  ℕ, ◌+◌, Bool, true, false, not, ◌&&◌, List, [], ◌∷◌, ◌++◌, Option, none, some, if◌then◌else◌,
  ◌==◌, eq, nat_equal, list_equal, option_equal, Equal, equal_by, ◌⊗◌, ◌≡◌, refl, take,
}
use jlink_mcp_v.Base.Decimal.{to_decimal}
use jlink_mcp_v.Base.Text.{as_bytes}
use jlink_mcp_v.Domain.Error.{
  JlinkError, new, with_detail, nums, Result, ok, err, ◌>>=◌, ◌>>◌, ok_or, ensure, config_invalid,
  capture_key_conflict,
}
use jlink_mcp_v.Domain.Session.{TargetConnectionSpec, validate_spec}
use jlink_mcp_v.Domain.TypedValue.Scalar.{Floats}
use jlink_mcp_v.Domain.Hss.Rule.Numbers.{FloatOrder}
use jlink_mcp_v.Domain.Hss.Plan.{value_error}
use jlink_mcp_v.Domain.Hss.Plan.Start.{HssEncoding, HssStartPlan}
use jlink_mcp_v.Domain.Hss.Plan.Check.{validate_start_plan}

pub record HssCaptureReservation : Type 0 where
  pub capture_id : List ℕ
  pub request_fingerprint : List ℕ
  pub target_fingerprint : List ℕ

instance abbrev pub reservation_equal : Equal HssCaptureReservation
reservation_equal =
    equal_by (list_equal ⊗ list_equal ⊗ list_equal)
      (λ r. (r.capture_id, (r.request_fingerprint, r.target_fingerprint)))
      (λ (c, (r, t)). record { capture_id = c; request_fingerprint = r; target_fingerprint = t })
      (λ r. refl)

pub data HssReservationOutcome : Type 0 where
  created existing : HssCaptureReservation → HssReservationOutcome

-- A BTreeMap as a list of its keys and values, of which only `get`, `insert` and `remove` are used.
abbrev pub HssStartRegistry : Type 0
HssStartRegistry = List (List ℕ × HssCaptureReservation)

unfoldable pub lookup : List ℕ → HssStartRegistry → Option HssCaptureReservation
lookup key [] = none
lookup key ((other, r) ∷ registry) = if eq key other then some r else lookup key registry

unfoldable pub remove : List ℕ → HssStartRegistry → HssStartRegistry
remove key [] = []
remove key ((other, r) ∷ registry) =
    let rest = remove key registry in if eq key other then rest else (other, r) ∷ rest

unfoldable pub insert : List ℕ → HssCaptureReservation → HssStartRegistry → HssStartRegistry
unfolding remove
insert key r registry = (key, r) ∷ remove key registry

-- HssStartRegistry::capture_id_for_key
unfoldable pub capture_id_for_key : HssStartRegistry → List ℕ → Option (List ℕ)
unfolding lookup
capture_id_for_key registry key = elim (lookup key registry) [
  | none ↦ none
  | some r ↦ some r.capture_id
]

-- `cap_`
abbrev capture_prefix : List ℕ
capture_prefix = b'c' ∷ b'a' ∷ b'p' ∷ b'_' ∷ []

abbrev pub conflict : HssCaptureReservation → List ℕ → List ℕ → JlinkError
conflict r requested target =
    with_detail
      (with_detail
        (with_detail
          (with_detail
            (with_detail (new capture_key_conflict false) "capture_id" (nums r.capture_id))
            "original_request_fingerprint" (nums r.request_fingerprint))
          "requested_request_fingerprint" (nums requested))
        "original_target_fingerprint" (nums r.target_fingerprint))
      "requested_target_fingerprint" (nums target)

-- `target_json` is what serde_json writes of a target.
module _ (fl : Floats) (order : FloatOrder fl) (encoding : HssEncoding fl order)
    (target_json : TargetConnectionSpec → Option (List ℕ)) where
  unfoldable pub capture_id : List ℕ → List ℕ → HssStartPlan fl order → List ℕ
  unfolding as_bytes
  capture_id probe_identity target_print plan =
      let text =
        as_bytes probe_identity
        ++ (0
            ∷ (as_bytes target_print
                ++ (0 ∷ (as_bytes plan.capture_key ++ (0 ∷ as_bytes plan.request_fingerprint))))) in
      capture_prefix ++ take 24 (encoding.sha256 text)

  unfoldable pub target_fingerprint : TargetConnectionSpec → Result (List ℕ)
  target_fingerprint target = do
    text ← ok_or (target_json target) value_error
    ok (encoding.sha256 text)

  -- The checks before the map is read.
  unfoldable pub admitted : List ℕ → TargetConnectionSpec → HssStartPlan fl order → Result (List ℕ)
  unfolding validate_start_plan validate_spec target_fingerprint
  admitted probe_identity target plan = do
    validate_start_plan fl order encoding plan
    validate_spec target
    ensure (eq probe_identity (to_decimal target.probe_serial)) (new config_invalid false)
    target_fingerprint target

  abbrev pub reservation_of : List ℕ → List ℕ → HssStartPlan fl order → HssCaptureReservation
  reservation_of probe_identity target_print plan = record {
    capture_id = capture_id probe_identity target_print plan;
    request_fingerprint = plan.request_fingerprint;
    target_fingerprint = target_print;
  }

  -- What is in the map under the key decides.
  unfoldable pub decide :
      List ℕ
      → List ℕ
      → HssStartPlan fl order
      → HssStartRegistry
      → Option HssCaptureReservation
      → HssStartRegistry × Result HssReservationOutcome
  unfolding capture_id insert
  decide probe_identity target_print plan registry (some r) =
      if eq r.request_fingerprint plan.request_fingerprint && eq r.target_fingerprint target_print
      then (registry, ok (existing r))
      else (registry, err (conflict r plan.request_fingerprint target_print))
  decide probe_identity target_print plan registry none =
      let r = reservation_of probe_identity target_print plan in
      (insert plan.capture_key r registry, ok (created r))

  unfoldable pub reserve_with :
      List ℕ
      → HssStartPlan fl order
      → HssStartRegistry
      → Result (List ℕ)
      → HssStartRegistry × Result HssReservationOutcome
  unfolding decide lookup
  reserve_with probe_identity plan registry (err e) = (registry, err e)
  reserve_with probe_identity plan registry (ok target_print) =
      decide probe_identity target_print plan registry (lookup plan.capture_key registry)

  -- HssStartRegistry::reserve
  unfoldable pub reserve :
      List ℕ
      → TargetConnectionSpec
      → HssStartPlan fl order
      → HssStartRegistry
      → HssStartRegistry × Result HssReservationOutcome
  unfolding admitted reserve_with
  reserve probe_identity target plan registry =
      reserve_with probe_identity plan registry (admitted probe_identity target plan)

  -- HssStartRegistry::rollback_created
  unfoldable pub rollback_created :
      HssStartPlan fl order → HssCaptureReservation → HssStartRegistry → HssStartRegistry
  unfolding lookup remove
  rollback_created plan r registry =
      if eq (lookup plan.capture_key registry) (some r)
      then remove plan.capture_key registry
      else registry
