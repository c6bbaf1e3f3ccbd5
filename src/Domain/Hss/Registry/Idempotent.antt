-- ===== src/Domain/Hss/Registry/Idempotent.antt =====
-- hss.rs: a key names one capture, a request that is sent again gets it, and a failed start leaves nothing.
use jlink_mcp_v.Base.{
  ℕ, Bool, ◌≡◌, ◌≢◌, ◌⊎◌, sym, refl, ap, ◌∙◌, subst, false, ◌&&◌, List, [], ◌∷◌, arith, Option,
  none, some, eq, eq_refl, eq→≡, nat_equal, list_equal, option_equal, inl, inr, Bool-cases,
  and-eq-true,
}
use jlink_mcp_v.Domain.Error.{
  JlinkError, Result, ok, err, ◌>>◌, ensure, new, config_invalid, capture_key_conflict,
}
use jlink_mcp_v.Domain.Session.{TargetConnectionSpec, validate_spec}
use jlink_mcp_v.Domain.TypedValue.Scalar.{Floats}
use jlink_mcp_v.Domain.Hss.Rule.Numbers.{FloatOrder}
use jlink_mcp_v.Domain.Hss.Plan.Start.{HssEncoding, HssStartPlan}
use jlink_mcp_v.Base.Decimal.{to_decimal}
use jlink_mcp_v.Domain.Hss.Plan.Check.{validate_start_plan}
use jlink_mcp_v.Domain.Hss.Registry.{
  HssCaptureReservation, reservation_equal, HssReservationOutcome, created, existing,
  HssStartRegistry, lookup, remove, insert, admitted, reservation_of, decide, target_fingerprint,
  reserve_with, reserve, rollback_created,
}

and-eq-false : (a b : Bool) → (a && b) ≡ false → (a ≡ false) ⊎ (b ≡ false)
and-eq-false a b h = ground arith

then-ok : (r : Result (Unit {0})) (s : Result (List ℕ)) {b : List ℕ} → (r >> s) ≡ ok b → s ≡ ok b
then-ok (ok tt) s h = h
then-ok (err e) s h = cc

lookup-insert :
    (key : List ℕ) (r : HssCaptureReservation) (registry : HssStartRegistry)
    → lookup key (insert key r registry) ≡ some r
unfolding lookup insert
lookup-insert key r registry = rw (eq_refl key) refl

remove-absent :
    (key : List ℕ) (registry : HssStartRegistry)
    → lookup key registry ≡ none
    → remove key registry ≡ registry
unfolding lookup remove
remove-absent key [] h = refl
remove-absent key ((other, r) ∷ registry) h = elim (Bool-cases (eq key other)) [
  | inl hit ↦ let found = rw hit at h in cc
  | inr miss ↦ rw miss (ap (λ rest. (other, r) ∷ rest) (remove-absent key registry (rw miss at h)))
]

remove-insert :
    (key : List ℕ) (r : HssCaptureReservation) (registry : HssStartRegistry)
    → lookup key registry ≡ none
    → remove key (insert key r registry) ≡ registry
unfolding insert remove
remove-insert key r registry h =
    rw (eq_refl key) (ap (remove key) (remove-absent key registry h) ∙ remove-absent key registry h)

lookup-remove_other :
    (key other : List ℕ) (registry : HssStartRegistry)
    → eq other key ≡ false
    → lookup other (remove key registry) ≡ lookup other registry
unfolding lookup remove
lookup-remove_other key other [] apart = refl
lookup-remove_other key other ((name, r) ∷ registry) apart = elim (Bool-cases (eq key name)) [
  | inl hit ↦
      let miss : eq other name ≡ false =
        subst (λ k. eq other k ≡ false) (eq→≡ key name hit) apart in
      rw (hit, miss) (lookup-remove_other key other registry apart)
  | inr kept ↦ rw kept (elim (Bool-cases (eq other name)) [
    | inl same ↦ rw same refl
    | inr apart_too ↦ rw apart_too (lookup-remove_other key other registry apart)
  ])
]

lookup-insert_other :
    (key other : List ℕ) (r : HssCaptureReservation) (registry : HssStartRegistry)
    → eq other key ≡ false
    → lookup other (insert key r registry) ≡ lookup other registry
unfolding lookup insert
lookup-insert_other key other r registry apart =
    rw apart (lookup-remove_other key other registry apart)

module _ (fl : Floats) (order : FloatOrder fl) (encoding : HssEncoding fl order)
    (target_json : TargetConnectionSpec → Option (List ℕ)) (probe_identity : List ℕ)
    (target : TargetConnectionSpec) (plan : HssStartPlan fl order) where
  -- What a reservation makes of a registry, with its answer.
  pub data Reserved (before : HssStartRegistry)
      : HssStartRegistry × Result HssReservationOutcome → Type 0 where
    refused :
        (e : JlinkError)
        → admitted fl order encoding target_json probe_identity target plan ≡ err e
        → Reserved before (before, err e)
    conflicting :
        (e : JlinkError) (r : HssCaptureReservation)
        → lookup plan.capture_key before ≡ some r
        → (r.request_fingerprint ≢ plan.request_fingerprint)
          ⊎ (target_fingerprint fl order encoding target_json target ≢ ok r.target_fingerprint)
        → e.code ≡ capture_key_conflict
        → Reserved before (before, err e)
    known :
        (r : HssCaptureReservation)
        → lookup plan.capture_key before ≡ some r
        → r.request_fingerprint ≡ plan.request_fingerprint
        → target_fingerprint fl order encoding target_json target ≡ ok r.target_fingerprint
        → Reserved before (before, ok (existing r))
    fresh :
        (after : HssStartRegistry) (r : HssCaptureReservation)
        → lookup plan.capture_key before ≡ none
        → lookup plan.capture_key after ≡ some r
        → r.request_fingerprint ≡ plan.request_fingerprint
        → target_fingerprint fl order encoding target_json target ≡ ok r.target_fingerprint
        → ((other : List ℕ)
            → eq other plan.capture_key ≡ false
            → lookup other after ≡ lookup other before)
        → reserve fl order encoding target_json probe_identity target plan after
          ≡ (after, ok (existing r))
        → rollback_created fl order encoding target_json plan r after ≡ before
        → Reserved before (after, ok (created r))

  apart : (a b : List ℕ) → eq a b ≡ false → a ≢ b
  apart a b h p = cc (rw (p, eq_refl b) at h)

  ok-injective : {a b : List ℕ} → ok a ≡ ok b → a ≡ b
  ok-injective h = cc

  admitted-target_fingerprint :
      (print : List ℕ)
      → admitted fl order encoding target_json probe_identity target plan ≡ ok print
      → target_fingerprint fl order encoding target_json target ≡ ok print
  unfolding admitted
  admitted-target_fingerprint print h =
      let answer = target_fingerprint fl order encoding target_json target in
      let probed =
        ensure (eq probe_identity (to_decimal target.probe_serial)) (new config_invalid false) in
      then-ok probed answer (
        then-ok (validate_spec target) (probed >> answer) (
          then-ok (validate_start_plan fl order encoding plan)
            (validate_spec target >> (probed >> answer)) h))

  decided :
      (before : HssStartRegistry) (target_print : List ℕ)
      → admitted fl order encoding target_json probe_identity target plan ≡ ok target_print
      → target_fingerprint fl order encoding target_json target ≡ ok target_print
      → (found : Option HssCaptureReservation) → lookup plan.capture_key before ≡ found
      → Reserved before
          (decide fl order encoding target_json probe_identity target_print plan before found)
  unfolding decide reserve reserve_with rollback_created
  decided before target_print a t (some r) h =
      elim (Bool-cases (
        eq r.request_fingerprint plan.request_fingerprint
        && eq r.target_fingerprint target_print)) [
          | inl same ↦
              let (print, aim) =
                and-eq-true (eq r.request_fingerprint plan.request_fingerprint)
                  (eq r.target_fingerprint target_print) same in
              rw same (
                known r h (eq→≡ r.request_fingerprint plan.request_fingerprint print)
                  (t ∙ ap ok (sym (eq→≡ r.target_fingerprint target_print aim))))
          | inr other ↦ rw other (
              conflicting _ r h
                (elim (and-eq-false (eq r.request_fingerprint plan.request_fingerprint)
                  (eq r.target_fingerprint target_print) other) [
                    | inl print ↦ inl (apart r.request_fingerprint plan.request_fingerprint print)
                    | inr aim ↦ inr (λ p.
                        apart r.target_fingerprint target_print aim (ok-injective (sym p ∙ t)))
                  ])
                refl)
        ]
  decided before target_print a t none h =
      let r = reservation_of fl order encoding target_json probe_identity target_print plan in
      let after = insert plan.capture_key r before in
      let there = lookup-insert plan.capture_key r before in
      fresh after r h there refl t
        (λ other apart. lookup-insert_other plan.capture_key other r before apart)
        (ap (reserve_with fl order encoding target_json probe_identity plan after) a
          ∙ ap (decide fl order encoding target_json probe_identity target_print plan after) there
          ∙ rw (eq_refl plan.request_fingerprint, eq_refl target_print) refl)
        (rw (there, eq_refl r) (remove-insert plan.capture_key r before h))

  reserved_with :
      (before : HssStartRegistry) (answer : Result (List ℕ))
      → admitted fl order encoding target_json probe_identity target plan ≡ answer
      → Reserved before
          (reserve_with fl order encoding target_json probe_identity plan before answer)
  unfolding reserve_with
  reserved_with before (err e) a = refused e a
  reserved_with before (ok target_print) a =
      decided before target_print a (admitted-target_fingerprint target_print a)
        (lookup plan.capture_key before) refl

  -- A reservation fails without a trace, because it is not admitted, or because its key names a capture of
  -- another request or of another target, which is a conflict. Or its key names a capture with the
  -- fingerprints of this very request and this very target, which the caller gets, and nothing changes.
  -- Or the key named none: then it names the new capture, which has these fingerprints, every other key
  -- names what it named, the same reservation finds the new capture, and a rollback restores the
  -- registry.
  pub reserve-Reserved :
      (before : HssStartRegistry)
      → Reserved before (reserve fl order encoding target_json probe_identity target plan before)
  unfolding reserve
  reserve-Reserved before =
      reserved_with before (admitted fl order encoding target_json probe_identity target plan) refl
