-- ===== src/Domain/Error.antt =====
-- crates/jlink-domain/src/error.rs: error codes, the error value, and fallible results.
mod Codes
use jlink_mcp_v.Base.{ℕ, Bool, ◌≡◌, refl, ap, Option, none, some, List, [], ◌∷◌, if◌then◌else◌}
use Prim.Native.String.{String, compare}
use package.text.Mathlib.Text.{is_eq, is_lt}

pub data ErrorCode : Type 0 where
  invalid_request_id unknown_protocol_version invalid_state_transition : ErrorCode
  worker_unavailable execution_uncertain invalid_response config_invalid : ErrorCode
  operation_conflict dll_not_found dll_architecture_mismatch dll_version_mismatch : ErrorCode
  dll_hash_mismatch ipc_protocol_error probe_busy dll_load_failed dll_export_missing : ErrorCode
  target_connect_failed target_recovery_failed value_invalid : ErrorCode
  firmware_identity_unknown firmware_elf_mismatch symbol_not_found symbol_ambiguous : ErrorCode
  type_unsupported dynamic_location_unsupported slice_required address_out_of_range : ErrorCode
  flash_range_invalid register_not_found verify_failed frame_invalid hss_unsupported : ErrorCode
  hss_start_failed capture_key_conflict cursor_invalid cursor_expired : ErrorCode

-- The JSON values that the modelled code attaches to an error: `registers` are fault diagnostics,
-- `rates` is an HssRateAssessment with its tests `reused` and `accepted` around its numbers, and
-- `failure` is another error, of which the code stands for its text.
pub data Detail : Type 0 where
  num : ℕ → Detail
  text : String → Detail
  flag : Bool → Detail
  nums : List ℕ → Detail
  texts : List String → Detail
  registers : List (Option ℕ) → List String → Detail
  failure : ErrorCode → Detail
  null : Detail
  ranges : List (ℕ × ℕ) → Detail
  rates : Bool → List ℕ → Bool → Detail

-- A BTreeMap of details: its entries by their keys, in the order of their bytes.
abbrev pub Details : Type 0
Details = List (String × Detail)

-- BTreeMap::insert, which replaces the value of a key that is there.
abbrev pub insert_detail : String → Detail → Details → Details
insert_detail key value [] = (key, value) ∷ []
insert_detail key value ((other, old) ∷ details) =
    let rest = insert_detail key value details in
    let order = compare key other in
    if is_eq order
    then (other, value) ∷ details
    else if is_lt order
    then (key, value) ∷ (other, old) ∷ details
    else (other, old) ∷ rest

-- The message, text for people, is left out.
pub record JlinkError : Type 0 where
  pub code : ErrorCode
  pub retryable : Bool
  pub details : Details

abbrev pub new : ErrorCode → Bool → JlinkError
new code retryable = record { code = code; retryable = retryable; details = [] }

abbrev pub with_detail : JlinkError → String → Detail → JlinkError
with_detail e key value = record e { details = insert_detail key value e.details }

pub data Result {ℓ} (A : Type ℓ) : Type ℓ where
  ok : A → Result A
  err : JlinkError → Result A

-- The `?` operator.
infixl 5 ◌>>=◌ ◌>>◌
abbrev pub ◌>>=◌ {ℓ κ} : {A : Type ℓ} {B : Type κ} → Result A → (A → Result B) → Result B
◌>>=◌ (err e) k = err e
◌>>=◌ (ok a) k = k a

abbrev pub ◌>>◌ {ℓ κ} : {A : Type ℓ} {B : Type κ} → Result A → Result B → Result B
◌>>◌ r s = r >>= λ _. s

-- `if !test { return Err(error) }`
abbrev pub ensure : Bool → JlinkError → Result (Unit {0})
ensure Bool.true e = ok tt
ensure Bool.false e = err e

-- `option.ok_or(error)?`
abbrev pub ok_or {ℓ} : {A : Type ℓ} → Option A → JlinkError → Result A
ok_or none e = err e
ok_or (some a) e = ok a

-- `map_err`
abbrev pub map_err {ℓ} : {A : Type ℓ} → (JlinkError → JlinkError) → Result A → Result A
map_err f (err e) = err (f e)
map_err f (ok a) = ok a

abbrev pub HasCode : ErrorCode → {A : Type 0} → Result A → Type 0
HasCode c (ok a) = ⊥
HasCode c (err e) = e.code ≡ c

-- What a chain that succeeded did first.
module _ {ℓ κ} {A : Type ℓ} {B : Type κ} (k : A → Result B) {b : B} where
  pub bind-eq-ok : (r : Result A) → (r >>= k) ≡ ok b → (a : A) × (r ≡ ok a) × (k a ≡ ok b)
  bind-eq-ok (err e) failed = cc
  bind-eq-ok (ok a) rest = (a, refl, rest)

pub ensure-eq-ok : (b : Bool) (e : JlinkError) {u : Unit {0}} → ensure b e ≡ ok u → b ≡ Bool.true
ensure-eq-ok Bool.true e h = refl
ensure-eq-ok Bool.false e h = cc

-- A chain goes on from a first part that succeeded.
pub bind-ok {ℓ κ} :
    {A : Type ℓ} {B : Type κ} (k : A → Result B) {r : Result A} {a : A} → r ≡ ok a → (r >>= k) ≡ k a
bind-ok k e = ap (λ r. r >>= k) e

pub ensure-true : (b : Bool) (e : JlinkError) → b ≡ Bool.true → ensure b e ≡ ok (record {})
ensure-true b e h = ap (λ b. ensure b e) h

pub ok-injective {ℓ} : {A : Type ℓ} {a b : A} → ok a ≡ ok b → a ≡ b
ok-injective h = cc
