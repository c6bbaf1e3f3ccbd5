-- ===== src/Domain/Core/Names.antt =====
-- Register names are read back as the register that they name.
use Prim.Native.String.{String}
use package.text.Mathlib.Text.{◌==◌ as str_eq}
use package.text.Mathlib.TextEquality.{eq_iff}
use jlink_mcp_v.Base.{
  ◌≡◌, ◌↔◌, inl, inr, refl, some, List, [], ◌∷◌, find, Option-cases, Bool-cases, subst,
}
use jlink_mcp_v.Domain.Error.{ok}
use jlink_mcp_v.Domain.Core.{
  CoreRegister, all_registers, canonical_name, find_register, from_canonical, r0, r1, r2, r3, r4,
  r5, r6, r7, r8, r9, r10, r11, r12, sp, lr, pc, xpsr, msp, psp, apsr, epsr, ipsr, primask, basepri,
  faultmask, control,
}

-- The name alone tells the register, of the 26.
from_canonical-canonical_name : (r : CoreRegister) → from_canonical (canonical_name r) ≡ ok r
unfolding from_canonical
from_canonical-canonical_name r0 = refl
from_canonical-canonical_name r1 = refl
from_canonical-canonical_name r2 = refl
from_canonical-canonical_name r3 = refl
from_canonical-canonical_name r4 = refl
from_canonical-canonical_name r5 = refl
from_canonical-canonical_name r6 = refl
from_canonical-canonical_name r7 = refl
from_canonical-canonical_name r8 = refl
from_canonical-canonical_name r9 = refl
from_canonical-canonical_name r10 = refl
from_canonical-canonical_name r11 = refl
from_canonical-canonical_name r12 = refl
from_canonical-canonical_name sp = refl
from_canonical-canonical_name lr = refl
from_canonical-canonical_name pc = refl
from_canonical-canonical_name xpsr = refl
from_canonical-canonical_name msp = refl
from_canonical-canonical_name psp = refl
from_canonical-canonical_name apsr = refl
from_canonical-canonical_name epsr = refl
from_canonical-canonical_name ipsr = refl
from_canonical-canonical_name primask = refl
from_canonical-canonical_name basepri = refl
from_canonical-canonical_name faultmask = refl
from_canonical-canonical_name control = refl

module _ (name : String) where
  find-named :
      (registers : List CoreRegister) (r : CoreRegister)
      → find (λ t. str_eq (canonical_name t) name) registers ≡ some r
      → canonical_name r ≡ name
  find-named [] r h = cc
  find-named (t ∷ ts) r h = elim (Bool-cases (str_eq (canonical_name t) name)) [
    | inl hit ↦
        let same : t ≡ r = cc (rw hit at h) in
        subst (λ q. canonical_name q ≡ name) same ((eq_iff (canonical_name t) name).0 hit)
    | inr miss ↦ find-named ts r (rw miss at h)
  ]

  find_register_sound :
      (registers : List CoreRegister) (r : CoreRegister)
      → find_register name registers ≡ ok r
      → canonical_name r ≡ name
  unfolding find_register
  find_register_sound registers r h =
      elim (Option-cases (find (λ t. str_eq (canonical_name t) name) registers)) [
        | inl missing ↦ cc (rw missing at h)
        | inr (t, found) ↦
            let same : t ≡ r = cc (rw found at h) in
            subst (λ q. canonical_name q ≡ name) same (find-named registers t found)
      ]

-- A register name is accepted, as the register r, exactly if it is the canonical name of r.
pub from_canonical_iff :
    (name : String) (r : CoreRegister) → (from_canonical name ≡ ok r) ↔ (canonical_name r ≡ name)
unfolding from_canonical
from_canonical_iff name r = (
  (λ h. find_register_sound name all_registers r h),
  λ h. subst (λ t. from_canonical t ≡ ok r) h (from_canonical-canonical_name r),
)
