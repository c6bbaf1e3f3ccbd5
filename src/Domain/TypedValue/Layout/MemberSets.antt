-- ===== src/Domain/TypedValue/Layout/MemberSets.antt =====
-- crates/jlink-domain/src/typed_value.rs: the object that a structure decodes to has its members.
use jlink_mcp_v.Base.{
  ℕ, ◌+◌, ◌≡◌, refl, ap, ◌∙◌, sym, subst, true, false, List, Option, none, length, eq, eq_refl,
  eq→≡, nat_equal, list_equal, Bool-cases, inl, inr, ==_iff, arith,
}
use jlink_mcp_v.Domain.Error.{ok, bind-eq-ok, bind-ok, ensure-true}
use jlink_mcp_v.Domain.Json.{
  Value, Fields, end, field, get, insert, count_fields, get-insert_self, get-insert_other,
  count-insert_new,
}
use jlink_mcp_v.Domain.Dwarf.{Members, no_members, member, AccessLayout}
use jlink_mcp_v.Domain.TypedValue.Numbers.{Scalar}
use jlink_mcp_v.Domain.TypedValue.Scalar.{Floats, JsonValue}
use jlink_mcp_v.Domain.TypedValue.Layout.{
  has_member, find_extra, find_missing, count_members, member_bounds, member_path, slice,
  validate_member_set, none_found,
}
use jlink_mcp_v.Domain.TypedValue.Layout.Decode.{decode_layout, decode_members}

-- No two members have one name.
abbrev pub AreDistinct : Members → Type 0
AreDistinct no_members = Unit
AreDistinct (member name offset storage bit_offset bits layout rest) =
    (has_member name rest ≡ false) × AreDistinct rest

eq-false_sym : (a b : List ℕ) → eq a b ≡ false → eq b a ≡ false
eq-false_sym a b h = elim (Bool-cases (eq b a)) [
  | inl hit ↦
      let same = eq→≡ b a hit in
      let r = eq_refl a in let again : eq a a ≡ false = subst (λ x. eq a x ≡ false) same h in cc
  | inr miss ↦ miss
]

module _ {S : Type 0} where
  find_extra-insert :
      (name : List ℕ) (v : Value S) (fields : Fields S) (known : Members)
      → has_member name known ≡ true
      → find_extra fields known ≡ none
      → find_extra (insert name v fields) known ≡ none
  unfolding find_extra insert
  find_extra-insert name v end known h e = rw h refl
  find_extra-insert name v (field other w rest) known h e =
      ground (arith, find_extra-insert name v rest known h)

module _ (fl : Floats) (bytes path : List ℕ) where
  -- A step of decode_members.
  first_decoded :
      (name : List ℕ) (offset : ℕ) (storage bit_offset bits : Option ℕ) (layout : AccessLayout)
      (rest : Members) (fields final : Fields (Scalar fl.F64))
      → decode_members fl (member name offset storage bit_offset bits layout rest) bytes path fields
        ≡ ok final
      → (v : JsonValue fl) × (decode_members fl rest bytes path (insert name v fields) ≡ ok final)
  unfolding decode_members
  first_decoded name offset storage bit_offset bits layout rest fields final h =
      let ((start, stop, mb), _, h₁) =
        bind-eq-ok _
          (member_bounds offset storage bit_offset bits layout (length bytes)
            (member_path path name))
          h in
      let (v, _, h₂) =
        bind-eq-ok _ (decode_layout fl layout (slice start stop bytes) mb (member_path path name))
          h₁ in
      (v, h₂)

  pub get-decode_members :
      (ms : Members) (name : List ℕ) (fields final : Fields (Scalar fl.F64))
      → has_member name ms ≡ false
      → decode_members fl ms bytes path fields ≡ ok final
      → get name final ≡ get name fields
  unfolding has_member decode_members
  get-decode_members no_members name fields final h e =
      let same : fields ≡ final = cc in ap (get name) (sym same)
  get-decode_members (member other offset storage bit_offset bits layout rest) name fields final h
        e =
      let (v, later) =
        first_decoded other offset storage bit_offset bits layout rest fields final e in
      get-decode_members rest name (insert other v fields) final (ground arith) later
      ∙ get-insert_other name other v fields (eq-false_sym other name (ground arith))

  pub count-decode_members :
      (ms : Members) (fields final : Fields (Scalar fl.F64))
      → AreDistinct ms
      → ((name : List ℕ) → has_member name ms ≡ true → get name fields ≡ none)
      → decode_members fl ms bytes path fields ≡ ok final
      → count_fields final ≡ count_fields fields + count_members ms
  unfolding has_member decode_members
  count-decode_members no_members fields final d fresh e =
      let same : fields ≡ final = cc in omega (arith, ap count_fields same)
  count-decode_members (member other offset storage bit_offset bits layout rest) fields final d
        fresh e =
      let (v, later) =
        first_decoded other offset storage bit_offset bits layout rest fields final e in
      let one_more = count-insert_new other v fields (fresh other (rw (eq_refl other) refl)) in
      let fresh_rest = λ (name : List ℕ) (h : has_member name rest ≡ true).
        let apart : eq name other ≡ false = elim (Bool-cases (eq name other)) [
          | inl hit ↦
              let same = eq→≡ name other hit in
              let again : has_member other rest ≡ true =
                subst (λ n. has_member n rest ≡ true) same h in
              cc (d.0)
          | inr miss ↦ miss
        ] in
        get-insert_other name other v fields apart ∙ fresh name (ground arith) in
      omega (
        arith,
        one_more,
        count-decode_members rest (insert other v fields) final d.1 fresh_rest later,
      )

  pub find_extra-decode_members :
      (ms : Members) (fields final : Fields (Scalar fl.F64)) (known : Members)
      → ((name : List ℕ) → has_member name ms ≡ true → has_member name known ≡ true)
      → find_extra fields known ≡ none
      → decode_members fl ms bytes path fields ≡ ok final
      → find_extra final known ≡ none
  unfolding has_member decode_members
  find_extra-decode_members no_members fields final known within none_extra e =
      let same : fields ≡ final = cc in subst (λ f. find_extra f known ≡ none) same none_extra
  find_extra-decode_members (member other offset storage bit_offset bits layout rest) fields final
        known within none_extra e =
      let (v, later) =
        first_decoded other offset storage bit_offset bits layout rest fields final e in
      let here = within other (rw (eq_refl other) refl) in
      find_extra-decode_members rest (insert other v fields) final known
        (λ name h. within name (ground arith))
        (find_extra-insert other v fields known here none_extra) later

  pub find_missing-decode_members :
      (ms : Members) (fields final : Fields (Scalar fl.F64))
      → AreDistinct ms
      → decode_members fl ms bytes path fields ≡ ok final
      → find_missing ms final ≡ none
  unfolding find_missing decode_members
  find_missing-decode_members no_members fields final d e = refl
  find_missing-decode_members (member other offset storage bit_offset bits layout rest) fields final
        d e =
      let (v, later) =
        first_decoded other offset storage bit_offset bits layout rest fields final e in
      let found =
        get-decode_members rest other (insert other v fields) final d.0 later
        ∙ get-insert_self other v fields in
      let others = find_missing-decode_members rest (insert other v fields) final d.1 later in
      ground arith

  pub validate_member_set-decode_members :
      (ms : Members) (final : Fields (Scalar fl.F64))
      → AreDistinct ms
      → decode_members fl ms bytes path end ≡ ok final
      → validate_member_set final ms path ≡ ok (record {})
  unfolding validate_member_set get find_extra
  validate_member_set-decode_members ms final d e =
      let count : count_fields final ≡ count_members ms =
        omega (arith, count-decode_members ms end final d (λ name h. refl) e) in
      let extra = find_extra-decode_members ms end final ms (λ name h. h) refl e in
      let missing = find_missing-decode_members ms end final d e in
      bind-ok _ (ensure-true _ _ ((==_iff _ _).1 count))
      ∙ bind-ok _ (ap (λ name. none_found name path) extra)
      ∙ ap (λ name. none_found name path) missing
