-- ===== src/Domain/Hss/Rule/Normal.antt =====
-- hss.rs: normalize_hss_rules gives rules that it does not change again.
use jlink_mcp_v.Base.{
  ℕ, ◌≡◌, refl, ap, ◌∙◌, subst, Bool, true, false, not, ◌&&◌, List, [], ◌∷◌, All, nat_equal,
  list_equal, inl, inr, Bool-cases, and-eq-true, arith,
}
use jlink_mcp_v.Base.Text.{is_blank}
use jlink_mcp_v.Domain.Error.{
  JlinkError, new, with_detail, nums, map_err, value_invalid, Result, ok, err, ensure, bind-eq-ok,
  bind-ok, ensure-true,
}
use jlink_mcp_v.Domain.Json.{text_leb}
use jlink_mcp_v.Domain.TypedValue.Scalar.{Floats}
use jlink_mcp_v.Domain.Hss.Rule.Path.{parse_rule_path}
use jlink_mcp_v.Domain.Hss.Rule.Reread.{parse_rule_path-normalized, parse_rule_path-not_blank}
use jlink_mcp_v.Domain.Hss.Rule.Numbers.{FloatOrder, rule_invalid}
use jlink_mcp_v.Domain.Hss.Rule.{
  HssThresholdRule, abs_delta_gte, outside, equals, crosses, rule_id, rule_path, with_path,
  has_rule_value, Rule, validate_threshold, validate_rule, normalize_path, normalize_each,
  insert_rule, sort_rules, find_duplicate, no_duplicate, normalize_hss_rules,
}

text_leb_total : (a b : List ℕ) → text_leb a b ≡ false → text_leb b a ≡ true
unfolding text_leb
text_leb_total [] b h = cc
text_leb_total (x ∷ xs) [] h = refl
text_leb_total (x ∷ xs) (y ∷ ys) h = let rest = text_leb_total xs ys in ground arith

module _ {F : Type 0} (path : List ℕ) where
  rule_id-with_path : (rule : HssThresholdRule F) → rule_id (with_path path rule) ≡ rule_id rule
  rule_id-with_path (abs_delta_gte id p value) = refl
  rule_id-with_path (outside id p min max) = refl
  rule_id-with_path (equals id p value) = refl
  rule_id-with_path (crosses id p value direction) = refl

  rule_path-with_path : (rule : HssThresholdRule F) → rule_path (with_path path rule) ≡ path
  rule_path-with_path (abs_delta_gte id p value) = refl
  rule_path-with_path (outside id p min max) = refl
  rule_path-with_path (equals id p value) = refl
  rule_path-with_path (crosses id p value direction) = refl

  has_rule_value-with_path :
      (rule : HssThresholdRule F) → has_rule_value (with_path path rule) ≡ has_rule_value rule
  has_rule_value-with_path (abs_delta_gte id p value) = refl
  has_rule_value-with_path (outside id p min max) = refl
  has_rule_value-with_path (equals id p value) = refl
  has_rule_value-with_path (crosses id p value direction) = refl

  with_path-with_path :
      (rule : HssThresholdRule F) → with_path path (with_path path rule) ≡ with_path path rule
  with_path-with_path (abs_delta_gte id p value) = refl
  with_path-with_path (outside id p min max) = refl
  with_path-with_path (equals id p value) = refl
  with_path-with_path (crosses id p value direction) = refl

map_err-ok :
    {A : Type 0} (f : JlinkError → JlinkError) {r : Result A} {a : A}
    → r ≡ ok a
    → map_err f r ≡ ok a
map_err-ok f h = ap (map_err f) h

map_err-eq-ok :
    {A : Type 0} (f : JlinkError → JlinkError) (r : Result A) {a : A}
    → map_err f r ≡ ok a
    → r ≡ ok a
map_err-eq-ok f (err e) h = cc
map_err-eq-ok f (ok b) h = h

module _ (fl : Floats) (order : FloatOrder fl) where
  validate_threshold-with_path :
      (path : List ℕ) (rule : Rule fl order)
      → validate_threshold fl order (with_path path rule) ≡ validate_threshold fl order rule
  unfolding validate_threshold
  validate_threshold-with_path path (abs_delta_gte id p value) = refl
  validate_threshold-with_path path (outside id p min max) = refl
  validate_threshold-with_path path (equals id p value) = refl
  validate_threshold-with_path path (crosses id p value direction) = refl

  -- A rule that passes and whose path is in normal form.
  record IsNormal (rule : Rule fl order) : Type 0 where
    passes : validate_rule fl order rule ≡ ok (record {})
    unchanged : normalize_path fl order rule ≡ ok rule

  normalize_path-IsNormal :
      (rule : Rule fl order) {normal : Rule fl order}
      → validate_rule fl order rule ≡ ok (record {})
      → normalize_path fl order rule ≡ ok normal
      → IsNormal normal
  unfolding normalize_path validate_rule
  normalize_path-IsNormal rule {normal} v n =
      let (found, parsed, n₁) = bind-eq-ok _ (parse_rule_path (rule_path rule)) n in
      let e : with_path found.normalized rule ≡ normal = cc in
      let again = parse_rule_path-normalized (rule_path rule) parsed in
      let (_, id_given, v₁) =
        bind-eq-ok _ (ensure (not (is_blank (rule_id rule))) (new value_invalid false)) v in
      let (_, path_given, v₂) =
        bind-eq-ok _ (ensure (not (is_blank (rule_path rule))) (rule_invalid (rule_id rule))) v₁ in
      let (_, _, v₃) =
        bind-eq-ok _
          (map_err (λ e. with_detail e "rule_id" (nums (rule_id rule)))
            (parse_rule_path (rule_path rule)))
          v₂ in
      let (_, valued, v₄) =
        bind-eq-ok _ (ensure (has_rule_value rule) (rule_invalid (rule_id rule))) v₃ in
      let filled : not (is_blank found.normalized) ≡ true =
        rw (parse_rule_path-not_blank found.normalized again) refl in
      subst IsNormal e (record {
        passes =
            rw
              (
                rule_id-with_path found.normalized rule,
                rule_path-with_path found.normalized rule,
                has_rule_value-with_path found.normalized rule,
                validate_threshold-with_path found.normalized rule,
              )
              (bind-ok _ id_given
                ∙ bind-ok _ (ensure-true _ (rule_invalid (rule_id rule)) filled)
                ∙ bind-ok _ (map_err-ok _ again)
                ∙ bind-ok _ valued
                ∙ v₄);
        unchanged =
            rw (rule_path-with_path found.normalized rule)
              (bind-ok _ again ∙ ap ok (with_path-with_path found.normalized rule));
      })

  normalize_each-IsNormal :
      (rules : List (Rule fl order)) {normal : List (Rule fl order)}
      → normalize_each fl order rules ≡ ok normal
      → All IsNormal normal
  unfolding normalize_each
  normalize_each-IsNormal [] {normal} h = let e : [] ≡ normal = cc in subst (All IsNormal) e tt
  normalize_each-IsNormal (rule ∷ rules) {normal} h =
      let (_, valid, h₁) = bind-eq-ok _ (validate_rule fl order rule) h in
      let (first, done, h₂) = bind-eq-ok _ (normalize_path fl order rule) h₁ in
      let (others, later, h₃) = bind-eq-ok _ (normalize_each fl order rules) h₂ in
      let e : first ∷ others ≡ normal = cc in
      subst (All IsNormal) e
        (normalize_path-IsNormal rule valid done, normalize_each-IsNormal rules later)

  normalize_each-normal :
      (rules : List (Rule fl order)) → All IsNormal rules → normalize_each fl order rules ≡ ok rules
  unfolding normalize_each
  normalize_each-normal [] h = refl
  normalize_each-normal (rule ∷ rules) h =
      bind-ok _ h.0.passes ∙ bind-ok _ h.0.unchanged ∙ bind-ok _ (normalize_each-normal rules h.1)

  All-insert :
      (P : Rule fl order → Type 0) (rule : Rule fl order) (rules : List (Rule fl order))
      → P rule
      → All P rules
      → All P (insert_rule fl order rule rules)
  unfolding insert_rule
  All-insert P rule [] h hs = (h, tt)
  All-insert P rule (other ∷ rules) h hs =
      elim (Bool-cases (text_leb (rule_id rule) (rule_id other))) [
        | inl before ↦ rw before (h, hs)
        | inr after ↦ rw after (hs.0, All-insert P rule rules h hs.1)
      ]

  All-sort :
      (P : Rule fl order → Type 0) (rules : List (Rule fl order))
      → All P rules
      → All P (sort_rules fl order rules)
  unfolding sort_rules
  All-sort P [] h = tt
  All-sort P (rule ∷ rules) h =
      All-insert P rule (sort_rules fl order rules) h.0 (All-sort P rules h.1)

  -- No id is before that of the rule in front of it.
  abbrev follows : List ℕ → List (Rule fl order) → Bool
  follows id [] = true
  follows id (rule ∷ rules) = text_leb id (rule_id rule)

  is_sorted : List (Rule fl order) → Bool
  is_sorted [] = true
  is_sorted (rule ∷ rules) = follows (rule_id rule) rules && is_sorted rules

  insert_rule-follows :
      (id : List ℕ) (rule : Rule fl order) (rules : List (Rule fl order))
      → text_leb id (rule_id rule) ≡ true
      → follows id rules ≡ true
      → follows id (insert_rule fl order rule rules) ≡ true
  unfolding insert_rule
  insert_rule-follows id rule [] h f = h
  insert_rule-follows id rule (other ∷ rules) h f =
      elim (Bool-cases (text_leb (rule_id rule) (rule_id other))) [
        | inl before ↦ rw before h
        | inr after ↦ rw after f
      ]

  insert_rule-is_sorted :
      (rule : Rule fl order) (rules : List (Rule fl order))
      → is_sorted rules ≡ true
      → is_sorted (insert_rule fl order rule rules) ≡ true
  unfolding insert_rule is_sorted
  insert_rule-is_sorted rule [] h = refl
  insert_rule-is_sorted rule (other ∷ rules) h =
      elim (Bool-cases (text_leb (rule_id rule) (rule_id other))) [
        | inl before ↦ rw before (rw before h)
        | inr after ↦
            let (here, later) = and-eq-true (follows (rule_id other) rules) (is_sorted rules) h in
            rw after (
              rw
                (insert_rule-follows (rule_id other) rule rules
                  (text_leb_total (rule_id rule) (rule_id other) after) here)
                (insert_rule-is_sorted rule rules later))
      ]

  sort_rules-is_sorted :
      (rules : List (Rule fl order)) → is_sorted (sort_rules fl order rules) ≡ true
  unfolding sort_rules is_sorted
  sort_rules-is_sorted [] = refl
  sort_rules-is_sorted (rule ∷ rules) =
      insert_rule-is_sorted rule (sort_rules fl order rules) (sort_rules-is_sorted rules)

  insert_rule-first :
      (rule : Rule fl order) (rules : List (Rule fl order))
      → follows (rule_id rule) rules ≡ true
      → insert_rule fl order rule rules ≡ rule ∷ rules
  unfolding insert_rule
  insert_rule-first rule [] h = refl
  insert_rule-first rule (other ∷ rules) h = rw h refl

  sort_rules-sorted :
      (rules : List (Rule fl order)) → is_sorted rules ≡ true → sort_rules fl order rules ≡ rules
  unfolding sort_rules is_sorted
  sort_rules-sorted [] h = refl
  sort_rules-sorted (rule ∷ rules) h =
      let (here, later) = and-eq-true (follows (rule_id rule) rules) (is_sorted rules) h in
      rw (sort_rules-sorted rules later) (insert_rule-first rule rules here)

  -- Rules that were normalized are accepted, and come out as they are.
  pub normalize_hss_rules-normal :
      (rules : List (Rule fl order)) {normal : List (Rule fl order)}
      → normalize_hss_rules fl order rules ≡ ok normal
      → normalize_hss_rules fl order normal ≡ ok normal
  unfolding normalize_hss_rules
  normalize_hss_rules-normal rules {normal} h =
      let (each, done, h₁) = bind-eq-ok _ (normalize_each fl order rules) h in
      let sorted = sort_rules fl order each in
      let (_, unique, h₂) =
        bind-eq-ok _ (no_duplicate fl order (find_duplicate fl order sorted)) h₁ in
      let e : sorted ≡ normal = cc in
      let all_normal = All-sort IsNormal each (normalize_each-IsNormal rules done) in
      let still = sort_rules-sorted sorted (sort_rules-is_sorted each) in
      subst (λ rs. normalize_hss_rules fl order rs ≡ ok rs) e
        (bind-ok _ (normalize_each-normal sorted all_normal) ∙ rw still (bind-ok _ unique))
