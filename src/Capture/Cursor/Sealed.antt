-- ===== src/Capture/Cursor/Sealed.antt =====
-- crates/jlink-capture/src/cursor.rs: what decode_cursor accepts.
use jlink_mcp_v.Base.{
  ℕ, ◌+◌, ◌*◌, ◌/◌, ◌%◌, ◌<◌, ◌≡◌, ◌≢◌, refl, ap, ap₂, subst, ◌∙◌, sym, Bool, true, false, not,
  ◌||◌, List, [], ◌∷◌, ◌++◌, Option, some, none, ◌==◌, length, arith, eq, eq→≡, nat_equal,
  list_equal, if◌then◌else◌,
}
use jlink_mcp_v.Domain.Error.{JlinkError, ok, ensure, ok_or, bind-eq-ok, ensure-eq-ok}
use jlink_mcp_v.Domain.Json.{Value}
use jlink_mcp_v.Capture.Cursor.{
  CursorPayload, cursor_prefix, cursor_digest, cursor_text, is_bound, decode_nibble, decode_pairs,
  decode_parts, decode_split, decode_cursor, split, push_char, dot, invalid_cursor, encode_hex,
  hex_digit, decode_hex,
}

hex_digit-decode_nibble : (c v : ℕ) → decode_nibble c ≡ ok v → (v < 16) × (hex_digit v ≡ c)
unfolding decode_nibble
hex_digit-decode_nibble c v h = ground arith

encode_hex-pair :
    (c d high low : ℕ) (more rest : List ℕ)
    → (high < 16) × (hex_digit high ≡ c)
    → (low < 16) × (hex_digit low ≡ d)
    → encode_hex more ≡ rest
    → encode_hex ((high * 16 + low) ∷ more) ≡ c ∷ d ∷ rest
unfolding encode_hex
encode_hex-pair c d high low more rest h l e =
    let upper : (high * 16 + low) / 16 ≡ high = ground arith in
    let lower : (high * 16 + low) % 16 ≡ low = ground arith in
    ap₂ (λ x xs. x ∷ xs) (ap hex_digit upper ∙ h.1)
      (ap₂ (λ x xs. x ∷ xs) (ap hex_digit lower ∙ l.1) e)

encode_hex-decode_pairs :
    (text bytes : List ℕ)
    → length text % 2 ≡ 0
    → decode_pairs text ≡ ok bytes
    → encode_hex bytes ≡ text
unfolding decode_pairs encode_hex
encode_hex-decode_pairs [] bytes even h =
    let nothing : [] ≡ bytes = cc in sym (ap encode_hex nothing)
encode_hex-decode_pairs (c ∷ []) bytes even h = ground arith
encode_hex-decode_pairs (c ∷ d ∷ rest) bytes even h =
    let (high, first, h₁) = bind-eq-ok _ (decode_nibble c) h in
    let (low, second, h₂) = bind-eq-ok _ (decode_nibble d) h₁ in
    let (more, others, last) = bind-eq-ok _ (decode_pairs rest) h₂ in
    let same : ((high * 16 + low) ∷ more) ≡ bytes = cc in
    let later = encode_hex-decode_pairs rest more (ground arith) others in
    sym (ap encode_hex same)
    ∙ encode_hex-pair c d high low more rest (hex_digit-decode_nibble c high first)
        (hex_digit-decode_nibble d low second) later

join : List (List ℕ) → List ℕ
join [] = []
join (w ∷ []) = w
join (w ∷ v ∷ ws) = w ++ (dot ∷ join (v ∷ ws))

join-push_char : (c : ℕ) (ws : List (List ℕ)) → join (push_char c ws) ≡ c ∷ join ws
unfolding join
join-push_char c [] = refl
join-push_char c (w ∷ []) = refl
join-push_char c (w ∷ v ∷ ws) = refl

join-empty : (ws : List (List ℕ)) → ws ≢ [] → join ([] ∷ ws) ≡ dot ∷ join ws
unfolding join
join-empty [] h = ground arith
join-empty (w ∷ ws) h = refl

-- What `split` puts before the words that follow a character.
choose : Bool → ℕ → List (List ℕ) → List (List ℕ)
choose b c words = if b then [] ∷ words else push_char c words

choose-nonempty : (b : Bool) (c : ℕ) (ws : List (List ℕ)) → choose b c ws ≢ []
unfolding choose
choose-nonempty true c ws = λ e. cc
choose-nonempty false c [] = λ e. cc
choose-nonempty false c (w ∷ ws) = λ e. cc

split-nonempty : (c : List ℕ) → split c ≢ []
unfolding split choose
split-nonempty [] = λ e. cc
split-nonempty (c ∷ cs) = choose-nonempty (c == dot) c (split cs)

join-choose :
    (b : Bool) (c : ℕ) (ws : List (List ℕ))
    → c == dot ≡ b
    → ws ≢ []
    → join (choose b c ws) ≡ c ∷ join ws
unfolding choose
join-choose true c ws e h = join-empty ws h ∙ ap (λ d. d ∷ join ws) (ground arith)
join-choose false c ws e h = join-push_char c ws

-- Joining the parts of a text with dots gives the text.
join-split : (c : List ℕ) → join (split c) ≡ c
unfolding split choose join
join-split [] = refl
join-split (c ∷ cs) =
    join-choose (c == dot) c (split cs) refl (split-nonempty cs) ∙ ap (λ t. c ∷ t) (join-split cs)

even_of : (n : ℕ) → not (n == 0 || not (n % 2 == 0)) ≡ true → n % 2 ≡ 0
even_of n h = ground arith

encode_hex-decode_hex : (text bytes : List ℕ) → decode_hex text ≡ ok bytes → encode_hex bytes ≡ text
unfolding decode_hex
encode_hex-decode_hex text bytes h =
    let (_, sized, read) = bind-eq-ok _ (ensure _ invalid_cursor) h in
    let even = ensure-eq-ok _ invalid_cursor sized in
    encode_hex-decode_pairs text bytes (even_of _ even) read

ok_or-eq-ok : {A : Type 0} (o : Option A) (e : JlinkError) {a : A} → ok_or o e ≡ ok a → o ≡ some a
ok_or-eq-ok none e h = cc
ok_or-eq-ok (some a) e h = cc

-- What an accepted payload was read from: the parts, and the tests it passed.
module _ {S : Type 0} (to_vec : CursorPayload (Value S) → Option (List ℕ))
    (from_slice : List ℕ → Option (CursorPayload (Value S))) (sha256 : List ℕ → List ℕ) where
  abbrev IsSealed : CursorPayload (Value S) → List ℕ → List ℕ → Type 0
  IsSealed p bytes digest =
      (digest ≡ cursor_digest sha256 bytes p.snapshot_sha256)
      × (from_slice bytes ≡ some p)
      × (is_bound p ≡ true)

  decode_parts-IsSealed :
      (p : CursorPayload (Value S)) (payload_hex digest_hex : List ℕ)
      → decode_parts to_vec from_slice sha256 payload_hex digest_hex ≡ ok p
      → (bytes : List ℕ) × (digest : List ℕ) × (encode_hex bytes ≡ payload_hex)
        × (encode_hex digest ≡ digest_hex)
        × IsSealed p bytes digest
  unfolding decode_parts
  decode_parts-IsSealed p payload_hex digest_hex h =
      let (bytes, first, h₁) = bind-eq-ok _ (decode_hex payload_hex) h in
      let (digest, second, h₂) = bind-eq-ok _ (decode_hex digest_hex) h₁ in
      let (q, read, h₃) = bind-eq-ok _ (ok_or (from_slice bytes) invalid_cursor) h₂ in
      let (_, bound, h₄) = bind-eq-ok _ (ensure (is_bound q) invalid_cursor) h₃ in
      let (_, matched, h₅) =
        bind-eq-ok _
          (ensure (eq digest (cursor_digest sha256 bytes q.snapshot_sha256)) invalid_cursor) h₄ in
      let same : q ≡ p = cc in
      (
        bytes,
        digest,
        encode_hex-decode_hex payload_hex bytes first,
        encode_hex-decode_hex digest_hex digest second,
        subst (λ r. IsSealed r bytes digest) same
            (
              eq→≡ _ _ (ensure-eq-ok _ invalid_cursor matched),
              ok_or-eq-ok (from_slice bytes) invalid_cursor read,
              ensure-eq-ok _ invalid_cursor bound,
            ),
      )

  decode_split-IsSealed :
      (p : CursorPayload (Value S)) (parts : List (List ℕ))
      → decode_split to_vec from_slice sha256 parts ≡ ok p
      → (bytes : List ℕ) × (digest : List ℕ) × (parts
          ≡ cursor_prefix ∷ encode_hex bytes ∷ encode_hex digest ∷ [])
        × IsSealed p bytes digest
  unfolding decode_split
  decode_split-IsSealed p [] h = cc
  decode_split-IsSealed p (_ ∷ []) h = cc
  decode_split-IsSealed p (_ ∷ _ ∷ []) h = cc
  decode_split-IsSealed p (_ ∷ _ ∷ _ ∷ _ ∷ _) h = cc
  decode_split-IsSealed p (prefix ∷ payload_hex ∷ digest_hex ∷ []) h =
      let (_, named, h₁) = bind-eq-ok _ (ensure (eq prefix cursor_prefix) invalid_cursor) h in
      let first : prefix ≡ cursor_prefix = eq→≡ _ _ (ensure-eq-ok _ invalid_cursor named) in
      let (bytes, digest, second, third, sealed) =
        decode_parts-IsSealed p payload_hex digest_hex h₁ in
      (bytes, digest, cc, sealed)

-- Whatever text decode_cursor accepts is the prefix, the hexadecimal form of some bytes and that of
-- the digest of the snapshot's identity and those bytes, joined by dots, in no other spelling; the
-- payload is what serde_json reads from these bytes, and its binding fields are valid.
pub decode_cursor-sealed :
    {S : Type 0} (to_vec : CursorPayload (Value S) → Option (List ℕ))
    (from_slice : List ℕ → Option (CursorPayload (Value S))) (sha256 : List ℕ → List ℕ)
    (cursor : List ℕ) {p : CursorPayload (Value S)}
    → decode_cursor to_vec from_slice sha256 cursor ≡ ok p
    → (bytes : List ℕ) × (cursor ≡ cursor_text bytes (cursor_digest sha256 bytes p.snapshot_sha256))
      × (from_slice bytes ≡ some p)
      × (is_bound p ≡ true)
unfolding decode_cursor join
decode_cursor-sealed to_vec from_slice sha256 cursor {p} h =
    let (bytes, digest, parts, (matched, read, bound)) =
      decode_split-IsSealed to_vec from_slice sha256 p (split cursor) h in
    let text : cursor ≡ cursor_text bytes digest = sym (join-split cursor) ∙ ap join parts in
    (bytes, text ∙ ap (cursor_text bytes) matched, read, bound)
