-- ===== src/Domain/Identity/Names.antt =====
-- The names of segments and of new entities determine what they identify.
use mathlib.Core.Path.{subst}
use reflection.Common.{
  ℕ, zero, suc, ◌+◌, ◌/◌, ◌%◌, ◌≡◌, ◌≢◌, refl, sym, [], ◌∷◌, ◌++◌, arith, All, All-append,
  All-right, Bool-cases, ltb, inl, inr,
}
use reflection.Common.{Option, none, some, ◌∙◌, ap}
use reflection.Common.Result.{ok, ok-injective}
use reflection.Common.Text.{Text, utf16}
use reflection.Domain.Frame.{digits, decimal, utf8_bytes, utf8_frame}
use reflection.Domain.Frame.Decoding.{utf8_frame_prefix}
use reflection.Domain.Identity.{
  SourceBoundary, whole_turns, exact, Request, segment_name, Claim, mention_text, mention_of,
  new_mention_name,
}
use reflection.Domain.Identity.Injective.{cancel, framed-end}

-- The text has no NUL, as every text that PostgreSQL stores.
abbrev pub NoNul : Text → Type 0
NoNul = All (λ c. c ≢ 0)

digits-NoNul : (fuel n : ℕ) (rest : Text) → NoNul rest → NoNul (digits fuel n rest)
unfolding digits
digits-NoNul zero n rest h = h
digits-NoNul (suc fuel) n rest h = elim (Bool-cases (ltb n 10)) [
  | inl small ↦ rw small ((omega arith), h)
  | inr big ↦ rw big (digits-NoNul fuel (n / 10) ((48 + n % 10) ∷ rest) ((omega arith), h))
]

utf8_frame-NoNul : (v : Text) → NoNul v → NoNul (utf8_frame v)
unfolding utf8_frame decimal
utf8_frame-NoNul v h =
    All-append (λ c. c ≢ 0) (digits (suc (utf8_bytes v)) (utf8_bytes v) []) (58 ∷ v)
      (digits-NoNul (suc (utf8_bytes v)) (utf8_bytes v) [] tt) ((omega arith), h)

-- At the first NUL a text comes apart in one way.
split_at_nul :
    (v w xs ys : Text) → NoNul v → NoNul w → v ++ (0 ∷ xs) ≡ w ++ (0 ∷ ys) → (v ≡ w) × (xs ≡ ys)
split_at_nul [] [] xs ys h k e = (refl, ground arith)
split_at_nul [] (c ∷ w) xs ys h (k, _) e = absurd (k (ground arith))
split_at_nul (c ∷ v) [] xs ys (h, _) k e = absurd (h (ground arith))
split_at_nul (c ∷ v) (d ∷ w) xs ys (_, h) (_, k) e =
    let (p, q) = split_at_nul v w xs ys h k (ground arith) in
    let same : c ≡ d = ground arith in (cc (p, same), q)

-- The start of the source that a request names: its boundary version and start message.
abbrev pub SameStart : Request → SourceBoundary → Request → SourceBoundary → Type 0
SameStart a whole_turns b whole_turns = a.start_user_message_id ≡ b.start_user_message_id
SameStart a (exact s _) b (exact t _) = s ≡ t
SameStart a _ b _ = ⊥

abbrev pub HasNoNul : Request → SourceBoundary → Type 0
HasNoNul r whole_turns = NoNul r.session_id
HasNoNul r (exact start end) = NoNul r.session_id × NoNul start

exact-NoNul :
    (a : Request) (s t : Text) → NoNul a.session_id × NoNul s → NoNul (segment_name a (exact s t))
exact-NoNul a s t (h, k) =
    All-append (λ c. c ≢ 0) (utf16 "reflection-segment-v2:") _ (omega arith)
      (All-append (λ c. c ≢ 0) (utf8_frame a.session_id) (utf8_frame s)
        (utf8_frame-NoNul a.session_id h) (utf8_frame-NoNul s k))

nul_apart :
    (a b : Request) (s t : Text)
    → NoNul b.session_id × NoNul s
    → segment_name a whole_turns ≡ segment_name b (exact s t)
    → ⊥
nul_apart a b s t h e =
    let p = exact-NoNul b s t h in
    let q = subst NoNul (sym e) p in
    (All-right (λ c. c ≢ 0) a.session_id (0 ∷ a.start_user_message_id) q).0 refl

names :
    (a b : Request) (x y : SourceBoundary)
    → HasNoNul a x
    → HasNoNul b y
    → segment_name a x ≡ segment_name b y
    → (a.session_id ≡ b.session_id) × SameStart a x b y
names a b whole_turns whole_turns h k e = split_at_nul a.session_id b.session_id _ _ h k e
names a b (exact s t) (exact u v) h k e =
    let (session, e₁) =
      utf8_frame_prefix a.session_id b.session_id _ _
        (cancel (utf16 "reflection-segment-v2:") _ _ e) in
    (session, framed-end s u e₁)
names a b whole_turns (exact u v) h k e = absurd (nul_apart a b u v k e)
names a b (exact s t) whole_turns h k e = absurd (nul_apart b a s t h (sym e))

-- Where no identifier has a NUL, two requests whose segments have one name are of the same session,
-- boundary version and start: the user message for whole turns, the source message for an exact
-- span.
pub segment_name-injective :
    (a b : Request)
    → HasNoNul a a.boundary
    → HasNoNul b b.boundary
    → segment_name a a.boundary ≡ segment_name b b.boundary
    → (a.session_id ≡ b.session_id) × SameStart a a.boundary b b.boundary
segment_name-injective a b = names a b a.boundary b.boundary

module _ (a b : Text × Text × Text × Claim) where
  -- The frames of a mention are its parts.
  mention_text-parts :
      (kind object kind' object' : Text)
      → mention_text a.0 a.1 a.2 a.3 kind object ≡ mention_text b.0 b.1 b.2 b.3 kind' object'
      → (a.0 ≡ b.0)
        × (a.1 ≡ b.1)
        × (a.2 ≡ b.2)
        × (a.3.subject ≡ b.3.subject)
        × (a.3.predicate ≡ b.3.predicate)
        × (kind ≡ kind')
        × (object ≡ object')
  mention_text-parts kind object kind' object' e =
      let e₀ = cancel (utf16 "reflection-new-mention-v1:") _ _ e in
      let (segment, e₁) = utf8_frame_prefix a.0 b.0 _ _ e₀ in
      let (fingerprint, e₂) = utf8_frame_prefix a.1 b.1 _ _ e₁ in
      let (mention, e₃) = utf8_frame_prefix a.2 b.2 _ _ e₂ in
      let (subject, e₄) = utf8_frame_prefix a.3.subject b.3.subject _ _ e₃ in
      let (predicate, e₅) = utf8_frame_prefix a.3.predicate b.3.predicate _ _ e₄ in
      let (same_kind, e₆) = utf8_frame_prefix kind kind' _ _ e₅ in
      (segment, fingerprint, mention, subject, predicate, same_kind, framed-end object object' e₆)

  abbrev IsSame : Option Text → Option Text → Option Text → Option Text → Type 0
  IsSame entity value entity' value' =
      (a.0 ≡ b.0)
      × (a.1 ≡ b.1)
      × (a.2 ≡ b.2)
      × (a.3.subject ≡ b.3.subject)
      × (a.3.predicate ≡ b.3.predicate)
      × (entity ≡ entity')
      × (value ≡ value')

  kinds-differ : utf16 "entity" ≡ utf16 "literal" → ⊥
  kinds-differ e = ground arith

  mention_of-IsSame :
      (entity value entity' value' : Option Text) (name : Text)
      → mention_of a.0 a.1 a.2 a.3 entity value ≡ ok name
      → mention_of b.0 b.1 b.2 b.3 entity' value' ≡ ok name
      → IsSame entity value entity' value'
  unfolding mention_of
  mention_of-IsSame (some x) none (some y) none name e f =
      let (s, p, m, j, q, _, o) =
        mention_text-parts _ x _ y (ok-injective _ name e ∙ sym (ok-injective _ name f)) in
      (s, p, m, j, q, ap (λ (t : Text). some t) o, refl)
  mention_of-IsSame none (some x) none (some y) name e f =
      let (s, p, m, j, q, _, o) =
        mention_text-parts _ x _ y (ok-injective _ name e ∙ sym (ok-injective _ name f)) in
      (s, p, m, j, q, refl, ap (λ (t : Text). some t) o)
  mention_of-IsSame (some x) none none (some y) name e f = absurd (
      kinds-differ
        (mention_text-parts _ x _ y (ok-injective _ name e ∙ sym (ok-injective _ name f))).5)
  mention_of-IsSame none (some x) (some y) none name e f = absurd (
      kinds-differ
        (sym (mention_text-parts _ x _ y (ok-injective _ name e ∙ sym (ok-injective _ name f))).5))
  mention_of-IsSame none none entity' value' name e f = cc
  mention_of-IsSame (some x) (some y) entity' value' name e f = cc
  mention_of-IsSame (some x) none none none name e f = cc
  mention_of-IsSame (some x) none (some y) (some z) name e f = cc
  mention_of-IsSame none (some x) none none name e f = cc
  mention_of-IsSame none (some x) (some y) (some z) name e f = cc

-- Where two mentions have names, and one and the same, they are of the same segment, source
-- fingerprint, mention id and claim.
pub new_mention_name-injective :
    (a b : Text × Text × Text × Claim) (name : Text)
    → new_mention_name a.0 a.1 a.2 a.3 ≡ ok name
    → new_mention_name b.0 b.1 b.2 b.3 ≡ ok name
    → a ≡ b
unfolding new_mention_name
new_mention_name-injective a b name e f =
    let (segment, fingerprint, mention, subject, predicate, entity, value) =
      mention_of-IsSame a b a.3.object_entity a.3.object_value b.3.object_entity b.3.object_value
        name e f in
    λ i. (
      segment i,
      fingerprint i,
      mention i,
      record {
        subject = subject i;
        predicate = predicate i;
        object_entity = entity i;
        object_value = value i;
      },
    )
