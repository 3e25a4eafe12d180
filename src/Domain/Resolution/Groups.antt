-- ===== src/Domain/Resolution/Groups.antt =====
-- The whole plan: its mentions, their candidates and their groups.
use mathlib.Core.Path.{subst}
use reflection.Common.{
  ℕ, suc, ◌≡◌, ◌∙◌, refl, sym, ap, inl, inr, false, not, Option, none, some, List, [], ◌∷◌, map,
  arith, All, All-map, Bool-cases, Option-cases, length, ◌==◌, ◌||◌, any,
}
use reflection.Common.Result.{ok, >>=-eq-ok, ok-injective, throw_if-eq-ok, throw_if->>-eq-ok}
use reflection.Common.Text.{Text, text_eq, text_eq_sound}
use reflection.Domain.Identity.{Claim}
use reflection.Domain.Names.{normalize_name}
use reflection.Domain.Resolution.{
  EntityCandidate, MentionContext, Resolution, ResolutionResult, duplicate_mentions,
  missing_mentions, Mention, Substitution, Plan, Selection, has, size, validate_claim_decisions,
  kept_mention_ids, keep_contexts, context_at, resolution_of, select, good_group, position,
  check_group, resolve_mention, resolve_mentions, validate_resolution_result,
}
use reflection.Domain.Resolution.Mentions.{
  Some, Supplied, IsGrounded, mention_of, select-IsGrounded,
}

-- What a context's own candidates are to the request.
abbrev OwnSupplied : List MentionContext → MentionContext → Type 0
OwnSupplied contexts k =
    (c : EntityCandidate) → Some (λ d. d ≡ c) k.candidates → Supplied contexts c

own-All : (contexts : List MentionContext) → All (OwnSupplied contexts) contexts
own-All [] = tt
own-All (k ∷ ks) = ((λ c h. inl h), All-map ks (λ x f c h. inr (f c h)) (own-All ks))

keep_contexts-All :
    (P : MentionContext → Type 0) (ids : List Text) (cs : List MentionContext)
    → All P cs
    → All P (keep_contexts ids cs)
unfolding keep_contexts
keep_contexts-All P ids [] h = tt
keep_contexts-All P ids (c ∷ cs) (p, h) = elim (Bool-cases (has ids c.mention_id)) [
  | inl e ↦ rw e (p, keep_contexts-All P ids cs h)
  | inr e ↦ rw e (keep_contexts-All P ids cs h)
]

context_at-some :
    (id : Text) (n : ℕ) (cs : List MentionContext) (k : ℕ) (c : MentionContext)
    → context_at id n cs ≡ some (k, c)
    → (c.mention_id ≡ id) × Some (λ d. d ≡ c) cs
unfolding context_at
context_at-some id n [] k c e = cc
context_at-some id n (x ∷ xs) k c e = elim (Option-cases (context_at id (suc n) xs)) [
  | inr ((j, d), later) ↦
      let same : d ≡ c = ground (arith, rw (later, context_at) at e) in
      let (id_same, among) = context_at-some id (suc n) xs j d later in
      subst (λ (z : MentionContext). (z.mention_id ≡ id) × Some (λ d. d ≡ z) (x ∷ xs)) same
        (id_same, inr among)
  | inl gone ↦ elim (Bool-cases (text_eq x.mention_id id)) [
    | inl here ↦
        let same : x ≡ c = ground (arith, rw (gone, context_at, here) at e) in
        rw (← same) (text_eq_sound x.mention_id id here, inl refl)
    | inr other ↦ ground (arith, rw (gone, context_at, other) at e)
  ]
]

select_new :
    (contexts : List MentionContext) (context : MentionContext) (r : Resolution)
    → r.candidate_entity_id ≡ none
    → (select contexts context r r.candidate_entity_id).resolution ≡ r
unfolding select
select_new contexts context r new =
    ap (λ (wanted : Option Text). (select contexts context r wanted).resolution) new

module _ (case_fold : Text → Text) (kept : List MentionContext)
    (resolutions : List Resolution) where
  -- How a mention of the plan came about.
  abbrev IsResolved : List MentionContext → Mention → Type 0
  IsResolved contexts m =
      (r : Resolution) × (resolution_of m.context.mention_id resolutions ≡ some r)
      × (m ≡ mention_of m.context (select contexts m.context r r.candidate_entity_id))
      × (check_group case_fold kept resolutions m.context r.candidate_entity_id
            m.resolution.same_new_entity_as
          ≡ ok tt)

  resolve_mention-IsResolved :
      (contexts : List MentionContext) (context : MentionContext) (s : Selection)
      → resolve_mention case_fold kept resolutions contexts context
          (resolution_of context.mention_id resolutions)
        ≡ ok s
      → IsResolved contexts (mention_of context s)
  unfolding resolve_mention
  resolve_mention-IsResolved contexts context s e =
      elim (Option-cases (resolution_of context.mention_id resolutions)) [
        | inl gone ↦ cc (rw (gone, resolve_mention) at e)
        | inr (r, found) ↦
            let s' = select contexts context r r.candidate_entity_id in
            let (_, checked, e₁) =
              >>=-eq-ok
                (check_group case_fold kept resolutions context r.candidate_entity_id
                  s'.resolution.same_new_entity_as)
                _ (rw (found, resolve_mention) at e) in
            let same = ok-injective s' s e₁ in rw (← same) (r, found, refl, checked)
      ]

  resolve_mentions-IsResolved :
      (contexts cs : List MentionContext) (ms : List Mention) (ss : List Substitution)
      → resolve_mentions case_fold kept resolutions contexts cs ≡ ok (ms, ss)
      → (map (λ (m : Mention). m.context) ms ≡ cs) × All (IsResolved contexts) ms
  unfolding resolve_mentions
  resolve_mentions-IsResolved contexts [] ms ss e =
      let same : [] ≡ ms =
        ap (λ (p : List Mention × List Substitution). p.0) (ok-injective _ _ e) in
      rw (← same) (refl, tt)
  resolve_mentions-IsResolved contexts (c ∷ cs) ms ss e =
      let (s, one, e₁) =
        >>=-eq-ok
          (resolve_mention case_fold kept resolutions contexts c
            (resolution_of c.mention_id resolutions))
          _ e in
      let (later, others, e₂) =
        >>=-eq-ok (resolve_mentions case_fold kept resolutions contexts cs) _ e₁ in
      let same : mention_of c s ∷ later.0 ≡ ms =
        ap (λ (p : List Mention × List Substitution). p.0) (ok-injective _ _ e₂) in
      let (in_order, resolved) = resolve_mentions-IsResolved contexts cs later.0 later.1 others in
      rw (← same) (
        ap (λ (t : List MentionContext). c ∷ t) in_order,
        (resolve_mention-IsResolved contexts c s one, resolved),
      )

  check_group_facts :
      (context : MentionContext) (candidate : Option Text) (target : Text)
      → check_group case_fold kept resolutions context candidate (some target) ≡ ok tt
      → (candidate ≡ none)
        × (n : ℕ) × (grouped : MentionContext) × (r : Resolution) × (context_at target 0 kept
            ≡ some (n, grouped))
        × (resolution_of target resolutions ≡ some r)
        × (r.candidate_entity_id ≡ none)
        × (r.same_new_entity_as ≡ none)
        × (normalize_name case_fold grouped.text ≡ normalize_name case_fold context.text)
  unfolding check_group good_group
  check_group_facts context candidate target e =
      facts candidate (position case_fold kept resolutions (context_at context.mention_id 0 kept))
        (context_at target 0 kept) (resolution_of target resolutions) refl refl
        (throw_if-eq-ok _ _ e)
    where
      facts :
          (candidate : Option Text) (at : Option ℕ) (group : Option (ℕ × MentionContext))
          (res : Option Resolution)
          → context_at target 0 kept ≡ group
          → resolution_of target resolutions ≡ res
          → not (good_group case_fold kept resolutions at context candidate group res) ≡ false
          → (candidate ≡ none)
            × (n : ℕ) × (grouped : MentionContext) × (r : Resolution) × (context_at target 0 kept
                ≡ some (n, grouped))
            × (resolution_of target resolutions ≡ some r)
            × (r.candidate_entity_id ≡ none)
            × (r.same_new_entity_as ≡ none)
            × (normalize_name case_fold grouped.text ≡ normalize_name case_fold context.text)
      facts candidate (some p) (some (n, grouped)) (some r) g f h =
          let names =
            text_eq_sound (normalize_name case_fold grouped.text)
              (normalize_name case_fold context.text) (ground arith) in
          (ground arith, n, grouped, r, g, f, ground arith, ground arith, names)
      facts candidate none _ _ g f h = cc
      facts candidate (some p) none _ g f h = cc
      facts candidate (some p) (some x) none g f h = cc

  resolved-IsGrounded :
      (contexts cs : List MentionContext) (ms : List Mention)
      → map (λ (m : Mention). m.context) ms ≡ cs
      → All (OwnSupplied contexts) cs
      → All (IsResolved contexts) ms
      → All (IsGrounded contexts) ms
  resolved-IsGrounded contexts cs [] e own h = tt
  resolved-IsGrounded contexts [] (m ∷ ms) e own h = cc
  resolved-IsGrounded contexts (c ∷ cs) (m ∷ ms) e (o, own) ((r, found, made, _), h) =
      let same : c ≡ m.context = ground arith in
      (
        subst (IsGrounded contexts) (sym made) (
            select-IsGrounded contexts m.context r r.candidate_entity_id refl
              (subst (OwnSupplied contexts) same o)),
        resolved-IsGrounded contexts cs ms (ground arith) own h,
      )

  -- The mention stands for a new entity of its own, under the name of the other.
  abbrev pub Anchors : Text → Mention → Mention → Type 0
  Anchors target m anchor =
      (anchor.context.mention_id ≡ target)
      × (anchor.resolution.candidate_entity_id ≡ none)
      × (anchor.resolution.same_new_entity_as ≡ none)
      × (normalize_name case_fold anchor.context.text ≡ normalize_name case_fold m.context.text)

  -- The mention of a context that resolves to a new entity.
  anchor_of :
      (contexts cs : List MentionContext) (ms : List Mention) (target : Text) (m : Mention)
      (grouped : MentionContext) (r : Resolution)
      → map (λ (m : Mention). m.context) ms ≡ cs
      → All (IsResolved contexts) ms
      → Some (λ d. d ≡ grouped) cs
      → grouped.mention_id ≡ target
      → resolution_of target resolutions ≡ some r
      → r.candidate_entity_id ≡ none
      → r.same_new_entity_as ≡ none
      → normalize_name case_fold grouped.text ≡ normalize_name case_fold m.context.text
      → Some (Anchors target m) ms
  anchor_of contexts [] ms target m grouped r e h (among) id_same found c s n = absurd among
  anchor_of contexts (k ∷ ks) [] target m grouped r e h among id_same found c s n = cc
  anchor_of contexts (k ∷ ks) (x ∷ xs) target m grouped r e (_, h) (inr among) id_same found c s n =
      inr (anchor_of contexts ks xs target m grouped r (ground arith) h among id_same found c s n)
  anchor_of contexts (k ∷ ks) (x ∷ xs) target m grouped r e ((q, mine, made, _), h) (inl here)
        id_same found c s n =
      let at : x.context ≡ grouped = ground arith in
      let id : x.context.mention_id ≡ target =
        ap (λ (k : MentionContext). k.mention_id) at ∙ id_same in
      let same : q ≡ r = ground (arith, rw id at mine) in
      let mine_is_r : x.resolution ≡ r =
        ap (λ (m : Mention). m.resolution) made
        ∙ select_new contexts x.context q (cc (same, c))
        ∙ same in
      inl (
        id,
        ap (λ (r : Resolution). r.candidate_entity_id) mine_is_r ∙ c,
        ap (λ (r : Resolution). r.same_new_entity_as) mine_is_r ∙ s,
        ap (λ (k : MentionContext). normalize_name case_fold k.text) at ∙ n,
      )

  abbrev pub IsAnchored : List Mention → Mention → Type 0
  IsAnchored ms m =
      (target : Text)
      → m.resolution.same_new_entity_as ≡ some target
      → (m.resolution.candidate_entity_id ≡ none) × Some (Anchors target m) ms

  mention-IsAnchored :
      (contexts : List MentionContext) (ms : List Mention) (m : Mention)
      → map (λ (m : Mention). m.context) ms ≡ kept
      → All (IsResolved contexts) ms
      → IsResolved contexts m
      → IsAnchored ms m
  mention-IsAnchored contexts ms m e h (r, found, made, checked) target grouped_as =
      let (new, n, grouped, q, at, res, c, s, names) =
        check_group_facts m.context r.candidate_entity_id target (rw grouped_as at checked) in
      let (id_same, among) = context_at-some target 0 kept n grouped at in
      let mine =
        ap (λ (m : Mention). m.resolution.candidate_entity_id) made
        ∙ ap (λ (r : Resolution). r.candidate_entity_id) (select_new contexts m.context r new)
        ∙ new in
      (mine, anchor_of contexts kept ms target m grouped q e h among id_same res c s names)

-- Where `validateResolutionResult` returns a plan: its mentions are those of the contexts of kept
-- claims, in their order; each names an entity exactly where it has a selected candidate, which was
-- supplied in the request and has the named id; and a mention that joins the new entity of another
-- names no entity itself, and that other one is in the plan, is new, joins no further one and has
-- the same normalized name.
pub validate_resolution_result-plan :
    (case_fold : Text → Text) (proposed : List Claim) (contexts : List MentionContext)
    (result : ResolutionResult) (plan : Plan)
    → validate_resolution_result case_fold proposed contexts result ≡ ok plan
    → (map (λ (m : Mention). m.context) plan.mentions
        ≡ keep_contexts (kept_mention_ids plan.kept_claims) contexts)
      × All (IsGrounded contexts) plan.mentions
      × All
          (IsAnchored case_fold
            (keep_contexts (kept_mention_ids plan.kept_claims) contexts)
            result.resolutions
            plan.mentions)
          plan.mentions
unfolding validate_resolution_result
validate_resolution_result-plan case_fold proposed contexts result plan e =
    let (claims, decided, e₁) = >>=-eq-ok (validate_claim_decisions proposed result.claims) _ e in
    let kept = keep_contexts (kept_mention_ids claims) contexts in
    let ids = map (λ (r : Resolution). r.mention_id) result.resolutions in
    let expected = map (λ (c : MentionContext). c.mention_id) kept in
    let (_, e₂) =
      throw_if->>-eq-ok (not (size ids == length result.resolutions)) duplicate_mentions _ e₁ in
    let (_, e₃) =
      throw_if->>-eq-ok (not (size ids == size expected) || any (λ id. not (has expected id)) ids)
        missing_mentions _ e₂ in
    let (found, made, e₄) =
      >>=-eq-ok (resolve_mentions case_fold kept result.resolutions contexts kept) _ e₃ in
    let (in_order, resolved) =
      resolve_mentions-IsResolved case_fold kept result.resolutions contexts kept found.0 found.1
        made in
    rw (← ok-injective _ plan e₄) (
      in_order,
      resolved-IsGrounded case_fold kept result.resolutions contexts kept found.0 in_order
          (keep_contexts-All (OwnSupplied contexts) (kept_mention_ids claims) contexts
            (own-All contexts))
          resolved,
      All-map found.0
          (λ m h.
            mention-IsAnchored case_fold kept result.resolutions contexts found.0 m in_order
              resolved h)
          resolved,
    )
