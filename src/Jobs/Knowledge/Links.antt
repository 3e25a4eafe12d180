-- ===== src/Jobs/Knowledge/Links.antt =====
-- The claims that are stored name entities that are stored.
use reflection.Common.{
  ◌≡◌, Bool, true, false, List, [], ◌∷◌, arith, any, map, All, All-append, All-map, All-pair,
  Bool-cases, inl, inr, if-cases,
}
use reflection.Common.Text.{Text, text_eq, text_eq_sound}
use reflection.Jobs.Knowledge.{
  Entity, PreparedEntity, ClaimRow, SegmentClaim, Knowledge, in_segment, names_entity, is_named,
  upsert_entity, upsert_new, delete_claims, replace_claims, is_orphan, delete_entities,
  store_knowledge,
}

abbrev pub has_entity : List Entity → Text → Bool
has_entity entities id = any (λ e. text_eq e.id id) entities

-- Whatever a claim names is an entity.
abbrev pub IsLinked : List Entity → ClaimRow → Type 0
IsLinked entities c = (id : Text) → names_entity id c ≡ true → has_entity entities id ≡ true

unfoldable pub IsLinkedKnowledge : Knowledge → Type 0
IsLinkedKnowledge k = All (λ (c : SegmentClaim). IsLinked k.entities c.claim) k.claims

upsert_entity-has_entity :
    (e : Entity) (entities : List Entity) (id : Text)
    → has_entity entities id ≡ true
    → has_entity (upsert_entity e entities) id ≡ true
unfolding upsert_entity
upsert_entity-has_entity e [] id h = cc
upsert_entity-has_entity e (f ∷ entities) id h = elim (Bool-cases (text_eq f.id e.id)) [
  | inl same ↦ rw (upsert_entity, same) (rw (← text_eq_sound f.id e.id same) h)
  | inr other ↦ rw (upsert_entity, other) (ground (arith, upsert_entity-has_entity e entities id))
]

upsert_new-has_entity :
    (prepared : List PreparedEntity) (entities : List Entity) (id : Text)
    → has_entity entities id ≡ true
    → has_entity (upsert_new prepared entities) id ≡ true
unfolding upsert_new
upsert_new-has_entity [] entities id h = h
upsert_new-has_entity (p ∷ prepared) entities id h = upsert_new-has_entity prepared _ id (
    if-cases (λ (es : List Entity). has_entity es id ≡ true) p.is_new
      (upsert_entity p.entity entities) entities
      (λ e. upsert_entity-has_entity p.entity entities id h) (λ e. h))

delete_entities-has_entity :
    (p : Text → Bool) (entities : List Entity) (id : Text)
    → p id ≡ false
    → has_entity entities id ≡ true
    → has_entity (delete_entities p entities) id ≡ true
unfolding delete_entities
delete_entities-has_entity p [] id stays h = h
delete_entities-has_entity p (e ∷ entities) id stays h = elim (Bool-cases (text_eq e.id id)) [
  | inl same ↦
      let stays_too : p e.id ≡ false = rw (text_eq_sound e.id id same) stays in
      rw (delete_entities, stays_too) (ground arith)
  | inr other ↦
      let rest = delete_entities-has_entity p entities id stays (ground arith) in
      if-cases (λ (es : List Entity). has_entity es id ≡ true) (p e.id) (delete_entities p entities)
        (e ∷ delete_entities p entities) (λ d. rest) (λ d. ground arith)
]

-- A stored claim's entities are named.
named-All :
    (claims : List SegmentClaim)
    → All
        (λ (c : SegmentClaim).
          (id : Text) → names_entity id c.claim ≡ true → is_named id claims ≡ true)
        claims
unfolding is_named
named-All [] = tt
named-All (c ∷ claims) =
    ((λ id h. ground arith), All-map claims (λ d k id h. ground (arith, k id h)) (named-All claims))

delete_claims-All {κ} :
    (P : SegmentClaim → Type κ) (segment : Text) (claims : List SegmentClaim)
    → All P claims
    → All P (delete_claims segment claims)
unfolding delete_claims
delete_claims-All P segment [] h = tt
delete_claims-All P segment (c ∷ claims) (h, rest) =
    if-cases (λ (cs : List SegmentClaim). All P cs) (in_segment segment c)
      (delete_claims segment claims) _ (λ e. delete_claims-All P segment claims rest)
      (λ e. (h, delete_claims-All P segment claims rest))

map-All :
    (P : SegmentClaim → Type 0) (segment : Text) (claims : List ClaimRow)
    → All (λ c. P (record { segment_id = segment; claim = c })) claims
    → All P (map (λ c. record { segment_id = segment; claim = c }) claims)
map-All P segment [] h = tt
map-All P segment (c ∷ claims) (h, rest) = (h, map-All P segment claims rest)

-- Where every claim names stored entities, and the claims of a resolution name entities that are
-- stored or new, every claim that `commitResolution` leaves names an entity that it leaves: the
-- deletion of entities takes none that is still named.
pub store_knowledge-IsLinkedKnowledge :
    (case_fold : Text → Text) (segment : Text) (entities : List PreparedEntity)
    (claims : List ClaimRow) (k : Knowledge)
    → IsLinkedKnowledge k
    → All (IsLinked (upsert_new entities k.entities)) claims
    → IsLinkedKnowledge (store_knowledge case_fold segment entities claims k)
unfolding store_knowledge replace_claims IsLinkedKnowledge
store_knowledge-IsLinkedKnowledge case_fold segment entities claims k linked new =
    let after = replace_claims segment claims k.claims in
    let here : All (λ (c : SegmentClaim). IsLinked (upsert_new entities k.entities) c.claim) after =
      All-append (λ (c : SegmentClaim). IsLinked (upsert_new entities k.entities) c.claim)
        (delete_claims segment k.claims) _
        (delete_claims-All _ segment k.claims (
          All-map k.claims (λ c l id n. upsert_new-has_entity entities k.entities id (l id n))
            linked))
        (map-All _ segment claims new) in
    All-map after
      (λ c l id n.
        delete_entities-has_entity (is_orphan segment k.claims after)
          (upsert_new entities k.entities) id (ground (arith, l.1 id n)) (l.0 id n))
      (All-pair (λ (c : SegmentClaim). IsLinked (upsert_new entities k.entities) c.claim)
        (λ (c : SegmentClaim).
          (id : Text) → names_entity id c.claim ≡ true → is_named id after ≡ true)
        after here (named-All after))
