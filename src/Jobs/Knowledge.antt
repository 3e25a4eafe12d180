-- ===== src/Jobs/Knowledge.antt =====
-- server/src/database.ts: the entities, the aliases and the claims that `commitResolution` writes.
pub mod Links
use reflection.Common.{
  Bool, false, ◌&&◌, ◌||◌, not, Option, none, some, List, [], ◌∷◌, ◌++◌, any, map, if◌then◌else◌,
}
use reflection.Common.Text.{Text, text_eq}
use reflection.Domain.Names.{normalize_name}

-- An embedding is kept as the text that `#vector` writes.
pub record Entity : Type 0 where
  pub id : Text
  pub canonical_name : Text
  pub normalized_name : Text
  pub description : Text
  pub embedding : Option Text

pub record EntityAlias : Type 0 where
  pub entity_id : Text
  pub alias : Text
  pub normalized_alias : Text

-- `PreparedClaim`, and the row without its segment.
pub record ClaimRow : Type 0 where
  pub id : Text
  pub subject : Text
  pub subject_entity_id : Text
  pub predicate : Text
  pub confidence : Text
  pub object_entity : Option Text
  pub object_entity_id : Option Text
  pub object_value : Option Text
  pub equivalence_key : Text
  pub embedding : Text

pub record SegmentClaim : Type 0 where
  pub segment_id : Text
  pub claim : ClaimRow

pub record Knowledge : Type 0 where
  pub entities : List Entity
  pub aliases : List EntityAlias
  pub claims : List SegmentClaim

pub record PreparedEntity : Type 0 where
  pub entity : Entity
  pub aliases : List Text
  pub is_new : Bool

abbrev pub in_segment : Text → SegmentClaim → Bool
in_segment segment c = text_eq c.segment_id segment

-- The claim names the entity as its subject or as its object.
unfoldable pub names_entity : Text → ClaimRow → Bool
names_entity id c =
    text_eq c.subject_entity_id id
    || elim c.object_entity_id [ some object ↦ text_eq object id | none ↦ false ]

unfoldable pub is_named : Text → List SegmentClaim → Bool
is_named id claims = any (λ c. names_entity id c.claim) claims

-- `oldEntityIds`, as a test.
unfoldable pub is_old : Text → List SegmentClaim → Text → Bool
is_old segment claims id = any (λ c. in_segment segment c && names_entity id c.claim) claims

-- `INSERT INTO entities ... ON CONFLICT (id) DO UPDATE`
unfoldable pub upsert_entity : Entity → List Entity → List Entity
upsert_entity e [] = e ∷ []
upsert_entity e (f ∷ entities) =
    let rest = upsert_entity e entities in if text_eq f.id e.id then e ∷ entities else f ∷ rest

unfoldable pub upsert_new : List PreparedEntity → List Entity → List Entity
upsert_new [] entities = entities
upsert_new (p ∷ prepared) entities =
    upsert_new prepared (if p.is_new then upsert_entity p.entity entities else entities)

-- `ON CONFLICT (entity_id, normalized_alias) DO NOTHING`
abbrev same_alias : EntityAlias → EntityAlias → Bool
same_alias a b = text_eq a.entity_id b.entity_id && text_eq a.normalized_alias b.normalized_alias

unfoldable pub insert_alias : EntityAlias → List EntityAlias → List EntityAlias
insert_alias a aliases = if any (same_alias a) aliases then aliases else aliases ++ a ∷ []

unfoldable pub insert_aliases : List EntityAlias → List EntityAlias → List EntityAlias
insert_aliases [] aliases = aliases
insert_aliases (a ∷ added) aliases = insert_aliases added (insert_alias a aliases)

module _ (case_fold : Text → Text) where
  abbrev alias_of : Text → Text → EntityAlias
  alias_of id alias = record {
    entity_id = id;
    alias = alias;
    normalized_alias = normalize_name case_fold alias;
  }

  unfoldable pub prepared_aliases : List PreparedEntity → List EntityAlias
  prepared_aliases [] = []
  prepared_aliases (p ∷ prepared) =
      map (alias_of p.entity.id) p.aliases ++ prepared_aliases prepared

-- `DELETE FROM claims WHERE segment_id = $1`, and the claims in their place.
unfoldable pub delete_claims : Text → List SegmentClaim → List SegmentClaim
delete_claims segment [] = []
delete_claims segment (c ∷ claims) =
    let rest = delete_claims segment claims in if in_segment segment c then rest else c ∷ rest

unfoldable pub replace_claims : Text → List ClaimRow → List SegmentClaim → List SegmentClaim
replace_claims segment prepared claims =
    delete_claims segment claims ++ map (λ c. record { segment_id = segment; claim = c }) prepared

-- The old entities that no claim names are deleted, with their aliases.
abbrev pub is_orphan : Text → List SegmentClaim → List SegmentClaim → Text → Bool
is_orphan segment before after id = is_old segment before id && not (is_named id after)

unfoldable pub delete_entities : (Text → Bool) → List Entity → List Entity
delete_entities p [] = []
delete_entities p (e ∷ entities) =
    let rest = delete_entities p entities in if p e.id then rest else e ∷ rest

unfoldable pub delete_aliases : (Text → Bool) → List EntityAlias → List EntityAlias
delete_aliases p [] = []
delete_aliases p (a ∷ aliases) =
    let rest = delete_aliases p aliases in if p a.entity_id then rest else a ∷ rest

module _ (case_fold : Text → Text) where
  -- What `commitResolution` writes of a resolution, from the old entities to the orphans.
  unfoldable pub store_knowledge :
      Text → List PreparedEntity → List ClaimRow → Knowledge → Knowledge
  store_knowledge segment entities claims k =
      let claims_after = replace_claims segment claims k.claims in
      let orphan = is_orphan segment k.claims claims_after in
      record {
        entities = delete_entities orphan (upsert_new entities k.entities);
        aliases =
            delete_aliases orphan (insert_aliases (prepared_aliases case_fold entities) k.aliases);
        claims = claims_after;
      }
