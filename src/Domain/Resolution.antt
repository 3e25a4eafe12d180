-- ===== src/Domain/Resolution.antt =====
-- packages/shared/src/domain.ts: `validateClaimDecisions` and `validateResolutionResult`, the
-- checks on what the model answered, and `unionCandidates`. A JavaScript `Map` built from a list is the
-- list itself: `get` takes the last entry of a key, `size` counts the different keys.
pub mod Mentions
pub mod Groups
use reflection.Common.{
  ℕ, zero, suc, ◌+◌, Bool, true, false, not, ◌&&◌, ◌||◌, Option, none, some, List, [], ◌∷◌, ◌++◌,
  map, ltb, ◌==◌, any, find, length, take, if◌then◌else◌,
}
use reflection.Common.Result.{Result, ok, err, throw_if, ◌>>=◌, ◌>>◌}
use reflection.Common.Text.{Text, text_eq, utf16}
use reflection.Domain.Frame.{decimal}
use reflection.Domain.Identity.{Claim}
use reflection.Domain.Names.{normalize_name}

pub record EntityCandidate : Type 0 where
  pub id : Text
  pub canonical_name : Text
  pub description : Text
  pub aliases : List Text

pub record MentionContext : Type 0 where
  pub mention_id : Text
  pub role : Text
  pub text : Text
  pub supporting_claim : Text
  pub candidates : List EntityCandidate

pub data Decision : Type 0 where
  keep drop : Decision

pub record ClaimDecision : Type 0 where
  pub claim_id : Text
  pub action : Decision

pub record Resolution : Type 0 where
  pub mention_id : Text
  pub candidate_entity_id : Option Text
  pub same_new_entity_as : Option Text

pub record ResolutionResult : Type 0 where
  pub claims : List ClaimDecision
  pub resolutions : List Resolution

-- The thrown messages; `type_error` is what `actual.get(id)!` does with an absent entry.
pub data ValidationError : Type 0 where
  duplicate_claims missing_claims duplicate_mentions missing_mentions type_error : ValidationError
  invalid_group : Text → ValidationError

pub record KeptClaim : Type 0 where
  pub index : ℕ
  pub claim : Claim

-- `ValidatedMentionResolution`
pub record Mention : Type 0 where
  pub context : MentionContext
  pub resolution : Resolution
  pub selected_candidate : Option EntityCandidate

pub data Outcome : Type 0 where
  other_mention_candidate new_entity : Outcome

pub record Substitution : Type 0 where
  pub mention_id : Text
  pub candidate_entity_id : Text
  pub outcome : Outcome

pub record Plan : Type 0 where
  pub kept_claims : List KeptClaim
  pub mentions : List Mention
  pub substitutions : List Substitution

abbrev pub has : List Text → Text → Bool
has ids id = any (λ i. text_eq i id) ids

-- `new Set(ids).size`
unfoldable pub size : List Text → ℕ
size [] = 0
size (id ∷ ids) = let rest = size ids in if has ids id then rest else suc rest

abbrev claim_id_at : ℕ → Text
claim_id_at index = utf16 "c" ++ decimal index

-- The identifiers `c0`, `c1`, … of the proposed claims, from `index` on.
unfoldable pub claim_ids : ℕ → List Claim → List Text
claim_ids index [] = []
claim_ids index (claim ∷ claims) = claim_id_at index ∷ claim_ids (suc index) claims

unfoldable pub action_of : Text → List ClaimDecision → Option Decision
action_of id [] = none
action_of id (d ∷ ds) = elim (action_of id ds) [
  | some later ↦ some later
  | none ↦ if text_eq d.claim_id id then some d.action else none
]

unfoldable pub kept_claim :
    ℕ → Claim → Option Decision → List KeptClaim → Result ValidationError (List KeptClaim)
kept_claim index claim none rest = err type_error
kept_claim index claim (some keep) rest = ok (record { index = index; claim = claim } ∷ rest)
kept_claim index claim (some drop) rest = ok rest

-- The `flatMap` at the end of `validateClaimDecisions`.
unfoldable pub keep_claims :
    ℕ → List Claim → List ClaimDecision → Result ValidationError (List KeptClaim)
unfolding kept_claim action_of
keep_claims index [] decisions = ok []
keep_claims index (claim ∷ claims) decisions = do
  rest ← keep_claims (suc index) claims decisions
  kept_claim index claim (action_of (claim_id_at index) decisions) rest

unfoldable pub validate_claim_decisions :
    List Claim → List ClaimDecision → Result ValidationError (List KeptClaim)
unfolding size claim_ids keep_claims
validate_claim_decisions proposed decisions = do
  let ids = map (λ (d : ClaimDecision). d.claim_id) decisions
  throw_if (not (size ids == length decisions)) duplicate_claims
  throw_if
      (not (size ids == length proposed) || any (λ id. not (has (claim_ids 0 proposed) id)) ids)
      missing_claims
  keep_claims 0 proposed decisions

-- The mentions of the kept claims.
abbrev object_mention : ℕ → Option Text → List Text
object_mention index none = []
object_mention index (some entity) = (claim_id_at index ++ utf16 ".object") ∷ []

unfoldable pub kept_mention_ids : List KeptClaim → List Text
kept_mention_ids [] = []
kept_mention_ids (kept ∷ rest) =
    (claim_id_at kept.index ++ utf16 ".subject")
    ∷ (object_mention kept.index kept.claim.object_entity ++ kept_mention_ids rest)

unfoldable pub keep_contexts : List Text → List MentionContext → List MentionContext
keep_contexts ids [] = []
keep_contexts ids (c ∷ cs) =
    if has ids c.mention_id then c ∷ keep_contexts ids cs else keep_contexts ids cs

-- `contextIndexes.get(id)` with `expected.get(id)`; `n` is the position of the first context.
unfoldable pub context_at : Text → ℕ → List MentionContext → Option (ℕ × MentionContext)
context_at id n [] = none
context_at id n (c ∷ cs) = elim (context_at id (suc n) cs) [
  | some later ↦ some later
  | none ↦ if text_eq c.mention_id id then some (n, c) else none
]

-- `actual.get(id)`
unfoldable pub resolution_of : Text → List Resolution → Option Resolution
resolution_of id [] = none
resolution_of id (r ∷ rs) = elim (resolution_of id rs) [
  | some later ↦ some later
  | none ↦ if text_eq r.mention_id id then some r else none
]

-- `candidates.find((candidate) => candidate.id === id)`
unfoldable pub candidate_of : Text → List EntityCandidate → Option EntityCandidate
candidate_of id candidates = find (λ (c : EntityCandidate). text_eq c.id id) candidates

-- `requestCandidates.get(id)`: the first candidate of that id in all contexts.
unfoldable pub request_candidate : Text → List MentionContext → Option EntityCandidate
unfolding candidate_of
request_candidate id [] = none
request_candidate id (c ∷ cs) = elim (candidate_of id c.candidates) [
  | some found ↦ some found
  | none ↦ request_candidate id cs
]

-- The resolution to keep, the selected candidate, and the substitutions.
pub record Selection : Type 0 where
  pub resolution : Resolution
  pub candidate : Option EntityCandidate
  pub substitutions : List Substitution

unfoldable pub substitute : MentionContext → Resolution → Text → Option EntityCandidate → Selection
substitute context resolution id (some candidate) = record {
  resolution = resolution;
  candidate = some candidate;
  substitutions =
      record {
        mention_id = context.mention_id;
        candidate_entity_id = id;
        outcome = other_mention_candidate;
      }
      ∷ [];
}
substitute context resolution id none = record {
  resolution = record resolution { candidate_entity_id = none };
  candidate = none;
  substitutions =
      record { mention_id = context.mention_id; candidate_entity_id = id; outcome = new_entity }
      ∷ [];
}

unfoldable pub select_from :
    List MentionContext → MentionContext → Resolution → Text → Option EntityCandidate → Selection
unfolding substitute
select_from contexts context resolution id (some candidate) = record {
  resolution = resolution;
  candidate = some candidate;
  substitutions = [];
}
select_from contexts context resolution id none =
    substitute context resolution id (request_candidate id contexts)

unfoldable pub select : List MentionContext → MentionContext → Resolution → Option Text → Selection
unfolding select_from candidate_of request_candidate
select contexts context resolution none = record {
  resolution = resolution;
  candidate = none;
  substitutions = [];
}
select contexts context resolution (some id) =
    select_from contexts context resolution id (candidate_of id context.candidates)

abbrev is_none {ℓ} : {A : Type ℓ} → Option A → Bool
is_none none = true
is_none (some _) = false

module _ (case_fold : Text → Text) (kept : List MentionContext)
    (resolutions : List Resolution) where
  -- The condition of the group check, negated; `position` is `contextIndexes.get(context.mentionId)`.
  unfoldable pub good_group :
      Option ℕ
      → MentionContext
      → Option Text
      → Option (ℕ × MentionContext)
      → Option Resolution
      → Bool
  good_group (some position) context candidate (some (n, grouped)) (some resolution) =
      is_none candidate
      && is_none resolution.candidate_entity_id
      && is_none resolution.same_new_entity_as
      && ltb n position
      && text_eq (normalize_name case_fold grouped.text) (normalize_name case_fold context.text)
  good_group _ context candidate _ _ = false

  abbrev position : Option (ℕ × MentionContext) → Option ℕ
  position none = none
  position (some (n, c)) = some n

  unfoldable pub check_group :
      MentionContext → Option Text → Option Text → Result ValidationError (Unit {0})
  unfolding good_group context_at resolution_of
  check_group context candidate none = ok tt
  check_group context candidate (some target) =
      throw_if
        (not (
          good_group (position (context_at context.mention_id 0 kept)) context candidate
            (context_at target 0 kept) (resolution_of target resolutions)))
        (invalid_group context.mention_id)

  unfoldable pub resolve_mention :
      List MentionContext → MentionContext → Option Resolution → Result ValidationError Selection
  unfolding check_group select
  resolve_mention contexts context none = err type_error
  resolve_mention contexts context (some resolution) = do
    let selection = select contexts context resolution resolution.candidate_entity_id
    check_group context resolution.candidate_entity_id selection.resolution.same_new_entity_as
    ok selection

  -- The loop over `keptContexts`.
  unfoldable pub resolve_mentions :
      List MentionContext
      → List MentionContext
      → Result ValidationError (List Mention × List Substitution)
  unfolding resolve_mention
  resolve_mentions contexts [] = ok ([], [])
  resolve_mentions contexts (context ∷ rest) = do
    selection ← resolve_mention contexts context (resolution_of context.mention_id resolutions)
    later ← resolve_mentions contexts rest
    ok (
      record {
        context = context;
        resolution = selection.resolution;
        selected_candidate = selection.candidate;
      }
          ∷ later.0,
      selection.substitutions ++ later.1,
    )

unfoldable pub validate_resolution_result :
    (Text → Text)
    → List Claim
    → List MentionContext
    → ResolutionResult
    → Result ValidationError Plan
unfolding validate_claim_decisions kept_mention_ids keep_contexts resolve_mentions size
validate_resolution_result case_fold proposed contexts result = do
  kept_claims ← validate_claim_decisions proposed result.claims
  let kept = keep_contexts (kept_mention_ids kept_claims) contexts
  let ids = map (λ (r : Resolution). r.mention_id) result.resolutions
  let expected = map (λ (c : MentionContext). c.mention_id) kept
  throw_if (not (size ids == length result.resolutions)) duplicate_mentions
  throw_if (not (size ids == size expected) || any (λ id. not (has expected id)) ids)
      missing_mentions
  found ← resolve_mentions case_fold kept result.resolutions contexts kept
  ok (record { kept_claims = kept_claims; mentions = found.0; substitutions = found.1 })

-- The first candidate of each id.
first_of_each : List Text → List EntityCandidate → List EntityCandidate
first_of_each seen [] = []
first_of_each seen (c ∷ cs) =
    let new = c ∷ first_of_each (c.id ∷ seen) cs in
    let old = first_of_each seen cs in if has seen c.id then old else new

pub union_candidates : List EntityCandidate → List EntityCandidate → List EntityCandidate
unfolding first_of_each
union_candidates trigram vector = first_of_each [] (take 5 trigram ++ take 5 vector)
