-- ===== src/Tests/Domain.antt =====
-- A resolution of two mentions, and texts to hash, at concrete inputs.
use reflection.Common.{◌≡◌, refl, none, some, List, [], ◌∷◌, ◌++◌, All, map, arith}
use reflection.Common.Result.{Result, ok}
use reflection.Common.Text.{Text, utf16, text_eq}
use reflection.Domain.Frame.{digits, decimal}
use reflection.Domain.Identity.{
  Role, SourceMessage, exact, Request, Projection, Claim, IdentityError, mention_of,
  new_mention_name,
}
use reflection.Domain.Identity.Injective.{source_text-injective, projection_text-injective}
use reflection.Domain.Identity.Names.{SameStart, segment_name-injective, new_mention_name-injective}
use reflection.Domain.Names.{is_separator, push_word, words, join, normalize_name}
use reflection.Domain.Resolution.{
  EntityCandidate, MentionContext, Decision, ResolutionResult, ValidationError, Mention, Plan, size,
  claim_ids, action_of, kept_claim, keep_claims, validate_claim_decisions, kept_mention_ids,
  keep_contexts, context_at, resolution_of, candidate_of, request_candidate, substitute,
  select_from, select, good_group, check_group, resolve_mention, resolve_mentions,
  validate_resolution_result,
}
use reflection.Domain.Resolution.Mentions.{IsGrounded}
use reflection.Domain.Resolution.Groups.{IsAnchored, validate_resolution_result-plan}

abbrev question : SourceMessage
question = record { role = Role.user; text = utf16 "why?" }

abbrev reply : SourceMessage
reply = record { role = Role.assistant; text = utf16 "so." }

abbrev request : List SourceMessage → Request
request messages = record {
  session_id = utf16 "s1";
  start_user_message_id = utf16 "u1";
  end_user_message_id = utf16 "u1";
  boundary = exact (utf16 "u1") (utf16 "a1");
  messages = messages;
}

source_text-injective_example :
    request (question ∷ reply ∷ []) ≡ request ((question ∷ []) ++ (reply ∷ []))
source_text-injective_example =
    source_text-injective (request (question ∷ reply ∷ []))
      (request ((question ∷ []) ++ (reply ∷ []))) refl

abbrev projection : Text → Projection
projection summary = record {
  segment_id = utf16 "id";
  end_user_message_id = utf16 "u1";
  end_source_message_id = utf16 "a1";
  summary = summary;
  projection_version = 3;
}

projection_text-injective_example :
    projection (utf16 "a cache") ≡ projection (utf16 "a " ++ utf16 "cache")
projection_text-injective_example =
    projection_text-injective (projection (utf16 "a cache"))
      (projection (utf16 "a " ++ utf16 "cache")) refl

-- Two spans of one session that start at the same message have one segment.
segment_name-injective_example :
    (utf16 "s1" ≡ utf16 "s1")
    × SameStart
        (request (question ∷ []))
        (exact (utf16 "u1") (utf16 "a1"))
        (request (question ∷ reply ∷ []))
        (exact (utf16 "u1") (utf16 "a1"))
segment_name-injective_example =
    segment_name-injective (request (question ∷ [])) (request (question ∷ reply ∷ []))
      ((omega arith, (omega arith, tt)), (omega arith, (omega arith, tt)))
      ((omega arith, (omega arith, tt)), (omega arith, (omega arith, tt))) refl

abbrev claim_of : Text → Claim
claim_of value = record {
  subject = utf16 "x";
  predicate = utf16 "uses";
  object_entity = none;
  object_value = some value;
}

abbrev mention : Text → Text × Text × Text × Claim
mention value = (utf16 "seg", utf16 "fp", utf16 "c0.object", claim_of value)

abbrev or_no_name : Result IdentityError Text → Text
or_no_name (ok name) = name
or_no_name _ = []

new_mention_name-injective_example : mention (utf16 "a" ++ utf16 "b") ≡ mention (utf16 "ab")
unfolding new_mention_name mention_of
new_mention_name-injective_example =
    new_mention_name-injective (mention (utf16 "a" ++ utf16 "b")) (mention (utf16 "ab"))
      (or_no_name
        (new_mention_name (utf16 "seg") (utf16 "fp") (utf16 "c0.object") (claim_of (utf16 "ab"))))
      refl refl

abbrev claims : List Claim
claims =
    record {
      subject = utf16 "x";
      predicate = utf16 "uses";
      object_entity = some (utf16 "x");
      object_value = none;
    }
    ∷ []

abbrev known : EntityCandidate
known = record { id = utf16 "e1"; canonical_name = utf16 "y"; description = []; aliases = [] }

abbrev contexts : List MentionContext
contexts =
    record {
      mention_id = utf16 "c0.subject";
      role = utf16 "subject";
      text = utf16 "x";
      supporting_claim = [];
      candidates = known ∷ [];
    }
    ∷ record {
      mention_id = utf16 "c0.object";
      role = utf16 "object";
      text = utf16 " x";
      supporting_claim = [];
      candidates = [];
    }
    ∷ []

-- The subject is new, and the object is the same new entity.
abbrev answer : ResolutionResult
answer = record {
  claims = record { claim_id = utf16 "c0"; action = Decision.keep } ∷ [];
  resolutions =
      record {
        mention_id = utf16 "c0.subject";
        candidate_entity_id = none;
        same_new_entity_as = none;
      }
      ∷ record {
        mention_id = utf16 "c0.object";
        candidate_entity_id = none;
        same_new_entity_as = some (utf16 "c0.subject");
      }
      ∷ [];
}

abbrev or_empty : Result ValidationError Plan → Plan
or_empty (ok plan) = plan
or_empty _ = record { kept_claims = []; mentions = []; substitutions = [] }

abbrev plan : Plan
plan = or_empty (validate_resolution_result (λ t. t) claims contexts answer)

abbrev kept : List MentionContext
kept = keep_contexts (kept_mention_ids plan.kept_claims) contexts

validate_resolution_result-plan_example :
    (map (λ (m : Mention). m.context) plan.mentions ≡ kept)
    × All (IsGrounded contexts) plan.mentions
    × All (IsAnchored (λ t. t) kept answer.resolutions plan.mentions) plan.mentions
unfolding digits decimal text_eq is_separator push_word words join normalize_name size claim_ids
    action_of kept_claim keep_claims validate_claim_decisions kept_mention_ids keep_contexts
    context_at resolution_of candidate_of request_candidate substitute select_from select good_group
    check_group resolve_mention resolve_mentions validate_resolution_result
validate_resolution_result-plan_example =
    validate_resolution_result-plan (λ t. t) claims contexts answer plan refl
