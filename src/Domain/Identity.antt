-- ===== src/Domain/Identity.antt =====
-- packages/shared/src/domain.ts: the texts from which identities and fingerprints are hashed.
-- The hashes (SHA-256, UUIDv5 in a namespace) are parameters; what makes an identity sound is that
-- the hashed text determines what it identifies.
pub mod Injective
pub mod Names
use reflection.Common.{
  ℕ, Bool, true, false, Option, none, some, List, [], ◌∷◌, ◌++◌, length, if◌then◌else◌,
}
use reflection.Common.Result.{Result, ok, err}
use reflection.Common.Text.{Text, utf16}
use reflection.Domain.Frame.{decimal, utf8_frame}

pub data Role : Type 0 where
  user assistant : Role

abbrev pub role_text : Role → Text
role_text user = utf16 "user"
role_text assistant = utf16 "assistant"

pub record SourceMessage : Type 0 where
  pub role : Role
  pub text : Text

-- `source_boundary_version` with its cursors.
pub data SourceBoundary : Type 0 where
  whole_turns : SourceBoundary
  exact : Text → Text → SourceBoundary

-- `SegmentCreate`, as far as its identity goes.
pub record Request : Type 0 where
  pub session_id : Text
  pub start_user_message_id : Text
  pub end_user_message_id : Text
  pub boundary : SourceBoundary
  pub messages : List SourceMessage

pub frames : List SourceMessage → Text
frames [] = []
frames (m ∷ ms) = utf8_frame (role_text m.role) ++ (utf8_frame m.text ++ frames ms)

pub message_frames : List SourceMessage → Text
unfolding frames
message_frames messages = decimal (length messages) ++ (58 ∷ frames messages)

-- The head of the text and what stands between the identifiers and the messages.
abbrev pub source_header : SourceBoundary → Text
source_header whole_turns = utf16 "reflection-source-v1:"
source_header (exact start end) = utf16 "reflection-source-v2:"

pub source_cursors : SourceBoundary → Text → Text
source_cursors whole_turns rest = rest
source_cursors (exact start end) rest =
    utf8_frame (utf16 "2") ++ (utf8_frame start ++ (utf8_frame end ++ rest))

-- `source` of `sourceFingerprint`.
pub source_text : Request → Text
unfolding source_cursors message_frames
source_text r =
    source_header r.boundary
    ++ (utf8_frame r.session_id
        ++ (utf8_frame r.start_user_message_id
            ++ (utf8_frame r.end_user_message_id
                ++ source_cursors r.boundary (message_frames r.messages))))

pub source_fingerprint : (Text → Text) → Request → Text
source_fingerprint sha256_hex r = sha256_hex (source_text r)

-- `projectionFingerprintForBoundary` at a v2 boundary.
pub record Projection : Type 0 where
  pub segment_id : Text
  pub end_user_message_id : Text
  pub end_source_message_id : Text
  pub summary : Text
  pub projection_version : ℕ

pub projection_text : Projection → Text
projection_text p =
    utf16 "reflection-projection-v2:"
    ++ (utf8_frame p.segment_id
        ++ (utf8_frame (utf16 "2")
            ++ (utf8_frame p.end_user_message_id
                ++ (utf8_frame p.end_source_message_id
                    ++ (utf8_frame p.summary ++ utf8_frame (decimal p.projection_version))))))

-- The name that `segmentIdForRequest` hashes.
abbrev pub segment_name : Request → SourceBoundary → Text
segment_name r whole_turns = r.session_id ++ (0 ∷ r.start_user_message_id)
segment_name r (exact start end) =
    utf16 "reflection-segment-v2:" ++ (utf8_frame r.session_id ++ utf8_frame start)

pub segment_id_for_request : (Text → Text) → Request → Text
segment_id_for_request uuidv5 r = uuidv5 (segment_name r r.boundary)

pub record Claim : Type 0 where
  pub subject : Text
  pub predicate : Text
  pub object_entity : Option Text
  pub object_value : Option Text

pub data IdentityError : Type 0 where
  not_one_object : IdentityError

abbrev pub mention_text : Text → Text → Text → Claim → Text → Text → Text
mention_text segment_id fingerprint mention_id claim kind object =
    utf16 "reflection-new-mention-v1:"
    ++ (utf8_frame segment_id
        ++ (utf8_frame fingerprint
            ++ (utf8_frame mention_id
                ++ (utf8_frame claim.subject
                    ++ (utf8_frame claim.predicate ++ (utf8_frame kind ++ utf8_frame object))))))

unfoldable pub mention_of :
    Text → Text → Text → Claim → Option Text → Option Text → Result IdentityError Text
mention_of segment_id fingerprint mention_id claim (some entity) none =
    ok (mention_text segment_id fingerprint mention_id claim (utf16 "entity") entity)
mention_of segment_id fingerprint mention_id claim none (some value) =
    ok (mention_text segment_id fingerprint mention_id claim (utf16 "literal") value)
mention_of segment_id fingerprint mention_id claim _ _ = err not_one_object

-- The name that `newMentionEntityIdFor` hashes.
unfoldable pub new_mention_name : Text → Text → Text → Claim → Result IdentityError Text
unfolding mention_of
new_mention_name segment_id fingerprint mention_id claim =
    mention_of segment_id fingerprint mention_id claim claim.object_entity claim.object_value
