-- ===== src/Jobs/Codec.antt =====
-- What server/src/database.ts calls of packages/shared/src/ingestion.ts, of
-- server/src/extraction-validation.ts and of the functions in the database: schemas, JSON and hashes.
use reflection.Common.{ℕ, ◌≡◌, Bool, true, false, Option, List}
use reflection.Common.Result.{Result, ok}
use reflection.Common.Text.{Text}
use reflection.Jobs.Boundary.{Boundary, turns, messages, native, Mark, is_native}

-- `PersistedIngestRequest`: what was submitted for one segment of a session. `M` stands for the
-- messages, which the database only encodes and hashes.
pub record Request (M : Type 0) : Type 0 where
  pub session_id : Text
  pub boundary : Boundary
  pub projection_version : ℕ
  pub processing_priority : ℕ
  pub content : M

-- A confidence is kept as its number is written.
pub record ExtractedClaim : Type 0 where
  pub subject : Text
  pub predicate : Text
  pub confidence : Text
  pub object_entity : Option Text
  pub object_value : Option Text

pub record Extraction : Type 0 where
  pub summary : Text
  pub claims : List ExtractedClaim

-- `IngestProjectionFingerprintBoundary`
pub data ProjectionBoundary : Type 0 where
  turns_until : (end_user_message_id : Text) → ProjectionBoundary
  messages_until : (end_user_message_id end_source_message_id : Text) → ProjectionBoundary
  native_until : (end_source_message_id : Text) → ProjectionBoundary

-- `projectionBoundary`
pub projection_boundary : Boundary → ProjectionBoundary
projection_boundary (turns a b) = turns_until b
projection_boundary (messages a b c d) = messages_until b d
projection_boundary (native c d) = native_until d

-- JSON and hashes, with the segment and the source that they are called with. A decoder fails with the
-- message of what it throws.
pub record Codec (M : Type 0) : Type 0 where
  pub segment : Text
  -- The source is of kind `opencode-v2` and of identity scheme `source-v1`.
  pub native_source : Bool
  -- The request is one that `parseIngestSegmentCreate` and `ownedIngestRequest` return for the source.
  pub accepts : Request M → Bool
  -- `ingestSegmentIdForRequest`, `ingestSourceFingerprint`
  pub segment_id : Request M → Text
  pub fingerprint : Request M → Text
  -- `jsonb(persistedRequest(request))`, `decodePersistedIngestSegment(parsedJson(value), source.id)`
  pub encode : Request M → Text
  pub decode : Text → Result Text (Request M)
  -- `ingestProjectionFingerprintForBoundary`
  pub projection_fingerprint : ProjectionBoundary → Text → ℕ → Text
  -- `jsonb(result)`, `parseExtractionResult(parsedJson(value))`
  pub write_extraction : Extraction → Text
  pub parse_extraction : Text → Result Text Extraction
  -- `extraction_result->>'summary'`
  pub stored_summary : Text → Text
  -- `reflection_source_fingerprint`, `reflection_projection_fingerprint`,
  -- `reflection_extraction_validation_fingerprint`
  pub stored_fingerprint : Mark → Text → Text
  pub stored_projection_fingerprint : Mark → Text → ℕ → Text
  pub validation_fingerprint : Text → ℕ → Option Text → Text
  -- `payload - 'source_id'`
  pub without_source_id : Text → Text

-- What is assumed of a codec. What is not accepted is neither encoded nor stored.
pub record IsCodec {M : Type 0} (codec : Codec M) : Type 0 where
  pub decode-encode :
      (r : Request M) → codec.accepts r ≡ true → codec.decode (codec.encode r) ≡ ok r
  -- `persistedRequest` leaves the source of a request of version 1 or 2 out, and keeps that of version 3.
  pub encoded_without_source_id :
      (r : Request M)
      → is_native r.boundary ≡ false
      → codec.without_source_id (codec.encode r) ≡ codec.encode r
  -- The priorities of accepted requests are exchangeable: each is checked by itself.
  pub accepts-priority :
      (r s : Request M)
      → codec.accepts r ≡ true
      → codec.accepts s ≡ true
      → codec.accepts (record r { processing_priority = s.processing_priority }) ≡ true
  -- The priority is no part of what is identified.
  pub segment_id-priority :
      (r : Request M) (n : ℕ)
      → codec.segment_id (record r { processing_priority = n }) ≡ codec.segment_id r
  pub fingerprint-priority :
      (r : Request M) (n : ℕ)
      → codec.fingerprint (record r { processing_priority = n }) ≡ codec.fingerprint r
