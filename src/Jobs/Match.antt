-- ===== src/Jobs/Match.antt =====
-- server/src/database.ts: the comparisons of a stored row with a request, with a failed job and with
-- a claim.
use reflection.Common.{ℕ, Bool, false, ◌&&◌, Option, some, ◌==◌}
use reflection.Common.Result.{ok, err}
use reflection.Common.Text.{Text, text_eq}
use reflection.Jobs.Boundary.{Mark, mark_of, start_user_of}
use reflection.Jobs.Codec.{Request, Codec, Extraction}
use reflection.Jobs.Rows.{JobRow, TargetRow, same_text?, same_mark}

-- `ClaimedJob`; its source and its segment are the group's.
pub record ClaimedJob (M : Type 0) : Type 0 where
  pub id : ℕ
  pub lease_id : Text
  pub source_generation : ℕ
  pub source_fingerprint : Text
  pub attempts : ℕ
  pub request : Request M
  pub extraction_result : Option Extraction

module _ {M : Type 0} where
  -- `boundaryMatchesRequest`
  abbrev pub boundary_matches_request : Mark → Request M → Bool
  boundary_matches_request mark request = same_mark mark (mark_of request.boundary)

  abbrev pub same_start_user : Option Text → Request M → Bool
  same_start_user start_user request = same_text? start_user (start_user_of request.boundary)

  -- `persistedJobMatchesClaim`
  abbrev pub persisted_job_matches_claim : JobRow → ClaimedJob M → Bool
  persisted_job_matches_claim row job =
      text_eq row.session_id job.request.session_id
      && same_start_user row.start_user_message_id job.request
      && boundary_matches_request row.snapshot.mark job.request
      && row.snapshot.projection_version == job.request.projection_version
      && row.snapshot.source_generation == job.source_generation
      && same_text? row.snapshot.source_fingerprint (some job.source_fingerprint)

module _ {M : Type 0} (codec : Codec M) where
  -- The row of the target against the request, before the payload is read.
  abbrev pub target_row_matches : TargetRow → Request M → Text → Bool
  target_row_matches target request fingerprint =
      target.snapshot.projection_version == request.projection_version
      && same_text? target.snapshot.source_fingerprint (some fingerprint)
      && boundary_matches_request target.snapshot.mark request

  abbrev pub payload_matches : Request M → Request M → Text → Text → Bool
  payload_matches persisted request segment_id fingerprint =
      text_eq persisted.session_id request.session_id
      && same_start_user (start_user_of persisted.boundary) request
      && boundary_matches_request (mark_of persisted.boundary) request
      && persisted.projection_version == request.projection_version
      && text_eq (codec.segment_id persisted) segment_id
      && text_eq (codec.fingerprint persisted) fingerprint

  -- `targetRequest`, and false where it throws.
  unfoldable pub decoded_and : (Request M → Bool) → Text → Bool
  decoded_and test payload = elim (codec.decode payload) [
    | ok persisted ↦ test persisted
    | err e ↦ false
  ]

  -- `targetMatchesRequest`
  unfoldable pub target_matches_request : TargetRow → Request M → Text → Text → Bool
  target_matches_request target request segment_id fingerprint =
      target_row_matches target request fingerprint
      && decoded_and (λ persisted. payload_matches persisted request segment_id fingerprint)
          target.payload

  -- `targetMatchesJob`
  unfoldable pub target_matches_job : TargetRow → ClaimedJob M → Bool
  target_matches_job target job =
      target.job_id == job.id
      && target.snapshot.projection_version == job.request.projection_version
      && target.snapshot.source_generation == job.source_generation
      && same_text? target.snapshot.source_fingerprint (some job.source_fingerprint)
      && boundary_matches_request target.snapshot.mark job.request
      && target_matches_request target job.request codec.segment job.source_fingerprint

  abbrev pub failed_payload_matches : TargetRow → JobRow → Request M → Bool
  failed_payload_matches target job persisted =
      boundary_matches_request target.snapshot.mark persisted
      && boundary_matches_request job.snapshot.mark persisted
      && persisted.projection_version == job.snapshot.projection_version
      && text_eq persisted.session_id job.session_id
      && same_start_user job.start_user_message_id persisted
      && text_eq (codec.segment_id persisted) codec.segment
      && same_text? (some (codec.fingerprint persisted)) job.snapshot.source_fingerprint

  -- `failedTargetMatchesJob`
  unfoldable pub failed_target_matches_job : TargetRow → JobRow → Bool
  failed_target_matches_job target job =
      target.job_id == job.id
      && target.snapshot.source_generation == job.snapshot.source_generation
      && same_text? target.snapshot.source_fingerprint job.snapshot.source_fingerprint
      && target.snapshot.projection_version == job.snapshot.projection_version
      && decoded_and (failed_payload_matches target job) target.payload
