-- ===== src/Jobs/Attempt.antt =====
-- server/src/database.ts: `finishFailedAttempt` and `publishExtraction`, and `#requeueLatestTarget`,
-- which ends an attempt whose snapshot is no more the wanted one.
use reflection.Common.{
  ℕ, ◌+◌, ◌*◌, Bool, true, false, ◌&&◌, not, Option, none, some, List, any, find, leb, ◌==◌,
  if◌then◌else◌,
}
use reflection.Common.Result.{Result, ok, err, ◌>>=◌, ◌>>◌, throw_if}
use reflection.Common.Text.{Text, text_eq}
use reflection.Jobs.Codec.{Codec, Extraction, projection_boundary}
use reflection.Jobs.Rows.{
  Status, pending, failed, is_running, attempt_failed, JobRow, TargetRow, SegmentRow, Staged, Group,
  Failure, request_refused, claim_mismatch, lease_changed, target_changed, blank_summary,
  invalid_payload_stored, same_text?, same_mark, update_jobs, row_count, has_id, holds_lease,
  supersede,
}
use reflection.Jobs.Match.{
  ClaimedJob, persisted_job_matches_claim, boundary_matches_request, target_matches_job,
}
use reflection.Jobs.Eligible.{summary_has_content, extraction_validation_version, projection_safe}
use reflection.Jobs.Claim.{truncate_code_points}

-- The snapshot, the payload and the priority of the target, for another first attempt.
abbrev pub requeued_job : ℕ → TargetRow → Text → JobRow → JobRow
requeued_job now target payload j = record j {
  snapshot = target.snapshot;
  payload = some payload;
  processing_priority = target.processing_priority;
  status = pending;
  attempts = 0;
  lease_id = none;
  error = none;
  started_at = none;
  finished_at = none;
  next_attempt_at = now;
}

-- `targetMatchesJob` for the target that there may be.
module _ {M : Type 0} (codec : Codec M) where
  unfoldable pub wanted_by : Option TargetRow → ClaimedJob M → Bool
  wanted_by none job = false
  wanted_by (some target) job = target_matches_job codec target job

  -- `persistedPayload`
  unfoldable pub persisted_payload : Text → Result Failure Text
  persisted_payload payload = elim (codec.decode payload) [
    | ok request ↦ ok (codec.encode request)
    | err e ↦ err invalid_payload_stored
  ]

  -- `#validateClaim`, with an owned segment.
  unfoldable pub validate_claim : Group → ClaimedJob M → Result Failure (Unit {0})
  validate_claim group job =
      throw_if (not (codec.accepts job.request)) request_refused
      >> throw_if
          (not (
            text_eq (codec.segment_id job.request) codec.segment
            && text_eq (codec.fingerprint job.request) job.source_fingerprint
            && any (has_id job.id) group.jobs))
          claim_mismatch

  module _ (now : ℕ) (group : Group) (job : ClaimedJob M) where
    -- An update of the job that throws unless the lease is still held.
    unfoldable pub update_leased : (JobRow → JobRow) → Result Failure (List JobRow)
    update_leased change =
        if row_count (holds_lease job.id job.lease_id) group.jobs == 1
        then ok (update_jobs (holds_lease job.id job.lease_id) change group.jobs)
        else err lease_changed

    abbrev requeue_other : TargetRow → Text → List JobRow → Group
    requeue_other target payload jobs = record group {
      jobs =
          update_jobs (λ j. has_id target.job_id j && not (is_running j.status))
            (requeued_job now target payload) jobs;
    }

    -- `#requeueLatestTarget`
    unfoldable pub requeue_latest_target : Option TargetRow → Result Failure Group
    requeue_latest_target none = do
      jobs ← update_leased (supersede now)
      ok (record group { jobs = jobs })
    requeue_latest_target (some target) =
        if target.job_id == job.id
        then (do
          payload ← persisted_payload target.payload
          jobs ← update_leased (requeued_job now target payload)
          ok (record group { jobs = jobs }))
        else (do
          jobs ← update_leased (supersede now)
          payload ← persisted_payload target.payload
          ok (requeue_other target payload jobs))

    abbrev pub holds : JobRow → Bool
    holds row = is_running row.status && same_text? row.lease_id (some job.lease_id)

    abbrev failed_or_pending : Option ℕ → Status
    failed_or_pending none = failed
    failed_or_pending (some seconds) = pending

    abbrev finished : Option ℕ → Option ℕ
    finished none = some now
    finished (some seconds) = none

    abbrev next_attempt : Option ℕ → ℕ
    next_attempt none = now
    next_attempt (some seconds) = now + seconds * 1000

    abbrev pub ended_attempt : Text → Option ℕ → JobRow → JobRow
    ended_attempt error retry_after_seconds j = record j {
      status = failed_or_pending retry_after_seconds;
      lease_id = none;
      error = some (attempt_failed (truncate_code_points error 4000));
      started_at = none;
      finished_at = finished retry_after_seconds;
      next_attempt_at = next_attempt retry_after_seconds;
    }

    -- The target is what is committed, by a safe projection, and has nothing staged.
    unfoldable pub is_committed : TargetRow → Option Staged → Option SegmentRow → Bool
    is_committed target none (some s) =
        s.snapshot.source_generation == target.snapshot.source_generation
        && same_text? s.snapshot.source_fingerprint target.snapshot.source_fingerprint
        && same_mark s.snapshot.mark target.snapshot.mark
        && leb target.snapshot.projection_version s.snapshot.projection_version
        && projection_safe codec s
    is_committed target _ _ = false

    -- Only a terminal failure deletes.
    unfoldable pub kept_target : Option ℕ → Option TargetRow → Option TargetRow
    kept_target (some seconds) target = target
    kept_target none none = none
    kept_target none (some target) =
        if is_committed target target.staged group.segment then none else some target

    unfoldable pub finish_wanted : Text → Option ℕ → Group × Bool
    finish_wanted error retry_after_seconds =
        if row_count (holds_lease job.id job.lease_id) group.jobs == 1
        then (
          record group {
            jobs =
                update_jobs (holds_lease job.id job.lease_id)
                  (ended_attempt error retry_after_seconds) group.jobs;
            target = kept_target retry_after_seconds group.target;
          },
          true,
        )
        else (group, false)

    unfoldable pub finish_held : Text → Option ℕ → Result Failure (Group × Bool)
    finish_held error retry_after_seconds =
        if wanted_by group.target job
        then ok (finish_wanted error retry_after_seconds)
        else (do requeued ← requeue_latest_target group.target; ok (requeued, true))

    unfoldable pub finish_current : Text → Option ℕ → Option JobRow → Result Failure (Group × Bool)
    finish_current error retry_after_seconds none = ok (group, false)
    finish_current error retry_after_seconds (some current) =
        if holds current && persisted_job_matches_claim current job
        then finish_held error retry_after_seconds
        else ok (group, false)

    unfoldable pub finish_failed_attempt : Text → Option ℕ → Result Failure (Group × Bool)
    finish_failed_attempt error retry_after_seconds =
        validate_claim group job
        >> finish_current error retry_after_seconds (find (has_id job.id) group.jobs)

    -- `extractionResultForPersistence`, of a result that was parsed.
    unfoldable pub extraction_result_for_persistence : Extraction → Result Failure Extraction
    extraction_result_for_persistence result =
        if summary_has_content result.summary then ok result else err blank_summary

    abbrev summary_fingerprint : Extraction → Text
    summary_fingerprint result =
        codec.projection_fingerprint (projection_boundary job.request.boundary) result.summary
          job.request.projection_version

    abbrev pub staged_by : TargetRow → Extraction → Staged
    staged_by target result = record {
      extraction_result = codec.write_extraction result;
      extraction_validation_version = extraction_validation_version;
      extraction_validation_fingerprint =
          codec.validation_fingerprint (codec.write_extraction result) extraction_validation_version
            target.snapshot.source_fingerprint;
      summary_commit_fingerprint = summary_fingerprint result;
    }

    -- The `WHERE` of the updates of a target.
    unfoldable pub is_claimed_target : TargetRow → Bool
    is_claimed_target target =
        target.job_id == job.id
        && target.snapshot.source_generation == job.source_generation
        && same_text? target.snapshot.source_fingerprint (some job.source_fingerprint)
        && target.snapshot.projection_version == job.request.projection_version
        && boundary_matches_request target.snapshot.mark job.request

    unfoldable pub stage : Extraction → Option TargetRow → Result Failure (Group × Bool)
    stage result none = err target_changed
    stage result (some target) =
        if is_claimed_target target
        then ok (
          record group {
            target = some (record target { staged = some (staged_by target result) });
          },
          true,
        )
        else err target_changed

    unfoldable pub publish_held : Extraction → Result Failure (Group × Bool)
    publish_held result =
        if wanted_by group.target job
        then stage result group.target
        else (do requeued ← requeue_latest_target group.target; ok (requeued, false))

    unfoldable pub publish_current : Extraction → Option JobRow → Result Failure (Group × Bool)
    publish_current result none = ok (group, false)
    publish_current result (some current) =
        if holds current && persisted_job_matches_claim current job
        then publish_held result
        else ok (group, false)

    unfoldable pub publish_extraction : Extraction → Result Failure (Group × Bool)
    publish_extraction value = do
      result ← extraction_result_for_persistence value
      validate_claim group job >> publish_current result (find (has_id job.id) group.jobs)
