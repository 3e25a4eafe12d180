-- ===== src/Jobs/Enqueue.antt =====
-- server/src/database.ts: `enqueue`, which records what is wanted of a segment.
use reflection.Common.{
  ℕ, Bool, false, ◌&&◌, ◌||◌, not, Option, none, some, any, find, ltb, ◌==◌, if◌then◌else◌,
}
use reflection.Common.Result.{Result, ok, err, ◌>>=◌, ◌>>◌, throw_if}
use reflection.Jobs.Boundary.{is_native}
use reflection.Jobs.Codec.{Request, Codec}
use reflection.Jobs.Rows.{
  pending, succeeded, superseded, is_running, is_failed, snapshot_superseded, JobRow, Staged,
  TargetRow, SegmentRow, Group, Failure, job_disappeared, request_refused, native_source_expected,
  same_text?, update_jobs, has_id,
}
use reflection.Jobs.Match.{boundary_matches_request, same_start_user, target_matches_request}
use reflection.Jobs.Eligible.{
  summary_has_content, projection_safe_version, staged_eligible, projection_safe,
}
use reflection.Jobs.Want.{larger, snapshot_of, new_job, insert_job, boundary_job, want}

module _ {M : Type 0} (codec : Codec M) where
  module _ (now : ℕ) (request : Request M) where
    abbrev pub below_segment : Option SegmentRow → Bool
    below_segment none = false
    below_segment (some s) = ltb request.projection_version s.snapshot.projection_version

    abbrev pub below_target : Option TargetRow → Bool
    below_target none = false
    below_target (some t) = ltb request.projection_version t.snapshot.projection_version

    abbrev pub below_job : Option JobRow → Bool
    below_job none = false
    below_job (some j) = ltb request.projection_version j.snapshot.projection_version

    unfoldable pub lower_version : Group → Bool
    lower_version group =
        below_segment group.segment
        || below_target group.target
        || below_job (boundary_job codec now request group.jobs)

    -- The branch of a lower projection version.
    unfoldable pub ignore : Group → Option JobRow → Group × ℕ
    ignore group (some j) = (group, j.id)
    ignore group none = (
      insert_job codec now request
          (record (new_job codec now request group.next_id 0 superseded) {
            finished_at = some now;
            error = some snapshot_superseded;
          })
          group,
      group.next_id,
    )

    -- `resetStaleExtraction`
    abbrev pub stale_extraction : TargetRow → Option Staged → Option JobRow → Bool
    stale_extraction target (some staged) (some j) =
        not (staged_eligible codec target staged) && is_failed j.status
    stale_extraction target _ _ = false

    unfoldable pub reset_stale : Group → TargetRow → Bool
    reset_stale group target =
        stale_extraction target target.staged (find (has_id target.job_id) group.jobs)

    -- `{...payloadRequest, processing_priority: priority}`
    abbrev pub with_priority : ℕ → Request M
    with_priority priority = record request { processing_priority = priority }

    abbrev pub refreshed_target : TargetRow → Bool → ℕ → TargetRow
    refreshed_target target reset priority = record target {
      payload = codec.encode (with_priority priority);
      processing_priority = priority;
      staged = if reset then none else target.staged;
    }

    abbrev pub reset_job : JobRow → JobRow
    reset_job j = record j {
      status = pending;
      attempts = 0;
      error = none;
      lease_id = none;
      started_at = none;
      finished_at = none;
      next_attempt_at = now;
    }

    abbrev pub refreshed_job : Bool → ℕ → JobRow → JobRow
    refreshed_job reset priority j =
        let kept = if is_running j.status then j else record j {
          payload = some (codec.encode (with_priority priority));
          processing_priority = priority;
        } in
        if reset then reset_job kept else kept

    -- The branch of the snapshot that is wanted already.
    unfoldable pub refresh : Group → TargetRow → Group × ℕ
    refresh group target =
        let priority = larger target.processing_priority request.processing_priority in
        let reset = reset_stale group target in
        (
          record group {
            target = some (refreshed_target target reset priority);
            jobs = update_jobs (has_id target.job_id) (refreshed_job reset priority) group.jobs;
          },
          target.job_id,
        )

    -- `currentSegment` holds the snapshot, and nothing else is wanted.
    unfoldable pub is_settled : SegmentRow → Bool
    is_settled s =
        same_start_user s.start_user_message_id request
        && boundary_matches_request s.snapshot.mark request
        && same_text? s.snapshot.source_fingerprint (some (codec.fingerprint request))
        && s.snapshot.projection_version == request.projection_version
        && (ltb request.projection_version projection_safe_version || projection_safe codec s)
        && summary_has_content s.summary

    abbrev first_finish : Option ℕ → Option ℕ
    first_finish none = some now
    first_finish (some time) = some time

    abbrev pub settled_job : SegmentRow → JobRow → JobRow
    settled_job s j = record j {
      status = succeeded;
      lease_id = none;
      payload = none;
      snapshot = snapshot_of codec now request s.snapshot.source_generation;
      processing_priority = larger j.processing_priority request.processing_priority;
      error = none;
      started_at = none;
      finished_at = first_finish j.finished_at;
    }

    -- The branch of the snapshot that is committed.
    unfoldable pub settle : Group → SegmentRow → Option JobRow → Group × ℕ
    settle group s none = (
      insert_job codec now request
          (record (new_job codec now request group.next_id s.snapshot.source_generation succeeded) {
            finished_at = some now;
          })
          group,
      group.next_id,
    )
    settle group s (some j) = (
      record group {
        jobs =
            update_jobs (λ row. has_id j.id row && not (is_running row.status)) (settled_job s)
              group.jobs;
      },
      j.id,
    )

    -- `#jobRow`, and the response with its id.
    unfoldable pub respond : Group × ℕ → Result Failure (Group × ℕ)
    respond (group, id) = if any (has_id id) group.jobs then ok (group, id) else err job_disappeared

    abbrev want_and_respond : Group → Result Failure (Group × ℕ)
    want_and_respond group = want codec now request group >>= respond

    unfoldable pub settle_or_want :
        Group → Option TargetRow → Option SegmentRow → Result Failure (Group × ℕ)
    settle_or_want group none (some s) =
        if is_settled s
        then respond (settle group s (boundary_job codec now request group.jobs))
        else want_and_respond group
    settle_or_want group _ _ = want_and_respond group

    -- A snapshot that is the target's is refreshed.
    unfoldable pub refresh_or : Group → Option TargetRow → Result Failure (Group × ℕ)
    refresh_or group none = settle_or_want group none group.segment
    refresh_or group (some t) =
        if target_matches_request codec t request codec.segment (codec.fingerprint request)
        then respond (refresh group t)
        else settle_or_want group (some t) group.segment

    -- The segment of the group is the request's: `ingestSegmentIdForRequest` finds the group.
    unfoldable pub record_request : Group → Result Failure (Group × ℕ)
    record_request group =
        if lower_version group
        then respond (ignore group (boundary_job codec now request group.jobs))
        else refresh_or group group.target

    -- `parseIngestSegmentCreate`
    unfoldable pub check_request : Result Failure (Unit {0})
    check_request = throw_if (not (codec.accepts request)) request_refused

    -- `NativeSourceError`
    unfoldable pub check_source : Result Failure (Unit {0})
    check_source =
        throw_if (is_native request.boundary && not codec.native_source) native_source_expected

    unfoldable pub enqueue : Group → Result Failure (Group × ℕ)
    enqueue group = check_request >> (check_source >> record_request group)
