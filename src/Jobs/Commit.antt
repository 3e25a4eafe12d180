-- ===== src/Jobs/Commit.antt =====
-- server/src/database.ts: `commitResolution`, which makes the wanted snapshot the committed one.
use reflection.Common.{
  ℕ, Bool, true, false, ◌&&◌, not, Option, none, some, List, [], ◌∷◌, find, ltb, ◌==◌,
  if◌then◌else◌,
}
use reflection.Common.Result.{Result, ok, err, ◌>>=◌, ◌>>◌, throw_if}
use reflection.Common.Text.{Text, text_eq}
use reflection.Jobs.Boundary.{Boundary, mark_of, start_user_of}
use reflection.Jobs.Codec.{Codec, Extraction, ExtractedClaim, projection_boundary}
use reflection.Jobs.Rows.{
  succeeded, JobRow, Staged, TargetRow, SegmentRow, Group, Failure, lease_changed, target_changed,
  staged_missing, staged_changed, prepared_mismatch, same_text?, update_jobs, row_count, has_id,
  holds_lease,
}
use reflection.Jobs.Match.{
  ClaimedJob, persisted_job_matches_claim, boundary_matches_request, same_start_user,
}
use reflection.Jobs.Eligible.{staged_eligible, extraction_validation_version}
use reflection.Jobs.Attempt.{
  wanted_by, validate_claim, requeue_latest_target, holds, is_claimed_target,
  extraction_result_for_persistence, update_leased,
}
use reflection.Jobs.Knowledge.{PreparedEntity, ClaimRow, Knowledge, store_knowledge}

-- `PreparedSegment`
pub record PreparedSegment : Type 0 where
  pub id : Text
  pub session_id : Text
  pub boundary : Boundary
  pub summary : Text
  pub entities : List PreparedEntity
  pub claims : List ClaimRow
  pub projection_version : ℕ

abbrev same_claim : ExtractedClaim → ExtractedClaim → Bool
same_claim a b =
    text_eq a.subject b.subject
    && text_eq a.predicate b.predicate
    && text_eq a.confidence b.confidence
    && same_text? a.object_entity b.object_entity
    && same_text? a.object_value b.object_value

unfoldable pub same_claims : List ExtractedClaim → List ExtractedClaim → Bool
same_claims [] [] = true
same_claims (a ∷ as1) (b ∷ bs) = same_claim a b && same_claims as1 bs
same_claims _ _ = false

-- `extractionResultsEqual`
unfoldable pub extraction_results_equal : Extraction → Extraction → Bool
extraction_results_equal left right =
    text_eq left.summary right.summary && same_claims left.claims right.claims

-- What a transaction changes, and what `commitResolution` returns.
pub record Committed : Type 0 where
  pub group : Group
  pub knowledge : Knowledge
  pub accepted : Bool

abbrev pub succeed : ℕ → JobRow → JobRow
succeed now j = record j {
  status = succeeded;
  lease_id = none;
  payload = none;
  error = none;
  finished_at = some now;
}

module _ {M : Type 0} (codec : Codec M) (case_fold : Text → Text) where
  module _ (now : ℕ) (group : Group) (knowledge : Knowledge) (job : ClaimedJob M)
      (prepared : PreparedSegment) where
    unfoldable pub prepared_matches : Extraction → Bool
    prepared_matches result =
        text_eq prepared.id codec.segment
        && text_eq prepared.session_id job.request.session_id
        && same_start_user (start_user_of prepared.boundary) job.request
        && boundary_matches_request (mark_of prepared.boundary) job.request
        && text_eq prepared.summary result.summary
        && prepared.projection_version == job.request.projection_version

    abbrev pub commit_fingerprint : Extraction → Text
    commit_fingerprint result =
        codec.projection_fingerprint (projection_boundary prepared.boundary) result.summary
          prepared.projection_version

    -- The `WHERE` of the deletions of the target.
    abbrev is_staged_here : Extraction → Option Staged → TargetRow → Bool
    is_staged_here result none target = false
    is_staged_here result (some staged) target =
        text_eq staged.extraction_result (codec.write_extraction result)
        && staged.extraction_validation_version == extraction_validation_version
        && text_eq staged.extraction_validation_fingerprint (
            codec.validation_fingerprint staged.extraction_result
              staged.extraction_validation_version target.snapshot.source_fingerprint)
        && text_eq staged.summary_commit_fingerprint (commit_fingerprint result)

    unfoldable pub is_committed_target : Extraction → TargetRow → Bool
    is_committed_target result target =
        is_claimed_target codec now group job target && is_staged_here result target.staged target

    unfoldable pub without_target : Extraction → Option TargetRow → Option TargetRow
    without_target result none = none
    without_target result (some target) =
        if is_committed_target result target then none else some target

    -- A newer projection is committed already.
    unfoldable pub commit_below : Extraction → Result Failure Committed
    commit_below result = do
      jobs ← update_leased codec now group job (succeed now)
      ok (record {
        group = record group { jobs = jobs; target = without_target result group.target };
        knowledge = knowledge;
        accepted = true;
      })

    abbrev pub segment_row : Extraction → SegmentRow
    segment_row result = record {
      session_id = prepared.session_id;
      start_user_message_id = start_user_of prepared.boundary;
      snapshot = record {
        mark = mark_of prepared.boundary;
        projection_version = prepared.projection_version;
        source_generation = job.source_generation;
        source_fingerprint = some job.source_fingerprint;
      };
      summary = result.summary;
      projection_commit_fingerprint = commit_fingerprint result;
    }

    -- The job that has succeeded still holds the snapshot of the claim.
    abbrev pub holds_snapshot : JobRow → Bool
    holds_snapshot j =
        holds_lease job.id job.lease_id j
        && j.snapshot.source_generation == job.source_generation
        && same_text? j.snapshot.source_fingerprint (some job.source_fingerprint)
        && j.snapshot.projection_version == job.request.projection_version
        && boundary_matches_request j.snapshot.mark job.request

    abbrev pub committed_group : Extraction → Group
    committed_group result = record group {
      jobs = update_jobs holds_snapshot (succeed now) group.jobs;
      target = none;
      segment = some (segment_row result);
    }

    -- The `rowCount` of the last update of the job, and that of the deletion of its target.
    unfoldable pub check_updated : Result Failure (Unit {0})
    check_updated = throw_if (not (row_count holds_snapshot group.jobs == 1)) lease_changed

    unfoldable pub check_deleted : Extraction → TargetRow → Result Failure (Unit {0})
    check_deleted result target = throw_if (not (is_committed_target result target)) target_changed

    unfoldable pub commit_target : Extraction → TargetRow → Result Failure Committed
    commit_target result target =
        check_updated
        >> (check_deleted result target
            >> ok (record {
              group = committed_group result;
              knowledge =
                  store_knowledge case_fold prepared.id prepared.entities prepared.claims knowledge;
              accepted = true;
            }))

    abbrev pub is_newer : Option SegmentRow → Bool
    is_newer none = false
    is_newer (some s) = ltb prepared.projection_version s.snapshot.projection_version

    unfoldable pub check_staged : Extraction → TargetRow → Staged → Result Failure (Unit {0})
    check_staged result target staged =
        throw_if
          (not (
            staged_eligible codec target staged
            && text_eq staged.summary_commit_fingerprint (commit_fingerprint result)))
          staged_missing

    -- A staged result that cannot be parsed throws too.
    unfoldable pub check_result : Extraction → Staged → Result Failure (Unit {0})
    check_result result staged = elim (codec.parse_extraction staged.extraction_result) [
      | err e ↦ err staged_changed
      | ok persisted ↦ throw_if (not (extraction_results_equal persisted result)) staged_changed
    ]

    unfoldable pub commit_staged : Extraction → TargetRow → Staged → Result Failure Committed
    commit_staged result target staged =
        check_staged result target staged
        >> (check_result result staged
            >> (if is_newer group.segment
                then commit_below result
                else commit_target result target))

    unfoldable pub commit_wanted : Extraction → Option TargetRow → Result Failure Committed
    commit_wanted result none = err staged_missing
    commit_wanted result (some target) = elim target.staged [
      | none ↦ err staged_missing
      | some staged ↦ commit_staged result target staged
    ]

    abbrev pub rejected : Group → Committed
    rejected unwanted = record { group = unwanted; knowledge = knowledge; accepted = false }

    unfoldable pub requeue : Option TargetRow → Result Failure Committed
    requeue target = do
      requeued ← requeue_latest_target codec now group job target
      ok (rejected requeued)

    unfoldable pub commit_if_wanted : Extraction → Option TargetRow → Result Failure Committed
    commit_if_wanted result target =
        if wanted_by codec target job then commit_wanted result target else requeue target

    unfoldable pub commit_held : Extraction → JobRow → Result Failure Committed
    commit_held result current =
        if persisted_job_matches_claim current job
        then commit_if_wanted result group.target
        else ok (rejected group)

    unfoldable pub commit_current : Extraction → Option JobRow → Result Failure Committed
    commit_current result none = err lease_changed
    commit_current result (some current) =
        if holds codec now group job current then commit_held result current else err lease_changed

    unfoldable pub check_prepared : Extraction → Result Failure (Unit {0})
    check_prepared result = throw_if (not (prepared_matches result)) prepared_mismatch

    unfoldable pub commit_resolution : Extraction → Result Failure Committed
    commit_resolution value = do
      result ← extraction_result_for_persistence codec now group job value
      check_prepared result
          >> (validate_claim codec group job
              >> commit_current result (find (has_id job.id) group.jobs))
