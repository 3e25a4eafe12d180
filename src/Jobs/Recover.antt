-- ===== src/Jobs/Recover.antt =====
-- server/src/database.ts: `recoverRunningJobs`, for one segment with running jobs, when a worker starts.
use reflection.Common.{ℕ, Bool, true, false, Option, none, some, ◌==◌, if◌then◌else◌}
use reflection.Common.Text.{Text}
use reflection.Jobs.Codec.{Codec}
use reflection.Jobs.Rows.{
  pending, superseded, is_running, worker_stopped, superseded_while_stopped, JobRow, TargetRow,
  Group, same_snapshot, update_jobs, row_count,
}
use reflection.Jobs.Claim.{quarantine}

module _ {M : Type 0} (codec : Codec M) (now : ℕ) where
  abbrev pub abandoned_job : JobRow → JobRow
  abandoned_job j = record j {
    payload = none;
    status = superseded;
    lease_id = none;
    started_at = none;
    finished_at = some now;
    next_attempt_at = now;
    error = some superseded_while_stopped;
  }

  abbrev pub stored_payload : TargetRow → Text
  stored_payload target =
      if target.snapshot.mark.source_boundary_version == 3
      then target.payload
      else codec.without_source_id target.payload

  -- The attempts are counted on only for the same snapshot.
  abbrev pub resumed_job : TargetRow → JobRow → JobRow
  resumed_job target j = record j {
    snapshot = target.snapshot;
    payload = some (stored_payload target);
    processing_priority = target.processing_priority;
    status = pending;
    attempts = if same_snapshot target.snapshot j.snapshot then j.attempts else 0;
    lease_id = none;
    started_at = none;
    finished_at = none;
    next_attempt_at = now;
    error = some worker_stopped;
  }

  unfoldable pub recovered_job : Option TargetRow → JobRow → JobRow
  recovered_job none j = abandoned_job j
  recovered_job (some target) j =
      if target.job_id == j.id then resumed_job target j else abandoned_job j

  -- The group, and the number of the recovered jobs; `owned` is what `validateSegmentOwnership` finds.
  unfoldable pub recover_running_jobs : Bool → Group → Group × ℕ
  recover_running_jobs false group = (quarantine now group, 0)
  recover_running_jobs true group = (
    record group {
      jobs = update_jobs (λ j. is_running j.status) (recovered_job group.target) group.jobs;
    },
    row_count (λ j. is_running j.status) group.jobs,
  )
