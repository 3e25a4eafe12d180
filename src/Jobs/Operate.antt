-- ===== src/Jobs/Operate.antt =====
-- server/src/database.ts: `retryFailedJob` and `supersedeFailedJob`.
use reflection.Common.{
  ℕ, Bool, true, false, ◌&&◌, ◌||◌, not, Option, none, some, find, if◌then◌else◌,
}
use reflection.Common.Result.{Result, ok, err, ◌>>=◌, ◌>>◌, throw_if}
use reflection.Common.Text.{Text}
use reflection.Jobs.Codec.{Codec}
use reflection.Jobs.Rows.{
  Status, superseded, is_failed, JobRow, TargetRow, Group, Failure, newer_snapshot_exists,
  only_failed_can_be_retried, update_jobs, has_id, supersede,
}
use reflection.Jobs.Match.{failed_target_matches_job}
use reflection.Jobs.Attempt.{requeued_job, persisted_payload}

abbrev pub has_lease : Option Text → Bool
has_lease none = false
has_lease (some lease) = true

abbrev pub is_superseded : Status → Bool
is_superseded superseded = true
is_superseded _ = false

-- `WHERE id = $1 AND status = 'failed' AND lease_id IS NULL`
abbrev pub is_failed_with : ℕ → JobRow → Bool
is_failed_with id j = has_id id j && is_failed j.status && not (has_lease j.lease_id)

abbrev pub restarted : Bool → TargetRow → TargetRow
restarted restart target = if restart then record target { staged = none } else target

module _ {M : Type 0} (codec : Codec M) where
  abbrev matches_failed : Option TargetRow → JobRow → Bool
  matches_failed none job = false
  matches_failed (some target) job = failed_target_matches_job codec target job

  unfoldable pub failed_target : Option TargetRow → JobRow → Result Failure TargetRow
  failed_target none job = err newer_snapshot_exists
  failed_target (some target) job =
      if failed_target_matches_job codec target job then ok target else err newer_snapshot_exists

  unfoldable pub check_superseded : JobRow → Result Failure (Unit {0})
  check_superseded job = throw_if (is_superseded job.status) newer_snapshot_exists

  unfoldable pub check_failed : JobRow → Result Failure (Unit {0})
  check_failed job =
      throw_if (not (is_failed job.status) || has_lease job.lease_id) only_failed_can_be_retried

  -- The checks of `#lockCurrentFailedTargetJob`.
  unfoldable pub check_failed_job : Option TargetRow → JobRow → Result Failure TargetRow
  check_failed_job target job =
      check_superseded job >> (check_failed job >> failed_target target job)

  module _ (now : ℕ) (group : Group) (id : ℕ) where
    unfoldable pub retry_target : Bool → TargetRow → Result Failure (Option Group)
    retry_target restart_extraction target = do
      payload ← persisted_payload codec target.payload
      ok (
          some (record group {
            target = some (restarted restart_extraction target);
            jobs = update_jobs (is_failed_with id) (requeued_job now target payload) group.jobs;
          }))

    -- Nothing is returned where there is no such job.
    unfoldable pub retry_failed_job : Bool → Result Failure (Option Group)
    retry_failed_job restart_extraction = elim (find (has_id id) group.jobs) [
      | none ↦ ok none
      | some job ↦ check_failed_job group.target job >>= retry_target restart_extraction
    ]

    unfoldable pub supersede_target : TargetRow → Result Failure (Option Group)
    supersede_target target = ok (
        some (record group {
          target = none;
          jobs = update_jobs (is_failed_with id) (supersede now) group.jobs;
        }))

    unfoldable pub supersede_failed_job : Result Failure (Option Group)
    supersede_failed_job = elim (find (has_id id) group.jobs) [
      | none ↦ ok none
      | some job ↦ check_failed_job group.target job >>= supersede_target
    ]
