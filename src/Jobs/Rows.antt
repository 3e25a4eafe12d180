-- ===== src/Jobs/Rows.antt =====
-- server/src/database.ts: the columns that it reads and writes, and the updates of them.
use reflection.Common.{
  ℕ, suc, Bool, true, false, ◌&&◌, Option, none, some, List, [], ◌∷◌, ◌==◌, if◌then◌else◌,
}
use reflection.Common.Text.{Text, text_eq}
use reflection.Jobs.Boundary.{Mark}

pub data Status : Type 0 where
  pending running succeeded failed superseded : Status

abbrev pub is_pending : Status → Bool
is_pending pending = true
is_pending _ = false

abbrev pub is_running : Status → Bool
is_running running = true
is_running _ = false

abbrev pub is_failed : Status → Bool
is_failed failed = true
is_failed _ = false

-- The column `error`: the fixed texts of the source, and those with what was thrown.
pub data JobError : Type 0 where
  snapshot_superseded worker_stopped superseded_while_stopped quarantined : JobError
  payload_is_null source_identity_mismatch : JobError
  invalid_payload invalid_extraction attempt_failed : Text → JobError

-- What three tables record of the submitted messages.
pub record Snapshot : Type 0 where
  pub mark : Mark
  pub projection_version : ℕ
  pub source_generation : ℕ
  pub source_fingerprint : Option Text

-- A row of `extraction_jobs`.
pub record JobRow : Type 0 where
  pub id : ℕ
  pub session_id : Text
  pub start_user_message_id : Option Text
  pub snapshot : Snapshot
  pub payload : Option Text
  pub processing_priority : ℕ
  pub status : Status
  pub attempts : ℕ
  pub lease_id : Option Text
  pub error : Option JobError
  pub started_at : Option ℕ
  pub finished_at : Option ℕ
  pub next_attempt_at : ℕ

-- The four columns of a staged extraction, which are all null or none.
pub record Staged : Type 0 where
  pub extraction_result : Text
  pub extraction_validation_version : ℕ
  pub extraction_validation_fingerprint : Text
  pub summary_commit_fingerprint : Text

-- The row of `segment_targets`: the snapshot that is wanted, and its job.
pub record TargetRow : Type 0 where
  pub job_id : ℕ
  pub snapshot : Snapshot
  pub payload : Text
  pub processing_priority : ℕ
  pub staged : Option Staged

-- The row of `segments`: the snapshot that is committed.
pub record SegmentRow : Type 0 where
  pub session_id : Text
  pub start_user_message_id : Option Text
  pub snapshot : Snapshot
  pub summary : Text
  pub projection_commit_fingerprint : Text

-- `next_id` is what the sequence of `extraction_jobs.id` gives next.
pub record Group : Type 0 where
  pub jobs : List JobRow
  pub target : Option TargetRow
  pub segment : Option SegmentRow
  pub next_id : ℕ

-- What the source throws.
pub data Failure : Type 0 where
  running_boundary_job_disappeared job_disappeared claim_mismatch claimed_job_disappeared : Failure
  lease_changed target_changed staged_missing staged_changed prepared_mismatch request_refused
        native_source_expected :
      Failure
  newer_snapshot_exists only_failed_can_be_retried blank_summary invalid_payload_stored : Failure

-- `IS NOT DISTINCT FROM`, and `===` on a string or null.
unfoldable pub same_text? : Option Text → Option Text → Bool
same_text? none none = true
same_text? (some a) (some b) = text_eq a b
same_text? _ _ = false

unfoldable pub same_mark : Mark → Mark → Bool
same_mark a b =
    same_text? a.end_user_message_id b.end_user_message_id
    && a.source_boundary_version == b.source_boundary_version
    && same_text? a.start_source_message_id b.start_source_message_id
    && same_text? a.end_source_message_id b.end_source_message_id

-- The comparison that the queries make of a target with a job or with a segment.
unfoldable pub same_snapshot : Snapshot → Snapshot → Bool
same_snapshot a b =
    same_mark a.mark b.mark
    && a.projection_version == b.projection_version
    && a.source_generation == b.source_generation
    && same_text? a.source_fingerprint b.source_fingerprint

-- `UPDATE extraction_jobs SET f WHERE p`
unfoldable pub update_jobs : (JobRow → Bool) → (JobRow → JobRow) → List JobRow → List JobRow
update_jobs p f [] = []
update_jobs p f (j ∷ jobs) = (if p j then f j else j) ∷ update_jobs p f jobs

-- Its `rowCount`.
unfoldable pub row_count : (JobRow → Bool) → List JobRow → ℕ
row_count p [] = 0
row_count p (j ∷ jobs) = if p j then suc (row_count p jobs) else row_count p jobs

abbrev pub has_id : ℕ → JobRow → Bool
has_id id j = j.id == id

-- `WHERE id = $1 AND status = 'running' AND lease_id = $2`
abbrev pub holds_lease : ℕ → Text → JobRow → Bool
holds_lease id lease j = has_id id j && is_running j.status && same_text? j.lease_id (some lease)

-- `status = 'superseded', payload = NULL, lease_id = NULL, error = 'snapshot was superseded'`
abbrev pub supersede : ℕ → JobRow → JobRow
supersede now j = record j {
  status = superseded;
  payload = none;
  lease_id = none;
  error = some snapshot_superseded;
  started_at = none;
  finished_at = some now;
}
