-- ===== src/Jobs/Want.antt =====
-- server/src/database.ts: `enqueue` where it takes up a new snapshot.
use reflection.Common.{
  ℕ, suc, ◌+◌, Bool, ◌&&◌, ◌||◌, not, Option, none, some, List, [], ◌∷◌, ◌++◌, find, leb, ltb, ◌==◌,
  if◌then◌else◌, all,
}
use reflection.Common.Result.{Result, ok, err}
use reflection.Common.Text.{text_eq}
use reflection.Jobs.Boundary.{Boundary, turns, messages, native, mark_of, start_user_of}
use reflection.Jobs.Codec.{Request, Codec}
use reflection.Jobs.Rows.{
  Status, pending, is_running, is_failed, is_pending, Snapshot, JobRow, TargetRow, SegmentRow,
  Group, Failure, running_boundary_job_disappeared, same_text?, update_jobs, row_count, has_id,
  supersede,
}
use reflection.Jobs.Match.{boundary_matches_request}

abbrev pub larger : ℕ → ℕ → ℕ
larger a b = if ltb a b then b else a

unfoldable pub top_generation : List JobRow → ℕ
top_generation [] = 0
top_generation (j ∷ jobs) = larger j.snapshot.source_generation (top_generation jobs)

module _ {M : Type 0} (codec : Codec M) (now : ℕ) (request : Request M) where
  abbrev pub snapshot_of : ℕ → Snapshot
  snapshot_of generation = record {
    mark = mark_of request.boundary;
    projection_version = request.projection_version;
    source_generation = generation;
    source_fingerprint = some (codec.fingerprint request);
  }

  -- The columns that an `INSERT INTO extraction_jobs` gives, and the defaults of the others.
  unfoldable pub new_job : ℕ → ℕ → Status → JobRow
  new_job id generation status = record {
    id = id;
    session_id = request.session_id;
    start_user_message_id = start_user_of request.boundary;
    snapshot = snapshot_of generation;
    payload = none;
    processing_priority = request.processing_priority;
    status = status;
    attempts = 0;
    lease_id = none;
    error = none;
    started_at = none;
    finished_at = none;
    next_attempt_at = now;
  }

  abbrev pub insert_job : JobRow → Group → Group
  insert_job j group = record group { jobs = group.jobs ++ j ∷ []; next_id = suc group.next_id }

  unfoldable pub boundary_job : List JobRow → Option JobRow
  boundary_job jobs = find (λ j. boundary_matches_request j.snapshot.mark request) jobs

  abbrev pub segment_generation : Option SegmentRow → ℕ
  segment_generation none = 0
  segment_generation (some s) = s.snapshot.source_generation

  abbrev pub target_generation : Option TargetRow → ℕ
  target_generation none = 0
  target_generation (some t) = t.snapshot.source_generation

  unfoldable pub next_generation : Group → ℕ
  next_generation group =
      larger (segment_generation group.segment)
        (larger (target_generation group.target) (top_generation group.jobs))
      + 1

  -- The unique indexes: user messages for version 1, source messages otherwise.
  abbrev conflict_key : Boundary → JobRow → Bool
  conflict_key (turns a b) j =
      j.snapshot.mark.source_boundary_version == 1
      && same_text? j.start_user_message_id (some a)
      && same_text? j.snapshot.mark.end_user_message_id (some b)
  conflict_key (messages a b c d) j =
      j.snapshot.mark.source_boundary_version == 2
      && same_text? j.snapshot.mark.start_source_message_id (some c)
      && same_text? j.snapshot.mark.end_source_message_id (some d)
  conflict_key (native c d) j =
      j.snapshot.mark.source_boundary_version == 3
      && same_text? j.snapshot.mark.start_source_message_id (some c)
      && same_text? j.snapshot.mark.end_source_message_id (some d)

  abbrev pub conflicts : JobRow → Bool
  conflicts j = text_eq j.session_id request.session_id && conflict_key request.boundary j

  -- The unique index, with one row at most that conflicts; and the rows of a segment have its session
  -- and its start, so that those with the request's other columns conflict.
  unfoldable pub has_index : Group → Bool
  has_index group =
      all (λ j. not (boundary_matches_request j.snapshot.mark request) || conflicts j) group.jobs
      && leb (row_count conflicts group.jobs) 1

  abbrev pub wanted_job : ℕ → ℕ → JobRow
  wanted_job id generation = record (new_job id generation pending) {
    payload = some (codec.encode request);
  }

  -- `INSERT ... ON CONFLICT ... DO UPDATE ... RETURNING id`
  unfoldable pub upsert : Group → ℕ → Option JobRow → Group × Option ℕ
  upsert group generation none =
      (insert_job (wanted_job group.next_id generation) group, some group.next_id)
  upsert group generation (some j) = if is_running j.status then (group, none) else (
    record group {
      jobs = update_jobs (has_id j.id) (λ row. wanted_job row.id generation) group.jobs;
    },
    some j.id,
  )

  abbrev pub wanted_target : ℕ → ℕ → TargetRow
  wanted_target job_id generation = record {
    job_id = job_id;
    snapshot = snapshot_of generation;
    payload = codec.encode request;
    processing_priority = request.processing_priority;
    staged = none;
  }

  -- `supersededIds`
  abbrev pub is_left_behind : ℕ → JobRow → Bool
  is_left_behind id j = not (has_id id j) && (is_pending j.status || is_failed j.status)

  unfoldable pub retarget : Group → ℕ → ℕ → Group × ℕ
  retarget group generation id = (
    record group {
      target = some (wanted_target id generation);
      jobs = update_jobs (is_left_behind id) (supersede now) group.jobs;
    },
    id,
  )

  -- `insertedJob ?? boundaryJob`
  unfoldable pub choose : ℕ → Group × Option ℕ → Option JobRow → Result Failure (Group × ℕ)
  choose generation (group, some id) found = ok (retarget group generation id)
  choose generation (group, none) (some j) = ok (retarget group generation j.id)
  choose generation (group, none) none = err running_boundary_job_disappeared

  -- The branch of a new snapshot. What was read of the jobs before the upsert decides which are left
  -- behind: the upserted job is not.
  unfoldable pub want : Group → Result Failure (Group × ℕ)
  want group =
      choose (next_generation group)
        (upsert group (next_generation group) (find conflicts group.jobs)) (boundary_job group.jobs)
