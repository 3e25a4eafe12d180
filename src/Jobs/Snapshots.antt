-- ===== src/Jobs/Snapshots.antt =====
-- What the comparisons of Jobs.Match say of the compared rows.
use reflection.Common.{◌≡◌, true, some, arith}
use reflection.Jobs.Boundary.{mark_of}
use reflection.Jobs.Codec.{Codec}
use reflection.Jobs.Rows.{Snapshot, JobRow, TargetRow}
use reflection.Jobs.Match.{
  ClaimedJob, target_matches_job, persisted_job_matches_claim, failed_target_matches_job,
}
use reflection.Jobs.Updates.{same_text?_sound, same_mark_sound}

-- The snapshot that a claim is for.
abbrev pub claimed_snapshot : {M : Type 0} → ClaimedJob M → Snapshot
claimed_snapshot job = record {
  mark = mark_of job.request.boundary;
  projection_version = job.request.projection_version;
  source_generation = job.source_generation;
  source_fingerprint = some job.source_fingerprint;
}

module _ {M : Type 0} (job : ClaimedJob M) where
  pub job-claimed_snapshot :
      (row : JobRow)
      → persisted_job_matches_claim row job ≡ true
      → row.snapshot ≡ claimed_snapshot job
  job-claimed_snapshot row h = ground (
    arith,
    same_mark_sound row.snapshot.mark (mark_of job.request.boundary),
    same_text?_sound row.snapshot.source_fingerprint (some job.source_fingerprint),
  )

  module _ (codec : Codec M) (t : TargetRow) where
    pub target-claimed_snapshot :
        target_matches_job codec t job ≡ true
        → (t.job_id ≡ job.id) × (t.snapshot ≡ claimed_snapshot job)
    unfolding target_matches_job
    target-claimed_snapshot h = ground (
      arith,
      same_mark_sound t.snapshot.mark (mark_of job.request.boundary),
      same_text?_sound t.snapshot.source_fingerprint (some job.source_fingerprint),
    )

    pub failed_target-snapshot :
        (row : JobRow)
        → failed_target_matches_job codec t row ≡ true
        → (t.job_id ≡ row.id) × (t.snapshot.source_generation ≡ row.snapshot.source_generation)
    unfolding failed_target_matches_job
    failed_target-snapshot row h = ground arith
