-- ===== src/Jobs/Invariant.antt =====
-- What holds of the rows of a segment between two transactions.
pub mod Update
pub mod Claim
pub mod Requeue
pub mod Finish
pub mod Publish
pub mod Commit
pub mod Operate
pub mod Recover
pub mod Enqueue
pub mod Refresh
pub mod Want
pub mod Run
use reflection.Common.{
  ℕ, ◌≤◌, ◌<◌, ◌≡◌, Bool, true, false, ◌&&◌, Option, none, some, List, any, All,
}
use reflection.Common.Text.{Text}
use reflection.Jobs.Boundary.{mark_of}
use reflection.Jobs.Codec.{Request, Codec}
use reflection.Jobs.Rows.{
  Status, pending, running, failed, is_pending, is_running, Snapshot, JobRow, Staged, TargetRow,
  SegmentRow, Group, row_count, has_id,
}
use reflection.Jobs.Claim.{Selected}
use reflection.Jobs.Machine.{State}
use reflection.Jobs.Updates.{IsDistinct}

-- A pending job is the target's, with its snapshot.
abbrev pub IsWanted : Option TargetRow → JobRow → Type 0
IsWanted none j = is_pending j.status ≡ false
IsWanted (some t) j = is_pending j.status ≡ true → (j.id ≡ t.job_id) × (j.snapshot ≡ t.snapshot)

abbrev pub has_staged : Option Staged → Bool
has_staged none = false
has_staged (some staged) = true

-- While an extraction is staged, the target's job has the target's snapshot.
abbrev pub IsStagedRow : Option TargetRow → JobRow → Type 0
IsStagedRow none j = Unit
IsStagedRow (some t) j = has_staged t.staged ≡ true → j.id ≡ t.job_id → j.snapshot ≡ t.snapshot

abbrev pub is_active : Status → Bool
is_active pending = true
is_active running = true
is_active _ = false

abbrev pub is_open : Status → Bool
is_open pending = true
is_open running = true
is_open failed = true
is_open _ = false

abbrev pub is_open_with : ℕ → JobRow → Bool
is_open_with id j = has_id id j && is_open j.status

abbrev pub is_running_row : JobRow → Bool
is_running_row j = is_running j.status

-- The target is newer than what is committed.
abbrev pub IsAbove : Snapshot → Option SegmentRow → Type 0
IsAbove wanted none = Unit
IsAbove wanted (some s) =
    (s.snapshot.source_generation < wanted.source_generation)
    × (s.snapshot.projection_version ≤ wanted.projection_version)

module _ {M : Type 0} (codec : Codec M) where
  -- A request for the segment, as it is recorded.
  pub record Records (snapshot : Snapshot) (stored : Option Text) (urgency : ℕ) (r : Request M)
      : Type 0 where
    pub payload : stored ≡ some (codec.encode r)
    pub accepted : codec.accepts r ≡ true
    pub mark : snapshot.mark ≡ mark_of r.boundary
    pub version : snapshot.projection_version ≡ r.projection_version
    pub fingerprint : snapshot.source_fingerprint ≡ some (codec.fingerprint r)
    pub priority : urgency ≡ r.processing_priority
    pub segment : codec.segment_id r ≡ codec.segment

  -- A pending or running job has the request that it is for.
  abbrev pub IsRecorded : JobRow → Type 0
  IsRecorded j =
      is_active j.status ≡ true
      → (r : Request M) × Records j.snapshot j.payload j.processing_priority r

  abbrev pub IsRow : Option TargetRow → JobRow → Type 0
  IsRow target j = IsWanted target j × IsStagedRow target j × IsRecorded j

  abbrev pub IsTarget : Group → Option TargetRow → Type 0
  IsTarget group none = Unit
  IsTarget group (some t) =
      ((r : Request M) × Records t.snapshot (some t.payload) t.processing_priority r)
      × (any (is_open_with t.job_id) group.jobs ≡ true)
      × IsAbove t.snapshot group.segment

  -- At most `n` jobs run.
  pub record IsSound (n : ℕ) (group : Group) : Type 0 where
    pub below : All (λ j. j.id < group.next_id) group.jobs
    pub distinct : IsDistinct group.jobs
    pub one_running : row_count is_running_row group.jobs ≤ n
    pub rows : All (IsRow group.target) group.jobs
    pub target : IsTarget group group.target

-- The job is the target's.
abbrev pub IsTargetJob : Option TargetRow → JobRow → Type 0
IsTargetJob none j = ⊥
IsTargetJob (some t) j = j.id ≡ t.job_id

-- While a job is selected, none runs.
abbrev pub most_running : Option Selected → ℕ
most_running none = 1
most_running (some selected) = 0

unfoldable pub IsSoundState : {M : Type 0} → Codec M → State → Type 0
IsSoundState codec s = IsSound codec (most_running s.selected) s.group
