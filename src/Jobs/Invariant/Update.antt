-- ===== src/Jobs/Invariant/Update.antt =====
-- An update of the jobs of a sound group, with or without a change of its target.
use reflection.Common.{
  ℕ, ◌≤◌, ◌≡◌, refl, sym, ◌∙◌, Bool, true, false, Option, none, some, List, All, All-pair, arith,
}
use reflection.Jobs.Codec.{Codec}
use reflection.Jobs.Rows.{
  Status, pending, running, succeeded, failed, superseded, is_pending, is_running, JobRow,
  TargetRow, Group, row_count, update_jobs,
}
use reflection.Jobs.Updates.{
  All-update_jobs, row_count-update_jobs, any-update_jobs, IsDistinct-update_jobs,
}
use reflection.Jobs.Invariant.{
  IsWanted, IsStagedRow, IsRow, IsTarget, IsTargetJob, is_active, IsSound, is_open, is_open_with,
  is_running_row,
}

module _ (n : ℕ) {M : Type 0} (codec : Codec M) (group : Group) (p : JobRow → Bool)
    (f : JobRow → JobRow) where
  -- The change may rest on what is known of each row besides.
  pub known_update-IsSound :
      (Known : JobRow → Type 0) (target : Option TargetRow)
      → All Known group.jobs
      → IsSound codec n group
      → ((j : JobRow) → (f j).id ≡ j.id)
      → row_count is_running_row (update_jobs p f group.jobs) ≤ n
      → ((j : JobRow)
          → Known j
          → IsRow codec group.target j
          → p j ≡ true
          → IsRow codec target (f j))
      → ((j : JobRow) → Known j → IsRow codec group.target j → p j ≡ false → IsRow codec target j)
      → IsTarget codec (record group { jobs = update_jobs p f group.jobs; target = target }) target
      → IsSound codec n (record group { jobs = update_jobs p f group.jobs; target = target })
  known_update-IsSound Known target known h same at_most_one changed kept is_target = record {
    below = All-update_jobs p f group.jobs (λ j b _. rw (same j) b) (λ j b _. b) h.below;
    distinct = IsDistinct-update_jobs p f group.jobs same h.distinct;
    one_running = at_most_one;
    rows =
        All-update_jobs p f {P = λ j. Known j × IsRow codec group.target j} group.jobs
          (λ j k e. changed j k.0 k.1 e) (λ j k e. kept j k.0 k.1 e)
          (All-pair Known (IsRow codec group.target) group.jobs known h.rows);
    target = is_target;
  }

  pub update-IsSound :
      (target : Option TargetRow)
      → IsSound codec n group
      → ((j : JobRow) → (f j).id ≡ j.id)
      → row_count is_running_row (update_jobs p f group.jobs) ≤ n
      → ((j : JobRow) → IsRow codec group.target j → p j ≡ true → IsRow codec target (f j))
      → ((j : JobRow) → IsRow codec group.target j → p j ≡ false → IsRow codec target j)
      → IsTarget codec (record group { jobs = update_jobs p f group.jobs; target = target }) target
      → IsSound codec n (record group { jobs = update_jobs p f group.jobs; target = target })
  update-IsSound target h same at_most_one changed kept is_target =
      known_update-IsSound (λ j. IsRow codec group.target j) target h.rows h same at_most_one
        (λ j k r e. changed j r e) (λ j k r e. kept j r e) is_target

  -- The target stays, and its job stays open.
  pub update-keeps_IsTarget :
      (target : Option TargetRow) (jobs : List JobRow)
      → IsTarget codec (record group { jobs = jobs; target = target }) target
      → ((j : JobRow) → (f j).id ≡ j.id)
      → ((j : JobRow)
          → p j ≡ true
          → IsTargetJob target j
          → is_open j.status ≡ true
          → is_open (f j).status ≡ true)
      → IsTarget codec (record group { jobs = update_jobs p f jobs; target = target }) target
  update-keeps_IsTarget none jobs h same open_kept = tt
  update-keeps_IsTarget (some t) jobs (r, found, above) same open_kept = (
    r,
    any-update_jobs p f (is_open_with t.job_id) jobs
        (λ j e o. ground (arith, same j, open_kept j e (ground arith))) found,
    above,
  )

  -- No job starts to run.
  pub update-one_running :
      IsSound codec n group
      → ((j : JobRow) → p j ≡ true → is_running (f j).status ≡ true → is_running j.status ≡ true)
      → row_count is_running_row (update_jobs p f group.jobs) ≤ n
  update-one_running h quiet =
      omega (arith, row_count-update_jobs p f is_running_row group.jobs quiet, h.one_running)

  -- The target stays, and no job starts to run.
  pub jobs-IsSound :
      IsSound codec n group
      → ((j : JobRow) → (f j).id ≡ j.id)
      → ((j : JobRow) → p j ≡ true → is_running (f j).status ≡ true → is_running j.status ≡ true)
      → ((j : JobRow) → IsRow codec group.target j → p j ≡ true → IsRow codec group.target (f j))
      → ((j : JobRow)
          → p j ≡ true
          → IsTargetJob group.target j
          → is_open j.status ≡ true
          → is_open (f j).status ≡ true)
      → IsSound codec n (record group { jobs = update_jobs p f group.jobs })
  jobs-IsSound h same quiet changed open_kept =
      update-IsSound group.target h same (update-one_running h quiet) changed (λ j w e. w)
        (update-keeps_IsTarget group.target group.jobs h.target same open_kept)

inactive-not_pending : (status : Status) → is_active status ≡ false → is_pending status ≡ false
inactive-not_pending pending h = cc
inactive-not_pending running h = refl
inactive-not_pending succeeded h = refl
inactive-not_pending failed h = refl
inactive-not_pending superseded h = refl

pub not_pending-IsWanted :
    (target : Option TargetRow) (j : JobRow) → is_pending j.status ≡ false → IsWanted target j
not_pending-IsWanted none j h = h
not_pending-IsWanted (some t) j h = λ e. cc

-- The other rows are free.
pub inactive-IsRow :
    {M : Type 0} (codec : Codec M) (target : Option TargetRow) (j : JobRow)
    → is_active j.status ≡ false
    → IsStagedRow target j
    → IsRow codec target j
inactive-IsRow codec target j h staged =
    (not_pending-IsWanted target j (inactive-not_pending j.status h), staged, λ e. cc)

-- An update that keeps the id and the snapshot.
pub same-IsStagedRow :
    (target : Option TargetRow) (j k : JobRow)
    → k.id ≡ j.id
    → k.snapshot ≡ j.snapshot
    → IsStagedRow target j
    → IsStagedRow target k
same-IsStagedRow none j k e f h = tt
same-IsStagedRow (some t) j k e f h = λ staged own. f ∙ h staged (sym e ∙ own)
