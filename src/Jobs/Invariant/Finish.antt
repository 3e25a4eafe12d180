-- ===== src/Jobs/Invariant/Finish.antt =====
-- server/src/database.ts: `finishFailedAttempt` keeps a group sound.

use reflection.Common.{
  ℕ, ◌≡◌, refl, sym, ap, ◌∙◌, Bool, true, false, ◌&&◌, Option, none, some, arith, find, Bool-cases,
  inl, inr, if-cases,
}
use reflection.Common.Result.{ok, OnOk, OnOk->>=}
use reflection.Common.Text.{Text}
use reflection.Jobs.Codec.{Codec, IsCodec}
use reflection.Jobs.Rows.{JobRow, TargetRow, Group, update_jobs, has_id, holds_lease, is_pending}
use reflection.Jobs.Match.{ClaimedJob, target_matches_job, persisted_job_matches_claim}
use reflection.Jobs.Attempt.{
  wanted_by, holds, validate_claim, ended_attempt, kept_target, finish_wanted, finish_held,
  finish_current, finish_failed_attempt,
}
use reflection.Jobs.Updates.{found-only}
use reflection.Jobs.Snapshots.{job-claimed_snapshot, target-claimed_snapshot}
use reflection.Jobs.Invariant.{IsStagedRow, IsRow, IsSound, IsTarget}
use reflection.Jobs.Invariant.Update.{
  known_update-IsSound, update-keeps_IsTarget, update-one_running, inactive-IsRow, same-IsStagedRow,
  not_pending-IsWanted,
}
use reflection.Jobs.Invariant.Requeue.{requeued-IsSound}

module _ (n : ℕ) {M : Type 0} (codec : Codec M) (laws : IsCodec codec) (now : ℕ)
    (job : ClaimedJob M) where
  -- A job that waits for its next attempt holds the target's snapshot.
  ended-IsRow :
      (group : Group) (t : TargetRow) (j : JobRow) (error : Text) (retry : Option ℕ)
      → target_matches_job codec t job ≡ true
      → persisted_job_matches_claim j job ≡ true
      → holds_lease job.id job.lease_id j ≡ true
      → IsRow codec (some t) j
      → IsRow codec (some t) (ended_attempt codec now group job error retry j)
  ended-IsRow group t j error none m c s (w, g, r) =
      inactive-IsRow codec (some t) (ended_attempt codec now group job error none j) refl g
  ended-IsRow group t j error (some seconds) m c s (w, g, r) =
      let (same, snapshot) = target-claimed_snapshot job codec t m in
      (
        (λ _. (ground arith, job-claimed_snapshot job j c ∙ sym snapshot)),
        g,
        (λ _. r (ground arith)),
      )

  kept_target-IsStagedRow :
      (group : Group) (target : Option TargetRow) (j : JobRow)
      → IsStagedRow target j
      → IsStagedRow (kept_target codec now group job none target) j
  unfolding kept_target
  kept_target-IsStagedRow group none j h = h
  kept_target-IsStagedRow group (some t) j h =
      if-cases (λ kept. IsStagedRow kept j) _ none (some t) (λ e. tt) (λ e. h)

  kept_target-IsTarget :
      (group : Group) (retry : Option ℕ) (target : Option TargetRow)
      → IsTarget codec group target
      → IsTarget codec group (kept_target codec now group job retry target)
  unfolding kept_target
  kept_target-IsTarget group none none h = h
  kept_target-IsTarget group none (some t) h =
      if-cases (IsTarget codec group) _ none (some t) (λ e. tt) (λ e. h)
  kept_target-IsTarget group (some seconds) target h = h

  -- While the target's job runs, no row is pending.
  pub left-IsRow :
      (group : Group) (current : JobRow) (t : TargetRow)
      → holds codec now group job current ≡ true
      → target_matches_job codec t job ≡ true
      → (kept : Option TargetRow) (j : JobRow) → (has_id job.id j ≡ true → j ≡ current)
      → (IsStagedRow (some t) j → IsStagedRow kept j)
      → IsRow codec (some t) j
      → IsRow codec kept j
  left-IsRow group current t running wanted kept j only staged (w, g, r) =
      elim (Bool-cases (is_pending j.status)) [
        | inr e ↦ (not_pending-IsWanted kept j e, staged g, r)
        | inl e ↦
            let same = target-claimed_snapshot job codec t wanted in
            let own : has_id job.id j ≡ true = ground (arith, w e, same) in
            let runs : holds codec now group job j ≡ true = rw (only own) running in
            absurd (ground arith)
      ]

  module _ (group : Group) (current : JobRow) (t : TargetRow) (error : Text)
      (found : find (has_id job.id) group.jobs ≡ some current)
      (running : holds codec now group job current ≡ true)
      (claimed : persisted_job_matches_claim current job ≡ true) (target : group.target ≡ some t)
      (wanted : target_matches_job codec t job ≡ true) (h : IsSound codec n group) where
    terminal-IsSound :
        (kept : Option TargetRow)
        → ((j : JobRow) → IsStagedRow (some t) j → IsStagedRow kept j)
        → IsTarget codec group kept
        → IsSound codec n (record group {
          jobs =
              update_jobs
                (holds_lease job.id job.lease_id)
                (ended_attempt codec now group job error none)
                group.jobs;
          target = kept;
        })
    terminal-IsSound kept staged is_target =
        known_update-IsSound n codec group _ _ (λ j. has_id job.id j ≡ true → j ≡ current) kept
          (found-only job.id group.jobs current h.distinct found) h (λ j. refl)
          (update-one_running n codec group _ _ h (λ j e r. ground arith))
          (λ j k r e.
            let row : IsRow codec (some t) j = rw target at r in
            inactive-IsRow codec kept _ refl (same-IsStagedRow kept j _ refl refl (staged j row.1)))
          (λ j k r e.
            left-IsRow group current t running wanted kept j k (staged j) (rw target at r))
          (update-keeps_IsTarget n codec group _ _ kept group.jobs is_target (λ j. refl)
            (λ j e i o. refl))

    retried-IsSound :
        (seconds : ℕ)
        → IsSound codec n (record group {
          jobs =
              update_jobs
                (holds_lease job.id job.lease_id)
                (ended_attempt codec now group job error (some seconds))
                group.jobs;
        })
    retried-IsSound seconds =
        known_update-IsSound n codec group _ _ (λ j. has_id job.id j ≡ true → j ≡ current)
          group.target (found-only job.id group.jobs current h.distinct found) h (λ j. refl)
          (update-one_running n codec group _ _ h (λ j e r. ground arith))
          (λ j k r e. rw target (
            ended-IsRow group t j error (some seconds) wanted (rw (k (ground arith)) claimed) e
              (rw target at r)))
          (λ j k r e. r)
          (update-keeps_IsTarget n codec group _ _ group.target group.jobs h.target (λ j. refl)
            (λ j e i o. refl))

  finish_wanted-IsSound :
      (group : Group) (current : JobRow) (t : TargetRow) (error : Text) (retry : Option ℕ)
      → find (has_id job.id) group.jobs ≡ some current
      → holds codec now group job current ≡ true
      → persisted_job_matches_claim current job ≡ true
      → group.target ≡ some t
      → target_matches_job codec t job ≡ true
      → IsSound codec n group
      → IsSound codec n (finish_wanted codec now group job error retry).0
  unfolding finish_wanted kept_target
  finish_wanted-IsSound group current t error none found runs c target m h =
      if-cases (λ (x : Group × Bool). IsSound codec n x.0) _ _ _
        (λ e.
          terminal-IsSound group current t error found runs c target m h _
            (λ j g. kept_target-IsStagedRow group group.target j (rw target g))
            (kept_target-IsTarget group none group.target h.target))
        (λ e. h)
  finish_wanted-IsSound group current t error (some seconds) found runs c target m h =
      if-cases (λ (x : Group × Bool). IsSound codec n x.0) _ _ _
        (λ e. retried-IsSound group current t error found runs c target m h seconds) (λ e. h)

  -- A group and an answer.
  abbrev Keeps : Group × Bool → Type 0
  Keeps x = IsSound codec n x.0

  module _ (error : Text) (retry : Option ℕ) where
    finish_held-IsSound :
        (group : Group) (current : JobRow) (target : Option TargetRow)
        → find (has_id job.id) group.jobs ≡ some current
        → holds codec now group job current ≡ true
        → persisted_job_matches_claim current job ≡ true
        → group.target ≡ target
        → IsSound codec n group
        → OnOk Keeps (finish_held codec now group job error retry)
    unfolding finish_held wanted_by
    finish_held-IsSound group current none found runs c target h =
        rw (finish_held, ap (λ t. wanted_by codec t job) target)
          (requeued-IsSound n codec laws now job group true h)
    finish_held-IsSound group current (some t) found runs c target h =
        if-cases (OnOk Keeps) (wanted_by codec group.target job)
          (ok (finish_wanted codec now group job error retry)) _
          (λ m.
            finish_wanted-IsSound group current t error retry found runs c target (rw target at m)
              h)
          (λ m. requeued-IsSound n codec laws now job group true h)

    finish_current-IsSound :
        (group : Group) (current : Option JobRow)
        → find (has_id job.id) group.jobs ≡ current
        → IsSound codec n group
        → OnOk Keeps (finish_current codec now group job error retry current)
    unfolding finish_current
    finish_current-IsSound group none found h = h
    finish_current-IsSound group (some current) found h =
        if-cases (OnOk Keeps)
          (holds codec now group job current && persisted_job_matches_claim current job)
          (finish_held codec now group job error retry) (ok (group, false))
          (λ e.
            finish_held-IsSound group current group.target found (ground arith) (ground arith) refl
              h)
          (λ e. h)

    pub finish_failed_attempt-IsSound :
        (group : Group)
        → IsSound codec n group
        → OnOk Keeps (finish_failed_attempt codec now group job error retry)
    unfolding finish_failed_attempt
    finish_failed_attempt-IsSound group h =
        OnOk->>= Keeps (validate_claim codec group job) _
          (λ _ e. finish_current-IsSound group (find (has_id job.id) group.jobs) refl h)
