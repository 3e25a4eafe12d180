-- ===== src/Jobs/Invariant/Operate.antt =====
-- `retryFailedJob` and `supersedeFailedJob` keep a group sound.
use reflection.Common.{
  ℕ, ◌≡◌, refl, ◌∙◌, Bool, true, false, Option, none, some, arith, find, Bool-cases, Option-cases,
  inl, inr,
}
use reflection.Common.Result.{ok, OnOk, OnOk->>=}
use reflection.Jobs.Codec.{Codec, IsCodec}
use reflection.Jobs.Rows.{
  JobRow, TargetRow, Group, update_jobs, has_id, is_failed, is_pending, supersede,
}
use reflection.Jobs.Match.{failed_target_matches_job}
use reflection.Jobs.Attempt.{requeued_job, persisted_payload}
use reflection.Jobs.Operate.{
  check_superseded, check_failed, check_failed_job, failed_target, is_failed_with, retry_target,
  retry_failed_job, supersede_target, supersede_failed_job, restarted,
}
use reflection.Jobs.Updates.{find_sound, found-only}
use reflection.Jobs.Invariant.{IsSound, IsRow}
use reflection.Jobs.Invariant.Update.{known_update-IsSound, update-one_running, inactive-IsRow}
use reflection.Jobs.Invariant.Requeue.{payload-eq, requeue-IsSound, unstaged-IsSound}

abbrev pub Keeps : (n : ℕ) {M : Type 0} (codec : Codec M) → Option Group → Type 0
Keeps n codec none = Unit
Keeps n codec (some group) = IsSound codec n group

module _ {M : Type 0} (codec : Codec M) where
  -- The job that passes the checks is the target's, and has failed.
  pub check_failed_job-eq :
      (target : Option TargetRow) (job : JobRow) (t : TargetRow)
      → check_failed_job codec target job ≡ ok t
      → (target ≡ some t) × (t.job_id ≡ job.id) × (is_failed job.status ≡ true)
  unfolding check_failed_job check_superseded check_failed failed_target failed_target_matches_job
  check_failed_job-eq none job t h = ground arith
  check_failed_job-eq (some t') job t h = ground arith

module _ (n : ℕ) {M : Type 0} (codec : Codec M) (laws : IsCodec codec) (now : ℕ) where
  module _ (group : Group) (id : ℕ) (h : IsSound codec n group) where
    restarted-IsSound :
        (restart : Bool) (t : TargetRow)
        → group.target ≡ some t
        → IsSound codec n group
        → IsSound codec n (record group { target = some (restarted restart t) })
    restarted-IsSound true t e k = unstaged-IsSound n codec laws now group t e k
    restarted-IsSound false t e k = rw (← e) k

    restarted_jobs-IsSound :
        (restart : Bool) (t : TargetRow)
        → group.target ≡ some t
        → t.job_id ≡ id
        → IsSound codec n (record group {
          target = some (restarted restart t);
          jobs = update_jobs (is_failed_with id) (requeued_job now t t.payload) group.jobs;
        })
    restarted_jobs-IsSound true t target own =
        requeue-IsSound n codec laws now (record group { target = some (restarted true t) })
          (is_failed_with id) (restarted true t) refl (restarted-IsSound true t target h)
          (λ j k. ground arith)
    restarted_jobs-IsSound false t target own =
        requeue-IsSound n codec laws now (record group { target = some t }) (is_failed_with id) t
          refl (restarted-IsSound false t target h) (λ j k. ground arith)

    retry_target-IsSound :
        (restart : Bool) (t : TargetRow)
        → group.target ≡ some t
        → t.job_id ≡ id
        → OnOk (Keeps n codec) (retry_target codec now group id restart t)
    unfolding retry_target
    retry_target-IsSound restart t target own =
        OnOk->>= (Keeps n codec) (persisted_payload codec t.payload) _ (λ payload e.
          rw (payload-eq n codec laws now group t payload target h e)
            (restarted_jobs-IsSound restart t target own))

    -- The job of the target is the one that failed, so that no job is pending.
    no_pending :
        (job j : JobRow) (t : TargetRow)
        → (has_id id j ≡ true → j ≡ job)
        → t.job_id ≡ id
        → is_failed job.status ≡ true
        → IsRow codec (some t) j
        → is_pending j.status ≡ false
    no_pending job j t only own failed_job (w, g, r) = elim (Bool-cases (is_pending j.status)) [
      | inr e ↦ e
      | inl e ↦
          let is_job : j ≡ job = only (ground (arith, w e)) in
          let is_failed_too : is_failed j.status ≡ true = rw is_job failed_job in
          absurd (ground arith)
    ]

    supersede_target-IsSound :
        (job : JobRow) (t : TargetRow)
        → find (has_id id) group.jobs ≡ some job
        → group.target ≡ some t
        → t.job_id ≡ id
        → is_failed job.status ≡ true
        → OnOk (Keeps n codec) (supersede_target codec now group id t)
    unfolding supersede_target
    supersede_target-IsSound job t found target own failed_job =
        known_update-IsSound n codec group _ _ (λ j. has_id id j ≡ true → j ≡ job) none
          (found-only id group.jobs job h.distinct found) h (λ j. refl)
          (update-one_running n codec group _ _ h (λ j e r. ground arith))
          (λ j k r e. inactive-IsRow codec none (supersede now j) refl tt)
          (λ j k r e.
            let row : IsRow codec (some t) j = rw target at r in
            (no_pending job j t k own failed_job row, tt, row.2))
          tt

    found_id : (job : JobRow) → find (has_id id) group.jobs ≡ some job → job.id ≡ id
    found_id job e = let own = find_sound (has_id id) group.jobs job e in ground arith

    pub retry_failed_job-IsSound :
        (restart : Bool) → OnOk (Keeps n codec) (retry_failed_job codec now group id restart)
    unfolding retry_failed_job
    retry_failed_job-IsSound restart = elim (Option-cases (find (has_id id) group.jobs)) [
      | inl e ↦ rw (retry_failed_job, e) tt
      | inr (job, e) ↦
          rw (retry_failed_job, e)
            (OnOk->>= (Keeps n codec) (check_failed_job codec group.target job) _ (λ t c.
              let (target, own, failed_job) = check_failed_job-eq codec group.target job t c in
              retry_target-IsSound restart t target (own ∙ found_id job e)))
    ]

    pub supersede_failed_job-IsSound :
        OnOk (Keeps n codec) (supersede_failed_job codec now group id)
    unfolding supersede_failed_job
    supersede_failed_job-IsSound = elim (Option-cases (find (has_id id) group.jobs)) [
      | inl e ↦ rw (supersede_failed_job, e) tt
      | inr (job, e) ↦
          rw (supersede_failed_job, e)
            (OnOk->>= (Keeps n codec) (check_failed_job codec group.target job) _ (λ t c.
              let (target, own, failed_job) = check_failed_job-eq codec group.target job t c in
              supersede_target-IsSound job t e target (own ∙ found_id job e) failed_job))
    ]
