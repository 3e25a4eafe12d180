-- ===== src/Jobs/Stale/Runs.antt =====
-- The leases through the events of server/src/database.ts.
use reflection.Common.{
  ℕ, ◌≡◌, refl, Bool, true, false, ◌&&◌, ◌||◌, Option, none, some, List, [], ◌∷◌, All, if-cases,
  arith,
}
use reflection.Common.Result.{Result, ok, err, OnOk}
use reflection.Common.Text.{Text, text_eq}
use reflection.Jobs.Codec.{Codec}
use reflection.Jobs.Rows.{JobRow, Group, Failure, is_pending, is_running}
use reflection.Jobs.Want.{has_index}
use reflection.Jobs.Enqueue.{enqueue}
use reflection.Jobs.Claim.{Selected, quarantine}
use reflection.Jobs.Commit.{Committed}
use reflection.Jobs.Recover.{recovered_job, recover_running_jobs}
use reflection.Jobs.Machine.{
  State, Event, enqueued, id_taken, selecting, claiming, failing, publishing, committing, retrying,
  superseding, recovering, settled_group, operated_group, committed_state, claim_from, step, run,
}
use reflection.Jobs.Updates.{All-update_jobs}
use reflection.Jobs.Stale.Leases.{IsFree, cleared-IsFree, enqueue-Enqueues}
use reflection.Jobs.Stale.Worked.{
  OptionKeeps, claim_selected-Keeps, recover_running_jobs-Keeps, retry_failed_job-Keeps,
  supersede_failed_job-Keeps, finish_failed_attempt-Answers, publish_extraction-Answers,
  commit_resolution-Commits, recovered_lease,
}

module _ (lease : Text) where
  -- The event is no claim that gives the lease.
  abbrev pub IsOther : {M : Type 0} → Event M → Type 0
  IsOther (claiming now given owned) = text_eq given lease ≡ false
  IsOther _ = Unit

  -- No job runs under the lease.
  abbrev pub IsFreeState : State → Type 0
  IsFreeState s = All (IsFree lease) s.group.jobs

  module _ (group : Group) (free : All (IsFree lease) group.jobs) where
    settled-IsFree :
        {A : Type 0} (m : Result Failure (Group × A))
        → OnOk (λ (x : Group × A). All (IsFree lease) x.0.jobs) m
        → All (IsFree lease) (settled_group group m).jobs
    settled-IsFree (ok done) k = k
    settled-IsFree (err e) k = free

    operated-IsFree :
        {M : Type 0} (codec : Codec M) (now : ℕ) (m : Result Failure (Option Group))
        → OnOk (OptionKeeps lease codec now group free) m
        → All (IsFree lease) (operated_group group m).jobs
    operated-IsFree codec now (ok (some next)) k = k
    operated-IsFree codec now (ok none) k = free
    operated-IsFree codec now (err e) k = free

  committed-IsFree :
      (s : State) (m : Result Failure Committed)
      → IsFreeState s
      → OnOk (λ (done : Committed). All (IsFree lease) done.group.jobs) m
      → IsFreeState (committed_state s m)
  committed-IsFree s (ok done) free k = k
  committed-IsFree s (err e) free k = free

  module _ {M : Type 0} (codec : Codec M) (case_fold : Text → Text) where
    claim_from-IsFree :
        (now : ℕ) (given : Text) (owned : Bool) (s : State) (selected : Option Selected)
        → text_eq given lease ≡ false
        → IsFreeState s
        → IsFreeState (claim_from codec case_fold now given owned s selected)
    unfolding claim_from
    claim_from-IsFree now given owned s none other free = free
    claim_from-IsFree now given owned s (some selected) other free =
        claim_selected-Keeps lease codec now s.group free given other selected owned

    step-IsFree :
        (s : State) (e : Event M)
        → IsOther e
        → IsFreeState s
        → IsFreeState (step codec case_fold s e)
    unfolding step
    step-IsFree s (enqueued now request) o free =
        if-cases IsFreeState
          (text_eq (codec.segment_id request) codec.segment && has_index codec now request s.group)
          (record s { group = settled_group s.group (enqueue codec now request s.group) }) s
          (λ e.
            settled-IsFree s.group free (enqueue codec now request s.group)
              (enqueue-Enqueues lease codec now s.group free request))
          (λ e. free)
    step-IsFree s id_taken o free = free
    step-IsFree s (selecting now excluded id) o free = free
    step-IsFree s (claiming now given owned) o free =
        claim_from-IsFree now given owned s s.selected o free
    step-IsFree s (failing now job error retry) o free =
        settled-IsFree s.group free _
          (finish_failed_attempt-Answers lease codec now s.group free job error retry)
    step-IsFree s (publishing now job result) o free =
        settled-IsFree s.group free _
          (publish_extraction-Answers lease codec now s.group free job result)
    step-IsFree s (committing now job result prepared) o free = committed-IsFree s _ free (
        commit_resolution-Commits lease codec now s.group free job case_fold s.knowledge prepared
          result)
    step-IsFree s (retrying now id restart) o free =
        operated-IsFree s.group free codec now _
          (retry_failed_job-Keeps lease codec now s.group free id restart)
    step-IsFree s (superseding now id) o free =
        operated-IsFree s.group free codec now _
          (supersede_failed_job-Keeps lease codec now s.group free id)
    step-IsFree s (recovering now owned) o free =
        recover_running_jobs-Keeps lease codec now s.group free owned

    every : (jobs : List JobRow) → All (λ j. j ≡ j) jobs
    every [] = tt
    every (j ∷ jobs) = (refl, every jobs)

    -- A recovery takes the lease of every running job.
    recovered-IsFree :
        (now : ℕ) (owned : Bool) (s : State)
        → IsFreeState (step codec case_fold s (recovering now owned))
    unfolding step recover_running_jobs quarantine
    recovered-IsFree now false s =
        All-update_jobs (λ j. is_pending j.status || is_running j.status) _ {P = λ j. j ≡ j}
          s.group.jobs (λ j k e. refl) (λ j k e. ground arith) (every s.group.jobs)
    recovered-IsFree now true s =
        All-update_jobs (λ j. is_running j.status) (recovered_job codec now s.group.target)
          {P = λ j. j ≡ j} s.group.jobs
          (λ j k e.
            cleared-IsFree lease (recovered_job codec now s.group.target j)
              (recovered_lease codec now s.group.target j))
          (λ j k e. rw e refl) (every s.group.jobs)

    run-IsFree :
        (events : List (Event M)) (s : State)
        → All IsOther events
        → IsFreeState s
        → IsFreeState (run codec case_fold s events)
    unfolding run
    run-IsFree [] s o free = free
    run-IsFree (e ∷ events) s (o, others) free =
        run-IsFree events (step codec case_fold s e) others (step-IsFree s e o free)

    -- No job runs under the lease after a recovery and events that do not give it.
    pub recovered_run-IsFree :
        (now : ℕ) (owned : Bool) (s : State) (events : List (Event M))
        → All IsOther events
        → IsFreeState (run codec case_fold s (recovering now owned ∷ events))
    unfolding run
    recovered_run-IsFree now owned s events others =
        run-IsFree events _ others (recovered-IsFree now owned s)
