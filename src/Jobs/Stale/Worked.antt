-- ===== src/Jobs/Stale/Worked.antt =====
-- What the worker and the operators do with leases: only a claim gives one.
use reflection.Common.{
  ℕ, ◌≡◌, refl, Bool, true, false, ◌&&◌, Option, none, some, find, All, Bool-cases, Option-cases,
  inl, inr, if-cases, ◌==◌,
}
use reflection.Common.Result.{ok, err, ◌>>=◌, OnOk, OnOk->>=, Result-cases}
use reflection.Common.Text.{Text, text_eq}
use reflection.Jobs.Codec.{Request, Codec, Extraction}
use reflection.Jobs.Rows.{
  update_jobs, JobRow, TargetRow, Staged, Group, lease_changed, row_count, has_id, holds_lease,
  same_text?, supersede,
}
use reflection.Jobs.Match.{ClaimedJob, persisted_job_matches_claim}
use reflection.Jobs.Claim.{
  Selected, is_unchanged, start, start_with, claim_request, claim_payload, claim_selected,
  quarantine, request_matches, start_job,
}
use reflection.Jobs.Attempt.{
  requeued_job, wanted_by, holds, ended_attempt, kept_target, persisted_payload, validate_claim,
  update_leased, requeue_latest_target, finish_wanted, finish_held, finish_current,
  finish_failed_attempt, stage, is_claimed_target, publish_held, publish_current,
  publish_extraction, extraction_result_for_persistence,
}
use reflection.Jobs.Knowledge.{Knowledge}
use reflection.Jobs.Commit.{
  PreparedSegment, Committed, succeed, commit_below, check_updated, check_deleted, commit_target,
  check_staged, check_result, is_newer, commit_staged, commit_wanted, rejected, requeue,
  commit_if_wanted, commit_held, commit_current, check_prepared, commit_resolution,
}
use reflection.Jobs.Operate.{
  retry_target, retry_failed_job, supersede_target, supersede_failed_job, check_failed_job,
}
use reflection.Jobs.Recover.{recovered_job, recover_running_jobs}
use reflection.Jobs.Updates.{All-update_jobs}
use reflection.Jobs.Stale.Leases.{IsFree, and_false, update-IsFree}

pub recovered_lease :
    {M : Type 0} (codec : Codec M) (now : ℕ) (target : Option TargetRow) (j : JobRow)
    → (recovered_job codec now target j).lease_id ≡ none
unfolding recovered_job
recovered_lease codec now none j = refl
recovered_lease codec now (some t) j =
    if-cases (λ (k : JobRow). k.lease_id ≡ none) (t.job_id == j.id) _ _ (λ e. refl) (λ e. refl)

module _ (lease : Text) {M : Type 0} (codec : Codec M) (now : ℕ) (group : Group)
    (free : All (IsFree lease) group.jobs) where
  abbrev Keeps : Group → Type 0
  Keeps g = All (IsFree lease) g.jobs

  cleared :
      (p : JobRow → Bool) (f : JobRow → JobRow)
      → ((j : JobRow) → (f j).lease_id ≡ none)
      → Keeps (record group { jobs = update_jobs p f group.jobs })
  cleared p f clears = update-IsFree lease p f group.jobs clears free

  -- A claim gives another lease.
  module _ (given : Text) (other : text_eq given lease ≡ false) (selected : Selected) where
    start-Keeps :
        (refreshed : JobRow) (request : Request M) (extraction : Option Extraction)
        → Keeps (start codec now given selected group refreshed request extraction).0
    unfolding start same_text?
    start-Keeps refreshed request extraction =
        All-update_jobs _ (start_job now given) group.jobs (λ j k e. and_false true _ other)
          (λ j k e. k) free

    start_with-Keeps :
        (refreshed : JobRow) (request : Request M) (written : Option Text)
        → Keeps (start_with codec now given selected group refreshed request written).0
    unfolding start_with
    start_with-Keeps refreshed request none = start-Keeps refreshed request none
    start_with-Keeps refreshed request (some written) =
        elim (Result-cases (codec.parse_extraction written)) [
          | inl (e, p) ↦ rw (start_with, p) (start-Keeps refreshed request (some e))
          | inr (e, p) ↦ rw (start_with, p) (cleared _ _ (λ j. refl))
        ]

    claim_payload-Keeps :
        (refreshed : JobRow) (payload : Option Text)
        → Keeps (claim_payload codec now given selected group refreshed payload).0
    unfolding claim_payload claim_request
    claim_payload-Keeps refreshed none = cleared _ _ (λ j. refl)
    claim_payload-Keeps refreshed (some payload) = elim (Result-cases (codec.decode payload)) [
      | inr (e, p) ↦ rw (claim_payload, p) (cleared _ _ (λ j. refl))
      | inl (request, p) ↦ elim (Bool-cases (request_matches codec selected.row request)) [
        | inl e ↦
            rw (claim_payload, p, claim_request, e)
              (start_with-Keeps refreshed request selected.extraction_result)
        | inr e ↦ rw (claim_payload, p, claim_request, e) (cleared _ _ (λ j. refl))
      ]
    ]

    pub claim_selected-Keeps :
        (owned : Bool) → Keeps (claim_selected codec now given selected group owned).0
    unfolding claim_selected quarantine
    claim_selected-Keeps false = cleared _ _ (λ j. refl)
    claim_selected-Keeps true = elim (Option-cases (find (has_id selected.row.id) group.jobs)) [
      | inl p ↦ rw (claim_selected, p) free
      | inr (row, p) ↦ elim (Bool-cases (is_unchanged row selected.row)) [
        | inl e ↦ rw (claim_selected, p, e) (claim_payload-Keeps row selected.row.payload)
        | inr e ↦ rw (claim_selected, p, e) free
      ]
    ]

  pub recover_running_jobs-Keeps :
      (owned : Bool) → Keeps (recover_running_jobs codec now owned group).0
  unfolding recover_running_jobs quarantine
  recover_running_jobs-Keeps false = cleared _ _ (λ j. refl)
  recover_running_jobs-Keeps true = cleared _ _ (recovered_lease codec now group.target)

  abbrev pub OptionKeeps : Option Group → Type 0
  OptionKeeps none = Unit
  OptionKeeps (some g) = Keeps g

  module _ (id : ℕ) where
    retry_target-Keeps :
        (restart : Bool) (t : TargetRow)
        → OnOk OptionKeeps (retry_target codec now group id restart t)
    unfolding retry_target
    retry_target-Keeps restart t =
        OnOk->>= OptionKeeps (persisted_payload codec t.payload) _ (λ p s. cleared _ _ (λ j. refl))

    pub retry_failed_job-Keeps :
        (restart : Bool) → OnOk OptionKeeps (retry_failed_job codec now group id restart)
    unfolding retry_failed_job
    retry_failed_job-Keeps restart = elim (Option-cases (find (has_id id) group.jobs)) [
      | inl e ↦ rw (retry_failed_job, e) tt
      | inr (job, e) ↦
          rw (retry_failed_job, e)
            (OnOk->>= OptionKeeps (check_failed_job codec group.target job) _
              (λ t c. retry_target-Keeps restart t))
    ]

    pub supersede_failed_job-Keeps : OnOk OptionKeeps (supersede_failed_job codec now group id)
    unfolding supersede_failed_job supersede_target
    supersede_failed_job-Keeps = elim (Option-cases (find (has_id id) group.jobs)) [
      | inl e ↦ rw (supersede_failed_job, e) tt
      | inr (job, e) ↦
          rw (supersede_failed_job, e)
            (OnOk->>= OptionKeeps (check_failed_job codec group.target job) _
              (λ t c. cleared _ _ (λ j. refl)))
    ]

  module _ (job : ClaimedJob M) where
    update_leased-Keeps :
        (change : JobRow → JobRow)
        → ((j : JobRow) → (change j).lease_id ≡ none)
        → OnOk (λ jobs. All (IsFree lease) jobs) (update_leased codec now group job change)
    unfolding update_leased
    update_leased-Keeps change clears =
        if-cases (OnOk (λ jobs. All (IsFree lease) jobs))
          (row_count (holds_lease job.id job.lease_id) group.jobs == 1) _ (err lease_changed)
          (λ e. cleared (holds_lease job.id job.lease_id) change clears) (λ e. tt)

    requeue_latest-Keeps :
        (target : Option TargetRow) → OnOk Keeps (requeue_latest_target codec now group job target)
    unfolding requeue_latest_target
    requeue_latest-Keeps none =
        OnOk->>= Keeps (update_leased codec now group job (supersede now)) _
          (λ jobs e. rw e at (update_leased-Keeps (supersede now) (λ j. refl)))
    requeue_latest-Keeps (some t) = elim (Bool-cases (t.job_id == job.id)) [
      | inl own ↦
          rw (requeue_latest_target, own)
            (OnOk->>= Keeps (persisted_payload codec t.payload) _ (λ payload p.
              OnOk->>= Keeps (update_leased codec now group job (requeued_job now t payload)) _
                (λ jobs e. rw e at (update_leased-Keeps (requeued_job now t payload) (λ j. refl)))))
      | inr other ↦
          rw (requeue_latest_target, other)
            (OnOk->>= Keeps (update_leased codec now group job (supersede now)) _ (λ jobs e.
              OnOk->>= Keeps (persisted_payload codec t.payload) _ (λ payload p.
                update-IsFree lease _ _ jobs (λ j. refl)
                  (rw e at (update_leased-Keeps (supersede now) (λ j. refl))))))
    ]

    abbrev Answers : Group × Bool → Type 0
    Answers x = Keeps x.0

    requeued-Answers :
        (b : Bool)
        → OnOk Answers (requeue_latest_target codec now group job group.target >>= λ g. ok (g, b))
    requeued-Answers b =
        OnOk->>= Answers (requeue_latest_target codec now group job group.target) _
          (λ g e. rw e at (requeue_latest-Keeps group.target))

    finish_wanted-Answers :
        (error : Text) (retry : Option ℕ) → Answers (finish_wanted codec now group job error retry)
    unfolding finish_wanted
    finish_wanted-Answers error retry =
        if-cases Answers (row_count (holds_lease job.id job.lease_id) group.jobs == 1)
          (
            record group {
              jobs =
                  update_jobs (holds_lease job.id job.lease_id)
                    (ended_attempt codec now group job error retry) group.jobs;
              target = kept_target codec now group job retry group.target;
            },
            true,
          )
          (group, false)
          (λ c. cleared _ (ended_attempt codec now group job error retry) (λ j. refl)) (λ c. free)

    finish_current-Answers :
        (error : Text) (retry : Option ℕ) (current : Option JobRow)
        → OnOk Answers (finish_current codec now group job error retry current)
    unfolding finish_current finish_held
    finish_current-Answers error retry none = free
    finish_current-Answers error retry (some current) =
        if-cases (OnOk Answers)
          (holds codec now group job current && persisted_job_matches_claim current job)
          (finish_held codec now group job error retry) (ok (group, false))
          (λ e.
            if-cases (OnOk Answers) (wanted_by codec group.target job)
              (ok (finish_wanted codec now group job error retry)) _
              (λ m. finish_wanted-Answers error retry) (λ m. requeued-Answers true))
          (λ e. free)

    pub finish_failed_attempt-Answers :
        (error : Text) (retry : Option ℕ)
        → OnOk Answers (finish_failed_attempt codec now group job error retry)
    unfolding finish_failed_attempt
    finish_failed_attempt-Answers error retry =
        OnOk->>= Answers (validate_claim codec group job) _
          (λ _ v. finish_current-Answers error retry (find (has_id job.id) group.jobs))

    stage-Answers :
        (result : Extraction) (target : Option TargetRow)
        → OnOk Answers (stage codec now group job result target)
    unfolding stage
    stage-Answers result none = tt
    stage-Answers result (some t) =
        if-cases (OnOk Answers) (is_claimed_target codec now group job t) _ _ (λ i. free) (λ i. tt)

    publish_current-Answers :
        (result : Extraction) (current : Option JobRow)
        → OnOk Answers (publish_current codec now group job result current)
    unfolding publish_current publish_held
    publish_current-Answers result none = free
    publish_current-Answers result (some current) =
        if-cases (OnOk Answers)
          (holds codec now group job current && persisted_job_matches_claim current job)
          (publish_held codec now group job result) (ok (group, false))
          (λ e.
            if-cases (OnOk Answers) (wanted_by codec group.target job)
              (stage codec now group job result group.target) _
              (λ m. stage-Answers result group.target) (λ m. requeued-Answers false))
          (λ e. free)

    pub publish_extraction-Answers :
        (value : Extraction) → OnOk Answers (publish_extraction codec now group job value)
    unfolding publish_extraction
    publish_extraction-Answers value =
        OnOk->>= Answers (extraction_result_for_persistence codec now group job value) _
          (λ result r.
            OnOk->>= Answers (validate_claim codec group job) _
              (λ _ v. publish_current-Answers result (find (has_id job.id) group.jobs)))

    module _ (case_fold : Text → Text) (knowledge : Knowledge) (prepared : PreparedSegment)
        (value : Extraction) where
      abbrev Commits : Committed → Type 0
      Commits done = Keeps done.group

      commit_staged-Commits :
          (result : Extraction) (t : TargetRow) (staged : Staged)
          → OnOk Commits
              (commit_staged codec case_fold now group knowledge job prepared result t staged)
      unfolding commit_staged commit_below commit_target
      commit_staged-Commits result t staged =
          OnOk->>= Commits
            (check_staged codec case_fold now group knowledge job prepared result t staged) _
            (λ _ a.
              OnOk->>= Commits
                (check_result codec case_fold now group knowledge job prepared result staged) _
                (λ _ b.
                  if-cases (OnOk Commits)
                    (is_newer codec case_fold now group knowledge job prepared group.segment)
                    (commit_below codec case_fold now group knowledge job prepared result)
                    (commit_target codec case_fold now group knowledge job prepared result t)
                    (λ _.
                      OnOk->>= Commits (update_leased codec now group job (succeed now)) _
                        (λ jobs e. rw e at (update_leased-Keeps (succeed now) (λ j. refl))))
                    (λ _.
                      OnOk->>= Commits
                        (check_updated codec case_fold now group knowledge job prepared) _
                        (λ _ c.
                          OnOk->>= Commits
                            (check_deleted codec case_fold now group knowledge job prepared result
                              t)
                            _ (λ _ d. cleared _ _ (λ j. refl))))))

      commit_if_wanted-Commits :
          (result : Extraction) (target : Option TargetRow)
          → OnOk Commits
              (commit_if_wanted codec case_fold now group knowledge job prepared result target)
      unfolding commit_if_wanted wanted_by commit_wanted requeue
      commit_if_wanted-Commits result target =
          if-cases (OnOk Commits) (wanted_by codec target job)
            (commit_wanted codec case_fold now group knowledge job prepared result target)
            (requeue codec case_fold now group knowledge job prepared target)
            (λ m. wanted-Commits target)
            (λ m.
              OnOk->>= Commits (requeue_latest_target codec now group job target) _
                (λ g e. rw e at (requeue_latest-Keeps target)))
        where
          wanted-Commits :
              (t : Option TargetRow)
              → OnOk Commits
                  (commit_wanted codec case_fold now group knowledge job prepared result t)
          wanted-Commits none = tt
          wanted-Commits (some t) = elim (Option-cases t.staged) [
            | inl n ↦ rw (commit_wanted, n) tt
            | inr (staged, n) ↦ rw (commit_wanted, n) (commit_staged-Commits result t staged)
          ]

      commit_current-Commits :
          (result : Extraction) (current : Option JobRow)
          → OnOk Commits
              (commit_current codec case_fold now group knowledge job prepared result current)
      unfolding commit_current commit_held
      commit_current-Commits result none = tt
      commit_current-Commits result (some current) =
          if-cases (OnOk Commits) (holds codec now group job current)
            (commit_held codec case_fold now group knowledge job prepared result current)
            (err lease_changed)
            (λ runs.
              if-cases (OnOk Commits) (persisted_job_matches_claim current job)
                (commit_if_wanted codec case_fold now group knowledge job prepared result
                  group.target)
                (ok (rejected codec case_fold now group knowledge job prepared group))
                (λ m. commit_if_wanted-Commits result group.target) (λ m. free))
            (λ _. tt)

      pub commit_resolution-Commits :
          OnOk Commits (commit_resolution codec case_fold now group knowledge job prepared value)
      unfolding commit_resolution
      commit_resolution-Commits =
          OnOk->>= Commits (extraction_result_for_persistence codec now group job value) _
            (λ result r.
              OnOk->>= Commits
                (check_prepared codec case_fold now group knowledge job prepared result) _
                (λ _ p.
                  OnOk->>= Commits (validate_claim codec group job) _
                    (λ _ v. commit_current-Commits result (find (has_id job.id) group.jobs))))
