-- ===== src/Jobs/Mailbox/Worked.antt =====
-- What the worker and the operators do changes a mailbox as the mailbox promises.
use reflection.Common.{
  arith, ℕ, ◌≡◌, refl, Bool, true, false, ◌&&◌, Option, none, some, find, Bool-cases, Option-cases,
  inl, inr, if-cases, ◌==◌,
}
use reflection.Common.Result.{ok, ◌>>=◌, OnOk, OnOk->>=, Result-cases}
use reflection.Common.Text.{Text}
use reflection.Jobs.Codec.{Request, Codec, Extraction}
use reflection.Jobs.Rows.{JobRow, TargetRow, SegmentRow, Staged, Group, has_id, supersede}
use reflection.Jobs.Match.{ClaimedJob, persisted_job_matches_claim}
use reflection.Jobs.Claim.{
  Selected, is_unchanged, start, start_with, claim_request, claim_payload, claim_selected,
  quarantine, request_matches,
}
use reflection.Jobs.Attempt.{
  requeued_job, wanted_by, holds, persisted_payload, validate_claim, update_leased,
  requeue_latest_target, kept_target, is_committed, finish_wanted, finish_held, finish_current,
  finish_failed_attempt, stage, is_claimed_target, publish_held, publish_current,
  publish_extraction, extraction_result_for_persistence,
}
use reflection.Jobs.Operate.{
  retry_target, retry_failed_job, supersede_target, supersede_failed_job, check_failed_job,
}
use reflection.Jobs.Recover.{recover_running_jobs}
use reflection.Jobs.Invariant.Operate.{check_failed_job-eq}
use reflection.Jobs.Mailbox.{
  mailbox_of, wanted_of, Use, keeping, ending, abandoning, Change, kept, done_already, given_up,
}

module _ {M : Type 0} (codec : Codec M) (now : ℕ) (group : Group) where
  abbrev Keeps : Group → Type 0
  Keeps g = mailbox_of g ≡ mailbox_of group

  start_with-Keeps :
      (lease : Text) (selected : Selected) (refreshed : JobRow) (request : Request M)
      (written : Option Text)
      → Keeps (start_with codec now lease selected group refreshed request written).0
  unfolding start_with start
  start_with-Keeps lease selected refreshed request none = refl
  start_with-Keeps lease selected refreshed request (some written) =
      elim (Result-cases (codec.parse_extraction written)) [
        | inl (e, p) ↦ rw (start_with, p) refl
        | inr (e, p) ↦ rw (start_with, p) refl
      ]

  claim_payload-Keeps :
      (lease : Text) (selected : Selected) (refreshed : JobRow) (payload : Option Text)
      → Keeps (claim_payload codec now lease selected group refreshed payload).0
  unfolding claim_payload claim_request
  claim_payload-Keeps lease selected refreshed none = refl
  claim_payload-Keeps lease selected refreshed (some payload) =
      elim (Result-cases (codec.decode payload)) [
        | inr (e, p) ↦ rw (claim_payload, p) refl
        | inl (request, p) ↦ elim (Bool-cases (request_matches codec selected.row request)) [
          | inl e ↦
              rw (claim_payload, p, claim_request, e)
                (start_with-Keeps lease selected refreshed request selected.extraction_result)
          | inr e ↦ rw (claim_payload, p, claim_request, e) refl
        ]
      ]

  pub claim_selected-Keeps :
      (lease : Text) (selected : Selected) (owned : Bool)
      → Keeps (claim_selected codec now lease selected group owned).0
  unfolding claim_selected quarantine
  claim_selected-Keeps lease selected false = refl
  claim_selected-Keeps lease selected true =
      elim (Option-cases (find (has_id selected.row.id) group.jobs)) [
        | inl p ↦ rw (claim_selected, p) refl
        | inr (row, p) ↦ elim (Bool-cases (is_unchanged row selected.row)) [
          | inl e ↦
              rw (claim_selected, p, e)
                (claim_payload-Keeps lease selected row selected.row.payload)
          | inr e ↦ rw (claim_selected, p, e) refl
        ]
      ]

  pub recover_running_jobs-Keeps :
      (owned : Bool) → Keeps (recover_running_jobs codec now owned group).0
  unfolding recover_running_jobs quarantine
  recover_running_jobs-Keeps false = refl
  recover_running_jobs-Keeps true = refl

  module _ (job : ClaimedJob M) where
    pub requeue_latest-Keeps :
        (target : Option TargetRow) → OnOk Keeps (requeue_latest_target codec now group job target)
    unfolding requeue_latest_target
    requeue_latest-Keeps none =
        OnOk->>= Keeps (update_leased codec now group job (supersede now)) _ (λ jobs e. refl)
    requeue_latest-Keeps (some t) = elim (Bool-cases (t.job_id == job.id)) [
      | inl own ↦
          rw (requeue_latest_target, own)
            (OnOk->>= Keeps (persisted_payload codec t.payload) _ (λ payload p.
              OnOk->>= Keeps (update_leased codec now group job (requeued_job now t payload)) _
                (λ jobs e. refl)))
      | inr other ↦
          rw (requeue_latest_target, other)
            (OnOk->>= Keeps (update_leased codec now group job (supersede now)) _
              (λ jobs e. OnOk->>= Keeps (persisted_payload codec t.payload) _ (λ payload p. refl)))
    ]

    abbrev Changes : Use → Group × Bool → Type 0
    Changes u x = Change u (mailbox_of group) (mailbox_of x.0)

    requeued-Changes :
        (u : Use) (b : Bool)
        → OnOk
            (Changes u)
            (requeue_latest_target codec now group job group.target >>= λ g. ok (g, b))
    requeued-Changes u b =
        OnOk->>= (Changes u) (requeue_latest_target codec now group job group.target) _
          (λ g e. kept (rw e at (requeue_latest-Keeps group.target)))

    is_committed-Change :
        (t : TargetRow) (staged : Option Staged) (segment : Option SegmentRow)
        → group.target ≡ some t
        → group.segment ≡ segment
        → is_committed codec now group job t staged segment ≡ true
        → Change ending (mailbox_of group) (record (mailbox_of group) { wanted = none })
    unfolding is_committed
    is_committed-Change t none none e f d = cc
    is_committed-Change t none (some s) e f d =
        done_already t.snapshot s.snapshot (rw e refl) (rw f refl) (ground arith) refl
    is_committed-Change t (some staged) none e f d = cc
    is_committed-Change t (some staged) (some s) e f d = cc

    kept_target-Change :
        (retry : Option ℕ) (target : Option TargetRow)
        → group.target ≡ target
        → Change ending (mailbox_of group) (record (mailbox_of group) {
          wanted = wanted_of (kept_target codec now group job retry target);
        })
    unfolding kept_target
    kept_target-Change (some seconds) target e = kept (rw e refl)
    kept_target-Change none none e = kept (rw e refl)
    kept_target-Change none (some t) e =
        if-cases
          (λ target.
            Change ending (mailbox_of group)
              (record (mailbox_of group) { wanted = wanted_of target }))
          (is_committed codec now group job t t.staged group.segment) none (some t)
          (λ d. is_committed-Change t t.staged group.segment e refl d) (λ d. kept (rw e refl))

    finish_wanted-Changes :
        (error : Text) (retry : Option ℕ)
        → Changes ending (finish_wanted codec now group job error retry)
    unfolding finish_wanted
    finish_wanted-Changes error retry =
        if-cases (Changes ending) _ _ (group, false)
          (λ c. kept_target-Change retry group.target refl) (λ c. kept refl)

    finish_current-Changes :
        (error : Text) (retry : Option ℕ) (current : Option JobRow)
        → OnOk (Changes ending) (finish_current codec now group job error retry current)
    unfolding finish_current finish_held finish_wanted
    finish_current-Changes error retry none = kept refl
    finish_current-Changes error retry (some current) =
        if-cases (OnOk (Changes ending))
          (holds codec now group job current && persisted_job_matches_claim current job)
          (finish_held codec now group job error retry) (ok (group, false))
          (λ e.
            if-cases (OnOk (Changes ending)) (wanted_by codec group.target job)
              (ok (finish_wanted codec now group job error retry)) _
              (λ m. finish_wanted-Changes error retry) (λ m. requeued-Changes ending true))
          (λ e. kept refl)

    pub finish_failed_attempt-Changes :
        (error : Text) (retry : Option ℕ)
        → OnOk (Changes ending) (finish_failed_attempt codec now group job error retry)
    unfolding finish_failed_attempt
    finish_failed_attempt-Changes error retry =
        OnOk->>= (Changes ending) (validate_claim codec group job) _
          (λ _ v. finish_current-Changes error retry (find (has_id job.id) group.jobs))

    stage-Changes :
        (result : Extraction) (target : Option TargetRow)
        → group.target ≡ target
        → OnOk (Changes keeping) (stage codec now group job result target)
    unfolding stage
    stage-Changes result none e = tt
    stage-Changes result (some t) e =
        if-cases (OnOk (Changes keeping)) (is_claimed_target codec now group job t) _ _
          (λ i. kept (rw e refl)) (λ i. tt)

    publish_current-Changes :
        (result : Extraction) (current : Option JobRow)
        → OnOk (Changes keeping) (publish_current codec now group job result current)
    unfolding publish_current publish_held
    publish_current-Changes result none = kept refl
    publish_current-Changes result (some current) =
        if-cases (OnOk (Changes keeping))
          (holds codec now group job current && persisted_job_matches_claim current job)
          (publish_held codec now group job result) (ok (group, false))
          (λ e.
            if-cases (OnOk (Changes keeping)) (wanted_by codec group.target job)
              (stage codec now group job result group.target) _
              (λ m. stage-Changes result group.target refl) (λ m. requeued-Changes keeping false))
          (λ e. kept refl)

    pub publish_extraction-Changes :
        (value : Extraction) → OnOk (Changes keeping) (publish_extraction codec now group job value)
    unfolding publish_extraction
    publish_extraction-Changes value =
        OnOk->>= (Changes keeping) (extraction_result_for_persistence codec now group job value) _
          (λ result r.
            OnOk->>= (Changes keeping) (validate_claim codec group job) _
              (λ _ v. publish_current-Changes result (find (has_id job.id) group.jobs)))

  abbrev pub OptionChanges : Use → Option Group → Type 0
  OptionChanges u none = Unit
  OptionChanges u (some g) = Change u (mailbox_of group) (mailbox_of g)

  module _ (id : ℕ) where
    retry_target-Changes :
        (restart : Bool) (t : TargetRow)
        → group.target ≡ some t
        → OnOk (OptionChanges keeping) (retry_target codec now group id restart t)
    unfolding retry_target
    retry_target-Changes true t e =
        OnOk->>= (OptionChanges keeping) (persisted_payload codec t.payload) _
          (λ p s. kept (rw e refl))
    retry_target-Changes false t e =
        OnOk->>= (OptionChanges keeping) (persisted_payload codec t.payload) _
          (λ p s. kept (rw e refl))

    pub retry_failed_job-Changes :
        (restart : Bool)
        → OnOk (OptionChanges keeping) (retry_failed_job codec now group id restart)
    unfolding retry_failed_job
    retry_failed_job-Changes restart = elim (Option-cases (find (has_id id) group.jobs)) [
      | inl e ↦ rw (retry_failed_job, e) tt
      | inr (job, e) ↦
          rw (retry_failed_job, e)
            (OnOk->>= (OptionChanges keeping) (check_failed_job codec group.target job) _ (λ t c.
              retry_target-Changes restart t (check_failed_job-eq codec group.target job t c).0))
    ]

    pub supersede_failed_job-Changes :
        OnOk (OptionChanges abandoning) (supersede_failed_job codec now group id)
    unfolding supersede_failed_job supersede_target
    supersede_failed_job-Changes = elim (Option-cases (find (has_id id) group.jobs)) [
      | inl e ↦ rw (supersede_failed_job, e) tt
      | inr (job, e) ↦
          rw (supersede_failed_job, e)
            (OnOk->>= (OptionChanges abandoning) (check_failed_job codec group.target job) _
              (λ t c. given_up refl))
    ]
