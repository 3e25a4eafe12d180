-- ===== src/Jobs/Invariant/Claim.antt =====
-- `claimOldestJob` keeps a group sound, and starts a job only where none runs.
use reflection.Common.{
  ℕ, ◌≡◌, refl, Bool, true, false, Option, none, some, List, arith, find, Bool-cases, Option-cases,
  inl, inr,
}
use reflection.Common.Result.{Result-cases}
use reflection.Common.Text.{Text}
use reflection.Jobs.Codec.{Request, Codec}
use reflection.Jobs.Rows.{JobRow, JobError, Group, row_count, update_jobs, has_id, is_pending}
use reflection.Jobs.Claim.{
  Selected, quarantine, fail_job, start_job, is_pending_with, is_unchanged, start, start_with,
  claim_request, claim_payload, claim_selected, select_job, is_eligible, request_matches,
}
use reflection.Jobs.Updates.{row_count-changed, row_count-id, row_count-none}
use reflection.Jobs.Invariant.{IsRow, IsSound, most_running, is_running_row}
use reflection.Jobs.Invariant.Update.{
  update-IsSound, update-keeps_IsTarget, jobs-IsSound, inactive-IsRow, same-IsStagedRow,
  not_pending-IsWanted,
}

idle-IsSound :
    {M : Type 0} {codec : Codec M} {group : Group}
    → row_count is_running_row group.jobs ≡ 0
    → IsSound codec 1 group
    → IsSound codec 0 group
idle-IsSound idle h = record {
  below = h.below;
  distinct = h.distinct;
  one_running = omega (arith, idle);
  rows = h.rows;
  target = h.target;
}

module _ (n : ℕ) {M : Type 0} (codec : Codec M) (now : ℕ) (group : Group) where
  pub quarantine-IsSound : IsSound codec n group → IsSound codec n (quarantine now group)
  unfolding quarantine
  quarantine-IsSound h =
      jobs-IsSound n codec group _ _ h (λ j. refl) (λ j e r. ground arith)
        (λ j w e.
          inactive-IsRow codec group.target _ refl
            (same-IsStagedRow group.target j _ refl refl w.1))
        (λ j e i o. refl)

  fail-IsSound :
      (id : ℕ) (error : JobError)
      → IsSound codec n group
      → IsSound codec n
          (record group { jobs = update_jobs (is_pending_with id) (fail_job now error) group.jobs })
  fail-IsSound id error h =
      jobs-IsSound n codec group _ _ h (λ j. refl) (λ j e r. ground arith)
        (λ j w e.
          inactive-IsRow codec group.target _ refl
            (same-IsStagedRow group.target j _ refl refl w.1))
        (λ j e i o. refl)

  -- A job is selected only where none runs.
  pub select_job-IsSound :
      (excluded : List Text) (id : ℕ)
      → IsSound codec 1 group
      → IsSound codec (most_running (select_job codec now excluded group id)) group
  unfolding select_job is_eligible
  select_job-IsSound excluded id h = elim (Option-cases (find (has_id id) group.jobs)) [
    | inl p ↦ rw (select_job, p) h
    | inr (j, p) ↦ elim (Bool-cases (is_eligible now excluded group j)) [
      | inl e ↦
          rw (select_job, p, e)
            (idle-IsSound (row_count-none is_running_row group.jobs (ground arith)) h)
      | inr e ↦ rw (select_job, p, e) h
    ]
  ]

-- With none that runs, one may start.
module _ {M : Type 0} (codec : Codec M) (now : ℕ) (group : Group) where
  pub weakened-IsSound : IsSound codec 0 group → IsSound codec 1 group
  weakened-IsSound h = record {
    below = h.below;
    distinct = h.distinct;
    one_running = omega (arith, h.one_running);
    rows = h.rows;
    target = h.target;
  }

  started-IsRow :
      (lease : Text) (j : JobRow)
      → IsRow codec group.target j
      → is_pending j.status ≡ true
      → IsRow codec group.target (start_job now lease j)
  started-IsRow lease j (w, s, r) e = (
    not_pending-IsWanted group.target _ refl,
    same-IsStagedRow group.target j _ refl refl s,
    λ _. r (ground arith),
  )

  start-IsSound :
      (id : ℕ) (lease : Text)
      → IsSound codec 0 group
      → IsSound codec 1 (record group {
        jobs = update_jobs (is_pending_with id) (start_job now lease) group.jobs;
      })
  start-IsSound id lease h =
      update-IsSound 1 codec group _ _ group.target (weakened-IsSound h) (λ j. refl)
        (omega (
          arith,
          row_count-changed (is_pending_with id) (start_job now lease) is_running_row group.jobs,
          row_count-id (λ j. is_pending j.status) id group.jobs h.distinct,
          h.one_running,
        ))
        (λ j w e. started-IsRow lease j w (ground arith)) (λ j w e. w)
        (update-keeps_IsTarget 1 codec group _ _ group.target group.jobs h.target (λ j. refl)
          (λ j e i o. refl))

  module _ (lease : Text) (selected : Selected) (h : IsSound codec 0 group) where
    start_with-IsSound :
        (refreshed : JobRow) (request : Request M) (written : Option Text)
        → IsSound codec 1 (start_with codec now lease selected group refreshed request written).0
    unfolding start_with start
    start_with-IsSound refreshed request none = start-IsSound selected.row.id lease h
    start_with-IsSound refreshed request (some written) =
        elim (Result-cases (codec.parse_extraction written)) [
          | inl (e, p) ↦ rw (start_with, p) (start-IsSound selected.row.id lease h)
          | inr (e, p) ↦
              rw (start_with, p)
                (fail-IsSound 1 codec now group selected.row.id _ (weakened-IsSound h))
        ]

    claim_payload-IsSound :
        (refreshed : JobRow) (payload : Option Text)
        → IsSound codec 1 (claim_payload codec now lease selected group refreshed payload).0
    unfolding claim_payload claim_request
    claim_payload-IsSound refreshed none =
        fail-IsSound 1 codec now group selected.row.id _ (weakened-IsSound h)
    claim_payload-IsSound refreshed (some payload) = elim (Result-cases (codec.decode payload)) [
      | inr (e, p) ↦
          rw (claim_payload, p)
            (fail-IsSound 1 codec now group selected.row.id _ (weakened-IsSound h))
      | inl (request, p) ↦ elim (Bool-cases (request_matches codec selected.row request)) [
        | inl e ↦
            rw (claim_payload, p)
              (rw (claim_request, e)
                (start_with-IsSound refreshed request selected.extraction_result))
        | inr e ↦
            rw (claim_payload, p)
              (rw (claim_request, e)
                (fail-IsSound 1 codec now group selected.row.id _ (weakened-IsSound h)))
      ]
    ]

    pub claim_selected-IsSound :
        (owned : Bool) → IsSound codec 1 (claim_selected codec now lease selected group owned).0
    unfolding claim_selected
    claim_selected-IsSound false = quarantine-IsSound 1 codec now group (weakened-IsSound h)
    claim_selected-IsSound true = elim (Option-cases (find (has_id selected.row.id) group.jobs)) [
      | inl p ↦ rw (claim_selected, p) (weakened-IsSound h)
      | inr (refreshed, p) ↦ elim (Bool-cases (is_unchanged refreshed selected.row)) [
        | inl e ↦
            rw (claim_selected, p) (rw e (claim_payload-IsSound refreshed selected.row.payload))
        | inr e ↦ rw (claim_selected, p) (rw e (weakened-IsSound h))
      ]
    ]
