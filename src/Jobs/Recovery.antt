-- ===== src/Jobs/Recovery.antt =====
-- A job that is wanted can be selected again: when a worker has stopped, and when a failed job is
-- retried.
use reflection.Common.{
  ℕ, ◌≡◌, refl, ap, ◌∙◌, Bool, true, false, some, List, [], ◌∷◌, arith, any, find, Bool-cases, inl,
  inr, ◌==◌, Option, none, Option-cases,
}
use reflection.Common.Result.{ok, OnOk, OnOk->>=}
use mathlib.Core.Option.{some-injective}
use reflection.Jobs.Attempt.{requeued_job, persisted_payload}
use reflection.Jobs.Operate.{
  check_superseded, check_failed, failed_target, check_failed_job, is_failed_with, restarted,
  retry_target, retry_failed_job, has_lease,
}
use reflection.Jobs.Invariant.Operate.{check_failed_job-eq}
use reflection.Jobs.Codec.{Request, Codec, IsCodec}
use reflection.Jobs.Rows.{
  JobRow, Snapshot, TargetRow, Group, update_jobs, has_id, is_running, same_snapshot,
}
use reflection.Jobs.Claim.{is_joined, joins, is_eligible}
use reflection.Jobs.Recover.{recovered_job, resumed_job, recover_running_jobs}
use reflection.Jobs.Updates.{find_sound, same_mark_refl, same_text?_refl}
use reflection.Jobs.Invariant.{IsSound, is_running_row, Records}
use reflection.Jobs.Invariant.Recover.{recovered_id, recovered_quiet}
use reflection.Jobs.Invariant.Requeue.{target-Records, payload-eq}

same_snapshot_refl : (a : Snapshot) → same_snapshot a a ≡ true
unfolding same_snapshot
same_snapshot_refl a = ground (arith, same_mark_refl a.mark, same_text?_refl a.source_fingerprint)

-- An update that changes no id finds the row where it was.
find-update_jobs :
    (p : JobRow → Bool) (f : JobRow → JobRow) (id : ℕ) (jobs : List JobRow) (j : JobRow)
    → ((k : JobRow) → (f k).id ≡ k.id)
    → find (has_id id) jobs ≡ some j
    → p j ≡ true
    → find (has_id id) (update_jobs p f jobs) ≡ some (f j)
unfolding update_jobs
find-update_jobs p f id [] j same h q = cc
find-update_jobs p f id (k ∷ jobs) j same h q = elim (Bool-cases (has_id id k)) [
  | inl e ↦
      let is_j : k ≡ j = some-injective k j (ground arith) in
      rw is_j (ground (arith, same j, rw is_j at e))
  | inr e ↦ ground (arith, same k, find-update_jobs p f id jobs j same (ground arith) q)
]

quiet-update_jobs :
    (f : JobRow → JobRow) (jobs : List JobRow)
    → ((k : JobRow) → is_running (f k).status ≡ false)
    → any is_running_row (update_jobs is_running_row f jobs) ≡ false
unfolding update_jobs
quiet-update_jobs f [] quiet = refl
quiet-update_jobs f (k ∷ jobs) quiet = ground (arith, quiet k, quiet-update_jobs f jobs quiet)

module _ (n : ℕ) {M : Type 0} (codec : Codec M) (laws : IsCodec codec) (now : ℕ) where
  resumed-is_joined :
      (t : TargetRow) (j : JobRow) (r : Request M)
      → Records codec t.snapshot (some t.payload) t.processing_priority r
      → (t.job_id == j.id) ≡ true
      → is_joined t (resumed_job codec now t j) ≡ true
  unfolding is_joined
  resumed-is_joined t j r h own =
      rw h.fingerprint (ground (arith, own, same_snapshot_refl t.snapshot))

  resumed-is_eligible :
      (group : Group) (t : TargetRow) (j : JobRow)
      → group.target ≡ some t
      → any is_running_row group.jobs ≡ false
      → is_joined t (resumed_job codec now t j) ≡ true
      → is_eligible now [] group (resumed_job codec now t j) ≡ true
  unfolding is_eligible joins
  resumed-is_eligible group t j e quiet joined = rw e (rw quiet (rw joined (ground arith)))

  -- Where the segment is owned and the target's job was running when a worker stopped,
  -- `recoverRunningJobs` leaves it pending with the target's snapshot, no job is running, and the job
  -- can be selected at once. It is assumed that the rows are sound, that an accepted request is decoded
  -- from what it is encoded as, that a request of version 1 or 2 is encoded without its source, and that
  -- the priority is checked by itself and not hashed.
  pub recover_running_jobs-eligible :
      (group : Group) (t : TargetRow) (j : JobRow)
      → IsSound codec n group
      → group.target ≡ some t
      → find (has_id t.job_id) group.jobs ≡ some j
      → is_running j.status ≡ true
      → (find (has_id t.job_id) (recover_running_jobs codec now true group).0.jobs
          ≡ some (resumed_job codec now t j))
        × (any is_running_row (recover_running_jobs codec now true group).0.jobs ≡ false)
        × (is_eligible now []
              (recover_running_jobs codec now true group).0
              (resumed_job codec now t j)
            ≡ true)
  unfolding recover_running_jobs recovered_job
  recover_running_jobs-eligible group t j h e found runs =
      let own : (t.job_id == j.id) ≡ true =
        (let k = find_sound (has_id t.job_id) group.jobs j found in ground arith) in
      let is_resumed : recovered_job codec now group.target j ≡ resumed_job codec now t j =
        rw e (rw (recovered_job, own) refl) in
      let quiet =
        quiet-update_jobs (recovered_job codec now group.target) group.jobs
          (recovered_quiet n codec laws now group.target) in
      let records = target-Records n codec laws group t e h in
      (
        find-update_jobs is_running_row (recovered_job codec now group.target) t.job_id group.jobs j
              (recovered_id n codec laws now group.target) found runs
            ∙ ap (λ (x : JobRow). some x) is_resumed,
        quiet,
        resumed-is_eligible (recover_running_jobs codec now true group).0 t j e quiet
            (resumed-is_joined t j records.0 records.1 own),
      )

module _ (n : ℕ) {M : Type 0} (codec : Codec M) (laws : IsCodec codec) (now : ℕ) (group : Group)
    (id : ℕ) (h : IsSound codec n group) (quiet : any is_running_row group.jobs ≡ false) where
  abbrev IsReady : Option Group → Type 0
  IsReady none = Unit
  IsReady (some next) =
      (j : JobRow) × (find (has_id id) next.jobs ≡ some j)
      × (j.attempts ≡ 0)
      × (is_eligible now [] next j ≡ true)

  requeued-is_joined :
      (restart : Bool) (t : TargetRow) (j : JobRow) (r : Request M)
      → Records codec t.snapshot (some t.payload) t.processing_priority r
      → t.job_id ≡ j.id
      → is_joined (restarted restart t) (requeued_job now t t.payload j) ≡ true
  unfolding is_joined
  requeued-is_joined true t j r k own =
      rw k.fingerprint (ground (arith, own, same_snapshot_refl t.snapshot))
  requeued-is_joined false t j r k own =
      rw k.fingerprint (ground (arith, own, same_snapshot_refl t.snapshot))

  still_quiet :
      (p : JobRow → Bool) (f : JobRow → JobRow) (jobs : List JobRow)
      → ((k : JobRow) → is_running (f k).status ≡ false)
      → any is_running_row jobs ≡ false
      → any is_running_row (update_jobs p f jobs) ≡ false
  unfolding update_jobs
  still_quiet p f [] never q = q
  still_quiet p f (k ∷ jobs) never q = ground (arith, never k, still_quiet p f jobs never)

  retried-IsReady :
      (restart : Bool) (t : TargetRow) (job : JobRow)
      → group.target ≡ some t
      → find (has_id id) group.jobs ≡ some job
      → t.job_id ≡ job.id
      → is_failed_with id job ≡ true
      → OnOk IsReady (retry_target codec now group id restart t)
  unfolding retry_target is_eligible joins
  retried-IsReady restart t job target found own failed_job =
      let records = target-Records n codec laws group t target h in
      OnOk->>= IsReady (persisted_payload codec t.payload) _ (λ payload e.
        rw (payload-eq n codec laws now group t payload target h e) (
          requeued_job now t t.payload job,
          find-update_jobs (is_failed_with id) (requeued_job now t t.payload) id group.jobs job
              (λ k. refl) found failed_job,
          refl,
          rw (requeued-is_joined restart t job records.0 records.1 own) (
              rw
                (still_quiet (is_failed_with id) (requeued_job now t t.payload) group.jobs
                  (λ k. refl) quiet)
                (ground arith)),
        ))

  -- The job that passes the checks is the failed one without a lease.
  check_failed_job-unleased :
      (target : Option TargetRow) (job : JobRow) (t : TargetRow)
      → check_failed_job codec target job ≡ ok t
      → has_lease job.lease_id ≡ false
  unfolding check_failed_job check_superseded check_failed failed_target
  check_failed_job-unleased none job t e = ground arith
  check_failed_job-unleased (some t') job t e = ground arith

  retry-IsReady : (restart : Bool) → OnOk IsReady (retry_failed_job codec now group id restart)
  unfolding retry_failed_job
  retry-IsReady restart = elim (Option-cases (find (has_id id) group.jobs)) [
    | inl e ↦ rw (retry_failed_job, e) tt
    | inr (job, e) ↦
        rw (retry_failed_job, e)
          (OnOk->>= IsReady (check_failed_job codec group.target job) _ (λ t c.
            let (target, own, failed_job) = check_failed_job-eq codec group.target job t c in
            let unleased = check_failed_job-unleased group.target job t c in
            let is_it = find_sound (has_id id) group.jobs job e in
            retried-IsReady restart t job target e own (ground arith)))
  ]

  -- Where `retryFailedJob` returns a job while no job of the segment is running, that job is pending
  -- without an attempt and can be selected at once, whether the extraction is restarted or not. It is
  -- assumed that the rows are sound, that an accepted request is decoded from what it is encoded as, that a
  -- request of version 1 or 2 is encoded without its source, and that the priority is checked by itself
  -- and not hashed.
  pub retry_failed_job-eligible :
      (restart : Bool) (next : Group)
      → retry_failed_job codec now group id restart ≡ ok (some next)
      → (j : JobRow) × (find (has_id id) next.jobs ≡ some j)
        × (j.attempts ≡ 0)
        × (is_eligible now [] next j ≡ true)
  retry_failed_job-eligible restart next e = rw e at (retry-IsReady restart)
