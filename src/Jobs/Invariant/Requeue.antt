-- ===== src/Jobs/Invariant/Requeue.antt =====
-- server/src/database.ts: `#requeueLatestTarget` keeps a group sound.
use mathlib.Core.Option.{some-injective}
use reflection.Common.{
  ℕ, ◌≡◌, refl, sym, ◌∙◌, Bool, true, false, Option, none, some, List, arith, All, All-map,
  Bool-cases, inl, inr, ◌==◌,
}
use reflection.Common.Result.{ok, ◌>>=◌, ok-injective, OnOk, OnOk->>=}
use reflection.Common.Text.{Text}
use reflection.Jobs.Codec.{Request, Codec, IsCodec}
use reflection.Jobs.Rows.{JobRow, TargetRow, Group, update_jobs, holds_lease, supersede, Snapshot}
use reflection.Jobs.Match.{ClaimedJob}
use reflection.Jobs.Attempt.{requeued_job, persisted_payload, update_leased, requeue_latest_target}
use reflection.Jobs.Invariant.{IsTargetJob, IsRow, IsSound, Records}
use reflection.Jobs.Invariant.Update.{jobs-IsSound, inactive-IsRow, same-IsStagedRow}

module _ (n : ℕ) {M : Type 0} (codec : Codec M) (laws : IsCodec codec) where
  -- A recorded payload is what it is encoded as again.
  pub persisted_payload-Records :
      (snapshot : Snapshot) (stored : Text) (priority : ℕ) (r : Request M)
      → Records codec snapshot (some stored) priority r
      → persisted_payload codec stored ≡ ok stored
  unfolding persisted_payload
  persisted_payload-Records snapshot stored priority r h =
      rw (some-injective stored (codec.encode r) h.payload)
        (rw (persisted_payload, laws.decode-encode r h.accepted))

  pub target-Records :
      (group : Group) (t : TargetRow)
      → group.target ≡ some t
      → IsSound codec n group
      → (r : Request M) × Records codec t.snapshot (some t.payload) t.processing_priority r
  target-Records group t e h = (rw e at h.target).0

  module _ (now : ℕ) (group : Group) where
    pub requeued-IsRow :
        (t : TargetRow) (j : JobRow) (r : Request M)
        → Records codec t.snapshot (some t.payload) t.processing_priority r
        → j.id ≡ t.job_id
        → IsRow codec (some t) (requeued_job now t t.payload j)
    requeued-IsRow t j r h e = ((λ _. (e, refl)), (λ _ _. refl), (λ _. (r, h)))

    -- The jobs that `requeue_latest_target` finds with the target's id wait for it again.
    pub requeue-IsSound :
        (p : JobRow → Bool) (t : TargetRow)
        → group.target ≡ some t
        → IsSound codec n group
        → ((j : JobRow) → p j ≡ true → j.id ≡ t.job_id)
        → IsSound codec n
            (record group { jobs = update_jobs p (requeued_job now t t.payload) group.jobs })
    requeue-IsSound p t target h own =
        jobs-IsSound n codec group _ _ h (λ j. refl) (λ j e r. ground arith)
          (λ j w e. rw target (
            requeued-IsRow t j (target-Records group t target h).0
              (target-Records group t target h).1 (own j e)))
          (λ j e i o. refl)

    pub payload-eq :
        (t : TargetRow) (payload : Text)
        → group.target ≡ some t
        → IsSound codec n group
        → persisted_payload codec t.payload ≡ ok payload
        → payload ≡ t.payload
    payload-eq t payload target h e =
        let r = target-Records group t target h in
        ok-injective payload t.payload
          (sym e ∙ persisted_payload-Records t.snapshot t.payload t.processing_priority r.0 r.1)

    -- Nothing is staged any more.
    pub unstaged-IsSound :
        (t : TargetRow)
        → group.target ≡ some t
        → IsSound codec n group
        → IsSound codec n (record group { target = some (record t { staged = none }) })
    unstaged-IsSound t e h =
        let rows : All (IsRow codec (some t)) group.jobs = rw e at h.rows in
        record {
          below = h.below;
          distinct = h.distinct;
          one_running = h.one_running;
          rows = All-map group.jobs (λ j k. (k.0, (λ n. cc), k.2)) rows;
          target = rw e at h.target;
        }

  module _ (now : ℕ) (group : Group) (job : ClaimedJob M) where
    supersede-IsSound :
        IsSound codec n group
        → ((j : JobRow) → holds_lease job.id job.lease_id j ≡ true → IsTargetJob group.target j → ⊥)
        → IsSound codec n (record group {
          jobs = update_jobs (holds_lease job.id job.lease_id) (supersede now) group.jobs;
        })
    supersede-IsSound h other =
        jobs-IsSound n codec group _ _ h (λ j. refl) (λ j e r. ground arith)
          (λ j w e.
            inactive-IsRow codec group.target _ refl
              (same-IsStagedRow group.target j _ refl refl w.1))
          (λ j e i o. absurd (other j e i))

    pub update_leased-eq :
        (change : JobRow → JobRow) (jobs : List JobRow)
        → update_leased codec now group job change ≡ ok jobs
        → jobs ≡ update_jobs (holds_lease job.id job.lease_id) change group.jobs
    unfolding update_leased
    update_leased-eq change jobs h = ground arith

    requeue_own-IsSound :
        (t : TargetRow)
        → group.target ≡ some t
        → (t.job_id == job.id) ≡ true
        → IsSound codec n group
        → OnOk (IsSound codec n) (requeue_latest_target codec now group job (some t))
    unfolding requeue_latest_target
    requeue_own-IsSound t target own h =
        rw (requeue_latest_target, own)
          (OnOk->>= (IsSound codec n) (persisted_payload codec t.payload) _ (λ payload e.
            OnOk->>= (IsSound codec n)
              (update_leased codec now group job (requeued_job now t payload)) _
              (λ jobs l. rw (update_leased-eq (requeued_job now t payload) jobs l) (
                rw (payload-eq now group t payload target h e) (
                  requeue-IsSound now group (holds_lease job.id job.lease_id) t target h
                    (λ j k. ground arith))))))

module _ (n : ℕ) {M : Type 0} (codec : Codec M) (laws : IsCodec codec) (now : ℕ)
    (job : ClaimedJob M) where
  requeue_other-IsSound :
      (group : Group) (t : TargetRow)
      → group.target ≡ some t
      → (t.job_id == job.id) ≡ false
      → IsSound codec n group
      → OnOk (IsSound codec n) (requeue_latest_target codec now group job (some t))
  unfolding requeue_latest_target
  requeue_other-IsSound group t target other h =
      rw (requeue_latest_target, other)
        (OnOk->>= (IsSound codec n) (update_leased codec now group job (supersede now)) _ (λ jobs l.
          OnOk->>= (IsSound codec n) (persisted_payload codec t.payload) _ (λ payload e.
            rw (update_leased-eq n codec laws now group job (supersede now) jobs l) (
              rw (payload-eq n codec laws now group t payload target h e) (
                requeue-IsSound n codec laws now
                  (record group {
                    jobs = update_jobs (holds_lease job.id job.lease_id) (supersede now) group.jobs;
                  })
                  _ t target
                  (supersede-IsSound n codec laws now group job h
                    (λ j k i. let i_is : j.id ≡ t.job_id = rw target at i in ground arith))
                  (λ j k. ground arith))))))

  pub requeue_latest-IsSound :
      (group : Group) (target : Option TargetRow)
      → group.target ≡ target
      → IsSound codec n group
      → OnOk (IsSound codec n) (requeue_latest_target codec now group job target)
  unfolding requeue_latest_target
  requeue_latest-IsSound group none e h =
      OnOk->>= (IsSound codec n) (update_leased codec now group job (supersede now)) _ (λ jobs l.
        rw (update_leased-eq n codec laws now group job (supersede now) jobs l)
          (supersede-IsSound n codec laws now group job h (λ j k i. rw e at i)))
  requeue_latest-IsSound group (some t) e h = elim (Bool-cases (t.job_id == job.id)) [
    | inl own ↦ requeue_own-IsSound n codec laws now group job t e own h
    | inr other ↦ requeue_other-IsSound group t e other h
  ]

  -- With the answer that the callers give.
  pub requeued-IsSound :
      (group : Group) (b : Bool)
      → IsSound codec n group
      → OnOk
          (λ (x : Group × Bool). IsSound codec n x.0)
          (requeue_latest_target codec now group job group.target >>= λ g. ok (g, b))
  requeued-IsSound group b h =
      OnOk->>= (λ (x : Group × Bool). IsSound codec n x.0)
        (requeue_latest_target codec now group job group.target) _
        (λ g e. rw e at (requeue_latest-IsSound group group.target refl h))
