-- ===== src/Jobs/Invariant/Publish.antt =====
-- server/src/database.ts: `publishExtraction` keeps a group sound.

use reflection.Common.{
  ℕ, ◌≡◌, refl, sym, ◌∙◌, Bool, true, false, ◌&&◌, Option, none, some, arith, All, All-map,
  All-pair, find, if-cases,
}
use reflection.Common.Result.{ok, OnOk, OnOk->>=}
use reflection.Jobs.Codec.{Codec, Extraction, IsCodec}
use reflection.Jobs.Rows.{JobRow, TargetRow, Group, has_id, Staged}
use reflection.Jobs.Match.{ClaimedJob, persisted_job_matches_claim}
use reflection.Jobs.Attempt.{
  extraction_result_for_persistence, is_claimed_target, wanted_by, holds, validate_claim, stage,
  publish_held, publish_current, publish_extraction,
}
use reflection.Jobs.Updates.{found-only}
use reflection.Jobs.Snapshots.{job-claimed_snapshot, target-claimed_snapshot}
use reflection.Jobs.Invariant.{IsRow, IsSound}
use reflection.Jobs.Invariant.Requeue.{requeued-IsSound}

module _ (n : ℕ) {M : Type 0} (codec : Codec M) (laws : IsCodec codec) (now : ℕ)
    (job : ClaimedJob M) where
  -- A group and an answer.
  abbrev Keeps : Group × Bool → Type 0
  Keeps x = IsSound codec n x.0

  -- An extraction is staged while the target's job has its snapshot.
  staged-IsRow :
      (t : TargetRow) (staged : Option Staged) (j : JobRow)
      → (j.id ≡ t.job_id → j.snapshot ≡ t.snapshot)
      → IsRow codec (some t) j
      → IsRow codec (some (record t { staged = staged })) j
  staged-IsRow t staged j same (w, g, r) = (w, (λ _. same), r)

  staged-IsSound :
      (group : Group) (t : TargetRow) (staged : Option Staged)
      → group.target ≡ some t
      → All (λ j. j.id ≡ t.job_id → j.snapshot ≡ t.snapshot) group.jobs
      → IsSound codec n group
      → IsSound codec n (record group { target = some (record t { staged = staged }) })
  staged-IsSound group t staged e same h = record {
    below = h.below;
    distinct = h.distinct;
    one_running = h.one_running;
    rows =
        All-map group.jobs (λ j k. staged-IsRow t staged j k.0 k.1)
          (All-pair (λ j. j.id ≡ t.job_id → j.snapshot ≡ t.snapshot) (IsRow codec (some t))
            group.jobs same (rw e at h.rows));
    target = rw e at h.target;
  }

  stage-IsSound :
      (group : Group) (current : JobRow) (result : Extraction) (target : Option TargetRow)
      → find (has_id job.id) group.jobs ≡ some current
      → persisted_job_matches_claim current job ≡ true
      → wanted_by codec target job ≡ true
      → group.target ≡ target
      → IsSound codec n group
      → OnOk Keeps (stage codec now group job result target)
  unfolding stage wanted_by
  stage-IsSound group current result none found c m e h = tt
  stage-IsSound group current result (some t) found c m e h =
      let (own, snapshot) = target-claimed_snapshot job codec t m in
      if-cases (OnOk Keeps) (is_claimed_target codec now group job t) _ _
        (λ i.
          staged-IsSound group t _ e
            (All-map group.jobs
              (λ j only same.
                rw (only (ground arith)) (job-claimed_snapshot job current c) ∙ sym snapshot)
              (found-only job.id group.jobs current h.distinct found))
            h)
        (λ i. tt)

  publish_held-IsSound :
      (group : Group) (current : JobRow) (result : Extraction)
      → find (has_id job.id) group.jobs ≡ some current
      → persisted_job_matches_claim current job ≡ true
      → IsSound codec n group
      → OnOk Keeps (publish_held codec now group job result)
  unfolding publish_held
  publish_held-IsSound group current result found c h =
      if-cases (OnOk Keeps) (wanted_by codec group.target job)
        (stage codec now group job result group.target) _
        (λ m. stage-IsSound group current result group.target found c m refl h)
        (λ m. requeued-IsSound n codec laws now job group false h)

  publish_current-IsSound :
      (group : Group) (result : Extraction) (current : Option JobRow)
      → find (has_id job.id) group.jobs ≡ current
      → IsSound codec n group
      → OnOk Keeps (publish_current codec now group job result current)
  unfolding publish_current
  publish_current-IsSound group result none found h = h
  publish_current-IsSound group result (some current) found h =
      if-cases (OnOk Keeps)
        (holds codec now group job current && persisted_job_matches_claim current job)
        (publish_held codec now group job result) (ok (group, false))
        (λ e. publish_held-IsSound group current result found (ground arith) h) (λ e. h)

  pub publish_extraction-IsSound :
      (group : Group) (value : Extraction)
      → IsSound codec n group
      → OnOk Keeps (publish_extraction codec now group job value)
  unfolding publish_extraction
  publish_extraction-IsSound group value h =
      OnOk->>= Keeps (extraction_result_for_persistence codec now group job value) _ (λ result r.
        OnOk->>= Keeps (validate_claim codec group job) _
          (λ _ e. publish_current-IsSound group result (find (has_id job.id) group.jobs) refl h))
