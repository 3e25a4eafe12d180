-- ===== src/Jobs/Invariant/Commit.antt =====
-- `commitResolution` keeps a group sound.
use reflection.Common.{
  ℕ, ◌≡◌, refl, ap, true, false, not, Option, none, some, arith, find, Option-cases, inl, inr,
  if-cases,
}
use reflection.Common.Result.{ok, err, OnOk, OnOk->>=, OnOk-throw_if}
use reflection.Common.Text.{Text}
use reflection.Jobs.Codec.{Codec, Extraction, IsCodec}
use reflection.Jobs.Rows.{
  Snapshot, SegmentRow, JobRow, TargetRow, Staged, Group, prepared_mismatch, lease_changed, has_id,
}
use reflection.Jobs.Match.{ClaimedJob, target_matches_job, persisted_job_matches_claim}
use reflection.Jobs.Attempt.{
  wanted_by, holds, validate_claim, requeue_latest_target, extraction_result_for_persistence,
}
use reflection.Jobs.Knowledge.{Knowledge}
use reflection.Jobs.Commit.{
  PreparedSegment, Committed, succeed, holds_snapshot, commit_target, commit_staged, commit_wanted,
  commit_held, commit_current, commit_resolution, is_newer, check_updated, check_deleted,
  check_staged, check_result, check_prepared, commit_if_wanted, requeue, prepared_matches,
  committed_group, rejected,
}
use reflection.Jobs.Updates.{found-only}
use reflection.Jobs.Snapshots.{target-claimed_snapshot}
use reflection.Jobs.Invariant.{IsSound, IsAbove}
use reflection.Jobs.Invariant.Update.{known_update-IsSound, update-one_running, inactive-IsRow}
use reflection.Jobs.Invariant.Requeue.{requeue_latest-IsSound}
use reflection.Jobs.Invariant.Finish.{left-IsRow}

module _ (n : ℕ) {M : Type 0} (codec : Codec M) (laws : IsCodec codec) (case_fold : Text → Text)
    (now : ℕ) (group : Group) (knowledge : Knowledge) (job : ClaimedJob M)
    (prepared : PreparedSegment) where
  abbrev Keeps : Committed → Type 0
  Keeps done = IsSound codec n done.group

  module _ (current : JobRow) (t : TargetRow)
      (found : find (has_id job.id) group.jobs ≡ some current)
      (running : holds codec now group job current ≡ true) (target : group.target ≡ some t)
      (wanted : target_matches_job codec t job ≡ true) (h : IsSound codec n group) where
    committed-IsSound :
        (result : Extraction)
        → IsSound codec n (committed_group codec case_fold now group knowledge job prepared result)
    committed-IsSound result =
        let settled =
          known_update-IsSound n codec group
            (holds_snapshot codec case_fold now group knowledge job prepared) (succeed now)
            (λ j. has_id job.id j ≡ true → j ≡ current) none
            (found-only job.id group.jobs current h.distinct found) h (λ j. refl)
            (update-one_running n codec group _ _ h (λ j e r. ground arith))
            (λ j k r e. inactive-IsRow codec none (succeed now j) refl tt)
            (λ j k r e.
              left-IsRow n codec laws now job group current t running wanted none j k (λ _. tt)
                (rw target at r))
            tt in
        record {
          below = settled.below;
          distinct = settled.distinct;
          one_running = settled.one_running;
          rows = settled.rows;
          target = tt;
        }

    commit_target-IsSound :
        (result : Extraction)
        → OnOk Keeps (commit_target codec case_fold now group knowledge job prepared result t)
    unfolding commit_target
    commit_target-IsSound result =
        OnOk->>= Keeps (check_updated codec case_fold now group knowledge job prepared) _ (λ _ a.
          OnOk->>= Keeps (check_deleted codec case_fold now group knowledge job prepared result t) _
            (λ _ b. committed-IsSound result))

    -- What is committed is of no newer projection than the target.
    not_newer :
        (result : Extraction)
        → prepared_matches codec case_fold now group knowledge job prepared result ≡ true
        → is_newer codec case_fold now group knowledge job prepared group.segment ≡ false
    unfolding prepared_matches
    not_newer result p = below_segment group.segment (rw target at h.target).2
      where
        same : prepared.projection_version ≡ t.snapshot.projection_version
        same = ground (
          arith,
          ap (λ (s : Snapshot). s.projection_version)
              (target-claimed_snapshot job codec t wanted).1,
        )

        below_segment :
            (s : Option SegmentRow)
            → IsAbove t.snapshot s
            → is_newer codec case_fold now group knowledge job prepared s ≡ false
        below_segment none a = refl
        below_segment (some s) a = ground (arith, same)

    commit_staged-IsSound :
        (result : Extraction) (staged : Staged)
        → prepared_matches codec case_fold now group knowledge job prepared result ≡ true
        → OnOk Keeps
            (commit_staged codec case_fold now group knowledge job prepared result t staged)
    unfolding commit_staged
    commit_staged-IsSound result staged p =
        OnOk->>= Keeps
          (check_staged codec case_fold now group knowledge job prepared result t staged) _
          (λ _ a.
            OnOk->>= Keeps
              (check_result codec case_fold now group knowledge job prepared result staged) _
              (λ _ b. rw (not_newer result p) (commit_target-IsSound result)))

    commit_wanted-IsSound :
        (result : Extraction)
        → prepared_matches codec case_fold now group knowledge job prepared result ≡ true
        → OnOk Keeps
            (commit_wanted codec case_fold now group knowledge job prepared result (some t))
    unfolding commit_wanted
    commit_wanted-IsSound result p = elim (Option-cases t.staged) [
      | inl e ↦ rw (commit_wanted, e) tt
      | inr (staged, e) ↦ rw (commit_wanted, e) (commit_staged-IsSound result staged p)
    ]

  requeue-IsSound :
      (target : Option TargetRow)
      → group.target ≡ target
      → IsSound codec n group
      → OnOk Keeps (requeue codec case_fold now group knowledge job prepared target)
  unfolding requeue
  requeue-IsSound target e h =
      OnOk->>= Keeps (requeue_latest_target codec now group job target) _
        (λ g r. rw r at (requeue_latest-IsSound n codec laws now job group target e h))

  module _ (result : Extraction) (h : IsSound codec n group)
      (p : prepared_matches codec case_fold now group knowledge job prepared result ≡ true) where
    commit_if_wanted-IsSound :
        (current : JobRow) (target : Option TargetRow)
        → find (has_id job.id) group.jobs ≡ some current
        → holds codec now group job current ≡ true
        → group.target ≡ target
        → OnOk Keeps
            (commit_if_wanted codec case_fold now group knowledge job prepared result target)
    unfolding commit_if_wanted wanted_by
    commit_if_wanted-IsSound current none found runs e = requeue-IsSound none e h
    commit_if_wanted-IsSound current (some t) found runs e =
        if-cases (OnOk Keeps) (target_matches_job codec t job)
          (commit_wanted codec case_fold now group knowledge job prepared result (some t)) _
          (λ m. commit_wanted-IsSound current t found runs e m h result p)
          (λ m. requeue-IsSound (some t) e h)

    commit_current-IsSound :
        (current : Option JobRow)
        → find (has_id job.id) group.jobs ≡ current
        → OnOk Keeps
            (commit_current codec case_fold now group knowledge job prepared result current)
    unfolding commit_current commit_held
    commit_current-IsSound none found = tt
    commit_current-IsSound (some current) found =
        if-cases (OnOk Keeps) (holds codec now group job current)
          (commit_held codec case_fold now group knowledge job prepared result current)
          (err lease_changed)
          (λ runs.
            if-cases (OnOk Keeps) (persisted_job_matches_claim current job)
              (commit_if_wanted codec case_fold now group knowledge job prepared result
                group.target)
              (ok (rejected codec case_fold now group knowledge job prepared group))
              (λ m. commit_if_wanted-IsSound current group.target found runs refl) (λ m. h))
          (λ _. tt)

  pub commit_resolution-IsSound :
      (value : Extraction)
      → IsSound codec n group
      → OnOk Keeps (commit_resolution codec case_fold now group knowledge job prepared value)
  unfolding commit_resolution check_prepared
  commit_resolution-IsSound value h =
      OnOk->>= Keeps (extraction_result_for_persistence codec now group job value) _ (λ result r.
        OnOk-throw_if Keeps
          (not (prepared_matches codec case_fold now group knowledge job prepared result))
          prepared_mismatch _
          (λ p. OnOk->>= Keeps (validate_claim codec group job) _ (λ _ v.
            commit_current-IsSound result h (ground arith) (find (has_id job.id) group.jobs) refl)))
