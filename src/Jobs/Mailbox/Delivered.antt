-- ===== src/Jobs/Mailbox/Delivered.antt =====
-- `commitResolution` changes a mailbox as the mailbox promises: it delivers what is wanted.
use reflection.Common.{
  ℕ, ◌<◌, ◌≡◌, refl, ap, true, not, Option, none, some, arith, find, Option-cases, inl, inr,
  if-cases,
}
use reflection.Common.Result.{ok, err, OnOk, OnOk->>=, OnOk-throw_if}
use reflection.Common.Text.{Text}
use reflection.Jobs.Boundary.{mark_of}
use reflection.Jobs.Codec.{Codec, Extraction}
use reflection.Jobs.Rows.{
  Snapshot, JobRow, TargetRow, SegmentRow, Staged, Group, has_id, prepared_mismatch, lease_changed,
}
use reflection.Jobs.Match.{ClaimedJob, target_matches_job, persisted_job_matches_claim}
use reflection.Jobs.Attempt.{
  wanted_by, holds, validate_claim, update_leased, requeue_latest_target,
  extraction_result_for_persistence,
}
use reflection.Jobs.Knowledge.{Knowledge}
use reflection.Jobs.Commit.{
  PreparedSegment, Committed, succeed, without_target, commit_below, check_updated, check_deleted,
  commit_target, check_staged, check_result, is_newer, commit_staged, commit_wanted, rejected,
  requeue, commit_if_wanted, commit_held, commit_current, check_prepared, prepared_matches,
  commit_resolution, is_committed_target, segment_row,
}
use reflection.Jobs.Updates.{same_mark_sound}
use reflection.Jobs.Snapshots.{target-claimed_snapshot, claimed_snapshot}
use reflection.Jobs.Mailbox.{mailbox_of, wanted_of, delivering, Change, kept, outdated, delivered}
use reflection.Jobs.Mailbox.Worked.{requeue_latest-Keeps}

module _ {M : Type 0} (codec : Codec M) (case_fold : Text → Text) (now : ℕ) (group : Group)
    (knowledge : Knowledge) (job : ClaimedJob M) (prepared : PreparedSegment) where
  abbrev Changes : Committed → Type 0
  Changes done = Change delivering (mailbox_of group) (mailbox_of done.group)

  requeue-Changes :
      (target : Option TargetRow)
      → OnOk Changes (requeue codec case_fold now group knowledge job prepared target)
  unfolding requeue
  requeue-Changes target =
      OnOk->>= Changes (requeue_latest_target codec now group job target) _
        (λ g e. kept (rw e at (requeue_latest-Keeps codec now group job target)))

  -- The row of the segment has the snapshot of the claim.
  segment_row-snapshot :
      (result : Extraction)
      → prepared_matches codec case_fold now group knowledge job prepared result ≡ true
      → (segment_row codec case_fold now group knowledge job prepared result).snapshot
        ≡ claimed_snapshot job
  unfolding prepared_matches
  segment_row-snapshot result p =
      let marks =
        same_mark_sound (mark_of prepared.boundary) (mark_of job.request.boundary) (ground arith) in
      let versions : prepared.projection_version ≡ job.request.projection_version = ground arith in
      cc

  -- A higher projection version is committed.
  is_newer-eq :
      (segment : Option SegmentRow)
      → is_newer codec case_fold now group knowledge job prepared segment ≡ true
      → (s : SegmentRow) × (segment ≡ some s)
        × (prepared.projection_version < s.snapshot.projection_version)
  is_newer-eq none e = cc
  is_newer-eq (some s) e = (s, refl, ground arith)

  without_target-Changes :
      (result : Extraction) (t : TargetRow) (s : SegmentRow)
      → group.target ≡ some t
      → group.segment ≡ some s
      → t.snapshot.projection_version < s.snapshot.projection_version
      → Change delivering (mailbox_of group) (record (mailbox_of group) {
        wanted =
            wanted_of
              (without_target codec case_fold now group knowledge job prepared result (some t));
      })
  unfolding without_target
  without_target-Changes result t s e f lower =
      if-cases
        (λ target.
          Change delivering (mailbox_of group)
            (record (mailbox_of group) { wanted = wanted_of target }))
        (is_committed_target codec case_fold now group knowledge job prepared result t) none
        (some t) (λ d. outdated t.snapshot s.snapshot (rw e refl) (rw f refl) lower refl)
        (λ d. kept (rw e refl))

  module _ (result : Extraction)
      (p : prepared_matches codec case_fold now group knowledge job prepared result ≡ true) where
    commit_below-Changes :
        (t : TargetRow)
        → group.target ≡ some t
        → target_matches_job codec t job ≡ true
        → is_newer codec case_fold now group knowledge job prepared group.segment ≡ true
        → OnOk Changes (commit_below codec case_fold now group knowledge job prepared result)
    unfolding commit_below prepared_matches
    commit_below-Changes t e m newer =
        let (s, f, lower) = is_newer-eq group.segment newer in
        let snapshot = (target-claimed_snapshot job codec t m).1 in
        let wanted : t.snapshot.projection_version ≡ job.request.projection_version =
          ap (λ (x : Snapshot). x.projection_version) snapshot in
        let own : prepared.projection_version ≡ job.request.projection_version = ground arith in
        OnOk->>= Changes (update_leased codec now group job (succeed now)) _
          (λ jobs k. rw (← e) at (without_target-Changes result t s e f (omega arith)))

    commit_target-Changes :
        (t : TargetRow)
        → group.target ≡ some t
        → target_matches_job codec t job ≡ true
        → OnOk Changes (commit_target codec case_fold now group knowledge job prepared result t)
    unfolding commit_target
    commit_target-Changes t e m =
        OnOk->>= Changes (check_updated codec case_fold now group knowledge job prepared) _ (λ _ a.
          OnOk->>= Changes (check_deleted codec case_fold now group knowledge job prepared result t)
            _
            (λ _ b.
              delivered (claimed_snapshot job)
                (rw e (ap (λ (s : Snapshot). some s) (target-claimed_snapshot job codec t m).1))
                (rw (segment_row-snapshot result p) refl)))

    commit_staged-Changes :
        (t : TargetRow) (staged : Staged)
        → group.target ≡ some t
        → target_matches_job codec t job ≡ true
        → OnOk Changes
            (commit_staged codec case_fold now group knowledge job prepared result t staged)
    unfolding commit_staged
    commit_staged-Changes t staged e m =
        OnOk->>= Changes
          (check_staged codec case_fold now group knowledge job prepared result t staged) _
          (λ _ a.
            OnOk->>= Changes
              (check_result codec case_fold now group knowledge job prepared result staged) _
              (λ _ b.
                if-cases (OnOk Changes)
                  (is_newer codec case_fold now group knowledge job prepared group.segment)
                  (commit_below codec case_fold now group knowledge job prepared result)
                  (commit_target codec case_fold now group knowledge job prepared result t)
                  (λ newer. commit_below-Changes t e m newer) (λ _. commit_target-Changes t e m)))

    commit_if_wanted-Changes :
        (target : Option TargetRow)
        → group.target ≡ target
        → OnOk Changes
            (commit_if_wanted codec case_fold now group knowledge job prepared result target)
    unfolding commit_if_wanted wanted_by commit_wanted
    commit_if_wanted-Changes none e = requeue-Changes none
    commit_if_wanted-Changes (some t) e =
        if-cases (OnOk Changes) (target_matches_job codec t job)
          (commit_wanted codec case_fold now group knowledge job prepared result (some t)) _
          (λ m. elim (Option-cases t.staged) [
            | inl n ↦ rw (commit_wanted, n) tt
            | inr (staged, n) ↦ rw (commit_wanted, n) (commit_staged-Changes t staged e m)
          ])
          (λ m. requeue-Changes (some t))

    commit_current-Changes :
        (current : Option JobRow)
        → OnOk Changes
            (commit_current codec case_fold now group knowledge job prepared result current)
    unfolding commit_current commit_held
    commit_current-Changes none = tt
    commit_current-Changes (some current) =
        if-cases (OnOk Changes) (holds codec now group job current)
          (commit_held codec case_fold now group knowledge job prepared result current)
          (err lease_changed)
          (λ runs.
            if-cases (OnOk Changes) (persisted_job_matches_claim current job)
              (commit_if_wanted codec case_fold now group knowledge job prepared result
                group.target)
              (ok (rejected codec case_fold now group knowledge job prepared group))
              (λ m. commit_if_wanted-Changes group.target refl) (λ m. kept refl))
          (λ _. tt)

  pub commit_resolution-Changes :
      (value : Extraction)
      → OnOk Changes (commit_resolution codec case_fold now group knowledge job prepared value)
  unfolding commit_resolution check_prepared
  commit_resolution-Changes value =
      OnOk->>= Changes (extraction_result_for_persistence codec now group job value) _ (λ result r.
        OnOk-throw_if Changes
          (not (prepared_matches codec case_fold now group knowledge job prepared result))
          prepared_mismatch _
          (λ p. OnOk->>= Changes (validate_claim codec group job) _ (λ _ v.
            commit_current-Changes result (ground arith) (find (has_id job.id) group.jobs))))
