-- ===== src/Jobs/Invariant/Refresh.antt =====
-- `enqueue` of a snapshot that is wanted already keeps a group sound.
use reflection.Common.{
  ℕ, ◌≡◌, refl, sym, ap, ◌∙◌, Bool, true, false, Option, none, some, arith, All, All-map, find,
  if-cases, ltb,
}
use reflection.Common.Text.{Text}
use reflection.Jobs.Boundary.{mark_of}
use reflection.Jobs.Codec.{Request, Codec, IsCodec}
use reflection.Jobs.Rows.{
  Status, pending, running, succeeded, failed, Staged, JobRow, TargetRow, Group, update_jobs,
  has_id, is_running, is_pending, is_failed, superseded,
}
use reflection.Jobs.Match.{target_matches_request}
use reflection.Jobs.Want.{larger}
use reflection.Jobs.Enqueue.{
  reset_stale, with_priority, refreshed_target, refreshed_job, stale_extraction, reset_job, refresh,
}
use reflection.Jobs.Updates.{same_mark_sound, same_text?_sound, found-only, any-update_jobs}
use reflection.Jobs.Invariant.{
  IsSound, IsRow, IsTarget, Records, is_open, is_open_with, is_active, has_staged,
}
use reflection.Jobs.Invariant.Requeue.{target-Records}
use reflection.Jobs.Invariant.Update.{known_update-IsSound, update-one_running}

module _ (n : ℕ) {M : Type 0} (codec : Codec M) (laws : IsCodec codec) (now : ℕ)
    (request : Request M) (here : codec.segment_id request ≡ codec.segment)
    (taken : codec.accepts request ≡ true) where
  -- What a target that matches the request records.
  matching-Records :
      (t : TargetRow) (priority : ℕ)
      → target_matches_request codec t request codec.segment (codec.fingerprint request) ≡ true
      → codec.accepts (with_priority codec now request priority) ≡ true
      → Records codec t.snapshot
          (some (codec.encode (with_priority codec now request priority)))
          priority
          (with_priority codec now request priority)
  unfolding target_matches_request
  matching-Records t priority m fits = record {
    payload = refl;
    accepted = fits;
    mark = same_mark_sound t.snapshot.mark (mark_of request.boundary) (ground arith);
    version = ground arith;
    fingerprint =
        same_text?_sound t.snapshot.source_fingerprint (some (codec.fingerprint request))
          (ground arith)
        ∙ ap (λ (x : Text). some x) (sym (laws.fingerprint-priority request priority));
    priority = refl;
    segment = laws.segment_id-priority request priority ∙ here;
  }

  stale_extraction-eq :
      (t : TargetRow) (staged : Option Staged) (found : Option JobRow)
      → stale_extraction codec now request t staged found ≡ true
      → (has_staged staged ≡ true) × ((j : JobRow) × (found ≡ some j) × (is_failed j.status ≡ true))
  stale_extraction-eq t none found e = cc
  stale_extraction-eq t (some staged) none e = cc
  stale_extraction-eq t (some staged) (some j) e = (refl, (j, refl, ground arith))

  -- A reset is of a failed job with a staged extraction.
  reset_stale-eq :
      (group : Group) (t : TargetRow)
      → IsSound codec n group
      → reset_stale codec now request group t ≡ true
      → (has_staged t.staged ≡ true)
        × All (λ j. has_id t.job_id j ≡ true → is_failed j.status ≡ true) group.jobs
  unfolding reset_stale
  reset_stale-eq group t h e =
      let (staged, (j, found, failed_job)) =
        stale_extraction-eq t t.staged (find (has_id t.job_id) group.jobs) e in
      (
        staged,
        All-map group.jobs (λ k only own. rw (only own) failed_job)
            (found-only t.job_id group.jobs j h.distinct found),
      )

  failed-not_running : (status : Status) → is_failed status ≡ true → is_running status ≡ false
  failed-not_running failed h = refl
  failed-not_running pending h = refl
  failed-not_running running h = cc
  failed-not_running succeeded h = refl
  failed-not_running superseded h = refl

  active-pending :
      (status : Status)
      → is_active status ≡ true
      → is_running status ≡ false
      → is_pending status ≡ true
  active-pending pending a r = refl
  active-pending running a r = cc
  active-pending succeeded a r = cc
  active-pending failed a r = cc
  active-pending superseded a r = cc

  module _ (t : TargetRow) (priority : ℕ)
      (m : target_matches_request codec t request codec.segment (codec.fingerprint request) ≡ true)
      (fits : codec.accepts (with_priority codec now request priority) ≡ true) where
    abbrev RefreshedRow : Bool → JobRow → Type 0
    RefreshedRow reset k =
        IsRow codec (some (refreshed_target codec now request t reset priority)) k

    kept-IsRow :
        (j : JobRow)
        → IsRow codec (some t) j
        → RefreshedRow false (refreshed_job codec now request false priority j)
    kept-IsRow j (w, g, r) =
        if-cases (RefreshedRow false) (is_running j.status) j _ (λ e. (w, g, r))
          (λ e. (
            w,
            g,
            λ a. (
              with_priority codec now request priority,
              rw (w (active-pending j.status a e)).1 (matching-Records t priority m fits),
            ),
          ))

    reset-IsRow :
        (j : JobRow)
        → has_id t.job_id j ≡ true
        → is_failed j.status ≡ true
        → has_staged t.staged ≡ true
        → IsRow codec (some t) j
        → RefreshedRow true (refreshed_job codec now request true priority j)
    reset-IsRow j own failed_job staged (w, g, r) =
        let same : j.snapshot ≡ t.snapshot = g staged (ground arith) in
        let quiet : is_running j.status ≡ false = failed-not_running j.status failed_job in
        if-cases (λ (k : JobRow). RefreshedRow true (reset_job codec now request k))
          (is_running j.status) j _ (λ e. cc)
          (λ e. (
            (λ _. (ground arith, same)),
            (λ n. cc),
            λ _. (
              with_priority codec now request priority,
              rw same (matching-Records t priority m fits),
            ),
          ))

    other-IsRow : (reset : Bool) (j : JobRow) → IsRow codec (some t) j → RefreshedRow reset j
    other-IsRow true j (w, g, r) = (w, (λ n. cc), r)
    other-IsRow false j row = row

  refreshed_open :
      (reset : Bool) (priority : ℕ) (j : JobRow)
      → is_open j.status ≡ true
      → is_open (refreshed_job codec now request reset priority j).status ≡ true
  refreshed_open true priority j o = refl
  refreshed_open false priority j o =
      if-cases (λ (k : JobRow). is_open k.status ≡ true) (is_running j.status) j _ (λ e. o) (λ e. o)

  refreshed_id :
      (reset : Bool) (priority : ℕ) (j : JobRow)
      → (refreshed_job codec now request reset priority j).id ≡ j.id
  refreshed_id reset priority j = ground arith

  refreshed_quiet :
      (reset : Bool) (priority : ℕ) (j : JobRow)
      → is_running (refreshed_job codec now request reset priority j).status ≡ true
      → is_running j.status ≡ true
  refreshed_quiet reset priority j r = ground arith

  -- What is known of a row where the extraction is reset.
  abbrev IsReset : TargetRow → Bool → JobRow → Type 0
  IsReset t true j =
      (has_staged t.staged ≡ true) × (has_id t.job_id j ≡ true → is_failed j.status ≡ true)
  IsReset t false j = Unit

  reset_stale-IsReset :
      (group : Group) (t : TargetRow) (reset : Bool)
      → reset_stale codec now request group t ≡ reset
      → IsSound codec n group
      → All (IsReset t reset) group.jobs
  reset_stale-IsReset group t true e h =
      let (staged, failed_jobs) = reset_stale-eq group t h e in
      All-map group.jobs (λ j k. (staged, k)) failed_jobs
  reset_stale-IsReset group t false e h = All-map group.jobs (λ j k. tt) h.below

  module _ (t : TargetRow) (priority : ℕ)
      (m : target_matches_request codec t request codec.segment (codec.fingerprint request) ≡ true)
      (fits : codec.accepts (with_priority codec now request priority) ≡ true) where
    refreshed-IsRow :
        (reset : Bool) (j : JobRow)
        → IsReset t reset j
        → IsRow codec (some t) j
        → has_id t.job_id j ≡ true
        → RefreshedRow t priority m fits reset (refreshed_job codec now request reset priority j)
    refreshed-IsRow true j (staged, known) row own =
        reset-IsRow t priority m fits j own (known own) staged row
    refreshed-IsRow false j known row own = kept-IsRow t priority m fits j row

    refreshed-IsSound :
        (group : Group) (reset : Bool)
        → group.target ≡ some t
        → All (IsReset t reset) group.jobs
        → IsSound codec n group
        → IsSound codec n (record group {
          target = some (refreshed_target codec now request t reset priority);
          jobs =
              update_jobs
                (has_id t.job_id)
                (refreshed_job codec now request reset priority)
                group.jobs;
        })
    refreshed-IsSound group reset e known h =
        let (r, found, above) = (let k : IsTarget codec group (some t) = rw e at h.target in k) in
        known_update-IsSound n codec group _ _ (IsReset t reset)
          (some (refreshed_target codec now request t reset priority)) known h
          (refreshed_id reset priority)
          (update-one_running n codec group _ _ h (λ j p r. refreshed_quiet reset priority j r))
          (λ j k w p. refreshed-IsRow reset j k (rw e at w) p)
          (λ j k w p. other-IsRow t priority m fits reset j (rw e at w))
          (
            (with_priority codec now request priority, matching-Records t priority m fits),
            any-update_jobs _ _ (is_open_with t.job_id) group.jobs
                (λ j p o.
                  ground (arith, refreshed_id reset priority j, refreshed_open reset priority j))
                found,
            above,
          )

  -- The greater of two priorities of accepted requests is accepted.
  larger-accepts :
      (group : Group) (t : TargetRow)
      → group.target ≡ some t
      → IsSound codec n group
      → codec.accepts (
          with_priority codec now request
            (larger t.processing_priority request.processing_priority))
        ≡ true
  larger-accepts group t e h =
      let (r, k) = target-Records n codec laws group t e h in
      if-cases (λ (p : ℕ). codec.accepts (with_priority codec now request p) ≡ true)
        (ltb t.processing_priority request.processing_priority) request.processing_priority
        t.processing_priority (λ _. taken)
        (λ _. rw k.priority (laws.accepts-priority request r taken k.accepted))

  pub refresh-IsSound :
      (group : Group) (t : TargetRow)
      → target_matches_request codec t request codec.segment (codec.fingerprint request) ≡ true
      → group.target ≡ some t
      → IsSound codec n group
      → IsSound codec n (refresh codec now request group t).0
  unfolding refresh
  refresh-IsSound group t m e h =
      refreshed-IsSound t (larger t.processing_priority request.processing_priority) m
        (larger-accepts group t e h) group (reset_stale codec now request group t) e
        (reset_stale-IsReset group t _ refl h) h
