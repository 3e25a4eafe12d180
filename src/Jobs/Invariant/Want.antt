-- ===== src/Jobs/Invariant/Want.antt =====
-- `enqueue` of a new snapshot keeps a group sound.

use reflection.Common.{
  ℕ, suc, ◌≤◌, ◌<◌, ◌≡◌, refl, true, false, ◌||◌, not, Option, none, some, [], ◌∷◌, arith, any, All,
  All-append, All-map, All-pair, find, Bool-cases, inl, inr,
}
use reflection.Common.Result.{OnOk}
use reflection.Jobs.Codec.{Request, Codec, IsCodec}
use reflection.Jobs.Rows.{
  Status, pending, running, succeeded, failed, superseded, JobRow, SegmentRow, Group, update_jobs,
  row_count, has_id, is_running, is_pending, supersede,
}
use reflection.Jobs.Match.{boundary_matches_request}
use reflection.Jobs.Want.{
  new_job, insert_job, boundary_job, conflicts, has_index, wanted_job, snapshot_of, next_generation,
  segment_generation, upsert, choose, wanted_target, is_left_behind, retarget, want,
}
use reflection.Jobs.Enqueue.{lower_version, below_segment}
use reflection.Jobs.Updates.{
  IsDistinct, row_count-append, any-inserted, any-changed, any-found, any-update_jobs,
  IsDistinct-insert, IsDistinct-update_jobs, All-update_jobs, row_count-update_jobs, found_unique,
  found-same_id, All-found, all-found, find_sound,
}
use reflection.Jobs.Invariant.{
  IsSound, IsRow, IsAbove, IsRecorded, Records, is_open, is_open_with, is_running_row,
}
use reflection.Jobs.Invariant.Update.{inactive-IsRow}

module _ (n : ℕ) {M : Type 0} (codec : Codec M) (laws : IsCodec codec) (now : ℕ)
    (request : Request M) (here : codec.segment_id request ≡ codec.segment)
    (taken : codec.accepts request ≡ true) where
  -- A pending row that is not left behind has the new snapshot.
  abbrev IsNew : ℕ → ℕ → JobRow → Type 0
  IsNew generation id j =
      (is_pending j.status ≡ true
        → has_id id j ≡ true
        → j.snapshot ≡ snapshot_of codec now request generation)
      × IsRecorded codec j

  -- The jobs behind the upsert.
  record IsUpserted (group : Group) (generation id : ℕ) : Type 0 where
    below : All (λ j. j.id < group.next_id) group.jobs
    distinct : IsDistinct group.jobs
    one_running : row_count is_running_row group.jobs ≤ n
    rows : All (IsNew generation id) group.jobs
    open_job : any (is_open_with id) group.jobs ≡ true

  wanted-Records :
      (generation : ℕ)
      → Records codec
          (snapshot_of codec now request generation)
          (some (codec.encode request))
          request.processing_priority
          request
  wanted-Records generation = record {
    payload = refl;
    accepted = taken;
    mark = refl;
    version = refl;
    fingerprint = refl;
    priority = refl;
    segment = here;
  }

  left_behind-IsRow :
      (generation id : ℕ) (j : JobRow)
      → IsNew generation id j
      → is_left_behind codec now request id j ≡ false
      → IsRow codec (some (wanted_target codec now request id generation)) j
  left_behind-IsRow generation id j (w, r) p =
      ((λ e. (ground arith, w e (ground arith))), (λ n. cc), r)

  retarget-IsSound :
      (group : Group) (generation id : ℕ)
      → IsUpserted group generation id
      → IsAbove (snapshot_of codec now request generation) group.segment
      → IsSound codec n (retarget codec now request group generation id).0
  unfolding retarget
  retarget-IsSound group generation id h above = record {
    below = All-update_jobs _ _ group.jobs (λ j b p. b) (λ j b p. b) h.below;
    distinct = IsDistinct-update_jobs _ _ group.jobs (λ j. refl) h.distinct;
    one_running = omega (
      arith,
      row_count-update_jobs (is_left_behind codec now request id) (supersede now) is_running_row
          group.jobs (λ j p r. ground arith),
      h.one_running,
    );
    rows =
        All-update_jobs _ _ group.jobs
          (λ j k p.
            inactive-IsRow codec (some (wanted_target codec now request id generation))
              (supersede now j) refl (λ n. cc))
          (λ j k p. left_behind-IsRow generation id j k p) h.rows;
    target = (
      (request, wanted-Records generation),
      any-update_jobs (is_left_behind codec now request id) (supersede now) (is_open_with id)
          group.jobs (λ j p o. ground arith) h.open_job,
      above,
    );
  }

  wanted_quiet :
      (id generation : ℕ)
      → row_count is_running_row (wanted_job codec now request id generation ∷ []) ≡ 0
  unfolding row_count new_job
  wanted_quiet id generation = refl

  -- A new row waits for the new snapshot.
  insert-IsUpserted :
      (group : Group) (generation : ℕ)
      → IsSound codec n group
      → IsUpserted
          (insert_job codec now request
            (wanted_job codec now request group.next_id generation)
            group)
          generation
          group.next_id
  unfolding new_job
  insert-IsUpserted group generation h =
      let new = wanted_job codec now request group.next_id generation in
      record {
        below =
            All-append (λ j. j.id < suc group.next_id) group.jobs (new ∷ [])
              (All-map group.jobs (λ j b. omega arith) h.below) (omega arith, tt);
        distinct = IsDistinct-insert new group.jobs h.below h.distinct;
        one_running = omega (
          arith,
          row_count-append is_running_row group.jobs (new ∷ []),
          h.one_running,
          wanted_quiet group.next_id generation,
        );
        rows =
            All-append (IsNew generation group.next_id) group.jobs (new ∷ [])
              (All-map group.jobs (λ j k. ((λ e own. absurd (ground arith)), k.1.2))
                (All-pair (λ j. j.id < group.next_id) (IsRow codec group.target) group.jobs h.below
                  h.rows))
              (((λ _ _. refl), (λ _. (request, wanted-Records generation))), tt);
        open_job = any-inserted (is_open_with group.next_id) group.jobs new (ground arith);
      }

  -- A row that conflicts and does not run waits for the new snapshot.
  update-IsUpserted :
      (group : Group) (generation : ℕ) (j : JobRow)
      → find (conflicts codec now request) group.jobs ≡ some j
      → IsSound codec n group
      → IsUpserted
          (record group {
            jobs =
                update_jobs
                  (has_id j.id)
                  (λ row. wanted_job codec now request row.id generation)
                  group.jobs;
          })
          generation
          j.id
  unfolding new_job
  update-IsUpserted group generation j found h =
      let waiting = λ (row : JobRow). wanted_job codec now request row.id generation in
      record {
        below = All-update_jobs _ _ group.jobs (λ k b p. b) (λ k b p. b) h.below;
        distinct = IsDistinct-update_jobs _ _ group.jobs (λ k. refl) h.distinct;
        one_running = omega (
          arith,
          row_count-update_jobs (has_id j.id) waiting is_running_row group.jobs
              (λ k p r. ground arith),
          h.one_running,
        );
        rows =
            All-update_jobs _ _ group.jobs
              (λ k w p. ((λ _ _. refl), (λ _. (request, wanted-Records generation))))
              (λ k w p. ((λ e own. cc), w.2)) h.rows;
        open_job =
            any-changed (has_id j.id) waiting (is_open_with j.id) group.jobs (λ k p. ground arith)
              (any-found (conflicts codec now request) (has_id j.id) group.jobs j found
                (ground arith));
      }

  running_is_open : (status : Status) → is_running status ≡ true → is_open status ≡ true
  running_is_open running h = refl
  running_is_open pending h = cc
  running_is_open succeeded h = cc
  running_is_open failed h = cc
  running_is_open superseded h = cc

  -- With the unique index, the row with the request's boundary is the one that conflicts.
  boundary_job-conflicts :
      (group : Group) (j k : JobRow)
      → has_index codec now request group ≡ true
      → find (conflicts codec now request) group.jobs ≡ some j
      → boundary_job codec now request group.jobs ≡ some k
      → k ≡ j
  unfolding has_index boundary_job
  boundary_job-conflicts group j k index found bounded =
      let matches = λ (row : JobRow). boundary_matches_request row.snapshot.mark request in
      let is_match : matches k ≡ true = find_sound matches group.jobs k bounded in
      let implied =
        all-found matches (λ row. not (matches row) || conflicts codec now request row) group.jobs k
          bounded (ground arith) in
      All-found matches (λ row. conflicts codec now request row ≡ true → row ≡ j) group.jobs k
        bounded (found_unique (conflicts codec now request) group.jobs j (ground arith) found)
        (ground arith)

  -- The row that conflicts runs: it is the one with the request's boundary, and stays as it is.
  running-IsUpserted :
      (group : Group) (generation : ℕ) (j k : JobRow)
      → has_index codec now request group ≡ true
      → find (conflicts codec now request) group.jobs ≡ some j
      → boundary_job codec now request group.jobs ≡ some k
      → is_running j.status ≡ true
      → IsSound codec n group
      → IsUpserted group generation k.id
  unfolding has_index boundary_job
  running-IsUpserted group generation j k index found bounded runs h =
      let same : k ≡ j = boundary_job-conflicts group j k index found bounded in
      record {
        below = h.below;
        distinct = h.distinct;
        one_running = h.one_running;
        rows =
            All-map group.jobs
              (λ row w. (
                (λ e own.
                    let is_j : row ≡ j = w.0 (rw (← same) own) in
                    let runs_too : is_running row.status ≡ true = rw is_j runs in
                    absurd (ground arith)),
                w.1.2,
              ))
              (All-pair (λ row. has_id j.id row ≡ true → row ≡ j) (IsRow codec group.target)
                group.jobs
                (found-same_id (conflicts codec now request) group.jobs j h.distinct found) h.rows);
        open_job =
            any-found (conflicts codec now request) (is_open_with k.id) group.jobs j found
              (rw same (ground (arith, running_is_open j.status runs)));
      }

  segment-IsAbove :
      (s : Option SegmentRow) (generation : ℕ)
      → below_segment codec now request s ≡ false
      → segment_generation codec now request s < generation
      → IsAbove (snapshot_of codec now request generation) s
  segment-IsAbove none generation b g = tt
  segment-IsAbove (some s) generation b g = (g, ground arith)

  -- The next generation is above all, and a lower projection version is not wanted.
  next-IsAbove :
      (group : Group)
      → lower_version codec now request group ≡ false
      → IsAbove
          (snapshot_of codec now request (next_generation codec now request group))
          group.segment
  unfolding lower_version next_generation
  next-IsAbove group lower = segment-IsAbove group.segment _ (ground arith) (ground arith)

  chosen-IsSound :
      (group : Group) (j : JobRow) (found : Option JobRow)
      → has_index codec now request group ≡ true
      → lower_version codec now request group ≡ false
      → find (conflicts codec now request) group.jobs ≡ some j
      → boundary_job codec now request group.jobs ≡ found
      → is_running j.status ≡ true
      → IsSound codec n group
      → OnOk
          (λ (x : Group × ℕ). IsSound codec n x.0)
          (choose codec now request (next_generation codec now request group) (group, none) found)
  unfolding choose
  chosen-IsSound group j none index lower c b e h = tt
  chosen-IsSound group j (some k) index lower c b e h =
      retarget-IsSound group _ k.id (running-IsUpserted group _ j k index c b e h)
        (next-IsAbove group lower)

  choose-IsSound :
      (group : Group) (conflicting found : Option JobRow)
      → has_index codec now request group ≡ true
      → lower_version codec now request group ≡ false
      → find (conflicts codec now request) group.jobs ≡ conflicting
      → boundary_job codec now request group.jobs ≡ found
      → IsSound codec n group
      → OnOk
          (λ (x : Group × ℕ). IsSound codec n x.0)
          (choose codec now request
            (next_generation codec now request group)
            (upsert codec now request group (next_generation codec now request group) conflicting)
            found)
  unfolding choose upsert
  choose-IsSound group none found index lower c b h =
      retarget-IsSound _ _ group.next_id (insert-IsUpserted group _ h) (next-IsAbove group lower)
  choose-IsSound group (some j) found index lower c b h = elim (Bool-cases (is_running j.status)) [
    | inr e ↦
        rw (upsert, e)
          (retarget-IsSound _ _ j.id (update-IsUpserted group _ j c h) (next-IsAbove group lower))
    | inl e ↦ rw (upsert, e) (chosen-IsSound group j found index lower c b e h)
  ]

  pub want-IsSound :
      (group : Group)
      → has_index codec now request group ≡ true
      → lower_version codec now request group ≡ false
      → IsSound codec n group
      → OnOk (λ (x : Group × ℕ). IsSound codec n x.0) (want codec now request group)
  unfolding want
  want-IsSound group index lower h =
      choose-IsSound group (find (conflicts codec now request) group.jobs)
        (boundary_job codec now request group.jobs) index lower refl refl h
