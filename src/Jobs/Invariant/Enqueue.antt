-- ===== src/Jobs/Invariant/Enqueue.antt =====
-- `enqueue` keeps a group sound.
use reflection.Common.{
  ℕ, suc, ◌<◌, ◌≡◌, refl, false, Option, none, some, [], ◌∷◌, arith, All, All-append, All-map,
}
use reflection.Jobs.Codec.{Request, Codec, IsCodec}
use reflection.Jobs.Rows.{JobRow, TargetRow, SegmentRow, Group, row_count}
use reflection.Jobs.Want.{new_job, insert_job}
use reflection.Jobs.Enqueue.{ignore, settled_job, settle}
use reflection.Jobs.Updates.{row_count-append, any-append, IsDistinct-insert, any-All}
use reflection.Jobs.Invariant.{
  IsSound, IsRow, IsStagedRow, IsTarget, is_open_with, is_running_row, is_active,
}
use reflection.Jobs.Invariant.Update.{jobs-IsSound, inactive-IsRow}

module _ (n : ℕ) {M : Type 0} (codec : Codec M) (laws : IsCodec codec) (now : ℕ)
    (request : Request M) (here : codec.segment_id request ≡ codec.segment) where
  insert-IsTarget :
      (group : Group) (target : Option TargetRow) (new : JobRow)
      → IsTarget codec group target
      → IsTarget codec (insert_job codec now request new group) target
  insert-IsTarget group none new h = tt
  insert-IsTarget group (some t) new (r, found, above) =
      (r, any-append (is_open_with t.job_id) group.jobs (new ∷ []) found, above)

  row_count-inactive :
      (new : JobRow) → is_active new.status ≡ false → row_count is_running_row (new ∷ []) ≡ 0
  unfolding row_count
  row_count-inactive new inactive = ground arith

  -- The target's job is one of the rows.
  insert-IsStagedRow :
      (group : Group) (target : Option TargetRow) (new : JobRow)
      → new.id ≡ group.next_id
      → All (λ j. j.id < group.next_id) group.jobs
      → IsTarget codec group target
      → IsStagedRow target new
  insert-IsStagedRow group none new fresh below h = tt
  insert-IsStagedRow group (some t) new fresh below (r, found, above) = λ staged own. absurd (
      any-All (is_open_with t.job_id) (λ j. j.id < group.next_id) group.jobs (λ j b o. ground arith)
        found below)

  -- A row with the next id that does not wait or run.
  pub insert-IsSound :
      (group : Group) (new : JobRow)
      → new.id ≡ group.next_id
      → is_active new.status ≡ false
      → IsSound codec n group
      → IsSound codec n (insert_job codec now request new group)
  insert-IsSound group new fresh inactive h = record {
    below =
        All-append (λ j. j.id < suc group.next_id) group.jobs (new ∷ [])
          (All-map group.jobs (λ j b. omega arith) h.below) (omega arith, tt);
    distinct = IsDistinct-insert new group.jobs (rw fresh h.below) h.distinct;
    one_running = omega (
      arith,
      row_count-append is_running_row group.jobs (new ∷ []),
      row_count-inactive new inactive,
      h.one_running,
    );
    rows = All-append (IsRow codec group.target) group.jobs (new ∷ []) h.rows (
      inactive-IsRow codec group.target new inactive
          (insert-IsStagedRow group group.target new fresh h.below h.target),
      tt,
    );
    target = insert-IsTarget group group.target new h.target;
  }

  pub ignore-IsSound :
      (group : Group) (found : Option JobRow)
      → IsSound codec n group
      → IsSound codec n (ignore codec now request group found).0
  unfolding ignore new_job
  ignore-IsSound group (some j) h = h
  ignore-IsSound group none h = insert-IsSound group _ refl refl h

  -- What is committed already is no change of what is wanted.
  pub settle-IsSound :
      (group : Group) (s : SegmentRow) (found : Option JobRow)
      → group.target ≡ none
      → IsSound codec n group
      → IsSound codec n (settle codec now request group s found).0
  unfolding settle new_job
  settle-IsSound group s none e h = insert-IsSound group _ refl refl h
  settle-IsSound group s (some j) e h =
      jobs-IsSound n codec group _ _ h (λ k. refl) (λ k p r. ground arith)
        (λ k w p. rw e (inactive-IsRow codec none (settled_job codec now request s k) refl tt))
        (λ k p i o. absurd (rw e at i))
