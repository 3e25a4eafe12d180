-- ===== src/Jobs/Stale/Leases.antt =====
-- What `enqueue` does with leases: it gives none.
use reflection.Common.{
  ℕ, ◌≡◌, refl, Bool, true, false, ◌&&◌, Option, none, some, List, [], ◌∷◌, find, any, All,
  All-append, if-cases, arith,
}
use reflection.Common.Result.{ok, err, ◌>>=◌, OnOk, OnOk->>=}
use reflection.Common.Text.{Text}
use reflection.Jobs.Codec.{Request, Codec}
use reflection.Jobs.Rows.{
  JobRow, TargetRow, SegmentRow, Group, job_disappeared, update_jobs, has_id, is_running,
  same_text?,
}
use reflection.Jobs.Match.{target_matches_request}
use reflection.Jobs.Want.{
  boundary_job, next_generation, new_job, insert_job, conflicts, upsert, choose, retarget, want,
}
use reflection.Jobs.Enqueue.{
  lower_version, ignore, refresh, refreshed_job, is_settled, settle, respond, settle_or_want,
  refresh_or, record_request, check_request, check_source, enqueue,
}
use reflection.Jobs.Updates.{All-update_jobs}

pub and_false : (b c : Bool) → c ≡ false → (b && c) ≡ false
and_false b c e = ground arith

module _ (lease : Text) where
  -- The row does not run under the lease.
  abbrev pub IsFree : JobRow → Type 0
  IsFree j = (is_running j.status && same_text? j.lease_id (some lease)) ≡ false

  pub cleared-IsFree : (j : JobRow) → j.lease_id ≡ none → IsFree j
  unfolding same_text?
  cleared-IsFree j e = and_false (is_running j.status) _ (rw e refl)

  pub update-IsFree :
      (p : JobRow → Bool) (f : JobRow → JobRow) (jobs : List JobRow)
      → ((j : JobRow) → (f j).lease_id ≡ none)
      → All IsFree jobs
      → All IsFree (update_jobs p f jobs)
  update-IsFree p f jobs clears free =
      All-update_jobs p f jobs (λ j k e. cleared-IsFree (f j) (clears j)) (λ j k e. k) free

  module _ {M : Type 0} (codec : Codec M) (now : ℕ) (group : Group)
      (free : All IsFree group.jobs) where
    abbrev pub Keeps : Group → Type 0
    Keeps g = All IsFree g.jobs

    module _ (request : Request M) where
      abbrev Enqueues : Group × ℕ → Type 0
      Enqueues x = Keeps x.0

      respond-Enqueues :
          (done : Group × ℕ) → Enqueues done → OnOk Enqueues (respond codec now request done)
      unfolding respond
      respond-Enqueues (g, id) k =
          if-cases (OnOk Enqueues) (any (has_id id) g.jobs) (ok (g, id)) (err job_disappeared)
            (λ e. k) (λ e. tt)

      inserted-IsFree :
          (j : JobRow) → j.lease_id ≡ none → All IsFree (insert_job codec now request j group).jobs
      inserted-IsFree j e = All-append IsFree group.jobs (j ∷ []) free (cleared-IsFree j e, tt)

      ignore-Enqueues : (found : Option JobRow) → Enqueues (ignore codec now request group found)
      unfolding ignore new_job
      ignore-Enqueues none = inserted-IsFree _ refl
      ignore-Enqueues (some j) = free

      settle-Enqueues :
          (s : SegmentRow) (found : Option JobRow)
          → Enqueues (settle codec now request group s found)
      unfolding settle new_job
      settle-Enqueues s none = inserted-IsFree _ refl
      settle-Enqueues s (some j) = update-IsFree _ _ group.jobs (λ k. refl) free

      refreshed-IsFree :
          (reset : Bool) (priority : ℕ) (j : JobRow)
          → IsFree j
          → IsFree (refreshed_job codec now request reset priority j)
      refreshed-IsFree true priority j k =
          cleared-IsFree (refreshed_job codec now request true priority j) refl
      refreshed-IsFree false priority j k =
          if-cases IsFree (is_running j.status) j _ (λ e. k) (λ e. k)

      refresh-Enqueues : (t : TargetRow) → Enqueues (refresh codec now request group t)
      unfolding refresh
      refresh-Enqueues t =
          All-update_jobs _ _ group.jobs (λ j k e. refreshed-IsFree _ _ j k) (λ j k e. k) free

      upsert-IsFree :
          (generation : ℕ) (conflicting : Option JobRow)
          → All IsFree (upsert codec now request group generation conflicting).0.jobs
      unfolding upsert new_job
      upsert-IsFree generation none = inserted-IsFree _ refl
      upsert-IsFree generation (some j) =
          if-cases (λ (x : Group × Option ℕ). All IsFree x.0.jobs) (is_running j.status)
            (group, none) _ (λ e. free) (λ e. update-IsFree _ _ group.jobs (λ k. refl) free)

      choose-Enqueues :
          (generation : ℕ) (upserted : Group × Option ℕ) (found : Option JobRow)
          → All IsFree upserted.0.jobs
          → OnOk Enqueues (choose codec now request generation upserted found)
      unfolding choose retarget
      choose-Enqueues generation (g, some id) found k = update-IsFree _ _ g.jobs (λ j. refl) k
      choose-Enqueues generation (g, none) (some j) k = update-IsFree _ _ g.jobs (λ j. refl) k
      choose-Enqueues generation (g, none) none k = tt

      want-Enqueues : OnOk Enqueues (want codec now request group >>= respond codec now request)
      unfolding want
      want-Enqueues = OnOk->>= Enqueues (want codec now request group) _ (λ done e.
          respond-Enqueues done (
            rw e at (
              choose-Enqueues (next_generation codec now request group)
                (upsert codec now request group (next_generation codec now request group)
                  (find (conflicts codec now request) group.jobs))
                (boundary_job codec now request group.jobs) (upsert-IsFree _ _))))

      settle_or_want-Enqueues :
          (target : Option TargetRow) (segment : Option SegmentRow)
          → OnOk Enqueues (settle_or_want codec now request group target segment)
      unfolding settle_or_want
      settle_or_want-Enqueues none none = want-Enqueues
      settle_or_want-Enqueues none (some s) =
          if-cases (OnOk Enqueues) (is_settled codec now request s)
            (respond codec now request
              (settle codec now request group s (boundary_job codec now request group.jobs)))
            _ (λ i. respond-Enqueues _ (settle-Enqueues s _)) (λ i. want-Enqueues)
      settle_or_want-Enqueues (some t) none = want-Enqueues
      settle_or_want-Enqueues (some t) (some s) = want-Enqueues

      refresh_or-Enqueues :
          (target : Option TargetRow) → OnOk Enqueues (refresh_or codec now request group target)
      unfolding refresh_or
      refresh_or-Enqueues none = settle_or_want-Enqueues none group.segment
      refresh_or-Enqueues (some t) =
          if-cases (OnOk Enqueues)
            (target_matches_request codec t request codec.segment (codec.fingerprint request))
            (respond codec now request (refresh codec now request group t)) _
            (λ m. respond-Enqueues _ (refresh-Enqueues t))
            (λ m. settle_or_want-Enqueues (some t) group.segment)

      record_request-Enqueues : OnOk Enqueues (record_request codec now request group)
      unfolding record_request
      record_request-Enqueues =
          if-cases (OnOk Enqueues) (lower_version codec now request group)
            (respond codec now request
              (ignore codec now request group (boundary_job codec now request group.jobs)))
            _ (λ l. respond-Enqueues _ (ignore-Enqueues _)) (λ l. refresh_or-Enqueues group.target)

      pub enqueue-Enqueues : OnOk Enqueues (enqueue codec now request group)
      unfolding enqueue
      enqueue-Enqueues = OnOk->>= Enqueues (check_request codec now request) _ (λ _ a.
          OnOk->>= Enqueues (check_source codec now request) _ (λ _ b. record_request-Enqueues))
