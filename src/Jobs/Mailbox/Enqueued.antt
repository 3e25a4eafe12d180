-- ===== src/Jobs/Mailbox/Enqueued.antt =====
-- `enqueue` changes a mailbox as the mailbox promises.
use reflection.Common.{
  ℕ, ◌<◌, ◌≡◌, refl, false, Option, none, some, arith, any, find, Bool-cases, inl, inr, if-cases,
}
use reflection.Common.Result.{ok, err, ◌>>=◌, OnOk, OnOk->>=}
use reflection.Jobs.Codec.{Request, Codec}
use reflection.Jobs.Rows.{JobRow, TargetRow, SegmentRow, Group, has_id, is_running, job_disappeared}
use reflection.Jobs.Match.{target_matches_request}
use reflection.Jobs.Want.{
  boundary_job, next_generation, segment_generation, target_generation, snapshot_of, conflicts,
  upsert, choose, retarget, want,
}
use reflection.Jobs.Enqueue.{
  lower_version, ignore, refresh, is_settled, settle, below_segment, below_target, respond,
  settle_or_want, refresh_or, enqueue, record_request, check_request, check_source,
}
use reflection.Jobs.Mailbox.{
  mailbox_of, wanted_of, committed_of, IsNewer, enqueuing, Change, kept, posted,
}

module _ {M : Type 0} (codec : Codec M) (now : ℕ) (request : Request M) (group : Group) where
  abbrev Changes : Group × ℕ → Type 0
  Changes x = Change enqueuing (mailbox_of group) (mailbox_of x.0)

  respond-Changes :
      (done : Group × ℕ) → Changes done → OnOk Changes (respond codec now request done)
  unfolding respond
  respond-Changes (g, id) k =
      if-cases (OnOk Changes) (any (has_id id) g.jobs) (ok (g, id)) (err job_disappeared) (λ e. k)
        (λ e. tt)

  ignore-Changes : (found : Option JobRow) → Changes (ignore codec now request group found)
  unfolding ignore
  ignore-Changes none = kept refl
  ignore-Changes (some j) = kept refl

  settle-Changes :
      (s : SegmentRow) (found : Option JobRow) → Changes (settle codec now request group s found)
  unfolding settle
  settle-Changes s none = kept refl
  settle-Changes s (some j) = kept refl

  refresh-Changes :
      (t : TargetRow) → group.target ≡ some t → Changes (refresh codec now request group t)
  unfolding refresh
  refresh-Changes t e = kept (rw e refl)

  committed-IsNewer :
      (s : Option SegmentRow) (generation : ℕ)
      → below_segment codec now request s ≡ false
      → segment_generation codec now request s < generation
      → IsNewer (snapshot_of codec now request generation) (committed_of s)
  committed-IsNewer none generation b g = tt
  committed-IsNewer (some s) generation b g = (g, ground arith)

  wanted-IsNewer :
      (t : Option TargetRow) (generation : ℕ)
      → below_target codec now request t ≡ false
      → target_generation codec now request t < generation
      → IsNewer (snapshot_of codec now request generation) (wanted_of t)
  wanted-IsNewer none generation b g = tt
  wanted-IsNewer (some t) generation b g = (g, ground arith)

  retarget-Changes :
      (upserted : Group) (id : ℕ)
      → upserted.segment ≡ group.segment
      → lower_version codec now request group ≡ false
      → Changes (retarget codec now request upserted (next_generation codec now request group) id)
  unfolding retarget lower_version next_generation
  retarget-Changes upserted id same lower =
      posted (snapshot_of codec now request (next_generation codec now request group))
        (wanted-IsNewer group.target _ (ground arith) (ground arith))
        (committed-IsNewer group.segment _ (ground arith) (ground arith)) (rw same refl)

  choose-Changes :
      (conflicting found : Option JobRow)
      → lower_version codec now request group ≡ false
      → OnOk Changes (
          choose codec now request
            (next_generation codec now request group)
            (upsert codec now request group (next_generation codec now request group) conflicting)
            found)
  unfolding choose upsert
  choose-Changes none found lower = retarget-Changes _ group.next_id refl lower
  choose-Changes (some j) found lower = elim (Bool-cases (is_running j.status)) [
    | inr e ↦ rw (upsert, e) (retarget-Changes _ j.id refl lower)
    | inl e ↦ rw (upsert, e) (left found)
  ]
    where
      left :
          (other : Option JobRow)
          → OnOk Changes (
              choose codec now request
                (next_generation codec now request group)
                (group, none)
                other)
      left none = tt
      left (some k) = retarget-Changes group k.id refl lower

  want-Changes :
      lower_version codec now request group ≡ false
      → OnOk Changes (want codec now request group >>= respond codec now request)
  unfolding want
  want-Changes lower = OnOk->>= Changes (want codec now request group) _ (λ done e.
      respond-Changes done (
        rw e at (
          choose-Changes (find (conflicts codec now request) group.jobs)
            (boundary_job codec now request group.jobs) lower)))

  settle_or_want-Changes :
      (target : Option TargetRow) (segment : Option SegmentRow)
      → lower_version codec now request group ≡ false
      → OnOk Changes (settle_or_want codec now request group target segment)
  unfolding settle_or_want
  settle_or_want-Changes none none lower = want-Changes lower
  settle_or_want-Changes none (some s) lower =
      if-cases (OnOk Changes) (is_settled codec now request s)
        (respond codec now request
          (settle codec now request group s (boundary_job codec now request group.jobs)))
        _ (λ i. respond-Changes _ (settle-Changes s _)) (λ i. want-Changes lower)
  settle_or_want-Changes (some t) none lower = want-Changes lower
  settle_or_want-Changes (some t) (some s) lower = want-Changes lower

  refresh_or-Changes :
      (target : Option TargetRow)
      → group.target ≡ target
      → lower_version codec now request group ≡ false
      → OnOk Changes (refresh_or codec now request group target)
  unfolding refresh_or
  refresh_or-Changes none e lower = settle_or_want-Changes none group.segment lower
  refresh_or-Changes (some t) e lower =
      if-cases (OnOk Changes)
        (target_matches_request codec t request codec.segment (codec.fingerprint request))
        (respond codec now request (refresh codec now request group t)) _
        (λ m. respond-Changes _ (refresh-Changes t e))
        (λ m. settle_or_want-Changes (some t) group.segment lower)

  record_request-Changes : OnOk Changes (record_request codec now request group)
  unfolding record_request
  record_request-Changes =
      if-cases (OnOk Changes) (lower_version codec now request group)
        (respond codec now request
          (ignore codec now request group (boundary_job codec now request group.jobs)))
        _ (λ l. respond-Changes _ (ignore-Changes _)) (λ l. refresh_or-Changes group.target refl l)

  pub enqueue-Changes : OnOk Changes (enqueue codec now request group)
  unfolding enqueue
  enqueue-Changes =
      OnOk->>= Changes (check_request codec now request) _
        (λ _ a. OnOk->>= Changes (check_source codec now request) _ (λ _ b. record_request-Changes))
