-- ===== src/Jobs/Answer.antt =====
-- What `enqueue` has done when it answers.
use reflection.Common.{
  ℕ, ◌≡◌, refl, true, ◌&&◌, ◌⊎◌, inl, inr, Option, none, some, arith, any, find, if-cases,
}
use reflection.Common.Result.{Result, ok, err, ◌>>=◌, OnOk, OnOk->>=}
use reflection.Jobs.Boundary.{mark_of}
use reflection.Jobs.Codec.{Request, Codec}
use reflection.Jobs.Rows.{
  Snapshot, JobRow, TargetRow, SegmentRow, Group, Failure, has_id, job_disappeared,
}
use reflection.Jobs.Match.{target_matches_request, boundary_matches_request}
use reflection.Jobs.Want.{
  new_job, boundary_job, next_generation, conflicts, upsert, choose, retarget, want,
}
use reflection.Jobs.Enqueue.{
  lower_version, refresh, is_settled, settle, respond, settle_or_want, refresh_or, enqueue, ignore,
  record_request, check_request, check_source,
}
use reflection.Jobs.Updates.{
  same_mark_sound, same_text?_sound, same_mark_refl, any-inserted, any-found, find_sound,
}

module _ {M : Type 0} (codec : Codec M) (now : ℕ) (request : Request M) where
  -- The snapshot is the request's.
  pub record IsOf (s : Snapshot) : Type 0 where
    pub mark : s.mark ≡ mark_of request.boundary
    pub version : s.projection_version ≡ request.projection_version
    pub fingerprint : s.source_fingerprint ≡ some (codec.fingerprint request)

  -- The request is wanted, by the job of the answer; or it is committed, and nothing is wanted.
  abbrev pub IsRecorded : Group × ℕ → Type 0
  IsRecorded done =
      ((t : TargetRow) × (done.0.target ≡ some t) × (t.job_id ≡ done.1) × IsOf t.snapshot)
      ⊎ ((s : SegmentRow) × (done.0.segment ≡ some s) × (done.0.target ≡ none) × IsOf s.snapshot)

  respond-IsRecorded :
      (done : Group × ℕ) → IsRecorded done → OnOk IsRecorded (respond codec now request done)
  unfolding respond
  respond-IsRecorded (g, id) k =
      if-cases (OnOk IsRecorded) (any (has_id id) g.jobs) (ok (g, id)) (err job_disappeared)
        (λ e. k) (λ e. tt)

  retarget-IsRecorded :
      (group : Group) (generation id : ℕ)
      → IsRecorded (retarget codec now request group generation id)
  unfolding retarget
  retarget-IsRecorded group generation id =
      inl (_, refl, refl, record { mark = refl; version = refl; fingerprint = refl })

  refresh-IsRecorded :
      (group : Group) (t : TargetRow)
      → target_matches_request codec t request codec.segment (codec.fingerprint request) ≡ true
      → IsRecorded (refresh codec now request group t)
  unfolding refresh target_matches_request
  refresh-IsRecorded group t m = inl (
    _,
    refl,
    refl,
    record {
      mark = same_mark_sound t.snapshot.mark (mark_of request.boundary) (ground arith);
      version = ground arith;
      fingerprint =
          same_text?_sound t.snapshot.source_fingerprint (some (codec.fingerprint request))
            (ground arith);
    },
  )

  settled-IsOf : (s : SegmentRow) → is_settled codec now request s ≡ true → IsOf s.snapshot
  unfolding is_settled
  settled-IsOf s i = record {
    mark = same_mark_sound s.snapshot.mark (mark_of request.boundary) (ground arith);
    version = ground arith;
    fingerprint =
        same_text?_sound s.snapshot.source_fingerprint (some (codec.fingerprint request))
          (ground arith);
  }

  settle-IsRecorded :
      (group : Group) (s : SegmentRow) (found : Option JobRow)
      → group.target ≡ none
      → group.segment ≡ some s
      → is_settled codec now request s ≡ true
      → IsRecorded (settle codec now request group s found)
  unfolding settle
  settle-IsRecorded group s none e f i = inr (s, f, e, settled-IsOf s i)
  settle-IsRecorded group s (some j) e f i = inr (s, f, e, settled-IsOf s i)

  choose-IsRecorded :
      (generation : ℕ) (upserted : Group × Option ℕ) (found : Option JobRow)
      → OnOk IsRecorded (choose codec now request generation upserted found)
  unfolding choose
  choose-IsRecorded generation (group, some id) found = retarget-IsRecorded group generation id
  choose-IsRecorded generation (group, none) (some j) = retarget-IsRecorded group generation j.id
  choose-IsRecorded generation (group, none) none = tt

  want-IsRecorded :
      (group : Group) → OnOk IsRecorded (want codec now request group >>= respond codec now request)
  unfolding want
  want-IsRecorded group = OnOk->>= IsRecorded (want codec now request group) _ (λ done e.
      respond-IsRecorded done (
        rw e at (
          choose-IsRecorded (next_generation codec now request group)
            (upsert codec now request group (next_generation codec now request group)
              (find (conflicts codec now request) group.jobs))
            (boundary_job codec now request group.jobs))))

  settle_or_want-IsRecorded :
      (group : Group) (target : Option TargetRow) (segment : Option SegmentRow)
      → group.target ≡ target
      → group.segment ≡ segment
      → OnOk IsRecorded (settle_or_want codec now request group target segment)
  unfolding settle_or_want
  settle_or_want-IsRecorded group none none e f = want-IsRecorded group
  settle_or_want-IsRecorded group none (some s) e f =
      if-cases (OnOk IsRecorded) (is_settled codec now request s)
        (respond codec now request
          (settle codec now request group s (boundary_job codec now request group.jobs)))
        _ (λ i. respond-IsRecorded _ (settle-IsRecorded group s _ e f i))
        (λ i. want-IsRecorded group)
  settle_or_want-IsRecorded group (some t) none e f = want-IsRecorded group
  settle_or_want-IsRecorded group (some t) (some s) e f = want-IsRecorded group

  refresh_or-IsRecorded :
      (group : Group) (target : Option TargetRow)
      → group.target ≡ target
      → OnOk IsRecorded (refresh_or codec now request group target)
  unfolding refresh_or
  refresh_or-IsRecorded group none e = settle_or_want-IsRecorded group none group.segment e refl
  refresh_or-IsRecorded group (some t) e =
      if-cases (OnOk IsRecorded)
        (target_matches_request codec t request codec.segment (codec.fingerprint request))
        (respond codec now request (refresh codec now request group t)) _
        (λ m. respond-IsRecorded _ (refresh-IsRecorded group t m))
        (λ m. settle_or_want-IsRecorded group (some t) group.segment e refl)

  -- What is of a lower projection version changes neither what is wanted nor what is committed, and is
  -- answered by a job with its boundary.
  abbrev pub IsIgnored : Group → Group × ℕ → Type 0
  IsIgnored group done =
      (lower_version codec now request group ≡ true)
      × (done.0.target ≡ group.target)
      × (done.0.segment ≡ group.segment)
      × (any (λ j. has_id done.1 j && boundary_matches_request j.snapshot.mark request) done.0.jobs
          ≡ true)

  -- The answer is a job of the segment, and the request is recorded or ignored.
  abbrev pub IsAnswered : Group → Group × ℕ → Type 0
  IsAnswered group done =
      (any (has_id done.1) done.0.jobs ≡ true) × (IsRecorded done ⊎ IsIgnored group done)

  respond-IsAnswered :
      (group : Group) (m : Result Failure (Group × ℕ))
      → OnOk (λ x. any (has_id x.1) x.0.jobs ≡ true) m
      → OnOk IsRecorded m
      → OnOk (IsAnswered group) m
  respond-IsAnswered group (ok done) own k = (own, inl k)
  respond-IsAnswered group (err e) own k = tt

  abbrev IsOwn : Group × ℕ → Type 0
  IsOwn x = any (has_id x.1) x.0.jobs ≡ true

  respond-IsOwn : (done : Group × ℕ) → OnOk IsOwn (respond codec now request done)
  unfolding respond
  respond-IsOwn (g, id) =
      if-cases (OnOk IsOwn) (any (has_id id) g.jobs) (ok (g, id)) (err job_disappeared) (λ e. e)
        (λ e. tt)

  want-IsOwn :
      (group : Group) → OnOk IsOwn (want codec now request group >>= respond codec now request)
  want-IsOwn group = OnOk->>= IsOwn (want codec now request group) _ (λ done e. respond-IsOwn done)

  settle_or_want-IsOwn :
      (group : Group) (target : Option TargetRow) (segment : Option SegmentRow)
      → OnOk IsOwn (settle_or_want codec now request group target segment)
  unfolding settle_or_want
  settle_or_want-IsOwn group none none = want-IsOwn group
  settle_or_want-IsOwn group none (some s) =
      if-cases (OnOk IsOwn) (is_settled codec now request s) _ _ (λ i. respond-IsOwn _)
        (λ i. want-IsOwn group)
  settle_or_want-IsOwn group (some t) none = want-IsOwn group
  settle_or_want-IsOwn group (some t) (some s) = want-IsOwn group

  refresh_or-IsOwn :
      (group : Group) (target : Option TargetRow)
      → OnOk IsOwn (refresh_or codec now request group target)
  unfolding refresh_or
  refresh_or-IsOwn group none = settle_or_want-IsOwn group none group.segment
  refresh_or-IsOwn group (some t) =
      if-cases (OnOk IsOwn)
        (target_matches_request codec t request codec.segment (codec.fingerprint request)) _ _
        (λ m. respond-IsOwn _) (λ m. settle_or_want-IsOwn group (some t) group.segment)

  ignore-IsIgnored :
      (group : Group) (found : Option JobRow)
      → lower_version codec now request group ≡ true
      → boundary_job codec now request group.jobs ≡ found
      → IsIgnored group (ignore codec now request group found)
  unfolding ignore new_job boundary_job
  ignore-IsIgnored group none lower e = (
    lower,
    refl,
    refl,
    any-inserted _ group.jobs _ (ground (arith, same_mark_refl (mark_of request.boundary))),
  )
  ignore-IsIgnored group (some j) lower e =
      let own : boundary_matches_request j.snapshot.mark request ≡ true =
        find_sound (λ k. boundary_matches_request k.snapshot.mark request) group.jobs j e in
      (
        lower,
        refl,
        refl,
        any-found (λ k. boundary_matches_request k.snapshot.mark request)
            (λ k. has_id j.id k && boundary_matches_request k.snapshot.mark request) group.jobs j e
            (ground (arith, own)),
      )

  respond-IsIgnored :
      (group : Group) (done : Group × ℕ)
      → IsIgnored group done
      → OnOk (IsAnswered group) (respond codec now request done)
  unfolding respond
  respond-IsIgnored group (g, id) k =
      if-cases (OnOk (IsAnswered group)) (any (has_id id) g.jobs) (ok (g, id)) (err job_disappeared)
        (λ e. (e, inr k)) (λ e. tt)

  record_request-IsAnswered :
      (group : Group) → OnOk (IsAnswered group) (record_request codec now request group)
  unfolding record_request
  record_request-IsAnswered group =
      if-cases (OnOk (IsAnswered group)) (lower_version codec now request group)
        (respond codec now request
          (ignore codec now request group (boundary_job codec now request group.jobs)))
        _ (λ lower. respond-IsIgnored group _ (ignore-IsIgnored group _ lower refl))
        (λ lower.
          respond-IsAnswered group (refresh_or codec now request group group.target)
            (refresh_or-IsOwn group group.target) (refresh_or-IsRecorded group group.target refl))

  -- Where `enqueue` answers, the answer is the id of a job of the segment; and the request's snapshot is
  -- the target's, whose job is that one, or it is what is committed, and nothing is wanted, or the
  -- request is of a lower projection version than the rows, the target and what is committed are as they
  -- were, and a job with that id has the request's boundary.
  pub enqueue-IsAnswered :
      (group : Group) (done : Group × ℕ)
      → enqueue codec now request group ≡ ok done
      → IsAnswered group done
  unfolding enqueue
  enqueue-IsAnswered group done e =
      let here : OnOk (IsAnswered group) (enqueue codec now request group) =
        OnOk->>= (IsAnswered group) (check_request codec now request) _ (λ _ a.
          OnOk->>= (IsAnswered group) (check_source codec now request) _
            (λ _ b. record_request-IsAnswered group)) in
      rw e at here
