-- ===== src/Jobs/Invariant/Run.antt =====
-- Every event keeps a state sound, so that every run does.
use reflection.Common.{
  any, ℕ, ◌≡◌, refl, ap, Bool, true, false, ◌&&◌, not, Option, none, some, List, [], ◌∷◌, arith,
  All-map, if-cases,
}
use reflection.Common.Result.{Result, ok, err, ◌>>=◌, OnOk, OnOk->>=, OnOk-throw_if}
use reflection.Common.Text.{Text, text_eq, text_eq_sound}
use reflection.Jobs.Codec.{Request, Codec, IsCodec}
use reflection.Jobs.Rows.{
  Failure, request_refused, has_id, job_disappeared, TargetRow, SegmentRow, Group, row_count,
}
use reflection.Jobs.Match.{target_matches_request}
use reflection.Jobs.Want.{boundary_job, has_index, want}
use reflection.Jobs.Enqueue.{
  lower_version, ignore, refresh, is_settled, settle, respond, settle_or_want, refresh_or,
  record_request, check_request, check_source, enqueue,
}
use reflection.Jobs.Claim.{Selected}
use reflection.Jobs.Machine.{
  claim_from, operated_group, committed_state, State, Event, enqueued, id_taken, selecting,
  claiming, failing, publishing, committing, retrying, superseding, recovering, initial,
  settled_group, step, run,
}
use reflection.Jobs.Knowledge.{Knowledge}
use reflection.Jobs.Invariant.{IsSound, most_running, IsSoundState}
use reflection.Jobs.Commit.{Committed}
use reflection.Jobs.Invariant.Claim.{claim_selected-IsSound, select_job-IsSound, weakened-IsSound}
use reflection.Jobs.Invariant.Finish.{finish_failed_attempt-IsSound}
use reflection.Jobs.Invariant.Publish.{publish_extraction-IsSound}
use reflection.Jobs.Invariant.Commit.{commit_resolution-IsSound}
use reflection.Jobs.Invariant.Operate.{retry_failed_job-IsSound, supersede_failed_job-IsSound}
use reflection.Jobs.Invariant.Recover.{recover_running_jobs-IsSound}
use reflection.Jobs.Invariant.Operate
use reflection.Jobs.Invariant.Enqueue.{ignore-IsSound, settle-IsSound}
use reflection.Jobs.Invariant.Refresh.{refresh-IsSound}
use reflection.Jobs.Invariant.Want.{want-IsSound}

module _ (n : ℕ) {M : Type 0} (codec : Codec M) (laws : IsCodec codec) (now : ℕ)
    (request : Request M) (here : codec.segment_id request ≡ codec.segment) (group : Group)
    (h : IsSound codec n group) (index : has_index codec now request group ≡ true) where
  abbrev Keeps : Group × ℕ → Type 0
  Keeps x = IsSound codec n x.0

  respond-Keeps : (done : Group × ℕ) → Keeps done → OnOk Keeps (respond codec now request done)
  unfolding respond
  respond-Keeps (g, id) k =
      if-cases (OnOk Keeps) (any (has_id id) g.jobs) (ok (g, id)) (err job_disappeared) (λ e. k)
        (λ e. tt)

  want_and_respond-IsSound :
      codec.accepts request ≡ true
      → lower_version codec now request group ≡ false
      → OnOk Keeps (want codec now request group >>= respond codec now request)
  want_and_respond-IsSound taken lower = OnOk->>= Keeps (want codec now request group) _ (λ done e.
      respond-Keeps done
        (rw e at (want-IsSound n codec laws now request here taken group index lower h)))

  settle_or_want-IsSound :
      (target : Option TargetRow) (segment : Option SegmentRow)
      → group.target ≡ target
      → codec.accepts request ≡ true
      → lower_version codec now request group ≡ false
      → OnOk Keeps (settle_or_want codec now request group target segment)
  unfolding settle_or_want
  settle_or_want-IsSound none none e taken lower = want_and_respond-IsSound taken lower
  settle_or_want-IsSound none (some s) e taken lower =
      if-cases (OnOk Keeps) (is_settled codec now request s)
        (respond codec now request
          (settle codec now request group s (boundary_job codec now request group.jobs)))
        _ (λ i. respond-Keeps _ (settle-IsSound n codec laws now request here group s _ e h))
        (λ i. want_and_respond-IsSound taken lower)
  settle_or_want-IsSound (some t) none e taken lower = want_and_respond-IsSound taken lower
  settle_or_want-IsSound (some t) (some s) e taken lower = want_and_respond-IsSound taken lower

  refresh_or-IsSound :
      (target : Option TargetRow)
      → group.target ≡ target
      → codec.accepts request ≡ true
      → lower_version codec now request group ≡ false
      → OnOk Keeps (refresh_or codec now request group target)
  unfolding refresh_or
  refresh_or-IsSound none e taken lower = settle_or_want-IsSound none group.segment e taken lower
  refresh_or-IsSound (some t) e taken lower =
      if-cases (OnOk Keeps)
        (target_matches_request codec t request codec.segment (codec.fingerprint request))
        (respond codec now request (refresh codec now request group t)) _
        (λ m. respond-Keeps _ (refresh-IsSound n codec laws now request here taken group t m e h))
        (λ m. settle_or_want-IsSound (some t) group.segment e taken lower)

  record_request-IsSound :
      codec.accepts request ≡ true → OnOk Keeps (record_request codec now request group)
  unfolding record_request
  record_request-IsSound taken =
      if-cases (OnOk Keeps) (lower_version codec now request group)
        (respond codec now request
          (ignore codec now request group (boundary_job codec now request group.jobs)))
        _ (λ l. respond-Keeps _ (ignore-IsSound n codec laws now request here group _ h))
        (λ l. refresh_or-IsSound group.target refl taken l)

  pub enqueue-IsSound : OnOk Keeps (enqueue codec now request group)
  unfolding enqueue check_request
  enqueue-IsSound = OnOk-throw_if Keeps (not (codec.accepts request)) request_refused _ (λ refused.
      OnOk->>= Keeps (check_source codec now request) _
        (λ _ e. record_request-IsSound (ground arith)))

module _ (n : ℕ) {M : Type 0} (codec : Codec M) (group : Group) (h : IsSound codec n group) where
  settled_group-IsSound :
      {A : Type 0} (m : Result Failure (Group × A))
      → OnOk (λ (x : Group × A). IsSound codec n x.0) m
      → IsSound codec n (settled_group group m)
  settled_group-IsSound (ok done) k = k
  settled_group-IsSound (err e) k = h

  operated_group-IsSound :
      (m : Result Failure (Option Group))
      → OnOk (Operate.Keeps n codec) m
      → IsSound codec n (operated_group group m)
  operated_group-IsSound (ok (some next)) k = k
  operated_group-IsSound (ok none) k = h
  operated_group-IsSound (err e) k = h

committed_state-IsSound :
    {M : Type 0} (codec : Codec M) (s : State) (m : Result Failure Committed)
    → OnOk (λ (done : Committed). IsSound codec (most_running s.selected) done.group) m
    → IsSoundState codec s
    → IsSoundState codec (committed_state s m)
unfolding IsSoundState
committed_state-IsSound codec s (ok done) k h = k
committed_state-IsSound codec s (err e) k h = h

weakened-IsSoundState :
    {M : Type 0} (codec : Codec M) (group : Group) (selected : Option Selected)
    → IsSound codec (most_running selected) group
    → IsSound codec 1 group
weakened-IsSoundState codec group none h = h
weakened-IsSoundState codec group (some selected) h = weakened-IsSound codec 0 group h

module _ {M : Type 0} (codec : Codec M) (laws : IsCodec codec) (case_fold : Text → Text) where
  claim_from-IsSound :
      (now : ℕ) (lease : Text) (owned : Bool) (s : State) (selected : Option Selected)
      → s.selected ≡ selected
      → IsSoundState codec s
      → IsSoundState codec (claim_from codec case_fold now lease owned s selected)
  unfolding claim_from IsSoundState
  claim_from-IsSound now lease owned s none e h = h
  claim_from-IsSound now lease owned s (some selected) e h =
      claim_selected-IsSound codec now s.group lease selected (rw (ap most_running e) at h) owned

  pub step-IsSound :
      (s : State) (e : Event M)
      → IsSoundState codec s
      → IsSoundState codec (step codec case_fold s e)
  unfolding step IsSoundState
  step-IsSound s (enqueued now request) h =
      if-cases (IsSoundState codec)
        (text_eq (codec.segment_id request) codec.segment && has_index codec now request s.group)
        (record s { group = settled_group s.group (enqueue codec now request s.group) }) s
        (λ e. settled_group-IsSound (most_running s.selected) codec s.group h _ (
          enqueue-IsSound (most_running s.selected) codec laws now request
            (text_eq_sound (codec.segment_id request) codec.segment (ground arith)) s.group h
            (ground arith)))
        (λ e. h)
  step-IsSound s id_taken h = record {
    below = All-map s.group.jobs (λ j b. omega arith) h.below;
    distinct = h.distinct;
    one_running = h.one_running;
    rows = h.rows;
    target = h.target;
  }
  step-IsSound s (selecting now excluded id) h =
      select_job-IsSound 1 codec now s.group excluded id
        (weakened-IsSoundState codec s.group s.selected h)
  step-IsSound s (claiming now lease owned) h =
      claim_from-IsSound now lease owned s s.selected refl h
  step-IsSound s (failing now job error retry) h =
      settled_group-IsSound (most_running s.selected) codec s.group h _ (
        finish_failed_attempt-IsSound (most_running s.selected) codec laws now job error retry
          s.group h)
  step-IsSound s (publishing now job result) h =
      settled_group-IsSound (most_running s.selected) codec s.group h _
        (publish_extraction-IsSound (most_running s.selected) codec laws now job s.group result h)
  step-IsSound s (committing now job result prepared) h =
      committed_state-IsSound codec s _
        (commit_resolution-IsSound (most_running s.selected) codec laws case_fold now s.group
          s.knowledge job prepared result h)
        h
  step-IsSound s (retrying now id restart) h =
      operated_group-IsSound (most_running s.selected) codec s.group h _
        (retry_failed_job-IsSound (most_running s.selected) codec laws now s.group id h restart)
  step-IsSound s (superseding now id) h =
      operated_group-IsSound (most_running s.selected) codec s.group h _
        (supersede_failed_job-IsSound (most_running s.selected) codec laws now s.group id h)
  step-IsSound s (recovering now owned) h =
      recover_running_jobs-IsSound 1 codec laws now owned s.group
        (weakened-IsSoundState codec s.group s.selected h)

  pub run-IsSound :
      (events : List (Event M)) (s : State)
      → IsSoundState codec s
      → IsSoundState codec (run codec case_fold s events)
  unfolding run
  run-IsSound [] s h = h
  run-IsSound (e ∷ events) s h = run-IsSound events _ (step-IsSound s e h)

  pub initial-IsSound : (knowledge : Knowledge) → IsSoundState codec (initial knowledge)
  unfolding IsSoundState row_count
  initial-IsSound knowledge = record {
    below = tt;
    distinct = tt;
    one_running = omega arith;
    rows = tt;
    target = tt;
  }

  -- After any events, in any order and with any claims: the jobs have different ids; at most one runs,
  -- and none while a job is selected and not yet claimed; a pending job is the target's and has its
  -- snapshot, and so has the target's job while an extraction is staged; a pending or running job has
  -- the request that it is for; the target records a request for the segment, its job is pending,
  -- running or failed, and it is of a newer generation and of no lower projection version than what is
  -- committed. It is assumed that an accepted request is decoded from what it is encoded as, that a
  -- request of version 1 or 2 is encoded without its source, and that the priority is checked by itself
  -- and not hashed.
  pub run-IsSoundState :
      (knowledge : Knowledge) (events : List (Event M))
      → IsSoundState codec (run codec case_fold (initial knowledge) events)
  run-IsSoundState knowledge events =
      run-IsSound events (initial knowledge) (initial-IsSound knowledge)
