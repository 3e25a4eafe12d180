-- ===== src/Jobs/Mailbox/Refines.antt =====
-- Every run of the jobs of a segment refines the mailbox.
use mathlib.Core.Option.{some-injective}
use reflection.Common.{
  ℕ, ◌≤◌, ◌≡◌, refl, Bool, ◌&&◌, Option, none, some, List, [], ◌∷◌, arith, if-cases,
}
use reflection.Common.Result.{Result, ok, err, OnOk}
use reflection.Common.Text.{Text, text_eq}
use reflection.Jobs.Codec.{Codec, IsCodec}
use reflection.Jobs.Rows.{Snapshot, TargetRow, SegmentRow, Group, Failure}
use reflection.Jobs.Want.{has_index}
use reflection.Jobs.Enqueue.{enqueue}
use reflection.Jobs.Claim.{Selected}
use reflection.Jobs.Knowledge.{Knowledge}
use reflection.Jobs.Commit.{Committed}
use reflection.Jobs.Machine.{
  State, Event, enqueued, id_taken, selecting, claiming, failing, publishing, committing, retrying,
  superseding, recovering, initial, settled_group, operated_group, committed_state, claim_from,
  step, run,
}
use reflection.Jobs.Invariant.{IsTarget, IsAbove, IsSoundState}
use reflection.Jobs.Invariant.Run.{run-IsSound, step-IsSound, initial-IsSound}
use reflection.Jobs.Mailbox.{
  Mailbox, mailbox_of, wanted_of, committed_of, IsNewer, Use, keeping, enqueuing, ending,
  delivering, abandoning, Change, kept, posted, delivered, outdated, done_already, given_up,
}
use reflection.Jobs.Mailbox.Enqueued.{enqueue-Changes}
use reflection.Jobs.Mailbox.Worked.{
  OptionChanges, claim_selected-Keeps, recover_running_jobs-Keeps, finish_failed_attempt-Changes,
  publish_extraction-Changes, retry_failed_job-Changes, supersede_failed_job-Changes,
}
use reflection.Jobs.Mailbox.Delivered.{commit_resolution-Changes}

-- The use that an event makes of the mailbox.
abbrev pub use_of : {M : Type 0} → Event M → Use
use_of (enqueued _ _) = enqueuing
use_of (failing _ _ _ _) = ending
use_of (committing _ _ _ _) = delivering
use_of (superseding _ _) = abandoning
use_of _ = keeping

-- One change for each event, in their order.
pub data Changed {M : Type 0} : List (Event M) → Mailbox → Mailbox → Type 0 where
  here : {a : Mailbox} → Changed [] a a
  next :
      {a b c : Mailbox} {e : Event M} {events : List (Event M)}
      → Change (use_of e) a b
      → Changed events b c
      → Changed (e ∷ events) a c

settled_group-Change :
    (u : Use) {A : Type 0} (group : Group) (m : Result Failure (Group × A))
    → OnOk (λ (x : Group × A). Change u (mailbox_of group) (mailbox_of x.0)) m
    → Change u (mailbox_of group) (mailbox_of (settled_group group m))
settled_group-Change u group (ok done) c = c
settled_group-Change u group (err e) c = kept refl

committed_state-Change :
    (s : State) (m : Result Failure Committed)
    → OnOk (λ (done : Committed). Change delivering (mailbox_of s.group) (mailbox_of done.group)) m
    → Change delivering (mailbox_of s.group) (mailbox_of (committed_state s m).group)
committed_state-Change s (ok done) c = c
committed_state-Change s (err e) c = kept refl

module _ {M : Type 0} (codec : Codec M) (case_fold : Text → Text) where
  operated_group-Change :
      (u : Use) (now : ℕ) (group : Group) (m : Result Failure (Option Group))
      → OnOk (OptionChanges codec now group u) m
      → Change u (mailbox_of group) (mailbox_of (operated_group group m))
  operated_group-Change u now group (ok (some g)) c = c
  operated_group-Change u now group (ok none) c = kept refl
  operated_group-Change u now group (err e) c = kept refl

  claim_from-Change :
      (now : ℕ) (lease : Text) (owned : Bool) (s : State) (selected : Option Selected)
      → Change keeping
          (mailbox_of s.group)
          (mailbox_of (claim_from codec case_fold now lease owned s selected).group)
  unfolding claim_from
  claim_from-Change now lease owned s none = kept refl
  claim_from-Change now lease owned s (some selected) =
      kept (claim_selected-Keeps codec now s.group lease selected owned)

  step-Change :
      (s : State) (e : Event M)
      → Change (use_of e) (mailbox_of s.group) (mailbox_of (step codec case_fold s e).group)
  unfolding step
  step-Change s (enqueued now request) =
      if-cases (λ (next : State). Change enqueuing (mailbox_of s.group) (mailbox_of next.group))
        (text_eq (codec.segment_id request) codec.segment && has_index codec now request s.group)
        (record s { group = settled_group s.group (enqueue codec now request s.group) }) s
        (λ _. settled_group-Change enqueuing s.group _ (enqueue-Changes codec now request s.group))
        (λ _. kept refl)
  step-Change s id_taken = kept refl
  step-Change s (selecting now excluded id) = kept refl
  step-Change s (claiming now lease owned) = claim_from-Change now lease owned s s.selected
  step-Change s (failing now job error retry) =
      settled_group-Change ending s.group _
        (finish_failed_attempt-Changes codec now s.group job error retry)
  step-Change s (publishing now job result) =
      settled_group-Change keeping s.group _
        (publish_extraction-Changes codec now s.group job result)
  step-Change s (committing now job result prepared) =
      committed_state-Change s _
        (commit_resolution-Changes codec case_fold now s.group s.knowledge job prepared result)
  step-Change s (retrying now id restart) =
      operated_group-Change keeping now s.group _
        (retry_failed_job-Changes codec now s.group id restart)
  step-Change s (superseding now id) =
      operated_group-Change abandoning now s.group _
        (supersede_failed_job-Changes codec now s.group id)
  step-Change s (recovering now owned) = kept (recover_running_jobs-Keeps codec now s.group owned)

  -- Whatever the events, from any rows, each event changes what is wanted and what is committed as its
  -- use of a mailbox may: only a submission makes a snapshot wanted, one of a later generation and of no
  -- lower projection version than the wanted and the committed one; only a commit makes a snapshot
  -- committed, the wanted one; what is wanted is dropped only by an operator, by a commit where a higher
  -- projection version is committed, and by the end of an attempt where its generation is committed.
  pub run-Changed :
      (s : State) (events : List (Event M))
      → Changed events (mailbox_of s.group) (mailbox_of (run codec case_fold s events).group)
  unfolding run
  run-Changed s [] = here
  run-Changed s (e ∷ events) =
      next (step-Change s e) (run-Changed (step codec case_fold s e) events)

-- What was committed is still there, or something of a later generation is.
abbrev pub IsPast : Option Snapshot → Option Snapshot → Type 0
IsPast none after = Unit
IsPast (some c) after =
    (d : Snapshot) × (after ≡ some d)
    × (c.source_generation ≤ d.source_generation)
    × (c.projection_version ≤ d.projection_version)

IsPast-refl : (a : Option Snapshot) → IsPast a a
IsPast-refl none = tt
IsPast-refl (some c) = (c, refl, omega arith, omega arith)

IsPast-trans : (a b c : Option Snapshot) → IsPast a b → IsPast b c → IsPast a c
IsPast-trans none b c h k = tt
IsPast-trans (some x) none c (d, e, g, v) k = cc
IsPast-trans (some x) (some y) c (d, e, g, v) (f, j, l, m) = (f, j, ground arith, ground arith)

IsNewer-IsPast : (new : Snapshot) (a : Option Snapshot) → IsNewer new a → IsPast a (some new)
IsNewer-IsPast new none h = tt
IsNewer-IsPast new (some old) (g, v) = (new, refl, omega arith, v)

Change-IsPast :
    (u : Use) (a b : Mailbox)
    → ((new : Snapshot) → a.wanted ≡ some new → IsNewer new a.committed)
    → Change u a b
    → IsPast a.committed b.committed
Change-IsPast u a b above (kept e) = rw e (IsPast-refl a.committed)
Change-IsPast u a b above (posted new w c e) = rw e (IsPast-refl a.committed)
Change-IsPast u a b above (delivered new w e) = rw e (IsNewer-IsPast new a.committed (above new w))
Change-IsPast u a b above (outdated new old w c lower e) = rw e (IsPast-refl a.committed)
Change-IsPast u a b above (done_already new old w c same e) = rw e (IsPast-refl a.committed)
Change-IsPast u a b above (given_up e) = rw e (IsPast-refl a.committed)

module _ {M : Type 0} (codec : Codec M) (laws : IsCodec codec) (case_fold : Text → Text) where
  above-IsNewer :
      (new : Snapshot) (s : Option SegmentRow) → IsAbove new s → IsNewer new (committed_of s)
  above-IsNewer new none h = tt
  above-IsNewer new (some s) h = h

  target-IsNewer :
      (group : Group) (target : Option TargetRow) (new : Snapshot)
      → wanted_of target ≡ some new
      → IsTarget codec group target
      → IsNewer new (committed_of group.segment)
  target-IsNewer group none new e h = cc
  target-IsNewer group (some t) new e (r, found, above) =
      rw (← some-injective t.snapshot new e) (above-IsNewer t.snapshot group.segment above)

  run_on-IsPast :
      (events : List (Event M)) (s : State)
      → IsSoundState codec s
      → IsPast
          (committed_of s.group.segment)
          (committed_of (run codec case_fold s events).group.segment)
  unfolding run IsSoundState
  run_on-IsPast [] s h = IsPast-refl (committed_of s.group.segment)
  run_on-IsPast (e ∷ events) s h =
      IsPast-trans (committed_of s.group.segment)
        (committed_of (step codec case_fold s e).group.segment) _
        (Change-IsPast (use_of e) (mailbox_of s.group) (mailbox_of (step codec case_fold s e).group)
          (λ new w. target-IsNewer s.group s.group.target new w h.target)
          (step-Change codec case_fold s e))
        (run_on-IsPast events (step codec case_fold s e) (step-IsSound codec laws case_fold s e h))

  -- Once a snapshot is committed, after any more events one of no lower generation and of no lower
  -- projection version is. It is assumed that an accepted request is decoded from what it is encoded as,
  -- that a request of version 1 or 2 is encoded without its source, and that the priority is checked by
  -- itself and not hashed.
  pub run-IsPast :
      (knowledge : Knowledge) (events more : List (Event M))
      → IsPast (committed_of (run codec case_fold (initial knowledge) events).group.segment) (
          committed_of
            (run codec case_fold
              (run codec case_fold (initial knowledge) events)
              more).group.segment)
  run-IsPast knowledge events more =
      run_on-IsPast more (run codec case_fold (initial knowledge) events) (
        run-IsSound codec laws case_fold events (initial knowledge)
          (initial-IsSound codec laws case_fold knowledge))
