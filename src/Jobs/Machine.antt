-- ===== src/Jobs/Machine.antt =====
-- The interleaving of the operations on one segment: the operations of server/src/database.ts as
-- events, in any order and with any claims, with the selection that one worker has not locked yet.
use reflection.Common.{ℕ, suc, Bool, ◌&&◌, Option, none, some, List, [], ◌∷◌, if◌then◌else◌}
use reflection.Common.Result.{Result, ok, err}
use reflection.Common.Text.{Text, text_eq}
use reflection.Jobs.Codec.{Request, Codec, Extraction}
use reflection.Jobs.Rows.{Group, Failure}
use reflection.Jobs.Match.{ClaimedJob}
use reflection.Jobs.Want.{has_index}
use reflection.Jobs.Enqueue.{enqueue}
use reflection.Jobs.Claim.{Selected, select_job, claim_selected}
use reflection.Jobs.Attempt.{finish_failed_attempt, publish_extraction}
use reflection.Jobs.Knowledge.{Knowledge}
use reflection.Jobs.Commit.{PreparedSegment, Committed, commit_resolution}
use reflection.Jobs.Operate.{retry_failed_job, supersede_failed_job}
use reflection.Jobs.Recover.{recover_running_jobs}

pub record State : Type 0 where
  pub group : Group
  pub knowledge : Knowledge
  pub selected : Option Selected

abbrev pub empty_group : Group
empty_group = record { jobs = []; target = none; segment = none; next_id = 1 }

abbrev pub initial : Knowledge → State
initial knowledge = record { group = empty_group; knowledge = knowledge; selected = none }

-- Each event has the time that `now()` gives.
pub data Event (M : Type 0) : Type 0 where
  enqueued : ℕ → Request M → Event M
  -- Another segment takes an id of the sequence.
  id_taken : Event M
  -- A worker reads, and then locks what it has selected.
  selecting : ℕ → (excluded : List Text) → (id : ℕ) → Event M
  claiming : ℕ → (lease : Text) → (owned : Bool) → Event M
  failing : ℕ → ClaimedJob M → (error : Text) → (retry_after_seconds : Option ℕ) → Event M
  publishing : ℕ → ClaimedJob M → Extraction → Event M
  committing : ℕ → ClaimedJob M → Extraction → PreparedSegment → Event M
  retrying : ℕ → (id : ℕ) → (restart_extraction : Bool) → Event M
  superseding : ℕ → (id : ℕ) → Event M
  -- A worker starts.
  recovering : ℕ → (owned : Bool) → Event M

-- A transaction that throws changes nothing.
abbrev pub settled_group : {A : Type 0} → Group → Result Failure (Group × A) → Group
settled_group group (ok done) = done.0
settled_group group (err e) = group

abbrev pub operated_group : Group → Result Failure (Option Group) → Group
operated_group group (ok (some next)) = next
operated_group group (ok none) = group
operated_group group (err e) = group

abbrev pub committed_state : State → Result Failure Committed → State
committed_state s (ok done) = record s { group = done.group; knowledge = done.knowledge }
committed_state s (err e) = s

module _ {M : Type 0} (codec : Codec M) (case_fold : Text → Text) where
  unfoldable pub claim_from : ℕ → Text → Bool → State → Option Selected → State
  claim_from now lease owned s none = s
  claim_from now lease owned s (some selected) = record s {
    group = (claim_selected codec now lease selected s.group owned).0;
    selected = none;
  }

  -- A request comes to the group of its segment, in a table with its unique index.
  unfoldable pub step : State → Event M → State
  step s (enqueued now request) =
      if text_eq (codec.segment_id request) codec.segment && has_index codec now request s.group
      then record s { group = settled_group s.group (enqueue codec now request s.group) }
      else s
  step s id_taken = record s { group = record s.group { next_id = suc s.group.next_id } }
  step s (selecting now excluded id) = record s {
    selected = select_job codec now excluded s.group id;
  }
  step s (claiming now lease owned) = claim_from now lease owned s s.selected
  step s (failing now job error retry_after_seconds) = record s {
    group =
        settled_group s.group
          (finish_failed_attempt codec now s.group job error retry_after_seconds);
  }
  step s (publishing now job result) = record s {
    group = settled_group s.group (publish_extraction codec now s.group job result);
  }
  step s (committing now job result prepared) =
      committed_state s
        (commit_resolution codec case_fold now s.group s.knowledge job prepared result)
  step s (retrying now id restart_extraction) = record s {
    group = operated_group s.group (retry_failed_job codec now s.group id restart_extraction);
  }
  step s (superseding now id) = record s {
    group = operated_group s.group (supersede_failed_job codec now s.group id);
  }
  step s (recovering now owned) = record s {
    group = (recover_running_jobs codec now owned s.group).0;
    selected = none;
  }

  unfoldable pub run : State → List (Event M) → State
  run s [] = s
  run s (e ∷ events) = run (step s e) events
