-- ===== src/Worker/Loop/Bounds.antt =====
-- How many tasks the work loop runs, and for which sessions.
use reflection.Common.{
  ◌≤◌, ◌≡◌, refl, true, false, Option, none, some, List, [], arith, length, if◌then◌else◌,
}
use reflection.Worker.Process.{Job, Settings}
use reflection.Worker.Loop.{
  Session, session_of, has_session, Task, Place, top, waiting, draining, ended, claiming, State,
  Event, proceed, woken, claim_failed, drained, stopped, claimed, finished, settled, initial,
  dispatch, claim, drain, step, fail_claim,
}
use reflection.Worker.Loop.Sessions.{live_sessions, AreDistinct}
use reflection.Worker.Loop.Invariant.{
  AtPlace, IsSound, ended_empty, initial-IsSound, moved, dispatch-IsSound, AtPlace-if,
  AtPlace-fewer, finish_task-IsSound, settle_task-IsSound, IsSound-of_some, proceed-IsSound,
  wake_from-IsSound,
}

-- What `claimOldestJob` hands out, given the excluded sessions.
abbrev pub Offering : Type 1
Offering = List Session → Job → Type 0

-- It hands out no job of an excluded session.
abbrev pub RespectsExclusion : Offering → Type 0
RespectsExclusion Offers =
    (excluded : List Session) (job : Job)
    → Offers excluded job
    → has_session excluded (session_of job) ≡ false

abbrev pub IsOffered : Offering → Place → Event → Type 0
IsOffered Offers (claiming excluded) (claimed (some job)) = Offers excluded job
IsOffered Offers _ _ = Unit

-- The states of the work loop's runs.
pub data Reachable (settings : Settings) (Offers : Offering) : State → Type 0 where
  start : Reachable settings Offers initial
  next :
      {s t : State} (e : Event)
      → Reachable settings Offers s
      → IsOffered Offers s.place e
      → step settings e s ≡ some t
      → Reachable settings Offers t

fail_claim-IsSound :
    (settings : Settings) (place : Place) (s t : State)
    → IsSound settings s
    → fail_claim place s ≡ some t
    → IsSound settings t
fail_claim-IsSound settings (claiming excluded) s t h e =
    IsSound-of_some settings _ t (moved settings s (record s { place = draining }) h refl refl tt) e
fail_claim-IsSound settings _ s t h e = cc

drain-IsSound :
    (settings : Settings) (place : Place) (tasks : List Task) (s t : State)
    → IsSound settings s
    → s.tasks ≡ tasks
    → drain place tasks s ≡ some t
    → IsSound settings t
unfolding drain
drain-IsSound settings draining [] s t h none_left e =
    IsSound-of_some settings _ t
      (moved settings s (record s { place = ended }) h refl refl none_left) e
drain-IsSound settings _ _ s t h left e = cc

claim-IsSound :
    (settings : Settings) (Offers : Offering) (job : Option Job) (place : Place) (s t : State)
    → IsSound settings s
    → AtPlace settings s place
    → RespectsExclusion Offers
    → IsOffered Offers place (claimed job)
    → claim job place s ≡ some t
    → IsSound settings t
unfolding claim
claim-IsSound settings Offers none (claiming excluded) s t h at x c e =
    IsSound-of_some settings _ t
      (moved settings s (record s { place = if s.stopping then draining else waiting }) h refl refl
        (AtPlace-if settings s.stopping
          (record s { place = if s.stopping then draining else waiting }) draining waiting tt tt))
      e
claim-IsSound settings Offers (some job) (claiming excluded) s t h (room, free) x c e =
    IsSound-of_some settings _ t
      (dispatch-IsSound settings job (if s.stopping then draining else top) s h room
        (free _ (x excluded job c))
        (AtPlace-if settings s.stopping (dispatch job (if s.stopping then draining else top) s)
          draining top tt tt))
      e
claim-IsSound settings Offers _ _ s t h at x c e = cc

step-IsSound :
    (settings : Settings) (Offers : Offering) (e : Event) (s t : State)
    → IsSound settings s
    → RespectsExclusion Offers
    → IsOffered Offers s.place e
    → step settings e s ≡ some t
    → IsSound settings t
unfolding step
step-IsSound settings Offers proceed s t h x c e = proceed-IsSound settings s.place s t h e
step-IsSound settings Offers woken s t h x c e = wake_from-IsSound settings s.place s t h e
step-IsSound settings Offers claim_failed s t h x c e = fail_claim-IsSound settings s.place s t h e
step-IsSound settings Offers drained s t h x c e =
    drain-IsSound settings s.place s.tasks s t h refl e
step-IsSound settings Offers stopped s t h x c e =
    IsSound-of_some settings _ t
      (moved settings s (record s { stopping = true }) h refl refl
        (AtPlace-fewer settings s (record s { stopping = true }) s.place h.at_place (omega arith)
          (λ x free. free)))
      e
step-IsSound settings Offers (claimed job) s t h x c e =
    claim-IsSound settings Offers job s.place s t h h.at_place x c e
step-IsSound settings Offers (finished k result) s t h x c e =
    finish_task-IsSound settings k result s t h e
step-IsSound settings Offers (settled k) s t h x c e = settle_task-IsSound settings k s t h e

Reachable-IsSound :
    (settings : Settings) (Offers : Offering) (s : State)
    → RespectsExclusion Offers
    → Reachable settings Offers s
    → IsSound settings s
Reachable-IsSound settings Offers s x start = initial-IsSound settings
Reachable-IsSound settings Offers s x (next {s = before} e r c done) =
    step-IsSound settings Offers e before s (Reachable-IsSound settings Offers before x r) x c done

-- Where the database hands out no job of an excluded session: at every point of a run of the work
-- loop, whatever the order in which tasks end, waits end and the worker is stopped, there are no
-- more tasks than the configured concurrency; `activeSessions` holds exactly the sessions of the
-- live tasks, no session twice, so no two live tasks are of one session; and where the loop has
-- ended, no task is left.
pub Reachable-IsBounded :
    (settings : Settings) (Offers : Offering) (s : State)
    → RespectsExclusion Offers
    → Reachable settings Offers s
    → (length s.tasks ≤ settings.worker_concurrency)
      × (s.sessions ≡ live_sessions s.tasks)
      × AreDistinct (live_sessions s.tasks)
      × (s.place ≡ ended → s.tasks ≡ [])
Reachable-IsBounded settings Offers s x r =
    let h = Reachable-IsSound settings Offers s x r in
    (
      h.bounded,
      h.sessions_are_live,
      rw (← h.sessions_are_live) h.distinct,
      λ over. ended_empty settings s s.place over h.at_place,
    )
