-- ===== src/Worker/Loop.antt =====
-- server/src/worker.ts: `ExtractionWorker`'s work loop and the tasks that it starts, as the
-- interleaving of the loop, of its tasks and of `stop`: each event runs from one `await` to the next.
-- Which job the database hands out, and when a wait ends, is part of the event.
pub mod Sessions
pub mod Invariant
pub mod Bounds
use reflection.Common.{
  ℕ, zero, suc, Bool, true, false, ◌&&◌, Option, none, some, List, [], ◌∷◌, ◌++◌, leb, any, length,
  if◌then◌else◌,
}
use reflection.Common.Text.{Text, text_eq}
use reflection.Worker.Process.{Job, Settings, ProcessResult, progressed, stale}

-- `SourceSession`. `sourceSessionKey` writes the two as a JSON array, so keys are equal where both
-- are.
pub record Session : Type 0 where
  pub source_id : Text
  pub session_id : Text

abbrev pub session_of : Job → Session
session_of job = record { source_id = job.source_id; session_id = job.session_id }

abbrev pub same_session : Session → Session → Bool
same_session a b = text_eq a.source_id b.source_id && text_eq a.session_id b.session_id

abbrev pub has_session : List Session → Session → Bool
has_session sessions s = any (λ a. same_session a s) sessions

-- An element of `activeTasks`; it is live until the `finally` of its dispatch has run.
pub record Task : Type 0 where
  pub job : Job
  pub live : Bool

-- Where the loop is: before its condition, at one of its waits, at `claimOldestJob` with the excluded
-- sessions, at the `Promise.allSettled` of its end, or behind it.
pub data Place : Type 0 where
  top backing_off full waiting draining ended : Place
  claiming : List Session → Place

pub record State : Type 0 where
  pub place : Place
  pub tasks : List Task
  pub sessions : List Session
  pub stale_backoff : Bool
  pub stopping : Bool

pub data Event : Type 0 where
  proceed woken claim_failed drained stopped : Event
  claimed : Option Job → Event
  -- The dispatch of the task at a position ends with a result, or with an unexpected error.
  finished : ℕ → Option ProcessResult → Event
  -- Its promise settles.
  settled : ℕ → Event

abbrev pub initial : State
initial = record { place = top; tasks = []; sessions = []; stale_backoff = false; stopping = false }

-- `#addActiveSession`
unfoldable pub add_session : Session → List Session → List Session
add_session s sessions = if has_session sessions s then sessions else sessions ++ s ∷ []

-- `activeSessions.delete(key)`
unfoldable pub delete_session : Session → List Session → List Session
delete_session s [] = []
delete_session s (a ∷ sessions) =
    if same_session a s then sessions else a ∷ delete_session s sessions

-- From the check of the concurrency on.
abbrev pub claim_if_room : Settings → State → State
claim_if_room settings s =
    if leb settings.worker_concurrency (length s.tasks)
    then record s { place = full }
    else record s { place = claiming s.sessions }

unfoldable pub proceed_from : Settings → State → State
proceed_from settings s =
    if s.stopping
    then record s { place = draining }
    else if s.stale_backoff
    then record s { place = backing_off; stale_backoff = false }
    else claim_if_room settings s

-- A wait is over.
pub wake_from : Settings → Place → State → Option State
wake_from settings backing_off s =
    some (if s.stopping then record s { place = draining } else claim_if_room settings s)
wake_from settings full s = some (record s { place = if s.stopping then draining else top })
wake_from settings waiting s = some (record s { place = top })
wake_from settings _ s = none

-- The job is dispatched.
unfoldable pub dispatch : Job → Place → State → State
unfolding add_session
dispatch job place s = record s {
  place = place;
  tasks = s.tasks ++ record { job = job; live = true } ∷ [];
  sessions = add_session (session_of job) s.sessions;
}

unfoldable pub claim : Option Job → Place → State → Option State
unfolding dispatch
claim none (claiming excluded) s =
    some (record s { place = if s.stopping then draining else waiting })
claim (some job) (claiming excluded) s =
    some (dispatch job (if s.stopping then draining else top) s)
claim _ _ s = none

-- The job of a live task, and the tasks with that one no longer live.
unfoldable pub finish_at : ℕ → List Task → Option (Job × List Task)
finish_at k [] = none
finish_at zero (t ∷ ts) = if t.live then some (t.job, record t { live = false } ∷ ts) else none
finish_at (suc k) (t ∷ ts) = elim (finish_at k ts) [
  | none ↦ none
  | some found ↦ some (found.0, t ∷ found.1)
]

-- The tasks without the one at a position, which is not live.
pub settle_at : ℕ → List Task → Option (List Task)
settle_at k [] = none
settle_at zero (t ∷ ts) = if t.live then none else some ts
settle_at (suc k) (t ∷ ts) = elim (settle_at k ts) [ none ↦ none | some rest ↦ some (t ∷ rest) ]

abbrev is_stale : Option ProcessResult → Bool
is_stale (some stale) = true
is_stale _ = false

unfoldable pub finish_task : Option ProcessResult → Option (Job × List Task) → State → Option State
unfolding delete_session
finish_task result none s = none
finish_task result (some found) s = some (record s {
  tasks = found.1;
  sessions = delete_session (session_of found.0) s.sessions;
  stale_backoff = if is_stale result then true else s.stale_backoff;
})

pub settle_task : Option (List Task) → State → Option State
settle_task none s = none
settle_task (some tasks) s = some (record s { tasks = tasks })

pub drain : Place → List Task → State → Option State
drain draining [] s = some (record s { place = ended })
drain _ _ s = none

abbrev pub at_top : Place → State → Option State → Option State
at_top top s next = next
at_top _ s next = none

abbrev pub fail_claim : Place → State → Option State
fail_claim (claiming excluded) s = some (record s { place = draining })
fail_claim _ s = none

-- The state behind an event, where the event can happen.
unfoldable pub step : Settings → Event → State → Option State
unfolding proceed_from wake_from claim finish_task settle_task drain finish_at settle_at
step settings proceed s = at_top s.place s (some (proceed_from settings s))
step settings woken s = wake_from settings s.place s
step settings claim_failed s = fail_claim s.place s
step settings drained s = drain s.place s.tasks s
step settings stopped s = some (record s { stopping = true })
step settings (claimed job) s = claim job s.place s
step settings (finished k result) s = finish_task result (finish_at k s.tasks) s
step settings (settled k) s = settle_task (settle_at k s.tasks) s
