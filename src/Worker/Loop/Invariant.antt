-- ===== src/Worker/Loop/Invariant.antt =====
-- What holds of the work loop between two events, and that each part of a round keeps it.
use reflection.Common.{
  ℕ, ◌≤◌, ◌<◌, ◌≡◌, inl, inr, refl, Bool, true, false, Option, some, List, [], ◌∷◌, arith, length,
  length-append, Bool-cases, Option-cases, leb, if◌then◌else◌,
}
use reflection.Worker.Process.{Job, Settings, ProcessResult}
use reflection.Worker.Loop.{
  Session, session_of, has_session, Task, Place, top, backing_off, full, waiting, draining, ended,
  claiming, State, initial, add_session, delete_session, proceed_from, wake_from, dispatch,
  finish_at, settle_at, finish_task, settle_task, claim_if_room, at_top,
}
use reflection.Worker.Loop.Sessions.{
  live_sessions, AreDistinct, finish_at-length, settle_at-length, settle_at-live, finish_at-live,
  delete_session-has_session, delete_session-AreDistinct, AreDistinct-append, live_sessions-append,
}

-- What holds of the loop at one of its waits.
abbrev pub AtPlace : Settings → State → Place → Type 0
AtPlace settings s (claiming excluded) =
    (length s.tasks < settings.worker_concurrency)
    × ((x : Session) → has_session excluded x ≡ false → has_session s.sessions x ≡ false)
AtPlace settings s ended = s.tasks ≡ []
AtPlace settings s _ = Unit

pub record IsSound (settings : Settings) (s : State) : Type 0 where
  pub sessions_are_live : s.sessions ≡ live_sessions s.tasks
  pub distinct : AreDistinct s.sessions
  pub bounded : length s.tasks ≤ settings.worker_concurrency
  pub at_place : AtPlace settings s s.place

pub ended_empty :
    (settings : Settings) (s : State) (place : Place)
    → place ≡ ended
    → AtPlace settings s place
    → s.tasks ≡ []
ended_empty settings s ended over h = h
ended_empty settings s _ over h = cc

pub initial-IsSound : (settings : Settings) → IsSound settings initial
initial-IsSound settings = record {
  sessions_are_live = refl;
  distinct = tt;
  bounded = omega arith;
  at_place = tt;
}

-- Only the place, the backoff or the stop changes.
pub moved :
    (settings : Settings) (s t : State)
    → IsSound settings s
    → t.tasks ≡ s.tasks
    → t.sessions ≡ s.sessions
    → AtPlace settings t t.place
    → IsSound settings t
moved settings s t h tasks sessions at = record {
  sessions_are_live = cc (h.sessions_are_live, tasks, sessions);
  distinct = rw sessions h.distinct;
  bounded = rw tasks h.bounded;
  at_place = at;
}

pub dispatch-IsSound :
    (settings : Settings) (job : Job) (place : Place) (s : State)
    → IsSound settings s
    → length s.tasks < settings.worker_concurrency
    → has_session s.sessions (session_of job) ≡ false
    → AtPlace settings (dispatch job place s) place
    → IsSound settings (dispatch job place s)
unfolding dispatch add_session
dispatch-IsSound settings job place s h room new at = record {
  sessions_are_live = rw (new, live_sessions-append s.tasks job, h.sessions_are_live) refl;
  distinct = rw new (AreDistinct-append s.sessions (session_of job) h.distinct new);
  bounded = omega (arith, length-append s.tasks (record { job = job; live = true } ∷ []));
  at_place = at;
}

IsSound-if :
    (settings : Settings) (b : Bool) (s t : State)
    → IsSound settings s
    → IsSound settings t
    → IsSound settings (if b then s else t)
IsSound-if settings true s t h k = h
IsSound-if settings false s t h k = k

pub AtPlace-if :
    (settings : Settings) (b : Bool) (s : State) (p q : Place)
    → AtPlace settings s p
    → AtPlace settings s q
    → AtPlace settings s (if b then p else q)
AtPlace-if settings true s p q h k = h
AtPlace-if settings false s p q h k = k

claim_if_room-IsSound :
    (settings : Settings) (s : State)
    → IsSound settings s
    → IsSound settings (claim_if_room settings s)
claim_if_room-IsSound settings s h =
    elim (Bool-cases (leb settings.worker_concurrency (length s.tasks))) [
      | inl e ↦ rw e (moved settings s _ h refl refl tt)
      | inr e ↦ rw e (moved settings s _ h refl refl (ground arith, λ x free. free))
    ]

proceed_from-IsSound :
    (settings : Settings) (s : State)
    → IsSound settings s
    → IsSound settings (proceed_from settings s)
unfolding proceed_from
proceed_from-IsSound settings s h =
    IsSound-if settings s.stopping _ _ (moved settings s _ h refl refl tt) (
      IsSound-if settings s.stale_backoff _ _ (moved settings s _ h refl refl tt)
        (claim_if_room-IsSound settings s h))

length-nil : (ts : List Task) → length ts ≤ 0 → ts ≡ []
length-nil [] h = refl
length-nil (t ∷ ts) h = absurd (omega arith)

-- Fewer tasks and sessions keep what holds at a wait.
pub AtPlace-fewer :
    (settings : Settings) (s t : State) (place : Place)
    → AtPlace settings s place
    → length t.tasks ≤ length s.tasks
    → ((x : Session) → has_session s.sessions x ≡ false → has_session t.sessions x ≡ false)
    → AtPlace settings t place
AtPlace-fewer settings s t (claiming excluded) (room, free) fewer gone =
    (omega arith, λ x h. gone x (free x h))
AtPlace-fewer settings s t ended h fewer gone = length-nil t.tasks (let few = fewer in rw h at few)
AtPlace-fewer settings s t top h fewer gone = tt
AtPlace-fewer settings s t backing_off h fewer gone = tt
AtPlace-fewer settings s t full h fewer gone = tt
AtPlace-fewer settings s t waiting h fewer gone = tt
AtPlace-fewer settings s t draining h fewer gone = tt

pub finish_task-IsSound :
    (settings : Settings) (k : ℕ) (result : Option ProcessResult) (s t : State)
    → IsSound settings s
    → finish_task result (finish_at k s.tasks) s ≡ some t
    → IsSound settings t
unfolding finish_task
finish_task-IsSound settings k result s t h e = elim (Option-cases (finish_at k s.tasks)) [
  | inl gone ↦ cc (rw gone at e)
  | inr (found, here) ↦
      let same = rw here at e in
      let tasks : found.1 ≡ t.tasks = ground arith in
      let sessions : delete_session (session_of found.0) s.sessions ≡ t.sessions = ground arith in
      let place : s.place ≡ t.place = ground arith in
      let live : AreDistinct (live_sessions s.tasks) = rw (← h.sessions_are_live) h.distinct in
      record {
        sessions_are_live =
            rw (← sessions, ← tasks, finish_at-live k s.tasks found here live, h.sessions_are_live)
              refl;
        distinct =
            rw (← sessions) (delete_session-AreDistinct (session_of found.0) s.sessions h.distinct);
        bounded = rw (← tasks, finish_at-length k s.tasks found here) h.bounded;
        at_place = rw (← place) (
            AtPlace-fewer settings s t s.place h.at_place
              (rw (← tasks, finish_at-length k s.tasks found here) (omega arith))
              (λ x free.
                rw (← sessions)
                  (delete_session-has_session (session_of found.0) x s.sessions free)));
      }
]

pub settle_task-IsSound :
    (settings : Settings) (k : ℕ) (s t : State)
    → IsSound settings s
    → settle_task (settle_at k s.tasks) s ≡ some t
    → IsSound settings t
unfolding settle_task
settle_task-IsSound settings k s t h e = elim (Option-cases (settle_at k s.tasks)) [
  | inl gone ↦ cc (rw gone at e)
  | inr (rest, here) ↦
      let same = rw here at e in
      let tasks : rest ≡ t.tasks = ground arith in
      let sessions : s.sessions ≡ t.sessions = ground arith in
      let place : s.place ≡ t.place = ground arith in
      let fewer : length t.tasks ≤ length s.tasks =
        rw (← tasks) (settle_at-length k s.tasks rest here) in
      record {
        sessions_are_live =
            rw (← sessions, ← tasks, settle_at-live k s.tasks rest here, h.sessions_are_live) refl;
        distinct = rw (← sessions) h.distinct;
        bounded = omega (arith, fewer, h.bounded);
        at_place =
            rw (← place) (
              AtPlace-fewer settings s t s.place h.at_place fewer (λ x free. rw (← sessions) free));
      }
]

some_is : {s t : State} → some s ≡ some t → s ≡ t
some_is e = ground arith

pub IsSound-of_some :
    (settings : Settings) (s t : State) → IsSound settings s → some s ≡ some t → IsSound settings t
IsSound-of_some settings s t h e = rw (← some_is e) h

pub proceed-IsSound :
    (settings : Settings) (place : Place) (s t : State)
    → IsSound settings s
    → at_top place s (some (proceed_from settings s)) ≡ some t
    → IsSound settings t
proceed-IsSound settings top s t h e =
    IsSound-of_some settings _ t (proceed_from-IsSound settings s h) e
proceed-IsSound settings _ s t h e = cc

pub wake_from-IsSound :
    (settings : Settings) (place : Place) (s t : State)
    → IsSound settings s
    → wake_from settings place s ≡ some t
    → IsSound settings t
unfolding wake_from
wake_from-IsSound settings backing_off s t h e =
    IsSound-of_some settings _ t
      (IsSound-if settings s.stopping _ _
        (moved settings s (record s { place = draining }) h refl refl tt)
        (claim_if_room-IsSound settings s h))
      e
wake_from-IsSound settings full s t h e =
    IsSound-of_some settings _ t
      (moved settings s (record s { place = if s.stopping then draining else top }) h refl refl
        (AtPlace-if settings s.stopping (record s { place = if s.stopping then draining else top })
          draining top tt tt))
      e
wake_from-IsSound settings waiting s t h e =
    IsSound-of_some settings _ t (moved settings s (record s { place = top }) h refl refl tt) e
wake_from-IsSound settings _ s t h e = cc
