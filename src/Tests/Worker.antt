-- ===== src/Tests/Worker.antt =====
-- A job whose commit throws, and the first events of a run of the work loop.
use reflection.Common.{ℕ, ◌≤◌, ◌≡◌, refl, true, false, Option, none, some, List, [], ◌∷◌, length}
use reflection.Common.Result.{ok, err}
use reflection.Common.Text.{Text, utf16, text_eq}
use reflection.Worker.Process.{retryable, Extraction, Job, Settings, Replies, process, progressed}
use reflection.Worker.Process.Protocol.{
  accepted, last_answer, Follows, start_phase, process-last_answer, process-Follows,
}
use reflection.Worker.Loop.{
  session_of, has_session, ended, State, Event, proceed, claimed, finished, initial, step,
  proceed_from, claim, dispatch, add_session, finish_task, finish_at, delete_session,
}
use reflection.Worker.Loop.Sessions.{live_sessions, AreDistinct}
use reflection.Worker.Loop.Bounds.{Offering, Reachable, start, next, Reachable-IsBounded}

abbrev settings : Settings
settings = record {
  worker_concurrency = 2;
  worker_max_attempts = 3;
  worker_retry_backoff_seconds = 5;
}

abbrev extraction : Extraction
extraction = record {
  claims =
      record {
        subject = utf16 "x";
        predicate = utf16 "uses";
        object_entity = none;
        object_value = some (utf16 "y");
      }
      ∷ [];
  summary = utf16 "s";
}

abbrev replies : Replies ℕ
replies = record {
  extract = λ job. ok extraction;
  publish_extraction = λ job found. ok true;
  resolve = λ job found. ok 4;
  commit_resolution = λ job found prepared. err (retryable (utf16 "timeout"));
  finish_failed_attempt = λ job failure retry. ok true;
}

abbrev job : Text → Job
job session = record {
  id = 1;
  attempts = 1;
  source_id = utf16 "local";
  session_id = session;
  extraction_result = none;
}

process-last_answer_example :
    last_answer replies settings
      (job (utf16 "s1"))
      (process replies settings (job (utf16 "s1"))).calls
    ≡ some (accepted (process replies settings (job (utf16 "s1"))).outcome)
process-last_answer_example = process-last_answer replies settings (job (utf16 "s1"))

process-Follows_example :
    Follows replies settings
      (job (utf16 "s1"))
      false
      (start_phase none)
      (process replies settings (job (utf16 "s1"))).calls
process-Follows_example = process-Follows replies settings (job (utf16 "s1"))

-- The database that hands out any job of a session that is not excluded.
abbrev Offers : Offering
Offers excluded job = has_session excluded (session_of job) ≡ false

abbrev or_initial : Option State → State
or_initial none = initial
or_initial (some s) = s

abbrev after : List Event → State
after [] = initial
after (e ∷ es) = or_initial (step settings e (after es))

-- Newest first: two jobs are claimed, and the first one ends.
abbrev events : List Event
events =
    finished 0 (some progressed)
    ∷ claimed (some (job (utf16 "s2")))
    ∷ proceed
    ∷ claimed (some (job (utf16 "s1")))
    ∷ proceed
    ∷ []

run : Reachable settings Offers (after events)
unfolding step proceed_from claim dispatch add_session finish_task finish_at delete_session text_eq
run =
    next (finished 0 (some progressed))
      (next (claimed (some (job (utf16 "s2"))))
        (next proceed
          (next (claimed (some (job (utf16 "s1")))) (next proceed start tt refl) refl refl) tt refl)
        refl refl)
      tt refl

Reachable-IsBounded_example :
    (length (after events).tasks ≤ 2)
    × ((after events).sessions ≡ live_sessions (after events).tasks)
    × AreDistinct (live_sessions (after events).tasks)
    × ((after events).place ≡ ended → (after events).tasks ≡ [])
Reachable-IsBounded_example =
    Reachable-IsBounded settings Offers (after events) (λ excluded job free. free) run
