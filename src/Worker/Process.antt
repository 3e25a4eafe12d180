-- ===== src/Worker/Process.antt =====
-- server/src/worker.ts: `ExtractionWorker.process` and the lane that it resolves in.
-- What the engine and the database answer is given by `Replies`; a run is the list of the calls
-- that it makes, with what it returns or throws. Logging and the measured times are left out.
pub mod Protocol
use reflection.Common.{
  ℕ, Bool, true, false, Option, none, some, List, [], ◌∷◌, ◌++◌, ltb, if◌then◌else◌,
}
use reflection.Common.Result.{Result, ok, err}
use reflection.Common.Text.{Text}
use reflection.Domain.Identity.{Claim}

-- What is thrown: a `TerminalExtractionValidationError`, or anything else.
pub data Failure : Type 0 where
  terminal retryable : Text → Failure

pub record Extraction : Type 0 where
  pub claims : List Claim
  pub summary : Text

-- `ClaimedJob`, as far as the worker reads it.
pub record Job : Type 0 where
  pub id : ℕ
  pub attempts : ℕ
  pub source_id : Text
  pub session_id : Text
  pub extraction_result : Option Extraction

pub record Settings : Type 0 where
  pub worker_concurrency : ℕ
  pub worker_max_attempts : ℕ
  pub worker_retry_backoff_seconds : ℕ

pub data ProcessResult : Type 0 where
  progressed stale : ProcessResult

-- `P` is what `resolve` prepares for `commitResolution`.
pub record Replies (P : Type 0) : Type 0 where
  pub extract : Job → Result Failure Extraction
  pub publish_extraction : Job → Extraction → Result Failure Bool
  pub resolve : Job → Extraction → Result Failure P
  pub commit_resolution : Job → Extraction → P → Result Failure Bool
  pub finish_failed_attempt : Job → Failure → Option ℕ → Result Failure Bool

pub data Call (P : Type 0) : Type 0 where
  extracting : Call P
  publishing resolving : Extraction → Call P
  committing : Extraction → P → Call P
  finishing : Failure → Option ℕ → Call P
  entering leaving : Call P

-- The calls so far, and the value or what was thrown.
pub record Step (P A : Type 0) : Type 0 where
  pub calls : List (Call P)
  pub outcome : Result Failure A

abbrev returning : {P A : Type 0} → A → Step P A
returning a = record { calls = []; outcome = ok a }

abbrev calling : {P A : Type 0} → Call P → Result Failure A → Step P A
calling c reply = record { calls = c ∷ []; outcome = reply }

continue_from : {P A B : Type 0} → List (Call P) → Result Failure A → (A → Step P B) → Step P B
continue_from calls (err failure) next = record { calls = calls; outcome = err failure }
continue_from calls (ok a) next = record {
  calls = calls ++ (next a).calls;
  outcome = (next a).outcome;
}

-- `await`
abbrev then_do : {P A B : Type 0} → Step P A → (A → Step P B) → Step P B
then_do step next = continue_from step.calls step.outcome next

-- `ResolutionLane.run`: the lane is left whether or not the operation throws.
abbrev run_in_lane : {P A : Type 0} → Step P A → Step P A
run_in_lane step = record step { calls = entering ∷ (step.calls ++ leaving ∷ []) }

abbrev accepted_result : Bool → ProcessResult
accepted_result accepted = if accepted then progressed else stale

module _ {P : Type 0} (replies : Replies P) (settings : Settings) (job : Job) where
  resolve_and_commit : Extraction → Step P ProcessResult
  unfolding continue_from
  resolve_and_commit extraction =
      then_do (calling (resolving extraction) (replies.resolve job extraction)) (λ prepared.
        then_do
          (calling (committing extraction prepared)
            (replies.commit_resolution job extraction prepared))
          (λ committed. returning (accepted_result committed)))

  settle : Extraction → List Claim → Step P ProcessResult
  unfolding resolve_and_commit
  settle extraction [] = resolve_and_commit extraction
  settle extraction (claim ∷ claims) = run_in_lane (resolve_and_commit extraction)

  -- The body of the `try`.
  attempt : Option Extraction → Step P ProcessResult
  unfolding continue_from settle
  attempt (some extraction) = settle extraction extraction.claims
  attempt none = then_do (calling extracting (replies.extract job)) (λ extraction.
      then_do (calling (publishing extraction) (replies.publish_extraction job extraction))
        (λ published. if published then settle extraction extraction.claims else returning stale))

  retry_after : Failure → Option ℕ
  retry_after (terminal error) = none
  retry_after (retryable error) =
      if ltb job.attempts settings.worker_max_attempts
      then some settings.worker_retry_backoff_seconds
      else none

  finish : Failure → Step P ProcessResult
  unfolding continue_from retry_after
  finish failure =
      then_do
        (calling (finishing failure (retry_after failure))
          (replies.finish_failed_attempt job failure (retry_after failure)))
        (λ updated. returning (accepted_result updated))

  -- The `catch`.
  recover : List (Call P) → Result Failure ProcessResult → Step P ProcessResult
  unfolding finish
  recover calls (ok result) = record { calls = calls; outcome = ok result }
  recover calls (err failure) = record {
    calls = calls ++ (finish failure).calls;
    outcome = (finish failure).outcome;
  }

  pub process : Step P ProcessResult
  unfolding attempt recover
  process = recover (attempt job.extraction_result).calls (attempt job.extraction_result).outcome
