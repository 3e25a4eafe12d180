-- ===== src/Worker/Process/Protocol.antt =====
-- The order of the calls of one job, and what its result says of the database.
use mathlib.Core.Path.{subst}
use reflection.Common.{
  ◌≡◌, refl, sym, ap, ℕ, Bool, true, false, Option, none, some, List, [], ◌∷◌, ◌++◌, arith, ◌<◌,
  ◌≤◌, ◌⊎◌, inl, inr,
}
use reflection.Common.Result.{Result, ok, err, Result-cases}
use reflection.Domain.Identity.{Claim}
use reflection.Worker.Process.{
  Failure, terminal, retryable, Extraction, Job, Settings, ProcessResult, progressed, stale,
  Replies, Call, extracting, publishing, resolving, committing, finishing, entering, leaving, Step,
  process, attempt, settle, recover, finish, retry_after, resolve_and_commit, continue_from,
  accepted_result, run_in_lane,
}

abbrev pub accepted : Result Failure ProcessResult → Result Failure Bool
accepted (ok progressed) = ok true
accepted (ok stale) = ok false
accepted (err failure) = err failure

-- What comes next for a job: it is over, or what was thrown must be finished.
pub data Phase (P : Type 0) : Type 0 where
  to_extract : Phase P
  to_publish to_resolve : Extraction → Phase P
  to_commit : Extraction → P → Phase P
  over : Phase P
  broken : Failure → Phase P

abbrev pub start_phase : {P : Type 0} → Option Extraction → Phase P
start_phase none = to_extract
start_phase (some x) = to_resolve x

module _ {P : Type 0} (replies : Replies P) (settings : Settings) (job : Job) where
  -- The answer of a call that updates the database.
  abbrev answer : Call P → Option (Result Failure Bool)
  answer (publishing x) = some (replies.publish_extraction job x)
  answer (committing x p) = some (replies.commit_resolution job x p)
  answer (finishing failure retry) = some (replies.finish_failed_attempt job failure retry)
  answer _ = none

  abbrev pub last_answer : List (Call P) → Option (Result Failure Bool)
  last_answer [] = none
  last_answer (c ∷ calls) = elim (last_answer calls) [ some a ↦ some a | none ↦ answer c ]

  last_answer-append :
      (calls : List (Call P)) (failure : Failure)
      → last_answer (calls ++ (finish replies settings job failure).calls)
        ≡ some (accepted (finish replies settings job failure).outcome)
  unfolding finish continue_from
  last_answer-append [] failure = ground arith
  last_answer-append (c ∷ calls) failure = rw (last_answer-append calls failure)

  -- Within a try, the answers.
  Answered : Step P ProcessResult → Type 0
  Answered step =
      (r : ProcessResult) → step.outcome ≡ ok r → last_answer step.calls ≡ some (accepted (ok r))

  settle-Answered :
      (x : Extraction) (claims : List Claim) → Answered (settle replies settings job x claims)
  unfolding Answered settle resolve_and_commit continue_from
  settle-Answered x [] r e = ground arith
  settle-Answered x (c ∷ cs) r e = ground arith

  attempt-Answered : (stored : Option Extraction) → Answered (attempt replies settings job stored)
  unfolding attempt Answered continue_from
  attempt-Answered (some x) r e = settle-Answered x x.claims r e
  attempt-Answered none r e = ground arith

  recover-last_answer :
      (calls : List (Call P)) (outcome : Result Failure ProcessResult)
      → ((r : ProcessResult) → outcome ≡ ok r → last_answer calls ≡ some (accepted (ok r)))
      → last_answer (recover replies settings job calls outcome).calls
        ≡ some (accepted (recover replies settings job calls outcome).outcome)
  unfolding recover
  recover-last_answer calls (ok r) h = h r refl
  recover-last_answer calls (err failure) h = last_answer-append calls failure

  -- The result of `process` is the answer of its last update of the database, whichever of
  -- publishing, committing and finishing that is: progressed where the update was accepted, stale
  -- where it was refused, and thrown where it threw.
  pub process-last_answer :
      last_answer (process replies settings job).calls
      ≡ some (accepted (process replies settings job).outcome)
  unfolding process Answered
  process-last_answer =
      recover-last_answer (attempt replies settings job job.extraction_result).calls
        (attempt replies settings job job.extraction_result).outcome
        (attempt-Answered job.extraction_result)

  abbrev has_claims : List Claim → Bool
  has_claims [] = false
  has_claims (claim ∷ claims) = true

  -- A terminal failure is final; another is tried again until the attempts are used up.
  abbrev pub IsRetry : Failure → Option ℕ → Type 0
  IsRetry (terminal error) retry = retry ≡ none
  IsRetry (retryable error) retry =
      ((job.attempts < settings.worker_max_attempts)
        × (retry ≡ some settings.worker_retry_backoff_seconds))
      ⊎ ((settings.worker_max_attempts ≤ job.attempts) × (retry ≡ none))

  abbrev after_extract : Result Failure Extraction → Phase P
  after_extract (ok x) = to_publish x
  after_extract (err failure) = broken failure

  abbrev after_publish : Extraction → Result Failure Bool → Phase P
  after_publish x (ok true) = to_resolve x
  after_publish x (ok false) = over
  after_publish x (err failure) = broken failure

  abbrev after_resolve : Extraction → Result Failure P → Phase P
  after_resolve x (ok p) = to_commit x p
  after_resolve x (err failure) = broken failure

  abbrev after_commit : Result Failure Bool → Phase P
  after_commit (ok committed) = over
  after_commit (err failure) = broken failure

  abbrev IsOver : Phase P → Type 0
  IsOver over = Unit
  IsOver (broken failure) = Unit
  IsOver _ = ⊥

  -- The calls that may follow in a phase; the first argument says whether the job is in the lane.
  abbrev pub Follows : Bool → Phase P → List (Call P) → Type 0
  Follows inside phase [] = (inside ≡ false) × (phase ≡ over)
  Follows inside phase (extracting ∷ calls) =
      (phase ≡ to_extract) × Follows inside (after_extract (replies.extract job)) calls
  Follows inside phase (publishing x ∷ calls) =
      (phase ≡ to_publish x)
      × Follows inside (after_publish x (replies.publish_extraction job x)) calls
  Follows inside phase (entering ∷ calls) =
      (inside ≡ false)
      × ((x : Extraction) × (phase ≡ to_resolve x) × (has_claims x.claims ≡ true))
      × Follows true phase calls
  Follows inside phase (resolving x ∷ calls) =
      (phase ≡ to_resolve x)
      × (inside ≡ has_claims x.claims)
      × Follows inside (after_resolve x (replies.resolve job x)) calls
  Follows inside phase (committing x p ∷ calls) =
      (phase ≡ to_commit x p)
      × (inside ≡ has_claims x.claims)
      × Follows inside (after_commit (replies.commit_resolution job x p)) calls
  Follows inside phase (leaving ∷ calls) =
      (inside ≡ true) × IsOver phase × Follows false phase calls
  Follows inside phase (finishing failure retry ∷ calls) =
      (inside ≡ false) × (phase ≡ broken failure) × IsRetry failure retry × (calls ≡ [])

  finish-IsRetry : (failure : Failure) → IsRetry failure (retry_after replies settings job failure)
  unfolding retry_after
  finish-IsRetry (terminal error) = refl
  finish-IsRetry (retryable error) = ground arith

  finish_calls :
      (failure : Failure)
      → (finish replies settings job failure).calls
        ≡ finishing failure (retry_after replies settings job failure) ∷ []
  unfolding finish continue_from
  finish_calls failure = ground arith

  -- What was thrown outside the lane is finished.
  finish-Follows :
      (failure : Failure)
      → Follows false (broken failure) (finish replies settings job failure).calls
  finish-Follows failure = rw (finish_calls failure) (refl, refl, finish-IsRetry failure, refl)

  -- The calls behind the first one.
  recover-cons :
      (c : Call P) (calls : List (Call P)) (outcome : Result Failure ProcessResult)
      → (recover replies settings job (c ∷ calls) outcome).calls
        ≡ c ∷ (recover replies settings job calls outcome).calls
  unfolding recover
  recover-cons c calls (ok r) = refl
  recover-cons c calls (err failure) = refl

  abbrev caught : Step P ProcessResult → List (Call P)
  caught step = (recover replies settings job step.calls step.outcome).calls

  -- The three ways in which a resolution and its commit end.
  resolve-throws :
      (x : Extraction) (failure : Failure)
      → replies.resolve job x ≡ err failure
      → resolve_and_commit replies settings job x
        ≡ record { calls = resolving x ∷ []; outcome = err failure }
  unfolding resolve_and_commit continue_from
  resolve-throws x failure r = rw (resolve_and_commit, r) refl

  commit-throws :
      (x : Extraction) (p : P) (failure : Failure)
      → replies.resolve job x ≡ ok p
      → replies.commit_resolution job x p ≡ err failure
      → resolve_and_commit replies settings job x
        ≡ record { calls = resolving x ∷ committing x p ∷ []; outcome = err failure }
  unfolding resolve_and_commit continue_from
  commit-throws x p failure r c = rw (resolve_and_commit, r, c) refl

  commit-answers :
      (x : Extraction) (p : P) (b : Bool)
      → replies.resolve job x ≡ ok p
      → replies.commit_resolution job x p ≡ ok b
      → resolve_and_commit replies settings job x
        ≡ record { calls = resolving x ∷ committing x p ∷ []; outcome = ok (accepted_result b) }
  unfolding resolve_and_commit continue_from
  commit-answers x p b r c = rw (resolve_and_commit, r, c) refl

  as_caught :
      (x : Extraction) {step : Step P ProcessResult} (known : Step P ProcessResult)
      → step ≡ known
      → Follows false (to_resolve x) (caught known)
      → Follows false (to_resolve x) (caught step)
  as_caught x known e h = subst (λ s. Follows false (to_resolve x) (caught s)) (sym e) h

  settle-Follows :
      (x : Extraction) (claims : List Claim)
      → x.claims ≡ claims
      → Follows false (to_resolve x) (caught (settle replies settings job x claims))
  unfolding settle recover
  settle-Follows x [] e = elim (Result-cases (replies.resolve job x)) [
    | inr (f, r) ↦ as_caught x _ (resolve-throws x f r) (rw (r) (refl, rw e refl, finish-Follows f))
    | inl (p, r) ↦ elim (Result-cases (replies.commit_resolution job x p)) [
      | inr (f, c) ↦
          as_caught x _ (commit-throws x p f r c)
            (rw (r, c) (refl, rw e refl, (refl, rw e refl, finish-Follows f)))
      | inl (b, c) ↦
          as_caught x _ (commit-answers x p b r c)
            (rw (r, c) (refl, rw e refl, (refl, rw e refl, (refl, refl))))
    ]
  ]
  settle-Follows x (claim ∷ cs) e =
      let entered : (y : Extraction) × (to_resolve x ≡ to_resolve y)
          × (has_claims y.claims ≡ true) =
        (x, refl, rw e refl) in
      elim (Result-cases (replies.resolve job x)) [
        | inr (f, r) ↦
            as_caught x _ (ap run_in_lane (resolve-throws x f r))
              (rw (r) (refl, entered, (refl, rw e refl, (refl, tt, finish-Follows f))))
        | inl (p, r) ↦ elim (Result-cases (replies.commit_resolution job x p)) [
          | inr (f, c) ↦ as_caught x _ (ap run_in_lane (commit-throws x p f r c)) (
              rw (r, c)
                (refl, entered, (refl, rw e refl, (refl, rw e refl, (refl, tt, finish-Follows f)))))
          | inl (b, c) ↦ as_caught x _ (ap run_in_lane (commit-answers x p b r c)) (
              rw (r, c)
                (refl, entered, (refl, rw e refl, (refl, rw e refl, (refl, tt, (refl, refl))))))
        ]
      ]

  attempt-Follows :
      (stored : Option Extraction)
      → Follows false (start_phase stored) (caught (attempt replies settings job stored))
  unfolding attempt continue_from recover
  attempt-Follows (some x) = settle-Follows x x.claims refl
  attempt-Follows none = grind (arith, finish-Follows, settle-Follows)

  -- The calls of `process` follow the protocol of a job. The engine extracts exactly if the job has no
  -- stored extraction, and what it returns is published. An extraction that is stored, or whose publishing
  -- was accepted, is resolved and committed with what was prepared for it, in the lane exactly if it has
  -- claims. The lane is entered from outside and left again, also where the work in it throws. The
  -- calls end without a failure only where publishing was refused or the commit has answered. Whatever
  -- any of these calls throws is finished: that same failure, outside the lane, once and at the end, with
  -- no retry where it is terminal or the attempts are used up, with the configured delay otherwise.
  pub process-Follows :
      Follows false (start_phase job.extraction_result) (process replies settings job).calls
  unfolding process
  process-Follows = attempt-Follows job.extraction_result
