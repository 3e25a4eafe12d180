-- ===== src/Jobs/Stale.antt =====
-- The leases of attempts (server/src/database.ts): one that a recovery took is not heard again.
pub mod Leases
pub mod Worked
pub mod Runs
use mathlib.Core.Path.{fun_ext}
use reflection.Common.{ℕ, ◌≡◌, refl, ap, Bool, false, Option, none, some, List, ◌∷◌, find, All}
use reflection.Common.Result.{Result, ok, ◌>>=◌, ◌>>◌, OnOk, OnOk->>=}
use reflection.Common.Text.{Text}
use reflection.Jobs.Codec.{Codec, Extraction}
use reflection.Jobs.Rows.{JobRow, Group, Failure, has_id}
use reflection.Jobs.Match.{ClaimedJob}
use reflection.Jobs.Attempt.{
  holds, validate_claim, extraction_result_for_persistence, finish_current, finish_failed_attempt,
  publish_current, publish_extraction,
}
use reflection.Jobs.Knowledge.{Knowledge}
use reflection.Jobs.Commit.{PreparedSegment, check_prepared, commit_current, commit_resolution}
use reflection.Jobs.Machine.{State, Event, recovering, run}
use reflection.Jobs.Updates.{All-found}
use Leases.{IsFree}
use Runs.{IsOther, recovered_run-IsFree}

module _ {M : Type 0} (codec : Codec M) (case_fold : Text → Text) (now : ℕ) (group : Group)
    (job : ClaimedJob M) (free : All (IsFree job.lease_id) group.jobs) where
  found_not_held :
      (current : JobRow)
      → find (has_id job.id) group.jobs ≡ some current
      → holds codec now group job current ≡ false
  found_not_held current e =
      All-found (has_id job.id) (IsFree job.lease_id) group.jobs current e free

  finish_current-eq :
      (error : Text) (retry : Option ℕ) (found : Option JobRow)
      → find (has_id job.id) group.jobs ≡ found
      → finish_current codec now group job error retry found ≡ ok (group, false)
  unfolding finish_current
  finish_current-eq error retry none e = refl
  finish_current-eq error retry (some current) e = rw (finish_current, found_not_held current e)

  publish_current-eq :
      (result : Extraction) (found : Option JobRow)
      → find (has_id job.id) group.jobs ≡ found
      → publish_current codec now group job result found ≡ ok (group, false)
  unfolding publish_current
  publish_current-eq result none e = refl
  publish_current-eq result (some current) e = rw (publish_current, found_not_held current e)

  module _ (knowledge : Knowledge) (prepared : PreparedSegment) (value : Extraction) (error : Text)
      (retry : Option ℕ) where
    commit_current-throws :
        (result : Extraction) (found : Option JobRow)
        → find (has_id job.id) group.jobs ≡ found
        → OnOk
            (λ done. ⊥)
            (commit_current codec case_fold now group knowledge job prepared result found)
    unfolding commit_current
    commit_current-throws result none e = tt
    commit_current-throws result (some current) e = rw (commit_current, found_not_held current e) tt

    free-unheard :
        (finish_failed_attempt codec now group job error retry
          ≡ (validate_claim codec group job >> ok (group, false)))
        × (publish_extraction codec now group job value ≡ (
            extraction_result_for_persistence codec now group job value >>= λ _.
            validate_claim codec group job >> ok (group, false)))
        × OnOk
            (λ done. ⊥)
            (commit_resolution codec case_fold now group knowledge job prepared value)
    unfolding finish_failed_attempt publish_extraction commit_resolution
    free-unheard = (
      ap (λ (m : Result Failure (Group × Bool)). validate_claim codec group job >> m)
          (finish_current-eq error retry (find (has_id job.id) group.jobs) refl),
      ap
          (λ (next : Extraction → Result Failure (Group × Bool)).
            extraction_result_for_persistence codec now group job value >>= next)
          (fun_ext (λ result.
            ap (λ (m : Result Failure (Group × Bool)). validate_claim codec group job >> m)
              (publish_current-eq result (find (has_id job.id) group.jobs) refl))),
      OnOk->>= (λ done. ⊥) (extraction_result_for_persistence codec now group job value) _
          (λ result r.
            OnOk->>= (λ done. ⊥)
              (check_prepared codec case_fold now group knowledge job prepared result) _
              (λ _ m.
                OnOk->>= (λ done. ⊥) (validate_claim codec group job) _
                  (λ _ v. commit_current-throws result _ refl))),
    )

module _ {M : Type 0} (codec : Codec M) (case_fold : Text → Text) where
  -- After a worker started and recovered the jobs of the one before, whether or not the ownership of
  -- the segment was found right, an attempt that began before is not heard any more. Whatever events
  -- followed the recovery, if no claim among them gave the lease of the attempt again:
  -- `finishFailedAttempt` and `publishExtraction` with the attempt's job return false with the rows as
  -- they were, unless the checks of the claim or of the extraction throw, and `commitResolution` throws.
  pub run-unheard :
      (s : State) (recovered_at : ℕ) (owned : Bool) (events : List (Event M)) (now : ℕ)
      (job : ClaimedJob M) (prepared : PreparedSegment) (value : Extraction) (error : Text)
      (retry : Option ℕ)
      → All (IsOther job.lease_id) events
      → let after = run codec case_fold s (recovering recovered_at owned ∷ events) in
        (finish_failed_attempt codec now after.group job error retry
          ≡ (validate_claim codec after.group job >> ok (after.group, false)))
        × (publish_extraction codec now after.group job value ≡ (
            extraction_result_for_persistence codec now after.group job value >>= λ _.
            validate_claim codec after.group job >> ok (after.group, false)))
        × OnOk
            (λ done. ⊥)
            (commit_resolution codec case_fold now after.group after.knowledge job prepared value)
  run-unheard s recovered_at owned events now job prepared value error retry others =
      let after = run codec case_fold s (recovering recovered_at owned ∷ events) in
      free-unheard codec case_fold now after.group job
        (recovered_run-IsFree job.lease_id codec case_fold recovered_at owned s events others)
        after.knowledge prepared value error retry
