-- ===== src/Jobs/Claim.antt =====
-- server/src/database.ts: `claimOldestJob`, for the segment whose job was selected. The selection reads
-- before the segment is locked, so that other operations may come between the two.
use reflection.Common.{
  ℕ, zero, suc, Bool, true, false, ◌&&◌, ◌||◌, not, Option, none, some, List, [], ◌∷◌, any, find,
  leb, ◌==◌, if◌then◌else◌,
}
use reflection.Common.Result.{ok, err}
use reflection.Common.Text.{Text, text_eq}
use reflection.Jobs.Codec.{Request, Codec, Extraction}
use reflection.Jobs.Rows.{
  running, failed, is_pending, is_running, JobError, payload_is_null, source_identity_mismatch,
  invalid_payload, invalid_extraction, quarantined, JobRow, TargetRow, Staged, Group, same_text?,
  same_snapshot, update_jobs, has_id,
}
use reflection.Jobs.Match.{boundary_matches_request, same_start_user, ClaimedJob}
use reflection.Jobs.Eligible.{staged_eligible}

-- A code point above 0xffff is two code units.
abbrev is_pair : ℕ → ℕ → Bool
is_pair u v = leb 0xd800 u && leb u 0xdbff && leb 0xdc00 v && leb v 0xdfff

-- `truncateCodePoints`
unfoldable pub truncate_code_points : Text → ℕ → Text
truncate_code_points text zero = []
truncate_code_points [] (suc maximum) = []
truncate_code_points (u ∷ []) (suc maximum) = u ∷ []
truncate_code_points (u ∷ v ∷ text) (suc maximum) =
    let short = truncate_code_points text maximum in
    let rest = truncate_code_points (v ∷ text) maximum in
    if is_pair u v then u ∷ v ∷ short else u ∷ rest

abbrev pub has_fingerprint : Option Text → Bool
has_fingerprint none = false
has_fingerprint (some fingerprint) = true

-- The join of a job with the target; nothing is equal to a null fingerprint.
unfoldable pub is_joined : TargetRow → JobRow → Bool
is_joined target j =
    target.job_id == j.id
    && has_fingerprint j.snapshot.source_fingerprint
    && same_snapshot target.snapshot j.snapshot

unfoldable pub joins : Option TargetRow → JobRow → Bool
joins none j = false
joins (some target) j = is_joined target j

-- `eligible_jobs`, with the excluded sessions of the source.
unfoldable pub is_eligible : ℕ → List Text → Group → JobRow → Bool
is_eligible now excluded group j =
    is_pending j.status
    && leb j.next_attempt_at now
    && (joins group.target j || not (has_fingerprint j.snapshot.source_fingerprint))
    && not (any (text_eq j.session_id) excluded)
    && not (any (λ row. is_running row.status) group.jobs)

-- The row that is selected, with the staged extraction where it may be used.
pub record Selected : Type 0 where
  pub row : JobRow
  pub extraction_result : Option Text

-- `#quarantinePersistedGroup`
unfoldable pub quarantine : ℕ → Group → Group
quarantine now group = record group {
  jobs =
      update_jobs (λ j. is_pending j.status || is_running j.status)
        (λ j. record j {
          status = failed;
          lease_id = none;
          finished_at = some now;
          error = some quarantined;
        })
        group.jobs;
}

abbrev pub fail_job : ℕ → JobError → JobRow → JobRow
fail_job now error j = record j {
  status = failed;
  attempts = suc j.attempts;
  lease_id = none;
  error = some error;
  finished_at = some now;
}

abbrev pub start_job : ℕ → Text → JobRow → JobRow
start_job now lease j = record j {
  status = running;
  attempts = suc j.attempts;
  lease_id = some lease;
  started_at = some now;
  finished_at = none;
  error = none;
}

abbrev pub is_pending_with : ℕ → JobRow → Bool
is_pending_with id j = has_id id j && is_pending j.status

-- The row that is read under the lock is still the selected one.
unfoldable pub is_unchanged : JobRow → JobRow → Bool
is_unchanged refreshed selected =
    is_pending refreshed.status
    && refreshed.snapshot.source_generation == selected.snapshot.source_generation
    && same_text? refreshed.snapshot.source_fingerprint selected.snapshot.source_fingerprint
    && refreshed.snapshot.projection_version == selected.snapshot.projection_version
    && same_text? refreshed.payload selected.payload

module _ {M : Type 0} (codec : Codec M) where
  abbrev usable_extraction : TargetRow → Option Staged → Option Text
  usable_extraction target none = none
  usable_extraction target (some staged) =
      if staged_eligible codec target staged then some staged.extraction_result else none

  unfoldable pub joined_extraction : Option TargetRow → JobRow → Option Text
  joined_extraction none j = none
  joined_extraction (some target) j =
      if is_joined target j then usable_extraction target target.staged else none

  -- The selection, where it comes to this job.
  unfoldable pub select_job : ℕ → List Text → Group → ℕ → Option Selected
  select_job now excluded group id = elim (find (has_id id) group.jobs) [
    | none ↦ none
    | some j ↦
        if is_eligible now excluded group j
        then some (record { row = j; extraction_result = joined_extraction group.target j })
        else none
  ]

  unfoldable pub request_matches : JobRow → Request M → Bool
  request_matches row request =
      text_eq request.session_id row.session_id
      && same_start_user row.start_user_message_id request
      && boundary_matches_request row.snapshot.mark request
      && request.projection_version == row.snapshot.projection_version
      && request.processing_priority == row.processing_priority
      && text_eq (codec.segment_id request) codec.segment
      && same_text? (some (codec.fingerprint request)) row.snapshot.source_fingerprint

  module _ (now : ℕ) (lease : Text) (selected : Selected) (group : Group) where
    abbrev fail : JobError → Group × Option (ClaimedJob M)
    fail error = (
      record group {
        jobs = update_jobs (is_pending_with selected.row.id) (fail_job now error) group.jobs;
      },
      none,
    )

    unfoldable pub start : JobRow → Request M → Option Extraction → Group × Option (ClaimedJob M)
    start refreshed request extraction = (
      record group {
        jobs = update_jobs (is_pending_with selected.row.id) (start_job now lease) group.jobs;
      },
      some (record {
        id = selected.row.id;
        lease_id = lease;
        source_generation = selected.row.snapshot.source_generation;
        source_fingerprint = codec.fingerprint request;
        attempts = suc refreshed.attempts;
        request = request;
        extraction_result = extraction;
      }),
    )

    unfoldable pub start_with : JobRow → Request M → Option Text → Group × Option (ClaimedJob M)
    start_with refreshed request none = start refreshed request none
    start_with refreshed request (some written) = elim (codec.parse_extraction written) [
      | ok extraction ↦ start refreshed request (some extraction)
      | err e ↦ fail (invalid_extraction (truncate_code_points e 4000))
    ]

    unfoldable pub claim_request : JobRow → Request M → Group × Option (ClaimedJob M)
    claim_request refreshed request =
        if request_matches selected.row request
        then start_with refreshed request selected.extraction_result
        else fail source_identity_mismatch

    unfoldable pub claim_payload : JobRow → Option Text → Group × Option (ClaimedJob M)
    claim_payload refreshed none = fail payload_is_null
    claim_payload refreshed (some payload) = elim (codec.decode payload) [
      | ok request ↦ claim_request refreshed request
      | err e ↦ fail (invalid_payload (truncate_code_points e 4000))
    ]

    -- From the lock of the segment on; `owned` is what `validateSegmentOwnership` finds.
    unfoldable pub claim_selected : Bool → Group × Option (ClaimedJob M)
    claim_selected false = (quarantine now group, none)
    claim_selected true = elim (find (has_id selected.row.id) group.jobs) [
      | none ↦ (group, none)
      | some refreshed ↦
          if is_unchanged refreshed selected.row
          then claim_payload refreshed selected.row.payload
          else (group, none)
    ]
