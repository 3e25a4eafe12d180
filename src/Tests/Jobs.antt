-- ===== src/Tests/Jobs.antt =====
-- One segment of which a snapshot is enqueued, claimed, staged and committed.
mod Sample
use reflection.Common.{
  ℕ, ◌≡◌, refl, true, false, Option, none, some, List, [], ◌∷◌, find, any, arith,
}
use reflection.Common.Result.{Result, ok, err, OnOk}
use reflection.Common.Text.{Text, utf16, text_eq}
use reflection.Jobs.Boundary.{
  turns, mark_of, start_user_of, source_boundary_sound, source_boundary-mark_of,
}
use reflection.Jobs.Codec.{Request, Extraction}
use reflection.Jobs.Rows.{
  JobRow, TargetRow, Group, same_text?, same_mark, same_snapshot, update_jobs, row_count, has_id,
  succeeded, Failure,
}
use reflection.Jobs.Match.{
  ClaimedJob, decoded_and, target_matches_request, target_matches_job, failed_target_matches_job,
}
use reflection.Jobs.Knowledge.{
  Knowledge, store_knowledge, PreparedEntity, ClaimRow, upsert_new, upsert_entity, names_entity,
}
use reflection.Jobs.Machine.{
  State, Event, enqueued, selecting, claiming, publishing, committing, failing, recovering, initial,
  empty_group, step, run, claim_from,
}
use reflection.Jobs.Commit.{PreparedSegment, commit_resolution}
use reflection.Jobs.Invariant.{IsSoundState, is_running_row, IsSound}
use reflection.Jobs.Invariant.Run.{run-IsSoundState, run-IsSound, initial-IsSound}
use reflection.Jobs.Want.{
  boundary_job, want, choose, upsert, next_generation, top_generation, new_job, retarget, has_index,
  wanted_target,
}
use reflection.Jobs.Enqueue.{
  lower_version, refresh_or, settle_or_want, respond, enqueue, record_request, check_request,
  check_source,
}
use reflection.Jobs.Claim.{
  Selected, claim_selected, is_unchanged, claim_payload, claim_request, start_with, start,
  select_job, is_eligible, joins, is_joined, joined_extraction, request_matches,
  truncate_code_points,
}
use reflection.Jobs.Current.{IsFor, run-claim_selected}
use reflection.Jobs.Mailbox.{mailbox_of, committed_of}
use reflection.Jobs.Mailbox.Refines.{Changed, run-Changed, IsPast, run-IsPast}
use reflection.Jobs.Attempt.{
  finish_failed_attempt, publish_extraction, extraction_result_for_persistence, validate_claim,
  finish_current, finish_held, wanted_by, finish_wanted, kept_target, is_committed,
  persisted_payload,
}
use reflection.Jobs.Recover.{recovered_job, resumed_job, recover_running_jobs}
use reflection.Jobs.Recovery.{recover_running_jobs-eligible, retry_failed_job-eligible}
use reflection.Jobs.Operate.{
  retry_failed_job, check_failed_job, check_superseded, check_failed, failed_target, retry_target,
}
use reflection.Jobs.Eligible.{summary_has_content}
use reflection.Jobs.Stale.{run-unheard}
use reflection.Jobs.Answer.{IsAnswered, enqueue-IsAnswered}
use reflection.Jobs.Knowledge.Links.{IsLinked, IsLinkedKnowledge, store_knowledge-IsLinkedKnowledge}
use Sample.{codec, laws}

abbrev request : ℕ → Request ℕ
request content = record {
  session_id = utf16 "s1";
  boundary = turns (utf16 "u1") (utf16 "u2");
  projection_version = 1;
  processing_priority = 0;
  content = content;
}

abbrev knowledge : Knowledge
knowledge = record { entities = []; aliases = []; claims = [] }

abbrev fold : Text → Text
fold t = t

-- What a worker does for one snapshot.
abbrev claimed_job : ClaimedJob ℕ
claimed_job = record {
  id = 1;
  lease_id = utf16 "l1";
  source_generation = 1;
  source_fingerprint = codec.fingerprint (request 7);
  attempts = 1;
  request = request 7;
  extraction_result = none;
}

abbrev result : Extraction
result = record { summary = utf16 "sum"; claims = [] }

abbrev prepared : PreparedSegment
prepared = record {
  id = utf16 "s1";
  session_id = utf16 "s1";
  boundary = turns (utf16 "u1") (utf16 "u2");
  summary = utf16 "sum";
  entities = [];
  claims = [];
  projection_version = 1;
}

abbrev claiming_events : List (Event ℕ)
claiming_events = enqueued 10 (request 7) ∷ selecting 11 [] 1 ∷ claiming 12 (utf16 "l1") true ∷ []

abbrev working_events : List (Event ℕ)
working_events = publishing 13 claimed_job result ∷ committing 14 claimed_job result prepared ∷ []

abbrev claimed_state : State
claimed_state = run codec fold (initial knowledge) claiming_events

run-IsSoundState_example : IsSoundState codec claimed_state
run-IsSoundState_example = run-IsSoundState codec laws fold knowledge claiming_events

abbrev waiting_state : State
waiting_state =
    run codec fold (initial knowledge) (enqueued 10 (request 7) ∷ selecting 11 [] 1 ∷ [])

abbrev found_row : Option JobRow → JobRow
found_row none = new_job codec 10 (request 7) 1 1 succeeded
found_row (some j) = j

abbrev found_target : Option TargetRow → TargetRow
found_target none = wanted_target codec 10 (request 7) 1 1
found_target (some t) = t

abbrev chosen : Option Selected → Selected
chosen none = record { row = new_job codec 10 (request 7) 1 1 succeeded; extraction_result = none }
chosen (some selected) = selected

abbrev first_claim : Option (ClaimedJob ℕ) → ClaimedJob ℕ
first_claim none = claimed_job
first_claim (some job) = job

run-claim_selected_example :
    IsFor waiting_state.group.target (
      first_claim
        (claim_selected codec 12
          (utf16 "l1")
          (chosen waiting_state.selected)
          waiting_state.group
          true).1)
    × (row_count is_running_row waiting_state.group.jobs ≡ 0)
unfolding run step enqueue record_request check_request check_source lower_version boundary_job
    refresh_or settle_or_want want choose upsert next_generation top_generation new_job retarget
    respond has_index update_jobs row_count claim_from claim_selected is_unchanged claim_payload
    claim_request start_with start select_job is_eligible joins is_joined joined_extraction
    request_matches same_text? same_mark same_snapshot text_eq mark_of start_user_of
run-claim_selected_example =
    run-claim_selected codec laws fold knowledge (enqueued 10 (request 7) ∷ selecting 11 [] 1 ∷ [])
      12 (utf16 "l1") true (chosen waiting_state.selected)
      (first_claim
        (claim_selected codec 12 (utf16 "l1") (chosen waiting_state.selected) waiting_state.group
          true).1)
      refl refl

run-Changed_example :
    Changed working_events
      (mailbox_of claimed_state.group)
      (mailbox_of (run codec fold claimed_state working_events).group)
run-Changed_example = run-Changed codec fold claimed_state working_events

run-IsPast_example :
    IsPast (committed_of (run codec fold claimed_state working_events).group.segment) (
      committed_of
        (run codec fold
          (run codec fold claimed_state working_events)
          (enqueued 20 (request 8) ∷ [])).group.segment)
unfolding run
run-IsPast_example =
    run-IsPast codec laws fold knowledge
      (enqueued 10 (request 7)
        ∷ selecting 11 [] 1
        ∷ claiming 12 (utf16 "l1") true
        ∷ publishing 13 claimed_job result
        ∷ committing 14 claimed_job result prepared
        ∷ [])
      (enqueued 20 (request 8) ∷ [])

abbrev running_row : JobRow
running_row = found_row (find (has_id 1) claimed_state.group.jobs)

abbrev wanted_row : TargetRow
wanted_row = found_target claimed_state.group.target

-- A worker starts over while a job runs, and claims it under a lease of its own.
run-unheard_example :
    let after =
      run codec fold claimed_state
        (recovering 20 true ∷ selecting 21 [] 1 ∷ claiming 22 (utf16 "l2") true ∷ []) in
    (finish_failed_attempt codec 23 after.group claimed_job (utf16 "timeout") none
      ≡ ok (after.group, false))
    × (publish_extraction codec 23 after.group claimed_job result ≡ ok (after.group, false))
    × OnOk
        (λ done. ⊥)
        (commit_resolution codec fold 23 after.group after.knowledge claimed_job prepared result)
unfolding validate_claim extraction_result_for_persistence summary_has_content recover_running_jobs
    recovered_job run step enqueue record_request check_request check_source lower_version
    boundary_job refresh_or settle_or_want want choose upsert next_generation top_generation new_job
    retarget respond has_index update_jobs row_count claim_from claim_selected is_unchanged
    claim_payload claim_request start_with start select_job is_eligible joins is_joined
    joined_extraction request_matches same_text? same_mark same_snapshot text_eq mark_of
    start_user_of
run-unheard_example =
    run-unheard codec fold claimed_state 20 true
      (selecting 21 [] 1 ∷ claiming 22 (utf16 "l2") true ∷ []) 23 claimed_job prepared result
      (utf16 "timeout") none (tt, (refl, tt))

rows_IsSound : IsSound codec 1 claimed_state.group
unfolding IsSoundState run step enqueue record_request check_request check_source lower_version
    boundary_job refresh_or settle_or_want want choose upsert next_generation top_generation new_job
    retarget respond has_index update_jobs row_count claim_from claim_selected is_unchanged
    claim_payload claim_request start_with start select_job is_eligible joins is_joined
    joined_extraction request_matches same_text? same_mark same_snapshot text_eq mark_of
    start_user_of
rows_IsSound =
    run-IsSound codec laws fold claiming_events (initial knowledge)
      (initial-IsSound codec laws fold knowledge)

recover_running_jobs-eligible_example :
    (find (has_id 1) (recover_running_jobs codec 30 true claimed_state.group).0.jobs
      ≡ some (resumed_job codec 30 wanted_row running_row))
    × (any is_running_row (recover_running_jobs codec 30 true claimed_state.group).0.jobs ≡ false)
    × (is_eligible 30 []
          (recover_running_jobs codec 30 true claimed_state.group).0
          (resumed_job codec 30 wanted_row running_row)
        ≡ true)
unfolding IsSoundState run step enqueue record_request check_request check_source lower_version
    boundary_job refresh_or settle_or_want want choose upsert next_generation top_generation new_job
    retarget respond has_index update_jobs row_count claim_from claim_selected is_unchanged
    claim_payload claim_request start_with start select_job is_eligible joins is_joined
    joined_extraction request_matches same_text? same_mark same_snapshot text_eq mark_of
    start_user_of
recover_running_jobs-eligible_example =
    recover_running_jobs-eligible 1 codec laws 30 claimed_state.group wanted_row running_row
      rows_IsSound refl refl refl

abbrev answered : Result Failure (Group × ℕ) → Group × ℕ
answered (ok done) = done
answered (err e) = (empty_group, 0)

enqueue-IsAnswered_example :
    IsAnswered codec 20
      (request 8)
      claimed_state.group
      (answered (enqueue codec 20 (request 8) claimed_state.group))
unfolding run step enqueue record_request check_request check_source lower_version boundary_job
    refresh_or settle_or_want want choose upsert next_generation top_generation new_job retarget
    respond has_index update_jobs row_count claim_from claim_selected is_unchanged claim_payload
    claim_request start_with start select_job is_eligible joins is_joined joined_extraction
    request_matches same_text? same_mark same_snapshot text_eq mark_of start_user_of
    target_matches_request
enqueue-IsAnswered_example =
    enqueue-IsAnswered codec 20 (request 8) claimed_state.group
      (answered (enqueue codec 20 (request 8) claimed_state.group)) refl

abbrev named_entity : Text → PreparedEntity
named_entity id = record {
  entity = record {
    id = id;
    canonical_name = id;
    normalized_name = id;
    description = id;
    embedding = none;
  };
  aliases = id ∷ [];
  is_new = true;
}

abbrev claim_of : Text → ClaimRow
claim_of id = record {
  id = utf16 "c";
  subject = id;
  subject_entity_id = id;
  predicate = utf16 "uses";
  confidence = utf16 "1";
  object_entity = none;
  object_entity_id = none;
  object_value = some id;
  equivalence_key = id;
  embedding = [];
}

-- The entity of the claim is the new one.
new_claim_IsLinked : IsLinked (upsert_new (named_entity (utf16 "e") ∷ []) []) (claim_of (utf16 "e"))
unfolding upsert_new upsert_entity names_entity
new_claim_IsLinked = λ id h. ground arith

store_knowledge-IsLinkedKnowledge_example : IsLinkedKnowledge (
    store_knowledge fold
      (utf16 "s1")
      (named_entity (utf16 "e") ∷ [])
      (claim_of (utf16 "e") ∷ [])
      knowledge)
unfolding IsLinkedKnowledge
store_knowledge-IsLinkedKnowledge_example =
    store_knowledge-IsLinkedKnowledge fold (utf16 "s1") (named_entity (utf16 "e") ∷ [])
      (claim_of (utf16 "e") ∷ []) knowledge tt (new_claim_IsLinked, tt)

source_boundary_sound_example :
    (start_user_of (turns (utf16 "u1") (utf16 "u2")) ≡ some (utf16 "u1"))
    × (mark_of (turns (utf16 "u1") (utf16 "u2")) ≡ mark_of (turns (utf16 "u1") (utf16 "u2")))
unfolding start_user_of mark_of
source_boundary_sound_example =
    source_boundary_sound (some (utf16 "u1")) (mark_of (turns (utf16 "u1") (utf16 "u2")))
      (turns (utf16 "u1") (utf16 "u2")) (source_boundary-mark_of (turns (utf16 "u1") (utf16 "u2")))

abbrev failed_state : State
failed_state = run codec fold (initial knowledge) (
    enqueued 10 (request 7)
    ∷ selecting 11 [] 1
    ∷ claiming 12 (utf16 "l1") true
    ∷ failing 20 claimed_job (utf16 "timeout") none
    ∷ [])

failed_IsSound : IsSound codec 1 failed_state.group
unfolding IsSoundState run step enqueue record_request check_request check_source lower_version
    boundary_job refresh_or settle_or_want want choose upsert next_generation top_generation new_job
    retarget respond has_index update_jobs row_count claim_from claim_selected is_unchanged
    claim_payload claim_request start_with start select_job is_eligible joins is_joined
    joined_extraction request_matches same_text? same_mark same_snapshot text_eq mark_of
    start_user_of
failed_IsSound =
    run-IsSound codec laws fold
      (enqueued 10 (request 7)
        ∷ selecting 11 [] 1
        ∷ claiming 12 (utf16 "l1") true
        ∷ failing 20 claimed_job (utf16 "timeout") none
        ∷ [])
      (initial knowledge) (initial-IsSound codec laws fold knowledge)

abbrev retried : Result Failure (Option Group) → Group
retried (ok (some group)) = group
retried _ = empty_group

retry_failed_job-eligible_example :
    (j : JobRow) × (find
        (has_id 1)
        (retried (retry_failed_job codec 30 failed_state.group 1 true)).jobs
      ≡ some j)
    × (j.attempts ≡ 0)
    × (is_eligible 30 [] (retried (retry_failed_job codec 30 failed_state.group 1 true)) j ≡ true)
unfolding run step enqueue record_request check_request check_source lower_version boundary_job
    refresh_or settle_or_want want choose upsert next_generation top_generation new_job retarget
    respond has_index update_jobs row_count claim_from claim_selected is_unchanged claim_payload
    claim_request start_with start select_job is_eligible joins is_joined joined_extraction
    request_matches same_text? same_mark same_snapshot text_eq mark_of start_user_of
    finish_failed_attempt validate_claim finish_current finish_held wanted_by target_matches_job
    target_matches_request decoded_and finish_wanted kept_target truncate_code_points
    retry_failed_job check_failed_job check_superseded check_failed failed_target
    failed_target_matches_job retry_target persisted_payload is_committed
retry_failed_job-eligible_example =
    retry_failed_job-eligible 1 codec laws 30 failed_state.group 1 failed_IsSound refl true
      (retried (retry_failed_job codec 30 failed_state.group 1 true)) refl
