-- ===== src/Jobs/Current.antt =====
-- A claim is for what is wanted when it is made, whatever came between the selection and the lock.
use mathlib.Core.Option.{some-injective}
use reflection.Common.{
  ℕ, ◌≡◌, refl, sym, ap, ◌∙◌, Bool, true, false, Option, none, some, List, arith, find, Bool-cases,
  Option-cases, inl, inr,
}
use reflection.Common.Result.{ok, ok-injective, Result-cases}
use reflection.Common.Text.{Text}
use reflection.Jobs.Codec.{Request, Codec, Extraction, IsCodec}
use reflection.Jobs.Rows.{JobRow, TargetRow, Group, row_count, has_id, is_pending}
use reflection.Jobs.Match.{ClaimedJob}
use reflection.Jobs.Claim.{
  Selected, is_unchanged, start, start_with, claim_request, claim_payload, claim_selected,
  request_matches,
}
use reflection.Jobs.Knowledge.{Knowledge}
use reflection.Jobs.Machine.{Event, initial, run}
use reflection.Jobs.Updates.{find_sound, All-found, same_text?_sound}
use reflection.Jobs.Snapshots.{claimed_snapshot}
use reflection.Jobs.Invariant.{
  IsSound, IsRow, IsWanted, Records, is_running_row, IsSoundState, most_running,
}
use reflection.Jobs.Invariant.Run.{run-IsSoundState}

-- The claim is for the target: for its job and for its snapshot.
abbrev pub IsFor : {M : Type 0} → Option TargetRow → ClaimedJob M → Type 0
IsFor target claimed =
    (t : TargetRow) × (target ≡ some t)
    × (t.job_id ≡ claimed.id)
    × (t.snapshot ≡ claimed_snapshot claimed)

module _ {M : Type 0} (codec : Codec M) (now : ℕ) (lease : Text) (selected : Selected)
    (group : Group) where
  -- What a claim is made of.
  record Comes (payload : Text) (claimed : ClaimedJob M) : Type 0 where
    id : claimed.id ≡ selected.row.id
    generation : claimed.source_generation ≡ selected.row.snapshot.source_generation
    fingerprint : claimed.source_fingerprint ≡ codec.fingerprint claimed.request
    decoded : codec.decode payload ≡ ok claimed.request

  start-Comes :
      (refreshed : JobRow) (payload : Text) (request : Request M) (extraction : Option Extraction)
      (claimed : ClaimedJob M)
      → codec.decode payload ≡ ok request
      → (start codec now lease selected group refreshed request extraction).1 ≡ some claimed
      → Comes payload claimed
  unfolding start
  start-Comes refreshed payload request extraction claimed d h =
      rw (← some-injective _ claimed h)
        (record { id = refl; generation = refl; fingerprint = refl; decoded = d })

  start_with-Comes :
      (refreshed : JobRow) (payload : Text) (request : Request M) (written : Option Text)
      (claimed : ClaimedJob M)
      → codec.decode payload ≡ ok request
      → (start_with codec now lease selected group refreshed request written).1 ≡ some claimed
      → Comes payload claimed
  unfolding start_with
  start_with-Comes refreshed payload request none claimed d h =
      start-Comes refreshed payload request none claimed d h
  start_with-Comes refreshed payload request (some written) claimed d h =
      elim (Result-cases (codec.parse_extraction written)) [
        | inl (e, p) ↦
            start-Comes refreshed payload request (some e) claimed d (rw (start_with, p) at h)
        | inr (e, p) ↦ let no_claim : none ≡ some claimed = rw (start_with, p) at h in cc
      ]

  claim_payload-Comes :
      (refreshed : JobRow) (payload : Option Text) (claimed : ClaimedJob M)
      → (claim_payload codec now lease selected group refreshed payload).1 ≡ some claimed
      → (p : Text) × (payload ≡ some p) × Comes p claimed
  unfolding claim_payload claim_request
  claim_payload-Comes refreshed none claimed h = cc
  claim_payload-Comes refreshed (some payload) claimed h =
      elim (Result-cases (codec.decode payload)) [
        | inr (e, p) ↦ let no_claim : none ≡ some claimed = rw (claim_payload, p) at h in cc
        | inl (request, p) ↦ elim (Bool-cases (request_matches codec selected.row request)) [
          | inr e ↦
              let no_claim : none ≡ some claimed = rw (claim_payload, p, claim_request, e) at h in
              cc
          | inl e ↦ (
            payload,
            refl,
            start_with-Comes refreshed payload request selected.extraction_result claimed p
                (rw (claim_payload, p, claim_request, e) at h),
          )
        ]
      ]

  Records-claimed_snapshot :
      IsCodec codec
      → (row : JobRow) (r : Request M) (claimed : ClaimedJob M) (payload : Text)
      → Records codec row.snapshot row.payload row.processing_priority r
      → row.payload ≡ some payload
      → row.snapshot.source_generation ≡ claimed.source_generation
      → Comes payload claimed
      → row.snapshot ≡ claimed_snapshot claimed
  Records-claimed_snapshot laws row r claimed payload h p g c =
      let encoded : payload ≡ codec.encode r =
        some-injective payload (codec.encode r) (sym p ∙ h.payload) in
      let decoded : codec.decode (codec.encode r) ≡ ok claimed.request = rw (← encoded) c.decoded in
      let same : r ≡ claimed.request =
        ok-injective r claimed.request (sym (laws.decode-encode r h.accepted) ∙ decoded) in
      cc (h.mark, h.version, h.fingerprint, c.fingerprint, same, g)

  row-IsFor :
      (target : Option TargetRow) (row : JobRow) (claimed : ClaimedJob M)
      → IsWanted target row
      → is_pending row.status ≡ true
      → row.id ≡ claimed.id
      → row.snapshot ≡ claimed_snapshot claimed
      → IsFor target claimed
  row-IsFor none row claimed w e i s = cc
  row-IsFor (some t) row claimed w e i s =
      let (own, same) = w e in (t, refl, sym own ∙ i, sym same ∙ s)

  refreshed-IsFor :
      (row : JobRow) (claimed : ClaimedJob M)
      → IsCodec codec
      → is_unchanged row selected.row ≡ true
      → has_id selected.row.id row ≡ true
      → IsRow codec group.target row
      → (claim_payload codec now lease selected group row selected.row.payload).1 ≡ some claimed
      → IsFor group.target claimed
  unfolding is_unchanged
  refreshed-IsFor row claimed laws unchanged own (w, g, r) h =
      let (payload, stored, c) = claim_payload-Comes row selected.row.payload claimed h in
      let (request, records) = r (ground arith) in
      let same_payload = same_text?_sound row.payload selected.row.payload (ground arith) in
      row-IsFor group.target row claimed w (ground arith) (ground (arith, c.id)) (
        Records-claimed_snapshot laws row request claimed payload records (same_payload ∙ stored)
          (ground (arith, c.generation)) c)

  claim_selected-IsFor :
      (claimed : ClaimedJob M)
      → IsCodec codec
      → IsSound codec 0 group
      → (claim_selected codec now lease selected group true).1 ≡ some claimed
      → IsFor group.target claimed
  unfolding claim_selected
  claim_selected-IsFor claimed laws h e =
      elim (Option-cases (find (has_id selected.row.id) group.jobs)) [
        | inl p ↦ let no_claim : none ≡ some claimed = rw (claim_selected, p) at e in cc
        | inr (row, p) ↦ elim (Bool-cases (is_unchanged row selected.row)) [
          | inr u ↦ let no_claim : none ≡ some claimed = rw (claim_selected, p, u) at e in cc
          | inl u ↦
              refreshed-IsFor row claimed laws u
                (find_sound (has_id selected.row.id) group.jobs row p)
                (All-found (has_id selected.row.id) (IsRow codec group.target) group.jobs row p
                  h.rows)
                (rw (claim_selected, p, u) at e)
        ]
      ]

  claim_owned-IsFor :
      (owned : Bool) (claimed : ClaimedJob M)
      → IsCodec codec
      → IsSound codec 0 group
      → (claim_selected codec now lease selected group owned).1 ≡ some claimed
      → IsFor group.target claimed
  unfolding claim_selected
  claim_owned-IsFor false claimed laws h e = cc
  claim_owned-IsFor true claimed laws h e = claim_selected-IsFor claimed laws h e

-- After any events, also between the selection of a job and its claim: a job that is claimed is the
-- target's, its claim has the target's snapshot, and no job was running. It is assumed that an
-- accepted request is decoded from what it is encoded as, that a request of version 1 or 2 is encoded
-- without its source, and that the priority is checked by itself and not hashed.
pub run-claim_selected :
    {M : Type 0} (codec : Codec M) (laws : IsCodec codec) (case_fold : Text → Text)
    (knowledge : Knowledge) (events : List (Event M)) (now : ℕ) (lease : Text) (owned : Bool)
    (selected : Selected) (claimed : ClaimedJob M)
    → (run codec case_fold (initial knowledge) events).selected ≡ some selected
    → (claim_selected codec now lease selected
        (run codec case_fold (initial knowledge) events).group
        owned).1
      ≡ some claimed
    → IsFor (run codec case_fold (initial knowledge) events).group.target claimed
      × (row_count is_running_row (run codec case_fold (initial knowledge) events).group.jobs ≡ 0)
unfolding IsSoundState
run-claim_selected codec laws case_fold knowledge events now lease owned selected claimed s e =
    let group = (run codec case_fold (initial knowledge) events).group in
    let h : IsSound codec 0 group =
      rw (ap most_running s) at (run-IsSoundState codec laws case_fold knowledge events) in
    (
      claim_owned-IsFor codec now lease selected group owned claimed laws h e,
      omega (arith, h.one_running),
    )
