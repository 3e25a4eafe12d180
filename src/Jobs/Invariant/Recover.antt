-- ===== src/Jobs/Invariant/Recover.antt =====
-- `recoverRunningJobs` keeps a group sound, and no job runs behind it.
use mathlib.Core.Option.{some-injective}
use reflection.Common.Text.{Text}
use reflection.Common.{
  ℕ, ◌≡◌, refl, ap, ◌∙◌, Bool, true, false, Option, none, some, arith, Bool-cases, inl, inr, ◌==◌,
  if-cases,
}
use reflection.Jobs.Boundary.{Boundary, turns, messages, native, Mark, mark_of, is_native}
use reflection.Jobs.Codec.{Request, Codec, IsCodec}
use reflection.Jobs.Rows.{JobRow, TargetRow, Group, is_running}
use reflection.Jobs.Recover.{abandoned_job, recovered_job, stored_payload, recover_running_jobs}
use reflection.Jobs.Invariant.{IsSound, IsRow, IsTargetJob, Records, is_open}
use reflection.Jobs.Invariant.Update.{jobs-IsSound, inactive-IsRow}
use reflection.Jobs.Invariant.Claim.{quarantine-IsSound}
use reflection.Jobs.Invariant.Requeue.{target-Records}

module _ (n : ℕ) {M : Type 0} (codec : Codec M) (laws : IsCodec codec) (now : ℕ) where
  -- The version that is stored says whether the boundary is native.
  not_native :
      (b : Boundary) {version : ℕ}
      → version ≡ (mark_of b).source_boundary_version
      → (version == 3) ≡ false
      → is_native b ≡ false
  unfolding mark_of
  not_native (turns x y) e f = refl
  not_native (messages x y z w) e f = refl
  not_native (native x y) e f = ground arith

  stored_eq :
      (t : TargetRow) (r : Request M)
      → Records codec t.snapshot (some t.payload) t.processing_priority r
      → ◌≡◌ {A = Option Text} (some (stored_payload codec now t)) (some t.payload)
  stored_eq t r h =
      ap (λ (x : Text). some x)
        (if-cases (λ (x : Text). x ≡ t.payload) (t.snapshot.mark.source_boundary_version == 3)
          t.payload (codec.without_source_id t.payload) (λ e. refl)
          (λ e. rw (some-injective t.payload (codec.encode r) h.payload) (
            laws.encoded_without_source_id r
              (not_native r.boundary (ap (λ (x : Mark). x.source_boundary_version) h.mark) e))))

  -- The payload of a target is stored as it is stored again.
  stored-Records :
      (t : TargetRow) (r : Request M)
      → Records codec t.snapshot (some t.payload) t.processing_priority r
      → Records codec t.snapshot (some (stored_payload codec now t)) t.processing_priority r
  stored-Records t r h = record {
    payload = stored_eq t r h ∙ h.payload;
    accepted = h.accepted;
    mark = h.mark;
    version = h.version;
    fingerprint = h.fingerprint;
    priority = h.priority;
    segment = h.segment;
  }

  recovered-IsRow :
      (target : Option TargetRow) (j : JobRow)
      → ((t : TargetRow)
          → target ≡ some t
          → (r : Request M) × Records codec t.snapshot (some t.payload) t.processing_priority r)
      → IsRow codec target j
      → IsRow codec target (recovered_job codec now target j)
  unfolding recovered_job
  recovered-IsRow none j records row = inactive-IsRow codec none (abandoned_job codec now j) refl tt
  recovered-IsRow (some t) j records (w, g, r) = elim (Bool-cases (t.job_id == j.id)) [
    | inl e ↦
        rw (recovered_job, e)
          (
            (λ _. (ground arith, refl)),
            (λ _ _. refl),
            λ _. ((records t refl).0, stored-Records t (records t refl).0 (records t refl).1),
          )
    | inr e ↦
        rw (recovered_job, e) (inactive-IsRow codec (some t) (abandoned_job codec now j) refl g)
  ]

  pub recovered_id :
      (target : Option TargetRow) (j : JobRow) → (recovered_job codec now target j).id ≡ j.id
  unfolding recovered_job
  recovered_id none j = refl
  recovered_id (some t) j =
      if-cases (λ (k : JobRow). k.id ≡ j.id) (t.job_id == j.id) _ _ (λ e. refl) (λ e. refl)

  pub recovered_quiet :
      (target : Option TargetRow) (j : JobRow)
      → is_running (recovered_job codec now target j).status ≡ false
  unfolding recovered_job
  recovered_quiet none j = refl
  recovered_quiet (some t) j =
      if-cases (λ (k : JobRow). is_running k.status ≡ false) (t.job_id == j.id) _ _ (λ e. refl)
        (λ e. refl)

  recovered_open :
      (target : Option TargetRow) (j : JobRow)
      → IsTargetJob target j
      → is_open (recovered_job codec now target j).status ≡ true
  unfolding recovered_job
  recovered_open none j own = absurd own
  recovered_open (some t) j own =
      if-cases (λ (k : JobRow). is_open k.status ≡ true) (t.job_id == j.id) _ _ (λ e. refl)
        (λ e. absurd (ground arith))

  pub recover_running_jobs-IsSound :
      (owned : Bool) (group : Group)
      → IsSound codec n group
      → IsSound codec n (recover_running_jobs codec now owned group).0
  unfolding recover_running_jobs
  recover_running_jobs-IsSound false group h = quarantine-IsSound n codec now group h
  recover_running_jobs-IsSound true group h =
      jobs-IsSound n codec group _ _ h (recovered_id group.target)
        (λ j e r. let quiet = recovered_quiet group.target j in cc)
        (λ j w e. recovered-IsRow group.target j (λ t e. target-Records n codec laws group t e h) w)
        (λ j e i o. recovered_open group.target j i)
