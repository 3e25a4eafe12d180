-- ===== src/Jobs/Updates.antt =====
-- What an update of the rows of `extraction_jobs` keeps.
use mathlib.Core.Option.{some-injective}
use reflection.Common.{
  ℕ, ◌+◌, ◌≤◌, ◌≡◌, ◌≢◌, refl, ap, Bool, true, false, ◌&&◌, Option, none, some, List, [], ◌∷◌, ◌++◌,
  ◌==◌, if◌then◌else◌, arith, All, All-append, All-map, ◌∙◌, sym, any, all, find, Bool-cases, inl,
  inr, ◌<◌,
}
use reflection.Common.Text.{Text, text_eq_sound, text_eq_refl}
use reflection.Jobs.Boundary.{Mark}
use reflection.Jobs.Rows.{
  JobRow, Snapshot, same_text?, same_mark, same_snapshot, update_jobs, row_count, has_id,
}

pub same_text?_sound : (a b : Option Text) → same_text? a b ≡ true → a ≡ b
unfolding same_text?
same_text?_sound none none h = refl
same_text?_sound (some a) (some b) h = rw (text_eq_sound a b h)
same_text?_sound none (some b) h = ground arith
same_text?_sound (some a) none h = ground arith

pub same_text?_refl : (a : Option Text) → same_text? a a ≡ true
unfolding same_text?
same_text?_refl none = refl
same_text?_refl (some a) = text_eq_refl a

pub same_mark_sound : (a b : Mark) → same_mark a b ≡ true → a ≡ b
unfolding same_mark
same_mark_sound a b h = ground (
  arith,
  same_text?_sound a.end_user_message_id b.end_user_message_id,
  same_text?_sound a.start_source_message_id b.start_source_message_id,
  same_text?_sound a.end_source_message_id b.end_source_message_id,
)

pub same_mark_refl : (a : Mark) → same_mark a a ≡ true
unfolding same_mark
same_mark_refl a = ground (
  arith,
  same_text?_refl a.end_user_message_id,
  same_text?_refl a.start_source_message_id,
  same_text?_refl a.end_source_message_id,
)

pub same_snapshot_sound : (a b : Snapshot) → same_snapshot a b ≡ true → a ≡ b
unfolding same_snapshot
same_snapshot_sound a b h = ground (
  arith,
  same_mark_sound a.mark b.mark,
  same_text?_sound a.source_fingerprint b.source_fingerprint,
)

module _ (p : JobRow → Bool) (f : JobRow → JobRow) where
  -- A row is changed or left, and both give what is wanted of it.
  pub All-update_jobs {ℓ κ} :
      {P : JobRow → Type ℓ} {Q : JobRow → Type κ} (jobs : List JobRow)
      → ((j : JobRow) → P j → p j ≡ true → Q (f j))
      → ((j : JobRow) → P j → p j ≡ false → Q j)
      → All P jobs
      → All Q (update_jobs p f jobs)
  unfolding update_jobs
  All-update_jobs [] changed kept h = tt
  All-update_jobs {Q = Q} (j ∷ jobs) changed kept (h, rest) = (
    elim (Bool-cases (p j)) [ inl e ↦ rw e (changed j h e) | inr e ↦ rw e (kept j h e) ],
    All-update_jobs jobs changed kept rest,
  )

  -- Every changed row with the property had it.
  pub row_count-update_jobs :
      (q : JobRow → Bool) (jobs : List JobRow)
      → ((j : JobRow) → p j ≡ true → q (f j) ≡ true → q j ≡ true)
      → row_count q (update_jobs p f jobs) ≤ row_count q jobs
  unfolding update_jobs row_count
  row_count-update_jobs q [] changed = omega arith
  row_count-update_jobs q (j ∷ jobs) changed =
      ground (arith, row_count-update_jobs q jobs changed, changed j)

  pub any-update_jobs :
      (q : JobRow → Bool) (jobs : List JobRow)
      → ((j : JobRow) → p j ≡ true → q j ≡ true → q (f j) ≡ true)
      → any q jobs ≡ true
      → any q (update_jobs p f jobs) ≡ true
  unfolding update_jobs
  any-update_jobs q [] changed h = h
  any-update_jobs q (j ∷ jobs) changed h = ground (arith, any-update_jobs q jobs changed, changed j)

-- No two rows have the same id.
abbrev pub IsDistinct : List JobRow → Type 0
IsDistinct [] = Unit
IsDistinct (j ∷ jobs) = All (λ k. j.id ≢ k.id) jobs × IsDistinct jobs

id-update :
    (p : JobRow → Bool) (f : JobRow → JobRow) (j : JobRow)
    → ((k : JobRow) → (f k).id ≡ k.id)
    → (if p j then f j else j).id ≡ j.id
id-update p f j same = ground (arith, same j)

pub IsDistinct-update_jobs :
    (p : JobRow → Bool) (f : JobRow → JobRow) (jobs : List JobRow)
    → ((j : JobRow) → (f j).id ≡ j.id)
    → IsDistinct jobs
    → IsDistinct (update_jobs p f jobs)
unfolding update_jobs
IsDistinct-update_jobs p f [] same h = tt
IsDistinct-update_jobs p f (j ∷ jobs) same (apart, h) = (
  rw (id-update p f j same)
      (All-update_jobs p f {P = λ k. j.id ≢ k.id} jobs (λ k a _. rw (same k) a) (λ k a _. a) apart),
  IsDistinct-update_jobs p f jobs same h,
)

-- A row behind the others, with an id above theirs.
pub IsDistinct-insert :
    (new : JobRow) (jobs : List JobRow)
    → All (λ j. j.id < new.id) jobs
    → IsDistinct jobs
    → IsDistinct (jobs ++ new ∷ [])
IsDistinct-insert new [] h d = (tt, tt)
IsDistinct-insert new (j ∷ jobs) (below, h) (apart, d) = (
  All-append (λ k. j.id ≢ k.id) jobs (new ∷ []) apart ((λ e. omega arith), tt),
  IsDistinct-insert new jobs h d,
)

module _ (q : JobRow → Bool) where
  pub row_count-append :
      (jobs added : List JobRow)
      → row_count q (jobs ++ added) ≡ row_count q jobs + row_count q added
  unfolding row_count
  row_count-append [] added = omega arith
  row_count-append (j ∷ jobs) added = ground (arith, row_count-append jobs added)

  pub any-append : (jobs added : List JobRow) → any q jobs ≡ true → any q (jobs ++ added) ≡ true
  any-append [] added h = ground arith
  any-append (j ∷ jobs) added h = ground (arith, any-append jobs added)

  pub any-inserted :
      (jobs : List JobRow) (new : JobRow) → q new ≡ true → any q (jobs ++ new ∷ []) ≡ true
  any-inserted [] new h = ground arith
  any-inserted (j ∷ jobs) new h = ground (arith, any-inserted jobs new h)

  pub row_count-none : (jobs : List JobRow) → any q jobs ≡ false → row_count q jobs ≡ 0
  unfolding row_count
  row_count-none [] h = refl
  row_count-none (j ∷ jobs) h = ground (arith, row_count-none jobs)

  pub find_sound : (jobs : List JobRow) (j : JobRow) → find q jobs ≡ some j → q j ≡ true
  find_sound [] j h = cc
  find_sound (k ∷ jobs) j h = elim (Bool-cases (q k)) [
    | inl e ↦ ground arith
    | inr e ↦ find_sound jobs j (ground arith)
  ]

  pub any-found :
      (r : JobRow → Bool) (jobs : List JobRow) (j : JobRow)
      → find q jobs ≡ some j
      → r j ≡ true
      → any r jobs ≡ true
  any-found r [] j h k = cc
  any-found r (k ∷ jobs) j h e = elim (Bool-cases (q k)) [
    | inl t ↦ ground arith
    | inr t ↦ ground (arith, any-found r jobs j (ground arith) e)
  ]

  pub All-found {ℓ} :
      (P : JobRow → Type ℓ) (jobs : List JobRow) (j : JobRow)
      → find q jobs ≡ some j
      → All P jobs
      → P j
  All-found P [] j h k = cc
  All-found P (k ∷ jobs) j h (a, rest) = elim (Bool-cases (q k)) [
    | inl t ↦ rw (← some-injective k j (ground arith)) a
    | inr t ↦ All-found P jobs j (ground arith) rest
  ]

==_sound : (a b : ℕ) → (a == b) ≡ true → a ≡ b
==_sound a b h = ground arith

-- At most one row has an id.
row_count-above :
    (q : JobRow → Bool) (id : ℕ) (jobs : List JobRow)
    → All (λ j. id ≢ j.id) jobs
    → row_count (λ j. has_id id j && q j) jobs ≡ 0
unfolding row_count
row_count-above q id [] h = refl
row_count-above q id (j ∷ jobs) (apart, h) = ground (arith, row_count-above q id jobs h)

pub row_count-id :
    (q : JobRow → Bool) (id : ℕ) (jobs : List JobRow)
    → IsDistinct jobs
    → row_count (λ j. has_id id j && q j) jobs ≤ 1
unfolding row_count
row_count-id q id [] d = omega arith
row_count-id q id (j ∷ jobs) (apart, d) = elim (Bool-cases (j.id == id)) [
  | inl e ↦ ground (arith, row_count-above q id jobs (rw (← ==_sound j.id id e) apart))
  | inr e ↦ ground (arith, row_count-id q id jobs d)
]

pub row_count-changed :
    (p : JobRow → Bool) (f : JobRow → JobRow) (q : JobRow → Bool) (jobs : List JobRow)
    → row_count q (update_jobs p f jobs) ≤ row_count q jobs + row_count p jobs
unfolding update_jobs row_count
row_count-changed p f q [] = omega arith
row_count-changed p f q (j ∷ jobs) = ground (arith, row_count-changed p f q jobs)

-- The row that is found by its id is the only one with it.
pub found-only :
    (id : ℕ) (jobs : List JobRow) (found : JobRow)
    → IsDistinct jobs
    → find (has_id id) jobs ≡ some found
    → All (λ j. has_id id j ≡ true → j ≡ found) jobs
found-only id [] found d h = tt
found-only id (j ∷ jobs) found (apart, d) h = elim (Bool-cases (has_id id j)) [
  | inl e ↦ (
    (λ _. some-injective j found (ground arith)),
    All-map jobs (λ k a t. absurd (a (==_sound j.id id e ∙ sym (==_sound k.id id t)))) apart,
  )
  | inr e ↦ ((λ t. cc), found-only id jobs found d (ground arith))
]

-- Of the rows with a found row's id there is only that row.
pub found-same_id :
    (q : JobRow → Bool) (jobs : List JobRow) (found : JobRow)
    → IsDistinct jobs
    → find q jobs ≡ some found
    → All (λ j. has_id found.id j ≡ true → j ≡ found) jobs
found-same_id q [] found d h = tt
found-same_id q (j ∷ jobs) found (apart, d) h = elim (Bool-cases (q j)) [
  | inl e ↦
      let is_found : j ≡ found = some-injective j found (ground arith) in
      (
        (λ _. is_found),
        All-map jobs
            (λ k a t.
              absurd (a (ap (λ (r : JobRow). r.id) is_found ∙ sym (==_sound k.id found.id t))))
            apart,
      )
  | inr e ↦
      let later : find q jobs ≡ some found = ground arith in
      (
        (λ t.
            absurd
              (All-found q (λ k. j.id ≢ k.id) jobs found later apart (==_sound j.id found.id t))),
        found-same_id q jobs found d later,
      )
]

row_count-zero :
    (q : JobRow → Bool) (jobs : List JobRow) (C : JobRow → Type 0)
    → row_count q jobs ≡ 0
    → All (λ j. q j ≡ true → C j) jobs
unfolding row_count
row_count-zero q [] C n = tt
row_count-zero q (j ∷ jobs) C n = elim (Bool-cases (q j)) [
  | inl e ↦ absurd (ground arith)
  | inr e ↦ ((λ t. cc), row_count-zero q jobs C (ground arith))
]

-- Where at most one row has a property, it is the one that is found.
pub found_unique :
    (q : JobRow → Bool) (jobs : List JobRow) (found : JobRow)
    → row_count q jobs ≤ 1
    → find q jobs ≡ some found
    → All (λ j. q j ≡ true → j ≡ found) jobs
unfolding row_count
found_unique q [] found n h = tt
found_unique q (j ∷ jobs) found n h = elim (Bool-cases (q j)) [
  | inl e ↦ (
    (λ _. some-injective j found (ground arith)),
    row_count-zero q jobs (λ k. k ≡ found) (ground arith),
  )
  | inr e ↦ ((λ t. cc), found_unique q jobs found (ground arith) (ground arith))
]

pub any-changed :
    (p : JobRow → Bool) (f : JobRow → JobRow) (q : JobRow → Bool) (jobs : List JobRow)
    → ((j : JobRow) → p j ≡ true → q (f j) ≡ true)
    → any p jobs ≡ true
    → any q (update_jobs p f jobs) ≡ true
unfolding update_jobs
any-changed p f q [] changed h = h
any-changed p f q (j ∷ jobs) changed h = ground (arith, any-changed p f q jobs changed, changed j)

-- A row with a property is one of the rows.
pub any-All {ℓ κ} :
    (q : JobRow → Bool) (P : JobRow → Type ℓ) {C : Type κ} (jobs : List JobRow)
    → ((j : JobRow) → P j → q j ≡ true → C)
    → any q jobs ≡ true
    → All P jobs
    → C
any-All q P [] use_it h all = cc
any-All q P (j ∷ jobs) use_it h (a, rest) = elim (Bool-cases (q j)) [
  | inl e ↦ use_it j a e
  | inr e ↦ any-All q P jobs use_it (ground arith) rest
]

pub all-found :
    (p q : JobRow → Bool) (jobs : List JobRow) (found : JobRow)
    → find p jobs ≡ some found
    → all q jobs ≡ true
    → q found ≡ true
all-found p q [] found h k = cc
all-found p q (j ∷ jobs) found h k = elim (Bool-cases (p j)) [
  | inl e ↦ rw (← some-injective j found (ground arith)) (ground arith)
  | inr e ↦ all-found p q jobs found (ground arith) (ground arith)
]
