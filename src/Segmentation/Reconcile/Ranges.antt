-- ===== src/Segmentation/Reconcile/Ranges.antt =====
-- What holds of every boundary that is selected.

use reflection.Common.{
  ℕ, suc, ◌≤◌, ◌≡◌, Bool, false, Option, none, some, inl, inr, List, [], ◌∷◌, ◌++◌, arith, All,
  All-append, Bool-cases, ltb, slice,
}
use reflection.Common.Result.{ok, >>=-eq-ok, ok-injective, throw_if->>-eq-ok}
use reflection.Common.Sort.{sort-All}
use reflection.Common.Text.{Text}
use reflection.Segmentation.Boundary.{
  cursor_text, out_of_order, leaves_turn, Boundary, Version, v1, v2, boundary_version,
}
use reflection.Segmentation.History.{Turn, History}
use reflection.Segmentation.Intervals.{Candidate}
use reflection.Segmentation.Intervals.Members.{select_boundary_intervals-All}
use reflection.Segmentation.Reconcile.{
  Place, SourceIndex, missing, repeated, at, v1_candidate, v1_of_version, v1_candidates,
  turn_by_user, source_index_of, v2_of_version, at_offsets, leaves, offset_of, v2_at, v2_indexes,
  v2_candidate, resolve_v2_boundaries, thawed, reconcile_v1_boundaries, reconcile_v2_boundaries,
}

-- The boundary starts no later than it ends.
abbrev pub IsForward : {E : Type 0} → Candidate E → Type 0
IsForward c = c.start_index ≤ c.end_index

-- The offsets of a v2 boundary are in order.
abbrev pub HasOffsets : Candidate Place → Type 0
HasOffsets c = c.extra.start_offset ≤ c.extra.end_offset

abbrev pub IsWithin : Candidate Place → Type 0
IsWithin c = IsForward c × HasOffsets c

v1_candidate-All :
    (boundary : Boundary) (start end : Option ℕ) → All IsForward (v1_candidate boundary start end)
unfolding v1_candidate
v1_candidate-All boundary (some start) (some end) = elim (Bool-cases (ltb end start)) [
  | inl e ↦ rw e tt
  | inr e ↦ rw e (ground arith, tt)
]
v1_candidate-All boundary (some start) none = tt
v1_candidate-All boundary none end = tt

v1_of_version-All :
    (turns : List Turn) (boundary : Boundary) (version : Version)
    → All IsForward (v1_of_version turns boundary version)
unfolding v1_of_version
v1_of_version-All turns boundary v2 = tt
v1_of_version-All turns boundary v1 = v1_candidate-All boundary _ _

v1_candidates-All :
    (turns : List Turn) (boundaries : List Boundary) (cs : List (Candidate (Unit {0})))
    → v1_candidates turns boundaries ≡ ok cs
    → All IsForward cs
unfolding v1_candidates
v1_candidates-All turns [] cs e = let same : [] ≡ cs = ground arith in rw (← same) tt
v1_candidates-All turns (boundary ∷ boundaries) cs e =
    let (version, _, e₁) = >>=-eq-ok (boundary_version boundary) _ e in
    let (rest, made, e₂) = >>=-eq-ok (v1_candidates turns boundaries) _ e₁ in
    let same : v1_of_version turns boundary version ++ rest ≡ cs = ground arith in
    rw (← same) (
      All-append IsForward _ rest (v1_of_version-All turns boundary version)
        (v1_candidates-All turns boundaries rest made))

at_offsets-All :
    (boundary : Boundary) (turn : Turn) (start end : ℕ) (from to : Option ℕ)
    (cs : List (Candidate Place))
    → start ≤ end
    → at_offsets boundary turn start end from to ≡ ok cs
    → All IsWithin cs
unfolding at_offsets
at_offsets-All boundary turn start end (some from) (some to) cs h e =
    elim (Bool-cases (ltb to from)) [
      | inl bad ↦ cc (rw (bad, at_offsets) at e)
      | inr good ↦
          let same = ok-injective _ _ (rw (good, at_offsets) at e) in
          rw (← same) ((h, ground arith), tt)
    ]
at_offsets-All boundary turn start end (some from) none cs h e = cc
at_offsets-All boundary turn start end none to cs h e = cc

v2_at-All :
    (history : History) (boundary : Boundary) (turn : Turn) (start end : ℕ)
    (cs : List (Candidate Place))
    → v2_at history boundary turn start end ≡ ok cs
    → All IsWithin cs
unfolding v2_at
v2_at-All history boundary turn start end cs e =
    let span = slice start (suc end) history.messages in
    let (in_order, e₁) = throw_if->>-eq-ok (ltb end start) out_of_order _ e in
    let (_, e₂) = throw_if->>-eq-ok (leaves turn span) leaves_turn _ e₁ in
    at_offsets-All boundary turn start end (offset_of start 0 turn.messages)
      (offset_of end 0 turn.messages) cs (forward start end in_order) e₂
  where
    forward : (a b : ℕ) → ltb b a ≡ false → a ≤ b
    forward a b h = ground arith

v2_indexes-All :
    (history : History) (boundary : Boundary) (turn : Turn) (start end : SourceIndex)
    (cs : List (Candidate Place))
    → v2_indexes history boundary turn start end ≡ ok cs
    → All IsWithin cs
unfolding v2_indexes
v2_indexes-All history boundary turn missing end cs e = rw (← ok-injective _ _ e) tt
v2_indexes-All history boundary turn (at start) (at end) cs e =
    v2_at-All history boundary turn start end cs e
v2_indexes-All history boundary turn (at start) missing cs e = rw (← ok-injective _ _ e) tt
v2_indexes-All history boundary turn repeated missing cs e = rw (← ok-injective _ _ e) tt
v2_indexes-All history boundary turn (at start) repeated cs e = cc
v2_indexes-All history boundary turn repeated (at end) cs e = cc
v2_indexes-All history boundary turn repeated repeated cs e = cc

v2_candidate-All :
    (history : History) (boundary : Boundary) (turn : Option Turn) (cs : List (Candidate Place))
    → v2_candidate history boundary turn ≡ ok cs
    → All IsWithin cs
unfolding v2_candidate
v2_candidate-All history boundary none cs e = rw (← ok-injective _ _ e) tt
v2_candidate-All history boundary (some turn) cs e =
    v2_indexes-All history boundary turn
      (source_index_of (cursor_text boundary.start_source_message_id) missing history.messages)
      (source_index_of (cursor_text boundary.end_source_message_id) missing history.messages) cs e

v2_of_version-All :
    (history : History) (boundary : Boundary) (version : Version) (cs : List (Candidate Place))
    → v2_of_version history boundary version ≡ ok cs
    → All IsWithin cs
unfolding v2_of_version
v2_of_version-All history boundary v1 cs e = rw (← ok-injective _ _ e) tt
v2_of_version-All history boundary v2 cs e =
    v2_candidate-All history boundary (turn_by_user boundary.start_user_message_id history.turns) cs
      e

pub resolve_v2_boundaries-All :
    (history : History) (boundaries : List Boundary) (cs : List (Candidate Place))
    → resolve_v2_boundaries history boundaries ≡ ok cs
    → All IsWithin cs
unfolding resolve_v2_boundaries
resolve_v2_boundaries-All history [] cs e = rw (← ok-injective _ _ e) tt
resolve_v2_boundaries-All history (boundary ∷ boundaries) cs e =
    let (version, _, e₁) = >>=-eq-ok (boundary_version boundary) _ e in
    let (here, found, e₂) = >>=-eq-ok (v2_of_version history boundary version) _ e₁ in
    let (rest, made, e₃) = >>=-eq-ok (resolve_v2_boundaries history boundaries) _ e₂ in
    rw (← ok-injective _ _ e₃) (
      All-append IsWithin here rest (v2_of_version-All history boundary version here found)
        (resolve_v2_boundaries-All history boundaries rest made))

thawed-All :
    (P : Candidate Place → Type 0) (frozen : ℕ → Bool) (cs : List (Candidate Place))
    → All P cs
    → All P (thawed frozen cs)
unfolding thawed
thawed-All P frozen [] h = tt
thawed-All P frozen (c ∷ cs) (p, h) = elim (Bool-cases (frozen c.extra.turn_index)) [
  | inl e ↦ rw e (thawed-All P frozen cs h)
  | inr e ↦ rw e (p, thawed-All P frozen cs h)
]

module _ (locale_le : Text → Text → Bool) where
  pub reconcile_v2_boundaries-All :
      (frozen : ℕ → Bool) (cs : List (Candidate Place))
      → All IsWithin cs
      → All IsWithin (reconcile_v2_boundaries locale_le frozen cs)
  unfolding reconcile_v2_boundaries
  reconcile_v2_boundaries-All frozen cs h =
      select_boundary_intervals-All IsWithin _
        (sort-All IsWithin _ _ (thawed-All IsWithin frozen cs h))

  pub reconcile_v1_boundaries-All :
      (turns : List Turn) (boundaries : List Boundary) (cs : List (Candidate (Unit {0})))
      → reconcile_v1_boundaries locale_le turns boundaries ≡ ok cs
      → All IsForward cs
  unfolding reconcile_v1_boundaries
  reconcile_v1_boundaries-All turns boundaries cs e =
      let (found, made, e₁) = >>=-eq-ok (v1_candidates turns boundaries) _ e in
      rw (← ok-injective _ _ e₁) (
        select_boundary_intervals-All IsForward _
          (sort-All IsForward _ found (v1_candidates-All turns boundaries found made)))
