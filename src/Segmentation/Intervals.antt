-- ===== src/Segmentation/Intervals.antt =====
-- packages/shared/src/segmentation.ts: `betterBoundaryPlan` and `selectBoundaryIntervals`, the
-- choice of non-overlapping boundaries by dynamic programming.
-- The arrays `candidates[0..index)` and `plans[0..index]` are lists with the newest element first,
-- so that the backward search of `previous` is a walk down both.
pub mod Score
pub mod Plan
pub mod Optimal
pub mod Members
use reflection.Common.{
  ℕ, ◌+◌, ◌-◌, Bool, true, false, Option, none, some, List, [], ◌∷◌, ◌++◌, leb, ltb, ◌==◌,
  if◌then◌else◌,
}
use reflection.Common.Text.{Text, text_leb, utf16}
use reflection.Common.Sort.{sort}
use reflection.Segmentation.Boundary.{Boundary}

-- A `BoundaryInterval`, with the further fields of the caller's type in `extra`.
pub record Candidate (E : Type 0) : Type 0 where
  pub boundary : Boundary
  pub start_index : ℕ
  pub end_index : ℕ
  pub key : Text
  pub extra : E

abbrev pub or_zero : Option ℕ → ℕ
or_zero none = 0
or_zero (some n) = n

abbrev pub one_if : Option Bool → ℕ
one_if (some true) = 1
one_if _ = 0

module _ {E : Type 0} where
  -- `items.reduce((total, item) => total + item.endIndex - item.startIndex + 1, 0)`
  abbrev pub coverage : List (Candidate E) → ℕ
  coverage [] = 0
  coverage (c ∷ cs) = (c.end_index + 1 - c.start_index) + coverage cs

  abbrev pub eligible : List (Candidate E) → ℕ
  eligible [] = 0
  eligible (c ∷ cs) = one_if c.boundary.source_eligible + eligible cs

  abbrev pub version : List (Candidate E) → ℕ
  version [] = 0
  version (c ∷ cs) = or_zero c.boundary.projection_version + version cs

  -- `items.map((item) => item.key).join("|")`
  unfoldable pub plan_key : List (Candidate E) → Text
  plan_key [] = []
  plan_key (c ∷ []) = c.key
  plan_key (c ∷ d ∷ ds) = c.key ++ (utf16 "|" ++ plan_key (d ∷ ds))

  unfoldable pub better_boundary_plan : List (Candidate E) → List (Candidate E) → List (Candidate E)
  better_boundary_plan left right =
      if coverage left == coverage right
      then (if eligible left == eligible right
          then (if version left == version right
              then (if text_leb (plan_key left) (plan_key right) then left else right)
              else (if ltb (version right) (version left) then left else right))
          else (if ltb (eligible right) (eligible left) then left else right))
      else (if ltb (coverage right) (coverage left) then left else right)

  -- `plans[previous + 1]` for the last `previous` whose candidate ends before `start`.
  unfoldable pub previous_plan :
      ℕ → List (Candidate E) → List (List (Candidate E)) → List (Candidate E)
  previous_plan start seen [] = []
  previous_plan start [] (plan ∷ plans) = plan
  previous_plan start (c ∷ seen) (plan ∷ plans) =
      if leb start c.end_index then previous_plan start seen plans else plan

  -- `plans[index] ?? []`
  abbrev pub newest : List (List (Candidate E)) → List (Candidate E)
  newest [] = []
  newest (plan ∷ plans) = plan

  -- The `for` loop, from the candidates seen so far and their plans.
  unfoldable pub plan_from :
      List (Candidate E) → List (List (Candidate E)) → List (Candidate E) → List (Candidate E)
  plan_from seen plans [] = newest plans
  plan_from seen plans (c ∷ rest) =
      plan_from (c ∷ seen)
        (better_boundary_plan (newest plans) (previous_plan c.start_index seen plans ++ (c ∷ []))
          ∷ plans)
        rest

  -- `left.startIndex - right.startIndex` as a comparator.
  abbrev pub starts_first : Candidate E → Candidate E → Bool
  starts_first left right = leb left.start_index right.start_index

  unfoldable pub select_boundary_intervals : List (Candidate E) → List (Candidate E)
  select_boundary_intervals candidates = sort starts_first (plan_from [] ([] ∷ []) candidates)
