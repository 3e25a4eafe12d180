-- ===== src/Segmentation/Intervals/Members.antt =====
-- What holds of every candidate holds of the selected ones.

use reflection.Common.{ℕ, inl, inr, List, [], ◌∷◌, All, All-append, Bool-cases, leb}
use reflection.Common.Sort.{sort-All}
use reflection.Segmentation.Intervals.{
  Candidate, better_boundary_plan, previous_plan, newest, plan_from, starts_first,
  select_boundary_intervals,
}
use reflection.Segmentation.Intervals.Score.{better_cases}

module _ {E : Type 0} (P : Candidate E → Type 0) where
  previous_plan-All :
      (start : ℕ) (seen : List (Candidate E)) (plans : List (List (Candidate E)))
      → All (All P) plans
      → All P (previous_plan start seen plans)
  unfolding previous_plan
  previous_plan-All start seen [] h = tt
  previous_plan-All start [] (plan ∷ plans) (p, _) = p
  previous_plan-All start (c ∷ seen) (plan ∷ plans) (p, h) =
      elim (Bool-cases (leb start c.end_index)) [
        | inl e ↦ rw e (previous_plan-All start seen plans h)
        | inr e ↦ rw e p
      ]

  newest-All : (plans : List (List (Candidate E))) → All (All P) plans → All P (newest plans)
  newest-All [] h = tt
  newest-All (plan ∷ plans) (p, _) = p

  better-All : (p q : List (Candidate E)) → All P p → All P q → All P (better_boundary_plan p q)
  better-All p q hp hq = elim (better_cases p q) [ inl e ↦ rw e hp | inr e ↦ rw e hq ]

  plan_from-All :
      (seen : List (Candidate E)) (plans : List (List (Candidate E))) (rest : List (Candidate E))
      → All (All P) plans
      → All P rest
      → All P (plan_from seen plans rest)
  unfolding plan_from
  plan_from-All seen plans [] h _ = newest-All plans h
  plan_from-All seen plans (c ∷ rest) h (p, k) =
      plan_from-All (c ∷ seen) _ rest
        (
          better-All _ _ (newest-All plans h)
              (All-append P _ (c ∷ []) (previous_plan-All c.start_index seen plans h) (p, tt)),
          h,
        )
        k

  pub select_boundary_intervals-All :
      (candidates : List (Candidate E))
      → All P candidates
      → All P (select_boundary_intervals candidates)
  unfolding select_boundary_intervals
  select_boundary_intervals-All candidates h =
      sort-All P starts_first _ (plan_from-All [] ([] ∷ []) candidates (tt, tt) h)
