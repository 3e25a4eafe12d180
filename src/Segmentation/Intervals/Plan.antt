-- ===== src/Segmentation/Intervals/Plan.antt =====
-- The plans that may be made of the candidates seen so far (newest first), and the walk back to
-- the last candidate that ends before a start.
use reflection.Common.{
  ℕ, ◌≤◌, ◌<◌, ◌≡◌, inl, inr, List, [], ◌∷◌, ◌++◌, All, All-append, All-map, All-right, arith,
  Bool-cases, leb, leb→le, leb→lt,
}
use reflection.Segmentation.Intervals.{Candidate, previous_plan}
use reflection.Segmentation.Intervals.Score.{NoBetter}

-- A choice of some of the candidates, oldest first, each of which ends before the next one starts.
pub data Feasible {E : Type 0} : List (Candidate E) → List (Candidate E) → Type 0 where
  done : Feasible [] []
  skip : {c : Candidate E} {seen p : List (Candidate E)} → Feasible seen p → Feasible (c ∷ seen) p
  keep :
      {c : Candidate E} {seen q p : List (Candidate E)}
      → Feasible seen q
      → All (λ d. d.end_index < c.start_index) q
      → p ≡ q ++ c ∷ []
      → Feasible (c ∷ seen) p

module _ {E : Type 0} where
  -- Each candidate ends no earlier than those behind it.
  abbrev pub Descends : List (Candidate E) → Type 0
  Descends [] = Unit
  Descends (c ∷ seen) = All (λ d. d.end_index ≤ c.end_index) seen × Descends seen

  abbrev pub Best : List (Candidate E) → List (Candidate E) → Type 0
  Best seen p = Feasible seen p × ((q : List (Candidate E)) → Feasible seen q → NoBetter q p)

  -- Every entry of `plans` is the best plan of the candidates up to it.
  abbrev pub Table : List (Candidate E) → List (List (Candidate E)) → Type 0
  Table [] (p ∷ []) = Best [] p
  Table (c ∷ seen) (p ∷ plans) = Best (c ∷ seen) p × Table seen plans
  Table _ _ = ⊥

  pub Feasible-All :
      (P : Candidate E → Type 0) {seen p : List (Candidate E)}
      → Feasible seen p
      → All P seen
      → All P p
  Feasible-All P done h = tt
  Feasible-All P (skip f) (_, h) = Feasible-All P f h
  Feasible-All P (keep {c} {q} f _ e) (k, h) =
      rw e (All-append P q (c ∷ []) (Feasible-All P f h) (k, tt))

  nil_only : (q : List (Candidate E)) → Feasible [] q → NoBetter q []
  nil_only _ done = omega arith

  pub Best-nil : Best [] []
  Best-nil = (done, nil_only)

  -- What the walk finds: a feasible plan that ends before the start, and none such is better.
  abbrev BestBefore : ℕ → List (Candidate E) → List (Candidate E) → Type 0
  BestBefore start seen p =
      Feasible seen p
      × All (λ d. d.end_index < start) p
      × ((q : List (Candidate E))
          → Feasible seen q
          → All (λ d. d.end_index < start) q
          → NoBetter q p)

  -- A plan that ends before the start leaves out a candidate that does not.
  past :
      (start : ℕ) {c : Candidate E} {seen q : List (Candidate E)} (p : List (Candidate E))
      → start ≤ c.end_index
      → ((r : List (Candidate E))
          → Feasible seen r
          → All (λ d. d.end_index < start) r
          → NoBetter r p)
      → Feasible (c ∷ seen) q
      → All (λ d. d.end_index < start) q
      → NoBetter q p
  past start p late best (skip f) h = best _ f h
  past start p late best (keep {c} {q} f _ e) h =
      let last = All-right (λ d. d.end_index < start) q (c ∷ []) (rw e at h) in
      absurd (omega (arith, last.0))

  pub previous_plan-BestBefore :
      (start : ℕ) (seen : List (Candidate E)) (plans : List (List (Candidate E)))
      → Descends seen
      → Table seen plans
      → BestBefore start seen (previous_plan start seen plans)
  unfolding previous_plan
  previous_plan-BestBefore start [] [] d t = absurd t
  previous_plan-BestBefore start [] (p ∷ []) d (f, best) =
      (f, Feasible-All _ f tt, λ q g _. best q g)
  previous_plan-BestBefore start [] (p ∷ q ∷ plans) d t = absurd t
  previous_plan-BestBefore start (c ∷ seen) [] d t = absurd t
  previous_plan-BestBefore start (c ∷ seen) (p ∷ plans) (ends, d) ((f, best), t) =
      elim (Bool-cases (leb start c.end_index)) [
        | inl late ↦
            let (g, before, rest) = previous_plan-BestBefore start seen plans d t in
            rw late (skip g, before, λ q. past start _ (leb→le start c.end_index late) rest)
        | inr early ↦
            let last = leb→lt start c.end_index early in
            rw early (
              f,
              Feasible-All _ f (last, All-map seen (λ x k. omega arith) ends),
              λ q g _. best q g,
            )
      ]
