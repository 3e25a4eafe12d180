-- ===== src/Segmentation/Intervals/Optimal.antt =====
-- `select_boundary_intervals` chooses a best plan, in the order of the history.
use mathlib.Core.List.{reverse, reverse_aux}
use reflection.Common.{
  refl, le→leb, ◌≤◌, ◌<◌, inl, inr, List, [], ◌∷◌, ◌++◌, All, All-append, arith,
}
use reflection.Common.Sort.{IsAscending, IsChain, sort-eq_of_chain}
use reflection.Segmentation.Intervals.{
  Candidate, newest, previous_plan, better_boundary_plan, plan_from, starts_first,
  select_boundary_intervals,
}
use reflection.Segmentation.Intervals.Score.{
  NoBetter, NoBetter-trans, NoBetter-append, better-left, better-right, better_cases,
}
use reflection.Segmentation.Intervals.Plan.{
  Feasible, Feasible-All, done, skip, keep, Descends, Best, Table, Best-nil,
  previous_plan-BestBefore,
}

module _ {E : Type 0} where
  newest-Best :
      (seen : List (Candidate E)) (plans : List (List (Candidate E)))
      → Table seen plans
      → Best seen (newest plans)
  newest-Best [] [] t = absurd t
  newest-Best [] (p ∷ []) t = t
  newest-Best [] (p ∷ q ∷ plans) t = absurd t
  newest-Best (c ∷ seen) [] t = absurd t
  newest-Best (c ∷ seen) (p ∷ plans) t = t.0

  -- One round of the loop: the better of leaving the candidate out and of taking it.
  round :
      (c : Candidate E) (seen : List (Candidate E)) (plans : List (List (Candidate E)))
      → Descends seen
      → Table seen plans
      → Best
          (c ∷ seen)
          (better_boundary_plan (newest plans) (previous_plan c.start_index seen plans ++ (c ∷ [])))
  round c seen plans d t = (feasible, best)
    where
      without : List (Candidate E)
      without = newest plans

      before : List (Candidate E)
      before = previous_plan c.start_index seen plans

      feasible : Feasible (c ∷ seen) (better_boundary_plan without (before ++ (c ∷ [])))
      feasible = elim (better_cases without (before ++ (c ∷ []))) [
        | inl e ↦ rw e (skip (newest-Best seen plans t).0)
        | inr e ↦
            let (f, ends, _) = previous_plan-BestBefore c.start_index seen plans d t in
            rw e (keep f ends refl)
      ]

      best :
          (q : List (Candidate E))
          → Feasible (c ∷ seen) q
          → NoBetter q (better_boundary_plan without (before ++ (c ∷ [])))
      best q (skip f) =
          NoBetter-trans q without _ ((newest-Best seen plans t).1 q f)
            (better-left without (before ++ (c ∷ [])))
      best q (keep {q = r} f ends e) =
          let (_, _, most) = previous_plan-BestBefore c.start_index seen plans d t in
          rw e (
            NoBetter-trans (r ++ (c ∷ [])) (before ++ (c ∷ [])) _
              (NoBetter-append r before (c ∷ []) (most r f ends))
              (better-right without (before ++ (c ∷ []))))

  plan_from-Best :
      (seen : List (Candidate E)) (plans : List (List (Candidate E))) (rest : List (Candidate E))
      → Descends seen
      → Table seen plans
      → All (λ c. All (λ d. d.end_index ≤ c.end_index) seen) rest
      → IsAscending (λ c. c.end_index) rest
      → Best (reverse_aux rest seen) (plan_from seen plans rest)
  unfolding plan_from
  plan_from-Best seen plans [] d t _ _ = newest-Best seen plans t
  plan_from-Best seen plans (c ∷ rest) d t (ends, late) (first, asc) =
      plan_from-Best (c ∷ seen) _ rest (ends, d) (round c seen plans d t, t) (push rest first late)
        asc
    where
      push :
          (xs : List (Candidate E))
          → All (λ x. c.end_index ≤ x.end_index) xs
          → All (λ x. All (λ d. d.end_index ≤ x.end_index) seen) xs
          → All (λ x. All (λ d. d.end_index ≤ x.end_index) (c ∷ seen)) xs
      push [] h k = tt
      push (x ∷ xs) (h, hs) (k, ks) = ((h, k), push xs hs ks)

  -- Each boundary ends before every later one starts.
  abbrev pub InOrder : List (Candidate E) → Type 0
  InOrder [] = Unit
  InOrder (c ∷ cs) = All (λ d. c.end_index < d.start_index) cs × InOrder cs

  InOrder-append :
      (p : List (Candidate E)) (c : Candidate E)
      → InOrder p
      → All (λ d. d.end_index < c.start_index) p
      → InOrder (p ++ c ∷ [])
  InOrder-append [] c _ _ = (tt, tt)
  InOrder-append (d ∷ p) c (later, h) (first, ends) = (
    All-append (λ x. d.end_index < x.start_index) p (c ∷ []) later (first, tt),
    InOrder-append p c h ends,
  )

  pub Feasible-InOrder : {seen p : List (Candidate E)} → Feasible seen p → InOrder p
  Feasible-InOrder done = tt
  Feasible-InOrder (skip f) = Feasible-InOrder f
  Feasible-InOrder (keep {c} {q} f ends e) = rw e (InOrder-append q c (Feasible-InOrder f) ends)

  InOrder-IsChain :
      (p : List (Candidate E))
      → All (λ c. c.start_index ≤ c.end_index) p
      → InOrder p
      → IsChain starts_first p
  InOrder-IsChain [] _ _ = tt
  InOrder-IsChain (c ∷ []) _ _ = tt
  InOrder-IsChain (c ∷ d ∷ p) (w, ws) ((e, _), h) =
      (le→leb c.start_index d.start_index (omega arith), InOrder-IsChain (d ∷ p) ws h)

  All-reverse_aux :
      (P : Candidate E → Type 0) (xs ys : List (Candidate E))
      → All P xs
      → All P ys
      → All P (reverse_aux xs ys)
  All-reverse_aux P [] ys _ k = k
  All-reverse_aux P (x ∷ xs) ys (p, h) k = All-reverse_aux P xs (x ∷ ys) h (p, k)

  All-nil : (xs : List (Candidate E)) → All (λ _. Unit {0}) xs
  All-nil [] = tt
  All-nil (x ∷ xs) = (tt, All-nil xs)

  -- Of candidates in the order of their ends, each of which starts no later than it ends, the
  -- selection is a choice in which each boundary ends before the next one starts, and no such
  -- choice covers more, or as much with more eligible boundaries, or as much of both with a
  -- greater sum of projection versions.
  pub select_boundary_intervals-Best :
      (candidates : List (Candidate E))
      → IsAscending (λ c. c.end_index) candidates
      → All (λ c. c.start_index ≤ c.end_index) candidates
      → Best (reverse candidates) (select_boundary_intervals candidates)
        × InOrder (select_boundary_intervals candidates)
  unfolding select_boundary_intervals
  select_boundary_intervals-Best candidates asc widths =
      let best = plan_from-Best [] ([] ∷ []) candidates tt Best-nil (All-nil candidates) asc in
      let ordered = Feasible-InOrder best.0 in
      let chain =
        InOrder-IsChain _
          (Feasible-All (λ c. c.start_index ≤ c.end_index) best.0
            (All-reverse_aux (λ c. c.start_index ≤ c.end_index) candidates [] widths tt))
          ordered in
      rw (sort-eq_of_chain starts_first _ chain) (best, ordered)
