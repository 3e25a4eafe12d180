-- ===== src/Segmentation/Intervals/Score.antt =====
-- The order in which `better_boundary_plan` compares plans, its tie-break by key left out.
use reflection.Common.{◌+◌, ◌≤◌, ◌<◌, ◌≡◌, ◌⊎◌, List, [], ◌∷◌, ◌++◌, arith}
use reflection.Segmentation.Intervals.{Candidate, coverage, eligible, version, better_boundary_plan}

module _ {E : Type 0} where
  -- More coverage, then more eligible boundaries, then the greater sum of projection versions.
  abbrev pub NoBetter : List (Candidate E) → List (Candidate E) → Type 0
  NoBetter p q =
      (coverage p < coverage q)
      ⊎ ((coverage p ≡ coverage q)
          × ((eligible p < eligible q) ⊎ ((eligible p ≡ eligible q) × (version p ≤ version q))))

  pub NoBetter-refl : (p : List (Candidate E)) → NoBetter p p
  NoBetter-refl p = omega arith

  pub NoBetter-trans : (p q r : List (Candidate E)) → NoBetter p q → NoBetter q r → NoBetter p r
  NoBetter-trans p q r h k = omega arith

  pub coverage-append : (p q : List (Candidate E)) → coverage (p ++ q) ≡ coverage p + coverage q
  coverage-append [] q = omega arith
  coverage-append (c ∷ p) q = omega (arith, coverage-append p q)

  pub eligible-append : (p q : List (Candidate E)) → eligible (p ++ q) ≡ eligible p + eligible q
  eligible-append [] q = omega arith
  eligible-append (c ∷ p) q = omega (arith, eligible-append p q)

  pub version-append : (p q : List (Candidate E)) → version (p ++ q) ≡ version p + version q
  version-append [] q = omega arith
  version-append (c ∷ p) q = omega (arith, version-append p q)

  -- Scores add up, so a common last candidate keeps the order.
  pub NoBetter-append : (p q r : List (Candidate E)) → NoBetter p q → NoBetter (p ++ r) (q ++ r)
  NoBetter-append p q r h = omega (
    arith,
    coverage-append p r,
    coverage-append q r,
    eligible-append p r,
    eligible-append q r,
    version-append p r,
    version-append q r,
  )

  pub better-left : (p q : List (Candidate E)) → NoBetter p (better_boundary_plan p q)
  unfolding better_boundary_plan
  better-left p q = ground arith

  pub better-right : (p q : List (Candidate E)) → NoBetter q (better_boundary_plan p q)
  unfolding better_boundary_plan
  better-right p q = ground arith

  pub better_cases :
      (p q : List (Candidate E)) → (better_boundary_plan p q ≡ p) ⊎ (better_boundary_plan p q ≡ q)
  unfolding better_boundary_plan
  better_cases p q = ground arith
