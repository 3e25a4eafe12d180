-- ===== src/Common/Sort.antt =====
-- `Array.prototype.sort`, which is stable: `le a b` says that the comparator's result is not positive.
use Prim.Native.Nat.{ℕ, ◌≤◌}
use native.Mathlib.Nat.{le_trans}
use mathlib.Core.Path.{◌≡◌, refl}
use mathlib.Core.Bool.{Bool, true, false}
use mathlib.Core.List.{List, [], ◌∷◌, Perm}
use mathlib.Core.List.Perm
use reflection.Common.Lists.{All, All-map}
use reflection.Common.Tests.{Bool-cases, if◌then◌else◌}
use mathlib.Core.Logic.{inl, inr}

module _ {ℓ} {A : Type ℓ} (le : A → A → Bool) where
  insert : A → List A → List A
  insert a [] = a ∷ []
  insert a (x ∷ xs) = if le a x then a ∷ x ∷ xs else x ∷ insert a xs

  unfoldable pub sort : List A → List A
  unfolding insert
  sort [] = []
  sort (x ∷ xs) = insert x (sort xs)

  -- Each element is in order with the next one.
  abbrev pub IsChain : List A → Type 0
  IsChain [] = Unit
  IsChain (x ∷ []) = Unit
  IsChain (x ∷ y ∷ ys) = (le x y ≡ true) × IsChain (y ∷ ys)

  insert-perm : (a : A) (xs : List A) → Perm (insert a xs) (a ∷ xs)
  unfolding insert
  insert-perm a [] = Perm.refl (a ∷ [])
  insert-perm a (x ∷ xs) = elim (Bool-cases (le a x)) [
    | inl h ↦ rw h (Perm.refl (a ∷ x ∷ xs))
    | inr h ↦ rw h (Perm.trans (Perm.cons x (insert-perm a xs)) (Perm.swap a x xs))
  ]

  pub sort-perm : (xs : List A) → Perm (sort xs) xs
  unfolding sort
  sort-perm [] = Perm.refl []
  sort-perm (x ∷ xs) = Perm.trans (insert-perm x (sort xs)) (Perm.cons x (sort-perm xs))

  -- A list in order is left as it is.
  pub sort-eq_of_chain : (xs : List A) → IsChain xs → sort xs ≡ xs
  unfolding sort
  sort-eq_of_chain [] h = refl
  sort-eq_of_chain (x ∷ []) h = refl
  sort-eq_of_chain (x ∷ y ∷ ys) (p, h) = rw (sort-eq_of_chain (y ∷ ys) h) (rw p)

module _ {ℓ κ} {A : Type ℓ} (P : A → Type κ) (le : A → A → Bool) where
  insert-All : (a : A) (xs : List A) → P a → All P xs → All P (insert le a xs)
  unfolding insert
  insert-All a [] p h = (p, tt)
  insert-All a (x ∷ xs) p (q, h) = elim (Bool-cases (le a x)) [
    | inl e ↦ rw e (p, (q, h))
    | inr e ↦ rw e (q, insert-All a xs p h)
  ]

  pub sort-All : (xs : List A) → All P xs → All P (sort le xs)
  unfolding sort
  sort-All [] h = tt
  sort-All (x ∷ xs) (p, h) = insert-All x (sort le xs) p (sort-All xs h)

-- A list whose comparator refines an order of keys comes out in that order.
module _ {ℓ} {A : Type ℓ} (key : A → ℕ) where
  abbrev pub IsAscending : List A → Type 0
  IsAscending [] = Unit
  IsAscending (x ∷ xs) = All (λ y. key x ≤ key y) xs × IsAscending xs

  module _ (le : A → A → Bool) where
    module _ (below : (a b : A) → le a b ≡ true → key a ≤ key b)
        (above : (a b : A) → le a b ≡ false → key b ≤ key a) where
      insert-IsAscending : (a : A) (xs : List A) → IsAscending xs → IsAscending (insert le a xs)
      unfolding insert
      insert-IsAscending a [] h = (tt, tt)
      insert-IsAscending a (x ∷ xs) (p, h) = elim (Bool-cases (le a x)) [
        | inl e ↦
            let first = below a x e in
            rw e ((first, All-map xs (λ y k. le_trans first k) p), (p, h))
        | inr e ↦
            rw e
              (insert-All (λ y. key x ≤ key y) le a xs (above a x e) p, insert-IsAscending a xs h)
      ]

      pub sort-IsAscending : (xs : List A) → IsAscending (sort le xs)
      unfolding sort
      sort-IsAscending [] = tt
      sort-IsAscending (x ∷ xs) = insert-IsAscending x (sort le xs) (sort-IsAscending xs)
