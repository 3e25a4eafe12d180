-- ===== src/Segmentation/Fragment/Ranges.antt =====
-- The slices of an oversized turn.
use mathlib.Core.List.{append_assoc, append-nil}
use reflection.Common.{
  ℕ, zero, suc, ◌≡◌, ◌⊎◌, ◌∙◌, refl, sym, ap, inl, inr, Bool, true, List, [], ◌∷◌, ◌++◌, length,
}
use reflection.Segmentation.History.{Indexed}
use reflection.Segmentation.Message.{ToolSource}
use reflection.Segmentation.Fragment.{
  Range, Action, cut, close, mark, extend, leftover, action, ranges, fragment_ranges,
}

-- The messages of the slices, in order.
abbrev pub range_items : List Range → List Indexed
range_items [] = []
range_items (r ∷ rs) = r.items ++ range_items rs

pub Action-cases : (a : Action) → (a ≡ cut) ⊎ ((a ≡ close) ⊎ ((a ≡ mark) ⊎ (a ≡ extend)))
Action-cases cut = inl refl
Action-cases close = inr (inl refl)
Action-cases mark = inr (inr (inl refl))
Action-cases extend = inr (inr (inr refl))

leftover-items : (xs : List Indexed) (closed : Bool) → range_items (leftover xs closed) ≡ xs
leftover-items [] closed = refl
leftover-items (x ∷ xs) closed = append-nil (x ∷ xs)

module _ (tools : ToolSource) (max_chars : ℕ) where
  -- The rounds of the loop.
  module _ (fuel : ℕ) (ready pending : List Indexed) (item : Indexed) (ahead : List Indexed)
      (closed : Bool) where
    pub ranges-cut :
        action tools max_chars ready pending item ≡ cut
        → ranges tools max_chars (suc fuel) ready pending (item ∷ ahead) closed
          ≡ record { items = ready; closed = true }
            ∷ ranges tools max_chars fuel [] [] (pending ++ item ∷ ahead) closed
    unfolding ranges
    ranges-cut e = rw (e, ranges)

    pub ranges-close :
        action tools max_chars ready pending item ≡ close
        → ranges tools max_chars (suc fuel) ready pending (item ∷ ahead) closed
          ≡ record { items = ready ++ (pending ++ item ∷ []); closed = true }
            ∷ ranges tools max_chars (suc fuel) [] [] ahead closed
    unfolding ranges
    ranges-close e = rw (e, ranges)

    pub ranges-mark :
        action tools max_chars ready pending item ≡ mark
        → ranges tools max_chars (suc fuel) ready pending (item ∷ ahead) closed
          ≡ ranges tools max_chars (suc fuel) (ready ++ (pending ++ item ∷ [])) [] ahead closed
    unfolding ranges
    ranges-mark e = rw (e, ranges)

    pub ranges-extend :
        action tools max_chars ready pending item ≡ extend
        → ranges tools max_chars (suc fuel) ready pending (item ∷ ahead) closed
          ≡ ranges tools max_chars (suc fuel) ready (pending ++ item ∷ []) ahead closed
    unfolding ranges
    ranges-extend e = rw (e, ranges)

  -- The slices are the source messages, cut in order: none is lost, repeated or moved.
  pub ranges-items :
      (fuel : ℕ) (ready pending ahead : List Indexed) (closed : Bool)
      → range_items (ranges tools max_chars fuel ready pending ahead closed)
        ≡ ready ++ (pending ++ ahead)
  unfolding ranges
  ranges-items fuel ready pending [] closed =
      leftover-items (ready ++ pending) closed
      ∙ ap (λ (t : List Indexed). ready ++ t) (sym (append-nil pending))
  ranges-items zero ready pending (item ∷ ahead) closed = leftover-items _ closed
  ranges-items (suc fuel) ready pending (item ∷ ahead) closed =
      elim (Action-cases (action tools max_chars ready pending item)) [
        | inl e ↦
            ap range_items (ranges-cut fuel ready pending item ahead closed e)
            ∙ ap (λ (t : List Indexed). ready ++ t)
                (ranges-items fuel [] [] (pending ++ item ∷ ahead) closed)
        | inr (inl e) ↦
            ap range_items (ranges-close fuel ready pending item ahead closed e)
            ∙ ap (λ (t : List Indexed). (ready ++ (pending ++ item ∷ [])) ++ t)
                (ranges-items (suc fuel) [] [] ahead closed)
            ∙ simp append_assoc
        | inr (inr (inl e)) ↦
            ap range_items (ranges-mark fuel ready pending item ahead closed e)
            ∙ ranges-items (suc fuel) (ready ++ (pending ++ item ∷ [])) [] ahead closed
            ∙ simp append_assoc
        | inr (inr (inr e)) ↦
            ap range_items (ranges-extend fuel ready pending item ahead closed e)
            ∙ ranges-items (suc fuel) ready (pending ++ item ∷ []) ahead closed
            ∙ simp append_assoc
      ]

  pub fragment_ranges-items :
      (items : List Indexed) (closed : Bool)
      → range_items (fragment_ranges tools max_chars items closed) ≡ items
  unfolding fragment_ranges
  fragment_ranges-items items closed = ranges-items (length items) [] [] items closed
