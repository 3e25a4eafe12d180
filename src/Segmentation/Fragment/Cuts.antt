-- ===== src/Segmentation/Fragment/Cuts.antt =====
-- Where the slices of an oversized turn are cut.
use mathlib.Core.List.{append_assoc, append-nil}
use reflection.Common.{
  ℕ, zero, suc, ◌+◌, ◌≤◌, ◌≡◌, ◌≢◌, ◌⊎◌, refl, inl, inr, Bool, true, false, List, [], ◌∷◌, ◌++◌,
  arith, All, All-append, length, length-append,
}
use reflection.Segmentation.History.{Indexed}
use reflection.Segmentation.Message.{ToolSource}
use reflection.Segmentation.Fragment.{
  Range, cut, close, mark, extend, is_legal_active_turn_cut, leftover, action, ranges,
  fragment_ranges,
}
use reflection.Segmentation.Segment.{items_weight}
use reflection.Segmentation.Weight.{Weight, exceeds, reaches}
use reflection.Segmentation.Fragment.Ranges.{
  range_items, Action-cases, ranges-cut, ranges-close, ranges-mark, ranges-extend, ranges-items,
}

-- The last message is a legal cut.
abbrev pub EndsLegally : List Indexed → Type 0
EndsLegally [] = ⊥
EndsLegally (x ∷ []) = is_legal_active_turn_cut x ≡ true
EndsLegally (x ∷ y ∷ ys) = EndsLegally (y ∷ ys)

-- No message but the last is a legal cut.
abbrev pub NoInnerCut : List Indexed → Type 0
NoInnerCut [] = Unit
NoInnerCut (x ∷ []) = Unit
NoInnerCut (x ∷ y ∷ ys) = (is_legal_active_turn_cut x ≡ false) × NoInnerCut (y ∷ ys)

EndsLegally-snoc :
    (xs : List Indexed) (x : Indexed)
    → is_legal_active_turn_cut x ≡ true
    → EndsLegally (xs ++ x ∷ [])
EndsLegally-snoc [] x h = h
EndsLegally-snoc (y ∷ []) x h = h
EndsLegally-snoc (y ∷ z ∷ zs) x h = EndsLegally-snoc (z ∷ zs) x h

NoInnerCut-snoc :
    (xs : List Indexed) (x : Indexed)
    → All (λ y. is_legal_active_turn_cut y ≡ false) xs
    → NoInnerCut (xs ++ x ∷ [])
NoInnerCut-snoc [] x h = tt
NoInnerCut-snoc (y ∷ []) x h = h
NoInnerCut-snoc (y ∷ z ∷ zs) x (p, h) = (p, NoInnerCut-snoc (z ∷ zs) x h)

NoInnerCut-of_All :
    (xs : List Indexed) → All (λ y. is_legal_active_turn_cut y ≡ false) xs → NoInnerCut xs
NoInnerCut-of_All [] h = tt
NoInnerCut-of_All (y ∷ []) h = tt
NoInnerCut-of_All (y ∷ z ∷ zs) (p, h) = (p, NoInnerCut-of_All (z ∷ zs) h)

module _ (tools : ToolSource) (max_chars : ℕ) where
  -- A slice above the limit cannot be split at a legal cut.
  abbrev pub Unsplittable : List Indexed → Type 0
  Unsplittable items = (exceeds (items_weight tools items) max_chars ≡ false) ⊎ NoInnerCut items

  -- What holds of the messages up to the last legal cut, and of those behind it.
  abbrev Settled : List Indexed → List Indexed → Type 0
  Settled [] pending = Unit
  Settled (r ∷ rs) pending =
      (exceeds (items_weight tools (r ∷ rs)) max_chars ≡ false)
      × (exceeds (items_weight tools ((r ∷ rs) ++ pending)) max_chars ≡ false)
      × EndsLegally (r ∷ rs)

  abbrev Plain : List Indexed → Type 0
  Plain = All (λ item. is_legal_active_turn_cut item ≡ false)

  cut_facts :
      (ready pending : List Indexed) (item : Indexed)
      → action tools max_chars ready pending item ≡ cut
      → ready ≢ []
  unfolding action
  cut_facts ready pending item e h = ground arith

  close_legal :
      (ready pending : List Indexed) (item : Indexed)
      → action tools max_chars ready pending item ≡ close
      → is_legal_active_turn_cut item ≡ true
  unfolding action
  close_legal ready pending item e = ground arith

  close_within :
      (r : Indexed) (rs pending : List Indexed) (item : Indexed)
      → action tools max_chars (r ∷ rs) pending item ≡ close
      → exceeds (items_weight tools ((r ∷ rs) ++ (pending ++ item ∷ []))) max_chars ≡ false
  unfolding action
  close_within r rs pending item e = ground arith

  extend_plain :
      (ready pending : List Indexed) (item : Indexed)
      → action tools max_chars ready pending item ≡ extend
      → is_legal_active_turn_cut item ≡ false
  unfolding action
  extend_plain ready pending item e = ground arith

  extend_within :
      (r : Indexed) (rs pending : List Indexed) (item : Indexed)
      → action tools max_chars (r ∷ rs) pending item ≡ extend
      → exceeds (items_weight tools ((r ∷ rs) ++ (pending ++ item ∷ []))) max_chars ≡ false
  unfolding action
  extend_within r rs pending item e = ground arith

  reaches-of-exceeds : (w : Weight) → reaches w max_chars ≡ false → exceeds w max_chars ≡ false
  reaches-of-exceeds w h = ground arith

  mark_facts :
      (ready pending : List Indexed) (item : Indexed)
      → action tools max_chars ready pending item ≡ mark
      → (is_legal_active_turn_cut item ≡ true)
        × (exceeds (items_weight tools (ready ++ (pending ++ item ∷ []))) max_chars ≡ false)
  unfolding action
  mark_facts ready pending item e =
      ground (arith, reaches-of-exceeds (items_weight tools (ready ++ (pending ++ item ∷ []))))

  -- Of each slice: it is not empty, and it fits the limit or has no legal cut inside.
  abbrev pub IsCut : Range → Type 0
  IsCut r = (r.items ≢ []) × Unsplittable r.items

  -- Every slice but the last ends at a legal cut and is closed.
  abbrev pub EndLegally : List Range → Type 0
  EndLegally [] = Unit
  EndLegally (r ∷ []) = Unit
  EndLegally (r ∷ s ∷ rs) = EndsLegally r.items × (r.closed ≡ true) × EndLegally (s ∷ rs)

  EndLegally-cons :
      (r : Range) (rs : List Range)
      → EndsLegally r.items
      → r.closed ≡ true
      → EndLegally rs
      → EndLegally (r ∷ rs)
  EndLegally-cons r [] e c h = tt
  EndLegally-cons r (s ∷ rs) e c h = (e, c, h)

  EndsLegally-append :
      (xs ys : List Indexed) (x : Indexed)
      → is_legal_active_turn_cut x ≡ true
      → EndsLegally (xs ++ (ys ++ x ∷ []))
  EndsLegally-append xs ys x h = rw (← append_assoc) (EndsLegally-snoc (xs ++ ys) x h)

  abbrev IsResult : List Range → Type 0
  IsResult rs = All IsCut rs × EndLegally rs

  leftover-IsResult :
      (ready pending : List Indexed) (closed : Bool)
      → Settled ready pending
      → Plain pending
      → IsResult (leftover (ready ++ pending) closed)
  leftover-IsResult [] [] closed s p = (tt, tt)
  leftover-IsResult [] (x ∷ xs) closed s p =
      ((((λ e. cc), inr (NoInnerCut-of_All (x ∷ xs) p)), tt), tt)
  leftover-IsResult (r ∷ rs) pending closed s p = ((((λ e. cc), inl s.1), tt), tt)

  Settled-cut :
      (ready pending : List Indexed)
      → ready ≢ []
      → Settled ready pending
      → Unsplittable ready × EndsLegally ready
  Settled-cut [] pending h s = absurd (h refl)
  Settled-cut (r ∷ rs) pending h s = (inl s.0, s.2)

  length-pos : (xs : List Indexed) → xs ≢ [] → 1 ≤ length xs
  length-pos [] h = absurd (h refl)
  length-pos (x ∷ xs) h = omega arith

  Settled-mark :
      (ready pending : List Indexed) (item : Indexed)
      → action tools max_chars ready pending item ≡ mark
      → Settled (ready ++ (pending ++ item ∷ [])) []
  Settled-mark ready pending item e =
      let (legal, within) = mark_facts ready pending item e in
      build (ready ++ (pending ++ item ∷ [])) within (EndsLegally-append ready pending item legal)
    where
      build :
          (xs : List Indexed)
          → exceeds (items_weight tools xs) max_chars ≡ false
          → EndsLegally xs
          → Settled xs []
      build [] w l = tt
      build (x ∷ xs) w l = (w, rw append-nil w, l)

  Settled-extend :
      (ready pending : List Indexed) (item : Indexed)
      → Settled ready pending
      → action tools max_chars ready pending item ≡ extend
      → Settled ready (pending ++ item ∷ [])
  Settled-extend [] pending item s e = tt
  Settled-extend (r ∷ rs) pending item s e = (s.0, extend_within r rs pending item e, s.2)

  close-IsCut :
      (ready pending : List Indexed) (item : Indexed)
      → Plain pending
      → action tools max_chars ready pending item ≡ close
      → IsCut (record { items = ready ++ (pending ++ item ∷ []); closed = true })
  close-IsCut [] [] item p e = ((λ h. cc), inr tt)
  close-IsCut [] (x ∷ pending) item p e = ((λ h. cc), inr (NoInnerCut-snoc (x ∷ pending) item p))
  close-IsCut (r ∷ rs) pending item p e = ((λ h. cc), inl (close_within r rs pending item e))

  ranges-IsResult :
      (fuel : ℕ) (ready pending ahead : List Indexed) (closed : Bool)
      → length ready + length pending + length ahead ≤ fuel
      → Settled ready pending
      → Plain pending
      → IsResult (ranges tools max_chars fuel ready pending ahead closed)
  ranges-IsResult fuel ready pending [] closed m s p =
      unfold ranges in leftover-IsResult ready pending closed s p
  ranges-IsResult zero ready pending (item ∷ ahead) closed m s p = absurd (omega arith)
  ranges-IsResult (suc fuel) ready pending (item ∷ ahead) closed m s p =
      elim (Action-cases (action tools max_chars ready pending item)) [
        | inl e ↦
            let full = cut_facts ready pending item e in
            let (whole, legal) = Settled-cut ready pending full s in
            let (cuts, ends) =
              ranges-IsResult fuel [] [] (pending ++ item ∷ ahead) closed
                (omega (arith, length-append pending (item ∷ ahead), length-pos ready full)) tt
                tt in
            rw (ranges-cut tools max_chars fuel ready pending item ahead closed e) (
              ((full, whole), cuts),
              EndLegally-cons (record { items = ready; closed = true }) _ legal refl ends,
            )
        | inr (inl e) ↦
            let (cuts, ends) = ranges-IsResult (suc fuel) [] [] ahead closed (omega arith) tt tt in
            rw (ranges-close tools max_chars fuel ready pending item ahead closed e) (
              (close-IsCut ready pending item p e, cuts),
              EndLegally-cons (record { items = ready ++ (pending ++ item ∷ []); closed = true }) _
                  (EndsLegally-append ready pending item (close_legal ready pending item e)) refl
                  ends,
            )
        | inr (inr (inl e)) ↦
            rw (ranges-mark tools max_chars fuel ready pending item ahead closed e) (
              ranges-IsResult (suc fuel) (ready ++ (pending ++ item ∷ [])) [] ahead closed
                (omega (
                  arith,
                  length-append ready (pending ++ item ∷ []),
                  length-append pending (item ∷ []),
                ))
                (Settled-mark ready pending item e) tt)
        | inr (inr (inr e)) ↦
            rw (ranges-extend tools max_chars fuel ready pending item ahead closed e) (
              ranges-IsResult (suc fuel) ready (pending ++ item ∷ []) ahead closed
                (omega (arith, length-append pending (item ∷ [])))
                (Settled-extend ready pending item s e)
                (All-append (λ x. is_legal_active_turn_cut x ≡ false) pending (item ∷ []) p
                  (extend_plain ready pending item e, tt)))
      ]

  -- Of the slices that `fragmentSourceRange` makes segments of: together they are the source
  -- messages in order; none is empty; each one that weighs more than the limit has no completed
  -- assistant message before its last message, so it cannot be split; every slice but the last
  -- is closed and ends at a completed assistant message.
  pub fragment_ranges-IsResult :
      (items : List Indexed) (closed : Bool)
      → (range_items (fragment_ranges tools max_chars items closed) ≡ items)
        × All IsCut (fragment_ranges tools max_chars items closed)
        × EndLegally (fragment_ranges tools max_chars items closed)
  unfolding fragment_ranges
  fragment_ranges-IsResult items closed =
      let (cuts, ends) = ranges-IsResult (length items) [] [] items closed (omega arith) tt tt in
      (ranges-items tools max_chars (length items) [] [] items closed, cuts, ends)
