-- ===== src/Segmentation/Fragment/Members.antt =====
-- The segments of a fragmented turn name its messages.
use mathlib.Core.List.{Perm, append_assoc, append-nil, map-append}
use mathlib.Core.List.Perm
use reflection.Common.{
  ℕ, suc, ◌≤◌, ◌≡◌, inl, inr, Bool, true, false, none, List, [], ◌∷◌, ◌++◌, arith, All, Bool-cases,
  slice, drop, slice-drop,
}
use reflection.Common.Result.{ok, >>=-eq-ok, ok-injective, throw_if->>-eq-ok}
use reflection.Segmentation.Boundary.{overlap}
use reflection.Segmentation.Fragment.{
  Range, fragment_ranges, push_ranges, fragment_source_range, fragment_from, is_disjoint, overlaps,
  disjoint_turn, fragment_items, fragment_turn,
}
use reflection.Segmentation.Fragment.Ranges.{range_items, fragment_ranges-items}
use reflection.Segmentation.History.{Indexed, Turn}
use reflection.Segmentation.Intervals.{Candidate}
use reflection.Segmentation.Message.{ToolSource}
use reflection.Segmentation.Pack.Limits.{members, members-append}
use reflection.Segmentation.Reconcile.{Place}
use reflection.Segmentation.Reconcile.Ranges.{IsWithin}
use reflection.Segmentation.Segment.{Segment, ids, make_v1_segment, make_v2_segment}
use reflection.Segmentation.Segment.Members.{make_v1_segment-IsOfTurns, make_v2_segment-perm}

-- The segments `after` name what those `before` do, and the items.
abbrev pub Adds : List Segment → List Indexed → List Segment → Type 0
Adds before items after = Perm (members after) (members before ++ ids items)

Adds-snoc :
    (before : List Segment) (s : Segment) (items : List Indexed)
    → Perm s.source_message_ids (ids items)
    → Adds before items (before ++ s ∷ [])
Adds-snoc before s items p = rw (members-append, append-nil) (Perm.append_left (members before) p)

pub Adds-trans :
    (a b c : List Segment) (xs ys : List Indexed) → Adds a xs b → Adds b ys c → Adds a (xs ++ ys) c
Adds-trans a b c xs ys p q =
    rw (map-append, ← append_assoc) (Perm.trans q (Perm.append_right (ids ys) p))

module _ (tools : ToolSource) (max_chars : ℕ) where
  push_ranges-Adds :
      (turn : Turn) (rs : List Range) (before after : List Segment)
      → push_ranges tools max_chars turn rs before ≡ ok after
      → Adds before (range_items rs) after
  unfolding push_ranges
  push_ranges-Adds turn [] before after e =
      rw (← ok-injective before after e) (rw append-nil (Perm.refl (members before)))
  push_ranges-Adds turn (r ∷ rs) before after e =
      let (s, made, rest) = >>=-eq-ok (make_v2_segment tools turn r.items r.closed none) _ e in
      Adds-trans before (before ++ s ∷ []) after r.items (range_items rs)
        (Adds-snoc before s r.items (make_v2_segment-perm tools turn r.items r.closed none s made))
        (push_ranges-Adds turn rs (before ++ s ∷ []) after rest)

  fragment_source_range-Adds :
      (turn : Turn) (items : List Indexed) (closed : Bool) (before after : List Segment)
      → fragment_source_range tools max_chars turn items closed before ≡ ok after
      → Adds before items after
  unfolding fragment_source_range
  fragment_source_range-Adds turn items closed before after e =
      let p = push_ranges-Adds turn (fragment_ranges tools max_chars items closed) before after e in
      rw (fragment_ranges-items tools max_chars items closed) at p

  -- The boundaries start in order, from the cursor on.
  abbrev StartFrom : ℕ → List (Candidate Place) → Type 0
  StartFrom cursor [] = Unit
  StartFrom cursor (b ∷ bs) = cursor ≤ b.extra.start_offset

  StartFrom-of_overlaps :
      (cursor : ℕ) (bs : List (Candidate Place))
      → overlaps tools max_chars bs cursor ≡ false
      → StartFrom cursor bs
  StartFrom-of_overlaps cursor [] h = tt
  StartFrom-of_overlaps cursor (b ∷ bs) h = ground arith

  three_slices :
      (cursor from to : ℕ) (items : List Indexed)
      → cursor ≤ from
      → from ≤ to
      → slice cursor from items ++ (slice from (suc to) items ++ drop (suc to) items)
        ≡ drop cursor items
  three_slices cursor from to items h k =
      rw (slice-drop from (suc to) items (omega arith)) (slice-drop cursor from items h)

  fragment_from-Adds :
      (turn : Turn) (cursor : ℕ) (bs : List (Candidate Place)) (before after : List Segment)
      → All IsWithin bs
      → StartFrom cursor bs
      → fragment_from tools max_chars turn cursor bs before ≡ ok after
      → Adds before (drop cursor turn.messages) after
  unfolding fragment_from
  fragment_from-Adds turn cursor [] before after w h e =
      fragment_source_range-Adds turn (drop cursor turn.messages) turn.closed before after e
  fragment_from-Adds turn cursor (b ∷ bs) before after ((_, inner), w) h e =
      let from = b.extra.start_offset in
      let to = b.extra.end_offset in
      let (first, made, e₁) =
        >>=-eq-ok
          (fragment_source_range tools max_chars turn (slice cursor from turn.messages) true before)
          _ e in
      let (s, whole, e₂) =
        >>=-eq-ok (make_v2_segment tools turn (slice from (suc to) turn.messages) _ _) _ e₁ in
      let (fine, e₃) = throw_if->>-eq-ok (overlaps tools max_chars bs (suc to)) overlap _ e₂ in
      rw (← three_slices cursor from to turn.messages h inner) (
        Adds-trans before first after (slice cursor from turn.messages) _
          (fragment_source_range-Adds turn _ true before first made)
          (Adds-trans first (first ++ s ∷ []) after (slice from (suc to) turn.messages) _
            (Adds-snoc first s _ (make_v2_segment-perm tools turn _ _ _ s whole))
            (fragment_from-Adds turn (suc to) bs (first ++ s ∷ []) after w
              (StartFrom-of_overlaps (suc to) bs fine) e₃)))

  StartFrom-zero : (bs : List (Candidate Place)) → StartFrom 0 bs
  StartFrom-zero [] = tt
  StartFrom-zero (b ∷ bs) = omega arith

  disjoint_turn-Adds :
      (turn : Turn) (bs : List (Candidate Place)) (after : List Segment)
      → disjoint_turn tools max_chars turn bs ≡ ok after
      → Adds [] turn.messages after
  unfolding disjoint_turn
  disjoint_turn-Adds turn [] after e =
      let (s, made, e₁) = >>=-eq-ok (make_v1_segment tools (turn ∷ []) turn.closed none) _ e in
      let (named, _, _) = make_v1_segment-IsOfTurns tools (turn ∷ []) turn.closed none s made in
      rw (← ok-injective _ after e₁) (rw append-nil (rw append-nil at named))
  disjoint_turn-Adds turn (b ∷ bs) after e = cc

  fragment_items-Adds :
      (turn : Turn) (bs : List (Candidate Place)) (items : List Indexed) (after : List Segment)
      → All IsWithin bs
      → fragment_items tools max_chars turn bs items ≡ ok after
      → Adds [] turn.messages after
  unfolding fragment_items
  fragment_items-Adds turn bs [] after w e = cc
  fragment_items-Adds turn bs (first ∷ items) after w e =
      elim (Bool-cases (is_disjoint tools max_chars first.source_index (first ∷ items))) [
        | inl apart ↦ disjoint_turn-Adds turn bs after (rw apart at e)
        | inr whole ↦ fragment_from-Adds turn 0 bs [] after w (StartFrom-zero bs) (rw whole at e)
      ]

  -- Where `fragmentTurn` returns, its segments name the messages of the turn, each as often.
  pub fragment_turn-Adds :
      (turn : Turn) (bs : List (Candidate Place)) (after : List Segment)
      → All IsWithin bs
      → fragment_turn tools max_chars turn bs ≡ ok after
      → Adds [] turn.messages after
  unfolding fragment_turn
  fragment_turn-Adds turn bs after w e = fragment_items-Adds turn bs turn.messages after w e
