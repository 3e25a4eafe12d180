-- ===== src/Segmentation/Fragment.antt =====
-- packages/shared/src/segmentation.ts: `fragmentSourceRange` and `fragmentTurn`.
-- The loop's three indexes cut the array `sourceMessages` into lists: `ready` is
-- `[start, lastLegalCut]` (empty where `lastLegalCut < start`), `pending` the messages behind it and
-- before `index`, and `ahead` those from `index` on.
pub mod Ranges
pub mod Cuts
pub mod Members
use reflection.Common.{
  ℕ, zero, suc, ◌+◌, ◌-◌, Bool, true, false, not, ◌&&◌, ◌||◌, Option, none, some, List, [], ◌∷◌,
  ◌++◌, leb, ltb, ◌==◌, length, last?, slice, drop, if◌then◌else◌,
}
use reflection.Common.Result.{Result, ok, err, throw_if, ◌>>=◌, ◌>>◌}
use reflection.Segmentation.Boundary.{SegmentError, empty_turn, not_contiguous, overlap}
use reflection.Segmentation.History.{Indexed, Turn}
use reflection.Segmentation.Intervals.{Candidate}
use reflection.Segmentation.Message.{ToolSource, is_completed_assistant_message}
use reflection.Segmentation.Reconcile.{Place}
use reflection.Segmentation.Segment.{Segment, items_weight, make_v1_segment, make_v2_segment}
use reflection.Segmentation.Weight.{Weight, exceeds, reaches}

-- A slice of the source messages, and whether its segment is closed.
pub record Range : Type 0 where
  pub items : List Indexed
  pub closed : Bool

abbrev pub is_empty {ℓ} : {A : Type ℓ} → List A → Bool
is_empty [] = true
is_empty (x ∷ xs) = false

abbrev pub is_legal_active_turn_cut : Indexed → Bool
is_legal_active_turn_cut item = is_completed_assistant_message item.message

-- What a round of the loop does with `sourceMessages[index]`.
pub data Action : Type 0 where
  cut close mark extend : Action

abbrev pub leftover : List Indexed → Bool → List Range
leftover [] closed = []
leftover (item ∷ items) closed = record { items = item ∷ items; closed = closed } ∷ []

module _ (tools : ToolSource) (max_chars : ℕ) where
  unfoldable pub action : List Indexed → List Indexed → Indexed → Action
  action ready pending item =
      if not (is_empty (ready ++ pending))
        && exceeds (items_weight tools (ready ++ (pending ++ item ∷ []))) max_chars
        && not (is_empty ready)
      then cut
      else if reaches (items_weight tools (ready ++ (pending ++ item ∷ []))) max_chars
          && is_legal_active_turn_cut item
      then close
      else if is_legal_active_turn_cut item
      then mark
      else extend

  -- The slices that the loop turns into segments. A cut starts again behind the cut message, so
  -- the fuel counts the cuts; more messages than cuts are never needed.
  unfoldable pub ranges : ℕ → List Indexed → List Indexed → List Indexed → Bool → List Range
  ranges fuel ready pending [] force_closed = leftover (ready ++ pending) force_closed
  ranges zero ready pending (item ∷ ahead) force_closed =
      leftover (ready ++ (pending ++ item ∷ ahead)) force_closed
  ranges (suc fuel) ready pending (item ∷ ahead) force_closed = elim (action ready pending item) [
    | cut ↦
        record { items = ready; closed = true }
        ∷ ranges fuel [] [] (pending ++ item ∷ ahead) force_closed
    | close ↦
        record { items = ready ++ (pending ++ item ∷ []); closed = true }
        ∷ ranges (suc fuel) [] [] ahead force_closed
    | mark ↦ ranges (suc fuel) (ready ++ (pending ++ item ∷ [])) [] ahead force_closed
    | extend ↦ ranges (suc fuel) ready (pending ++ item ∷ []) ahead force_closed
  ]

  unfoldable pub fragment_ranges : List Indexed → Bool → List Range
  fragment_ranges items force_closed = ranges (length items) [] [] items force_closed

  unfoldable pub push_ranges : Turn → List Range → List Segment → Result SegmentError (List Segment)
  push_ranges turn [] segments = ok segments
  push_ranges turn (range ∷ rest) segments = do
    segment ← make_v2_segment tools turn range.items range.closed none
    push_ranges turn rest (segments ++ segment ∷ [])

  unfoldable pub fragment_source_range :
      Turn → List Indexed → Bool → List Segment → Result SegmentError (List Segment)
  unfolding push_ranges
  fragment_source_range turn items force_closed segments =
      push_ranges turn (fragment_ranges items force_closed) segments

  abbrev completed_last : Option Indexed → Bool
  completed_last none = false
  completed_last (some item) = is_completed_assistant_message item.message

  -- `next && next.startOffset < cursor`
  abbrev pub overlaps : List (Candidate Place) → ℕ → Bool
  overlaps [] cursor = false
  overlaps (next ∷ rest) cursor = ltb next.extra.start_offset cursor

  -- The `forEach` over the boundaries, and the call behind it.
  unfoldable pub fragment_from :
      Turn → ℕ → List (Candidate Place) → List Segment → Result SegmentError (List Segment)
  unfolding fragment_source_range
  fragment_from turn cursor [] segments =
      fragment_source_range turn (drop cursor turn.messages) turn.closed segments
  fragment_from turn cursor (boundary ∷ boundaries) segments = do
    before ←
        fragment_source_range turn (slice cursor boundary.extra.start_offset turn.messages) true
          segments
    let items = slice boundary.extra.start_offset (suc boundary.extra.end_offset) turn.messages
    segment ←
        make_v2_segment tools turn items
          (turn.closed
            || ltb boundary.extra.end_offset (length turn.messages - 1)
            || completed_last (last? items))
          boundary.boundary.projection_version
    throw_if (overlaps boundaries (suc boundary.extra.end_offset)) overlap
    fragment_from turn (suc boundary.extra.end_offset) boundaries (before ++ segment ∷ [])

  -- `message.sourceIndex !== firstSourceIndex + index` for some message
  abbrev pub is_disjoint : ℕ → List Indexed → Bool
  is_disjoint expected [] = false
  is_disjoint expected (item ∷ items) =
      not (item.source_index == expected) || is_disjoint (suc expected) items

  unfoldable pub disjoint_turn : Turn → List (Candidate Place) → Result SegmentError (List Segment)
  disjoint_turn turn [] = do
    segment ← make_v1_segment tools (turn ∷ []) turn.closed none
    ok (segment ∷ [])
  disjoint_turn turn (boundary ∷ boundaries) = err not_contiguous

  unfoldable pub fragment_items :
      Turn → List (Candidate Place) → List Indexed → Result SegmentError (List Segment)
  unfolding fragment_from disjoint_turn
  fragment_items turn boundaries [] = err empty_turn
  fragment_items turn boundaries (first ∷ items) =
      if is_disjoint first.source_index (first ∷ items)
      then disjoint_turn turn boundaries
      else fragment_from turn 0 boundaries []

  unfoldable pub fragment_turn : Turn → List (Candidate Place) → Result SegmentError (List Segment)
  unfolding fragment_items
  fragment_turn turn boundaries = fragment_items turn boundaries turn.messages
