-- ===== src/Segmentation/Segment/Cursors.antt =====
-- The version of a segment and its cursors go together.
use reflection.Common.{◌≡◌, ◌⊎◌, inl, inr, Bool, Option, none, some, List, arith, ℕ}
use reflection.Common.Result.{ok}
use reflection.Common.Text.{Text}
use reflection.Segmentation.Boundary.{v1, v2}
use reflection.Segmentation.History.{Indexed, Turn}
use reflection.Segmentation.Message.{ToolSource}
use reflection.Segmentation.Segment.{
  Segment, v1_segment, v2_segment, make_v1_segment, make_v2_segment,
}

-- Whole turns without cursors, or an exact span with both.
abbrev pub HasCursors : Segment → Type 0
HasCursors s =
    ((s.source_boundary_version ≡ v1)
      × (s.start_source_message_id ≡ none)
      × (s.end_source_message_id ≡ none))
    ⊎ ((s.source_boundary_version ≡ v2)
        × (first : Text) × (last : Text) × (s.start_source_message_id ≡ some first)
        × (s.end_source_message_id ≡ some last))

module _ (tools : ToolSource) where
  v1_segment-HasCursors :
      (first_turn last_turn : Option Turn) (first last : Option Indexed) (ordered : List Indexed)
      (turns : List Turn) (closed : Bool) (version : Option ℕ) (s : Segment)
      → v1_segment tools first_turn last_turn first last ordered turns closed version ≡ ok s
      → HasCursors s
  unfolding v1_segment
  v1_segment-HasCursors (some ft) (some lt) (some f) (some l) ordered turns closed version s e =
      inl (ground arith, ground arith, ground arith)
  v1_segment-HasCursors _ _ _ _ ordered turns closed version s e = cc

  v2_segment-HasCursors :
      (turn : Turn) (first last : Option Indexed) (ordered : List Indexed) (closed : Bool)
      (version : Option ℕ) (s : Segment)
      → v2_segment tools turn first last ordered closed version ≡ ok s
      → HasCursors s
  unfolding v2_segment
  v2_segment-HasCursors turn (some f) (some l) ordered closed version s e =
      inr (ground arith, f.message.id, l.message.id, ground arith, ground arith)
  v2_segment-HasCursors turn (some f) none ordered closed version s e = cc
  v2_segment-HasCursors turn none _ ordered closed version s e = cc

  pub make_v1_segment-HasCursors :
      (turns : List Turn) (closed : Bool) (version : Option ℕ) (s : Segment)
      → make_v1_segment tools turns closed version ≡ ok s
      → HasCursors s
  unfolding make_v1_segment
  make_v1_segment-HasCursors turns closed version s e =
      v1_segment-HasCursors _ _ _ _ _ turns closed version s e

  pub make_v2_segment-HasCursors :
      (turn : Turn) (items : List Indexed) (closed : Bool) (version : Option ℕ) (s : Segment)
      → make_v2_segment tools turn items closed version ≡ ok s
      → HasCursors s
  unfolding make_v2_segment
  make_v2_segment-HasCursors turn items closed version s e =
      v2_segment-HasCursors turn _ _ _ closed version s e
