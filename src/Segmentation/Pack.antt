-- ===== src/Segmentation/Pack.antt =====
-- packages/shared/src/segmentation.ts: `packTurns`.
pub mod Limits
use reflection.Common.{
  ℕ, Bool, true, false, not, ◌&&◌, none, List, [], ◌∷◌, ◌++◌, ◌==◌, if◌then◌else◌,
}
use reflection.Common.Result.{Result, ok, err, throw_if, ◌>>=◌, ◌>>◌}
use reflection.Segmentation.Boundary.{SegmentError, oversized_turn}
use reflection.Segmentation.Fragment.{is_empty}
use reflection.Segmentation.History.{Turn}
use reflection.Segmentation.Message.{ToolSource}
use reflection.Segmentation.Segment.{Segment, make_v1_segment}
use reflection.Segmentation.Weight.{Weight, finite, infinite, add, exceeds}

-- The array `segments`, `current` and `currentChars`.
pub record Packing : Type 0 where
  pub segments : List Segment
  pub current : List Turn
  pub current_chars : Weight

abbrev equals : Weight → ℕ → Bool
equals (finite a) n = a == n
equals infinite n = false

module _ (tools : ToolSource) (max_chars : ℕ) where
  -- `segments.push(makeV1Segment(current, closed)); current = []; currentChars = 0;`
  unfoldable pub flush : Bool → Packing → Result SegmentError Packing
  flush closed p = do
    segment ← make_v1_segment tools p.current closed none
    ok (record { segments = p.segments ++ segment ∷ []; current = []; current_chars = finite 0 })

  -- The turn does not fit behind `current`.
  unfoldable pub is_full : Packing → Turn → Bool
  is_full p turn =
      not (is_empty p.current) && exceeds (add p.current_chars turn.char_count) max_chars

  unfoldable pub take_turn : Turn → Packing → Packing
  take_turn turn p = record p {
    current = p.current ++ turn ∷ [];
    current_chars = add p.current_chars turn.char_count;
  }

  unfoldable pub pack_turn : Packing → Turn → Result SegmentError Packing
  unfolding flush is_full take_turn
  pack_turn p turn = do
    throw_if (exceeds turn.char_count max_chars) oversized_turn
    room ← if is_full p turn then flush true p else ok p
    if equals (take_turn turn room).current_chars max_chars
        then flush true (take_turn turn room)
        else ok (take_turn turn room)

  unfoldable pub pack_all : Packing → List Turn → Result SegmentError Packing
  pack_all p [] = ok p
  pack_all p (turn ∷ turns) = do next ← pack_turn p turn; pack_all next turns

  unfoldable pub pack_turns : List Turn → Bool → List Segment → Result SegmentError (List Segment)
  unfolding pack_all
  pack_turns turns force_closed segments = do
    p ← pack_all (record { segments = segments; current = []; current_chars = finite 0 }) turns
    last ← if is_empty p.current then ok p else flush force_closed p
    ok last.segments
