-- ===== src/Segmentation/Run.antt =====
-- packages/shared/src/segmentation.ts: `segmentMessages`.
pub mod Partition
pub mod Every
use reflection.Common.{
  ℕ, zero, suc, ◌+◌, Bool, true, false, not, ◌&&◌, ◌||◌, Option, none, some, List, [], ◌∷◌, ◌++◌,
  leb, ◌==◌, any, get_elem?, last?, length, slice, if◌then◌else◌,
}
use reflection.Common.Result.{Result, ok, err, throw_if, ◌>>=◌, ◌>>◌}
use reflection.Common.Text.{Text}
use reflection.Segmentation.Boundary.{Boundary, SegmentError, bad_limit}
use reflection.Segmentation.Fragment.{fragment_turn}
use reflection.Segmentation.History.{Turn, History, canonical_history}
use reflection.Segmentation.Intervals.{Candidate}
use reflection.Segmentation.Message.{Message, ToolSource}
use reflection.Segmentation.Pack.{pack_turns}
use reflection.Segmentation.Reconcile.{
  Place, reconcile_v1_boundaries, resolve_v2_boundaries, reconcile_v2_boundaries,
}
use reflection.Segmentation.Segment.{Segment, make_v1_segment}
use reflection.Segmentation.Weight.{exceeds}

-- `frozenTurns.has(index)`
unfoldable pub is_frozen : List (Candidate (Unit {0})) → ℕ → Bool
is_frozen selected index =
    any (λ (c : Candidate (Unit {0})). leb c.start_index index && leb index c.end_index) selected

-- `selectedV1ByStart.get(index)`: a later boundary replaces an earlier one.
unfoldable pub v1_at : List (Candidate (Unit {0})) → ℕ → Option (Candidate (Unit {0}))
v1_at [] index = none
v1_at (c ∷ cs) index = elim (v1_at cs index) [
  | some found ↦ some found
  | none ↦ if c.start_index == index then some c else none
]

-- `selectedV2ByTurn.get(index) ?? []`
unfoldable pub v2_of_turn : List (Candidate Place) → ℕ → List (Candidate Place)
v2_of_turn [] index = []
v2_of_turn (c ∷ cs) index =
    if c.extra.turn_index == index then c ∷ v2_of_turn cs index else v2_of_turn cs index

-- `segments` and `ordinaryTurns`
pub record Run : Type 0 where
  pub segments : List Segment
  pub ordinary : List Turn

abbrev closed_or_true : Option Turn → Bool
closed_or_true none = true
closed_or_true (some turn) = turn.closed

module _ (tools : ToolSource) (max_chars : ℕ) where
  -- `fragmentedTurns.has(turn.index)`
  unfoldable pub is_fragmented :
      List (Candidate (Unit {0})) → List (Candidate Place) → Turn → ℕ → Bool
  is_fragmented selected_v1 resolved_v2 turn index =
      any
        (λ (c : Candidate Place).
          c.extra.turn_index == index && not (is_frozen selected_v1 c.extra.turn_index))
        resolved_v2
      || (not (is_frozen selected_v1 index) && exceeds turn.char_count max_chars)

  unfoldable pub flush_ordinary_turns : Bool → Run → Result SegmentError Run
  flush_ordinary_turns force_closed run = do
    segments ← pack_turns tools max_chars run.ordinary force_closed run.segments
    ok (record { segments = segments; ordinary = [] })

  module _ (turns : List Turn) (selected_v1 : List (Candidate (Unit {0})))
      (resolved_v2 selected_v2 : List (Candidate Place)) where
    -- A selected v1 boundary starts at the turn.
    unfoldable pub frozen_step : Candidate (Unit {0}) → Run → Result SegmentError Run
    frozen_step c run = do
      flushed ← flush_ordinary_turns true run
      let covered = slice c.start_index (suc c.end_index) turns
      segment ←
          make_v1_segment tools covered (closed_or_true (last? covered))
            c.boundary.projection_version
      ok (record { segments = flushed.segments ++ segment ∷ []; ordinary = [] })

    unfoldable pub turn_step : Turn → ℕ → Run → Result SegmentError Run
    unfolding is_fragmented is_frozen v2_of_turn flush_ordinary_turns
    turn_step turn index run =
        if is_fragmented selected_v1 resolved_v2 turn index
        then (do
          flushed ← flush_ordinary_turns true run
          fragments ← fragment_turn tools max_chars turn (v2_of_turn selected_v2 index)
          ok (record { segments = flushed.segments ++ fragments; ordinary = [] }))
        else ok (record run { ordinary = run.ordinary ++ turn ∷ [] })

    -- The `while` loop. Each round goes on by one turn at least, so the number of turns is fuel
    -- enough.
    unfoldable pub walk : ℕ → ℕ → Run → Result SegmentError Run
    unfolding frozen_step turn_step v1_at
    walk zero index run = ok run
    walk (suc fuel) index run = elim (get_elem? turns index) [
      | none ↦ ok run
      | some turn ↦ elim (v1_at selected_v1 index) [
        | some c ↦ frozen_step c run >>= (λ next. walk fuel (suc c.end_index) next)
        | none ↦ turn_step turn index run >>= (λ next. walk fuel (suc index) next)
      ]
    ]

unfoldable pub segment_messages :
    ToolSource
    → (Text → Text → Bool)
    → List Message
    → ℕ
    → List Boundary
    → Result SegmentError (List Segment)
unfolding walk is_frozen flush_ordinary_turns
segment_messages tools locale_le messages max_chars boundaries = do
  throw_if (leb max_chars 0) bad_limit
  let history = canonical_history tools messages
  selected_v1 ← reconcile_v1_boundaries locale_le history.turns boundaries
  resolved_v2 ← resolve_v2_boundaries history boundaries
  let selected_v2 = reconcile_v2_boundaries locale_le (is_frozen selected_v1) resolved_v2
  run ←
      walk tools max_chars history.turns selected_v1 resolved_v2 selected_v2 (length history.turns)
        0 (record { segments = []; ordinary = [] })
  last ← flush_ordinary_turns tools max_chars false run
  ok last.segments
