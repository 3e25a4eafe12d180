-- ===== src/Segmentation/Run/Every.antt =====
-- What holds of every segment that the two makers return holds of every segment of a run.
use reflection.Common.{
  ℕ, zero, suc, ◌≡◌, inl, inr, Bool, true, false, Option, none, List, [], ◌∷◌, ◌++◌, All,
  All-append, Bool-cases, Option-cases, get_elem?, length, slice, leb, if◌then◌else◌,
}
use reflection.Common.Result.{ok, >>=-eq-ok, ok-injective, throw_if->>-eq-ok}
use reflection.Common.Text.{Text}
use reflection.Segmentation.Boundary.{Boundary}
use reflection.Segmentation.Fragment.{
  Range, push_ranges, fragment_source_range, fragment_from, disjoint_turn, fragment_items,
  fragment_turn, is_disjoint, is_empty, overlaps,
}
use reflection.Segmentation.History.{Indexed, Turn, canonical_history}
use reflection.Segmentation.Intervals.{Candidate}
use reflection.Segmentation.Message.{Message, ToolSource}
use reflection.Segmentation.Pack.{
  Packing, flush, is_full, take_turn, pack_turn, pack_all, pack_turns,
}
use reflection.Segmentation.Reconcile.{
  Place, reconcile_v1_boundaries, resolve_v2_boundaries, reconcile_v2_boundaries,
}
use reflection.Segmentation.Run.{
  Run, is_frozen, v1_at, v2_of_turn, is_fragmented, flush_ordinary_turns, frozen_step, turn_step,
  walk, segment_messages,
}
use reflection.Segmentation.Segment.{Segment, make_v1_segment, make_v2_segment}

-- Every segment that one of the two makers returns has the property.
abbrev pub Made : ToolSource → (Segment → Type 0) → Type 0
Made tools P =
    ((turns : List Turn) (closed : Bool) (version : Option ℕ) (s : Segment)
      → make_v1_segment tools turns closed version ≡ ok s
      → P s)
    × ((turn : Turn) (items : List Indexed) (closed : Bool) (version : Option ℕ) (s : Segment)
        → make_v2_segment tools turn items closed version ≡ ok s
        → P s)

module _ (tools : ToolSource) (max_chars : ℕ) (P : Segment → Type 0) (made : Made tools P) where
  All-snoc : (ss : List Segment) (s : Segment) → All P ss → P s → All P (ss ++ s ∷ [])
  All-snoc ss s h p = All-append P ss (s ∷ []) h (p, tt)

  flush-All :
      (closed : Bool) (p q : Packing)
      → All P p.segments
      → flush tools max_chars closed p ≡ ok q
      → All P q.segments
  unfolding flush
  flush-All closed p q h e =
      let (s, one, e₁) = >>=-eq-ok (make_v1_segment tools p.current closed none) _ e in
      rw (← ok-injective _ q e₁) (All-snoc p.segments s h (made.0 p.current closed none s one))

  flush_if-All :
      (b closed : Bool) (p q : Packing)
      → All P p.segments
      → (if b then flush tools max_chars closed p else ok p) ≡ ok q
      → All P q.segments
  flush_if-All true closed p q h e = flush-All closed p q h e
  flush_if-All false closed p q h e = rw (← ok-injective p q e) h

  pack_turn-All :
      (turn : Turn) (p q : Packing)
      → All P p.segments
      → pack_turn tools max_chars p turn ≡ ok q
      → All P q.segments
  unfolding pack_turn take_turn
  pack_turn-All turn p q h e =
      let (_, e₁) = throw_if->>-eq-ok _ _ _ e in
      let (room, flushed, e₂) =
        >>=-eq-ok (if is_full tools max_chars p turn then flush tools max_chars true p else ok p) _
          e₁ in
      flush_if-All _ true (take_turn tools max_chars turn room) q
        (flush_if-All (is_full tools max_chars p turn) true p room h flushed) e₂

  pack_all-All :
      (turns : List Turn) (p q : Packing)
      → All P p.segments
      → pack_all tools max_chars p turns ≡ ok q
      → All P q.segments
  unfolding pack_all
  pack_all-All [] p q h e = rw (← ok-injective p q e) h
  pack_all-All (turn ∷ turns) p q h e =
      let (next, one, e₁) = >>=-eq-ok (pack_turn tools max_chars p turn) _ e in
      pack_all-All turns next q (pack_turn-All turn p next h one) e₁

  pack_turns-All :
      (turns : List Turn) (closed : Bool) (before after : List Segment)
      → All P before
      → pack_turns tools max_chars turns closed before ≡ ok after
      → All P after
  unfolding pack_turns
  pack_turns-All turns closed before after h e =
      let (p, packed, e₁) = >>=-eq-ok (pack_all tools max_chars _ turns) _ e in
      let (q, flushed, e₂) =
        >>=-eq-ok (if is_empty p.current then ok p else flush tools max_chars closed p) _ e₁ in
      let packed_all = pack_all-All turns _ p h packed in
      rw (← ok-injective _ after e₂) (last_flush (is_empty p.current) p q packed_all flushed)
    where
      last_flush :
          (b : Bool) (p q : Packing)
          → All P p.segments
          → (if b then ok p else flush tools max_chars closed p) ≡ ok q
          → All P q.segments
      last_flush true p q h e = rw (← ok-injective p q e) h
      last_flush false p q h e = flush-All closed p q h e

  push_ranges-All :
      (turn : Turn) (rs : List Range) (before after : List Segment)
      → All P before
      → push_ranges tools max_chars turn rs before ≡ ok after
      → All P after
  unfolding push_ranges
  push_ranges-All turn [] before after h e = rw (← ok-injective before after e) h
  push_ranges-All turn (r ∷ rs) before after h e =
      let (s, one, e₁) = >>=-eq-ok (make_v2_segment tools turn r.items r.closed none) _ e in
      push_ranges-All turn rs (before ++ s ∷ []) after
        (All-snoc before s h (made.1 turn r.items r.closed none s one)) e₁

  fragment_from-All :
      (turn : Turn) (cursor : ℕ) (bs : List (Candidate Place)) (before after : List Segment)
      → All P before
      → fragment_from tools max_chars turn cursor bs before ≡ ok after
      → All P after
  unfolding fragment_from fragment_source_range
  fragment_from-All turn cursor [] before after h e = push_ranges-All turn _ before after h e
  fragment_from-All turn cursor (b ∷ bs) before after h e =
      let (first, filled, e₁) =
        >>=-eq-ok
          (fragment_source_range tools max_chars turn
            (slice cursor b.extra.start_offset turn.messages) true before)
          _ e in
      let (s, one, e₂) = >>=-eq-ok (make_v2_segment tools turn _ _ _) _ e₁ in
      let (_, e₃) =
        throw_if->>-eq-ok (overlaps tools max_chars bs (suc b.extra.end_offset)) _ _ e₂ in
      fragment_from-All turn (suc b.extra.end_offset) bs (first ++ s ∷ []) after
        (All-snoc first s (push_ranges-All turn _ before first h filled) (made.1 turn _ _ _ s one))
        e₃

  disjoint_turn-All :
      (turn : Turn) (bs : List (Candidate Place)) (after : List Segment)
      → disjoint_turn tools max_chars turn bs ≡ ok after
      → All P after
  unfolding disjoint_turn
  disjoint_turn-All turn [] after e =
      let (s, one, e₁) = >>=-eq-ok (make_v1_segment tools (turn ∷ []) turn.closed none) _ e in
      rw (← ok-injective _ after e₁) (made.0 (turn ∷ []) turn.closed none s one, tt)
  disjoint_turn-All turn (b ∷ bs) after e = cc

  fragment_items-All :
      (turn : Turn) (bs : List (Candidate Place)) (items : List Indexed) (after : List Segment)
      → fragment_items tools max_chars turn bs items ≡ ok after
      → All P after
  unfolding fragment_items
  fragment_items-All turn bs [] after e = cc
  fragment_items-All turn bs (first ∷ items) after e =
      elim (Bool-cases (is_disjoint tools max_chars first.source_index (first ∷ items))) [
        | inl apart ↦ disjoint_turn-All turn bs after (rw apart at e)
        | inr whole ↦ fragment_from-All turn 0 bs [] after tt (rw whole at e)
      ]

  fragment_turn-All :
      (turn : Turn) (bs : List (Candidate Place)) (after : List Segment)
      → fragment_turn tools max_chars turn bs ≡ ok after
      → All P after
  unfolding fragment_turn
  fragment_turn-All turn bs after e = fragment_items-All turn bs turn.messages after e

  flush_ordinary_turns-All :
      (closed : Bool) (r q : Run)
      → All P r.segments
      → flush_ordinary_turns tools max_chars closed r ≡ ok q
      → All P q.segments
  unfolding flush_ordinary_turns
  flush_ordinary_turns-All closed r q h e =
      let (ss, packed, e₁) =
        >>=-eq-ok (pack_turns tools max_chars r.ordinary closed r.segments) _ e in
      rw (← ok-injective _ q e₁) (pack_turns-All r.ordinary closed r.segments ss h packed)

  module _ (turns : List Turn) (selected_v1 : List (Candidate (Unit {0})))
      (resolved_v2 selected_v2 : List (Candidate Place)) where
    frozen_step-All :
        (c : Candidate (Unit {0})) (r q : Run)
        → All P r.segments
        → frozen_step tools max_chars turns selected_v1 resolved_v2 selected_v2 c r ≡ ok q
        → All P q.segments
    unfolding frozen_step
    frozen_step-All c r q h e =
        let (flushed, first, e₁) = >>=-eq-ok (flush_ordinary_turns tools max_chars true r) _ e in
        let (s, one, e₂) =
          >>=-eq-ok (make_v1_segment tools _ _ c.boundary.projection_version) _ e₁ in
        rw (← ok-injective _ q e₂) (
          All-snoc flushed.segments s (flush_ordinary_turns-All true r flushed h first)
            (made.0 _ _ _ s one))

    turn_step-All :
        (turn : Turn) (index : ℕ) (r q : Run)
        → All P r.segments
        → turn_step tools max_chars turns selected_v1 resolved_v2 selected_v2 turn index r ≡ ok q
        → All P q.segments
    unfolding turn_step
    turn_step-All turn index r q h e =
        elim (Bool-cases (is_fragmented tools max_chars selected_v1 resolved_v2 turn index)) [
          | inl yes_cut ↦
              let e₀ = rw yes_cut at e in
              let (flushed, first, e₁) =
                >>=-eq-ok (flush_ordinary_turns tools max_chars true r) _ e₀ in
              let (fragments, cuts, e₂) =
                >>=-eq-ok (fragment_turn tools max_chars turn (v2_of_turn selected_v2 index)) _
                  e₁ in
              rw (← ok-injective _ q e₂) (
                All-append P flushed.segments fragments
                  (flush_ordinary_turns-All true r flushed h first)
                  (fragment_turn-All turn _ fragments cuts))
          | inr whole ↦ let e₀ = rw whole at e in rw (← ok-injective _ q e₀) h
        ]

    walk-All :
        (fuel index : ℕ) (r q : Run)
        → All P r.segments
        → walk tools max_chars turns selected_v1 resolved_v2 selected_v2 fuel index r ≡ ok q
        → All P q.segments
    unfolding walk
    walk-All zero index r q h e = rw (← ok-injective r q e) h
    walk-All (suc fuel) index r q h e = elim (Option-cases (get_elem? turns index)) [
      | inl past ↦ let e₀ = rw (past, walk) at e in rw (← ok-injective r q e₀) h
      | inr (turn, found) ↦ elim (Option-cases (v1_at selected_v1 index)) [
        | inl free ↦
            let e₀ = rw (found, walk, free) at e in
            let (next, done, rest) =
              >>=-eq-ok
                (turn_step tools max_chars turns selected_v1 resolved_v2 selected_v2 turn index r) _
                e₀ in
            walk-All fuel (suc index) next q (turn_step-All turn index r next h done) rest
        | inr (c, frozen) ↦
            let e₀ = rw (found, walk, frozen) at e in
            let (next, done, rest) =
              >>=-eq-ok (frozen_step tools max_chars turns selected_v1 resolved_v2 selected_v2 c r)
                _ e₀ in
            walk-All fuel (suc c.end_index) next q (frozen_step-All c r next h done) rest
      ]
    ]

pub segment_messages-All :
    (tools : ToolSource) (locale_le : Text → Text → Bool) (messages : List Message) (max_chars : ℕ)
    (boundaries : List Boundary) (segments : List Segment) (P : Segment → Type 0)
    → Made tools P
    → segment_messages tools locale_le messages max_chars boundaries ≡ ok segments
    → All P segments
unfolding segment_messages
segment_messages-All tools locale_le messages max_chars boundaries segments P made e =
    let (_, e₁) = throw_if->>-eq-ok (leb max_chars 0) _ _ e in
    let history = canonical_history tools messages in
    let (v1s, found, e₂) =
      >>=-eq-ok (reconcile_v1_boundaries locale_le history.turns boundaries) _ e₁ in
    let (resolved, seen, e₃) = >>=-eq-ok (resolve_v2_boundaries history boundaries) _ e₂ in
    let v2s = reconcile_v2_boundaries locale_le (is_frozen v1s) resolved in
    let (run, walked, e₄) =
      >>=-eq-ok
        (walk tools max_chars history.turns v1s resolved v2s (length history.turns) 0
          (record { segments = []; ordinary = [] }))
        _ e₃ in
    let (last, flushed, e₅) = >>=-eq-ok (flush_ordinary_turns tools max_chars false run) _ e₄ in
    rw (← ok-injective last.segments segments e₅) (
      flush_ordinary_turns-All tools max_chars P made false run last
        (walk-All tools max_chars P made history.turns v1s resolved v2s (length history.turns) 0 _
          run tt walked)
        flushed)
