-- ===== src/Segmentation/Run/Partition.antt =====
-- The segments of a conversation name each of its source messages once.
use mathlib.Core.List.{Perm, append_assoc, append-nil, map-append}
use mathlib.Core.List.Perm
use reflection.Common.{
  ℕ, zero, suc, ◌+◌, ◌≤◌, ◌≡◌, inl, inr, Bool, true, false, some, List, [], ◌∷◌, ◌++◌, arith, All,
  Bool-cases, Option-cases, ◌==◌, leb, last?, length, get_elem?, slice, take, take-slice, take-suc,
  take-length, get_elem?-none,
}
use reflection.Common.Result.{ok, >>=-eq-ok, ok-injective, throw_if->>-eq-ok}
use reflection.Common.Text.{Text}
use reflection.Segmentation.Boundary.{Boundary, bad_limit}
use reflection.Segmentation.Fragment.{fragment_turn}
use reflection.Segmentation.Fragment.Members.{Adds, fragment_turn-Adds}
use reflection.Segmentation.History.{Indexed, Turn, turn_messages, canonical_history}
use reflection.Segmentation.History.Turns.{canonical_history-SameMessages}
use reflection.Segmentation.Intervals.{Candidate}
use reflection.Segmentation.Message.{Message, ToolSource}
use reflection.Segmentation.Pack.{pack_turns}
use reflection.Segmentation.Pack.Limits.{
  members, members-append, turn_messages-append, ids-snoc, pack_turns-Packs,
}
use reflection.Segmentation.Reconcile.{
  Place, reconcile_v1_boundaries, resolve_v2_boundaries, reconcile_v2_boundaries,
}
use reflection.Segmentation.Reconcile.Ranges.{
  IsForward, IsWithin, resolve_v2_boundaries-All, reconcile_v1_boundaries-All,
  reconcile_v2_boundaries-All,
}
use reflection.Segmentation.Run.{
  Run, is_frozen, v1_at, v2_of_turn, closed_or_true, is_fragmented, flush_ordinary_turns,
  frozen_step, turn_step, walk, segment_messages,
}
use reflection.Segmentation.Segment.{Segment, ids, make_v1_segment}
use reflection.Segmentation.Segment.Members.{make_v1_segment-IsOfTurns}

v1_at_start :
    (cs : List (Candidate (Unit {0}))) (index : ℕ) (c : Candidate (Unit {0}))
    → v1_at cs index ≡ some c
    → All IsForward cs
    → (c.start_index ≡ index) × IsForward c
unfolding v1_at
v1_at_start [] index c e h = cc
v1_at_start (d ∷ cs) index c e (p, h) = elim (Option-cases (v1_at cs index)) [
  | inl gone ↦ ground (arith, rw (gone, v1_at) at e)
  | inr (found, at_index) ↦
      let same : found ≡ c = ground (arith, rw (at_index, v1_at) at e) in
      rw (← same) (v1_at_start cs index found at_index h)
]

v2_of_turn-All :
    (cs : List (Candidate Place)) (index : ℕ) → All IsWithin cs → All IsWithin (v2_of_turn cs index)
unfolding v2_of_turn
v2_of_turn-All [] index h = tt
v2_of_turn-All (c ∷ cs) index (p, h) = elim (Bool-cases (c.extra.turn_index == index)) [
  | inl e ↦ rw e (p, v2_of_turn-All cs index h)
  | inr e ↦ rw e (v2_of_turn-All cs index h)
]

added-Adds :
    (before added : List Segment) (items : List Indexed)
    → Perm (members added) (ids items)
    → Adds before items (before ++ added)
added-Adds before added items p = rw members-append (Perm.append_left (members before) p)

-- The segments and the ordinary turns of a run name the messages of the turns `taken`.
abbrev Covers : Run → List Turn → Type 0
Covers run taken =
    Perm (members run.segments ++ ids (turn_messages run.ordinary)) (ids (turn_messages taken))

module _ (tools : ToolSource) (max_chars : ℕ) where
  flush-Covers :
      (force_closed : Bool) (taken : List Turn) (run next : Run)
      → Covers run taken
      → flush_ordinary_turns tools max_chars force_closed run ≡ ok next
      → Perm (members next.segments) (ids (turn_messages taken))
  unfolding flush_ordinary_turns
  flush-Covers force_closed taken run next h e =
      let (segments, packed, e₁) =
        >>=-eq-ok (pack_turns tools max_chars run.ordinary force_closed run.segments) _ e in
      let (added, same, packs) =
        pack_turns-Packs tools max_chars run.ordinary force_closed run.segments segments packed in
      rw (← ok-injective _ next e₁) (
        rw (same, members-append)
          (Perm.trans (Perm.append_left (members run.segments) packs.members) h))

  -- Behind a flush, the segments of further turns cover those too.
  extend-Covers :
      (taken turns : List Turn) (segments after : List Segment)
      → Perm (members segments) (ids (turn_messages taken))
      → Adds segments (turn_messages turns) after
      → Covers (record { segments = after; ordinary = [] }) (taken ++ turns)
  extend-Covers taken turns segments after p q =
      rw (append-nil, turn_messages-append, map-append)
        (Perm.trans q (Perm.append_right (ids (turn_messages turns)) p))

  module _ (turns : List Turn) (selected_v1 : List (Candidate (Unit {0})))
      (resolved_v2 selected_v2 : List (Candidate Place)) (forward : All IsForward selected_v1)
      (within : All IsWithin selected_v2) where
    frozen_step-Covers :
        (c : Candidate (Unit {0})) (run next : Run)
        → IsForward c
        → Covers run (take c.start_index turns)
        → frozen_step tools max_chars turns selected_v1 resolved_v2 selected_v2 c run ≡ ok next
        → Covers next (take (suc c.end_index) turns)
    unfolding frozen_step
    frozen_step-Covers c run next f h e =
        let covered = slice c.start_index (suc c.end_index) turns in
        let (flushed, done, e₁) = >>=-eq-ok (flush_ordinary_turns tools max_chars true run) _ e in
        let (s, made, e₂) =
          >>=-eq-ok
            (make_v1_segment tools covered (closed_or_true (last? covered))
              c.boundary.projection_version)
            _ e₁ in
        let (named, _, _) = make_v1_segment-IsOfTurns tools covered _ _ s made in
        rw (← ok-injective _ next e₂) (
          rw (← take-slice c.start_index (suc c.end_index) turns (omega arith)) (
            extend-Covers (take c.start_index turns) covered flushed.segments
              (flushed.segments ++ s ∷ [])
              (flush-Covers true (take c.start_index turns) run flushed h done)
              (added-Adds flushed.segments (s ∷ []) (turn_messages covered) (rw append-nil named))))

    turn_step-Covers :
        (turn : Turn) (index : ℕ) (run next : Run)
        → get_elem? turns index ≡ some turn
        → Covers run (take index turns)
        → turn_step tools max_chars turns selected_v1 resolved_v2 selected_v2 turn index run
          ≡ ok next
        → Covers next (take (suc index) turns)
    unfolding turn_step
    turn_step-Covers turn index run next found h e =
        elim (Bool-cases (is_fragmented tools max_chars selected_v1 resolved_v2 turn index)) [
          | inl split ↦
              let e₀ = rw (split, turn_step) at e in
              let (flushed, done, e₁) =
                >>=-eq-ok (flush_ordinary_turns tools max_chars true run) _ e₀ in
              let (fragments, made, e₂) =
                >>=-eq-ok (fragment_turn tools max_chars turn (v2_of_turn selected_v2 index)) _
                  e₁ in
              let parts =
                fragment_turn-Adds tools max_chars turn _ fragments
                  (v2_of_turn-All selected_v2 index within) made in
              rw (← ok-injective _ next e₂) (
                rw (take-suc index turns turn found) (
                  extend-Covers (take index turns) (turn ∷ []) flushed.segments
                    (flushed.segments ++ fragments)
                    (flush-Covers true (take index turns) run flushed h done)
                    (added-Adds flushed.segments fragments (turn.messages ++ [])
                      (rw append-nil parts))))
          | inr plain ↦
              let e₀ = rw (plain, turn_step) at e in
              rw (← ok-injective _ next e₀) (
                rw (take-suc index turns turn found) (
                  rw (ids-snoc, ids-snoc, ← append_assoc)
                    (Perm.append_right (ids turn.messages) h)))
        ]

    walk-Covers :
        (fuel index : ℕ) (run last : Run)
        → length turns ≤ fuel + index
        → Covers run (take index turns)
        → walk tools max_chars turns selected_v1 resolved_v2 selected_v2 fuel index run ≡ ok last
        → Covers last turns
    unfolding walk
    walk-Covers zero index run last m h e =
        rw (← ok-injective run last e) (rw (take-length index turns (omega arith)) at h)
    walk-Covers (suc fuel) index run last m h e = elim (Option-cases (get_elem? turns index)) [
      | inl past ↦
          let e₀ = rw (past, walk) at e in
          rw (← ok-injective run last e₀)
            (rw (take-length index turns (get_elem?-none turns index past)) at h)
      | inr (turn, found) ↦ elim (Option-cases (v1_at selected_v1 index)) [
        | inl free ↦
            let e₀ = rw (found, walk, free) at e in
            let (next, done, rest) =
              >>=-eq-ok
                (turn_step tools max_chars turns selected_v1 resolved_v2 selected_v2 turn index run)
                _ e₀ in
            walk-Covers fuel (suc index) next last (omega arith)
              (turn_step-Covers turn index run next found h done) rest
        | inr (c, frozen) ↦
            let e₀ = rw (found, walk, frozen) at e in
            let (at_index, fwd) = v1_at_start selected_v1 index c frozen forward in
            let (next, done, rest) =
              >>=-eq-ok
                (frozen_step tools max_chars turns selected_v1 resolved_v2 selected_v2 c run) _
                e₀ in
            walk-Covers fuel (suc c.end_index) next last (omega arith)
              (frozen_step-Covers c run next fwd (rw at_index h) done) rest
      ]
    ]

-- Where `segmentMessages` returns, its segments together name the source messages of the
-- conversation, each as often as it occurs: no message is lost and none is in two segments,
-- whatever boundaries are committed.
pub segment_messages-perm :
    (tools : ToolSource) (locale_le : Text → Text → Bool) (messages : List Message) (max_chars : ℕ)
    (boundaries : List Boundary) (segments : List Segment)
    → segment_messages tools locale_le messages max_chars boundaries ≡ ok segments
    → Perm (members segments) (ids (canonical_history tools messages).messages)
unfolding segment_messages
segment_messages-perm tools locale_le messages max_chars boundaries segments e =
    let (_, e₁) = throw_if->>-eq-ok (leb max_chars 0) bad_limit _ e in
    let history = canonical_history tools messages in
    let (v1s, found, e₂) =
      >>=-eq-ok (reconcile_v1_boundaries locale_le history.turns boundaries) _ e₁ in
    let (resolved, made, e₃) = >>=-eq-ok (resolve_v2_boundaries history boundaries) _ e₂ in
    let v2s = reconcile_v2_boundaries locale_le (is_frozen v1s) resolved in
    let (run, walked, e₄) =
      >>=-eq-ok
        (walk tools max_chars history.turns v1s resolved v2s (length history.turns) 0
          (record { segments = []; ordinary = [] }))
        _ e₃ in
    let (last, flushed, e₅) = >>=-eq-ok (flush_ordinary_turns tools max_chars false run) _ e₄ in
    let covers =
      walk-Covers tools max_chars history.turns v1s resolved v2s
        (reconcile_v1_boundaries-All locale_le history.turns boundaries v1s found)
        (reconcile_v2_boundaries-All locale_le (is_frozen v1s) resolved
          (resolve_v2_boundaries-All history boundaries resolved made))
        (length history.turns) 0 _ run (omega arith) (Perm.refl []) walked in
    rw (← ok-injective last.segments segments e₅) (
      Perm.trans (flush-Covers tools max_chars false history.turns run last covers flushed)
        (Perm.map _ (canonical_history-SameMessages tools messages)))
