-- ===== src/Segmentation/Segment/Members.antt =====
-- A segment names the messages that it was made of.
use mathlib.Core.List.{Perm}
use mathlib.Core.List.Perm
use reflection.Common.{ℕ, ◌≡◌, Bool, Option, none, some, List, arith}
use reflection.Common.Result.{ok}
use reflection.Common.Sort.{sort-perm}
use reflection.Segmentation.History.{Indexed, Turn, turn_messages}
use reflection.Segmentation.Message.{ToolSource}
use reflection.Segmentation.Segment.{
  Segment, ids, turns_weight, ordered_source_messages, v1_segment, v2_segment, make_v1_segment,
  make_v2_segment,
}

module _ (tools : ToolSource) where
  ordered-perm :
      (items : List Indexed) → Perm (ids (ordered_source_messages tools items)) (ids items)
  unfolding ordered_source_messages
  ordered-perm items = Perm.map _ (sort-perm _ items)

  -- What `makeV1Segment` keeps of its turns.
  abbrev pub IsOfTurns : List Turn → Bool → Segment → Type 0
  IsOfTurns turns closed s =
      Perm s.source_message_ids (ids (turn_messages turns))
      × (s.char_count ≡ turns_weight turns)
      × (s.closed ≡ closed)

  v1_segment_fields :
      (first_turn last_turn : Option Turn) (first last : Option Indexed) (ordered : List Indexed)
      (turns : List Turn) (closed : Bool) (version : Option ℕ) (s : Segment)
      → v1_segment tools first_turn last_turn first last ordered turns closed version ≡ ok s
      → (s.source_message_ids ≡ ids ordered)
        × (s.char_count ≡ turns_weight turns)
        × (s.closed ≡ closed)
  unfolding v1_segment
  v1_segment_fields (some ft) (some lt) (some f) (some l) ordered turns closed version s e =
      ground arith
  v1_segment_fields _ _ _ _ ordered turns closed version s e = cc

  pub make_v1_segment-IsOfTurns :
      (turns : List Turn) (closed : Bool) (version : Option ℕ) (s : Segment)
      → make_v1_segment tools turns closed version ≡ ok s
      → IsOfTurns turns closed s
  unfolding make_v1_segment
  make_v1_segment-IsOfTurns turns closed version s e =
      let (same_ids, weight, same_closed) = v1_segment_fields _ _ _ _ _ turns closed version s e in
      (rw same_ids (ordered-perm (turn_messages turns)), weight, same_closed)

  v2_segment-ids :
      (turn : Turn) (first last : Option Indexed) (ordered : List Indexed) (closed : Bool)
      (version : Option ℕ) (s : Segment)
      → v2_segment tools turn first last ordered closed version ≡ ok s
      → (s.source_message_ids ≡ ids ordered) × (s.closed ≡ closed)
  unfolding v2_segment
  v2_segment-ids turn (some f) (some l) ordered closed version s e = ground arith
  v2_segment-ids turn (some f) none ordered closed version s e = cc
  v2_segment-ids turn none _ ordered closed version s e = cc

  pub make_v2_segment-perm :
      (turn : Turn) (items : List Indexed) (closed : Bool) (version : Option ℕ) (s : Segment)
      → make_v2_segment tools turn items closed version ≡ ok s
      → Perm s.source_message_ids (ids items)
  unfolding make_v2_segment
  make_v2_segment-perm turn items closed version s e =
      rw (v2_segment-ids turn _ _ _ closed version s e).0 (ordered-perm items)
