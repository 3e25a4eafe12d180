-- ===== src/Segmentation/Boundary.antt =====
-- packages/shared/src/segmentation.ts: the committed boundaries, the errors that segmenting throws,
-- and `boundaryVersion`. A boundary comes from stored JSON, so the three fields that the function
-- tests at run time hold any value.
use reflection.Common.{
  ℕ, Bool, true, false, Option, ◌&&◌, ◌||◌, not, leb, ◌==◌, any, all, if◌then◌else◌,
}
use reflection.Common.{[], ◌∷◌}
use reflection.Common.Text.{Text, text_eq}
use reflection.Common.Result.{Result, ok, err, throw_if, ◌>>◌}

pub data SegmentError : Type 0 where
  v1_with_cursors unsupported_version v2_without_cursors v2_across_turns : SegmentError
  ambiguous out_of_order leaves_turn unmatched : SegmentError
  empty_segment empty_turn not_contiguous overlap oversized_turn bad_limit : SegmentError

pub data Raw : Type 0 where
  undefined null other : Raw
  number : ℕ → Raw
  string : Text → Raw

pub record Boundary : Type 0 where
  pub id : Option Text
  pub start_user_message_id : Text
  pub end_user_message_id : Text
  pub projection_version : Option ℕ
  pub source_eligible : Option Bool
  pub source_boundary_version : Raw
  pub start_source_message_id : Raw
  pub end_source_message_id : Raw

-- The code units that `String.prototype.trim` removes.
is_space : ℕ → Bool
is_space c =
    any (λ s. c == s)
      (0x20 ∷ 0xa0 ∷ 0x1680 ∷ 0x2028 ∷ 0x2029 ∷ 0x202f ∷ 0x205f ∷ 0x3000 ∷ 0xfeff ∷ [])
    || (leb 9 c && leb c 13)
    || (leb 0x2000 c && leb c 0x200a)

-- `text.trim().length === 0`
unfoldable pub is_blank : Text → Bool
unfolding is_space
is_blank t = all is_space t

-- `value !== undefined && value !== null`
is_given : Raw → Bool
is_given undefined = false
is_given null = false
is_given _ = true

-- `typeof value !== "string" || value.trim().length === 0`
lacks_text : Raw → Bool
lacks_text (string t) = is_blank t
lacks_text _ = true

pub data Version : Type 0 where
  v1 v2 : Version

v1_version : Boundary → Result SegmentError Version
v1_version b = do
  throw_if (is_given b.start_source_message_id) v1_with_cursors
  throw_if (is_given b.end_source_message_id) v1_with_cursors
  ok v1

v2_version : Boundary → Result SegmentError Version
v2_version b = do
  throw_if (lacks_text b.start_source_message_id || lacks_text b.end_source_message_id)
      v2_without_cursors
  throw_if (not (text_eq b.start_user_message_id b.end_user_message_id)) v2_across_turns
  ok v2

dispatch : Boundary → Raw → Result SegmentError Version
dispatch b undefined = v1_version b
dispatch b (number n) =
    if n == 1 then v1_version b else if n == 2 then v2_version b else err unsupported_version
dispatch b _ = err unsupported_version

unfoldable pub boundary_version : Boundary → Result SegmentError Version
unfolding dispatch v1_version v2_version is_given lacks_text is_blank
boundary_version b = dispatch b b.source_boundary_version

-- The text of a cursor that `boundary_version` has tested.
abbrev pub cursor_text : Raw → Text
cursor_text (string t) = t
cursor_text _ = []
