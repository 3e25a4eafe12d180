-- ===== src/Segmentation/Segment.antt =====
-- packages/shared/src/segmentation.ts: the segments, the messages that a segment submits, with
-- their fallback to tool activity within a budget, and `makeV1Segment` and `makeV2Segment`.
pub mod Members
pub mod Cursors
use reflection.Common.{
  ℕ, ◌+◌, ◌-◌, Bool, true, false, not, ◌&&◌, ◌||◌, Option, none, some, List, [], ◌∷◌, ◌++◌, leb,
  any, length, map, last?, if◌then◌else◌,
}
use reflection.Common.Result.{Result, ok, err, ◌>>=◌}
use reflection.Common.Sort.{sort}
use reflection.Common.Text.{Text, utf16}
use reflection.Segmentation.Boundary.{SegmentError, empty_segment, Version, v1, v2, is_blank}
use reflection.Segmentation.History.{Indexed, Turn, turn_messages}
use reflection.Segmentation.Message
use reflection.Segmentation.Message.{
  Message, Part, PartKind, Role, ToolSource, attachment_text, text_of, is_model_visible_part,
  is_model_visible_message, is_projection_loss_warning_message, model_visible_char_weight_of,
}
use reflection.Segmentation.Weight.{Weight, finite, add}

pub record ReflectionMessage : Type 0 where
  pub role : Role
  pub text : Text

pub record Segment : Type 0 where
  pub start_user_message_id : Text
  pub end_user_message_id : Text
  pub source_boundary_version : Version
  pub start_source_message_id : Option Text
  pub end_source_message_id : Option Text
  pub start_message_id : Text
  pub end_message_id : Text
  pub source_message_ids : List Text
  pub char_count : Weight
  pub closed : Bool
  pub messages : List ReflectionMessage
  pub projection_version : Option ℕ

-- `ToolSourceBudget`
pub record Budget : Type 0 where
  pub remaining_chars : ℕ
  pub truncated : Bool

abbrev pub tool_source_truncation : Text
tool_source_truncation = 10 ∷ utf16 "[Tool activity truncated]"

abbrev pub tool_source_char_limit : ℕ
tool_source_char_limit = 20000

-- `TOOL_SOURCE_CHAR_LIMIT - TOOL_SOURCE_TRUNCATION.length`
abbrev pub max_complete_tool_source_chars : ℕ
max_complete_tool_source_chars = tool_source_char_limit - length tool_source_truncation

-- `xs[0]`
abbrev pub head? {ℓ} : {A : Type ℓ} → List A → Option A
head? [] = none
head? (x ∷ xs) = some x

abbrev pub ids : List Indexed → List Text
ids items = map (λ (item : Indexed). item.message.id) items

abbrev pub turns_weight : List Turn → Weight
turns_weight [] = finite 0
turns_weight (turn ∷ turns) = add turn.char_count (turns_weight turns)

module _ (tools : ToolSource) where
  truncated_tool_source_text : Part → ℕ → Text
  truncated_tool_source_text part remaining =
      (if leb (length (tools.omitted part)) remaining then tools.omitted part else [])
      ++ tool_source_truncation

  tool_text : Part → Budget → Text × Budget
  unfolding truncated_tool_source_text
  tool_text part budget =
      if budget.truncated
      then ([], budget)
      else if leb (length (tools.rendered part)) budget.remaining_chars
      then (
        tools.rendered part,
        record budget { remaining_chars = budget.remaining_chars - length (tools.rendered part) },
      )
      else (
        truncated_tool_source_text part budget.remaining_chars,
        record { remaining_chars = 0; truncated = true },
      )

  -- The text of a visible part, and the budget behind it.
  fallback_part : Part → PartKind → Budget → Text × Budget
  unfolding tool_text
  fallback_part part PartKind.file budget = (attachment_text part, budget)
  fallback_part part PartKind.tool budget = tool_text part budget
  fallback_part part _ budget = ([], budget)

  fallback_parts : Message → List Part → Budget → Text × Budget
  unfolding fallback_part
  fallback_parts message [] budget = ([], budget)
  fallback_parts message (part ∷ parts) budget =
      let (here, budget') =
        (if is_model_visible_part message part
          then fallback_part part part.kind budget
          else ([], budget)) in
      let (later, budget'') = fallback_parts message parts budget' in (here ++ later, budget'')

  unfoldable pub reflection_text_of : Message → Budget → Text × Budget
  unfolding fallback_parts
  reflection_text_of message budget =
      if is_projection_loss_warning_message message
      then ([], budget)
      else if not (is_model_visible_message message)
      then ([], budget)
      else fallback_parts message message.parts budget

  unfoldable pub fallback_messages : List Indexed → Budget → List ReflectionMessage
  unfolding reflection_text_of
  fallback_messages [] budget = []
  fallback_messages (item ∷ items) budget =
      let (text, budget') = reflection_text_of item.message budget in
      record { role = item.message.role; text = text } ∷ fallback_messages items budget'

  abbrev pub source_order : Indexed → Indexed → Bool
  source_order left right = leb left.source_index right.source_index

  unfoldable pub ordered_source_messages : List Indexed → List Indexed
  ordered_source_messages = sort source_order

  abbrev pub text_message : Indexed → ReflectionMessage
  text_message item = record { role = item.message.role; text = text_of item.message }

  abbrev pub has_text : ReflectionMessage → Bool
  has_text message = not (is_blank message.text)

  abbrev pub full_budget : Budget
  full_budget = record { remaining_chars = max_complete_tool_source_chars; truncated = false }

  -- The messages, and `usedToolFallback`.
  unfoldable pub reflection_messages_with_metadata : List Indexed → List ReflectionMessage × Bool
  unfolding fallback_messages ordered_source_messages
  reflection_messages_with_metadata items =
      let ordered = ordered_source_messages items in
      let texts = map text_message ordered in
      let messages = fallback_messages ordered full_budget in
      if any has_text texts then (texts, false) else (messages, any has_text messages)

  -- `(projectionVersion ?? 1) >= 2 || usedToolFallback`, as the field that it adds.
  upgraded : Option ℕ → Bool → Option ℕ
  upgraded none fallback = if fallback then some 2 else none
  upgraded (some n) fallback = if leb 2 n || fallback then some 2 else none

  abbrev pub items_weight : List Indexed → Weight
  items_weight [] = finite 0
  items_weight (item ∷ items) =
      add (model_visible_char_weight_of tools item.message) (items_weight items)

  v1_segment :
      Option Turn
      → Option Turn
      → Option Indexed
      → Option Indexed
      → List Indexed
      → List Turn
      → Bool
      → Option ℕ
      → Result SegmentError Segment
  unfolding upgraded
  v1_segment (some first_turn) (some last_turn) (some first) (some last) ordered turns closed
        version =
      let (messages, fallback) = reflection_messages_with_metadata ordered in
      ok (record {
        start_user_message_id = first_turn.user_message_id;
        end_user_message_id = last_turn.user_message_id;
        source_boundary_version = v1;
        start_source_message_id = none;
        end_source_message_id = none;
        start_message_id = first.message.id;
        end_message_id = last.message.id;
        source_message_ids = ids ordered;
        char_count = turns_weight turns;
        closed = closed;
        messages = messages;
        projection_version = upgraded version fallback;
      })
  v1_segment _ _ _ _ ordered turns closed version = err empty_segment

  unfoldable pub make_v1_segment : List Turn → Bool → Option ℕ → Result SegmentError Segment
  unfolding v1_segment ordered_source_messages reflection_messages_with_metadata
  make_v1_segment turns closed version =
      let ordered = ordered_source_messages (turn_messages turns) in
      v1_segment (head? turns) (last? turns) (head? ordered) (last? ordered) ordered turns closed
        version

  v2_segment :
      Turn
      → Option Indexed
      → Option Indexed
      → List Indexed
      → Bool
      → Option ℕ
      → Result SegmentError Segment
  unfolding upgraded
  v2_segment turn (some first) (some last) ordered closed version =
      let (messages, fallback) = reflection_messages_with_metadata ordered in
      ok (record {
        start_user_message_id = turn.user_message_id;
        end_user_message_id = turn.user_message_id;
        source_boundary_version = v2;
        start_source_message_id = some first.message.id;
        end_source_message_id = some last.message.id;
        start_message_id = first.message.id;
        end_message_id = last.message.id;
        source_message_ids = ids ordered;
        char_count = items_weight ordered;
        closed = closed;
        messages = messages;
        projection_version = upgraded version fallback;
      })
  v2_segment turn _ _ ordered closed version = err empty_segment

  unfoldable pub make_v2_segment :
      Turn → List Indexed → Bool → Option ℕ → Result SegmentError Segment
  unfolding v2_segment ordered_source_messages reflection_messages_with_metadata
  make_v2_segment turn items closed version =
      let ordered = ordered_source_messages items in
      v2_segment turn (head? ordered) (last? ordered) ordered closed version
