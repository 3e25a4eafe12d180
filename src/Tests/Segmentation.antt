-- ===== src/Tests/Segmentation.antt =====
-- A short conversation, cut into segments.
use mathlib.Core.List.{Perm, reverse}
use reflection.Common.{ℕ, ◌≡◌, refl, true, false, none, some, List, [], ◌∷◌, arith, All}
use reflection.Common.Json.{undefined, object, number, field, end}
use reflection.Common.Result.{Result, ok}
use reflection.Segmentation.Boundary.{Boundary, Raw, SegmentError}
use reflection.Segmentation.Message.{Part, PartKind, Message, Role, ToolSource}
use reflection.Segmentation.Pack.Limits.{members}
use reflection.Segmentation.Run.Partition.{segment_messages-perm}
use reflection.Segmentation.Segment.{Segment, ids}
use reflection.Segmentation.Weight.{finite}
use reflection.Common.Text.{Text}
use reflection.Segmentation.Run.{
  segment_messages, is_frozen, v1_at, v2_of_turn, is_fragmented, flush_ordinary_turns, frozen_step,
  turn_step, walk,
}
use reflection.Segmentation.History.{
  canonical_history, user_turn, turn_of, push_at, place, place_all, close_turns,
}
use reflection.Segmentation.Intervals.{
  select_boundary_intervals, better_boundary_plan, plan_key, previous_plan, plan_from,
}
use reflection.Common.Sort.{sort}
use reflection.Common.Text.{text_eq, text_leb, utf16}
use reflection.Segmentation.Boundary.{boundary_version, is_blank}
use reflection.Segmentation.Message.{
  is_normal_user_message, is_model_visible_message, is_projection_loss_warning_message,
  is_model_visible_part, is_completed_assistant_message, attachment_text, text_of,
  model_visible_char_weight_of,
}
use reflection.Segmentation.Segment.{
  reflection_text_of, fallback_messages, ordered_source_messages, reflection_messages_with_metadata,
  make_v1_segment, make_v2_segment,
}
use reflection.Segmentation.Reconcile.{
  source_index_of, turn_by_user, resolve_v2_boundaries, ends_first, reconcile_v1_boundaries,
  reconcile_v2_boundaries,
}
use reflection.Segmentation.Fragment.{
  action, ranges, fragment_ranges, fragment_source_range, fragment_turn,
}
use reflection.Segmentation.Pack.{flush, is_full, take_turn, pack_turn, pack_all, pack_turns}
use reflection.Common.Json.{get_field, is_truthy, is_text, is_number, is_finite}
use reflection.Common.{◌++◌, take}
use reflection.Segmentation.History.{Turn, Indexed, turn_messages}
use reflection.Segmentation.History.Turns.{canonical_history-SameMessages}
use reflection.Segmentation.Pack.Limits.{Packs, pack_turns-Packs}
use reflection.Segmentation.Fragment.Ranges.{range_items}
use reflection.Segmentation.Fragment.Cuts.{IsCut, EndLegally, fragment_ranges-IsResult}
use reflection.Segmentation.Intervals.{Candidate}
use reflection.Segmentation.Intervals.Plan.{Best}
use reflection.Segmentation.Intervals.Optimal.{InOrder, select_boundary_intervals-Best}
use reflection.Segmentation.Boundary.{v2}
use reflection.Segmentation.Submission.{SubmissionError, submission_source, source_boundary}
use reflection.Segmentation.Submission.Source.{
  SameSource, IsSubmittable, submission_source-injective, segment_messages-IsSubmittable,
}
use reflection.Common.{Bool, true, false}

abbrev tools : ToolSource
tools = record {
  rendered = λ part. [];
  omitted = λ part. [];
  state_chars = λ state. finite 0;
  attachment_tokens = λ state. finite 0;
  inline_tokens = λ state. finite 0;
  media_tokens = λ part. finite 0;
}

abbrev text_part : Text → Part
text_part t = record {
  kind = PartKind.text;
  text = some t;
  tool = undefined;
  state = undefined;
  readable = true;
  synthetic = none;
  ignored = none;
  filename = none;
  mime = none;
  metadata = undefined;
}

abbrev said : Text → Text → Message
said id t = record {
  id = id;
  role = Role.user;
  parent_id = none;
  error = undefined;
  time = undefined;
  parts = text_part t ∷ [];
}

abbrev answered : Text → Text → Text → Message
answered id parent t = record {
  id = id;
  role = Role.assistant;
  parent_id = some parent;
  error = undefined;
  time = object (field (utf16 "completed") (number 7) end);
  parts = text_part t ∷ [];
}

abbrev u1 : Text
u1 = utf16 "u1"

abbrev u2 : Text
u2 = utf16 "u2"

-- The first turn weighs 12 and is cut behind its first answer; the second fits.
abbrev conversation : List Message
conversation =
    said u1 (utf16 "help")
    ∷ answered (utf16 "a1") u1 (utf16 "yes!")
    ∷ answered (utf16 "a2") u1 (utf16 "done")
    ∷ said u2 (utf16 "ok")
    ∷ []

abbrev or_none : Result SegmentError (List Segment) → List Segment
or_none (ok segments) = segments
or_none _ = []

abbrev v1_boundary : Boundary
v1_boundary = record {
  id = none;
  start_user_message_id = u2;
  end_user_message_id = u2;
  projection_version = none;
  source_eligible = some true;
  source_boundary_version = Raw.undefined;
  start_source_message_id = Raw.null;
  end_source_message_id = Raw.null;
}

abbrev v2_boundary : Boundary
v2_boundary = record {
  id = none;
  start_user_message_id = u1;
  end_user_message_id = u1;
  projection_version = some 1;
  source_eligible = some true;
  source_boundary_version = Raw.number 2;
  start_source_message_id = Raw.string u1;
  end_source_message_id = Raw.string (utf16 "a1");
}

abbrev segments : List Segment
segments = or_none (segment_messages tools text_leb conversation 8 (v1_boundary ∷ v2_boundary ∷ []))

segment_messages-perm_example :
    Perm (members segments) (ids (canonical_history tools conversation).messages)
unfolding segment_messages canonical_history select_boundary_intervals better_boundary_plan plan_key
    previous_plan plan_from sort text_eq text_leb boundary_version is_blank user_turn turn_of
    push_at place place_all close_turns is_normal_user_message is_model_visible_message
    is_projection_loss_warning_message is_model_visible_part is_completed_assistant_message
    attachment_text text_of model_visible_char_weight_of reflection_text_of fallback_messages
    ordered_source_messages reflection_messages_with_metadata make_v1_segment make_v2_segment
    source_index_of turn_by_user resolve_v2_boundaries ends_first reconcile_v1_boundaries
    reconcile_v2_boundaries action ranges fragment_ranges fragment_source_range fragment_turn flush
    is_full take_turn pack_turn pack_all pack_turns is_frozen v1_at v2_of_turn is_fragmented
    flush_ordinary_turns frozen_step turn_step walk get_field is_truthy is_text is_number is_finite
segment_messages-perm_example =
    segment_messages-perm tools text_leb conversation 8 (v1_boundary ∷ v2_boundary ∷ []) segments
      refl

abbrev turns : List Turn
turns = (canonical_history tools conversation).turns

canonical_history-SameMessages_example :
    Perm (turn_messages turns) (canonical_history tools conversation).messages
canonical_history-SameMessages_example = canonical_history-SameMessages tools conversation

abbrev packed : List Segment
packed = or_none (pack_turns tools 12 turns false [])

pack_turns-Packs_example :
    (added : List Segment) × (packed ≡ [] ++ added) × Packs tools 12 turns false added
unfolding canonical_history text_eq user_turn turn_of push_at place place_all close_turns
    is_normal_user_message is_model_visible_message is_projection_loss_warning_message
    is_model_visible_part is_completed_assistant_message attachment_text text_of
    model_visible_char_weight_of reflection_text_of fallback_messages ordered_source_messages
    reflection_messages_with_metadata make_v1_segment flush is_full take_turn pack_turn pack_all
    pack_turns get_field is_truthy is_text is_number is_finite sort
pack_turns-Packs_example = pack_turns-Packs tools 12 turns false [] packed refl

abbrev first_turn : List Indexed
first_turn = take 3 (canonical_history tools conversation).messages

fragment_ranges-IsResult_example :
    (range_items (fragment_ranges tools 8 first_turn true) ≡ first_turn)
    × All (IsCut tools 8) (fragment_ranges tools 8 first_turn true)
    × EndLegally tools 8 (fragment_ranges tools 8 first_turn true)
fragment_ranges-IsResult_example = fragment_ranges-IsResult tools 8 first_turn true

abbrev interval : ℕ → ℕ → Candidate (Unit {0})
interval first last = record {
  boundary = v1_boundary;
  start_index = first;
  end_index = last;
  key = utf16 "k";
  extra = tt;
}

abbrev overlapping : List (Candidate (Unit {0}))
overlapping = interval 0 2 ∷ interval 1 4 ∷ interval 3 5 ∷ []

select_boundary_intervals-Best_example :
    Best (reverse overlapping) (select_boundary_intervals overlapping)
    × InOrder (select_boundary_intervals overlapping)
select_boundary_intervals-Best_example =
    select_boundary_intervals-Best overlapping
      ((omega arith, (omega arith, tt)), ((omega arith, tt), (tt, tt)))
      (omega arith, (omega arith, (omega arith, tt)))

segment_messages-IsSubmittable_example : All (IsSubmittable (utf16 "s1")) segments
unfolding segment_messages canonical_history select_boundary_intervals better_boundary_plan plan_key
    previous_plan plan_from sort text_eq text_leb boundary_version is_blank user_turn turn_of
    push_at place place_all close_turns is_normal_user_message is_model_visible_message
    is_projection_loss_warning_message is_model_visible_part is_completed_assistant_message
    attachment_text text_of model_visible_char_weight_of reflection_text_of fallback_messages
    ordered_source_messages reflection_messages_with_metadata make_v1_segment make_v2_segment
    source_index_of turn_by_user resolve_v2_boundaries ends_first reconcile_v1_boundaries
    reconcile_v2_boundaries action ranges fragment_ranges fragment_source_range fragment_turn flush
    is_full take_turn pack_turn pack_all pack_turns is_frozen v1_at v2_of_turn is_fragmented
    flush_ordinary_turns frozen_step turn_step walk get_field is_truthy is_text is_number is_finite
segment_messages-IsSubmittable_example =
    segment_messages-IsSubmittable (utf16 "s1") tools text_leb conversation 8
      (v1_boundary ∷ v2_boundary ∷ []) segments refl

-- An exact span, before and behind its end.
abbrev span : Bool → Segment
span closed = record {
  start_user_message_id = u1;
  end_user_message_id = u1;
  source_boundary_version = v2;
  start_source_message_id = some u1;
  end_source_message_id = some (utf16 "a1");
  start_message_id = u1;
  end_message_id = utf16 "a1";
  source_message_ids = u1 ∷ utf16 "a1" ∷ [];
  char_count = finite 8;
  closed = closed;
  messages = record { role = Role.user; text = utf16 "help" } ∷ [];
  projection_version = none;
}

abbrev or_blank : Result SubmissionError Text → Text
or_blank (ok t) = t
or_blank _ = []

submission_source-injective_example : SameSource (span false) (span true)
unfolding submission_source source_boundary
submission_source-injective_example =
    submission_source-injective (utf16 "s1") (span false) (span true)
      (or_blank (submission_source (utf16 "s1") (span false))) refl refl
