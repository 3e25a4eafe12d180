-- ===== src/Segmentation/Message.antt =====
-- packages/shared/src/segmentation.ts: messages and parts, what the model sees of them, their text
-- and their weight. tool-source.ts is used through the interface `ToolSource`.
use reflection.Common.{
  ℕ, Bool, true, false, not, ◌&&◌, ◌||◌, Option, none, some, List, [], ◌∷◌, ◌++◌, ◌==◌, any, take,
  length, if◌then◌else◌,
}
use reflection.Common.Json.{Json, get_field, field_count, is_truthy, is_text, is_number}
use reflection.Common.Json.{is_finite}
use reflection.Common.Text.{Text, text_eq, utf16}
use reflection.Segmentation.Weight.{Weight, finite, infinite, add, times, max}

pub data PartKind : Type 0 where
  text reasoning tool file compaction step_start other : PartKind

-- `readable` is false where reading `part.tool` or `part.state` throws.
pub record Part : Type 0 where
  pub kind : PartKind
  pub text : Option Text
  pub tool : Json
  pub state : Json
  pub readable : Bool
  pub synthetic : Option Bool
  pub ignored : Option Bool
  pub filename : Option Text
  pub mime : Option Text
  pub metadata : Json

pub data Role : Type 0 where
  user assistant : Role

pub record Message : Type 0 where
  pub id : Text
  pub role : Role
  pub parent_id : Option Text
  pub error : Json
  pub time : Json
  pub parts : List Part

-- The functions of tool-source.ts that the segmenter calls.
pub record ToolSource : Type 0 where
  -- `toolSourceText`
  pub rendered : Part → Text
  -- `toolSourceFrame(part, TOOL_STATE_OMITTED)`
  pub omitted : Part → Text
  -- `modelVisibleToolStateSize(state).chars`
  pub state_chars : Json → Weight
  pub attachment_tokens : Json → Weight
  pub inline_tokens : Json → Weight
  pub media_tokens : Part → Weight

abbrev projection_loss_warning : Text
projection_loss_warning =
    utf16
      "Reflection compacted older context with omissions. Some archived details are unavailable in this prompt; use memory_search and memory_read_segment when exact history matters."

is_marker : Json → Bool
is_marker (Json.object marker) =
    field_count marker == 2
    && is_text (utf16 "projection-loss-warning") (get_field (utf16 "type") marker)
    && is_number 1 (get_field (utf16 "version") marker)
is_marker _ = false

has_exact_warning_metadata : Json → Bool
unfolding is_marker get_field is_text is_number
has_exact_warning_metadata (Json.object metadata) =
    field_count metadata == 1 && is_marker (get_field (utf16 "reflection") metadata)
has_exact_warning_metadata _ = false

abbrev is_false : Option Bool → Bool
is_false (some false) = true
is_false _ = false

abbrev is_true : Option Bool → Bool
is_true (some true) = true
is_true _ = false

abbrev text_is : Text → Option Text → Bool
text_is t none = false
text_is t (some s) = text_eq s t

abbrev is_text_part : PartKind → Bool
is_text_part text = true
is_text_part _ = false

abbrev is_compaction : PartKind → Bool
is_compaction compaction = true
is_compaction _ = false

is_warning : Role → List Part → Bool
unfolding has_exact_warning_metadata
is_warning user (part ∷ []) =
    is_text_part part.kind
    && text_is projection_loss_warning part.text
    && is_false part.synthetic
    && is_false part.ignored
    && has_exact_warning_metadata part.metadata
is_warning _ _ = false

unfoldable pub is_projection_loss_warning_message : Message → Bool
unfolding is_warning
is_projection_loss_warning_message message = is_warning message.role message.parts

abbrev pub is_user : Role → Bool
is_user user = true
is_user assistant = false

unfoldable pub is_normal_user_message : Message → Bool
unfolding is_projection_loss_warning_message
is_normal_user_message message =
    is_user message.role
    && not (is_projection_loss_warning_message message)
    && not (any (λ (part : Part). is_compaction part.kind) message.parts)

-- What makes an aborted message worth keeping.
abbrev is_content : PartKind → Bool
is_content step_start = false
is_content reasoning = false
is_content _ = true

is_aborted : Json → Bool
is_aborted (Json.object error) =
    is_text (utf16 "MessageAbortedError") (get_field (utf16 "name") error)
is_aborted _ = false

unfoldable pub is_model_visible_message : Message → Bool
unfolding is_aborted is_truthy get_field is_text
is_model_visible_message message =
    is_user message.role
    || not (is_truthy message.error)
    || (is_aborted message.error && any (λ (part : Part). is_content part.kind) message.parts)

abbrev is_plain_file : PartKind → Option Text → Bool
is_plain_file file mime =
    text_is (utf16 "text/plain") mime || text_is (utf16 "application/x-directory") mime
is_plain_file _ mime = false

unfoldable pub is_model_visible_part : Message → Part → Bool
unfolding is_model_visible_message
is_model_visible_part message part =
    is_model_visible_message message
    && (not (is_user message.role) || not (is_true part.ignored))
    && not (is_user message.role && is_plain_file part.kind part.mime)

completed_at : Json → Bool
completed_at (Json.object time) = is_finite (get_field (utf16 "completed") time)
completed_at _ = false

unfoldable pub is_completed_assistant_message : Message → Bool
unfolding completed_at get_field is_finite
is_completed_assistant_message message = not (is_user message.role) && completed_at message.time

abbrev or_empty : Option Text → Text
or_empty none = []
or_empty (some t) = t

-- `value ? before + value.slice(0, limit) + after : ""`
attached : Text → ℕ → Text → Option Text → Text
attached before limit after none = []
attached before limit after (some []) = []
attached before limit after (some t) = before ++ (take limit t ++ after)

unfoldable pub attachment_text : Part → Text
unfolding attached
attachment_text part =
    utf16 "[Attachment"
    ++ (attached (utf16 " ") 500 [] part.filename
        ++ (attached (utf16 " (") 200 (utf16 ")") part.mime ++ utf16 "]"))

text_of_part : Message → Part → PartKind → Text
unfolding attachment_text
text_of_part message part text = or_empty part.text
text_of_part message part file = attachment_text part
text_of_part message part _ = []

text_of_parts : Message → List Part → Text
unfolding text_of_part is_model_visible_part
text_of_parts message [] = []
text_of_parts message (part ∷ parts) =
    (if is_model_visible_part message part then text_of_part message part part.kind else [])
    ++ text_of_parts message parts

unfoldable pub text_of : Message → Text
unfolding text_of_parts is_projection_loss_warning_message is_model_visible_message
text_of message =
    if is_projection_loss_warning_message message
    then []
    else if not (is_model_visible_message message)
    then []
    else text_of_parts message message.parts

abbrev estimated_chars_per_token : ℕ
estimated_chars_per_token = 4

name_chars : Json → ℕ
name_chars (Json.string t) = length t
name_chars _ = 0

module _ (tools : ToolSource) where
  -- One round of the loop of `modelVisibleCharWeightOf`, for a visible part.
  part_weight : Part → PartKind → Weight → Weight
  unfolding name_chars
  part_weight part text weight = add weight (finite (length (or_empty part.text)))
  part_weight part reasoning weight = add weight (finite (length (or_empty part.text)))
  part_weight part tool weight =
      if not part.readable
      then infinite
      else add
          (add
            (add weight (
              max (add (finite (name_chars part.tool)) (tools.state_chars part.state))
                (finite (length (tools.rendered part)))))
            (times estimated_chars_per_token (tools.attachment_tokens part.state)))
          (times estimated_chars_per_token (tools.inline_tokens part.state))
  part_weight part file weight =
      add weight (times estimated_chars_per_token (tools.media_tokens part))
  part_weight part _ weight = weight

  parts_weight : Message → List Part → Weight → Weight
  unfolding part_weight is_model_visible_part
  parts_weight message [] weight = weight
  parts_weight message (part ∷ parts) weight =
      parts_weight message parts
        (if is_model_visible_part message part then part_weight part part.kind weight else weight)

  unfoldable pub model_visible_char_weight_of : Message → Weight
  unfolding parts_weight is_model_visible_message
  model_visible_char_weight_of message =
      if not (is_model_visible_message message)
      then finite 0
      else parts_weight message message.parts (finite 0)
