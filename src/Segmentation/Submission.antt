-- ===== src/Segmentation/Submission.antt =====
-- packages/shared/src/segmentation.ts: `submissionSourceFingerprint`, the text of a segment under
-- which it is submitted. The hash of the text is left out.
pub mod Source
use reflection.Common.{Option, none, some, List, [], ◌∷◌, map}
use reflection.Common.Result.{Result, ok, err, ◌>>=◌}
use reflection.Common.Text.{Text}
use reflection.Domain.Identity
use reflection.Domain.Identity.{
  SourceMessage, SourceBoundary, whole_turns, exact, Request, source_text,
}
use reflection.Segmentation.Boundary.{Version, v1, v2}
use reflection.Segmentation.Message.{Role, user, assistant}
use reflection.Segmentation.Segment.{ReflectionMessage, Segment}

pub data SubmissionError : Type 0 where
  v1_with_cursors v2_without_cursors : SubmissionError

abbrev pub source_role : Role → Identity.Role
source_role user = Identity.user
source_role assistant = Identity.assistant

abbrev pub source_message : ReflectionMessage → SourceMessage
source_message m = record { role = source_role m.role; text = m.text }

-- The version with its cursors.
unfoldable pub source_boundary :
    Version → Option Text → Option Text → Result SubmissionError SourceBoundary
source_boundary v1 none none = ok whole_turns
source_boundary v1 _ _ = err v1_with_cursors
source_boundary v2 (some first) (some last) = ok (exact first last)
source_boundary v2 _ _ = err v2_without_cursors

abbrev pub request_of : Text → Segment → SourceBoundary → Request
request_of session_id segment boundary = record {
  session_id = session_id;
  start_user_message_id = segment.start_user_message_id;
  end_user_message_id = segment.end_user_message_id;
  boundary = boundary;
  messages = map source_message segment.messages;
}

unfoldable pub submission_source : Text → Segment → Result SubmissionError Text
unfolding source_boundary
submission_source session_id segment = do
  boundary ←
      source_boundary segment.source_boundary_version segment.start_source_message_id
        segment.end_source_message_id
  ok (source_text (request_of session_id segment boundary))
