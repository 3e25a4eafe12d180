-- ===== src/Segmentation/Submission/Source.antt =====
-- What the submitted text of a segment says of it.
use reflection.Common.{
  inl, inr, All, ◌≡◌, ◌∙◌, sym, refl, ap, Bool, Option, List, [], ◌∷◌, map, arith, ℕ,
}
use reflection.Common.Result.{ok, >>=-eq-ok, ok-injective}
use reflection.Common.Text.{Text}
use reflection.Domain.Identity.{
  SourceMessage, SourceBoundary, whole_turns, exact, Request, source_text,
}
use reflection.Domain.Identity.Injective.{source_text-injective}
use reflection.Segmentation.Boundary.{Boundary, Version}
use reflection.Segmentation.Message.{Message, Role, user, assistant, ToolSource}
use reflection.Segmentation.Segment.{ReflectionMessage, Segment}
use reflection.Segmentation.Segment.Cursors.{
  HasCursors, make_v1_segment-HasCursors, make_v2_segment-HasCursors,
}
use reflection.Segmentation.Run.{segment_messages}
use reflection.Segmentation.Run.Every.{segment_messages-All}
use reflection.Segmentation.Submission.{
  source_role, source_message, source_boundary, request_of, submission_source,
}

source_role-injective : (a b : Role) → source_role a ≡ source_role b → a ≡ b
source_role-injective user user e = refl
source_role-injective user assistant e = cc
source_role-injective assistant user e = cc
source_role-injective assistant assistant e = refl

source_message-injective : (a b : ReflectionMessage) → source_message a ≡ source_message b → a ≡ b
source_message-injective a b e =
    let role = source_role-injective a.role b.role (ap (λ (m : SourceMessage). m.role) e) in
    let text = ap (λ (m : SourceMessage). m.text) e in λ i. record { role = role i; text = text i }

map-source_message-injective :
    (xs ys : List ReflectionMessage) → map source_message xs ≡ map source_message ys → xs ≡ ys
map-source_message-injective [] [] e = refl
map-source_message-injective [] (y ∷ ys) e = cc
map-source_message-injective (x ∷ xs) [] e = cc
map-source_message-injective (x ∷ xs) (y ∷ ys) e =
    let first : source_message x ≡ source_message y = ground arith in
    let rest = map-source_message-injective xs ys (ground arith) in
    cc (source_message-injective x y first, rest)

-- Two segments are of one source: their user messages, version, cursors and messages are the same.
abbrev pub SameSource : Segment → Segment → Type 0
SameSource a b =
    (a.start_user_message_id ≡ b.start_user_message_id)
    × (a.end_user_message_id ≡ b.end_user_message_id)
    × (a.source_boundary_version ≡ b.source_boundary_version)
    × (a.start_source_message_id ≡ b.start_source_message_id)
    × (a.end_source_message_id ≡ b.end_source_message_id)
    × (a.messages ≡ b.messages)

source_boundary-injective :
    (v w : Version) (s e t f : Option Text) (b : SourceBoundary)
    → source_boundary v s e ≡ ok b
    → source_boundary w t f ≡ ok b
    → (v ≡ w) × (s ≡ t) × (e ≡ f)
unfolding source_boundary
source_boundary-injective v w s e t f b p q = ground arith

-- Two segments of one session whose submitted texts are the same are of one source.
pub submission_source-injective :
    (session_id : Text) (a b : Segment) (source : Text)
    → submission_source session_id a ≡ ok source
    → submission_source session_id b ≡ ok source
    → SameSource a b
unfolding submission_source
submission_source-injective session_id a b source p q =
    let (x, bx, p₁) =
      >>=-eq-ok
        (source_boundary a.source_boundary_version a.start_source_message_id
          a.end_source_message_id)
        _ p in
    let (y, by, q₁) =
      >>=-eq-ok
        (source_boundary b.source_boundary_version b.start_source_message_id
          b.end_source_message_id)
        _ q in
    let same =
      source_text-injective (request_of session_id a x) (request_of session_id b y)
        (ok-injective _ source p₁ ∙ sym (ok-injective _ source q₁)) in
    let boundary : y ≡ x = sym (ap (λ (r : Request). r.boundary) same) in
    let (version, first, last) =
      source_boundary-injective a.source_boundary_version b.source_boundary_version
        a.start_source_message_id a.end_source_message_id b.start_source_message_id
        b.end_source_message_id x bx (rw boundary at by) in
    (
      ap (λ (r : Request). r.start_user_message_id) same,
      ap (λ (r : Request). r.end_user_message_id) same,
      version,
      first,
      last,
      map-source_message-injective a.messages b.messages (ap (λ (r : Request). r.messages) same),
    )

-- The segment can be submitted.
abbrev pub IsSubmittable : Text → Segment → Type 0
IsSubmittable session_id segment =
    (source : Text) × (submission_source session_id segment ≡ ok source)

submittable : (session_id : Text) (s : Segment) → HasCursors s → IsSubmittable session_id s
unfolding submission_source source_boundary
submittable session_id s (inl (version, first, last)) =
    (source_text (request_of session_id s whole_turns), rw (version, first, last) refl)
submittable session_id s (inr (version, f, l, first, last)) =
    (source_text (request_of session_id s (exact f l)), rw (version, first, last) refl)

-- Where `segmentMessages` returns, each of its segments can be submitted: whole turns have no
-- source cursors, and an exact span has both.
pub segment_messages-IsSubmittable :
    (session_id : Text) (tools : ToolSource) (locale_le : Text → Text → Bool)
    (messages : List Message) (max_chars : ℕ) (boundaries : List Boundary) (segments : List Segment)
    → segment_messages tools locale_le messages max_chars boundaries ≡ ok segments
    → All (IsSubmittable session_id) segments
segment_messages-IsSubmittable session_id tools locale_le messages max_chars boundaries segments e =
    segment_messages-All tools locale_le messages max_chars boundaries segments
      (IsSubmittable session_id)
      (
        (λ turns closed version s made.
            submittable session_id s
              (make_v1_segment-HasCursors tools turns closed version s made)),
        (λ turn items closed version s made.
            submittable session_id s
              (make_v2_segment-HasCursors tools turn items closed version s made)),
      )
      e
