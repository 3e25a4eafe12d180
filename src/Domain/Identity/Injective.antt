-- ===== src/Domain/Identity/Injective.antt =====
-- The hashed texts determine what they identify.
use mathlib.Core.List.{append-nil}
use reflection.Common.{ℕ, ◌≡◌, ◌∙◌, refl, sym, ap, List, [], ◌∷◌, ◌++◌, arith, length}
use reflection.Common.Text.{Text, utf16}
use reflection.Domain.Frame.{decimal, utf8_frame}
use reflection.Domain.Frame.Decoding.{utf8_frame_prefix, decimal_count}
use reflection.Domain.Identity.{
  Role, user, assistant, role_text, SourceMessage, SourceBoundary, whole_turns, exact, Request,
  frames, message_frames, source_header, source_cursors, source_text, Projection, projection_text,
}

role_text-injective : (a b : Role) → role_text a ≡ role_text b → a ≡ b
role_text-injective user user e = refl
role_text-injective user assistant e = ground arith
role_text-injective assistant user e = ground arith
role_text-injective assistant assistant e = refl

frames-injective :
    (xs ys : List SourceMessage) → length xs ≡ length ys → frames xs ≡ frames ys → xs ≡ ys
unfolding frames
frames-injective [] [] n e = refl
frames-injective [] (y ∷ ys) n e = absurd (omega arith)
frames-injective (x ∷ xs) [] n e = absurd (omega arith)
frames-injective (x ∷ xs) (y ∷ ys) n e =
    let (role, e₁) = utf8_frame_prefix (role_text x.role) (role_text y.role) _ _ e in
    let (text, e₂) = utf8_frame_prefix x.text y.text _ _ e₁ in
    let rest = frames-injective xs ys (omega arith) e₂ in
    cc (role_text-injective x.role y.role role, text, rest)

message_frames-injective :
    (xs ys : List SourceMessage) → message_frames xs ≡ message_frames ys → xs ≡ ys
unfolding message_frames
message_frames-injective xs ys e =
    let (n, rest) = decimal_count (length xs) (length ys) (frames xs) (frames ys) e in
    frames-injective xs ys n rest

pub cancel : (h : Text) (xs ys : Text) → h ++ xs ≡ h ++ ys → xs ≡ ys
cancel [] xs ys e = e
cancel (c ∷ h) xs ys e = cancel h xs ys (ground arith)

abbrev header_digit : Text → ℕ
header_digit [] = 0
header_digit (c ∷ []) = 0
header_digit (c ∷ d ∷ t) = d

cursors-injective :
    (a b : SourceBoundary) (xs ys : Text)
    → source_header a ≡ source_header b
    → source_cursors a xs ≡ source_cursors b ys
    → (a ≡ b) × (xs ≡ ys)
unfolding source_cursors
cursors-injective whole_turns whole_turns xs ys h e = (refl, e)
cursors-injective whole_turns (exact s t) xs ys h e = absurd (ground (arith, h))
cursors-injective (exact s t) whole_turns xs ys h e = absurd (ground (arith, h))
cursors-injective (exact s t) (exact u v) xs ys h e =
    let (_, e₁) = utf8_frame_prefix (utf16 "2") (utf16 "2") _ _ e in
    let (start, e₂) = utf8_frame_prefix s u _ _ e₁ in
    let (end, e₃) = utf8_frame_prefix t v xs ys e₂ in (cc (start, end), e₃)

-- The two headers are of one length, so a text has one of them at most.
headers :
    (a b : SourceBoundary) (xs ys : Text)
    → source_header a ++ xs ≡ source_header b ++ ys
    → (source_header a ≡ source_header b) × (xs ≡ ys)
headers whole_turns whole_turns xs ys e = (refl, cancel (utf16 "reflection-source-v1:") xs ys e)
headers (exact s t) (exact u v) xs ys e = (refl, cancel (utf16 "reflection-source-v2:") xs ys e)
headers whole_turns (exact s t) xs ys e = absurd (ground (arith, e))
headers (exact s t) whole_turns xs ys e = absurd (ground (arith, e))

-- Two requests with the same fingerprinted text have the same session, user messages, boundary
-- version, source cursors and messages (roles and texts in order): no identifier or message can
-- pass for a part of its neighbour.
pub source_text-injective : (a b : Request) → source_text a ≡ source_text b → a ≡ b
unfolding source_text
source_text-injective a b e =
    let (header, e₁) = headers a.boundary b.boundary _ _ e in
    let (session, e₂) = utf8_frame_prefix a.session_id b.session_id _ _ e₁ in
    let (start, e₃) = utf8_frame_prefix a.start_user_message_id b.start_user_message_id _ _ e₂ in
    let (end, e₄) = utf8_frame_prefix a.end_user_message_id b.end_user_message_id _ _ e₃ in
    let (boundary, e₅) = cursors-injective a.boundary b.boundary _ _ header e₄ in
    let messages = message_frames-injective a.messages b.messages e₅ in
    λ i. record {
      session_id = session i;
      start_user_message_id = start i;
      end_user_message_id = end i;
      boundary = boundary i;
      messages = messages i;
    }

pub framed-end : (v w : Text) → utf8_frame v ≡ utf8_frame w → v ≡ w
framed-end v w e =
    (utf8_frame_prefix v w [] []
      (append-nil (utf8_frame v) ∙ e ∙ sym (append-nil (utf8_frame w)))).0

-- Two projections with the same fingerprinted text have the same segment, end cursors, summary and
-- version.
pub projection_text-injective : (a b : Projection) → projection_text a ≡ projection_text b → a ≡ b
unfolding projection_text
projection_text-injective a b e =
    let e₀ = cancel (utf16 "reflection-projection-v2:") _ _ e in
    let (segment, e₁) = utf8_frame_prefix a.segment_id b.segment_id _ _ e₀ in
    let (_, e₂) = utf8_frame_prefix (utf16 "2") (utf16 "2") _ _ e₁ in
    let (turn, e₃) = utf8_frame_prefix a.end_user_message_id b.end_user_message_id _ _ e₂ in
    let (source, e₄) = utf8_frame_prefix a.end_source_message_id b.end_source_message_id _ _ e₃ in
    let (summary, e₅) = utf8_frame_prefix a.summary b.summary _ _ e₄ in
    let text = framed-end (decimal a.projection_version) (decimal b.projection_version) e₅ in
    let version =
      (decimal_count a.projection_version b.projection_version [] []
        (ap (λ (t : Text). t ++ (58 ∷ [])) text)).0 in
    λ i. record {
      segment_id = segment i;
      end_user_message_id = turn i;
      end_source_message_id = source i;
      summary = summary i;
      projection_version = version i;
    }
