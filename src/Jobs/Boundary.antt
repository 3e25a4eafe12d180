-- ===== src/Jobs/Boundary.antt =====
-- server/src/database.ts: `sourceBoundary`; server/src/ingestion.ts: `persistedBoundary`. A request
-- bounds its messages by user messages (version 1), also by source messages (version 2), or by source
-- messages alone (version 3); a row has a nullable column for each of the four.
use reflection.Common.{
  ℕ, ◌≡◌, refl, Bool, true, false, Option, none, some, arith, ◌==◌, if◌then◌else◌,
}
use reflection.Common.Result.{Result, ok, err}
use reflection.Common.Text.{Text}

pub data Boundary : Type 0 where
  turns : (start_user_message_id end_user_message_id : Text) → Boundary
  messages :
      (start_user_message_id end_user_message_id start_source_message_id
        end_source_message_id : Text)
      → Boundary
  native : (start_source_message_id end_source_message_id : Text) → Boundary

-- The columns that all three tables have; `segment_targets` has no `start_user_message_id`.
pub record Mark : Type 0 where
  pub end_user_message_id : Option Text
  pub source_boundary_version : ℕ
  pub start_source_message_id : Option Text
  pub end_source_message_id : Option Text

-- `persistedBoundary(request).start_user_message_id`
unfoldable pub start_user_of : Boundary → Option Text
start_user_of (turns a b) = some a
start_user_of (messages a b c d) = some a
start_user_of (native c d) = none

-- `source_boundary_version === 3`
abbrev pub is_native : Boundary → Bool
is_native (native c d) = true
is_native _ = false

-- The other columns of a request.
unfoldable pub mark_of : Boundary → Mark
mark_of (turns a b) = record {
  end_user_message_id = some b;
  source_boundary_version = 1;
  start_source_message_id = none;
  end_source_message_id = none;
}
mark_of (messages a b c d) = record {
  end_user_message_id = some b;
  source_boundary_version = 2;
  start_source_message_id = some c;
  end_source_message_id = some d;
}
mark_of (native c d) = record {
  end_user_message_id = none;
  source_boundary_version = 3;
  start_source_message_id = some c;
  end_source_message_id = some d;
}

pub data BoundaryError : Type 0 where
  missing_user_ids invalid_persisted : BoundaryError

-- Behind the check of the user IDs.
legacy_boundary : Text → Text → Mark → Result BoundaryError Boundary
legacy_boundary start_user end_user mark = elim mark.start_source_message_id [
  | none ↦ elim mark.end_source_message_id [
    | none ↦
        if mark.source_boundary_version == 1
        then ok (turns start_user end_user)
        else err invalid_persisted
    | some d ↦ err invalid_persisted
  ]
  | some c ↦ elim mark.end_source_message_id [
    | none ↦ err invalid_persisted
    | some d ↦
        if mark.source_boundary_version == 2
        then ok (messages start_user end_user c d)
        else err invalid_persisted
  ]
]

pub source_boundary : Option Text → Mark → Result BoundaryError Boundary
unfolding legacy_boundary
source_boundary (some a) mark = elim mark.end_user_message_id [
  | none ↦ err missing_user_ids
  | some b ↦ legacy_boundary a b mark
]
source_boundary none mark = elim mark.end_user_message_id [
  | some b ↦ err missing_user_ids
  | none ↦ elim mark.start_source_message_id [
    | none ↦ err missing_user_ids
    | some c ↦ elim mark.end_source_message_id [
      | none ↦ err missing_user_ids
      | some d ↦ if mark.source_boundary_version == 3 then ok (native c d) else err missing_user_ids
    ]
  ]
]

-- The columns that a request is stored with are read back as its boundary.
pub source_boundary-mark_of : (b : Boundary) → source_boundary (start_user_of b) (mark_of b) ≡ ok b
unfolding source_boundary legacy_boundary start_user_of mark_of
source_boundary-mark_of (turns a b) = refl
source_boundary-mark_of (messages a b c d) = refl
source_boundary-mark_of (native c d) = refl

-- Where columns are read as a boundary, they are the columns that a request with it is stored with.
pub source_boundary_sound :
    (start_user : Option Text) (mark : Mark) (b : Boundary)
    → source_boundary start_user mark ≡ ok b
    → (start_user_of b ≡ start_user) × (mark_of b ≡ mark)
unfolding source_boundary legacy_boundary start_user_of mark_of
source_boundary_sound start_user mark b h = ground arith
