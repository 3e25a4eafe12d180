-- ===== src/Segmentation/Reconcile.antt =====
-- packages/shared/src/segmentation.ts: `reconcileV1Boundaries`, `resolveV2Boundaries` and
-- `reconcileV2Boundaries`, from committed boundaries to positions in the history.
-- `locale_le a b` is `a.localeCompare(b) <= 0`, which depends on the platform's locale.
pub mod Ranges
use reflection.Common.{
  ℕ, suc, ◌+◌, Bool, true, false, not, ◌&&◌, ◌||◌, Option, none, some, List, [], ◌∷◌, ◌++◌, leb,
  ltb, ◌==◌, any, length, slice, if◌then◌else◌,
}
use reflection.Common.Result.{Result, ok, err, throw_if, ◌>>=◌, ◌>>◌}
use reflection.Common.Sort.{sort}
use reflection.Common.Text.{Text, text_eq, utf16}
use reflection.Segmentation.Boundary.{
  Boundary, SegmentError, ambiguous, out_of_order, leaves_turn, unmatched, Version, v1, v2,
  boundary_version, cursor_text,
}
use reflection.Segmentation.History.{Indexed, Turn, History, user_turn}
use reflection.Segmentation.Intervals.{Candidate, select_boundary_intervals}

-- The fields that `IndexedV2Boundary` has beside those of `BoundaryInterval`.
pub record Place : Type 0 where
  pub turn_index : ℕ
  pub start_offset : ℕ
  pub end_offset : ℕ

abbrev or_blank : Option Text → Text
or_blank none = []
or_blank (some t) = t

v1_candidate : Boundary → Option ℕ → Option ℕ → List (Candidate (Unit {0}))
v1_candidate boundary (some start) (some end) =
    if ltb end start
    then []
    else record {
      boundary = boundary;
      start_index = start;
      end_index = end;
      key =
          boundary.start_user_message_id
          ++ (utf16 ":" ++ (boundary.end_user_message_id ++ (utf16 ":" ++ or_blank boundary.id)));
      extra = tt;
    }
      ∷ []
v1_candidate boundary _ _ = []

v1_of_version : List Turn → Boundary → Version → List (Candidate (Unit {0}))
v1_of_version turns boundary v2 = []
v1_of_version turns boundary v1 =
    v1_candidate boundary (user_turn boundary.start_user_message_id 0 turns)
      (user_turn boundary.end_user_message_id 0 turns)

-- The `flatMap` of `reconcileV1Boundaries`.
v1_candidates : List Turn → List Boundary → Result SegmentError (List (Candidate (Unit {0})))
unfolding v1_candidate v1_of_version
v1_candidates turns [] = ok []
v1_candidates turns (boundary ∷ boundaries) = do
  version ← boundary_version boundary
  rest ← v1_candidates turns boundaries
  ok (v1_of_version turns boundary version ++ rest)

-- A `Map` entry of `uniqueSourceIndexes`: no entry, `null`, or an index.
pub data SourceIndex : Type 0 where
  missing repeated : SourceIndex
  at : ℕ → SourceIndex

note_index : SourceIndex → ℕ → SourceIndex
note_index missing n = at n
note_index _ n = repeated

-- `uniqueSourceIndexes(messages).get(id)`
unfoldable pub source_index_of : Text → SourceIndex → List Indexed → SourceIndex
unfolding note_index
source_index_of id found [] = found
source_index_of id found (item ∷ items) =
    source_index_of id
      (if text_eq item.message.id id then note_index found item.source_index else found) items

-- `findIndex((message) => message.sourceIndex === index)`, from position `n`.
offset_of : ℕ → ℕ → List Indexed → Option ℕ
offset_of index n [] = none
offset_of index n (item ∷ items) =
    let rest = offset_of index (suc n) items in if item.source_index == index then some n else rest

v2_key : Boundary → Text
v2_key b =
    b.start_user_message_id
    ++ (utf16 ":"
        ++ (b.end_user_message_id
            ++ (utf16 ":"
                ++ (cursor_text b.start_source_message_id
                    ++ (utf16 ":"
                        ++ (cursor_text b.end_source_message_id
                            ++ (utf16 ":" ++ or_blank b.id)))))))

abbrev is_empty {ℓ} : {A : Type ℓ} → List A → Bool
is_empty [] = true
is_empty (x ∷ xs) = false

at_offsets :
    Boundary → Turn → ℕ → ℕ → Option ℕ → Option ℕ → Result SegmentError (List (Candidate Place))
unfolding v2_key
at_offsets boundary turn start end (some from) (some to) =
    if ltb to from
    then err unmatched
    else ok (
        record {
          boundary = boundary;
          start_index = start;
          end_index = end;
          key = v2_key boundary;
          extra = record { turn_index = turn.index; start_offset = from; end_offset = to };
        }
        ∷ [])
at_offsets boundary turn start end _ _ = err unmatched

-- `exactSpan.length === 0 || exactSpan.some(…)`
leaves : Turn → List Indexed → Bool
leaves turn span =
    is_empty span || any (λ (item : Indexed). not (item.turn_index == turn.index)) span

-- A boundary whose two cursors are known.
v2_at : History → Boundary → Turn → ℕ → ℕ → Result SegmentError (List (Candidate Place))
unfolding at_offsets offset_of leaves
v2_at history boundary turn start end = do
  throw_if (ltb end start) out_of_order
  throw_if (leaves turn (slice start (suc end) history.messages)) leaves_turn
  at_offsets boundary turn start end (offset_of start 0 turn.messages)
      (offset_of end 0 turn.messages)

v2_indexes :
    History
    → Boundary
    → Turn
    → SourceIndex
    → SourceIndex
    → Result SegmentError (List (Candidate Place))
unfolding v2_at
v2_indexes history boundary turn missing end = ok []
v2_indexes history boundary turn start missing = ok []
v2_indexes history boundary turn (at start) (at end) = v2_at history boundary turn start end
v2_indexes history boundary turn _ _ = err ambiguous

-- `turnsByUser.get(id)`: the last turn of that id.
unfoldable pub turn_by_user : Text → List Turn → Option Turn
turn_by_user id [] = none
turn_by_user id (turn ∷ turns) = elim (turn_by_user id turns) [
  | some found ↦ some found
  | none ↦ if text_eq turn.user_message_id id then some turn else none
]

v2_candidate : History → Boundary → Option Turn → Result SegmentError (List (Candidate Place))
unfolding v2_indexes source_index_of
v2_candidate history boundary none = ok []
v2_candidate history boundary (some turn) =
    v2_indexes history boundary turn
      (source_index_of (cursor_text boundary.start_source_message_id) missing history.messages)
      (source_index_of (cursor_text boundary.end_source_message_id) missing history.messages)

v2_of_version : History → Boundary → Version → Result SegmentError (List (Candidate Place))
v2_of_version history boundary v1 = ok []
v2_of_version history boundary v2 =
    v2_candidate history boundary (turn_by_user boundary.start_user_message_id history.turns)

unfoldable pub resolve_v2_boundaries :
    History → List Boundary → Result SegmentError (List (Candidate Place))
unfolding v2_candidate turn_by_user v2_of_version
resolve_v2_boundaries history [] = ok []
resolve_v2_boundaries history (boundary ∷ boundaries) = do
  version ← boundary_version boundary
  here ← v2_of_version history boundary version
  rest ← resolve_v2_boundaries history boundaries
  ok (here ++ rest)

-- `filter((boundary) => !frozenTurns.has(boundary.turnIndex))`
thawed : (ℕ → Bool) → List (Candidate Place) → List (Candidate Place)
thawed frozen [] = []
thawed frozen (c ∷ cs) =
    if frozen c.extra.turn_index then thawed frozen cs else c ∷ thawed frozen cs

module _ (locale_le : Text → Text → Bool) where
  -- The comparator of both sorts is not positive.
  unfoldable pub ends_first : {E : Type 0} → Candidate E → Candidate E → Bool
  ends_first left right =
      if left.end_index == right.end_index
      then (if left.start_index == right.start_index
          then locale_le (or_blank left.boundary.id) (or_blank right.boundary.id)
          else ltb left.start_index right.start_index)
      else ltb left.end_index right.end_index

  unfoldable pub reconcile_v1_boundaries :
      List Turn → List Boundary → Result SegmentError (List (Candidate (Unit {0})))
  unfolding v1_candidates ends_first
  reconcile_v1_boundaries turns boundaries = do
    candidates ← v1_candidates turns boundaries
    ok (select_boundary_intervals (sort ends_first candidates))

  unfoldable pub reconcile_v2_boundaries :
      (ℕ → Bool) → List (Candidate Place) → List (Candidate Place)
  unfolding thawed ends_first
  reconcile_v2_boundaries frozen candidates =
      select_boundary_intervals (sort ends_first (thawed frozen candidates))
