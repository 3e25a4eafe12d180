-- ===== src/Segmentation/Read.antt =====
-- packages/shared/src/segmentation.ts: `readSegmentMessages` at a committed boundary.
use reflection.Common.{ℕ, suc, Option, some, List, [], ◌∷◌, ltb, slice, if◌then◌else◌}
use reflection.Common.Result.{Result, ok, err, ◌>>=◌}
use reflection.Segmentation.Boundary.{Boundary, SegmentError, Version, v1, v2, boundary_version}
use reflection.Segmentation.History.{History, turn_messages, user_turn, canonical_history}
use reflection.Segmentation.Intervals.{Candidate}
use reflection.Segmentation.Message.{Message, ToolSource}
use reflection.Segmentation.Reconcile.{Place, resolve_v2_boundaries}
use reflection.Segmentation.Segment.{ReflectionMessage, reflection_messages_with_metadata}

pub data ReadError : Type 0 where
  boundary_error : SegmentError → ReadError
  source_not_found user_not_found users_out_of_order : ReadError

abbrev pub or_boundary_error : {A : Type 0} → Result SegmentError A → Result ReadError A
or_boundary_error (ok a) = ok a
or_boundary_error (err e) = err (boundary_error e)

module _ (tools : ToolSource) where
  pub read_span : History → List (Candidate Place) → Result ReadError (List ReflectionMessage)
  read_span history [] = err source_not_found
  read_span history (c ∷ cs) =
      ok
        (reflection_messages_with_metadata tools
          (slice c.start_index (suc c.end_index) history.messages)).0

  pub read_turns : History → Option ℕ → Option ℕ → Result ReadError (List ReflectionMessage)
  read_turns history (some start) (some last) =
      if ltb last start
      then err users_out_of_order
      else ok
          (reflection_messages_with_metadata tools
            (turn_messages (slice start (suc last) history.turns))).0
  read_turns history _ _ = err user_not_found

  pub read_version : History → Boundary → Version → Result ReadError (List ReflectionMessage)
  unfolding read_span read_turns
  read_version history boundary v2 = do
    resolved ← or_boundary_error (resolve_v2_boundaries history (boundary ∷ []))
    read_span history resolved
  read_version history boundary v1 =
      read_turns history (user_turn boundary.start_user_message_id 0 history.turns)
        (user_turn boundary.end_user_message_id 0 history.turns)

  pub read_segment_messages : List Message → Boundary → Result ReadError (List ReflectionMessage)
  unfolding read_version
  read_segment_messages messages boundary = do
    version ← or_boundary_error (boundary_version boundary)
    read_version (canonical_history tools messages) boundary version
