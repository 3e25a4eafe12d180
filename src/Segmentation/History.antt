-- ===== src/Segmentation/History.antt =====
-- packages/shared/src/segmentation.ts: `canonicalHistory`, the turns of a conversation and its
-- source messages. A turn is named by its position, which is also its `index`.
pub mod Turns
use reflection.Common.{
  ℕ, zero, suc, ◌+◌, Bool, true, false, not, ◌&&◌, Option, none, some, List, [], ◌∷◌, ◌++◌, ltb,
  length, if◌then◌else◌,
}
use reflection.Common.Text.{Text, text_eq}
use reflection.Segmentation.Weight.{Weight, finite, add}
use reflection.Segmentation.Message.{
  Message, ToolSource, is_user, is_normal_user_message, is_model_visible_message,
  model_visible_char_weight_of,
}

-- `IndexedMessage`
pub record Indexed : Type 0 where
  pub index : ℕ
  pub source_index : ℕ
  pub turn_index : ℕ
  pub message : Message

-- `CompleteTurn`
pub record Turn : Type 0 where
  pub index : ℕ
  pub user_message_id : Text
  pub char_count : Weight
  pub closed : Bool
  pub messages : List Indexed

-- `CanonicalHistory`
pub record History : Type 0 where
  pub turns : List Turn
  pub messages : List Indexed

-- `turns.flatMap((turn) => turn.messages)`
abbrev pub turn_messages : List Turn → List Indexed
turn_messages [] = []
turn_messages (turn ∷ turns) = turn.messages ++ turn_messages turns

-- The first loop: a turn for each normal user message.
open_turns : ℕ → List Message → List Turn
open_turns n [] = []
open_turns n (message ∷ messages) =
    if is_normal_user_message message
    then record {
      index = n;
      user_message_id = message.id;
      char_count = finite 0;
      closed = false;
      messages = [];
    }
      ∷ open_turns (suc n) messages
    else open_turns n messages

-- `users.get(id)`: a later turn of the same id has replaced an earlier one. `n` is the position of
-- the first turn of the list.
unfoldable pub user_turn : Text → ℕ → List Turn → Option ℕ
user_turn id n [] = none
user_turn id n (turn ∷ turns) = elim (user_turn id (suc n) turns) [
  | some k ↦ some k
  | none ↦ if text_eq turn.user_message_id id then some n else none
]

-- `message.info.parentID && …`
parent_turn : Option Text → List Turn → Option ℕ
parent_turn none turns = none
parent_turn (some []) turns = none
parent_turn (some id) turns = user_turn id 0 turns

-- The turn to which a message belongs.
unfoldable pub turn_of : Message → List Turn → Option ℕ
unfolding parent_turn
turn_of message turns =
    if is_normal_user_message message
    then user_turn message.id 0 turns
    else if not (is_user message.role) && is_model_visible_message message
    then parent_turn message.parent_id turns
    else none

module _ (tools : ToolSource) where
  -- `turn.messages.push(indexed); turn.charCount += …` for the turn at position `k`.
  unfoldable pub push_at : ℕ → Indexed → List Turn → List Turn
  push_at k item [] = []
  push_at zero item (turn ∷ turns) =
      record turn {
        char_count = add turn.char_count (model_visible_char_weight_of tools item.message);
        messages = turn.messages ++ item ∷ [];
      }
      ∷ turns
  push_at (suc k) item (turn ∷ turns) = turn ∷ push_at k item turns

  unfoldable pub place : ℕ → Message → Option ℕ → History → History
  unfolding push_at
  place index message none history = history
  place index message (some k) history =
      let item : Indexed = record {
        index = index;
        source_index = length history.messages;
        turn_index = k;
        message = message;
      } in
      record { turns = push_at k item history.turns; messages = history.messages ++ item ∷ [] }

  -- The second loop.
  unfoldable pub place_all : ℕ → List Message → History → History
  unfolding place
  place_all index [] history = history
  place_all index (message ∷ messages) history =
      place_all (suc index) messages (place index message (turn_of message history.turns) history)

  -- The last loop: `turn.closed = index < completeTurns.length - 1`.
  unfoldable pub close_turns : List Turn → List Turn
  close_turns [] = []
  close_turns (turn ∷ []) = record turn { closed = false } ∷ []
  close_turns (turn ∷ next ∷ turns) = record turn { closed = true } ∷ close_turns (next ∷ turns)

  unfoldable pub canonical_history : List Message → History
  unfolding open_turns turn_of user_turn place_all close_turns
  canonical_history messages =
      let placed = place_all 0 messages (record { turns = open_turns 0 messages; messages = [] }) in
      record placed { turns = close_turns placed.turns }
