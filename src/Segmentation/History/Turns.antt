-- ===== src/Segmentation/History/Turns.antt =====
-- The turns and the source messages of a history are the same messages.
use mathlib.Core.List.{Perm, perm_middle, append_assoc, append-nil}
use mathlib.Core.List.Perm
use reflection.Common.{
  ℕ, zero, suc, ◌+◌, ◌<◌, ◌≡◌, refl, ap, Option, none, some, inl, inr, List, [], ◌∷◌, ◌++◌, arith,
  Option-cases, Bool-cases, length,
}
use reflection.Common.Text.{Text}
use reflection.Segmentation.Message.{Message, ToolSource, is_normal_user_message}
use reflection.Segmentation.History.{
  Indexed, Turn, History, turn_messages, open_turns, user_turn, parent_turn, turn_of, push_at,
  place, place_all, close_turns, canonical_history,
}

user_turn-lt-length :
    (id : Text) (n : ℕ) (turns : List Turn) (k : ℕ)
    → user_turn id n turns ≡ some k
    → k < n + length turns
unfolding user_turn
user_turn-lt-length id n [] k e = cc
user_turn-lt-length id n (turn ∷ turns) k e = elim (Option-cases (user_turn id (suc n) turns)) [
  | inl missed ↦ ground (arith, rw (missed, user_turn) at e)
  | inr (j, found) ↦ ground (arith, user_turn-lt-length id (suc n) turns j found)
]

turn_of-lt-length :
    (message : Message) (turns : List Turn) (k : ℕ)
    → turn_of message turns ≡ some k
    → k < length turns
unfolding turn_of parent_turn
turn_of-lt-length message turns k e =
    ground (arith, user_turn-lt-length message.id 0 turns k, parent message.parent_id)
  where
    parent : (id : Option Text) → parent_turn id turns ≡ some k → k < length turns
    parent none h = cc
    parent (some []) h = cc
    parent (some (c ∷ id)) h = omega (arith, user_turn-lt-length (c ∷ id) 0 turns k h)

open_turns-empty : (n : ℕ) (messages : List Message) → turn_messages (open_turns n messages) ≡ []
unfolding open_turns
open_turns-empty n [] = refl
open_turns-empty n (message ∷ messages) = elim (Bool-cases (is_normal_user_message message)) [
  | inl e ↦ rw e (open_turns-empty (suc n) messages)
  | inr e ↦ rw e (open_turns-empty n messages)
]

close_turns-messages :
    (tools : ToolSource) (turns : List Turn)
    → turn_messages (close_turns tools turns) ≡ turn_messages turns
unfolding close_turns
close_turns-messages tools [] = refl
close_turns-messages tools (turn ∷ []) = refl
close_turns-messages tools (turn ∷ next ∷ turns) =
    ap (λ ms. turn.messages ++ ms) (close_turns-messages tools (next ∷ turns))

module _ (tools : ToolSource) where
  push_at-perm :
      (k : ℕ) (item : Indexed) (turns : List Turn)
      → k < length turns
      → Perm (turn_messages (push_at tools k item turns)) (item ∷ turn_messages turns)
  unfolding push_at
  push_at-perm k item [] h = elim h [ ]
  push_at-perm zero item (turn ∷ turns) h =
      rw append_assoc (perm_middle turn.messages (turn_messages turns))
  push_at-perm (suc k) item (turn ∷ turns) h =
      Perm.trans (Perm.append_left turn.messages (push_at-perm k item turns (omega arith)))
        (perm_middle turn.messages (turn_messages turns))

  abbrev SameMessages : History → Type 0
  SameMessages history = Perm (turn_messages history.turns) history.messages

  at_end : (item : Indexed) (ms : List Indexed) → Perm (item ∷ ms) (ms ++ item ∷ [])
  at_end item ms =
      Perm.symm
        (let p : Perm (ms ++ item ∷ []) (item ∷ ms ++ []) = perm_middle ms [] in rw append-nil at p)

  place-SameMessages :
      (index : ℕ) (message : Message) (k : Option ℕ) (history : History)
      → k ≡ turn_of message history.turns
      → SameMessages history
      → SameMessages (place tools index message k history)
  unfolding place
  place-SameMessages index message none history e h = h
  place-SameMessages index message (some k) history e h =
      Perm.trans (push_at-perm k _ history.turns (turn_of-lt-length message history.turns k (cc)))
        (Perm.trans (Perm.cons _ h) (at_end _ history.messages))

  place_all-SameMessages :
      (index : ℕ) (messages : List Message) (history : History)
      → SameMessages history
      → SameMessages (place_all tools index messages history)
  unfolding place_all
  place_all-SameMessages index [] history h = h
  place_all-SameMessages index (message ∷ messages) history h =
      place_all-SameMessages (suc index) messages _
        (place-SameMessages index message _ history refl h)

  -- The messages of the turns of a history are its source messages, each as often.
  pub canonical_history-SameMessages :
      (messages : List Message)
      → Perm
          (turn_messages (canonical_history tools messages).turns)
          (canonical_history tools messages).messages
  unfolding canonical_history
  canonical_history-SameMessages messages =
      rw (close_turns-messages tools)
        (place_all-SameMessages 0 messages _ (rw open_turns-empty (Perm.refl [])))
