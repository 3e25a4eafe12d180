-- ===== src/Segmentation/Pack/Limits.antt =====
-- What `packTurns` makes of turns that each fit the limit.
use mathlib.Core.List.{Perm, append_assoc, append-nil, map-append}
use mathlib.Core.List.Perm
use reflection.Common.{
  ℕ, ◌≡◌, ◌∙◌, refl, sym, ap, inl, inr, Bool, true, false, not, ◌&&◌, none, List, [], ◌∷◌, ◌++◌,
  arith, All, All-append, All-map, Bool-cases, if◌then◌else◌,
}
use reflection.Common.Result.{ok, throw_if, >>=-eq-ok, throw_if-eq-ok}
use reflection.Common.Text.{Text}
use reflection.Segmentation.Fragment.{is_empty}
use reflection.Segmentation.History.{Turn, turn_messages}
use reflection.Segmentation.Message.{ToolSource}
use reflection.Segmentation.Pack.{
  Packing, flush, is_full, take_turn, pack_turn, pack_all, pack_turns,
}
use reflection.Segmentation.Segment.{Segment, ids, turns_weight, make_v1_segment}
use reflection.Segmentation.Segment.Members.{make_v1_segment-IsOfTurns}
use reflection.Segmentation.Weight.{Weight, finite, add, exceeds}

-- The source messages that the segments name.
abbrev pub members : List Segment → List Text
members [] = []
members (s ∷ segments) = s.source_message_ids ++ members segments

pub members-append : (xs ys : List Segment) → members (xs ++ ys) ≡ members xs ++ members ys
members-append [] ys = refl
members-append (x ∷ xs) ys = simp (members-append xs ys, append_assoc)

pub turn_messages-append :
    (xs ys : List Turn) → turn_messages (xs ++ ys) ≡ turn_messages xs ++ turn_messages ys
turn_messages-append [] ys = refl
turn_messages-append (x ∷ xs) ys = simp (turn_messages-append xs ys, append_assoc)

turns_weight-append :
    (xs : List Turn) (y : Turn) → turns_weight (xs ++ y ∷ []) ≡ add (turns_weight xs) y.char_count
turns_weight-append [] y = ground arith
turns_weight-append (x ∷ xs) y = ground (arith, turns_weight-append xs y)

pub ids-snoc :
    (turns : List Turn) (turn : Turn)
    → ids (turn_messages (turns ++ turn ∷ [])) ≡ ids (turn_messages turns) ++ ids turn.messages
ids-snoc turns turn = simp (turn_messages-append, map-append, append-nil)

module _ (tools : ToolSource) (max_chars : ℕ) where
  -- The segment fits the limit.
  abbrev pub Fits : Segment → Type 0
  Fits s = exceeds s.char_count max_chars ≡ false

  -- From `before`, the segments and the open turns of `p` hold the turns `taken`; the new
  -- segments fit the limit and are closed.
  pub record IsPacked (before : List Segment) (taken : List Turn) (p : Packing) : Type 0 where
    pub added : List Segment
    pub appended : p.segments ≡ before ++ added
    pub fit : All (λ s. Fits s × (s.closed ≡ true)) added
    pub members : Perm (members added ++ ids (turn_messages p.current)) (ids (turn_messages taken))
    pub weighed : p.current_chars ≡ turns_weight p.current
    pub room : exceeds p.current_chars max_chars ≡ false

  -- The segment of the open turns stands behind the others.
  flush_fields :
      (closed : Bool) (p q : Packing)
      → flush tools max_chars closed p ≡ ok q
      → (s : Segment) × (make_v1_segment tools p.current closed none ≡ ok s)
        × (q ≡ record { segments = p.segments ++ s ∷ []; current = []; current_chars = finite 0 })
  unfolding flush
  flush_fields closed p q e =
      let (s, made, same) = >>=-eq-ok (make_v1_segment tools p.current closed none) _ e in
      (s, made, ground arith)

  add_segment :
      (added : List Segment) (s : Segment) (items taken : List Text)
      → Perm s.source_message_ids items
      → Perm (members added ++ items) taken
      → Perm (members (added ++ s ∷ [])) taken
  add_segment added s items taken p h =
      rw (members-append, append-nil) (Perm.trans (Perm.append_left (members added) p) h)

  flush-IsPacked :
      (before : List Segment) (taken : List Turn) (p q : Packing)
      → IsPacked before taken p
      → flush tools max_chars true p ≡ ok q
      → IsPacked before taken q
  flush-IsPacked before taken p q h e =
      let (s, made, same) = flush_fields true p q e in
      let (named, weight, closed) = make_v1_segment-IsOfTurns tools p.current true none s made in
      rw same (record {
        added = h.added ++ s ∷ [];
        appended = ap (λ t. t ++ s ∷ []) h.appended ∙ append_assoc before h.added (s ∷ []);
        fit =
            All-append (λ s. Fits s × (s.closed ≡ true)) h.added (s ∷ []) h.fit
              ((cc (h.room, h.weighed, weight), closed), tt);
        members = rw append-nil (add_segment h.added s _ _ named h.members);
        weighed = refl;
        room = ground arith;
      })

  room_for :
      (current : List Turn) (chars w : Weight)
      → chars ≡ turns_weight current
      → (not (is_empty current) && exceeds (add chars w) max_chars) ≡ false
      → exceeds w max_chars ≡ false
      → exceeds (add chars w) max_chars ≡ false
  room_for [] chars w e f small = ground arith
  room_for (turn ∷ turns) chars w e f small = f

  take_turn-IsPacked :
      (before : List Segment) (taken : List Turn) (turn : Turn) (p : Packing)
      → IsPacked before taken p
      → exceeds turn.char_count max_chars ≡ false
      → is_full tools max_chars p turn ≡ false
      → IsPacked before (taken ++ turn ∷ []) (take_turn tools max_chars turn p)
  unfolding take_turn is_full
  take_turn-IsPacked before taken turn p h small e = record {
    added = h.added;
    appended = h.appended;
    fit = h.fit;
    members = rw (ids-snoc, ids-snoc, ← append_assoc) (Perm.append_right _ h.members);
    weighed = rw turns_weight-append (ap (λ w. add w turn.char_count) h.weighed);
    room = room_for p.current p.current_chars turn.char_count h.weighed e small;
  }

  flush_if-IsPacked :
      (b : Bool) (before : List Segment) (taken : List Turn) (p q : Packing)
      → IsPacked before taken p
      → (if b then flush tools max_chars true p else ok p) ≡ ok q
      → IsPacked before taken q
  flush_if-IsPacked true before taken p q h e = flush-IsPacked before taken p q h e
  flush_if-IsPacked false before taken p q h e = let same : p ≡ q = ground arith in rw (← same) h

  -- Behind the first flush there is room for the turn.
  flush_if-has_room :
      (turn : Turn) (p q : Packing)
      → (if is_full tools max_chars p turn then flush tools max_chars true p else ok p) ≡ ok q
      → is_full tools max_chars q turn ≡ false
  flush_if-has_room turn p q e = elim (Bool-cases (is_full tools max_chars p turn)) [
    | inl full ↦
        let (s, _, same) = flush_fields true p q (rw full at e) in rw same (unfold is_full in refl)
    | inr room ↦ let same : p ≡ q = ground arith in rw (← same) room
  ]

  pack_turn-IsPacked :
      (before : List Segment) (taken : List Turn) (turn : Turn) (p q : Packing)
      → IsPacked before taken p
      → pack_turn tools max_chars p turn ≡ ok q
      → IsPacked before (taken ++ turn ∷ []) q
  unfolding pack_turn
  pack_turn-IsPacked before taken turn p q h e =
      let (_, thrown, e₁) = >>=-eq-ok (throw_if (exceeds turn.char_count max_chars) _) _ e in
      let (room, made, e₂) =
        >>=-eq-ok (if is_full tools max_chars p turn then flush tools max_chars true p else ok p) _
          e₁ in
      let kept = flush_if-IsPacked _ before taken p room h made in
      flush_if-IsPacked _ before _ _ q
        (take_turn-IsPacked before taken turn room kept (throw_if-eq-ok _ _ thrown)
          (flush_if-has_room turn p room made))
        e₂

  pack_all-IsPacked :
      (before : List Segment) (taken turns : List Turn) (p q : Packing)
      → IsPacked before taken p
      → pack_all tools max_chars p turns ≡ ok q
      → IsPacked before (taken ++ turns) q
  unfolding pack_all
  pack_all-IsPacked before taken [] p q h e =
      let same : p ≡ q = ground arith in rw (append-nil, ← same) h
  pack_all-IsPacked before taken (turn ∷ turns) p q h e =
      let (next, made, rest) = >>=-eq-ok (pack_turn tools max_chars p turn) _ e in
      rw (← append_assoc taken (turn ∷ []) turns) (
        pack_all-IsPacked before (taken ++ turn ∷ []) turns next q
          (pack_turn-IsPacked before taken turn p next h made) rest)

  -- What `packTurns` adds to the segments: it fits the limit, holds the turns' messages, and is
  -- closed but for the last, which is closed on demand.
  pub record Packs (turns : List Turn) (force_closed : Bool) (added : List Segment) : Type 0 where
    pub fit : All Fits added
    pub members : Perm (members added) (ids (turn_messages turns))
    pub closed : force_closed ≡ true → All (λ s. s.closed ≡ true) added

  none_left :
      (current : List Turn) (xs : List Segment) (taken : List Text)
      → is_empty current ≡ true
      → Perm (members xs ++ ids (turn_messages current)) taken
      → Perm (members xs) taken
  none_left [] xs taken e h = rw append-nil at h
  none_left (turn ∷ turns) xs taken e h = cc

  last_flush :
      (before : List Segment) (turns : List Turn) (force_closed : Bool) (p q : Packing)
      → IsPacked before turns p
      → (if is_empty p.current then ok p else flush tools max_chars force_closed p) ≡ ok q
      → (added : List Segment) × (q.segments ≡ before ++ added) × Packs turns force_closed added
  last_flush before turns force_closed p q h e = elim (Bool-cases (is_empty p.current)) [
    | inl none_open ↦
        let same : p ≡ q = ground arith in
        (
          h.added,
          rw (← same) h.appended,
          record {
            fit = All-map h.added (λ s f. f.0) h.fit;
            members = none_left p.current h.added _ none_open h.members;
            closed = λ _. All-map h.added (λ s f. f.1) h.fit;
          },
        )
    | inr open_turns ↦
        let (s, made, same) = flush_fields force_closed p q (rw open_turns at e) in
        let (named, weight, closed) =
          make_v1_segment-IsOfTurns tools p.current force_closed none s made in
        (
          h.added ++ s ∷ [],
          rw same (ap (λ t. t ++ s ∷ []) h.appended ∙ append_assoc before h.added (s ∷ [])),
          record {
            fit =
                All-append Fits h.added (s ∷ []) (All-map h.added (λ s f. f.0) h.fit)
                  (cc (h.room, h.weighed, weight), tt);
            members = add_segment h.added s _ _ named h.members;
            closed = λ forced.
                All-append (λ s. s.closed ≡ true) h.added (s ∷ [])
                  (All-map h.added (λ s f. f.1) h.fit) (closed ∙ forced, tt);
          },
        )
  ]

  -- Where `packTurns` returns, it has added segments behind the given ones that all fit the limit
  -- and together name the messages of the turns, each as often; with `forceClosed` all of them are
  -- closed.
  pub pack_turns-Packs :
      (turns : List Turn) (force_closed : Bool) (before segments : List Segment)
      → pack_turns tools max_chars turns force_closed before ≡ ok segments
      → (added : List Segment) × (segments ≡ before ++ added) × Packs turns force_closed added
  unfolding pack_turns
  pack_turns-Packs turns force_closed before segments e =
      let start : Packing = record { segments = before; current = []; current_chars = finite 0 } in
      let (p, packed, e₁) = >>=-eq-ok (pack_all tools max_chars start turns) _ e in
      let (q, flushed, e₂) =
        >>=-eq-ok (if is_empty p.current then ok p else flush tools max_chars force_closed p) _
          e₁ in
      let same : q.segments ≡ segments = ground arith in
      rw (← same) (
        last_flush before turns force_closed p q
          (pack_all-IsPacked before [] turns start p
            (record {
              added = [];
              appended = sym (append-nil before);
              fit = tt;
              members = Perm.refl [];
              weighed = refl;
              room = ground arith;
            })
            packed)
          flushed)
