-- ===== src/Domain/Resolution/Mentions.antt =====
-- What a validated resolution plan says of its mentions.
use reflection.Common.{
  ◌≡◌, ◌⊎◌, ◌∙◌, refl, sym, ap, inl, inr, Bool, true, Option, none, some, List, [], ◌∷◌, arith,
  Bool-cases, Option-cases, find,
}
use reflection.Common.Text.{Text, text_eq, text_eq_sound}
use reflection.Domain.Resolution.{
  EntityCandidate, MentionContext, Resolution, Mention, Selection, candidate_of, request_candidate,
  substitute, select_from, select,
}

-- Some element of the list has the property.
abbrev pub Some : {A : Type 0} → (A → Type 0) → List A → Type 0
Some P [] = ⊥
Some P (x ∷ xs) = P x ⊎ Some P xs

-- The candidate was supplied with some mention of the request.
abbrev pub Supplied : List MentionContext → EntityCandidate → Type 0
Supplied contexts c =
    Some (λ (context : MentionContext). Some (λ d. d ≡ c) context.candidates) contexts

find-some :
    {A : Type 0} (p : A → Bool) (xs : List A) (x : A)
    → find p xs ≡ some x
    → (p x ≡ true) × Some (λ y. y ≡ x) xs
find-some p [] x e = cc
find-some p (y ∷ ys) x e = elim (Bool-cases (p y)) [
  | inl yes_here ↦
      let same : y ≡ x = ground (arith, rw (yes_here, find) at e) in
      (rw (← same) yes_here, inl same)
  | inr later ↦ let (good, among) = find-some p ys x (rw (later, find) at e) in (good, inr among)
]

-- The resolution of a mention names an entity if and only if the mention has a selected candidate;
-- it is the candidate's id, and the candidate was supplied.
abbrev pub IsGrounded : List MentionContext → Mention → Type 0
IsGrounded contexts m =
    ((m.resolution.candidate_entity_id ≡ none) × (m.selected_candidate ≡ none))
    ⊎ ((c : EntityCandidate) × (m.resolution.candidate_entity_id ≡ some c.id)
        × (m.selected_candidate ≡ some c)
        × Supplied contexts c)

candidate_of-Supplied :
    (id : Text) (cs : List EntityCandidate) (c : EntityCandidate)
    → candidate_of id cs ≡ some c
    → (c.id ≡ id) × Some (λ d. d ≡ c) cs
unfolding candidate_of
candidate_of-Supplied id cs c e =
    let (same, among) = find-some (λ (d : EntityCandidate). text_eq d.id id) cs c e in
    (text_eq_sound c.id id same, among)

request_candidate-Supplied :
    (id : Text) (contexts : List MentionContext) (c : EntityCandidate)
    → request_candidate id contexts ≡ some c
    → (c.id ≡ id) × Supplied contexts c
unfolding request_candidate
request_candidate-Supplied id [] c e = cc
request_candidate-Supplied id (x ∷ xs) c e = elim (Option-cases (candidate_of id x.candidates)) [
  | inl gone ↦
      let (same, among) = request_candidate-Supplied id xs c (rw (gone, request_candidate) at e) in
      (same, inr among)
  | inr (d, found) ↦
      let same : d ≡ c = ground (arith, rw (found, request_candidate) at e) in
      let (id_same, among) = candidate_of-Supplied id x.candidates d found in
      rw (← same) (id_same, inl among)
]

-- A selection as a mention of its context.
abbrev pub mention_of : MentionContext → Selection → Mention
mention_of context s = record {
  context = context;
  resolution = s.resolution;
  selected_candidate = s.candidate;
}

pub select-IsGrounded :
    (contexts : List MentionContext) (context : MentionContext) (r : Resolution)
    (wanted : Option Text)
    → r.candidate_entity_id ≡ wanted
    → ((c : EntityCandidate) → Some (λ d. d ≡ c) context.candidates → Supplied contexts c)
    → IsGrounded contexts (mention_of context (select contexts context r wanted))
unfolding select
select-IsGrounded contexts context r none same own = inl (same, refl)
select-IsGrounded contexts context r (some id) same own =
    elim (Option-cases (candidate_of id context.candidates)) [
      | inr (c, found) ↦
          let (id_same, among) = candidate_of-Supplied id context.candidates c found in
          rw (found, select_from) (inr (c, same ∙ ap some (sym id_same), refl, own c among))
      | inl gone ↦ elim (Option-cases (request_candidate id contexts)) [
        | inr (c, found) ↦
            let (id_same, supplied) = request_candidate-Supplied id contexts c found in
            rw (gone, select_from, found, substitute)
              (inr (c, same ∙ ap some (sym id_same), refl, supplied))
        | inl nowhere ↦ rw (gone, select_from, nowhere, substitute) (inl (refl, refl))
      ]
    ]
