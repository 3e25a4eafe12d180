-- ===== src/Tests/Jobs/Sample.antt =====
-- A codec that frames every text by its length, to see that the laws of a codec can hold.
use reflection.Common.{
  ℕ, zero, suc, ◌≡◌, refl, ap, ◌∙◌, Option, none, some, List, [], ◌∷◌, ◌++◌, length, take, drop,
  true, false, leb, if◌then◌else◌,
}
use reflection.Common.Result.{Result, ok, err}
use reflection.Common.Text.{Text, utf16}
use reflection.Jobs.Boundary.{Boundary, turns, messages, native, is_native}
use reflection.Jobs.Codec.{Request, ExtractedClaim, Extraction, Codec, IsCodec}

abbrev frame : Text → Text → Text
frame t rest = length t ∷ (t ++ rest)

abbrev read_text : Text → Text × Text
read_text [] = ([], [])
read_text (n ∷ rest) = (take n rest, drop n rest)

take-frame : (t rest : Text) → take (length t) (t ++ rest) ≡ t
take-frame [] rest = refl
take-frame (u ∷ t) rest = ap (λ (s : Text). u ∷ s) (take-frame t rest)

drop-frame : (t rest : Text) → drop (length t) (t ++ rest) ≡ rest
drop-frame [] rest = refl
drop-frame (u ∷ t) rest = drop-frame t rest

read-frame : (t rest : Text) → read_text (frame t rest) ≡ (t, rest)
read-frame t rest = rw (take-frame t rest, drop-frame t rest)

abbrev frame? : Option Text → Text → Text
frame? none rest = 0 ∷ rest
frame? (some t) rest = 1 ∷ frame t rest

abbrev read_some : Text × Text → Option Text × Text
read_some (t, rest) = (some t, rest)

abbrev read_text? : Text → Option Text × Text
read_text? [] = (none, [])
read_text? (zero ∷ rest) = (none, rest)
read_text? (suc n ∷ rest) = read_some (read_text rest)

read-frame? : (t : Option Text) (rest : Text) → read_text? (frame? t rest) ≡ (t, rest)
read-frame? none rest = refl
read-frame? (some t) rest = ap read_some (read-frame t rest)

abbrev write_boundary : Boundary → Text
write_boundary (turns a b) = 0 ∷ frame a (frame b [])
write_boundary (messages a b c d) = 1 ∷ frame a (frame b (frame c (frame d [])))
write_boundary (native c d) = 2 ∷ frame c (frame d [])

abbrev first : Text → Text
first t = (read_text t).0

abbrev behind : Text → Text
behind t = (read_text t).1

abbrev read_boundary : Text → Boundary
read_boundary (zero ∷ t) = turns (first t) (first (behind t))
read_boundary (suc zero ∷ t) =
    messages (first t) (first (behind t)) (first (behind (behind t)))
      (first (behind (behind (behind t))))
read_boundary (suc (suc n) ∷ t) = native (first t) (first (behind t))
read_boundary [] = native [] []

read-write_boundary : (b : Boundary) → read_boundary (write_boundary b) ≡ b
read-write_boundary (turns a b) = simp (take-frame, drop-frame)
read-write_boundary (messages a b c d) = simp (take-frame, drop-frame)
read-write_boundary (native c d) = simp (take-frame, drop-frame)

abbrev pub write : Request ℕ → Text
write r =
    r.projection_version
    ∷ r.processing_priority
    ∷ r.content
    ∷ frame r.session_id (write_boundary r.boundary)

abbrev pub read : Text → Result Text (Request ℕ)
read (version ∷ priority ∷ content ∷ rest) =
    if leb priority 100
    then ok (record {
      session_id = first rest;
      boundary = read_boundary (behind rest);
      projection_version = version;
      processing_priority = priority;
      content = content;
    })
    else err (utf16 "priority")
read _ = err (utf16 "short")

read-write : (r : Request ℕ) → leb r.processing_priority 100 ≡ true → read (write r) ≡ ok r
read-write r small = rw (
  small,
  take-frame r.session_id (write_boundary r.boundary),
  drop-frame r.session_id (write_boundary r.boundary),
  read-write_boundary r.boundary,
)

abbrev write_claim : ExtractedClaim → Text → Text
write_claim c rest =
    frame c.subject
      (frame c.predicate (frame c.confidence (frame? c.object_entity (frame? c.object_value rest))))

abbrev write_claims : List ExtractedClaim → Text
write_claims [] = []
write_claims (c ∷ claims) = write_claim c (write_claims claims)

abbrev claim_at : Text → ExtractedClaim
claim_at t = record {
  subject = first t;
  predicate = first (behind t);
  confidence = first (behind (behind t));
  object_entity = (read_text? (behind (behind (behind t)))).0;
  object_value = (read_text? (read_text? (behind (behind (behind t)))).1).0;
}

abbrev behind_claim : Text → Text
behind_claim t = (read_text? (read_text? (behind (behind (behind t)))).1).1

abbrev read_claims : ℕ → Text → List ExtractedClaim
read_claims zero t = []
read_claims (suc n) t = claim_at t ∷ read_claims n (behind_claim t)

claim_at-write : (c : ExtractedClaim) (rest : Text) → claim_at (write_claim c rest) ≡ c
claim_at-write c rest = simp (take-frame, drop-frame, read-frame?)

-- Behind the two optional texts.
abbrev behind_two : Text → Text
behind_two t = (read_text? (read_text? t).1).1

behind_claim-write : (c : ExtractedClaim) (rest : Text) → behind_claim (write_claim c rest) ≡ rest
behind_claim-write c rest =
    let value = frame? c.object_value rest in
    let entity = frame? c.object_entity value in
    let confidence = frame c.confidence entity in
    ap (λ (t : Text). behind_two (behind (behind t)))
      (drop-frame c.subject (frame c.predicate confidence))
    ∙ ap (λ (t : Text). behind_two (behind t)) (drop-frame c.predicate confidence)
    ∙ ap behind_two (drop-frame c.confidence entity)
    ∙ ap (λ (x : Option Text × Text). (read_text? x.1).1) (read-frame? c.object_entity value)
    ∙ ap (λ (x : Option Text × Text). x.1) (read-frame? c.object_value rest)

read-write_claims :
    (claims : List ExtractedClaim) → read_claims (length claims) (write_claims claims) ≡ claims
read-write_claims [] = refl
read-write_claims (c ∷ claims) =
    rw (claim_at-write c (write_claims claims), behind_claim-write c (write_claims claims))
      (ap (λ (cs : List ExtractedClaim). c ∷ cs) (read-write_claims claims))

abbrev pub write_extraction : Extraction → Text
write_extraction e = length e.claims ∷ frame e.summary (write_claims e.claims)

abbrev pub read_extraction : Text → Extraction
read_extraction [] = record { summary = []; claims = [] }
read_extraction (n ∷ rest) = record { summary = first rest; claims = read_claims n (behind rest) }

read-write_extraction : (e : Extraction) → read_extraction (write_extraction e) ≡ e
read-write_extraction e = rw (
  take-frame e.summary (write_claims e.claims),
  drop-frame e.summary (write_claims e.claims),
  read-write_claims e.claims,
)

-- The priority is no part of a fingerprint.
abbrev print : Request ℕ → Text
print r = write (record r { processing_priority = 0 })

abbrev print_read : Result Text (Request ℕ) → Text
print_read (ok r) = print r
print_read (err e) = e

-- A native request is written with its session as its source.
abbrev without_session : Text → Text → Text
without_session (suc (suc n) ∷ boundary) t = suc (suc n) ∷ boundary
without_session _ t = t

abbrev without_source_id : Text → Text
without_source_id (version ∷ priority ∷ content ∷ rest) =
    without_session (behind rest) (version ∷ priority ∷ content ∷ rest)
without_source_id t = t

without_session-write :
    (b : Boundary) (t : Text) → is_native b ≡ false → without_session (write_boundary b) t ≡ t
without_session-write (turns x y) t e = refl
without_session-write (messages x y z w) t e = refl
without_session-write (native x y) t e = cc

without-write :
    (b : Boundary) (r : Request ℕ)
    → is_native b ≡ false
    → r.boundary ≡ b
    → without_source_id (write r) ≡ write r
without-write b r e same =
    rw (drop-frame r.session_id (write_boundary r.boundary))
      (without_session-write r.boundary (write r) (rw same e))

abbrev pub codec : Codec ℕ
codec = record {
  segment = utf16 "s1";
  native_source = false;
  accepts = λ r. leb r.processing_priority 100;
  segment_id = λ r. r.session_id;
  fingerprint = print;
  encode = write;
  decode = read;
  projection_fingerprint = λ b summary version. version ∷ summary;
  write_extraction = write_extraction;
  parse_extraction = λ t. ok (read_extraction t);
  stored_summary = λ t. (read_extraction t).summary;
  stored_fingerprint = λ mark t. print_read (read t);
  stored_projection_fingerprint = λ mark summary version. version ∷ summary;
  validation_fingerprint = λ t version fingerprint. version ∷ t;
  without_source_id = without_source_id;
}

pub laws : IsCodec codec
laws = record {
  decode-encode = read-write;
  encoded_without_source_id = λ r legacy. without-write r.boundary r legacy refl;
  accepts-priority = λ r s h k. k;
  segment_id-priority = λ r n. refl;
  fingerprint-priority = λ r n. refl;
}
