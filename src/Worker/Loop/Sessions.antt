-- ===== src/Worker/Loop/Sessions.antt =====
-- The live tasks of the work loop and their sessions.
use reflection.Common.{
  ℕ, zero, suc, ◌≤◌, ◌≡◌, inl, inr, refl, true, false, some, List, [], ◌∷◌, ◌++◌, arith, length,
  Bool-cases, Option-cases,
}
use reflection.Common.Text.{text_eq_sound, text_eq_refl}
use reflection.Worker.Process.{Job}
use reflection.Worker.Loop.{
  Session, session_of, same_session, has_session, Task, delete_session, finish_at, settle_at,
}

-- The sessions of the live tasks.
abbrev pub live_sessions : List Task → List Session
live_sessions [] = []
live_sessions (t ∷ ts) = elim t.live [
  | true ↦ session_of t.job ∷ live_sessions ts
  | false ↦ live_sessions ts
]

-- No session occurs twice.
abbrev pub AreDistinct : List Session → Type 0
AreDistinct [] = Unit
AreDistinct (s ∷ ss) = (has_session ss s ≡ false) × AreDistinct ss

same_session_sound : (a b : Session) → same_session a b ≡ true → a ≡ b
same_session_sound a b h = cc (
  text_eq_sound a.source_id b.source_id (ground arith),
  text_eq_sound a.session_id b.session_id (ground arith),
)

same_session_refl : (a : Session) → same_session a a ≡ true
same_session_refl a = rw (text_eq_refl a.source_id, text_eq_refl a.session_id) refl

pub finish_at-length :
    (k : ℕ) (ts : List Task) (found : Job × List Task)
    → finish_at k ts ≡ some found
    → length found.1 ≡ length ts
unfolding finish_at
finish_at-length k [] found e = cc
finish_at-length zero (t ∷ ts) found e = ground arith
finish_at-length (suc k) (t ∷ ts) found e = elim (Option-cases (finish_at k ts)) [
  | inl gone ↦ cc (rw gone at e)
  | inr (inner, here) ↦
      let ih = finish_at-length k ts inner here in let same = rw here at e in ground arith
]

pub settle_at-length :
    (k : ℕ) (ts rest : List Task) → settle_at k ts ≡ some rest → length rest ≤ length ts
unfolding settle_at
settle_at-length k [] rest e = cc
settle_at-length zero (t ∷ ts) rest e = ground arith
settle_at-length (suc k) (t ∷ ts) rest e = elim (Option-cases (settle_at k ts)) [
  | inl gone ↦ cc (rw gone at e)
  | inr (inner, here) ↦
      let ih = settle_at-length k ts inner here in let same = rw here at e in ground arith
]

pub settle_at-live :
    (k : ℕ) (ts rest : List Task)
    → settle_at k ts ≡ some rest
    → live_sessions rest ≡ live_sessions ts
unfolding settle_at
settle_at-live k [] rest e = cc
settle_at-live zero (t ∷ ts) rest e = ground arith
settle_at-live (suc k) (t ∷ ts) rest e = elim (Option-cases (settle_at k ts)) [
  | inl gone ↦ cc (rw gone at e)
  | inr (inner, here) ↦
      let ih = settle_at-live k ts inner here in let same = rw here at e in ground arith
]

has_session-cons :
    (a s : Session) (ss : List Session) → has_session ss s ≡ true → has_session (a ∷ ss) s ≡ true
has_session-cons a s ss h = ground arith

finish_at-has_session :
    (k : ℕ) (ts : List Task) (found : Job × List Task)
    → finish_at k ts ≡ some found
    → has_session (live_sessions ts) (session_of found.0) ≡ true
unfolding finish_at
finish_at-has_session k [] found e = cc
finish_at-has_session zero (t ∷ ts) found e = elim (Bool-cases t.live) [
  | inl live ↦
      let same : t.job ≡ found.0 = ground arith in
      rw (← same) (rw live (rw (same_session_refl (session_of t.job)) refl))
  | inr dead ↦ cc (rw dead at e)
]
finish_at-has_session (suc k) (t ∷ ts) found e = elim (Option-cases (finish_at k ts)) [
  | inl gone ↦ cc (rw gone at e)
  | inr (inner, here) ↦
      let ih = finish_at-has_session k ts inner here in
      let same : inner.0 ≡ found.0 = ground (arith, rw here at e) in
      rw (← same) (elim (Bool-cases t.live) [
        | inl live ↦
            rw live (has_session-cons (session_of t.job) (session_of inner.0) (live_sessions ts) ih)
        | inr dead ↦ rw dead ih
      ])
]

pub delete_session-has_session :
    (s x : Session) (ss : List Session)
    → has_session ss x ≡ false
    → has_session (delete_session s ss) x ≡ false
unfolding delete_session
delete_session-has_session s x [] h = refl
delete_session-has_session s x (a ∷ ss) h = ground (arith, delete_session-has_session s x ss)

pub delete_session-AreDistinct :
    (s : Session) (ss : List Session) → AreDistinct ss → AreDistinct (delete_session s ss)
unfolding delete_session
delete_session-AreDistinct s [] h = tt
delete_session-AreDistinct s (a ∷ ss) (new, h) = elim (Bool-cases (same_session a s)) [
  | inl e ↦ rw e h
  | inr e ↦ rw e (delete_session-has_session s a ss new, delete_session-AreDistinct s ss h)
]

other_session :
    (a b : Session) (ss : List Session)
    → has_session ss a ≡ false
    → has_session ss b ≡ true
    → same_session a b ≡ false
other_session a b ss absent present = elim (Bool-cases (same_session a b)) [
  | inr e ↦ e
  | inl e ↦ let same = same_session_sound a b e in cc (rw (← same) at present)
]

pub finish_at-live :
    (k : ℕ) (ts : List Task) (found : Job × List Task)
    → finish_at k ts ≡ some found
    → AreDistinct (live_sessions ts)
    → live_sessions found.1 ≡ delete_session (session_of found.0) (live_sessions ts)
unfolding finish_at delete_session
finish_at-live k [] found e d = cc
finish_at-live zero (t ∷ ts) found e d = elim (Bool-cases t.live) [
  | inl live ↦
      let same : (t.job, record t { live = false } ∷ ts) ≡ found = ground (arith, rw live at e) in
      rw (← same) (rw (live, same_session_refl (session_of t.job)) refl)
  | inr dead ↦ cc (rw dead at e)
]
finish_at-live (suc k) (t ∷ ts) found e d = elim (Option-cases (finish_at k ts)) [
  | inl gone ↦ cc (rw gone at e)
  | inr (inner, here) ↦
      let same : (inner.0, t ∷ inner.1) ≡ found = ground (arith, rw here at e) in
      rw (← same) (elim (Bool-cases t.live) [
        | inl live ↦
            let (new, later) : AreDistinct (session_of t.job ∷ live_sessions ts) = rw live at d in
            let apart =
              other_session (session_of t.job) (session_of inner.0) (live_sessions ts) new
                (finish_at-has_session k ts inner here) in
            rw (live, apart, finish_at-live k ts inner here later) refl
        | inr dead ↦
            let later : AreDistinct (live_sessions ts) = rw dead at d in
            rw (dead, finish_at-live k ts inner here later) refl
      ])
]

has_session-append :
    (ss : List Session) (s x : Session)
    → has_session ss x ≡ false
    → same_session s x ≡ false
    → has_session (ss ++ s ∷ []) x ≡ false
has_session-append [] s x h k = ground arith
has_session-append (a ∷ ss) s x h k = ground (arith, has_session-append ss s x)

same_session_sym : (a b : Session) → same_session a b ≡ false → same_session b a ≡ false
same_session_sym a b h = elim (Bool-cases (same_session b a)) [
  | inr e ↦ e
  | inl e ↦ let same = same_session_sound b a e in cc (rw (same, same_session_refl a) at h)
]

pub AreDistinct-append :
    (ss : List Session) (s : Session)
    → AreDistinct ss
    → has_session ss s ≡ false
    → AreDistinct (ss ++ s ∷ [])
AreDistinct-append [] s d h = (refl, tt)
AreDistinct-append (a ∷ ss) s (new, d) h = (
  has_session-append ss s a new (same_session_sym a s (ground arith)),
  AreDistinct-append ss s d (ground arith),
)

pub live_sessions-append :
    (ts : List Task) (job : Job)
    → live_sessions (ts ++ record { job = job; live = true } ∷ [])
      ≡ live_sessions ts ++ session_of job ∷ []
live_sessions-append [] job = refl
live_sessions-append (t ∷ ts) job = elim (Bool-cases t.live) [
  | inl e ↦ rw (e, live_sessions-append ts job) refl
  | inr e ↦ rw (e, live_sessions-append ts job) refl
]
