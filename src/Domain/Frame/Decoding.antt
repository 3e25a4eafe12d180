-- ===== src/Domain/Frame/Decoding.antt =====
-- A frame can be taken off the front of a text in one way only.
use mathlib.Core.List.{append_assoc}
use reflection.Common.{
  ℕ, zero, suc, ◌+◌, ◌-◌, ◌*◌, ◌/◌, ◌%◌, ◌<◌, ◌≡◌, ◌⊎◌, ◌∙◌, refl, sym, ap, inl, inr, false, [],
  ◌∷◌, ◌++◌, arith, ltb, ◌==◌, Bool-cases, if◌then◌else◌,
}
use reflection.Common.Text.{Text}
use reflection.Domain.Frame.{utf8_bytes, digits, decimal, utf8_frame}

-- The number up to the first colon, and what stands behind it.
read : ℕ → Text → ℕ × Text
read acc [] = (acc, [])
read acc (c ∷ t) = let rest = read (acc * 10 + (c - 48)) t in if c == 58 then (acc, t) else rest

read-digit :
    (d acc : ℕ) (rest : Text) → d < 10 → read acc ((48 + d) ∷ rest) ≡ read (acc * 10 + d) rest
unfolding read
read-digit d acc rest h =
    let no_colon : ((48 + d) == 58) ≡ false = ground arith in
    let value : 48 + d - 48 ≡ d = omega arith in rw no_colon (rw value)

read-digits : (fuel n : ℕ) (rest : Text) → n < fuel → read 0 (digits fuel n rest) ≡ read n rest
unfolding digits
read-digits zero n rest h = absurd (omega arith)
read-digits (suc fuel) n rest h = elim (Bool-cases (ltb n 10)) [
  | inl small ↦
      let value : 0 * 10 + n ≡ n = omega arith in
      rw small (read-digit n 0 rest (ground arith) ∙ ap (λ k. read k rest) value)
  | inr big ↦
      let value : n / 10 * 10 + n % 10 ≡ n = omega arith in
      rw big (
        read-digits fuel (n / 10) ((48 + n % 10) ∷ rest) (ground arith)
        ∙ read-digit (n % 10) (n / 10) rest (omega arith)
        ∙ ap (λ k. read k rest) value)
]

digits-append : (fuel n : ℕ) (xs ys : Text) → digits fuel n xs ++ ys ≡ digits fuel n (xs ++ ys)
unfolding digits
digits-append zero n xs ys = refl
digits-append (suc fuel) n xs ys = elim (Bool-cases (ltb n 10)) [
  | inl small ↦ rw small
  | inr big ↦ rw big (digits-append fuel (n / 10) ((48 + n % 10) ∷ xs) ys)
]

-- A number, a colon and a text are read back.
read-decimal : (n : ℕ) (rest : Text) → read 0 (decimal n ++ (58 ∷ rest)) ≡ (n, rest)
unfolding decimal read
read-decimal n rest =
    rw (digits-append (suc n) n [] (58 ∷ rest)) (read-digits (suc n) n (58 ∷ rest) (omega arith))

pub decimal_count :
    (m n : ℕ) (xs ys : Text) → decimal m ++ (58 ∷ xs) ≡ decimal n ++ (58 ∷ ys) → (m ≡ n) × (xs ≡ ys)
decimal_count m n xs ys e =
    let same : (m, xs) ≡ (n, ys) = sym (read-decimal m xs) ∙ ap (read 0) e ∙ read-decimal n ys in
    (ap (λ (p : ℕ × Text). p.0) same, ap (λ (p : ℕ × Text). p.1) same)

-- More code units are more bytes, also where they complete a surrogate pair.
bytes-lt-append : (v : Text) (d : ℕ) (ds : Text) → utf8_bytes v < utf8_bytes (v ++ d ∷ ds)
unfolding utf8_bytes
bytes-lt-append [] d [] = ground arith
bytes-lt-append [] d (e ∷ ds) = ground arith
bytes-lt-append (a ∷ []) d ds = ground (arith, bytes-lt-append [] d ds)
bytes-lt-append (a ∷ b ∷ t) d ds =
    ground (arith, bytes-lt-append t d ds, bytes-lt-append (b ∷ t) d ds)

-- Of two texts that begin a common text, one begins the other.
abbrev Aligned : Text → Text → Text → Text → Type 0
Aligned v w xs ys =
    ((v ≡ w) × (xs ≡ ys))
    ⊎ (((d : ℕ) × (ds : Text) × (w ≡ v ++ d ∷ ds)) ⊎ ((d : ℕ) × (ds : Text) × (v ≡ w ++ d ∷ ds)))

aligned : (v w xs ys : Text) → v ++ xs ≡ w ++ ys → Aligned v w xs ys
aligned [] [] xs ys e = inl (refl, e)
aligned [] (d ∷ ds) xs ys e = inr (inl (d, ds, refl))
aligned (d ∷ ds) [] xs ys e = inr (inr (d, ds, refl))
aligned (a ∷ v) (b ∷ w) xs ys e =
    let same : a ≡ b = ground arith in
    elim (aligned v w xs ys (ground arith)) [
      | inl (p, q) ↦ inl (cc, q)
      | inr (inl (d, ds, p)) ↦ inr (inl (d, ds, cc))
      | inr (inr (d, ds, p)) ↦ inr (inr (d, ds, cc))
    ]

-- What follows a frame does not matter: its value is read back, and the rest.
pub utf8_frame_prefix :
    (v w xs ys : Text) → utf8_frame v ++ xs ≡ utf8_frame w ++ ys → (v ≡ w) × (xs ≡ ys)
unfolding utf8_frame
utf8_frame_prefix v w xs ys e =
    let (bytes, rest) = decimal_count (utf8_bytes v) (utf8_bytes w) (v ++ xs) (w ++ ys) (
      sym (append_assoc (decimal (utf8_bytes v)) (58 ∷ v) xs)
      ∙ e
      ∙ append_assoc (decimal (utf8_bytes w)) (58 ∷ w) ys) in
    elim (aligned v w xs ys rest) [
      | inl same ↦ same
      | inr (inl (d, ds, longer)) ↦
          absurd (omega (arith, bytes-lt-append v d ds, ap utf8_bytes longer))
      | inr (inr (d, ds, longer)) ↦
          absurd (omega (arith, bytes-lt-append w d ds, ap utf8_bytes longer))
    ]
