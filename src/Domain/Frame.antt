-- ===== src/Domain/Frame.antt =====
-- packages/shared/src/domain.ts: `utf8Frame`, the length-prefixed parts of an identity's text.
pub mod Decoding
use reflection.Common.{
  ℕ, zero, suc, ◌+◌, ◌/◌, ◌%◌, Bool, ◌&&◌, List, [], ◌∷◌, ◌++◌, ltb, leb, if◌then◌else◌,
}
use reflection.Common.Text.{Text}

-- The bytes of a code unit that stands alone; a lone surrogate is written as U+FFFD.
abbrev pub unit_bytes : ℕ → ℕ
unit_bytes c = if ltb c 0x80 then 1 else if ltb c 0x800 then 2 else 3

abbrev pub is_high : ℕ → Bool
is_high c = leb 0xd800 c && leb c 0xdbff

abbrev pub is_low : ℕ → Bool
is_low c = leb 0xdc00 c && leb c 0xdfff

-- `Buffer.byteLength(value, "utf8")`
unfoldable pub utf8_bytes : Text → ℕ
utf8_bytes [] = 0
utf8_bytes (a ∷ []) = unit_bytes a
utf8_bytes (a ∷ b ∷ t) =
    let pair = 4 + utf8_bytes t in
    let single = unit_bytes a + utf8_bytes (b ∷ t) in if is_high a && is_low b then pair else single

-- `String(n)` in front of a text; the fuel is above `n`, which has fewer digits.
unfoldable pub digits : ℕ → ℕ → Text → Text
digits zero n rest = rest
digits (suc fuel) n rest =
    let more = digits fuel (n / 10) ((48 + n % 10) ∷ rest) in
    if ltb n 10 then (48 + n) ∷ rest else more

unfoldable pub decimal : ℕ → Text
unfolding digits
decimal n = digits (suc n) n []

unfoldable pub utf8_frame : Text → Text
unfolding utf8_bytes decimal
utf8_frame value = decimal (utf8_bytes value) ++ (58 ∷ value)
