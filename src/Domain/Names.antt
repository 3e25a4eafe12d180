-- ===== src/Domain/Names.antt =====
-- packages/shared/src/domain.ts: `normalizeName`. Case folding is the package
-- unicode-case-folding, a parameter.
use reflection.Common.{ℕ, Bool, ◌||◌, ◌&&◌, List, [], ◌∷◌, ◌++◌, leb, ◌==◌, any, if◌then◌else◌}
use reflection.Common.Text.{Text}

-- `[\p{White_Space}\u001c-\u001f]`
unfoldable pub is_separator : ℕ → Bool
is_separator c =
    any (λ s. c == s)
      (0x20 ∷ 0x85 ∷ 0xa0 ∷ 0x1680 ∷ 0x2028 ∷ 0x2029 ∷ 0x202f ∷ 0x205f ∷ 0x3000 ∷ [])
    || (leb 9 c && leb c 13)
    || (leb 0x1c c && leb c 0x1f)
    || (leb 0x2000 c && leb c 0x200a)

-- A word in front of the others, if it is not empty.
unfoldable pub push_word : Text → List Text → List Text
push_word [] rest = rest
push_word (c ∷ word) rest = (c ∷ word) ∷ rest

-- `split(separators).filter(Boolean)`, behind the first letters of a word.
unfoldable pub words : Text → Text → List Text
unfolding is_separator push_word
words word [] = push_word word []
words word (c ∷ t) =
    let next = push_word word (words [] t) in
    let same = words (word ++ c ∷ []) t in if is_separator c then next else same

-- `join(" ")`
unfoldable pub join : List Text → Text
join [] = []
join (w ∷ []) = w
join (w ∷ v ∷ ws) = w ++ (32 ∷ join (v ∷ ws))

unfoldable pub normalize_name : (Text → Text) → Text → Text
unfolding words join
normalize_name case_fold value = join (words [] (case_fold value))
