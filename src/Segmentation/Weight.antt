-- ===== src/Segmentation/Weight.antt =====
-- Sizes as the segmenter adds them up: non-negative integers and `Number.POSITIVE_INFINITY`.
use reflection.Common.{ℕ, ◌+◌, ◌*◌, Bool, true, List, [], ◌∷◌, ltb, leb, if◌then◌else◌}

pub data Weight : Type 0 where
  finite : ℕ → Weight
  infinite : Weight

abbrev pub add : Weight → Weight → Weight
add (finite a) (finite b) = finite (a + b)
add _ _ = infinite

-- `weight * ESTIMATED_CHARS_PER_TOKEN`
abbrev pub times : ℕ → Weight → Weight
times n (finite a) = finite (a * n)
times n infinite = infinite

-- `Math.max`
abbrev pub max : Weight → Weight → Weight
max (finite a) (finite b) = if ltb a b then finite b else finite a
max _ _ = infinite

-- `weight > limit`
abbrev pub exceeds : Weight → ℕ → Bool
exceeds (finite a) n = ltb n a
exceeds infinite n = true

-- `weight >= limit`
abbrev pub reaches : Weight → ℕ → Bool
reaches (finite a) n = leb n a
reaches infinite n = true

abbrev pub total : List Weight → Weight
total [] = finite 0
total (w ∷ ws) = add w (total ws)
