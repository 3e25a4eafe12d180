-- ===== src/Common/Json.antt =====
-- Values of type `unknown` that came out of JSON. A number is a natural number, `NaN`, or
-- infinite; no tested field of the program holds another.
use Prim.Native.Nat.{ℕ}
use mathlib.Core.Bool.{Bool, true, false, not}
use mathlib.Core.List.{[], ◌∷◌}
use reflection.Common.Tests.{◌==◌, if◌then◌else◌}
use reflection.Common.Text.{Text, text_eq}

mutual
  pub data Json : Type 0 where
    undefined null nan infinite : Json
    bool : Bool → Json
    number : ℕ → Json
    string : Text → Json
    array : Items → Json
    object : Fields → Json

  pub data Items : Type 0 where
    nil : Items
    cons : Json → Items → Items

  pub data Fields : Type 0 where
    end : Fields
    field : Text → Json → Fields → Fields

-- `value.key` of an object, `undefined` if it has no such field.
unfoldable pub get_field : Text → Fields → Json
get_field key end = undefined
get_field key (field k v rest) = if text_eq k key then v else get_field key rest

-- `Object.keys(value).length`
abbrev pub field_count : Fields → ℕ
field_count end = 0
field_count (field k v rest) = Prim.Native.Nat.suc (field_count rest)

-- `Boolean(value)`
unfoldable pub is_truthy : Json → Bool
is_truthy undefined = false
is_truthy null = false
is_truthy nan = false
is_truthy infinite = true
is_truthy (bool b) = b
is_truthy (number n) = not (n == 0)
is_truthy (string []) = false
is_truthy (string (c ∷ t)) = true
is_truthy (array _) = true
is_truthy (object _) = true

-- `value === text`
unfoldable pub is_text : Text → Json → Bool
is_text t (string s) = text_eq s t
is_text t _ = false

-- `value === n`
unfoldable pub is_number : ℕ → Json → Bool
is_number n (number m) = m == n
is_number n _ = false

-- `Number.isFinite(value)`
unfoldable pub is_finite : Json → Bool
is_finite (number n) = true
is_finite _ = false
