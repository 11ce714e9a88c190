-- ===== src/UserEvent/Shape.antt =====
-- What a payload may look like, by recursion on the value, with no stack and no order.
use irlight.Base.{ℕ, suc, ◌+◌, ◌≤◌, max, ◌≡◌, Bool, true, false, ◌&&◌, Option, some}
use irlight.UserEvent.Payload.{
  Value, Items, Fields, Float, Key, max_depth, max_elements, max_payload_bytes, foreign, float, arr,
  obj, nil, cons, end, field, finite,
}

-- How many containers enclose each other, the value itself included.
unfoldable mutual
  pub height : Value → ℕ
  height (arr xs) = suc (height_items xs)
  height (obj fs) = suc (height_fields fs)
  height _ = 0

  pub height_items : Items → ℕ
  height_items nil = 0
  height_items (cons child rest) = max (height child) (height_items rest)

  pub height_fields : Fields → ℕ
  height_fields end = 0
  height_fields (field k child rest) = max (height child) (height_fields rest)

-- How many values the containers hold, at all depths.
unfoldable mutual
  pub held : Value → ℕ
  held (arr xs) = held_items xs
  held (obj fs) = held_fields fs
  held _ = 0

  pub held_items : Items → ℕ
  held_items nil = 0
  held_items (cons child rest) = suc (held child + held_items rest)

  pub held_fields : Fields → ℕ
  held_fields end = 0
  held_fields (field k child rest) = suc (held child + held_fields rest)

abbrev is_finite : Float → Bool
is_finite (finite z) = true
is_finite _ = false

abbrev is_text : Key → Bool
is_text (Key.text s) = true
is_text Key.other = false

-- All keys are strings, all floats finite, and nothing is of another class.
unfoldable mutual
  pub is_plain : Value → Bool
  is_plain (arr xs) = plain_items xs
  is_plain (obj fs) = plain_fields fs
  is_plain (float f) = is_finite f
  is_plain foreign = false
  is_plain _ = true

  pub plain_items : Items → Bool
  plain_items nil = true
  plain_items (cons child rest) = is_plain child && plain_items rest

  pub plain_fields : Fields → Bool
  plain_fields end = true
  plain_fields (field k child rest) = is_text k && (is_plain child && plain_fields rest)

abbrev is_object : Value → Bool
is_object (obj fs) = true
is_object _ = false

-- A payload that may be stored.
abbrev pub IsBounded : (Value → Option ℕ) → Value → Type 0
IsBounded encode payload =
    (is_object payload ≡ true)
    × (is_plain payload ≡ true)
    × (height payload ≤ max_depth)
    × (held payload ≤ max_elements)
    × ((bytes : ℕ) × (encode payload ≡ some bytes) × (bytes ≤ max_payload_bytes))
