-- ===== src/Session/Json.antt =====
-- The JSON values that event payloads hold.
use irlight.Base.{ℕ, Bool, Option, none, some, List, [], ◌∷◌, String}
use irlight.Base.Int.{ℤ, pos}

mutual
  pub data Json : Type 0 where
    null : Json
    boolean : Bool → Json
    num : ℤ → Json
    text : String → Json
    arr : Items → Json
    obj : Fields → Json

  pub data Items : Type 0 where
    nil : Items
    cons : Json → Items → Items

  pub data Fields : Type 0 where
    end : Fields
    field : String → Json → Fields → Fields

-- An optional string, with `None` as null.
abbrev pub opt_text : Option String → Json
opt_text none = Json.null
opt_text (some s) = Json.text s

abbrev pub opt_num : Option ℕ → Json
opt_num none = Json.null
opt_num (some n) = Json.num (pos n)

abbrev pub texts : List String → Items
texts [] = nil
texts (s ∷ ss) = cons (Json.text s) (texts ss)

-- `payload[key] = value` for a key that the payload lacks.
abbrev pub put_last : Fields → String → Json → Fields
put_last end k v = field k v end
put_last (field j w fs) k v = field j w (put_last fs k v)
