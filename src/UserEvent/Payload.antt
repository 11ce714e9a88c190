-- ===== src/UserEvent/Payload.antt =====
-- `validate_user_event_payload` of apps/control-api/session_event_policy.py: a walk over the payload
-- with an explicit stack, which counts what it meets before it goes into it.
use irlight.Base.{
  ℕ, zero, suc, ◌+◌, ◌*◌, Bool, Option, none, some, List, [], ◌∷◌, String, ltb, if◌then◌else◌,
}
use irlight.Base.Int.{ℤ}

-- A Python float: finite, in some unit, or `nan`, `inf` and `-inf`.
pub data Float : Type 0 where
  finite : ℤ → Float
  nan inf neg_inf : Float

-- A dict's key; `other` is one that is no string.
pub data Key : Type 0 where
  text : String → Key
  other : Key

-- A Python value as the JSON parser gives it, and `foreign` for an instance of any other class.
mutual
  pub data Value : Type 0 where
    null foreign : Value
    text : String → Value
    boolean : Bool → Value
    int : ℤ → Value
    float : Float → Value
    arr : Items → Value
    obj : Fields → Value

  pub data Items : Type 0 where
    nil : Items
    cons : Value → Items → Items

  pub data Fields : Type 0 where
    end : Fields
    field : Key → Value → Fields → Fields

-- The messages of `UserEventPayloadError`.
pub data PayloadError : Type 0 where
  not_object too_deep too_many bad_key non_finite non_json not_bounded too_large : PayloadError

pub data Checked {ℓ} (A : Type ℓ) : Type ℓ where
  ok : A → Checked A
  fail : PayloadError → Checked A

infixl 5 ◌>>=◌
abbrev pub ◌>>=◌ {ℓ κ} : {A : Type ℓ} {B : Type κ} → Checked A → (A → Checked B) → Checked B
fail why >>= continue = fail why
ok answer >>= continue = continue answer

-- `USER_EVENT_MAX_DEPTH`, `USER_EVENT_MAX_ELEMENTS` and `USER_EVENT_MAX_PAYLOAD_BYTES`.
abbrev pub max_depth : ℕ
max_depth = 8

abbrev pub max_elements : ℕ
max_elements = 128

abbrev pub max_payload_bytes : ℕ
max_payload_bytes = 8 * 1024

-- The stack of values with their depths, the top first.
abbrev pub Stack : Type 0
Stack = List (Value × ℕ)

-- `_validate_scalar`.
abbrev pub validate_scalar : Value → Checked (Unit {0})
validate_scalar (float (finite z)) = ok tt
validate_scalar (float _) = fail non_finite
validate_scalar foreign = fail non_json
validate_scalar (arr xs) = fail non_json
validate_scalar (obj fs) = fail non_json
validate_scalar _ = ok tt

-- A child of a container: pushed where it is a container itself, and checked at once where not.
abbrev pub visit : Value → ℕ → Stack → Checked Stack
visit (arr xs) depth stack = ok ((arr xs, suc depth) ∷ stack)
visit (obj fs) depth stack = ok ((obj fs, suc depth) ∷ stack)
visit child depth stack = validate_scalar child >>= λ _. ok stack

unfoldable pub visit_items : Items → ℕ → Stack → Checked Stack
visit_items nil depth stack = ok stack
visit_items (cons child rest) depth stack =
    visit child depth stack >>= λ pushed. visit_items rest depth pushed

unfoldable pub visit_fields : Fields → ℕ → Stack → Checked Stack
visit_fields end depth stack = ok stack
visit_fields (field other child rest) depth stack = fail bad_key
visit_fields (field (text k) child rest) depth stack =
    visit child depth stack >>= λ pushed. visit_fields rest depth pushed

-- `len(value)`.
unfoldable pub count_items : Items → ℕ
count_items nil = 0
count_items (cons child rest) = suc (count_items rest)

unfoldable pub count_fields : Fields → ℕ
count_fields end = 0
count_fields (field k child rest) = suc (count_fields rest)

-- The tests before the children of a container are visited, with the new number of elements.
abbrev pub enter : ℕ → ℕ → Checked Stack → Checked (ℕ × Stack)
enter depth elements visited =
    if ltb max_depth depth
    then fail too_deep
    else if ltb max_elements elements
    then fail too_many
    else (visited >>= λ stack. ok (elements, stack))

-- One round of the loop, after `stack.pop()`.
unfoldable pub examine : ℕ → Value → ℕ → Stack → Checked (ℕ × Stack)
unfolding visit_items visit_fields count_items count_fields
examine elements (obj fs) depth stack =
    enter depth (elements + count_fields fs) (visit_fields fs depth stack)
examine elements (arr xs) depth stack =
    enter depth (elements + count_items xs) (visit_items xs depth stack)
examine elements value depth stack = validate_scalar value >>= λ _. ok (elements, stack)

-- What comes after a round; a `raise` ends the loop.
abbrev pub after :
    Checked (ℕ × Stack) → (ℕ → Stack → Option (Checked (Unit {0}))) → Option (Checked (Unit {0}))
after (ok (elements, stack)) continue = continue elements stack
after (fail why) continue = some (fail why)

-- `while stack:` for at most so many rounds; `none` where they do not suffice.
unfoldable pub scan : ℕ → ℕ → Stack → Option (Checked (Unit {0}))
unfolding examine
scan fuel elements [] = some (ok tt)
scan zero elements (entry ∷ stack) = none
scan (suc fuel) elements ((value, depth) ∷ stack) =
    after (examine elements value depth stack) (scan fuel)

-- The rounds that `Scan.scan_ends` shows to suffice.
abbrev pub rounds : ℕ
rounds = 130

-- The size of the encoded payload; `json.dumps` raises where it is none.
unfoldable pub encoded_within : Option ℕ → Checked (Unit {0})
encoded_within none = fail not_bounded
encoded_within (some bytes) = if ltb max_payload_bytes bytes then fail too_large else ok tt

-- The encoding is measured once the walk is done.
abbrev pub finish : Option (Checked (Unit {0})) → Checked (Unit {0}) → Option (Checked (Unit {0}))
finish none within = none
finish (some (ok u)) within = some within
finish (some (fail why)) within = some (fail why)

-- `validate_user_event_payload`. `encode` is `json.dumps` with `.encode("utf-8")`, as a number of bytes.
unfoldable pub validate_user_event_payload :
    (Value → Option ℕ) → Value → Option (Checked (Unit {0}))
unfolding scan encoded_within
validate_user_event_payload encode (obj fs) =
    finish (scan rounds 0 ((obj fs, 1) ∷ [])) (encoded_within (encode (obj fs)))
validate_user_event_payload encode payload = some (fail not_object)
