-- ===== src/UserEvent/Scan.antt =====
-- The walk of UserEvent/Payload against the shape of UserEvent/Shape.
use irlight.Base.{
  ℕ, zero, suc, ◌+◌, ◌-◌, ◌≤◌, ◌<◌, ◌≡◌, refl, max, subst, Bool, true, false, ◌&&◌, ◌↔◌, Option,
  none, some, [], ◌∷◌, arith, length, leb,
}
use irlight.UserEvent.Payload.{
  Value, Items, Fields, Key, Checked, ok, fail, Stack, max_elements, null, foreign, boolean, int,
  float, arr, obj, nil, cons, end, field, finite, nan, inf, neg_inf, visit, ◌>>=◌, visit_items,
  visit_fields, after, finish, max_payload_bytes, scan, rounds, validate_user_event_payload,
  encoded_within, count_items, count_fields, enter, examine, scan,
}
use irlight.UserEvent.Shape.{
  height, height_items, height_fields, held, held_items, held_fields, is_plain, plain_items,
  plain_fields, IsBounded,
}

-- What the entries of the stack hold, and whether they are plain and not too deep.
unfoldable held_all : Stack → ℕ
held_all [] = 0
held_all ((value, depth) ∷ stack) = held value + held_all stack

unfoldable plain_all : Stack → Bool
plain_all [] = true
plain_all ((value, depth) ∷ stack) = is_plain value && plain_all stack

unfoldable low_all : Stack → Bool
low_all [] = true
low_all ((value, depth) ∷ stack) = leb (height value) (9 - depth) && low_all stack

-- The stack after children of a container at `depth` were visited: `plain`, `high` and `more` are
-- theirs, and `many` is their number.
abbrev Pushes : Bool → ℕ → ℕ → ℕ → ℕ → Stack → Checked Stack → Type 0
Pushes plain high more many depth stack (fail why) = plain ≡ false
Pushes plain high more many depth stack (ok pushed) =
    (held_all pushed + many ≡ held_all stack + more)
    × (plain_all pushed ≡ (plain && plain_all stack))
    × (low_all pushed ≡ (leb high (8 - depth) && low_all stack))
    × (length pushed ≤ length stack + many)

visit-Pushes :
    (child : Value) (depth : ℕ) (stack : Stack)
    → Pushes
        (is_plain child)
        (height child)
        (suc (held child))
        1
        depth
        stack
        (visit child depth stack)
unfolding held_all plain_all low_all height held is_plain
visit-Pushes (arr xs) depth stack = ground arith
visit-Pushes (obj fs) depth stack = ground arith
visit-Pushes (float (finite z)) depth stack = ground arith
visit-Pushes (float nan) depth stack = refl
visit-Pushes (float inf) depth stack = refl
visit-Pushes (float neg_inf) depth stack = refl
visit-Pushes foreign depth stack = refl
visit-Pushes null depth stack = ground arith
visit-Pushes (Value.text s) depth stack = ground arith
visit-Pushes (boolean b) depth stack = ground arith
visit-Pushes (int z) depth stack = ground arith

-- The first child, and the others after it.
Pushes-join :
    (p q : Bool) (h k more less many depth : ℕ) (stack pushed : Stack) (all : Checked Stack)
    → Pushes p h (suc more) 1 depth stack (ok pushed)
    → Pushes q k less many depth pushed all
    → Pushes (p && q) (max h k) (suc (more + less)) (suc many) depth stack all
Pushes-join p q h k more less many depth stack pushed (ok final) here later = ground arith
Pushes-join p q h k more less many depth stack pushed (fail why) here later = ground arith

Pushes-then :
    (p q : Bool) (h k more less many depth : ℕ) (stack : Stack) (first : Checked Stack)
    (rest : Stack → Checked Stack)
    → Pushes p h (suc more) 1 depth stack first
    → ((pushed : Stack) → Pushes q k less many depth pushed (rest pushed))
    → Pushes (p && q) (max h k) (suc (more + less)) (suc many) depth stack (first >>= rest)
Pushes-then p q h k more less many depth stack (fail why) rest here later = ground arith
Pushes-then p q h k more less many depth stack (ok pushed) rest here later =
    Pushes-join p q h k more less many depth stack pushed (rest pushed) here (later pushed)

visit_items-Pushes :
    (xs : Items) (depth : ℕ) (stack : Stack)
    → Pushes
        (plain_items xs)
        (height_items xs)
        (held_items xs)
        (count_items xs)
        depth
        stack
        (visit_items xs depth stack)
unfolding visit_items count_items held is_plain height
visit_items-Pushes nil depth stack = ground arith
visit_items-Pushes (cons child rest) depth stack =
    Pushes-then _ _ _ _ _ _ _ depth stack _ _ (visit-Pushes child depth stack)
      λ pushed. visit_items-Pushes rest depth pushed

visit_fields-Pushes :
    (fs : Fields) (depth : ℕ) (stack : Stack)
    → Pushes
        (plain_fields fs)
        (height_fields fs)
        (held_fields fs)
        (count_fields fs)
        depth
        stack
        (visit_fields fs depth stack)
unfolding visit_fields count_fields held is_plain height
visit_fields-Pushes end depth stack = ground arith
visit_fields-Pushes (field Key.other child rest) depth stack = refl
visit_fields-Pushes (field (Key.text k) child rest) depth stack =
    Pushes-then _ _ _ _ _ _ _ depth stack _ _ (visit-Pushes child depth stack)
      λ pushed. visit_fields-Pushes rest depth pushed

-- Whether a stack is within the budget that `elements` leaves.
abbrev fits : ℕ → Stack → Bool
fits elements stack =
    leb (elements + held_all stack) max_elements && (plain_all stack && low_all stack)

-- A round keeps that, and makes the walk shorter.
abbrev Keeps : Bool → ℕ → Checked (ℕ × Stack) → Type 0
Keeps before size (fail why) = before ≡ false
Keeps before size (ok (elements, stack)) =
    (fits elements stack ≡ before) × (elements ≤ 128) × (length stack + (128 - elements) ≤ size)

enter-Keeps :
    (plain : Bool) (high more many depth elements : ℕ) (stack : Stack) (visited : Checked Stack)
    → Pushes plain high more many depth stack visited
    → Keeps
        (leb (elements + (more + held_all stack)) max_elements
          && ((plain && plain_all stack) && (leb (suc high) (9 - depth) && low_all stack)))
        (length stack + (128 - elements))
        (enter depth (elements + many) visited)
enter-Keeps plain high more many depth elements stack (fail why) h = ground arith
enter-Keeps plain high more many depth elements stack (ok pushed) h = ground arith

examine-Keeps :
    (elements depth : ℕ) (value : Value) (stack : Stack)
    → elements ≤ 128
    → Keeps
        (fits elements ((value, depth) ∷ stack))
        (length stack + (128 - elements))
        (examine elements value depth stack)
unfolding examine held_all plain_all low_all height held is_plain
examine-Keeps elements depth (arr xs) stack h =
    enter-Keeps _ _ _ _ depth elements stack _ (visit_items-Pushes xs depth stack)
examine-Keeps elements depth (obj fs) stack h =
    enter-Keeps _ _ _ _ depth elements stack _ (visit_fields-Pushes fs depth stack)
examine-Keeps elements depth (float (finite z)) stack h = ground arith
examine-Keeps elements depth (float nan) stack h = ground arith
examine-Keeps elements depth (float inf) stack h = ground arith
examine-Keeps elements depth (float neg_inf) stack h = ground arith
examine-Keeps elements depth foreign stack h = ground arith
examine-Keeps elements depth null stack h = ground arith
examine-Keeps elements depth (Value.text s) stack h = ground arith
examine-Keeps elements depth (boolean b) stack h = ground arith
examine-Keeps elements depth (int z) stack h = ground arith

-- The answer says whether the stack was within the budget.
abbrev Decides : Bool → Option (Checked (Unit {0})) → Type 0
Decides good none = ⊥
Decides good (some (ok u)) = good ≡ true
Decides good (some (fail why)) = good ≡ false

after-Decides :
    (before : Bool) (size : ℕ) (round : Checked (ℕ × Stack))
    (continue : ℕ → Stack → Option (Checked (Unit {0})))
    → Keeps before size round
    → ((elements : ℕ) (stack : Stack)
        → elements ≤ 128
        → length stack + (128 - elements) ≤ size
        → Decides (fits elements stack) (continue elements stack))
    → Decides before (after round continue)
after-Decides before size (fail why) continue keeps rest = keeps
after-Decides before size (ok (elements, stack)) continue keeps rest =
    subst (λ good. Decides good (continue elements stack)) keeps.0
      (rest elements stack keeps.1 keeps.2)

scan-Decides :
    (fuel elements : ℕ) (stack : Stack)
    → elements ≤ 128
    → length stack + (128 - elements) < fuel
    → Decides (fits elements stack) (scan fuel elements stack)
unfolding scan held_all plain_all low_all
scan-Decides fuel elements [] h enough = ground arith
scan-Decides zero elements (entry ∷ stack) h enough = omega arith
scan-Decides (suc fuel) elements ((value, depth) ∷ stack) h enough =
    after-Decides _ _ (examine elements value depth stack) (scan fuel)
      (examine-Keeps elements depth value stack h)
      λ more rest bound less. scan-Decides fuel more rest bound (omega arith)

Decides-answer :
    (good : Bool) (o : Option (Checked (Unit {0})))
    → Decides good o
    → (answer : Checked (Unit {0})) × (o ≡ some answer)
Decides-answer good none h = absurd h
Decides-answer good (some answer) h = (answer, refl)

scan_value-Decides :
    (value : Value) → Decides (fits 0 ((value, 1) ∷ [])) (scan rounds 0 ((value, 1) ∷ []))
scan_value-Decides value = scan-Decides rounds 0 ((value, 1) ∷ []) (omega arith) (omega arith)

-- The walk over a payload ends within 130 rounds, whatever the payload.
pub scan_ends :
    (value : Value)
    → (answer : Checked (Unit {0})) × (scan rounds 0 ((value, 1) ∷ []) ≡ some answer)
scan_ends value = Decides-answer _ _ (scan_value-Decides value)

fits_iff :
    (value : Value)
    → (fits 0 ((value, 1) ∷ []) ≡ true)
      ↔ ((is_plain value ≡ true) × (height value ≤ 8) × (held value ≤ 128))
unfolding held_all plain_all low_all
fits_iff value = ground arith

encoded_within_iff :
    (o : Option ℕ)
    → (encoded_within o ≡ ok tt) ↔ ((bytes : ℕ) × (o ≡ some bytes) × (bytes ≤ max_payload_bytes))
unfolding encoded_within
encoded_within_iff none = (λ h. cc, λ h. cc)
encoded_within_iff (some bytes) = (λ h. (bytes, refl, ground arith), λ h. ground arith)

finish_iff :
    (good : Bool) (o : Option (Checked (Unit {0}))) (within : Checked (Unit {0}))
    → Decides good o
    → (finish o within ≡ some (ok tt)) ↔ ((good ≡ true) × (within ≡ ok tt))
finish_iff good none within h = absurd h
finish_iff good (some (ok u)) within h = ground arith
finish_iff good (some (fail why)) within h = ground arith

-- A payload is accepted exactly where it is bounded: a dict with string keys and no value but JSON
-- values with finite floats, of at most 8 containers in one another and 128 values in all, that is
-- encoded in at most 8192 bytes.
pub validate_user_event_payload_iff :
    (encode : Value → Option ℕ) (payload : Value)
    → (validate_user_event_payload encode payload ≡ some (ok tt)) ↔ IsBounded encode payload
unfolding validate_user_event_payload
validate_user_event_payload_iff encode (obj fs) =
    let met = finish_iff _ _ (encoded_within (encode (obj fs))) (scan_value-Decides (obj fs)) in
    let fit = fits_iff (obj fs) in
    let small = encoded_within_iff (encode (obj fs)) in
    (
      λ h. (
        refl,
        (fit.0 (met.0 h).0).0,
        (fit.0 (met.0 h).0).1,
        (fit.0 (met.0 h).0).2,
        small.0 (met.0 h).1,
      ),
      λ h. met.1 (fit.1 (h.1, h.2, h.3), small.1 h.4),
    )
validate_user_event_payload_iff encode null = (λ h. cc, λ h. cc)
validate_user_event_payload_iff encode foreign = (λ h. cc, λ h. cc)
validate_user_event_payload_iff encode (Value.text s) = (λ h. cc, λ h. cc)
validate_user_event_payload_iff encode (boolean b) = (λ h. cc, λ h. cc)
validate_user_event_payload_iff encode (int z) = (λ h. cc, λ h. cc)
validate_user_event_payload_iff encode (float f) = (λ h. cc, λ h. cc)
validate_user_event_payload_iff encode (arr xs) = (λ h. cc, λ h. cc)
