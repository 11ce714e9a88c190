-- ===== src/UserEvent/Examples.antt =====
-- The theorems on apps/control-api/session_event_policy.py at small bodies and payloads.
use irlight.Base.{
  ℕ, ◌≤◌, ◌≡◌, refl, ◌↔◌, Bool, true, false, some, List, [], ◌∷◌, ◌++◌, if◌then◌else◌, length, ltb,
}
use irlight.Base.Int.{pos}
use irlight.UserEvent.Body.{
  Scope, Header, Message, request, disconnect, bytes, forwarded, refused, call, read_body,
  declared_body_exceeds_limit, pieces, joined, call-pieces, call-bounded,
}
use irlight.UserEvent.Payload.{
  Value, Key, Checked, ok, arr, obj, int, cons, nil, field, end, scan, rounds,
  validate_user_event_payload,
}
use irlight.UserEvent.Shape.{IsBounded}
use irlight.UserEvent.Scan.{scan_ends, validate_user_event_payload_iff}

abbrev payload : Value
payload = obj (field (Key.text "marks") (arr (cons (int (pos 3)) (cons (arr nil) nil))) end)

scan_ends_example :
    (answer : Checked (Unit {0})) × (scan rounds 0 ((payload, 1) ∷ []) ≡ some answer)
scan_ends_example = scan_ends payload

validate_user_event_payload_iff_example :
    (validate_user_event_payload (λ v. some 16) payload ≡ some (ok tt))
    ↔ IsBounded (λ v. some 16) payload
validate_user_event_payload_iff_example = validate_user_event_payload_iff (λ v. some 16) payload

abbrev scope : Scope
scope = record { is_user_event_post = true; headers = Header.different ∷ [] }

not_declared : declared_body_exceeds_limit scope.headers 4 ≡ false
unfolding declared_body_exceeds_limit
not_declared = refl

call-pieces_example : call 4 scope (pieces ((1 ∷ 2 ∷ []) ∷ []) (3 ∷ []) ++ disconnect ∷ []) ≡ (
    if ltb 4 (length (joined ((1 ∷ 2 ∷ []) ∷ []) (3 ∷ [])))
    then refused
    else forwarded (request (bytes (joined ((1 ∷ 2 ∷ []) ∷ []) (3 ∷ []))) false ∷ disconnect ∷ []))
call-pieces_example =
    call-pieces 4 scope ((1 ∷ 2 ∷ []) ∷ []) (3 ∷ []) (disconnect ∷ []) refl not_declared

abbrev cut_off : List Message
cut_off = request (bytes (1 ∷ 2 ∷ [])) true ∷ disconnect ∷ []

cut_off_lem : call 4 scope cut_off ≡ forwarded cut_off
unfolding call read_body declared_body_exceeds_limit
cut_off_lem = refl

call-bounded_example :
    (body : List ℕ) × (more : Bool) × (rest : List Message) × (cut_off
      ≡ request (bytes body) more ∷ rest)
    × (length body ≤ 4)
call-bounded_example = call-bounded 4 scope cut_off cut_off refl cut_off_lem
