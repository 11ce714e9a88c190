-- ===== src/UserEvent/Body.antt =====
-- `UserEventBodyLimitMiddleware` of apps/control-api/session_event_policy.py: a request's body is read up
-- to a limit before the application sees any of it.
use irlight.Base.{
  ℕ, ◌+◌, ◌≤◌, ◌≡◌, subst, Bool, true, false, Option, some, List, [], ◌∷◌, ◌++◌, inl, inr,
  Bool-cases, arith, length, ltb, if◌then◌else◌, append_assoc, length-append,
}
use irlight.Base.Int.{ℤ, pos}

-- The `body` of a message; a missing one is empty.
pub data Chunk : Type 0 where
  bytes : List ℕ → Chunk
  not_bytes : Chunk

-- What `receive()` gives: `http.request` with `more_body`, `http.disconnect`, or another type.
pub data Message : Type 0 where
  request : Chunk → Bool → Message
  disconnect other : Message

-- A header that is a Content-Length, with its value where `int` reads one, or any other.
pub data Header : Type 0 where
  content_length : Option ℤ → Header
  different : Header

-- A request: whether `_is_user_event_post` holds of it, and its headers.
pub record Scope : Type 0 where
  pub is_user_event_post : Bool
  pub headers : List Header

abbrev exceeds : ℕ → Option ℤ → Bool
exceeds limit (some (pos n)) = ltb limit n
exceeds limit _ = false

-- `_declared_body_exceeds_limit`.
unfoldable pub declared_body_exceeds_limit : List Header → ℕ → Bool
declared_body_exceeds_limit [] limit = false
declared_body_exceeds_limit (different ∷ rest) limit = declared_body_exceeds_limit rest limit
declared_body_exceeds_limit (content_length declared ∷ rest) limit =
    if exceeds limit declared then true else declared_body_exceeds_limit rest limit

-- What the reading of a body comes to: 413, the body with whether the client left and what `receive`
-- still holds, or a wait for messages that have not come.
pub data Reading : Type 0 where
  too_large : Reading
  whole : List ℕ → Bool → List Message → Reading
  waiting : Reading

-- The loop over `receive()`.
unfoldable pub read_body : ℕ → List ℕ → List Message → Reading
read_body limit buffered [] = waiting
read_body limit buffered (disconnect ∷ rest) = whole buffered true rest
read_body limit buffered (other ∷ rest) = read_body limit buffered rest
read_body limit buffered (request not_bytes more ∷ rest) = too_large
read_body limit buffered (request (bytes chunk) more ∷ rest) =
    let extended = buffered ++ chunk in
    let later = read_body limit extended rest in
    if ltb limit (length buffered + length chunk)
    then too_large
    else if more
    then later
    else whole extended false rest

-- What `buffered_receive` gives, call by call.
abbrev pub replayed : List ℕ → Bool → List Message → List Message
replayed buffered true rest = request (bytes buffered) true ∷ disconnect ∷ rest
replayed buffered false rest = request (bytes buffered) false ∷ rest

-- What the middleware does with a request: it answers 413, or it calls the application, which then
-- receives these messages.
pub data Handling : Type 0 where
  refused : Handling
  forwarded : List Message → Handling
  pending : Handling

abbrev pub forward : Reading → Handling
forward too_large = refused
forward (whole buffered disconnected rest) = forwarded (replayed buffered disconnected rest)
forward waiting = pending

-- `UserEventBodyLimitMiddleware.__call__`.
unfoldable pub call : ℕ → Scope → List Message → Handling
unfolding declared_body_exceeds_limit read_body
call limit scope messages =
    if scope.is_user_event_post
    then if declared_body_exceeds_limit scope.headers limit
      then refused
      else forward (read_body limit [] messages)
    else forwarded messages

-- The messages of a body that comes in pieces, the last one marked.
abbrev pub pieces : List (List ℕ) → List ℕ → List Message
pieces [] last = request (bytes last) false ∷ []
pieces (chunk ∷ chunks) last = request (bytes chunk) true ∷ pieces chunks last

abbrev pub joined : List (List ℕ) → List ℕ → List ℕ
joined [] last = last
joined (chunk ∷ chunks) last = chunk ++ joined chunks last

-- What a reading of a whole body should be.
abbrev expected : ℕ → List ℕ → List Message → Reading
expected limit body rest = if ltb limit (length body) then too_large else whole body false rest

read_body-pieces :
    (limit : ℕ) (buffered : List ℕ) (chunks : List (List ℕ)) (last : List ℕ) (rest : List Message)
    → read_body limit buffered (pieces chunks last ++ rest)
      ≡ expected limit (buffered ++ joined chunks last) rest
unfolding read_body
read_body-pieces limit buffered [] last rest = ground (arith, length-append buffered last)
read_body-pieces limit buffered (chunk ∷ chunks) last rest = ground (
  arith,
  read_body-pieces limit (buffered ++ chunk) chunks last rest,
  append_assoc buffered chunk (joined chunks last),
  length-append buffered (chunk ++ joined chunks last),
  length-append chunk (joined chunks last),
  length-append buffered chunk,
)

-- A request for a user event whose headers declare no larger body is answered by the size of the
-- body alone, however it is cut: the application receives it in one piece, with what follows it, or
-- the answer is 413 where it is longer than the limit.
pub call-pieces :
    (limit : ℕ) (scope : Scope) (chunks : List (List ℕ)) (last : List ℕ) (rest : List Message)
    → scope.is_user_event_post ≡ true
    → declared_body_exceeds_limit scope.headers limit ≡ false
    → call limit scope (pieces chunks last ++ rest) ≡ (
        if ltb limit (length (joined chunks last))
        then refused
        else forwarded (request (bytes (joined chunks last)) false ∷ rest))
unfolding call
call-pieces limit scope chunks last rest post declared =
    ground (arith, post, declared, read_body-pieces limit [] chunks last rest)

-- A reading gives no body above the limit.
abbrev IsSmall : ℕ → Reading → Type 0
IsSmall limit (whole body disconnected rest) = length body ≤ limit
IsSmall limit _ = Unit

read_body-IsSmall :
    (limit : ℕ) (buffered : List ℕ) (messages : List Message)
    → length buffered ≤ limit
    → IsSmall limit (read_body limit buffered messages)
unfolding read_body
read_body-IsSmall limit buffered [] h = tt
read_body-IsSmall limit buffered (disconnect ∷ rest) h = h
read_body-IsSmall limit buffered (other ∷ rest) h = read_body-IsSmall limit buffered rest h
read_body-IsSmall limit buffered (request not_bytes more ∷ rest) h = tt
read_body-IsSmall limit buffered (request (bytes chunk) more ∷ rest) h =
    extend-IsSmall limit (length buffered + length chunk) (buffered ++ chunk) more rest
      (read_body limit (buffered ++ chunk) rest) (length-append buffered chunk)
      (read_body-IsSmall limit (buffered ++ chunk) rest)
  where
    extend-IsSmall :
        (limit size : ℕ) (extended : List ℕ) (more : Bool) (rest : List Message) (later : Reading)
        → length extended ≡ size
        → (length extended ≤ limit → IsSmall limit later)
        → IsSmall limit (
            if ltb limit size then too_large else if more then later else whole extended false rest)
    extend-IsSmall limit size extended true rest later e h = elim (Bool-cases (ltb limit size)) [
      | inl over ↦ rw over tt
      | inr under ↦ rw under (h (ground arith))
    ]
    extend-IsSmall limit size extended false rest later e h = ground arith

forward-IsSmall :
    (limit : ℕ) (reading : Reading) (received : List Message)
    → IsSmall limit reading
    → forward reading ≡ forwarded received
    → (body : List ℕ) × (more : Bool) × (rest : List Message) × (received
        ≡ request (bytes body) more ∷ rest)
      × (length body ≤ limit)
forward-IsSmall limit too_large received small h = absurd (ground arith)
forward-IsSmall limit waiting received small h = absurd (ground arith)
forward-IsSmall limit (whole body true rest) received small h =
    (body, true, disconnect ∷ rest, cc, small)
forward-IsSmall limit (whole body false rest) received small h = (body, false, rest, cc, small)

declared-IsSmall :
    (limit : ℕ) (declared : Bool) (reading : Reading) (received : List Message)
    → IsSmall limit reading
    → (if declared then refused else forward reading) ≡ forwarded received
    → (body : List ℕ) × (more : Bool) × (rest : List Message) × (received
        ≡ request (bytes body) more ∷ rest)
      × (length body ≤ limit)
declared-IsSmall limit true reading received small h = absurd (ground arith)
declared-IsSmall limit false reading received small h =
    forward-IsSmall limit reading received small h

-- Whatever messages come, where the application is called for a user event, the first message that
-- it receives is a body of at most the limit.
pub call-bounded :
    (limit : ℕ) (scope : Scope) (messages received : List Message)
    → scope.is_user_event_post ≡ true
    → call limit scope messages ≡ forwarded received
    → (body : List ℕ) × (more : Bool) × (rest : List Message) × (received
        ≡ request (bytes body) more ∷ rest)
      × (length body ≤ limit)
unfolding call
call-bounded limit scope messages received post h =
    declared-IsSmall limit (declared_body_exceeds_limit scope.headers limit)
      (read_body limit [] messages) received (read_body-IsSmall limit [] messages (omega arith))
      (subst
        (λ b.
          (if b
            then if declared_body_exceeds_limit scope.headers limit
              then refused
              else forward (read_body limit [] messages)
            else forwarded messages)
          ≡ forwarded received)
        post h)
