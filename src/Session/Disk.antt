-- ===== src/Session/Disk.antt =====
-- How apps/control-api/session_store.py loads, checks and publishes sessions.json, and the marker of
-- apps/control-api/state_safety.py. A transaction holds the exclusive lock from load to persist, so
-- transactions run one after another; the file system itself is not modelled, but the order of the
-- two durable writes is. The isinstance tests of the checks are the types of the records.
use irlight.Base.{
  ℕ, zero, suc, Bool, true, false, not, ◌&&◌, ◌||◌, Option, none, some, List, [], ◌∷◌, String, ltb,
  leb, ◌==◌, if◌then◌else◌, all,
}
use irlight.Base.Text.{◌=s◌, is_empty}
use irlight.Base.Text
use irlight.Base.Dict.{Dict}
use irlight.Session.Value.{Result, ok, err, Error}
use irlight.Session.Record.{Session, Event, Audio, Lease, Scope, State}

-- The sequence of the last event, `previous_event_sequence` after the loop.
abbrev pub last_sequence : ℕ → List Event → ℕ
last_sequence previous [] = previous
last_sequence previous (e ∷ es) = last_sequence e.sequence es

abbrev pub valid_event : ℕ → Event → Bool
valid_event previous e =
    not (e.sequence == 0 || leb e.sequence previous)
    && not (is_empty e.type)
    && not (is_empty e.origin)

-- The loop over a record's events.
abbrev pub valid_events : ℕ → List Event → Bool
valid_events previous [] = true
valid_events previous (e ∷ es) = valid_event previous e && valid_events e.sequence es

abbrev valid_key : Option String → Bool
valid_key none = true
valid_key (some key) = not (is_empty key) && leb (Text.length key) 200

abbrev pub valid_audio : Option Audio → Bool
valid_audio none = true
valid_audio (some audio) = valid_key audio.idempotency_key

-- `next_event_seq` is positive and lies beyond the retained events.
abbrev pub valid_next : Option ℕ → ℕ → Bool
valid_next none last = true
valid_next (some next) last = not (next == 0) && not (ltb 0 last && leb next last)

-- `_validate_sessions` on one item.
unfoldable pub valid_session : String → Session → Bool
valid_session key s =
    not (is_empty key)
    && not (is_empty s.session_id)
    && not (is_empty s.user_id)
    && (s.session_id =s key)
    && valid_events 0 s.events
    && valid_next s.next_event_seq (last_sequence 0 s.events)
    && valid_audio s.media_control

abbrev valid_scope : Scope → Bool
valid_scope (Scope.orphan resource kind) = not (is_empty resource) && not (is_empty kind)
valid_scope (Scope.session []) = false
valid_scope (Scope.session (s ∷ ss)) = true

-- `_validate_cleanup_leases` on one item.
unfoldable pub valid_lease : String → Lease → Bool
valid_lease key l =
    not (is_empty key)
    && not (is_empty l.lease_id)
    && not (leb l.expires_at l.created_at)
    && valid_scope l.scope

pub record Payload : Type 0 where
  pub sessions : Dict Session
  pub leases : Dict Lease

-- Both checks, over all items.
unfoldable pub valid_payload : Payload → Bool
unfolding valid_session valid_lease
valid_payload p =
    all (λ item. valid_session item.0 item.1) p.sessions
    && all (λ item. valid_lease item.0 item.1) p.leases

-- What sessions.json holds: JSON of the wrong shape, or the two dicts.
pub data Content : Type 0 where
  broken : Content
  payload : Payload → Content

-- sessions.json, if it is there, and whether its initialization marker is.
pub record Disk : Type 0 where
  pub file : Option Content
  pub initialized : Bool

abbrev pub empty_state : State
empty_state = record { sessions = []; leases = []; authoritative = false }

-- `mark_initialized`.
abbrev pub mark_initialized : Disk → Disk
mark_initialized d = record d { initialized = true }

-- `_load`.
unfoldable pub load : Disk → Result State × Disk
load d = elim d.file [
  | none ↦ if d.initialized then (err Error.state_error, d) else (ok empty_state, d)
  | some Content.broken ↦ (err Error.state_error, d)
  | some (Content.payload p) ↦
      if valid_payload p
      then (
        ok (record { sessions = p.sessions; leases = p.leases; authoritative = true }),
        mark_initialized d,
      )
      else (err Error.state_error, d)
]

abbrev pub payload_of : State → Payload
payload_of st = record { sessions = st.sessions; leases = st.leases }

-- `os.replace(temporary, self.path)`.
abbrev pub replace : State → Disk → Disk
replace st d = record d { file = some (Content.payload (payload_of st)) }

-- The durable writes of `_persist`, in order.
abbrev pub writes : State → List (Disk → Disk)
writes st = mark_initialized ∷ replace st ∷ []

-- The disk after the first `n` writes: where a crash stops them, or all of them.
abbrev pub run_writes : ℕ → List (Disk → Disk) → Disk → Disk
run_writes zero ws d = d
run_writes (suc n) [] d = d
run_writes (suc n) (w ∷ ws) d = run_writes n ws (w d)

-- `_persist`: the checks, then the writes.
unfoldable pub persist : State → Disk → Result (Unit {0}) × Disk
persist st d =
    if valid_payload (payload_of st)
    then (ok tt, run_writes 2 (writes st) d)
    else (err Error.state_error, d)

-- A transaction returns without writing, or writes the state that it leaves.
pub data Step {ℓ} (A : Type ℓ) : Type ℓ where
  keep : A → Step A
  save : A → State → Step A

abbrev pub Op {ℓ} : Type ℓ → Type ℓ
Op A = State → Result (Step A)

module _ {ℓ} {A : Type ℓ} where
  abbrev pub returned : A → Result (Unit {0}) × Disk → Result A × Disk
  returned a (ok u, d) = (ok a, d)
  returned a (err e, d) = (err e, d)

  abbrev pub finish : Disk → Result (Step A) → Result A × Disk
  finish d (err e) = (err e, d)
  finish d (ok (Step.keep a)) = (ok a, d)
  finish d (ok (Step.save a st)) = returned a (persist st d)

  abbrev pub enter : Op A → Result State × Disk → Result A × Disk
  enter op (err e, d) = (err e, d)
  enter op (ok st, d) = finish d (op st)

  -- `with self._state_lock(...)` round the body of a method. What a body changed in memory and did
  -- not persist is lost at the next load.
  unfoldable pub locked : Op A → Disk → Result A × Disk
  locked op d = enter op (load d)
