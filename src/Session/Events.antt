-- ===== src/Session/Events.antt =====
-- The audit events of a Session in apps/control-api/session_store.py: numbering and appending.
use irlight.Base.{
  ℕ, ◌+◌, Option, none, some, List, [], ◌∷◌, ◌++◌, String, max, ◌==◌, if◌then◌else◌, take_last,
}
use irlight.Base.Text.{take, is_empty}
use irlight.Session.Value.{Raw, Result, ok, ◌>>=◌, Error, or_raise, validated_timestamp}
use irlight.Session.Json.{Fields}
use irlight.Session.Record.{Session, Event, State}
use irlight.Session.Disk.{Op, Step}
use irlight.Base.Dict.{lookup, insert}

-- `SESSION_EVENT_LIMIT`.
abbrev pub session_event_limit : ℕ
session_event_limit = 1000

abbrev pub max_sequence : List Event → ℕ
max_sequence [] = 0
max_sequence (e ∷ es) = max e.sequence (max_sequence es)

abbrev pub next_from : Option ℕ → List Event → ℕ
next_from none es = max_sequence es + 1
next_from (some configured) es = if configured == 0 then max_sequence es + 1 else configured

-- `_next_event_sequence`.
abbrev pub next_event_sequence : Session → ℕ
next_event_sequence s = next_from s.next_event_seq s.events

-- `reason_code[:100] if reason_code else None`.
abbrev pub short_reason : Option String → Option String
short_reason none = none
short_reason (some r) = if is_empty r then none else some (take 100 r)

pub record Entry : Type 0 where
  pub type : String
  pub reason_code : Option String
  pub payload : Fields
  pub origin : String

abbrev pub event_of : Session → Entry → ℕ → Event
event_of s entry occurred_at = record {
  sequence = next_event_sequence s;
  type = take 100 entry.type;
  reason_code = short_reason entry.reason_code;
  payload = entry.payload;
  occurred_at = occurred_at;
  origin = take 50 entry.origin;
}

-- The Session that `_append_event_locked` leaves; the event that it returns is `event_of`. Callers
-- hand it a timestamp that was checked before.
unfoldable pub append_event_locked : Session → Entry → ℕ → Session
append_event_locked s entry occurred_at = record s {
  events = take_last session_event_limit (s.events ++ event_of s entry occurred_at ∷ []);
  next_event_seq = some (next_event_sequence s + 1);
}

-- `_validated_now() if given is None else _validated_timestamp(given)`.
abbrev pub now_or : Raw → Option Raw → Result ℕ
now_or clock none = validated_timestamp clock
now_or clock (some given) = validated_timestamp given

abbrev pub put_session : State → String → Session → State
put_session st key s = record st { sessions = insert key s st.sessions }

-- `append_event`.
unfoldable pub append_event : String → Entry → Raw → Option Raw → Op Event
append_event session_id entry clock occurred_at st = do
  current ← now_or clock occurred_at
  s ← or_raise (lookup session_id st.sessions) Error.key_error
  let appended = append_event_locked s entry current
  ok (
      Step.save (event_of s entry current)
        (put_session st session_id (record appended { updated_at = current })))
