-- ===== src/Session/Prepare.antt =====
-- Creating a Session and binding a prepare request in apps/control-api/session_store.py: `create`,
-- `reserve_prepare_slot`, `begin_prepare` and `get_prepare_replay`, with the count of a user's
-- concurrent Sessions.
use irlight.Base.{
  ℕ, suc, ◌*◌, Bool, true, false, not, ◌&&◌, ◌||◌, Option, none, some, [], ◌∷◌, String, ltb, leb,
  if◌then◌else◌,
}
use irlight.Base.Text.{◌=s◌, ◌=?◌}
use irlight.Base.Dict.{Dict, lookup}
use irlight.Base.Int.{ℤ, pos, pos_part}
use irlight.Session.Status.{Status, is_in, capacity_states}
use irlight.Session.Value.{
  Raw, Result, ok, err, ◌>>=◌, ◌>>◌, Error, raise_if, validated_timestamp, second,
}
use irlight.Session.Record.{
  Session, State, Flag, TextField, PrepareRequest, set_flag, set_text, new_session,
}
use irlight.Session.Disk.{Op, Step}
use irlight.Session.Events.{put_session}
use irlight.Session.Leases.{Readings, reject_active_cleanup_lease}

-- A Session that takes one of its user's slots.
abbrev pub occupies : Session → Bool
occupies s = s.flags Flag.entitlement_reserved || is_in s.status capacity_states

-- `other_id == session_id or session.get("user_id") != user_id` is skipped.
abbrev pub counts : String → String → String × Session → Bool
counts session_id user_id (other_id, s) =
    not (other_id =s session_id) && (s.user_id =s user_id) && occupies s

-- The loop over `_sessions` that both callers share.
abbrev pub occupied : String → String → Dict Session → ℕ
occupied session_id user_id [] = 0
occupied session_id user_id (item ∷ d) =
    if counts session_id user_id item
    then suc (occupied session_id user_id d)
    else occupied session_id user_id d

-- `absolute_deadline_hours=12.0`.
abbrev pub twelve_hours : Raw
twelve_hours = Raw.number (pos (12 * second))

pub record PrepareArgs : Type 0 where
  pub user_id : String
  pub environment : String
  pub entitlement_id : String
  pub max_concurrent_sessions : ℤ
  pub destination_id : Option String
  pub egress_mode : String
  pub idempotency_key : String

abbrev pub request_of : PrepareArgs → PrepareRequest
request_of a = record {
  environment = a.environment;
  destination_id = a.destination_id;
  egress_mode = a.egress_mode;
}

abbrev pub same_request : PrepareRequest → PrepareRequest → Bool
same_request p q =
    (p.environment =s q.environment)
    && (p.destination_id =? q.destination_id)
    && (p.egress_mode =s q.egress_mode)

abbrev pub or_fields : Option PrepareRequest → Session → PrepareRequest
or_fields (some p) s = p
or_fields none s = record {
  environment = s.environment;
  destination_id = s.texts TextField.destination_id;
  egress_mode = s.egress_mode;
}

-- `prepare_request`, or what a Session of an older version says.
abbrev pub configured_request : Session → PrepareRequest
configured_request s = or_fields s.prepare_request s

abbrev pub is_finished : Status → Bool
is_finished status = is_in status (Status.finished ∷ Status.failed ∷ [])

-- `max_concurrent_sessions < 1`.
abbrev pub is_disabled : ℤ → Bool
is_disabled most = ltb (pos_part most) 1

-- `existing["entitlement_id"] = …; existing["entitlement_reserved"] = True`.
abbrev pub reserve : String → ℕ → Session → Session
reserve entitlement_id now s =
    let s' =
      set_flag Flag.entitlement_reserved true
        (set_text TextField.entitlement_id (some entitlement_id) s) in
    record s' { updated_at = now }

-- `existing.update({...})` of `begin_prepare`.
abbrev pub bind_request : PrepareArgs → ℕ → Session → Session
bind_request a now s =
    let s' = reserve a.entitlement_id now (
      set_text TextField.idempotency_key (some a.idempotency_key)
        (set_text TextField.destination_id a.destination_id s)) in
    record s' {
      environment = a.environment;
      egress_mode = a.egress_mode;
      prepare_request = some (request_of a);
    }

-- `existing`, or a new Session under the given id.
abbrev pub or_new : Option Session → String → String → String → String → Readings → Result Session
or_new (some s) session_id user_id environment egress_mode r = ok s
or_new none session_id user_id environment egress_mode r = do
  s ← new_session r.new_clock r.fresh_id user_id environment egress_mode twelve_hours
  ok (record s { session_id = session_id })

abbrev pub stored_or : Option Session → String → Session → State → Step Session
stored_or (some old) session_id s st = Step.keep old
stored_or none session_id s st = Step.save s (put_session st session_id s)

-- `create(session_id, ...)` where an id is given.
unfoldable pub create : String → String → String → String → Raw → Readings → Op Session
create session_id user_id environment egress_mode hours r st = do
  s ← new_session r.new_clock r.fresh_id user_id environment egress_mode hours
  reject_active_cleanup_lease st session_id r.lease_clock
  ok (
      stored_or (lookup session_id st.sessions) session_id (record s { session_id = session_id })
        st)

-- `create(...)` where the drawn id is used.
unfoldable pub create_fresh : String → String → String → Raw → Readings → Op Session
create_fresh user_id environment egress_mode hours r st = do
  s ← new_session r.new_clock r.fresh_id user_id environment egress_mode hours
  ok (Step.save s (put_session st s.session_id s))

abbrev pub reserve_new : String → PrepareArgs → Readings → Option Session → Op Session
reserve_new session_id a r existing st = do
  let taken = occupied session_id a.user_id st.sessions
  raise_if (leb (pos_part a.max_concurrent_sessions) taken) Error.entitlement_exceeded
  s ← or_new existing session_id a.user_id a.environment "DIRECT_PUSH" r
  now ← validated_timestamp r.clock
  let s' = reserve a.entitlement_id now s
  ok (Step.save s' (put_session st session_id s'))

abbrev pub reserve_again : String → PrepareArgs → Readings → Session → Op Session
reserve_again session_id a r s st = do
  now ← validated_timestamp r.clock
  let s' = reserve a.entitlement_id now s
  ok (Step.save s' (put_session st session_id s'))

abbrev pub reserve_existing : String → PrepareArgs → Readings → Session → Op Session
reserve_existing session_id a r s st =
    let again = reserve_again session_id a r s st in
    let anew = reserve_new session_id a r (some s) st in
    if not (s.user_id =s a.user_id)
    then err Error.key_error
    else (if is_finished s.status then ok (Step.keep s) else (if occupies s then again else anew))

abbrev pub reserve_slot : String → PrepareArgs → Readings → Option Session → Op Session
reserve_slot session_id a r none st = reserve_new session_id a r none st
reserve_slot session_id a r (some s) st = reserve_existing session_id a r s st

-- `reserve_prepare_slot`; of the arguments it has no `destination_id`, `egress_mode` and key.
unfoldable pub reserve_prepare_slot : String → PrepareArgs → Readings → Op Session
reserve_prepare_slot session_id a r st = do
  raise_if (is_disabled a.max_concurrent_sessions) Error.entitlement_exceeded
  reject_active_cleanup_lease st session_id r.lease_clock
  reserve_slot session_id a r (lookup session_id st.sessions) st

abbrev pub begin_new : String → PrepareArgs → Readings → Option Session → Op (Session × Bool)
begin_new session_id a r existing st = do
  let taken = occupied session_id a.user_id st.sessions
  raise_if (leb (pos_part a.max_concurrent_sessions) taken) Error.entitlement_exceeded
  s ← or_new existing session_id a.user_id a.environment a.egress_mode r
  now ← validated_timestamp r.clock
  let s' = bind_request a now s
  ok (Step.save (s', false) (put_session st session_id s'))

-- The part of `begin_prepare` for a Session that is bound already.
abbrev pub replay : PrepareArgs → Session → String → Result (Step (Session × Bool))
replay a s key =
    if not (same_request (configured_request s) (request_of a))
    then err Error.invalid_transition
    else (if not (key =s a.idempotency_key)
        then err Error.invalid_transition
        else ok (Step.keep (s, true)))

abbrev pub replay_or :
    PrepareArgs
    → Session
    → Option String
    → Result (Step (Session × Bool))
    → Result (Step (Session × Bool))
replay_or a s none anew = anew
replay_or a s (some key) anew = replay a s key

abbrev pub begin_existing : String → PrepareArgs → Readings → Session → Op (Session × Bool)
begin_existing session_id a r s st =
    let anew = begin_new session_id a r (some s) st in
    if not (s.user_id =s a.user_id)
    then err Error.key_error
    else (if is_finished s.status
        then err Error.invalid_transition
        else replay_or a s (s.texts TextField.idempotency_key) anew)

abbrev pub begin_slot : String → PrepareArgs → Readings → Option Session → Op (Session × Bool)
begin_slot session_id a r none st = begin_new session_id a r none st
begin_slot session_id a r (some s) st = begin_existing session_id a r s st

-- `begin_prepare`.
unfoldable pub begin_prepare : String → PrepareArgs → Readings → Op (Session × Bool)
begin_prepare session_id a r st = do
  raise_if (is_disabled a.max_concurrent_sessions) Error.entitlement_exceeded
  reject_active_cleanup_lease st session_id r.lease_clock
  begin_slot session_id a r (lookup session_id st.sessions) st

abbrev pub replay_of : PrepareArgs → Option Session → Result (Step (Option Session))
replay_of a none = ok (Step.keep none)
replay_of a (some s) =
    if not (s.user_id =s a.user_id)
    then err Error.key_error
    else (if not (s.texts TextField.idempotency_key =? some a.idempotency_key)
        then ok (Step.keep none)
        else (if not (same_request (configured_request s) (request_of a))
            then err Error.invalid_transition
            else ok (Step.keep (some s))))

-- `get_prepare_replay`.
unfoldable pub get_prepare_replay : String → PrepareArgs → Op (Option Session)
get_prepare_replay session_id a st = replay_of a (lookup session_id st.sessions)
