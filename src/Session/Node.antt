-- ===== src/Session/Node.antt =====
-- What a Media Node reports of itself, in apps/control-api/session_store.py: its registration, its
-- heartbeats and its relay client; and the store's reads.
use irlight.Base.{
  ℕ, Bool, true, false, not, ◌&&◌, Option, none, some, List, [], ◌∷◌, String, ltb, if◌then◌else◌,
}
use irlight.Base.Text.{◌=?◌}
use irlight.Base.Dict.{Dict, lookup}
use irlight.Base.Int.{ℤ, pos, pos_part}
use irlight.Session.Status.{Status, is_in, active_states, ◌=st◌}
use irlight.Session.Value.{
  Raw, Result, ok, err, ◌>>=◌, ◌>>◌, Error, raise_if, or_raise, validated_timestamp,
}
use irlight.Session.Json.{Json, end, field, opt_text, opt_num}
use irlight.Session.Record.{
  Session, State, Flag, TextField, Stamp, set_flag, set_text, set_opt_stamp,
}
use irlight.Session.Disk.{Op, Step}
use irlight.Session.Events.{Entry, append_event_locked, now_or, put_session}
use irlight.Session.Ingest.{is_foreign}

-- The writes of a registration.
abbrev pub bound : String → String → ℕ → Session → Session
bound node_id boot_id now s =
    let s' = set_text TextField.node_id (some node_id) (
      set_text TextField.node_boot_id (some boot_id) (
        set_opt_stamp Stamp.node_registered_at (some now)
          (set_opt_stamp Stamp.node_last_heartbeat_at none s))) in
    record s' { updated_at = now }

-- `bind_node`.
unfoldable pub bind_node : String → String → String → String → Raw → Option Raw → Op Session
bind_node session_id node_id boot_id server_id clock registered_at st = do
  now ← now_or clock registered_at
  s ← or_raise (lookup session_id st.sessions) Error.key_error
  raise_if (not (s.texts TextField.provider_server_id =? some server_id)) Error.runtime_error
  raise_if (not (is_in s.status active_states)) Error.runtime_error
  let s' = bound node_id boot_id now s
  ok (Step.save s' (put_session st session_id s'))

abbrev pub is_later : Option ℕ → ℕ → Bool
is_later none observed_at = false
is_later (some previous) observed_at = ltb observed_at previous

-- A heartbeat of the Node and boot that the Session is bound to, and not an older one.
abbrev pub accepts_heartbeat : Option Session → String → String → ℕ → Bool
accepts_heartbeat none node_id boot_id observed_at = false
accepts_heartbeat (some s) node_id boot_id observed_at =
    is_in s.status active_states
    && (s.texts TextField.node_id =? some node_id)
    && (s.texts TextField.node_boot_id =? some boot_id)
    && not (is_later (s.stamps Stamp.node_last_heartbeat_at) observed_at)

-- The writes of a heartbeat: a Node that is ready ends the bootstrap.
abbrev pub beaten : ℕ → Bool → Session → Session
beaten observed_at node_ready s =
    let s' = set_opt_stamp Stamp.node_last_heartbeat_at (some observed_at) s in
    if node_ready && (s.status =st Status.bootstrapping)
    then set_opt_stamp Stamp.ready_at (some observed_at)
        (record s' { status = Status.ready_wait_ingest })
    else s'

abbrev pub beat : State → String → Option Session → Bool → ℕ → Bool → Result (Step Bool)
beat st session_id (some s) true observed_at node_ready =
    ok (Step.save true (put_session st session_id (beaten observed_at node_ready s)))
beat st session_id _ _ observed_at node_ready = ok (Step.keep false)

-- `record_node_heartbeat`.
unfoldable pub record_node_heartbeat : String → String → String → Raw → Bool → Op Bool
record_node_heartbeat session_id node_id boot_id observed_at node_ready st = do
  now ← validated_timestamp observed_at
  let found = lookup session_id st.sessions
  beat st session_id found (accepts_heartbeat found node_id boot_id now) now node_ready

-- The relay client's state, as the Node reports it.
pub record RelayObservation : Type 0 where
  pub status : Option String
  pub connected : Bool
  pub reader_count : ℤ
  pub reason_code : Option String
  pub observed_at : Raw

-- `None if observed_at_raw is None else _validated_timestamp(observed_at_raw)`.
abbrev optional_timestamp : Raw → Result (Option ℕ)
optional_timestamp Raw.null = ok none
optional_timestamp r = validated_timestamp r >>= λ t. ok (some t)

-- `max(0, reader_count)` is the positive part.
abbrev pub relay_entry : String → RelayObservation → Option ℕ → String → Entry
relay_entry node_id o observed_at type = record {
  type = type;
  reason_code = o.reason_code;
  payload = field "node_id" (Json.text node_id) (
      field "status" (opt_text o.status) (
        field "connected" (Json.boolean o.connected) (
          field "reader_count" (Json.num (pos (pos_part o.reader_count))) (
            field "reason_code" (opt_text o.reason_code)
              (field "observed_at" (opt_num observed_at) end)))));
  origin = "node-agent";
}

unfoldable pub append_relay_events :
    String → RelayObservation → Option ℕ → ℕ → List String → Session → Session
append_relay_events node_id o at now [] s = s
append_relay_events node_id o at now (t ∷ ts) s =
    append_relay_events node_id o at now ts (append_event_locked s (relay_entry node_id o at t) now)

-- The aggregate that the Session keeps.
abbrev pub relayed : String → RelayObservation → Option ℕ → ℕ → Session → Session
relayed node_id o at now s =
    let s' = set_text TextField.relay_client_status o.status (
      set_flag Flag.relay_client_connected o.connected (
        set_text TextField.relay_client_last_reason o.reason_code (
          set_opt_stamp Stamp.relay_client_updated_at at
            (set_text TextField.node_id (some node_id) s)))) in
    record s' { relay_client_reader_count = pos_part o.reader_count; updated_at = now }

-- `apply_relay_client_observation`.
unfoldable pub apply_relay_client_observation :
    String → String → List String → RelayObservation → Raw → Op Session
apply_relay_client_observation session_id node_id event_types o clock st = do
  now ← validated_timestamp clock
  at ← optional_timestamp o.observed_at
  s ← or_raise (lookup session_id st.sessions) Error.key_error
  raise_if (is_foreign (s.texts TextField.node_id) node_id) Error.runtime_error
  let s' = relayed node_id o at now (append_relay_events node_id o at now event_types s)
  let saved = Step.save s' (put_session st session_id s')
  ok (if is_in s.status active_states then saved else Step.keep s)

abbrev pub values {ℓ} : {V : Type ℓ} → Dict V → List V
values [] = []
values ((k, v) ∷ d) = v ∷ values d

abbrev pub keep_if : (Session → Bool) → List Session → List Session
keep_if p [] = []
keep_if p (s ∷ ss) = if p s then s ∷ keep_if p ss else keep_if p ss

-- `get`.
unfoldable pub get : String → Op (Option Session)
get session_id st = ok (Step.keep (lookup session_id st.sessions))

-- `list`.
unfoldable pub list : Op (List Session)
list st = ok (Step.keep (values st.sessions))

-- `authoritative_snapshot`.
unfoldable pub authoritative_snapshot : Op (List Session)
authoritative_snapshot st =
    if st.authoritative then ok (Step.keep (values st.sessions)) else err Error.state_error

abbrev in_states : Option (List Status) → Session → Bool
in_states none s = true
in_states (some states) s = is_in s.status states

-- `find_by_provider_server_id`.
unfoldable pub find_by_provider_server_id : String → Option (List Status) → Op (List Session)
find_by_provider_server_id server_id states st = ok (
    Step.keep (
      keep_if (λ s. (s.texts TextField.provider_server_id =? some server_id) && in_states states s)
        (values st.sessions)))

-- `sessions_in_states`.
unfoldable pub sessions_in_states : List Status → Op (List Session)
sessions_in_states states st =
    ok (Step.keep (keep_if (λ s. is_in s.status states) (values st.sessions)))
