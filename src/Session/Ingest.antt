-- ===== src/Session/Ingest.antt =====
-- `apply_ingest_observation` of apps/control-api/session_store.py: the ingest events of a Node, and
-- the lifecycle of a Session that follows from them.
use irlight.Base.{
  ℕ, ◌-◌, Bool, true, false, not, ◌&&◌, ◌||◌, Option, none, some, List, [], ◌∷◌, String, ltb, leb,
  ◌==◌, if◌then◌else◌, any, map,
}
use irlight.Base.Text.{◌=s◌, ◌=?◌, is_empty, take}
use irlight.Base.Dict.{lookup}
use irlight.Session.Status.{Status, show_status, is_in, active_states, ◌=st◌}
use irlight.Session.Value.{Raw, ok, ◌>>=◌, ◌>>◌, Error, raise_if, or_raise}
use irlight.Session.Json.{Json, Fields, end, field, opt_text, texts, put_last}
use irlight.Session.Record.{
  Session, TextField, Stamp, set_text, set_opt_stamp, clear_recovery_candidate,
}
use irlight.Session.Disk.{Op, Step}
use irlight.Session.Events.{Entry, append_event_locked, now_or, put_session}

-- What a Node reports. The keys that are only copied into payloads are JSON.
pub record Observation : Type 0 where
  pub status : String
  pub path : Json
  pub online : Bool
  pub source_type : Json
  pub source_id : Option String
  pub bitrate_bps : Json
  pub max_bitrate_bps : Json
  pub tracks : Json
  pub quality : Json
  pub reasons : List String
  pub warnings : Json
  pub enforced : Json
  pub observed_at : Json

abbrev pub ingest_payload : String → Observation → Fields
ingest_payload node_id o = field "node_id" (Json.text node_id) (
    field "status" (Json.text o.status) (
      field "path" o.path (
        field "online" (Json.boolean o.online) (
          field "source_type" o.source_type (
            field "source_id" (opt_text o.source_id) (
              field "bitrate_bps" o.bitrate_bps (
                field "max_bitrate_bps" o.max_bitrate_bps (
                  field "tracks" o.tracks (
                    field "quality" o.quality (
                      field "reasons" (Json.arr (texts o.reasons)) (
                        field "warnings" o.warnings (
                          field "enforced" o.enforced
                            (field "observed_at" o.observed_at end)))))))))))))

abbrev pub first_reason : List String → Option String
first_reason [] = none
first_reason (r ∷ rs) = some (take 100 r)

-- `reason_code` of the copied ingest events.
abbrev ingest_reason : String → List String → Option String
ingest_reason type reasons =
    if (type =s "ingest.rejected") || (type =s "ingest.degraded")
    then first_reason reasons
    else none

abbrev ingest_entry : String → Observation → String → Entry
ingest_entry node_id o type = record {
  type = type;
  reason_code = ingest_reason type o.reasons;
  payload = ingest_payload node_id o;
  origin = "node-agent";
}

-- The loop over `event_types`.
unfoldable pub append_ingest_events : String → Observation → ℕ → List String → Session → Session
append_ingest_events node_id o now [] s = s
append_ingest_events node_id o now (t ∷ ts) s =
    append_ingest_events node_id o now ts (append_event_locked s (ingest_entry node_id o t) now)

-- `UNUSABLE_MEDIA_REASONS`.
abbrev pub is_unusable : String → Bool
is_unusable r = (r =s "VIDEO_TIMEOUT") || (r =s "AUDIO_TIMEOUT")

-- `FORMAT_REJECTION_REASONS`.
abbrev pub is_format_rejection : String → Bool
is_format_rejection r =
    (r =s "VIDEO_CODEC_UNSUPPORTED")
    || (r =s "AUDIO_CODEC_UNSUPPORTED")
    || (r =s "RESOLUTION_UNSUPPORTED")
    || (r =s "AUDIO_CHANNELS_UNSUPPORTED")

-- `next((reason for reason in reasons if …), None)`.
abbrev pub find_unusable : List String → Option String
find_unusable [] = none
find_unusable (r ∷ rs) = if is_unusable r then some r else find_unusable rs

-- The facts of an observation that the lifecycle depends on.
pub record Facts : Type 0 where
  pub online : Bool
  pub status : String
  pub degraded_reason : Option String
  pub unusable_reason : Option String
  pub format_changed : Bool

abbrev pub facts_of : Observation → Facts
facts_of o =
    let reasons = map (take 100) o.reasons in
    record {
      online = o.online;
      status = o.status;
      degraded_reason = first_reason o.reasons;
      unusable_reason = find_unusable reasons;
      format_changed = any is_format_rejection reasons;
    }

-- `target_state`, `lifecycle_event` and `lifecycle_reason`, once there is a target.
pub record Decision : Type 0 where
  pub target : Status
  pub event : String
  pub reason : Option String

abbrev pub is_accepted : String → Bool
is_accepted status = (status =s "ACCEPTED") || (status =s "WARNING")

abbrev pub is_some : Option String → Bool
is_some none = false
is_some (some a) = true

abbrev pub decision : Status → String → Option String → Option Decision
decision target event reason = some (record { target = target; event = event; reason = reason })

-- `degraded_reason or "INGEST_REJECTED"`.
abbrev or_rejected : Option String → String
or_rejected none = "INGEST_REJECTED"
or_rejected (some r) = if is_empty r then "INGEST_REJECTED" else r

-- The target of a recovery from HOLDING, if the observation is good enough.
unfoldable pub recovery_decision : Facts → Option Decision
recovery_decision f =
    if f.online && is_accepted f.status
    then decision Status.live "session.recovered" none
    else (if f.online && (f.status =s "DEGRADED") && not (is_some f.unusable_reason)
        then decision Status.degraded "session.recovered" f.degraded_reason
        else none)

abbrev pub degraded_decision : Status → Facts → Option Decision
degraded_decision state f =
    if is_some f.unusable_reason && is_in state (Status.live ∷ Status.degraded ∷ [])
    then decision Status.holding "session.holding" f.unusable_reason
    else (if not (is_some f.unusable_reason)
        then decision Status.degraded "session.degraded" f.degraded_reason
        else none)

-- The chain of `elif` for every state but HOLDING.
unfoldable pub lifecycle_decision : Status → Facts → Option Decision
lifecycle_decision state f =
    if f.online
      && (f.status =s "DEGRADED")
      && is_in state (Status.ready_wait_ingest ∷ Status.live ∷ Status.degraded ∷ [])
    then degraded_decision state f
    else (if f.online
          && (f.status =s "REJECTED")
          && is_in state (Status.live ∷ Status.degraded ∷ [])
        then decision Status.holding "session.holding"
            (some (if f.format_changed then "FORMAT_CHANGED" else or_rejected f.degraded_reason))
        else (if f.online
              && is_accepted f.status
              && is_in state (Status.ready_wait_ingest ∷ Status.degraded ∷ [])
            then decision Status.live
                (if state =st Status.ready_wait_ingest then "session.live" else "session.recovered")
                none
            else (if not f.online && is_in state (Status.live ∷ Status.degraded ∷ [])
                then decision Status.holding "session.holding" (some "INGEST_DISCONNECTED")
                else none)))

-- `candidate_since is None or candidate_source != source_id or current < candidate_since`.
abbrev pub restarts : Option ℕ → Option String → Option String → ℕ → Bool
restarts none candidate source_id current = true
restarts (some since) candidate source_id current =
    not (candidate =? source_id) || ltb current since

abbrev pub waited : Option ℕ → ℕ → ℕ → Bool
waited none current stable = false
waited (some since) current stable = leb stable (current - since)

abbrev pub start_candidate : Option String → ℕ → Session → Session
start_candidate source_id current s =
    set_text TextField.recovery_candidate_source_id source_id
      (set_opt_stamp Stamp.recovery_candidate_since (some current) s)

-- `_recovery_candidate_ready`: the answer and the Session. `stable` is `recovery_stable_seconds`.
unfoldable pub recovery_candidate_ready : ℕ → Session → Option String → ℕ → Bool × Session
recovery_candidate_ready stable s source_id current =
    let since = s.stamps Stamp.recovery_candidate_since in
    if restarts since (s.texts TextField.recovery_candidate_source_id) source_id current
    then (stable == 0, start_candidate source_id current s)
    else (waited since current stable, s)

abbrev pub recover : ℕ → Session → Option String → ℕ → Option Decision → Option Decision × Session
recover stable s source_id current none = (none, clear_recovery_candidate s)
recover stable s source_id current (some d) =
    let (ready, s') = recovery_candidate_ready stable s source_id current in
    (if ready then some d else none, s')

-- The decision for any state, and the Session with its recovery candidate brought up to date.
unfoldable pub decide : ℕ → Session → Facts → Option String → ℕ → Option Decision × Session
decide stable s f source_id current =
    if s.status =st Status.holding
    then recover stable s source_id current (recovery_decision f)
    else (lifecycle_decision s.status f, s)

abbrev first_ingest : Option ℕ → ℕ → Option ℕ
first_ingest none now = some now
first_ingest (some t) now = some t

-- The stamps of a change of state.
abbrev pub stamp_move : Status → Bool → ℕ → Session → Session
stamp_move target online now s =
    let ended = set_opt_stamp Stamp.last_ingest_at (some now) s in
    let started = set_opt_stamp Stamp.hold_deadline_at none (
      set_opt_stamp Stamp.last_ingest_at (some now) (
        set_opt_stamp Stamp.first_ingest_at (first_ingest (s.stamps Stamp.first_ingest_at) now)
          s)) in
    if target =st Status.holding then ended else (if online then started else ended)

abbrev lifecycle_entry : String → Observation → Status → Decision → Entry
lifecycle_entry node_id o state d = record {
  type = d.event;
  reason_code = d.reason;
  payload =
      put_last (put_last (ingest_payload node_id o) "from_state" (Json.text (show_status state)))
        "to_state" (Json.text (show_status d.target));
  origin = "node-agent";
}

abbrev pub settle : Status → Session → Session
settle state s = if state =st Status.holding then s else clear_recovery_candidate s

-- The writes that follow a decision.
unfoldable pub enact : String → Observation → Status → ℕ → Option Decision → Session → Session
enact node_id o state now none s = settle state s
enact node_id o state now (some d) s =
    let moved =
      stamp_move d.target o.online now
        (clear_recovery_candidate (record s { status = d.target })) in
    let recorded = append_event_locked moved (lifecycle_entry node_id o state d) now in
    if d.target =st state then settle state s else recorded

-- The body of the method for an active Session.
unfoldable pub observe : ℕ → String → List String → Observation → ℕ → Session → Session
observe stable node_id event_types o now s =
    let s' = append_ingest_events node_id o now event_types s in
    let (d, t) = decide stable s' (facts_of o) o.source_id now in
    let u = enact node_id o s.status now d t in
    set_text TextField.node_id (some node_id) (record u { updated_at = now })

-- `session.get("node_id") not in {None, node_id}`.
abbrev pub is_foreign : Option String → String → Bool
is_foreign none node_id = false
is_foreign (some n) node_id = not (n =s node_id)

-- `apply_ingest_observation`.
unfoldable pub apply_ingest_observation :
    ℕ → String → String → List String → Observation → Raw → Option Raw → Op Session
apply_ingest_observation stable session_id node_id event_types o clock occurred_at st = do
  now ← now_or clock occurred_at
  s ← or_raise (lookup session_id st.sessions) Error.key_error
  raise_if (is_foreign (s.texts TextField.node_id) node_id) Error.runtime_error
  let s' = observe stable node_id event_types o now s
  let saved = Step.save s' (put_session st session_id s')
  ok (if is_in s.status active_states then saved else Step.keep s)
