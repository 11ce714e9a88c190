-- ===== src/Session/Media.antt =====
-- `set_audio_desired` of apps/control-api/session_store.py: the final-state audio command, with its
-- idempotency key and its version.
use irlight.Base.{
  ℕ, ◌+◌, Bool, true, false, not, ◌||◌, Option, none, some, String, ltb, ◌==◌, if◌then◌else◌,
}
use irlight.Base.Text.{◌=s◌, ◌=?◌, is_empty}
use irlight.Base.Text
use irlight.Base.Dict.{lookup}
use irlight.Base.Int.{ℤ, pos, negsuc}
use irlight.Session.Status.{is_in, terminal_states}
use irlight.Session.Value.{
  DesiredMode, ActualMode, AudioResponse, Raw, ok, err, ◌>>=◌, ◌>>◌, Error, raise_if, or_raise,
}
use irlight.Session.Json.{Json, end, field}
use irlight.Session.Record.{Session, Audio, default_audio}
use irlight.Session.Disk.{Op, Step}
use irlight.Session.Events.{Entry, append_event_locked, now_or, put_session}

abbrev pub parse_mode : String → Option DesiredMode
parse_mode mode =
    if mode =s "LIVE"
    then some DesiredMode.live
    else (if mode =s "MUTED" then some DesiredMode.muted else none)

abbrev pub show_mode : DesiredMode → String
show_mode DesiredMode.live = "LIVE"
show_mode DesiredMode.muted = "MUTED"

abbrev pub same_mode : DesiredMode → DesiredMode → Bool
same_mode DesiredMode.live DesiredMode.live = true
same_mode DesiredMode.muted DesiredMode.muted = true
same_mode _ _ = false

-- `audio["actual_mode"] == mode`: the two sets of names share LIVE and MUTED.
abbrev pub is_applied : ActualMode → DesiredMode → Bool
is_applied ActualMode.live DesiredMode.live = true
is_applied ActualMode.muted DesiredMode.muted = true
is_applied _ _ = false

abbrev pub is_bad_key : String → Bool
is_bad_key key = is_empty key || ltb 200 (Text.length key)

abbrev pub nonnegative : ℤ → Option ℕ
nonnegative (pos n) = some n
nonnegative (negsuc n) = none

abbrev pub audio_or_default : Option Audio → ℕ → Audio
audio_or_default none now = default_audio now
audio_or_default (some a) now = a

abbrev pub response_of : Audio → AudioResponse
response_of a = record {
  desired_mode = a.desired_mode;
  actual_mode = a.actual_mode;
  version = a.version;
  command_id = a.command_id;
}

-- The accepted command.
abbrev pub accept : DesiredMode → String → String → ℕ → Audio → Audio
accept mode key command_id now a = record {
  desired_mode = mode;
  actual_mode = if is_applied a.actual_mode mode then a.actual_mode else ActualMode.applying;
  version = a.version + 1;
  command_id = some command_id;
  idempotency_key = some key;
  updated_at = now;
}

abbrev requested_entry : DesiredMode → String → Audio → String → Entry
requested_entry mode command_id a operator = record {
  type = "media_control.audio.requested";
  reason_code = none;
  payload = field "command_id" (Json.text command_id) (
      field "desired_mode" (Json.text (show_mode mode)) (
        field "version" (Json.num (pos a.version))
          (field "operator_user_id" (Json.text operator) end)));
  origin = "control-api";
}

abbrev pub accept_session : DesiredMode → String → String → String → ℕ → Audio → Session → Session
accept_session mode key operator command_id now a s =
    let a' = accept mode key command_id now a in
    append_event_locked (record s { media_control = some a'; updated_at = now })
      (requested_entry mode command_id a' operator) now

-- What follows the checks of the arguments and of the Session.
unfoldable pub command_audio :
    String → DesiredMode → ℕ → String → String → String → ℕ → Session → Op AudioResponse
command_audio session_id mode expected_version key operator command_id now s st =
    let a = audio_or_default s.media_control now in
    let s' = accept_session mode key operator command_id now a s in
    if a.idempotency_key =? some key
    then (if same_mode a.desired_mode mode
        then ok (Step.keep (response_of a))
        else err Error.idempotency_conflict)
    else (if not (expected_version == a.version)
        then err (Error.version_conflict (response_of a))
        else ok (
            Step.save (response_of (accept mode key command_id now a))
              (put_session st session_id s')))

-- `set_audio_desired`. The version is an int, as the API's request model makes sure.
unfoldable pub set_audio_desired :
    String → String → ℤ → String → String → String → Raw → Option Raw → Op AudioResponse
set_audio_desired session_id mode version key operator command_id clock occurred_at st = do
  m ← or_raise (parse_mode mode) Error.value_error
  v ← or_raise (nonnegative version) Error.value_error
  raise_if (is_bad_key key) Error.value_error
  now ← now_or clock occurred_at
  s ← or_raise (lookup session_id st.sessions) Error.key_error
  raise_if (is_in s.status terminal_states) Error.not_running
  command_audio session_id m v key operator command_id now s st
