-- ===== src/Session/ReportExamples.antt =====
-- The theorems on the file, the histories, the audio commands, the event log and the Node's reports of
-- apps/control-api/session_store.py at concrete values.
use irlight.Base.{
  ℕ, ◌+◌, ◌≤◌, ◌<◌, ◌≡◌, refl, inl, inr, Bool, true, false, none, some, List, [], ◌∷◌, String,
  arith, length,
}
use irlight.Base.Dict.{lookup}
use irlight.Base.Int.{pos}
use irlight.Session.Status.{Status}
use irlight.Session.Value.{
  Raw, ok, err, Error, ◌>>=◌, AudioResponse, DesiredMode, ActualMode, validated_timestamp, second,
}
use irlight.Session.Record.{Session, State, blank_session, default_audio}
use irlight.Session.Json.{Json, end}
use irlight.Session.Disk.{
  Disk, Content, Step, Op, load, locked, valid_payload, valid_session, payload_of, writes,
  run_writes, last_sequence,
}
use irlight.Session.Events.{Entry, append_event_locked, event_of, session_event_limit, now_or}
use irlight.Session.Provision.{request_stop}
use irlight.Session.Media.{set_audio_desired, command_audio, accept_session}
use irlight.Session.Ingest.{Observation, observe, recovery_decision}
use irlight.Session.History.{Call, run, stored}
use irlight.Session.Reach.{Walks, run-Walks, run_over}
use irlight.Session.Crash.{IsSound, seen_after, load-crash, locked-IsSound}
use irlight.Session.Command.{set_audio-replay, set_audio-conflict, set_audio-stale}
use irlight.Session.Log.{append_event-valid}
use irlight.Session.Holding.{Reports, observe_all, are_within, observe_all-holds}
use irlight.Session.Recovery.{is_good, are_good, observe_all-recovers}

abbrev at : ℕ → Raw
at n = Raw.number (pos n)

abbrev live_session : Session
live_session = record (blank_session "s-1" "alice" "prod" "DIRECT_PUSH" 5 none) {
  status = Status.live;
}

abbrev holding_session : Session
holding_session = record live_session { status = Status.holding }

abbrev state_of : Session → State
state_of s = record { sessions = ("s-1", s) ∷ []; leases = []; authoritative = true }

abbrev disk_of : Session → Disk
disk_of s = record { file = some (Content.payload (payload_of (state_of s))); initialized = true }

abbrev no_disk : Disk
no_disk = record { file = none; initialized = false }

live_fine : valid_payload (payload_of (state_of live_session)) ≡ true
unfolding valid_payload valid_session
live_fine = refl

load-crash_example :
    (load (run_writes 1 (writes (state_of live_session)) no_disk)).0
    ≡ seen_after 1 (state_of live_session) no_disk
load-crash_example = load-crash 1 (state_of live_session) no_disk live_fine

abbrev stop_unknown : Op Session
stop_unknown = request_stop "s-2" (at 9)

refused : (locked stop_unknown (disk_of live_session)).0 ≡ err Error.key_error
unfolding locked load valid_payload valid_session request_stop ◌>>=◌
refused = refl

locked-IsSound_example : IsSound (locked stop_unknown (disk_of live_session)).1
locked-IsSound_example =
    locked-IsSound stop_unknown (disk_of live_session)
      (inr (payload_of (state_of live_session), refl, live_fine))

abbrev entry : Entry
entry = record { type = "session.note"; reason_code = none; payload = end; origin = "control-api" }

abbrev history : List Call
history = Call.stops "s-1" (at 9) ∷ Call.appends "s-1" entry (at 10) none ∷ []

run-Walks_example : Walks second "s-1" history (disk_of live_session) live_session
run-Walks_example =
    run-Walks second history (disk_of live_session) (tt, (tt, tt)) "s-1" live_session refl

abbrev finished_session : Session
finished_session = record live_session { status = Status.finished }

run_over_example :
    (s' : Session) × (lookup "s-1" (stored (run second history (disk_of finished_session)))
      ≡ some s')
    × (s'.status ≡ Status.finished)
run_over_example =
    run_over second history (disk_of finished_session) (tt, (tt, tt)) "s-1" finished_session refl
      (inl refl)

live_valid : valid_session "s-1" live_session ≡ true
unfolding valid_session
live_valid = refl

append_event-valid_example :
    (valid_session "s-1" (append_event_locked live_session entry 9) ≡ true)
    × (last_sequence 0 live_session.events < (event_of live_session entry 9).sequence)
    × (last_sequence 0 (append_event_locked live_session entry 9).events
        ≡ (event_of live_session entry 9).sequence)
    × (length (append_event_locked live_session entry 9).events ≤ session_event_limit)
append_event-valid_example = append_event-valid "s-1" live_session entry 9 live_valid refl refl

-- A Node's report of an accepted stream, and of a lost one.
abbrev report : Bool → String → Observation
report online status = record {
  status = status;
  path = Json.null;
  online = online;
  source_type = Json.null;
  source_id = some "src-1";
  bitrate_bps = Json.null;
  max_bitrate_bps = Json.null;
  tracks = Json.null;
  quality = Json.null;
  reasons = [];
  warnings = Json.null;
  enforced = Json.null;
  observed_at = Json.null;
}

abbrev good : Observation
good = report true "ACCEPTED"

abbrev lost : Observation
lost = report false "OFFLINE"

abbrev flapping : Reports
flapping = ((100, []), good) ∷ ((200, []), lost) ∷ ((300, []), good) ∷ []

in_window : are_within 100 second flapping ≡ true
unfolding are_within
in_window = refl

observe_all-holds_example :
    (observe_all second "n-1" flapping holding_session).status ≡ Status.holding
observe_all-holds_example =
    observe_all-holds second 100 "n-1" flapping holding_session refl refl in_window

abbrev steady : Reports
steady = ((200, []), good) ∷ ((300, []), good) ∷ []

is_good_lem : is_good (some "src-1") good ≡ true
unfolding is_good recovery_decision
is_good_lem = refl

steady-are_good : are_good (some "src-1") steady ≡ true
unfolding are_good is_good recovery_decision
steady-are_good = refl

steady-are_within : are_within 100 second steady ≡ true
unfolding are_within
steady-are_within = refl

observe_all-recovers_example :
    (observe second "n-1" [] good
      (100 + second)
      (observe_all second "n-1" steady (observe second "n-1" [] good 100 holding_session))).status
    ≡ Status.live
observe_all-recovers_example =
    observe_all-recovers second 100 "n-1" (some "src-1") [] good steady (100 + second) [] good
      holding_session refl refl (omega arith) is_good_lem steady-are_good is_good_lem
      steady-are_within (omega arith)

-- An audio command.
abbrev muted : Session
muted = accept_session DesiredMode.muted "key-1" "op-1" "cmd-1" 9 (default_audio 5) live_session

abbrev response : AudioResponse
response = record {
  desired_mode = DesiredMode.muted;
  actual_mode = ActualMode.applying;
  version = 1;
  command_id = some "cmd-1";
}

muted_lem :
    set_audio_desired "s-1" "MUTED"
      (pos 0)
      "key-1"
      "op-1"
      "cmd-1"
      (at 9)
      none
      (state_of live_session)
    ≡ ok (Step.save response (state_of muted))
unfolding set_audio_desired command_audio validated_timestamp ◌>>=◌
muted_lem = refl

timed : now_or (at 20) none ≡ ok 20
unfolding validated_timestamp
timed = refl

set_audio-replay_example :
    (1 ≡ 0 + 1)
    × (set_audio_desired "s-1" "MUTED" (pos 7) "key-1" "op-2" "cmd-2" (at 20) none (state_of muted)
        ≡ ok (Step.keep response))
set_audio-replay_example =
    set_audio-replay "s-1" "MUTED" 0 "key-1" "op-1" "cmd-1" (at 9) none (state_of live_session)
      (state_of muted) DesiredMode.muted response 7 20 "op-2" "cmd-2" (at 20) none refl refl
      muted_lem timed

set_audio-conflict_example :
    set_audio_desired "s-1" "LIVE" (pos 1) "key-1" "op-2" "cmd-2" (at 20) none (state_of muted)
    ≡ err Error.idempotency_conflict
set_audio-conflict_example =
    set_audio-conflict "s-1" "MUTED" 0 "key-1" "op-1" "cmd-1" (at 9) none (state_of live_session)
      (state_of muted) DesiredMode.muted response 1 20 "LIVE" "op-2" "cmd-2" (at 20) none
      DesiredMode.live refl refl muted_lem refl refl timed

set_audio-stale_example :
    set_audio_desired "s-1" "LIVE" (pos 0) "key-2" "op-2" "cmd-2" (at 20) none (state_of muted)
    ≡ err (Error.version_conflict response)
set_audio-stale_example =
    set_audio-stale "s-1" "MUTED" 0 "key-1" "op-1" "cmd-1" (at 9) none (state_of live_session)
      (state_of muted) DesiredMode.muted response 20 "LIVE" "key-2" "op-2" "cmd-2" (at 20) none
      DesiredMode.live refl refl muted_lem refl refl refl timed
