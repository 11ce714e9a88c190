-- ===== src/Session/NodeExamples.antt =====
-- The theorems on heartbeats, released slots and reports of apps/control-api/session_store.py at
-- concrete Sessions.
use irlight.Base.{List, ℕ, ◌≡◌, refl, true, false, none, some, [], ◌∷◌, arith}
use irlight.Base.Dict.{lookup}
use irlight.Base.Int.{pos}
use irlight.Session.Status.{Status, parse_status}
use irlight.Session.Value.{Raw, ok, ◌>>=◌, validated_timestamp, second}
use irlight.Session.Record.{
  Session, State, TextField, Expected, blank_session, set_text, validate_changes,
}
use irlight.Session.Json.{Json}
use irlight.Session.Disk.{
  Disk, Content, Step, load, locked, payload_of, valid_payload, valid_session,
}
use irlight.Session.Prepare.{occupies}
use irlight.Session.Provision.{transition, transition_if_current, request_stop_if_current, moved}
use irlight.Session.Node.{bind_node, record_node_heartbeat, bound, beaten}
use irlight.Session.Ingest.{Observation, apply_ingest_observation}
use irlight.Session.Heartbeat.{
  snapshot, record_node_heartbeat-monotone, bind_node-fences, record_node_heartbeat-overtakes,
}
use irlight.Session.Release.{transition-frees}
use irlight.Session.Persisted.{answer, file_after, apply_ingest_observation-persists}

abbrev at : ℕ → Raw
at n = Raw.number (pos n)

abbrev starting : Session
starting =
    record (set_text TextField.provider_server_id (some "vm-1")
      (blank_session "s-1" "alice" "prod" "DIRECT_PUSH" 5 none)) { status = Status.bootstrapping }

abbrev state_of : Session → State
state_of s = record { sessions = ("s-1", s) ∷ []; leases = []; authoritative = true }

abbrev registered : Session
registered = bound "n-1" "boot-2" 9 starting

registered_lem :
    bind_node "s-1" "n-1" "boot-2" "vm-1" (at 9) none (state_of starting)
    ≡ ok (Step.save registered (state_of registered))
unfolding bind_node validated_timestamp ◌>>=◌
registered_lem = refl

bind_node-fences_example :
    record_node_heartbeat "s-1" "n-1" "boot-1" (at 11) true (state_of registered)
    ≡ ok (Step.keep false)
bind_node-fences_example =
    bind_node-fences "s-1" "n-1" "boot-2" "vm-1" "boot-1" "n-1" (at 9) none 11 true
      (state_of starting) (state_of registered) registered registered_lem refl

abbrev beating : Session
beating = beaten 20 true registered

beating_lem :
    record_node_heartbeat "s-1" "n-1" "boot-2" (at 20) true (state_of registered)
    ≡ ok (Step.save true (state_of beating))
unfolding record_node_heartbeat validated_timestamp ◌>>=◌
beating_lem = refl

record_node_heartbeat-monotone_example :
    record_node_heartbeat "s-1" "n-1" "boot-2" (at 15) true (state_of beating)
    ≡ ok (Step.keep false)
record_node_heartbeat-monotone_example =
    record_node_heartbeat-monotone "s-1" "n-1" "boot-2" "n-1" "boot-2" 20 15 true true
      (state_of registered) (state_of beating) beating_lem (omega arith)

no_changes : validate_changes [] ≡ ok tt
unfolding validate_changes
no_changes = refl

failed_name : parse_status "FAILED_CLEANUP" ≡ some Status.failed_cleanup
unfolding parse_status
failed_name = refl

abbrev seen : List Expected
seen = Expected.text TextField.node_id (some "n-1") ∷ []

record_node_heartbeat-overtakes_example :
    (request_stop_if_current "s-1" Status.ready_wait_ingest
        (snapshot seen none [])
        (at 30)
        (state_of beating)
      ≡ ok (Step.keep none))
    × (transition_if_current "s-1" "FAILED_CLEANUP"
          (Status.ready_wait_ingest ∷ [])
          (snapshot seen none [])
          []
          (at 30)
          (state_of beating)
        ≡ ok (Step.keep none))
record_node_heartbeat-overtakes_example =
    record_node_heartbeat-overtakes "s-1" "n-1" "boot-2" "FAILED_CLEANUP" 20 true
      (state_of registered) (state_of beating) seen none [] Status.ready_wait_ingest
      Status.failed_cleanup (Status.ready_wait_ingest ∷ []) [] (at 30) beating_lem refl failed_name
      no_changes

abbrev leaving : Session
leaving = record starting { status = Status.stopping }

abbrev gone : Session
gone = moved Status.finished [] 40 leaving

finished_name : parse_status "FINISHED" ≡ some Status.finished
unfolding parse_status
finished_name = refl

gone_lem :
    transition "s-1" "FINISHED" none [] (at 40) (state_of leaving)
    ≡ ok (Step.save gone (state_of gone))
unfolding transition parse_status validate_changes validated_timestamp ◌>>=◌
gone_lem = refl

transition-frees_example :
    (lookup "s-1" (state_of gone).sessions ≡ some gone) × (occupies gone ≡ false)
transition-frees_example =
    transition-frees "s-1" "FINISHED" none [] (at 40) (state_of leaving) (state_of gone)
      Status.finished gone gone_lem finished_name refl

abbrev report : Observation
report = record {
  status = "REJECTED";
  path = Json.null;
  online = true;
  source_type = Json.null;
  source_id = some "src-1";
  bitrate_bps = Json.null;
  max_bitrate_bps = Json.null;
  tracks = Json.null;
  quality = Json.null;
  reasons = "VIDEO_CODEC_UNSUPPORTED" ∷ [];
  warnings = Json.null;
  enforced = Json.null;
  observed_at = Json.null;
}

abbrev live_session : Session
live_session = record starting { status = Status.live }

abbrev disk : Disk
disk = record {
  file = some (Content.payload (payload_of (state_of live_session)));
  initialized = true;
}

loaded_lem : (load disk).0 ≡ ok (state_of live_session)
unfolding load valid_payload valid_session
loaded_lem = refl

apply_ingest_observation-persists_example :
    ((locked
        (apply_ingest_observation second "s-1" "n-1" ("ingest.rejected" ∷ []) report (at 50) none)
        disk).0
      ≡ answer (
          apply_ingest_observation second "s-1" "n-1"
            ("ingest.rejected" ∷ [])
            report
            (at 50)
            none
            (state_of live_session)))
    × ((locked
          (apply_ingest_observation second "s-1" "n-1" ("ingest.rejected" ∷ []) report (at 50) none)
          disk).1.file
        ≡ file_after disk.file (
            apply_ingest_observation second "s-1" "n-1"
              ("ingest.rejected" ∷ [])
              report
              (at 50)
              none
              (state_of live_session)))
apply_ingest_observation-persists_example =
    apply_ingest_observation-persists second "s-1" "n-1" ("ingest.rejected" ∷ []) report (at 50)
      none disk (state_of live_session) loaded_lem (refl, tt)
