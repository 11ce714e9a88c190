-- ===== src/Session/History.antt =====
-- Histories: every writing transaction of apps/control-api/session_store.py as a call with its
-- arguments, performed one after another on the disk, as the exclusive lock orders them. `create`
-- without an id is left out: it stores under a fresh UUID.
use irlight.Base.{ℕ, Bool, Option, none, some, List, [], ◌∷◌, String}
use irlight.Base.Dict.{Dict}
use irlight.Base.Int.{ℤ}
use irlight.Session.Status.{Status}
use irlight.Session.Value.{Raw, Result, ok, err}
use irlight.Session.Record.{Session, Change, Expected}
use irlight.Session.Disk.{Disk, Content, Op, Step, locked}
use irlight.Session.Events.{Entry, append_event}
use irlight.Session.Leases.{
  Readings, claim_orphan_cleanup, claim_session_cleanup, release_orphan_cleanup,
  release_session_cleanup,
}
use irlight.Session.Prepare.{PrepareArgs, create, reserve_prepare_slot, begin_prepare}
use irlight.Session.Provision.{
  AuditEvent, update, claim_provisioning, provisioning_checkpoint, request_stop,
  request_stop_if_current, update_if_current, transition, transition_if_current,
}
use irlight.Session.Ingest.{Observation, apply_ingest_observation}
use irlight.Session.Media.{set_audio_desired}
use irlight.Session.Node.{
  bind_node, record_node_heartbeat, RelayObservation, apply_relay_client_observation,
}

pub data Call : Type 0 where
  creates : (id user env egress : String) → Raw → Readings → Call
  reserves begins : String → PrepareArgs → Readings → Call
  updates : String → List Change → Raw → Call
  claims_provisioning : (id op : String) → Raw → Readings → Call
  checkpoints : (id op : String) → Option Status → Bool → List Change → Raw → Call
  stops : String → Raw → Call
  stops_if_current : String → Status → List Expected → Raw → Call
  appends : String → Entry → Raw → Option Raw → Call
  sets_audio : (id mode : String) → ℤ → (key operator command : String) → Raw → Option Raw → Call
  binds : (id node boot server : String) → Raw → Option Raw → Call
  beats : (id node boot : String) → Raw → Bool → Call
  updates_if_current :
      String → Status → List Expected → Option AuditEvent → List Change → Raw → Call
  observes : (id node : String) → List String → Observation → Raw → Option Raw → Call
  relays : (id node : String) → List String → RelayObservation → Raw → Call
  moves : (id name : String) → Option (List Status) → List Change → Raw → Call
  moves_if_current : (id name : String) → List Status → List Expected → List Change → Raw → Call
  claims_orphan : (id resource kind : String) → Raw → Readings → Call
  claims_session : String → List Status → Raw → Readings → Call
  releases_orphan releases_session : (id lease : String) → Call

abbrev forget_step {ℓ} : {A : Type ℓ} → Step A → Step (Unit {0})
forget_step (Step.keep a) = Step.keep tt
forget_step (Step.save a st) = Step.save tt st

-- A call without its answer.
abbrev pub forget {ℓ} : {A : Type ℓ} → Result (Step A) → Result (Step (Unit {0}))
forget (ok s) = ok (forget_step s)
forget (err e) = err e

unfoldable pub perform : ℕ → Call → Op (Unit {0})
perform stable (creates id user env egress hours r) st =
    forget (create id user env egress hours r st)
perform stable (reserves id a r) st = forget (reserve_prepare_slot id a r st)
perform stable (begins id a r) st = forget (begin_prepare id a r st)
perform stable (updates id cs clock) st = forget (update id cs clock st)
perform stable (claims_provisioning id op t r) st = forget (claim_provisioning id op t r st)
perform stable (checkpoints id op n c cs clock) st =
    forget (provisioning_checkpoint id op n c cs clock st)
perform stable (stops id clock) st = forget (request_stop id clock st)
perform stable (stops_if_current id a es clock) st =
    forget (request_stop_if_current id a es clock st)
perform stable (appends id e clock at) st = forget (append_event id e clock at st)
perform stable (sets_audio id m v k o c clock at) st =
    forget (set_audio_desired id m v k o c clock at st)
perform stable (binds id n b s clock at) st = forget (bind_node id n b s clock at st)
perform stable (beats id n b at ready) st = forget (record_node_heartbeat id n b at ready st)
perform stable (updates_if_current id a es e cs clock) st =
    forget (update_if_current id a es e cs clock st)
perform stable (observes id n ts o clock at) st =
    forget (apply_ingest_observation stable id n ts o clock at st)
perform stable (relays id n ts o clock) st =
    forget (apply_relay_client_observation id n ts o clock st)
perform stable (moves id name allow cs clock) st = forget (transition id name allow cs clock st)
perform stable (moves_if_current id name allow es cs clock) st =
    forget (transition_if_current id name allow es cs clock st)
perform stable (claims_orphan id res kind secs r) st =
    forget (claim_orphan_cleanup id res kind secs r st)
perform stable (claims_session id states secs r) st =
    forget (claim_session_cleanup id states secs r st)
perform stable (releases_orphan id lease) st = forget (release_orphan_cleanup id lease st)
perform stable (releases_session id lease) st = forget (release_session_cleanup id lease st)

-- A history of calls, from the disk to the disk.
unfoldable pub run : ℕ → List Call → Disk → Disk
run stable [] d = d
run stable (c ∷ cs) d = run stable cs (locked (perform stable c) d).1

abbrev pub stored_in : Option Content → Dict Session
stored_in none = []
stored_in (some Content.broken) = []
stored_in (some (Content.payload p)) = p.sessions

-- The Sessions that the file holds.
abbrev pub stored : Disk → Dict Session
stored d = stored_in d.file
