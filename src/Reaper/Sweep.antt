-- ===== src/Reaper/Sweep.antt =====
-- `run` of apps/control-api/reaper.py: one sweep, pass by pass.
use irlight.Base.{
  ℕ, ◌+◌, ◌-◌, Bool, true, false, not, ◌&&◌, ◌||◌, Option, none, some, List, [], ◌∷◌, String, ltb,
  leb, any, if◌then◌else◌,
}
use irlight.Base.Text.{◌=s◌, take, is_empty}
use irlight.Base.Dict.{Dict, lookup}
use irlight.Base.Int.{pos}
use irlight.Session.Status.{Status, active_states}
use irlight.Session.Value.{Raw}
use irlight.Session.Json.{Json, end, field, opt_text, opt_num}
use irlight.Session.Record.{Session, TextField, Stamp, Change, Expected}
use irlight.Session.Node.{sessions_in_states}
use irlight.Session.Provision.{AuditEvent, update_if_current}
use irlight.Workflow.World.{Services, Act, ◌>>=◌, ◌>>◌, return, finally, call}
use irlight.Workflow.Stop.{pending, move, claim, release}
use irlight.Reaper.Config.{ReaperConfig, audit, try_revoke}
use irlight.Reaper.Cleanup.{cleanup_resources}
use irlight.Reaper.Orphans.{cleanup_orphans}
use irlight.Reaper.Stop.{fail_missing_heartbeat, fail_and_cleanup, stop_and_cleanup}

-- The dict that `run` returns, without the orphans.
pub record Counts : Type 0 where
  pub timeout_failures : ℕ
  pub heartbeat_failures : ℕ
  pub deadline_stops : ℕ
  pub hold_deadlines_recovered : ℕ
  pub failed_cleanup_retries : ℕ

abbrev pub no_counts : Counts
no_counts = record {
  timeout_failures = 0;
  heartbeat_failures = 0;
  deadline_stops = 0;
  hold_deadlines_recovered = 0;
  failed_cleanup_retries = 0;
}

abbrev timed_out : Bool → Counts → Counts
timed_out true n = record n { timeout_failures = n.timeout_failures + 1 }
timed_out false n = n

abbrev lost : Bool → Counts → Counts
lost true n = record n { heartbeat_failures = n.heartbeat_failures + 1 }
lost false n = n

abbrev stopped : Bool → Counts → Counts
stopped true n = record n { deadline_stops = n.deadline_stops + 1 }
stopped false n = n

-- A row of `nodes` in the Node registry.
pub record NodeRow : Type 0 where
  pub session_id : String
  pub last_heartbeat_at : Option ℕ

abbrev row_heartbeat : Option NodeRow → String → Option ℕ
row_heartbeat none session_id = none
row_heartbeat (some row) session_id =
    if row.session_id =s session_id then row.last_heartbeat_at else none

abbrev pub or_else : Option ℕ → Option ℕ → Option ℕ
or_else none next = next
or_else (some n) next = some n

abbrev named : Option String → Option String
named none = none
named (some id) = if is_empty id then none else some id

abbrev baseline_of : Session → Dict NodeRow → Option String → Option ℕ × Option ℕ
baseline_of s nodes none = (none, none)
baseline_of s nodes (some id) =
    let last =
      or_else (s.stamps Stamp.node_last_heartbeat_at)
        (row_heartbeat (lookup id nodes) s.session_id) in
    (or_else last (s.stamps Stamp.node_registered_at), last)

-- `_heartbeat_baseline`: the baseline and the last heartbeat.
unfoldable pub heartbeat_baseline : Session → Dict NodeRow → Option ℕ × Option ℕ
heartbeat_baseline s nodes = baseline_of s nodes (named (s.texts TextField.node_id))

-- `not (baseline is None or now < baseline or now - baseline < grace)`.
abbrev pub is_overdue : Option ℕ → ℕ → ℕ → Bool
is_overdue none now grace = false
is_overdue (some baseline) now grace = not (ltb now baseline || ltb (now - baseline) grace)

-- `_has_holding_event_since`; the order of the events does not matter.
unfoldable pub has_holding_event_since : Session → ℕ → Bool
has_holding_event_since s started =
    any (λ e. (e.type =s "session.holding") && leb started e.occurred_at) s.events

abbrev pub holding_event : Session → ℕ → ℕ → ℕ → Option AuditEvent
unfolding has_holding_event_since
holding_event s started deadline now =
    if has_holding_event_since s started
    then none
    else some (record {
      entry = record {
        type = "session.holding";
        reason_code = some "INGEST_DISCONNECTED";
        payload =
            field "hold_started_at" (opt_num (some started))
              (field "hold_deadline_at" (opt_num (some deadline)) end);
        origin = "reaper";
      };
      occurred_at = some (Raw.number (pos now));
    })

-- The first number of two that may be missing.
abbrev pub or_default : Option ℕ → ℕ → ℕ
or_default none next = next
or_default (some n) next = n

-- `str(failure_reason_code or "RESOURCE_CLEANUP_FAILED")[:100]`.
abbrev failure_code : Option String → String
failure_code none = "RESOURCE_CLEANUP_FAILED"
failure_code (some code) = if is_empty code then "RESOURCE_CLEANUP_FAILED" else take 100 code

module _ {W : Type 0} where
  -- `for session in ...:` with the counts threaded through.
  unfoldable pub for_each : (Session → Counts → Act W Counts) → List Session → Counts → Act W Counts
  for_each body [] n = return n
  for_each body (s ∷ ss) n = body s n >>= for_each body ss

module _ {W : Type 0} (services : Services W) (config : ReaperConfig) (now : ℕ) where
  -- A loop over the Sessions in some states, which the store lists first.
  unfoldable pub over : List Status → (Session → Counts → Act W Counts) → Counts → Act W Counts
  over states body n = call services (λ c. sessions_in_states states) >>= λ ss. for_each body ss n

  unfoldable pub check_provisioning : Session → Counts → Act W Counts
  check_provisioning s n =
      let started = or_default (s.stamps Stamp.provisioning_started_at) s.created_at in
      if ltb config.provisioning_timeout (now - started)
      then (fail_and_cleanup services config s.session_id "provisioning timeout"
            "PROVISIONING_TIMEOUT"
            (some (
              s.status,
              Expected.stamp Stamp.provisioning_started_at (s.stamps Stamp.provisioning_started_at)
                  ∷ Expected.text TextField.provisioning_operation_id
                      (s.texts TextField.provisioning_operation_id)
                  ∷ [],
            ))
            now
          >>= λ done. return (timed_out done n))
      else return n

  -- The stop of a Session that is still as it was read.
  abbrev stop_if : Session → String → Status → List Expected → Counts → Act W Counts
  stop_if s reason_code status fields n =
      stop_and_cleanup services config s.session_id reason_code (some (status, fields)) now
      >>= λ done. return (stopped done n)

  unfoldable pub check_deadline_at : Option ℕ → Session → Counts → Act W Counts
  check_deadline_at none s n = return n
  check_deadline_at (some deadline) s n =
      if leb deadline now
      then stop_if s "ABSOLUTE_DEADLINE_EXCEEDED" s.status
          (Expected.stamp Stamp.absolute_deadline_at (some deadline) ∷ []) n
      else return n

  unfoldable pub check_deadline : Session → Counts → Act W Counts
  check_deadline s n = check_deadline_at (s.stamps Stamp.absolute_deadline_at) s n

  unfoldable pub check_heartbeat : Dict NodeRow → Session → Counts → Act W Counts
  unfolding heartbeat_baseline
  check_heartbeat nodes s n =
      let found = heartbeat_baseline s nodes in
      if is_overdue found.0 now config.heartbeat_grace
      then (fail_missing_heartbeat services config s found.1 now >>= λ done. return (lost done n))
      else return n

  unfoldable pub check_ingest : Session → Counts → Act W Counts
  check_ingest s n =
      if ltb config.no_ingest_timeout (now - or_default (s.stamps Stamp.ready_at) now)
      then stop_if s "NO_INGEST_TIMEOUT" Status.ready_wait_ingest
          (Expected.stamp Stamp.ready_at (s.stamps Stamp.ready_at) ∷ []) n
      else return n

  -- The end of the HOLDING pass, once the Session has a deadline.
  unfoldable pub check_hold : ℕ → Session → Counts → Act W Counts
  check_hold deadline s n =
      if ltb deadline now
      then stop_if s "HOLD_TIMEOUT" Status.holding
          (Expected.stamp Stamp.hold_deadline_at (some deadline)
            ∷ Expected.stamp Stamp.last_ingest_at (s.stamps Stamp.last_ingest_at)
            ∷ [])
          n
      else return n

  unfoldable pub recovered_then : ℕ → Counts → Option Session → Act W Counts
  recovered_then deadline n none = return n
  recovered_then deadline n (some s) =
      check_hold deadline s (record n { hold_deadlines_recovered = n.hold_deadlines_recovered + 1 })

  unfoldable pub recover_hold : ℕ → Session → Counts → Act W Counts
  recover_hold started s n =
      let deadline = started + config.hold_timeout in
      call services (λ c.
        update_if_current s.session_id Status.holding
          (Expected.stamp Stamp.hold_deadline_at none
            ∷ Expected.stamp Stamp.last_ingest_at (s.stamps Stamp.last_ingest_at)
            ∷ Expected.stamp Stamp.updated_at (some s.updated_at)
            ∷ [])
          (holding_event s started deadline now)
          (Change.stamp Stamp.hold_deadline_at (Raw.number (pos deadline)) ∷ []) c.clock)
      >>= recovered_then deadline n

  -- A HOLDING Session without a deadline gets one.
  unfoldable pub check_hold_at : Option ℕ → Session → Counts → Act W Counts
  check_hold_at none s n =
      recover_hold (or_default (s.stamps Stamp.last_ingest_at) s.updated_at) s n
  check_hold_at (some deadline) s n = check_hold deadline s n

  unfoldable pub check_holding : Session → Counts → Act W Counts
  check_holding s n = check_hold_at (s.stamps Stamp.hold_deadline_at) s n

  unfoldable pub check_stopping : Session → Counts → Act W Counts
  check_stopping s n =
      stop_and_cleanup services config s.session_id "STOP_REQUESTED" none now >>= λ done. return n

  -- The body of `try` for a Session whose cleanup had failed.
  unfoldable pub settle_retry : Session → String → Act W (Unit {0})
  settle_retry s lease = do
    cleaned ← cleanup_resources services s.session_id lease
    if cleaned
        then (move services s.session_id Status.failed_cleanup Status.failed (pending false ∷ [])
            >>= λ t.
                audit services s.session_id "session.failed"
                  (some (failure_code (s.texts TextField.failure_reason_code)))
                  (field "failure_reason" (opt_text (s.texts TextField.failure_reason))
                    (field "cleanup_pending" (Json.boolean false) end))
                  now)
        else return tt

  unfoldable pub retry_leased : Session → Option String → Act W (Unit {0})
  retry_leased s none = return tt
  retry_leased s (some lease) = finally (settle_retry s lease) (release services s.session_id lease)

  unfoldable pub retry : Session → Act W (Unit {0})
  retry s = do
    gone ← try_revoke services s.session_id
    if gone then (claim services s.session_id >>= retry_leased s) else return tt

  unfoldable pub check_failed_cleanup : Session → Counts → Act W Counts
  check_failed_cleanup s n =
      retry s >> return (record n { failed_cleanup_retries = n.failed_cleanup_retries + 1 })

  -- The heartbeat pass, which a registry that cannot be trusted leaves out.
  unfoldable pub heartbeat_pass : Option (Dict NodeRow) → Counts → Act W Counts
  heartbeat_pass none n = return n
  heartbeat_pass (some nodes) n = over active_states (check_heartbeat nodes) n

  -- The passes over the Sessions. `nodes` is what `read_node_authority_snapshot` gives, `none` where it
  -- raises.
  unfoldable pub passes : Option (Dict NodeRow) → Act W Counts
  passes nodes = do
    a ← over (Status.provisioning ∷ Status.bootstrapping ∷ []) check_provisioning no_counts
    b ← over active_states check_deadline a
    c ← heartbeat_pass nodes b
    d ← over (Status.ready_wait_ingest ∷ []) check_ingest c
    e ← over (Status.holding ∷ []) check_holding d
    f ← over (Status.stopping ∷ []) check_stopping e
    over (Status.failed_cleanup ∷ []) check_failed_cleanup f

  -- `run`.
  unfoldable pub run : Option (Dict NodeRow) → Act W (Counts × ℕ)
  run nodes = do
    counts ← passes nodes
    orphans ← cleanup_orphans services config now
    return (counts, orphans)
