-- ===== src/Reaper/Stop.antt =====
-- `_fail_missing_heartbeat`, `_fail_and_cleanup` and `_stop_and_cleanup` of apps/control-api/reaper.py.
use irlight.Base.{
  ℕ, ◌-◌, ◌==◌, Bool, true, false, Option, none, some, List, [], ◌∷◌, String, leb, if◌then◌else◌,
}
use irlight.Base.Text.{◌=?◌}
use irlight.Session.Status.{Status, show_status, is_in, active_states, terminal_states}
use irlight.Session.Value.{Raw}
use irlight.Session.Disk.{Op, Step}
use irlight.Session.Value
use irlight.Session.Json.{Json, Fields, end, field, opt_text, opt_num}
use irlight.Session.Record.{Session, Flag, TextField, Stamp, Change, Expected}
use irlight.Session.Leases.{Readings}
use irlight.Session.Node.{get}
use irlight.Session.Provision.{
  transition, transition_if_current, request_stop, request_stop_if_current, update,
}
use irlight.Workflow.World.{Services, Act, ◌>>=◌, ◌>>◌, return, finally, call}
use irlight.Workflow.Stop.{unleased, uncancelled, pending, because, move, claim, release}
use irlight.Workflow.World.{caught}
use irlight.Reaper.Config.{ReaperConfig, audit, try_revoke}
use irlight.Reaper.Cleanup.{cleanup_resources}

abbrev pub coded : String → Change
coded reason_code = Change.text TextField.failure_reason_code (some reason_code)

abbrev pub move_payload : Option String → String → Fields
move_payload from to = field "from_state" (opt_text from) (field "to_state" (Json.text to) end)

-- `expected_status` with `expected_fields`, or None.
abbrev pub Condition : Type 0
Condition = Option (Status × List Expected)

-- A write of the store without a condition, as one that may find nothing to do.
abbrev answered : Step Session → Step (Option Session)
answered (Step.keep s) = Step.keep (some s)
answered (Step.save s st) = Step.save (some s) st

abbrev always : Op Session → Op (Option Session)
always op st = Value.◌>>=◌ (op st) (λ done. Value.Result.ok (answered done))

abbrev heartbeat_fields : Session → List Expected
heartbeat_fields s =
    Expected.text TextField.node_id (s.texts TextField.node_id)
    ∷ Expected.text TextField.node_boot_id (s.texts TextField.node_boot_id)
    ∷ Expected.stamp Stamp.node_registered_at (s.stamps Stamp.node_registered_at)
    ∷ Expected.stamp Stamp.node_last_heartbeat_at (s.stamps Stamp.node_last_heartbeat_at)
    ∷ []

abbrev heartbeat_payload : Session → Option ℕ → ℕ → Fields
heartbeat_payload s last grace = field "node_id" (opt_text (s.texts TextField.node_id)) (
    field "from_state" (Json.text (show_status s.status)) (
      field "to_state" (Json.text "FAILED_CLEANUP") (
        field "cleanup_pending" (Json.boolean true) (
          field "last_heartbeat_at" (opt_num last) (
            field "node_registered_at" (opt_num (s.stamps Stamp.node_registered_at))
              (field "heartbeat_grace_seconds" (opt_num (some grace)) end))))))

abbrev failing : String → String → List Change
failing reason reason_code =
    pending true
    ∷ because reason
    ∷ coded reason_code
    ∷ Change.flag Flag.provisioning_cancel_requested true
    ∷ unleased

abbrev fail_op : String → String → String → Condition → Readings → Op (Option Session)
fail_op session_id reason reason_code none c = always (
    transition session_id "FAILED_CLEANUP" (some (Status.provisioning ∷ Status.bootstrapping ∷ []))
      (failing reason reason_code) c.clock)
fail_op session_id reason reason_code (some (status, fields)) c =
    transition_if_current session_id "FAILED_CLEANUP" (status ∷ []) fields
      (failing reason reason_code) c.clock

abbrev stop_op : String → Condition → Readings → Op (Option Session)
stop_op session_id none c = always (request_stop session_id c.clock)
stop_op session_id (some (status, fields)) c =
    request_stop_if_current session_id status fields c.clock

-- `a or b or c` for numbers, where 0 is false.
abbrev pub or_number : Option ℕ → ℕ → ℕ
or_number none next = next
or_number (some n) next = if n == 0 then next else n

abbrev status_name : Option Session → Option String
status_name none = none
status_name (some s) = some (show_status s.status)

module _ {W : Type 0} (services : Services W) (config : ReaperConfig) where
  unfoldable pub heartbeat_failed : Session → Option ℕ → ℕ → Option Session → Act W Bool
  heartbeat_failed s last now none = return false
  heartbeat_failed s last now (some t) = do
    audit services s.session_id "session.failure_detected" (some "NODE_SHUTDOWN")
        (heartbeat_payload s last config.heartbeat_grace) now
    try_revoke services s.session_id

  -- `_fail_missing_heartbeat`.
  unfoldable pub fail_missing_heartbeat : Session → Option ℕ → ℕ → Act W Bool
  fail_missing_heartbeat s last now = do
    moved ← caught none (
        call services λ c.
          transition_if_current s.session_id "FAILED_CLEANUP" active_states (heartbeat_fields s)
            (pending true ∷ because "node heartbeat timed out" ∷ coded "NODE_SHUTDOWN" ∷ [])
            c.clock)
    heartbeat_failed s last now moved

  -- The body of `try` in `_fail_and_cleanup`.
  unfoldable pub settle_failed : String → String → String → ℕ → String → Act W Bool
  settle_failed session_id reason reason_code now lease = do
    cleaned ← cleanup_resources services session_id lease
    if cleaned
        then (move services session_id Status.failed_cleanup Status.failed (pending false ∷ [])
            >>= λ s.
                audit services session_id "session.failed" (some reason_code)
                  (field "failure_reason" (Json.text reason)
                    (field "cleanup_pending" (Json.boolean false) end))
                  now
                >> return true)
        else return true

  unfoldable pub fail_leased : String → String → String → ℕ → Option String → Act W Bool
  fail_leased session_id reason reason_code now none = return true
  fail_leased session_id reason reason_code now (some lease) =
      finally (settle_failed session_id reason reason_code now lease)
        (release services session_id lease)

  unfoldable pub failed_then : String → String → String → ℕ → Option Session → Act W Bool
  failed_then session_id reason reason_code now none = return false
  failed_then session_id reason reason_code now (some s) = do
    gone ← try_revoke services session_id
    if gone
        then (claim services session_id >>= fail_leased session_id reason reason_code now)
        else return true

  -- `_fail_and_cleanup`.
  unfoldable pub fail_and_cleanup : String → String → String → Condition → ℕ → Act W Bool
  fail_and_cleanup session_id reason reason_code condition now =
      caught none (call services (fail_op session_id reason reason_code condition))
      >>= failed_then session_id reason reason_code now

  -- `from_state`.
  unfoldable pub state_before : String → Condition → Act W (Option String)
  state_before session_id none =
      call services (λ c. get session_id) >>= λ found. return (status_name found)
  state_before session_id (some (status, fields)) = return (some (show_status status))

  -- The body of `try` in `_stop_and_cleanup`.
  unfoldable pub settle_stopped : String → String → ℕ → String → Act W Bool
  settle_stopped session_id reason_code now lease = do
    cleaned ← cleanup_resources services session_id lease
    if cleaned
        then (move services session_id Status.stopping Status.finished (pending false ∷ uncancelled)
            >>= λ s.
                audit services session_id "session.finished" (some reason_code)
                  (move_payload (some "STOPPING") "FINISHED") now
                >> return true)
        else (move services session_id Status.stopping Status.failed_cleanup (
              pending true
              ∷ because "resource cleanup failed"
              ∷ coded "RESOURCE_CLEANUP_FAILED"
              ∷ unleased)
            >>= λ s. return true)

  unfoldable pub stop_leased : String → String → ℕ → Option String → Act W Bool
  stop_leased session_id reason_code now none = return true
  stop_leased session_id reason_code now (some lease) =
      finally (settle_stopped session_id reason_code now lease) (release services session_id lease)

  unfoldable pub claim_stop : String → String → ℕ → Act W Bool
  claim_stop session_id reason_code now =
      claim services session_id >>= stop_leased session_id reason_code now

  -- The start that the provisioning timeout is measured from.
  abbrev pub provisioning_start : Session → ℕ → ℕ
  provisioning_start s now =
      or_number (s.stamps Stamp.provisioning_started_at) (or_number (some s.updated_at) now)

  -- A Session whose worker is still within its time is left to that worker.
  unfoldable pub stop_provisioned : String → String → ℕ → Session → Act W Bool
  stop_provisioned session_id reason_code now s =
      if s.flags Flag.provisioning_in_progress
      then if leb (now - provisioning_start s now) config.provisioning_timeout
        then return true
        else (call services (λ c. update session_id unleased c.clock) >>= λ t.
            claim_stop session_id reason_code now)
      else claim_stop session_id reason_code now

  unfoldable pub stop_revoked : String → String → ℕ → Option String → Session → Act W Bool
  stop_revoked session_id reason_code now from s = do
    (if from =? some "STOPPING"
        then return tt
        else audit services session_id "session.stopping" (some reason_code)
            (move_payload from "STOPPING") now)
    stop_provisioned session_id reason_code now s

  unfoldable pub stop_running : String → String → ℕ → Option String → Session → Act W Bool
  stop_running session_id reason_code now from s = do
    gone ← try_revoke services session_id
    if gone then stop_revoked session_id reason_code now from s else return true

  unfoldable pub stopped_then : String → String → ℕ → Option String → Option Session → Act W Bool
  stopped_then session_id reason_code now from none = return false
  stopped_then session_id reason_code now from (some s) =
      if is_in s.status terminal_states
      then return false
      else stop_running session_id reason_code now from s

  -- `_stop_and_cleanup`.
  unfoldable pub stop_and_cleanup : String → String → Condition → ℕ → Act W Bool
  stop_and_cleanup session_id reason_code condition now = do
    from ← state_before session_id condition
    stopping ← caught none (call services (stop_op session_id condition))
    stopped_then session_id reason_code now from stopping
