-- ===== src/Workflow/Stop.antt =====
-- `stop` and `_finish_cancelled_provisioning` of apps/control-api/session_workflow.py.
use irlight.Base.{Bool, true, false, Option, none, some, List, [], ◌∷◌, ◌++◌, String, if◌then◌else◌}
use irlight.Session.Status.{Status, show_status, is_in, terminal_states, ◌=st◌}
use irlight.Session.Value.{Error}
use irlight.Session.Record.{Session, Flag, TextField, Change}
use irlight.Session.Leases.{claim_session_cleanup, release_session_cleanup}
use irlight.Session.Provision.{request_stop, transition, update}
use irlight.Session.Node.{get}
use irlight.Workflow.World.{Services, Act, ◌>>=◌, ◌>>◌, return, raise, finally, call, revoke}
use irlight.Workflow.Cleanup.{lease_seconds, cleanup_resources}

-- The end of the provisioning lease.
abbrev pub unleased : List Change
unleased =
    Change.flag Flag.provisioning_in_progress false
    ∷ Change.text TextField.provisioning_operation_id none
    ∷ []

abbrev pub uncancelled : List Change
uncancelled = unleased ++ Change.flag Flag.provisioning_cancel_requested false ∷ []

abbrev pub pending : Bool → Change
pending b = Change.flag Flag.cleanup_pending b

abbrev pub because : String → Change
because reason = Change.text TextField.failure_reason (some reason)

-- `self.store.get(session_id) or session`.
abbrev pub or_else : Option Session → Session → Session
or_else none s = s
or_else (some t) s = t

module _ {W : Type 0} (services : Services W) where
  -- `transition` from one state.
  unfoldable pub move : String → Status → Status → List Change → Act W Session
  move session_id from to changes =
      call services λ c. transition session_id (show_status to) (some (from ∷ [])) changes c.clock

  unfoldable pub current_or : String → Session → Act W Session
  current_or session_id s = do found ← call services (λ c. get session_id); return (or_else found s)

  unfoldable pub or_missing : Option Session → Act W Session
  or_missing none = raise Error.key_error
  or_missing (some s) = return s

  -- `raise KeyError` where the Session is gone.
  unfoldable pub existing : String → Act W Session
  existing session_id = call services (λ c. get session_id) >>= or_missing

  unfoldable pub release : String → String → Act W (Unit {0})
  release session_id lease = call services λ c. release_session_cleanup session_id lease

  unfoldable pub claim : String → Act W (Option String)
  claim session_id = call services λ c. claim_session_cleanup session_id [] lease_seconds c

  -- The body of `try` in `stop`.
  unfoldable pub settle_stop : String → String → Act W Session
  settle_stop session_id lease = do
    cleaned ← cleanup_resources services session_id lease
    if cleaned
        then move session_id Status.stopping Status.finished (pending false ∷ uncancelled)
        else move session_id Status.stopping Status.failed_cleanup
            (pending true ∷ because "resource cleanup failed" ∷ unleased)

  unfoldable pub stop_leased : String → Session → Option String → Act W Session
  stop_leased session_id s none = current_or session_id s
  stop_leased session_id s (some lease) =
      finally (settle_stop session_id lease) (release session_id lease)

  -- What follows the request and the revocation.
  unfoldable pub stop_requested : String → Session → Act W Session
  stop_requested session_id s =
      if s.flags Flag.provisioning_in_progress
      then return s
      else (claim session_id >>= stop_leased session_id s)

  unfoldable pub stop_running : String → Act W Session
  stop_running session_id = do
    s ← call services (λ c. request_stop session_id c.clock)
    revoke services session_id
    stop_requested session_id s

  -- `stop`.
  unfoldable pub stop : String → Act W Session
  stop session_id = do
    s ← existing session_id
    if is_in s.status terminal_states
        then (revoke services session_id >> return s)
        else stop_running session_id

  -- The branches on the state that follow the cleanup of a cancelled provisioning.
  unfoldable pub settle_as : String → Bool → Session → Act W Session
  settle_as session_id cleaned s =
      if s.status =st Status.stopping
      then (if cleaned
          then move session_id Status.stopping Status.finished (pending false ∷ uncancelled)
          else move session_id Status.stopping Status.failed_cleanup (
              pending true
              ∷ because "resource cleanup failed after provisioning cancellation"
              ∷ uncancelled))
      else (if s.status =st Status.failed_cleanup
          then (if cleaned
              then move session_id Status.failed_cleanup Status.failed (pending false ∷ uncancelled)
              else call services λ c. update session_id (pending true ∷ uncancelled) c.clock)
          else return s)

  unfoldable pub settle_cancelled : String → String → Act W Session
  settle_cancelled session_id lease = do
    cleaned ← cleanup_resources services session_id lease
    s ← existing session_id
    settle_as session_id cleaned s

  unfoldable pub finish_leased : String → Session → Option String → Act W Session
  finish_leased session_id s none = return s
  finish_leased session_id s (some lease) =
      finally (settle_cancelled session_id lease) (release session_id lease)

  -- `_finish_cancelled_provisioning`.
  unfoldable pub finish_cancelled_provisioning : String → Act W Session
  finish_cancelled_provisioning session_id = do
    s ← existing session_id
    if is_in s.status (Status.stopping ∷ Status.failed_cleanup ∷ [])
        then (revoke services session_id >> (claim session_id >>= finish_leased session_id s))
        else return s
