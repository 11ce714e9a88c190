-- ===== src/Session/Provision.antt =====
-- The provisioning lease, stop requests and state transitions of
-- apps/control-api/session_store.py.
use irlight.Base.{
  ℕ, Bool, true, false, not, ◌&&◌, ◌||◌, Option, none, some, List, [], ◌∷◌, String, if◌then◌else◌,
}
use irlight.Base.Text.{◌=s◌, ◌=?◌, is_empty}
use irlight.Base.Dict.{lookup}
use irlight.Session.Status.{
  Status, is_in, parse_status, active_states, terminal_states, transitions,
}
use irlight.Session.Value.{
  Raw, Result, ok, err, ◌>>=◌, ◌>>◌, Error, raise_if, or_raise, validated_timestamp,
}
use irlight.Session.Record.{
  Session, State, Flag, TextField, Stamp, Change, Expected, set_flag, set_text, set_opt_stamp,
  apply_changes, validate_changes, matches_fields, clear_recovery_candidate,
}
use irlight.Session.Disk.{Op, Step}
use irlight.Session.Events.{Entry, append_event_locked, put_session}
use irlight.Session.Leases.{Readings, reject_active_cleanup_lease}

-- Store a changed Session under its key and return it.
abbrev pub commit : State → String → Session → Result (Step Session)
commit st session_id s = ok (Step.save s (put_session st session_id s))

-- `update`.
unfoldable pub update : String → List Change → Raw → Op Session
update session_id changes clock st = do
  validate_changes changes
  s ← or_raise (lookup session_id st.sessions) Error.key_error
  now ← validated_timestamp clock
  let s' = apply_changes changes s
  commit st session_id (record s' { updated_at = now })

-- `existing and existing != operation_id`.
abbrev pub owned_by_other : Option String → String → Bool
owned_by_other none operation_id = false
owned_by_other (some o) operation_id = not (is_empty o) && not (o =s operation_id)

abbrev pub provisionable : List Status
provisionable = Status.stopped ∷ Status.provisioning ∷ Status.bootstrapping ∷ []

-- The update that takes the provisioning lease.
abbrev pub claimed : String → ℕ → ℕ → Session → Session
claimed operation_id started_at now s =
    let s' = set_flag Flag.provisioning_in_progress true (
      set_flag Flag.provisioning_cancel_requested false (
        set_flag Flag.cleanup_pending false (
          set_opt_stamp Stamp.provisioning_started_at (some started_at)
            (set_text TextField.provisioning_operation_id (some operation_id) s)))) in
    record s' { status = Status.provisioning; updated_at = now }

-- `claim_provisioning`.
unfoldable pub claim_provisioning : String → String → Raw → Readings → Op Session
claim_provisioning session_id operation_id started_at r st = do
  started ← validated_timestamp started_at
  reject_active_cleanup_lease st session_id r.lease_clock
  s ← or_raise (lookup session_id st.sessions) Error.key_error
  raise_if (not (is_in s.status provisionable)) Error.invalid_transition
  raise_if (owned_by_other (s.texts TextField.provisioning_operation_id) operation_id)
      Error.provisioning_in_progress
  now ← validated_timestamp r.clock
  commit st session_id (claimed operation_id started now s)

abbrev pub cancelled_states : List Status
cancelled_states = Status.stopping ∷ Status.failed_cleanup ∷ Status.finished ∷ Status.failed ∷ []

-- `cancelled` of `provisioning_checkpoint`, and `_provisioning_cancelled` of session_workflow.py.
abbrev pub is_cancelled : Session → Bool
is_cancelled s = s.flags Flag.provisioning_cancel_requested || is_in s.status cancelled_states

abbrev pub advance : Option Status → Session → Result Session
advance none s = ok s
advance (some next) s =
    if is_in next (transitions s.status)
    then ok (clear_recovery_candidate (record s { status = next }))
    else err Error.invalid_transition

abbrev pub complete_if : Bool → Session → Session
complete_if false s = s
complete_if true s = set_text TextField.provisioning_operation_id none (
    set_flag Flag.provisioning_in_progress false
      (set_flag Flag.provisioning_cancel_requested false s))

-- Both `if … and not cancelled` of the checkpoint.
abbrev pub unless_cancelled : Option Status → Bool → Session → Result Session
unless_cancelled next complete s =
    let advanced = (advance next s >>= λ t. ok (complete_if complete t)) in
    if is_cancelled s then ok s else advanced

-- `provisioning_checkpoint`.
unfoldable pub provisioning_checkpoint :
    String → String → Option Status → Bool → List Change → Raw → Op Session
provisioning_checkpoint session_id operation_id next complete changes clock st = do
  validate_changes changes
  s ← or_raise (lookup session_id st.sessions) Error.key_error
  raise_if (not (s.texts TextField.provisioning_operation_id =? some operation_id))
      Error.provisioning_in_progress
  now ← validated_timestamp clock
  s' ← unless_cancelled next complete (apply_changes changes s)
  commit st session_id (record s' { updated_at = now })

-- The update of both stop requests.
abbrev pub stopping : ℕ → Session → Session
stopping now s =
    let s' =
      clear_recovery_candidate
        (set_flag Flag.provisioning_cancel_requested true (set_flag Flag.cleanup_pending true s)) in
    record s' { status = Status.stopping; updated_at = now }

abbrev pub stoppable : List Status
stoppable = Status.stopping ∷ Status.failed_cleanup ∷ active_states

-- `request_stop`.
unfoldable pub request_stop : String → Raw → Op Session
request_stop session_id clock st = do
  s ← or_raise (lookup session_id st.sessions) Error.key_error
  let stop = (do
    raise_if (not (is_in s.status stoppable)) Error.invalid_transition
    now ← validated_timestamp clock
    commit st session_id (stopping now s))
  if is_in s.status terminal_states then ok (Step.keep s) else stop

-- `session is None or status != expected_status or not _matches_fields(...)` gives None.
abbrev pub still_current : List Status → List Expected → Option Session → Bool
still_current allowed expected none = false
still_current allowed expected (some s) = is_in s.status allowed && matches_fields s expected

abbrev pub if_current :
    Option Session
    → Bool
    → (Session → Result (Step (Option Session)))
    → Result (Step (Option Session))
if_current (some s) true f = f s
if_current _ _ f = ok (Step.keep none)

abbrev pub commit_some : State → String → Session → Result (Step (Option Session))
commit_some st session_id s = ok (Step.save (some s) (put_session st session_id s))

-- `request_stop_if_current`.
unfoldable pub request_stop_if_current : String → Status → List Expected → Raw → Op (Option Session)
request_stop_if_current session_id expected_status expected clock st =
    let found = lookup session_id st.sessions in
    if_current found (still_current (expected_status ∷ []) expected found)
      λ s. do now ← validated_timestamp clock; commit_some st session_id (stopping now s)

-- The optional audit event of `update_if_current`.
pub record AuditEvent : Type 0 where
  pub entry : Entry
  pub occurred_at : Option Raw

abbrev pub audit_time : ℕ → Option AuditEvent → Result ℕ
audit_time current none = ok current
audit_time current (some e) = elim e.occurred_at [
  | none ↦ ok current
  | some given ↦ validated_timestamp given
]

abbrev pub append_audit : Session → Option AuditEvent → ℕ → Session
append_audit s none at = s
append_audit s (some e) at = append_event_locked s e.entry at

-- `update_if_current`.
unfoldable pub update_if_current :
    String → Status → List Expected → Option AuditEvent → List Change → Raw → Op (Option Session)
update_if_current session_id expected_status expected event changes clock st = do
  validate_changes changes
  let found = lookup session_id st.sessions
  if_current found (still_current (expected_status ∷ []) expected found) (λ s. do
    current ← validated_timestamp clock
    at ← audit_time current event
    let s' = append_audit (apply_changes changes s) event at
    commit_some st session_id (record s' { updated_at = at }))

-- The writes of both transitions.
abbrev pub moved : Status → List Change → ℕ → Session → Session
moved new_state changes now s =
    let s' = clear_recovery_candidate (record (apply_changes changes s) { status = new_state }) in
    let s'' =
      if is_in new_state (Status.finished ∷ Status.failed ∷ [])
      then set_flag Flag.entitlement_reserved false s'
      else s' in
    record s'' { updated_at = now }

-- `allow_from`, or the transition table.
abbrev pub may_move : Option (List Status) → Status → Status → Bool
may_move none current new_state = is_in new_state (transitions current)
may_move (some allow_from) current new_state = is_in current allow_from

-- `transition`.
unfoldable pub transition : String → String → Option (List Status) → List Change → Raw → Op Session
transition session_id new_state allow_from changes clock st = do
  target ← or_raise (parse_status new_state) Error.invalid_transition
  validate_changes changes
  s ← or_raise (lookup session_id st.sessions) Error.key_error
  raise_if (not (may_move allow_from s.status target)) Error.invalid_transition
  now ← validated_timestamp clock
  commit st session_id (moved target changes now s)

-- `transition_if_current`.
unfoldable pub transition_if_current :
    String → String → List Status → List Expected → List Change → Raw → Op (Option Session)
transition_if_current session_id new_state allow_from expected changes clock st = do
  target ← or_raise (parse_status new_state) Error.invalid_transition
  validate_changes changes
  let found = lookup session_id st.sessions
  if_current found (still_current allow_from expected found) (λ s. do
    now ← validated_timestamp clock
    commit_some st session_id (moved target changes now s))
