-- ===== src/Session/Record.antt =====
-- The persisted records of apps/control-api/session_store.py: a Session, its events, its audio
-- control, and the cleanup leases. A Session is a Python dict; its keys with values of one kind are
-- one function here, so that `session.update(changes)` is a fold over typed assignments.
use irlight.Base.{
  ℕ, Bool, true, false, Option, none, some, List, [], ◌∷◌, String, ◌==◌, if◌then◌else◌, all,
}
use irlight.Base.Text.{◌=?◌}
use irlight.Base.Dict.{Dict}
use irlight.Base.Int.{pos}
use irlight.Session.Status.{Status}
use irlight.Session.Value.{
  DesiredMode, ActualMode, Raw, Result, ok, err, Error, ◌>>=◌, ◌>>◌, validated_timestamp,
  absolute_deadline,
}
use irlight.Session.Json.{Fields}

-- Keys that hold a bool.
pub data Flag : Type 0 where
  relay_client_connected entitlement_reserved cleanup_pending : Flag
  provisioning_in_progress provisioning_cancel_requested : Flag

-- Keys that hold a string or None.
pub data TextField : Type 0 where
  relay_client_status relay_client_last_reason idempotency_key destination_id provider : TextField
  provider_volume_id provider_server_id provider_public_ipv4 node_id node_boot_id : TextField
  provisioning_operation_id recovery_candidate_source_id entitlement_id : TextField
  failure_reason failure_reason_code : TextField

-- `SESSION_TIMESTAMP_FIELDS`: the first two are required.
pub data Stamp : Type 0 where
  created_at updated_at relay_client_updated_at node_registered_at node_last_heartbeat_at : Stamp
  provisioning_started_at ready_at first_ingest_at last_ingest_at hold_deadline_at : Stamp
  recovery_candidate_since absolute_deadline_at : Stamp

abbrev pub flag_index : Flag → ℕ
flag_index Flag.relay_client_connected = 0
flag_index Flag.entitlement_reserved = 1
flag_index Flag.cleanup_pending = 2
flag_index Flag.provisioning_in_progress = 3
flag_index Flag.provisioning_cancel_requested = 4

abbrev pub text_index : TextField → ℕ
text_index TextField.relay_client_status = 0
text_index TextField.relay_client_last_reason = 1
text_index TextField.idempotency_key = 2
text_index TextField.destination_id = 3
text_index TextField.provider = 4
text_index TextField.provider_volume_id = 5
text_index TextField.provider_server_id = 6
text_index TextField.provider_public_ipv4 = 7
text_index TextField.node_id = 8
text_index TextField.node_boot_id = 9
text_index TextField.provisioning_operation_id = 10
text_index TextField.recovery_candidate_source_id = 11
text_index TextField.entitlement_id = 12
text_index TextField.failure_reason = 13
text_index TextField.failure_reason_code = 14

abbrev pub stamp_index : Stamp → ℕ
stamp_index Stamp.created_at = 0
stamp_index Stamp.updated_at = 1
stamp_index Stamp.relay_client_updated_at = 2
stamp_index Stamp.node_registered_at = 3
stamp_index Stamp.node_last_heartbeat_at = 4
stamp_index Stamp.provisioning_started_at = 5
stamp_index Stamp.ready_at = 6
stamp_index Stamp.first_ingest_at = 7
stamp_index Stamp.last_ingest_at = 8
stamp_index Stamp.hold_deadline_at = 9
stamp_index Stamp.recovery_candidate_since = 10
stamp_index Stamp.absolute_deadline_at = 11

-- `SESSION_REQUIRED_TIMESTAMPS`.
abbrev pub is_required : Stamp → Bool
is_required Stamp.created_at = true
is_required Stamp.updated_at = true
is_required _ = false

pub record Event : Type 0 where
  pub sequence : ℕ
  pub type : String
  pub reason_code : Option String
  pub payload : Fields
  pub occurred_at : ℕ
  pub origin : String

pub record Audio : Type 0 where
  pub desired_mode : DesiredMode
  pub actual_mode : ActualMode
  pub version : ℕ
  pub command_id : Option String
  pub idempotency_key : Option String
  pub updated_at : ℕ

pub record PrepareRequest : Type 0 where
  pub environment : String
  pub destination_id : Option String
  pub egress_mode : String

-- `next_event_seq` and `media_control` are missing from records of older versions.
pub record Session : Type 0 where
  pub session_id : String
  pub user_id : String
  pub environment : String
  pub egress_mode : String
  pub status : Status
  pub version : ℕ
  pub relay_client_reader_count : ℕ
  pub prepare_request : Option PrepareRequest
  pub events : List Event
  pub next_event_seq : Option ℕ
  pub media_control : Option Audio
  pub created_at : ℕ
  pub updated_at : ℕ
  pub flags : Flag → Bool
  pub texts : TextField → Option String
  pub stamps : Stamp → Option ℕ

pub data Scope : Type 0 where
  -- `resource_id` and `resource_kind`
  orphan : String → String → Scope
  -- `expected_states`
  session : List Status → Scope

pub record Lease : Type 0 where
  pub lease_id : String
  pub scope : Scope
  pub created_at : ℕ
  pub expires_at : ℕ

-- What a transaction works on: the two dicts of the store object, and `_authoritative`.
pub record State : Type 0 where
  pub sessions : Dict Session
  pub leases : Dict Lease
  pub authoritative : Bool

abbrev pub set_flag : Flag → Bool → Session → Session
set_flag f b s = record s { flags = λ g. if flag_index f == flag_index g then b else s.flags g }

abbrev pub set_text : TextField → Option String → Session → Session
set_text f v s = record s { texts = λ g. if text_index f == text_index g then v else s.texts g }

-- `session[stamp]`; the two required stamps are fields of their own.
abbrev pub get_stamp : Session → Stamp → Option ℕ
get_stamp s Stamp.created_at = some s.created_at
get_stamp s Stamp.updated_at = some s.updated_at
get_stamp s f = s.stamps f

abbrev pub set_opt_stamp : Stamp → Option ℕ → Session → Session
set_opt_stamp f v s = record s {
  stamps = λ g. if stamp_index f == stamp_index g then v else s.stamps g;
}

-- What the checked number is; only checked values are written.
abbrev pub raw_ticks : Raw → Option ℕ
raw_ticks (Raw.number (pos n)) = some n
raw_ticks _ = none

abbrev pub set_stamp : Stamp → Option ℕ → Session → Session
set_stamp Stamp.created_at (some n) s = record s { created_at = n }
set_stamp Stamp.updated_at (some n) s = record s { updated_at = n }
set_stamp f v s = set_opt_stamp f v s

-- One keyword argument of `**changes`.
pub data Change : Type 0 where
  flag : Flag → Bool → Change
  text : TextField → Option String → Change
  stamp : Stamp → Raw → Change

abbrev pub apply_change : Change → Session → Session
apply_change (Change.flag f b) s = set_flag f b s
apply_change (Change.text f v) s = set_text f v s
apply_change (Change.stamp f r) s = set_stamp f (raw_ticks r) s

-- `session.update(changes)`.
abbrev pub apply_changes : List Change → Session → Session
apply_changes [] s = s
apply_changes (c ∷ cs) s = apply_changes cs (apply_change c s)

abbrev validate_change : Change → Result (Unit {0})
validate_change (Change.stamp f Raw.null) = if is_required f then err Error.state_error else ok tt
validate_change (Change.stamp f r) = validated_timestamp r >>= λ _. ok tt
validate_change _ = ok tt

-- `_validate_timestamp_changes`.
unfoldable pub validate_changes : List Change → Result (Unit {0})
unfolding validated_timestamp
validate_changes [] = ok tt
validate_changes (c ∷ cs) = validate_change c >> validate_changes cs

-- One entry of `expected_fields`.
pub data Expected : Type 0 where
  text : TextField → Option String → Expected
  stamp : Stamp → Option ℕ → Expected

infix 50 ◌=n?◌
abbrev pub ◌=n?◌ : Option ℕ → Option ℕ → Bool
◌=n?◌ none none = true
◌=n?◌ (some a) (some b) = a == b
◌=n?◌ _ _ = false

abbrev matches_field : Session → Expected → Bool
matches_field s (Expected.text f v) = s.texts f =? v
matches_field s (Expected.stamp f v) = get_stamp s f =n? v

-- `_matches_fields`.
unfoldable pub matches_fields : Session → List Expected → Bool
matches_fields s expected = all (λ e. matches_field s e) expected

-- `_default_media_control`.
abbrev pub default_audio : ℕ → Audio
default_audio now = record {
  desired_mode = DesiredMode.live;
  actual_mode = ActualMode.live;
  version = 0;
  command_id = none;
  idempotency_key = none;
  updated_at = now;
}

-- The dict that `new_session` returns.
abbrev pub blank_session : String → String → String → String → ℕ → Option ℕ → Session
blank_session session_id user_id environment egress_mode now deadline = record {
  session_id = session_id;
  user_id = user_id;
  environment = environment;
  egress_mode = egress_mode;
  status = Status.stopped;
  version = 0;
  relay_client_reader_count = 0;
  prepare_request = none;
  events = [];
  next_event_seq = some 1;
  media_control = some (default_audio now);
  created_at = now;
  updated_at = now;
  flags = λ _. false;
  texts = λ _. none;
  stamps = λ f. if stamp_index f == stamp_index Stamp.absolute_deadline_at then deadline else none;
}

-- `new_session`, with the clock and the drawn id as arguments.
unfoldable pub new_session : Raw → String → String → String → String → Raw → Result Session
unfolding validated_timestamp absolute_deadline
new_session clock fresh_id user_id environment egress_mode hours = do
  now ← validated_timestamp clock
  deadline ← absolute_deadline now hours
  ok (blank_session fresh_id user_id environment egress_mode now deadline)

-- `_clear_recovery_candidate`.
abbrev pub clear_recovery_candidate : Session → Session
clear_recovery_candidate s =
    set_text TextField.recovery_candidate_source_id none
      (set_opt_stamp Stamp.recovery_candidate_since none s)
