-- ===== src/Lib.antt =====
-- IRLight: the Session authority of the control API.
--
-- IRLight relays a mobile streamer's feed through a cloud node that is provisioned for one Session. The
-- control API keeps the Sessions of all users in one JSON file, sessions.json. Its web handlers, its
-- provisioning workers, its reaper and the media nodes change that file only through the methods of
-- `SessionStore` (apps/control-api/session_store.py), which this library models, all of them, with
-- apps/control-api/session_workflow.py, which provisions and stops a Session, and the reaper
-- (apps/control-api/reaper.py), which sweeps over the Sessions and the provider's resources. Apart
-- from the store stand four smaller parts: the limits on what users send as events, the limits on
-- authentication attempts, the lockouts of ingest authentication, and the continuity runner's decision which
-- source is on air.
--
-- How a method is modelled. A method runs under a lock that threads and processes share: it loads the
-- file, changes two dicts in memory, and persists them or not. Here its body is an `Op`: from the loaded
-- `State` (the Sessions and the cleanup leases) to an exception, or to an answer that keeps the file
-- (`Step.keep`) or saves a new state (`Step.save`). `locked` of Session/Disk runs a body on a `Disk`: load,
-- body, persist. A history is a list of calls, each run to its end, since the lock admits one at a time.
-- What a body reads from outside, the clock and fresh UUIDs, are arguments.
--
-- The files:
--   Base and Base/*: Boolean tests, lists, strings, dicts as association lists, and signed numbers.
--   Session/Status: the states and the table TRANSITIONS.
--   Session/Value: exceptions, unchecked Python numbers (`Raw`), `_validated_timestamp` and its kin.
--   Session/Json, Session/Record: event payloads; the Session dict, leases, `new_session`.
--   Session/Disk: `_validate_sessions`, `_validate_cleanup_leases`, `_load`, `_persist`, `_state_lock`, and
--     `mark_initialized` of apps/control-api/state_safety.py.
--   Session/Events: `_next_event_sequence`, `_append_event_locked`, `append_event`.
--   Session/Leases: the cleanup leases; Session/Prepare: `create`, `reserve_prepare_slot`,
--     `begin_prepare`, `get_prepare_replay`; Session/Provision: `update`, `claim_provisioning`,
--     `provisioning_checkpoint`, `request_stop`, `transition` and the `..._if_current` variants.
--   Session/Ingest: `apply_ingest_observation` and `_recovery_candidate_ready`; Session/Media:
--     `set_audio_desired`; Session/Node: registration, heartbeats, relay client, and the reads.
--   Session/History: every writing method as a `Call`, and histories of calls.
--   The other files of Session hold proofs, named for what they prove, and Session/Examples,
--     Session/ReportExamples and Session/NodeExamples apply the theorems to concrete Sessions.
--   Workflow/World: the provider protocol and the credential store of apps/control-api/session_workflow.py
--     as an interface (`Services`), and the actions over them and the Session store. `between` lets other
--     processes change the file and the outside in any way before each call of the store, and `calls`
--     records the creations, deletions and revocations that were made.
--   Workflow/Cleanup: `_cleanup_resources`; Workflow/Stop: `stop` and `_finish_cancelled_provisioning`;
--     Workflow/Provision: `prepare` and `_find_managed`; Workflow/Emits, Order, Safety, Revocation, Created:
--     proofs on the order of the calls; Workflow/Examples: a cloud with one server and one volume.
--   Workflow/Makes: parts by the calls that they add, in any order.
--   Reaper/Config, Cleanup, Stop, Sweep, Orphans: apps/control-api/reaper.py, on the same actions as the
--     workflow; `passes` and `cleanup_orphans` make up `run`. Reaper/Order, Revoked, Passes, Unowned: proofs.
--   UserEvent/Body, Payload: `UserEventBodyLimitMiddleware` and `validate_user_event_payload` of
--     apps/control-api/session_event_policy.py; UserEvent/Shape: what a payload may be, by recursion;
--     UserEvent/Scan: the walk against that.
--   RateLimit/Config, Attempt, Shard: apps/control-api/auth_rate_limit.py; RateLimit/Table, Quota, Release:
--     proofs on `_register_attempt`.
--   AuthGuard/Bucket, Guard, Calls: apps/control-api/ingest_auth_guard.py; AuthGuard/Compact,
--     Bounded: its limits; AuthGuard/Lockout: when a bucket is locked.
--   Continuity/State, Control: apps/continuity/state.py and control_state.py; Continuity/Trace: the decisions
--     as a function of the trace. The Examples of each part apply its theorems.
--
-- Numbers. A float of seconds is a whole number of millionths, so sums and comparisons are exact; Python
-- rounds at the 53rd bit. What is not a finite number of at least zero is a constructor of `Raw`, which
-- the checks refuse. One loop needs fuel, the walk over a payload with an explicit stack: it gets 130
-- rounds, which suffice since every entry but the first is counted before it is pushed, and no more than
-- 128 are. The other loops run over lists.
--
-- Not modelled: JSON text (a file that does not parse or has a wrong shape is `Content.broken`), system
-- calls and their errors, messages of exceptions, keys that no method reads, and the other services. Of
-- the parts above: the path test of the event middleware, the names of event types, the directory, secret
-- and HMAC of the attempt limits, environment variables, and of the ingest lockouts the file (loading,
-- validation, writing), the normal form of addresses and names and the digests that make the keys of the
-- buckets. The Node registry that the reaper reads is an argument, and so are `json.dumps` and
-- `uuid.UUID`. The arguments of a method have the types that its callers give them, so `isinstance` tests
-- on them are the types here, except for the numbers above. A change of fields (`**changes`) assigns
-- flags, texts and stamps, not `status` or `session_id`, which no caller passes. Histories leave out
-- `create` without an id.
--
-- Sanctioned calls, in the results on histories: `transition` and its variant take a set of states to
-- leave, which replaces the table; the callers only give sets that agree with the table, and they stop
-- only what may be stopped.
pub mod AuthGuard
pub mod Base
pub mod Continuity
pub mod RateLimit
pub mod Reaper
pub mod Session
pub mod UserEvent
pub mod Workflow
