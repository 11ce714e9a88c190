-- ===== src/Workflow/Examples.antt =====
-- The theorems on apps/control-api/session_workflow.py for a cloud that holds one server and one volume.
use irlight.Base.{◌≡◌, refl, true, none, some, List, [], ◌∷◌, ◌++◌, String, if◌then◌else◌, ◌+◌, ◌*◌}
use irlight.Base.Text.{◌=s◌}
use irlight.Base.Int.{pos}
use irlight.Session.Status.{Status}
use irlight.Session.Value.{Raw, ok, second, validated_timestamp}
use irlight.Session.Record.{Session, Lease, Scope, State, blank_session}
use irlight.Session.Disk.{
  Content, persist, load, locked, valid_payload, valid_session, valid_lease, payload_of,
}
use irlight.Session.Leases.{
  Readings, lease_until, cleanup_states, active_cleanup_lease, session_cleanup_still_owned,
}
use irlight.Session.Node.{get}
use irlight.Workflow.World.{
  Kind, Resource, Moment, Candidate, Effect, Services, World, ◌>>=◌, call, managed_resources,
  all_candidates, try_delete, created, candidates_of, create_volume, create_server,
}
use irlight.Workflow.Cleanup.{
  resource_environment, owned_among, owned_resources, delete_each, delete_volumes,
  cleanup_resources,
}
use irlight.Session.Record.{validate_changes}
use irlight.Session.Provision.{claimed, provisioning_checkpoint}
use irlight.Workflow.Provision.{
  PrepareCall, managed_among, find_managed, or_create, volume_for, server_for, checkpoint,
  unless_cancelled, finish_ready, boot, serve, provision,
}
use irlight.Workflow.Created.{IsOnce, IsOrdered, provision-creates}
use irlight.Workflow.Stop.{stop, finish_cancelled_provisioning}
use irlight.Workflow.Emits.{Phase, phase_after}
use irlight.Workflow.Safety.{all_returned, cleanup_resources-true}
use irlight.Workflow.Revocation.{stop-order, finish_cancelled_provisioning-order}
use irlight.Session.Value

abbrev readings : Readings
readings = record {
  lease_clock = Raw.number (pos 20);
  new_clock = Raw.number (pos 20);
  clock = Raw.number (pos 20);
  fresh_id = "l-1";
}

abbrev row : Kind → String → Resource
row kind id = record {
  kind = kind;
  provider_id = id;
  session_id = some "s-1";
  user_id = "alice";
  created_at = Moment.at (pos 0);
  delete_after = none;
}

abbrev without : String → List Resource → List Resource
without id [] = []
without id (r ∷ rs) = if r.provider_id =s id then without id rs else r ∷ without id rs

abbrev tag : String → Candidate
tag id = record {
  provider_id = id;
  public_ipv4 = none;
  session_id = some "s-1";
  managed = some "true";
  user_id = some "alice";
  environment = some "prod";
}

abbrev cloud : Services (List Resource)
cloud = record {
  between = λ e. e;
  readings = λ w. readings;
  list_managed_resources = λ w. some w;
  list_servers = λ w. some (tag "vm-1" ∷ []);
  list_volumes = λ w. some (tag "vol-1" ∷ []);
  create_volume = λ tags w. (none, w);
  create_server = λ volume tags w. (none, w);
  delete_server = λ id w. (true, without id w);
  delete_volume = λ id w. (true, without id w);
  revoke_session = λ id w. (true, w);
}

abbrev stopping_session : Session
stopping_session = record (blank_session "s-1" "alice" "prod" "DIRECT_PUSH" 5 none) {
  status = Status.stopping;
}

abbrev lease : Lease
lease = lease_until "l-1" (Scope.session cleanup_states) 10 (10 + 900 * second)

abbrev state : State
state = record {
  sessions = ("s-1", stopping_session) ∷ [];
  leases = ("s-1", lease) ∷ [];
  authoritative = true;
}

abbrev world : World (List Resource)
world = record {
  disk = record { file = some (Content.payload (payload_of state)); initialized = true };
  outside = row Kind.volume "vol-1" ∷ row Kind.server "vm-1" ∷ [];
  calls = [];
}

cleaned_lem : (cleanup_resources cloud "s-1" "l-1" world).0 ≡ ok true
unfolding cleanup_resources owned_resources owned_among resource_environment delete_each
    delete_volumes call managed_resources all_candidates try_delete ◌>>=◌ locked load valid_payload
    valid_session valid_lease get session_cleanup_still_owned active_cleanup_lease
    validated_timestamp Value.◌>>=◌
cleaned_lem = refl

cleanup_resources-true_example :
    (es : List Effect) × (q : Phase) × ((cleanup_resources cloud "s-1" "l-1" world).1.calls
      ≡ [] ++ es)
    × (phase_after (some Phase.servers) es ≡ some q)
    × (all_returned es ≡ true)
cleanup_resources-true_example = cleanup_resources-true cloud "s-1" "l-1" world cleaned_lem

stop-order_example :
    (es : List Effect) × (q : Phase) × ((stop cloud "s-1" world).1.calls ≡ [] ++ es)
    × (phase_after (some Phase.start) es ≡ some q)
stop-order_example = stop-order cloud "s-1" world

finish_cancelled_provisioning-order_example :
    (es : List Effect) × (q : Phase) × ((finish_cancelled_provisioning cloud "s-1" world).1.calls
      ≡ [] ++ es)
    × (phase_after (some Phase.start) es ≡ some q)
finish_cancelled_provisioning-order_example = finish_cancelled_provisioning-order cloud "s-1" world

-- An empty cloud that makes what it is asked for, and a Session whose provisioning was claimed.
abbrev maker : Services (List Resource)
maker = record cloud {
  list_servers = λ w. some [];
  list_volumes = λ w. some [];
  create_volume = λ tags w. (some (tag "vol-1"), row Kind.volume "vol-1" ∷ w);
  create_server = λ volume tags w. (some (tag "vm-1"), row Kind.server "vm-1" ∷ w);
}

abbrev prepare_call : PrepareCall
prepare_call = record {
  session_id = "s-1";
  user_id = some "alice";
  environment = "prod";
  handshake = true;
  operation_id = "op-1";
  started_at = Raw.number (pos 6);
  ready_at = Raw.number (pos 30);
}

abbrev claimed_state : State
claimed_state = record {
  sessions =
      ("s-1", claimed "op-1" 6 6 (blank_session "s-1" "alice" "prod" "DIRECT_PUSH" 5 none)) ∷ [];
  leases = [];
  authoritative = true;
}

abbrev claimed_world : World (List Resource)
claimed_world = record {
  disk = record { file = some (Content.payload (payload_of claimed_state)); initialized = true };
  outside = [];
  calls = [];
}

made_lem :
    (provision maker (λ e. "") prepare_call claimed_world).1.calls
    ≡ created Kind.volume true ∷ created Kind.server true ∷ []
unfolding provision volume_for find_managed managed_among candidates_of or_create create_volume
    checkpoint unless_cancelled serve server_for create_server boot finish_ready call ◌>>=◌ locked
    load valid_payload valid_session valid_lease provisioning_checkpoint validated_timestamp
    validate_changes Value.◌>>=◌ persist
made_lem = refl

provision-creates_example :
    (volumes : List Effect) × (servers : List Effect) × (es : List Effect) × ((provision maker
        (λ e. "")
        prepare_call
        claimed_world).1.calls
      ≡ [] ++ (volumes ++ (servers ++ es)))
    × IsOnce Kind.volume volumes
    × IsOnce Kind.server servers
    × IsOrdered es
provision-creates_example = provision-creates maker (λ e. "") prepare_call claimed_world
