-- ===== src/Reaper/Examples.antt =====
-- The theorems on apps/control-api/reaper.py for a cloud that holds the server of an ended Session.
use irlight.Base.{◌≡◌, ◌*◌, true, none, some, List, [], ◌∷◌, ◌++◌, String, if◌then◌else◌}
use irlight.Base.Text.{◌=s◌}
use irlight.Base.Int.{pos}
use irlight.Session.Status.{Status}
use irlight.Session.Value.{Raw, second}
use irlight.Session.Record.{State, blank_session}
use irlight.Session.Disk.{Content, payload_of}
use irlight.Session.Leases.{Readings}
use irlight.Session.Node.{authoritative_snapshot}
use irlight.Workflow.World.{Kind, Moment, Resource, Effect, Services, World, call}
use irlight.Reaper.Config.{ReaperConfig}
use irlight.Reaper.Sweep.{passes}
use irlight.Reaper.Orphans.{cleanup_orphans}
use irlight.Reaper.Passes.{Rounds, passes-Rounds}
use irlight.Reaper.Unowned.{Sweeps, cleanup_orphans-allowed}

abbrev config : ReaperConfig
config = record {
  provisioning_timeout = 600 * second;
  no_ingest_timeout = 3600 * second;
  hold_timeout = 1800 * second;
  heartbeat_grace = 120 * second;
  orphan_grace = 300 * second;
}

abbrev readings : Readings
readings = record {
  lease_clock = Raw.number (pos (700 * second));
  new_clock = Raw.number (pos (700 * second));
  clock = Raw.number (pos (700 * second));
  fresh_id = "l-1";
}

abbrev row : Resource
row = record {
  kind = Kind.server;
  provider_id = "vm-1";
  session_id = some "s-1";
  user_id = "alice";
  created_at = Moment.at (pos 0);
  delete_after = none;
}

abbrev without : String → List Resource → List Resource
without id [] = []
without id (r ∷ rs) = if r.provider_id =s id then without id rs else r ∷ without id rs

abbrev cloud : Services (List Resource)
cloud = record {
  between = λ e. e;
  readings = λ w. readings;
  list_managed_resources = λ w. some w;
  list_servers = λ w. some [];
  list_volumes = λ w. some [];
  create_volume = λ tags w. (none, w);
  create_server = λ volume tags w. (none, w);
  delete_server = λ id w. (true, without id w);
  delete_volume = λ id w. (true, without id w);
  revoke_session = λ id w. (true, w);
}

-- One Session that was provisioned too long ago, and one that has ended.
abbrev state : State
state = record {
  sessions =
      (
        "s-2",
        record (blank_session "s-2" "bob" "prod" "DIRECT_PUSH" 0 none) {
          status = Status.provisioning;
        },
      )
      ∷ (
        "s-1",
        record (blank_session "s-1" "alice" "prod" "DIRECT_PUSH" 0 none) {
          status = Status.finished;
        },
      )
      ∷ [];
  leases = [];
  authoritative = true;
}

abbrev world : World (List Resource)
world = record {
  disk = record { file = some (Content.payload (payload_of state)); initialized = true };
  outside = row ∷ [];
  calls = [];
}

passes-Rounds_example :
    (es : List Effect) × ((passes cloud config (700 * second) none world).1.calls ≡ [] ++ es)
    × Rounds es
passes-Rounds_example = passes-Rounds cloud config (700 * second) none world

cleanup_orphans-allowed_example :
    Sweeps cloud config
      (700 * second)
      (call cloud (λ c. authoritative_snapshot) world)
      []
      (cleanup_orphans cloud config (700 * second) world).1.calls
cleanup_orphans-allowed_example = cleanup_orphans-allowed cloud config (700 * second) world
