-- ===== src/Workflow/Cleanup.antt =====
-- `_cleanup_resources`, `stop` and `_finish_cancelled_provisioning` of
-- apps/control-api/session_workflow.py.
use irlight.Base.{
  Bool, true, false, not, ◌&&◌, Option, none, some, List, [], ◌∷◌, String, if◌then◌else◌, ◌*◌, any,
}
use irlight.Base.Text.{◌=s◌, ◌=?◌, is_empty}
use irlight.Base.Int.{pos}
use irlight.Session.Value.{Raw, second}
use irlight.Session.Record.{Session}
use irlight.Session.Leases.{session_cleanup_still_owned}
use irlight.Session.Node.{get}
use irlight.Workflow.World.{
  Kind, Resource, Candidate, Services, Act, ◌>>=◌, return, call, managed_resources, all_candidates,
  try_delete,
}

-- `lease_seconds=900.0`.
abbrev pub lease_seconds : Raw
lease_seconds = Raw.number (pos (900 * second))

abbrev is_server : Kind → Bool
is_server Kind.server = true
is_server Kind.volume = false

abbrev pub is_kind : Kind → Resource → Bool
is_kind Kind.server r = is_server r.kind
is_kind Kind.volume r = not (is_server r.kind)

-- The first candidate with the id decides.
abbrev pub tagged : String → String → List Candidate → Bool
tagged provider_id expected [] = false
tagged provider_id expected (c ∷ cs) =
    if c.provider_id =s provider_id
    then c.environment =? some expected
    else tagged provider_id expected cs

abbrev pub keep_kind : Kind → List Resource → List Resource
keep_kind kind [] = []
keep_kind kind (r ∷ rs) = if is_kind kind r then r ∷ keep_kind kind rs else keep_kind kind rs

-- `str(current.get(key, ""))` for a Session that may be gone.
abbrev pub user_of : Option Session → String
user_of none = ""
user_of (some s) = s.user_id

abbrev pub environment_of : Option Session → String
environment_of none = ""
environment_of (some s) = s.environment

module _ {W : Type 0} (services : Services W) where
  -- `_resource_environment`.
  unfoldable pub resource_environment : Resource → String → Act W Bool
  resource_environment r expected =
      if is_empty expected
      then return false
      else (all_candidates services >>= λ cs. return (tagged r.provider_id expected cs))

  -- The comprehension over `list_managed_resources()`; the environment is read for rows of the Session
  -- and the user alone.
  unfoldable pub owned_among : String → String → String → List Resource → Act W (List Resource)
  owned_among session_id user environment [] = return []
  owned_among session_id user environment (r ∷ rs) = do
    mine ←
        (if (r.session_id =? some session_id) && (r.user_id =s user)
          then resource_environment r environment
          else return false)
    rest ← owned_among session_id user environment rs
    return (if mine then r ∷ rest else rest)

  unfoldable pub owned_resources : String → String → String → Act W (List Resource)
  owned_resources session_id user environment =
      managed_resources services >>= owned_among session_id user environment

  -- A loop over servers or volumes: it goes on after a deletion that failed, and ends when the lease is
  -- lost. The answer is `ok`, or False where it ended early.
  unfoldable pub delete_each : Kind → String → String → List Resource → Bool → Act W Bool
  delete_each kind session_id lease [] fine = return fine
  delete_each kind session_id lease (r ∷ rs) fine = do
    owned ← call services (λ c. session_cleanup_still_owned session_id lease c.lease_clock)
    if owned
        then (try_delete services kind r.provider_id >>= λ gone.
            delete_each kind session_id lease rs (fine && gone))
        else return false

  -- The part after the servers are deleted.
  unfoldable pub delete_volumes : String → String → List Resource → Act W Bool
  delete_volumes session_id lease remaining =
      if any (is_kind Kind.server) remaining
      then return false
      else delete_each Kind.volume session_id lease (keep_kind Kind.volume remaining) true

  -- `_cleanup_resources`, which every caller gives a lease.
  unfoldable pub cleanup_resources : String → String → Act W Bool
  cleanup_resources session_id lease = do
    current ← call services (λ c. get session_id)
    let user = user_of current
    let environment = environment_of current
    resources ← owned_resources session_id user environment
    fine ← delete_each Kind.server session_id lease (keep_kind Kind.server resources) true
    if fine
        then (owned_resources session_id user environment >>= delete_volumes session_id lease)
        else return false
