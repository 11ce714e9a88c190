-- ===== src/Reaper/Cleanup.antt =====
-- `_cleanup_resources` of apps/control-api/reaper.py.
use irlight.Base.{Bool, true, false, ◌&&◌, some, List, [], ◌∷◌, String, if◌then◌else◌, any}
use irlight.Base.Text.{◌=?◌}
use irlight.Workflow.World.{Kind, Resource, Services, Act, ◌>>=◌, return, managed_resources}
use irlight.Workflow.Cleanup.{is_kind, delete_each}

-- `resource.session_id == session_id and resource.kind == kind`.
abbrev pub is_of : String → Kind → Resource → Bool
is_of session_id kind r = (r.session_id =? some session_id) && is_kind kind r

abbrev pub rows_of : String → Kind → List Resource → List Resource
rows_of session_id kind [] = []
rows_of session_id kind (r ∷ rs) =
    if is_of session_id kind r then r ∷ rows_of session_id kind rs else rows_of session_id kind rs

module _ {W : Type 0} (services : Services W) where
  -- The part after the servers are deleted.
  unfoldable pub clear_volumes : String → String → List Resource → Act W Bool
  clear_volumes session_id lease remaining =
      if any (is_of session_id Kind.server) remaining
      then return false
      else delete_each services Kind.volume session_id lease
          (rows_of session_id Kind.volume remaining) true

  -- `_cleanup_resources`, which every caller gives a lease. Its loops are those of session_workflow.py.
  unfoldable pub cleanup_resources : String → String → Act W Bool
  cleanup_resources session_id lease = do
    resources ← managed_resources services
    fine ←
        delete_each services Kind.server session_id lease (rows_of session_id Kind.server resources)
          true
    if fine then (managed_resources services >>= clear_volumes session_id lease) else return false
