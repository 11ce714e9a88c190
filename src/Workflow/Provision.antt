-- ===== src/Workflow/Provision.antt =====
-- `prepare` of apps/control-api/session_workflow.py, with `_find_managed`.
use irlight.Base.{
  ◌*◌, Bool, true, false, not, ◌&&◌, ◌||◌, Option, none, some, List, [], ◌∷◌, String, if◌then◌else◌,
}
use irlight.Base.Text.{◌=s◌, ◌=?◌, take, is_empty}
use irlight.Base.Int.{pos}
use irlight.Session.Status.{Status, is_in}
use irlight.Session.Value.{Raw, Result, ok, err, Error, second}
use irlight.Session.Record.{Session, TextField, Stamp, Change}
use irlight.Session.Prepare.{create}
use irlight.Session.Provision.{
  claim_provisioning, provisioning_checkpoint, is_cancelled, transition,
}
use irlight.Session.Node.{get}
use irlight.Workflow.World.{
  Kind, Candidate, Metadata, Services, Act, ◌>>=◌, ◌>>◌, return, raise, either, caught, finally,
  call, candidates_of, create_volume, create_server, revoke,
}
use irlight.Workflow.Cleanup.{cleanup_resources}
use irlight.Workflow.Stop.{
  unleased, pending, because, move, claim, release, finish_cancelled_provisioning,
}

-- `tags.get(key) != value` for an owner that may not be asked for.
abbrev pub differs : Option String → Option String → Bool
differs none tag = false
differs (some wanted) tag = not (tag =? some wanted)

-- The loop of `_find_managed`.
unfoldable pub managed_among :
    String → Option String → Option String → List Candidate → Result (Option Candidate)
managed_among session_id user environment [] = ok none
managed_among session_id user environment (c ∷ cs) =
    let rest = managed_among session_id user environment cs in
    if not ((c.session_id =? some session_id) && (c.managed =? some "true"))
    then rest
    else if differs user c.user_id || differs environment c.environment
    then err Error.runtime_error
    else ok (some c)

-- What `prepare` is called with, and what it reads: whether `IRLIGHT_REQUIRE_NODE_READY_HANDSHAKE` asks
-- for the handshake, a fresh id of the operation, the clock at its start and at its end.
pub record PrepareCall : Type 0 where
  pub session_id : String
  pub user_id : Option String
  pub environment : String
  pub handshake : Bool
  pub operation_id : String
  pub started_at : Raw
  pub ready_at : Raw

-- `user_id or "unknown"`.
abbrev pub user_or_unknown : Option String → String
user_or_unknown none = "unknown"
user_or_unknown (some u) = if is_empty u then "unknown" else u

abbrev pub metadata : PrepareCall → Metadata
metadata a = record {
  user_id = user_or_unknown a.user_id;
  environment = a.environment;
  session_id = a.session_id;
}

abbrev pub ready_states : List Status
ready_states = Status.ready_wait_ingest ∷ Status.live ∷ Status.degraded ∷ Status.holding ∷ []

abbrev pub ended_states : List Status
ended_states = Status.finished ∷ Status.failed ∷ Status.stopping ∷ Status.failed_cleanup ∷ []

abbrev pub is_in_progress : Error → Bool
is_in_progress Error.provisioning_in_progress = true
is_in_progress _ = false

abbrev pub was_cancelled : Option Session → Bool
was_cancelled none = false
was_cancelled (some s) = is_cancelled s

-- `str(exc)` is an argument.
module _ {W : Type 0} (services : Services W) (message : Error → String) (a : PrepareCall) where
  abbrev returned {ℓ} : {A : Type ℓ} → Result A → Act W A
  returned r w = (r, w)

  -- `_find_managed` as `prepare` calls it, without an owner.
  unfoldable pub find_managed : Kind → Act W (Option Candidate)
  find_managed kind =
      candidates_of services kind >>= λ cs. returned (managed_among a.session_id none none cs)

  unfoldable pub or_create : Act W Candidate → Option Candidate → Act W Candidate
  or_create make none = make
  or_create make (some c) = return c

  unfoldable pub volume_for : Act W Candidate
  volume_for = find_managed Kind.volume >>= or_create (create_volume services (metadata a))

  unfoldable pub server_for : Candidate → Act W Candidate
  server_for volume =
      find_managed Kind.server
      >>= or_create (create_server services volume.provider_id (metadata a))

  unfoldable pub checkpoint : Option Status → Bool → List Change → Act W Session
  checkpoint next complete changes =
      call services
        λ c. provisioning_checkpoint a.session_id a.operation_id next complete changes c.clock

  -- A cancelled Session is cleaned up in place of the rest.
  unfoldable pub unless_cancelled : Session → Act W Session → Act W Session
  unless_cancelled s rest =
      if is_cancelled s then finish_cancelled_provisioning services a.session_id else rest

  unfoldable pub finish_ready : Session → Act W Session
  finish_ready s =
      if (a.environment =s "prod") && a.handshake
      then return s
      else checkpoint (some Status.ready_wait_ingest) true
          (Change.stamp Stamp.ready_at a.ready_at ∷ [])

  -- The rest, once a server is there.
  unfoldable pub boot : Candidate → Act W Session
  boot server = do
    s ← checkpoint none false (
        Change.text TextField.provider_server_id (some server.provider_id)
        ∷ Change.text TextField.provider_public_ipv4 server.public_ipv4
        ∷ [])
    unless_cancelled s (
        checkpoint (some Status.bootstrapping) false [] >>= λ t.
        unless_cancelled t (finish_ready t))

  unfoldable pub serve : Candidate → Act W Session
  serve volume = server_for volume >>= boot

  -- The body of `try`, after the claim.
  unfoldable pub provision : Act W Session
  provision = do
    volume ← volume_for
    s ←
        checkpoint none false
          (Change.text TextField.provider_volume_id (some volume.provider_id) ∷ [])
    unless_cancelled s (serve volume)

  unfoldable pub fail_cleaned : Bool → Act W (Unit {0})
  fail_cleaned false = return tt
  fail_cleaned true = caught tt (
      move services a.session_id Status.failed_cleanup Status.failed (pending false ∷ []) >>= λ s.
      return tt)

  unfoldable pub fail_leased : Option String → Act W (Unit {0})
  fail_leased none = return tt
  fail_leased (some lease) =
      finally (cleanup_resources services a.session_id lease >>= fail_cleaned)
        (release services a.session_id lease)

  -- A Session that failed is cleaned up, also where its credentials could not be revoked.
  unfoldable pub fail_found : Option Session → Act W (Unit {0})
  fail_found none = return tt
  fail_found (some s) =
      caught tt (revoke services a.session_id) >> (claim services a.session_id >>= fail_leased)

  unfoldable pub fail_current : Error → Act W Session
  fail_current e = do
    failed ← caught none (
        call services (λ c.
          transition a.session_id "FAILED_CLEANUP"
            (some (Status.provisioning ∷ Status.bootstrapping ∷ []))
            (pending true ∷ because (take 500 (message e)) ∷ unleased) c.clock)
        >>= λ s. return (some s))
    fail_found failed
    raise e

  -- `except Exception`.
  unfoldable pub fail_provisioning : Error → Act W Session
  fail_provisioning e = call services (λ c. get a.session_id) >>= λ current.
      if was_cancelled current
      then finish_cancelled_provisioning services a.session_id
      else fail_current e

  -- `except ProvisioningInProgress`, with `claimed`.
  unfoldable pub interrupted : Error → Act W Session
  interrupted e = call services (λ c. get a.session_id) >>= λ current.
      if was_cancelled current then finish_cancelled_provisioning services a.session_id else raise e

  unfoldable pub recover : Error → Act W Session
  recover e = if is_in_progress e then interrupted e else fail_provisioning e

  unfoldable pub unclaimed : Error → Act W Session
  unclaimed e = if is_in_progress e then raise e else fail_provisioning e

  unfoldable pub prepare_stopped : Act W Session
  prepare_stopped =
      either (call services λ c. claim_provisioning a.session_id a.operation_id a.started_at c)
        (λ s. either provision return recover) unclaimed

  unfoldable pub stored_session : Option Session → Act W Session
  stored_session (some s) = return s
  stored_session none = call services λ c.
      create a.session_id (user_or_unknown a.user_id) a.environment "DIRECT_PUSH"
        (Raw.number (pos (12 * second))) c

  unfoldable pub by_status : Session → Act W Session
  by_status s =
      if is_in s.status ready_states
      then return s
      else if is_in s.status ended_states
      then raise Error.runtime_error
      else prepare_stopped

  -- `prepare`.
  unfoldable pub prepare : Act W Session
  prepare = do found ← call services (λ c. get a.session_id); s ← stored_session found; by_status s
