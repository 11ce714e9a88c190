-- ===== src/Workflow/World.antt =====
-- What apps/control-api/session_workflow.py acts on: the Session store's file, which other processes
-- change before any of its calls, and the cloud provider and the credential store behind interfaces.
use irlight.Base.{Bool, true, false, Option, none, some, List, [], ◌∷◌, ◌++◌, String}
use irlight.Base.Int.{ℤ}
use irlight.Session.Value.{Result, ok, err, Error}
use irlight.Session.Disk.{Disk, Op, locked}
use irlight.Session.Leases.{Readings}

pub data Kind : Type 0 where
  server volume : Kind

-- What `float` makes of a provider's timestamp: a number, one that is never reached (`inf`, `nan`),
-- one that is always past (`-inf`), or an exception.
pub data Moment : Type 0 where
  at : ℤ → Moment
  never always unreadable : Moment

-- A row of `list_managed_resources`.
pub record Resource : Type 0 where
  pub kind : Kind
  pub provider_id : String
  pub session_id : Option String
  pub user_id : String
  pub created_at : Moment
  pub delete_after : Option Moment

-- A row of `list_servers` or `list_volumes`: its id, its address, and its tags `irlight-session-id`,
-- `irlight-managed`, `irlight-user-id` and `irlight-environment`.
pub record Candidate : Type 0 where
  pub provider_id : String
  pub public_ipv4 : Option String
  pub session_id : Option String
  pub managed : Option String
  pub user_id : Option String
  pub environment : Option String

-- What `_metadata` is made of.
pub record Metadata : Type 0 where
  pub user_id : String
  pub environment : String
  pub session_id : String

-- `Provider` and the credential store, over the state `W` of everything outside; `none` and `false`
-- are exceptions. `between` is what other processes do to the file and outside before each call of the
-- store, and `readings` the clock and the UUID that the call reads.
pub record Services (W : Type 0) : Type 0 where
  pub between : Disk × W → Disk × W
  pub readings : W → Readings
  pub list_managed_resources : W → Option (List Resource)
  pub list_servers : W → Option (List Candidate)
  pub list_volumes : W → Option (List Candidate)
  pub create_volume : Metadata → W → Option Candidate × W
  pub create_server : String → Metadata → W → Option Candidate × W
  pub delete_server : String → W → Bool × W
  pub delete_volume : String → W → Bool × W
  pub revoke_session : String → W → Bool × W

-- The calls that change something outside, with whether they returned.
pub data Effect : Type 0 where
  revoked : String → Bool → Effect
  deleted : Kind → String → Bool → Effect
  created : Kind → Bool → Effect

pub record World (W : Type 0) : Type 0 where
  pub disk : Disk
  pub outside : W
  pub calls : List Effect

module _ (W : Type 0) where
  abbrev pub Act {ℓ} : Type ℓ → Type ℓ
  Act A = World W → Result A × World W

module _ {W : Type 0} where
  abbrev pub pass {ℓ κ} :
      {A : Type ℓ} {B : Type κ} → Result A × World W → (A → Act W B) → Result B × World W
  pass (ok a, w) f = f a w
  pass (err e, w) f = (err e, w)

  infixl 5 ◌>>=◌ ◌>>◌
  unfoldable pub ◌>>=◌ {ℓ κ} : {A : Type ℓ} {B : Type κ} → Act W A → (A → Act W B) → Act W B
  ◌>>=◌ m f w = pass (m w) f

  abbrev pub ◌>>◌ {ℓ} : {B : Type ℓ} → Act W (Unit {0}) → Act W B → Act W B
  m >> k = m >>= λ _. k

  abbrev pub return {ℓ} : {A : Type ℓ} → A → Act W A
  return a w = (ok a, w)

  abbrev pub raise {ℓ} : {A : Type ℓ} → Error → Act W A
  raise e w = (err e, w)

  abbrev pub after_release {ℓ} :
      {A : Type ℓ} → Result A → Result (Unit {0}) × World W → Result A × World W
  after_release r (ok u, w) = (r, w)
  after_release r (err e, w) = (err e, w)

  -- `try: m finally: last`.
  unfoldable pub finally {ℓ} : {A : Type ℓ} → Act W A → Act W (Unit {0}) → Act W A
  finally m last w = after_release (m w).0 (last (m w).1)

  abbrev pub or_answer {ℓ} : {A : Type ℓ} → A → Result A × World W → Result A × World W
  or_answer a (ok b, w) = (ok b, w)
  or_answer a (err e, w) = (ok a, w)

  -- `try: m except Exception: a`.
  unfoldable pub caught {ℓ} : {A : Type ℓ} → A → Act W A → Act W A
  caught a m w = or_answer a (m w)

  abbrev pub resume {ℓ κ} :
      {A : Type ℓ} {B : Type κ}
      → Result A × World W
      → (A → Act W B)
      → (Error → Act W B)
      → Result B × World W
  resume (ok a, w) f h = f a w
  resume (err e, w) f h = h e w

  -- `try: m except e: h e else: f`.
  unfoldable pub either {ℓ κ} :
      {A : Type ℓ} {B : Type κ} → Act W A → (A → Act W B) → (Error → Act W B) → Act W B
  either m f h w = resume (m w) f h

  module _ (services : Services W) where
    -- A call of the store: others act first, then one transaction runs.
    unfoldable pub call {ℓ} : {A : Type ℓ} → (Readings → Op A) → Act W A
    call op w =
        let e = services.between (w.disk, w.outside) in
        let r = locked (op (services.readings e.1)) e.0 in
        (r.0, record w { disk = r.1; outside = e.1 })

    abbrev pub listed : Option (List Resource) → Result (List Resource)
    listed none = err Error.runtime_error
    listed (some rs) = ok rs

    abbrev candidates : Option (List Candidate) → Option (List Candidate) → Result (List Candidate)
    candidates (some xs) (some ys) = ok (xs ++ ys)
    candidates _ _ = err Error.runtime_error

    -- `list_managed_resources()`.
    unfoldable pub managed_resources : Act W (List Resource)
    managed_resources w = (listed (services.list_managed_resources w.outside), w)

    abbrev rows_or_raise : Option (List Candidate) → Result (List Candidate)
    rows_or_raise none = err Error.runtime_error
    rows_or_raise (some rows) = ok rows

    abbrev rows_of : Kind → W → Option (List Candidate)
    rows_of Kind.server v = services.list_servers v
    rows_of Kind.volume v = services.list_volumes v

    -- `list_volumes()` or `list_servers()`.
    unfoldable pub candidates_of : Kind → Act W (List Candidate)
    candidates_of kind w = (rows_or_raise (rows_of kind w.outside), w)

    abbrev made : Option Candidate → Result Candidate
    made none = err Error.runtime_error
    made (some c) = ok c

    abbrev was_made : Option Candidate → Bool
    was_made none = false
    was_made (some c) = true

    abbrev recorded : Kind → World W → Option Candidate × W → Result Candidate × World W
    recorded kind w r =
        (made r.0, record w { outside = r.1; calls = w.calls ++ created kind (was_made r.0) ∷ [] })

    -- `create_volume` and `create_server`, which takes the id of its volume.
    unfoldable pub create_volume : Metadata → Act W Candidate
    create_volume tags w = recorded Kind.volume w (services.create_volume tags w.outside)

    unfoldable pub create_server : String → Metadata → Act W Candidate
    create_server volume_id tags w =
        recorded Kind.server w (services.create_server volume_id tags w.outside)

    -- `(*list_servers(), *list_volumes())`.
    unfoldable pub all_candidates : Act W (List Candidate)
    all_candidates w =
        (candidates (services.list_servers w.outside) (services.list_volumes w.outside), w)

    abbrev pub delete_by : Kind → String → W → Bool × W
    delete_by Kind.server id v = services.delete_server id v
    delete_by Kind.volume id v = services.delete_volume id v

    -- `delete_server` or `delete_volume` under `try`: whether it returned.
    unfoldable pub try_delete : Kind → String → Act W Bool
    try_delete kind id w =
        let r = delete_by kind id w.outside in
        (ok r.0, record w { outside = r.1; calls = w.calls ++ deleted kind id r.0 ∷ [] })

    abbrev pub returned : Bool → Result (Unit {0})
    returned true = ok tt
    returned false = err Error.runtime_error

    -- `credential_store.revoke_session`.
    unfoldable pub revoke : String → Act W (Unit {0})
    revoke id w =
        let r = services.revoke_session id w.outside in
        (returned r.0, record w { outside = r.1; calls = w.calls ++ revoked id r.0 ∷ [] })
