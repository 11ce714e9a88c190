-- ===== src/Session/Leases.antt =====
-- The cleanup leases of apps/control-api/session_store.py: tombstones that keep provisioning and a
-- second worker away from a Session whose provider resources are being deleted.
use irlight.Base.{
  ℕ, Bool, true, false, not, ◌&&◌, Option, none, some, List, [], ◌∷◌, String, leb, if◌then◌else◌,
}
use irlight.Base.Text.{◌=s◌}
use irlight.Base.Dict.{lookup, insert, erase}
use irlight.Session.Status.{Status, is_in, terminal_states}
use irlight.Session.Value.{
  Raw, Result, ok, err, ◌>>=◌, Error, validated_timestamp, derived_timestamp, lease_offset,
}
use irlight.Session.Record.{Session, Lease, Scope, State}
use irlight.Session.Disk.{Op, Step}

-- What a transaction reads from outside: the clock for the lease check, for a new Session and for
-- `updated_at`, in this order, and a fresh UUID.
pub record Readings : Type 0 where
  pub lease_clock : Raw
  pub new_clock : Raw
  pub clock : Raw
  pub fresh_id : String

abbrev pub active_from : Option Lease → Raw → Result (Option Lease)
active_from none clock = ok none
active_from (some l) clock = do
  now ← validated_timestamp clock
  ok (if leb l.expires_at now then none else some l)

-- `_active_cleanup_lease_locked`; the clock is read only where there is a lease.
unfoldable pub active_cleanup_lease : State → String → Raw → Result (Option Lease)
active_cleanup_lease st session_id clock = active_from (lookup session_id st.leases) clock

abbrev pub reject_some : Option Lease → Result (Unit {0})
reject_some none = ok tt
reject_some (some l) = err Error.orphan_cleanup_in_progress

-- `_reject_active_cleanup_lease_locked`.
unfoldable pub reject_active_cleanup_lease : State → String → Raw → Result (Unit {0})
reject_active_cleanup_lease st session_id clock =
    active_cleanup_lease st session_id clock >>= reject_some

abbrev pub status_in : Option Session → List Status → Bool → Bool
status_in none states missing = missing
status_in (some s) states missing = is_in s.status states

abbrev pub lease_until : String → Scope → ℕ → ℕ → Lease
lease_until lease_id scope now expires_at = record {
  lease_id = lease_id;
  scope = scope;
  created_at = now;
  expires_at = expires_at;
}

-- The end of both claims: the expiry, the new lease, and the write.
abbrev pub grant : State → String → Scope → Readings → Raw → Result (Step (Option String))
grant st session_id scope r lease_seconds = do
  now ← validated_timestamp r.clock
  offset ← lease_offset lease_seconds
  expires_at ← derived_timestamp now offset
  ok (
      Step.save (some r.fresh_id) (record st {
        leases = insert session_id (lease_until r.fresh_id scope now expires_at) st.leases;
      }))

abbrev pub grant_unless :
    Option Lease → Result (Step (Option String)) → Result (Step (Option String))
grant_unless none granted = granted
grant_unless (some l) granted = ok (Step.keep none)

-- `claim_orphan_cleanup`: only for a Session that is unknown or terminal, and has no active lease.
unfoldable pub claim_orphan_cleanup : String → String → String → Raw → Readings → Op (Option String)
claim_orphan_cleanup session_id resource kind lease_seconds r st =
    let granted = grant st session_id (Scope.orphan resource kind) r lease_seconds in
    let claim =
      (active_cleanup_lease st session_id r.lease_clock >>= λ l. grant_unless l granted) in
    if status_in (lookup session_id st.sessions) terminal_states true
    then claim
    else ok (Step.keep none)

-- The default of `claim_session_cleanup`.
abbrev pub cleanup_states : List Status
cleanup_states = Status.stopping ∷ Status.failed_cleanup ∷ []

abbrev pub or_default : List Status → List Status
or_default [] = cleanup_states
or_default (s ∷ ss) = s ∷ ss

-- `claim_session_cleanup`; `[]` stands for no `expected_states`, which Python reads alike.
unfoldable pub claim_session_cleanup : String → List Status → Raw → Readings → Op (Option String)
claim_session_cleanup session_id expected lease_seconds r st =
    let allowed = or_default expected in
    let granted = grant st session_id (Scope.session allowed) r lease_seconds in
    let claim =
      (active_cleanup_lease st session_id r.lease_clock >>= λ l. grant_unless l granted) in
    if status_in (lookup session_id st.sessions) allowed false then claim else ok (Step.keep none)

abbrev pub is_orphan : Scope → Bool
is_orphan (Scope.orphan resource kind) = true
is_orphan (Scope.session states) = false

abbrev pub expected_states : Scope → List Status
expected_states (Scope.orphan resource kind) = []
expected_states (Scope.session states) = states

abbrev pub orphan_owned : Option Session → String → Option Lease → Bool
orphan_owned s lease_id none = false
orphan_owned s lease_id (some l) =
    (l.lease_id =s lease_id) && is_orphan l.scope && status_in s terminal_states true

-- `orphan_cleanup_still_owned`.
unfoldable pub orphan_cleanup_still_owned : String → String → Raw → Op Bool
orphan_cleanup_still_owned session_id lease_id clock st = do
  l ← active_cleanup_lease st session_id clock
  ok (Step.keep (orphan_owned (lookup session_id st.sessions) lease_id l))

abbrev pub session_owned : Option Session → String → Option Lease → Bool
session_owned s lease_id none = false
session_owned s lease_id (some l) =
    (l.lease_id =s lease_id)
    && not (is_orphan l.scope)
    && status_in s (expected_states l.scope) false

-- `session_cleanup_still_owned`.
unfoldable pub session_cleanup_still_owned : String → String → Raw → Op Bool
session_cleanup_still_owned session_id lease_id clock st = do
  l ← active_cleanup_lease st session_id clock
  ok (Step.keep (session_owned (lookup session_id st.sessions) lease_id l))

abbrev pub release_if : Bool → String → State → Step (Unit {0})
release_if true session_id st = Step.save tt (record st { leases = erase session_id st.leases })
release_if false session_id st = Step.keep tt

abbrev pub holds : String → Option Lease → Bool
holds lease_id none = false
holds lease_id (some l) = l.lease_id =s lease_id

abbrev pub holds_session : String → Option Lease → Bool
holds_session lease_id none = false
holds_session lease_id (some l) = (l.lease_id =s lease_id) && not (is_orphan l.scope)

-- `release_orphan_cleanup`.
unfoldable pub release_orphan_cleanup : String → String → Op (Unit {0})
release_orphan_cleanup session_id lease_id st =
    ok (release_if (holds lease_id (lookup session_id st.leases)) session_id st)

-- `release_session_cleanup`.
unfoldable pub release_session_cleanup : String → String → Op (Unit {0})
release_session_cleanup session_id lease_id st =
    ok (release_if (holds_session lease_id (lookup session_id st.leases)) session_id st)
