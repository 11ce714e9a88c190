-- ===== src/Session/Takeover.antt =====
-- A Session cleanup of apps/control-api/session_store.py whose lease ran out before it was released.
use irlight.Base.{ℕ, ◌+◌, ◌-◌, ◌≤◌, ◌≡◌, true, false, none, some, List, String, arith, ap, ◌∙◌}
use irlight.Base.Dict.{lookup, insert, lookup-insert_self}
use irlight.Base.Int.{ℤ, pos, negsuc, max_ℤ}
use irlight.Base.Text.{◌=s◌, =s_refl}
use irlight.Session.Status.{Status}
use irlight.Session.Value.{
  Raw, ok, ◌>>=◌, validated_timestamp, derived_timestamp, lease_offset, second,
}
use irlight.Session.Record.{State, Lease, Scope}
use irlight.Session.Disk.{Step}
use irlight.Session.Leases.{
  Readings, active_cleanup_lease, claim_session_cleanup, session_cleanup_still_owned, grant,
  or_default, lease_until, status_in,
}
use irlight.Session.Outcome.{Saves-elim}
use irlight.Session.Exclusion.{active_while, active_after, claim_allowed, claim-Grants}

-- A period of at least a second.
at_least_second : (z : ℤ) → (k : ℕ) × (max_ℤ (pos second) z ≡ pos (second + k))
at_least_second (pos p) = (p - second, ground arith)
at_least_second (negsuc p) = (0, ground arith)

derived_sum : (m k : ℕ) → derived_timestamp m (Raw.number (pos k)) ≡ ok (m + k)
unfolding derived_timestamp validated_timestamp
derived_sum m k = ground arith

-- A grant at a checked time for a number of seconds.
grant-number :
    (st : State) (id : String) (scope : Scope) (r : Readings) (z : ℤ) (m : ℕ)
    → r.clock ≡ Raw.number (pos m)
    → (k : ℕ) × (grant st id scope r (Raw.number z)
        ≡ ok (
            Step.save (some r.fresh_id) (record st {
              leases = insert id (lease_until r.fresh_id scope m (m + (second + k))) st.leases;
            })))
unfolding validated_timestamp lease_offset ◌>>=◌
grant-number st id scope r z m clock =
    let (k, long) = at_least_second z in (k, rw (clock, long, derived_sum m (second + k)))

-- Once a granted Session cleanup has expired, the same claim, at checked times, with any number of
-- seconds and a fresh id that is not the old one, is granted, though nobody released the old one;
-- at that time the new owner is confirmed and the old one is not.
pub claim_session_cleanup-passes :
    (id : String) (states : List Status) (secs : Raw) (r : Readings) (st st' : State)
    (lease : String) (l : Lease) (again : Readings) (n m : ℕ) (z : ℤ)
    → claim_session_cleanup id states secs r st ≡ ok (Step.save (some lease) st')
    → lookup id st'.leases ≡ some l
    → again.lease_clock ≡ Raw.number (pos n)
    → l.expires_at ≤ n
    → again.clock ≡ Raw.number (pos m)
    → (again.fresh_id =s lease) ≡ false
    → (st'' : State) × (claim_session_cleanup id states (Raw.number z) again st'
        ≡ ok (Step.save (some again.fresh_id) st''))
      × (session_cleanup_still_owned id again.fresh_id (Raw.number (pos m)) st''
          ≡ ok (Step.keep true))
      × (session_cleanup_still_owned id lease (Raw.number (pos m)) st'' ≡ ok (Step.keep false))
unfolding claim_session_cleanup session_cleanup_still_owned ◌>>=◌
claim_session_cleanup-passes id states secs r st st' lease l again n m z h found at late timed new =
    let (l', named, kept, there, scope, long) =
      Saves-elim (some lease) st' (claim-Grants id states secs r st) h in
    let allowed = claim_allowed id states secs r st st' (some lease) h in
    let allowed' : status_in (lookup id st'.sessions) (or_default states) false ≡ true =
      rw kept allowed in
    let free : active_cleanup_lease st' id again.lease_clock ≡ ok none =
      ap (active_cleanup_lease st' id) at ∙ active_after st' id l n found late in
    let (k, granted) = grant-number st' id (Scope.session (or_default states)) again z m timed in
    let l'' = lease_until again.fresh_id (Scope.session (or_default states)) m (m + (second + k)) in
    let st'' : State = record st' { leases = insert id l'' st'.leases } in
    let active = active_while st'' id l'' m (lookup-insert_self id l'' st'.leases) (omega arith) in
    (
      st'',
      rw (allowed', free) granted,
      rw (active, =s_refl again.fresh_id, allowed'),
      rw (active, new),
    )
