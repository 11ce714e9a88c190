-- ===== src/Session/Exclusion.antt =====
-- A cleanup lease of apps/control-api/session_store.py against the other workers, until it expires and after.
use irlight.Base.{
  subst, ℕ, ◌+◌, ◌≤◌, ◌<◌, ◌≡◌, refl, inl, inr, Bool, true, false, Option, none, some, List, String,
  arith, if◌then◌else◌, Bool-cases,
}
use irlight.Base.Dict.{lookup, lookup-insert_self}
use irlight.Base.Int.{pos, negsuc}
use irlight.Base.Text.{=s_refl}
use irlight.Session.Status.{Status}
use irlight.Session.Value.{
  Raw, Result, ok, err, Error, ◌>>=◌, validated_timestamp, derived_timestamp, lease_offset, second,
}
use irlight.Session.Record.{State, Lease, Scope}
use irlight.Session.Disk.{Step}
use irlight.Session.Leases.{
  Readings, active_cleanup_lease, reject_active_cleanup_lease, claim_orphan_cleanup,
  claim_session_cleanup, session_cleanup_still_owned, grant, grant_unless, status_in, or_default,
}
use irlight.Session.Prepare.{PrepareArgs, begin_prepare, is_disabled}
use irlight.Session.Provision.{claim_provisioning}
use irlight.Session.Outcome.{Saves, keeps, saves, bind-Saves, if-Saves, Saves-elim}

-- The lease that a claim leaves behind.
abbrev pub Grants : String → Scope → State → Option String → State → Type 0
Grants id scope st answer st' =
    (l : Lease) × (answer ≡ some l.lease_id)
    × (st'.sessions ≡ st.sessions)
    × (lookup id st'.leases ≡ some l)
    × (l.scope ≡ scope)
    × (l.created_at + second ≤ l.expires_at)

offset_long :
    (now : ℕ) (secs offset : Raw) (t : ℕ)
    → lease_offset secs ≡ ok offset
    → derived_timestamp now offset ≡ ok t
    → now + second ≤ t
unfolding lease_offset derived_timestamp validated_timestamp
offset_long now (Raw.number (pos n)) offset t h k = ground arith
offset_long now (Raw.number (negsuc n)) offset t h k = ground arith
offset_long now _ offset t h k = ground arith

grant-Grants :
    (st : State) (id : String) (scope : Scope) (r : Readings) (secs : Raw) (o : Option Lease)
    → Saves (Grants id scope st) (grant_unless o (grant st id scope r secs))
grant-Grants st id scope r secs none = bind-Saves _ _ λ now _. bind-Saves _ _ λ offset e.
    bind-Saves _ _ λ t k.
      saves _ _
        (_, refl, refl, lookup-insert_self id _ st.leases, refl, offset_long now secs offset t e k)
grant-Grants st id scope r secs (some l) = keeps none

-- While the lease is active the check finds it; afterwards it finds none.
pub active_while :
    (st : State) (id : String) (l : Lease) (n : ℕ)
    → lookup id st.leases ≡ some l
    → n < l.expires_at
    → active_cleanup_lease st id (Raw.number (pos n)) ≡ ok (some l)
unfolding active_cleanup_lease validated_timestamp ◌>>=◌
active_while st id l n there early = ground arith

pub active_after :
    (st : State) (id : String) (l : Lease) (n : ℕ)
    → lookup id st.leases ≡ some l
    → l.expires_at ≤ n
    → active_cleanup_lease st id (Raw.number (pos n)) ≡ ok none
unfolding active_cleanup_lease validated_timestamp ◌>>=◌
active_after st id l n there late = ground arith

if_same : {A : Type 0} (b : Bool) (x : A) → (if b then x else x) ≡ x
if_same true x = refl
if_same false x = refl

module _ (st : State) (id : String) (r : Readings) where
  -- Nobody gets past an active lease.
  abbrev Excludes : Type 0
  Excludes =
      ((states : List Status) (secs : Raw)
        → claim_session_cleanup id states secs r st ≡ ok (Step.keep none))
      × ((res kind : String) (secs : Raw)
          → claim_orphan_cleanup id res kind secs r st ≡ ok (Step.keep none))
      × ((op : String) (t : ℕ)
          → claim_provisioning id op (Raw.number (pos t)) r st
            ≡ err Error.orphan_cleanup_in_progress)
      × ((a : PrepareArgs)
          → is_disabled a.max_concurrent_sessions ≡ false
          → begin_prepare id a r st ≡ err Error.orphan_cleanup_in_progress)

  active-Excludes : (l : Lease) → active_cleanup_lease st id r.lease_clock ≡ ok (some l) → Excludes
  unfolding claim_session_cleanup claim_orphan_cleanup claim_provisioning begin_prepare
      reject_active_cleanup_lease validated_timestamp ◌>>=◌
  active-Excludes l e = (
    λ states secs. rw e (if_same _ _),
    λ res kind secs. rw e (if_same _ _),
    λ op t. rw e,
    λ a h. rw (h, e),
  )

pub claim_allowed :
    (id : String) (states : List Status) (secs : Raw) (r : Readings) (st st' : State)
    (lease : Option String)
    → claim_session_cleanup id states secs r st ≡ ok (Step.save lease st')
    → status_in (lookup id st.sessions) (or_default states) false ≡ true
unfolding claim_session_cleanup
claim_allowed id states secs r st st' lease h =
    elim (Bool-cases (status_in (lookup id st.sessions) (or_default states) false)) [
      | inl allowed ↦ allowed
      | inr refused ↦ absurd (kept (rw refused at h))
    ]
  where
    kept :
        ◌≡◌ {A = Result (Step (Option String))} (ok (Step.keep none)) (ok (Step.save lease st')) → ⊥
    kept e = cc

pub claim-Grants :
    (id : String) (states : List Status) (secs : Raw) (r : Readings) (st : State)
    → Saves
        (Grants id (Scope.session (or_default states)) st)
        (claim_session_cleanup id states secs r st)
unfolding claim_session_cleanup
claim-Grants id states secs r st =
    if-Saves (status_in (lookup id st.sessions) (or_default states) false) _ _
      (λ _. bind-Saves _ _ λ o _. grant-Grants st id _ r secs o) (λ _. keeps none)

-- All that a granted Session cleanup brings about.
granted_effects :
    (id : String) (states : List Status) (secs : Raw) (r : Readings) (st st' : State)
    (lease : String)
    → claim_session_cleanup id states secs r st ≡ ok (Step.save (some lease) st')
    → (l : Lease) × (lookup id st'.leases ≡ some l)
      × (l.created_at + second ≤ l.expires_at)
      × ((n : ℕ)
          → n < l.expires_at
          → session_cleanup_still_owned id lease (Raw.number (pos n)) st' ≡ ok (Step.keep true))
      × ((again : Readings) (n : ℕ)
          → again.lease_clock ≡ Raw.number (pos n)
          → n < l.expires_at
          → Excludes st' id again)
unfolding session_cleanup_still_owned reject_active_cleanup_lease ◌>>=◌
granted_effects id states secs r st st' lease h =
    let (l, named, kept, there, scope, long) =
      Saves-elim (some lease) st' (claim-Grants id states secs r st) h in
    let allowed = claim_allowed id states secs r st st' (some lease) h in
    let name : lease ≡ l.lease_id = ground arith in
    (
      l,
      there,
      long,
      λ n early.
          rw (active_while st' id l n there early, kept, name, =s_refl l.lease_id, scope, allowed),
      λ again n clock early.
          active-Excludes st' id again l (rw clock (active_while st' id l n there early)),
    )

-- A granted Session cleanup stores a lease under the Session's id that lasts at least a second.
pub claim_session_cleanup-lasts :
    (id : String) (states : List Status) (secs : Raw) (r : Readings) (st st' : State)
    (lease : String)
    → claim_session_cleanup id states secs r st ≡ ok (Step.save (some lease) st')
    → (l : Lease) × (lookup id st'.leases ≡ some l)
      × (l.lease_id ≡ lease)
      × (l.created_at + second ≤ l.expires_at)
claim_session_cleanup-lasts id states secs r st st' lease h =
    let (l, named, kept, there, scope, long) =
      Saves-elim (some lease) st' (claim-Grants id states secs r st) h in
    (l, there, cc, long)

-- Until a granted Session cleanup expires its owner is confirmed, and every other cleanup claim,
-- every provisioning claim with a checked start, and every prepare with an entitlement is turned
-- away.
pub claim_session_cleanup-excludes :
    (id : String) (states : List Status) (secs : Raw) (r : Readings) (st st' : State)
    (lease : String) (l : Lease) (again : Readings) (n : ℕ) (others : List Status) (wanted : Raw)
    (res kind op : String) (t : ℕ) (a : PrepareArgs)
    → claim_session_cleanup id states secs r st ≡ ok (Step.save (some lease) st')
    → lookup id st'.leases ≡ some l
    → again.lease_clock ≡ Raw.number (pos n)
    → (n < l.expires_at)
    → is_disabled a.max_concurrent_sessions ≡ false
    → (session_cleanup_still_owned id lease (Raw.number (pos n)) st' ≡ ok (Step.keep true))
      × (claim_session_cleanup id others wanted again st' ≡ ok (Step.keep none))
      × (claim_orphan_cleanup id res kind wanted again st' ≡ ok (Step.keep none))
      × (claim_provisioning id op (Raw.number (pos t)) again st'
          ≡ err Error.orphan_cleanup_in_progress)
      × (begin_prepare id a again st' ≡ err Error.orphan_cleanup_in_progress)
claim_session_cleanup-excludes id states secs r st st' lease l again n others wanted res kind op t a
      h found at early enabled =
    let (l', there, long, owned, shut) = granted_effects id states secs r st st' lease h in
    let sooner : n < l'.expires_at =
      subst (λ (x : Lease). n < x.expires_at) {x = l} {y = l'} (cc (found, there)) early in
    let (sessions, orphans, provisioning, prepare) = shut again n at sooner in
    (
      owned n sooner,
      sessions others wanted,
      orphans res kind wanted,
      provisioning op t,
      prepare a enabled,
    )
