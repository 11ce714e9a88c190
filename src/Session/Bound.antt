-- ===== src/Session/Bound.antt =====
-- What a prepare request meets that comes after one that `begin_prepare` (apps/control-api/session_store.py)
-- has bound.
use irlight.Base.{
  ℕ, ◌≡◌, refl, ◌∙◌, ap, subst, ◌⊎◌, inl, inr, Bool, true, false, not, Option, none, some, String,
  arith,
}
use irlight.Base.Dict.{lookup, lookup-insert_self}
use irlight.Base.Text.{◌=s◌, =s_iff, =s_refl, =?_refl}
use irlight.Session.Status.{Status}
use irlight.Session.Value.{Raw, ok, err, Error, ◌>>=◌, >>=-ok}
use irlight.Session.Record.{Session, State, TextField, new_session}
use irlight.Session.Disk.{Step}
use irlight.Session.Events.{put_session}
use irlight.Session.Leases.{Readings, reject_active_cleanup_lease}
use irlight.Session.Prepare.{
  PrepareArgs, begin_prepare, begin_slot, begin_new, replay_or, replay_of, get_prepare_replay,
  or_new, is_finished, is_disabled, same_request, configured_request, request_of, bind_request,
}
use irlight.Session.Outcome.{
  Saves, keeps, saves, fails, bind-Saves, guard-Saves, if-Saves, Saves-elim,
}

new_session-fields :
    (clock : Raw) (fresh user env egress : String) (hours : Raw) (s : Session)
    → new_session clock fresh user env egress hours ≡ ok s
    → (s.user_id ≡ user) × (s.status ≡ Status.stopped)
unfolding new_session ◌>>=◌
new_session-fields clock fresh user env egress hours s h = ground arith

-- The Session that a request is bound to: of the same user, and not over.
abbrev IsOpenFor : String → Session → Type 0
IsOpenFor user s = (s.user_id ≡ user) × (is_finished s.status ≡ false)

-- What `begin_prepare` writes.
abbrev Binds : String → PrepareArgs → State → Session × Bool → State → Type 0
Binds id a st answer st' =
    (s : Session) × (now : ℕ) × (answer ≡ (bind_request a now s, false))
    × (st' ≡ put_session st id (bind_request a now s))
    × IsOpenFor a.user_id s

module _ (id : String) (a : PrepareArgs) (r : Readings) (st : State) where
  or_new-IsOpenFor :
      (o : Option Session) (s : Session)
      → ((t : Session) → o ≡ some t → IsOpenFor a.user_id t)
      → or_new o id a.user_id a.environment a.egress_mode r ≡ ok s
      → IsOpenFor a.user_id s
  or_new-IsOpenFor (some t) s h e =
      let same : t ≡ s = ground arith in subst (IsOpenFor a.user_id) same (h t refl)
  or_new-IsOpenFor none s h e =
      let (t, drawn, e') = >>=-ok _ _ e in
      let (user, status) = new_session-fields _ _ _ _ _ _ t drawn in
      let renamed : record t { session_id = id } ≡ s = ground arith in
      subst (IsOpenFor a.user_id) renamed (user, rw status refl)

  begin_new-Binds :
      (o : Option Session)
      → ((t : Session) → o ≡ some t → IsOpenFor a.user_id t)
      → Saves (Binds id a st) (begin_new id a r o st)
  begin_new-Binds o h = guard-Saves _ _ _ λ _. bind-Saves _ _ λ s drawn.
      bind-Saves _ _ λ now _. saves _ _ (s, now, refl, refl, or_new-IsOpenFor o s h drawn)

  replay_or-Binds :
      (s : Session) (key : Option String)
      → IsOpenFor a.user_id s
      → Saves (Binds id a st) (replay_or a s key (begin_new id a r (some s) st))
  replay_or-Binds s none h =
      begin_new-Binds (some s)
        λ t e. let same : s ≡ t = ground arith in subst (IsOpenFor a.user_id) same h
  replay_or-Binds s (some key) h =
      if-Saves (not (same_request (configured_request s) (request_of a))) _ _ (λ _. fails _)
        (λ _. if-Saves (not (key =s a.idempotency_key)) _ _ (λ _. fails _) (λ _. keeps _))

  begin_slot-Binds : (o : Option Session) → Saves (Binds id a st) (begin_slot id a r o st)
  begin_slot-Binds none = begin_new-Binds none λ t e. absurd (cc e)
  begin_slot-Binds (some s) =
      if-Saves (not (s.user_id =s a.user_id)) _ _ (λ _. fails _)
        (λ mine.
          if-Saves (is_finished s.status) _ _ (λ _. fails _)
            (λ open_.
              replay_or-Binds s (s.texts TextField.idempotency_key)
                (ground (arith, =s_iff s.user_id a.user_id), open_)))

  begin_prepare-Binds : Saves (Binds id a st) (begin_prepare id a r st)
  unfolding begin_prepare
  begin_prepare-Binds =
      guard-Saves _ _ _ λ _. bind-Saves _ _ λ _ _. begin_slot-Binds (lookup id st.sessions)

-- What later requests see of a bound Session.
abbrev IsBoundTo : PrepareArgs → Session → Type 0
IsBoundTo a x =
    IsOpenFor a.user_id x
    × (x.texts TextField.idempotency_key ≡ some a.idempotency_key)
    × (x.prepare_request ≡ some (request_of a))

bound_Session :
    (id : String) (a : PrepareArgs) (r : Readings) (st : State) (s : Session) (fresh : Bool)
    (st' : State)
    → begin_prepare id a r st ≡ ok (Step.save (s, fresh) st')
    → (fresh ≡ false) × (lookup id st'.sessions ≡ some s) × IsBoundTo a s
bound_Session id a r st s fresh st' h =
    let (old, now, answer, written, open_for) =
      Saves-elim (s, fresh) st' (begin_prepare-Binds id a r st) h in
    let x : Session = bind_request a now old in
    let same : x ≡ s = ground arith in
    let there : lookup id st'.sessions ≡ some x =
      ap (λ (t : State). lookup id t.sessions) written ∙ lookup-insert_self id x st.sessions in
    (ground arith, there ∙ ap some same, subst (IsBoundTo a) same (open_for, refl, refl))

same_request_refl : (a : PrepareArgs) → same_request (request_of a) (request_of a) ≡ true
same_request_refl a =
    ground (arith, =s_refl a.environment, =?_refl a.destination_id, =s_refl a.egress_mode)

begin_slot-replay :
    (id : String) (a : PrepareArgs) (again : Readings) (st : State) (s : Session)
    → IsBoundTo a s
    → begin_slot id a again (some s) st ≡ ok (Step.keep (s, true))
begin_slot-replay id a again st s ((user, open_), key, bound) =
    rw (user, =s_refl a.user_id, open_, key, bound, same_request_refl a, =s_refl a.idempotency_key)

replay_of-bound :
    (a : PrepareArgs) (s : Session) → IsBoundTo a s → replay_of a (some s) ≡ ok (Step.keep (some s))
replay_of-bound a s ((user, open_), key, bound) =
    rw (user, =s_refl a.user_id, key, =s_refl a.idempotency_key, bound, same_request_refl a)

begin_slot-conflict :
    (id : String) (a b : PrepareArgs) (again : Readings) (st : State) (s : Session)
    → IsBoundTo a s
    → b.user_id ≡ a.user_id
    → (same_request (request_of a) (request_of b) ≡ false)
      ⊎ ((a.idempotency_key =s b.idempotency_key) ≡ false)
    → begin_slot id b again (some s) st ≡ err Error.invalid_transition
begin_slot-conflict id a b again st s ((user, open_), key, bound) same (inl other) =
    rw (user, same, =s_refl a.user_id, open_, key, bound, other)
begin_slot-conflict id a b again st s ((user, open_), key, bound) same (inr other) =
    rw (user, same, =s_refl a.user_id, open_, key, bound, other) (ground arith)

module _ (id : String) (a : PrepareArgs) (r : Readings) (st : State) where
  -- A request that was bound anew is answered alike when it is sent again, by `get_prepare_replay`
  -- and, while no cleanup lease is active and the entitlement is not disabled, by `begin_prepare`,
  -- which then writes nothing.
  pub begin_prepare-replay :
      (s : Session) (fresh : Bool) (st' : State) (again : Readings)
      → begin_prepare id a r st ≡ ok (Step.save (s, fresh) st')
      → is_disabled a.max_concurrent_sessions ≡ false
      → reject_active_cleanup_lease st' id again.lease_clock ≡ ok tt
      → (fresh ≡ false)
        × (get_prepare_replay id a st' ≡ ok (Step.keep (some s)))
        × (begin_prepare id a again st' ≡ ok (Step.keep (s, true)))
  unfolding begin_prepare get_prepare_replay ◌>>=◌
  begin_prepare-replay s fresh st' again h enabled free =
      let (new, there, bound) = bound_Session id a r st s fresh st' h in
      (
        new,
        rw there (replay_of-bound a s bound),
        rw (enabled, free, there) (begin_slot-replay id a again st' s bound),
      )

  -- Once a request is bound, a request of the same user that differs from it, or has another key,
  -- is refused while no cleanup lease is active and its entitlement is not disabled.
  pub begin_prepare-conflict :
      (b : PrepareArgs) (s : Session) (fresh : Bool) (st' : State) (again : Readings)
      → begin_prepare id a r st ≡ ok (Step.save (s, fresh) st')
      → b.user_id ≡ a.user_id
      → is_disabled b.max_concurrent_sessions ≡ false
      → reject_active_cleanup_lease st' id again.lease_clock ≡ ok tt
      → (same_request (request_of a) (request_of b) ≡ false)
        ⊎ ((a.idempotency_key =s b.idempotency_key) ≡ false)
      → begin_prepare id b again st' ≡ err Error.invalid_transition
  unfolding begin_prepare ◌>>=◌
  begin_prepare-conflict b s fresh st' again h user enabled free differs =
      let (_, there, bound) = bound_Session id a r st s fresh st' h in
      rw (enabled, free, there) (begin_slot-conflict id a b again st' s bound user differs)
