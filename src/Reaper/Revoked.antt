-- ===== src/Reaper/Revoked.antt =====
-- What the reaper of apps/control-api/reaper.py does outside for one Session, from the revocation of its
-- credentials on.
use irlight.Base.{
  refl, sym, subst, ℕ, ◌-◌, Bool, true, false, Option, none, some, String, if◌then◌else◌, leb,
}
use irlight.Base.Text.{◌=?◌}
use irlight.Session.Status.{is_in, terminal_states}
use irlight.Session.Value.{ok}
use irlight.Session.Record.{Session, Flag}
use irlight.Workflow.World.{Services, Act, ◌>>=◌}
use irlight.Workflow.Emits.{
  Phase, From, IsSilent, bind-From, bind-IsSilent, if-IsSilent, if-From, finally-From, after_silent,
}
use irlight.Workflow.Order.{call-IsSilent}
use irlight.Workflow.Safety.{Any, quietly, weaken}
use irlight.Workflow.Revocation.{move-IsSilent, claim-IsSilent, release-IsSilent}
use irlight.Reaper.Config.{ReaperConfig, try_revoke}
use irlight.Reaper.Cleanup.{cleanup_resources}
use irlight.Reaper.Stop.{
  Condition, heartbeat_failed, fail_missing_heartbeat, settle_failed, fail_leased, failed_then,
  fail_and_cleanup, state_before, settle_stopped, stop_leased, claim_stop, provisioning_start,
  stop_provisioned, stop_revoked, stop_running, stopped_then, stop_and_cleanup,
}
use irlight.Reaper.Sweep.{settle_retry, retry_leased, retry}
use irlight.Reaper.Order.{Tried, try_revoke-From, cleanup-From, caught-IsSilent, audit-IsSilent}

module _ {W : Type 0} (services : Services W) where
  -- A part that needs revoked credentials, after the attempt to revoke them.
  after_try :
      {A : Type 0} (id : String) (m other : Act W A)
      → From Phase.servers Any m
      → IsSilent other
      → From Phase.start Any (try_revoke services id >>= λ gone. if gone then m else other)
  after_try id m other rest quiet = bind-From _ _ _ (try_revoke-From services id) go (λ e q h. tt)
    where
      go :
          (gone : Bool) (q : Phase)
          → Tried services (ok gone) q
          → From q Any (if gone then m else other)
      go true q e = subst (λ (x : Phase). From x Any m) (sym e) rest
      go false q u = quietly q _ quiet

  -- A cleanup, and what is stored after it.
  settled :
      {A : Type 0} (id lease : String) (f : Bool → Act W A)
      → ((cleaned : Bool) → IsSilent (f cleaned))
      → From Phase.servers Any (cleanup_resources services id lease >>= f)
  settled id lease f quiet =
      bind-From _ _ _ (cleanup-From services id lease) (λ cleaned q h. quietly q _ (quiet cleaned))
        (λ e q h. tt)

module _ {W : Type 0} (services : Services W) (config : ReaperConfig) where
  heartbeat_failed-From :
      (s : Session) (last : Option ℕ) (now : ℕ) (o : Option Session)
      → From Phase.start Any (heartbeat_failed services config s last now o)
  unfolding heartbeat_failed
  heartbeat_failed-From s last now none = quietly _ _ (λ w. refl)
  heartbeat_failed-From s last now (some t) =
      after_silent _ _ _ (audit-IsSilent services _ _ _ _ _)
        (λ u. weaken _ _ (λ r q h. tt) (try_revoke-From services s.session_id)) (λ e. tt)

  pub heartbeat-From :
      (s : Session) (last : Option ℕ) (now : ℕ)
      → From Phase.start Any (fail_missing_heartbeat services config s last now)
  unfolding fail_missing_heartbeat
  heartbeat-From s last now =
      after_silent _ _ _ (caught-IsSilent none _ (call-IsSilent services _))
        (heartbeat_failed-From s last now) (λ e. tt)

  fail_leased-From :
      (id reason code : String) (now : ℕ) (o : Option String)
      → From Phase.servers Any (fail_leased services config id reason code now o)
  unfolding fail_leased settle_failed
  fail_leased-From id reason code now none = quietly _ _ (λ w. refl)
  fail_leased-From id reason code now (some lease) =
      finally-From _ _ _
        (settled services id lease _ λ cleaned.
          if-IsSilent cleaned _ _
            (bind-IsSilent _ _ (move-IsSilent services id _ _ _)
              (λ s. bind-IsSilent _ _ (audit-IsSilent services _ _ _ _ _) (λ u w. refl)))
            (λ w. refl))
        (release-IsSilent services id lease)

  failed_then-From :
      (id reason code : String) (now : ℕ) (o : Option Session)
      → From Phase.start Any (failed_then services config id reason code now o)
  unfolding failed_then
  failed_then-From id reason code now none = quietly _ _ (λ w. refl)
  failed_then-From id reason code now (some s) =
      after_try services id _ _
        (after_silent _ _ _ (claim-IsSilent services id) (fail_leased-From id reason code now)
          (λ e. tt))
        (λ w. refl)

  pub fail-From :
      (id reason code : String) (condition : Condition) (now : ℕ)
      → From Phase.start Any (fail_and_cleanup services config id reason code condition now)
  unfolding fail_and_cleanup
  fail-From id reason code condition now =
      after_silent _ _ _ (caught-IsSilent none _ (call-IsSilent services _))
        (failed_then-From id reason code now) (λ e. tt)

  stop_leased-From :
      (id code : String) (now : ℕ) (o : Option String)
      → From Phase.servers Any (stop_leased services config id code now o)
  unfolding stop_leased settle_stopped
  stop_leased-From id code now none = quietly _ _ (λ w. refl)
  stop_leased-From id code now (some lease) =
      finally-From _ _ _
        (settled services id lease _ λ cleaned.
          if-IsSilent cleaned _ _
            (bind-IsSilent _ _ (move-IsSilent services id _ _ _)
              (λ s. bind-IsSilent _ _ (audit-IsSilent services _ _ _ _ _) (λ u w. refl)))
            (bind-IsSilent _ _ (move-IsSilent services id _ _ _) (λ s w. refl)))
        (release-IsSilent services id lease)

  claim_stop-From :
      (id code : String) (now : ℕ) → From Phase.servers Any (claim_stop services config id code now)
  unfolding claim_stop
  claim_stop-From id code now =
      after_silent _ _ _ (claim-IsSilent services id) (stop_leased-From id code now) (λ e. tt)

  stop_provisioned-From :
      (id code : String) (now : ℕ) (s : Session)
      → From Phase.servers Any (stop_provisioned services config id code now s)
  unfolding stop_provisioned
  stop_provisioned-From id code now s =
      if-From _ (s.flags Flag.provisioning_in_progress) _ _
        (if-From _
          (leb (now - provisioning_start services config s now) config.provisioning_timeout) _ _
          (quietly _ _ (λ w. refl))
          (after_silent _ _ _ (call-IsSilent services _) (λ t. claim_stop-From id code now)
            (λ e. tt)))
        (claim_stop-From id code now)

  stopped_then-From :
      (id code : String) (now : ℕ) (from : Option String) (o : Option Session)
      → From Phase.start Any (stopped_then services config id code now from o)
  unfolding stopped_then stop_running stop_revoked
  stopped_then-From id code now from none = quietly _ _ (λ w. refl)
  stopped_then-From id code now from (some s) =
      if-From _ (is_in s.status terminal_states) _ _ (quietly _ _ (λ w. refl)) (
        after_try services id _ _
          (after_silent _ _ _
            (if-IsSilent (from =? some "STOPPING") _ _ (λ w. refl)
              (audit-IsSilent services _ _ _ _ _))
            (λ u. stop_provisioned-From id code now s) (λ e. tt))
          (λ w. refl))

  state_before-IsSilent :
      (id : String) (condition : Condition) → IsSilent (state_before services config id condition)
  unfolding state_before
  state_before-IsSilent id none = bind-IsSilent _ _ (call-IsSilent services _) (λ found w. refl)
  state_before-IsSilent id (some (status, fields)) = λ w. refl

  pub stop-From :
      (id code : String) (condition : Condition) (now : ℕ)
      → From Phase.start Any (stop_and_cleanup services config id code condition now)
  unfolding stop_and_cleanup
  stop-From id code condition now =
      after_silent _ _ _ (state_before-IsSilent id condition)
        (λ from.
          after_silent _ _ _ (caught-IsSilent none _ (call-IsSilent services _))
            (stopped_then-From id code now from) (λ e. tt))
        (λ e. tt)

  retry_leased-From :
      (now : ℕ) (s : Session) (o : Option String)
      → From Phase.servers Any (retry_leased services config now s o)
  unfolding retry_leased settle_retry
  retry_leased-From now s none = quietly _ _ (λ w. refl)
  retry_leased-From now s (some lease) =
      finally-From _ _ _
        (settled services s.session_id lease _ λ cleaned.
          if-IsSilent cleaned _ _
            (bind-IsSilent _ _ (move-IsSilent services s.session_id _ _ _)
              (λ t. audit-IsSilent services _ _ _ _ _))
            (λ w. refl))
        (release-IsSilent services s.session_id lease)

  pub retry-From : (now : ℕ) (s : Session) → From Phase.start Any (retry services config now s)
  unfolding retry
  retry-From now s =
      after_try services s.session_id _ _
        (after_silent _ _ _ (claim-IsSilent services s.session_id) (retry_leased-From now s)
          (λ e. tt))
        (λ w. refl)
