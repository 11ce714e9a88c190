-- ===== src/Workflow/Revocation.antt =====
-- The order of revocation and deletion where apps/control-api/session_workflow.py stops a Session.
use irlight.Base.{◌≡◌, refl, sym, subst, Bool, Option, none, some, List, [], ◌∷◌, ◌++◌, String}
use irlight.Session.Status.{Status, is_in, terminal_states, ◌=st◌}
use irlight.Session.Value.{ok}
use irlight.Session.Record.{Session, Flag, Change}
use irlight.Workflow.World.{Effect, Services, World, Act}
use irlight.Workflow.Stop.{
  move, current_or, existing, or_missing, release, claim, settle_stop, stop_leased, stop_requested,
  stop_running, stop, settle_as, settle_cancelled, finish_leased, finish_cancelled_provisioning,
}
use irlight.Workflow.Emits.{
  Phase, phase_after, From, IsSilent, bind-From, bind-IsSilent, if-IsSilent, if-From, finally-From,
  after_silent,
}
use irlight.Workflow.Safety.{Any, Revoked, quietly, cleanup-From, revoke-From}
use irlight.Workflow.Order.{call-IsSilent}

module _ {W : Type 0} (services : Services W) where
  pub after_revoke :
      {A : Type 0} (m : Act W A)
      → From Phase.servers Any m
      → (u : Unit {0}) (q : Phase) → Revoked (ok u) q
      → From q Any m
  after_revoke m rest u q e = subst (λ (x : Phase). From x Any m) (sym e) rest

  pub move-IsSilent :
      (id : String) (a b : Status) (cs : List Change) → IsSilent (move services id a b cs)
  unfolding move
  move-IsSilent id a b cs = call-IsSilent services _

  missing-IsSilent : (o : Option Session) → IsSilent (or_missing services o)
  unfolding or_missing
  missing-IsSilent none w = refl
  missing-IsSilent (some s) w = refl

  existing-IsSilent : (id : String) → IsSilent (existing services id)
  unfolding existing
  existing-IsSilent id = bind-IsSilent _ _ (call-IsSilent services _) missing-IsSilent

  current_or-IsSilent : (id : String) (s : Session) → IsSilent (current_or services id s)
  unfolding current_or
  current_or-IsSilent id s = bind-IsSilent _ _ (call-IsSilent services _) (λ found w. refl)

  pub release-IsSilent : (id lease : String) → IsSilent (release services id lease)
  unfolding release
  release-IsSilent id lease = call-IsSilent services _

  pub claim-IsSilent : (id : String) → IsSilent (claim services id)
  unfolding claim
  claim-IsSilent id = call-IsSilent services _

  settle_stop-From : (id lease : String) → From Phase.servers Any (settle_stop services id lease)
  unfolding settle_stop
  settle_stop-From id lease =
      bind-From _ _ _ (cleanup-From services id lease)
        (λ cleaned q h.
          quietly q _ (if-IsSilent cleaned _ _ (move-IsSilent id _ _ _) (move-IsSilent id _ _ _)))
        (λ e q h. tt)

  stop_leased-From :
      (id : String) (s : Session) (o : Option String)
      → From Phase.servers Any (stop_leased services id s o)
  unfolding stop_leased
  stop_leased-From id s none = quietly _ _ (current_or-IsSilent id s)
  stop_leased-From id s (some lease) =
      finally-From _ _ _ (settle_stop-From id lease) (release-IsSilent id lease)

  stop_requested-From :
      (id : String) (s : Session) → From Phase.servers Any (stop_requested services id s)
  unfolding stop_requested
  stop_requested-From id s =
      if-From _ (s.flags Flag.provisioning_in_progress) _ _ (quietly _ _ (λ w. refl))
        (after_silent _ _ _ (claim-IsSilent id) (stop_leased-From id s) (λ e. tt))

  stop_running-From : (id : String) → From Phase.start Any (stop_running services id)
  unfolding stop_running
  stop_running-From id =
      after_silent _ _ _ (call-IsSilent services _)
        (λ s.
          bind-From _ _ _ (revoke-From services id) (after_revoke _ (stop_requested-From id s))
            (λ e q h. tt))
        (λ e. tt)

  stop-From : (id : String) → From Phase.start Any (stop services id)
  unfolding stop
  stop-From id =
      after_silent _ _ _ (existing-IsSilent id)
        (λ s.
          if-From _ (is_in s.status terminal_states) _ _
            (bind-From _ _ _ (revoke-From services id) (after_revoke _ (quietly _ _ (λ w. refl)))
              (λ e q h. tt))
            (stop_running-From id))
        (λ e. tt)

  settle_as-IsSilent :
      (id : String) (cleaned : Bool) (s : Session) → IsSilent (settle_as services id cleaned s)
  unfolding settle_as
  settle_as-IsSilent id cleaned s =
      if-IsSilent (s.status =st Status.stopping) _ _
        (if-IsSilent cleaned _ _ (move-IsSilent id _ _ _) (move-IsSilent id _ _ _))
        (if-IsSilent (s.status =st Status.failed_cleanup) _ _
          (if-IsSilent cleaned _ _ (move-IsSilent id _ _ _) (call-IsSilent services _)) (λ w. refl))

  finish_leased-From :
      (id : String) (s : Session) (o : Option String)
      → From Phase.servers Any (finish_leased services id s o)
  unfolding finish_leased settle_cancelled
  finish_leased-From id s none = quietly _ _ (λ w. refl)
  finish_leased-From id s (some lease) =
      finally-From _ _ _
        (bind-From _ _ _ (cleanup-From services id lease)
          (λ cleaned q h.
            quietly q _ (bind-IsSilent _ _ (existing-IsSilent id) (settle_as-IsSilent id cleaned)))
          (λ e q h. tt))
        (release-IsSilent id lease)

  pub finish-From : (id : String) → From Phase.start Any (finish_cancelled_provisioning services id)
  unfolding finish_cancelled_provisioning
  finish-From id =
      after_silent _ _ _ (existing-IsSilent id)
        (λ s.
          if-From _ (is_in s.status (Status.stopping ∷ Status.failed_cleanup ∷ [])) _ _
            (bind-From _ _ _ (revoke-From services id)
              (after_revoke _
                (after_silent _ _ _ (claim-IsSilent id) (finish_leased-From id s) (λ e. tt)))
              (λ e q h. tt))
            (quietly _ _ (λ w. refl)))
        (λ e. tt)

module _ {W : Type 0} (services : Services W) (id : String) where
  -- Whatever others do meanwhile and whatever fails, the calls that `stop` makes outside are in
  -- order: the credentials are revoked first, nothing is deleted where that failed, then servers
  -- are deleted, and volumes only where no server's deletion failed.
  pub stop-order :
      (w : World W)
      → (es : List Effect) × (q : Phase) × ((stop services id w).1.calls ≡ w.calls ++ es)
        × (phase_after (some Phase.start) es ≡ some q)
  stop-order w =
      let (es, q, called, there, u) = (stop-From services id).runs w in (es, q, called, there)

  -- The calls that `_finish_cancelled_provisioning` makes outside are in the same order: the
  -- credentials first, then servers, and volumes only where no server's deletion failed.
  pub finish_cancelled_provisioning-order :
      (w : World W)
      → (es : List Effect) × (q : Phase) × ((finish_cancelled_provisioning services id w).1.calls
          ≡ w.calls ++ es)
        × (phase_after (some Phase.start) es ≡ some q)
  finish_cancelled_provisioning-order w =
      let (es, q, called, there, u) = (finish-From services id).runs w in (es, q, called, there)
